-- ===== src/Rollouts/Batch/Lanes.antt =====
-- One round of the batch is a turn of each sample that is not done.
use mathlib.Core.Path.{ap₂}
use nemo_rl_xtoken.Base.{
  ℕ, zero, suc, ◌+◌, ◌-◌, ◌≤◌, ◌≡◌, refl, sym, ap, Bool, true, false, not, ◌&&◌, ◌||◌, Option, List,
  [], ◌∷◌, ◌++◌, map, arith, length, take, filter, le→ltb_false, leb_false→lt, if◌then◌else◌, All,
  Bool-cases, inl, inr,
}
use nemo_rl_xtoken.Base.Text.{Text}
use nemo_rl_xtoken.Puzzle.Turn.{assistant, Message}
use nemo_rl_xtoken.Rollouts.Rewards.{Request}
use nemo_rl_xtoken.Rollouts.Sample.{
  TokenMessage, Generation, EnvAnswer, flat_tokens, role_and_content, respond, overflows,
  get_or_else,
}
use nemo_rl_xtoken.Rollouts.Sample.Tokens.{length-flat_tokens, length-take_upper}
use nemo_rl_xtoken.Rollouts.Batch.{
  BatchEngine, BatchEnv, Lane, Observed, any, add_reward, set_done, set_info, fails,
  add_observation,
}
use nemo_rl_xtoken.Rollouts.Batch.Loops.{goes_on}

-- The engine answers each prompt of a list by itself, as `one` does.
abbrev pub IsSeparate : BatchEngine → (List ℕ × Option (List Text) → Generation) → Type 0
IsSeparate engine one = (ps : List (List ℕ × Option (List Text))) → engine.generate ps ≡ map one ps

-- `calculate_rewards` answers each sample of a batch by itself, as `answer` does.
abbrev pub IsAnsweredBy :
    {I R : Type 0} → BatchEnv I R → (Request (List Message) I → EnvAnswer I R) → Type 0
IsAnsweredBy {I} env answer = (rs : List (Request (List Message) I)) → env rs ≡ map answer rs

-- A prompt within the limit is kept, with its response, within the limit.
abbrev pub Keeps : ℕ → (List ℕ × Option (List Text) → Generation) → Type 0
Keeps max_seq_len one =
    (flat : List ℕ) (stops : Option (List Text))
    → length flat ≤ max_seq_len
    → length flat + length (one (flat, stops)).token_ids ≤ max_seq_len

-- The sample is not done.
abbrev pub is_open : {I R : Type 0} → Lane I R → Bool
is_open s = not s.terminated

-- The sample's log is within the limit.
abbrev pub Fits : {I R : Type 0} → ℕ → Lane I R → Type 0
Fits max_seq_len s = length (flat_tokens s.message_log) ≤ max_seq_len

and-false : (a : Bool) {b : Bool} → b ≡ false → a && b ≡ false
and-false true e = e
and-false false e = refl

two_messages :
    (limit : ℕ) (log : List TokenMessage) (m n : TokenMessage)
    → length (flat_tokens log) + length m.token_ids + length n.token_ids ≤ limit
    → length (flat_tokens (log ++ m ∷ [] ++ n ∷ [])) ≤ limit
two_messages limit log m n h =
    omega (arith, length-flat_tokens log m, length-flat_tokens (log ++ m ∷ []) n)

cut-fits :
    (limit used gen : ℕ) (obs : List ℕ)
    → used + gen ≤ limit
    → used
        + gen
        + length (if overflows limit used gen obs then take (limit - (gen + used)) obs else obs)
      ≤ limit
cut-fits limit used gen obs h = elim (Bool-cases (overflows limit used gen obs)) [
  | inl over ↦ rw over (omega (arith, length-take_upper (limit - (gen + used)) obs))
  | inr fits ↦ rw fits (omega (arith, leb_false→lt _ _ fits))
]

module _ {I R : Type 0} (add : R → R → R) (max_seq_len : ℕ) (engine : BatchEngine)
    (one : List ℕ × Option (List Text) → Generation)
    (answer : Request (List Message) I → EnvAnswer I R) where
  abbrev pub response : Lane I R → Generation
  response s = one (flat_tokens s.message_log, s.stop_strings)

  abbrev pub answered : Lane I R → EnvAnswer I R
  answered s =
      let g = response s in
      answer (record {
        task_name = s.extra_env_info.0;
        log = map role_and_content (
            s.message_log
            ++ record { role = assistant; content = g.text; token_ids = g.token_ids } ∷ []);
        info = s.extra_env_info.1;
      })

  abbrev obs_of : Lane I R → List ℕ
  obs_of s = engine.tokenize (answered s).observation.content

  abbrev pub over : Lane I R → Bool
  over s =
      overflows max_seq_len (length (flat_tokens s.message_log)) (length (response s).token_ids)
        (obs_of s)

  -- The turn of a sample that it ends or not: the response and the observation, cut to what is left,
  -- are appended and counted, the reward is added, and the sample is done, or its info becomes the
  -- environment's, if there is one.
  abbrev pub ending : Bool → Lane I R → Lane I R
  ending e s =
      let g = response s in
      let a = answered s in
      let used = length (flat_tokens s.message_log) in
      let kept =
        if over s then take (max_seq_len - (length g.token_ids + used)) (obs_of s) else obs_of s in
      record {
        message_log =
            (s.message_log
              ++ record { role = assistant; content = g.text; token_ids = g.token_ids } ∷ [])
            ++ record {
              role = a.observation.role;
              content = a.observation.content;
              token_ids = kept;
            }
              ∷ [];
        extra_env_info =
            if e
            then s.extra_env_info
            else (s.extra_env_info.0, get_or_else a.metadata s.extra_env_info.1);
        stop_strings = s.stop_strings;
        total_reward = add s.total_reward a.reward;
        turn_count = s.turn_count + 1;
        token_count = s.token_count + length g.token_ids + length kept;
        assistant_token_count = s.assistant_token_count + length g.token_ids;
        env_token_count = s.env_token_count + length kept;
        terminated = s.terminated || e;
        truncated = (s.truncated || g.truncated) || over s;
      }

  -- A turn of one sample by itself. It ends the sample if the observation did not fit or the
  -- environment terminates.
  abbrev pub turn : Lane I R → Lane I R
  turn s = ending (over s || (answered s).terminated) s

  -- One sample by itself: turns until it is done, at most so many.
  abbrev pub lane_rollout : ℕ → Lane I R → Lane I R
  lane_rollout zero s = s
  lane_rollout (suc rounds) s = if is_open s then lane_rollout rounds (turn s) else s

  abbrev pub step : Lane I R → Lane I R
  step s = if is_open s then turn s else s

  abbrev pub ends : Lane I R → Bool
  ends s = over s || (answered s).terminated

  abbrev pub stays : Lane I R → Bool
  stays = goes_on is_open ends

  abbrev pub seen_by : Lane I R → Observed I R
  seen_by s = record {
    input_length = length (flat_tokens s.message_log);
    generation = response s;
    answer = answered s;
  }

  -- The batch's state after each loop of a round, at one sample that is open (`b`) or not and that ends (`e`) or
  -- not.
  abbrev pub responded : Bool → Lane I R → Lane I R
  responded b s = if b then respond (response s) s else s

  abbrev pub rewarded : Bool → Lane I R → Lane I R
  rewarded b s = if b then add_reward add (answered s) (responded b s) else responded b s

  abbrev pub watched : Bool → Lane I R → Lane I R
  watched b s =
      if b
      then add_observation max_seq_len engine.tokenize (seen_by s) (rewarded b s)
      else rewarded b s

  abbrev pub finished : Bool → Bool → Lane I R → Lane I R
  finished b e s = if b then set_done e (watched b s) else watched b s

  abbrev pub informed : Bool → Bool → Lane I R → Lane I R
  informed b e s =
      if b && not e then set_info (answered s).metadata (finished b e s) else finished b e s

  pub informed-ending : (b e : Bool) (s : Lane I R) → informed b e s ≡ (if b then ending e s else s)
  unfolding add_reward add_observation set_done set_info
  informed-ending true true s = refl
  informed-ending true false s = refl
  informed-ending false e s = refl

  pub stays-step : (s : Lane I R) → stays s ≡ is_open (step s)
  stays-step s = go s.terminated refl
    where
      go :
          (t : Bool)
          → s.terminated ≡ t
          → not t && not (ends s) ≡ is_open (if not t then turn s else s)
      go false e = sym (ap (λ t. not (t || ends s)) e)
      go true e = sym (ap not e)

  pub seen_by-fails :
      Keeps max_seq_len one
      → (lanes : List (Lane I R)) → All (Fits max_seq_len) lanes
      → any (fails max_seq_len engine.tokenize) (map seen_by (filter is_open lanes)) ≡ false
  unfolding fails
  seen_by-fails keeps [] h = refl
  seen_by-fails keeps (s ∷ lanes) h = go (is_open s) (seen_by-fails keeps lanes h.1)
    where
      here : fails max_seq_len engine.tokenize (seen_by s) ≡ false
      here =
          and-false (over s)
            (le→ltb_false _ _ (omega (arith, keeps (flat_tokens s.message_log) s.stop_strings h.0)))

      go :
          (b : Bool)
          → any (fails max_seq_len engine.tokenize) (map seen_by (filter is_open lanes)) ≡ false
          → any
              (fails max_seq_len engine.tokenize)
              (map seen_by (if b then s ∷ filter is_open lanes else filter is_open lanes))
            ≡ false
      go true rest = ap₂ (λ x y. x || y) here rest
      go false rest = rest

  turn-Fits :
      Keeps max_seq_len one → (s : Lane I R) → Fits max_seq_len s → Fits max_seq_len (turn s)
  turn-Fits keeps s h = two_messages max_seq_len s.message_log _ _ (
      cut-fits max_seq_len (length (flat_tokens s.message_log)) (length (response s).token_ids)
        (obs_of s) (keeps (flat_tokens s.message_log) s.stop_strings h))

  step-Fits :
      Keeps max_seq_len one → (s : Lane I R) → Fits max_seq_len s → Fits max_seq_len (step s)
  step-Fits keeps s h = go (is_open s)
    where
      go : (b : Bool) → Fits max_seq_len (if b then turn s else s)
      go true = turn-Fits keeps s h
      go false = h

  pub map-Fits :
      Keeps max_seq_len one
      → (lanes : List (Lane I R)) → All (Fits max_seq_len) lanes
      → All (Fits max_seq_len) (map step lanes)
  map-Fits keeps [] h = tt
  map-Fits keeps (s ∷ lanes) h = (step-Fits keeps s h.0, map-Fits keeps lanes h.1)
