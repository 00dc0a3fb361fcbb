-- ===== src/Rollouts/Sample/Tokens.antt =====
-- The tokens of a rollout: their number, and the counters.
use nemo_rl_xtoken.Base.{
  ℕ, zero, suc, ◌+◌, ◌-◌, ◌≤◌, ◌≡◌, refl, ◌||◌, Option, none, some, List, [], ◌∷◌, ◌++◌, map, arith,
  length, length-append, take, leb_false→lt, flatten, Bool-cases, inl, inr,
}
use nemo_rl_xtoken.Base.Text.{Text}
use nemo_rl_xtoken.Puzzle.Turn.{assistant}
use nemo_rl_xtoken.Rollouts.Sample.{
  TokenMessage, Generation, Engine, Environment, SampleState, flat_tokens, role_and_content,
  respond, overflows, fit, finish_turn, count_turn, rollout,
}

pub length-flat_tokens :
    (log : List TokenMessage) (m : TokenMessage)
    → length (flat_tokens (log ++ m ∷ [])) ≡ length (flat_tokens log) + length m.token_ids
unfolding flatten
length-flat_tokens [] m = omega (arith, length-append m.token_ids [])
length-flat_tokens (n ∷ log) m = omega (
  arith,
  length-append n.token_ids (flat_tokens (log ++ m ∷ [])),
  length-append n.token_ids (flat_tokens log),
  length-flat_tokens log m,
)

pub length-take_upper : (k : ℕ) (xs : List ℕ) → length (take k xs) ≤ k
length-take_upper zero xs = omega arith
length-take_upper (suc k) [] = omega arith
length-take_upper (suc k) (x ∷ xs) = omega (arith, length-take_upper k xs)

-- The log has the tokens that it began with and those that were counted; the counters agree; and
-- it is no longer than the limit.
pub record IsAccounted {I R : Type 0} (max_seq_len start : ℕ) (s : SampleState I R) : Type 0 where
  pub counted : length (flat_tokens s.message_log) ≡ start + s.token_count
  pub parts : s.token_count ≡ s.assistant_token_count + s.env_token_count
  pub bounded : length (flat_tokens s.message_log) ≤ max_seq_len

-- An engine that keeps a prompt that is within the limit, with its response, within the limit. Of
-- longer prompts nothing is asked.
abbrev pub Respects : ℕ → Engine → Type 0
Respects max_seq_len engine =
    (flat : List ℕ) (stops : Option (List Text)) (g : Generation)
    → length flat ≤ max_seq_len
    → engine.generate flat stops ≡ some g
    → length flat + length g.token_ids ≤ max_seq_len

module _ {I R : Type 0} (add : R → R → R) (max_seq_len : ℕ) (engine : Engine)
    (env : Environment I R) (respects : Respects max_seq_len engine) (start : ℕ) where
  length-fit :
      (input_length gen : ℕ) (obs : List ℕ)
      → input_length + gen ≤ max_seq_len
      → input_length + gen + length (fit max_seq_len input_length gen obs) ≤ max_seq_len
  length-fit input_length gen obs h =
      elim (Bool-cases (overflows max_seq_len input_length gen obs)) [
        | inl over ↦
            rw over (omega (arith, length-take_upper (max_seq_len - input_length - gen) obs))
        | inr fits ↦ rw fits (omega (arith, leb_false→lt _ _ fits))
      ]

  finish_turn-IsAccounted :
      (g : Generation) (s : SampleState I R)
      → length (flat_tokens s.message_log) + length g.token_ids ≤ max_seq_len
      → IsAccounted max_seq_len start s
      → IsAccounted max_seq_len start (finish_turn add max_seq_len engine env g s)
  unfolding finish_turn
  finish_turn-IsAccounted g s h v =
      let sent = length-flat_tokens s.message_log response in
      let seen = length-flat_tokens t.message_log (message kept) in
      let room = length-fit (length (flat_tokens s.message_log)) (length g.token_ids) obs h in
      record {
        counted = omega (arith, sent, seen, v.counted);
        parts = omega (arith, v.parts);
        bounded = omega (arith, sent, seen, room);
      }
    where
      t : SampleState I R
      t = respond g s

      response : TokenMessage
      response = record { role = assistant; content = g.text; token_ids = g.token_ids }

      obs : List ℕ
      obs =
          engine.tokenize
            (env (map role_and_content (respond g s).message_log)
              s.extra_env_info).observation.content

      kept : List ℕ
      kept = fit max_seq_len (length (flat_tokens s.message_log)) (length g.token_ids) (
          engine.tokenize
            (env (map role_and_content (respond g s).message_log)
              s.extra_env_info).observation.content)

      message : List ℕ → TokenMessage
      message tokens = record {
        role =
            (env (map role_and_content (respond g s).message_log)
              s.extra_env_info).observation.role;
        content =
            (env (map role_and_content (respond g s).message_log)
              s.extra_env_info).observation.content;
        token_ids = tokens;
      }

  -- Let the log that the rollout begins with have at most `max_seq_len` tokens and its counters
  -- agree with them, and let the engine keep each such prompt with its response within the limit.
  -- Then, whatever the environment answers and however many turns are taken, the whole log is within
  -- the limit at the end; it has the tokens it began with and those that were counted, and the count
  -- is that of the assistant's tokens and the environment's.
  pub rollout-IsAccounted :
      (turns : ℕ) (s : SampleState I R)
      → IsAccounted max_seq_len start s
      → IsAccounted max_seq_len start (rollout add max_seq_len engine env turns s)
  unfolding rollout
  rollout-IsAccounted zero s v = v
  rollout-IsAccounted (suc turns) s v = elim (Bool-cases (s.terminated || s.truncated)) [
    | inl over ↦ rw over v
    | inr open_ ↦ rw open_ (
        go (engine.generate (flat_tokens s.message_log) s.stop_strings) refl
          (rollout-IsAccounted turns))
  ]
    where
      go :
          (o : Option Generation)
          → engine.generate (flat_tokens s.message_log) s.stop_strings ≡ o
          → ((t : SampleState I R)
              → IsAccounted max_seq_len start t
              → IsAccounted max_seq_len start (rollout add max_seq_len engine env turns t))
          → IsAccounted max_seq_len start (elim o [
            | none ↦ count_turn s
            | some g ↦
                rollout add max_seq_len engine env turns
                  (finish_turn add max_seq_len engine env g (count_turn s))
          ])
      go none e ih = record { counted = v.counted; parts = v.parts; bounded = v.bounded }
      go (some g) e ih = ih (finish_turn add max_seq_len engine env g (count_turn s)) (
          finish_turn-IsAccounted g (count_turn s)
            (respects (flat_tokens s.message_log) s.stop_strings g v.bounded e)
            (record { counted = v.counted; parts = v.parts; bounded = v.bounded }))
