-- ===== src/Rollouts/Batch.antt =====
-- `run_multi_turn_rollout`: the samples of a batch together. What the source keeps in one tensor or
-- list for each quantity is here one record for each sample, `terminated` and `truncated` being
-- `sample_terminated` and `sample_truncated`. A round works on lists for the active samples, and
-- writes back through their indices in the batch, as the source does. `extra_env_info` is the
-- sample's task name with its info; `env` is `calculate_rewards`.
--
-- The engine is given the batch's own stop strings: `generate_responses` overwrites those that the
-- round has passed with the batch's, which no round changes. What the environments answer as next
-- stop strings is without effect here.
pub mod Loops
pub mod Lanes
pub mod Round
pub mod Rounds
use nemo_rl_xtoken.Base.{
  ℕ, zero, suc, ◌+◌, ◌-◌, Bool, true, false, not, ◌&&◌, ◌||◌, Option, none, some, List, [], ◌∷◌,
  ◌++◌, map, Result, ok, err, ◌>>=◌, ◌>>◌, raise_if, length, take, get_or, modify, is_empty,
  indices_where, ltb, if◌then◌else◌,
}
use nemo_rl_xtoken.Base.Text.{Text}
use nemo_rl_xtoken.Puzzle.Turn.{Message}
use nemo_rl_xtoken.Rollouts.Rewards.{Request}
use nemo_rl_xtoken.Rollouts.Sample.{
  Generation, EnvAnswer, SampleState, flat_tokens, role_and_content, respond, overflows,
  get_or_else,
}

-- `policy_generation` on the prompts and the stop strings of the active samples, and the tokenizer.
pub record BatchEngine : Type 0 where
  pub generate : List (List ℕ × Option (List Text)) → List Generation
  pub tokenize : Text → List ℕ

abbrev pub BatchEnv : Type 0 → Type 0 → Type 0
BatchEnv I R = List (Request (List Message) I) → List (EnvAnswer I R)

abbrev pub Lane : Type 0 → Type 0 → Type 0
Lane I R = SampleState (Text × I) R

pub data RolloutError : Type 0 where
  negative_tokens_left index_error : RolloutError

-- `for i, global_idx in enumerate(active_indices)`: the entry i of a list goes to the sample at
-- `global_idx`. A list that is too short raises IndexError.
unfoldable pub for_active :
    {V S : Type 0} → (V → S → S) → List ℕ → List V → List S → Result RolloutError (List S)
for_active f [] vs lanes = ok lanes
for_active f (i ∷ active) [] lanes = err index_error
for_active f (i ∷ active) (v ∷ vs) lanes = for_active f active vs (modify i (f v) lanes)

-- `select_indices`
abbrev pub select_active : {S : Type 0} → S → List ℕ → List S → List S
select_active default active lanes = map (λ i. get_or lanes i default) active

-- The entries where the flag is not set: `torch.where(~done)`.
abbrev pub continuing : {V : Type 0} → List Bool → List V → List V
continuing [] vs = []
continuing (d ∷ done) [] = []
continuing (d ∷ done) (v ∷ vs) = let rest = continuing done vs in if d then rest else v ∷ rest

-- What the observation loop reads at one active sample: the length of the prompt, the response, and
-- the environment's answer.
pub record Observed (I R : Type 0) : Type 0 where
  pub input_length : ℕ
  pub generation : Generation
  pub answer : EnvAnswer I R

abbrev pub observed :
    {I R : Type 0} → List ℕ → List Generation → List (EnvAnswer I R) → List (Observed I R)
observed [] gs answers = []
observed (n ∷ ns) [] answers = []
observed (n ∷ ns) (g ∷ gs) [] = []
observed (n ∷ ns) (g ∷ gs) (a ∷ answers) =
    record { input_length = n; generation = g; answer = a } ∷ observed ns gs answers

abbrev pub any : {V : Type 0} → (V → Bool) → List V → Bool
any test [] = false
any test (v ∷ vs) = test v || any test vs

module _ {I R : Type 0} where
  abbrev pub prompt : Lane I R → List ℕ × Option (List Text)
  prompt s = (flat_tokens s.message_log, s.stop_strings)

  abbrev pub input_length_of : Lane I R → ℕ
  input_length_of s = length (flat_tokens s.message_log)

  abbrev pub request : Lane I R → Request (List Message) I
  request s = record {
    task_name = s.extra_env_info.0;
    log = map role_and_content s.message_log;
    info = s.extra_env_info.1;
  }

  unfoldable pub add_reward : (R → R → R) → EnvAnswer I R → Lane I R → Lane I R
  add_reward add a s = record s { total_reward = add s.total_reward a.reward }

  unfoldable pub set_done : Bool → Lane I R → Lane I R
  set_done done s = record s { terminated = s.terminated || done }

  unfoldable pub set_info : Option I → Lane I R → Lane I R
  set_info metadata s = record s {
    extra_env_info = (s.extra_env_info.0, get_or_else metadata s.extra_env_info.1);
  }

module _ {I R : Type 0} (max_seq_len : ℕ) (tokenize : Text → List ℕ) where
  abbrev pub tokenized_obs : Observed I R → List ℕ
  tokenized_obs o = tokenize o.answer.observation.content

  -- `truncation_mask`
  abbrev pub overflow : Observed I R → Bool
  overflow o =
      overflows max_seq_len o.input_length (length o.generation.token_ids) (tokenized_obs o)

  -- `tokens_left_for_obs` is asserted not to be negative, where the observation is cut.
  unfoldable pub fails : Observed I R → Bool
  fails o = overflow o && ltb max_seq_len (length o.generation.token_ids + o.input_length)

  unfoldable pub add_observation : Observed I R → Lane I R → Lane I R
  add_observation o s =
      let left = max_seq_len - (length o.generation.token_ids + o.input_length) in
      let kept = if overflow o then take left (tokenized_obs o) else tokenized_obs o in
      record s {
        message_log =
            s.message_log
            ++ record {
              role = o.answer.observation.role;
              content = o.answer.observation.content;
              token_ids = kept;
            }
              ∷ [];
        truncated = s.truncated || overflow o;
        env_token_count = s.env_token_count + length kept;
        token_count = s.token_count + length kept;
        turn_count = s.turn_count + 1;
      }

  abbrev pub done : Observed I R → Bool
  done o = overflow o || o.answer.terminated

module _ {I R : Type 0} (add : R → R → R) (max_seq_len : ℕ) (engine : BatchEngine)
    (env : BatchEnv I R) (default : Lane I R) where
  -- One round: the new state of the batch and the new active indices.
  unfoldable pub batch_round :
      List ℕ → List (Lane I R) → Result RolloutError (List (Lane I R) × List ℕ)
  unfolding for_active add_reward set_done set_info fails add_observation
  batch_round active lanes =
      let batch = select_active default active lanes in
      let gs = engine.generate (map prompt batch) in
      do
        responded ← for_active respond active gs lanes
        let answers = env (map request (select_active default active responded))
        let os = observed (map input_length_of batch) gs answers
        let dones = map (done max_seq_len engine.tokenize) os
        let next = continuing dones active
        rewarded ← for_active (add_reward add) active answers responded
        raise_if (any (fails max_seq_len engine.tokenize) os) negative_tokens_left
        seen ← for_active (add_observation max_seq_len engine.tokenize) active os rewarded
        finished ← for_active set_done active dones seen
        informed ←
            for_active set_info next (continuing dones (map (λ a. a.metadata) answers)) finished
        ok (informed, next)

  -- The loop over the rounds. At the end the active samples have reached the maximum of turns.
  unfoldable pub batch_rounds :
      ℕ → List ℕ → List (Lane I R) → Result RolloutError (List (Lane I R) × List ℕ)
  unfolding batch_round
  batch_rounds zero active lanes = ok (lanes, active)
  batch_rounds (suc rounds) active lanes =
      let later : Result RolloutError (List (Lane I R) × List ℕ) =
        batch_round active lanes >>= λ (r : List (Lane I R) × List ℕ).
        batch_rounds rounds r.1 r.0 in
      if is_empty active then ok (lanes, active) else later

  -- All samples are active at first.
  unfoldable pub batch_rollout :
      ℕ → List (Lane I R) → Result RolloutError (List (Lane I R) × List ℕ)
  unfolding batch_rounds
  batch_rollout max_rollout_turns lanes =
      batch_rounds max_rollout_turns (indices_where (λ s. true) 0 lanes) lanes
