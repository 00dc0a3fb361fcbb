-- ===== src/Rollouts/Sample.antt =====
-- `run_sample_multi_turn_rollout`: one sample and its environment, turn by turn. The engine, the
-- tokenizer and the environment are parameters; the sum of the rewards is taken by `add`.
pub mod Tokens
pub mod Ends
use nemo_rl_xtoken.Base.{
  ℕ, zero, suc, ◌+◌, ◌-◌, Bool, true, false, not, ◌&&◌, ◌||◌, Option, none, some, List, [], ◌∷◌,
  ◌++◌, map, length, take, ltb, leb, if◌then◌else◌, flatten,
}
use nemo_rl_xtoken.Base.Text.{Text}
use nemo_rl_xtoken.Puzzle.Turn.{Role, assistant, Message}

-- A message with its tokens.
pub record TokenMessage : Type 0 where
  pub role : Role
  pub content : Text
  pub token_ids : List ℕ

-- What the engine gives for one prompt. `truncated` says that the response met the token limit
-- without a stop token; it is false where the engine does not say.
pub record Generation : Type 0 where
  pub text : Text
  pub token_ids : List ℕ
  pub truncated : Bool

-- `policy_generation`, on the flat tokens and the stop strings (`none` is an exception), and the
-- tokenizer.
pub record Engine : Type 0 where
  pub generate : List ℕ → Option (List Text) → Option Generation
  pub tokenize : Text → List ℕ

-- `EnvironmentReturn` for one sample.
pub record EnvAnswer (I R : Type 0) : Type 0 where
  pub observation : Message
  pub metadata : Option I
  pub next_stop_strings : Option (List Text)
  pub reward : R
  pub terminated : Bool

abbrev pub Environment : Type 0 → Type 0 → Type 0
Environment I R = List Message → I → EnvAnswer I R

-- The variables of the loop.
pub record SampleState (I R : Type 0) : Type 0 where
  pub message_log : List TokenMessage
  pub extra_env_info : I
  pub stop_strings : Option (List Text)
  pub total_reward : R
  pub turn_count : ℕ
  pub token_count : ℕ
  pub assistant_token_count : ℕ
  pub env_token_count : ℕ
  pub terminated : Bool
  pub truncated : Bool

-- The log's tokens as one sequence, as they are sent to the engine.
abbrev pub flat_tokens : List TokenMessage → List ℕ
flat_tokens log = flatten (map (λ m. m.token_ids) log)

-- `get_keys_from_message_log(log, ["role", "content"])`
abbrev pub role_and_content : TokenMessage → Message
role_and_content m = record { role = m.role; content = m.content }

abbrev pub initial_state :
    {I R : Type 0} → R → List TokenMessage → I → Option (List Text) → SampleState I R
initial_state zero_reward log info stops = record {
  message_log = log;
  extra_env_info = info;
  stop_strings = stops;
  total_reward = zero_reward;
  turn_count = 0;
  token_count = 0;
  assistant_token_count = 0;
  env_token_count = 0;
  terminated = false;
  truncated = false;
}

-- `if x is not None: y = x`, where `y` may be None as well
abbrev pub or_else : {A : Type 0} → Option A → Option A → Option A
or_else none y = y
or_else (some x) y = some x

abbrev pub get_or_else : {A : Type 0} → Option A → A → A
get_or_else none y = y
get_or_else (some x) y = x

module _ {I R : Type 0} where
  -- The response is appended to the log and counted.
  abbrev pub respond : Generation → SampleState I R → SampleState I R
  respond g s = record s {
    message_log =
        s.message_log
        ++ record { role = assistant; content = g.text; token_ids = g.token_ids } ∷ [];
    truncated = s.truncated || g.truncated;
    token_count = s.token_count + length g.token_ids;
    assistant_token_count = s.assistant_token_count + length g.token_ids;
  }

  abbrev pub count_turn : SampleState I R → SampleState I R
  count_turn s = record s { turn_count = s.turn_count + 1 }

  unfoldable pub max_turns_reached : ℕ → SampleState I R → Bool
  max_turns_reached max_rollout_turns s = leb max_rollout_turns s.turn_count

module _ (max_seq_len : ℕ) where
  -- `input_lengths + gen_token_count + len(tokenized_obs) >= max_seq_len`
  abbrev pub overflows : ℕ → ℕ → List ℕ → Bool
  overflows input_length gen_token_count obs =
      leb max_seq_len (input_length + gen_token_count + length obs)

  -- The observation, cut to what is left.
  abbrev pub fit : ℕ → ℕ → List ℕ → List ℕ
  fit input_length gen_token_count obs =
      if overflows input_length gen_token_count obs
      then take (max_seq_len - input_length - gen_token_count) obs
      else obs

module _ {I R : Type 0} (add : R → R → R) (max_seq_len : ℕ) (engine : Engine)
    (env : Environment I R) where
  -- The rest of a turn, with the environment's answer `a`, after `respond`.
  abbrev pub observe : ℕ → ℕ → EnvAnswer I R → SampleState I R → SampleState I R
  observe input_length gen_token_count a s =
      let obs = engine.tokenize a.observation.content in
      let kept = fit max_seq_len input_length gen_token_count obs in
      let cut = s.truncated || overflows max_seq_len input_length gen_token_count obs in
      let goes_on = not a.terminated && not cut in
      record s {
        message_log =
            s.message_log
            ++ record {
              role = a.observation.role;
              content = a.observation.content;
              token_ids = kept;
            }
              ∷ [];
        total_reward = add s.total_reward a.reward;
        terminated = a.terminated;
        truncated = cut;
        env_token_count = s.env_token_count + length kept;
        token_count = s.token_count + length kept;
        stop_strings =
            if goes_on then or_else a.next_stop_strings s.stop_strings else s.stop_strings;
        extra_env_info =
            if goes_on then get_or_else a.metadata s.extra_env_info else s.extra_env_info;
      }

  -- A turn after the engine's answer.
  unfoldable pub finish_turn : Generation → SampleState I R → SampleState I R
  finish_turn g s =
      let t = respond g s in
      observe (length (flat_tokens s.message_log)) (length g.token_ids)
        (env (map role_and_content t.message_log) s.extra_env_info) t

  -- The loop, for at most so many turns. It stops on `terminated` or `truncated`, and on an
  -- exception of the engine.
  unfoldable pub rollout : ℕ → SampleState I R → SampleState I R
  unfolding finish_turn
  rollout zero s = s
  rollout (suc turns) s =
      let next : SampleState I R =
        elim (engine.generate (flat_tokens s.message_log) s.stop_strings) [
          | none ↦ count_turn s
          | some g ↦ rollout turns (finish_turn g (count_turn s))
        ] in
      if s.terminated || s.truncated then s else next
