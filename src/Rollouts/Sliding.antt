-- ===== src/Rollouts/Sliding.antt =====
-- The sliding puzzle as the environment of a rollout. The texts of its observations are a parameter.
pub mod Reward
use nemo_rl_xtoken.Base.{ℕ, Bool, true, false, Option, none, some, List, [], ◌∷◌, if◌then◌else◌}
use nemo_rl_xtoken.Base.Text.{Text, codes}
use nemo_rl_xtoken.Puzzle.Game.{PythonText}
use nemo_rl_xtoken.Puzzle.Turn.{Metadata, environment, Observation, process_turn}
use nemo_rl_xtoken.Rollouts.Sample.{Environment}

-- `SlidingPuzzleEnv.step` for one sample.
unfoldable pub sliding_env : PythonText → (Observation → Text) → Environment Metadata ℕ
unfolding process_turn
sliding_env python text_of log metadata =
    let t = process_turn python log metadata in
    record {
      observation = record { role = environment; content = text_of t.observation };
      metadata = t.next_metadata;
      next_stop_strings = if t.has_stop_strings then some (codes "</action>" ∷ []) else none;
      reward = t.reward;
      terminated = t.is_terminated;
    }
