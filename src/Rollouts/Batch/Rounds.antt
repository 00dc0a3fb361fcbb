-- ===== src/Rollouts/Batch/Rounds.antt =====
-- The rounds of a batch are its samples' own turns.
use nemo_rl_xtoken.Base.{ℕ, Option, List, Result, ok, indices_where}
use nemo_rl_xtoken.Base.Text.{Text}
use nemo_rl_xtoken.Puzzle.Turn.{Message}
use nemo_rl_xtoken.Rollouts.Rewards.{Request}
use nemo_rl_xtoken.Rollouts.Sample.{Generation, EnvAnswer}
use nemo_rl_xtoken.Rollouts.Batch.{BatchEngine, BatchEnv, Lane, RolloutError, batch_rounds}
use nemo_rl_xtoken.Rollouts.Batch.Lanes.{
  is_open, IsSeparate, IsAnsweredBy, Keeps, lane_rollout, step,
}

module _ {I R : Type 0} (add : R → R → R) (max_seq_len : ℕ) (engine : BatchEngine)
    (one : List ℕ × Option (List Text) → Generation)
    (answer : Request (List Message) I → EnvAnswer I R) where
  abbrev alone : ℕ → Lane I R → Lane I R
  alone = lane_rollout add max_seq_len engine one answer

  abbrev next : Lane I R → Lane I R
  next = step add max_seq_len engine one answer

  abbrev Rounds : Type 0
  Rounds = Result RolloutError (List (Lane I R) × List ℕ)

  abbrev answer_of : List (Lane I R) → Rounds
  answer_of lanes = ok (lanes, indices_where is_open 0 lanes)

  module _ (env : BatchEnv I R) (default : Lane I R) (separate : IsSeparate engine one)
      (answers : IsAnsweredBy env answer) (keeps : Keeps max_seq_len one) where
    abbrev rounds_of : ℕ → List ℕ → List (Lane I R) → Rounds
    rounds_of = batch_rounds add max_seq_len engine env default
