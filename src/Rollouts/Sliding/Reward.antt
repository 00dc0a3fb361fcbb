-- ===== src/Rollouts/Sliding/Reward.antt =====
-- The reward of a rollout of the puzzle.
use nemo_rl_xtoken.Base.{
  ℕ, zero, suc, ◌+◌, ◌≤◌, ◌≡◌, Bool, true, false, not, ◌&&◌, ◌||◌, Option, none, some, List, map,
  length, arith, if◌then◌else◌, Bool-cases, inl, inr,
}
use nemo_rl_xtoken.Base.Text.{Text}
use nemo_rl_xtoken.Puzzle.Game.{PythonText}
use nemo_rl_xtoken.Puzzle.Turn.{Metadata, Message, TurnResult, Observation, process_turn}
use nemo_rl_xtoken.Puzzle.Turn.Episode.{IsPlay, IsNext, process_turn-IsTurn}
use nemo_rl_xtoken.Rollouts.Sample.{
  Generation, Engine, SampleState, flat_tokens, role_and_content, respond, overflows, get_or_else,
  finish_turn, count_turn, rollout,
}
use nemo_rl_xtoken.Rollouts.Sliding.{sliding_env}

-- The sample is in a play, and has its reward only if the game has ended.
pub record IsPlaying (s : SampleState Metadata ℕ) : Type 0 where
  pub play : IsPlay s.extra_env_info
  pub reward : s.total_reward ≤ (if s.terminated then 1 else 0)

IsPlay-next :
    (m : Metadata) (ends : Bool) (o : Option Metadata)
    → IsPlay m
    → IsNext m ends o
    → (goes_on : Bool) → IsPlay (if not ends && goes_on then get_or_else o m else m)
IsPlay-next m true o v n goes_on = v
IsPlay-next m false none v n true = v
IsPlay-next m false none v n false = v
IsPlay-next m false (some m') v n true = n.0
IsPlay-next m false (some m') v n false = v

module _ (python : PythonText) (text_of : Observation → Text) (max_seq_len : ℕ)
    (engine : Engine) where
  abbrev plus : ℕ → ℕ → ℕ
  plus a b = a + b

  finish_turn-IsPlaying :
      (g : Generation) (s : SampleState Metadata ℕ)
      → s.terminated ≡ false
      → IsPlaying s
      → IsPlaying (finish_turn plus max_seq_len engine (sliding_env python text_of) g s)
  unfolding finish_turn sliding_env
  finish_turn-IsPlaying g s open_ v =
      let turn = process_turn-IsTurn python log s.extra_env_info v.play in
      let none_yet : s.total_reward ≤ 0 = rw open_ at v.reward in
      record {
        play =
            IsPlay-next s.extra_env_info (answer.is_terminated) (answer.next_metadata) v.play
              turn.next
              (not (
                (respond g s).truncated
                || overflows max_seq_len (length (flat_tokens s.message_log)) (length g.token_ids)
                    (engine.tokenize (text_of answer.observation))));
        reward = omega (arith, turn.reward_at_end);
      }
    where
      log : List Message
      log = map role_and_content (respond g s).message_log

      answer : TurnResult
      answer = process_turn python (map role_and_content (respond g s).message_log) s.extra_env_info

  -- In a rollout of the sliding puzzle, with any engine and any number of turns, the total reward is
  -- at most 1, and it is 0 unless the game has ended; and the sample's metadata is always a play: a
  -- board, with no more moves than the limit.
  pub rollout-IsPlaying :
      (turns : ℕ) (s : SampleState Metadata ℕ)
      → IsPlaying s
      → IsPlaying (rollout plus max_seq_len engine (sliding_env python text_of) turns s)
  unfolding rollout
  rollout-IsPlaying zero s v = v
  rollout-IsPlaying (suc turns) s v = elim (Bool-cases (s.terminated || s.truncated)) [
    | inl over ↦ rw over v
    | inr open_ ↦ rw open_ (
        go (engine.generate (flat_tokens s.message_log) s.stop_strings) (ground arith)
          (rollout-IsPlaying turns))
  ]
    where
      go :
          (o : Option Generation)
          → s.terminated ≡ false
          → ((t : SampleState Metadata ℕ)
              → IsPlaying t
              → IsPlaying (rollout plus max_seq_len engine (sliding_env python text_of) turns t))
          → IsPlaying (elim o [
            | none ↦ count_turn s
            | some g ↦
                rollout plus max_seq_len engine (sliding_env python text_of) turns (
                  finish_turn plus max_seq_len engine (sliding_env python text_of) g (count_turn s))
          ])
      go none open_ ih = record { play = v.play; reward = v.reward }
      go (some g) open_ ih =
          ih (finish_turn plus max_seq_len engine (sliding_env python text_of) g (count_turn s)) (
            finish_turn-IsPlaying g (count_turn s) open_
              (record { play = v.play; reward = v.reward }))
