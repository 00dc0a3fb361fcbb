-- ===== src/Replay/Examples.antt =====
-- Runs of the replay buffer and of the collector, and the properties at such runs.
use nemo_rl_xtoken.Base.{
  ℕ, ◌≡◌, refl, false, none, some, List, [], ◌∷◌, arith, ok, err, All, sort_by,
}
use nemo_rl_xtoken.Base.Int.{pos, negsuc}
use nemo_rl_xtoken.Replay.Buffer.{
  ReplayBuffer, old_trajectories, success, new_buffer, push_with_wait_signal, sample, clear,
}
use nemo_rl_xtoken.Replay.Buffer.Rows.{Entry, of_entries}
use nemo_rl_xtoken.Replay.Buffer.Sampling.{any_old}
use nemo_rl_xtoken.Replay.Buffer.Reachable.{
  push, Reachable, start, next, IsBuffer, Reachable-IsBuffer,
}
use nemo_rl_xtoken.Replay.Collector.{
  Collector, new_collector, calculate_target_weights, get_next_target_for_generation,
  should_pause_for_generation_limits,
}
use nemo_rl_xtoken.Replay.Collector.Targets.{IsCollected, any_old-IsCollected}
use nemo_rl_xtoken.Replay.Collector.Next.{IsAnswer, get_next_target_for_generation-IsAnswer}

program : Unit {0}
unfolding new_buffer push_with_wait_signal sample clear sort_by calculate_target_weights
    get_next_target_for_generation should_pause_for_generation_limits
program = tt

abbrev entry : ℕ → ℕ → ℕ → Entry ℕ
entry trajectory version target = record {
  trajectory = trajectory;
  version = version;
  target = target;
}

-- Two groups for step 3, and one for step 4 between them.
abbrev three_entries : List (Entry ℕ)
three_entries = entry 70 2 3 ∷ entry 71 3 4 ∷ entry 72 3 3 ∷ []

sample_two :
    sample 2 3 1 (of_entries 8 (pos 4) three_entries)
    ≡ ok (
      some (record { trajectories = 70 ∷ 72 ∷ []; age = 1; count = 2 }),
      of_entries 8 (pos 4) (entry 71 3 4 ∷ []),
    )
unfolding program
sample_two = refl

sample_too_old : sample 1 4 1 (of_entries 8 (pos 4) three_entries) ≡ err old_trajectories
unfolding program
sample_too_old = refl

abbrev one_entry : ReplayBuffer ℕ
one_entry = of_entries 2 (pos 1) (entry 70 0 1 ∷ [])

one_entry-Reachable : Reachable 2 one_entry
unfolding program
one_entry-Reachable = next (start {b = of_entries 2 (negsuc 0) []} refl) (push 70 0 1 success refl)

Reachable-IsBuffer_example : IsBuffer 2 one_entry
Reachable-IsBuffer_example = Reachable-IsBuffer 2 one_entry one_entry-Reachable

-- A collector that starts at step 0 with an age limit of 1.
abbrev first_collector : Collector
first_collector = new_collector 1 0

first_target : (get_next_target_for_generation (negsuc 0) 0 first_collector).0 ≡ some 0
unfolding program
first_target = refl

get_next_target_for_generation-IsAnswer_example :
    IsAnswer first_collector (pos 0) 0 (get_next_target_for_generation (pos 0) 0 first_collector)
get_next_target_for_generation-IsAnswer_example =
    get_next_target_for_generation-IsAnswer first_collector (pos 0) 0

-- A target in progress is not chosen again.
in_progress :
    (get_next_target_for_generation
      (negsuc 0)
      0
      (get_next_target_for_generation (negsuc 0) 0 first_collector).1).0
    ≡ some 1
unfolding program
in_progress = refl

two_entries-IsCollected : All (IsCollected first_collector) (entry 70 0 1 ∷ entry 71 1 2 ∷ [])
unfolding program
two_entries-IsCollected = (
  record { g = 0; offered = omega arith; no_older = omega arith },
  (record { g = 1; offered = omega arith; no_older = omega arith }, tt),
)

any_old-IsCollected_example : any_old 1 1 (entry 70 0 1 ∷ entry 71 1 2 ∷ []) ≡ false
any_old-IsCollected_example =
    any_old-IsCollected first_collector 1 (entry 70 0 1 ∷ entry 71 1 2 ∷ []) two_entries-IsCollected
      (omega arith, (omega arith, tt))

-- Groups for step 2 came first and the reservation of step 1 was released by an error: no target
-- is chosen any more, though the buffer has nothing for step 1.
skipped_target : (get_next_target_for_generation (pos 2) 0 (new_collector 2 0)).0 ≡ none
unfolding program
skipped_target = refl
