-- ===== src/Replay/Collector.antt =====
-- `AsyncTrajectoryCollector`: which training step the next batch is generated for, and the flags
-- that pause the collection. A prompt group's rollout and the threads are not modelled; what the
-- end of a worker changes here is `release_reservation`.
pub mod Targets
pub mod Next
pub mod Pause
use nemo_rl_xtoken.Base.{
  ℕ, zero, suc, ◌+◌, ◌*◌, Bool, true, false, not, ◌&&◌, Option, none, some, List, [], ◌∷◌, map,
  filter, range_from, is_empty, ◌==◌, if◌then◌else◌,
}
use nemo_rl_xtoken.Base.Int.{ℤ, pos, ltb_ℤ}

-- `_generating_targets` is a set: a target is added once. The events are the flags that say
-- whether they are set.
pub record Collector : Type 0 where
  pub max_trajectory_age_steps : ℕ
  pub initial_weight_version : ℕ
  pub current_weight_version : ℕ
  pub running : Bool
  pub manual_pause_cleared : Bool
  pub refit_pause_cleared : Bool
  pub generation_limit_cleared : Bool
  pub last_limit_warning_version : Option ℕ
  pub generating_targets : List ℕ

abbrev pub new_collector : ℕ → ℕ → Collector
new_collector max_age start_step = record {
  max_trajectory_age_steps = max_age;
  initial_weight_version = start_step;
  current_weight_version = start_step;
  running = false;
  manual_pause_cleared = true;
  refit_pause_cleared = true;
  generation_limit_cleared = true;
  last_limit_warning_version = none;
  generating_targets = [];
}

-- The semaphore's first value: `... or 1`
abbrev pub max_inflight : ℕ → ℕ → ℕ
max_inflight num_prompts_per_step max_age =
    if num_prompts_per_step * max_age == 0 then 1 else num_prompts_per_step * max_age

unfoldable pub calculate_target_weights : Collector → ℕ → List ℕ
calculate_target_weights c generation_weight_version =
    if generation_weight_version == c.initial_weight_version
    then range_from c.initial_weight_version (c.max_trajectory_age_steps + 1)
    else map (λ i. generation_weight_version + i) (range_from 1 c.max_trajectory_age_steps)

-- `target in self._generating_targets`
abbrev pub member : ℕ → List ℕ → Bool
member t [] = false
member t (u ∷ us) = if t == u then true else member t us

-- The loop of `_get_next_target_for_generation`, without the reservation.
unfoldable pub first_needed : Collector → ℤ → List ℕ → Option ℕ
first_needed c last [] = none
first_needed c last (t ∷ ts) =
    let rest = first_needed c last ts in
    if ltb_ℤ last (pos t) && not (member t c.generating_targets) then some t else rest

unfoldable pub set_generating : List ℕ → Collector → Collector
set_generating targets c = record {
  max_trajectory_age_steps = c.max_trajectory_age_steps;
  initial_weight_version = c.initial_weight_version;
  current_weight_version = c.current_weight_version;
  running = c.running;
  manual_pause_cleared = c.manual_pause_cleared;
  refit_pause_cleared = c.refit_pause_cleared;
  generation_limit_cleared = c.generation_limit_cleared;
  last_limit_warning_version = c.last_limit_warning_version;
  generating_targets = targets;
}

abbrev pub reserve : Option ℕ → Collector → Option ℕ × Collector
reserve none c = (none, c)
reserve (some t) c = (some t, set_generating (t ∷ c.generating_targets) c)

-- `last` is what the buffer answers.
unfoldable pub get_next_target_for_generation : ℤ → ℕ → Collector → Option ℕ × Collector
unfolding calculate_target_weights first_needed set_generating
get_next_target_for_generation last generation_weight_version c =
    reserve (first_needed c last (calculate_target_weights c generation_weight_version)) c

-- The loop of `_should_pause_for_generation_limits`.
unfoldable pub none_needed : Collector → ℤ → List ℕ → Bool
none_needed c last [] = true
none_needed c last (t ∷ ts) =
    let rest = none_needed c last ts in
    if ltb_ℤ last (pos t) && not (member t c.generating_targets) then false else rest

unfoldable pub should_pause_for_generation_limits : ℤ → Collector → Bool
unfolding calculate_target_weights none_needed
should_pause_for_generation_limits last c =
    none_needed c last (calculate_target_weights c c.current_weight_version)

-- `discard`, when the first prompt group is buffered and when a worker ends.
unfoldable pub release_reservation : ℕ → Collector → Collector
unfolding set_generating
release_reservation target c =
    set_generating (filter (λ t. not (t == target)) c.generating_targets) c

-- The event is set when it was not, and stays set when it was.
unfoldable pub set_weight_version : ℕ → Collector → Collector
set_weight_version version c = record {
  max_trajectory_age_steps = c.max_trajectory_age_steps;
  initial_weight_version = c.initial_weight_version;
  current_weight_version = version;
  running = c.running;
  manual_pause_cleared = c.manual_pause_cleared;
  refit_pause_cleared = c.refit_pause_cleared;
  generation_limit_cleared =
      if not c.generation_limit_cleared then true else c.generation_limit_cleared;
  last_limit_warning_version = c.last_limit_warning_version;
  generating_targets = c.generating_targets;
}

-- The flags that a call sets; the others stay.
abbrev set_flags : Bool → Bool → Bool → Option ℕ → Collector → Collector
set_flags manual refit limit warned c = record {
  max_trajectory_age_steps = c.max_trajectory_age_steps;
  initial_weight_version = c.initial_weight_version;
  current_weight_version = c.current_weight_version;
  running = c.running;
  manual_pause_cleared = manual;
  refit_pause_cleared = refit;
  generation_limit_cleared = limit;
  last_limit_warning_version = warned;
  generating_targets = c.generating_targets;
}

abbrev pub pause : Collector → Collector
pause c =
    set_flags false c.refit_pause_cleared c.generation_limit_cleared c.last_limit_warning_version c

abbrev pub resume : Collector → Collector
resume c =
    set_flags true c.refit_pause_cleared c.generation_limit_cleared c.last_limit_warning_version c

abbrev pub is_warned : Option ℕ → ℕ → Bool
is_warned none v = false
is_warned (some u) v = u == v

-- The pause for the generation limits in `_collection_loop`, up to the wait for the event: the
-- event is cleared once for each weight version.
unfoldable pub pause_for_limits : ℤ → Collector → Collector
unfolding should_pause_for_generation_limits
pause_for_limits last c =
    if should_pause_for_generation_limits last c && c.running
    then (if is_warned c.last_limit_warning_version c.current_weight_version
        then c
        else set_flags c.manual_pause_cleared c.refit_pause_cleared false
            (some c.current_weight_version) c)
    else c
