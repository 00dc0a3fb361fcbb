-- ===== src/Replay/Collector/Pause.antt =====
-- When the collector pauses for the generation limits.
use nemo_rl_xtoken.Base.{ℕ, ◌≡◌, ◌⊎◌, true, false, none, some}
use nemo_rl_xtoken.Base.Int.{ℤ}
use nemo_rl_xtoken.Replay.Collector.{
  Collector, get_next_target_for_generation, should_pause_for_generation_limits, pause_for_limits,
}
use nemo_rl_xtoken.Replay.Collector.Next.{AllTaken, first_offered, end_offered}

-- What a pause leaves: nothing new if the collector does not run, or was warned for these weights;
-- else the warning, and the event cleared.
abbrev pub IsRecorded : Collector → Collector → Type 0
IsRecorded c c' =
    ((c.running ≡ false) × (c' ≡ c))
    ⊎ (((c.last_limit_warning_version ≡ some c.current_weight_version) × (c' ≡ c))
        ⊎ ((c'.last_limit_warning_version ≡ some c.current_weight_version)
            × (c'.generation_limit_cleared ≡ false)))

-- Every version that is offered for the current weights is taken: the collector asks for a pause,
-- the next batch would get no target, and the pause is recorded.
abbrev pub IsStalled : Collector → ℤ → Type 0
IsStalled c last =
    let v = c.current_weight_version in
    (should_pause_for_generation_limits last c ≡ true)
    × AllTaken c last (first_offered c v) (end_offered c v)
    × ((get_next_target_for_generation last v c).0 ≡ none)
    × IsRecorded c (pause_for_limits last c)

-- A version that is offered is wanted: there is no pause, nothing changes, and the next batch gets a
-- target.
abbrev pub GoesOn : Collector → ℤ → Type 0
GoesOn c last =
    let v = c.current_weight_version in
    (should_pause_for_generation_limits last c ≡ false)
    × (pause_for_limits last c ≡ c)
    × (t : ℕ) × ((get_next_target_for_generation last v c).0 ≡ some t)
