-- ===== src/Rollouts/Sample/Ends.antt =====
-- The turns of a rollout, and how it ends.
use nemo_rl_xtoken.Base.{
  ℕ, zero, suc, ◌+◌, ◌≤◌, ◌≡◌, ◌⊎◌, refl, ◌||◌, true, false, Option, none, some, arith, Bool-cases,
  inl, inr,
}
use nemo_rl_xtoken.Rollouts.Sample.{
  Generation, Engine, Environment, SampleState, flat_tokens, finish_turn, count_turn, rollout,
}

module _ {I R : Type 0} (add : R → R → R) (max_seq_len : ℕ) (engine : Engine)
    (env : Environment I R) where
  -- So many turns lead from the one state to the other. Each is taken in a state that is neither
  -- terminated nor truncated; one in which the engine raises is the last.
  pub data Turns : ℕ → SampleState I R → SampleState I R → Type 0 where
    stay : {s : SampleState I R} → Turns zero s s
    turn :
        {n : ℕ} {s t : SampleState I R} (g : Generation)
        → s.terminated ≡ false
        → s.truncated ≡ false
        → engine.generate (flat_tokens s.message_log) s.stop_strings ≡ some g
        → Turns n (finish_turn add max_seq_len engine env g (count_turn s)) t
        → Turns (suc n) s t
    failed :
        {s : SampleState I R}
        → s.terminated ≡ false
        → s.truncated ≡ false
        → engine.generate (flat_tokens s.message_log) s.stop_strings ≡ none
        → Turns 1 s (count_turn s)

finish_turn-turn_count :
    {I R : Type 0} (add : R → R → R) (max_seq_len : ℕ) (engine : Engine) (env : Environment I R)
    (g : Generation) (s : SampleState I R)
    → (finish_turn add max_seq_len engine env g s).turn_count ≡ s.turn_count
unfolding finish_turn
finish_turn-turn_count add max_seq_len engine env g s = refl

-- The state is terminated or truncated, or all the turns are taken, or the engine raises on its
-- log and stop strings.
abbrev pub IsEnd : {I R : Type 0} → Engine → ℕ → ℕ → SampleState I R → Type 0
IsEnd engine turns taken s =
    ((s.terminated || s.truncated) ≡ true)
    ⊎ ((taken ≡ turns) ⊎ (engine.generate (flat_tokens s.message_log) s.stop_strings ≡ none))

module _ {I R : Type 0} (add : R → R → R) (max_seq_len : ℕ) (engine : Engine)
    (env : Environment I R) where
  -- What a rollout does, for a limit of so many turns.
  abbrev pub Ends : ℕ → SampleState I R → SampleState I R → Type 0
  Ends turns s r =
      (taken : ℕ) × Turns add max_seq_len engine env taken s r
      × (taken ≤ turns)
      × (r.turn_count ≡ s.turn_count + taken)
      × IsEnd engine turns taken r

  -- A rollout takes turns, at most as many as its limit and each counted, from states only that are
  -- neither terminated nor truncated; and it does not stop before there is a reason to: the state that it
  -- ends with is terminated or truncated, or all the turns are taken, or the engine raises an
  -- exception on the log and the stop strings that it ends with.
  pub rollout-IsEnd :
      (turns : ℕ) (s : SampleState I R) → Ends turns s (rollout add max_seq_len engine env turns s)
  unfolding rollout
  rollout-IsEnd zero s = (0, Turns.stay, omega arith, omega arith, inr (inl refl))
  rollout-IsEnd (suc turns) s = elim (Bool-cases (s.terminated || s.truncated)) [
    | inl over ↦ rw over (0, Turns.stay, omega arith, omega arith, inl over)
    | inr open_ ↦ rw open_ (
        go (ground arith) (ground arith)
          (engine.generate (flat_tokens s.message_log) s.stop_strings) refl (rollout-IsEnd turns))
  ]
    where
      go :
          s.terminated ≡ false
          → s.truncated ≡ false
          → (o : Option Generation) → engine.generate (flat_tokens s.message_log) s.stop_strings ≡ o
          → ((t : SampleState I R) → Ends turns t (rollout add max_seq_len engine env turns t))
          → Ends (suc turns) s (elim o as (λ _. SampleState I R) [
            | none ↦ count_turn s
            | some g ↦
                rollout add max_seq_len engine env turns
                  (finish_turn add max_seq_len engine env g (count_turn s))
          ])
      go open_ whole none e ih = (1, Turns.failed open_ whole e, omega arith, refl, inr (inr e))
      go open_ whole (some g) e ih =
          let (taken, taking, few, counted, end) =
            ih (finish_turn add max_seq_len engine env g (count_turn s)) in
          (
            suc taken,
            Turns.turn g open_ whole e taking,
            omega arith,
            omega (
              arith,
              counted,
              finish_turn-turn_count add max_seq_len engine env g (count_turn s),
            ),
            elim end [
              | inl flag ↦ inl flag
              | inr (inl all) ↦ inr (inl (omega arith))
              | inr (inr raised) ↦ inr (inr raised)
            ],
          )
