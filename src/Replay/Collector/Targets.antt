-- ===== src/Replay/Collector/Targets.antt =====
-- The targets of the collector, and what they mean for `sample`.
use mathlib.Core.Path.{subst}
use nemo_rl_xtoken.Base.{
  ℕ, zero, suc, ◌+◌, ◌≤◌, ◌<◌, ◌≡◌, sym, arith, List, [], ◌∷◌, map, false, range_from, All, count,
  ltb, ◌==◌, ==→eq, Bool-cases, inl, inr, refl,
}
use nemo_rl_xtoken.Replay.Buffer.{min_valid_version}
use nemo_rl_xtoken.Replay.Buffer.Rows.{Entry}
use nemo_rl_xtoken.Replay.Buffer.Sampling.{any_old}
use nemo_rl_xtoken.Replay.Collector.{Collector, calculate_target_weights}

range-window :
    (P : ℕ → Type 0) (k n : ℕ) → ((t : ℕ) → k ≤ t → t < k + n → P t) → All P (range_from k n)
range-window P k zero h = tt
range-window P k (suc n) h = (
  h k (omega arith) (omega arith),
  range-window P (suc k) n (λ t a b. h t (omega arith) (omega arith)),
)

All-map :
    {A B : Type 0} (P : B → Type 0) (f : A → B) (xs : List A)
    → All (λ x. P (f x)) xs
    → All P (map f xs)
All-map P f [] h = tt
All-map P f (x ∷ xs) h = (h.0, All-map P f xs h.1)

-- No target is before the generation version, nor more than the age limit behind it.
calculate_target_weights-window :
    (c : Collector) (g : ℕ)
    → All (λ t. (g ≤ t) × (t ≤ g + c.max_trajectory_age_steps)) (calculate_target_weights c g)
unfolding calculate_target_weights
calculate_target_weights-window c g = elim (Bool-cases (g == c.initial_weight_version)) [
  | inl first ↦
      let same = ==→eq g c.initial_weight_version first in
      rw first (
        range-window _ c.initial_weight_version (c.max_trajectory_age_steps + 1)
          (λ t a b. (omega arith, omega arith)))
  | inr later ↦ rw later (
      All-map _ (λ i. g + i) (range_from 1 c.max_trajectory_age_steps)
        (range-window _ 1 c.max_trajectory_age_steps (λ t a b. (omega arith, omega arith))))
]

All-count : (P : ℕ → Type 0) (t : ℕ) (ts : List ℕ) → All P ts → 0 < count t ts → P t
All-count P t [] h found = absurd (omega arith)
All-count P t (u ∷ us) h found = elim (Bool-cases (t == u)) [
  | inl here ↦ subst P (sym (==→eq t u here)) h.0
  | inr later ↦ All-count P t us h.1 (ground (arith, later))
]

-- The entry's target was one of the collector's for some version `g`, and the entry was generated
-- with that version or, after a refit, with a later one.
pub record IsCollected (c : Collector) {T : Type 0} (e : Entry T) : Type 0 where
  pub g : ℕ
  pub offered : 0 < count e.target (calculate_target_weights c g)
  pub no_older : g ≤ e.version

-- If every entry was generated by the collector, for one of the targets it calculates, and no
-- entry's target is before the current version, then `sample` finds no entry that is older than
-- the age window.
pub any_old-IsCollected :
    (c : Collector) (current : ℕ) {T : Type 0} (entries : List (Entry T))
    → All (IsCollected c) entries
    → All (λ e. current ≤ e.target) entries
    → any_old current c.max_trajectory_age_steps entries ≡ false
any_old-IsCollected c current [] h ahead = refl
any_old-IsCollected c current (e ∷ es) (v, vs) (ahead, later) =
    let (from, to) =
      All-count _ e.target (calculate_target_weights c v.g) (calculate_target_weights-window c v.g)
        v.offered in
    rw (fresh to) (any_old-IsCollected c current es vs later)
  where
    fresh :
        e.target ≤ v.g + c.max_trajectory_age_steps
        → ltb e.version (min_valid_version current c.max_trajectory_age_steps) ≡ false
    fresh to = ground (arith, ahead, v.no_older)
