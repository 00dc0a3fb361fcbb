-- ===== src/Replay/Collector/Next.antt =====
-- Which target the collector generates for next.
use mathlib.Core.Path.{subst}
use nemo_rl_xtoken.Base.{
  ℕ, zero, suc, ◌+◌, ◌≤◌, ◌<◌, ◌≡◌, ◌⊎◌, refl, sym, ap, ◌∙◌, Bool, true, false, not, ◌&&◌, Option,
  none, some, List, [], ◌∷◌, map, arith, range_from, count, ◌==◌, ==→eq, Bool-cases, inl, inr,
  if◌then◌else◌,
}
use nemo_rl_xtoken.Base.Int.{ℤ, pos, ltb_ℤ}
use nemo_rl_xtoken.Replay.Collector.{
  Collector, calculate_target_weights, member, first_needed, set_generating, reserve,
  get_next_target_for_generation,
}

-- The first version that a generation version offers: itself for the initial one, and for the
-- others the version after it.
abbrev pub first_offered : Collector → ℕ → ℕ
first_offered c g = if g == c.initial_weight_version then g else g + 1

-- A version that still wants a batch: it is after the last one that the buffer was given, and it
-- stands nowhere among the targets in progress.
abbrev pub Wanted : Collector → ℤ → ℕ → Type 0
Wanted c last t = (ltb_ℤ last (pos t) ≡ true) × (count t c.generating_targets ≡ 0)

abbrev pub Taken : Collector → ℤ → ℕ → Type 0
Taken c last t = (ltb_ℤ last (pos t) ≡ false) ⊎ (0 < count t c.generating_targets)

-- Every version from `from` on and below `end` is taken.
abbrev pub AllTaken : Collector → ℤ → ℕ → ℕ → Type 0
AllTaken c last from end = (t : ℕ) → from ≤ t → t < end → Taken c last t

-- The least version from `from` on and below `end` that is wanted.
pub record IsLeast (c : Collector) (last : ℤ) (from end t : ℕ) : Type 0 where
  pub lower : from ≤ t
  pub upper : t < end
  pub wanted : Wanted c last t
  pub least : (u : ℕ) → from ≤ u → u < t → Taken c last u

abbrev IsFirst : Collector → ℤ → ℕ → ℕ → Option ℕ → Type 0
IsFirst c last from end none = AllTaken c last from end
IsFirst c last from end (some t) = IsLeast c last from end t

abbrev pub test : Collector → ℤ → ℕ → Bool
test c last t = ltb_ℤ last (pos t) && not (member t c.generating_targets)

member-count_true : (t : ℕ) (us : List ℕ) → member t us ≡ true → 0 < count t us
member-count_true t [] h = cc
member-count_true t (u ∷ us) h = ground (arith, member-count_true t us)

member-count_false : (t : ℕ) (us : List ℕ) → member t us ≡ false → count t us ≡ 0
member-count_false t [] h = refl
member-count_false t (u ∷ us) h = ground (arith, member-count_false t us)

both : (a b : Bool) → (a && not b) ≡ true → (a ≡ true) × (b ≡ false)
both true false h = (refl, refl)
both true true h = cc
both false b h = cc

either : (a b : Bool) → (a && not b) ≡ false → (a ≡ false) ⊎ (b ≡ true)
either true true h = inr refl
either true false h = cc
either false b h = inl refl

pub test-Wanted : (c : Collector) (last : ℤ) (t : ℕ) → test c last t ≡ true → Wanted c last t
test-Wanted c last t h =
    let (after, free) = both (ltb_ℤ last (pos t)) (member t c.generating_targets) h in
    (after, member-count_false t c.generating_targets free)

pub test-Taken : (c : Collector) (last : ℤ) (t : ℕ) → test c last t ≡ false → Taken c last t
test-Taken c last t h = elim (either (ltb_ℤ last (pos t)) (member t c.generating_targets) h) [
  | inl given ↦ inl given
  | inr reserved ↦ inr (member-count_true t c.generating_targets reserved)
]

-- What is taken, put in front of a range.
pub AllTaken-suc :
    (c : Collector) (last : ℤ) (from end : ℕ)
    → Taken c last from
    → AllTaken c last (suc from) end
    → AllTaken c last from end
AllTaken-suc c last from end here later t ge lt = elim (Bool-cases (t == from)) [
  | inl same ↦ subst (Taken c last) (sym (==→eq t from same)) here
  | inr other ↦ later t (ground (arith, other, ge)) lt
]

IsFirst-suc :
    (c : Collector) (last : ℤ) (from end : ℕ) (o : Option ℕ)
    → Taken c last from
    → IsFirst c last (suc from) end o
    → IsFirst c last from end o
IsFirst-suc c last from end none here v = AllTaken-suc c last from end here v
IsFirst-suc c last from end (some t) here v = record {
  lower = omega (arith, v.lower);
  upper = v.upper;
  wanted = v.wanted;
  least = AllTaken-suc c last from t here v.least;
}

first_needed-IsFirst :
    (c : Collector) (last : ℤ) (from n : ℕ)
    → IsFirst c last from (from + n) (first_needed c last (range_from from n))
unfolding first_needed
first_needed-IsFirst c last from zero = λ t ge lt. absurd (omega arith)
first_needed-IsFirst c last from (suc n) = elim (Bool-cases (test c last from)) [
  | inl needed ↦ rw needed (record {
    lower = omega arith;
    upper = omega arith;
    wanted = test-Wanted c last from needed;
    least = λ u ge lt. absurd (omega arith);
  })
  | inr done ↦ rw done (
      IsFirst-suc c last from (from + suc n) (first_needed c last (range_from (suc from) n))
        (test-Taken c last from done)
        (subst (λ e. IsFirst c last (suc from) e (first_needed c last (range_from (suc from) n)))
          next (first_needed-IsFirst c last (suc from) n)))
]
  where
    next : suc from + n ≡ from + suc n
    next = omega arith

-- The offered versions are a range, up to the generation version and the age limit.
map-range : (g k n : ℕ) → map (λ i. g + i) (range_from k n) ≡ range_from (g + k) n
map-range g k zero = refl
map-range g k (suc n) =
    ap (λ l. (g + k) ∷ l) (map-range g (suc k) n ∙ ap (λ j. range_from j n) next)
  where
    next : g + suc k ≡ suc (g + k)
    next = omega arith

abbrev pub number : Collector → ℕ → ℕ
number c g =
    if g == c.initial_weight_version
    then c.max_trajectory_age_steps + 1
    else c.max_trajectory_age_steps

pub offered :
    (c : Collector) (g : ℕ)
    → calculate_target_weights c g ≡ range_from (first_offered c g) (number c g)
unfolding calculate_target_weights
offered c g = elim (Bool-cases (g == c.initial_weight_version)) [
  | inl first ↦ rw first (
      ap (λ k. range_from k (c.max_trajectory_age_steps + 1))
        (sym (==→eq g c.initial_weight_version first)))
  | inr later ↦ rw later (map-range g 1 c.max_trajectory_age_steps)
]

abbrev pub end_offered : Collector → ℕ → ℕ
end_offered c g = g + c.max_trajectory_age_steps + 1

pub offered-end : (c : Collector) (g : ℕ) → first_offered c g + number c g ≡ end_offered c g
offered-end c g = ground arith

-- What the call must answer, and the state it leaves.
abbrev pub IsAnswer : Collector → ℤ → ℕ → Option ℕ × Collector → Type 0
IsAnswer c last g (none, c') = AllTaken c last (first_offered c g) (end_offered c g) × (c' ≡ c)
IsAnswer c last g (some t, c') =
    IsLeast c last (first_offered c g) (end_offered c g) t
    × (c' ≡ set_generating (t ∷ c.generating_targets) c)

reserve-IsAnswer :
    (c : Collector) (last : ℤ) (g : ℕ) (o : Option ℕ)
    → IsFirst c last (first_offered c g) (end_offered c g) o
    → IsAnswer c last g (reserve o c)
reserve-IsAnswer c last g none v = (v, refl)
reserve-IsAnswer c last g (some t) v = (v, refl)

-- For a generation version g, the offered versions are those from g on for the initial version,
-- from g + 1 on for another, up to g plus the age limit. The next target for generation is the
-- least of them that is after the last one that the buffer was given and that is not in progress,
-- and the call reserves it and no other. It answers None, and changes nothing, where there is none.
pub get_next_target_for_generation-IsAnswer :
    (c : Collector) (last : ℤ) (g : ℕ) → IsAnswer c last g (get_next_target_for_generation last g c)
unfolding get_next_target_for_generation
get_next_target_for_generation-IsAnswer c last g =
    reserve-IsAnswer c last g (first_needed c last (calculate_target_weights c g)) (
      subst (λ ts. IsFirst c last (first_offered c g) (end_offered c g) (first_needed c last ts))
        (sym (offered c g))
        (subst
          (λ e.
            IsFirst c last (first_offered c g) e
              (first_needed c last (range_from (first_offered c g) (number c g))))
          (offered-end c g) (first_needed-IsFirst c last (first_offered c g) (number c g))))
