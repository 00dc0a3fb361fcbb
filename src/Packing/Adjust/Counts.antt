-- ===== src/Packing/Adjust/Counts.antt =====
-- The number of bins that `_adjust_bin_count` aims at, and what it starts from.
use native.Mathlib.Nat.{mod-add-mod, mod_self, mod-lt}
use native.Mathlib.Decide.{dec_lt}
use mathlib.Core.Path.{subst}
use mathlib.Core.Option.{some-injective}
use nemo_rl_xtoken.Base.{
  All-positions, ℕ, zero, suc, ◌+◌, ◌-◌, ◌%◌, ◌≤◌, ◌<◌, ◌≡◌, refl, sym, ap, ◌∙◌, Option, none, some,
  List, [], ◌∷◌, ◌++◌, map, arith, length, get_or, replicate, enumerate, range_from, count-range,
  fst, All, All-sort_by, All-get_or, total, total-map, total-sort_by, total-enumerate_from, ◌==◌,
  ==→eq, Bool-cases, inl, inr, if◌then◌else◌,
}
use nemo_rl_xtoken.Packing.Packer.{SequencePacker, tuple_ge}
use nemo_rl_xtoken.Packing.Adjust.{
  raised_to_minimum, raised_to_multiple, target_bin_count, size_pair, bin_sizes,
}
use nemo_rl_xtoken.Packing.Adjust.Supply.{spare, spare_of, AreSources}
use nemo_rl_xtoken.Packing.Adjust.Moves.{IsPartial}

-- A number of bins that the configuration accepts.
pub record IsAccepted (packer : SequencePacker) (n : ℕ) : Type 0 where
  pub minimum : (least : ℕ) → packer.min_bin_count ≡ some least → least ≤ n
  pub multiple : (m : ℕ) → packer.bin_count_multiple ≡ some m → 1 ≤ m → n % m ≡ 0

round_up-mod : (t m : ℕ) → 1 ≤ m → (t + (m - t % m)) % m ≡ 0
round_up-mod t m h = sym (mod-add-mod t m (m - t % m)) ∙ ap (λ (k : ℕ). k % m) whole ∙ mod_self m
  where
    whole : t % m + (m - t % m) ≡ m
    whole = omega (arith, mod-lt t {m = m} h)

pub target_bin_count-le : (packer : SequencePacker) (n : ℕ) → n ≤ target_bin_count packer n
unfolding target_bin_count
target_bin_count-le packer n = ground arith

pub target_bin_count-IsAccepted :
    (packer : SequencePacker) (n : ℕ) → IsAccepted packer (target_bin_count packer n)
unfolding target_bin_count
target_bin_count-IsAccepted packer n = record {
  minimum = λ least e. ground arith;
  multiple = λ m e h. rounded packer.bin_count_multiple m e h;
}
  where
    t : ℕ
    t = raised_to_minimum packer.min_bin_count n

    rounded : (o : Option ℕ) (m : ℕ) → o ≡ some m → 1 ≤ m → raised_to_multiple o t % m ≡ 0
    rounded none m e h = cc
    rounded (some k) m e h =
        subst (λ m. raised_to_multiple (some k) t % m ≡ 0) (some-injective k m e)
          (elim (Bool-cases (t % k == 0)) [
            | inl exact ↦ rw exact (==→eq _ _ exact)
            | inr over ↦ rw over (round_up-mod t k (rw (← some-injective k m e) at h))
          ])

module _ {ℓ} {A : Type ℓ} where
  get_or-append_left :
      (xs ys : List A) (i : ℕ) (d : A) → i < length xs → get_or (xs ++ ys) i d ≡ get_or xs i d
  get_or-append_left [] ys i d h = elim h [ ]
  get_or-append_left (x ∷ xs) ys zero d h = refl
  get_or-append_left (x ∷ xs) ys (suc i) d h = get_or-append_left xs ys i d (omega arith)

  get_or-replicate : (n i : ℕ) (d : A) → get_or (replicate n d) i d ≡ d
  get_or-replicate zero i d = refl
  get_or-replicate (suc n) zero d = refl
  get_or-replicate (suc n) (suc i) d = get_or-replicate n i d

  -- Past the given elements there is nothing but the default.
  get_or-append-replicate :
      (xs : List A) (n i : ℕ) (d : A) → length xs ≤ i → get_or (xs ++ replicate n d) i d ≡ d
  get_or-append-replicate [] n i d h = get_or-replicate n i d
  get_or-append-replicate (x ∷ xs) n zero d h = absurd (omega arith)
  get_or-append-replicate (x ∷ xs) n (suc i) d h = get_or-append-replicate xs n i d (omega arith)

All-size_pair :
    (n : ℕ) (ps : List (ℕ × List ℕ))
    → All (λ p. fst p < n) ps
    → All (λ s. s.1 < n) (map size_pair ps)
All-size_pair n [] h = tt
All-size_pair n (p ∷ ps) h = (h.0, All-size_pair n ps h.1)

module _ (bins : List (List ℕ)) where
  total-bin_sizes :
      (w : ℕ → ℕ) → total (λ s. w s.1) (bin_sizes bins) ≡ total w (range_from 0 (length bins))
  unfolding bin_sizes
  total-bin_sizes w =
      total-sort_by tuple_ge (λ s. w s.1) (map size_pair (enumerate bins))
      ∙ total-map (λ s. w s.1) size_pair (enumerate bins)
      ∙ total-enumerate_from w 0 bins

  pub bin_sizes-AreSources : AreSources (length bins) (bin_sizes bins)
  unfolding bin_sizes
  bin_sizes-AreSources = record {
    below = All-sort_by tuple_ge _ (map size_pair (enumerate bins)) (
        All-size_pair (length bins) (enumerate bins)
          (All-positions 0 (length bins) bins (omega arith)));
    once = λ i.
        ground (arith, total-bin_sizes (λ j. if i == j then 1 else 0), count-range i (length bins));
  }

  -- Every sequence but one of each bin can be given away.
  supply_from :
      (ext : List (List ℕ)) (k : ℕ) (xs : List (List ℕ))
      → ((j : ℕ) → j < length xs → get_or ext (k + j) [] ≡ get_or xs j [])
      → total length xs ≤ total (spare_of ext) (range_from k (length xs)) + length xs
  supply_from ext k [] h = omega arith
  supply_from ext k (x ∷ xs) h = omega (
    arith,
    ap length (h 0 (omega arith)),
    ap (λ i. length (get_or ext i [])) here,
    supply_from ext (suc k) xs
        (λ j lt. ap (λ i. get_or ext i []) (there j) ∙ h (suc j) (omega arith)),
  )
    where
      here : k + 0 ≡ k
      here = omega arith

      there : (j : ℕ) → suc k + j ≡ k + suc j
      there j = omega arith

  pub supply :
      (n : ℕ) → total length bins ≤ spare (bins ++ replicate n []) (bin_sizes bins) + length bins
  supply n = omega (
    arith,
    total-bin_sizes (spare_of (bins ++ replicate n [])),
    supply_from (bins ++ replicate n []) 0 bins (λ j lt.
        ap (λ i. get_or (bins ++ replicate n []) i []) (start j)
        ∙ get_or-append_left bins (replicate n []) j [] lt),
  )
    where
      start : (j : ℕ) → 0 + j ≡ j
      start j = omega arith

  -- The bins with the empty ones behind them are where the loop starts.
  pub extended-IsPartial :
      (v : ℕ → ℕ) (cap n : ℕ)
      → All (λ b. total v b ≤ cap) bins
      → All (λ b. 1 ≤ length b) bins
      → IsPartial v cap (length bins) (bins ++ replicate n [])
  extended-IsPartial v cap n fits filled = record {
    fits = λ j. elim (dec_lt j (length bins)) [
      | yes lt ↦
          rw (get_or-append_left bins (replicate n []) j [] lt)
            (All-get_or (λ b. total v b ≤ cap) [] bins j fits (omega arith))
      | no ge ↦ rw (get_or-append-replicate bins n j [] (omega arith)) (omega arith)
    ];
    filled =
        λ j lt. rw (get_or-append_left bins (replicate n []) j [] lt) (All-at bins j filled lt);
    empty = λ j ge. ap length (get_or-append-replicate bins n j [] ge);
  }
    where
      All-at :
          (bs : List (List ℕ)) (j : ℕ)
          → All (λ b. 1 ≤ length b) bs
          → j < length bs
          → 1 ≤ length (get_or bs j [])
      All-at [] j h lt = elim lt [ ]
      All-at (b ∷ bs) zero h lt = h.0
      All-at (b ∷ bs) (suc j) h lt = All-at bs j h.1 (omega arith)
