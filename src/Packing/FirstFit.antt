-- ===== src/Packing/FirstFit.antt =====
-- `FirstFitPacker` with its two subclasses, which differ in the order of the sequences.
pub mod Sound
pub mod Packs
pub mod Tight
use mathlib.Core.List.{Perm}
use nemo_rl_xtoken.Base.{
  ℕ, zero, suc, ◌+◌, ◌-◌, ◌≤◌, ◌≡◌, refl, Bool, true, false, ◌&&◌, ◌||◌, Option, none, some, List,
  [], ◌∷◌, ◌++◌, map, Result, ok, err, ◌>>=◌, enumerate, modify, ltb, leb, ◌==◌, if◌then◌else◌,
  sort_by,
}
use nemo_rl_xtoken.Packing.Packer.{PackError, sequence_too_long, tuple_ge}

-- `[(length, i) for i, length in enumerate(sequence_lengths)]`
abbrev pub swap_pair : ℕ × ℕ → ℕ × ℕ
swap_pair (i, len) = (len, i)

abbrev pub indexed_lengths : List ℕ → List (ℕ × ℕ)
indexed_lengths sequence_lengths = map swap_pair (enumerate sequence_lengths)

-- `random.shuffle`: some function of the list, of which only this is documented and relied on,
-- that its result is a rearrangement.
pub record Shuffle : Type 0 where
  pub shuffle : List (ℕ × ℕ) → List (ℕ × ℕ)
  pub shuffle-perm : (xs : List (ℕ × ℕ)) → Perm (shuffle xs) xs

pub data Preparation : Type 0 where
  decreasing : Preparation
  shuffled : Shuffle → Preparation

-- `_prepare_sequences` of `FirstFitDecreasingPacker` and of `FirstFitShufflePacker`
unfoldable pub prepare_sequences : Preparation → List ℕ → List (ℕ × ℕ)
unfolding sort_by
prepare_sequences decreasing sequence_lengths = sort_by tuple_ge (indexed_lengths sequence_lengths)
prepare_sequences (shuffled random) sequence_lengths =
    random.shuffle (indexed_lengths sequence_lengths)

-- The inner loop: the first bin with enough room, if any.
unfoldable pub find_fit : ℕ → List ℕ → Option ℕ
find_fit len [] = none
find_fit len (remaining ∷ rest) =
    let later = find_fit len rest in
    if leb len remaining then some 0 else elim later [ none ↦ none | some i ↦ some (suc i) ]

pub record Bins : Type 0 where
  pub bins : List (List ℕ)
  pub bin_remaining : List ℕ

abbrev pub put_in : ℕ → ℕ → ℕ → Option ℕ → Bins → Bins
put_in bin_capacity len idx (some i) s = record {
  bins = modify i (λ b. b ++ idx ∷ []) s.bins;
  bin_remaining = modify i (λ remaining. remaining - len) s.bin_remaining;
}
put_in bin_capacity len idx none s = record {
  bins = s.bins ++ (idx ∷ []) ∷ [];
  bin_remaining = s.bin_remaining ++ (bin_capacity - len) ∷ [];
}

-- One round of the outer loop.
unfoldable pub first_fit_step : ℕ → ℕ → ℕ → Bins → Result PackError Bins
unfolding find_fit
first_fit_step bin_capacity len idx s =
    if ltb bin_capacity len
    then err sequence_too_long
    else ok (put_in bin_capacity len idx (find_fit len s.bin_remaining) s)

unfoldable pub first_fit_loop : ℕ → List (ℕ × ℕ) → Bins → Result PackError Bins
unfolding first_fit_step
first_fit_loop bin_capacity [] s = ok s
first_fit_loop bin_capacity ((len, idx) ∷ rest) s = do
  s' ← first_fit_step bin_capacity len idx s
  first_fit_loop bin_capacity rest s'

-- `_pack_implementation`
unfoldable pub first_fit_pack : ℕ → Preparation → List ℕ → Result PackError (List (List ℕ))
unfolding prepare_sequences first_fit_loop
first_fit_pack bin_capacity preparation sequence_lengths = do
  s ←
      first_fit_loop bin_capacity (prepare_sequences preparation sequence_lengths)
        (record { bins = []; bin_remaining = [] })
  ok s.bins
