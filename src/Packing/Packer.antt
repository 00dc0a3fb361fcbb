-- ===== src/Packing/Packer.antt =====
-- The fields of `SequencePacker` and what its methods raise. Lengths and capacities are natural
-- numbers; `min_bin_count` and `bin_count_multiple` come from a configuration and are integers
-- until `new_packer` (the constructor) has checked them.
use nemo_rl_xtoken.Base.{
  ℕ, ◌≤◌, ◌≡◌, refl, ◌∙◌, range_from, count-range, total-flatten, Option, none, some, Bool, false,
  List, [], ◌∷◌, arith, Result, ok, err, ◌>>◌, raise_if, ◌&&◌, ◌||◌, leb, ◌==◌, length, All, total,
  count, get_or, ltb, flatten, if◌then◌else◌,
}
use nemo_rl_xtoken.Base.Int.{ℤ, pos, pos_part, ltb_ℤ}

pub data PackingAlgorithm : Type 0 where
  concatenative first_fit_decreasing first_fit_shuffle modified_first_fit_decreasing :
      PackingAlgorithm

-- The exceptions of the module, one name for each `raise`. `index_error` is Python's own, for an
-- access out of range; `cannot_redistribute` carries the text "Triggering this section of code is
-- a bug".
pub data PackError : Type 0 where
  bad_min_bin_count bad_bin_count_multiple unknown_algorithm : PackError
  sequence_too_long bad_capacity bad_length : PackError
  too_few_sequences cannot_redistribute index_error : PackError

pub record SequencePacker : Type 0 where
  pub algorithm : PackingAlgorithm
  pub bin_capacity : ℕ
  pub min_bin_count : Option ℕ
  pub bin_count_multiple : Option ℕ

-- `x is not None and x < bound`
abbrev pub given_below : Option ℤ → ℕ → Bool
given_below none bound = false
given_below (some x) bound = ltb_ℤ x (pos bound)

abbrev pub to_natural : Option ℤ → Option ℕ
to_natural none = none
to_natural (some x) = some (pos_part x)

-- `SequencePacker.__init__`
unfoldable pub new_packer :
    PackingAlgorithm → ℕ → Option ℤ → Option ℤ → Result PackError SequencePacker
new_packer algorithm bin_capacity min_bin_count bin_count_multiple = do
  raise_if (given_below min_bin_count 0) bad_min_bin_count
  raise_if (given_below bin_count_multiple 1) bad_bin_count_multiple
  ok (record {
    algorithm = algorithm;
    bin_capacity = bin_capacity;
    min_bin_count = to_natural min_bin_count;
    bin_count_multiple = to_natural bin_count_multiple;
  })

-- `_validate_sequence_lengths`
unfoldable pub validate_sequence_lengths : ℕ → List ℕ → Result PackError (Unit {0})
validate_sequence_lengths bin_capacity [] = ok tt
validate_sequence_lengths bin_capacity (length ∷ rest) =
    if ltb bin_capacity length
    then err sequence_too_long
    else validate_sequence_lengths bin_capacity rest

pub validate_sequence_lengths-ok :
    (cap : ℕ) (lens : List ℕ) → validate_sequence_lengths cap lens ≡ ok tt → All (λ l. l ≤ cap) lens
unfolding validate_sequence_lengths
validate_sequence_lengths-ok cap [] h = tt
validate_sequence_lengths-ok cap (l ∷ lens) h =
    ground (arith, validate_sequence_lengths-ok cap lens)

pub validate_sequence_lengths_passes :
    (cap : ℕ) (lens : List ℕ) → All (λ l. l ≤ cap) lens → validate_sequence_lengths cap lens ≡ ok tt
unfolding validate_sequence_lengths
validate_sequence_lengths_passes cap [] h = refl
validate_sequence_lengths_passes cap (l ∷ lens) h =
    ground (arith, validate_sequence_lengths_passes cap lens h.1)

-- `>=` on tuples, the order of `sort(reverse=True)`
abbrev pub tuple_ge : ℕ × ℕ → ℕ × ℕ → Bool
tuple_ge (a, i) (b, j) = ltb b a || (a == b && leb j i)

-- The length of the sequence with index `i`.
abbrev pub length_of : List ℕ → ℕ → ℕ
length_of lens i = get_or lens i 0

-- What `pack` promises of its bins: each index of the input is in one bin, once, and no other
-- index is in any; no bin holds more than the capacity; no bin is empty.
pub record IsPacking (cap : ℕ) (lens : List ℕ) (bins : List (List ℕ)) : Type 0 where
  pub placed : (i : ℕ) → count i (flatten bins) ≡ (if ltb i (length lens) then 1 else 0)
  pub fits : All (λ b. total (length_of lens) b ≤ cap) bins
  pub filled : All (λ b. 1 ≤ length b) bins

-- Bins that hold what `range(len(lens))` holds, by every weight, hold each index once.
pub IsPacking-of_totals :
    (cap : ℕ) (lens : List ℕ) (bins : List (List ℕ))
    → ((w : ℕ → ℕ) → total (total w) bins ≡ total w (range_from 0 (length lens)))
    → All (λ b. total (length_of lens) b ≤ cap) bins
    → All (λ b. 1 ≤ length b) bins
    → IsPacking cap lens bins
IsPacking-of_totals cap lens bins same fits filled = record {
  placed = λ i. once i (λ j. if i == j then 1 else 0) (count-range i (length lens));
  fits = fits;
  filled = filled;
}
  where
    once :
        (i : ℕ) (w : ℕ → ℕ)
        → total w (range_from 0 (length lens)) ≡ (if ltb i (length lens) then 1 else 0)
        → total w (flatten bins) ≡ (if ltb i (length lens) then 1 else 0)
    once i w e = total-flatten w bins ∙ same w ∙ e
