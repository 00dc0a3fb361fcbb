-- ===== src/Packing/Examples.antt =====
-- Runs of the packers on small inputs, and the properties at such inputs.
use mathlib.Core.List.Permᴰ
use nemo_rl_xtoken.Base.{
  ℕ, ◌<◌, ◌≡◌, ◌≢◌, ◌⊎◌, refl, Option, none, some, List, [], ◌∷◌, arith, reverse, ok, err, length,
  total, flatten, range_from,
}
use nemo_rl_xtoken.Base.Int.{pos, negsuc}
use nemo_rl_xtoken.Base.Text.{codes}
use nemo_rl_xtoken.Packing.Packer.{
  PackingAlgorithm, concatenative, first_fit_decreasing, first_fit_shuffle,
  modified_first_fit_decreasing, too_few_sequences, bad_min_bin_count, SequencePacker, IsPacking,
}
use nemo_rl_xtoken.Packing.Adjust.{target_bin_count}
use nemo_rl_xtoken.Packing.Adjust.Counts.{IsAccepted}
use nemo_rl_xtoken.Packing.Concatenative.{concatenative_pack}
use nemo_rl_xtoken.Packing.Concatenative.Order.{concatenative_pack-order}
use nemo_rl_xtoken.Packing.FirstFit.{Shuffle, decreasing, first_fit_pack}
use nemo_rl_xtoken.Packing.FirstFit.Tight.{IsTight, first_fit_pack-IsTight}
use nemo_rl_xtoken.Packing.Mffd.{any_zero}
use nemo_rl_xtoken.Packing.Pack.{pack_implementation, pack, member, named, get_packer}
use nemo_rl_xtoken.Packing.Pack.Bins.{pack-IsPacking, pack-IsAccepted, pack-cases, pack_too_long}

-- A shuffle that turns the list round.
abbrev backwards : Shuffle
backwards = record { shuffle = reverse; shuffle-perm = λ xs. ∣ Permᴰ.reverse xs ∣₁ }

abbrev packer : PackingAlgorithm → ℕ → Option ℕ → Option ℕ → SequencePacker
packer algorithm cap least multiple = record {
  algorithm = algorithm;
  bin_capacity = cap;
  min_bin_count = least;
  bin_count_multiple = multiple;
}

-- The lengths of the docstring of `ConcatenativePacker`.
abbrev docstring_lengths : List ℕ
docstring_lengths = 4 ∷ 1 ∷ 3 ∷ 2 ∷ 1 ∷ 3 ∷ 4 ∷ 5 ∷ []

program : Unit {0}
unfolding pack get_packer target_bin_count flatten any_zero
program = tt

docstring_five :
    pack backwards (packer concatenative 5 none none) docstring_lengths
    ≡ ok ((0 ∷ 1 ∷ []) ∷ (2 ∷ 3 ∷ []) ∷ (4 ∷ 5 ∷ []) ∷ (6 ∷ []) ∷ (7 ∷ []) ∷ [])
unfolding program
docstring_five = refl

docstring_eight :
    pack backwards (packer concatenative 8 none none) docstring_lengths
    ≡ ok ((0 ∷ 1 ∷ 2 ∷ []) ∷ (3 ∷ 4 ∷ 5 ∷ []) ∷ (6 ∷ []) ∷ (7 ∷ []) ∷ [])
unfolding program
docstring_eight = refl

decreasing_bins : List (List ℕ)
decreasing_bins = (7 ∷ 5 ∷ []) ∷ (6 ∷ 0 ∷ []) ∷ (2 ∷ 3 ∷ 4 ∷ 1 ∷ []) ∷ []

first_fit_decreasing_eight :
    pack backwards (packer first_fit_decreasing 8 none none) docstring_lengths ≡ ok decreasing_bins
unfolding program decreasing_bins
first_fit_decreasing_eight = refl

-- Three bins are wanted to be a multiple of two: the largest bin gives one sequence.
adjusted_bins : List (List ℕ)
adjusted_bins = (7 ∷ 5 ∷ []) ∷ (6 ∷ 0 ∷ []) ∷ (2 ∷ 3 ∷ 4 ∷ []) ∷ (1 ∷ []) ∷ []

first_fit_decreasing_multiple :
    pack backwards (packer first_fit_decreasing 8 (some 2) (some 2)) docstring_lengths
    ≡ ok adjusted_bins
unfolding program adjusted_bins
first_fit_decreasing_multiple = refl

mffd_runs :
    pack backwards
      (packer modified_first_fit_decreasing 12 none none)
      (8 ∷ 5 ∷ 3 ∷ 3 ∷ 7 ∷ 4 ∷ 1 ∷ 2 ∷ [])
    ≡ ok ((0 ∷ 5 ∷ []) ∷ (4 ∷ 1 ∷ []) ∷ (2 ∷ 3 ∷ 7 ∷ 6 ∷ []) ∷ [])
unfolding program
mffd_runs = refl

too_few :
    pack backwards (packer concatenative 8 (some 4) none) (4 ∷ 1 ∷ 3 ∷ []) ≡ err too_few_sequences
unfolding program
too_few = refl

get_packer_lower :
    get_packer (named (codes "first_fit_Shuffle")) 8 none (some (pos 2))
    ≡ ok (packer first_fit_shuffle 8 none (some 2))
unfolding program
get_packer_lower = refl

get_packer_negative :
    get_packer (member concatenative) 8 (some (negsuc 0)) none ≡ err bad_min_bin_count
unfolding program
get_packer_negative = refl

pack-IsPacking_example : IsPacking 8 docstring_lengths adjusted_bins
pack-IsPacking_example =
    pack-IsPacking backwards (packer first_fit_decreasing 8 (some 2) (some 2)) docstring_lengths
      adjusted_bins first_fit_decreasing_multiple

pack-IsAccepted_example : IsAccepted (packer first_fit_decreasing 8 (some 2) (some 2)) 4
unfolding adjusted_bins
pack-IsAccepted_example =
    pack-IsAccepted backwards (packer first_fit_decreasing 8 (some 2) (some 2)) docstring_lengths
      adjusted_bins first_fit_decreasing_multiple

pack-cases_example :
    let p = packer modified_first_fit_decreasing 8 (some 3) (some 2) in
    ((bins : List (List ℕ)) × (pack backwards p docstring_lengths ≡ ok bins))
    ⊎ ((pack backwards p docstring_lengths ≡ err too_few_sequences)
        × (bins : List (List ℕ)) × (pack_implementation backwards modified_first_fit_decreasing 8
              docstring_lengths
            ≡ ok bins)
        × (total length bins < target_bin_count p (length bins)))
unfolding any_zero
pack-cases_example =
    pack-cases backwards (packer modified_first_fit_decreasing 8 (some 3) (some 2))
      docstring_lengths (omega arith) refl (omega arith)

pack_too_long_example :
    pack backwards (packer first_fit_shuffle 8 none none) (3 ∷ 9 ∷ [])
    ≢ ok ((0 ∷ []) ∷ (1 ∷ []) ∷ [])
pack_too_long_example =
    pack_too_long backwards (packer first_fit_shuffle 8 none none) (3 ∷ 9 ∷ [])
      ((0 ∷ []) ∷ (1 ∷ []) ∷ []) (λ h. omega arith)

concatenative_pack-order_example : flatten ((0 ∷ 1 ∷ []) ∷ (2 ∷ []) ∷ []) ≡ range_from 0 3
unfolding concatenative_pack
concatenative_pack-order_example =
    concatenative_pack-order 5 (pos 2) (2 ∷ 1 ∷ 1 ∷ []) ((0 ∷ 1 ∷ []) ∷ (2 ∷ []) ∷ []) refl

first_fit_pack-IsTight_example : IsTight 8 docstring_lengths decreasing_bins
unfolding first_fit_pack decreasing_bins
first_fit_pack-IsTight_example =
    first_fit_pack-IsTight 8 docstring_lengths decreasing decreasing_bins refl
