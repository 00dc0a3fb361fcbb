-- ===== src/Packing/Pack.antt =====
-- `SequencePacker.pack` over the four subclasses, and the factory `get_packer`. Metrics are not
-- modelled: `pack` computes the same bins with and without them.
pub mod Bins
use nemo_rl_xtoken.Base.{
  ℕ, ◌≡◌, refl, Option, none, some, Bool, true, false, List, [], ◌∷◌, Result, ok, err, ◌>>=◌,
  if◌then◌else◌,
}
use nemo_rl_xtoken.Base.Int.{ℤ}
use nemo_rl_xtoken.Base.Text.{Text, codes, upper, text_eq}
use nemo_rl_xtoken.Packing.Packer.{
  PackingAlgorithm, concatenative, first_fit_decreasing, first_fit_shuffle,
  modified_first_fit_decreasing, PackError, unknown_algorithm, SequencePacker, new_packer,
}
use nemo_rl_xtoken.Packing.Adjust.{adjust_bin_count}
use nemo_rl_xtoken.Packing.Concatenative.{concatenative_pack, max_sequences_per_bin}
use nemo_rl_xtoken.Packing.FirstFit.{Shuffle, Preparation, decreasing, shuffled, first_fit_pack}
use nemo_rl_xtoken.Packing.Mffd.{mffd_pack}

-- The method that the packer's class overrides.
unfoldable pub pack_implementation :
    Shuffle → PackingAlgorithm → ℕ → List ℕ → Result PackError (List (List ℕ))
unfolding concatenative_pack first_fit_pack mffd_pack
pack_implementation random concatenative cap lens =
    concatenative_pack cap max_sequences_per_bin lens
pack_implementation random first_fit_decreasing cap lens = first_fit_pack cap decreasing lens
pack_implementation random first_fit_shuffle cap lens = first_fit_pack cap (shuffled random) lens
pack_implementation random modified_first_fit_decreasing cap lens = mffd_pack cap lens

unfoldable pub pack : Shuffle → SequencePacker → List ℕ → Result PackError (List (List ℕ))
unfolding pack_implementation adjust_bin_count
pack random packer sequence_lengths = do
  bins ← pack_implementation random packer.algorithm packer.bin_capacity sequence_lengths
  adjust_bin_count packer bins

-- `alg.name` of the enumeration
abbrev pub algorithm_name : PackingAlgorithm → Text
algorithm_name concatenative = codes "CONCATENATIVE"
algorithm_name first_fit_decreasing = codes "FIRST_FIT_DECREASING"
algorithm_name first_fit_shuffle = codes "FIRST_FIT_SHUFFLE"
algorithm_name modified_first_fit_decreasing = codes "MODIFIED_FIRST_FIT_DECREASING"

-- `PackingAlgorithm[name]`, whose KeyError `get_packer` turns into a ValueError
unfoldable pub lookup_algorithm : Text → Result PackError PackingAlgorithm
unfolding text_eq
lookup_algorithm name =
    if text_eq name (algorithm_name concatenative)
    then ok concatenative
    else (if text_eq name (algorithm_name first_fit_decreasing)
        then ok first_fit_decreasing
        else (if text_eq name (algorithm_name first_fit_shuffle)
            then ok first_fit_shuffle
            else (if text_eq name (algorithm_name modified_first_fit_decreasing)
                then ok modified_first_fit_decreasing
                else err unknown_algorithm)))

-- `Union[PackingAlgorithm, str]`
pub data AlgorithmChoice : Type 0 where
  member : PackingAlgorithm → AlgorithmChoice
  named : Text → AlgorithmChoice

abbrev pub chosen : AlgorithmChoice → Result PackError PackingAlgorithm
chosen (member algorithm) = ok algorithm
chosen (named name) = lookup_algorithm (upper name)

unfoldable pub get_packer :
    AlgorithmChoice → ℕ → Option ℤ → Option ℤ → Result PackError SequencePacker
unfolding lookup_algorithm new_packer
get_packer algorithm bin_capacity min_bin_count bin_count_multiple = do
  found ← chosen algorithm
  new_packer found bin_capacity min_bin_count bin_count_multiple
