-- ===== src/Packing/Pack/Bins.antt =====
-- The properties of `pack` for every algorithm.
use nemo_rl_xtoken.Base.{
  ℕ, ◌≤◌, ◌<◌, ◌≡◌, ◌≢◌, ◌⊎◌, inl, inr, sym, ◌∙◌, false, List, ok, err, >>=-eq-ok, ok-injective,
  length, All, total, total-flatten, if◌then◌else◌, ◌==◌,
}
use mathlib.Core.Path.{subst}
use nemo_rl_xtoken.Packing.Packer.{
  PackingAlgorithm, concatenative, first_fit_decreasing, first_fit_shuffle,
  modified_first_fit_decreasing, too_few_sequences, SequencePacker, IsPacking, length_of,
}
use nemo_rl_xtoken.Packing.Adjust.{target_bin_count}
use nemo_rl_xtoken.Packing.Adjust.Counts.{IsAccepted, target_bin_count-IsAccepted}
use nemo_rl_xtoken.Packing.Adjust.Outcome.{IsAdjusted, adjust_bin_count-cases}
use nemo_rl_xtoken.Packing.Concatenative.{max_sequences_per_bin}
use nemo_rl_xtoken.Packing.Concatenative.Packs.{
  concatenative_pack-IsPacking, concatenative_pack_total, concatenative_pack-fits,
}
use nemo_rl_xtoken.Packing.FirstFit.{Shuffle, decreasing, shuffled}
use nemo_rl_xtoken.Packing.FirstFit.Packs.{
  first_fit_pack-IsPacking, first_fit_pack_total, first_fit_pack-fits,
}
use nemo_rl_xtoken.Packing.Mffd.{any_zero}
use nemo_rl_xtoken.Packing.Mffd.Packs.{mffd_pack-IsPacking, mffd_pack_total, mffd_pack-fits}
use nemo_rl_xtoken.Packing.Pack.{pack_implementation, pack}

module _ (random : Shuffle) where
  pack_implementation-IsPacking :
      (algorithm : PackingAlgorithm) (cap : ℕ) (lens : List ℕ) (bins : List (List ℕ))
      → pack_implementation random algorithm cap lens ≡ ok bins
      → IsPacking cap lens bins
  unfolding pack_implementation
  pack_implementation-IsPacking concatenative cap lens =
      concatenative_pack-IsPacking cap max_sequences_per_bin lens
  pack_implementation-IsPacking first_fit_decreasing cap lens =
      first_fit_pack-IsPacking decreasing lens cap
  pack_implementation-IsPacking first_fit_shuffle cap lens =
      first_fit_pack-IsPacking (shuffled random) lens cap
  pack_implementation-IsPacking modified_first_fit_decreasing cap lens =
      mffd_pack-IsPacking cap lens

  pack_implementation-fits :
      (algorithm : PackingAlgorithm) (cap : ℕ) (lens : List ℕ) (bins : List (List ℕ))
      → pack_implementation random algorithm cap lens ≡ ok bins
      → All (λ l. l ≤ cap) lens
  unfolding pack_implementation
  pack_implementation-fits concatenative cap lens =
      concatenative_pack-fits cap max_sequences_per_bin lens
  pack_implementation-fits first_fit_decreasing cap lens = first_fit_pack-fits decreasing lens cap
  pack_implementation-fits first_fit_shuffle cap lens =
      first_fit_pack-fits (shuffled random) lens cap
  pack_implementation-fits modified_first_fit_decreasing cap lens = mffd_pack-fits cap lens

  pack_implementation_total :
      (algorithm : PackingAlgorithm) (cap : ℕ) (lens : List ℕ)
      → 0 < cap
      → any_zero lens ≡ false
      → All (λ l. l ≤ cap) lens
      → (bins : List (List ℕ)) × (pack_implementation random algorithm cap lens ≡ ok bins)
  unfolding pack_implementation
  pack_implementation_total concatenative cap lens p z h =
      concatenative_pack_total cap max_sequences_per_bin lens h
  pack_implementation_total first_fit_decreasing cap lens p z h =
      first_fit_pack_total decreasing lens cap h
  pack_implementation_total first_fit_shuffle cap lens p z h =
      first_fit_pack_total (shuffled random) lens cap h
  pack_implementation_total modified_first_fit_decreasing cap lens p z h =
      mffd_pack_total cap lens p z h

  adjusted-IsPacking :
      (packer : SequencePacker) (lens : List ℕ) (bins bins' : List (List ℕ))
      → IsPacking packer.bin_capacity lens bins
      → IsAdjusted (length_of lens) packer.bin_capacity packer bins bins'
      → IsPacking packer.bin_capacity lens bins'
  adjusted-IsPacking packer lens bins bins' p a = record {
    placed = λ i.
        total-flatten (λ j. if i == j then 1 else 0) bins'
        ∙ a.keeps (λ j. if i == j then 1 else 0)
        ∙ sym (total-flatten (λ j. if i == j then 1 else 0) bins)
        ∙ p.placed i;
    fits = a.fits;
    filled = a.filled;
  }

  -- A run that succeeded went through an implementation and an adjustment that did.
  pack_ran :
      (packer : SequencePacker) (lens : List ℕ) (bins' : List (List ℕ))
      → pack random packer lens ≡ ok bins'
      → (bins : List (List ℕ)) × (pack_implementation random packer.algorithm packer.bin_capacity
            lens
          ≡ ok bins)
        × IsPacking packer.bin_capacity lens bins
        × IsAdjusted (length_of lens) packer.bin_capacity packer bins bins'
  unfolding pack
  pack_ran packer lens bins' h =
      let (bins, ran, h') =
        >>=-eq-ok (pack_implementation random packer.algorithm packer.bin_capacity lens) _ h in
      let p = pack_implementation-IsPacking packer.algorithm packer.bin_capacity lens bins ran in
      elim (adjust_bin_count-cases (length_of lens) packer.bin_capacity packer bins p.fits
        p.filled) [
          | inl (bins1, done, a) ↦ (
            bins,
            ran,
            p,
            subst (IsAdjusted (length_of lens) packer.bin_capacity packer bins)
                (ok-injective (sym done ∙ h')) a,
          )
          | inr (failed, few) ↦ cc
        ]

  -- For every algorithm, shuffle and configuration: the bins that `pack` returns hold each index of
  -- the given sequences exactly once and no other index, the lengths in a bin add up to at most the
  -- capacity, and no bin is empty.
  pub pack-IsPacking :
      (packer : SequencePacker) (lens : List ℕ) (bins : List (List ℕ))
      → pack random packer lens ≡ ok bins
      → IsPacking packer.bin_capacity lens bins
  pack-IsPacking packer lens bins' h =
      let (bins, ran, p, a) = pack_ran packer lens bins' h in
      adjusted-IsPacking packer lens bins bins' p a

  -- The number of bins that `pack` returns is at least `min_bin_count`, where that is given, and a
  -- multiple of `bin_count_multiple`, where that is given and at least 1.
  pub pack-IsAccepted :
      (packer : SequencePacker) (lens : List ℕ) (bins : List (List ℕ))
      → pack random packer lens ≡ ok bins
      → IsAccepted packer (length bins)
  pack-IsAccepted packer lens bins' h =
      let (bins, ran, p, a) = pack_ran packer lens bins' h in
      subst (IsAccepted packer) (sym a.number) (target_bin_count-IsAccepted packer (length bins))

  -- On sequences of positive length that fit the positive capacity, `pack` returns bins, or it
  -- raises the error about too few sequences, and then the algorithm's bins hold fewer sequences
  -- than the number of bins that the configuration asks for. No other error occurs; in particular
  -- not the one that the source marks as a bug, and no index error.
  pub pack-cases :
      (packer : SequencePacker) (lens : List ℕ)
      → 0 < packer.bin_capacity
      → any_zero lens ≡ false
      → All (λ l. l ≤ packer.bin_capacity) lens
      → ((bins : List (List ℕ)) × (pack random packer lens ≡ ok bins))
        ⊎ ((pack random packer lens ≡ err too_few_sequences)
            × (bins : List (List ℕ)) × (pack_implementation random packer.algorithm
                  packer.bin_capacity lens
                ≡ ok bins)
            × (total length bins < target_bin_count packer (length bins)))
  unfolding pack
  pack-cases packer lens p z h =
      let (bins, ran) = pack_implementation_total packer.algorithm packer.bin_capacity lens p z h in
      let q = pack_implementation-IsPacking packer.algorithm packer.bin_capacity lens bins ran in
      elim (adjust_bin_count-cases (length_of lens) packer.bin_capacity packer bins q.fits
        q.filled) [
          | inl (bins', done, a) ↦ inl (bins', rw ran done)
          | inr (failed, few) ↦ inr (rw ran failed, bins, ran, few)
        ]

  -- `pack` never returns bins for an input with a sequence that is longer than the capacity.
  pub pack_too_long :
      (packer : SequencePacker) (lens : List ℕ) (bins : List (List ℕ))
      → ¬ All (λ l. l ≤ packer.bin_capacity) lens
      → pack random packer lens ≢ ok bins
  pack_too_long packer lens bins' over h =
      let (bins, ran, p, a) = pack_ran packer lens bins' h in
      over (pack_implementation-fits packer.algorithm packer.bin_capacity lens bins ran)
