-- ===== src/Packing/Adjust/Outcome.antt =====
-- `_adjust_bin_count` as a whole.
use nemo_rl_xtoken.Base.{
  ℕ, zero, suc, ◌-◌, ◌≤◌, ◌<◌, ◌≡◌, ◌⊎◌, inl, inr, refl, sym, ◌∙◌, List, [], ◌++◌, arith, ok, err,
  length, length-append, length-replicate, replicate, All, All_of_get_or, total, total-append, ltb,
  ltb→lt, ltb_false→le, ◌==◌, ==→eq, Bool-cases,
}
use nemo_rl_xtoken.Packing.Packer.{too_few_sequences, SequencePacker}
use nemo_rl_xtoken.Packing.Adjust.{target_bin_count, bin_sizes, adjust_bin_count}
use nemo_rl_xtoken.Packing.Adjust.Moves.{IsFilled, fill_bins_lem}
use nemo_rl_xtoken.Packing.Adjust.Counts.{
  target_bin_count-le, bin_sizes-AreSources, supply, extended-IsPartial,
}

total-replicate-nil : (w : ℕ → ℕ) (n : ℕ) → total (total w) (replicate n []) ≡ 0
total-replicate-nil w zero = refl
total-replicate-nil w (suc n) = omega (arith, total-replicate-nil w n)

-- What the call promises of its result: as many bins as it aimed at, with the same sequences,
-- none over the capacity and none empty.
pub record IsAdjusted (v : ℕ → ℕ) (cap : ℕ) (packer : SequencePacker) (bins bins' : List (List ℕ))
    : Type 0 where
  pub number : length bins' ≡ target_bin_count packer (length bins)
  pub keeps : (w : ℕ → ℕ) → total (total w) bins' ≡ total (total w) bins
  pub fits : All (λ b. total v b ≤ cap) bins'
  pub filled : All (λ b. 1 ≤ length b) bins'

module _ (v : ℕ → ℕ) (cap : ℕ) (packer : SequencePacker) (bins : List (List ℕ))
    (fits : All (λ b. total v b ≤ cap) bins) (filled : All (λ b. 1 ≤ length b) bins) where
  abbrev target : ℕ
  target = target_bin_count packer (length bins)

  abbrev missing : ℕ
  missing = target - length bins

  length-extended : length (bins ++ replicate missing []) ≡ target
  length-extended = omega (
    arith,
    length-append bins (replicate missing []),
    length-replicate {A = List ℕ} missing [],
    target_bin_count-le packer (length bins),
  )

  filled-IsAdjusted :
      (bins' : List (List ℕ))
      → IsFilled v cap (bins ++ replicate missing []) bins'
      → IsAdjusted v cap packer bins bins'
  filled-IsAdjusted bins' f = record {
    number = f.same_length ∙ length-extended;
    keeps = λ w. omega (
      arith,
      f.keeps w,
      total-append (total w) bins (replicate missing []),
      total-replicate-nil w missing,
    );
    fits = All_of_get_or _ [] bins' (λ j lt. f.partial.fits j);
    filled = All_of_get_or _ [] bins' (λ j lt. f.partial.filled j (omega (arith, f.same_length)));
  }

  -- The call succeeds exactly when there are as many sequences as bins are wanted; the only
  -- exception is the one about too few sequences.
  pub adjust_bin_count-cases :
      ((bins' : List (List ℕ)) × (adjust_bin_count packer bins ≡ ok bins')
        × IsAdjusted v cap packer bins bins')
      ⊎ ((adjust_bin_count packer bins ≡ err too_few_sequences) × (total length bins < target))
  unfolding adjust_bin_count
  adjust_bin_count-cases = elim (Bool-cases (target == length bins)) [
    | inl same ↦ inl (
      bins,
      rw same,
      record { number = sym (==→eq _ _ same); keeps = λ w. refl; fits = fits; filled = filled },
    )
    | inr more ↦ elim (Bool-cases (ltb (total length bins) target)) [
      | inl few ↦ inr (rw (more, few), ltb→lt _ _ few)
      | inr enough ↦
          let (bins', ran, f) =
            fill_bins_lem v cap missing (length bins) (length bins) (bin_sizes bins)
              (bins ++ replicate missing [])
              (omega (arith, length-extended, target_bin_count-le packer (length bins)))
              (omega arith) (bin_sizes-AreSources bins)
              (omega (arith, supply bins missing, ltb_false→le _ _ enough))
              (extended-IsPartial bins v cap missing fits filled) in
          inl (bins', rw (more, enough) ran, filled-IsAdjusted bins' f)
    ]
  ]
