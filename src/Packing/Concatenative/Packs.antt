-- ===== src/Packing/Concatenative/Packs.antt =====
-- The result of `ConcatenativePacker._pack_implementation`.
use mathlib.Core.Path.{subst}
use nemo_rl_xtoken.Base.{
  ok-injective, ℕ, ◌≤◌, ◌≡◌, refl, List, arith, ok, >>=-eq-ok, length, All, total, enumerate,
  All-enumerate, All-enumerate_lem, All-both, total-enumerate_from, range_from,
}
use nemo_rl_xtoken.Base.Int.{ℤ}
use nemo_rl_xtoken.Packing.Packer.{
  IsPacking, IsPacking-of_totals, validate_sequence_lengths, validate_sequence_lengths-ok,
  validate_sequence_lengths_passes,
}
use nemo_rl_xtoken.Packing.Concatenative.{
  Filling, close_bin, concat_loop, start, concatenative_pack,
}
use nemo_rl_xtoken.Packing.Concatenative.Sound.{
  IsFilling, total-close_bin, weight-concat_loop, close_bin-fits, close_bin-filled,
  concat_loop-IsFilling,
}

module _ (cap : ℕ) (limit : ℤ) (lens : List ℕ) where
  abbrev ended : Filling
  ended = concat_loop cap limit (enumerate lens) start

  ended-IsFilling : All (λ l. l ≤ cap) lens → IsFilling cap limit lens ended
  ended-IsFilling h =
      concat_loop-IsFilling cap limit lens (enumerate lens) start
        (All-both _ _ (enumerate lens) (All-enumerate lens 0) (All-enumerate_lem _ 0 lens h))
        (record { closed = tt; measured = refl; within = omega arith; filled = tt })

  ended-totals :
      (w : ℕ → ℕ)
      → total (total w) (close_bin ended.bins ended.current_bin)
        ≡ total w (range_from 0 (length lens))
  ended-totals w = omega (
    arith,
    total-close_bin w ended.bins ended.current_bin,
    weight-concat_loop w cap limit (enumerate lens) start,
    total-enumerate_from w 0 lens,
  )

  pub concatenative_pack-IsPacking :
      (bins : List (List ℕ)) → concatenative_pack cap limit lens ≡ ok bins → IsPacking cap lens bins
  unfolding concatenative_pack
  concatenative_pack-IsPacking bins h =
      let (u, valid, e) = >>=-eq-ok (validate_sequence_lengths cap lens) _ h in
      let v = ended-IsFilling (validate_sequence_lengths-ok cap lens valid) in
      subst (IsPacking cap lens) (ok-injective e) (
        IsPacking-of_totals cap lens (close_bin ended.bins ended.current_bin) ended-totals
          (close_bin-fits cap limit lens ended v)
          (close_bin-filled cap limit lens ended.bins ended.current_bin v.filled))

  -- It raises only for a sequence that is longer than a bin.
  pub concatenative_pack_total :
      All (λ l. l ≤ cap) lens
      → (bins : List (List ℕ)) × (concatenative_pack cap limit lens ≡ ok bins)
  unfolding concatenative_pack
  concatenative_pack_total h =
      rw (validate_sequence_lengths_passes cap lens h)
        (close_bin ended.bins ended.current_bin, refl)

  pub concatenative_pack-fits :
      (bins : List (List ℕ)) → concatenative_pack cap limit lens ≡ ok bins → All (λ l. l ≤ cap) lens
  unfolding concatenative_pack
  concatenative_pack-fits bins h =
      let (u, valid, e) = >>=-eq-ok (validate_sequence_lengths cap lens) _ h in
      validate_sequence_lengths-ok cap lens valid
