-- ===== src/Packing/Mffd/Packs.antt =====
-- The result of `ModifiedFirstFitDecreasingPacker._pack_implementation`.
use mathlib.Core.Path.{subst}
use nemo_rl_xtoken.Base.{
  ℕ, suc, ◌+◌, ◌≤◌, ◌<◌, ◌≡◌, refl, ◌∙◌, true, false, List, [], ◌∷◌, ◌++◌, arith, ok, >>=-eq-ok,
  ok-injective, raise_if, length, All, All-append, All-map_of, All-enumerate, All-enumerate_lem,
  total, total-append, total-map, total-sort_by, total_zero→All, total-enumerate_from, fst,
  enumerate, enumerate_from, leb, leb→le, ◌==◌, if◌then◌else◌, sort_by,
}
use nemo_rl_xtoken.Packing.Packer.{
  bad_capacity, bad_length, length_of, IsPacking, IsPacking-of_totals, validate_sequence_lengths,
  validate_sequence_lengths-ok, validate_sequence_lengths_passes,
}
use nemo_rl_xtoken.Packing.Mffd.{
  Item, size, load, index, size_ge, FfdBins, ffd_loop, to_indices, any_zero, fill_large_bins,
  mffd_pack,
}
use nemo_rl_xtoken.Packing.Mffd.Phases.{fill_large_bins-weight, fill_large_bins_fits}
use nemo_rl_xtoken.Packing.Mffd.Leftovers.{Sized-fits, ffd_loop_lem}

total-to_indices :
    (w : ℕ → ℕ) (bs : List (List Item))
    → total (total w) (to_indices bs) ≡ total (total (λ p. w (index p))) bs
unfolding to_indices
total-to_indices w [] = refl
total-to_indices w ([] ∷ bs) = omega (arith, total-to_indices w bs)
total-to_indices w ((x ∷ b) ∷ bs) = omega (arith, total-to_indices w bs, total-map w index b)

to_indices_filled : (bs : List (List Item)) → All (λ b. 1 ≤ length b) (to_indices bs)
unfolding to_indices
to_indices_filled [] = tt
to_indices_filled ([] ∷ bs) = to_indices_filled bs
to_indices_filled ((x ∷ b) ∷ bs) = (omega arith, to_indices_filled bs)

module _ (cap : ℕ) (lens : List ℕ) where
  -- 1 for an item whose size is not the length of its sequence.
  abbrev wrong : Item → ℕ
  wrong p = if length_of lens (index p) == size p then 0 else 1

  total-right :
      (b : List Item) → total wrong b ≡ 0 → total (λ p. length_of lens (index p)) b ≡ load b
  total-right [] h = refl
  total-right (p ∷ b) h = ground (arith, total-right b)

  to_indices_fits :
      (bs : List (List Item))
      → All (λ b. load b ≤ cap) bs
      → total (total wrong) bs ≡ 0
      → All (λ b. total (length_of lens) b ≤ cap) (to_indices bs)
  unfolding to_indices
  to_indices_fits [] h z = tt
  to_indices_fits ([] ∷ bs) h z = to_indices_fits bs h.1 (omega arith)
  to_indices_fits ((x ∷ b) ∷ bs) h z = (
    omega (arith, h.0, total-map (length_of lens) index (x ∷ b), total-right (x ∷ b) (omega arith)),
    to_indices_fits bs h.1 (omega arith),
  )

  abbrev start : FfdBins
  start = record { ffd_bins = [] ∷ []; ffd_bin_sizes = 0 ∷ [] }

  abbrev items : List Item
  items = enumerate lens

  abbrev filled : List (List Item) × List Item
  filled = fill_large_bins cap items

  leftovers-fit : All (λ l. l ≤ cap) lens → All (λ p. size p ≤ cap) (sort_by size_ge filled.1)
  leftovers-fit h =
      All-map_of _ _ (sort_by size_ge filled.1) (λ p e. leb→le _ _ (positive p e))
        (total_zero→All over (sort_by size_ge filled.1) (
          omega (
            arith,
            total-sort_by size_ge over filled.1,
            fill_large_bins-weight cap items over,
            none_over lens 0 h,
          )))
    where
      over : Item → ℕ
      over p = if leb (size p) cap then 0 else 1

      positive : (p : Item) → over p ≡ 0 → leb (size p) cap ≡ true
      positive p e = ground arith

      none_over :
          (ls : List ℕ) (k : ℕ) → All (λ l. l ≤ cap) ls → total over (enumerate_from k ls) ≡ 0
      none_over [] k g = refl
      none_over (l ∷ ls) k g = ground (arith, none_over ls (suc k) g.1)

  mffd-result :
      All (λ l. l ≤ cap) lens
      → (t : FfdBins) × (ffd_loop cap (sort_by size_ge filled.1) start ≡ ok t)
        × IsPacking cap lens (to_indices (filled.0 ++ t.ffd_bins))
  mffd-result h =
      let (t, looped, sized, same) =
        ffd_loop_lem cap (sort_by size_ge filled.1) start (leftovers-fit h) (omega arith)
          (refl, omega arith, tt) in
      let weight = λ (w : Item → ℕ). weight-all t w (same w) in
      (
        t,
        looped,
        IsPacking-of_totals cap lens (to_indices (filled.0 ++ t.ffd_bins))
            (λ w.
              total-to_indices w (filled.0 ++ t.ffd_bins)
              ∙ weight (λ p. w (index p))
              ∙ total-enumerate_from w 0 lens)
            (to_indices_fits (filled.0 ++ t.ffd_bins)
              (All-append _ filled.0 t.ffd_bins
                (fill_large_bins_fits cap items (All-enumerate_lem _ 0 lens h))
                (Sized-fits cap t.ffd_bins t.ffd_bin_sizes sized))
              (weight wrong ∙ none_wrong items (All-enumerate lens 0)))
            (to_indices_filled (filled.0 ++ t.ffd_bins)),
      )
    where
      weight-all :
          (t : FfdBins) (w : Item → ℕ)
          → total (total w) t.ffd_bins
            ≡ total (total w) start.ffd_bins + total w (sort_by size_ge filled.1)
          → total (total w) (filled.0 ++ t.ffd_bins) ≡ total w items
      weight-all t w e = omega (
        arith,
        e,
        total-append (total w) filled.0 t.ffd_bins,
        total-sort_by size_ge w filled.1,
        fill_large_bins-weight cap items w,
      )

      none_wrong :
          (ps : List Item) → All (λ p. length_of lens (fst p) ≡ p.1) ps → total wrong ps ≡ 0
      none_wrong [] g = refl
      none_wrong (p ∷ ps) g = ground (arith, none_wrong ps g.1)

  pub mffd_pack-IsPacking :
      (bins : List (List ℕ)) → mffd_pack cap lens ≡ ok bins → IsPacking cap lens bins
  unfolding mffd_pack
  mffd_pack-IsPacking bins h =
      let (u, _, h1) = >>=-eq-ok (raise_if (leb cap 0) bad_capacity) _ h in
      let (u', _, h2) = >>=-eq-ok (raise_if (any_zero lens) bad_length) _ h1 in
      let (u'', valid, h3) = >>=-eq-ok (validate_sequence_lengths cap lens) _ h2 in
      let (t, looped, packing) = mffd-result (validate_sequence_lengths-ok cap lens valid) in
      subst (IsPacking cap lens) (ok-injective (rw looped at h3)) packing

  pub mffd_pack_total :
      0 < cap
      → any_zero lens ≡ false
      → All (λ l. l ≤ cap) lens
      → (bins : List (List ℕ)) × (mffd_pack cap lens ≡ ok bins)
  unfolding mffd_pack
  mffd_pack_total pos_cap pos_lens h =
      let (t, looped, packing) = mffd-result h in
      (
        to_indices (filled.0 ++ t.ffd_bins),
        rw (positive, pos_lens, validate_sequence_lengths_passes cap lens h, looped),
      )
    where
      positive : leb cap 0 ≡ false
      positive = ground arith

  pub mffd_pack-fits :
      (bins : List (List ℕ)) → mffd_pack cap lens ≡ ok bins → All (λ l. l ≤ cap) lens
  unfolding mffd_pack
  mffd_pack-fits bins h =
      let (u, _, h1) = >>=-eq-ok (raise_if (leb cap 0) bad_capacity) _ h in
      let (u', _, h2) = >>=-eq-ok (raise_if (any_zero lens) bad_length) _ h1 in
      let (u'', valid, h3) = >>=-eq-ok (validate_sequence_lengths cap lens) _ h2 in
      validate_sequence_lengths-ok cap lens valid
