-- ===== src/Packing/FirstFit/Packs.antt =====
-- The result of `FirstFitPacker._pack_implementation`, in both orders of the sequences.
use mathlib.Core.Path.{subst}
use nemo_rl_xtoken.Base.{
  ℕ, suc, ◌≤◌, ◌≡◌, ◌∙◌, sym, Bool, true, List, [], ◌∷◌, arith, map, ok, >>=-eq-ok, ok-injective,
  length, All, All-Same, All-map_of, Same, total, total-map, total-sort_by, total-Perm, enumerate,
  enumerate_from, All-enumerate, All-enumerate_lem, le→leb, total-enumerate_from, range_from, ◌==◌,
  leb, ==→eq, eq→==, leb→le,
}
use nemo_rl_xtoken.Packing.Packer.{length_of, IsPacking, IsPacking-of_totals, tuple_ge}
use nemo_rl_xtoken.Packing.FirstFit.{
  Bins, Preparation, decreasing, shuffled, swap_pair, indexed_lengths, prepare_sequences,
  first_fit_loop, first_fit_pack,
}
use nemo_rl_xtoken.Packing.FirstFit.Sound.{
  item_index, Tracks-fits, first_fit_loop-Tracks, first_fit_loop_total, first_fit_loop-fits,
}

-- The prepared list is a rearrangement of the pairs.
prepare_sequences-Same :
    (preparation : Preparation) (lens : List ℕ)
    → Same (indexed_lengths lens) (prepare_sequences preparation lens)
unfolding prepare_sequences
prepare_sequences-Same decreasing lens w = sym (total-sort_by tuple_ge w (indexed_lengths lens))
prepare_sequences-Same (shuffled random) lens w =
    sym (total-Perm w _ _ (random.shuffle-perm (indexed_lengths lens)))

All-swap_pair :
    (test : ℕ → ℕ → Bool) (items : List (ℕ × ℕ))
    → All (λ p. test p.0 p.1 ≡ true) items
    → All (λ p. test p.1 p.0 ≡ true) (map swap_pair items)
All-swap_pair test [] h = tt
All-swap_pair test (p ∷ items) h = (h.0, All-swap_pair test items h.1)

module _ (preparation : Preparation) (lens : List ℕ) where
  -- A test that the indexed lengths pass is passed by the prepared list.
  prepared :
      (test : ℕ → ℕ → Bool)
      → All (λ p. test p.0 p.1 ≡ true) (enumerate lens)
      → All (λ p. test p.1 p.0 ≡ true) (prepare_sequences preparation lens)
  prepared test h =
      All-Same (λ p. test p.1 p.0) (indexed_lengths lens) (prepare_sequences preparation lens)
        (prepare_sequences-Same preparation lens) (All-swap_pair test (enumerate lens) h)

  pub prepared-lengths :
      All (λ p. length_of lens (item_index p) ≡ p.0) (prepare_sequences preparation lens)
  prepared-lengths =
      All-map_of _ _ (prepare_sequences preparation lens) (λ p h. ==→eq _ _ h)
        (prepared (λ i l. length_of lens i == l)
          (All-map_of _ _ (enumerate lens) (λ p h. eq→== _ _ h) (All-enumerate lens 0)))

  prepared-totals :
      (w : ℕ → ℕ)
      → total (λ p. w (item_index p)) (prepare_sequences preparation lens)
        ≡ total w (range_from 0 (length lens))
  prepared-totals w =
      sym (prepare_sequences-Same preparation lens (λ p. w (item_index p)))
      ∙ total-map (λ p. w (item_index p)) swap_pair (enumerate lens)
      ∙ total-enumerate_from w 0 lens

  prepared-fits :
      (cap : ℕ)
      → All (λ l. l ≤ cap) lens
      → All (λ p. p.0 ≤ cap) (prepare_sequences preparation lens)
  prepared-fits cap h =
      All-map_of _ _ (prepare_sequences preparation lens) (λ p e. leb→le p.0 cap e)
        (prepared (λ i l. leb l cap)
          (All-enumerate_lem _ 0 lens (All-map_of _ _ lens (λ l e. le→leb l cap e) h)))

  fits-prepared :
      (cap : ℕ)
      → All (λ p. p.0 ≤ cap) (prepare_sequences preparation lens)
      → All (λ l. l ≤ cap) lens
  fits-prepared cap h =
      All-map_of _ _ lens (λ l e. leb→le l cap e)
        (unprepared 0 lens (
          All-Same (λ p. leb p.0 cap) (prepare_sequences preparation lens) (indexed_lengths lens)
            (λ w. sym (prepare_sequences-Same preparation lens w))
            (All-map_of _ _ (prepare_sequences preparation lens) (λ p e. le→leb p.0 cap e) h)))
    where
      unprepared :
          (k : ℕ) (ls : List ℕ)
          → All (λ p. leb p.0 cap ≡ true) (map swap_pair (enumerate_from k ls))
          → All (λ l. leb l cap ≡ true) ls
      unprepared k [] g = tt
      unprepared k (l ∷ ls) g = (g.0, unprepared (suc k) ls g.1)

  abbrev empty_bins : Bins
  empty_bins = record { bins = []; bin_remaining = [] }

  pub first_fit_pack-IsPacking :
      (cap : ℕ) (bins : List (List ℕ))
      → first_fit_pack cap preparation lens ≡ ok bins
      → IsPacking cap lens bins
  unfolding first_fit_pack
  first_fit_pack-IsPacking cap bins h =
      let (s, ran, e) =
        >>=-eq-ok (first_fit_loop cap (prepare_sequences preparation lens) empty_bins) _ h in
      let tracks = λ (w : ℕ → ℕ).
        first_fit_loop-Tracks cap lens w (prepare_sequences preparation lens) empty_bins s
          prepared-lengths ran tt in
      let (fits, filled) = Tracks-fits cap lens s.bins s.bin_remaining (tracks (λ _. 0)).0 in
      subst (IsPacking cap lens) (ok-injective e) (
        IsPacking-of_totals cap lens s.bins (λ w. omega (arith, (tracks w).1, prepared-totals w))
          fits filled)

  pub first_fit_pack_total :
      (cap : ℕ)
      → All (λ l. l ≤ cap) lens
      → (bins : List (List ℕ)) × (first_fit_pack cap preparation lens ≡ ok bins)
  unfolding first_fit_pack
  first_fit_pack_total cap h =
      let (s, e) =
        first_fit_loop_total cap lens (prepare_sequences preparation lens) empty_bins
          (prepared-fits cap h) in
      (s.bins, rw e)

  pub first_fit_pack-fits :
      (cap : ℕ) (bins : List (List ℕ))
      → first_fit_pack cap preparation lens ≡ ok bins
      → All (λ l. l ≤ cap) lens
  unfolding first_fit_pack
  first_fit_pack-fits cap bins h =
      let (s, ran, e) =
        >>=-eq-ok (first_fit_loop cap (prepare_sequences preparation lens) empty_bins) _ h in
      fits-prepared cap
        (first_fit_loop-fits cap lens (prepare_sequences preparation lens) empty_bins s ran)
