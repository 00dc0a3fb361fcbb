-- ===== src/Packing/Concatenative/Order.antt =====
-- `ConcatenativePacker` keeps the order of the sequences and closes a bin only when it must.
use nemo_rl_xtoken.Base.{
  ℕ, suc, ◌+◌, ◌≡◌, refl, sym, ap, ◌∙◌, Bool, true, false, ◌||◌, List, [], ◌∷◌, ◌++◌, append-nil,
  append_assoc, map, ok, >>=-eq-ok, ok-injective, length, fst, enumerate, enumerate_from,
  range_from, ltb, flatten, if◌then◌else◌,
}
use nemo_rl_xtoken.Base.Int.{ℤ}
use nemo_rl_xtoken.Packing.Packer.{validate_sequence_lengths}
use nemo_rl_xtoken.Packing.Concatenative.{
  Filling, close_bin, concat_step, concat_loop, start, concatenative_pack, exceeds_sequence_limit,
}

flatten-snoc : (bins : List (List ℕ)) (b : List ℕ) → flatten (bins ++ b ∷ []) ≡ flatten bins ++ b
unfolding flatten
flatten-snoc [] b = append-nil b
flatten-snoc (c ∷ bins) b = rw (flatten-snoc bins b) (sym (append_assoc c (flatten bins) b))

flatten-close_bin :
    (bins : List (List ℕ)) (b : List ℕ) → flatten (close_bin bins b) ≡ flatten bins ++ b
flatten-close_bin bins [] = sym (append-nil (flatten bins))
flatten-close_bin bins (x ∷ b) = flatten-snoc bins (x ∷ b)

map-fst-enumerate_from :
    (k : ℕ) (lens : List ℕ) → map fst (enumerate_from k lens) ≡ range_from k (length lens)
map-fst-enumerate_from k [] = refl
map-fst-enumerate_from k (l ∷ lens) = ap (λ r. k ∷ r) (map-fst-enumerate_from (suc k) lens)

-- The indices in the order in which they lie in the bins.
abbrev contents : Filling → List ℕ
contents s = flatten s.bins ++ s.current_bin

module _ (cap : ℕ) (limit : ℤ) where
  contents-concat_step :
      (i len : ℕ) (s : Filling) → contents (concat_step cap limit i len s) ≡ contents s ++ i ∷ []
  unfolding concat_step
  contents-concat_step i len s =
      go (ltb cap (s.current_length + len) || exceeds_sequence_limit limit s.current_bin)
    where
      go :
          (full : Bool)
          → contents (
              if full
              then record {
                bins = close_bin s.bins s.current_bin;
                current_bin = i ∷ [];
                current_length = len;
              }
              else record s {
                current_bin = s.current_bin ++ i ∷ [];
                current_length = s.current_length + len;
              })
            ≡ contents s ++ i ∷ []
      go true = ap (λ l. l ++ i ∷ []) (flatten-close_bin s.bins s.current_bin)
      go false = sym (append_assoc (flatten s.bins) s.current_bin (i ∷ []))

  contents-concat_loop :
      (items : List (ℕ × ℕ)) (s : Filling)
      → contents (concat_loop cap limit items s) ≡ contents s ++ map fst items
  unfolding concat_loop
  contents-concat_loop [] s = sym (append-nil (contents s))
  contents-concat_loop ((i, len) ∷ items) s =
      contents-concat_loop items (concat_step cap limit i len s)
      ∙ ap (λ l. l ++ map fst items) (contents-concat_step i len s)
      ∙ append_assoc (contents s) (i ∷ []) (map fst items)

  -- The bins of `ConcatenativePacker`, laid end to end, are the indices 0, 1, 2, ... of the given
  -- sequences, in that order, whatever the limit on the number of sequences in a bin.
  pub concatenative_pack-order :
      (lens : List ℕ) (bins : List (List ℕ))
      → concatenative_pack cap limit lens ≡ ok bins
      → flatten bins ≡ range_from 0 (length lens)
  unfolding concatenative_pack flatten
  concatenative_pack-order lens bins h =
      let (u, valid, e) = >>=-eq-ok (validate_sequence_lengths cap lens) _ h in
      let s = concat_loop cap limit (enumerate lens) start in
      ap flatten (sym (ok-injective e))
      ∙ flatten-close_bin s.bins s.current_bin
      ∙ contents-concat_loop (enumerate lens) start
      ∙ map-fst-enumerate_from 0 lens
