-- ===== src/Packing/Concatenative/Sound.antt =====
-- What the loop of `ConcatenativePacker` keeps: every sequence is in the closed bins or the
-- current one, and `current_length` is the length of the current bin.
use nemo_rl_xtoken.Base.{
  ℕ, ◌+◌, ◌≤◌, ◌≡◌, refl, Bool, true, false, ◌||◌, List, [], ◌∷◌, ◌++◌, arith, length, All,
  All-append, total, total-append, fst, ltb, if◌then◌else◌,
}
use nemo_rl_xtoken.Base.Int.{ℤ}
use nemo_rl_xtoken.Packing.Packer.{length_of}
use nemo_rl_xtoken.Packing.Concatenative.{
  Filling, close_bin, concat_step, concat_loop, exceeds_sequence_limit,
}

module _ (w : ℕ → ℕ) where
  -- What the bins weigh, the current one included.
  abbrev weight : Filling → ℕ
  weight s = total (total w) s.bins + total w s.current_bin

  pub total-close_bin :
      (bins : List (List ℕ)) (b : List ℕ)
      → total (total w) (close_bin bins b) ≡ total (total w) bins + total w b
  total-close_bin bins [] = omega arith
  total-close_bin bins (x ∷ b) = omega (arith, total-append (total w) bins ((x ∷ b) ∷ []))

  weight-concat_step :
      (cap : ℕ) (limit : ℤ) (i len : ℕ) (s : Filling)
      → weight (concat_step cap limit i len s) ≡ weight s + w i
  unfolding concat_step
  weight-concat_step cap limit i len s =
      go (ltb cap (s.current_length + len) || exceeds_sequence_limit limit s.current_bin)
    where
      go :
          (full : Bool)
          → weight (
              if full
              then record {
                bins = close_bin s.bins s.current_bin;
                current_bin = i ∷ [];
                current_length = len;
              }
              else record s {
                current_bin = s.current_bin ++ i ∷ [];
                current_length = s.current_length + len;
              })
            ≡ weight s + w i
      go true = omega (arith, total-close_bin s.bins s.current_bin)
      go false = omega (arith, total-append w s.current_bin (i ∷ []))

  pub weight-concat_loop :
      (cap : ℕ) (limit : ℤ) (items : List (ℕ × ℕ)) (s : Filling)
      → weight (concat_loop cap limit items s) ≡ weight s + total (λ p. w (fst p)) items
  unfolding concat_loop
  weight-concat_loop cap limit [] s = omega arith
  weight-concat_loop cap limit ((i, len) ∷ items) s = omega (
    arith,
    weight-concat_loop cap limit items (concat_step cap limit i len s),
    weight-concat_step cap limit i len s,
  )

module _ (cap : ℕ) (limit : ℤ) (lens : List ℕ) where
  pub record IsFilling (s : Filling) : Type 0 where
    pub closed : All (λ b. total (length_of lens) b ≤ cap) s.bins
    pub measured : total (length_of lens) s.current_bin ≡ s.current_length
    pub within : s.current_length ≤ cap
    pub filled : All (λ b. 1 ≤ length b) s.bins

  pub close_bin-fits :
      (s : Filling)
      → IsFilling s
      → All (λ b. total (length_of lens) b ≤ cap) (close_bin s.bins s.current_bin)
  close_bin-fits s v = go s.current_bin (omega (arith, v.measured, v.within))
    where
      go :
          (b : List ℕ)
          → total (length_of lens) b ≤ cap
          → All (λ b. total (length_of lens) b ≤ cap) (close_bin s.bins b)
      go [] h = v.closed
      go (x ∷ b) h = All-append _ s.bins ((x ∷ b) ∷ []) v.closed (h, tt)

  pub close_bin-filled :
      (bins : List (List ℕ)) (b : List ℕ)
      → All (λ b. 1 ≤ length b) bins
      → All (λ b. 1 ≤ length b) (close_bin bins b)
  close_bin-filled bins [] h = h
  close_bin-filled bins (x ∷ b) h = All-append _ bins ((x ∷ b) ∷ []) h (omega arith, tt)

  concat_step-IsFilling :
      (i len : ℕ) (s : Filling)
      → length_of lens i ≡ len
      → len ≤ cap
      → IsFilling s
      → IsFilling (concat_step cap limit i len s)
  unfolding concat_step
  concat_step-IsFilling i len s e h v =
      go (ltb cap (s.current_length + len)) (exceeds_sequence_limit limit s.current_bin) refl
    where
      go :
          (over limited : Bool)
          → ltb cap (s.current_length + len) ≡ over
          → IsFilling (
              if over || limited
              then record {
                bins = close_bin s.bins s.current_bin;
                current_bin = i ∷ [];
                current_length = len;
              }
              else record s {
                current_bin = s.current_bin ++ i ∷ [];
                current_length = s.current_length + len;
              })
      go false false t = record {
        closed = v.closed;
        measured =
            omega (arith, total-append (length_of lens) s.current_bin (i ∷ []), v.measured, e);
        within = ground arith;
        filled = v.filled;
      }
      go true limited t = record {
        closed = close_bin-fits s v;
        measured = omega (arith, e);
        within = h;
        filled = close_bin-filled s.bins s.current_bin v.filled;
      }
      go false true t = record {
        closed = close_bin-fits s v;
        measured = omega (arith, e);
        within = h;
        filled = close_bin-filled s.bins s.current_bin v.filled;
      }

  pub concat_loop-IsFilling :
      (items : List (ℕ × ℕ)) (s : Filling)
      → All (λ p. (length_of lens (fst p) ≡ p.1) × (p.1 ≤ cap)) items
      → IsFilling s
      → IsFilling (concat_loop cap limit items s)
  unfolding concat_loop
  concat_loop-IsFilling [] s h v = v
  concat_loop-IsFilling ((i, len) ∷ items) s h v =
      concat_loop-IsFilling items (concat_step cap limit i len s) h.1
        (concat_step-IsFilling i len s h.0.0 h.0.1 v)
