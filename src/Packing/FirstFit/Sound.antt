-- ===== src/Packing/FirstFit/Sound.antt =====
-- What the first-fit loop keeps: `bin_remaining` is what each bin has left of the capacity, and
-- every sequence seen so far is in a bin.
use nemo_rl_xtoken.Base.{
  ℕ, zero, suc, ◌+◌, ◌-◌, ◌≤◌, ◌≡◌, refl, Option, none, some, true, List, [], ◌∷◌, ◌++◌, arith, ok,
  length, length-append, modify, All, total, total-append, ltb, leb, ltb_false→le, le→ltb_false,
  Bool-cases, inl, inr,
}
use mathlib.Core.Path.{subst}
use mathlib.Core.Option.{some-injective}
use nemo_rl_xtoken.Packing.Packer.{length_of}
use nemo_rl_xtoken.Packing.FirstFit.{Bins, find_fit, put_in, first_fit_loop}

-- Items are pairs of a length and an index.
abbrev pub item_index : ℕ × ℕ → ℕ
item_index (len, idx) = idx

module _ (cap : ℕ) (lens : List ℕ) where
  -- The two lists run in step: a bin is not empty, and its load and its room make up the capacity.
  abbrev pub Tracks : List (List ℕ) → List ℕ → Type 0
  Tracks [] [] = Unit
  Tracks [] (r ∷ rs) = ⊥
  Tracks (b ∷ bs) [] = ⊥
  Tracks (b ∷ bs) (r ∷ rs) = (total (length_of lens) b + r ≡ cap) × (1 ≤ length b) × Tracks bs rs

  -- Placing a sequence in the bin that was found adds its weight to the bins, for every weight.
  found :
      (w : ℕ → ℕ) (len idx i : ℕ) (bs : List (List ℕ)) (rs : List ℕ)
      → length_of lens idx ≡ len
      → find_fit len rs ≡ some i
      → Tracks bs rs
      → Tracks (modify i (λ b. b ++ idx ∷ []) bs) (modify i (λ r. r - len) rs)
        × (total (total w) (modify i (λ b. b ++ idx ∷ []) bs) ≡ total (total w) bs + w idx)
  unfolding find_fit
  found w len idx i [] [] e f t = cc
  found w len idx i [] (r ∷ rs) e f t = absurd t
  found w len idx i (b ∷ bs) [] e f t = absurd t
  found w len idx i (b ∷ bs) (r ∷ rs) e f t = elim (Bool-cases (leb len r)) [
    | inl fit ↦ here i (room fit) (rw fit at f)
    | inr small ↦ there (find_fit len rs) (λ j g. found w len idx j bs rs e g t.2) (rw small at f)
  ]
    where
      room : leb len r ≡ true → len ≤ r
      room fit = ground arith

      Goal : ℕ → Type 0
      Goal i =
          Tracks (modify i (λ b. b ++ idx ∷ []) (b ∷ bs)) (modify i (λ r. r - len) (r ∷ rs))
          × (total (total w) (modify i (λ b. b ++ idx ∷ []) (b ∷ bs))
              ≡ total w b + total (total w) bs + w idx)

      here : (i : ℕ) → len ≤ r → some 0 ≡ some i → Goal i
      here zero h f' = (
        (
          omega (arith, total-append (length_of lens) b (idx ∷ []), t.0, e),
          omega (arith, length-append b (idx ∷ [])),
          t.2,
        ),
        omega (arith, total-append w b (idx ∷ [])),
      )
      here (suc i) h f' = cc

      there :
          (o : Option ℕ)
          → ((j : ℕ)
              → o ≡ some j
              → Tracks (modify j (λ b. b ++ idx ∷ []) bs) (modify j (λ r. r - len) rs)
                × (total (total w) (modify j (λ b. b ++ idx ∷ []) bs) ≡ total (total w) bs + w idx))
          → elim o [ none ↦ none | some i ↦ some (suc i) ] ≡ some i
          → Goal i
      there none ih f' = cc
      there (some j) ih f' =
          subst Goal (some-injective (suc j) i f')
            ((t.0, t.1, (ih j refl).0), omega (arith, (ih j refl).1))

  not_found :
      (len idx : ℕ) (bs : List (List ℕ)) (rs : List ℕ)
      → length_of lens idx ≡ len
      → len ≤ cap
      → Tracks bs rs
      → Tracks (bs ++ (idx ∷ []) ∷ []) (rs ++ (cap - len) ∷ [])
  not_found len idx [] [] e h t = (omega (arith, e), omega arith, tt)
  not_found len idx [] (r ∷ rs) e h t = absurd t
  not_found len idx (b ∷ bs) [] e h t = absurd t
  not_found len idx (b ∷ bs) (r ∷ rs) e h t = (t.0, t.1, not_found len idx bs rs e h t.2)

  pub put_in-Tracks :
      (w : ℕ → ℕ) (len idx : ℕ) (s : Bins) (o : Option ℕ)
      → find_fit len s.bin_remaining ≡ o
      → length_of lens idx ≡ len
      → len ≤ cap
      → Tracks s.bins s.bin_remaining
      → Tracks (put_in cap len idx o s).bins (put_in cap len idx o s).bin_remaining
        × (total (total w) (put_in cap len idx o s).bins ≡ total (total w) s.bins + w idx)
  put_in-Tracks w len idx s none f e h t = (
    not_found len idx s.bins s.bin_remaining e h t,
    omega (arith, total-append (total w) s.bins ((idx ∷ []) ∷ [])),
  )
  put_in-Tracks w len idx s (some i) f e h t = found w len idx i s.bins s.bin_remaining e f t

  -- The loop places every item, if none is too long.
  pub first_fit_loop-Tracks :
      (w : ℕ → ℕ) (items : List (ℕ × ℕ)) (s t : Bins)
      → All (λ p. length_of lens (item_index p) ≡ p.0) items
      → first_fit_loop cap items s ≡ ok t
      → Tracks s.bins s.bin_remaining
      → Tracks t.bins t.bin_remaining
        × (total (total w) t.bins ≡ total (total w) s.bins + total (λ p. w (item_index p)) items)
  unfolding first_fit_loop
  first_fit_loop-Tracks w [] s t es h v = ground arith
  first_fit_loop-Tracks w ((len, idx) ∷ items) s t es h v = elim (Bool-cases (ltb cap len)) [
    | inl long ↦ cc (rw long at h)
    | inr fits ↦
        let step =
          put_in-Tracks w len idx s (find_fit len s.bin_remaining) refl es.0
            (ltb_false→le cap len fits) v in
        let rest =
          first_fit_loop-Tracks w items (put_in cap len idx (find_fit len s.bin_remaining) s) t es.1
            (rw fits at h) step.0 in
        (rest.0, omega (arith, step.1, rest.1))
  ]

  -- It raises only for a sequence that is longer than a bin.
  pub first_fit_loop_total :
      (items : List (ℕ × ℕ)) (s : Bins)
      → All (λ p. p.0 ≤ cap) items
      → (t : Bins) × (first_fit_loop cap items s ≡ ok t)
  unfolding first_fit_loop
  first_fit_loop_total [] s h = (s, refl)
  first_fit_loop_total ((len, idx) ∷ items) s h =
      rw (le→ltb_false cap len h.0)
        (first_fit_loop_total items (put_in cap len idx (find_fit len s.bin_remaining) s) h.1)

  pub first_fit_loop-fits :
      (items : List (ℕ × ℕ)) (s t : Bins)
      → first_fit_loop cap items s ≡ ok t
      → All (λ p. p.0 ≤ cap) items
  unfolding first_fit_loop
  first_fit_loop-fits [] s t h = tt
  first_fit_loop-fits ((len, idx) ∷ items) s t h = elim (Bool-cases (ltb cap len)) [
    | inl long ↦ cc (rw long at h)
    | inr fits ↦ (
      ltb_false→le cap len fits,
      first_fit_loop-fits items (put_in cap len idx (find_fit len s.bin_remaining) s) t
          (rw fits at h),
    )
  ]

  pub Tracks-fits :
      (bs : List (List ℕ)) (rs : List ℕ)
      → Tracks bs rs
      → All (λ b. total (length_of lens) b ≤ cap) bs × All (λ b. 1 ≤ length b) bs
  Tracks-fits [] [] t = (tt, tt)
  Tracks-fits [] (r ∷ rs) t = absurd t
  Tracks-fits (b ∷ bs) [] t = absurd t
  Tracks-fits (b ∷ bs) (r ∷ rs) t =
      let (f, g) = Tracks-fits bs rs t.2 in ((omega (arith, t.0), f), (t.1, g))
