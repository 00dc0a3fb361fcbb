-- ===== src/Packing/Mffd/Leftovers.antt =====
-- Phase 5: first fit on the leftovers, by the two lists that are kept in step.
use nemo_rl_xtoken.Base.{
  ℕ, zero, suc, ◌+◌, ◌≤◌, ◌≡◌, refl, sym, ap, ok-injective, ◌∙◌, List, [], ◌∷◌, ◌++◌, arith, ok,
  length, All, total, total-append, total-insert_at, insert_at, leb, leb→le, Bool-cases, inl, inr,
}
use nemo_rl_xtoken.Packing.Mffd.{Item, size, load, FfdBins, bisect, insert_bin, ffd_step, ffd_loop}

module _ (cap : ℕ) where
  -- The sizes are the loads of the bins, none over the capacity.
  abbrev pub Sized : List (List Item) → List ℕ → Type 0
  Sized [] [] = Unit
  Sized [] (s ∷ ss) = ⊥
  Sized (b ∷ bs) [] = ⊥
  Sized (b ∷ bs) (s ∷ ss) = (load b ≡ s) × (s ≤ cap) × Sized bs ss

  insert_at-Sized :
      (i : ℕ) (b : List Item) (s : ℕ) (bs : List (List Item)) (ss : List ℕ)
      → load b ≡ s
      → s ≤ cap
      → Sized bs ss
      → Sized (insert_at i b bs) (insert_at i s ss)
  insert_at-Sized zero b s bs ss e h v = (e, h, v)
  insert_at-Sized (suc i) b s [] [] e h v = (e, h, tt)
  insert_at-Sized (suc i) b s [] (t ∷ ss) e h v = absurd v
  insert_at-Sized (suc i) b s (c ∷ bs) [] e h v = absurd v
  insert_at-Sized (suc i) b s (c ∷ bs) (t ∷ ss) e h v =
      (v.0, v.1, insert_at-Sized i b s bs ss e h v.2)

  pub Sized-fits : (bs : List (List Item)) (ss : List ℕ) → Sized bs ss → All (λ b. load b ≤ cap) bs
  Sized-fits [] ss v = tt
  Sized-fits (b ∷ bs) [] v = absurd v
  Sized-fits (b ∷ bs) (s ∷ ss) v = (omega (arith, v.0, v.1), Sized-fits bs ss v.2)

  -- One item: it is placed, and the lists stay in step and are not empty.
  abbrev Placed : (Item → ℕ) → Item → List (List Item) → FfdBins → Type 0
  Placed w item bs t =
      Sized t.ffd_bins t.ffd_bin_sizes
      × (1 ≤ length t.ffd_bins)
      × (total (total w) t.ffd_bins ≡ total (total w) bs + w item)

  length-insert_at {ℓ} : {A : Type ℓ} (i : ℕ) (x : A) (xs : List A) → 1 ≤ length (insert_at i x xs)
  length-insert_at zero x xs = omega arith
  length-insert_at (suc i) x [] = omega arith
  length-insert_at (suc i) x (y ∷ xs) = omega arith

  insert_bin-Placed :
      (w : Item → ℕ) (b : List Item) (s : ℕ) (bs : List (List Item)) (ss : List ℕ)
      → load b ≡ s
      → s ≤ cap
      → Sized bs ss
      → Sized (insert_bin b s bs ss).ffd_bins (insert_bin b s bs ss).ffd_bin_sizes
        × (1 ≤ length (insert_bin b s bs ss).ffd_bins)
        × (total (total w) (insert_bin b s bs ss).ffd_bins ≡ total w b + total (total w) bs)
  insert_bin-Placed w b s bs ss e h v = (
    insert_at-Sized (bisect ss s) b s bs ss e h v,
    length-insert_at (bisect ss s) b bs,
    total-insert_at (total w) (bisect ss s) b bs,
  )

  ffd_step-Placed :
      (w : Item → ℕ) (item : Item) (bs : List (List Item)) (ss : List ℕ)
      → size item ≤ cap
      → 1 ≤ length bs
      → Sized bs ss
      → (t : FfdBins) × (ffd_step cap item bs ss ≡ ok t) × Placed w item bs t
  unfolding ffd_step
  ffd_step-Placed w item [] ss h l v = absurd (omega arith)
  ffd_step-Placed w item (b ∷ bs) [] h l v = absurd v
  ffd_step-Placed w item (b ∷ bs) (s ∷ ss) h l v = elim (Bool-cases (leb (s + size item) cap)) [
    | inl fit ↦
        let (sized, some_bin, same) =
          insert_bin-Placed w (b ++ item ∷ []) (s + size item) bs ss
            (omega (arith, total-append size b (item ∷ []), v.0)) (leb→le _ _ fit) v.2 in
        (
          insert_bin (b ++ item ∷ []) (s + size item) bs ss,
          rw fit,
          (sized, some_bin, omega (arith, same, total-append w b (item ∷ []))),
        )
    | inr full ↦
        let (sized, some_bin, same) =
          insert_bin-Placed w (item ∷ []) (size item) (b ∷ bs) (s ∷ ss) (omega arith) h v in
        (
          insert_bin (item ∷ []) (size item) (b ∷ bs) (s ∷ ss),
          rw full,
          (sized, some_bin, omega (arith, same)),
        )
  ]

  -- All items are placed; the lists never run empty, so nothing is raised.
  pub ffd_loop_lem :
      (items : List Item) (s : FfdBins)
      → All (λ p. size p ≤ cap) items
      → 1 ≤ length s.ffd_bins
      → Sized s.ffd_bins s.ffd_bin_sizes
      → (t : FfdBins) × (ffd_loop cap items s ≡ ok t)
        × Sized t.ffd_bins t.ffd_bin_sizes
        × ((w : Item → ℕ) → total (total w) t.ffd_bins ≡ total (total w) s.ffd_bins + total w items)
  unfolding ffd_loop
  ffd_loop_lem [] s h l v = (s, refl, v, λ w. omega arith)
  ffd_loop_lem (item ∷ items) s h l v =
      let placed = λ (w : Item → ℕ). ffd_step-Placed w item s.ffd_bins s.ffd_bin_sizes h.0 l v in
      let (s', stepped, p) = placed (λ _. 0) in
      let (t, looped, sized, same) = ffd_loop_lem items s' h.1 p.1 p.0 in
      (t, rw stepped looped, sized, λ w. omega (arith, same w, step-weight w s' (placed w) stepped))
    where
      step-weight :
          (w : Item → ℕ) (s' : FfdBins)
          → ((t : FfdBins) × (ffd_step cap item s.ffd_bins s.ffd_bin_sizes ≡ ok t)
              × Placed w item s.ffd_bins t)
          → ffd_step cap item s.ffd_bins s.ffd_bin_sizes ≡ ok s'
          → total (total w) s'.ffd_bins ≡ total (total w) s.ffd_bins + w item
      step-weight w s' (t, e, p) e' =
          rw (ap (λ (u : FfdBins). total (total w) u.ffd_bins) (ok-injective (sym e' ∙ e))) p.2
