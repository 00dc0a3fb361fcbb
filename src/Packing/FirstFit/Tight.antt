-- ===== src/Packing/FirstFit/Tight.antt =====
-- First fit: an item lies in a bin only where none of the bins before had room for it.
use mathlib.Core.Path.{subst}
use mathlib.Core.Option.{some-injective}
use nemo_rl_xtoken.Base.{
  ℕ, zero, suc, ◌+◌, ◌≤◌, ◌<◌, ◌≡◌, refl, Option, none, some, List, [], ◌∷◌, ◌++◌, arith, ok,
  >>=-eq-ok, ok-injective, modify, All, All-append, All-map_of, total, total-append, ltb, leb,
  leb_false→lt, ltb_false→le, Bool-cases, inl, inr,
}
use nemo_rl_xtoken.Packing.Packer.{length_of}
use nemo_rl_xtoken.Packing.FirstFit.{
  Bins, Preparation, find_fit, put_in, first_fit_loop, prepare_sequences, first_fit_pack,
}
use nemo_rl_xtoken.Packing.FirstFit.Sound.{item_index, Tracks, put_in-Tracks}
use nemo_rl_xtoken.Packing.FirstFit.Packs.{prepared-lengths}

module _ (cap : ℕ) (lens : List ℕ) where
  -- A bin of load `used` has no room for any sequence of the bins `bs`.
  abbrev pub NoRoom : ℕ → List (List ℕ) → Type 0
  NoRoom used bs = All (λ c. All (λ i. cap < used + length_of lens i) c) bs

  -- No sequence of a bin fits into a bin before it.
  abbrev pub IsTight : List (List ℕ) → Type 0
  IsTight [] = Unit
  IsTight (b ∷ bs) = NoRoom (total (length_of lens) b) bs × IsTight bs

  NoRoom-mono : (used more : ℕ) (bs : List (List ℕ)) → used ≤ more → NoRoom used bs → NoRoom more bs
  NoRoom-mono used more bs h n =
      All-map_of _ _ bs (λ c p. All-map_of _ _ c (λ i q. omega arith) p) n

  NoRoom-modify :
      (used idx : ℕ) (i : ℕ) (bs : List (List ℕ))
      → cap < used + length_of lens idx
      → NoRoom used bs
      → NoRoom used (modify i (λ b. b ++ idx ∷ []) bs)
  NoRoom-modify used idx i [] h n = tt
  NoRoom-modify used idx zero (b ∷ bs) h n = (All-append _ b (idx ∷ []) n.0 (h, tt), n.1)
  NoRoom-modify used idx (suc i) (b ∷ bs) h n = (n.0, NoRoom-modify used idx i bs h n.1)

  module _ (len idx : ℕ) (idx_len : length_of lens idx ≡ len) where
    found-IsTight :
        (i : ℕ) (bs : List (List ℕ)) (rs : List ℕ)
        → find_fit len rs ≡ some i
        → Tracks cap lens bs rs
        → IsTight bs
        → IsTight (modify i (λ b. b ++ idx ∷ []) bs)
    unfolding find_fit
    found-IsTight i [] rs f t p = tt
    found-IsTight i (b ∷ bs) [] f t p = absurd t
    found-IsTight i (b ∷ bs) (r ∷ rs) f t p = elim (Bool-cases (leb len r)) [
      | inl fit ↦ here i (rw fit at f)
      | inr small ↦
          there (leb_false→lt _ _ small) (find_fit len rs) (λ j g. found-IsTight j bs rs g t.2 p.1)
            (rw small at f)
    ]
      where
        Goal : ℕ → Type 0
        Goal i = IsTight (modify i (λ b. b ++ idx ∷ []) (b ∷ bs))

        here : (i : ℕ) → some 0 ≡ some i → Goal i
        here zero e = (
          NoRoom-mono (total (length_of lens) b) (total (length_of lens) (b ++ idx ∷ [])) bs
              (omega (arith, total-append (length_of lens) b (idx ∷ []))) p.0,
          p.1,
        )
        here (suc i) e = cc

        there :
            r < len
            → (o : Option ℕ) → ((j : ℕ) → o ≡ some j → IsTight (modify j (λ b. b ++ idx ∷ []) bs))
            → elim o [ none ↦ none | some i ↦ some (suc i) ] ≡ some i
            → Goal i
        there lt none ih e = cc
        there lt (some j) ih e = subst Goal (some-injective (suc j) i e) (
          NoRoom-modify (total (length_of lens) b) idx j bs (omega (arith, t.0, idx_len)) p.0,
          ih j refl,
        )

    not_found-IsTight :
        (bs : List (List ℕ)) (rs : List ℕ)
        → find_fit len rs ≡ none
        → Tracks cap lens bs rs
        → IsTight bs
        → IsTight (bs ++ (idx ∷ []) ∷ [])
    unfolding find_fit
    not_found-IsTight [] rs f t p = (tt, tt)
    not_found-IsTight (b ∷ bs) [] f t p = absurd t
    not_found-IsTight (b ∷ bs) (r ∷ rs) f t p = elim (Bool-cases (leb len r)) [
      | inl fit ↦ cc (rw fit at f)
      | inr small ↦ (
        All-append _ bs ((idx ∷ []) ∷ []) p.0
            ((omega (arith, t.0, idx_len, leb_false→lt _ _ small), tt), tt),
        not_found-IsTight bs rs (later (find_fit len rs) (rw small at f)) t.2 p.1,
      )
    ]
      where
        later : (o : Option ℕ) → elim o [ none ↦ none | some i ↦ some (suc i) ] ≡ none → o ≡ none
        later none e = refl
        later (some i) e = cc

    put_in-IsTight :
        (s : Bins) (o : Option ℕ)
        → find_fit len s.bin_remaining ≡ o
        → Tracks cap lens s.bins s.bin_remaining
        → IsTight s.bins
        → IsTight (put_in cap len idx o s).bins
    put_in-IsTight s none f t p = not_found-IsTight s.bins s.bin_remaining f t p
    put_in-IsTight s (some i) f t p = found-IsTight i s.bins s.bin_remaining f t p

  first_fit_loop-IsTight :
      (items : List (ℕ × ℕ)) (s t : Bins)
      → All (λ p. length_of lens (item_index p) ≡ p.0) items
      → first_fit_loop cap items s ≡ ok t
      → Tracks cap lens s.bins s.bin_remaining
      → IsTight s.bins
      → IsTight t.bins
  unfolding first_fit_loop
  first_fit_loop-IsTight [] s t es h v p = subst (λ (u : Bins). IsTight u.bins) (ok-injective h) p
  first_fit_loop-IsTight ((len, idx) ∷ items) s t es h v p = elim (Bool-cases (ltb cap len)) [
    | inl long ↦ cc (rw long at h)
    | inr fits ↦
        first_fit_loop-IsTight items (put_in cap len idx (find_fit len s.bin_remaining) s) t es.1
          (rw fits at h)
          (put_in-Tracks cap lens (λ _. 0) len idx s (find_fit len s.bin_remaining) refl es.0
            (ltb_false→le cap len fits) v).0
          (put_in-IsTight len idx es.0 s (find_fit len s.bin_remaining) refl v p)
  ]

  -- In the bins of both first-fit packers no sequence of a bin fits into the room that a bin
  -- before it has left at the end.
  pub first_fit_pack-IsTight :
      (preparation : Preparation) (bins : List (List ℕ))
      → first_fit_pack cap preparation lens ≡ ok bins
      → IsTight bins
  unfolding first_fit_pack
  first_fit_pack-IsTight preparation bins h =
      let (s, ran, e) =
        >>=-eq-ok
          (first_fit_loop cap (prepare_sequences preparation lens)
            (record { bins = []; bin_remaining = [] }))
          _ h in
      subst IsTight (ok-injective e) (
        first_fit_loop-IsTight (prepare_sequences preparation lens)
          (record { bins = []; bin_remaining = [] }) s (prepared-lengths preparation lens) ran tt
          tt)
