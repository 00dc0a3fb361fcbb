-- ===== src/Packing/Mffd/Visits.antt =====
-- Phases 2 to 4: a visit of a bin moves items into it, loses none and keeps to the capacity.
use nemo_rl_xtoken.Base.{
  ℕ, zero, suc, ◌+◌, ◌≤◌, ◌≡◌, ◌≢◌, refl, Bool, true, false, Option, none, some, List, [], ◌∷◌,
  ◌++◌, arith, All, total, total-append, ltb, leb, leb→le, le→leb, ltb_false→le, if◌then◌else◌,
  Bool-cases, inl, inr,
}
use nemo_rl_xtoken.Packing.Mffd.{
  Item, size, load, Visit, pop_first_fit, pop_last_fit, pass_over, add_medium, has_medium,
  add_small_pair, add_greedily, last_size,
}

-- What a call of `pop` has done: the item fits, and the rest is what else was there.
abbrev pub Popped : ℕ → ℕ → List Item → Option (Item × List Item) → Type 0
Popped cap used items none = Unit
Popped cap used items (some (item, rest)) =
    (used + size item ≤ cap) × ((w : Item → ℕ) → total w items ≡ w item + total w rest)

Popped-later :
    (cap used : ℕ) (item : Item) (items : List Item) (o : Option (Item × List Item))
    → Popped cap used items o
    → Popped cap used
        (item ∷ items)
        (elim o [ none ↦ none | some (found, rest) ↦ some (found, item ∷ rest) ])
Popped-later cap used item items none h = tt
Popped-later cap used item items (some (found, rest)) h = (h.0, λ w. omega (arith, h.1 w))

pub pop_first_fit-Popped :
    (cap used : ℕ) (items : List Item) → Popped cap used items (pop_first_fit cap used items)
unfolding pop_first_fit
pop_first_fit-Popped cap used [] = tt
pop_first_fit-Popped cap used (item ∷ items) = elim (Bool-cases (leb (used + size item) cap)) [
  | inl fit ↦ rw fit (leb→le _ _ fit, λ w. refl)
  | inr big ↦ rw big (
      Popped-later cap used item items (pop_first_fit cap used items)
        (pop_first_fit-Popped cap used items))
]

pop_last_fit-Popped :
    (cap used : ℕ) (items : List Item) → Popped cap used items (pop_last_fit cap used items)
unfolding pop_last_fit
pop_last_fit-Popped cap used [] = tt
pop_last_fit-Popped cap used (item ∷ items) =
    go (pop_last_fit cap used items) (pop_last_fit-Popped cap used items)
  where
    here :
        (b : Bool)
        → leb (used + size item) cap ≡ b
        → Popped cap used (item ∷ items) (if b then some (item, items) else none)
    here true e = (leb→le _ _ e, λ w. refl)
    here false e = tt

    go :
        (o : Option (Item × List Item))
        → Popped cap used items o
        → Popped cap used (item ∷ items) (elim o [
          | some (found, rest) ↦ some (found, item ∷ rest)
          | none ↦ if leb (used + size item) cap then some (item, items) else none
        ])
    go none h = here (leb (used + size item) cap) refl
    go (some (found, rest)) h = (h.0, λ w. omega (arith, h.1 w))

-- Where the first item fits, the search from the end finds one.
pop_last_fit_finds :
    (cap used : ℕ) (item : Item) (items : List Item)
    → used + size item ≤ cap
    → pop_last_fit cap used (item ∷ items) ≢ none
unfolding pop_last_fit
pop_last_fit_finds cap used item items h = go (pop_last_fit cap used items)
  where
    go :
        (o : Option (Item × List Item))
        → let found? : Option (Item × List Item) = elim o [
          | some (found, rest) ↦ some (found, item ∷ rest)
          | none ↦ if leb (used + size item) cap then some (item, items) else none
        ] in
          found? ≢ none
    go none = rw (le→leb _ _ h) (λ e. cc)
    go (some (found, rest)) = λ e. cc

-- What a phase does to each bin that it visits.
pub record IsFair (cap : ℕ) (visit : List Item → List Item → Visit) : Type 0 where
  pub keeps :
      (w : Item → ℕ) (b items : List Item)
      → total w (visit b items).0 + total w (visit b items).1 ≡ total w b + total w items
  pub fits : (b items : List Item) → load b ≤ cap → load (visit b items).0 ≤ cap

module _ (cap : ℕ) (visit : List Item → List Item → Visit) (fair : IsFair cap visit) where
  pub pass_over_keeps :
      (w : Item → ℕ) (bs : List (List Item)) (items : List Item)
      → total (total w) (pass_over visit bs items).0 + total w (pass_over visit bs items).1
        ≡ total (total w) bs + total w items
  unfolding pass_over
  pass_over_keeps w [] items = refl
  pass_over_keeps w (b ∷ bs) items =
      omega (arith, fair.keeps w b items, pass_over_keeps w bs (visit b items).1)

  pub pass_over_fits :
      (bs : List (List Item)) (items : List Item)
      → All (λ b. load b ≤ cap) bs
      → All (λ b. load b ≤ cap) (pass_over visit bs items).0
  unfolding pass_over
  pass_over_fits [] items h = tt
  pass_over_fits (b ∷ bs) items h = (fair.fits b items h.0, pass_over_fits bs (visit b items).1 h.1)

-- An item that fits, appended.
append_one :
    (cap : ℕ) (b items : List Item) (o : Option (Item × List Item))
    → Popped cap (load b) items o
    → let v : Visit = elim o [ none ↦ (b, items) | some (item, rest) ↦ (b ++ item ∷ [], rest) ] in
      ((w : Item → ℕ) → total w v.0 + total w v.1 ≡ total w b + total w items)
      × (load b ≤ cap → load v.0 ≤ cap)
append_one cap b items none h = (λ w. refl, λ f. f)
append_one cap b items (some (item, rest)) h = (
  λ w. omega (arith, total-append w b (item ∷ []), h.1 w),
  λ f. omega (arith, total-append size b (item ∷ []), h.0),
)

pub add_medium-IsFair : (cap : ℕ) → IsFair cap (add_medium cap)
unfolding add_medium
add_medium-IsFair cap = record {
  keeps = λ w b items.
      (append_one cap b items (pop_first_fit cap (load b) items)
          (pop_first_fit-Popped cap (load b) items)).0
        w;
  fits = λ b items.
      (append_one cap b items (pop_first_fit cap (load b) items)
        (pop_first_fit-Popped cap (load b) items)).1;
}

-- The pair that phase 3 appends; the search has found a second item.
append_pair :
    (cap : ℕ) (b : List Item) (first : Item) (small : List Item) (o : Option (Item × List Item))
    → Popped cap (load b + size first) small o
    → o ≢ none
    → let v : Visit = elim o [
      | none ↦ (b, small)
      | some (second, rest) ↦ (b ++ first ∷ second ∷ [], rest)
    ] in
      ((w : Item → ℕ) → total w v.0 + total w v.1 ≡ total w b + (w first + total w small))
      × (load b ≤ cap → load v.0 ≤ cap)
append_pair cap b first small none h found = absurd (found refl)
append_pair cap b first small (some (second, rest)) h found = (
  λ w. omega (arith, total-append w b (first ∷ second ∷ []), h.1 w),
  λ f. omega (arith, total-append size b (first ∷ second ∷ []), h.0),
)

-- One statement for both parts, by the branches of phase 3.
add_small_pair-cases :
    (cap : ℕ) (b small : List Item)
    → ((w : Item → ℕ)
        → total w (add_small_pair cap b small).0 + total w (add_small_pair cap b small).1
          ≡ total w b + total w small)
      × (load b ≤ cap → load (add_small_pair cap b small).0 ≤ cap)
unfolding add_small_pair
add_small_pair-cases cap b [] = (λ w. refl, λ f. f)
add_small_pair-cases cap b (x ∷ []) = (λ w. refl, λ f. f)
add_small_pair-cases cap b (x ∷ y ∷ small) = elim (Bool-cases (has_medium cap b)) [
  | inl medium ↦ rw medium (λ w. refl, λ f. f)
  | inr free ↦ elim (Bool-cases (ltb cap (load b + (size x + size y)))) [
    | inl over ↦ rw (free, over) (λ w. refl, λ f. f)
    | inr room ↦
        rw (free, room)
          (append_pair cap b x (y ∷ small) (pop_last_fit cap (load b + size x) (y ∷ small))
            (pop_last_fit-Popped cap (load b + size x) (y ∷ small))
            (pop_last_fit_finds cap (load b + size x) y small
              (omega (arith, ltb_false→le _ _ room))))
  ]
]

pub add_small_pair-IsFair : (cap : ℕ) → IsFair cap (add_small_pair cap)
add_small_pair-IsFair cap = record {
  keeps = λ w b items. (add_small_pair-cases cap b items).0 w;
  fits = λ b items. (add_small_pair-cases cap b items).1;
}

add_greedily-cases :
    (fuel cap : ℕ) (b items : List Item)
    → ((w : Item → ℕ)
        → total w (add_greedily fuel cap b items).0 + total w (add_greedily fuel cap b items).1
          ≡ total w b + total w items)
      × (load b ≤ cap → load (add_greedily fuel cap b items).0 ≤ cap)
unfolding add_greedily
add_greedily-cases zero cap b items = (λ w. refl, λ f. f)
add_greedily-cases (suc fuel) cap b [] = (λ w. refl, λ f. f)
add_greedily-cases (suc fuel) cap b (x ∷ items) =
    elim (Bool-cases (ltb cap (load b + last_size (x ∷ items)))) [
      | inl over ↦ rw over (λ w. refl, λ f. f)
      | inr room ↦ rw room (
          go (pop_first_fit cap (load b) (x ∷ items))
            (pop_first_fit-Popped cap (load b) (x ∷ items)) (add_greedily-cases fuel cap))
    ]
  where
    go :
        (o : Option (Item × List Item))
        → Popped cap (load b) (x ∷ items) o
        → ((b' items' : List Item)
            → ((w : Item → ℕ)
                → total w (add_greedily fuel cap b' items').0
                    + total w (add_greedily fuel cap b' items').1
                  ≡ total w b' + total w items')
              × (load b' ≤ cap → load (add_greedily fuel cap b' items').0 ≤ cap))
        → let v : Visit = elim o [
          | none ↦ (b, x ∷ items)
          | some (item, rest) ↦ add_greedily fuel cap (b ++ item ∷ []) rest
        ] in
          ((w : Item → ℕ) → total w v.0 + total w v.1 ≡ total w b + (w x + total w items))
          × (load b ≤ cap → load v.0 ≤ cap)
    go none h ih = (λ w. refl, λ f. f)
    go (some (item, rest)) h ih =
        let (keeps, fits) = ih (b ++ item ∷ []) rest in
        (
          λ w. omega (arith, keeps w, h.1 w, total-append w b (item ∷ [])),
          λ f. fits (omega (arith, h.0, total-append size b (item ∷ []))),
        )

pub add_greedily-IsFair : (fuel cap : ℕ) → IsFair cap (add_greedily fuel cap)
add_greedily-IsFair fuel cap = record {
  keeps = λ w b items. (add_greedily-cases fuel cap b items).0 w;
  fits = λ b items. (add_greedily-cases fuel cap b items).1;
}
