-- ===== src/Replay/Buffer/Rows.antt =====
-- The buffer's three parallel lists as one list of entries, and `sample` on the entries.
use nemo_rl_xtoken.Base.{
  indices_where, indices-suc, ℕ, zero, suc, ◌≤◌, ◌≡◌, refl, ap, ◌∙◌, Bool, true, false, List, [],
  ◌∷◌, ◌++◌, map, arith, take, remove_at, at_index, All, leb, if◌then◌else◌, sort_by, insert_by,
  le→leb, All-map_of,
}
use nemo_rl_xtoken.Base.Int.{ℤ}
use nemo_rl_xtoken.Replay.Buffer.{ReplayBuffer, pop_from_last, pop_selected, pick}

-- One entry: a prompt group, the version that generated it, and the version it is meant for.
pub record Entry (T : Type 0) : Type 0 where
  pub trajectory : T
  pub version : ℕ
  pub target : ℕ

abbrev pub of_entries : {T : Type 0} → ℕ → ℤ → List (Entry T) → ReplayBuffer T
of_entries max_size last entries = record {
  max_size = max_size;
  trajectories = map (λ e. e.trajectory) entries;
  trajectory_versions = map (λ e. e.version) entries;
  target_weight_versions = map (λ e. e.target) entries;
  last_target_weight_already_generated = last;
}

module _ {A : Type 0} (test : A → Bool) where
  -- The first `n` elements that pass the test.
  abbrev pub taken : ℕ → List A → List A
  taken zero xs = []
  taken (suc n) [] = []
  taken (suc n) (x ∷ xs) = if test x then x ∷ taken n xs else taken (suc n) xs

  -- The others, in their order.
  abbrev pub left : ℕ → List A → List A
  left zero xs = xs
  left (suc n) [] = []
  left (suc n) (x ∷ xs) = if test x then left n xs else x ∷ left (suc n) xs

  indices-ascend : (k : ℕ) (xs : List A) → All (λ i. k ≤ i) (indices_where test k xs)
  unfolding indices_where
  indices-ascend k [] = tt
  indices-ascend k (x ∷ xs) = go (test x) (
      All-map_of (λ i. suc k ≤ i) (λ i. k ≤ i) (indices_where test (suc k) xs) (λ i h. omega arith)
        (indices-ascend (suc k) xs))
    where
      go :
          (b : Bool)
          → All (λ i. k ≤ i) (indices_where test (suc k) xs)
          → All
              (λ i. k ≤ i)
              (if b then k ∷ indices_where test (suc k) xs else indices_where test (suc k) xs)
      go true h = (omega arith, h)
      go false h = h

take-suc : (n : ℕ) (is : List ℕ) → take n (map suc is) ≡ map suc (take n is)
take-suc zero is = refl
take-suc (suc n) [] = refl
take-suc (suc n) (i ∷ is) = ap (λ l. suc i ∷ l) (take-suc n is)

All-take : (k n : ℕ) (is : List ℕ) → All (λ i. k ≤ i) is → All (λ i. k ≤ i) (take n is)
All-take k zero is h = tt
All-take k (suc n) [] h = tt
All-take k (suc n) (i ∷ is) h = (h.0, All-take k n is h.1)

insert_first : (k : ℕ) (is : List ℕ) → All (λ i. k ≤ i) is → insert_by leb k is ≡ k ∷ is
unfolding insert_by
insert_first k [] h = refl
insert_first k (i ∷ is) h = rw (le→leb k i h.0) refl

-- The selected indices are sorted already.
sort-selected :
    {A : Type 0} (test : A → Bool) (n k : ℕ) (xs : List A)
    → sort_by leb (take n (indices_where test k xs)) ≡ take n (indices_where test k xs)
unfolding sort_by indices_where
sort-selected test zero k xs = refl
sort-selected test (suc n) k [] = refl
sort-selected test (suc n) k (x ∷ xs) =
    go (test x) (sort-selected test n (suc k) xs) (sort-selected test (suc n) (suc k) xs)
  where
    rest : List ℕ
    rest = indices_where test (suc k) xs

    above : All (λ i. k ≤ i) (take n rest)
    above = All-take k n rest (
        All-map_of (λ i. suc k ≤ i) (λ i. k ≤ i) rest (λ i h. omega arith)
          (indices-ascend test (suc k) xs))

    go :
        (b : Bool)
        → sort_by leb (take n rest) ≡ take n rest
        → sort_by leb (take (suc n) rest) ≡ take (suc n) rest
        → sort_by leb (take (suc n) (if b then k ∷ rest else rest))
          ≡ take (suc n) (if b then k ∷ rest else rest)
    go true ih ih' = ap (insert_by leb k) ih ∙ insert_first k (take n rest) above
    go false ih ih' = ih'

module _ {A B : Type 0} (f : A → B) (test : A → Bool) where
  pop-suc :
      (is : List ℕ) (y : B) (ys : List B)
      → pop_from_last (map suc is) (y ∷ ys) ≡ y ∷ pop_from_last is ys
  unfolding pop_from_last
  pop-suc [] y ys = refl
  pop-suc (i ∷ is) y ys = ap (remove_at (suc i)) (pop-suc is y ys)

  pick-suc : (is : List ℕ) (y : B) (ys : List B) → pick (map suc is) (y ∷ ys) ≡ pick is ys
  unfolding pick
  pick-suc [] y ys = refl
  pick-suc (i ∷ is) y ys = ap (λ l. at_index i ys ++ l) (pick-suc is y ys)

  -- Popping the selected entries of one of the lists leaves that list of the others.
  pop_from_last-left :
      (n : ℕ) (xs : List A)
      → pop_from_last (take n (indices_where test 0 xs)) (map f xs) ≡ map f (left test n xs)
  unfolding indices_where pop_from_last
  pop_from_last-left zero xs = refl
  pop_from_last-left (suc n) [] = refl
  pop_from_last-left (suc n) (x ∷ xs) =
      go (test x) (pop_from_last-left n xs) (pop_from_last-left (suc n) xs)
    where
      rest : List ℕ
      rest = indices_where test 0 xs

      shifted : (m : ℕ) → take m (indices_where test 1 xs) ≡ map suc (take m rest)
      shifted m = ap (take m) (indices-suc test 0 xs) ∙ take-suc m rest

      go :
          (b : Bool)
          → pop_from_last (take n rest) (map f xs) ≡ map f (left test n xs)
          → pop_from_last (take (suc n) rest) (map f xs) ≡ map f (left test (suc n) xs)
          → pop_from_last
              (take (suc n) (if b then 0 ∷ indices_where test 1 xs else indices_where test 1 xs))
              (f x ∷ map f xs)
            ≡ map f (if b then left test n xs else x ∷ left test (suc n) xs)
      go true ih ih' =
          ap (λ is. remove_at 0 (pop_from_last is (f x ∷ map f xs))) (shifted n)
          ∙ ap (remove_at 0) (pop-suc (take n rest) (f x) (map f xs))
          ∙ ih
      go false ih ih' =
          ap (λ is. pop_from_last is (f x ∷ map f xs)) (shifted (suc n))
          ∙ pop-suc (take (suc n) rest) (f x) (map f xs)
          ∙ ap (λ l. f x ∷ l) ih'

  pub pick-taken :
      (n : ℕ) (xs : List A)
      → pick (take n (indices_where test 0 xs)) (map f xs) ≡ map f (taken test n xs)
  unfolding indices_where pick
  pick-taken zero xs = refl
  pick-taken (suc n) [] = refl
  pick-taken (suc n) (x ∷ xs) = go (test x) (pick-taken n xs) (pick-taken (suc n) xs)
    where
      rest : List ℕ
      rest = indices_where test 0 xs

      shifted : (m : ℕ) → take m (indices_where test 1 xs) ≡ map suc (take m rest)
      shifted m = ap (take m) (indices-suc test 0 xs) ∙ take-suc m rest

      go :
          (b : Bool)
          → pick (take n rest) (map f xs) ≡ map f (taken test n xs)
          → pick (take (suc n) rest) (map f xs) ≡ map f (taken test (suc n) xs)
          → pick
              (take (suc n) (if b then 0 ∷ indices_where test 1 xs else indices_where test 1 xs))
              (f x ∷ map f xs)
            ≡ map f (if b then x ∷ taken test n xs else taken test (suc n) xs)
      go true ih ih' =
          ap (λ is. f x ∷ pick is (f x ∷ map f xs)) (shifted n)
          ∙ ap (λ l. f x ∷ l) (pick-suc (take n rest) (f x) (map f xs) ∙ ih)
      go false ih ih' =
          ap (λ is. pick is (f x ∷ map f xs)) (shifted (suc n))
          ∙ pick-suc (take (suc n) rest) (f x) (map f xs)
          ∙ ih'

  pub pop_selected-left :
      (n : ℕ) (xs : List A)
      → pop_selected (take n (indices_where test 0 xs)) (map f xs) ≡ map f (left test n xs)
  unfolding pop_selected
  pop_selected-left n xs =
      ap (λ is. pop_from_last is (map f xs)) (sort-selected test n 0 xs) ∙ pop_from_last-left n xs
