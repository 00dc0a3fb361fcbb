-- ===== src/Base/Lists.antt =====
-- Lists measured and indexed by native numbers, under the library's names, with the list
-- operations of Python that the sources use.
use Prim.Native.Nat.{ℕ, zero, suc, ◌+◌, ◌<◌, ◌≤◌}
use mathlib.Core.Path.{◌≡◌, refl, ap}
use mathlib.Core.Logic.{◌≢◌}
use mathlib.Core.Bool.{Bool, true, false}
use mathlib.Core.Option.{Option, none, some}
use mathlib.Core.List.{List, [], ◌∷◌, ◌++◌, map}
use native.Mathlib.Omega.{arith}
use nemo_rl_xtoken.Base.Tests.{if◌then◌else◌}

module _ {ℓ} {A : Type ℓ} where
  abbrev pub length : List A → ℕ
  length [] = 0
  length (x ∷ xs) = suc (length xs)

  abbrev pub get_or : List A → ℕ → A → A
  get_or [] i d = d
  get_or (x ∷ xs) zero d = x
  get_or (x ∷ xs) (suc i) d = get_or xs i d

  abbrev pub is_empty : List A → Bool
  is_empty [] = true
  is_empty (x ∷ xs) = false

  -- `xs[i] = f(xs[i])`; out of range nothing changes
  abbrev pub modify : ℕ → (A → A) → List A → List A
  modify i f [] = []
  modify zero f (x ∷ xs) = f x ∷ xs
  modify (suc i) f (x ∷ xs) = x ∷ modify i f xs

  -- `xs.insert(i, x)`; an index past the end appends
  abbrev pub insert_at : ℕ → A → List A → List A
  insert_at zero x xs = x ∷ xs
  insert_at (suc i) x [] = x ∷ []
  insert_at (suc i) x (y ∷ xs) = y ∷ insert_at i x xs

  -- What is left of a list that is not empty, and its last element.
  abbrev pub init_last : A → List A → List A × A
  init_last x [] = ([], x)
  init_last x (y ∷ ys) = let (zs, z) = init_last y ys in (x ∷ zs, z)

  -- `xs.pop()`; `none` where Python raises IndexError
  abbrev pub pop_last : List A → Option (List A × A)
  pop_last [] = none
  pop_last (x ∷ xs) = some (init_last x xs)

  abbrev pub take : ℕ → List A → List A
  take zero xs = []
  take (suc n) [] = []
  take (suc n) (x ∷ xs) = x ∷ take n xs

  abbrev pub drop : ℕ → List A → List A
  drop zero xs = xs
  drop (suc n) [] = []
  drop (suc n) (x ∷ xs) = drop n xs

  abbrev pub replicate : ℕ → A → List A
  replicate zero a = []
  replicate (suc n) a = a ∷ replicate n a

  -- `[x for x in xs if test(x)]`
  abbrev pub filter : (A → Bool) → List A → List A
  filter test [] = []
  filter test (x ∷ xs) = let rest = filter test xs in if test x then x ∷ rest else rest

  -- `xs.pop(i)` without its result; out of range, where Python raises IndexError, nothing changes
  abbrev pub remove_at : ℕ → List A → List A
  remove_at i [] = []
  remove_at zero (x ∷ xs) = xs
  remove_at (suc i) (x ∷ xs) = x ∷ remove_at i xs

  -- `xs[i]` as a list of one element; empty where Python raises IndexError
  abbrev pub at_index : ℕ → List A → List A
  at_index i [] = []
  at_index zero (x ∷ xs) = x ∷ []
  at_index (suc i) (x ∷ xs) = at_index i xs

  -- A predicate on every element; it computes to a tuple.
  abbrev pub All {κ} : (A → Type κ) → List A → Type κ
  All P [] = Unit
  All P (x ∷ xs) = P x × All P xs

  pub length-append : (xs ys : List A) → length (xs ++ ys) ≡ length xs + length ys
  length-append [] ys = omega arith
  length-append (x ∷ xs) ys = omega (arith, length-append xs ys)

  pub length-replicate : (n : ℕ) (a : A) → length (replicate n a) ≡ n
  length-replicate zero a = refl
  length-replicate (suc n) a = ap suc (length-replicate n a)

  pub length-modify : (i : ℕ) (f : A → A) (xs : List A) → length (modify i f xs) ≡ length xs
  length-modify i f [] = refl
  length-modify zero f (x ∷ xs) = refl
  length-modify (suc i) f (x ∷ xs) = ap suc (length-modify i f xs)

  pub get_or-modify_self :
      (i : ℕ) (f : A → A) (xs : List A) (d : A)
      → i < length xs
      → get_or (modify i f xs) i d ≡ f (get_or xs i d)
  get_or-modify_self i f [] d h = elim h [ ]
  get_or-modify_self zero f (x ∷ xs) d h = refl
  get_or-modify_self (suc i) f (x ∷ xs) d h = get_or-modify_self i f xs d (omega arith)

  pub get_or-modify_ne :
      (i j : ℕ) (f : A → A) (xs : List A) (d : A)
      → i ≢ j
      → get_or (modify i f xs) j d ≡ get_or xs j d
  get_or-modify_ne i j f [] d h = refl
  get_or-modify_ne zero zero f (x ∷ xs) d h = absurd (h refl)
  get_or-modify_ne zero (suc j) f (x ∷ xs) d h = refl
  get_or-modify_ne (suc i) zero f (x ∷ xs) d h = refl
  get_or-modify_ne (suc i) (suc j) f (x ∷ xs) d h = get_or-modify_ne i j f xs d (λ e. h (ap suc e))

  pub get_or_beyond : (xs : List A) (i : ℕ) (d : A) → length xs ≤ i → get_or xs i d ≡ d
  get_or_beyond [] i d h = refl
  get_or_beyond (x ∷ xs) zero d h = absurd (omega arith)
  get_or_beyond (x ∷ xs) (suc i) d h = get_or_beyond xs i d (omega arith)

  pub All-append {κ} : (P : A → Type κ) (xs ys : List A) → All P xs → All P ys → All P (xs ++ ys)
  All-append P [] ys hx hy = hy
  All-append P (x ∷ xs) ys hx hy = (hx.0, All-append P xs ys hx.1 hy)

  pub All-get_or {κ} :
      (P : A → Type κ) (d : A) (xs : List A) (i : ℕ) → All P xs → P d → P (get_or xs i d)
  All-get_or P d [] i h hd = hd
  All-get_or P d (x ∷ xs) zero h hd = h.0
  All-get_or P d (x ∷ xs) (suc i) h hd = All-get_or P d xs i h.1 hd

  -- The converse of `All-get_or`, by positions.
  pub All_of_get_or {κ} :
      (P : A → Type κ) (d : A) (xs : List A)
      → ((i : ℕ) → i < length xs → P (get_or xs i d))
      → All P xs
  All_of_get_or P d [] h = tt
  All_of_get_or P d (x ∷ xs) h =
      (h zero (omega arith), All_of_get_or P d xs (λ i lt. h (suc i) (omega arith)))

-- `enumerate(xs)` from index `i`, as pairs of an index and an element
abbrev pub enumerate_from {ℓ} : {A : Type ℓ} → ℕ → List A → List (ℕ × A)
enumerate_from i [] = []
enumerate_from i (x ∷ xs) = (i, x) ∷ enumerate_from (suc i) xs

abbrev pub enumerate {ℓ} : {A : Type ℓ} → List A → List (ℕ × A)
enumerate xs = enumerate_from 0 xs

-- `range(i, i + n)`
abbrev pub range_from : ℕ → ℕ → List ℕ
range_from i zero = []
range_from i (suc n) = i ∷ range_from (suc i) n

pub length-range_from : (i n : ℕ) → length (range_from i n) ≡ n
length-range_from i zero = refl
length-range_from i (suc n) = ap suc (length-range_from (suc i) n)

module _ {A B : Type 0} (f : A → B) where
  pub length-map : (xs : List A) → length (map f xs) ≡ length xs
  length-map [] = refl
  length-map (x ∷ xs) = ap suc (length-map xs)

  pub get_or-map :
      (xs : List A) (i : ℕ) (d : B) (d' : A)
      → i < length xs
      → get_or (map f xs) i d ≡ f (get_or xs i d')
  get_or-map [] i d d' h = elim h [ ]
  get_or-map (x ∷ xs) zero d d' h = refl
  get_or-map (x ∷ xs) (suc i) d d' h = get_or-map xs i d d' (omega arith)

-- `[i for i, v in enumerate(xs) if test(v)]`, from index `i` on
unfoldable pub indices_where {ℓ} : {A : Type ℓ} → (A → Bool) → ℕ → List A → List ℕ
indices_where test i [] = []
indices_where test i (x ∷ xs) =
    let rest = indices_where test (suc i) xs in if test x then i ∷ rest else rest

module _ {A : Type 0} (test : A → Bool) where
  pub indices-suc :
      (k : ℕ) (xs : List A) → indices_where test (suc k) xs ≡ map suc (indices_where test k xs)
  unfolding indices_where
  indices-suc k [] = refl
  indices-suc k (x ∷ xs) = go (test x) (indices-suc (suc k) xs)
    where
      go :
          (b : Bool)
          → indices_where test (suc (suc k)) xs ≡ map suc (indices_where test (suc k) xs)
          → (if b
              then suc k ∷ indices_where test (suc (suc k)) xs
              else indices_where test (suc (suc k)) xs)
            ≡ map suc
                (if b then k ∷ indices_where test (suc k) xs else indices_where test (suc k) xs)
      go true ih = ap (λ l. suc k ∷ l) ih
      go false ih = ih

pub filter-suc :
    (p : ℕ → Bool) (is : List ℕ) → filter p (map suc is) ≡ map suc (filter (λ i. p (suc i)) is)
filter-suc p [] = refl
filter-suc p (i ∷ is) = go (p (suc i)) (filter-suc p is)
  where
    go :
        (b : Bool)
        → filter p (map suc is) ≡ map suc (filter (λ j. p (suc j)) is)
        → (if b then suc i ∷ filter p (map suc is) else filter p (map suc is))
          ≡ map suc (if b then i ∷ filter (λ j. p (suc j)) is else filter (λ j. p (suc j)) is)
    go true ih = ap (λ l. suc i ∷ l) ih
    go false ih = ih
