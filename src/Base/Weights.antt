-- ===== src/Base/Weights.antt =====
-- The total of a list under a weight. Two lists hold the same elements, each as often, where
-- every weight has one total on both; `count` is such a total.
use Prim.Native.Nat.{ℕ, zero, suc, ◌+◌, ◌<◌, ◌≤◌}
use mathlib.Core.Path.{◌≡◌, refl}
use mathlib.Core.Bool.{Bool, true}
use mathlib.Core.Logic.{∥∥₁_elim}
use mathlib.Core.List.{List, [], ◌∷◌, ◌++◌, map, flatten, Perm, Permᴰ}
use native.Mathlib.Omega.{arith}
use native.Mathlib.Nat.{ℕ_set}
use nemo_rl_xtoken.Base.Tests.{if◌then◌else◌, ◌==◌}
use nemo_rl_xtoken.Base.Lists.{length, get_or, modify, insert_at, init_last, All}

module _ {ℓ} {A : Type ℓ} where
  abbrev pub total : (A → ℕ) → List A → ℕ
  total w [] = 0
  total w (x ∷ xs) = w x + total w xs

abbrev pub count : ℕ → List ℕ → ℕ
count i = total (λ j. if i == j then 1 else 0)

module _ {ℓ} {A : Type ℓ} (w : A → ℕ) where
  pub total-append : (xs ys : List A) → total w (xs ++ ys) ≡ total w xs + total w ys
  total-append [] ys = omega arith
  total-append (x ∷ xs) ys = omega (arith, total-append xs ys)

  pub total-flatten : (xss : List (List A)) → total w (flatten xss) ≡ total (total w) xss
  unfolding flatten
  total-flatten [] = refl
  total-flatten (xs ∷ xss) = omega (arith, total-append xs (flatten xss), total-flatten xss)

  pub total-insert_at :
      (i : ℕ) (x : A) (xs : List A) → total w (insert_at i x xs) ≡ w x + total w xs
  total-insert_at zero x xs = refl
  total-insert_at (suc i) x [] = refl
  total-insert_at (suc i) x (y ∷ xs) = omega (arith, total-insert_at i x xs)

  pub total-modify :
      (i : ℕ) (f : A → A) (xs : List A) (d : A)
      → i < length xs
      → total w (modify i f xs) + w (get_or xs i d) ≡ total w xs + w (f (get_or xs i d))
  total-modify i f [] d h = elim h [ ]
  total-modify zero f (x ∷ xs) d h = omega arith
  total-modify (suc i) f (x ∷ xs) d h = omega (arith, total-modify i f xs d (omega arith))

  pub total-init_last :
      (x : A) (xs : List A) → total w (init_last x xs).0 + w (init_last x xs).1 ≡ w x + total w xs
  total-init_last x [] = omega arith
  total-init_last x (y ∷ ys) = omega (arith, total-init_last y ys)

  pub total-Permᴰ : {xs ys : List A} → Permᴰ xs ys → total w xs ≡ total w ys
  total-Permᴰ Permᴰ.nil = refl
  total-Permᴰ (Permᴰ.cons e p) = grind (arith, total-Permᴰ p)
  total-Permᴰ (Permᴰ.swap e e') = grind arith
  total-Permᴰ (Permᴰ.trans p q) = omega (arith, total-Permᴰ p, total-Permᴰ q)

  pub total-Perm : (xs ys : List A) → Perm xs ys → total w xs ≡ total w ys
  total-Perm xs ys p = ∥∥₁_elim p (ℕ_set _ _) total-Permᴰ

pub total-map {ℓ κ} :
    {A : Type ℓ} {B : Type κ} (w : B → ℕ) (f : A → B) (xs : List A)
    → total w (map f xs) ≡ total (λ x. w (f x)) xs
total-map w f [] = refl
total-map w f (x ∷ xs) = omega (arith, total-map w f xs)

-- Weights that agree have one total; a larger weight has a larger total.
pub total_mono {ℓ} :
    {A : Type ℓ} (v w : A → ℕ) (xs : List A) → All (λ x. v x ≤ w x) xs → total v xs ≤ total w xs
total_mono v w [] h = omega arith
total_mono v w (x ∷ xs) h = omega (arith, total_mono v w xs h.1)

-- A weight that is nowhere positive on a list is what `All` of the negated test says.
pub total_zero→All {ℓ} :
    {A : Type ℓ} (w : A → ℕ) (xs : List A) → total w xs ≡ 0 → All (λ x. w x ≡ 0) xs
total_zero→All w [] h = tt
total_zero→All w (x ∷ xs) h = (omega arith, total_zero→All w xs (omega arith))

pub All→total_zero {ℓ} :
    {A : Type ℓ} (w : A → ℕ) (xs : List A) → All (λ x. w x ≡ 0) xs → total w xs ≡ 0
All→total_zero w [] h = refl
All→total_zero w (x ∷ xs) h = omega (arith, All→total_zero w xs h.1)

-- Every weight has one total on both lists.
abbrev pub Same {ℓ} : {A : Type ℓ} → List A → List A → Type ℓ
Same {A} xs ys = (w : A → ℕ) → total w xs ≡ total w ys

All-failing {ℓ} :
    {A : Type ℓ} (test : A → Bool) (xs : List A)
    → All (λ x. test x ≡ true) xs
    → total (λ x. if test x then 0 else 1) xs ≡ 0
All-failing test [] h = refl
All-failing test (x ∷ xs) h = ground (arith, All-failing test xs h.1)

failing-All {ℓ} :
    {A : Type ℓ} (test : A → Bool) (xs : List A)
    → total (λ x. if test x then 0 else 1) xs ≡ 0
    → All (λ x. test x ≡ true) xs
failing-All test [] h = tt
failing-All test (x ∷ xs) h = (ground arith, failing-All test xs (omega arith))

-- A test that all elements pass is passed by the same elements in another order.
pub All-Same {ℓ} :
    {A : Type ℓ} (test : A → Bool) (xs ys : List A)
    → Same xs ys
    → All (λ x. test x ≡ true) xs
    → All (λ x. test x ≡ true) ys
All-Same test xs ys same h =
    failing-All test ys (omega (arith, All-failing test xs h, same (λ x. if test x then 0 else 1)))
