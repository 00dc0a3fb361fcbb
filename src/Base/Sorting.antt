-- ===== src/Base/Sorting.antt =====
-- Python's `sort` and `sorted`: stable, by an order test. An element goes in front of the equal
-- ones that stood behind it, also under `reverse=True`, where the test is turned round.
use Prim.Native.Nat.{ℕ, ◌+◌}
use mathlib.Core.Path.{◌≡◌, refl}
use mathlib.Core.Bool.{Bool, true, false}
use mathlib.Core.List.{List, [], ◌∷◌}
use native.Mathlib.Omega.{arith}
use nemo_rl_xtoken.Base.Tests.{if◌then◌else◌}
use nemo_rl_xtoken.Base.Lists.{All}
use nemo_rl_xtoken.Base.Weights.{total}

module _ {ℓ} {A : Type ℓ} (le : A → A → Bool) where
  unfoldable pub insert_by : A → List A → List A
  insert_by x [] = x ∷ []
  insert_by x (y ∷ ys) = if le x y then x ∷ y ∷ ys else y ∷ insert_by x ys

  unfoldable pub sort_by : List A → List A
  unfolding insert_by
  sort_by [] = []
  sort_by (x ∷ xs) = insert_by x (sort_by xs)

  total-insert_by : (w : A → ℕ) (x : A) (ys : List A) → total w (insert_by x ys) ≡ w x + total w ys
  unfolding insert_by
  total-insert_by w x [] = refl
  total-insert_by w x (y ∷ ys) = ground (arith, total-insert_by w x ys)

  pub total-sort_by : (w : A → ℕ) (xs : List A) → total w (sort_by xs) ≡ total w xs
  unfolding sort_by
  total-sort_by w [] = refl
  total-sort_by w (x ∷ xs) = omega (arith, total-insert_by w x (sort_by xs), total-sort_by w xs)

  All-insert_by {κ} :
      (P : A → Type κ) (x : A) (ys : List A) → P x → All P ys → All P (insert_by x ys)
  unfolding insert_by
  All-insert_by P x [] p h = (p, tt)
  All-insert_by P x (y ∷ ys) p h = go (le x y) (All-insert_by P x ys p h.1)
    where
      go :
          (b : Bool) → All P (insert_by x ys) → All P (if b then x ∷ y ∷ ys else y ∷ insert_by x ys)
      go true ih = (p, h)
      go false ih = (h.0, ih)

  pub All-sort_by {κ} : (P : A → Type κ) (xs : List A) → All P xs → All P (sort_by xs)
  unfolding sort_by
  All-sort_by P [] h = tt
  All-sort_by P (x ∷ xs) h = All-insert_by P x (sort_by xs) h.0 (All-sort_by P xs h.1)
