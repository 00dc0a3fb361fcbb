-- ===== src/Base/Counts.antt =====
-- Lists in which each number occurs equally often have one total under every weight.
use Prim.Native.Nat.{ℕ, ◌+◌, ◌≤◌}
use mathlib.Core.Path.{◌≡◌, refl, ap}
use mathlib.Core.Logic.{inl, inr}
use mathlib.Core.List.{List, [], ◌∷◌}
use native.Mathlib.Omega.{arith}
use nemo_rl_xtoken.Base.Tests.{◌==◌, if◌then◌else◌, ==→eq, eq→==, Bool-cases}
use nemo_rl_xtoken.Base.Weights.{total, count, Same}

-- The list without the first `x`.
abbrev remove : ℕ → List ℕ → List ℕ
remove x [] = []
remove x (y ∷ ys) = let rest = remove x ys in if x == y then ys else y ∷ rest

total-remove :
    (w : ℕ → ℕ) (x : ℕ) (ys : List ℕ) → 1 ≤ count x ys → total w ys ≡ w x + total w (remove x ys)
total-remove w x [] h = absurd (omega arith)
total-remove w x (y ∷ ys) h = elim (Bool-cases (x == y)) [
  | inl here ↦ rw here (omega (arith, ap w (==→eq x y here)))
  | inr there ↦ rw there (omega (arith, total-remove w x ys (omega (arith, rw there at h))))
]

pub count-Same : (xs ys : List ℕ) → ((i : ℕ) → count i xs ≡ count i ys) → Same xs ys
count-Same [] [] h w = refl
count-Same [] (y ∷ ys) h w = absurd (grind (arith, h y, eq→== y y refl))
count-Same (x ∷ xs) ys h w =
    omega (arith, total-remove w x ys here, count-Same xs (remove x ys) rest w)
  where
    here : 1 ≤ count x ys
    here = grind (arith, h x, eq→== x x refl)

    rest : (i : ℕ) → count i xs ≡ count i (remove x ys)
    rest i = omega (arith, h i, total-remove (λ j. if i == j then 1 else 0) x ys here)
