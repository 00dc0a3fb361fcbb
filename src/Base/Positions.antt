-- ===== src/Base/Positions.antt =====
-- The pairs of `enumerate`: what stands at an index, and how often an index occurs.
use Prim.Native.Nat.{◌<◌, ◌≤◌, ℕ, zero, suc, ◌+◌}
use mathlib.Core.Path.{◌≡◌, refl, ◌∙◌, ap}
use mathlib.Core.Bool.{◌&&◌}
use mathlib.Core.List.{List, [], ◌∷◌}
use native.Mathlib.Omega.{arith}
use nemo_rl_xtoken.Base.Tests.{if◌then◌else◌, ltb, leb}
use nemo_rl_xtoken.Base.Lists.{length, get_or, All, enumerate_from, enumerate, range_from}
use nemo_rl_xtoken.Base.Weights.{total, count}

abbrev pub fst {ℓ κ} : {A : Type ℓ} {B : Type κ} → A × B → A
fst (a, b) = a

module _ {ℓ} {A : Type ℓ} where
  pub total-enumerate_from :
      (w : ℕ → ℕ) (k : ℕ) (xs : List A)
      → total (λ p. w (fst p)) (enumerate_from k xs) ≡ total w (range_from k (length xs))
  total-enumerate_from w k [] = refl
  total-enumerate_from w k (x ∷ xs) = omega (arith, total-enumerate_from w (suc k) xs)

  All-enumerate_from :
      (ys : List A) (d : A) (k : ℕ) (xs : List A)
      → ((j : ℕ) → get_or ys (k + j) d ≡ get_or xs j d)
      → All (λ p. get_or ys (fst p) d ≡ p.1) (enumerate_from k xs)
  All-enumerate_from ys d k [] h = tt
  All-enumerate_from ys d k (x ∷ xs) h = (
    (ap (λ i. get_or ys i d) here) ∙ h 0,
    All-enumerate_from ys d (suc k) xs (λ j. ap (λ i. get_or ys i d) (there j) ∙ h (suc j)),
  )
    where
      here : k ≡ k + 0
      here = omega arith

      there : (j : ℕ) → suc k + j ≡ k + suc j
      there j = omega arith

  -- Each pair holds the element that stands at its index.
  pub All-enumerate : (xs : List A) (d : A) → All (λ p. get_or xs (fst p) d ≡ p.1) (enumerate xs)
  All-enumerate xs d = All-enumerate_from xs d 0 xs (λ j. ap (λ i. get_or xs i d) (start j))
    where
      start : (j : ℕ) → 0 + j ≡ j
      start j = omega arith

pub All-enumerate_lem {ℓ κ} :
    {A : Type ℓ} (P : A → Type κ) (k : ℕ) (xs : List A)
    → All P xs
    → All (λ p. P p.1) (enumerate_from k xs)
All-enumerate_lem P k [] h = tt
All-enumerate_lem P k (x ∷ xs) h = (h.0, All-enumerate_lem P (suc k) xs h.1)

pub count-range_from :
    (i k n : ℕ) → count i (range_from k n) ≡ (if leb k i && ltb i (k + n) then 1 else 0)
count-range_from i k zero = ground arith
count-range_from i k (suc n) = ground (arith, count-range_from i (suc k) n)

pub count-range : (i n : ℕ) → count i (range_from 0 n) ≡ (if ltb i n then 1 else 0)
count-range i n = ground (arith, count-range_from i 0 n)

pub All-both {ℓ κ μ} :
    {A : Type ℓ} (P : A → Type κ) (Q : A → Type μ) (xs : List A)
    → All P xs
    → All Q xs
    → All (λ x. P x × Q x) xs
All-both P Q [] hp hq = tt
All-both P Q (x ∷ xs) hp hq = ((hp.0, hq.0), All-both P Q xs hp.1 hq.1)

pub All-map_of {ℓ κ μ} :
    {A : Type ℓ} (P : A → Type κ) (Q : A → Type μ) (xs : List A)
    → ((x : A) → P x → Q x)
    → All P xs
    → All Q xs
All-map_of P Q [] f h = tt
All-map_of P Q (x ∷ xs) f h = (f x h.0, All-map_of P Q xs f h.1)

-- The indices of `enumerate` lie below its end.
pub All-positions {ℓ} :
    {A : Type ℓ} (k n : ℕ) (xs : List A)
    → k + length xs ≤ n
    → All (λ p. fst p < n) (enumerate_from k xs)
All-positions k n [] h = tt
All-positions k n (x ∷ xs) h = (omega arith, All-positions (suc k) n xs (omega arith))
