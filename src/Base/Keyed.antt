-- ===== src/Base/Keyed.antt =====
-- Sorting by a number. A sorted list whose keys are k, k + 1, ..., each once, has them in order.
use native.Mathlib.Decide.{dec_lt}
use mathlib.Core.Path.{ap₂, ap, ◌∙◌, ◌≡◌, refl, sym}
use Prim.Native.Nat.{ℕ, zero, suc, ◌+◌, ◌≤◌}
use mathlib.Core.Bool.{Bool}
use mathlib.Core.Logic.{inl, inr}
use mathlib.Core.List.{List, [], ◌∷◌, map}
use native.Mathlib.Omega.{arith}
use nemo_rl_xtoken.Base.Tests.{leb, ◌==◌, if◌then◌else◌, leb→le, leb_false→lt, Bool-cases}
use nemo_rl_xtoken.Base.Lists.{All, range_from, length, get_or}
use nemo_rl_xtoken.Base.Weights.{total, count}
use nemo_rl_xtoken.Base.Positions.{All-map_of, count-range_from}
use nemo_rl_xtoken.Base.Sorting.{insert_by, sort_by}

module _ {A : Type 0} (key : A → ℕ) where
  abbrev pub by_key : A → A → Bool
  by_key x y = leb (key x) (key y)

  -- Every element's key is at most that of each element behind it.
  abbrev pub Sorted : List A → Type 0
  Sorted [] = Unit
  Sorted (p ∷ ps) = All (λ q. key p ≤ key q) ps × Sorted ps

  All-insert :
      (P : A → Type 0) (p : A) (ps : List A) → P p → All P ps → All P (insert_by by_key p ps)
  unfolding insert_by
  All-insert P p [] h hs = (h, tt)
  All-insert P p (q ∷ ps) h hs = elim (Bool-cases (leb (key p) (key q))) [
    | inl le ↦ rw le (h, hs)
    | inr gt ↦ rw gt (hs.0, All-insert P p ps h hs.1)
  ]

  insert-Sorted : (p : A) (ps : List A) → Sorted ps → Sorted (insert_by by_key p ps)
  unfolding insert_by
  insert-Sorted p [] s = (tt, tt)
  insert-Sorted p (q ∷ ps) s = elim (Bool-cases (leb (key p) (key q))) [
    | inl le ↦
        rw le ((leb→le _ _ le, All-map_of _ _ ps (λ r h. omega (arith, leb→le _ _ le, h)) s.0), s)
    | inr gt ↦ rw gt (
      All-insert (λ r. key q ≤ key r) p ps (omega (arith, leb_false→lt _ _ gt)) s.0,
      insert-Sorted p ps s.1,
    )
  ]

  pub sort-Sorted : (ps : List A) → Sorted (sort_by by_key ps)
  unfolding sort_by
  sort-Sorted [] = tt
  sort-Sorted (p ∷ ps) = insert-Sorted p (sort_by by_key ps) (sort-Sorted ps)

  -- How often `i` is a key.
  abbrev pub keys_equal : ℕ → List A → ℕ
  keys_equal i ps = total (λ p. if i == key p then 1 else 0) ps

  keys_below : (i : ℕ) (ps : List A) → All (λ q. suc i ≤ key q) ps → keys_equal i ps ≡ 0
  keys_below i [] h = refl
  keys_below i (p ∷ ps) h = ground (arith, keys_below i ps h.1)

  -- The least key is where the range begins.
  head-key :
      (k n : ℕ) (p : A) (ps : List A)
      → All (λ q. key p ≤ key q) ps
      → ((i : ℕ) → keys_equal i (p ∷ ps) ≡ count i (range_from k (suc n)))
      → k ≡ key p
  head-key k n p ps least h = elim (dec_lt k (key p)) [
    | yes lt ↦ ground (arith, h k, keys_below k ps (All-map_of _ _ ps (λ q le. omega arith) least))
    | no ge ↦ ground (arith, h (key p), count-range_from (key p) k (suc n))
  ]

  pub Sorted-keys :
      (k n : ℕ) (ps : List A)
      → Sorted ps
      → ((i : ℕ) → keys_equal i ps ≡ count i (range_from k n))
      → map key ps ≡ range_from k n
  Sorted-keys k zero [] s h = refl
  Sorted-keys k (suc n) [] s h = ground (arith, h k)
  Sorted-keys k zero (p ∷ ps) s h = ground (arith, h (key p))
  Sorted-keys k (suc n) (p ∷ ps) s h =
      let e = head-key k n p ps s.0 h in
      ap₂ (λ x xs. x ∷ xs) (sym e) (Sorted-keys (suc k) n ps s.1 (λ i. ground (arith, h i, e)))

-- Reading a list at all its positions gives the list.
pub map-get_or-range :
    {A : Type 0} (default : A) (k : ℕ) (ys xs : List A)
    → ((j : ℕ) → get_or ys (k + j) default ≡ get_or xs j default)
    → map (λ i. get_or ys i default) (range_from k (length xs)) ≡ xs
map-get_or-range default k ys [] h = refl
map-get_or-range default k ys (x ∷ xs) h =
    ap₂ (λ y ys. y ∷ ys) (ap (λ i. get_or ys i default) here ∙ h 0)
      (map-get_or-range default (suc k) ys xs
        (λ j. ap (λ i. get_or ys i default) (there j) ∙ h (suc j)))
  where
    here : k ≡ k + 0
    here = omega arith

    there : (j : ℕ) → suc k + j ≡ k + suc j
    there j = omega arith
