-- ===== src/Rollouts/Rewards/Sorted.antt =====
-- Answers sorted back by the index that each came with.
use mathlib.Core.Path.{ap₂}
use nemo_rl_xtoken.Base.{
  ℕ, zero, suc, ◌+◌, ◌<◌, ◌≡◌, refl, sym, ap, ◌∙◌, List, [], ◌∷◌, map, arith, length, get_or,
  range_from, sort_by, by_key, keys_equal, Sorted-keys, sort-Sorted, length-map, get_or-map,
  map-get_or-range, if◌then◌else◌, total, total-map, total-sort_by, All, All-sort_by, All-map_of,
  count, ◌==◌,
}

pub map-eq :
    {A B : Type 0} (f g : A → B) (xs : List A) → All (λ x. f x ≡ g x) xs → map f xs ≡ map g xs
map-eq f g [] h = refl
map-eq f g (x ∷ xs) h = ap₂ (λ y ys. y ∷ ys) h.0 (map-eq f g xs h.1)

pub map-map :
    {A B C : Type 0} (g : B → C) (f : A → B) (xs : List A)
    → map g (map f xs) ≡ map (λ x. g (f x)) xs
map-map g f [] = refl
map-map g f (x ∷ xs) = ap (λ l. g (f x) ∷ l) (map-map g f xs)

All-get_or_lt :
    {A : Type 0} (P : A → Type 0) (d : A) (xs : List A) (i : ℕ)
    → i < length xs
    → All P xs
    → P (get_or xs i d)
All-get_or_lt P d [] i h all = absurd (omega arith)
All-get_or_lt P d (x ∷ xs) zero h all = all.0
All-get_or_lt P d (x ∷ xs) (suc i) h all = All-get_or_lt P d xs i (omega arith) all.1

All-range : (k n : ℕ) → All (λ i. i < k + n) (range_from k n)
All-range k zero = tt
All-range k (suc n) =
    (omega arith, All-map_of _ _ (range_from (suc k) n) (λ i h. omega arith) (All-range (suc k) n))

-- Entries with the indices 0, 1, ..., n - 1, in any order, that each answer by a function of the
-- index, come out as that function's values in order.
module _ {E O : Type 0} (index : E → ℕ) (answer : E → O) (f : ℕ → O) (default : O) (es : List E)
    (by_index : All (λ e. answer e ≡ f (index e)) es)
    (once : (i : ℕ) → keys_equal index i es ≡ count i (range_from 0 (length es))) where
  order : List ℕ
  order = map index es

  abbrev key : ℕ → ℕ
  key k = get_or (map index es) k 0

  abbrev positions : List ℕ
  positions = range_from 0 (length (map index es))

  keys_once :
      (i : ℕ)
      → keys_equal key i (sort_by (by_key key) positions) ≡ count i (range_from 0 (length es))
  keys_once i = omega (
    arith,
    once i,
    total-sort_by (by_key key) (λ k. if i == key k then 1 else 0) positions,
    total-map (λ j. if i == j then 1 else 0) key positions,
    ap (total (λ j. if i == j then 1 else 0)) (
        map-get_or-range 0 0 (map index es) (map index es)
          (λ j. ap (λ k. get_or (map index es) k 0) (start j))),
    total-map (λ j. if i == j then 1 else 0) index es,
  )
    where
      start : (j : ℕ) → 0 + j ≡ j
      start j = omega arith

  -- A position in range holds the answer for its index.
  value-key : (e : E) (k : ℕ) → k < length es → get_or (map answer es) k default ≡ f (key k)
  value-key e k h =
      get_or-map answer es k default e h
      ∙ All-get_or_lt (λ x. answer x ≡ f (index x)) e es k h by_index
      ∙ ap f (sym (get_or-map index es k 0 e h))

  pub sorted-answers :
      (e : E)
      → map (λ k. get_or (map answer es) k default) (sort_by (by_key key) positions)
        ≡ map f (range_from 0 (length es))
  sorted-answers e =
      map-eq (λ k. get_or (map answer es) k default) (λ k. f (key k))
        (sort_by (by_key key) positions)
        (All-map_of _ _ (sort_by (by_key key) positions)
          (λ k h. value-key e k (omega (arith, length-map index es)))
          (All-sort_by (by_key key) _ positions (All-range 0 (length (map index es)))))
      ∙ sym (map-map f key (sort_by (by_key key) positions))
      ∙ ap (map f) (
          Sorted-keys key 0 (length es) (sort_by (by_key key) positions) (sort-Sorted key positions)
            keys_once)
