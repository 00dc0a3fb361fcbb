-- ===== src/Sharding/Batch/Reorder.antt =====
-- `reorder_data` undoes a rearrangement of the rows.
use mathlib.Core.Path.{ap₂, subst}
use nemo_rl_xtoken.Base.{
  map-get_or-range, ℕ, suc, ◌+◌, ◌≡◌, refl, sym, ap, ◌∙◌, true, ◌&&◌, List, [], ◌∷◌, map, arith, ok,
  ok-injective, length, get_or, take, All, All-sort_by, All-map_of, total, Same, All-both,
  All-positions, total-sort_by, All-enumerate, enumerate, enumerate_from, range_from, count,
  keys_equal, Sorted-keys, sort-Sorted, length-map, length-range_from, get_or-map, fst, ◌==◌,
  if◌then◌else◌, sort_by, Bool-cases, inl, inr,
}
use nemo_rl_xtoken.Sharding.Batch.{
  Column, Columns, on_rows, same_size, common_size, select_rows, first_le, swap_pair, second,
  reordered_indices, reorder_data,
}

-- Reading a rearranged column at the second components gives what stood at the first ones.
map-second :
    {A : Type 0} (f g : ℕ → A) (ps : List (ℕ × ℕ))
    → All (λ p. f p.1 ≡ g p.0) ps
    → map f (map second ps) ≡ map g (map fst ps)
map-second f g [] h = refl
map-second f g (p ∷ ps) h = ap₂ (λ x xs. x ∷ xs) h.0 (map-second f g ps h.1)

All-swap :
    (P : ℕ × ℕ → Type 0) (ps : List (ℕ × ℕ)) → All (λ p. P (p.1, p.0)) ps → All P (map swap_pair ps)
All-swap P [] h = tt
All-swap P (p ∷ ps) h = (h.0, All-swap P ps h.1)

total-swapped :
    (w : ℕ → ℕ) (k : ℕ) (indices : List ℕ)
    → total (λ p. w p.0) (map swap_pair (enumerate_from k indices)) ≡ total w indices
total-swapped w k [] = refl
total-swapped w k (i ∷ indices) = omega (arith, total-swapped w (suc k) indices)

module _ {A : Type 0} (default : A) (indices : List ℕ) (xs : List A)
    (rearranged : Same indices (range_from 0 (length xs))) where
  abbrev at : ℕ → A
  at i = get_or xs i default

  abbrev sorted_pairs : List (ℕ × ℕ)
  sorted_pairs = sort_by first_le (map swap_pair (enumerate indices))

  pairs_read : All (λ p. get_or (select_rows default indices xs) p.1 default ≡ at p.0) sorted_pairs
  pairs_read = All-sort_by first_le _ (map swap_pair (enumerate indices)) (
      All-swap _ (enumerate indices) (
        All-map_of _ _ (enumerate indices)
          (λ p h. get_or-map at indices p.0 default 0 h.0 ∙ ap at h.1)
          (All-both _ _ (enumerate indices) (All-positions 0 (length indices) indices (omega arith))
            (All-enumerate indices 0))))

  firsts-range : (i : ℕ) → keys_equal fst i sorted_pairs ≡ count i (range_from 0 (length xs))
  firsts-range i = omega (
    arith,
    total-sort_by first_le (λ p. if i == p.0 then 1 else 0) (map swap_pair (enumerate indices)),
    total-swapped (λ j. if i == j then 1 else 0) 0 indices,
    rearranged (λ j. if i == j then 1 else 0),
  )

  -- A column that was rearranged by the indices is put back.
  pub select-reordered :
      select_rows default (reordered_indices indices) (select_rows default indices xs) ≡ xs
  unfolding reordered_indices
  select-reordered =
      map-second (λ i. get_or (select_rows default indices xs) i default) at sorted_pairs pairs_read
      ∙ ap (map at) (
          Sorted-keys fst 0 (length xs) sorted_pairs
            (sort-Sorted fst (map swap_pair (enumerate indices))) firsts-range)
      ∙ map-get_or-range default 0 xs xs (λ j. ap at (start j))
    where
      start : (j : ℕ) → 0 + j ≡ j
      start j = omega arith

length-eq-total : (xs : List ℕ) → length xs ≡ total (λ _. 1) xs
length-eq-total [] = refl
length-eq-total (x ∷ xs) = omega (arith, length-eq-total xs)

take-all : {A : Type 0} (n : ℕ) (xs : List A) → length xs ≡ n → take n xs ≡ xs
take-all n [] h = rw (← h)
take-all n (x ∷ xs) h = rw (← h) (ap (λ l. x ∷ l) (take-all (length xs) xs refl))

module _ {A : Type 0} (default : A) (indices : List ℕ) (n : ℕ)
    (rearranged : Same indices (range_from 0 n)) where
  length-indices : length indices ≡ n
  length-indices = omega (
    arith,
    length-eq-total indices,
    rearranged (λ _. 1),
    length-eq-total (range_from 0 n),
    length-range_from 0 n,
  )

  same_size-select :
      (columns : Columns A)
      → same_size n (map (on_rows (select_rows default indices)) columns) ≡ true
  unfolding same_size
  same_size-select [] = refl
  same_size-select ((k, v) ∷ columns) = ground (
    arith,
    length-map (λ i. get_or v i default) indices,
    length-indices,
    same_size-select columns,
  )

  columns_back :
      (columns : Columns A)
      → same_size n columns ≡ true
      → map
          (on_rows (select_rows default (reordered_indices indices)))
          (map (on_rows (select_rows default indices)) columns)
        ≡ columns
  unfolding same_size
  columns_back [] h = refl
  columns_back ((k, v) ∷ columns) h =
      let sized : length v ≡ n = ground arith in
      ap₂ (λ x xs. x ∷ xs)
        (ap (λ r. (k, r))
          (select-reordered default indices v
            (subst (λ m. Same indices (range_from 0 m)) (sym sized) rearranged)))
        (columns_back columns (ground arith))

pub common_size-ok :
    {A : Type 0} (n : ℕ) (columns : Columns A)
    → common_size columns ≡ ok n
    → same_size n columns ≡ true
unfolding common_size
common_size-ok n [] h = cc
common_size-ok n ((k, v) ∷ columns) h = elim (Bool-cases (same_size (length v) columns)) [
  | inl same ↦
      let e : length v ≡ n = ok-injective (rw same at h) in
      subst (λ m. (length v == m && same_size m columns) ≡ true) e (ground (arith, same))
  | inr differ ↦ cc (rw differ at h)
]

common_size_passes :
    {A : Type 0} (n : ℕ) (column : Column A) (columns : Columns A)
    → same_size n (column ∷ columns) ≡ true
    → common_size (column ∷ columns) ≡ ok n
unfolding common_size
common_size_passes n (k, v) columns h =
    let e : length v ≡ n = ground arith in
    let same : same_size n columns ≡ true = ground arith in rw (e, same)

-- If `indices` is a rearrangement of 0, 1, ..., n - 1, where n is the batch size, then
-- `reorder_data(indices)` turns the batch whose rows were selected by `indices` back into the
-- original one: every column, in its original order.
pub reorder_data-select :
    {A : Type 0} (default : A) (indices : List ℕ) (n : ℕ) (columns : Columns A)
    → Same indices (range_from 0 n)
    → common_size columns ≡ ok n
    → reorder_data default indices (map (on_rows (select_rows default indices)) columns)
      ≡ ok columns
unfolding reorder_data
reorder_data-select default indices n [] rearranged sized = cc
reorder_data-select default indices n (column ∷ columns) rearranged sized =
    rw
      (common_size_passes n (on_rows (select_rows default indices) column)
        (map (on_rows (select_rows default indices)) columns)
        (same_size-select default indices n rearranged (column ∷ columns)))
      (ap
          (λ is. ok (
            map (on_rows (select_rows default (reordered_indices is)))
              (map (on_rows (select_rows default indices)) (column ∷ columns))))
          (take-all n indices (length-indices default indices n rearranged))
        ∙ ap ok (
            columns_back default indices n rearranged (column ∷ columns)
              (common_size-ok n (column ∷ columns) sized)))
