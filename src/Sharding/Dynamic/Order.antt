-- ===== src/Sharding/Dynamic/Order.antt =====
-- The new order of the rows is a rearrangement, so `reorder_data` can undo it.
use mathlib.Core.Path.{ap₂}
use nemo_rl_xtoken.Base.{
  ℕ, zero, suc, ◌+◌, ◌-◌, ◌*◌, ◌≡◌, refl, sym, ap, ◌∙◌, List, [], ◌∷◌, map, arith, ok, range_from,
  Same, total, total-append, total-map, total-sort_by, sort_by,
}
use nemo_rl_xtoken.Sharding.Batch.{
  Columns, on_rows, common_size, select_rows, slice_rows, reorder_data,
}
use nemo_rl_xtoken.Sharding.Batch.Reorder.{reorder_data-select}
use nemo_rl_xtoken.Sharding.Dynamic.{by_length, every_nth, strides, chunk_order, batch_order}

module _ {A : Type 0} (w : A → ℕ) (shards : ℕ) where
  -- What the strides from `i` on weigh, `count` of them.
  abbrev strided : ℕ → ℕ → List A → ℕ
  strided i zero xs = 0
  strided i (suc count) xs = total w (every_nth i shards xs) + strided (suc i) count xs

  total-strides :
      (i count : ℕ) (xs : List A) → total w (strides i count shards xs) ≡ strided i count xs
  unfolding strides
  total-strides i zero xs = refl
  total-strides i (suc count) xs = omega (
    arith,
    total-append w (every_nth i shards xs) (strides (suc i) count shards xs),
    total-strides (suc i) count xs,
  )

  strided-nil : (i count : ℕ) → strided i count [] ≡ 0
  unfolding every_nth
  strided-nil i zero = refl
  strided-nil i (suc count) = omega (arith, strided-nil (suc i) count)

  strided-shift :
      (i count : ℕ) (x : A) (xs : List A) → strided (suc i) count (x ∷ xs) ≡ strided i count xs
  unfolding every_nth
  strided-shift i zero x xs = refl
  strided-shift i (suc count) x xs = omega (arith, strided-shift (suc i) count x xs)

  strided-last :
      (i count : ℕ) (xs : List A)
      → strided i (suc count) xs ≡ strided i count xs + total w (every_nth (i + count) shards xs)
  strided-last i zero xs = omega (arith, ap (λ k. total w (every_nth k shards xs)) same)
    where
      same : i + 0 ≡ i
      same = omega arith
  strided-last i (suc count) xs =
      omega (arith, strided-last (suc i) count xs, ap (λ k. total w (every_nth k shards xs)) same)
    where
      same : suc i + count ≡ i + suc count
      same = omega arith

-- Every element is in exactly one of the strides.
strided-all :
    {A : Type 0} (w : A → ℕ) (n : ℕ) (xs : List A) → strided w (suc n) 0 (suc n) xs ≡ total w xs
unfolding every_nth
strided-all w n [] = strided-nil w (suc n) 0 (suc n)
strided-all w n (x ∷ xs) = first (strided-all w n xs)
  where
    n_last : 0 + n ≡ n
    n_last = omega arith

    minus : suc n - 1 ≡ n
    minus = omega arith

    first :
        strided w (suc n) 0 (suc n) xs ≡ total w xs
        → strided w (suc n) 0 (suc n) (x ∷ xs) ≡ w x + total w xs
    first ih = omega (
      arith,
      ih,
      strided-shift w (suc n) 0 n x xs,
      strided-last w (suc n) 0 n xs,
      ap (λ k. total w (every_nth k (suc n) xs)) n_last,
      ap (λ k. total w (every_nth k (suc n) xs)) minus,
    )

pub total-shifted :
    (w : ℕ → ℕ) (c k n : ℕ)
    → total (λ i. w (i + c)) (range_from k n) ≡ total w (range_from (k + c) n)
total-shifted w c k zero = refl
total-shifted w c k (suc n) =
    omega (arith, total-shifted w c (suc k) n, ap (λ j. total w (range_from j n)) next)
  where
    next : suc k + c ≡ suc (k + c)
    next = omega arith

pub total-range-add :
    (w : ℕ → ℕ) (k m n : ℕ)
    → total w (range_from k (m + n)) ≡ total w (range_from k m) + total w (range_from (k + m) n)
total-range-add w k zero n =
    omega (arith, ap (λ j. total w (range_from k j)) left, ap (λ j. total w (range_from j n)) right)
  where
    left : zero + n ≡ n
    left = omega arith

    right : k + zero ≡ k
    right = omega arith
total-range-add w k (suc m) n = omega (
  arith,
  ap (λ j. total w (range_from k j)) left,
  total-range-add w (suc k) m n,
  ap (λ j. total w (range_from j n)) right,
)
  where
    left : suc m + n ≡ suc (m + n)
    left = omega arith

    right : suc k + m ≡ k + suc m
    right = omega arith

-- One chunk's new order holds the chunk's indices.
chunk_order-Same :
    (batch_size n chunk_start : ℕ) (seqlens : List ℕ)
    → Same (chunk_order batch_size (suc n) chunk_start seqlens) (range_from chunk_start batch_size)
unfolding chunk_order
chunk_order-Same batch_size n chunk_start seqlens w =
    total-strides w (suc n) 0 (suc n) shifted
    ∙ strided-all w n shifted
    ∙ total-map w (λ i. i + chunk_start) sorted
    ∙ total-sort_by (by_length seqlens) (λ i. w (i + chunk_start)) (range_from 0 batch_size)
    ∙ total-shifted w chunk_start 0 batch_size
    ∙ ap (λ j. total w (range_from j batch_size)) begin
  where
    sorted : List ℕ
    sorted = sort_by (by_length seqlens) (range_from 0 batch_size)

    shifted : List ℕ
    shifted = map (λ i. i + chunk_start) sorted

    begin : 0 + chunk_start ≡ chunk_start
    begin = omega arith

batch_order-Same :
    (batch_size n : ℕ) (seqlens : List ℕ) (chunk_idx count : ℕ)
    → Same
        (batch_order batch_size (suc n) seqlens chunk_idx count)
        (range_from (chunk_idx * batch_size) (count * batch_size))
unfolding batch_order
batch_order-Same batch_size n seqlens chunk_idx zero w =
    ap (λ j. total w (range_from (chunk_idx * batch_size) j)) none
  where
    none : 0 ≡ zero * batch_size
    none = omega arith
batch_order-Same batch_size n seqlens chunk_idx (suc count) w =
    total-append w this rest
    ∙ ap₂ (λ a b. a + b)
        (chunk_order-Same batch_size n (chunk_idx * batch_size)
          (slice_rows (chunk_idx * batch_size) ((chunk_idx + 1) * batch_size) seqlens) w)
        (batch_order-Same batch_size n seqlens (suc chunk_idx) count w
          ∙ ap (λ j. total w (range_from j (count * batch_size))) next)
    ∙ sym (total-range-add w (chunk_idx * batch_size) batch_size (count * batch_size))
    ∙ ap (λ j. total w (range_from (chunk_idx * batch_size) j)) all
  where
    this : List ℕ
    this =
        chunk_order batch_size (suc n) (chunk_idx * batch_size)
          (slice_rows (chunk_idx * batch_size) ((chunk_idx + 1) * batch_size) seqlens)

    rest : List ℕ
    rest = batch_order batch_size (suc n) seqlens (suc chunk_idx) count

    next : suc chunk_idx * batch_size ≡ chunk_idx * batch_size + batch_size
    next = omega arith

    all : batch_size + count * batch_size ≡ suc count * batch_size
    all = omega arith

-- With at least one shard, `reorder_data` called with `batch_sorted_indices` turns the batch whose
-- rows were selected by them back into the original one, whatever the lengths are; the batch has
-- as many rows as the chunks have together.
pub reorder_data-batch_order :
    {A : Type 0} (default : A) (batch_size n num_chunks : ℕ) (seqlens : List ℕ)
    (columns : Columns A)
    → common_size columns ≡ ok (num_chunks * batch_size)
    → let indices = batch_order batch_size (suc n) seqlens 0 num_chunks in
      reorder_data default indices (map (on_rows (select_rows default indices)) columns)
      ≡ ok columns
reorder_data-batch_order default batch_size n num_chunks seqlens columns sized =
    reorder_data-select default (batch_order batch_size (suc n) seqlens 0 num_chunks)
      (num_chunks * batch_size) columns rearranged sized
  where
    begin : 0 * batch_size ≡ 0
    begin = omega arith

    rearranged :
        Same
          (batch_order batch_size (suc n) seqlens 0 num_chunks)
          (range_from 0 (num_chunks * batch_size))
    rearranged w =
        batch_order-Same batch_size n seqlens 0 num_chunks w
        ∙ ap (λ j. total w (range_from j (num_chunks * batch_size))) begin
