-- ===== src/Sharding/Batch.antt =====
-- `BatchedDataDict`: named columns of rows. A tensor, a list and a `PackedTensor` are each the
-- sequence of their rows along the batch dimension; what a row is does not matter here.
pub mod Reorder
use nemo_rl_xtoken.Base.{
  ℕ, zero, suc, ◌+◌, ◌-◌, ◌*◌, ◌/◌, ◌%◌, ◌≡◌, Bool, true, false, not, ◌&&◌, Option, none, some,
  List, [], ◌∷◌, ◌++◌, map, Result, ok, err, ◌>>=◌, ◌>>◌, raise_if, length, get_or, take, drop,
  replicate, range_from, enumerate, leb, ltb, ◌==◌, if◌then◌else◌, sort_by, flatten,
}
use nemo_rl_xtoken.Base.Text.{Text}

-- The failed assertions, one name for each, and Python's errors for a missing index or key.
pub data BatchError : Type 0 where
  sizes_differ not_multiple_of_batch_size not_multiple_of_shards batch_size_given : BatchError
  too_many_tokens no_such_chunk end_beyond_tensor unpacked missing_key empty_shard : BatchError
  zero_division index_error stop_iteration not_multiple_of_microbatch_size : BatchError

abbrev pub Column {ℓ} : Type ℓ → Type ℓ
Column A = Text × List A

abbrev pub Columns {ℓ} : Type ℓ → Type ℓ
Columns A = List (Column A)

module _ {ℓ} {A : Type ℓ} where
  -- The same operation on the rows of every column.
  abbrev pub on_rows : (List A → List A) → Column A → Column A
  on_rows f (k, v) = (k, f v)

  unfoldable pub same_size : ℕ → Columns A → Bool
  same_size n [] = true
  same_size n ((k, v) ∷ columns) = length v == n && same_size n columns

  -- The set of the columns' sizes must have one element; that is the batch size.
  unfoldable pub common_size : Columns A → Result BatchError ℕ
  unfolding same_size
  common_size [] = err sizes_differ
  common_size ((k, v) ∷ columns) =
      if same_size (length v) columns then ok (length v) else err sizes_differ

  -- `v[start:end]`
  abbrev pub slice_rows : ℕ → ℕ → List A → List A
  slice_rows start end v = take (end - start) (drop start v)

  -- `[v[i] for i in indices]`, with `default` where an index is out of range
  abbrev pub select_rows : A → List ℕ → List A → List A
  select_rows default indices v = map (λ i. get_or v i default) indices

  -- `[item for item in v for _ in range(num_repeats)]`
  unfoldable pub repeat_rows : ℕ → List A → List A
  repeat_rows num_repeats [] = []
  repeat_rows num_repeats (row ∷ v) = replicate num_repeats row ++ repeat_rows num_repeats v

  -- `repeat_interleave`
  unfoldable pub repeat_interleave : ℕ → Columns A → Columns A
  unfolding repeat_rows
  repeat_interleave num_repeats columns = map (on_rows (repeat_rows num_repeats)) columns

  -- `chunk`: the `rank`th of the `chunks` equal parts that `tensor_split` makes. The second
  -- assertion compares the rank with the size of a part.
  unfoldable pub chunk : ℕ → ℕ → Columns A → Result BatchError (Columns A)
  unfolding common_size
  chunk rank chunks columns = do
    b ← common_size columns
    raise_if (chunks == 0) zero_division
    raise_if (not (b % chunks == 0)) not_multiple_of_shards
    raise_if (leb (b / chunks) rank) no_such_chunk
    raise_if (leb chunks rank) index_error
    ok (map (on_rows (slice_rows (rank * (b / chunks)) ((rank + 1) * (b / chunks)))) columns)

-- `sorted(zip(reorded_indices, indices), key=lambda pair: pair[0])`
abbrev pub first_le : ℕ × ℕ → ℕ × ℕ → Bool
first_le (a, i) (b, j) = leb a b

abbrev pub swap_pair : ℕ × ℕ → ℕ × ℕ
swap_pair (i, a) = (a, i)

abbrev pub second : ℕ × ℕ → ℕ
second (a, i) = i

-- `reordered_indices` of `reorder_data`
unfoldable pub reordered_indices : List ℕ → List ℕ
unfolding sort_by
reordered_indices indices = map second (sort_by first_le (map swap_pair (enumerate indices)))

-- `reorder_data`; `default` stands for the row of an index out of range.
unfoldable pub reorder_data {ℓ} :
    {A : Type ℓ} → A → List ℕ → Columns A → Result BatchError (Columns A)
unfolding common_size reordered_indices
reorder_data default indices columns = do
  n ← common_size columns
  ok (map (on_rows (select_rows default (reordered_indices (take n indices)))) columns)
