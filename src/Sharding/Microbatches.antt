-- ===== src/Sharding/Microbatches.antt =====
-- `make_microbatch_iterator`: a batch, whose columns are tensors, in slices of one size. The iterator
-- is the list of what it yields, or the error that ends it.
pub mod Cover
use nemo_rl_xtoken.Base.{
  ℕ, zero, suc, ◌+◌, ◌/◌, ◌%◌, Bool, not, List, [], ◌∷◌, Result, ok, err, ◌>>=◌, ◌>>◌, raise_if,
  length, ltb, ◌==◌,
}
use nemo_rl_xtoken.Sharding.Batch.{
  BatchError, end_beyond_tensor, stop_iteration, zero_division, not_multiple_of_microbatch_size,
  Columns, slice_rows,
}

module _ {A : Type 0} where
  -- `size`: the rows of the first column; a batch without columns raises StopIteration.
  abbrev pub size : Columns A → Result BatchError ℕ
  size [] = err stop_iteration
  size ((k, v) ∷ columns) = ok (length v)

  -- `slice`
  unfoldable pub slice : ℕ → ℕ → Columns A → Result BatchError (Columns A)
  slice start end [] = ok []
  slice start end ((k, v) ∷ columns) = do
    raise_if (ltb (length v) end) end_beyond_tensor
    rest ← slice start end columns
    ok ((k, slice_rows start end v) ∷ rest)

  -- `for i in range(0, bsize, microbatch_size)`, from `i` on, `count` rounds.
  unfoldable pub microbatches_from : ℕ → ℕ → ℕ → Columns A → Result BatchError (List (Columns A))
  unfolding slice
  microbatches_from microbatch_size i zero columns = ok []
  microbatches_from microbatch_size i (suc count) columns = do
    microbatch ← slice i (i + microbatch_size) columns
    rest ← microbatches_from microbatch_size (i + microbatch_size) count columns
    ok (microbatch ∷ rest)

  unfoldable pub make_microbatch_iterator : ℕ → Columns A → Result BatchError (List (Columns A))
  unfolding microbatches_from
  make_microbatch_iterator microbatch_size columns = do
    bsize ← size columns
    raise_if (microbatch_size == 0) zero_division
    raise_if (not (bsize % microbatch_size == 0)) not_multiple_of_microbatch_size
    microbatches_from microbatch_size 0 (bsize / microbatch_size) columns
