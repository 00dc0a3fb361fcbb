-- ===== src/Sharding/Plain.antt =====
-- `shard_by_batch_size` without dynamic batching and packing: the shard's ranges of rows.
pub mod Rows
use nemo_rl_xtoken.Base.{
  ℕ, zero, suc, ◌+◌, ◌-◌, ◌*◌, ◌/◌, ◌%◌, min, ◌≡◌, Bool, true, false, not, ◌&&◌, Option, none, some,
  List, [], ◌∷◌, ◌++◌, map, Result, ok, err, ◌>>=◌, ◌>>◌, raise_if, ltb, leb, ◌==◌, if◌then◌else◌,
}
use nemo_rl_xtoken.Sharding.Batch.{
  BatchError, batch_size_given, not_multiple_of_batch_size, not_multiple_of_shards, zero_division,
  Columns, on_rows, common_size, slice_rows,
}

-- What the checks at the top compute.
pub record Layout : Type 0 where
  pub total_batch_size : ℕ
  pub batch_size : ℕ
  pub num_chunks : ℕ
  pub shard_size : ℕ

abbrev pub is_given : Option ℕ → Bool
is_given none = false
is_given (some n) = true

abbrev pub get_or_else : Option ℕ → ℕ → ℕ
get_or_else none d = d
get_or_else (some n) d = n

-- The checks after the batch's size is known.
unfoldable pub shard_layout : ℕ → Option ℕ → Bool → ℕ → Result BatchError Layout
shard_layout shards batch_size_arg allow_uneven_shards total = do
  let batch_size = get_or_else batch_size_arg total
  raise_if (batch_size == 0) zero_division
  raise_if (not (total % batch_size == 0)) not_multiple_of_batch_size
  raise_if (shards == 0) zero_division
  raise_if (not allow_uneven_shards && not (batch_size % shards == 0)) not_multiple_of_shards
  ok (record {
    total_batch_size = total;
    batch_size = batch_size;
    num_chunks = total / batch_size;
    shard_size =
        if allow_uneven_shards then (batch_size + shards - 1) / shards else batch_size / shards;
  })

-- `(shard_start, shard_end)` of one chunk, capped for uneven shards
abbrev pub shard_range : Layout → Bool → ℕ → ℕ → ℕ × ℕ
shard_range l uneven shard_idx chunk_idx =
    let start = chunk_idx * l.batch_size + shard_idx * l.shard_size in
    let end = chunk_idx * l.batch_size + (shard_idx + 1) * l.shard_size in
    if uneven then (min start l.total_batch_size, min end l.total_batch_size) else (start, end)

-- `if shard_start < shard_end: shard_ranges.append(...)`
abbrev pub add_range : ℕ × ℕ → List (ℕ × ℕ) → List (ℕ × ℕ)
add_range (start, end) ranges = if ltb start end then (start, end) ∷ ranges else ranges

-- The ranges for the chunks from `chunk_idx` on, `count` of them.
unfoldable pub shard_ranges : Layout → Bool → ℕ → ℕ → ℕ → List (ℕ × ℕ)
shard_ranges l uneven shard_idx chunk_idx zero = []
shard_ranges l uneven shard_idx chunk_idx (suc count) =
    add_range (shard_range l uneven shard_idx chunk_idx)
      (shard_ranges l uneven shard_idx (suc chunk_idx) count)

-- The rows of the ranges, one range after the other.
unfoldable pub rows_of_ranges {ℓ} : {A : Type ℓ} → List (ℕ × ℕ) → List A → List A
rows_of_ranges [] v = []
rows_of_ranges ((start, end) ∷ ranges) v = slice_rows start end v ++ rows_of_ranges ranges v

unfoldable pub shard_rows {ℓ} : {A : Type ℓ} → Layout → Bool → ℕ → List A → List A
unfolding shard_ranges rows_of_ranges
shard_rows l uneven shard_idx v = rows_of_ranges (shard_ranges l uneven shard_idx 0 l.num_chunks) v

-- The shards from `shard_idx` on, `count` of them.
unfoldable pub shards_from {ℓ} : {A : Type ℓ} → Layout → Bool → ℕ → ℕ → Columns A → List (Columns A)
unfolding shard_rows
shards_from l uneven shard_idx zero columns = []
shards_from l uneven shard_idx (suc count) columns =
    map (on_rows (shard_rows l uneven shard_idx)) columns
    ∷ shards_from l uneven (suc shard_idx) count columns

unfoldable pub shard_by_batch_size {ℓ} :
    {A : Type ℓ} → ℕ → Option ℕ → Bool → Columns A → Result BatchError (List (Columns A))
unfolding common_size shard_layout shards_from
shard_by_batch_size shards batch_size allow_uneven_shards columns = do
  raise_if (allow_uneven_shards && is_given batch_size) batch_size_given
  total ← common_size columns
  l ← shard_layout shards batch_size allow_uneven_shards total
  ok (shards_from l allow_uneven_shards 0 shards columns)
