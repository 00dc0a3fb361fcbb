-- ===== src/Sharding/Packed.antt =====
-- `shard_by_batch_size` with sequence packing: each chunk is packed into bins, and the bins are
-- dealt to the shards in turn. What the source keeps in a list of lists for each quantity, with the
-- shard as the first index, is here a record for each shard.
pub mod Rows
pub mod Slices
pub mod Glued
pub mod Deal
pub mod Even
pub mod Succeeds
mod Examples
use nemo_rl_xtoken.Base.{
  ℕ, zero, suc, ◌+◌, ◌*◌, ◌%◌, Bool, not, ◌&&◌, Option, none, some, List, [], ◌∷◌, ◌++◌, map,
  Result, ok, err, ◌>>=◌, ◌>>◌, raise_if, length, get_or, modify, replicate, is_empty, total,
  flatten, ◌==◌,
}
use nemo_rl_xtoken.Base.Int.{pos}
use nemo_rl_xtoken.Packing.Packer.{PackError, SequencePacker}
use nemo_rl_xtoken.Packing.FirstFit.{Shuffle}
use nemo_rl_xtoken.Packing.Pack.{AlgorithmChoice, get_packer, pack}
use nemo_rl_xtoken.Sharding.Batch.{
  BatchError, batch_size_given, zero_division, index_error, Columns, on_rows, common_size,
  slice_rows, select_rows,
}
use nemo_rl_xtoken.Sharding.Plain.{is_given, shard_layout}
use nemo_rl_xtoken.Sharding.Dynamic.{round_up}

-- The packer's errors and the batch's own.
pub data ShardError : Type 0 where
  packing : PackError → ShardError
  batch : BatchError → ShardError

abbrev pub or_packing : {A : Type 0} → Result PackError A → Result ShardError A
or_packing (ok a) = ok a
or_packing (err e) = err (packing e)

abbrev pub or_batch : {A : Type 0} → Result BatchError A → Result ShardError A
or_batch (ok a) = ok a
or_batch (err e) = err (batch e)

-- `sequence_packing_args` with what the call reads of the batch under its key.
pub record SequencePacking : Type 0 where
  pub algorithm : AlgorithmChoice
  pub max_tokens_per_microbatch : ℕ
  pub sequence_length_pad_multiple : ℕ
  pub input_lengths : List ℕ

-- `_get_padded_seqlen` of each length; the division fails on a multiple of 0.
abbrev pub padded_seqlens : ℕ → List ℕ → Result BatchError (List ℕ)
padded_seqlens pad_multiple seqlens =
    raise_if (pad_multiple == 0 && not (is_empty seqlens)) zero_division
    >> ok (map (λ n. round_up n pad_multiple) seqlens)

-- The bins of the chunks from `chunk_idx` on, `count` of them. Each call of the packer may shuffle
-- in its own way.
unfoldable pub pack_chunks :
    (ℕ → Shuffle)
    → SequencePacker
    → ℕ
    → ℕ
    → List ℕ
    → ℕ
    → ℕ
    → Result ShardError (List (List (List ℕ)))
unfolding pack
pack_chunks random packer pad_multiple batch_size lens chunk_idx zero = ok []
pack_chunks random packer pad_multiple batch_size lens chunk_idx (suc count) = do
  padded ← or_batch (
      padded_seqlens pad_multiple
        (slice_rows (chunk_idx * batch_size) ((chunk_idx + 1) * batch_size) lens))
  bins ← or_packing (pack (random chunk_idx) packer padded)
  rest ← pack_chunks random packer pad_multiple batch_size lens (suc chunk_idx) count
  ok (bins ∷ rest)

-- One shard: the selected rows of its bins, their indices in the batch, for each finished chunk the
-- microbatches, their lengths and the number of rows, and the microbatches of the current chunk.
pub record PackedShard (A : Type 0) : Type 0 where
  pub data_of_bins : List (Columns A)
  pub global_indices : List ℕ
  pub micro_indices : List (List (ℕ × ℕ))
  pub micro_lengths : List (List ℕ)
  pub elem_counts : List ℕ
  pub chunk_micro_indices : List (ℕ × ℕ)
  pub chunk_micro_lengths : List ℕ

abbrev pub empty_packed : {A : Type 0} → PackedShard A
empty_packed = record {
  data_of_bins = [];
  global_indices = [];
  micro_indices = [];
  micro_lengths = [];
  elem_counts = [];
  chunk_micro_indices = [];
  chunk_micro_lengths = [];
}

-- `[-1][1]`, and 0 for no microbatch
abbrev pub last_end : List (ℕ × ℕ) → ℕ
last_end [] = 0
last_end ((start, end) ∷ []) = end
last_end (m ∷ n ∷ ms) = last_end (n ∷ ms)

module _ {A : Type 0} where
  -- The end of a chunk. A shard without a bin raises IndexError.
  unfoldable pub close_chunk : List (PackedShard A) → Result BatchError (List (PackedShard A))
  close_chunk [] = ok []
  close_chunk (s ∷ sharded) = do
    raise_if (is_empty s.chunk_micro_indices) index_error
    rest ← close_chunk sharded
    ok (
        record s {
          micro_indices = s.micro_indices ++ s.chunk_micro_indices ∷ [];
          micro_lengths = s.micro_lengths ++ s.chunk_micro_lengths ∷ [];
          elem_counts = s.elem_counts ++ last_end s.chunk_micro_indices ∷ [];
          chunk_micro_indices = [];
          chunk_micro_lengths = [];
        }
        ∷ rest)

module _ {A : Type 0} (default : A) (columns : Columns A) where
  -- `select_indices`
  abbrev pub select_indices : List ℕ → Columns A
  select_indices indices = map (on_rows (select_rows default indices)) columns

  -- A bin is given to a shard.
  unfoldable pub add_bin : ℕ → List ℕ → ℕ → List ℕ → PackedShard A → PackedShard A
  add_bin pad_multiple lens chunk_start bin s =
      let global_bin_indices = map (λ i. i + chunk_start) bin in
      let start = last_end s.chunk_micro_indices in
      record s {
        data_of_bins = s.data_of_bins ++ select_indices global_bin_indices ∷ [];
        global_indices = s.global_indices ++ global_bin_indices;
        chunk_micro_indices = s.chunk_micro_indices ++ (start, start + length bin) ∷ [];
        chunk_micro_lengths =
            s.chunk_micro_lengths
            ++ total (λ i. round_up (get_or lens i 0) pad_multiple) global_bin_indices ∷ [];
      }

  -- The loop over a chunk's bins, from bin `bin_idx` on.
  unfoldable pub deal_bins :
      ℕ → List ℕ → ℕ → ℕ → ℕ → List (List ℕ) → List (PackedShard A) → List (PackedShard A)
  unfolding add_bin
  deal_bins pad_multiple lens shards chunk_start bin_idx [] sharded = sharded
  deal_bins pad_multiple lens shards chunk_start bin_idx (bin ∷ bins) sharded =
      deal_bins pad_multiple lens shards chunk_start (suc bin_idx) bins
        (modify (bin_idx % shards) (add_bin pad_multiple lens chunk_start bin) sharded)

  -- The loop over the chunks.
  unfoldable pub deal_chunks :
      ℕ
      → List ℕ
      → ℕ
      → ℕ
      → ℕ
      → List (List (List ℕ))
      → List (PackedShard A)
      → Result BatchError (List (PackedShard A))
  unfolding deal_bins close_chunk
  deal_chunks pad_multiple lens shards batch_size chunk_idx [] sharded = ok sharded
  deal_chunks pad_multiple lens shards batch_size chunk_idx (bins ∷ rest) sharded =
      close_chunk (deal_bins pad_multiple lens shards (chunk_idx * batch_size) 0 bins sharded)
      >>= deal_chunks pad_multiple lens shards batch_size (suc chunk_idx) rest

-- The rows of one batch after those of the other, column by column.
abbrev pub append_columns : {A : Type 0} → Columns A → Columns A → Columns A
append_columns [] more = []
append_columns (column ∷ columns) [] = []
append_columns ((k, v) ∷ columns) ((k', v') ∷ more) = (k, v ++ v') ∷ append_columns columns more

-- `from_batches`, on selections of one batch, which have the same keys in the same order. The
-- sort of the keys, the padding of the rows of a tensor to one width, and the flattening of rows
-- with three or more dimensions of their own are not modelled.
abbrev pub append_all : {A : Type 0} → Columns A → List (Columns A) → Columns A
append_all columns [] = columns
append_all columns (more ∷ batches) = append_all (append_columns columns more) batches

abbrev pub from_batches : {A : Type 0} → List (Columns A) → Result BatchError (Columns A)
from_batches [] = err index_error
from_batches (columns ∷ batches) = ok (append_all columns batches)

pub record PackedSlice (A : Type 0) : Type 0 where
  pub columns : Columns A
  pub micro_batch_indices : List (List (ℕ × ℕ))
  pub micro_batch_lengths : List (List ℕ)
  pub elem_counts_per_gb : List ℕ

unfoldable pub aggregate :
    {A : Type 0} → List (PackedShard A) → Result BatchError (List (PackedSlice A))
aggregate [] = ok []
aggregate (s ∷ sharded) = do
  columns ← from_batches s.data_of_bins
  rest ← aggregate sharded
  ok (
      record {
        columns = columns;
        micro_batch_indices = s.micro_indices;
        micro_batch_lengths = s.micro_lengths;
        elem_counts_per_gb = s.elem_counts;
      }
      ∷ rest)

abbrev pub batch_sorted_indices : {A : Type 0} → List (PackedShard A) → List ℕ
batch_sorted_indices sharded = flatten (map (λ s. s.global_indices) sharded)

-- `shard_by_batch_size` with `sequence_packing_args`: the shards, and `batch_sorted_indices`.
unfoldable pub shard_packed :
    {A : Type 0}
    → A
    → (ℕ → Shuffle)
    → SequencePacking
    → ℕ
    → Option ℕ
    → Bool
    → Columns A
    → Result ShardError (List (PackedSlice A) × List ℕ)
unfolding common_size shard_layout get_packer pack_chunks deal_chunks aggregate
shard_packed default random args shards batch_size allow_uneven_shards columns = do
  or_batch (raise_if (allow_uneven_shards && is_given batch_size) batch_size_given)
  n ← or_batch (common_size columns)
  l ← or_batch (shard_layout shards batch_size allow_uneven_shards n)
  packer ← or_packing (
      get_packer args.algorithm args.max_tokens_per_microbatch (some (pos shards))
        (some (pos shards)))
  bins ←
      pack_chunks random packer args.sequence_length_pad_multiple l.batch_size args.input_lengths 0
        l.num_chunks
  sharded ← or_batch (
      deal_chunks default columns args.sequence_length_pad_multiple args.input_lengths shards
        l.batch_size 0 bins (replicate shards empty_packed))
  slices ← or_batch (aggregate sharded)
  ok (slices, batch_sorted_indices sharded)
