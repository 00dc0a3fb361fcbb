-- ===== src/Sharding/Dynamic.antt =====
-- `shard_by_batch_size` with dynamic batching: the order of the rows, and the microbatches.
pub mod Order
pub mod Budget
use nemo_rl_xtoken.Base.{
  ℕ, zero, suc, ◌+◌, ◌-◌, ◌*◌, ◌/◌, min, max, ◌≡◌, Option, Bool, true, false, List, [], ◌∷◌, ◌++◌,
  map, Result, ok, err, ◌>>=◌, ◌>>◌, raise_if, length, get_or, is_empty, not, ◌&&◌, range_from, ltb,
  leb, ◌==◌, if◌then◌else◌, sort_by, flatten,
}
use nemo_rl_xtoken.Sharding.Batch.{
  BatchError, batch_size_given, zero_division, too_many_tokens, index_error, Columns, on_rows,
  common_size, slice_rows, select_rows,
}
use nemo_rl_xtoken.Sharding.Plain.{is_given, Layout, shard_layout, shard_rows, shards_from}

-- `key=lambda i: chunk_seqlens[i]`
abbrev pub by_length : List ℕ → ℕ → ℕ → Bool
by_length seqlens i j = leb (get_or seqlens i 0) (get_or seqlens j 0)

-- `indices[i::shards]`: every element whose position is `i` modulo `shards`; `skip` elements go
-- by before the next one is taken.
unfoldable pub every_nth {ℓ} : {A : Type ℓ} → ℕ → ℕ → List A → List A
every_nth skip shards [] = []
every_nth zero shards (x ∷ xs) = x ∷ every_nth (shards - 1) shards xs
every_nth (suc skip) shards (x ∷ xs) = every_nth skip shards xs

-- The strides from `i` on, `count` of them.
unfoldable pub strides {ℓ} : {A : Type ℓ} → ℕ → ℕ → ℕ → List A → List A
unfolding every_nth
strides i zero shards indices = []
strides i (suc count) shards indices =
    every_nth i shards indices ++ strides (suc i) count shards indices

-- One chunk's sorted and strided indices.
unfoldable pub chunk_order : ℕ → ℕ → ℕ → List ℕ → List ℕ
unfolding sort_by strides
chunk_order batch_size shards chunk_start chunk_seqlens =
    strides 0 shards shards
      (map (λ i. i + chunk_start) (sort_by (by_length chunk_seqlens) (range_from 0 batch_size)))

-- One microbatch: its first and its last index, exclusive, and its padded length.
pub record MicroBatch : Type 0 where
  pub first : ℕ
  pub last : ℕ
  pub seqlen : ℕ

-- The loop's variables: the microbatches that are done, the current one, and
-- `max_seqlen_this_mb`. The source keeps the current one at the end of its two lists.
pub record Batching : Type 0 where
  pub done : List MicroBatch
  pub current : MicroBatch
  pub max_seqlen_this_mb : ℕ

abbrev pub round_up : ℕ → ℕ → ℕ
round_up n multiple = (n + multiple - 1) / multiple * multiple

-- The largest length at one position over all shards.
unfoldable pub max_over_shards : List ℕ → ℕ
max_over_shards [] = 0
max_over_shards (n ∷ ns) = max n (max_over_shards ns)

-- What a position costs: the largest length, padded, but never above the input's width.
unfoldable pub padded_length : ℕ → ℕ → List ℕ → ℕ
unfolding max_over_shards
padded_length sequence_length_round width seqlens =
    min (round_up (max_over_shards seqlens) sequence_length_round) width

-- One round of the loop, for position `i` of padded length `len`.
unfoldable pub add_position : ℕ → ℕ → ℕ → Batching → Result BatchError Batching
add_position max_tokens i len s =
    let longest = max s.max_seqlen_this_mb len in
    let curr_mbs_size = s.current.last - s.current.first + 1 in
    do
      raise_if (ltb max_tokens len) too_many_tokens
      ok (
          if leb (curr_mbs_size * longest) max_tokens
          then record {
            done = s.done;
            current = record {
              first = s.current.first;
              last = s.current.last + 1;
              seqlen = longest;
            };
            max_seqlen_this_mb = longest;
          }
          else record {
            done = s.done ++ s.current ∷ [];
            current = record { first = i; last = i + 1; seqlen = len };
            max_seqlen_this_mb = len;
          })

-- The positions from `i` on, with the padded length of each.
unfoldable pub add_positions : ℕ → ℕ → List ℕ → Batching → Result BatchError Batching
unfolding add_position
add_positions max_tokens i [] s = ok s
add_positions max_tokens i (len ∷ lens) s =
    add_position max_tokens i len s >>= add_positions max_tokens (suc i) lens

abbrev pub no_positions : Batching
no_positions = record {
  done = [];
  current = record { first = 0; last = 0; seqlen = 0 };
  max_seqlen_this_mb = 0;
}

-- The microbatches of one chunk; each entry of `positions` has one length for each shard. The
-- rounding divides by zero at the first position, if there is one.
unfoldable pub micro_batches : ℕ → ℕ → ℕ → List (List ℕ) → Result BatchError (List MicroBatch)
unfolding padded_length add_positions
micro_batches max_tokens sequence_length_round width positions = do
  raise_if (sequence_length_round == 0 && not (is_empty positions)) zero_division
  s ←
      add_positions max_tokens 0 (map (padded_length sequence_length_round width) positions)
        no_positions
  ok (s.done ++ s.current ∷ [])

-- `batch_sorted_indices`: the chunks from `chunk_idx` on, `count` of them.
unfoldable pub batch_order : ℕ → ℕ → List ℕ → ℕ → ℕ → List ℕ
unfolding chunk_order
batch_order batch_size shards seqlens chunk_idx zero = []
batch_order batch_size shards seqlens chunk_idx (suc count) =
    chunk_order batch_size shards (chunk_idx * batch_size)
      (slice_rows (chunk_idx * batch_size) ((chunk_idx + 1) * batch_size) seqlens)
    ++ batch_order batch_size shards seqlens (suc chunk_idx) count

-- The lengths at one position of a chunk, one for each shard.
abbrev pub lengths_at : List (List ℕ) → ℕ → List ℕ
lengths_at shard_lengths position = map (λ ls. get_or ls position 0) shard_lengths

-- The length of the shortest shard, but at most `bound`.
abbrev pub shortest : ℕ → List (List ℕ) → ℕ
shortest bound [] = bound
shortest bound (ls ∷ shard_lengths) = min (length ls) (shortest bound shard_lengths)

-- The microbatches of the chunks from `chunk_idx` on, `count` of them. A shard that is too short,
-- as the last one may be with uneven shards, raises IndexError at the first position it lacks.
unfoldable pub all_micro_batches :
    ℕ → ℕ → ℕ → List (List ℕ) → ℕ → ℕ → ℕ → Result BatchError (List (List MicroBatch))
unfolding micro_batches
all_micro_batches max_tokens multiple width shard_lengths shard_size chunk_idx zero = ok []
all_micro_batches max_tokens multiple width shard_lengths shard_size chunk_idx (suc count) =
    let start = chunk_idx * shard_size in
    let present = shortest ((chunk_idx + 1) * shard_size) shard_lengths - start in
    do
      ms ←
          micro_batches max_tokens multiple width
            (map (lengths_at shard_lengths) (range_from start present))
      raise_if (ltb present shard_size) index_error
      rest ←
          all_micro_batches max_tokens multiple width shard_lengths shard_size (suc chunk_idx) count
      ok (ms ∷ rest)

-- `dynamic_batching_args` with what the call reads of the batch under its keys.
pub record DynamicBatching : Type 0 where
  pub max_tokens_per_microbatch : ℕ
  pub sequence_length_round : ℕ
  pub input_width : ℕ
  pub input_lengths : List ℕ

pub record DynamicShards {ℓ} (A : Type ℓ) : Type ℓ where
  pub shards : List (Columns A)
  pub batches : List (List MicroBatch)
  pub batch_sorted_indices : List ℕ

-- The lengths of each shard's rows, in the new order.
unfoldable pub lengths_of_shards : Layout → Bool → ℕ → ℕ → List ℕ → List (List ℕ)
unfolding shard_rows
lengths_of_shards l uneven shard_idx zero lengths = []
lengths_of_shards l uneven shard_idx (suc count) lengths =
    shard_rows l uneven shard_idx lengths ∷ lengths_of_shards l uneven (suc shard_idx) count lengths

-- `shard_by_batch_size` with `dynamic_batching_args`; `default` is the row of an index that is out
-- of range.
unfoldable pub shard_dynamic :
    {A : Type 0}
    → A
    → DynamicBatching
    → ℕ
    → Option ℕ
    → Bool
    → Columns A
    → Result BatchError (DynamicShards A)
unfolding common_size shard_layout batch_order shards_from lengths_of_shards all_micro_batches
shard_dynamic default args shards batch_size allow_uneven_shards columns = do
  raise_if (allow_uneven_shards && is_given batch_size) batch_size_given
  total ← common_size columns
  l ← shard_layout shards batch_size allow_uneven_shards total
  let indices = batch_order l.batch_size shards args.input_lengths 0 l.num_chunks
  batches ←
      all_micro_batches args.max_tokens_per_microbatch args.sequence_length_round args.input_width
        (lengths_of_shards l allow_uneven_shards 0 shards
          (select_rows 0 indices args.input_lengths))
        l.shard_size 0 l.num_chunks
  ok (record {
    shards =
        shards_from l allow_uneven_shards 0 shards
          (map (on_rows (select_rows default indices)) columns);
    batches = batches;
    batch_sorted_indices = indices;
  })
