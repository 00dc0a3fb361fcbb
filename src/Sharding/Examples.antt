-- ===== src/Sharding/Examples.antt =====
-- Runs of the sharding functions on small batches, and the properties at such batches.
use nemo_rl_xtoken.Base.{
  ℕ, ◌≡◌, refl, true, false, none, some, List, [], ◌∷◌, map, arith, ok, err, range_from, Same,
  sort_by, All, length,
}
use nemo_rl_xtoken.Base.Text.{codes}
use nemo_rl_xtoken.Sharding.Batch.{
  not_multiple_of_microbatch_size, no_such_chunk, Columns, on_rows, select_rows, common_size, chunk,
  reorder_data,
}
use nemo_rl_xtoken.Sharding.Batch.Reorder.{reorder_data-select}
use nemo_rl_xtoken.Sharding.Plain.{Layout, shard_layout, shard_by_batch_size}
use nemo_rl_xtoken.Sharding.Plain.Rows.{glued, shard_layout-glued}
use nemo_rl_xtoken.Sharding.Dynamic.{
  MicroBatch, padded_length, micro_batches, batch_order, shard_dynamic,
}
use nemo_rl_xtoken.Sharding.Dynamic.Budget.{Covers, IsAffordable, micro_batches-IsAffordable}
use nemo_rl_xtoken.Sharding.Dynamic.Order.{reorder_data-batch_order}
use nemo_rl_xtoken.Sharding.Packed.{from_batches}
use nemo_rl_xtoken.Sharding.Microbatches.{make_microbatch_iterator}
use nemo_rl_xtoken.Sharding.Microbatches.Cover.{make_microbatch_iterator-from_batches}

abbrev problem_ids : Columns ℕ
problem_ids = (codes "problem_id", 1 ∷ 2 ∷ 3 ∷ 1 ∷ 2 ∷ 3 ∷ []) ∷ []

program : Unit {0}
unfolding shard_by_batch_size shard_dynamic reorder_data micro_batches batch_order sort_by
    common_size chunk make_microbatch_iterator
program = tt

three_shards :
    shard_by_batch_size 3 none false problem_ids
    ≡ ok (
        ((codes "problem_id", 1 ∷ 2 ∷ []) ∷ [])
        ∷ ((codes "problem_id", 3 ∷ 1 ∷ []) ∷ [])
        ∷ ((codes "problem_id", 2 ∷ 3 ∷ []) ∷ [])
        ∷ [])
unfolding program
three_shards = refl

-- The example of the docstring: the shards take the same rows of every chunk.
docstring_shards :
    shard_by_batch_size 3 (some 3) false problem_ids
    ≡ ok (
        ((codes "problem_id", 1 ∷ 1 ∷ []) ∷ [])
        ∷ ((codes "problem_id", 2 ∷ 2 ∷ []) ∷ [])
        ∷ ((codes "problem_id", 3 ∷ 3 ∷ []) ∷ [])
        ∷ [])
unfolding program
docstring_shards = refl

-- The second of four chunks of a batch of four is refused.
chunk_refused : chunk {A = ℕ} 1 4 ((codes "idx", 5 ∷ 6 ∷ 7 ∷ 8 ∷ []) ∷ []) ≡ err no_such_chunk
unfolding program
chunk_refused = refl

order_of_six : batch_order 3 3 (5 ∷ 1 ∷ 9 ∷ 2 ∷ 8 ∷ 7 ∷ []) 0 2 ≡ 1 ∷ 0 ∷ 2 ∷ 3 ∷ 5 ∷ 4 ∷ []
unfolding program
order_of_six = refl

reorder_data-batch_order_example :
    reorder_data 0
      (batch_order 3 3 (5 ∷ 1 ∷ 9 ∷ 2 ∷ 8 ∷ 7 ∷ []) 0 2)
      (map (on_rows (select_rows 0 (batch_order 3 3 (5 ∷ 1 ∷ 9 ∷ 2 ∷ 8 ∷ 7 ∷ []) 0 2))) problem_ids)
    ≡ ok problem_ids
unfolding program
reorder_data-batch_order_example =
    reorder_data-batch_order 0 3 2 2 (5 ∷ 1 ∷ 9 ∷ 2 ∷ 8 ∷ 7 ∷ []) problem_ids refl

five_rows : Layout
five_rows = record { total_batch_size = 5; batch_size = 5; num_chunks = 1; shard_size = 3 }

-- Two uneven shards of five rows.
shard_layout-glued_example :
    glued {A = ℕ} five_rows true 0 2 (1 ∷ 2 ∷ 3 ∷ 4 ∷ 5 ∷ []) ≡ 1 ∷ 2 ∷ 3 ∷ 4 ∷ 5 ∷ []
unfolding five_rows shard_layout
shard_layout-glued_example = shard_layout-glued 2 true (1 ∷ 2 ∷ 3 ∷ 4 ∷ 5 ∷ []) five_rows refl

-- The padded lengths are 4, 4, 8 and 4; two positions of length 4 fill a microbatch.
three_micro_batches : List MicroBatch
three_micro_batches =
    record { first = 0; last = 2; seqlen = 4 }
    ∷ record { first = 2; last = 3; seqlen = 8 }
    ∷ record { first = 3; last = 4; seqlen = 4 }
    ∷ []

abbrev two_shards : List (List ℕ)
two_shards = (1 ∷ 3 ∷ []) ∷ (4 ∷ 2 ∷ []) ∷ (5 ∷ 2 ∷ []) ∷ (2 ∷ 2 ∷ []) ∷ []

micro_batches-IsAffordable_example :
    Covers 0 three_micro_batches 4
    × All (IsAffordable 8 (map (padded_length 4 16) two_shards)) three_micro_batches
unfolding program three_micro_batches
micro_batches-IsAffordable_example =
    micro_batches-IsAffordable 8 4 16 two_shards three_micro_batches refl

-- The positions 2, 0, 1 are a rearrangement of 0, 1, 2.
rearranged : Same (2 ∷ 0 ∷ 1 ∷ []) (range_from 0 3)
rearranged w = omega arith

reorder_data-select_example :
    reorder_data {A = ℕ} 0 (2 ∷ 0 ∷ 1 ∷ []) ((codes "idx", 30 ∷ 10 ∷ 20 ∷ []) ∷ [])
    ≡ ok ((codes "idx", 10 ∷ 20 ∷ 30 ∷ []) ∷ [])
unfolding program
reorder_data-select_example =
    reorder_data-select 0 (2 ∷ 0 ∷ 1 ∷ []) 3 ((codes "idx", 10 ∷ 20 ∷ 30 ∷ []) ∷ []) rearranged refl

make_microbatch_iterator-from_batches_example :
    (microbatches : List (Columns ℕ)) × (make_microbatch_iterator 2 problem_ids ≡ ok microbatches)
    × (from_batches microbatches ≡ ok problem_ids)
    × (length microbatches ≡ 3)
unfolding program
make_microbatch_iterator-from_batches_example =
    make_microbatch_iterator-from_batches 2 3 problem_ids (omega arith) (omega arith) refl

-- Six rows are not microbatches of four.
uneven_microbatches : make_microbatch_iterator 4 problem_ids ≡ err not_multiple_of_microbatch_size
unfolding program
uneven_microbatches = refl
