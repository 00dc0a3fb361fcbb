-- ===== src/Sharding/Packed/Examples.antt =====
-- A run of sharding with sequence packing, and the properties at it.
use nemo_rl_xtoken.Base.{
  ℕ, ◌≡◌, refl, false, none, some, List, [], ◌∷◌, map, arith, ok, err, length, All, reverse,
  flatten,
}
use mathlib.Core.List.Permᴰ
use nemo_rl_xtoken.Base.Text.{codes}
use nemo_rl_xtoken.Packing.Packer.{concatenative, SequencePacker}
use nemo_rl_xtoken.Packing.FirstFit.{Shuffle}
use nemo_rl_xtoken.Packing.Adjust.{target_bin_count}
use nemo_rl_xtoken.Packing.Pack.{member}
use nemo_rl_xtoken.Sharding.Batch.{zero_division, Columns, common_size, reorder_data}
use nemo_rl_xtoken.Sharding.Packed.{batch, SequencePacking, PackedSlice, shard_packed}
use nemo_rl_xtoken.Sharding.Plain.{Layout}
use nemo_rl_xtoken.Sharding.Packed.Succeeds.{shard_packed-even}
use nemo_rl_xtoken.Sharding.Packed.Glued.{shard_packed-reorder_data}

program : Unit {0}
unfolding shard_packed target_bin_count common_size flatten
program = tt

-- A shuffle that turns the list round.
abbrev backwards : ℕ → Shuffle
backwards chunk = record { shuffle = reverse; shuffle-perm = λ xs. ∣ Permᴰ.reverse xs ∣₁ }

abbrev args : SequencePacking
args = record {
  algorithm = member concatenative;
  max_tokens_per_microbatch = 4;
  sequence_length_pad_multiple = 2;
  input_lengths = 3 ∷ 1 ∷ 2 ∷ 2 ∷ [];
}

abbrev ids : Columns ℕ
ids = (codes "id", 10 ∷ 11 ∷ 12 ∷ 13 ∷ []) ∷ []

-- Padded, the lengths are 4, 2, 2 and 2, for which three bins are enough; they become four, two for
-- each shard.
abbrev slices : List (PackedSlice ℕ)
slices =
    record {
      columns = (codes "id", 10 ∷ 13 ∷ []) ∷ [];
      micro_batch_indices = ((0, 1) ∷ (1, 2) ∷ []) ∷ [];
      micro_batch_lengths = (4 ∷ 2 ∷ []) ∷ [];
      elem_counts_per_gb = 2 ∷ [];
    }
    ∷ record {
      columns = (codes "id", 11 ∷ 12 ∷ []) ∷ [];
      micro_batch_indices = ((0, 1) ∷ (1, 2) ∷ []) ∷ [];
      micro_batch_lengths = (2 ∷ 2 ∷ []) ∷ [];
      elem_counts_per_gb = 2 ∷ [];
    }
    ∷ []

packed_ids : shard_packed 0 backwards args 2 none false ids ≡ ok (slices, 0 ∷ 3 ∷ 1 ∷ 2 ∷ [])
unfolding program
packed_ids = refl

-- A batch size of 0.
no_batch_size : shard_packed 0 backwards args 4 (some 0) false ids ≡ err (batch zero_division)
unfolding program
no_batch_size = refl

shard_packed-reorder_data_example :
    reorder_data 0 (0 ∷ 3 ∷ 1 ∷ 2 ∷ []) ((codes "id", 10 ∷ 13 ∷ 11 ∷ 12 ∷ []) ∷ []) ≡ ok ids
unfolding program
shard_packed-reorder_data_example =
    shard_packed-reorder_data 0 backwards args 2 none false ids
      ((codes "id", 10 ∷ 13 ∷ 11 ∷ 12 ∷ []) ∷ []) 4 slices (0 ∷ 3 ∷ 1 ∷ 2 ∷ []) refl refl packed_ids
      refl

-- Three bins for four rows, which the packer raises to four.
abbrev packer_of_two : SequencePacker
packer_of_two = record {
  algorithm = concatenative;
  bin_capacity = 4;
  min_bin_count = some 2;
  bin_count_multiple = some 2;
}

abbrev whole_batch : Layout
whole_batch = record { total_batch_size = 4; batch_size = 4; num_chunks = 1; shard_size = 2 }

abbrev bins_of_ids : List (List (List ℕ))
bins_of_ids = ((0 ∷ []) ∷ (1 ∷ []) ∷ (3 ∷ []) ∷ (2 ∷ []) ∷ []) ∷ []

shard_packed-even_example :
    (slices : List (PackedSlice ℕ)) × (indices : List ℕ) × (shard_packed 0 backwards args 2 none
        false ids
      ≡ ok (slices, indices))
    × All (λ s. map length s.micro_batch_indices ≡ 2 ∷ []) slices
unfolding program
shard_packed-even_example =
    shard_packed-even 0 backwards args 2 none false ids 4 whole_batch packer_of_two bins_of_ids refl
      refl refl (omega arith) refl refl
