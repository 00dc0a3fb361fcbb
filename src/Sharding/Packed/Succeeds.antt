-- ===== src/Sharding/Packed/Succeeds.antt =====
-- Once the bins are packed, sharding with sequence packing succeeds, and the shards are level.
use mathlib.Core.Path.{subst}
use native.Mathlib.Nat.{div-add-mod}
use nemo_rl_xtoken.Base.{
  ◌&&◌, false, ℕ, zero, suc, ◌+◌, ◌*◌, ◌/◌, ◌%◌, ◌<◌, ◌≤◌, ◌≡◌, refl, sym, ap, Option, some, Bool,
  true, List, [], ◌∷◌, map, arith, ok, >>=-eq-ok, ok-injective, raise_if-passes, length,
  length-replicate, replicate, All, is_empty,
}
use nemo_rl_xtoken.Base.Int.{pos}
use nemo_rl_xtoken.Packing.Packer.{
  given_below, bad_min_bin_count, bad_bin_count_multiple, SequencePacker, new_packer,
}
use nemo_rl_xtoken.Packing.FirstFit.{Shuffle}
use nemo_rl_xtoken.Packing.Pack.{AlgorithmChoice, chosen, get_packer, pack}
use nemo_rl_xtoken.Packing.Pack.Bins.{pack-IsAccepted}
use nemo_rl_xtoken.Sharding.Batch.{Columns, common_size, slice_rows}
use nemo_rl_xtoken.Sharding.Plain.{is_given, Layout, shard_layout}
use nemo_rl_xtoken.Sharding.Packed.{
  or_packing, or_batch, padded_seqlens, SequencePacking, pack_chunks, PackedShard, PackedSlice,
  empty_packed, batch_sorted_indices, from_batches, aggregate, shard_packed,
}
use nemo_rl_xtoken.Sharding.Packed.Rows.{or_packing-ok}
use nemo_rl_xtoken.Sharding.Packed.Glued.{shard_layout-size}
use nemo_rl_xtoken.Sharding.Packed.Even.{IsLevel, Filled, Rounds, deal_chunks_total}

from_batches_total :
    {A : Type 0} (batches : List (Columns A))
    → 1 ≤ length batches
    → (stacked : Columns A) × (from_batches batches ≡ ok stacked)
from_batches_total [] h = absurd (omega arith)
from_batches_total (columns ∷ batches) h = (_, refl)

module _ {A : Type 0} where
  aggregate_total :
      (counts : List ℕ) (sharded : List (PackedShard A))
      → All (IsLevel counts 0) sharded
      → All Filled sharded
      → (slices : List (PackedSlice A)) × (aggregate sharded ≡ ok slices)
        × All (λ s. map length s.micro_batch_indices ≡ counts) slices
  unfolding aggregate
  aggregate_total counts [] levels filled = ([], refl, tt)
  aggregate_total counts (s ∷ sharded) levels filled =
      let (stacked, s_ran) = from_batches_total s.data_of_bins filled.0 in
      let (slices, ran, even) = aggregate_total counts sharded levels.1 filled.1 in
      (
        record {
          columns = stacked;
          micro_batch_indices = s.micro_indices;
          micro_batch_lengths = s.micro_lengths;
          elem_counts_per_gb = s.elem_counts;
        }
            ∷ slices,
        rw (s_ran, ran) refl,
        (levels.0.finished, even),
      )

get_packer-counts :
    (choice : AlgorithmChoice) (cap n : ℕ) (packer : SequencePacker)
    → get_packer choice cap (some (pos n)) (some (pos n)) ≡ ok packer
    → (packer.min_bin_count ≡ some n) × (packer.bin_count_multiple ≡ some n)
unfolding get_packer new_packer
get_packer-counts choice cap n packer h =
    let (found, f_ran, h1) = >>=-eq-ok (chosen choice) _ h in
    let (least, h2) = raise_if-passes (given_below (some (pos n)) 0) bad_min_bin_count _ h1 in
    let (multiple, h3) =
      raise_if-passes (given_below (some (pos n)) 1) bad_bin_count_multiple _ h2 in
    let made = ok-injective (sym h3) in
    (
      ap (λ (q : SequencePacker). q.min_bin_count) made,
      ap (λ (q : SequencePacker). q.bin_count_multiple) made,
    )

quotient_pos : (q n l : ℕ) → q * n ≡ l → n ≤ l → 0 < n → 1 ≤ q
quotient_pos zero n l e h p = omega arith
quotient_pos (suc q) n l e h p = omega arith

-- The numbers of microbatches, chunk by chunk.
abbrev pub shares : ℕ → List (List (List ℕ)) → List ℕ
shares n chunks = map (λ bins. length bins / n) chunks

module _ (random : ℕ → Shuffle) (packer : SequencePacker) (pad batch_size : ℕ) (lens : List ℕ)
    (n : ℕ) (p : 0 < n) (least : packer.min_bin_count ≡ some n)
    (multiple : packer.bin_count_multiple ≡ some n) where
  pack_chunks-Rounds :
      (chunk_idx count : ℕ) (chunks : List (List (List ℕ)))
      → pack_chunks random packer pad batch_size lens chunk_idx count ≡ ok chunks
      → Rounds n chunks (shares n chunks) × (length chunks ≡ count)
  unfolding pack_chunks
  pack_chunks-Rounds chunk_idx zero chunks ran =
      subst (λ cs. Rounds n cs (shares n cs) × (length cs ≡ 0)) (ok-injective ran) (tt, refl)
  pack_chunks-Rounds chunk_idx (suc count) chunks ran =
      let chunk = slice_rows (chunk_idx * batch_size) ((chunk_idx + 1) * batch_size) lens in
      let (padded, p_ran, after_padded) = >>=-eq-ok (or_batch (padded_seqlens pad chunk)) _ ran in
      let (bins, b_ran, after_bins) =
        >>=-eq-ok (or_packing (pack (random chunk_idx) packer padded)) _ after_padded in
      let (rest, rest_ran, end) =
        >>=-eq-ok (pack_chunks random packer pad batch_size lens (suc chunk_idx) count) _
          after_bins in
      let accepted =
        pack-IsAccepted (random chunk_idx) packer padded bins
          (or_packing-ok (pack (random chunk_idx) packer padded) b_ran) in
      let ih = pack_chunks-Rounds (suc chunk_idx) count rest rest_ran in
      let whole = exact (length bins) (accepted.multiple n multiple (omega (arith, p))) in
      subst (λ cs. Rounds n cs (shares n cs) × (length cs ≡ suc count)) (ok-injective end)
        (
          (
            quotient_pos (length bins / n) n (length bins) whole (accepted.minimum n least) p,
            sym whole,
            ih.0,
          ),
          omega (arith, ih.1),
        )
    where
      exact : (l : ℕ) → l % n ≡ 0 → l / n * n ≡ l
      exact l e = omega (arith, div-add-mod l n, e)

all_empty-IsLevel : (A : Type 0) (n : ℕ) → All (IsLevel [] 0) (replicate n (empty_packed {A = A}))
all_empty-IsLevel A zero = tt
all_empty-IsLevel A (suc n) =
    (record { finished = refl; unfinished = refl; stored = omega arith }, all_empty-IsLevel A n)

module _ {A : Type 0} where
  -- Where no batch size is given with uneven shards, the batch has a common size, the checks of the layout pass with at least one chunk, the
  -- packer can be made and packs every chunk, sharding with sequence packing returns the shards:
  -- no shard is left without a bin. And every shard gets equally many microbatches in each chunk,
  -- the number of the chunk's bins divided by that of the shards, so that the data-parallel ranks
  -- take equally many steps.
  pub shard_packed-even :
      (default : A) (random : ℕ → Shuffle) (args : SequencePacking) (shards : ℕ)
      (batch_size : Option ℕ) (allow_uneven_shards : Bool) (columns : Columns A) (n : ℕ)
      (l : Layout) (packer : SequencePacker) (chunks : List (List (List ℕ)))
      → (allow_uneven_shards && is_given batch_size) ≡ false
      → common_size columns ≡ ok n
      → shard_layout shards batch_size allow_uneven_shards n ≡ ok l
      → 0 < l.num_chunks
      → get_packer args.algorithm args.max_tokens_per_microbatch
          (some (pos shards))
          (some (pos shards))
        ≡ ok packer
      → pack_chunks random packer args.sequence_length_pad_multiple l.batch_size args.input_lengths
          0 l.num_chunks
        ≡ ok chunks
      → (slices : List (PackedSlice A)) × (indices : List ℕ) × (shard_packed default random args
            shards batch_size allow_uneven_shards columns
          ≡ ok (slices, indices))
        × All (λ s. map length s.micro_batch_indices ≡ shares shards chunks) slices
  unfolding shard_packed
  shard_packed-even default random args shards batch_size uneven columns n l packer chunks
        none_given sized laid_out some_chunks made packed =
      let (some_shards, whole) = shard_layout-size shards batch_size uneven n l laid_out in
      let (least, multiple) =
        get_packer-counts args.algorithm args.max_tokens_per_microbatch shards packer made in
      let (rounds, number) =
        pack_chunks-Rounds random packer args.sequence_length_pad_multiple l.batch_size
          args.input_lengths shards some_shards least multiple 0 l.num_chunks chunks packed in
      let (dealt, d_ran, levels, filled) =
        deal_chunks_total default columns args.sequence_length_pad_multiple shards
          args.input_lengths l.batch_size 0 chunks (shares shards chunks) []
          (replicate shards empty_packed) rounds (length-replicate shards empty_packed)
          (all_empty-IsLevel A shards)
          (λ none. absurd (not_none chunks none (omega (arith, number)))) in
      let (slices, s_ran, even) = aggregate_total (shares shards chunks) dealt levels filled in
      (
        slices,
        batch_sorted_indices dealt,
        rw (none_given, sized, laid_out, made, packed, d_ran, s_ran) refl,
        even,
      )
    where
      not_none : (cs : List (List (List ℕ))) → is_empty cs ≡ true → 0 < length cs → ⊥
      not_none [] e h = omega arith
      not_none (c ∷ cs) e h = cc
