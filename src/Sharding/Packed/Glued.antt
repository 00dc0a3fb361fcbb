-- ===== src/Sharding/Packed/Glued.antt =====
-- The packed shards, one after the other, are the batch in another order, which can be undone.
use mathlib.Core.Path.{subst}
use native.Mathlib.Nat.{div-add-mod}
use nemo_rl_xtoken.Base.{
  raise_if, ℕ, zero, suc, ◌*◌, ◌/◌, ◌%◌, ◌<◌, ◌≡◌, refl, sym, ap, ◌∙◌, Bool, false, some, Option,
  List, [], map, arith, ok, >>=-eq-ok, ok-injective, raise_if-passes, length, length-replicate,
  replicate, total, total-flatten, total-map, Same, range_from, flatten, All, ==→eq, ◌==◌, not,
  ◌&&◌,
}
use nemo_rl_xtoken.Base.Int.{pos}
use nemo_rl_xtoken.Packing.FirstFit.{Shuffle}
use nemo_rl_xtoken.Packing.Packer.{SequencePacker}
use nemo_rl_xtoken.Packing.Pack.{get_packer}
use nemo_rl_xtoken.Sharding.Batch.{
  batch_size_given, zero_division, not_multiple_of_batch_size, not_multiple_of_shards, Columns,
  common_size, reorder_data,
}
use nemo_rl_xtoken.Sharding.Batch.Reorder.{reorder_data-select}
use nemo_rl_xtoken.Sharding.Plain.{is_given, Layout, shard_layout, get_or_else}
use nemo_rl_xtoken.Sharding.Plain.Rows.{positive}
use nemo_rl_xtoken.Sharding.Packed.{
  or_packing, or_batch, SequencePacking, pack_chunks, PackedShard, PackedSlice, empty_packed,
  select_indices, deal_chunks, from_batches, aggregate, batch_sorted_indices, shard_packed,
}
use nemo_rl_xtoken.Sharding.Packed.Rows.{
  Holds, pack_chunks-Holds, held, deal_chunks-held, or_packing-ok, or_batch-ok,
}
use nemo_rl_xtoken.Sharding.Packed.Slices.{
  Own, deal_chunks-Own, from_batches-select, aggregate-select,
}

pub shard_layout-size :
    (shards : ℕ) (batch_size : Option ℕ) (uneven : Bool) (n : ℕ) (l : Layout)
    → shard_layout shards batch_size uneven n ≡ ok l
    → (0 < shards) × (l.num_chunks * l.batch_size ≡ n)
unfolding shard_layout
shard_layout-size shards batch_size uneven n l h =
    let b = get_or_else batch_size n in
    let (nonzero, h2) = raise_if-passes (b == 0) zero_division _ h in
    let (multiple, h3) = raise_if-passes (not (n % b == 0)) not_multiple_of_batch_size _ h2 in
    let (some_shards, h4) = raise_if-passes (shards == 0) zero_division _ h3 in
    let (even, h5) =
      raise_if-passes (not uneven && not (b % shards == 0)) not_multiple_of_shards _ h4 in
    let made = ok-injective h5 in
    (
      positive shards some_shards,
      sym (ap (λ (k : Layout). k.num_chunks * k.batch_size) made) ∙ whole b multiple,
    )
  where
    whole : (b : ℕ) → not (n % b == 0) ≡ false → n / b * b ≡ n
    whole b e = omega (arith, div-add-mod n b, ==→eq (n % b) 0 (ground arith))

module _ (A : Type 0) where
  held-empty : (w : ℕ → ℕ) (n : ℕ) → held {A = A} w (replicate n empty_packed) ≡ 0
  held-empty w zero = refl
  held-empty w (suc n) = omega (arith, held-empty w n)

module _ {A : Type 0} where
  All-Own-empty :
      (default : A) (columns : Columns A) (n : ℕ)
      → All (Own default columns) (replicate n empty_packed)
  unfolding flatten
  All-Own-empty default columns zero = tt
  All-Own-empty default columns (suc n) = (([], refl, refl), All-Own-empty default columns n)

  total-batch_sorted_indices :
      (w : ℕ → ℕ) (sharded : List (PackedShard A))
      → total w (batch_sorted_indices sharded) ≡ held w sharded
  total-batch_sorted_indices w sharded =
      total-flatten w (map (λ s. s.global_indices) sharded)
      ∙ total-map (total w) (λ s. s.global_indices) sharded

  -- The chunks' bins, dealt to the shards, hold each index of the batch once.
  deal_chunks-Same :
      (default : A) (columns : Columns A) (pad : ℕ) (lens : List ℕ) (shards batch_size count : ℕ)
      (chunks : List (List (List ℕ))) (dealt : List (PackedShard A))
      → 0 < shards
      → All (Holds batch_size) chunks
      → length chunks ≡ count
      → deal_chunks default columns pad lens shards batch_size 0 chunks
          (replicate shards empty_packed)
        ≡ ok dealt
      → Same (batch_sorted_indices dealt) (range_from 0 (count * batch_size))
  deal_chunks-Same default columns pad lens zero batch_size count chunks dealt p h e ran w =
      absurd (omega arith)
  deal_chunks-Same default columns pad lens (suc n) batch_size count chunks dealt p h e ran w =
      total-batch_sorted_indices w dealt
      ∙ deal_chunks-held w default columns pad lens n batch_size 0 chunks
          (replicate (suc n) empty_packed) dealt (length-replicate (suc n) empty_packed) h ran
      ∙ omega (
        arith,
        held-empty A w (suc n),
        ap (λ j. total w (range_from j (length chunks * batch_size))) start,
        ap (λ j. total w (range_from 0 (j * batch_size))) e,
      )
    where
      start : 0 * batch_size ≡ 0
      start = omega arith

  -- What the steps of a call that succeeded gave.
  pub record Steps (default : A) (random : ℕ → Shuffle) (args : SequencePacking) (shards : ℕ)
      (batch_size : Option ℕ) (uneven : Bool) (columns : Columns A) (slices : List (PackedSlice A))
      (indices : List ℕ) : Type 0 where
    pub n : ℕ
    pub layout : Layout
    pub packer : SequencePacker
    pub chunks : List (List (List ℕ))
    pub dealt : List (PackedShard A)
    pub sized : common_size columns ≡ ok n
    pub laid_out : shard_layout shards batch_size uneven n ≡ ok layout
    pub made :
        get_packer args.algorithm args.max_tokens_per_microbatch
          (some (pos shards))
          (some (pos shards))
        ≡ ok packer
    pub packed :
        pack_chunks random packer args.sequence_length_pad_multiple layout.batch_size
          args.input_lengths 0 layout.num_chunks
        ≡ ok chunks
    pub given :
        deal_chunks default columns args.sequence_length_pad_multiple args.input_lengths shards
          layout.batch_size 0 chunks
          (replicate shards empty_packed)
        ≡ ok dealt
    pub sliced : aggregate dealt ≡ ok slices
    pub sorted : batch_sorted_indices dealt ≡ indices

  module _ (default : A) (random : ℕ → Shuffle) (args : SequencePacking) (shards : ℕ)
      (batch_size : Option ℕ) (uneven : Bool) (columns : Columns A) (slices : List (PackedSlice A))
      (indices : List ℕ) where
    pub shard_packed-Steps :
        shard_packed default random args shards batch_size uneven columns ≡ ok (slices, indices)
        → Steps default random args shards batch_size uneven columns slices indices
    unfolding shard_packed
    shard_packed-Steps ran =
        let (none_given, given_ran, r0) =
          >>=-eq-ok (or_batch (raise_if (uneven && is_given batch_size) batch_size_given)) _ ran in
        let (n, n_ran, r1) = >>=-eq-ok (or_batch (common_size columns)) _ r0 in
        let (l, l_ran, r2) = >>=-eq-ok (or_batch (shard_layout shards batch_size uneven n)) _ r1 in
        let (packer, p_ran, r3) =
          >>=-eq-ok
            (or_packing (
              get_packer args.algorithm args.max_tokens_per_microbatch (some (pos shards))
                (some (pos shards))))
            _ r2 in
        let (chunks, c_ran, r4) =
          >>=-eq-ok
            (pack_chunks random packer args.sequence_length_pad_multiple l.batch_size
              args.input_lengths 0 l.num_chunks)
            _ r3 in
        let (dealt, d_ran, r5) =
          >>=-eq-ok
            (or_batch (
              deal_chunks default columns args.sequence_length_pad_multiple args.input_lengths
                shards l.batch_size 0 chunks (replicate shards empty_packed)))
            _ r4 in
        let (slices', s_ran, end) = >>=-eq-ok (or_batch (aggregate dealt)) _ r5 in
        record {
          n = n;
          layout = l;
          packer = packer;
          chunks = chunks;
          dealt = dealt;
          sized = or_batch-ok (common_size columns) n_ran;
          laid_out = or_batch-ok (shard_layout shards batch_size uneven n) l_ran;
          made = or_packing-ok _ p_ran;
          packed = c_ran;
          given = or_batch-ok _ d_ran;
          sliced = or_batch-ok (aggregate dealt) s_ran ∙ ap (λ r. ok r.0) (ok-injective end);
          sorted = ap (λ r. r.1) (ok-injective end);
        }

  -- Sharding with sequence packing loses no row. Let `shard_by_batch_size` with
  -- `sequence_packing_args` return, for a batch whose column of lengths is as long as the batch:
  -- with any algorithm and any shuffles, the shards put together in their order with `from_batches`
  -- are a batch that `reorder_data(batch_sorted_indices)` turns back into the original one.
  pub shard_packed-reorder_data :
      (default : A) (random : ℕ → Shuffle) (args : SequencePacking) (shards : ℕ)
      (batch_size : Option ℕ) (allow_uneven_shards : Bool) (columns glued : Columns A) (n : ℕ)
      (slices : List (PackedSlice A)) (indices : List ℕ)
      → common_size columns ≡ ok n
      → length args.input_lengths ≡ n
      → shard_packed default random args shards batch_size allow_uneven_shards columns
        ≡ ok (slices, indices)
      → from_batches (map (λ s. s.columns) slices) ≡ ok glued
      → reorder_data default indices glued ≡ ok columns
  shard_packed-reorder_data default random args shards batch_size uneven columns glued n slices
        indices sized lens_sized ran stacked =
      let (some_shards, whole) =
        shard_layout-size shards batch_size uneven s.n s.layout s.laid_out in
      let (holds, number) =
        pack_chunks-Holds random s.packer args.sequence_length_pad_multiple s.layout.batch_size
          args.input_lengths 0 s.layout.num_chunks s.chunks (omega (arith, lens_sized, same_n))
          s.packed in
      let rearranged =
        subst (λ is. Same is (range_from 0 (s.layout.num_chunks * s.layout.batch_size))) s.sorted
          (deal_chunks-Same default columns args.sequence_length_pad_multiple args.input_lengths
            shards s.layout.batch_size s.layout.num_chunks s.chunks s.dealt some_shards holds number
            s.given) in
      let own =
        deal_chunks-Own default columns args.sequence_length_pad_multiple shards s.layout.batch_size
          0 args.input_lengths s.chunks (replicate shards empty_packed) s.dealt s.given
          (All-Own-empty default columns shards) in
      let selected =
        from_batches-select default columns (map (λ s. s.global_indices) s.dealt) glued (
          ap from_batches (sym (aggregate-select default columns s.dealt slices s.sliced own))
          ∙ stacked)
        ∙ ap (select_indices default columns) s.sorted in
      ap (reorder_data default indices) selected
      ∙ reorder_data-select default indices n columns
          (subst (λ k. Same indices (range_from 0 k)) (whole ∙ same_n) rearranged) sized
    where
      s : Steps default random args shards batch_size uneven columns slices indices
      s = shard_packed-Steps default random args shards batch_size uneven columns slices indices ran

      same_n : s.n ≡ n
      same_n = ok-injective (sym s.sized ∙ sized)
