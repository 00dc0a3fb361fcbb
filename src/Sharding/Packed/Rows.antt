-- ===== src/Sharding/Packed/Rows.antt =====
-- With sequence packing, too, the rows in the shards are those of the batch.
use mathlib.Core.Path.{subst}
use nemo_rl_xtoken.Base.{
  ℕ, zero, suc, ◌+◌, ◌-◌, ◌*◌, ◌%◌, ◌≤◌, ◌≡◌, refl, sym, ap, ◌∙◌, List, [], ◌∷◌, map, arith, Result,
  ok, err, >>=-eq-ok, ok-injective, raise_if-passes, length, length-modify, length-map, get_or,
  modify, is_empty, take, drop, total, total-append, total-map, total-modify, total-flatten,
  count-Same, count-range, range_from, flatten, All,
}
use native.Mathlib.Nat.{mod-lt}
use nemo_rl_xtoken.Packing.Packer.{SequencePacker, IsPacking}
use nemo_rl_xtoken.Packing.FirstFit.{Shuffle}
use nemo_rl_xtoken.Packing.Pack.{pack}
use nemo_rl_xtoken.Packing.Pack.Bins.{pack-IsPacking}
use nemo_rl_xtoken.Sharding.Batch.{Columns, slice_rows, zero_division, index_error}
use nemo_rl_xtoken.Sharding.Dynamic.{round_up}
use nemo_rl_xtoken.Sharding.Dynamic.Order.{total-shifted, total-range-add}
use nemo_rl_xtoken.Sharding.Packed.{
  or_packing, or_batch, padded_seqlens, pack_chunks, PackedShard, empty_packed, add_bin, deal_bins,
  close_chunk, deal_chunks,
}

-- A chunk's bins hold the indices of its rows.
abbrev pub Holds : ℕ → List (List ℕ) → Type 0
Holds batch_size bins = (w : ℕ → ℕ) → total (total w) bins ≡ total w (range_from 0 batch_size)

IsPacking-Holds :
    (cap : ℕ) (lens : List ℕ) (bins : List (List ℕ))
    → IsPacking cap lens bins
    → Holds (length lens) bins
IsPacking-Holds cap lens bins p w =
    sym (total-flatten w bins)
    ∙ count-Same (flatten bins) (range_from 0 (length lens))
        (λ i. p.placed i ∙ sym (count-range i (length lens))) w

length-take_all : {A : Type 0} (n : ℕ) (xs : List A) → n ≤ length xs → length (take n xs) ≡ n
length-take_all zero xs h = refl
length-take_all (suc n) [] h = absurd (omega arith)
length-take_all (suc n) (x ∷ xs) h = omega (arith, length-take_all n xs (omega arith))

length-drop : {A : Type 0} (n : ℕ) (xs : List A) → length (drop n xs) ≡ length xs - n
length-drop zero xs = omega arith
length-drop (suc n) [] = omega arith
length-drop (suc n) (x ∷ xs) = omega (arith, length-drop n xs)

length-slice_rows :
    {A : Type 0} (start end : ℕ) (xs : List A)
    → end ≤ length xs
    → length (slice_rows start end xs) ≡ end - start
length-slice_rows start end xs h =
    length-take_all (end - start) (drop start xs) (omega (arith, length-drop start xs))

padded_seqlens-length :
    (pad : ℕ) (seqlens padded : List ℕ)
    → padded_seqlens pad seqlens ≡ ok padded
    → length padded ≡ length seqlens
padded_seqlens-length pad seqlens padded h =
    sym (ap length (ok-injective (raise_if-passes _ zero_division _ h).1))
    ∙ length-map (λ n. round_up n pad) seqlens

pub or_packing-ok : {A : Type 0} (r : Result _ A) {a : A} → or_packing r ≡ ok a → r ≡ ok a
or_packing-ok (ok b) e = cc
or_packing-ok (err x) e = cc

pub or_batch-ok : {A : Type 0} (r : Result _ A) {a : A} → or_batch r ≡ ok a → r ≡ ok a
or_batch-ok (ok b) e = cc
or_batch-ok (err x) e = cc

module _ (random : ℕ → Shuffle) (packer : SequencePacker) (pad batch_size : ℕ) (lens : List ℕ) where
  pub pack_chunks-Holds :
      (chunk_idx count : ℕ) (chunks : List (List (List ℕ)))
      → (chunk_idx + count) * batch_size ≤ length lens
      → pack_chunks random packer pad batch_size lens chunk_idx count ≡ ok chunks
      → All (Holds batch_size) chunks × (length chunks ≡ count)
  unfolding pack_chunks
  pack_chunks-Holds chunk_idx zero chunks h ran =
      subst (λ cs. All (Holds batch_size) cs × (length cs ≡ 0)) (ok-injective ran) (tt, refl)
  pack_chunks-Holds chunk_idx (suc count) chunks h ran =
      let (padded, p_ran, after_padded) = >>=-eq-ok (or_batch (padded_seqlens pad chunk)) _ ran in
      let (bins, b_ran, after_bins) =
        >>=-eq-ok (or_packing (pack (random chunk_idx) packer padded)) _ after_padded in
      let (rest, rest_ran, end) =
        >>=-eq-ok (pack_chunks random packer pad batch_size lens (suc chunk_idx) count) _
          after_bins in
      let ih = pack_chunks-Holds (suc chunk_idx) count rest (omega arith) rest_ran in
      let packed =
        pack-IsPacking (random chunk_idx) packer padded bins
          (or_packing-ok (pack (random chunk_idx) packer padded) b_ran) in
      let size =
        padded_seqlens-length pad chunk padded (or_batch-ok (padded_seqlens pad chunk) p_ran)
        ∙ length-slice_rows (chunk_idx * batch_size) ((chunk_idx + 1) * batch_size) lens
            (omega arith)
        ∙ one in
      subst (λ cs. All (Holds batch_size) cs × (length cs ≡ suc count)) (ok-injective end)
        (
          (
            subst (λ k. Holds k bins) size (IsPacking-Holds packer.bin_capacity padded bins packed),
            ih.0,
          ),
          omega (arith, ih.1),
        )
    where
      chunk : List ℕ
      chunk = slice_rows (chunk_idx * batch_size) ((chunk_idx + 1) * batch_size) lens

      one : (chunk_idx + 1) * batch_size - chunk_idx * batch_size ≡ batch_size
      one = omega arith

module _ {A : Type 0} (w : ℕ → ℕ) where
  -- What the indices of all shards weigh.
  abbrev pub held : List (PackedShard A) → ℕ
  held sharded = total (λ s. total w s.global_indices) sharded

  close_chunk-held :
      (sharded closed : List (PackedShard A))
      → close_chunk sharded ≡ ok closed
      → (held closed ≡ held sharded) × (length closed ≡ length sharded)
  unfolding close_chunk
  close_chunk-held [] closed h =
      subst (λ c. (held c ≡ 0) × (length c ≡ 0)) (ok-injective h) (refl, refl)
  close_chunk-held (s ∷ sharded) closed h =
      let passed = raise_if-passes (is_empty s.chunk_micro_indices) index_error _ h in
      let (rest, ran, end) = >>=-eq-ok (close_chunk sharded) _ passed.1 in
      let ih = close_chunk-held sharded rest ran in
      subst
        (λ c.
          (held c ≡ total w s.global_indices + held sharded) × (length c ≡ suc (length sharded)))
        (ok-injective end) (omega (arith, ih.0), omega (arith, ih.1))

  module _ (default : A) (columns : Columns A) (pad : ℕ) (lens : List ℕ) (n : ℕ) where
    deal_bins-held :
        (cs bin_idx : ℕ) (bins : List (List ℕ)) (sharded : List (PackedShard A))
        → length sharded ≡ suc n
        → let dealt = deal_bins default columns pad lens (suc n) cs bin_idx bins sharded in
          (held dealt ≡ held sharded + total (total (λ i. w (i + cs))) bins)
          × (length dealt ≡ suc n)
    unfolding deal_bins add_bin
    deal_bins-held cs bin_idx [] sharded h = (omega arith, h)
    deal_bins-held cs bin_idx (bin ∷ bins) sharded h =
        let next = add_bin default columns pad lens cs bin in
        let at_ = bin_idx % suc n in
        let given = get_or sharded at_ empty_packed in
        let (held_rest, same_length) =
          deal_bins-held cs (suc bin_idx) bins (modify at_ next sharded)
            (length-modify at_ next sharded ∙ h) in
        (
          omega (
            arith,
            held_rest,
            total-modify (λ s. total w s.global_indices) at_ next sharded empty_packed
                (omega (arith, h, mod-lt bin_idx {m = suc n} (omega arith))),
            total-append w given.global_indices (map (λ i. i + cs) bin),
            total-map w (λ i. i + cs) bin,
          ),
          same_length,
        )

    pub deal_chunks-held :
        (batch_size chunk_idx : ℕ) (chunks : List (List (List ℕ)))
        (sharded dealt : List (PackedShard A))
        → length sharded ≡ suc n
        → All (Holds batch_size) chunks
        → deal_chunks default columns pad lens (suc n) batch_size chunk_idx chunks sharded
          ≡ ok dealt
        → held dealt
          ≡ held sharded
            + total w (range_from (chunk_idx * batch_size) (length chunks * batch_size))
    unfolding deal_chunks
    deal_chunks-held batch_size chunk_idx [] sharded dealt h holds ran = omega (
      arith,
      ap held (ok-injective ran),
      ap (λ j. total w (range_from (chunk_idx * batch_size) j)) none,
    )
      where
        none : 0 * batch_size ≡ 0
        none = omega arith
    deal_chunks-held batch_size chunk_idx (bins ∷ chunks) sharded dealt h holds ran =
        let cs = chunk_idx * batch_size in
        let given = deal_bins default columns pad lens (suc n) cs 0 bins sharded in
        let (closed, c_ran, rest) = >>=-eq-ok (close_chunk given) _ ran in
        let dealt_bins = deal_bins-held cs 0 bins sharded h in
        let closing = close_chunk-held given closed c_ran in
        let ih =
          deal_chunks-held batch_size (suc chunk_idx) chunks closed dealt (closing.1 ∙ dealt_bins.1)
            holds.1 rest in
        omega (
          arith,
          ih,
          closing.0,
          dealt_bins.0,
          holds.0 (λ i. w (i + cs)),
          total-shifted w cs 0 batch_size,
          ap (λ j. total w (range_from j batch_size)) start,
          total-range-add w cs batch_size (length chunks * batch_size),
          ap (λ j. total w (range_from j (length chunks * batch_size))) next,
          ap (λ j. total w (range_from cs j)) all,
        )
      where
        start : 0 + chunk_idx * batch_size ≡ chunk_idx * batch_size
        start = omega arith

        next : suc chunk_idx * batch_size ≡ chunk_idx * batch_size + batch_size
        next = omega arith

        all : batch_size + length chunks * batch_size ≡ suc (length chunks) * batch_size
        all = omega arith
