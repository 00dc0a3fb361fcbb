-- ===== src/Sharding/Packed/Even.antt =====
-- Every shard gets equally many microbatches, chunk by chunk.
use mathlib.Core.Path.{ap₂, subst}
use nemo_rl_xtoken.Base.{
  ℕ, zero, suc, ◌*◌, ◌<◌, ◌≤◌, ◌≡◌, refl, sym, ap, ◌∙◌, true, false, List, [], ◌∷◌, ◌++◌,
  append-nil, append_assoc, map, arith, ok, length, length-append, All, All-get_or, All_of_get_or,
  is_empty,
}
use nemo_rl_xtoken.Sharding.Batch.{Columns}
use nemo_rl_xtoken.Sharding.Packed.{
  PackedShard, empty_packed, add_bin, deal_bins, close_chunk, deal_chunks, last_end,
}
use nemo_rl_xtoken.Sharding.Packed.Slices.{deal_bins-All}
use nemo_rl_xtoken.Sharding.Packed.Deal.{hits, hits-rounds, deal_bins-hits, length-deal_bins}

map_snoc :
    (ms : List (List (ℕ × ℕ))) (m : List (ℕ × ℕ))
    → map length (ms ++ m ∷ []) ≡ map length ms ++ length m ∷ []
map_snoc [] m = refl
map_snoc (n ∷ ms) m = ap (λ l. length n ∷ l) (map_snoc ms m)

not_empty : {A : Type 0} (xs : List A) → 1 ≤ length xs → is_empty xs ≡ false
not_empty [] h = absurd (omega arith)
not_empty (x ∷ xs) h = refl

module _ {A : Type 0} where
  -- The shard has so many microbatches for each finished chunk, and so many in the current one.
  pub record IsLevel (counts : List ℕ) (current : ℕ) (s : PackedShard A) : Type 0 where
    pub finished : map length s.micro_indices ≡ counts
    pub unfinished : length s.chunk_micro_indices ≡ current
    pub stored : current ≤ length s.data_of_bins

  abbrev pub Filled : PackedShard A → Type 0
  Filled s = 1 ≤ length s.data_of_bins

  close_chunk_total :
      (counts : List ℕ) (k : ℕ) (sharded : List (PackedShard A))
      → All (IsLevel counts (suc k)) sharded
      → (closed : List (PackedShard A)) × (close_chunk sharded ≡ ok closed)
        × All (IsLevel (counts ++ suc k ∷ []) 0) closed
        × All Filled closed
        × (length closed ≡ length sharded)
  unfolding close_chunk
  close_chunk_total counts k [] h = ([], refl, tt, tt, refl)
  close_chunk_total counts k (s ∷ sharded) h =
      let (closed, ran, levels, filled, same) = close_chunk_total counts k sharded h.1 in
      let begun = not_empty s.chunk_micro_indices (omega (arith, h.0.unfinished)) in
      (
        record s {
          micro_indices = s.micro_indices ++ s.chunk_micro_indices ∷ [];
          micro_lengths = s.micro_lengths ++ s.chunk_micro_lengths ∷ [];
          elem_counts = s.elem_counts ++ last_end s.chunk_micro_indices ∷ [];
          chunk_micro_indices = [];
          chunk_micro_lengths = [];
        }
            ∷ closed,
        rw (begun, ran) refl,
        (
          record {
            finished =
                map_snoc s.micro_indices s.chunk_micro_indices
                ∙ ap₂ (λ cs c. cs ++ c ∷ []) h.0.finished h.0.unfinished;
            unfinished = refl;
            stored = omega arith;
          },
          levels,
        ),
        (omega (arith, h.0.stored), filled),
        ap suc same,
      )

-- The chunks' bins can be dealt to `n` shards in rounds, at least one for each chunk.
abbrev pub Rounds : ℕ → List (List (List ℕ)) → List ℕ → Type 0
Rounds n [] [] = Unit
Rounds n [] (k ∷ ks) = ⊥
Rounds n (bins ∷ chunks) [] = ⊥
Rounds n (bins ∷ chunks) (k ∷ ks) = (1 ≤ k) × (length bins ≡ k * n) × Rounds n chunks ks

module _ {A : Type 0} (default : A) (columns : Columns A) (pad n : ℕ) (lens : List ℕ) where
  deal_bins-IsLevel :
      (counts : List ℕ) (k cs : ℕ) (bins : List (List ℕ)) (sharded : List (PackedShard A))
      → length bins ≡ k * n
      → length sharded ≡ n
      → All (IsLevel counts 0) sharded
      → All (IsLevel counts k) (deal_bins default columns pad lens n cs 0 bins sharded)
  unfolding add_bin
  deal_bins-IsLevel counts k cs bins sharded e en h =
      both dealt
        (deal_bins-All default columns (λ s. map length s.micro_indices ≡ counts) pad n cs 0 lens
          bins sharded (λ bin s same. same) (finished-All sharded h))
        (All_of_get_or (λ s. length s.chunk_micro_indices ≡ k) empty_packed dealt
          (λ j lt. omega (
            arith,
            deal_bins-hits default columns pad cs n lens (λ s. length s.chunk_micro_indices)
                (λ bin s. length-append s.chunk_micro_indices _) empty_packed j 0 bins sharded en
                (inside j lt),
            ap (hits n j 0) e,
            all_hits j (inside j lt),
            All-get_or (λ s. length s.chunk_micro_indices ≡ 0) empty_packed sharded j
                (unfinished-All sharded h) refl,
          )))
        (All_of_get_or (λ s. k ≤ length s.data_of_bins) empty_packed dealt
          (λ j lt. omega (
            arith,
            deal_bins-hits default columns pad cs n lens (λ s. length s.data_of_bins)
                (λ bin s. length-append s.data_of_bins _) empty_packed j 0 bins sharded en
                (inside j lt),
            ap (hits n j 0) e,
            all_hits j (inside j lt),
          )))
    where
      dealt : List (PackedShard A)
      dealt = deal_bins default columns pad lens n cs 0 bins sharded

      inside : (j : ℕ) → j < length (deal_bins default columns pad lens n cs 0 bins sharded) → j < n
      inside j lt = omega (arith, en, length-deal_bins default columns pad cs n lens 0 bins sharded)

      all_hits : (j : ℕ) → j < n → hits n j 0 (k * n) ≡ k
      all_hits j lt = ap (λ b. hits n j b (k * n)) (sym start) ∙ hits-rounds n j lt 0 k
        where
          start : 0 * n ≡ 0
          start = omega arith

      finished-All :
          (ss : List (PackedShard A))
          → All (IsLevel counts 0) ss
          → All (λ s. map length s.micro_indices ≡ counts) ss
      finished-All [] h = tt
      finished-All (s ∷ ss) h = (h.0.finished, finished-All ss h.1)

      unfinished-All :
          (ss : List (PackedShard A))
          → All (IsLevel counts 0) ss
          → All (λ s. length s.chunk_micro_indices ≡ 0) ss
      unfinished-All [] h = tt
      unfinished-All (s ∷ ss) h = (h.0.unfinished, unfinished-All ss h.1)

      both :
          (ss : List (PackedShard A))
          → All (λ s. map length s.micro_indices ≡ counts) ss
          → All (λ s. length s.chunk_micro_indices ≡ k) ss
          → All (λ s. k ≤ length s.data_of_bins) ss
          → All (IsLevel counts k) ss
      both [] f u g = tt
      both (s ∷ ss) f u g =
          (record { finished = f.0; unfinished = u.0; stored = g.0 }, both ss f.1 u.1 g.1)

  pub deal_chunks_total :
      (batch_size chunk_idx : ℕ) (chunks : List (List (List ℕ))) (ks counts : List ℕ)
      (sharded : List (PackedShard A))
      → Rounds n chunks ks
      → length sharded ≡ n
      → All (IsLevel counts 0) sharded
      → (is_empty chunks ≡ true → All Filled sharded)
      → (dealt : List (PackedShard A)) × (deal_chunks default columns pad lens n batch_size
            chunk_idx chunks sharded
          ≡ ok dealt)
        × All (IsLevel (counts ++ ks) 0) dealt
        × All Filled dealt
  unfolding deal_chunks
  deal_chunks_total batch_size chunk_idx [] [] counts sharded r en h f =
      (sharded, refl, subst (λ cs. All (IsLevel cs 0) sharded) (sym (append-nil counts)) h, f refl)
  deal_chunks_total batch_size chunk_idx [] (k ∷ ks) counts sharded r en h f = elim r [ ]
  deal_chunks_total batch_size chunk_idx (bins ∷ chunks) [] counts sharded r en h f = elim r [ ]
  deal_chunks_total batch_size chunk_idx (bins ∷ chunks) (zero ∷ ks) counts sharded r en h f =
      absurd (omega (arith, r.0))
  deal_chunks_total batch_size chunk_idx (bins ∷ chunks) (suc k ∷ ks) counts sharded r en h f =
      let levels =
        deal_bins-IsLevel counts (suc k) (chunk_idx * batch_size) bins sharded r.1 en h in
      let (closed, c_ran, c_levels, filled, same) = close_chunk_total counts k _ levels in
      let (dealt, ran, d_levels, d_filled) =
        deal_chunks_total batch_size (suc chunk_idx) chunks ks (counts ++ suc k ∷ []) closed r.2
          (same
            ∙ length-deal_bins default columns pad (chunk_idx * batch_size) n lens 0 bins sharded
            ∙ en)
          c_levels (λ e. filled) in
      (
        dealt,
        rw c_ran ran,
        subst (λ cs. All (IsLevel cs 0) dealt) (append_assoc counts (suc k ∷ []) ks) d_levels,
        d_filled,
      )
