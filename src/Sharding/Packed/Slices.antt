-- ===== src/Sharding/Packed/Slices.antt =====
-- The shards' columns are the rows that their indices name.
use mathlib.Core.Path.{ap₂, subst}
use nemo_rl_xtoken.Base.{
  ℕ, zero, suc, ◌+◌, ◌*◌, ◌%◌, ◌≡◌, refl, sym, ap, ◌∙◌, List, [], ◌∷◌, ◌++◌, append-nil,
  append_assoc, map, ok, >>=-eq-ok, ok-injective, raise_if-passes, modify, is_empty, flatten,
  get_or, All,
}
use nemo_rl_xtoken.Sharding.Batch.{Columns, index_error}
use nemo_rl_xtoken.Sharding.Packed.{
  PackedShard, PackedSlice, select_indices, add_bin, deal_bins, close_chunk, deal_chunks,
  append_columns, append_all, from_batches, aggregate,
}

map-append : {A B : Type 0} (f : A → B) (xs ys : List A) → map f (xs ++ ys) ≡ map f xs ++ map f ys
map-append f [] ys = refl
map-append f (x ∷ xs) ys = ap (λ l. f x ∷ l) (map-append f xs ys)

flatten-snoc :
    {A : Type 0} (xss : List (List A)) (xs : List A) → flatten (xss ++ xs ∷ []) ≡ flatten xss ++ xs
unfolding flatten
flatten-snoc [] xs = append-nil xs
flatten-snoc (ys ∷ xss) xs =
    ap (λ l. ys ++ l) (flatten-snoc xss xs) ∙ sym (append_assoc ys (flatten xss) xs)

All-modify :
    {A : Type 0} (P : A → Type 0) (f : A → A)
    → ((x : A) → P x → P (f x))
    → (i : ℕ) (xs : List A) → All P xs
    → All P (modify i f xs)
All-modify P f keep i [] h = tt
All-modify P f keep zero (x ∷ xs) h = (keep x h.0, h.1)
All-modify P f keep (suc i) (x ∷ xs) h = (h.0, All-modify P f keep i xs h.1)

module _ {A : Type 0} (default : A) where
  append_columns-select :
      (is js : List ℕ) (columns : Columns A)
      → append_columns (select_indices default columns is) (select_indices default columns js)
        ≡ select_indices default columns (is ++ js)
  append_columns-select is js [] = refl
  append_columns-select is js ((k, v) ∷ columns) =
      ap₂ (λ rows rest. (k, rows) ∷ rest) (sym (map-append (λ i. get_or v i default) is js))
        (append_columns-select is js columns)

module _ {A : Type 0} (default : A) (columns : Columns A) where
  abbrev select : List ℕ → Columns A
  select = select_indices default columns

  append_all-select :
      (is : List ℕ) (bins : List (List ℕ))
      → append_all (select is) (map select bins) ≡ select (is ++ flatten bins)
  unfolding flatten
  append_all-select is [] = ap select (sym (append-nil is))
  append_all-select is (js ∷ bins) =
      ap (λ c. append_all c (map select bins)) (append_columns-select default is js columns)
      ∙ append_all-select (is ++ js) bins
      ∙ ap select (append_assoc is js (flatten bins))

  -- The shard's data are the rows of its bins.
  abbrev pub Own : PackedShard A → Type 0
  Own s =
      (bins : List (List ℕ)) × (s.data_of_bins ≡ map select bins)
      × (s.global_indices ≡ flatten bins)

  add_bin-Own :
      (pad cs : ℕ) (lens bin : List ℕ) (s : PackedShard A)
      → Own s
      → Own (add_bin default columns pad lens cs bin s)
  unfolding add_bin
  add_bin-Own pad cs lens bin s (bins, stored, indices) = (
    bins ++ map (λ i. i + cs) bin ∷ [],
    ap (λ d. d ++ select (map (λ i. i + cs) bin) ∷ []) stored
        ∙ sym (map-append select bins (map (λ i. i + cs) bin ∷ [])),
    ap (λ is. is ++ map (λ i. i + cs) bin) indices
        ∙ sym (flatten-snoc bins (map (λ i. i + cs) bin)),
  )

  pub deal_bins-All :
      (P : PackedShard A → Type 0) (pad shards cs bin_idx : ℕ) (lens : List ℕ)
      (bins : List (List ℕ)) (sharded : List (PackedShard A))
      → ((bin : List ℕ) (s : PackedShard A) → P s → P (add_bin default columns pad lens cs bin s))
      → All P sharded
      → All P (deal_bins default columns pad lens shards cs bin_idx bins sharded)
  unfolding deal_bins
  deal_bins-All P pad shards cs bin_idx lens [] sharded keep h = h
  deal_bins-All P pad shards cs bin_idx lens (bin ∷ bins) sharded keep h =
      deal_bins-All P pad shards cs (suc bin_idx) lens bins _ keep (
        All-modify P (add_bin default columns pad lens cs bin) (keep bin) (bin_idx % shards) sharded
          h)

  close_chunk-Own :
      (sharded closed : List (PackedShard A))
      → close_chunk sharded ≡ ok closed
      → All Own sharded
      → All Own closed
  unfolding close_chunk
  close_chunk-Own [] closed h own = subst (All Own) (ok-injective h) tt
  close_chunk-Own (s ∷ sharded) closed h own =
      let passed = raise_if-passes (is_empty s.chunk_micro_indices) index_error _ h in
      let (rest, ran, end) = >>=-eq-ok (close_chunk sharded) _ passed.1 in
      subst (All Own) (ok-injective end) (own.0, close_chunk-Own sharded rest ran own.1)

  pub deal_chunks-Own :
      (pad shards batch_size chunk_idx : ℕ) (lens : List ℕ) (chunks : List (List (List ℕ)))
      (sharded dealt : List (PackedShard A))
      → deal_chunks default columns pad lens shards batch_size chunk_idx chunks sharded ≡ ok dealt
      → All Own sharded
      → All Own dealt
  unfolding deal_chunks
  deal_chunks-Own pad shards batch_size chunk_idx lens [] sharded dealt ran own =
      subst (All Own) (ok-injective ran) own
  deal_chunks-Own pad shards batch_size chunk_idx lens (bins ∷ chunks) sharded dealt ran own =
      let given =
        deal_bins default columns pad lens shards (chunk_idx * batch_size) 0 bins sharded in
      let (closed, c_ran, rest) = >>=-eq-ok (close_chunk given) _ ran in
      deal_chunks-Own pad shards batch_size (suc chunk_idx) lens chunks closed dealt rest (
        close_chunk-Own given closed c_ran (
          deal_bins-All Own pad shards (chunk_idx * batch_size) 0 lens bins sharded
            (add_bin-Own pad (chunk_idx * batch_size) lens) own))

  -- Stacked batches that are selections are a selection.
  pub from_batches-select :
      (bins : List (List ℕ)) (stacked : Columns A)
      → from_batches (map select bins) ≡ ok stacked
      → stacked ≡ select (flatten bins)
  unfolding flatten
  from_batches-select [] stacked h = cc
  from_batches-select (is ∷ bins) stacked h = ok-injective (sym h) ∙ append_all-select is bins

  pub aggregate-select :
      (sharded : List (PackedShard A)) (slices : List (PackedSlice A))
      → aggregate sharded ≡ ok slices
      → All Own sharded
      → map (λ s. s.columns) slices ≡ map select (map (λ s. s.global_indices) sharded)
  unfolding aggregate
  aggregate-select [] slices h own =
      ap (map (λ (s : PackedSlice A). s.columns)) (ok-injective (sym h))
  aggregate-select (s ∷ sharded) slices h ((bins, stored, indices), own) =
      let (stacked, s_ran, h1) = >>=-eq-ok (from_batches s.data_of_bins) _ h in
      let (rest, ran, end) = >>=-eq-ok (aggregate sharded) _ h1 in
      let here =
        from_batches-select bins stacked (sym (ap from_batches stored) ∙ s_ran)
        ∙ ap select (sym indices) in
      ap (map (λ (s : PackedSlice A). s.columns)) (ok-injective (sym end))
      ∙ ap₂ (λ c cs. c ∷ cs) here (aggregate-select sharded rest ran own)
