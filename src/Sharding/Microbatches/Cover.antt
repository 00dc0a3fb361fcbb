-- ===== src/Sharding/Microbatches/Cover.antt =====
-- The microbatches, one after the other, are the batch.
use mathlib.Core.Path.{ap₂}
use native.Mathlib.Nat.{mul-mod_left, mul-div_cancel}
use nemo_rl_xtoken.Base.{
  ℕ, zero, suc, ◌+◌, ◌-◌, ◌*◌, ◌/◌, ◌%◌, ◌<◌, ◌≤◌, ◌≡◌, refl, sym, ap, ◌∙◌, true, false, Bool-cases,
  inl, inr, ok-injective, eq→==, List, [], ◌∷◌, ◌++◌, map, arith, ok, length, take, drop, All,
  le→ltb_false, ◌==◌,
}
use nemo_rl_xtoken.Sharding.Batch.{Column, Columns, same_size, common_size, on_rows, slice_rows}
use nemo_rl_xtoken.Sharding.Plain.Rows.{take-take, take-enough, drop-drop}
use nemo_rl_xtoken.Sharding.Packed.{append_columns, append_all, from_batches}
use nemo_rl_xtoken.Sharding.Microbatches.{size, slice, microbatches_from, make_microbatch_iterator}

slice_rows-append :
    {A : Type 0} (s m e : ℕ) (v : List A)
    → s ≤ m
    → m ≤ e
    → slice_rows s m v ++ slice_rows m e v ≡ slice_rows s e v
slice_rows-append s m e v h h' =
    ap (λ w. take (m - s) (drop s v) ++ take (e - m) w)
      (ap (λ k. drop k v) split ∙ sym (drop-drop s (m - s) v))
    ∙ take-take (m - s) (e - m) (drop s v)
    ∙ ap (λ k. take k (drop s v)) whole
  where
    split : m ≡ s + (m - s)
    split = omega arith

    whole : m - s + (e - m) ≡ e - s
    whole = omega arith

module _ {A : Type 0} where
  abbrev sliced : ℕ → ℕ → Columns A → Columns A
  sliced s e columns = map (on_rows (slice_rows s e)) columns

  -- Every column has at least so many rows.
  abbrev pub Reaches : ℕ → Columns A → Type 0
  Reaches n columns = All (λ (c : Column A). n ≤ length c.1) columns

  slice_passes :
      (s e : ℕ) (columns : Columns A)
      → Reaches e columns
      → slice s e columns ≡ ok (sliced s e columns)
  unfolding slice
  slice_passes s e [] h = refl
  slice_passes s e ((k, v) ∷ columns) h =
      rw (le→ltb_false (length v) e h.0, slice_passes s e columns h.1) refl

  append_columns-sliced :
      (s m e : ℕ) (columns : Columns A)
      → s ≤ m
      → m ≤ e
      → append_columns (sliced s m columns) (sliced m e columns) ≡ sliced s e columns
  append_columns-sliced s m e [] h h' = refl
  append_columns-sliced s m e ((k, v) ∷ columns) h h' =
      ap₂ (λ rows rest. (k, rows) ∷ rest) (slice_rows-append s m e v h h')
        (append_columns-sliced s m e columns h h')

  Reaches-le : (n m : ℕ) (columns : Columns A) → n ≤ m → Reaches m columns → Reaches n columns
  Reaches-le n m [] h r = tt
  Reaches-le n m (c ∷ columns) h r = (omega (arith, r.0), Reaches-le n m columns h r.1)

  microbatches_from-append_all :
      (m s i count : ℕ) (columns : Columns A)
      → s ≤ i
      → Reaches (i + count * m) columns
      → (mbs : List (Columns A)) × (microbatches_from m i count columns ≡ ok mbs)
        × (append_all (sliced s i columns) mbs ≡ sliced s (i + count * m) columns)
        × (length mbs ≡ count)
  unfolding microbatches_from
  microbatches_from-append_all m s i zero columns h r =
      ([], refl, ap (λ e. sliced s e columns) end, refl)
    where
      end : i ≡ i + zero * m
      end = omega arith
  microbatches_from-append_all m s i (suc count) columns h r =
      let (mbs, ran, glued, number) =
        microbatches_from-append_all m s (i + m) count columns (omega arith)
          (Reaches-le _ _ columns (omega arith) r) in
      (
        sliced i (i + m) columns ∷ mbs,
        rw (slice_passes i (i + m) columns (Reaches-le _ _ columns (omega arith) r), ran) refl,
        ap (λ c. append_all c mbs) (append_columns-sliced s i (i + m) columns h (omega arith))
            ∙ glued
            ∙ ap (λ e. sliced s e columns) end,
        ap suc number,
      )
    where
      end : i + m + count * m ≡ i + suc count * m
      end = omega arith

  same_size-All :
      (n : ℕ) (columns : Columns A)
      → same_size n columns ≡ true
      → All (λ (c : Column A). length c.1 ≡ n) columns
  unfolding same_size
  same_size-All n [] h = tt
  same_size-All n ((k, v) ∷ columns) h = (ground arith, same_size-All n columns (ground arith))

  common_size-All :
      (n : ℕ) (columns : Columns A)
      → common_size columns ≡ ok n
      → All (λ (c : Column A). length c.1 ≡ n) columns × (size columns ≡ ok n)
  unfolding common_size
  common_size-All n [] h = cc
  common_size-All n ((k, v) ∷ columns) h = elim (Bool-cases (same_size (length v) columns)) [
    | inl same ↦
        let e = ok-injective (rw same at h) in
        ((e, same_size-All n columns (ap (λ l. same_size l columns) (sym e) ∙ same)), ap ok e)
    | inr differ ↦ cc (rw differ at h)
  ]

  exact-Reaches :
      (n : ℕ) (columns : Columns A)
      → All (λ (c : Column A). length c.1 ≡ n) columns
      → Reaches n columns
  exact-Reaches n [] h = tt
  exact-Reaches n (c ∷ columns) h = (omega (arith, h.0), exact-Reaches n columns h.1)

  sliced_whole :
      (n : ℕ) (columns : Columns A)
      → All (λ (c : Column A). length c.1 ≡ n) columns
      → sliced 0 n columns ≡ columns
  sliced_whole n [] h = refl
  sliced_whole n ((k, v) ∷ columns) h =
      ap₂ (λ rows rest. (k, rows) ∷ rest) (take-enough (n - 0) v (omega (arith, h.0)))
        (sliced_whole n columns h.1)

  -- If the batch's columns have as many rows as `rounds`, at least 1, microbatches of positive size
  -- have together, `make_microbatch_iterator` yields that many microbatches without an error, and
  -- put together in their order they are the batch.
  pub make_microbatch_iterator-from_batches :
      (microbatch_size rounds : ℕ) (columns : Columns A)
      → 0 < microbatch_size
      → 0 < rounds
      → common_size columns ≡ ok (rounds * microbatch_size)
      → (microbatches : List (Columns A)) × (make_microbatch_iterator microbatch_size columns
          ≡ ok microbatches)
        × (from_batches microbatches ≡ ok columns)
        × (length microbatches ≡ rounds)
  unfolding make_microbatch_iterator microbatches_from
  make_microbatch_iterator-from_batches m zero columns p q sized = absurd (omega arith)
  make_microbatch_iterator-from_batches m (suc count) columns p q sized =
      let (exact, its_size) = common_size-All (suc count * m) columns sized in
      let reaches = exact-Reaches (suc count * m) columns exact in
      let (mbs, ran, glued, number) =
        microbatches_from-append_all m 0 (0 + m) count columns (omega arith)
          (Reaches-le _ _ columns (omega arith) reaches) in
      let first = slice_passes 0 (0 + m) columns (Reaches-le _ _ columns (omega arith) reaches) in
      (
        sliced 0 (0 + m) columns ∷ mbs,
        rw (its_size, positive, divides, quotient, first, ran) refl,
        ap ok (
            glued
            ∙ ap (λ e. sliced 0 e columns) whole
            ∙ sliced_whole (suc count * m) columns exact),
        ap suc number,
      )
    where
      positive : (m == 0) ≡ false
      positive = ground (arith, p)

      divides : (suc count * m % m == 0) ≡ true
      divides = eq→== _ _ (mul-mod_left (suc count) m)

      quotient : suc count * m / m ≡ suc count
      quotient = mul-div_cancel (suc count) p

      whole : 0 + m + count * m ≡ suc count * m
      whole = omega arith
