-- ===== src/Sharding/Plain/Rows.antt =====
-- Without a batch size there is one chunk, and the shards, glued together, are the batch.
use mathlib.Core.Path.{ap₂, subst}
use native.Mathlib.Decide.{dec_le}
use native.Mathlib.Nat.{div-add-mod, mod-lt, div_self}
use nemo_rl_xtoken.Base.{
  ℕ, zero, suc, ◌+◌, ◌-◌, ◌*◌, ◌/◌, ◌%◌, min, ◌≤◌, ◌<◌, ◌≡◌, refl, sym, ap, ◌∙◌, Bool, true, false,
  not, ◌&&◌, none, List, [], ◌∷◌, ◌++◌, append-nil, arith, ok, ok-injective, raise_if-passes,
  length, take, drop, ltb, ltb_false→le, ◌==◌, ==→eq, Bool-cases, inl, inr, if◌then◌else◌,
}
use nemo_rl_xtoken.Sharding.Batch.{slice_rows}
use nemo_rl_xtoken.Sharding.Plain.{
  Layout, shard_layout, shard_range, add_range, shard_ranges, rows_of_ranges, shard_rows,
}

module _ {A : Type 0} where
  -- The rows of the shards from `shard_idx` on, `count` of them, one shard after the other.
  abbrev pub glued : Layout → Bool → ℕ → ℕ → List A → List A
  glued l uneven shard_idx zero v = []
  glued l uneven shard_idx (suc count) v =
      shard_rows l uneven shard_idx v ++ glued l uneven (suc shard_idx) count v

  drop-all : (n : ℕ) (v : List A) → length v ≤ n → drop n v ≡ []
  drop-all zero [] h = refl
  drop-all zero (x ∷ v) h = absurd (omega arith)
  drop-all (suc n) [] h = refl
  drop-all (suc n) (x ∷ v) h = drop-all n v (omega arith)

  take-nil : (n : ℕ) → take {A = A} n [] ≡ []
  take-nil zero = refl
  take-nil (suc n) = refl

  pub take-enough : (n : ℕ) (v : List A) → length v ≤ n → take n v ≡ v
  take-enough zero [] h = refl
  take-enough zero (x ∷ v) h = absurd (omega arith)
  take-enough (suc n) [] h = refl
  take-enough (suc n) (x ∷ v) h = ap (λ l. x ∷ l) (take-enough n v (omega arith))

  -- Two adjacent slices make one.
  pub take-take : (a b : ℕ) (v : List A) → take a v ++ take b (drop a v) ≡ take (a + b) v
  take-take zero b v = ap (λ k. take k v) (sym sum)
    where
      sum : zero + b ≡ b
      sum = omega arith
  take-take (suc a) b [] = take-nil b ∙ sym (take-nil (suc a + b))
  take-take (suc a) b (x ∷ v) = ap (λ l. x ∷ l) (take-take a b v) ∙ ap (λ k. take k (x ∷ v)) sum
    where
      sum : suc (a + b) ≡ suc a + b
      sum = omega arith

  length-drop : (n : ℕ) (v : List A) → length (drop n v) ≡ length v - n
  length-drop zero v = omega arith
  length-drop (suc n) [] = omega arith
  length-drop (suc n) (x ∷ v) = omega (arith, length-drop n v)

  pub drop-drop : (a b : ℕ) (v : List A) → drop b (drop a v) ≡ drop (a + b) v
  drop-drop zero b v = ap (λ k. drop k v) (sym sum)
    where
      sum : zero + b ≡ b
      sum = omega arith
  drop-drop (suc a) b [] = drop-all b [] (omega arith) ∙ sym (drop-all (suc a + b) [] (omega arith))
  drop-drop (suc a) b (x ∷ v) = drop-drop a b v ∙ ap (λ k. drop k (x ∷ v)) sum
    where
      sum : suc (a + b) ≡ suc a + b
      sum = omega arith

  slice-none : (s e : ℕ) (v : List A) → e ≤ s → slice_rows s e v ≡ []
  slice-none s e v h = ap (λ k. take k (drop s v)) none
    where
      none : e - s ≡ 0
      none = omega arith

  -- Capping a slice at the end of the column changes nothing.
  slice-capped :
      (s e : ℕ) (v : List A) → slice_rows (min s (length v)) (min e (length v)) v ≡ slice_rows s e v
  slice-capped s e v = elim (dec_le s (length v)) [
    | yes inside ↦ elim (dec_le e (length v)) [
      | yes whole ↦ ap₂ (λ a b. slice_rows a b v) (omega arith) (omega arith)
      | no over ↦
          ap₂ (λ a b. slice_rows a b v) (omega arith) (omega arith)
          ∙ take-enough (length v - s) (drop s v) (omega (arith, length-drop s v))
          ∙ sym (take-enough (e - s) (drop s v) (omega (arith, length-drop s v)))
    ]
    | no beyond ↦
        slice-none (min s (length v)) (min e (length v)) v (omega arith)
        ∙ sym (take-nil (e - s))
        ∙ sym (ap (take (e - s)) (drop-all s v (omega arith)))
  ]

  module _ (l : Layout) (uneven : Bool) (v : List A) (one_chunk : l.num_chunks ≡ 1)
      (whole : l.total_batch_size ≡ length v) where
    add_range-rows : (s e : ℕ) → rows_of_ranges (add_range (s, e) []) v ≡ slice_rows s e v
    unfolding rows_of_ranges
    add_range-rows s e = elim (Bool-cases (ltb s e)) [
      | inl some_rows ↦ rw some_rows (append-nil (slice_rows s e v))
      | inr empty_range ↦ rw empty_range (sym (slice-none s e v (ltb_false→le _ _ empty_range)))
    ]

    shard_rows-slice :
        (i : ℕ) → shard_rows l uneven i v ≡ slice_rows (i * l.shard_size) ((i + 1) * l.shard_size) v
    unfolding shard_rows
    shard_rows-slice i =
        ap (λ c. rows_of_ranges (shard_ranges l uneven i 0 c) v) one_chunk ∙ go uneven
      where
        start : 0 * l.batch_size + i * l.shard_size ≡ i * l.shard_size
        start = omega arith

        end : 0 * l.batch_size + (i + 1) * l.shard_size ≡ (i + 1) * l.shard_size
        end = omega arith

        go :
            (b : Bool)
            → rows_of_ranges (add_range (shard_range l b i 0) []) v
              ≡ slice_rows (i * l.shard_size) ((i + 1) * l.shard_size) v
        go false =
            add_range-rows (0 * l.batch_size + i * l.shard_size)
              (0 * l.batch_size + (i + 1) * l.shard_size)
            ∙ ap₂ (λ s e. slice_rows s e v) start end
        go true =
            add_range-rows (min (0 * l.batch_size + i * l.shard_size) l.total_batch_size)
              (min (0 * l.batch_size + (i + 1) * l.shard_size) l.total_batch_size)
            ∙ ap₂ (λ s e. slice_rows s e v) (ap₂ min start whole) (ap₂ min end whole)
            ∙ slice-capped (i * l.shard_size) ((i + 1) * l.shard_size) v

    glued-slice :
        (i count : ℕ)
        → glued l uneven i count v ≡ take (count * l.shard_size) (drop (i * l.shard_size) v)
    glued-slice i zero = ap (λ k. take k (drop (i * l.shard_size) v)) none
      where
        none : 0 ≡ zero * l.shard_size
        none = omega arith
    glued-slice i (suc count) =
        ap₂ (λ a b. a ++ b) (shard_rows-slice i ∙ ap (λ k. take k (drop (i * l.shard_size) v)) size)
          (glued-slice (suc i) count
            ∙ ap (take (count * l.shard_size))
                (ap (λ k. drop k v) next ∙ sym (drop-drop (i * l.shard_size) l.shard_size v)))
        ∙ take-take l.shard_size (count * l.shard_size) (drop (i * l.shard_size) v)
        ∙ ap (λ k. take k (drop (i * l.shard_size) v)) all
      where
        size : (i + 1) * l.shard_size - i * l.shard_size ≡ l.shard_size
        size = omega arith

        next : suc i * l.shard_size ≡ i * l.shard_size + l.shard_size
        next = omega arith

        all : l.shard_size + count * l.shard_size ≡ suc count * l.shard_size
        all = omega arith

pub positive : (n : ℕ) → (n == 0) ≡ false → 0 < n
positive zero h = cc
positive (suc n) h = omega arith

-- What the shards get, together, is at least the batch.
shares_enough :
    (uneven : Bool) (total shards : ℕ)
    → 0 < shards
    → (not uneven && not (total % shards == 0)) ≡ false
    → total ≤ shards * (if uneven then (total + shards - 1) / shards else total / shards)
shares_enough true total shards some_shards even =
    omega (arith, div-add-mod (total + shards - 1) shards, mod-lt (total + shards - 1) some_shards)
shares_enough false total shards some_shards even = elim (Bool-cases (total % shards == 0)) [
  | inl divides ↦ omega (arith, div-add-mod total shards, ==→eq (total % shards) 0 divides)
  | inr divides ↦ cc (rw divides at even)
]

shard_layout-enough :
    (shards : ℕ) (uneven : Bool) (total : ℕ) (l : Layout)
    → shard_layout shards none uneven total ≡ ok l
    → (l.num_chunks ≡ 1) × (l.total_batch_size ≡ total) × (total ≤ shards * l.shard_size)
unfolding shard_layout
shard_layout-enough shards uneven total l h =
    let (nonzero, h2) = raise_if-passes _ _ _ h in
    let (multiple, h3) = raise_if-passes _ _ _ h2 in
    let (some_shards, h4) = raise_if-passes _ _ _ h3 in
    let (even, h5) = raise_if-passes _ _ _ h4 in
    let made = ok-injective h5 in
    (
      sym (ap (λ k. k.num_chunks) made) ∙ div_self (positive total nonzero),
      sym (ap (λ k. k.total_batch_size) made),
      subst (λ k. total ≤ shards * k.shard_size) made
          (shares_enough uneven total shards (positive shards some_shards) even),
    )

-- Without a batch size: whatever the number of shards, uneven shards or not, if the batch is
-- accepted, then the rows of a column that the shards get, one shard after the other, are the rows
-- of the column, in their order.
pub shard_layout-glued :
    {A : Type 0} (shards : ℕ) (uneven : Bool) (v : List A) (l : Layout)
    → shard_layout shards none uneven (length v) ≡ ok l
    → glued l uneven 0 shards v ≡ v
shard_layout-glued shards uneven v l h =
    let (one_chunk, whole, enough) = shard_layout-enough shards uneven (length v) l h in
    glued-slice l uneven v one_chunk whole 0 shards
    ∙ ap (λ k. take (shards * l.shard_size) (drop k v)) begin
    ∙ take-enough (shards * l.shard_size) v enough
  where
    begin : 0 * l.shard_size ≡ 0
    begin = omega arith
