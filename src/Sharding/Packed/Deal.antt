-- ===== src/Sharding/Packed/Deal.antt =====
-- How many of the bins that are dealt in turn a shard gets.
use native.Mathlib.Nat.{mod-eq_of_lt, mul-add-mod_self_right}
use nemo_rl_xtoken.Base.{
  ℕ, zero, suc, ◌+◌, ◌*◌, ◌%◌, ◌<◌, ◌≤◌, ◌≡◌, refl, sym, ap, ◌∙◌, List, [], ◌∷◌, arith, length,
  length-modify, get_or, get_or-modify_self, get_or-modify_ne, modify, ◌==◌, ==→eq, eq→==,
  Bool-cases, inl, inr, if◌then◌else◌, ltb, leb, ◌&&◌,
}
use nemo_rl_xtoken.Sharding.Batch.{Columns}
use nemo_rl_xtoken.Sharding.Packed.{PackedShard, add_bin, deal_bins}

-- How often the numbers from `b` on, `k` of them, are `j` modulo `n`.
abbrev pub hits : ℕ → ℕ → ℕ → ℕ → ℕ
hits n j b zero = 0
hits n j b (suc k) = (if b % n == j then 1 else 0) + hits n j (suc b) k

module _ (n j : ℕ) (j_lt : j < n) where
  hits-add : (b k m : ℕ) → hits n j b (k + m) ≡ hits n j b k + hits n j (b + k) m
  hits-add b zero m = omega (arith, ap (hits n j b) left, ap (λ c. hits n j c m) right)
    where
      left : zero + m ≡ m
      left = omega arith

      right : b + zero ≡ b
      right = omega arith
  hits-add b (suc k) m =
      omega (arith, ap (hits n j b) left, hits-add (suc b) k m, ap (λ c. hits n j c m) right)
    where
      left : suc k + m ≡ suc (k + m)
      left = omega arith

      right : suc b + k ≡ b + suc k
      right = omega arith

  -- Within one round.
  hits-part :
      (c r k : ℕ) → r + k ≤ n → hits n j (c * n + r) k ≡ (if leb r j && ltb j (r + k) then 1 else 0)
  hits-part c r zero h = ground arith
  hits-part c r (suc k) h =
      ground (arith, here, hits-part c (suc r) k (omega arith), ap (λ b. hits n j b k) next)
    where
      here : (c * n + r) % n ≡ r
      here = mul-add-mod_self_right c n r ∙ mod-eq_of_lt (omega arith)

      next : suc (c * n + r) ≡ c * n + suc r
      next = omega arith

  -- In so many rounds.
  pub hits-rounds : (c k : ℕ) → hits n j (c * n) (k * n) ≡ k
  hits-rounds c zero = ap (hits n j (c * n)) none
    where
      none : zero * n ≡ 0
      none = omega arith
  hits-rounds c (suc k) = omega (
    arith,
    ap (hits n j (c * n)) all,
    hits-add (c * n) n (k * n),
    ap (λ b. hits n j b n) (sym start),
    one,
    ap (λ b. hits n j b (k * n)) next,
    hits-rounds (suc c) k,
  )
    where
      all : suc k * n ≡ n + k * n
      all = omega arith

      start : c * n + 0 ≡ c * n
      start = omega arith

      one : hits n j (c * n + 0) n ≡ 1
      one = ground (arith, hits-part c 0 n (omega arith), j_lt)

      next : c * n + n ≡ suc c * n
      next = omega arith

module _ {A : Type 0} (m : A → ℕ) (d : A) (f : A → A) (grows : (s : A) → m (f s) ≡ m s + 1) where
  pub get_or-modify_grows :
      (i j : ℕ) (ss : List A)
      → j < length ss
      → m (get_or (modify i f ss) j d) ≡ m (get_or ss j d) + (if i == j then 1 else 0)
  get_or-modify_grows i j ss h = elim (Bool-cases (i == j)) [
    | inl same ↦
        let e = ==→eq i j same in
        rw same (
          ap (λ k. m (get_or (modify i f ss) k d)) (sym e)
          ∙ ap m (get_or-modify_self i f ss d (omega (arith, e)))
          ∙ grows (get_or ss i d)
          ∙ ap (λ k. m (get_or ss k d) + 1) e)
    | inr differ ↦
        rw differ
          (omega (arith, ap m (get_or-modify_ne i j f ss d (λ e. cc (eq→== i j e, differ)))))
  ]

module _ {A : Type 0} (default : A) (columns : Columns A) (pad cs n : ℕ) (lens : List ℕ) where
  pub length-deal_bins :
      (b : ℕ) (bins : List (List ℕ)) (sharded : List (PackedShard A))
      → length (deal_bins default columns pad lens n cs b bins sharded) ≡ length sharded
  unfolding deal_bins
  length-deal_bins b [] sharded = refl
  length-deal_bins b (bin ∷ bins) sharded =
      length-deal_bins (suc b) bins _
      ∙ length-modify (b % n) (add_bin default columns pad lens cs bin) sharded

module _ {A : Type 0} (default : A) (columns : Columns A) (pad cs n : ℕ) (lens : List ℕ)
    (m : PackedShard A → ℕ)
    (grows : (bin : List ℕ) (s : PackedShard A)
      → m (add_bin default columns pad lens cs bin s) ≡ m s + 1)
    (d : PackedShard A) where
  -- A measure that each bin raises by 1 counts the shard's bins.
  pub deal_bins-hits :
      (j b : ℕ) (bins : List (List ℕ)) (sharded : List (PackedShard A))
      → length sharded ≡ n
      → j < n
      → m (get_or (deal_bins default columns pad lens n cs b bins sharded) j d)
        ≡ m (get_or sharded j d) + hits n j b (length bins)
  unfolding deal_bins
  deal_bins-hits j b [] sharded e h = omega arith
  deal_bins-hits j b (bin ∷ bins) sharded e h = omega (
    arith,
    deal_bins-hits j (suc b) bins (modify (b % n) next sharded)
        (length-modify (b % n) next sharded ∙ e) h,
    get_or-modify_grows m d next (grows bin) (b % n) j sharded (omega (arith, e, h)),
  )
    where
      next : PackedShard A → PackedShard A
      next = add_bin default columns pad lens cs bin
