-- ===== src/Checkpoint/Best.antt =====
-- `remove_old_checkpoints` keeps the best ones.
use nemo_rl_xtoken.Base.{
  ℕ, zero, suc, ◌≤◌, ◌<◌, ◌≡◌, ◌⊎◌, refl, sym, ap, ◌∙◌, min, Bool, true, false, not, ◌&&◌, ◌||◌,
  Option, none, some, List, [], ◌∷◌, ◌++◌, arith, filter, length, take, drop, ◌==◌, ==→eq, ltb,
  Bool-cases, inl, inr, if◌then◌else◌, insert_by, sort_by, All, All-map_of, Same, total,
  total-sort_by,
}
use nemo_rl_xtoken.Base.Text.{Text}
use nemo_rl_xtoken.Checkpoint.{
  Dir, Floats, Info, CheckpointManager, metric_or, step_of, load_checkpoint_history, latest_step,
  stands_first, is_step, outside_top, remove_old_checkpoints,
}
use nemo_rl_xtoken.Checkpoint.Removal.{goes, remove_old_checkpoints-goes}

-- A list in which each element is related to all behind it.
module _ {A : Type 0} (R : A → A → Type 0) where
  abbrev Ordered : List A → Type 0
  Ordered [] = Unit
  Ordered (x ∷ xs) = All (R x) xs × Ordered xs

  All-drop : (x : A) (k : ℕ) (xs : List A) → All (R x) xs → All (R x) (drop k xs)
  All-drop x zero xs h = h
  All-drop x (suc k) [] h = tt
  All-drop x (suc k) (y ∷ xs) h = All-drop x k xs h.1

  Ordered-split : (k : ℕ) (xs : List A) → Ordered xs → All (λ x. All (R x) (drop k xs)) (take k xs)
  Ordered-split zero xs h = tt
  Ordered-split (suc k) [] h = tt
  Ordered-split (suc k) (x ∷ xs) h = (All-drop x k xs h.0, Ordered-split k xs h.1)

  module _ (le : A → A → Bool) (first : (x y : A) → le x y ≡ true → R x y)
      (second : (x y : A) → le x y ≡ false → R y x)
      (trans : (x y z : A) → R x y → R y z → R x z) where
    All-insert : (z x : A) (ys : List A) → R z x → All (R z) ys → All (R z) (insert_by le x ys)
    unfolding insert_by
    All-insert z x [] h hs = (h, tt)
    All-insert z x (y ∷ ys) h hs = elim (Bool-cases (le x y)) [
      | inl front ↦ rw front (h, hs)
      | inr back ↦ rw back (hs.0, All-insert z x ys h hs.1)
    ]

    insert-Ordered : (x : A) (ys : List A) → Ordered ys → Ordered (insert_by le x ys)
    unfolding insert_by
    insert-Ordered x [] h = (tt, tt)
    insert-Ordered x (y ∷ ys) h = elim (Bool-cases (le x y)) [
      | inl front ↦
          let here = first x y front in
          rw front ((here, All-map_of _ _ ys (λ z yz. trans x y z here yz) h.0), h)
      | inr back ↦ rw back (All-insert y x ys (second x y back) h.0, insert-Ordered x ys h.1)
    ]

    sort-Ordered : (xs : List A) → Ordered (sort_by le xs)
    unfolding sort_by
    sort-Ordered [] = tt
    sort-Ordered (x ∷ xs) = insert-Ordered x (sort_by le xs) (sort-Ordered xs)

total-split :
    {A : Type 0} (w : A → ℕ) (k : ℕ) (xs : List A) → total w (take k xs ++ drop k xs) ≡ total w xs
total-split w zero xs = refl
total-split w (suc k) [] = refl
total-split w (suc k) (x ∷ xs) = omega (arith, total-split w k xs)

length-take : {A : Type 0} (k : ℕ) (xs : List A) → length (take k xs) ≡ min k (length xs)
length-take zero xs = omega arith
length-take (suc k) [] = omega arith
length-take (suc k) (x ∷ xs) = omega (arith, length-take k xs)

length-total : {A : Type 0} (xs : List A) → total (λ x. 1) xs ≡ length xs
length-total [] = refl
length-total (x ∷ xs) = omega (arith, length-total xs)

-- Floats without NaN: each has a rank, which is what `<` and `==` compare.
pub record IsRanked {M : Type 0} (floats : Floats M) (rank : M → ℕ) : Type 0 where
  pub less : (v w : M) → floats.lt v w ≡ ltb (rank v) (rank w)
  pub equal : (v w : M) → floats.eq v w ≡ (rank v == rank w)

-- With the score v and the step n one is at least as good as with w and k: the better score comes
-- first, the higher or the lower one, and for an equal score the higher step; without a metric, the
-- step decides.
abbrev pub AtLeastBy : Option Text → Bool → ℕ → ℕ → ℕ → ℕ → Type 0
AtLeastBy none higher v n w k = k ≤ n
AtLeastBy (some name) true v n w k = (w < v) ⊎ ((v ≡ w) × (k ≤ n))
AtLeastBy (some name) false v n w k = (v < w) ⊎ ((v ≡ w) × (k ≤ n))

AtLeastBy-trans :
    (o : Option Text) (higher : Bool) (v n w k x l : ℕ)
    → AtLeastBy o higher v n w k
    → AtLeastBy o higher w k x l
    → AtLeastBy o higher v n x l
AtLeastBy-trans none higher v n w k x l h h' = omega (arith, h, h')
AtLeastBy-trans (some name) true v n w k x l h h' = ground arith
AtLeastBy-trans (some name) false v n w k x l h h' = ground arith

higher_true :
    (v n w k : ℕ) → not (if v == w then ltb n k else ltb v w) ≡ true → (w < v) ⊎ ((v ≡ w) × (k ≤ n))
higher_true v n w k h = ground arith

higher_false :
    (v n w k : ℕ)
    → not (if v == w then ltb n k else ltb v w) ≡ false
    → (v < w) ⊎ ((w ≡ v) × (n ≤ k))
higher_false v n w k h = ground arith

lower_true :
    (v n w k : ℕ) → not (if w == v then ltb n k else ltb w v) ≡ true → (v < w) ⊎ ((v ≡ w) × (k ≤ n))
lower_true v n w k h = ground arith

lower_false :
    (v n w k : ℕ)
    → not (if w == v then ltb n k else ltb w v) ≡ false
    → (w < v) ⊎ ((w ≡ v) × (n ≤ k))
lower_false v n w k h = ground arith

step_true : (n k : ℕ) → not (ltb n k) ≡ true → k ≤ n
step_true n k h = ground arith

step_false : (n k : ℕ) → not (ltb n k) ≡ false → n ≤ k
step_false n k h = ground arith

module _ {M : Type 0} (floats : Floats M) (rank : M → ℕ) where
  -- The rank of the entry's metric; an entry without it counts as the worst.
  abbrev pub score : CheckpointManager → ℕ × Info M → ℕ
  score m (n, info) =
      rank (metric_or m (if m.higher_is_better then floats.minus_inf else floats.plus_inf) info)

  abbrev pub AtLeast : CheckpointManager → ℕ × Info M → ℕ × Info M → Type 0
  AtLeast m c d =
      AtLeastBy m.metric_name m.higher_is_better (score m c) (step_of c) (score m d) (step_of d)

  abbrev manager : Option Text → Bool → Option ℕ → CheckpointManager
  manager o higher top = record { metric_name = o; higher_is_better = higher; keep_top_k = top }

  module _ (ranked : IsRanked floats rank) where
    first :
        (o : Option Text) (higher : Bool) (top : Option ℕ) (c d : ℕ × Info M)
        → stands_first floats (manager o higher top) c d ≡ true
        → AtLeast (manager o higher top) c d
    first none higher top (n, info) (k, info') h = step_true n k h
    first (some name) true top (n, info) (k, info') h =
        higher_true _ n _ k (rw (ranked.equal, ranked.less) at h)
    first (some name) false top (n, info) (k, info') h =
        lower_true _ n _ k (rw (ranked.equal, ranked.less) at h)

    second :
        (o : Option Text) (higher : Bool) (top : Option ℕ) (c d : ℕ × Info M)
        → stands_first floats (manager o higher top) c d ≡ false
        → AtLeast (manager o higher top) d c
    second none higher top (n, info) (k, info') h = step_false n k h
    second (some name) true top (n, info) (k, info') h =
        higher_false _ n _ k (rw (ranked.equal, ranked.less) at h)
    second (some name) false top (n, info) (k, info') h =
        lower_false _ n _ k (rw (ranked.equal, ranked.less) at h)

    -- The history in the order of `remove_old_checkpoints`.
    history-Ordered :
        (m : CheckpointManager) (history : List (ℕ × Info M))
        → Ordered (AtLeast m) (sort_by (stands_first floats m) history)
    history-Ordered m history =
        sort-Ordered (AtLeast m) (stands_first floats m)
          (first m.metric_name m.higher_is_better m.keep_top_k)
          (second m.metric_name m.higher_is_better m.keep_top_k)
          (λ c d e. AtLeastBy-trans m.metric_name m.higher_is_better _ _ _ _ _ _) history

  -- The history in two parts: `kept` has k entries, or all if there are fewer, and each of them is at
  -- least as good as each one of `gone`.
  pub record IsTop (m : CheckpointManager) (k : ℕ) (history kept gone : List (ℕ × Info M))
      : Type 0 where
    pub parts : Same (kept ++ gone) history
    pub number : length kept ≡ min k (length history)
    pub best : All (λ c. All (AtLeast m c) gone) kept

-- One of the entries has the step.
abbrev pub has_step : {M : Type 0} → ℕ → List (ℕ × Info M) → Bool
has_step n [] = false
has_step n (c ∷ cs) = step_of c == n || has_step n cs

goes-has_step :
    {M : Type 0} (exclude_latest : Bool) (latest n : ℕ) (cs : List (ℕ × Info M))
    → goes exclude_latest latest n cs ≡ (has_step n cs && not (exclude_latest && n == latest))
goes-has_step exclude_latest latest n [] = refl
goes-has_step exclude_latest latest n (c ∷ cs) = elim (Bool-cases (step_of c == n)) [
  | inl here ↦
      rw (here, goes-has_step exclude_latest latest n cs, same here)
        (absorb (not (exclude_latest && n == latest)) (has_step n cs))
  | inr other ↦ rw other (goes-has_step exclude_latest latest n cs)
]
  where
    same : (step_of c == n) ≡ true → (step_of c == latest) ≡ (n == latest)
    same here = ap (λ j. j == latest) (==→eq (step_of c) n here)

    absorb : (a b : Bool) → (a || (b && a)) ≡ a
    absorb true b = refl
    absorb false true = refl
    absorb false false = refl

module _ {M C : Type 0} where
  -- Let the metrics have no NaN, and let `keep_top_k` be k. The history falls into a part with the k
  -- best entries (all, if there are fewer) and the rest: the best by the metric, with the higher or
  -- the lower value first as configured, a missing metric the worst, and for equal metrics the higher
  -- step; without a metric, by the step. A directory `step_n` is gone exactly when n is the step of
  -- an entry of the rest and not, where the latest is excluded, the highest step. Every other one
  -- is left as it was.
  pub remove_old_checkpoints-IsTop :
      (floats : Floats M) (rank : M → ℕ) (ranked : IsRanked floats rank) (m : CheckpointManager)
      (exclude_latest : Bool) (k n : ℕ) (dirs : List (Dir M C))
      → m.keep_top_k ≡ some k
      → let history = load_checkpoint_history dirs in
        (kept gone : List (ℕ × Info M)) × IsTop floats rank m k history kept gone
        × (filter (is_step n) (remove_old_checkpoints floats m exclude_latest dirs) ≡ (
            if has_step n gone && not (exclude_latest && n == latest_step history)
            then []
            else filter (is_step n) dirs))
  unfolding outside_top
  remove_old_checkpoints-IsTop floats rank ranked m exclude_latest k n dirs set =
      let history = load_checkpoint_history dirs in
      let sorted = sort_by (stands_first floats m) history in
      (
        take k sorted,
        drop k sorted,
        record {
          parts = λ w. total-split w k sorted ∙ total-sort_by (stands_first floats m) w history;
          number =
              length-take k sorted
              ∙ ap (min k) (
                  sym (length-total sorted)
                  ∙ total-sort_by (stands_first floats m) (λ c. 1) history
                  ∙ length-total history);
          best =
              Ordered-split (AtLeast floats rank m) k sorted
                (history-Ordered floats rank ranked m history);
        },
        remove_old_checkpoints-goes floats m exclude_latest k n dirs set
            ∙ ap (λ b. if b then [] else filter (is_step n) dirs)
                (goes-has_step exclude_latest (latest_step history) n (drop k sorted)),
      )
