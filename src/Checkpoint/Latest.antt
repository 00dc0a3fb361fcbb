-- ===== src/Checkpoint/Latest.antt =====
-- `get_latest_checkpoint_path`: the highest step number.
use nemo_rl_xtoken.Base.{
  ◌≢◌, ℕ, ◌≤◌, ◌≡◌, refl, sym, ◌∙◌, Bool, true, false, Option, none, some, List, [], ◌∷◌, map,
  arith, filter, leb, leb→le, leb_false→lt, Bool-cases, inl, inr, if◌then◌else◌, sort_by, insert_by,
  All, All-map_of, total-sort_by, total_zero→All, All→total_zero,
}
use nemo_rl_xtoken.Checkpoint.{
  Dir, Floats, CheckpointManager, is_step, last_of, get_latest_checkpoint_path,
  remove_old_checkpoints,
}
use nemo_rl_xtoken.Checkpoint.Removal.{is_checkpoint, remove_old_checkpoints-latest}

-- Every element is at most each later one.
abbrev Ascending : List ℕ → Type 0
Ascending [] = Unit
Ascending (x ∷ xs) = All (λ y. x ≤ y) xs × Ascending xs

All-insert :
    (k x : ℕ) (ys : List ℕ) → k ≤ x → All (λ y. k ≤ y) ys → All (λ y. k ≤ y) (insert_by leb x ys)
unfolding insert_by
All-insert k x [] h hs = (h, tt)
All-insert k x (y ∷ ys) h hs = go (leb x y) (All-insert k x ys h hs.1)
  where
    go :
        (b : Bool)
        → All (λ z. k ≤ z) (insert_by leb x ys)
        → All (λ z. k ≤ z) (if b then x ∷ y ∷ ys else y ∷ insert_by leb x ys)
    go true ih = (h, hs)
    go false ih = (hs.0, ih)

insert-Ascending : (x : ℕ) (ys : List ℕ) → Ascending ys → Ascending (insert_by leb x ys)
unfolding insert_by
insert-Ascending x [] h = (tt, tt)
insert-Ascending x (y ∷ ys) h =
    let later = insert-Ascending x ys h.1 in
    elim (Bool-cases (leb x y)) [
      | inl below ↦
          let le = leb→le x y below in
          rw below ((le, All-map_of _ _ ys (λ z yz. omega arith) h.0), h)
      | inr above ↦
          let lt = leb_false→lt x y above in rw above (All-insert y x ys (omega arith) h.0, later)
    ]

sort_by-Ascending : (xs : List ℕ) → Ascending (sort_by leb xs)
unfolding sort_by
sort_by-Ascending [] = tt
sort_by-Ascending (x ∷ xs) = insert-Ascending x (sort_by leb xs) (sort_by-Ascending xs)

last_of-nonempty : (x : ℕ) (xs : List ℕ) → last_of (x ∷ xs) ≢ none
last_of-nonempty x xs = go (last_of xs)
  where
    go : (o : Option ℕ) → elim o [ none ↦ some x | some k ↦ some k ] ≢ none
    go none e = cc
    go (some k) e = cc

last_of-upper : (n : ℕ) (xs : List ℕ) → Ascending xs → last_of xs ≡ some n → All (λ x. x ≤ n) xs
last_of-upper n [] h e = tt
last_of-upper n (x ∷ []) h e = (one e, tt)
  where
    one : ◌≡◌ {A = Option ℕ} (some x) (some n) → x ≤ n
    one e = let same : x ≡ n = cc in omega arith
last_of-upper n (x ∷ y ∷ ys) h e =
    below (last_of-upper n (y ∷ ys) h.1 (tail (last_of (y ∷ ys)) e nonempty))
  where
    nonempty : last_of (y ∷ ys) ≢ none
    nonempty = last_of-nonempty y ys

    tail :
        (o : Option ℕ) → elim o [ none ↦ some x | some k ↦ some k ] ≡ some n → o ≢ none → o ≡ some n
    tail none e ne = absurd (ne refl)
    tail (some k) e ne = e

    below : All (λ z. z ≤ n) (y ∷ ys) → All (λ z. z ≤ n) (x ∷ y ∷ ys)
    below hs = (omega (arith, h.0.0, hs.0), hs)

-- Back from the sorted list, by the weight of what is above.
All-unsorted : (n : ℕ) (xs : List ℕ) → All (λ x. x ≤ n) (sort_by leb xs) → All (λ x. x ≤ n) xs
All-unsorted n xs h =
    All-map_of (λ x. above x ≡ 0) (λ x. x ≤ n) xs (λ x e. ground arith)
      (total_zero→All above xs (
        sym (total-sort_by leb above xs)
        ∙ All→total_zero above (sort_by leb xs)
            (All-map_of (λ x. x ≤ n) (λ x. above x ≡ 0) (sort_by leb xs) (λ x le. ground arith) h)))
  where
    above : ℕ → ℕ
    above x = if leb x n then 0 else 1

All-of_map :
    {A : Type 0} (f : A → ℕ) (n : ℕ) (xs : List A)
    → All (λ k. k ≤ n) (map f xs)
    → All (λ x. f x ≤ n) xs
All-of_map f n [] h = tt
All-of_map f n (x ∷ xs) h = (h.0, All-of_map f n xs h.1)

module _ {M C : Type 0} where
  latest-highest :
      (n : ℕ) (dirs : List (Dir M C))
      → get_latest_checkpoint_path dirs ≡ some n
      → All (λ d. d.number ≤ n) (filter is_checkpoint dirs)
  unfolding get_latest_checkpoint_path
  latest-highest n dirs h =
      All-of_map (λ d. d.number) n (filter is_checkpoint dirs)
        (All-unsorted n numbers
          (last_of-upper n (sort_by leb numbers) (sort_by-Ascending numbers) h))
    where
      numbers : List ℕ
      numbers = map (λ d. d.number) (filter is_checkpoint dirs)

  -- If `get_latest_checkpoint_path` answers `step_n`, then no checkpoint directory has a number
  -- above n, and `remove_old_checkpoints`, with the latest one excluded, leaves `step_n` as it was.
  pub get_latest_checkpoint_path-remains :
      (floats : Floats M) (m : CheckpointManager) (n : ℕ) (dirs : List (Dir M C))
      → get_latest_checkpoint_path dirs ≡ some n
      → All (λ d. d.number ≤ n) (filter is_checkpoint dirs)
        × (filter (is_step n) (remove_old_checkpoints floats m true dirs) ≡ filter (is_step n) dirs)
  get_latest_checkpoint_path-remains floats m n dirs h = (
    latest-highest n dirs h,
    remove_old_checkpoints-latest floats m n dirs (latest-highest n dirs h),
  )
