-- ===== src/Checkpoint/Removal.antt =====
-- What `remove_old_checkpoints` leaves.
use nemo_rl_xtoken.Base.{
  ℕ, zero, suc, ◌≤◌, ◌≡◌, refl, ap, ◌∙◌, Bool, true, false, not, ◌&&◌, ◌||◌, Option, none, some,
  List, [], ◌∷◌, ◌++◌, arith, filter, drop, flatten, ◌==◌, ==→eq, eq→==, Bool-cases, Option-cases,
  inl, inr, if◌then◌else◌, sort_by, All, All-sort_by, All-map_of,
}
use nemo_rl_xtoken.Checkpoint.{
  Dir, step, Floats, Info, CheckpointManager, same_kind, step_of, load_checkpoint_history,
  latest_step, stands_first, is_step, remove_tree, remove_all, outside_top, remove_old_checkpoints,
}

-- The loop removes `step_n`: one of the checkpoints it goes over has the number, and it is not
-- the excluded one.
abbrev pub goes : {M : Type 0} → Bool → ℕ → ℕ → List (ℕ × Info M) → Bool
goes exclude_latest latest n [] = false
goes exclude_latest latest n (c ∷ outside) =
    (step_of c == n && not (exclude_latest && step_of c == latest))
    || goes exclude_latest latest n outside

merge_tests :
    {A : Type 0} (skip here later : Bool) (all rest : List A)
    → rest ≡ (if here then [] else all)
    → (if later then [] else if skip then all else rest)
      ≡ (if (here && not skip) || later then [] else all)
merge_tests true true true all rest h = refl
merge_tests true true false all rest h = refl
merge_tests true false true all rest h = refl
merge_tests true false false all rest h = refl
merge_tests false true true all rest h = refl
merge_tests false true false all rest h = h
merge_tests false false true all rest h = refl
merge_tests false false false all rest h = h

filter-if :
    {A : Type 0} (test : A → Bool) (b : Bool) (xs ys : List A)
    → filter test (if b then xs else ys) ≡ (if b then filter test xs else filter test ys)
filter-if test true xs ys = refl
filter-if test false xs ys = refl

-- A loop that reaches the excluded number only, or smaller ones, does not remove what is above.
goes-latest :
    {M : Type 0} (latest n : ℕ) (outside : List (ℕ × Info M))
    → latest ≤ n
    → All (λ c. step_of c ≤ latest) outside
    → goes true latest n outside ≡ false
goes-latest latest n [] above h = refl
goes-latest latest n (c ∷ outside) above h =
    let later = goes-latest latest n outside above h.1 in
    elim (Bool-cases (step_of c == n)) [
      | inl here ↦
          rw (here, eq→== (step_of c) latest (at_latest h.0 (==→eq (step_of c) n here))) later
      | inr other ↦ rw other later
    ]
  where
    at_latest : step_of c ≤ latest → step_of c ≡ n → step_of c ≡ latest
    at_latest le here = omega arith

All-drop : {A : Type 0} (P : A → Type 0) (k : ℕ) (xs : List A) → All P xs → All P (drop k xs)
All-drop P zero xs h = h
All-drop P (suc k) [] h = tt
All-drop P (suc k) (x ∷ xs) h = All-drop P k xs h.1

latest_step-upper :
    {M : Type 0} (history : List (ℕ × Info M)) → All (λ c. step_of c ≤ latest_step history) history
unfolding latest_step
latest_step-upper [] = tt
latest_step-upper (c ∷ history) =
    (omega arith, All-map_of _ _ history (λ d h. omega arith) (latest_step-upper history))

latest_step-least :
    {M : Type 0} (n : ℕ) (history : List (ℕ × Info M))
    → All (λ c. step_of c ≤ n) history
    → latest_step history ≤ n
unfolding latest_step
latest_step-least n [] h = omega arith
latest_step-least n (c ∷ history) h = omega (arith, latest_step-least n history h.1, h.0)

module _ {M C : Type 0} where
  abbrev pub is_checkpoint : Dir M C → Bool
  is_checkpoint d = same_kind d.kind step

  filter-remove_tree :
      (n k : ℕ) (dirs : List (Dir M C))
      → filter (is_step n) (remove_tree k dirs) ≡ (if k == n then [] else filter (is_step n) dirs)
  unfolding remove_tree
  filter-remove_tree n k [] = ground arith
  filter-remove_tree n k (d ∷ dirs) = ground (arith, filter-remove_tree n k dirs)

  filter-remove_all :
      (exclude_latest : Bool) (latest n : ℕ) (outside : List (ℕ × Info M)) (dirs : List (Dir M C))
      → filter (is_step n) (remove_all exclude_latest latest outside dirs)
        ≡ (if goes exclude_latest latest n outside then [] else filter (is_step n) dirs)
  unfolding remove_all
  filter-remove_all exclude_latest latest n [] dirs = refl
  filter-remove_all exclude_latest latest n (c ∷ outside) dirs =
      filter-remove_all exclude_latest latest n outside (if skip then dirs else rest)
      ∙ ap (λ l. if goes exclude_latest latest n outside then [] else l)
          (filter-if (is_step n) skip dirs rest)
      ∙ merge_tests skip (step_of c == n) (goes exclude_latest latest n outside)
          (filter (is_step n) dirs) (filter (is_step n) rest)
          (filter-remove_tree n (step_of c) dirs)
    where
      skip : Bool
      skip = exclude_latest && step_of c == latest

      rest : List (Dir M C)
      rest = remove_tree (step_of c) dirs

  history-bound :
      (n : ℕ) (dirs : List (Dir M C))
      → All (λ d. d.number ≤ n) (filter is_checkpoint dirs)
      → All (λ c. step_of c ≤ n) (load_checkpoint_history dirs)
  unfolding load_checkpoint_history flatten
  history-bound n [] = λ h. tt
  history-bound n (d ∷ dirs) = go (is_checkpoint d) d.training_info (history-bound n dirs)
    where
      go :
          (b : Bool) (o : Option (Info M))
          → (All (λ e. e.number ≤ n) (filter is_checkpoint dirs)
              → All (λ c. step_of c ≤ n) (load_checkpoint_history dirs))
          → All
              (λ e. e.number ≤ n)
              (if b then d ∷ filter is_checkpoint dirs else filter is_checkpoint dirs)
          → All
              (λ c. step_of c ≤ n)
              ((if b then elim o [ none ↦ [] | some info ↦ (d.number, info) ∷ [] ] else [])
                ++ load_checkpoint_history dirs)
      go true none ih h = ih h.1
      go true (some info) ih h = (h.0, ih h.1)
      go false o ih h = ih h

  -- Which checkpoints `remove_old_checkpoints` leaves, with `keep_top_k` set to k: a directory
  -- `step_n` is gone exactly when a checkpoint with the number n stands outside the first k of the
  -- history, sorted by the metric and the step, and is not the excluded latest one. Every other
  -- one is left as it was.
  pub remove_old_checkpoints-goes :
      (floats : Floats M) (m : CheckpointManager) (exclude_latest : Bool) (k n : ℕ)
      (dirs : List (Dir M C))
      → m.keep_top_k ≡ some k
      → filter (is_step n) (remove_old_checkpoints floats m exclude_latest dirs) ≡ (
          if goes exclude_latest
            (latest_step (load_checkpoint_history dirs))
            n
            (outside_top floats m k dirs)
          then []
          else filter (is_step n) dirs)
  unfolding remove_old_checkpoints
  remove_old_checkpoints-goes floats m exclude_latest k n dirs set = rw set (
      filter-remove_all exclude_latest (latest_step (load_checkpoint_history dirs)) n
        (outside_top floats m k dirs) dirs)

  -- With the latest one excluded, as `finalize_checkpoint` calls it, `remove_old_checkpoints`
  -- never removes the checkpoint with the highest step number, whatever `keep_top_k`, the metric
  -- and the order of the floats are.
  pub remove_old_checkpoints-latest :
      (floats : Floats M) (m : CheckpointManager) (n : ℕ) (dirs : List (Dir M C))
      → All (λ d. d.number ≤ n) (filter is_checkpoint dirs)
      → filter (is_step n) (remove_old_checkpoints floats m true dirs) ≡ filter (is_step n) dirs
  unfolding remove_old_checkpoints outside_top
  remove_old_checkpoints-latest floats m n dirs highest = elim (Option-cases m.keep_top_k) [
    | inl unset ↦ rw unset refl
    | inr (k, set) ↦
        remove_old_checkpoints-goes floats m true k n dirs set
        ∙ ap (λ b. if b then [] else filter (is_step n) dirs)
            (goes-latest (latest_step history) n (outside_top floats m k dirs)
              (latest_step-least n history (history-bound n dirs highest))
              (All-drop _ k (sort_by (stands_first floats m) history)
                (All-sort_by (stands_first floats m) _ history (latest_step-upper history))))
  ]
    where
      history : List (ℕ × Info M)
      history = load_checkpoint_history dirs
