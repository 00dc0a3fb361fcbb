-- ===== src/Checkpoint.antt =====
-- Checkpoint directories, of nemo_rl/utils/checkpoint.py. The directory `checkpoint_dir` is the
-- list of the directories in it; what a directory holds besides `training_info.json` is one value.
-- A name has its step number in decimal, as the manager writes it.
pub mod Removal
pub mod Latest
pub mod Finalize
pub mod Best
mod Examples
use nemo_rl_xtoken.Base.{
  ℕ, zero, suc, ◌≡◌, Bool, true, false, not, ◌&&◌, Option, none, some, List, [], ◌∷◌, map, Result,
  ok, err, ◌>>=◌, ◌>>◌, raise_if, is_empty, filter, drop, ltb, leb, max, ◌==◌, if◌then◌else◌,
  sort_by, flatten,
}
use nemo_rl_xtoken.Base.Text.{Text, text_eq}

-- `tmp_step_N`, `step_N` and `old_step_N`
pub data DirKind : Type 0 where
  tmp_step step old_step : DirKind

-- The floats of the metrics, with `<` and `==`.
pub record Floats (M : Type 0) : Type 0 where
  pub lt : M → M → Bool
  pub eq : M → M → Bool
  pub minus_inf : M
  pub plus_inf : M

-- `training_info.json`: the values under their names
abbrev pub Info : Type 0 → Type 0
Info M = List (Text × M)

pub record Dir (M C : Type 0) : Type 0 where
  pub kind : DirKind
  pub number : ℕ
  pub training_info : Option (Info M)
  pub content : C

pub record CheckpointManager : Type 0 where
  pub metric_name : Option Text
  pub higher_is_better : Bool
  pub keep_top_k : Option ℕ

abbrev pub same_kind : DirKind → DirKind → Bool
same_kind tmp_step tmp_step = true
same_kind step step = true
same_kind old_step old_step = true
same_kind _ _ = false

-- `info.get(name)`
abbrev pub lookup : {M : Type 0} → Text → Info M → Option M
lookup name [] = none
lookup name ((key, value) ∷ info) =
    let rest = lookup name info in if text_eq key name then some value else rest

-- `info.get(self.metric_name, default)`
abbrev pub metric_or : {M : Type 0} → CheckpointManager → M → Info M → M
metric_or m default info = elim m.metric_name [
  | none ↦ default
  | some name ↦ elim (lookup name info) [ none ↦ default | some value ↦ value ]
]

-- An entry of `checkpoint_history`: the step and the info.
abbrev pub history_entry : {M C : Type 0} → Dir M C → List (ℕ × Info M)
history_entry d =
    if same_kind d.kind step
    then elim d.training_info [ none ↦ [] | some info ↦ (d.number, info) ∷ [] ]
    else []

unfoldable pub load_checkpoint_history : {M C : Type 0} → List (Dir M C) → List (ℕ × Info M)
unfolding flatten
load_checkpoint_history dirs = flatten (map history_entry dirs)

abbrev pub step_of : {M : Type 0} → ℕ × Info M → ℕ
step_of (n, info) = n

-- `max([step for step, _, _ in checkpoint_history])`; 0 where there is no checkpoint, and then
-- nothing is removed
unfoldable pub latest_step : {M : Type 0} → List (ℕ × Info M) → ℕ
latest_step [] = 0
latest_step (c ∷ history) = max (step_of c) (latest_step history)

-- The order of tuples: the second component decides where the first ones are equal.
abbrev pub tuple_lt : {M : Type 0} → Floats M → (ℕ → ℕ → Bool) → M × ℕ → M × ℕ → Bool
tuple_lt floats second_lt (v, n) (w, k) = if floats.eq v w then second_lt n k else floats.lt v w

-- The checkpoints, the best first: `first c d` says that `c` may stand in front of `d`.
abbrev pub stands_first :
    {M : Type 0} → Floats M → CheckpointManager → ℕ × Info M → ℕ × Info M → Bool
stands_first floats m (n, info) (k, info') = elim m.metric_name [
  | none ↦ not (ltb n k)
  | some name ↦
      if m.higher_is_better
      then not (
          tuple_lt floats ltb (metric_or m floats.minus_inf info, n)
            (metric_or m floats.minus_inf info', k))
      else not (
          tuple_lt floats (λ a b. ltb b a) (metric_or m floats.plus_inf info', k)
            (metric_or m floats.plus_inf info, n))
]

-- The directory's name is `step_n`.
abbrev pub is_step : {M C : Type 0} → ℕ → Dir M C → Bool
is_step n d = same_kind d.kind step && d.number == n

-- `shutil.rmtree` of a directory `step_n`
unfoldable pub remove_tree : {M C : Type 0} → ℕ → List (Dir M C) → List (Dir M C)
remove_tree n dirs = filter (λ d. not (is_step n d)) dirs

-- The loop over the checkpoints outside the top k.
unfoldable pub remove_all :
    {M C : Type 0} → Bool → ℕ → List (ℕ × Info M) → List (Dir M C) → List (Dir M C)
unfolding remove_tree
remove_all exclude_latest latest [] dirs = dirs
remove_all exclude_latest latest (c ∷ outside) dirs =
    remove_all exclude_latest latest outside
      (if exclude_latest && step_of c == latest then dirs else remove_tree (step_of c) dirs)

-- `checkpoint_history[self.keep_top_k:]`, sorted
unfoldable pub outside_top :
    {M C : Type 0} → Floats M → CheckpointManager → ℕ → List (Dir M C) → List (ℕ × Info M)
unfolding sort_by load_checkpoint_history
outside_top floats m k dirs =
    drop k (sort_by (stands_first floats m) (load_checkpoint_history dirs))

unfoldable pub remove_old_checkpoints :
    {M C : Type 0} → Floats M → CheckpointManager → Bool → List (Dir M C) → List (Dir M C)
unfolding outside_top latest_step remove_all
remove_old_checkpoints floats m exclude_latest dirs = elim m.keep_top_k [
  | none ↦ dirs
  | some k ↦
      remove_all exclude_latest (latest_step (load_checkpoint_history dirs))
        (outside_top floats m k dirs) dirs
]

-- `os.rename` fails on a missing source, and on a target that is a directory with something in it;
-- that each directory here holds something is assumed, since onto an empty one it succeeds.
pub data OsError : Type 0 where
  not_found not_empty : OsError

abbrev pub has_name : {M C : Type 0} → DirKind → ℕ → Dir M C → Bool
has_name kind n d = same_kind d.kind kind && d.number == n

-- `path.exists()`
abbrev pub path_exists : {M C : Type 0} → DirKind → ℕ → List (Dir M C) → Bool
path_exists kind n dirs = not (is_empty (filter (has_name kind n) dirs))

abbrev pub renamed : {M C : Type 0} → DirKind → DirKind → ℕ → Dir M C → Dir M C
renamed from to n d =
    if has_name from n d
    then record { kind = to; number = n; training_info = d.training_info; content = d.content }
    else d

unfoldable pub rename :
    {M C : Type 0} → DirKind → DirKind → ℕ → List (Dir M C) → Result OsError (List (Dir M C))
rename from to n dirs = do
  raise_if (not (path_exists from n dirs)) not_found
  raise_if (path_exists to n dirs) not_empty
  ok (map (renamed from to n) dirs)

-- The renames of `finalize_checkpoint`, for `tmp_step_n`.
unfoldable pub replace_checkpoint :
    {M C : Type 0} → ℕ → List (Dir M C) → Result OsError (List (Dir M C))
unfolding rename
replace_checkpoint n dirs =
    if path_exists step n dirs
    then (rename step old_step n dirs >>= rename tmp_step step n >>= λ placed.
        ok (filter (λ d. not (has_name old_step n d)) placed))
    else rename tmp_step step n dirs

unfoldable pub finalize_checkpoint :
    {M C : Type 0}
    → Floats M
    → CheckpointManager
    → ℕ
    → List (Dir M C)
    → Result OsError (List (Dir M C))
unfolding replace_checkpoint remove_old_checkpoints
finalize_checkpoint floats m n dirs = do
  placed ← replace_checkpoint n dirs
  ok (remove_old_checkpoints floats m true placed)

-- `step_dirs[-1]`, of the numbers sorted; `none` stands for the answer None
abbrev pub last_of : List ℕ → Option ℕ
last_of [] = none
last_of (n ∷ ns) = let rest = last_of ns in elim rest [ none ↦ some n | some k ↦ some k ]

-- The path is `step_n`, for the number that is given back.
unfoldable pub get_latest_checkpoint_path : {M C : Type 0} → List (Dir M C) → Option ℕ
unfolding sort_by
get_latest_checkpoint_path dirs =
    last_of (sort_by leb (map (λ d. d.number) (filter (λ d. same_kind d.kind step) dirs)))

-- The checkpoints that have the metric, with its value.
abbrev pub with_metric : {M : Type 0} → CheckpointManager → ℕ × Info M → List (ℕ × M)
with_metric m (n, info) = elim m.metric_name [
  | none ↦ []
  | some name ↦ elim (lookup name info) [ none ↦ [] | some value ↦ (n, value) ∷ [] ]
]

-- `valid_checkpoints.sort(key=..., reverse=self.higher_is_better)`
abbrev pub better : {M : Type 0} → Floats M → CheckpointManager → ℕ × M → ℕ × M → Bool
better floats m (n, v) (k, w) =
    if m.higher_is_better then not (floats.lt v w) else not (floats.lt w v)

abbrev pub first_or : {M : Type 0} → Option ℕ → List (ℕ × M) → Option ℕ
first_or latest [] = latest
first_or latest ((n, v) ∷ valid_checkpoints) = some n

unfoldable pub get_best_checkpoint_path :
    {M C : Type 0} → Floats M → CheckpointManager → List (Dir M C) → Option ℕ
unfolding load_checkpoint_history get_latest_checkpoint_path flatten
get_best_checkpoint_path floats m dirs =
    let history = load_checkpoint_history dirs in
    let valid = flatten (map (with_metric m) history) in
    if is_empty history
    then none
    else first_or (get_latest_checkpoint_path dirs) (sort_by (better floats m) valid)
