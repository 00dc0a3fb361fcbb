-- ===== src/Checkpoint/Examples.antt =====
-- Runs on small directories, and the properties there.
use nemo_rl_xtoken.Base.{
  ◌&&◌, not, All, ◌≤◌, ℕ, ◌≡◌, refl, true, some, List, [], ◌∷◌, arith, ok, filter, flatten, sort_by,
  ltb, ◌==◌, if◌then◌else◌,
}
use nemo_rl_xtoken.Base.Text.{codes, text_eq}
use nemo_rl_xtoken.Checkpoint.{
  Info, Dir, DirKind, tmp_step, step, Floats, CheckpointManager, is_step, latest_step,
  load_checkpoint_history, remove_old_checkpoints, finalize_checkpoint, get_latest_checkpoint_path,
  get_best_checkpoint_path,
}
use nemo_rl_xtoken.Checkpoint.Removal.{is_checkpoint, remove_old_checkpoints-latest}
use nemo_rl_xtoken.Checkpoint.Best.{IsRanked, IsTop, has_step, remove_old_checkpoints-IsTop}
use nemo_rl_xtoken.Checkpoint.Latest.{get_latest_checkpoint_path-remains}
use nemo_rl_xtoken.Checkpoint.Finalize.{IsPlaced, replace_checkpoint-IsPlaced}

program : Unit {0}
unfolding flatten sort_by text_eq remove_old_checkpoints finalize_checkpoint
    get_best_checkpoint_path
program = tt

-- Metrics that are natural numbers, up to 1000.
abbrev naturals : Floats ℕ
naturals = record { lt = ltb; eq = λ a b. a == b; minus_inf = 0; plus_inf = 1000 }

abbrev best_two : CheckpointManager
best_two = record { metric_name = some (codes "acc"); higher_is_better = true; keep_top_k = some 2 }

abbrev saved : DirKind → ℕ → ℕ → Dir ℕ ℕ
saved kind number acc = record {
  kind = kind;
  number = number;
  training_info = some ((codes "acc", acc) ∷ []);
  content = number;
}

abbrev four : List (Dir ℕ ℕ)
four = saved step 1 90 ∷ saved step 2 50 ∷ saved step 3 90 ∷ saved step 4 10 ∷ []

-- Step 2 goes; step 4 is the latest.
remove_one :
    remove_old_checkpoints naturals best_two true four
    ≡ saved step 1 90 ∷ saved step 3 90 ∷ saved step 4 10 ∷ []
unfolding program
remove_one = refl

finalize_fourth :
    finalize_checkpoint naturals best_two 4 (saved tmp_step 4 95 ∷ four)
    ≡ ok (saved step 4 95 ∷ saved step 3 90 ∷ [])
unfolding program
finalize_fourth = refl

naturals-IsRanked : IsRanked naturals (λ n. n)
naturals-IsRanked = record { less = λ v w. refl; equal = λ v w. refl }

remove_old_checkpoints-IsTop_example :
    let history = load_checkpoint_history four in
    (kept gone : List (ℕ × Info ℕ)) × IsTop naturals (λ n. n) best_two 2 history kept gone
    × (filter (is_step 2) (remove_old_checkpoints naturals best_two true four) ≡ (
        if has_step 2 gone && not (true && 2 == latest_step history)
        then []
        else filter (is_step 2) four))
remove_old_checkpoints-IsTop_example =
    remove_old_checkpoints-IsTop naturals (λ n. n) naturals-IsRanked best_two true 2 2 four refl

remove_old_checkpoints-latest_example :
    filter (is_step 4) (remove_old_checkpoints naturals best_two true four)
    ≡ filter (is_step 4) four
remove_old_checkpoints-latest_example =
    remove_old_checkpoints-latest naturals best_two 4 four
      (omega arith, (omega arith, (omega arith, (omega arith, tt))))

-- Of the equal metrics, the directory that comes first.
best_path : get_best_checkpoint_path naturals best_two four ≡ some 1
unfolding program
best_path = refl

latest_path : get_latest_checkpoint_path four ≡ some 4
unfolding program
latest_path = refl

-- Step 4 is saved again.
four_again : List (Dir ℕ ℕ)
four_again = saved step 4 95 ∷ saved step 1 90 ∷ saved step 2 50 ∷ saved step 3 90 ∷ []

replace_checkpoint-IsPlaced_example : IsPlaced 4 (saved tmp_step 4 95 ∷ four) four_again
unfolding program four_again
replace_checkpoint-IsPlaced_example =
    replace_checkpoint-IsPlaced 4 (saved tmp_step 4 95 ∷ four) four_again refl

get_latest_checkpoint_path-remains_example :
    All (λ d. d.number ≤ 4) (filter is_checkpoint four)
    × (filter (is_step 4) (remove_old_checkpoints naturals best_two true four)
        ≡ filter (is_step 4) four)
get_latest_checkpoint_path-remains_example =
    get_latest_checkpoint_path-remains naturals best_two 4 four latest_path
