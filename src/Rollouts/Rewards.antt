-- ===== src/Rollouts/Rewards.antt =====
-- `calculate_rewards`: the samples of a batch are grouped by task, each task's environment is called
-- once with its group, and the answers are brought back into the order of the batch. A call that
-- Ray runs elsewhere is the function that it computes.
pub mod Order
pub mod Sorted
pub mod Pointwise
use nemo_rl_xtoken.Base.{
  ℕ, zero, suc, Bool, true, false, not, Option, none, some, List, [], ◌∷◌, ◌++◌, map, Result, ok,
  err, ◌>>=◌, ◌>>◌, raise_if, length, get_or, range_from, enumerate, sort_by, by_key, if◌then◌else◌,
  flatten,
}
use nemo_rl_xtoken.Base.Text.{Text, text_eq}

pub data RewardError : Type 0 where
  no_environment index_error : RewardError

-- What a sample of the batch brings: its task, the messages' roles and contents, and its info.
pub record Request (L I : Type 0) : Type 0 where
  pub task_name : Text
  pub log : L
  pub info : I

-- An environment's `step` on a group: one answer for each entry, with the observation, the
-- metadata, the stop strings, the reward and the flag of the end.
abbrev pub EnvStep : Type 0 → Type 0 → Type 0 → Type 0
EnvStep L I O = List L → List I → List O

-- `task_groups`: the samples with their indices, under their task's name, in the order in which the
-- tasks first occur.
abbrev pub Groups : Type 0 → Type 0 → Type 0
Groups L I = List (Text × List (ℕ × Request L I))

module _ {L I : Type 0} where
  unfoldable pub add_to_group : ℕ × Request L I → Groups L I → Groups L I
  add_to_group (i, request) [] = (request.task_name, (i, request) ∷ []) ∷ []
  add_to_group (i, request) ((name, group) ∷ groups) =
      let rest = add_to_group (i, request) groups in
      if text_eq request.task_name name
      then (name, group ++ (i, request) ∷ []) ∷ groups
      else (name, group) ∷ rest

  unfoldable pub add_all : List (ℕ × Request L I) → Groups L I → Groups L I
  unfolding add_to_group
  add_all [] groups = groups
  add_all (entry ∷ entries) groups = add_all entries (add_to_group entry groups)

  abbrev pub task_groups : List (Request L I) → Groups L I
  task_groups batch = add_all (enumerate batch) []

module _ {L I : Type 0} where
  abbrev pub index_of : ℕ × Request L I → ℕ
  index_of (i, request) = i

  abbrev pub log_of : ℕ × Request L I → L
  log_of (i, request) = request.log

  abbrev pub info_of : ℕ × Request L I → I
  info_of (i, request) = request.info

module _ {L I O : Type 0} where
  abbrev pub find_env : Text → List (Text × EnvStep L I O) → Option (EnvStep L I O)
  find_env name [] = none
  find_env name ((task, step) ∷ task_to_env) =
      let rest = find_env name task_to_env in if text_eq task name then some step else rest

  -- The loop over the groups that submits the calls: the indices of each, and its future's result.
  unfoldable pub submit :
      List (Text × EnvStep L I O) → Groups L I → Result RewardError (List (List ℕ × List O))
  submit task_to_env [] = ok []
  submit task_to_env ((name, group) ∷ groups) = elim (find_env name task_to_env) [
    | none ↦ err no_environment
    | some step ↦ submit task_to_env groups >>= λ rest.
        ok ((map index_of group, step (map log_of group) (map info_of group)) ∷ rest)
  ]

-- `for i, idx in enumerate(indices)`: the answer i goes with the index; a missing one is IndexError,
-- and more answers than indices are left over.
unfoldable pub pair_answers : {O : Type 0} → List ℕ → List O → Result RewardError (List (ℕ × O))
pair_answers [] answers = ok []
pair_answers (i ∷ indices) [] = err index_error
pair_answers (i ∷ indices) (o ∷ answers) =
    pair_answers indices answers >>= λ rest. ok ((i, o) ∷ rest)

unfoldable pub collect : {O : Type 0} → List (List ℕ × List O) → Result RewardError (List (ℕ × O))
unfolding pair_answers
collect [] = ok []
collect ((indices, answers) ∷ results) = do
  pairs ← pair_answers indices answers
  rest ← collect results
  ok (pairs ++ rest)

abbrev pub order_of : {O : Type 0} → ℕ × O → ℕ
order_of (i, o) = i

abbrev pub answer_of : {O : Type 0} → ℕ × O → O
answer_of (i, o) = o

-- `sorted_indices`: the positions of the answers, by the index that each answer has in the batch.
unfoldable pub sorted_indices : List ℕ → List ℕ
unfolding sort_by
sorted_indices all_indices_order =
    sort_by (by_key (λ k. get_or all_indices_order k 0)) (range_from 0 (length all_indices_order))

-- `[all_answers[i] for i in sorted_indices]`; the positions are in range, and `default` is not read.
unfoldable pub in_batch_order : {O : Type 0} → O → List (ℕ × O) → List O
unfolding sorted_indices
in_batch_order default pairs =
    map (λ i. get_or (map answer_of pairs) i default) (sorted_indices (map order_of pairs))

unfoldable pub calculate_rewards :
    {L I O : Type 0}
    → O
    → List (Text × EnvStep L I O)
    → List (Request L I)
    → Result RewardError (List O)
unfolding add_all submit collect in_batch_order
calculate_rewards default task_to_env batch = do
  futures ← submit task_to_env (task_groups batch)
  pairs ← collect futures
  ok (in_batch_order default pairs)
