-- ===== src/Replay/Buffer.antt =====
-- `ReplayBuffer`. Every method runs under the buffer's lock, so each is one function of the state.
-- A weight version is a natural number; the debug output is left out.
pub mod Rows
pub mod Sampling
pub mod Reachable
use nemo_rl_xtoken.Base.{
  indices_where, ℕ, zero, suc, ◌+◌, ◌-◌, ◌*◌, Bool, true, false, not, ◌&&◌, Option, none, some,
  List, [], ◌∷◌, ◌++◌, map, Result, ok, err, ◌>>◌, raise_if, length, get_or, is_empty, take, filter,
  remove_at, at_index, ltb, leb, ◌==◌, if◌then◌else◌, sort_by, total, flatten,
}
use nemo_rl_xtoken.Base.Int.{ℤ, pos, negsuc, max_ℤ}

pub data ReplayError : Type 0 where
  not_positive old_trajectories zero_division : ReplayError

pub record ReplayBuffer {ℓ} (T : Type ℓ) : Type ℓ where
  pub max_size : ℕ
  pub trajectories : List T
  pub trajectory_versions : List ℕ
  pub target_weight_versions : List ℕ
  pub last_target_weight_already_generated : ℤ

-- The two answers of `push_with_wait_signal`.
pub data PushStatus : Type 0 where
  full success : PushStatus

-- What `sample` returns. The average age is `age / count`, which the source computes as a float.
pub record Sample {ℓ} (T : Type ℓ) : Type ℓ where
  pub trajectories : List T
  pub age : ℕ
  pub count : ℕ

module _ {ℓ} {T : Type ℓ} where
  unfoldable pub new_buffer : ℕ → Result ReplayError (ReplayBuffer T)
  new_buffer max_size =
      raise_if (max_size == 0) not_positive
      >> ok (record {
        max_size = max_size;
        trajectories = [];
        trajectory_versions = [];
        target_weight_versions = [];
        last_target_weight_already_generated = negsuc 0;
      })

  unfoldable pub push_with_wait_signal : T → ℕ → ℕ → ReplayBuffer T → PushStatus × ReplayBuffer T
  push_with_wait_signal trajectory weight_version target_weight_version b =
      if leb b.max_size (length b.trajectories) then (full, b) else (
        success,
        record {
          max_size = b.max_size;
          trajectories = b.trajectories ++ trajectory ∷ [];
          trajectory_versions = b.trajectory_versions ++ weight_version ∷ [];
          target_weight_versions = b.target_weight_versions ++ target_weight_version ∷ [];
          last_target_weight_already_generated =
              max_ℤ b.last_target_weight_already_generated (pos target_weight_version);
        },
      )

-- `min_valid_version`; `max(0, ...)` is what the subtraction does
abbrev pub min_valid_version : ℕ → ℕ → ℕ
min_valid_version current max_age_steps = current - max_age_steps

-- `min_valid_version <= v <= current_weight_version`
abbrev pub is_valid : ℕ → ℕ → ℕ → Bool
is_valid current max_age_steps v = leb (min_valid_version current max_age_steps) v && leb v current

-- `intended_indices`, of all `valid_indices`
unfoldable pub intended_indices : ℕ → ℕ → List ℕ → List ℕ → List ℕ
unfolding indices_where
intended_indices current max_age_steps versions targets =
    filter (λ i. get_or targets i 0 == current)
      (indices_where (is_valid current max_age_steps) 0 versions)

-- The indices, which ascend, are popped from the last one to the first one.
unfoldable pub pop_from_last {ℓ} : {A : Type ℓ} → List ℕ → List A → List A
pop_from_last [] xs = xs
pop_from_last (i ∷ indices) xs = remove_at i (pop_from_last indices xs)

-- `for idx in sorted(selected, reverse=True): xs.pop(idx)`
unfoldable pub pop_selected {ℓ} : {A : Type ℓ} → List ℕ → List A → List A
unfolding pop_from_last sort_by
pop_selected selected xs = pop_from_last (sort_by leb selected) xs

-- `[xs[i] for i in selected]`
unfoldable pub pick {ℓ} : {A : Type ℓ} → List ℕ → List A → List A
pick [] xs = []
pick (i ∷ selected) xs = at_index i xs ++ pick selected xs

module _ {ℓ} {T : Type ℓ} where
  -- The end of `sample`: the result, and the buffer without the selected entries.
  unfoldable pub consume :
      List ℕ → ℕ → ReplayBuffer T → Result ReplayError (Option (Sample T) × ReplayBuffer T)
  unfolding pop_selected pick
  consume selected current b =
      let sampled_weights = pick selected b.trajectory_versions in
      do
        raise_if (length sampled_weights == 0) zero_division
        ok (
          some (record {
            trajectories = pick selected b.trajectories;
            age = length sampled_weights * current - total (λ v. v) sampled_weights;
            count = length sampled_weights;
          }),
          record {
            max_size = b.max_size;
            trajectories = pop_selected selected b.trajectories;
            trajectory_versions = pop_selected selected b.trajectory_versions;
            target_weight_versions = pop_selected selected b.target_weight_versions;
            last_target_weight_already_generated = b.last_target_weight_already_generated;
          },
        )

  unfoldable pub sample :
      ℕ → ℕ → ℕ → ReplayBuffer T → Result ReplayError (Option (Sample T) × ReplayBuffer T)
  unfolding indices_where intended_indices consume
  sample num_prompt_groups current max_age_steps b =
      let is_old = λ (v : ℕ). ltb v (min_valid_version current max_age_steps) in
      let valid = indices_where (is_valid current max_age_steps) 0 b.trajectory_versions in
      let intended =
        intended_indices current max_age_steps b.trajectory_versions b.target_weight_versions in
      if is_empty b.trajectories
      then ok (none, b)
      else if not (is_empty (filter is_old b.trajectory_versions))
      then err old_trajectories
      else if is_empty valid
      then ok (none, b)
      else if ltb (length valid) num_prompt_groups
      then ok (none, b)
      else if ltb (length intended) num_prompt_groups
      then ok (none, b)
      else consume (take num_prompt_groups intended) current b

  abbrev pub size : ReplayBuffer T → ℕ
  size b = length b.trajectories

  unfoldable pub clear : ReplayBuffer T → ReplayBuffer T
  clear b = record {
    max_size = b.max_size;
    trajectories = [];
    trajectory_versions = [];
    target_weight_versions = [];
    last_target_weight_already_generated = b.last_target_weight_already_generated;
  }
