-- ===== src/Rollouts/Rewards/Order.antt =====
-- The answers come back in the order of the batch.
use mathlib.Core.Path.{subst}
use nemo_rl_xtoken.Base.{
  ℕ, ◌+◌, ◌≡◌, List, [], ◌∷◌, ◌++◌, arith, total, total-append, All, All-append, Bool-cases, inl,
  inr,
}
use nemo_rl_xtoken.Base.Text.{Text, text_eq, text_eq→eq}
use nemo_rl_xtoken.Rollouts.Rewards.{Request, Groups, add_to_group, add_all}

module _ {L I : Type 0} where
  abbrev pub entries : Groups L I → List (ℕ × Request L I)
  entries [] = []
  entries ((name, group) ∷ groups) = group ++ entries groups

  -- Grouping keeps the samples, each as often.
  total-add_to_group :
      (w : ℕ × Request L I → ℕ) (e : ℕ × Request L I) (groups : Groups L I)
      → total w (entries (add_to_group e groups)) ≡ w e + total w (entries groups)
  unfolding add_to_group
  total-add_to_group w (i, r) [] = omega arith
  total-add_to_group w (i, r) ((name, group) ∷ groups) =
      elim (Bool-cases (text_eq r.task_name name)) [
        | inl here ↦ rw here (
            omega (
              arith,
              total-append w (group ++ (i, r) ∷ []) (entries groups),
              total-append w group ((i, r) ∷ []),
              total-append w group (entries groups),
            ))
        | inr there ↦ rw there (
            omega (
              arith,
              total-append w group (entries (add_to_group (i, r) groups)),
              total-append w group (entries groups),
              total-add_to_group w (i, r) groups,
            ))
      ]

  pub total-add_all :
      (w : ℕ × Request L I → ℕ) (es : List (ℕ × Request L I)) (groups : Groups L I)
      → total w (entries (add_all es groups)) ≡ total w es + total w (entries groups)
  unfolding add_all
  total-add_all w [] groups = omega arith
  total-add_all w (e ∷ es) groups =
      omega (arith, total-add_all w es (add_to_group e groups), total-add_to_group w e groups)

  -- What holds of a task's name and of every sample in its group.
  abbrev pub AllGroups : (Text → ℕ × Request L I → Type 0) → Groups L I → Type 0
  AllGroups P [] = Unit
  AllGroups P ((name, group) ∷ groups) = All (P name) group × AllGroups P groups

  add_to_group-AllGroups :
      (P : Text → ℕ × Request L I → Type 0) (e : ℕ × Request L I) (groups : Groups L I)
      → P e.1.task_name e
      → AllGroups P groups
      → AllGroups P (add_to_group e groups)
  unfolding add_to_group
  add_to_group-AllGroups P (i, r) [] p h = ((p, tt), tt)
  add_to_group-AllGroups P (i, r) ((name, group) ∷ groups) p h =
      elim (Bool-cases (text_eq r.task_name name)) [
        | inl here ↦ rw here (
          All-append (P name) group ((i, r) ∷ []) h.0
              (subst (λ n. P n (i, r)) (text_eq→eq r.task_name name here) p, tt),
          h.1,
        )
        | inr there ↦ rw there (h.0, add_to_group-AllGroups P (i, r) groups p h.1)
      ]

  pub add_all-AllGroups :
      (P : Text → ℕ × Request L I → Type 0) (es : List (ℕ × Request L I)) (groups : Groups L I)
      → All (λ e. P e.1.task_name e) es
      → AllGroups P groups
      → AllGroups P (add_all es groups)
  unfolding add_all
  add_all-AllGroups P [] groups ps h = h
  add_all-AllGroups P (e ∷ es) groups ps h =
      add_all-AllGroups P es (add_to_group e groups) ps.1 (add_to_group-AllGroups P e groups ps.0 h)

  pub AllGroups-entries :
      (P : ℕ × Request L I → Type 0) (groups : Groups L I)
      → AllGroups (λ name. P) groups
      → All P (entries groups)
  AllGroups-entries P [] h = tt
  AllGroups-entries P ((name, group) ∷ groups) h =
      All-append P group (entries groups) h.0 (AllGroups-entries P groups h.1)
