-- ===== src/Rollouts/Rewards/Pointwise.antt =====
-- With environments that answer each entry by itself, `calculate_rewards` does too.
use mathlib.Core.Path.{ap₂}
use nemo_rl_xtoken.Base.{
  ℕ, suc, ◌+◌, ◌≡◌, refl, sym, ap, ◌∙◌, some, List, [], ◌∷◌, ◌++◌, map, arith, ok, ◌>>=◌, length,
  get_or, range_from, enumerate, enumerate_from, keys_equal, length-range_from, map-get_or-range,
  if◌then◌else◌, total, total-enumerate_from, All, All-map_of, All-enumerate, count, ◌==◌,
  Bool-cases, inl, inr,
}
use nemo_rl_xtoken.Base.Text.{Text, text_eq}
use nemo_rl_xtoken.Rollouts.Rewards.{
  Request, EnvStep, Groups, add_to_group, add_all, task_groups, find_env, index_of, log_of, info_of,
  submit, pair_answers, collect, order_of, answer_of, sorted_indices, in_batch_order,
  calculate_rewards,
}
use nemo_rl_xtoken.Rollouts.Rewards.Order.{
  entries, AllGroups, total-add_all, add_all-AllGroups, AllGroups-entries,
}
use nemo_rl_xtoken.Rollouts.Rewards.Sorted.{map-eq, map-map, sorted-answers}

map-append : {A B : Type 0} (f : A → B) (xs ys : List A) → map f (xs ++ ys) ≡ map f xs ++ map f ys
map-append f [] ys = refl
map-append f (x ∷ xs) ys = ap (λ l. f x ∷ l) (map-append f xs ys)

length-total : {A : Type 0} (xs : List A) → total (λ x. 1) xs ≡ length xs
length-total [] = refl
length-total (x ∷ xs) = omega (arith, length-total xs)

All-trivial :
    {L I : Type 0} (es : List (ℕ × Request L I)) → All (λ e. e.1.task_name ≡ e.1.task_name) es
All-trivial [] = tt
All-trivial (e ∷ es) = (refl, All-trivial es)

All-enumerate-of :
    {A : Type 0} (P : A → Type 0) (xs : List A) (k : ℕ)
    → All P xs
    → All (λ e. P e.1) (enumerate_from k xs)
All-enumerate-of P [] k h = tt
All-enumerate-of P (x ∷ xs) k h = (h.0, All-enumerate-of P xs (suc k) h.1)

-- What each entry of the batch is answered; an environment's `step` is the list of such answers.
abbrev pub IsPointwise :
    {L I O : Type 0} → List (Text × EnvStep L I O) → (Text → L → I → O) → Type 0
IsPointwise {L} {I} {O} task_to_env answer =
    (name : Text) (step : EnvStep L I O)
    → find_env name task_to_env ≡ some step
    → (group : List (ℕ × Request L I))
    → step (map log_of group) (map info_of group)
      ≡ map (λ e. answer name (log_of e) (info_of e)) group

abbrev pub Served : {L I O : Type 0} → List (Text × EnvStep L I O) → Text → Type 0
Served {L} {I} {O} task_to_env name =
    (step : EnvStep L I O) × (find_env name task_to_env ≡ some step)

module _ {L I O : Type 0} (default : O) (task_to_env : List (Text × EnvStep L I O))
    (answer : Text → L → I → O) (pointwise : IsPointwise task_to_env answer) where
  abbrev reply : ℕ × Request L I → O
  reply (i, r) = answer r.task_name r.log r.info

  abbrev AllServed : Groups L I → Type 0
  AllServed [] = Unit
  AllServed ((name, group) ∷ groups) = Served task_to_env name × AllServed groups

  add_to_group-AllServed :
      (e : ℕ × Request L I) (groups : Groups L I)
      → Served task_to_env e.1.task_name
      → AllServed groups
      → AllServed (add_to_group e groups)
  unfolding add_to_group
  add_to_group-AllServed (i, r) [] p h = (p, tt)
  add_to_group-AllServed (i, r) ((name, group) ∷ groups) p h =
      elim (Bool-cases (text_eq r.task_name name)) [
        | inl here ↦ rw here h
        | inr there ↦ rw there (h.0, add_to_group-AllServed (i, r) groups p h.1)
      ]

  add_all-AllServed :
      (es : List (ℕ × Request L I)) (groups : Groups L I)
      → All (λ e. Served task_to_env e.1.task_name) es
      → AllServed groups
      → AllServed (add_all es groups)
  unfolding add_all
  add_all-AllServed [] groups ps h = h
  add_all-AllServed (e ∷ es) groups ps h =
      add_all-AllServed es (add_to_group e groups) ps.1 (add_to_group-AllServed e groups ps.0 h)

  abbrev future : Text × List (ℕ × Request L I) → List ℕ × List O
  future (name, group) = (map index_of group, map (λ e. answer name (log_of e) (info_of e)) group)

  submit-ok :
      (groups : Groups L I) → AllServed groups → submit task_to_env groups ≡ ok (map future groups)
  unfolding submit
  submit-ok [] h = refl
  submit-ok ((name, group) ∷ groups) ((step, found), h) =
      rw (submit, found, submit-ok groups h)
        (ap (λ os. ok ((map index_of group, os) ∷ map future groups))
          (pointwise name step found group))

  pair_answers-map :
      (a : ℕ × Request L I → O) (es : List (ℕ × Request L I))
      → pair_answers (map index_of es) (map a es) ≡ ok (map (λ e. (index_of e, a e)) es)
  unfolding pair_answers
  pair_answers-map a [] = refl
  pair_answers-map a (e ∷ es) = rw (pair_answers-map a es) refl

  abbrev named : ℕ × Request L I → ℕ × O
  named e = (index_of e, reply e)

  collect-ok :
      (groups : Groups L I)
      → AllGroups (λ name e. e.1.task_name ≡ name) groups
      → collect (map future groups) ≡ ok (map named (entries groups))
  unfolding collect
  collect-ok [] h = refl
  collect-ok ((name, group) ∷ groups) h =
      rw (pair_answers-map (λ e. answer name (log_of e) (info_of e)) group, collect-ok groups h.1)
        (ap ok (
          ap (λ ps. ps ++ map named (entries groups))
            (map-eq (λ e. (index_of e, answer name (log_of e) (info_of e))) named group
              (All-map_of _ _ group
                (λ e same. ap (λ n. (index_of e, answer n (log_of e) (info_of e))) (sym same)) h.0))
          ∙ sym (map-append named group (entries groups))))

  module _ (r : Request L I) (rs : List (Request L I)) where
    abbrev batch : List (Request L I)
    batch = r ∷ rs

    abbrev es : List (ℕ × Request L I)
    es = entries (task_groups batch)

    abbrev own : Request L I → O
    own q = answer q.task_name q.log q.info

    total-entries : (w : ℕ × Request L I → ℕ) → total w es ≡ total w (enumerate batch)
    total-entries w = omega (arith, total-add_all w (enumerate batch) [])

    length-entries : length es ≡ length batch
    length-entries = omega (
      arith,
      length-total es,
      total-entries (λ e. 1),
      total-enumerate_from (λ i. 1) 0 batch,
      length-total (range_from 0 (length batch)),
      length-range_from 0 (length batch),
    )

    entries-once : (i : ℕ) → keys_equal index_of i es ≡ count i (range_from 0 (length es))
    entries-once i =
        total-entries (λ e. if i == index_of e then 1 else 0)
        ∙ total-enumerate_from (λ j. if i == j then 1 else 0) 0 batch
        ∙ ap (λ n. count i (range_from 0 n)) (sym length-entries)

    entries-own : All (λ e. reply e ≡ own (get_or batch (index_of e) r)) es
    entries-own = AllGroups-entries _ (task_groups batch) (
        add_all-AllGroups (λ name e. reply e ≡ own (get_or batch (index_of e) r)) (enumerate batch)
          []
          (All-map_of _ _ (enumerate batch) (λ e here. ap own (sym here)) (All-enumerate batch r))
          tt)

    same_names : AllGroups (λ name e. e.1.task_name ≡ name) (task_groups batch)
    same_names =
        add_all-AllGroups (λ name e. e.1.task_name ≡ name) (enumerate batch) []
          (All-trivial (enumerate batch)) tt

    in_batch_order-entries : in_batch_order default (map named es) ≡ map own batch
    unfolding in_batch_order
    in_batch_order-entries =
        ap₂ (λ answers order. map (λ i. get_or answers i default) (sorted_indices order))
          (map-map answer_of named es) (map-map order_of named es)
        ∙ sorted-answers index_of reply (λ i. own (get_or batch i r)) default es entries-own
            entries-once (0, r)
        ∙ ap (λ n. map (λ i. own (get_or batch i r)) (range_from 0 n)) length-entries
        ∙ sym (map-map own (λ i. get_or batch i r) (range_from 0 (length batch)))
        ∙ ap (map own)
            (map-get_or-range r 0 batch batch (λ j. ap (λ i. get_or batch i r) (start j)))
      where
        start : (j : ℕ) → 0 + j ≡ j
        start j = omega arith

  -- If every task of the batch has an environment, and every environment answers each entry of its
  -- group by a function of that entry, then `calculate_rewards` succeeds and gives each sample the
  -- answer for its own log and info, in the order of the batch, however the tasks are mixed.
  pub calculate_rewards-answer :
      (batch : List (Request L I))
      → All (λ r. Served task_to_env r.task_name) batch
      → calculate_rewards default task_to_env batch
        ≡ ok (map (λ r. answer r.task_name r.log r.info) batch)
  unfolding calculate_rewards add_all
  calculate_rewards-answer [] served = refl
  calculate_rewards-answer (r ∷ rs) served =
      ap (λ m. m >>= λ futures. collect futures >>= λ pairs. ok (in_batch_order default pairs))
        (submit-ok (task_groups (r ∷ rs))
          (add_all-AllServed (enumerate (r ∷ rs)) [] (All-enumerate-of _ (r ∷ rs) 0 served) tt))
      ∙ ap (λ m. m >>= λ pairs. ok (in_batch_order default pairs))
          (collect-ok (task_groups (r ∷ rs)) (same_names r rs))
      ∙ ap ok (in_batch_order-entries r rs)
