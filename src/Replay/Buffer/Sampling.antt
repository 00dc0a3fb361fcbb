-- ===== src/Replay/Buffer/Sampling.antt =====
-- `sample` on the entries of the buffer: all its branches.
use nemo_rl_xtoken.Base.{
  filter-suc, length-map, indices_where, indices-suc, ℕ, zero, suc, ◌-◌, ◌*◌, ◌≤◌, ◌<◌, ◌≡◌, refl,
  sym, ap, ◌∙◌, Bool, true, false, not, ◌&&◌, Option, none, some, List, [], ◌∷◌, map, arith, Result,
  ok, err, length, get_or, is_empty, take, filter, ltb, leb, ◌==◌, Bool-cases, inl, inr,
  if◌then◌else◌, total, lt→leb_false, leb→le,
}
use nemo_rl_xtoken.Base.Int.{ℤ}
use nemo_rl_xtoken.Replay.Buffer.{
  ReplayBuffer, Sample, ReplayError, min_valid_version, is_valid, intended_indices, consume, sample,
  old_trajectories,
}
use nemo_rl_xtoken.Replay.Buffer.Rows.{
  Entry, of_entries, taken, left, pop_selected-left, pick-taken,
}

abbrev pub Outcome : Type 0 → Type 0
Outcome T = Result ReplayError (Option (Sample T) × ReplayBuffer T)

module _ (current max_age_steps : ℕ) {T : Type 0} where
  -- Within the age window, and meant for the current version.
  abbrev pub is_intended : Entry T → Bool
  is_intended e = is_valid current max_age_steps e.version && e.target == current

  -- Some entry is older than the window.
  abbrev pub any_old : List (Entry T) → Bool
  any_old entries = not (
      is_empty (
        filter (λ v. ltb v (min_valid_version current max_age_steps))
          (map (λ e. e.version) entries)))

length-filter : {A : Type 0} (p : A → Bool) (xs : List A) → length (filter p xs) ≤ length xs
length-filter p [] = omega arith
length-filter p (x ∷ xs) = go (p x) (length-filter p xs)
  where
    go :
        (b : Bool)
        → length (filter p xs) ≤ length xs
        → length (if b then x ∷ filter p xs else filter p xs) ≤ suc (length xs)
    go true ih = omega arith
    go false ih = omega arith

length-indices :
    {A : Type 0} (test : A → Bool) (k : ℕ) (xs : List A)
    → length (indices_where test k xs) ≡ length (filter test xs)
unfolding indices_where
length-indices test k [] = refl
length-indices test k (x ∷ xs) = go (test x) (length-indices test (suc k) xs)
  where
    go :
        (b : Bool)
        → length (indices_where test (suc k) xs) ≡ length (filter test xs)
        → length (if b then k ∷ indices_where test (suc k) xs else indices_where test (suc k) xs)
          ≡ length (if b then x ∷ filter test xs else filter test xs)
    go true ih = ap suc ih
    go false ih = ih

length-taken :
    {A : Type 0} (test : A → Bool) (n : ℕ) (xs : List A)
    → n ≤ length (filter test xs)
    → length (taken test n xs) ≡ n
length-taken test zero xs = λ h. refl
length-taken test (suc n) [] = λ h. absurd (omega arith)
length-taken test (suc n) (x ∷ xs) =
    go (test x) (length-taken test n xs) (length-taken test (suc n) xs)
  where
    go :
        (b : Bool)
        → (n ≤ length (filter test xs) → length (taken test n xs) ≡ n)
        → (suc n ≤ length (filter test xs) → length (taken test (suc n) xs) ≡ suc n)
        → suc n ≤ length (if b then x ∷ filter test xs else filter test xs)
        → length (if b then x ∷ taken test n xs else taken test (suc n) xs) ≡ suc n
    go true ih ih' h = ap suc (ih (omega arith))
    go false ih ih' h = ih' h

-- The guards before the selection, as one.
one_guard :
    {X : Type 0} (valid intended : List ℕ) (num : ℕ) (wait go_on : X)
    → 0 < num
    → length intended ≤ length valid
    → (if is_empty valid
        then wait
        else if ltb (length valid) num
        then wait
        else if ltb (length intended) num
        then wait
        else go_on)
      ≡ (if leb num (length intended) then go_on else wait)
one_guard [] [] num wait go_on h s = ground arith
one_guard [] (i ∷ is) num wait go_on h s = absurd (omega arith)
one_guard (v ∷ vs) intended num wait go_on h s = ground arith

module _ (current max_age_steps : ℕ) {T : Type 0} where
  intended_indices-entries :
      (entries : List (Entry T))
      → intended_indices current max_age_steps
          (map (λ e. e.version) entries)
          (map (λ e. e.target) entries)
        ≡ indices_where (is_intended current max_age_steps) 0 entries
  unfolding intended_indices indices_where
  intended_indices-entries [] = refl
  intended_indices-entries (e ∷ es) = go (is_valid current max_age_steps e.version) (
      ap (filter meant) (indices-suc (is_valid current max_age_steps) 0 versions)
      ∙ filter-suc meant (indices_where (is_valid current max_age_steps) 0 versions)
      ∙ ap (map suc) (intended_indices-entries es)
      ∙ sym (indices-suc (is_intended current max_age_steps) 0 es))
    where
      versions : List ℕ
      versions = map (λ e. e.version) es

      meant : ℕ → Bool
      meant i = get_or (e.target ∷ map (λ e. e.target) es) i 0 == current

      go :
          (b : Bool)
          → filter meant (indices_where (is_valid current max_age_steps) 1 versions)
            ≡ indices_where (is_intended current max_age_steps) 1 es
          → filter meant (
              if b
              then 0 ∷ indices_where (is_valid current max_age_steps) 1 versions
              else indices_where (is_valid current max_age_steps) 1 versions)
            ≡ (if b && e.target == current
                then 0 ∷ indices_where (is_intended current max_age_steps) 1 es
                else indices_where (is_intended current max_age_steps) 1 es)
      go true ih = ap (λ l. if e.target == current then 0 ∷ l else l) ih
      go false ih = ih

  -- What `sample` gives when there are enough entries.
  abbrev pub sampled : ℕ → List (Entry T) → Sample T
  sampled num entries =
      let chosen = taken (is_intended current max_age_steps) num entries in
      record {
        trajectories = map (λ e. e.trajectory) chosen;
        age = num * current - total (λ v. v) (map (λ e. e.version) chosen);
        count = num;
      }

  consume-entries :
      (num max_size : ℕ) (last : ℤ) (entries : List (Entry T))
      → 0 < num
      → num ≤ length (filter (is_intended current max_age_steps) entries)
      → consume
          (take num (indices_where (is_intended current max_age_steps) 0 entries))
          current
          (of_entries max_size last entries)
        ≡ ok (
          some (sampled num entries),
          of_entries max_size last (left (is_intended current max_age_steps) num entries),
        )
  unfolding consume
  consume-entries num max_size last entries some_groups enough =
      rw
        (
          pick-taken (λ e. e.version) test num entries,
          pick-taken (λ e. e.trajectory) test num entries,
          pop_selected-left (λ e. e.version) test num entries,
          pop_selected-left (λ e. e.target) test num entries,
          pop_selected-left (λ e. e.trajectory) test num entries,
          size,
          nonzero,
        )
        refl
    where
      test : Entry T → Bool
      test = is_intended current max_age_steps

      size : length (map (λ e. e.version) (taken test num entries)) ≡ num
      size =
          length-map (λ e. e.version) (taken test num entries)
          ∙ length-taken test num entries enough

      nonzero : (num == 0) ≡ false
      nonzero = ground arith

  enough_or_wait :
      (num max_size : ℕ) (last : ℤ) (entries : List (Entry T)) (wait : Outcome T)
      → 0 < num
      → (if leb num (length (indices_where (is_intended current max_age_steps) 0 entries))
          then consume
              (take num (indices_where (is_intended current max_age_steps) 0 entries))
              current
              (of_entries max_size last entries)
          else wait)
        ≡ (if leb num (length (filter (is_intended current max_age_steps) entries))
            then ok (
              some (sampled num entries),
              of_entries max_size last (left (is_intended current max_age_steps) num entries),
            )
            else wait)
  enough_or_wait num max_size last entries wait some_groups =
      elim (Bool-cases (leb num (length (filter (is_intended current max_age_steps) entries)))) [
        | inl enough ↦
            rw (length-indices (is_intended current max_age_steps) 0 entries, enough)
              (consume-entries num max_size last entries some_groups (leb→le _ _ enough))
        | inr short ↦ rw (length-indices (is_intended current max_age_steps) 0 entries, short) refl
      ]

  pub sample-entries :
      (num max_size : ℕ) (last : ℤ) (entries : List (Entry T))
      → 0 < num
      → sample num current max_age_steps (of_entries max_size last entries) ≡ (
          if any_old current max_age_steps entries
          then err old_trajectories
          else if leb num (length (filter (is_intended current max_age_steps) entries))
          then ok (
            some (sampled num entries),
            of_entries max_size last (left (is_intended current max_age_steps) num entries),
          )
          else ok (none, of_entries max_size last entries))
  unfolding sample intended_indices
  sample-entries num max_size last [] some_groups = rw (lt→leb_false num 0 some_groups) refl
  sample-entries num max_size last (e ∷ es) some_groups =
      ap
        (λ (o : Outcome T).
          if any_old current max_age_steps (e ∷ es) then err old_trajectories else o)
        (one_guard valid intended num wait
            (consume (take num intended) current (of_entries max_size last (e ∷ es))) some_groups
            (length-filter meant valid)
          ∙ ap
              (λ is.
                if leb num (length is)
                then consume (take num is) current (of_entries max_size last (e ∷ es))
                else wait)
              (intended_indices-entries (e ∷ es))
          ∙ enough_or_wait num max_size last (e ∷ es) wait some_groups)
    where
      versions : List ℕ
      versions = map (λ e. e.version) (e ∷ es)

      targets : List ℕ
      targets = map (λ e. e.target) (e ∷ es)

      meant : ℕ → Bool
      meant i = get_or targets i 0 == current

      valid : List ℕ
      valid = indices_where (is_valid current max_age_steps) 0 versions

      intended : List ℕ
      intended = intended_indices current max_age_steps versions targets

      wait : Outcome T
      wait = ok (none, of_entries max_size last (e ∷ es))
