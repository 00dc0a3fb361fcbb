-- ===== src/Checkpoint/Finalize.antt =====
-- What the renames of `finalize_checkpoint` leave.
use mathlib.Core.Path.{subst}
use nemo_rl_xtoken.Base.{
  ℕ, ◌≡◌, refl, ap, ◌∙◌, Bool, true, false, not, Option, List, [], ◌∷◌, map, Result, ok, ◌>>=◌,
  >>=-eq-ok, ok-injective, raise_if-passes, filter, ◌==◌, eq→==, Bool-cases, inl, inr,
  if◌then◌else◌,
}
use nemo_rl_xtoken.Checkpoint.{
  Dir, DirKind, tmp_step, step, old_step, Info, OsError, not_found, not_empty, has_name,
  path_exists, renamed, rename, replace_checkpoint,
}

self : (n : ℕ) → (n == n) ≡ true
self n = eq→== n n refl

then_branch :
    {A : Type 0} (b : Bool) (x y : A) {z : A} → b ≡ true → (if b then x else y) ≡ z → x ≡ z
then_branch true x y b_true e = e
then_branch false x y b_true e = cc

else_branch :
    {A : Type 0} (b : Bool) (x y : A) {z : A} → b ≡ false → (if b then x else y) ≡ z → y ≡ z
else_branch true x y b_false e = cc
else_branch false x y b_false e = e

abbrev dir : {M C : Type 0} → DirKind → ℕ → Option (Info M) → C → Dir M C
dir kind number info content = record {
  kind = kind;
  number = number;
  training_info = info;
  content = content;
}

module _ {M C : Type 0} (n : ℕ) where
  rename-ok :
      (from to : DirKind) (dirs dirs' : List (Dir M C))
      → rename from to n dirs ≡ ok dirs'
      → map (renamed from to n) dirs ≡ dirs'
  unfolding rename
  rename-ok from to dirs dirs' h =
      let (found, h1) = raise_if-passes (not (path_exists from n dirs)) not_found _ h in
      let (free, h2) = raise_if-passes (path_exists to n dirs) not_empty _ h1 in ok-injective h2

  -- The list that the three operations make when `step_n` exists.
  abbrev swapped : List (Dir M C) → List (Dir M C)
  swapped dirs =
      filter (λ d. not (has_name old_step n d))
        (map (renamed tmp_step step n) (map (renamed step old_step n) dirs))

  abbrev elsewhere : List (Dir M C) → List (Dir M C)
  elsewhere dirs = filter (λ d. not (d.number == n)) dirs

  abbrev saved : List (Dir M C) → List (Dir M C)
  saved dirs = map (renamed tmp_step step n) (filter (has_name tmp_step n) dirs)

  swapped-step : (dirs : List (Dir M C)) → filter (has_name step n) (swapped dirs) ≡ saved dirs
  swapped-step [] = refl
  swapped-step (d ∷ dirs) = go d.kind d.number d.training_info d.content (swapped-step dirs)
    where
      go :
          (kind : DirKind) (number : ℕ) (info : Option (Info M)) (content : C)
          → filter (has_name step n) (swapped dirs) ≡ saved dirs
          → filter (has_name step n) (swapped (dir kind number info content ∷ dirs))
            ≡ saved (dir kind number info content ∷ dirs)
      go tmp_step number info content ih = elim (Bool-cases (number == n)) [
        | inl same ↦ rw (same, self n) (rw same (ap (λ l. dir step n info content ∷ l) ih))
        | inr other ↦ rw other ih
      ]
      go step number info content ih = elim (Bool-cases (number == n)) [
        | inl same ↦ rw (same, self n) ih
        | inr other ↦ rw other (rw other ih)
      ]
      go old_step number info content ih = elim (Bool-cases (number == n)) [
        | inl same ↦ rw same ih
        | inr other ↦ rw other ih
      ]

  swapped-tmp_step : (dirs : List (Dir M C)) → filter (has_name tmp_step n) (swapped dirs) ≡ []
  swapped-tmp_step [] = refl
  swapped-tmp_step (d ∷ dirs) = go d.kind d.number d.training_info d.content (swapped-tmp_step dirs)
    where
      go :
          (kind : DirKind) (number : ℕ) (info : Option (Info M)) (content : C)
          → filter (has_name tmp_step n) (swapped dirs) ≡ []
          → filter (has_name tmp_step n) (swapped (dir kind number info content ∷ dirs)) ≡ []
      go tmp_step number info content ih = elim (Bool-cases (number == n)) [
        | inl same ↦ rw same ih
        | inr other ↦ rw other (rw other ih)
      ]
      go step number info content ih = elim (Bool-cases (number == n)) [
        | inl same ↦ rw (same, self n) ih
        | inr other ↦ rw other ih
      ]
      go old_step number info content ih = elim (Bool-cases (number == n)) [
        | inl same ↦ rw same ih
        | inr other ↦ rw other ih
      ]

  swapped-elsewhere : (dirs : List (Dir M C)) → elsewhere (swapped dirs) ≡ elsewhere dirs
  swapped-elsewhere [] = refl
  swapped-elsewhere (d ∷ dirs) =
      go d.kind d.number d.training_info d.content (swapped-elsewhere dirs)
    where
      go :
          (kind : DirKind) (number : ℕ) (info : Option (Info M)) (content : C)
          → elsewhere (swapped dirs) ≡ elsewhere dirs
          → elsewhere (swapped (dir kind number info content ∷ dirs))
            ≡ elsewhere (dir kind number info content ∷ dirs)
      go tmp_step number info content ih = elim (Bool-cases (number == n)) [
        | inl same ↦ rw (same, self n) ih
        | inr other ↦ rw other (rw other (ap (λ l. dir tmp_step number info content ∷ l) ih))
      ]
      go step number info content ih = elim (Bool-cases (number == n)) [
        | inl same ↦ rw (same, self n) ih
        | inr other ↦ rw other (rw other (ap (λ l. dir step number info content ∷ l) ih))
      ]
      go old_step number info content ih = elim (Bool-cases (number == n)) [
        | inl same ↦ rw same ih
        | inr other ↦ rw other (rw other (ap (λ l. dir old_step number info content ∷ l) ih))
      ]

  -- Without a `step_n` there is one rename.
  abbrev placed : List (Dir M C) → List (Dir M C)
  placed dirs = map (renamed tmp_step step n) dirs

  placed-step :
      (dirs : List (Dir M C))
      → path_exists step n dirs ≡ false
      → filter (has_name step n) (placed dirs) ≡ saved dirs
  placed-step [] = λ absent. refl
  placed-step (d ∷ dirs) = go d.kind d.number d.training_info d.content (placed-step dirs)
    where
      go :
          (kind : DirKind) (number : ℕ) (info : Option (Info M)) (content : C)
          → (path_exists step n dirs ≡ false → filter (has_name step n) (placed dirs) ≡ saved dirs)
          → path_exists step n (dir kind number info content ∷ dirs) ≡ false
          → filter (has_name step n) (placed (dir kind number info content ∷ dirs))
            ≡ saved (dir kind number info content ∷ dirs)
      go tmp_step number info content ih absent = elim (Bool-cases (number == n)) [
        | inl same ↦ rw (same, self n) (rw same (ap (λ l. dir step n info content ∷ l) (ih absent)))
        | inr other ↦ rw other (ih absent)
      ]
      go step number info content ih absent = elim (Bool-cases (number == n)) [
        | inl same ↦ cc (rw same at absent)
        | inr other ↦ rw other (ih (rw other at absent))
      ]
      go old_step number info content ih absent = ih absent

  placed-tmp_step : (dirs : List (Dir M C)) → filter (has_name tmp_step n) (placed dirs) ≡ []
  placed-tmp_step [] = refl
  placed-tmp_step (d ∷ dirs) = go d.kind d.number d.training_info d.content (placed-tmp_step dirs)
    where
      go :
          (kind : DirKind) (number : ℕ) (info : Option (Info M)) (content : C)
          → filter (has_name tmp_step n) (placed dirs) ≡ []
          → filter (has_name tmp_step n) (placed (dir kind number info content ∷ dirs)) ≡ []
      go tmp_step number info content ih = elim (Bool-cases (number == n)) [
        | inl same ↦ rw same ih
        | inr other ↦ rw other (rw other ih)
      ]
      go step number info content ih = ih
      go old_step number info content ih = ih

  placed-elsewhere : (dirs : List (Dir M C)) → elsewhere (placed dirs) ≡ elsewhere dirs
  placed-elsewhere [] = refl
  placed-elsewhere (d ∷ dirs) = go d.kind d.number d.training_info d.content (placed-elsewhere dirs)
    where
      go :
          (kind : DirKind) (number : ℕ) (info : Option (Info M)) (content : C)
          → elsewhere (placed dirs) ≡ elsewhere dirs
          → elsewhere (placed (dir kind number info content ∷ dirs))
            ≡ elsewhere (dir kind number info content ∷ dirs)
      go tmp_step number info content ih = elim (Bool-cases (number == n)) [
        | inl same ↦ rw (same, self n) ih
        | inr other ↦ rw other (rw other (ap (λ l. dir tmp_step number info content ∷ l) ih))
      ]
      go step number info content ih =
          ap (λ l. if not (number == n) then dir step number info content ∷ l else l) ih
      go old_step number info content ih =
          ap (λ l. if not (number == n) then dir old_step number info content ∷ l else l) ih

  -- What the renames must leave: `step_n` is what `tmp_step_n` was, `tmp_step_n` is gone, and
  -- the directories of all other numbers are unchanged.
  pub record IsPlaced (dirs dirs' : List (Dir M C)) : Type 0 where
    pub saved_now : filter (has_name step n) dirs' ≡ saved dirs
    pub no_tmp : filter (has_name tmp_step n) dirs' ≡ []
    pub others : elsewhere dirs' ≡ elsewhere dirs

  -- If the renames of `finalize_checkpoint` succeed, then, whether `step_n` existed or not,
  -- `step_n` afterwards is what `tmp_step_n` was before, `tmp_step_n` is gone, and the directories
  -- of all other numbers are unchanged.
  pub replace_checkpoint-IsPlaced :
      (dirs dirs' : List (Dir M C)) → replace_checkpoint n dirs ≡ ok dirs' → IsPlaced dirs dirs'
  unfolding replace_checkpoint
  replace_checkpoint-IsPlaced dirs dirs' h = elim (Bool-cases (path_exists step n dirs)) [
    | inl present ↦ from_swapped (then_branch (path_exists step n dirs) _ _ present h)
    | inr absent ↦ from_placed absent (else_branch (path_exists step n dirs) _ _ absent h)
  ]
    where
      finish : List (Dir M C) → Result OsError (List (Dir M C))
      finish ds = ok (filter (λ d. not (has_name old_step n d)) ds)

      from_swapped :
          (rename step old_step n dirs >>= rename tmp_step step n >>= finish) ≡ ok dirs'
          → IsPlaced dirs dirs'
      from_swapped e =
          let (two, e2, e3) =
            >>=-eq-ok (rename step old_step n dirs >>= rename tmp_step step n) finish e in
          let (one, e0, e1) = >>=-eq-ok (rename step old_step n dirs) (rename tmp_step step n) e2 in
          let result : swapped dirs ≡ dirs' =
            ap (λ ds. filter (λ d. not (has_name old_step n d)) (map (renamed tmp_step step n) ds))
              (rename-ok step old_step dirs one e0)
            ∙ ap (filter (λ d. not (has_name old_step n d))) (rename-ok tmp_step step one two e1)
            ∙ ok-injective e3 in
          subst (IsPlaced dirs) result (record {
            saved_now = swapped-step dirs;
            no_tmp = swapped-tmp_step dirs;
            others = swapped-elsewhere dirs;
          })

      from_placed :
          path_exists step n dirs ≡ false
          → rename tmp_step step n dirs ≡ ok dirs'
          → IsPlaced dirs dirs'
      from_placed absent e = subst (IsPlaced dirs) (rename-ok tmp_step step dirs dirs' e) (record {
        saved_now = placed-step dirs absent;
        no_tmp = placed-tmp_step dirs;
        others = placed-elsewhere dirs;
      })
