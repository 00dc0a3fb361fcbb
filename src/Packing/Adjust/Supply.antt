-- ===== src/Packing/Adjust/Supply.antt =====
-- The sources of `_adjust_bin_count` never run dry: what they can still give is counted, and each
-- new bin takes one. So the branch that reports a bug is not reached.
use native.Mathlib.Decide.{ℕ_discrete}
use nemo_rl_xtoken.Base.{
  ℕ, ◌+◌, ◌-◌, ◌≤◌, ◌<◌, ◌≡◌, refl, sym, ap, ◌∙◌, List, [], ◌∷◌, ◌++◌, arith, length, length-modify,
  get_or, get_or-modify_self, get_or-modify_ne, modify, init_last, total, total-append,
  total-modify, total-init_last, All, ltb, ltb→lt, ltb_false→le, ◌==◌, if◌then◌else◌, Bool-cases,
  inl, inr,
}
use nemo_rl_xtoken.Packing.Adjust.{find_source}

-- What bin `i` can give away.
abbrev pub spare_of : List (List ℕ) → ℕ → ℕ
spare_of bins i = length (get_or bins i []) - 1

abbrev pub spare : List (List ℕ) → List (ℕ × ℕ) → ℕ
spare bins sources = total (λ s. spare_of bins s.1) sources

-- How often bin `i` stands among the sources.
abbrev pub occurs : ℕ → List (ℕ × ℕ) → ℕ
occurs i sources = total (λ s. if i == s.1 then 1 else 0) sources

-- The sources are bins below `current`, each once.
pub record AreSources (current : ℕ) (sources : List (ℕ × ℕ)) : Type 0 where
  pub below : All (λ s. s.1 < current) sources
  pub once : (i : ℕ) → occurs i sources ≤ 1

AreSources-tail :
    (current : ℕ) (s : ℕ × ℕ) (sources : List (ℕ × ℕ))
    → AreSources current (s ∷ sources)
    → AreSources current sources
AreSources-tail current s sources v = record {
  below = v.below.1;
  once = λ i. omega (arith, v.once i);
}

-- What `find_source` skips has nothing to give.
pub find_source_lem :
    (current : ℕ) (bins : List (List ℕ)) (sources : List (ℕ × ℕ))
    → AreSources current sources
    → AreSources current (find_source sources bins)
      × (spare bins (find_source sources bins) ≡ spare bins sources)
unfolding find_source
find_source_lem current bins [] v = (v, refl)
find_source_lem current bins ((size, original) ∷ sources) v =
    elim (Bool-cases (ltb 1 (length (get_or bins original [])))) [
      | inl enough ↦ rw enough (v, refl)
      | inr single ↦
          let (v', e) =
            find_source_lem current bins sources
              (AreSources-tail current (size, original) sources v) in
          rw single (v', omega (arith, e, ltb_false→le _ _ single))
    ]

abbrev first_source : List (ℕ × ℕ) → ℕ
first_source [] = 0
first_source ((size, original) ∷ sources) = original

-- The first source that is found has two sequences.
pub find_source_head :
    (bins : List (List ℕ)) (sources : List (ℕ × ℕ)) (s : ℕ × ℕ) (rest : List (ℕ × ℕ))
    → find_source sources bins ≡ s ∷ rest
    → 1 < length (get_or bins s.1 [])
unfolding find_source
find_source_head bins [] s rest h = cc
find_source_head bins ((size, original) ∷ sources) s rest h =
    elim (Bool-cases (ltb 1 (length (get_or bins original [])))) [
      | inl enough ↦ head (rw enough at h) (ltb→lt _ _ enough)
      | inr single ↦ find_source_head bins sources s rest (rw single at h)
    ]
  where
    head :
        (size, original) ∷ sources ≡ s ∷ rest
        → 1 < length (get_or bins original [])
        → 1 < length (get_or bins s.1 [])
    head e lt = rw (ap first_source e) at lt

-- What bin `j` weighs.
abbrev pub weight_at : (ℕ → ℕ) → List (List ℕ) → ℕ → ℕ
weight_at w bins j = total w (get_or bins j [])

abbrev pub one : ℕ → ℕ
one _ = 1

pub length-eq-total : (xs : List ℕ) → length xs ≡ total one xs
length-eq-total [] = refl
length-eq-total (x ∷ xs) = omega (arith, length-eq-total xs)

module _ (original new : ℕ) (bins : List (List ℕ)) (original_new : original < new)
    (new_bins : new < length bins) where
  -- One sequence moves from bin `original` to bin `new`, and nothing else changes.
  pub record IsMove (bins' : List (List ℕ)) : Type 0 where
    pub moved : ℕ
    pub same_length : length bins' ≡ length bins
    pub from_original : (w : ℕ → ℕ) → w moved ≤ weight_at w bins original
    pub changes :
        (w : ℕ → ℕ) (j : ℕ)
        → weight_at w bins' j + (if j == original then w moved else 0)
          ≡ weight_at w bins j + (if j == new then w moved else 0)
    pub keeps : (w : ℕ → ℕ) → total (total w) bins' ≡ total (total w) bins

  module _ (x : ℕ) (xs : List ℕ) (content : get_or bins original [] ≡ x ∷ xs) where
    abbrev pub kept : List ℕ
    kept = (init_last x xs).0

    abbrev pub last : ℕ
    last = (init_last x xs).1

    abbrev pub taken : List (List ℕ)
    taken = modify original (λ _. kept) bins

    abbrev pub put : List (List ℕ)
    put = modify new (λ b. b ++ last ∷ []) taken

    abbrev total-content : (w : ℕ → ℕ) → total w kept + w last ≡ weight_at w bins original
    total-content w = total-init_last w x xs ∙ sym (ap (total w) content)

    taken_at :
        (w : ℕ → ℕ) (j : ℕ)
        → weight_at w taken j + (if j == original then w last else 0) ≡ weight_at w bins j
    taken_at w j = elim (ℕ_discrete original j) [
      | yes e ↦ rw (← e) (
          ground (
            arith,
            total-content w,
            ap (total w) (get_or-modify_self original (λ _. kept) bins [] (omega arith)),
          ))
      | no ne ↦ ground (arith, ap (total w) (get_or-modify_ne original j (λ _. kept) bins [] ne))
    ]

    put_at :
        (w : ℕ → ℕ) (j : ℕ)
        → weight_at w put j ≡ weight_at w taken j + (if j == new then w last else 0)
    put_at w j = elim (ℕ_discrete new j) [
      | yes e ↦ rw (← e) (
          ground (
            arith,
            ap (total w) (
                get_or-modify_self new (λ b. b ++ last ∷ []) taken []
                  (omega (arith, length-modify original (λ _. kept) bins))),
            total-append w (get_or taken new []) (last ∷ []),
          ))
      | no ne ↦
          ground (arith, ap (total w) (get_or-modify_ne new j (λ b. b ++ last ∷ []) taken [] ne))
    ]

    put-keeps : (w : ℕ → ℕ) → total (total w) put ≡ total (total w) bins
    put-keeps w = omega (
      arith,
      total-modify (total w) original (λ _. kept) bins [] (omega arith),
      total-modify (total w) new (λ b. b ++ last ∷ []) taken []
          (omega (arith, length-modify original (λ _. kept) bins)),
      total-append w (get_or taken new []) (last ∷ []),
      total-content w,
    )

    pub put-IsMove : IsMove put
    put-IsMove = record {
      moved = last;
      same_length =
          length-modify new (λ b. b ++ last ∷ []) taken ∙ length-modify original (λ _. kept) bins;
      from_original = λ w. omega (arith, total-content w);
      changes = λ w j. omega (arith, taken_at w j, put_at w j);
      keeps = put-keeps;
    }
