-- ===== src/Packing/Adjust/Moves.antt =====
-- The loop of `_adjust_bin_count`: it fills every new bin, from bins that keep a sequence.
use nemo_rl_xtoken.Base.{
  ℕ, zero, suc, ◌+◌, ◌≤◌, ◌<◌, ◌≡◌, refl, ap, ◌∙◌, List, [], ◌∷◌, arith, Result, ok, err, ◌>>=◌,
  length, get_or, total, All, ◌==◌, if◌then◌else◌,
}
use nemo_rl_xtoken.Packing.Packer.{PackError, cannot_redistribute}
use nemo_rl_xtoken.Packing.Adjust.{find_source, move_last, fill_bins}
use nemo_rl_xtoken.Packing.Adjust.Supply.{
  spare, occurs, AreSources, find_source_lem, find_source_head, weight_at, one, length-eq-total,
  IsMove, put, put-IsMove,
}

module _ (original new : ℕ) (bins : List (List ℕ)) (original_new : original < new)
    (new_bins : new < length bins) where
  move_last_lem :
      1 < length (get_or bins original [])
      → (bins' : List (List ℕ)) × (move_last original new bins ≡ ok bins')
        × IsMove original new bins original_new new_bins bins'
  move_last_lem h = go (get_or bins original []) refl h
    where
      go :
          (content : List ℕ)
          → get_or bins original [] ≡ content
          → 1 < length content
          → (bins' : List (List ℕ)) × (move_last original new bins ≡ ok bins')
            × IsMove original new bins original_new new_bins bins'
      go [] e h' = absurd (omega arith)
      go (x ∷ xs) e h' = (
        put original new bins original_new new_bins x xs e,
        rw (e, move_last),
        put-IsMove original new bins original_new new_bins x xs e,
      )

  module _ (bins' : List (List ℕ))
      (move : IsMove original new bins original_new new_bins bins') where
    length_change :
        (j : ℕ)
        → length (get_or bins' j []) + (if j == original then 1 else 0)
          ≡ length (get_or bins j []) + (if j == new then 1 else 0)
    length_change j = omega (
      arith,
      length-eq-total (get_or bins' j []),
      length-eq-total (get_or bins j []),
      move.changes one j,
    )

    spare_rest :
        (current : ℕ) (rest : List (ℕ × ℕ))
        → current ≤ new
        → All (λ s. s.1 < current) rest
        → occurs original rest ≡ 0
        → spare bins' rest ≡ spare bins rest
    spare_rest current [] le below none = refl
    spare_rest current (s ∷ rest) le below none =
        ground (arith, length_change s.1, spare_rest current rest le below.1)

    -- The sources can give one sequence less.
    spare_change :
        (current size : ℕ) (rest : List (ℕ × ℕ))
        → current ≤ new
        → AreSources current ((size, original) ∷ rest)
        → 1 < length (get_or bins original [])
        → spare bins' ((size, original) ∷ rest) + 1 ≡ spare bins ((size, original) ∷ rest)
    spare_change current size rest le v h =
        ground
          (arith, length_change original, v.once original, spare_rest current rest le v.below.1)

total-empty : (w : ℕ → ℕ) (xs : List ℕ) → length xs ≡ 0 → total w xs ≡ 0
total-empty w [] h = refl
total-empty w (x ∷ xs) h = absurd (omega arith)

module _ (v : ℕ → ℕ) (cap : ℕ) where
  -- Halfway: the bins below `new` are filled, the others are not, and none is over the capacity.
  pub record IsPartial (new : ℕ) (bins : List (List ℕ)) : Type 0 where
    pub fits : (j : ℕ) → weight_at v bins j ≤ cap
    pub filled : (j : ℕ) → j < new → 1 ≤ length (get_or bins j [])
    pub empty : (j : ℕ) → new ≤ j → length (get_or bins j []) ≡ 0

  move-IsPartial :
      (original new : ℕ) (bins : List (List ℕ)) (original_new : original < new)
      (new_bins : new < length bins) (bins' : List (List ℕ))
      → 1 < length (get_or bins original [])
      → IsMove original new bins original_new new_bins bins'
      → IsPartial new bins
      → IsPartial (suc new) bins'
  move-IsPartial original new bins original_new new_bins bins' h move p = record {
    fits = λ j. ground (
      arith,
      move.changes v j,
      move.from_original v,
      p.fits j,
      p.fits original,
      total-empty v (get_or bins new []) (p.empty new (omega arith)),
    );
    filled = λ j lt. ground (arith, change j, p.filled j);
    empty = λ j le. ground (arith, change j, p.empty j);
  }
    where
      change :
          (j : ℕ)
          → length (get_or bins' j []) + (if j == original then 1 else 0)
            ≡ length (get_or bins j []) + (if j == new then 1 else 0)
      change = length_change original new bins original_new new_bins bins' move

  -- Enough supply fills all new bins. Nothing is raised.
  pub record IsFilled (bins bins' : List (List ℕ)) : Type 0 where
    pub same_length : length bins' ≡ length bins
    pub keeps : (w : ℕ → ℕ) → total (total w) bins' ≡ total (total w) bins
    pub partial : IsPartial (length bins) bins'

  pub fill_bins_lem :
      (count new current : ℕ) (sources : List (ℕ × ℕ)) (bins : List (List ℕ))
      → new + count ≡ length bins
      → current ≤ new
      → AreSources current sources
      → count ≤ spare bins sources
      → IsPartial new bins
      → (bins' : List (List ℕ)) × (fill_bins count new sources bins ≡ ok bins')
        × IsFilled bins bins'
  unfolding fill_bins
  fill_bins_lem zero new current sources bins n le s supply p = (
    bins,
    refl,
    record {
      same_length = refl;
      keeps = λ w. refl;
      partial = let e : new ≡ length bins = omega arith in rw (← e) p;
    },
  )
  fill_bins_lem (suc count) new current sources bins n le s supply p =
      go (find_source sources bins) refl (fill_bins_lem count (suc new) current)
    where
      go :
          (found : List (ℕ × ℕ))
          → find_source sources bins ≡ found
          → ((sources' : List (ℕ × ℕ)) (bins1 : List (List ℕ))
              → suc new + count ≡ length bins1
              → current ≤ suc new
              → AreSources current sources'
              → count ≤ spare bins1 sources'
              → IsPartial (suc new) bins1
              → (bins' : List (List ℕ)) × (fill_bins count (suc new) sources' bins1 ≡ ok bins')
                × IsFilled bins1 bins')
          → let r : Result PackError (List (List ℕ)) = elim found [
            | [] ↦ err cannot_redistribute
            | (bin_size, original) ∷ rest ↦
                move_last original new bins
                >>= fill_bins count (suc new) ((bin_size, original) ∷ rest)
          ] in
            (bins' : List (List ℕ)) × (r ≡ ok bins') × IsFilled bins bins'
      go [] e ih =
          absurd (omega (arith, (find_source_lem current bins sources s).1, ap (spare bins) e))
      go ((size, original) ∷ rest) e ih =
          let (sources_ok, same_spare) = find_source_lem current bins sources s in
          let sources' : AreSources current ((size, original) ∷ rest) = rw e at sources_ok in
          let lt : original < new = omega (arith, sources'.below.0) in
          let two : 1 < length (get_or bins original []) =
            find_source_head bins sources (size, original) rest e in
          let (bins1, moved, move) = move_last_lem original new bins lt (omega arith) two in
          let (bins', ran, f) =
            ih ((size, original) ∷ rest) bins1 (omega (arith, move.same_length)) (omega arith)
              sources'
              (omega (
                arith,
                spare_change original new bins lt (omega arith) bins1 move current size rest le
                    sources' two,
                same_spare,
                ap (spare bins) e,
              ))
              (move-IsPartial original new bins lt (omega arith) bins1 two move p) in
          (
            bins',
            rw moved ran,
            record {
              same_length = f.same_length ∙ move.same_length;
              keeps = λ w. f.keeps w ∙ move.keeps w;
              partial = rw move.same_length at f.partial;
            },
          )
