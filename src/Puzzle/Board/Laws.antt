-- ===== src/Puzzle/Board/Laws.antt =====
-- Reading and writing tiles.
use mathlib.Core.Path.{ap₂, subst}
use nemo_rl_xtoken.Base.{
  ℕ, zero, suc, ◌+◌, ◌<◌, ◌≡◌, ◌≢◌, ◌⊎◌, inl, inr, refl, sym, ap, ◌∙◌, fun_ext, true, List, [], ◌∷◌,
  arith, length, get_or, modify, get_or-modify_self, get_or-modify_ne, length-modify, total,
  total-modify, Bool-cases, ◌==◌, ==→eq, eq→==,
}
use nemo_rl_xtoken.Base.Text.{text_eq→eq}
use nemo_rl_xtoken.Puzzle.Board.{Grid, Pos, tile, set_tile, grid_eq}

-- Every row has as many columns as there are rows.
pub record IsSquare (size : ℕ) (grid : Grid) : Type 0 where
  pub rows : length grid ≡ size
  pub columns : (r : ℕ) → r < size → length (get_or grid r []) ≡ size

abbrev pub Inside : ℕ → Pos → Type 0
Inside size (r, c) = (r < size) × (c < size)

module _ {A : Type 0} where
  modify-modify_self :
      (i : ℕ) (f g : A → A) (xs : List A) → modify i f (modify i g xs) ≡ modify i (λ x. f (g x)) xs
  modify-modify_self i f g [] = refl
  modify-modify_self zero f g (x ∷ xs) = refl
  modify-modify_self (suc i) f g (x ∷ xs) = ap (λ l. x ∷ l) (modify-modify_self i f g xs)

  modify-modify_ne :
      (i j : ℕ) (f g : A → A) (xs : List A)
      → i ≢ j
      → modify i f (modify j g xs) ≡ modify j g (modify i f xs)
  modify-modify_ne i j f g [] ne = refl
  modify-modify_ne zero zero f g (x ∷ xs) ne = absurd (ne refl)
  modify-modify_ne zero (suc j) f g (x ∷ xs) ne = refl
  modify-modify_ne (suc i) zero f g (x ∷ xs) ne = refl
  modify-modify_ne (suc i) (suc j) f g (x ∷ xs) ne =
      ap (λ l. x ∷ l) (modify-modify_ne i j f g xs (λ e. ne (ap suc e)))

  -- Writing what is there.
  modify_same :
      (i : ℕ) (f : A → A) (xs : List A) (d : A)
      → f (get_or xs i d) ≡ get_or xs i d
      → modify i f xs ≡ xs
  modify_same i f [] d e = refl
  modify_same zero f (x ∷ xs) d e = ap (λ y. y ∷ xs) e
  modify_same (suc i) f (x ∷ xs) d e = ap (λ l. x ∷ l) (modify_same i f xs d e)

-- Two positions differ in the row, or in the column of one row.
Pos-ne : (p q : Pos) → p ≢ q → (p.0 ≢ q.0) ⊎ ((p.0 ≡ q.0) × (p.1 ≢ q.1))
Pos-ne (r, c) (s, d) ne = elim (Bool-cases (r == s)) [
  | inl same ↦ inr (==→eq r s same, λ e. ne (ap₂ (λ a b. (a, b)) (==→eq r s same) e))
  | inr other ↦ inl (λ e. cc (rw (eq→== r s e) at other))
]

module _ (size : ℕ) (grid : Grid) (square : IsSquare size grid) where
  pub set_tile-IsSquare : (p : Pos) (v : ℕ) → IsSquare size (set_tile p v grid)
  set_tile-IsSquare (r, c) v = record {
    rows = length-modify r (modify c (λ _. v)) grid ∙ square.rows;
    columns = λ s h. elim (Bool-cases (r == s)) [
      | inl same ↦
          ap (λ s. length (get_or (modify r (modify c (λ _. v)) grid) s [])) (sym (==→eq r s same))
          ∙ ap length (
              get_or-modify_self r (modify c (λ _. v)) grid []
                (omega (arith, square.rows, ==→eq r s same)))
          ∙ length-modify c (λ _. v) (get_or grid r [])
          ∙ square.columns r (omega (arith, ==→eq r s same))
      | inr other ↦
          ap length
            (get_or-modify_ne r s (modify c (λ _. v)) grid [] (λ e. cc (rw (eq→== r s e) at other)))
          ∙ square.columns s h
    ];
  }

  pub tile-set_tile_self : (p : Pos) (v : ℕ) → Inside size p → tile (set_tile p v grid) p ≡ v
  tile-set_tile_self (r, c) v (hr, hc) =
      ap (λ row. get_or row c 0)
        (get_or-modify_self r (modify c (λ _. v)) grid [] (omega (arith, square.rows)))
      ∙ get_or-modify_self c (λ _. v) (get_or grid r []) 0 (omega (arith, square.columns r hr))

  pub tile-set_tile_ne :
      (p q : Pos) (v : ℕ) → Inside size p → p ≢ q → tile (set_tile p v grid) q ≡ tile grid q
  tile-set_tile_ne (r, c) (s, d) v (hr, hc) ne = elim (Pos-ne (r, c) (s, d) ne) [
    | inl rows ↦ ap (λ row. get_or row d 0) (get_or-modify_ne r s (modify c (λ _. v)) grid [] rows)
    | inr (same, columns) ↦
        ap (λ s. get_or (get_or (modify r (modify c (λ _. v)) grid) s []) d 0) (sym same)
        ∙ ap (λ row. get_or row d 0)
            (get_or-modify_self r (modify c (λ _. v)) grid [] (omega (arith, square.rows)))
        ∙ get_or-modify_ne c d (λ _. v) (get_or grid r []) 0 columns
        ∙ ap (λ s. get_or (get_or grid s []) d 0) same
  ]

  -- What the tiles weigh after one is written.
  pub total-set_tile :
      (w : ℕ → ℕ) (p : Pos) (v : ℕ)
      → Inside size p
      → total (total w) (set_tile p v grid) + w (tile grid p) ≡ total (total w) grid + w v
  total-set_tile w (r, c) v (hr, hc) = omega (
    arith,
    total-modify (total w) r (modify c (λ _. v)) grid [] (omega (arith, square.rows)),
    total-modify w c (λ _. v) (get_or grid r []) 0 (omega (arith, square.columns r hr)),
  )

pub set_tile-set_tile_self :
    (p : Pos) (v u : ℕ) (grid : Grid) → set_tile p v (set_tile p u grid) ≡ set_tile p v grid
set_tile-set_tile_self (r, c) v u grid =
    modify-modify_self r (modify c (λ _. v)) (modify c (λ _. u)) grid
    ∙ ap (λ f. modify r f grid) (fun_ext (λ row. modify-modify_self c (λ _. v) (λ _. u) row))

pub set_tile-set_tile_ne :
    (p q : Pos) (v u : ℕ) (grid : Grid)
    → p ≢ q
    → set_tile p v (set_tile q u grid) ≡ set_tile q u (set_tile p v grid)
set_tile-set_tile_ne (r, c) (s, d) v u grid ne = elim (Pos-ne (r, c) (s, d) ne) [
  | inl rows ↦ modify-modify_ne r s (modify c (λ _. v)) (modify d (λ _. u)) grid rows
  | inr (same, columns) ↦
      subst
        (λ s.
          modify r (modify c (λ _. v)) (modify s (modify d (λ _. u)) grid)
          ≡ modify s (modify d (λ _. u)) (modify r (modify c (λ _. v)) grid))
        same
        (modify-modify_self r (modify c (λ _. v)) (modify d (λ _. u)) grid
          ∙ ap (λ f. modify r f grid)
              (fun_ext (λ row. modify-modify_ne c d (λ _. v) (λ _. u) row columns))
          ∙ sym (modify-modify_self r (modify d (λ _. u)) (modify c (λ _. v)) grid))
]

-- Writing the tile that is there changes nothing.
pub set_tile_same : (p : Pos) (v : ℕ) (grid : Grid) → v ≡ tile grid p → set_tile p v grid ≡ grid
set_tile_same (r, c) v grid e =
    modify_same r (modify c (λ _. v)) grid [] (modify_same c (λ _. v) (get_or grid r []) 0 e)

pub grid_eq→eq : (g h : Grid) → grid_eq g h ≡ true → g ≡ h
unfolding grid_eq
grid_eq→eq [] [] e = refl
grid_eq→eq [] (row ∷ rows) e = cc
grid_eq→eq (row ∷ rows) [] e = cc
grid_eq→eq (row ∷ rows) (row' ∷ rows') e =
    ground (arith, text_eq→eq row row', grid_eq→eq rows rows')
