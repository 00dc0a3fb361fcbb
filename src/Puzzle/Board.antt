-- ===== src/Puzzle/Board.antt =====
-- The grid: a list of rows of tiles, 0 for the empty space.
pub mod Laws
pub mod Solved
use nemo_rl_xtoken.Base.{
  ℕ, ◌+◌, ◌-◌, ◌*◌, Bool, true, false, ◌&&◌, List, [], ◌∷◌, map, get_or, modify, range_from,
}
use nemo_rl_xtoken.Base.Text.{text_eq}

abbrev pub Grid : Type 0
Grid = List (List ℕ)

-- A row and a column.
abbrev pub Pos : Type 0
Pos = ℕ × ℕ

-- `grid[r][c]`
abbrev pub tile : Grid → Pos → ℕ
tile grid (r, c) = get_or (get_or grid r []) c 0

-- `grid[r][c] = v`
abbrev pub set_tile : Pos → ℕ → Grid → Grid
set_tile (r, c) v grid = modify r (modify c (λ _. v)) grid

-- `==` on grids
unfoldable pub grid_eq : Grid → Grid → Bool
unfolding text_eq
grid_eq [] [] = true
grid_eq [] (row ∷ rows) = false
grid_eq (row ∷ rows) [] = false
grid_eq (row ∷ rows) (row' ∷ rows') = text_eq row row' && grid_eq rows rows'

-- The solved state: 1, 2, 3, ... by rows, and the empty space in the last place.
unfoldable pub solved : ℕ → Grid
solved size =
    set_tile (size - 1, size - 1) 0
      (map (λ r. map (λ c. r * size + c + 1) (range_from 0 size)) (range_from 0 size))
