-- ===== src/Puzzle/Board/Solved.antt =====
-- The solved grid is a square with the empty space in the last place.
use nemo_rl_xtoken.Base.{
  length-map, length-range_from, get_or-map, ℕ, ◌+◌, ◌-◌, ◌*◌, ◌<◌, ◌≡◌, ap, ◌∙◌, List, [], map,
  arith, length, get_or, range_from,
}
use nemo_rl_xtoken.Puzzle.Board.{Grid, tile, solved}
use nemo_rl_xtoken.Puzzle.Board.Laws.{IsSquare, set_tile-IsSquare, tile-set_tile_self}

module _ (size : ℕ) where
  abbrev row : ℕ → List ℕ
  row r = map (λ c. r * size + c + 1) (range_from 0 size)

  full : Grid
  full = map row (range_from 0 size)

  full-IsSquare : IsSquare size full
  unfolding full
  full-IsSquare = record {
    rows = length-map row (range_from 0 size) ∙ length-range_from 0 size;
    columns = λ r h.
        ap length
          (get_or-map row (range_from 0 size) r [] 0 (omega (arith, length-range_from 0 size)))
        ∙ length-map (λ c. get_or (range_from 0 size) r 0 * size + c + 1) (range_from 0 size)
        ∙ length-range_from 0 size;
  }

  pub solved-IsSquare : IsSquare size (solved size)
  unfolding solved full
  solved-IsSquare = set_tile-IsSquare size full full-IsSquare (size - 1, size - 1) 0

  pub tile-solved : 0 < size → tile (solved size) (size - 1, size - 1) ≡ 0
  unfolding solved full
  tile-solved some_rows =
      tile-set_tile_self size full full-IsSquare (size - 1, size - 1) 0 (omega arith, omega arith)
