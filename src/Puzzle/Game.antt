-- ===== src/Puzzle/Game.antt =====
-- `SlidingPuzzleGameLogic`: `generate` and `step`. The answers are constructors for the texts, and
-- the reward is 0 or 1.
pub mod Slides
pub mod Undo
pub mod Solvable
use nemo_rl_xtoken.Base.{
  ℕ, zero, suc, ◌+◌, ◌-◌, ◌*◌, ◌/◌, ◌%◌, Bool, true, false, not, ◌&&◌, ◌||◌, Option, none, some,
  List, [], ◌∷◌, ◌++◌, Result, ok, err, ◌>>◌, raise_if, length, get_or, ltb, leb, ◌==◌,
  if◌then◌else◌,
}
use nemo_rl_xtoken.Base.Int.{ℤ, pos, negsuc}
use nemo_rl_xtoken.Base.Text.{Text, codes, text_eq}
use nemo_rl_xtoken.Puzzle.Board.{Grid, Pos, tile, set_tile, grid_eq, solved}

pub data Direction : Type 0 where
  up down left right : Direction

-- `game_state`; its commands are a constant text.
pub record Game : Type 0 where
  pub size : ℕ
  pub grid : Grid
  pub solution : Grid
  pub empty_pos : Pos

pub data GameError : Type 0 where
  index_error : GameError

-- The place of a coordinate that may be negative: `none` where it is.
abbrev pub minus_one : ℕ → Option ℕ
minus_one zero = none
minus_one (suc n) = some n

-- `0 <= r < size and 0 <= c < size`, for places that may be negative.
abbrev pub in_grid : ℕ → Option ℕ → Option ℕ → Option Pos
in_grid size none c = none
in_grid size (some r) none = none
in_grid size (some r) (some c) = if ltb r size && ltb c size then some (r, c) else none

-- The tile that slides: below, above, right or left of the empty space.
abbrev pub source : Direction → ℕ → Pos → Option Pos
source up size (r, c) = in_grid size (some (r + 1)) (some c)
source down size (r, c) = in_grid size (minus_one r) (some c)
source left size (r, c) = in_grid size (some r) (some (c + 1))
source right size (r, c) = in_grid size (some r) (minus_one c)

-- The moves that `generate` chooses from: right, down, left, up of the empty space.
abbrev pub option_list : Option Pos → List Pos
option_list none = []
option_list (some p) = p ∷ []

unfoldable pub possible_moves : ℕ → Pos → List Pos
possible_moves size p =
    option_list (source left size p)
    ++ (option_list (source up size p)
        ++ (option_list (source right size p) ++ option_list (source down size p)))

-- `grid[r][c], grid[new_r][new_c] = grid[new_r][new_c], grid[r][c]`
abbrev pub swap_tiles : Pos → Pos → Grid → Grid
swap_tiles p q grid = set_tile q (tile grid p) (set_tile p (tile grid q) grid)

-- One round of the shuffle. `random.choice` takes the element at `choice` modulo the number of
-- moves: any element, by the right `choice`.
unfoldable pub shuffle_move : ℕ → Game → Game
unfolding possible_moves
shuffle_move choice g =
    let moves = possible_moves g.size g.empty_pos in
    if length moves == 0
    then g
    else let p = get_or moves (choice % length moves) (0, 0) in
      record g { grid = swap_tiles g.empty_pos p g.grid; empty_pos = p }

unfoldable pub shuffle : List ℕ → Game → Game
unfolding shuffle_move
shuffle [] g = g
shuffle (choice ∷ choices) g = shuffle choices (shuffle_move choice g)

-- `generate`, for the size and as many choices as `shuffle_moves`. The empty grid has no last tile.
unfoldable pub generate : ℕ → List ℕ → Result GameError Game
unfolding solved shuffle
generate size choices =
    raise_if (size == 0) index_error
    >> ok (
        shuffle choices (record {
          size = size;
          grid = solved size;
          solution = solved size;
          empty_pos = (size - 1, size - 1);
        }))

-- `response`
pub data Response : Type 0 where
  unknown_command invalid_position not_adjacent invalid_format congratulations : Response
  slid_tile : ℕ → Response
  slid : ℕ → Direction → Response
  cannot_slide : Direction → Response

pub record Outcome : Type 0 where
  pub response : Response
  pub reward : ℕ
  pub is_terminated : Bool
  pub new_state : Game

-- What `split` and `int` of Python do, which the command `slide` is read with; `none` is ValueError.
pub record PythonText : Type 0 where
  pub split : Text → List Text
  pub int : Text → Option ℤ

unfoldable pub slide_tile : Pos → Game → Game
slide_tile p g = record g {
  grid = set_tile p 0 (set_tile g.empty_pos (tile g.grid p) g.grid);
  empty_pos = p;
}

-- The test for the solution at the end of `step`.
unfoldable pub after_move : Response → Game → Outcome
unfolding grid_eq
after_move response g =
    if grid_eq g.grid g.solution
    then record { response = congratulations; reward = 1; is_terminated = true; new_state = g }
    else record { response = response; reward = 0; is_terminated = false; new_state = g }

abbrev pub refused : Response → Game → Outcome
refused response g = record {
  response = response;
  reward = 0;
  is_terminated = false;
  new_state = g;
}

-- `action in ["up", "down", "left", "right"]`
unfoldable pub direction : Text → Option Direction
unfolding text_eq
direction action =
    if text_eq action (codes "up")
    then some up
    else if text_eq action (codes "down")
    then some down
    else if text_eq action (codes "left")
    then some left
    else if text_eq action (codes "right")
    then some right
    else none

unfoldable pub step_direction : Direction → Game → Outcome
unfolding slide_tile after_move
step_direction d g = elim (source d g.size g.empty_pos) [
  | none ↦ refused (cannot_slide d) g
  | some p ↦ after_move (slid (tile g.grid p) d) (slide_tile p g)
]

-- `int(r) - 1`
abbrev pub coordinate : ℤ → Option ℕ
coordinate (pos n) = minus_one n
coordinate (negsuc n) = none

abbrev pub distance : ℕ → ℕ → ℕ
distance a b = (a - b) + (b - a)

unfoldable pub step_slide : ℤ → ℤ → Game → Outcome
unfolding slide_tile after_move
step_slide r c g = elim (in_grid g.size (coordinate r) (coordinate c)) [
  | none ↦ refused invalid_position g
  | some p ↦
      if distance p.0 g.empty_pos.0 + distance p.1 g.empty_pos.1 == 1
      then after_move (slid_tile (tile g.grid p)) (slide_tile p g)
      else refused not_adjacent g
]

abbrev pub starts_with : Text → Text → Bool
starts_with [] t = true
starts_with (c ∷ s) [] = false
starts_with (c ∷ s) (d ∷ t) = c == d && starts_with s t

-- `_, r, c = action.split()` and the two calls of `int`
abbrev pub read_slide : PythonText → List Text → Option (ℤ × ℤ)
read_slide python (word ∷ r ∷ c ∷ []) = elim (python.int r) [
  | none ↦ none
  | some i ↦ elim (python.int c) [ none ↦ none | some j ↦ some (i, j) ]
]
read_slide python _ = none

unfoldable pub step : PythonText → Text → Game → Outcome
unfolding direction step_direction step_slide
step python action g =
    if starts_with (codes "slide ") action
    then (elim (read_slide python (python.split action)) [
      | none ↦ refused invalid_format g
      | some (r, c) ↦ step_slide r c g
    ])
    else (elim (direction action) [
      | none ↦ refused unknown_command g
      | some d ↦ step_direction d g
    ])
