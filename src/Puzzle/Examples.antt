-- ===== src/Puzzle/Examples.antt =====
-- Runs of the puzzle, and the properties at such runs.
use nemo_rl_xtoken.Base.{◌≡◌, refl, true, some, List, [], ◌∷◌, arith, ok}
use nemo_rl_xtoken.Base.Int.{pos}
use nemo_rl_xtoken.Base.Text.{codes}
use nemo_rl_xtoken.Puzzle.Board.{grid_eq}
use nemo_rl_xtoken.Puzzle.Game.{Direction, up, left, Game, not_adjacent, generate, step, PythonText}
use nemo_rl_xtoken.Puzzle.Game.Slides.{IsBoard}
use nemo_rl_xtoken.Puzzle.Game.Solvable.{wins, generate-wins, generate-IsBoard}
use nemo_rl_xtoken.Puzzle.Turn.{Metadata, Message, assistant, process_turn, parse_action}
use nemo_rl_xtoken.Puzzle.Turn.Episode.{IsStep, step-IsStep, IsTurn, IsPlay, process_turn-IsTurn}

program : Unit {0}
unfolding generate step grid_eq process_turn wins
program = tt

-- Three words, the numbers of which are 1 and 1.
abbrev ones : PythonText
ones = record { split = λ t. t ∷ t ∷ t ∷ []; int = λ t. some (pos 1) }

-- Two by two, shuffled by two moves: left, then up of the empty space.
shuffled : Game
unfolding program
shuffled = record {
  size = 2;
  grid = (0 ∷ 1 ∷ []) ∷ (3 ∷ 2 ∷ []) ∷ [];
  solution = (1 ∷ 2 ∷ []) ∷ (3 ∷ 0 ∷ []) ∷ [];
  empty_pos = (0, 0);
}

generated : generate 2 (1 ∷ 1 ∷ []) ≡ ok shuffled
unfolding program shuffled
generated = refl

solution_two : wins ones (left ∷ up ∷ []) shuffled ≡ true
unfolding program shuffled
solution_two = refl

-- The empty space is at row 1, column 1 itself.
slide_empty : (step ones (codes "slide 1 1") shuffled).response ≡ not_adjacent
unfolding program shuffled
slide_empty = refl

last_action :
    parse_action (codes "<action>up</action> no, <ACTION> Left </action>") ≡ some (codes "Left")
unfolding program
last_action = refl

generate-wins_example : (commands : List Direction) × (wins ones commands shuffled ≡ true)
unfolding shuffled program
generate-wins_example = generate-wins ones 2 (1 ∷ 1 ∷ []) shuffled generated refl

generate-IsBoard_example : (shuffled.size ≡ 2) × IsBoard shuffled
generate-IsBoard_example = generate-IsBoard ones 2 (1 ∷ 1 ∷ []) shuffled generated

shuffled-IsBoard : IsBoard shuffled
shuffled-IsBoard = (generate-IsBoard ones 2 (1 ∷ 1 ∷ []) shuffled generated).1

step-IsStep_example : IsStep shuffled (step ones (codes "left") shuffled)
step-IsStep_example = step-IsStep shuffled shuffled-IsBoard ones (codes "left")

abbrev first_turn : Metadata
first_turn = record { game_state = shuffled; num_moves = 0; max_moves = 5 }

abbrev says_left : List Message
says_left = record { role = assistant; content = codes "<action>left</action>" } ∷ []

left_turn : (process_turn ones says_left first_turn).reward ≡ 0
unfolding program shuffled
left_turn = refl

first_turn-IsPlay : IsPlay first_turn
first_turn-IsPlay = record { board = shuffled-IsBoard; moves = omega arith }

process_turn-IsTurn_example : IsTurn first_turn (process_turn ones says_left first_turn)
process_turn-IsTurn_example = process_turn-IsTurn ones says_left first_turn first_turn-IsPlay
