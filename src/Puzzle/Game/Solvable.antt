-- ===== src/Puzzle/Game/Solvable.antt =====
-- Every board that `generate` makes can be solved by the commands of `step`.
use mathlib.Core.Path.{subst}
use nemo_rl_xtoken.Base.{
  ℕ, ◌-◌, ◌<◌, ◌≡◌, refl, sym, ap, ◌∙◌, Bool, true, false, ◌&&◌, ◌||◌, Option, none, some, List, [],
  ◌∷◌, arith, ok, raise_if-passes, ok-injective, length, ◌⊎◌, Bool-cases, inl, inr, ◌==◌,
}
use nemo_rl_xtoken.Base.Text.{text_eq_self}
use nemo_rl_xtoken.Puzzle.Board.{Grid, Pos, tile, solved, grid_eq}
use nemo_rl_xtoken.Puzzle.Board.Solved.{solved-IsSquare, tile-solved}
use nemo_rl_xtoken.Puzzle.Game.{
  Direction, Game, GameError, source, possible_moves, shuffle_move, shuffle, generate, Outcome,
  PythonText, Response, slid, slide_tile, after_move, step_direction, step,
}
use nemo_rl_xtoken.Puzzle.Game.Slides.{IsBoard}
use nemo_rl_xtoken.Puzzle.Game.Undo.{
  command, after, step-command, IsUndone, shuffle-IsUndone, positive,
}

grid_eq_self : (g : Grid) → grid_eq g g ≡ true
unfolding grid_eq
grid_eq_self [] = refl
grid_eq_self (row ∷ rows) = ground (arith, text_eq_self row, grid_eq_self rows)

or-true : (a : Bool) {b : Bool} → b ≡ true → (a || b) ≡ true
or-true true h = refl
or-true false h = h

module _ (python : PythonText) where
  -- One of these commands, in turn, ends the game with the reward.
  unfoldable pub wins : List Direction → Game → Bool
  wins [] g = false
  wins (d ∷ ds) g =
      let o = step python (command d) g in (o.is_terminated && o.reward == 1) || wins ds o.new_state

  abbrev won : Outcome → Bool
  won o = o.is_terminated && o.reward == 1

  -- The move wins, or the new state is not solved.
  abbrev WonOrOpen : Game → Outcome → Type 0
  WonOrOpen g o =
      (won o ≡ true)
      ⊎ ((grid_eq o.new_state.grid o.new_state.solution ≡ false)
          × (o.new_state.solution ≡ g.solution))

  after_move-WonOrOpen :
      (response : Response) (g g' : Game)
      → g'.solution ≡ g.solution
      → WonOrOpen g (after_move response g')
  unfolding after_move
  after_move-WonOrOpen response g g' same = elim (Bool-cases (grid_eq g'.grid g'.solution)) [
    | inl is_solved ↦ rw is_solved (inl refl)
    | inr unsolved ↦ rw unsolved (inr (unsolved, same))
  ]

  step-WonOrOpen :
      (d : Direction) (g : Game)
      → grid_eq g.grid g.solution ≡ false
      → WonOrOpen g (step python (command d) g)
  unfolding step_direction slide_tile
  step-WonOrOpen d g unsolved =
      subst (WonOrOpen g) (sym (step-command python d g)) (go (source d g.size g.empty_pos) refl)
    where
      go : (o : Option Pos) → source d g.size g.empty_pos ≡ o → WonOrOpen g (step_direction d g)
      go none out = rw (step_direction, out) (inr (unsolved, refl))
      go (some p) found =
          rw (step_direction, found)
            (after_move-WonOrOpen (slid (tile g.grid p) d) g (slide_tile p g) refl)

  wins-after :
      (ds : List Direction) (g : Game)
      → grid_eq g.grid g.solution ≡ false
      → (after python ds g).grid ≡ g.solution
      → wins ds g ≡ true
  unfolding wins after
  wins-after [] g unsolved reached = cc (rw reached at unsolved, grid_eq_self g.solution)
  wins-after (d ∷ ds) g unsolved reached =
      go (step python (command d) g) (step-WonOrOpen d g unsolved) (wins-after ds) reached
    where
      go :
          (o : Outcome)
          → WonOrOpen g o
          → ((h : Game)
              → grid_eq h.grid h.solution ≡ false
              → (after python ds h).grid ≡ h.solution
              → wins ds h ≡ true)
          → (after python ds o.new_state).grid ≡ g.solution
          → (won o || wins ds o.new_state) ≡ true
      go o (inl now) ih reached = rw now refl
      go o (inr (open_, same)) ih reached =
          or-true (won o) (ih o.new_state open_ (reached ∙ sym same))

  solved_game : ℕ → Game
  solved_game size = record {
    size = size;
    grid = solved size;
    solution = solved size;
    empty_pos = (size - 1, size - 1);
  }

  solved_game-IsBoard : (size : ℕ) → 0 < size → IsBoard (solved_game size)
  unfolding solved_game
  solved_game-IsBoard size some_rows = record {
    square = solved-IsSquare size;
    inside = (omega arith, omega arith);
    empty = tile-solved size some_rows;
    tiles = λ w. refl;
    goal = refl;
  }

  generated :
      (size : ℕ) (choices : List ℕ) (g : Game)
      → generate size choices ≡ ok g
      → IsUndone python (solved_game size) g
  unfolding generate solved_game
  generated size choices g made =
      let (nonzero, made') = raise_if-passes (size == 0) GameError.index_error _ made in
      subst (IsUndone python (solved_game size)) (ok-injective made') (
        shuffle-IsUndone python choices (solved_game size)
          (solved_game-IsBoard size (positive size nonzero)))

  shuffle_move-size : (choice : ℕ) (h : Game) → (shuffle_move choice h).size ≡ h.size
  unfolding shuffle_move
  shuffle_move-size choice h = elim (Bool-cases (length (possible_moves h.size h.empty_pos) == 0)) [
    | inl stuck ↦ rw stuck refl
    | inr free ↦ rw free refl
  ]

  shuffle-size : (choices : List ℕ) (h : Game) → (shuffle choices h).size ≡ h.size
  unfolding shuffle
  shuffle-size [] h = refl
  shuffle-size (choice ∷ choices) h =
      shuffle-size choices (shuffle_move choice h) ∙ shuffle_move-size choice h

  generate-size :
      (size : ℕ) (choices : List ℕ) (g : Game) → generate size choices ≡ ok g → g.size ≡ size
  unfolding generate solved_game
  generate-size size choices g made =
      let (nonzero, made') = raise_if-passes (size == 0) GameError.index_error _ made in
      ap (λ h. h.size) (sym (ok-injective made')) ∙ shuffle-size choices (solved_game size)

  -- Whatever the random choices are, a generated board is a square of the given size, with the tiles
  -- of the solved grid of that size, each as often, and the empty space where `empty_pos` says.
  pub generate-IsBoard :
      (size : ℕ) (choices : List ℕ) (g : Game)
      → generate size choices ≡ ok g
      → (g.size ≡ size) × IsBoard g
  generate-IsBoard size choices g made =
      (generate-size size choices g made, (generated size choices g made).board)

  -- Every board that `generate` makes can be solved: if its grid is not the solution, there are
  -- commands up, down, left and right such that `step`, given them one after the other, ends the
  -- game with the reward 1.
  pub generate-wins :
      (size : ℕ) (choices : List ℕ) (g : Game)
      → generate size choices ≡ ok g
      → grid_eq g.grid g.solution ≡ false
      → (commands : List Direction) × (wins commands g ≡ true)
  unfolding solved_game
  generate-wins size choices g made unsolved =
      let u = generated size choices g made in
      (
        u.commands,
        wins-after u.commands g unsolved (
            ap (λ h. h.grid) u.undo
            ∙ sym (u.board.goal ∙ ap solved (generate-size size choices g made))),
      )
