-- ===== src/Puzzle/Game/Undo.antt =====
-- The commands of `step`, and how they undo the shuffle.
use mathlib.Core.Path.{subst}
use nemo_rl_xtoken.Base.{
  ℕ, zero, suc, ◌%◌, ◌<◌, ◌≡◌, refl, sym, ap, ◌∙◌, false, some, List, [], ◌∷◌, ◌++◌, arith, length,
  get_or, Bool-cases, Option-cases, inl, inr, ◌==◌, All, All-append,
}
use native.Mathlib.Nat.{mod-lt}
use nemo_rl_xtoken.Base.Text.{Text, codes}
use nemo_rl_xtoken.Puzzle.Board.{Pos, tile, grid_eq}
use nemo_rl_xtoken.Puzzle.Game.{
  Direction, up, down, left, right, Game, source, option_list, possible_moves, shuffle_move,
  shuffle, PythonText, Response, slid, swap_tiles, slide_tile, after_move, step_direction, step,
}
use nemo_rl_xtoken.Puzzle.Game.Slides.{
  IsBoard, opposite, source-IsSource, slide_tile-IsBoard, slide_tile-slide_tile,
  swap_tiles-slide_tile,
}

All-get_or_lt :
    {A : Type 0} (P : A → Type 0) (d : A) (xs : List A) (i : ℕ)
    → i < length xs
    → All P xs
    → P (get_or xs i d)
All-get_or_lt P d [] i h all = absurd (omega arith)
All-get_or_lt P d (x ∷ xs) zero h all = all.0
All-get_or_lt P d (x ∷ xs) (suc i) h all = All-get_or_lt P d xs i (omega arith) all.1

pub positive : (n : ℕ) → (n == 0) ≡ false → 0 < n
positive zero h = cc
positive (suc n) h = omega arith

-- The word for a direction.
abbrev pub command : Direction → Text
command up = codes "up"
command down = codes "down"
command left = codes "left"
command right = codes "right"

module _ (python : PythonText) where
  pub step-command : (d : Direction) (g : Game) → step python (command d) g ≡ step_direction d g
  unfolding step
  step-command up g = refl
  step-command down g = refl
  step-command left g = refl
  step-command right g = refl

  -- The state after these commands.
  unfoldable pub after : List Direction → Game → Game
  after [] g = g
  after (d ∷ ds) g = after ds (step python (command d) g).new_state

  after-append : (ds es : List Direction) (g : Game) → after (ds ++ es) g ≡ after es (after ds g)
  unfolding after
  after-append [] es g = refl
  after-append (d ∷ ds) es g = after-append ds es (step python (command d) g).new_state

  state-after_move : (response : Response) (g : Game) → (after_move response g).new_state ≡ g
  unfolding after_move
  state-after_move response g = elim (Bool-cases (grid_eq g.grid g.solution)) [
    | inl is_solved ↦ rw is_solved refl
    | inr unsolved ↦ rw unsolved refl
  ]

  state-step :
      (d : Direction) (g : Game) (p : Pos)
      → source d g.size g.empty_pos ≡ some p
      → (step python (command d) g).new_state ≡ slide_tile p g
  unfolding step_direction
  state-step d g p found =
      ap (λ o. o.new_state) (step-command d g)
      ∙ rw (step_direction, found) (state-after_move (slid (tile g.grid p) d) (slide_tile p g))

  -- The opposite command after a slide.
  after-opposite :
      (d : Direction) (g : Game) (p : Pos)
      → IsBoard g
      → source d g.size g.empty_pos ≡ some p
      → after (opposite d ∷ []) (slide_tile p g) ≡ g
  unfolding after slide_tile
  after-opposite d g p v found =
      let s = source-IsSource d g.size g.empty_pos p v.inside found in
      state-step (opposite d) (slide_tile p g) g.empty_pos s.back
      ∙ slide_tile-slide_tile g v p s.inside s.other

  -- A round of the shuffle can be undone, and leaves a board.
  pub record IsUndone (g g' : Game) : Type 0 where
    pub board : IsBoard g'
    pub commands : List Direction
    pub undo : after commands g' ≡ g

  slide-IsUndone :
      (d : Direction) (g : Game) (p : Pos)
      → IsBoard g
      → source d g.size g.empty_pos ≡ some p
      → IsUndone g (record g { grid = swap_tiles g.empty_pos p g.grid; empty_pos = p })
  slide-IsUndone d g p v found =
      let s = source-IsSource d g.size g.empty_pos p v.inside found in
      subst (IsUndone g) (sym (swap_tiles-slide_tile g v p s.inside s.other)) (record {
        board = slide_tile-IsBoard g v p s.inside s.other;
        commands = opposite d ∷ [];
        undo = after-opposite d g p v found;
      })

  abbrev IsMove : Game → Pos → Type 0
  IsMove g p = (d : Direction) × (source d g.size g.empty_pos ≡ some p)

  option_list-IsMove :
      (d : Direction) (g : Game) → All (IsMove g) (option_list (source d g.size g.empty_pos))
  option_list-IsMove d g = elim (Option-cases (source d g.size g.empty_pos)) [
    | inl out ↦ rw out tt
    | inr (p, found) ↦ rw found ((d, found), tt)
  ]

  possible_moves-IsMove : (g : Game) → All (IsMove g) (possible_moves g.size g.empty_pos)
  unfolding possible_moves
  possible_moves-IsMove g = All-append _ _ _ (option_list-IsMove left g) (
      All-append _ _ _ (option_list-IsMove up g)
        (All-append _ _ _ (option_list-IsMove right g) (option_list-IsMove down g)))

  shuffle_move-IsUndone : (choice : ℕ) (g : Game) → IsBoard g → IsUndone g (shuffle_move choice g)
  unfolding shuffle_move after
  shuffle_move-IsUndone choice g v = elim (Bool-cases (length moves == 0)) [
    | inl stuck ↦ rw stuck (record { board = v; commands = []; undo = refl })
    | inr free ↦
        let (d, found) =
          All-get_or_lt (IsMove g) (0, 0) moves (choice % length moves)
            (mod-lt choice (positive (length moves) free)) (possible_moves-IsMove g) in
        rw free (slide-IsUndone d g (get_or moves (choice % length moves) (0, 0)) v found)
  ]
    where
      moves : List Pos
      moves = possible_moves g.size g.empty_pos

  pub shuffle-IsUndone : (choices : List ℕ) (g : Game) → IsBoard g → IsUndone g (shuffle choices g)
  unfolding shuffle after
  shuffle-IsUndone [] g v = record { board = v; commands = []; undo = refl }
  shuffle-IsUndone (choice ∷ choices) g v =
      let first = shuffle_move-IsUndone choice g v in
      let rest = shuffle-IsUndone choices (shuffle_move choice g) first.board in
      record {
        board = rest.board;
        commands = rest.commands ++ first.commands;
        undo =
            after-append rest.commands first.commands (shuffle choices (shuffle_move choice g))
            ∙ ap (after first.commands) rest.undo
            ∙ first.undo;
      }
