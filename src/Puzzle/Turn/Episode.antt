-- ===== src/Puzzle/Turn/Episode.antt =====
-- What a call of `step`, and a turn, keep.
use nemo_rl_xtoken.Base.{
  ℕ, ◌+◌, ◌<◌, ◌≤◌, ◌≡◌, ◌≢◌, refl, ap, Bool, true, false, Option, none, some, List, arith, leb,
  leb_false→lt, ◌==◌, ==→eq, if◌then◌else◌, Bool-cases, Option-cases, inl, inr, ◌⊎◌,
}
use nemo_rl_xtoken.Base.Int.{ℤ}
use nemo_rl_xtoken.Base.Text.{Text, codes, text_eq}
use nemo_rl_xtoken.Puzzle.Board.{Pos, tile, grid_eq}
use nemo_rl_xtoken.Puzzle.Board.Laws.{Inside, grid_eq→eq}
use nemo_rl_xtoken.Puzzle.Game.{
  Direction, Game, Response, slid, slid_tile, cannot_slide, invalid_position, not_adjacent,
  invalid_format, unknown_command, Outcome, PythonText, in_grid, source, slide_tile, after_move,
  refused, step_direction, step_slide, coordinate, distance, starts_with, read_slide, direction,
  step,
}
use nemo_rl_xtoken.Puzzle.Game.Slides.{IsBoard, source-IsSource, slide_tile-IsBoard}
use nemo_rl_xtoken.Puzzle.Turn.{
  Metadata, Message, TurnResult, answered, moved, take_action, process_turn, parse_action,
  last_content,
}

-- What an outcome of `step` must be: a board of the same game; and the reward is 1 exactly when the
-- game ends, which is when the grid is the solution.
pub record IsStep (g : Game) (o : Outcome) : Type 0 where
  pub board : IsBoard o.new_state
  pub same_size : o.new_state.size ≡ g.size
  pub reward : o.reward ≡ (if o.is_terminated then 1 else 0)
  pub solved : o.is_terminated ≡ true → o.new_state.grid ≡ o.new_state.solution

module _ (g : Game) (v : IsBoard g) where
  refused-IsStep : (response : Response) → IsStep g (refused response g)
  refused-IsStep response = record { board = v; same_size = refl; reward = refl; solved = λ e. cc }

  after_move-IsStep :
      (response : Response) (g' : Game)
      → IsBoard g'
      → g'.size ≡ g.size
      → IsStep g (after_move response g')
  unfolding after_move
  after_move-IsStep response g' board same = elim (Bool-cases (grid_eq g'.grid g'.solution)) [
    | inl is_solved ↦ rw is_solved (record {
      board = board;
      same_size = same;
      reward = refl;
      solved = λ e. grid_eq→eq g'.grid g'.solution is_solved;
    })
    | inr unsolved ↦
        rw unsolved (record { board = board; same_size = same; reward = refl; solved = λ e. cc })
  ]

  slide-IsStep :
      (response : Response) (p : Pos)
      → Inside g.size p
      → g.empty_pos ≢ p
      → IsStep g (after_move response (slide_tile p g))
  slide-IsStep response p inside other =
      after_move-IsStep response (slide_tile p g) (slide_tile-IsBoard g v p inside other) size
    where
      size : (slide_tile p g).size ≡ g.size
      size = unfold slide_tile in refl

  step_direction-IsStep : (d : Direction) → IsStep g (step_direction d g)
  unfolding step_direction
  step_direction-IsStep d = elim (Option-cases (source d g.size g.empty_pos)) [
    | inl out ↦ rw (step_direction, out) (refused-IsStep (cannot_slide d))
    | inr (p, found) ↦
        let s = source-IsSource d g.size g.empty_pos p v.inside found in
        rw (step_direction, found) (slide-IsStep (slid (tile g.grid p) d) p s.inside s.other)
  ]

  in_grid-Inside : (r c : Option ℕ) (p : Pos) → in_grid g.size r c ≡ some p → Inside g.size p
  in_grid-Inside none c p e = cc
  in_grid-Inside (some r) none p e = cc
  in_grid-Inside (some r) (some c) (s, d) e = ground arith

  -- A tile at distance 1 is another one.
  distance-ne :
      (p : Pos) → distance p.0 g.empty_pos.0 + distance p.1 g.empty_pos.1 ≡ 1 → g.empty_pos ≢ p
  distance-ne p near same = absurd (omega (arith, ap (λ q. q.0) same, ap (λ q. q.1) same))

  step_slide-IsStep : (r c : ℤ) → IsStep g (step_slide r c g)
  unfolding step_slide
  step_slide-IsStep r c = elim (Option-cases (in_grid g.size (coordinate r) (coordinate c))) [
    | inl out ↦ rw (step_slide, out) (refused-IsStep invalid_position)
    | inr (p, found) ↦
        elim (Bool-cases (distance p.0 g.empty_pos.0 + distance p.1 g.empty_pos.1 == 1)) [
          | inl near ↦
              rw (step_slide, found, near)
                (slide-IsStep (slid_tile (tile g.grid p)) p
                  (in_grid-Inside (coordinate r) (coordinate c) p found)
                  (distance-ne p (==→eq _ 1 near)))
          | inr far ↦ rw (step_slide, found, far) (refused-IsStep not_adjacent)
        ]
  ]

  -- Whatever the text of the action is, `step` leaves a board of the same size with the same tiles
  -- and the same solution, and gives the reward 1 exactly when it ends the game, and it ends it
  -- only with the grid solved.
  pub step-IsStep : (python : PythonText) (action : Text) → IsStep g (step python action g)
  unfolding step
  step-IsStep python action = go (starts_with (codes "slide ") action)
    where
      slide :
          (o : Option (ℤ × ℤ))
          → IsStep g (elim o [ none ↦ refused invalid_format g | some (r, c) ↦ step_slide r c g ])
      slide none = refused-IsStep invalid_format
      slide (some (r, c)) = step_slide-IsStep r c

      word :
          (o : Option Direction)
          → IsStep g (elim o [ none ↦ refused unknown_command g | some d ↦ step_direction d g ])
      word none = refused-IsStep unknown_command
      word (some d) = step_direction-IsStep d

      go :
          (b : Bool)
          → IsStep g (
              if b
              then (elim (read_slide python (python.split action)) [
                | none ↦ refused invalid_format g
                | some (r, c) ↦ step_slide r c g
              ])
              else (elim (direction action) [
                | none ↦ refused unknown_command g
                | some d ↦ step_direction d g
              ]))
      go true = slide (read_slide python (python.split action))
      go false = word (direction action)

-- A play: a board, and no more moves than the limit.
pub record IsPlay (m : Metadata) : Type 0 where
  pub board : IsBoard m.game_state
  pub moves : m.num_moves ≤ m.max_moves

-- What a turn may lead to: the game is over; or it goes on, with the same limit, and either nothing
-- has changed or one more move is counted; or the text had no action, and nothing is given back.
abbrev pub IsNext : Metadata → Bool → Option Metadata → Type 0
IsNext m true o = o ≡ none
IsNext m false none = Unit
IsNext m false (some m') =
    IsPlay m' × (m'.max_moves ≡ m.max_moves) × ((m' ≡ m) ⊎ (m'.num_moves ≡ m.num_moves + 1))

pub record IsTurn (m : Metadata) (t : TurnResult) : Type 0 where
  pub next : IsNext m t.is_terminated t.next_metadata
  pub reward_at_end : t.reward ≤ (if t.is_terminated then 1 else 0)

moved-IsTurn :
    (m : Metadata) (o : Outcome)
    → m.num_moves < m.max_moves
    → IsStep m.game_state o
    → IsTurn m (moved m o)
moved-IsTurn m o room v = go o.is_terminated v.reward
  where
    go :
        (b : Bool)
        → o.reward ≡ (if b then 1 else 0)
        → IsTurn m (record {
          observation = answered o.response;
          reward = o.reward;
          is_terminated = b;
          has_stop_strings = true;
          next_metadata =
              if b
              then none
              else some (record m { game_state = o.new_state; num_moves = m.num_moves + 1 });
        })
    go true e = record { next = refl; reward_at_end = omega arith }
    go false e = record {
      next = (record { board = v.board; moves = omega arith }, refl, inr refl);
      reward_at_end = omega arith;
    }

take_action-IsTurn :
    (python : PythonText) (action : Option Text) (m : Metadata)
    → IsPlay m
    → m.num_moves < m.max_moves
    → IsTurn m (take_action python action m)
unfolding take_action
take_action-IsTurn python none m v room = record { next = tt; reward_at_end = omega arith }
take_action-IsTurn python (some action) m v room =
    elim (Bool-cases (text_eq action (codes "view"))) [
      | inl views ↦ rw views (record { next = (v, refl, inl refl); reward_at_end = omega arith })
      | inr moves ↦ rw moves (
          moved-IsTurn m (step python action m.game_state) room
            (step-IsStep m.game_state v.board python action))
    ]

-- A turn of a play, whatever the message log is: it ends the game and clears the metadata; or the
-- metadata that it gives back is again a play with the same limit, in which nothing has changed or
-- one more move is counted; or there is none. A reward is given only with the end of the game, and
-- is at most 1.
pub process_turn-IsTurn :
    (python : PythonText) (log : List Message) (m : Metadata)
    → IsPlay m
    → IsTurn m (process_turn python log m)
unfolding process_turn
process_turn-IsTurn python log m v = elim (Bool-cases (leb m.max_moves m.num_moves)) [
  | inl over ↦ rw over (record { next = refl; reward_at_end = omega arith })
  | inr room ↦ rw room (
      take_action-IsTurn python (parse_action (last_content log)) m v
        (leb_false→lt m.max_moves m.num_moves room))
]
