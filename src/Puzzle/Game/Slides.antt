-- ===== src/Puzzle/Game/Slides.antt =====
-- What a slide keeps, and how it is undone.
use mathlib.Core.Path.{ap₂}
use nemo_rl_xtoken.Base.{ℕ, zero, suc, ◌≡◌, ◌≢◌, refl, sym, ap, ◌∙◌, some, arith, total}
use nemo_rl_xtoken.Puzzle.Board.{Grid, Pos, tile, set_tile, solved}
use nemo_rl_xtoken.Puzzle.Board.Laws.{
  IsSquare, Inside, set_tile-IsSquare, tile-set_tile_self, tile-set_tile_ne, total-set_tile,
  set_tile-set_tile_self, set_tile-set_tile_ne, set_tile_same,
}
use nemo_rl_xtoken.Puzzle.Game.{
  Direction, up, down, left, right, Game, source, swap_tiles, slide_tile,
}

-- A square with the tiles of the solved one, each as often, and the empty space where
-- `empty_pos` says.
pub record IsBoard (g : Game) : Type 0 where
  pub square : IsSquare g.size g.grid
  pub inside : Inside g.size g.empty_pos
  pub empty : tile g.grid g.empty_pos ≡ 0
  pub tiles : (w : ℕ → ℕ) → total (total w) g.grid ≡ total (total w) (solved g.size)
  pub goal : g.solution ≡ solved g.size

abbrev pub opposite : Direction → Direction
opposite up = down
opposite down = up
opposite left = right
opposite right = left

-- A slide goes to another place of the grid, and the opposite one comes back from there.
pub record IsSource (d : Direction) (size : ℕ) (e p : Pos) : Type 0 where
  pub inside : Inside size p
  pub other : e ≢ p
  pub back : source (opposite d) size p ≡ some e

pub source-IsSource :
    (d : Direction) (size : ℕ) (e p : Pos)
    → Inside size e
    → source d size e ≡ some p
    → IsSource d size e p
source-IsSource up size (r, c) (s, k) h found =
    let row : s ≡ suc r = ground arith in
    record {
      inside = ground arith;
      other = λ e. absurd (omega (arith, ap (λ q. q.0) e));
      back = rw row (ground arith);
    }
source-IsSource down size (zero, c) (s, k) h found = cc
source-IsSource down size (suc r, c) (s, k) h found = record {
  inside = ground arith;
  other = λ e. absurd (ground (arith, ap (λ q. q.0) e));
  back = ground arith;
}
source-IsSource left size (r, c) (s, k) h found =
    let column : k ≡ suc c = ground arith in
    record {
      inside = ground arith;
      other = λ e. absurd (omega (arith, ap (λ q. q.1) e));
      back = rw column (ground arith);
    }
source-IsSource right size (r, zero) (s, k) h found = cc
source-IsSource right size (r, suc c) (s, k) h found = record {
  inside = ground arith;
  other = λ e. absurd (ground (arith, ap (λ q. q.1) e));
  back = ground arith;
}

module _ (g : Game) (v : IsBoard g) (p : Pos) (inside : Inside g.size p)
    (other : g.empty_pos ≢ p) where
  moved : Grid
  moved = set_tile g.empty_pos (tile g.grid p) g.grid

  moved-IsSquare : IsSquare g.size moved
  unfolding moved
  moved-IsSquare = set_tile-IsSquare g.size g.grid v.square g.empty_pos (tile g.grid p)

  slide_tile-tiles : (w : ℕ → ℕ) → total (total w) (slide_tile p g).grid ≡ total (total w) g.grid
  unfolding slide_tile moved
  slide_tile-tiles w = omega (
    arith,
    total-set_tile g.size g.grid v.square w g.empty_pos (tile g.grid p) v.inside,
    total-set_tile g.size moved moved-IsSquare w p 0 inside,
    ap w (tile-set_tile_ne g.size g.grid v.square g.empty_pos p (tile g.grid p) v.inside other),
    ap w v.empty,
  )

  pub slide_tile-IsBoard : IsBoard (slide_tile p g)
  unfolding slide_tile moved
  slide_tile-IsBoard = record {
    square = set_tile-IsSquare g.size moved moved-IsSquare p 0;
    inside = inside;
    empty = tile-set_tile_self g.size moved moved-IsSquare p 0 inside;
    tiles = λ w. slide_tile-tiles w ∙ v.tiles w;
    goal = v.goal;
  }

  -- The tile slides back.
  pub slide_tile-slide_tile : slide_tile g.empty_pos (slide_tile p g) ≡ g
  unfolding slide_tile moved
  slide_tile-slide_tile =
      ap (λ grid. record g { grid = grid })
        (ap₂ (λ t grid. set_tile g.empty_pos 0 (set_tile p t grid))
            (tile-set_tile_ne g.size moved moved-IsSquare p g.empty_pos 0 inside
                (λ e. other (sym e))
              ∙ tile-set_tile_self g.size g.grid v.square g.empty_pos (tile g.grid p) v.inside)
            refl
          ∙ ap (set_tile g.empty_pos 0) (set_tile-set_tile_self p (tile g.grid p) 0 moved)
          ∙ ap (set_tile g.empty_pos 0) (
              set_tile-set_tile_ne p g.empty_pos (tile g.grid p) (tile g.grid p) g.grid
                (λ e. other (sym e)))
          ∙ ap (λ grid. set_tile g.empty_pos 0 (set_tile g.empty_pos (tile g.grid p) grid))
              (set_tile_same p (tile g.grid p) g.grid refl)
          ∙ set_tile-set_tile_self g.empty_pos 0 (tile g.grid p) g.grid
          ∙ set_tile_same g.empty_pos 0 g.grid (sym v.empty))

  -- With the empty space at one end, the swap of the shuffle is a slide.
  pub swap_tiles-slide_tile :
      (record g { grid = swap_tiles g.empty_pos p g.grid; empty_pos = p }) ≡ slide_tile p g
  unfolding slide_tile
  swap_tiles-slide_tile =
      ap
        (λ t. record g {
          grid = set_tile p t (set_tile g.empty_pos (tile g.grid p) g.grid);
          empty_pos = p;
        })
        v.empty
