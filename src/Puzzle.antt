-- ===== src/Puzzle.antt =====
-- The sliding puzzle: nemo_rl/environments/games/sliding_puzzle.py.
pub mod Board
pub mod Game
pub mod Turn
mod Examples
