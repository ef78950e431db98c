-- ===== src/Battle.antt =====
-- The battleship game of 5.Game-Management: the grid with its ships, the moves, the game, and the
-- text routines by which it reads rules, maps and moves, and the agents that choose moves.
pub mod Text
pub mod Nodes
pub mod Grid
pub mod Move
pub mod Game
pub mod Setup
pub mod Check
pub mod Agent
pub mod Hub
mod Tests
