-- ===== src/Chess.antt =====
-- MyIVR/ChessFigure: the chess rules of the application.
pub mod Piece
pub mod Board
pub mod Int
pub mod Moves
pub mod Game
pub mod Saves
mod Examples
