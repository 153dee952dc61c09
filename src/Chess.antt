-- ===== src/Chess.antt =====
-- plugins/probchess/
pub mod Square
pub mod Board
pub mod Moves
pub mod Check
pub mod Equality
pub mod Match
pub mod Fen
pub mod Lobby
