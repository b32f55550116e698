-- ===== src/Brain.antt =====
-- libtetrisbrain, the rules of one tetriSH board: tetriSH/src/libtetrisbrain.
pub mod Model
pub mod Piece
pub mod Board
pub mod Rng
pub mod Scoring
pub mod Action
pub mod Game
pub mod Tests
