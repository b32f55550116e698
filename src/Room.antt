-- ===== src/Room.antt =====
-- The rooms of tetrisd: tetriSH/src/tetrisd/room.c, which the admin thread alone runs.
pub mod Board
pub mod Shift
pub mod Top
pub mod Model
pub mod Rank
pub mod Winner
pub mod Sorted
pub mod Table
pub mod Create
pub mod Members
pub mod Compare
pub mod Attack
pub mod Tests
pub mod Round
pub mod Over
pub mod Server
