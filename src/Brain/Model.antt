-- ===== src/Brain/Model.antt =====
-- tetriSH/include/libtetrisbrain/gamestate.h: the data that the engine works on. An `int` that the
-- engine only ever counts up from 0 is a ℕ; positions are ℤ.
use corestack.Prelude.{ℕ, Bool, true, false, List, ℤ}

pub data PieceKind : Type 0 where
  piece_none piece_i piece_o piece_t piece_s piece_z piece_j piece_l : PieceKind
  piece_spawnable piece_garbage : PieceKind

-- A cell is `piece_none` when empty, else the kind that locked there.
abbrev pub Cell : Type 0
Cell = PieceKind

abbrev pub Row : Type 0
Row = List Cell

-- `Cell board[BOARD_HEIGHT][BOARD_WIDTH]`, top row first.
abbrev pub Board : Type 0
Board = List Row

abbrev pub board_width : ℕ
board_width = 10

abbrev pub board_main_height : ℕ
board_main_height = 20

abbrev pub board_buffer_height : ℕ
board_buffer_height = 6

abbrev pub board_height : ℕ
board_height = 26

abbrev pub is_none : PieceKind → Bool
is_none piece_none = true
is_none _ = false

pub record Piece : Type 0 where
  pub kind : PieceKind
  pub rot : ℕ
  pub x : ℤ
  pub y : ℤ

pub data Move : Type 0 where
  move_none move_left move_right move_rot_left move_rot_right : Move
  move_soft_drop move_hard_drop hold : Move

pub record PlayerStanding : Type 0 where
  pub player_id : ℤ
  pub name : List ℕ
  pub score : ℤ
  pub lines : ℤ
  pub game_over : Bool

pub record GameState : Type 0 where
  pub board : Board
  pub active : Piece
  pub next : List PieceKind
  pub held : PieceKind
  pub hold_used : Bool
  pub score : ℕ
  pub lines : ℕ
  pub level : ℕ
  pub tick_count : ℕ
  pub tick_trigger : ℕ
  pub seed : ℕ
  pub piece_generated_counter : ℕ
  pub game_over : Bool
  pub garbage_out : ℕ
  pub standings : List PlayerStanding
  pub standing_count : ℕ
  pub my_player_id : ℤ
