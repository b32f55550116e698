-- ===== src/Brain/Game.antt =====
-- tetriSH/src/libtetrisbrain/tetrisbrain.c: start-up, the gravity tick and input dispatch.
pub mod Inv
pub mod Garbage
pub mod Play
pub mod Scoreboard
use corestack.Prelude.{
  ℕ, zero, suc, ◌+◌, Bool, true, false, List, [], ◌∷◌, Option, none, some, leb, if◌then◌else◌,
  replicate,
}
use corestack.Brain.Model.{
  PieceKind, piece_none, Board, board_height, Piece, Move, move_none, move_left, move_right,
  move_rot_left, move_rot_right, move_soft_drop, move_hard_drop, hold, GameState,
}
use corestack.Brain.Board.{empty_row}
use corestack.Brain.Rng.{rng_piece}
use corestack.Brain.Action.{
  action_lmove, action_rmove, action_rrot, action_lrot, action_softdrop, action_harddrop,
  action_hold, action_ghost, spawn_next, next_len,
}

abbrev pub gravity_ticks : ℕ
gravity_ticks = 20

abbrev pub empty_board : Board
empty_board = replicate board_height empty_row

-- The first `n` pieces of the stream, from position `k` on.
unfoldable pub first_pieces : ℕ → ℕ → ℕ → List PieceKind
first_pieces seed k zero = []
first_pieces seed k (suc n) = rng_piece seed k ∷ first_pieces seed (k + 1) n

-- The state that `tetrisbrain_init` gives to `spawn_next`. Every field is written but the active
-- piece and those of the scoreboard.
unfoldable pub cleared_state : GameState → ℕ → GameState
cleared_state g seed = record g {
  board = empty_board;
  held = piece_none;
  hold_used = false;
  score = 0;
  lines = 0;
  level = 0;
  tick_count = 0;
  tick_trigger = gravity_ticks;
  seed = seed;
  game_over = false;
  garbage_out = 0;
  next = first_pieces seed 0 next_len;
  piece_generated_counter = next_len;
}

unfoldable pub tetrisbrain_init : GameState → ℕ → GameState
tetrisbrain_init g seed = (spawn_next (cleared_state g seed)).1

unfoldable pub tetrisbrain_tick : GameState → GameState
tetrisbrain_tick g =
    let ticked = record g { tick_count = g.tick_count + 1 } in
    if g.game_over
    then g
    else if leb g.tick_trigger (g.tick_count + 1)
    then (action_softdrop ticked).1
    else ticked

-- The hard drop's count of rows is not used.
abbrev pub dropped_state : Option (ℕ × GameState) → Option GameState
dropped_state none = none
dropped_state (some (n, g)) = some g

unfoldable pub dispatch : Move → GameState → Option GameState
dispatch move_left g = some (action_lmove g).1
dispatch move_right g = some (action_rmove g).1
dispatch move_rot_right g = some (action_rrot g).1
dispatch move_rot_left g = some (action_lrot g).1
dispatch move_soft_drop g = some (action_softdrop g).1
dispatch move_hard_drop g = dropped_state (action_harddrop g)
dispatch hold g = some (action_hold g).1
dispatch move_none g = some g

-- `none` if the hard drop does not end.
unfoldable pub tetrisbrain_input : GameState → Move → Option GameState
tetrisbrain_input g m = if g.game_over then some g else dispatch m g

abbrev pub tetrisbrain_game_over : GameState → Bool
tetrisbrain_game_over g = g.game_over

abbrev pub tetrisbrain_ghost : GameState → Option Piece
tetrisbrain_ghost = action_ghost
