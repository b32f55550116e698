-- ===== src/Brain/Tests.antt =====
-- The engine's theorems at concrete games, and runs of its operations.
use corestack.Prelude.{
  ℕ, ◌≡◌, refl, arith, Bool, true, false, [], ◌∷◌, ◌++◌, some, replicate, if◌then◌else◌, pos,
}
use corestack.Brain.Model.{
  piece_none, piece_i, piece_o, piece_t, Row, Board, Piece, GameState, move_left, move_rot_right,
  move_hard_drop, hold,
}
use corestack.Brain.Board.{cell, collides, lock, full, empty_row, clear_lines, board_add_garbage}
use corestack.Brain.Board.Clear.{survivors, full_rows, clear_lines-filter}
use corestack.Brain.Board.Lock.{covers, cell-lock}
use corestack.Brain.Action.{action_ghost, action_harddrop}
use corestack.Brain.Action.Inv.{IsValid}
use corestack.Brain.Action.Drop.{Below, down, landed, harddrop-ghost}
use corestack.Brain.Game.{tetrisbrain_init, tetrisbrain_input}
use corestack.Brain.Game.Inv.{Gives, tetrisbrain_init-IsValid}
use corestack.Brain.Game.Garbage.{Survives, board_add_garbage-Survives}
use corestack.Brain.Game.Play.{input, tick, garbage, play, play-IsValid}
use corestack.Brain.Game.Scoreboard.{scoreboard, scoreboard-input}

abbrev blank : GameState
blank = record {
  board = [];
  active = record { kind = piece_none; rot = 0; x = pos 0; y = pos 0 };
  next = [];
  held = piece_none;
  hold_used = false;
  score = 0;
  lines = 0;
  level = 0;
  tick_count = 0;
  tick_trigger = 0;
  seed = 0;
  piece_generated_counter = 0;
  game_over = false;
  garbage_out = 0;
  standings = [];
  standing_count = 0;
  my_player_id = pos 3;
}

abbrev started : GameState
started = tetrisbrain_init blank 7

started-IsValid : IsValid started
started-IsValid = (tetrisbrain_init-IsValid blank 7).0

abbrev full_row : Row
full_row = replicate 10 piece_i

abbrev odd_row : Row
odd_row = piece_t ∷ replicate 9 piece_none

-- Two full rows around one that is not.
abbrev stacked : Board
stacked = replicate 23 empty_row ++ (full_row ∷ odd_row ∷ full_row ∷ [])

clear_lines-filter_example :
    clear_lines stacked ≡ (2, replicate 2 empty_row ++ (replicate 23 empty_row ++ (odd_row ∷ [])))
unfolding survivors full_rows full
clear_lines-filter_example = clear_lines-filter stacked refl

play-IsValid_example : Gives IsValid (
    play
      (input move_left
        ∷ garbage (pos 2)
        ∷ input move_rot_right
        ∷ tick
        ∷ input hold
        ∷ input move_hard_drop
        ∷ [])
      (tetrisbrain_init blank 7))
play-IsValid_example = play-IsValid blank 7 (
    input move_left
    ∷ garbage (pos 2)
    ∷ input move_rot_right
    ∷ tick
    ∷ input hold
    ∷ input move_hard_drop
    ∷ [])

board_add_garbage-Survives_example :
    (r : Bool × GameState) × (board_add_garbage started (pos 3) ≡ some r) × Survives r
board_add_garbage-Survives_example = board_add_garbage-Survives started (pos 3) started-IsValid

harddrop-ghost_example :
    (n : ℕ) × (p : Piece) × (action_ghost started ≡ some p)
    × (action_harddrop started ≡ some (n, landed started p))
    × Below started.active p n
    × (collides started.board (down p) ≡ true)
harddrop-ghost_example = harddrop-ghost started started-IsValid.real

abbrev box : Piece
box = record { kind = piece_o; rot = 0; x = pos 4; y = pos 20 }

cell-lock_example :
    cell (lock started.board box) 21 5
    ≡ (if covers box 21 5 then piece_o else cell started.board 21 5)
cell-lock_example =
    cell-lock 21 5 (omega arith) (omega arith) started.board box started-IsValid.settled.board

scoreboard-input_example :
    Gives (λ h. scoreboard h ≡ scoreboard started) (tetrisbrain_input started move_hard_drop)
scoreboard-input_example = scoreboard-input started move_hard_drop started-IsValid
