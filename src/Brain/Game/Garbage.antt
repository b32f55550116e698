-- ===== src/Brain/Game/Garbage.antt =====
-- Garbage that another player sends: `board_add_garbage` as a session applies it.
use corestack.Prelude.{
  ℕ, zero, suc, ◌≤◌, ◌≡◌, refl, ◌∙◌, ap, arith, Bool, true, false, not, ◌&&◌, ◌||◌, some, ℤ, pos,
  negsuc, if◌then◌else◌, ltb,
}
use corestack.Brain.Model.{Board, board_height, Piece, GameState}
use corestack.Brain.Board.{
  collides, board_add_garbage, lift_stack, lift_active, lift_fuel, buried, garbage_tops,
}
use corestack.Brain.Board.Shape.{lift_stack-IsBoard}
use corestack.Brain.Board.Garbage.{Lifted, lift_active-Lifted}
use corestack.Brain.Rng.{is_spawnable}
use corestack.Brain.Action.Inv.{IsSettled, IsReal, IsValid}

survived :
    (clear topped over hit : Bool)
    → (clear ≡ true → hit ≡ false)
    → (not (clear && not topped) || (over || not hit)) ≡ true
survived false topped over hit h = refl
survived true topped over hit h = ground (arith, h refl)

-- The state of a board that has taken garbage, and whether it survived.
pub record Survives (r : Bool × GameState) : Type 0 where
  pub settled : IsSettled r.1
  pub real : IsReal r.1.active
  pub free : (not r.0 || (r.1.game_over || not (collides r.1.board r.1.active))) ≡ true

untouched-Survives : (g : GameState) → IsValid g → Survives (true, g)
untouched-Survives g v = record { settled = v.settled; real = v.real; free = v.free }

-- The rows that are added, at most the whole board.
abbrev pub rows_added : ℕ → ℕ
rows_added rows = if ltb board_height (suc rows) then board_height else suc rows

rows_added-le : (rows : ℕ) → rows_added rows ≤ board_height
rows_added-le rows = ground arith

board_add_garbage-raised :
    (g : GameState) (rows : ℕ) (clear : Bool) (p : Piece)
    → lift_active (lift_fuel g.active) (lift_stack g.board (rows_added rows)) g.active
      ≡ some (clear, p)
    → board_add_garbage g (pos (suc rows))
      ≡ some (
        clear && not (garbage_tops g.board (rows_added rows)),
        record g { board = lift_stack g.board (rows_added rows); active = p },
      )
unfolding board_add_garbage
board_add_garbage-raised g rows clear p e = rw (e, board_add_garbage)

buried-free :
    (b : Board) (p : Piece) → buried b p ≡ false → is_spawnable p.kind ≡ true → collides b p ≡ false
unfolding buried
buried-free b p h e = ground arith

raised-Survives :
    (g : GameState) (rows : ℕ)
    → IsValid g
    → (l : Lifted (lift_fuel g.active) (lift_stack g.board (rows_added rows)) g.active)
    → Survives (
      l.clear && not (garbage_tops g.board (rows_added rows)),
      record g { board = lift_stack g.board (rows_added rows); active = l.q },
    )
raised-Survives g rows v l =
    let n = rows_added rows in
    let real_kind : is_spawnable l.q.kind ≡ true = rw l.same_kind v.real.kind in
    record {
      settled = record {
        board = lift_stack-IsBoard g.board n (rows_added-le rows) v.settled.board;
        queue = v.settled.queue;
        held = v.settled.held;
      };
      real = record { kind = real_kind; rot = rw l.same_rot v.real.rot };
      free =
          survived l.clear (garbage_tops g.board n) g.game_over
            (collides (lift_stack g.board n) l.q)
            (λ e. buried-free (lift_stack g.board n) l.q (l.free ∙ ap not e) real_kind);
    }

-- In a valid state `board_add_garbage` returns for every number of rows; the board, the queue and
-- the held piece stay well formed, and if it answers true the falling piece of a running game is
-- clear of the raised stack.
pub board_add_garbage-Survives :
    (g : GameState) (rows : ℤ)
    → IsValid g
    → (r : Bool × GameState) × (board_add_garbage g rows ≡ some r) × Survives r
board_add_garbage-Survives g (pos zero) v =
    ((true, g), unfold board_add_garbage in refl, untouched-Survives g v)
board_add_garbage-Survives g (negsuc n) v =
    ((true, g), unfold board_add_garbage in refl, untouched-Survives g v)
board_add_garbage-Survives g (pos (suc rows)) v =
    let l =
      lift_active-Lifted (lift_fuel g.active) (lift_stack g.board (rows_added rows)) g.active
        (omega arith) in
    (_, board_add_garbage-raised g rows l.clear l.q l.runs, raised-Survives g rows v l)
