-- ===== src/Brain/Action/Cycle.antt =====
-- The lock cycle, the drops and the hold keep the invariant.
use corestack.Prelude.{◌≡◌, refl, arith, Bool, true, false, ◌||◌, pos, Bool-cases, inl, inr}
use corestack.Brain.Model.{PieceKind, is_none, Piece, GameState}
use corestack.Brain.Board.{board_lock, board_clear_lines, clear_lines}
use corestack.Brain.Board.Shape.{lock-IsBoard, clear_lines-IsBoard}
use corestack.Brain.Rng.{is_spawnable}
use corestack.Brain.Scoring.{scoring_add}
use corestack.Brain.Action.{
  action_try_move, garbage_earn, spawn_next, post_lock, action_softdrop, action_hold, or_top_out,
  after_drop,
}
use corestack.Brain.Action.Inv.{
  IsSettled, IsReal, IsValid, spawn_next-IsValid, swap_held-IsValid, storable,
}
use corestack.Brain.Action.Place.{action_try_move-IsValid}

IsSettled-same :
    {g : GameState} (h : GameState)
    → IsSettled g
    → h.board ≡ g.board
    → h.next ≡ g.next
    → h.held ≡ g.held
    → IsSettled h
IsSettled-same h s eb en eh = record {
  board = rw eb s.board;
  queue = rw en s.queue;
  held = rw eh s.held;
}

-- The locked state with the rows cleared, scored, and the attack banked.
abbrev pub earned : GameState → GameState
earned g =
    let (n, cleared) = board_clear_lines g in
    record (garbage_earn (scoring_add cleared n) n) { hold_used = false }

pub post_lock-earned : (g : GameState) → post_lock g ≡ or_top_out (spawn_next (earned g))
unfolding post_lock
post_lock-earned g = refl

pub earned-IsSettled : (g : GameState) → IsSettled g → IsSettled (earned g)
unfolding board_clear_lines garbage_earn scoring_add
earned-IsSettled g s =
    IsSettled-same {g = record g { board = (clear_lines g.board).1 }} (earned g)
      (record { board = clear_lines-IsBoard g.board s.board; queue = s.queue; held = s.held })
      (ground arith) (ground arith) (ground arith)

active-earned : (g : GameState) → (earned g).active ≡ g.active
unfolding board_clear_lines garbage_earn scoring_add
active-earned g = ground arith

pub post_lock-IsValid : (g : GameState) → IsSettled g → IsReal g.active → IsValid (post_lock g)
post_lock-IsValid g s r =
    rw (post_lock-earned g)
      (spawn_next-IsValid (earned g) (earned-IsSettled g s) (rw (active-earned g) r))

pub board_lock-IsSettled : (g : GameState) (p : Piece) → IsSettled g → IsSettled (board_lock g p)
unfolding board_lock
board_lock-IsSettled g p s = record {
  board = lock-IsBoard g.board p s.board;
  queue = s.queue;
  held = s.held;
}

pub active-board_lock : (g : GameState) (p : Piece) → (board_lock g p).active ≡ g.active
unfolding board_lock
active-board_lock g p = refl

pub reset_ticks-IsValid : (g : GameState) → IsValid g → IsValid (record g { tick_count = 0 })
reset_ticks-IsValid g v = record {
  settled = record { board = v.settled.board; queue = v.settled.queue; held = v.settled.held };
  real = v.real;
  free = v.free;
}

after_drop-IsValid : (g : GameState) (moved : Bool) → IsValid g → IsValid (after_drop (moved, g)).1
after_drop-IsValid g true v = reset_ticks-IsValid g v
after_drop-IsValid g false v = reset_ticks-IsValid (post_lock (board_lock g g.active)) (
    post_lock-IsValid (board_lock g g.active) (board_lock-IsSettled g g.active v.settled)
      (rw (active-board_lock g g.active) v.real))

-- `action_softdrop` keeps the invariant, whether the piece moves or locks.
pub action_softdrop-IsValid : (g : GameState) → IsValid g → IsValid (action_softdrop g).1
unfolding action_softdrop
action_softdrop-IsValid g v =
    after_drop-IsValid (action_try_move g (pos 0) (pos 1)).1 (action_try_move g (pos 0) (pos 1)).0
      (action_try_move-IsValid g (pos 0) (pos 1) v)

held_used-IsSettled :
    (g : GameState) (k : PieceKind)
    → IsSettled g
    → (is_none k || is_spawnable k) ≡ true
    → IsSettled (record g { hold_used = true; held = k })
held_used-IsSettled g k s h = record { board = s.board; queue = s.queue; held = h }

held-is_spawnable :
    (k : PieceKind)
    → is_none k ≡ false
    → (is_none k || is_spawnable k) ≡ true
    → is_spawnable k ≡ true
held-is_spawnable k h e = ground arith

-- `action_hold` keeps the invariant on all of its paths.
pub action_hold-IsValid : (g : GameState) → IsValid g → IsValid (action_hold g).1
unfolding action_hold
action_hold-IsValid g v = elim (Bool-cases g.hold_used) [
  | inl e ↦ simp (e, action_hold) v
  | inr e ↦ elim (Bool-cases (is_none g.held)) [
    | inl n ↦
        simp (e, n, action_hold)
          (spawn_next-IsValid (record g { hold_used = true; held = g.active.kind })
            (held_used-IsSettled g g.active.kind v.settled (storable g.active.kind v.real.kind))
            v.real)
    | inr n ↦
        simp (e, n, action_hold)
          (swap_held-IsValid (record g { hold_used = true }) g.held
            (held_used-IsSettled g g.held v.settled v.settled.held)
            (held-is_spawnable g.held n v.settled.held) g.active.kind v.real.kind v.real)
  ]
]
