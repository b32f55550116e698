-- ===== src/Brain/Game/Inv.antt =====
-- Start-up, ticks, inputs and garbage keep the invariant, and every one of them returns.
use corestack.Prelude.{
  ℕ, zero, suc, ◌+◌, ◌≡◌, refl, sym, ap, Bool, true, false, Option, none, some, pos, negsuc, ◌-ℤ◌,
  Bool-cases, inl, inr, if◌then◌else◌, leb, length, get_or, ◌%◌, ◌+ℤ◌,
}
use mathlib.Core.Path.{subst}
use corestack.Brain.Model.{
  PieceKind, piece_none, piece_i, piece_o, piece_t, piece_s, piece_z, piece_j, piece_l,
  piece_spawnable, piece_garbage, board_height, Piece, GameState, Move, move_none, move_left,
  move_right, move_rot_left, move_rot_right, move_soft_drop, move_hard_drop, hold,
}
use corestack.Brain.Piece.{piece_size, piece_filled}
use corestack.Brain.Board.{empty_row, collides, spawn_piece, board_lock}
use corestack.Brain.Board.Shape.{AllWide-replicate}
use corestack.Brain.Rng.{u32_mod, rng_piece, is_spawnable, rng_piece-is_spawnable}
use corestack.Brain.Action.{spawn_next, shift_queue, post_lock}
use corestack.Brain.Action.Inv.{
  AllSpawnable, IsSettled, IsReal, IsValid, shift_queue-IsQueue, first-is_spawnable,
  spawned-IsValid, board_spawn_piece-true,
}
use corestack.Brain.Action.Place.{action_try_move-IsValid, action_try_rotate-IsValid}
use corestack.Brain.Action.Cycle.{
  action_softdrop-IsValid, action_hold-IsValid, reset_ticks-IsValid, post_lock-IsValid,
  board_lock-IsSettled, active-board_lock,
}
use corestack.Brain.Action.Drop.{landed, harddrop-ghost}
use corestack.Brain.Game.{
  empty_board, first_pieces, cleared_state, tetrisbrain_init, tetrisbrain_tick, dispatch,
  tetrisbrain_input,
}

empty_board-free :
    (k : PieceKind) → is_spawnable k ≡ true → collides empty_board (spawn_piece k) ≡ false
unfolding collides piece_filled piece_size ◌-ℤ◌ ◌+ℤ◌
empty_board-free piece_i h = refl
empty_board-free piece_o h = refl
empty_board-free piece_t h = refl
empty_board-free piece_s h = refl
empty_board-free piece_z h = refl
empty_board-free piece_j h = refl
empty_board-free piece_l h = refl
empty_board-free piece_none h = cc
empty_board-free piece_spawnable h = cc
empty_board-free piece_garbage h = cc

first_pieces-AllSpawnable : (seed k n : ℕ) → AllSpawnable (first_pieces seed k n)
unfolding first_pieces
first_pieces-AllSpawnable seed k zero = tt
first_pieces-AllSpawnable seed k (suc n) =
    (rng_piece-is_spawnable seed k, first_pieces-AllSpawnable seed (k + 1) n)

length-first_pieces : (seed k n : ℕ) → length (first_pieces seed k n) ≡ n
unfolding first_pieces
length-first_pieces seed k zero = refl
length-first_pieces seed k (suc n) = ap suc (length-first_pieces seed (k + 1) n)

cleared_state-IsSettled : (g : GameState) (seed : ℕ) → IsSettled (cleared_state g seed)
unfolding cleared_state
cleared_state-IsSettled g seed = record {
  board = record { height = refl; wide = AllWide-replicate board_height empty_row refl };
  queue = record {
    spawnable = first_pieces-AllSpawnable seed 0 5;
    size = length-first_pieces seed 0 5;
  };
  held = refl;
}

-- What `spawn_next` hands on at start-up: the queue is shifted once.
abbrev first_state : GameState → ℕ → GameState
first_state g seed =
    let c = cleared_state g seed in
    record c {
      next = shift_queue c.next (rng_piece seed 5);
      piece_generated_counter = (5 + 1) % u32_mod;
    }

-- A new game is valid and running, whatever the memory held before.
pub tetrisbrain_init-IsValid :
    (g : GameState) (seed : ℕ)
    → IsValid (tetrisbrain_init g seed) × ((tetrisbrain_init g seed).game_over ≡ false)
unfolding tetrisbrain_init spawn_next cleared_state
tetrisbrain_init-IsValid g seed =
    let h = first_state g seed in
    let k = get_or (cleared_state g seed).next 0 piece_none in
    let s = cleared_state-IsSettled g seed in
    let hs : IsSettled h = record {
      board = s.board;
      queue =
          shift_queue-IsQueue (cleared_state g seed).next _ s.queue (rng_piece-is_spawnable seed 5);
      held = s.held;
    } in
    let real = first-is_spawnable (cleared_state g seed).next s.queue in
    let e = empty_board-free k real in
    subst (λ (r : Bool × GameState). IsValid r.1 × (r.1.game_over ≡ false))
      (sym (board_spawn_piece-true h k hs real e)) (spawned-IsValid h k hs real e, refl)

ticked-IsValid : (g : GameState) (t : ℕ) → IsValid g → IsValid (record g { tick_count = t })
ticked-IsValid g t v = record {
  settled = record { board = v.settled.board; queue = v.settled.queue; held = v.settled.held };
  real = v.real;
  free = v.free;
}

if-IsValid : (b : Bool) {g h : GameState} → IsValid g → IsValid h → IsValid (if b then g else h)
if-IsValid true v w = v
if-IsValid false v w = w

-- The gravity tick keeps the invariant.
pub tetrisbrain_tick-IsValid : (g : GameState) → IsValid g → IsValid (tetrisbrain_tick g)
unfolding tetrisbrain_tick
tetrisbrain_tick-IsValid g v = if-IsValid g.game_over v (
    if-IsValid (leb g.tick_trigger (g.tick_count + 1))
      (action_softdrop-IsValid (record g { tick_count = g.tick_count + 1 })
        (ticked-IsValid g (g.tick_count + 1) v))
      (ticked-IsValid g (g.tick_count + 1) v))

-- What an operation that may not return is required to give.
abbrev pub Gives : (GameState → Type 0) → Option GameState → Type 0
Gives P none = ⊥
Gives P (some g) = P g

landed-IsValid : (g : GameState) (p : Piece) → IsSettled g → IsReal p → IsValid (landed g p)
landed-IsValid g p s r =
    let h = record g { active = p } in
    let hs : IsSettled h = record { board = s.board; queue = s.queue; held = s.held } in
    reset_ticks-IsValid (post_lock (board_lock h p)) (
      post_lock-IsValid (board_lock h p) (board_lock-IsSettled h p hs)
        (rw (active-board_lock h p) r))

dispatch-IsValid : (m : Move) (g : GameState) → IsValid g → Gives IsValid (dispatch m g)
unfolding dispatch
dispatch-IsValid move_none g v = v
dispatch-IsValid move_left g v = action_try_move-IsValid g (negsuc 0) (pos 0) v
dispatch-IsValid move_right g v = action_try_move-IsValid g (pos 1) (pos 0) v
dispatch-IsValid move_rot_right g v = action_try_rotate-IsValid g (pos 1) v
dispatch-IsValid move_rot_left g v = action_try_rotate-IsValid g (negsuc 0) v
dispatch-IsValid move_soft_drop g v = action_softdrop-IsValid g v
dispatch-IsValid move_hard_drop g v =
    let (n, p, _, e, below, _) = harddrop-ghost g v.real in
    rw e (
      landed-IsValid g p v.settled
        (record { kind = rw below.kind v.real.kind; rot = rw below.rot v.real.rot }))
dispatch-IsValid hold g v = action_hold-IsValid g v

-- Every input returns, and keeps the invariant.
pub tetrisbrain_input-IsValid :
    (g : GameState) (m : Move) → IsValid g → Gives IsValid (tetrisbrain_input g m)
unfolding tetrisbrain_input
tetrisbrain_input-IsValid g m v = elim (Bool-cases g.game_over) [
  | inl e ↦ simp (e, tetrisbrain_input) v
  | inr e ↦ simp (e, tetrisbrain_input) (dispatch-IsValid m g v)
]
