-- ===== src/Brain/Action/Inv.antt =====
-- The invariant of a `GameState`, and that every action keeps it.
use corestack.Prelude.{
  ◌<◌, ◌≡◌, refl, arith, Bool, true, false, not, List, [], ◌∷◌, ◌||◌, length, get_or, ℤ, ◌+ℤ◌,
  Bool-cases, inl, inr,
}
use corestack.Brain.Model.{PieceKind, piece_none, is_none, Piece, GameState}
use corestack.Brain.Board.{collides, spawn_piece, board_spawn_piece}
use corestack.Brain.Board.Shape.{IsBoard}
use corestack.Brain.Rng.{is_spawnable, rng_piece-is_spawnable}
use corestack.Brain.Action.{action_rotate, shift_queue, spawn_next, or_top_out, swap_held, next_len}

abbrev pub AllSpawnable : List PieceKind → Type 0
AllSpawnable [] = Unit
AllSpawnable (k ∷ q) = (is_spawnable k ≡ true) × AllSpawnable q

-- The queue has five kinds, all of which can be dealt.
pub record IsQueue (q : List PieceKind) : Type 0 where
  pub spawnable : AllSpawnable q
  pub size : length q ≡ next_len

-- What holds of the state whatever the falling piece is.
pub record IsSettled (g : GameState) : Type 0 where
  pub board : IsBoard g.board
  pub queue : IsQueue g.next
  pub held : (is_none g.held || is_spawnable g.held) ≡ true

-- The falling piece is a real one in a proper rotation.
pub record IsReal (p : Piece) : Type 0 where
  pub kind : is_spawnable p.kind ≡ true
  pub rot : p.rot < 4

-- While the game runs, the falling piece overlaps no locked cell and lies inside the playfield.
pub record IsValid (g : GameState) : Type 0 where
  pub settled : IsSettled g
  pub real : IsReal g.active
  pub free : (g.game_over || not (collides g.board g.active)) ≡ true

pub clear-free : (over hit : Bool) → hit ≡ false → (over || not hit) ≡ true
clear-free over hit e = ground arith

pub action_rotate-lt : (p : Piece) (step : ℤ) → (action_rotate p step).rot < 4
unfolding action_rotate ◌+ℤ◌
action_rotate-lt p step = ground arith

pub shift_queue-IsQueue :
    (q : List PieceKind) (k : PieceKind)
    → IsQueue q
    → is_spawnable k ≡ true
    → IsQueue (shift_queue q k)
unfolding shift_queue
shift_queue-IsQueue (a ∷ b ∷ c ∷ d ∷ e ∷ []) k v h =
    let w = v.spawnable.1 in
    record { spawnable = (w.0, (w.1.0, (w.1.1.0, (w.1.1.1.0, (h, tt))))); size = refl }
shift_queue-IsQueue _ k v h = absurd (omega (arith, v.size))

pub first-is_spawnable :
    (q : List PieceKind) → IsQueue q → is_spawnable (get_or q 0 piece_none) ≡ true
first-is_spawnable [] v = absurd (omega (arith, v.size))
first-is_spawnable (k ∷ q) v = v.spawnable.0

pub storable : (k : PieceKind) → is_spawnable k ≡ true → (is_none k || is_spawnable k) ≡ true
storable k h = ground arith

-- A spawn that fails ends the game, so what follows a spawn is valid either way.
module _ (g : GameState) (k : PieceKind) (s : IsSettled g) (h : is_spawnable k ≡ true) where
  board_spawn_piece-false :
      collides g.board (spawn_piece k) ≡ true → board_spawn_piece g k ≡ (false, g)
  unfolding board_spawn_piece
  board_spawn_piece-false e = rw (e)

  pub board_spawn_piece-true :
      collides g.board (spawn_piece k) ≡ false
      → board_spawn_piece g k ≡ (true, record g { active = spawn_piece k; tick_count = 0 })
  unfolding board_spawn_piece
  board_spawn_piece-true e = rw (e)

  pub spawned-IsValid :
      collides g.board (spawn_piece k) ≡ false
      → IsValid (record g { active = spawn_piece k; tick_count = 0 })
  spawned-IsValid e = record {
    settled = record { board = s.board; queue = s.queue; held = s.held };
    real = record { kind = h; rot = omega arith };
    free = clear-free g.game_over _ e;
  }

  topped-IsValid : IsReal g.active → IsValid (record g { game_over = true })
  topped-IsValid r = record {
    settled = record { board = s.board; queue = s.queue; held = s.held };
    real = r;
    free = refl;
  }

  or_top_out-IsValid : IsReal g.active → IsValid (or_top_out (board_spawn_piece g k))
  or_top_out-IsValid r = elim (Bool-cases (collides g.board (spawn_piece k))) [
    | inl e ↦ rw (board_spawn_piece-false e) (topped-IsValid r)
    | inr e ↦ rw (board_spawn_piece-true e) (spawned-IsValid e)
  ]

  pub swap_held-IsValid :
      (cur : PieceKind)
      → is_spawnable cur ≡ true
      → IsReal g.active
      → IsValid (swap_held cur (board_spawn_piece g k))
  swap_held-IsValid cur hc r = elim (Bool-cases (collides g.board (spawn_piece k))) [
    | inl e ↦ rw (board_spawn_piece-false e) (topped-IsValid r)
    | inr e ↦ rw (board_spawn_piece-true e) (record {
      settled = record { board = s.board; queue = s.queue; held = storable cur hc };
      real = record { kind = h; rot = omega arith };
      free = clear-free g.game_over _ e;
    })
  ]

-- `spawn_next` shifts the queue before it tries to spawn.
pub spawn_next-IsValid :
    (g : GameState) → IsSettled g → IsReal g.active → IsValid (or_top_out (spawn_next g))
unfolding spawn_next
spawn_next-IsValid g s r =
    or_top_out-IsValid _ _
      (record {
        board = s.board;
        queue =
            shift_queue-IsQueue g.next _ s.queue
              (rng_piece-is_spawnable g.seed g.piece_generated_counter);
        held = s.held;
      })
      (first-is_spawnable g.next s.queue) r
