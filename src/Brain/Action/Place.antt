-- ===== src/Brain/Action/Place.antt =====
-- Moving and rotating keep the invariant.
use corestack.Prelude.{
  ℕ, zero, suc, ◌+◌, ◌≡◌, refl, false, Option, none, some, ℤ, pos, ◌-ℤ◌, Bool-cases, inl, inr,
}
use corestack.Brain.Model.{Board, Piece, GameState}
use corestack.Brain.Piece.{piece_size}
use corestack.Brain.Board.{collides}
use corestack.Brain.Action.{
  action_rotate, action_move, action_try_move, kick_from, find_rotation, action_try_rotate, rotated,
}
use corestack.Brain.Action.Inv.{clear-free, IsSettled, IsReal, IsValid, action_rotate-lt}

pub action_move-IsReal : (p : Piece) (dx dy : ℤ) → IsReal p → IsReal (action_move p dx dy)
unfolding action_move
action_move-IsReal p dx dy r = record { kind = r.kind; rot = r.rot }

kind-action_rotate : (p : Piece) (step : ℤ) → (action_rotate p step).kind ≡ p.kind
unfolding action_rotate
kind-action_rotate p step = refl

action_rotate-IsReal : (p : Piece) (step : ℤ) → IsReal p → IsReal (action_rotate p step)
action_rotate-IsReal p step r = record {
  kind = rw (kind-action_rotate p step) r.kind;
  rot = action_rotate-lt p step;
}

-- A piece that is committed where it does not collide.
pub commit-IsValid :
    (g : GameState) (p : Piece)
    → IsSettled g
    → IsReal p
    → collides g.board p ≡ false
    → IsValid (record g { active = p })
commit-IsValid g p s r e = record {
  settled = record { board = s.board; queue = s.queue; held = s.held };
  real = r;
  free = clear-free g.game_over (collides g.board p) e;
}

pub action_try_move-IsValid :
    (g : GameState) (dx dy : ℤ) → IsValid g → IsValid (action_try_move g dx dy).1
unfolding action_try_move
action_try_move-IsValid g dx dy v =
    elim (Bool-cases (collides g.board (action_move g.active dx dy))) [
      | inl e ↦ rw e v
      | inr e ↦ rw e (commit-IsValid g _ v.settled (action_move-IsReal g.active dx dy v.real) e)
    ]

-- What a search for a place returns is real, and fits.
abbrev pub Fits : Board → Option Piece → Type 0
Fits b none = Unit
Fits b (some p) = IsReal p × (collides b p ≡ false)

kick_from-Fits : (b : Board) (p : Piece) (k i : ℕ) → IsReal p → Fits b (kick_from b p k i)
unfolding kick_from
kick_from-Fits b p zero i r = tt
kick_from-Fits b p (suc k) i r = elim (Bool-cases (collides b right)) [
  | inr e ↦ rw (e, kick_from) (action_move-IsReal p (pos i) (pos 0) r, e)
  | inl h ↦ elim (Bool-cases (collides b left)) [
    | inr e ↦ rw (h, e, kick_from) (action_move-IsReal p (pos 0 -ℤ pos i) (pos 0) r, e)
    | inl e ↦ rw (h, e, kick_from) (kick_from-Fits b p k (i + 1) r)
  ]
]
  where
    right : Piece
    right = action_move p (pos i) (pos 0)

    left : Piece
    left = action_move p (pos 0 -ℤ pos i) (pos 0)

pub find_rotation-Fits :
    (b : Board) (p : Piece) (dir : ℤ) → IsReal p → Fits b (find_rotation b p dir)
unfolding find_rotation
find_rotation-Fits b p dir r = elim (Bool-cases (collides b (action_rotate p dir))) [
  | inr e ↦ rw (e, find_rotation) (action_rotate-IsReal p dir r, e)
  | inl e ↦
      rw (e, find_rotation)
        (kick_from-Fits b (action_rotate p dir) (piece_size (action_rotate p dir)) 1
          (action_rotate-IsReal p dir r))
]

rotated-IsValid :
    (g : GameState) (found : Option Piece)
    → IsValid g
    → Fits g.board found
    → IsValid (rotated g found).1
rotated-IsValid g none v f = v
rotated-IsValid g (some p) v f = commit-IsValid g p v.settled f.0 f.1

pub action_try_rotate-IsValid :
    (g : GameState) (dir : ℤ) → IsValid g → IsValid (action_try_rotate g dir).1
unfolding action_try_rotate
action_try_rotate-IsValid g dir v =
    rotated-IsValid g (find_rotation g.board g.active dir) v
      (find_rotation-Fits g.board g.active dir v.real)
