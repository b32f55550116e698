-- ===== src/Brain/Action/Drop.antt =====
-- The hard drop ends, and locks the piece where the ghost shows it.
use corestack.Prelude.{
  ℕ, zero, suc, ◌+◌, ◌<◌, ◌≡◌, refl, ◌∙◌, arith, true, false, Option, some, pos, ◌+ℤ◌, +ℤ_parts,
  eq_of_parts, Bool-cases, inl, inr,
}
use native.Mathlib.Nat.{zero-add}
use corestack.Brain.Model.{Board, is_none, Piece, GameState, PieceKind}
use corestack.Brain.Board.{collides, board_lock}
use corestack.Brain.Rng.{is_spawnable}
use corestack.Brain.Action.{
  action_move, action_try_move, action_softdrop, post_lock, drop_loop, drop_room, action_harddrop,
  ghost_loop, action_ghost,
}
use corestack.Brain.Action.Inv.{IsReal}
use corestack.Brain.Action.Place.{action_move-IsReal}
use corestack.Brain.Action.Ticks.{ticked, post_lock-ticked}
use corestack.Brain.Action.Fall.{row-lt-height, drop_room-move}

abbrev pub down : Piece → Piece
down p = action_move p (pos 0) (pos 1)

-- The state after the lock cycle of a piece that rests at `p`.
abbrev pub landed : GameState → Piece → GameState
landed g p = ticked (post_lock (board_lock (record g { active = p }) p)) 0

abbrev moved_down : GameState → GameState
moved_down g = record g { active = down g.active; tick_count = 0 }

softdrop-moves :
    (g : GameState)
    → collides g.board (down g.active) ≡ false
    → action_softdrop g ≡ (true, moved_down g)
unfolding action_softdrop action_try_move
softdrop-moves g e = simp e

softdrop-lands :
    (g : GameState)
    → collides g.board (down g.active) ≡ true
    → action_softdrop g ≡ (false, landed g g.active)
unfolding action_softdrop action_try_move
softdrop-lands g e = simp e

landed-moved_down : (g : GameState) (p : Piece) → landed (moved_down g) p ≡ landed g p
unfolding board_lock
landed-moved_down g p = post_lock-ticked (board_lock (record g { active = p }) p) 0

module _ (fuel : ℕ) (g : GameState) (d : ℕ) where
  drop_loop-moves :
      collides g.board (down g.active) ≡ false
      → drop_loop (suc fuel) g d ≡ drop_loop fuel (moved_down g) (d + 1)
  unfolding drop_loop
  drop_loop-moves e = rw (softdrop-moves g e, drop_loop) (rw (softdrop-moves g e))

  drop_loop-lands :
      collides g.board (down g.active) ≡ true
      → drop_loop (suc fuel) g d ≡ some (d, landed g g.active)
  unfolding drop_loop
  drop_loop-lands e = rw (softdrop-lands g e, drop_loop) (rw (softdrop-lands g e))

module _ (fuel : ℕ) (b : Board) (p : Piece) where
  ghost_loop-moves :
      collides b (down p) ≡ false → ghost_loop (suc fuel) b p ≡ ghost_loop fuel b (down p)
  unfolding ghost_loop
  ghost_loop-moves e = rw (e, ghost_loop)

  ghost_loop-lands : collides b (down p) ≡ true → ghost_loop (suc fuel) b p ≡ some p
  unfolding ghost_loop
  ghost_loop-lands e = rw (e, ghost_loop)

-- The place `rows` rows below a piece.
pub record Below (p last : Piece) (rows : ℕ) : Type 0 where
  pub kind : last.kind ≡ p.kind
  pub rot : last.rot ≡ p.rot
  pub column : last.x ≡ p.x
  pub row : last.y ≡ p.y +ℤ pos rows

Below-down : (p last : Piece) (rows : ℕ) → Below (down p) last rows → Below p last (suc rows)
unfolding action_move
Below-down p last rows h = record {
  kind = h.kind;
  rot = h.rot;
  column = h.column ∙ eq_of_parts (p.x +ℤ pos 0) p.x (omega (arith, +ℤ_parts p.x (pos 0)));
  row =
      h.row
      ∙ eq_of_parts (p.y +ℤ pos 1 +ℤ pos rows) (p.y +ℤ pos (suc rows)) (
          omega (
            arith,
            +ℤ_parts (p.y +ℤ pos 1) (pos rows),
            +ℤ_parts p.y (pos 1),
            +ℤ_parts p.y (pos (suc rows)),
          ));
}

Below-here : (p : Piece) → Below p p 0
Below-here p = record {
  kind = refl;
  rot = refl;
  column = refl;
  row = eq_of_parts p.y (p.y +ℤ pos 0) (omega (arith, +ℤ_parts p.y (pos 0)));
}

-- How both loops end when they start from the same place.
pub record Landing (fuel : ℕ) (g : GameState) (d : ℕ) : Type 0 where
  pub rows : ℕ
  pub last : Piece
  pub ghost : ghost_loop fuel g.board g.active ≡ some last
  pub drop : drop_loop fuel g d ≡ some (d + rows, landed g last)
  pub below : Below g.active last rows
  pub rests : collides g.board (down last) ≡ true

moved_result :
    (g : GameState) (d rows : ℕ) (last : Piece)
    → ◌≡◌ {A = Option (ℕ × GameState)}
        (some (d + 1 + rows, landed (moved_down g) last))
        (some (d + suc rows, landed g last))
moved_result g d rows last =
    let e : d + 1 + rows ≡ d + suc rows = omega arith in rw (landed-moved_down g last, e)

loops-Landing :
    (fuel : ℕ) (g : GameState) (d : ℕ)
    → drop_room g.active < fuel
    → IsReal g.active
    → Landing fuel g d
loops-Landing zero g d h v = absurd (omega arith)
loops-Landing (suc fuel) g d h v = elim (Bool-cases (collides g.board (down g.active))) [
  | inl e ↦ record {
    rows = 0;
    last = g.active;
    ghost = ghost_loop-lands fuel g.board g.active e;
    drop = drop_loop-lands fuel g d e ∙ ground arith;
    below = Below-here g.active;
    rests = e;
  }
  | inr e ↦
      let v' = action_move-IsReal g.active (pos 0) (pos 1) v in
      let fits = row-lt-height g.board (down g.active) v' e in
      let l =
        loops-Landing fuel (moved_down g) (d + 1) (omega (arith, drop_room-move g.active fits))
          v' in
      record {
        rows = suc l.rows;
        last = l.last;
        ghost = ghost_loop-moves fuel g.board g.active e ∙ l.ghost;
        drop = drop_loop-moves fuel g d e ∙ l.drop ∙ moved_result g d l.rows l.last;
        below = Below-down g.active l.last l.rows l.below;
        rests = l.rests;
      }
]

is_none-spawnable : (k : PieceKind) → is_spawnable k ≡ true → is_none k ≡ false
is_none-spawnable k h = ground arith

-- A hard drop of a real piece returns, and so does the ghost. The ghost is the piece `n` rows
-- lower, where it can fall no further, and the hard drop gives that `n` and the state that locking
-- the piece at the ghost's place leads to.
pub harddrop-ghost :
    (g : GameState)
    → IsReal g.active
    → (n : ℕ) × (p : Piece) × (action_ghost g ≡ some p)
      × (action_harddrop g ≡ some (n, landed g p))
      × Below g.active p n
      × (collides g.board (down p) ≡ true)
unfolding action_ghost action_harddrop
harddrop-ghost g v =
    let l = loops-Landing (suc (drop_room g.active)) g 0 (omega arith) v in
    (
      l.rows,
      l.last,
      rw (is_none-spawnable g.active.kind v.kind, action_ghost) l.ghost,
      l.drop ∙ rw zero-add,
      l.below,
      l.rests,
    )
