-- ===== src/Brain/Game/Scoreboard.antt =====
-- The engine leaves the room's scoreboard alone.
use corestack.Prelude.{
  ℕ, ◌≡◌, refl, ◌∙◌, ap, arith, Bool, true, false, Option, none, some, ℤ, pos, negsuc, List,
  if◌then◌else◌,
}
use corestack.Brain.Model.{
  PieceKind, is_none, Piece, PlayerStanding, GameState, Move, move_none, move_left, move_right,
  move_rot_left, move_rot_right, move_soft_drop, move_hard_drop, hold,
}
use corestack.Brain.Board.{board_spawn_piece, board_lock, board_clear_lines}
use corestack.Brain.Scoring.{scoring_add}
use corestack.Brain.Action.{
  action_try_move, action_try_rotate, rotated, garbage_earn, spawn_next, or_top_out, post_lock,
  after_drop, action_softdrop, action_hold, swap_held,
}
use corestack.Brain.Action.Inv.{IsReal, IsValid}
use corestack.Brain.Action.Cycle.{earned, post_lock-earned}
use corestack.Brain.Action.Drop.{landed, harddrop-ghost}
use corestack.Brain.Game.{dispatch, tetrisbrain_input}
use corestack.Brain.Game.Inv.{Gives}

-- `standings`, `standing_count` and `my_player_id`.
pub record Scoreboard : Type 0 where
  pub standings : List PlayerStanding
  pub count : ℕ
  pub me : ℤ

abbrev pub scoreboard : GameState → Scoreboard
scoreboard g = record { standings = g.standings; count = g.standing_count; me = g.my_player_id }

scoreboard-or_top_out : (r : Bool × GameState) → scoreboard (or_top_out r) ≡ scoreboard r.1
scoreboard-or_top_out (true, g) = refl
scoreboard-or_top_out (false, g) = refl

scoreboard-spawn :
    (g : GameState) (k : PieceKind) → scoreboard (board_spawn_piece g k).1 ≡ scoreboard g
unfolding board_spawn_piece
scoreboard-spawn g k = ground arith

scoreboard-spawn_next : (g : GameState) → scoreboard (spawn_next g).1 ≡ scoreboard g
unfolding spawn_next
scoreboard-spawn_next g = scoreboard-spawn _ _

scoreboard-earned : (g : GameState) → scoreboard (earned g) ≡ scoreboard g
unfolding board_clear_lines scoring_add garbage_earn
scoreboard-earned g = ground arith

scoreboard-post_lock : (g : GameState) → scoreboard (post_lock g) ≡ scoreboard g
scoreboard-post_lock g =
    ap scoreboard (post_lock-earned g)
    ∙ scoreboard-or_top_out (spawn_next (earned g))
    ∙ scoreboard-spawn_next (earned g)
    ∙ scoreboard-earned g

scoreboard-lock : (g : GameState) (p : Piece) → scoreboard (board_lock g p) ≡ scoreboard g
unfolding board_lock
scoreboard-lock g p = refl

scoreboard-move :
    (g : GameState) (dx dy : ℤ) → scoreboard (action_try_move g dx dy).1 ≡ scoreboard g
unfolding action_try_move
scoreboard-move g dx dy = ground arith

scoreboard-rotated : (g : GameState) (o : Option Piece) → scoreboard (rotated g o).1 ≡ scoreboard g
scoreboard-rotated g none = refl
scoreboard-rotated g (some p) = refl

scoreboard-rotate :
    (g : GameState) (dir : ℤ) → scoreboard (action_try_rotate g dir).1 ≡ scoreboard g
unfolding action_try_rotate
scoreboard-rotate g dir = scoreboard-rotated g _

scoreboard-after_drop : (r : Bool × GameState) → scoreboard (after_drop r).1 ≡ scoreboard r.1
scoreboard-after_drop (true, g) = refl
scoreboard-after_drop (false, g) =
    scoreboard-post_lock (board_lock g g.active) ∙ scoreboard-lock g g.active

scoreboard-softdrop : (g : GameState) → scoreboard (action_softdrop g).1 ≡ scoreboard g
unfolding action_softdrop
scoreboard-softdrop g =
    scoreboard-after_drop (action_try_move g (pos 0) (pos 1)) ∙ scoreboard-move g (pos 0) (pos 1)

scoreboard-landed : (g : GameState) (p : Piece) → scoreboard (landed g p) ≡ scoreboard g
scoreboard-landed g p =
    scoreboard-post_lock (board_lock (record g { active = p }) p)
    ∙ scoreboard-lock (record g { active = p }) p

scoreboard-swap_held :
    (k : PieceKind) (r : Bool × GameState) → scoreboard (swap_held k r) ≡ scoreboard r.1
scoreboard-swap_held k (true, g) = refl
scoreboard-swap_held k (false, g) = refl

scoreboard-if :
    (b : Bool) (r s : Bool × GameState) {t : Scoreboard}
    → scoreboard r.1 ≡ t
    → scoreboard s.1 ≡ t
    → scoreboard (if b then r else s).1 ≡ t
scoreboard-if true r s h k = h
scoreboard-if false r s h k = k

scoreboard-hold : (g : GameState) → scoreboard (action_hold g).1 ≡ scoreboard g
unfolding action_hold
scoreboard-hold g = scoreboard-if g.hold_used _ _ refl (
    scoreboard-if (is_none g.held) _ _
      (scoreboard-or_top_out (spawn_next _) ∙ scoreboard-spawn_next _)
      (scoreboard-swap_held g.active.kind (board_spawn_piece _ _) ∙ scoreboard-spawn _ _))

scoreboard-dispatch :
    (m : Move) (g : GameState)
    → IsReal g.active
    → Gives (λ h. scoreboard h ≡ scoreboard g) (dispatch m g)
unfolding dispatch
scoreboard-dispatch move_none g v = refl
scoreboard-dispatch move_left g v = scoreboard-move g (negsuc 0) (pos 0)
scoreboard-dispatch move_right g v = scoreboard-move g (pos 1) (pos 0)
scoreboard-dispatch move_rot_right g v = scoreboard-rotate g (pos 1)
scoreboard-dispatch move_rot_left g v = scoreboard-rotate g (negsuc 0)
scoreboard-dispatch move_soft_drop g v = scoreboard-softdrop g
scoreboard-dispatch move_hard_drop g v =
    let (n, p, _, e, _, _) = harddrop-ghost g v in rw e (scoreboard-landed g p)
scoreboard-dispatch hold g v = scoreboard-hold g

-- In a valid state no input changes the room's scoreboard, nor which row is the player's own.
pub scoreboard-input :
    (g : GameState) (m : Move)
    → IsValid g
    → Gives (λ h. scoreboard h ≡ scoreboard g) (tetrisbrain_input g m)
unfolding tetrisbrain_input
scoreboard-input g m v =
    gives_if g.game_over (some g) (dispatch m g) refl (scoreboard-dispatch m g v.real)
  where
    gives_if :
        (b : Bool) (o p : Option GameState)
        → Gives (λ h. scoreboard h ≡ scoreboard g) o
        → Gives (λ h. scoreboard h ≡ scoreboard g) p
        → Gives (λ h. scoreboard h ≡ scoreboard g) (if b then o else p)
    gives_if true o p h k = h
    gives_if false o p h k = k
