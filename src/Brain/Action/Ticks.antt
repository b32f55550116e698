-- ===== src/Brain/Action/Ticks.antt =====
-- The lock cycle does not read the tick count, and a drop resets it at the end.
use corestack.Prelude.{ℕ, ◌≡◌, arith, Bool-cases, inl, inr}
use corestack.Brain.Model.{PieceKind, GameState}
use corestack.Brain.Board.{collides, spawn_piece, board_spawn_piece, board_clear_lines}
use corestack.Brain.Scoring.{scoring_add}
use corestack.Brain.Action.{garbage_earn, spawn_next, post_lock, or_top_out}
use corestack.Brain.Action.Cycle.{earned, post_lock-earned}

abbrev pub ticked : GameState → ℕ → GameState
ticked g t = record g { tick_count = t }

earned-ticked : (g : GameState) (t : ℕ) → earned (ticked g t) ≡ ticked (earned g) t
unfolding board_clear_lines garbage_earn scoring_add
earned-ticked g t = ground arith

spawned-ticked :
    (g : GameState) (k : PieceKind) (t : ℕ)
    → ticked (or_top_out (board_spawn_piece (ticked g t) k)) 0
      ≡ ticked (or_top_out (board_spawn_piece g k)) 0
unfolding board_spawn_piece
spawned-ticked g k t = elim (Bool-cases (collides g.board (spawn_piece k))) [
  | inl e ↦ simp e
  | inr e ↦ simp e
]

spawn_next-ticked :
    (g : GameState) (t : ℕ)
    → ticked (or_top_out (spawn_next (ticked g t))) 0 ≡ ticked (or_top_out (spawn_next g)) 0
unfolding spawn_next
spawn_next-ticked g t = spawned-ticked _ _ t

pub post_lock-ticked :
    (g : GameState) (t : ℕ) → ticked (post_lock (ticked g t)) 0 ≡ ticked (post_lock g) 0
post_lock-ticked g t =
    rw (post_lock-earned (ticked g t), earned-ticked g t, post_lock-earned g)
      (spawn_next-ticked (earned g) t)
