-- ===== src/Brain/Board/Garbage.antt =====
-- What `board_add_garbage` does to the board, and that its walk ends.
use corestack.Prelude.{
  ℕ, zero, suc, ◌+◌, ◌≤◌, ◌<◌, ◌≡◌, refl, ◌∙◌, arith, Bool, true, false, not, set, pos, pos_part,
  ◌+ℤ◌, ◌-ℤ◌, for_below, Bool-cases, inl, inr, some, +ℤ_parts, -ℤ_parts, sym,
}
use mathlib.Core.Bool.{false≢true}
use corestack.Brain.Model.{Board, Piece}
use corestack.Brain.Piece.{piece_size}
use corestack.Brain.Board.{copy_row, garbage_row, lift_active, buried, above_board}

copied : ℕ → ℕ → Board → Board
copied n k b = for_below n (λ dst b'. copy_row b' dst (dst + k)) b

laid : ℕ → ℕ → Board → Board
laid n k b = for_below k (λ r b'. set b' (n + r) garbage_row) b

-- Where the walk of the falling piece ends: clear of the stack, or above row 0.
pub record Lifted (fuel : ℕ) (b : Board) (p : Piece) : Type 0 where
  pub clear : Bool
  pub q : Piece
  pub runs : lift_active fuel b p ≡ some (clear, q)
  pub free : buried b q ≡ not clear
  pub above : clear ≡ false → above_board q ≡ true
  pub same_kind : q.kind ≡ p.kind
  pub same_rot : q.rot ≡ p.rot
  pub same_x : q.x ≡ p.x

abbrev up : Piece → Piece
up p = record p { y = p.y -ℤ pos 1 }

piece_size-up : (p : Piece) → piece_size (up p) ≡ piece_size p
unfolding piece_size
piece_size-up p = refl

up_nearer :
    (p : Piece)
    → above_board p ≡ false
    → suc (pos_part ((up p).y +ℤ pos (piece_size (up p)))) ≤ pos_part (p.y +ℤ pos (piece_size p))
unfolding above_board
up_nearer p h = ground (
  arith,
  piece_size-up p,
  +ℤ_parts p.y (pos (piece_size p)),
  +ℤ_parts (up p).y (pos (piece_size p)),
  -ℤ_parts p.y (pos 1),
)

module _ (fuel : ℕ) (b : Board) (p : Piece) where
  step_out : buried b p ≡ false → lift_active (suc fuel) b p ≡ some (true, p)
  unfolding lift_active
  step_out h = rw (h, lift_active)

  step_gone :
      buried b p ≡ true → above_board p ≡ true → lift_active (suc fuel) b p ≡ some (false, p)
  unfolding lift_active
  step_gone h e = rw (h, e, lift_active)

  step_up :
      buried b p ≡ true
      → above_board p ≡ false
      → lift_active (suc fuel) b p ≡ lift_active fuel b (up p)
  unfolding lift_active
  step_up h e = rw (h, e, lift_active)

pub lift_active-Lifted :
    (fuel : ℕ) (b : Board) (p : Piece)
    → pos_part (p.y +ℤ pos (piece_size p)) < fuel
    → Lifted fuel b p
lift_active-Lifted zero b p h = absurd (omega arith)
lift_active-Lifted (suc fuel) b p h = elim (Bool-cases (buried b p)) [
  | inl in_stack ↦ elim (Bool-cases (above_board p)) [
    | inl gone ↦ record {
      clear = false;
      q = p;
      runs = step_gone fuel b p in_stack gone;
      free = in_stack;
      above = λ _. gone;
      same_kind = refl;
      same_rot = refl;
      same_x = refl;
    }
    | inr more ↦
        let l = lift_active-Lifted fuel b (up p) (omega (arith, up_nearer p more)) in
        record {
          clear = l.clear;
          q = l.q;
          runs = step_up fuel b p in_stack more ∙ l.runs;
          free = l.free;
          above = l.above;
          same_kind = l.same_kind;
          same_rot = l.same_rot;
          same_x = l.same_x;
        }
  ]
  | inr out ↦ record {
    clear = true;
    q = p;
    runs = step_out fuel b p out;
    free = out;
    above = λ e. absurd (false≢true (sym e));
    same_kind = refl;
    same_rot = refl;
    same_x = refl;
  }
]
