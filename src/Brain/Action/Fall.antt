-- ===== src/Brain/Action/Fall.antt =====
-- A piece on the board has a filled cell above the floor, so a fall takes few steps.
use corestack.Prelude.{
  ℕ, zero, suc, ◌<◌, ◌≡◌, refl, arith, Bool, true, false, ℤ, pos, negsuc, pos_part, ◌+ℤ◌, ◌-ℤ◌,
  +ℤ_parts, -ℤ_parts, parts_exclusive, any_below, any_below-false, any_below-true_inv,
}
use corestack.Brain.Model.{
  PieceKind, piece_none, piece_i, piece_o, piece_t, piece_s, piece_z, piece_j, piece_l,
  piece_spawnable, piece_garbage, Board, board_height, Piece,
}
use corestack.Brain.Piece.{piece_size, piece_filled}
use corestack.Brain.Board.{blocked, cell_collides, collides}
use corestack.Brain.Rng.{is_spawnable}
use corestack.Brain.Action.{action_move, drop_room}
use corestack.Brain.Action.Inv.{IsReal}

by_rot {ℓ} : (P : ℕ → Type ℓ) → P 0 → P 1 → P 2 → P 3 → (rot : ℕ) → rot < 4 → P rot
by_rot P a b c d zero h = a
by_rot P a b c d (suc zero) h = b
by_rot P a b c d (suc (suc zero)) h = c
by_rot P a b c d (suc (suc (suc zero))) h = d
by_rot P a b c d (suc (suc (suc (suc n)))) h = absurd (omega arith)

abbrev some_cell : PieceKind → ℤ → ℤ → ℕ → Bool
some_cell kind x y rot =
    let p : Piece = record { kind = kind; rot = rot; x = x; y = y } in
    any_below (piece_size p) (λ r. any_below (piece_size p) (piece_filled p r))

shape_nonempty :
    (kind : PieceKind) (x y : ℤ) (rot : ℕ)
    → is_spawnable kind ≡ true
    → rot < 4
    → some_cell kind x y rot ≡ true
unfolding piece_filled piece_size
shape_nonempty piece_i x y rot h =
    by_rot (λ n. some_cell piece_i x y n ≡ true) refl refl refl refl rot
shape_nonempty piece_o x y rot h =
    by_rot (λ n. some_cell piece_o x y n ≡ true) refl refl refl refl rot
shape_nonempty piece_t x y rot h =
    by_rot (λ n. some_cell piece_t x y n ≡ true) refl refl refl refl rot
shape_nonempty piece_s x y rot h =
    by_rot (λ n. some_cell piece_s x y n ≡ true) refl refl refl refl rot
shape_nonempty piece_z x y rot h =
    by_rot (λ n. some_cell piece_z x y n ≡ true) refl refl refl refl rot
shape_nonempty piece_j x y rot h =
    by_rot (λ n. some_cell piece_j x y n ≡ true) refl refl refl refl rot
shape_nonempty piece_l x y rot h =
    by_rot (λ n. some_cell piece_l x y n ≡ true) refl refl refl refl rot
shape_nonempty piece_none x y rot h = λ _. cc
shape_nonempty piece_spawnable x y rot h = λ _. cc
shape_nonempty piece_garbage x y rot h = λ _. cc

-- A real piece has a filled cell in its box.
filled_cell :
    (p : Piece)
    → IsReal p
    → (r c : ℕ) × (r < piece_size p) × (c < piece_size p) × (piece_filled p r c ≡ true)
filled_cell p v =
    let (r, lr, h) =
      any_below-true_inv (piece_size p) (λ r. any_below (piece_size p) (piece_filled p r))
        (shape_nonempty p.kind p.x p.y p.rot v.kind v.rot) in
    let (c, lc, e) = any_below-true_inv (piece_size p) (piece_filled p r) h in (r, c, lr, lc, e)

blocked-false_row : (b : Board) (x y : ℤ) → blocked b x y ≡ false → pos_part y < board_height
blocked-false_row b (pos x) (pos y) h = ground arith
blocked-false_row b (pos x) (negsuc y) h = cc
blocked-false_row b (negsuc x) y h = cc

collides-false_cell :
    (b : Board) (p : Piece) (r c : ℕ)
    → collides b p ≡ false
    → r < piece_size p
    → c < piece_size p
    → cell_collides b p r c ≡ false
unfolding collides
collides-false_cell b p r c h lr lc =
    any_below-false (piece_size p) (cell_collides b p r) c
      (any_below-false (piece_size p) (λ i. any_below (piece_size p) (cell_collides b p i)) r h lr)
      lc

-- The origin of a piece that does not collide is above the floor.
pub row-lt-height :
    (b : Board) (p : Piece) → IsReal p → collides b p ≡ false → pos_part p.y < board_height
row-lt-height b p v h =
    let (r, c, lr, lc, e) = filled_cell p v in
    omega (
      arith,
      blocked-false_row b (p.x +ℤ pos c) (p.y +ℤ pos r)
          (rw e at (collides-false_cell b p r c h lr lc)),
      +ℤ_parts p.y (pos r),
      parts_exclusive p.y,
    )

pub drop_room-move :
    (p : Piece)
    → pos_part (action_move p (pos 0) (pos 1)).y < board_height
    → drop_room (action_move p (pos 0) (pos 1)) < drop_room p
unfolding action_move
drop_room-move p h = omega (
  arith,
  +ℤ_parts p.y (pos 1),
  parts_exclusive p.y,
  parts_exclusive (p.y +ℤ pos 1),
  parts_exclusive (pos board_height -ℤ p.y),
  parts_exclusive (pos board_height -ℤ (p.y +ℤ pos 1)),
  -ℤ_parts (pos board_height) p.y,
  -ℤ_parts (pos board_height) (p.y +ℤ pos 1),
)
