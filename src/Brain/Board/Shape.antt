-- ===== src/Brain/Board/Shape.antt =====
-- Every operation of board.c keeps the board's 26 rows of 10 cells.
use corestack.Prelude.{
  ℕ, zero, suc, ◌+◌, ◌-◌, ◌<◌, ◌≤◌, ◌≡◌, refl, arith, [], ◌∷◌, ◌++◌, ltb, ◌&&◌, length, get_or, set,
  replicate, length-set, length-append, length-replicate, ℤ, pos, negsuc, ◌+ℤ◌, for_below,
  for_below_inv, Bool-cases, inl, inr,
}
use corestack.Brain.Model.{PieceKind, Row, Board, board_height, board_width, Piece}
use corestack.Brain.Piece.{piece_size, piece_filled}
use corestack.Brain.Board.{
  full, empty_row, write_cell, lock_cell, lock, clear_lines, copy_row, garbage_row, lift_stack,
}
use corestack.Brain.Board.Clear.{survivors, full_rows, clear_lines-filter}

abbrev pub AllWide : Board → Type 0
AllWide [] = Unit
AllWide (row ∷ b) = (length row ≡ board_width) × AllWide b

pub record IsBoard (b : Board) : Type 0 where
  pub height : length b ≡ board_height
  pub wide : AllWide b

AllWide-set :
    (b : Board) (i : ℕ) (row : Row) → length row ≡ board_width → AllWide b → AllWide (set b i row)
AllWide-set [] i row h w = tt
AllWide-set (r ∷ b) zero row h w = (h, w.1)
AllWide-set (r ∷ b) (suc i) row h w = (w.0, AllWide-set b i row h w.1)

pub length-row :
    (b : Board) (i : ℕ) → AllWide b → i < length b → length (get_or b i []) ≡ board_width
length-row [] i w h = absurd (omega arith)
length-row (r ∷ b) zero w h = w.0
length-row (r ∷ b) (suc i) w h = length-row b i w.1 (omega arith)

pub set-IsBoard :
    (b : Board) (i : ℕ) (row : Row) → length row ≡ board_width → IsBoard b → IsBoard (set b i row)
set-IsBoard b i row h v = record {
  height = omega (arith, length-set b i row, v.height);
  wide = AllWide-set b i row h v.wide;
}

pub write_cell-IsBoard :
    (b : Board) (x y : ℤ) (k : PieceKind) → IsBoard b → IsBoard (write_cell b x y k)
write_cell-IsBoard b (pos x) (pos y) k v =
    elim (Bool-cases (ltb x board_width && ltb y board_height)) [
      | inl e ↦ rw e (
          set-IsBoard b y (set (get_or b y []) x k)
            (ground (arith, length-set (get_or b y []) x k, length-row b y v.wide)) v)
      | inr e ↦ rw e v
    ]
write_cell-IsBoard b (pos x) (negsuc y) k v = v
write_cell-IsBoard b (negsuc x) y k v = v

pub lock_cell-IsBoard : (p : Piece) (r c : ℕ) (b : Board) → IsBoard b → IsBoard (lock_cell p r c b)
lock_cell-IsBoard p r c b v = elim (Bool-cases (piece_filled p r c)) [
  | inl e ↦ rw e (write_cell-IsBoard b (p.x +ℤ pos c) (p.y +ℤ pos r) p.kind v)
  | inr e ↦ rw e v
]

pub lock_row-IsBoard :
    (p : Piece) (r n : ℕ) (b : Board) → IsBoard b → IsBoard (for_below n (λ c. lock_cell p r c) b)
lock_row-IsBoard p r n b v =
    for_below_inv IsBoard n (λ c. lock_cell p r c) b (λ c t _. lock_cell-IsBoard p r c t) v

pub lock-IsBoard : (b : Board) (p : Piece) → IsBoard b → IsBoard (lock b p)
unfolding lock
lock-IsBoard b p v =
    for_below_inv IsBoard (piece_size p) (λ r. for_below (piece_size p) (λ c. lock_cell p r c)) b
      (λ r t _. lock_row-IsBoard p r (piece_size p) t) v

AllWide-append : (b c : Board) → AllWide b → AllWide c → AllWide (b ++ c)
AllWide-append [] c v w = w
AllWide-append (r ∷ b) c v w = (v.0, AllWide-append b c v.1 w)

pub AllWide-replicate : (n : ℕ) (row : Row) → length row ≡ board_width → AllWide (replicate n row)
AllWide-replicate zero row h = tt
AllWide-replicate (suc n) row h = (h, AllWide-replicate n row h)

AllWide-survivors : (b : Board) → AllWide b → AllWide (survivors b)
unfolding survivors
AllWide-survivors [] w = tt
AllWide-survivors (r ∷ b) w = elim (Bool-cases (full r)) [
  | inl e ↦ rw e (AllWide-survivors b w.1)
  | inr e ↦ rw e (w.0, AllWide-survivors b w.1)
]

pub length-survivors : (b : Board) → length (survivors b) + full_rows b ≡ length b
unfolding survivors full_rows
length-survivors [] = refl
length-survivors (r ∷ b) = ground (arith, length-survivors b)

-- `board_clear_lines` keeps the shape of the board.
pub clear_lines-IsBoard : (b : Board) → IsBoard b → IsBoard (clear_lines b).1
clear_lines-IsBoard b v = rw (clear_lines-filter b v.height) (record {
  height = omega (
    arith,
    length-append (replicate (full_rows b) empty_row) (survivors b),
    length-replicate (full_rows b) empty_row,
    length-survivors b,
    v.height,
  );
  wide =
      AllWide-append (replicate (full_rows b) empty_row) (survivors b)
        (AllWide-replicate (full_rows b) empty_row refl) (AllWide-survivors b v.wide);
})

-- `board_add_garbage` keeps the shape of the board.
pub lift_stack-IsBoard :
    (b : Board) (rows : ℕ) → rows ≤ board_height → IsBoard b → IsBoard (lift_stack b rows)
unfolding lift_stack
lift_stack-IsBoard b rows le v =
    for_below_inv IsBoard rows (λ r b'. set b' (board_height - rows + r) garbage_row)
      (for_below (board_height - rows) (λ dst b'. copy_row b' dst (dst + rows)) b)
      (λ r t _ h. set-IsBoard t (board_height - rows + r) garbage_row refl h)
      (for_below_inv IsBoard (board_height - rows) (λ dst b'. copy_row b' dst (dst + rows)) b
        (λ dst t lt h.
          set-IsBoard t dst (get_or t (dst + rows) [])
            (length-row t (dst + rows) h.wide (omega (arith, h.height))) h)
        v)
