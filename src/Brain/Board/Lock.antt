-- ===== src/Brain/Board/Lock.antt =====
-- Which cells `board_lock` writes.
use corestack.Prelude.{
  ℕ, zero, suc, ◌<◌, ◌≡◌, refl, ◌∙◌, arith, Bool, true, false, [], ◌==◌, ◌&&◌, ◌||◌, if◌then◌else◌,
  get_or, set, get_or-set, ℤ, pos, negsuc, ◌+ℤ◌, any_below, for_below, for_below_inv, Bool-cases,
  inl, inr,
}
use corestack.Brain.Model.{PieceKind, piece_none, Board, board_height, board_width, Piece}
use corestack.Brain.Piece.{piece_size, piece_filled}
use corestack.Brain.Board.{cell, write_cell, lock_cell, lock}
use corestack.Brain.Board.Shape.{IsBoard, length-row, lock_row-IsBoard, lock_cell-IsBoard}

-- The integer is this index.
abbrev pub at : ℤ → ℕ → Bool
at (pos a) i = a == i
at (negsuc a) i = false

abbrev pub covers_cell : Piece → ℕ → ℕ → ℕ → ℕ → Bool
covers_cell p by bx r c = piece_filled p r c && (at (p.x +ℤ pos c) bx && at (p.y +ℤ pos r) by)

-- Some filled cell of the piece stands at row `by`, column `bx` of the board.
unfoldable pub covers : Piece → ℕ → ℕ → Bool
covers p by bx = any_below (piece_size p) (λ r. any_below (piece_size p) (covers_cell p by bx r))

if-or {ℓ} :
    {A : Type ℓ} (b c : Bool) (k x : A)
    → (if c then k else if b then k else x) ≡ (if b || c then k else x)
if-or true true k x = refl
if-or true false k x = refl
if-or false true k x = refl
if-or false false k x = refl

module _ (by bx : ℕ) (hy : by < board_height) (hx : bx < board_width) where
  cell-write_cell :
      (b : Board) (x y : ℤ) (k : PieceKind)
      → IsBoard b
      → cell (write_cell b x y k) by bx ≡ (if at x bx && at y by then k else cell b by bx)
  cell-write_cell b (pos x) (pos y) k v = ground (
    arith,
    length-row b y v.wide,
    get_or-set b y by (set (get_or b y []) x k) [],
    get_or-set (get_or b y []) x bx k piece_none,
  )
  cell-write_cell b (pos x) (negsuc y) k v = ground arith
  cell-write_cell b (negsuc x) y k v = refl

  cell-lock_cell :
      (p : Piece) (r c : ℕ) (b : Board)
      → IsBoard b
      → cell (lock_cell p r c b) by bx ≡ (if covers_cell p by bx r c then p.kind else cell b by bx)
  cell-lock_cell p r c b v = elim (Bool-cases (piece_filled p r c)) [
    | inl e ↦ rw e (cell-write_cell b (p.x +ℤ pos c) (p.y +ℤ pos r) p.kind v)
    | inr e ↦ rw e
  ]

  cell-lock_row :
      (p : Piece) (r n : ℕ) (b : Board)
      → IsBoard b
      → cell (for_below n (λ c. lock_cell p r c) b) by bx
        ≡ (if any_below n (covers_cell p by bx r) then p.kind else cell b by bx)
  cell-lock_row p r zero b v = refl
  cell-lock_row p r (suc n) b v =
      cell-lock_cell p r n (for_below n (λ c. lock_cell p r c) b)
        (for_below_inv IsBoard n (λ c. lock_cell p r c) b (λ c t _. lock_cell-IsBoard p r c t) v)
      ∙ rw (cell-lock_row p r n b v) (
          if-or (any_below n (covers_cell p by bx r)) (covers_cell p by bx r n) p.kind
            (cell b by bx))

  cell-lock_rows :
      (p : Piece) (m n : ℕ) (b : Board)
      → IsBoard b
      → cell (for_below n (λ r. for_below m (λ c. lock_cell p r c)) b) by bx
        ≡ (if any_below n (λ r. any_below m (covers_cell p by bx r)) then p.kind else cell b by bx)
  cell-lock_rows p m zero b v = refl
  cell-lock_rows p m (suc n) b v =
      cell-lock_row p n m (for_below n (λ r. for_below m (λ c. lock_cell p r c)) b) (
        for_below_inv IsBoard n (λ r. for_below m (λ c. lock_cell p r c)) b
          (λ r t _. lock_row-IsBoard p r m t) v)
      ∙ rw (cell-lock_rows p m n b v) (
          if-or (any_below n (λ r. any_below m (covers_cell p by bx r)))
            (any_below m (covers_cell p by bx n)) p.kind (cell b by bx))

  -- On a board of 26 rows of 10 cells, after `board_lock` a cell holds the kind of the piece where
  -- a filled cell of the piece stands, and what it held before everywhere else.
  pub cell-lock :
      (b : Board) (p : Piece)
      → IsBoard b
      → cell (lock b p) by bx ≡ (if covers p by bx then p.kind else cell b by bx)
  unfolding lock covers
  cell-lock b p v = cell-lock_rows p (piece_size p) (piece_size p) b v
