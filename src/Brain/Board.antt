-- ===== src/Brain/Board.antt =====
-- tetriSH/src/libtetrisbrain/board.c: the grid operations. A handler that updates `*g` returns the
-- new state beside its result.
pub mod Clear
pub mod Shape
pub mod Lock
pub mod Garbage
use corestack.Prelude.{
  ℕ, zero, suc, ◌+◌, ◌-◌, ◌≤◌, Bool, true, false, not, ◌&&◌, ◌||◌, List, [], ◌∷◌, Option, none,
  some, ◌==◌, ltb, leb, if◌then◌else◌, get_or, set, replicate, ℤ, pos, negsuc, pos_part, ◌+ℤ◌, ◌-ℤ◌,
  leb_ℤ, any_below, all_below, for_below,
}
use corestack.Brain.Model.{
  PieceKind, piece_none, piece_garbage, Cell, Row, Board, board_width, board_height,
  board_buffer_height, is_none, Piece, GameState,
}
use corestack.Brain.Piece.{piece_size, piece_filled}

abbrev pub cell : Board → ℕ → ℕ → Cell
cell b by bx = get_or (get_or b by []) bx piece_none

-- The tests of one filled cell in `board_collides`: outside the playfield, or on a locked cell.
abbrev pub blocked : Board → ℤ → ℤ → Bool
blocked b (pos bx) (pos by) =
    leb board_width bx || leb board_height by || not (is_none (cell b by bx))
blocked b (pos bx) (negsuc by) = true
blocked b (negsuc bx) by = true

abbrev pub cell_collides : Board → Piece → ℕ → ℕ → Bool
cell_collides b p r c = piece_filled p r c && blocked b (p.x +ℤ pos c) (p.y +ℤ pos r)

unfoldable pub collides : Board → Piece → Bool
collides b p = any_below (piece_size p) (λ r. any_below (piece_size p) (λ c. cell_collides b p r c))

abbrev pub board_collides : GameState → Piece → Bool
board_collides g p = collides g.board p

abbrev pub spawn_piece : PieceKind → Piece
spawn_piece kind =
    let n = piece_size (record { kind = kind; rot = 0; x = pos 3; y = pos 0 }) in
    record { kind = kind; rot = 0; x = pos 3; y = pos board_buffer_height -ℤ pos n }

unfoldable pub board_spawn_piece : GameState → PieceKind → Bool × GameState
board_spawn_piece g kind =
    let p = spawn_piece kind in
    if board_collides g p then (false, g) else (true, record g { active = p; tick_count = 0 })

-- A write to `board[by][bx]`, guarded as in `board_lock`.
abbrev pub write_cell : Board → ℤ → ℤ → Cell → Board
write_cell b (pos bx) (pos by) k =
    if ltb bx board_width && ltb by board_height then set b by (set (get_or b by []) bx k) else b
write_cell b (pos bx) (negsuc by) k = b
write_cell b (negsuc bx) by k = b

abbrev pub lock_cell : Piece → ℕ → ℕ → Board → Board
lock_cell p r c b =
    if piece_filled p r c then write_cell b (p.x +ℤ pos c) (p.y +ℤ pos r) p.kind else b

unfoldable pub lock : Board → Piece → Board
lock b p = for_below (piece_size p) (λ r. for_below (piece_size p) (λ c. lock_cell p r c)) b

unfoldable pub board_lock : GameState → Piece → GameState
board_lock g p = record g { board = lock g.board p; hold_used = false }

unfoldable pub full : Row → Bool
full row = all_below board_width (λ c. not (is_none (get_or row c piece_none)))

unfoldable pub row_full : Board → ℕ → Bool
row_full b row = full (get_or b row [])

-- The copy of all the cells of row `src` over row `dst`.
abbrev pub copy_row : Board → ℕ → ℕ → Board
copy_row b dst src = set b dst (get_or b src [])

abbrev pub empty_row : Row
empty_row = replicate board_width piece_none

-- The upward scan of `board_clear_lines`. The counters are `src + 1` and `dst + 1`.
unfoldable pub clear_scan : ℕ → ℕ → ℕ → Board → ℕ × ℕ × Board
clear_scan zero dst cleared b = (dst, cleared, b)
clear_scan (suc src) dst cleared b = elim (row_full b src) [
  | true ↦ clear_scan src dst (cleared + 1) b
  | false ↦
      clear_scan src (dst - 1) cleared (if dst == suc src then b else copy_row b (dst - 1) src)
]

-- The loop that empties the vacated rows; the counter is `dst + 1`.
unfoldable pub clear_top : ℕ → Board → Board
clear_top zero b = b
clear_top (suc dst) b = clear_top dst (set b dst empty_row)

unfoldable pub clear_lines : Board → ℕ × Board
clear_lines b =
    let (dst, cleared, b') = clear_scan board_height board_height 0 b in (cleared, clear_top dst b')

unfoldable pub board_clear_lines : GameState → ℕ × GameState
board_clear_lines g = let (n, b) = clear_lines g.board in (n, record g { board = b })

abbrev pub garbage_hole_col : ℕ
garbage_hole_col = 5

abbrev garbage_cell : ℕ → Cell
garbage_cell c = if c == garbage_hole_col then piece_none else piece_garbage

abbrev row_of : ℕ → (ℕ → Cell) → Row
row_of n f = for_below n (λ c row. set row c (f c)) (replicate n piece_none)

-- What the loop over the columns leaves in each new row.
abbrev pub garbage_row : Row
garbage_row = row_of board_width garbage_cell

-- The scan for a locked cell in the top `rows` rows.
unfoldable pub garbage_tops : Board → ℕ → Bool
garbage_tops b rows = any_below rows (λ r. any_below board_width (λ c. not (is_none (cell b r c))))

-- The forward scan that lifts the stack, then the loop that lays the new rows.
unfoldable pub lift_stack : Board → ℕ → Board
lift_stack b rows =
    for_below rows (λ r b'. set b' (board_height - rows + r) garbage_row)
      (for_below (board_height - rows) (λ dst b'. copy_row b' dst (dst + rows)) b)

-- The test of the walk's loop, and that of its exit above row 0.
unfoldable pub buried : Board → Piece → Bool
buried b p = not (is_none p.kind) && collides b p

unfoldable pub above_board : Piece → Bool
above_board p = leb_ℤ (p.y +ℤ pos (piece_size p)) (pos 0)

-- The loop that walks the falling piece up; `none` when the fuel runs out, and the flag is false
-- when the piece left the board.
unfoldable pub lift_active : ℕ → Board → Piece → Option (Bool × Piece)
lift_active zero b p = none
lift_active (suc fuel) b p = elim (buried b p) [
  | false ↦ some (true, p)
  | true ↦ elim (above_board p) [
    | true ↦ some (false, p)
    | false ↦ lift_active fuel b (record p { y = p.y -ℤ pos 1 })
  ]
]

-- Rounds that are enough for the walk: the piece is gone when its box is above row 0.
abbrev pub lift_fuel : Piece → ℕ
lift_fuel p = suc (pos_part (p.y +ℤ pos (piece_size p)))

-- `rows` is an `int`; below 1 there is nothing to do.
unfoldable pub board_add_garbage : GameState → ℤ → Option (Bool × GameState)
board_add_garbage g (negsuc rows) = some (true, g)
board_add_garbage g (pos zero) = some (true, g)
board_add_garbage g (pos (suc rows)) =
    let n = if ltb board_height (suc rows) then board_height else suc rows in
    let topped = garbage_tops g.board n in
    let b = lift_stack g.board n in
    elim (lift_active (lift_fuel g.active) b g.active) [
      | none ↦ none
      | some (clear, p) ↦ some (clear && not topped, record g { board = b; active = p })
    ]
