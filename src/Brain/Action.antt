-- ===== src/Brain/Action.antt =====
-- tetriSH/src/libtetrisbrain/action.c: moving, rotating, dropping, holding and spawning.
pub mod Inv
pub mod Place
pub mod Cycle
pub mod Ticks
pub mod Fall
pub mod Drop
use corestack.Prelude.{
  ℕ, zero, suc, ◌+◌, ◌-◌, ◌%◌, Bool, true, false, not, ◌&&◌, List, [], ◌∷◌, Option, none, some,
  ◌==◌, ltb, leb, if◌then◌else◌, get_or, set, ℤ, pos, negsuc, pos_part, ◌+ℤ◌, ◌-ℤ◌, rem, for_below,
}
use corestack.Brain.Model.{PieceKind, piece_none, Board, is_none, board_height, Piece, GameState}
use corestack.Brain.Piece.{piece_rots, piece_size}
use corestack.Brain.Board.{
  collides, board_collides, board_spawn_piece, board_lock, board_clear_lines,
}
use corestack.Brain.Rng.{rng_piece, u32_mod}
use corestack.Brain.Scoring.{scoring_add}

-- The sum of two C remainders is not negative, so its `pos_part` is its value.
unfoldable pub action_rotate : Piece → ℤ → Piece
action_rotate p step = record p {
  rot = pos_part (rem (rem (pos p.rot +ℤ step) piece_rots +ℤ pos piece_rots) piece_rots);
}

unfoldable pub action_move : Piece → ℤ → ℤ → Piece
action_move p dx dy = record p { x = p.x +ℤ dx; y = p.y +ℤ dy }

unfoldable pub action_try_move : GameState → ℤ → ℤ → Bool × GameState
action_try_move g dx dy =
    let cand = action_move g.active dx dy in
    if board_collides g cand then (false, g) else (true, record g { active = cand })

-- The sideways tries of `action_try_rotate` from distance `i` on, right before left.
unfoldable pub kick_from : Board → Piece → ℕ → ℕ → Option Piece
kick_from b p zero i = none
kick_from b p (suc k) i =
    let right = action_move p (pos i) (pos 0) in
    let left = action_move p (pos 0 -ℤ pos i) (pos 0) in
    elim (collides b right) [
      | false ↦ some right
      | true ↦ elim (collides b left) [ false ↦ some left | true ↦ kick_from b p k (i + 1) ]
    ]

-- Where the rotated piece fits, if anywhere.
unfoldable pub find_rotation : Board → Piece → ℤ → Option Piece
find_rotation b p dir =
    let cand = action_rotate p dir in
    elim (collides b cand) [ false ↦ some cand | true ↦ kick_from b cand (piece_size cand) 1 ]

-- The two exits of `action_try_rotate`.
abbrev pub rotated : GameState → Option Piece → Bool × GameState
rotated g (some cand) = (true, record g { active = cand })
rotated g none = (false, g)

unfoldable pub action_try_rotate : GameState → ℤ → Bool × GameState
action_try_rotate g dir = rotated g (find_rotation g.board g.active dir)

abbrev pub action_lmove : GameState → Bool × GameState
action_lmove g = action_try_move g (negsuc 0) (pos 0)

abbrev pub action_rmove : GameState → Bool × GameState
action_rmove g = action_try_move g (pos 1) (pos 0)

abbrev pub action_rrot : GameState → Bool × GameState
action_rrot g = action_try_rotate g (pos 1)

abbrev pub action_lrot : GameState → Bool × GameState
action_lrot g = action_try_rotate g (negsuc 0)

unfoldable pub garbage_earn : GameState → ℕ → GameState
garbage_earn g n = if leb 2 n then record g { garbage_out = g.garbage_out + (n - 1) } else g

abbrev pub next_len : ℕ
next_len = 5

-- The queue moved down one slot, with a new last piece.
unfoldable pub shift_queue : List PieceKind → PieceKind → List PieceKind
shift_queue next k =
    set (for_below (next_len - 1) (λ i q. set q i (get_or q (i + 1) piece_none)) next)
      (next_len - 1) k

unfoldable pub spawn_next : GameState → Bool × GameState
spawn_next g =
    let k = get_or g.next 0 piece_none in
    board_spawn_piece
      (record g {
        next = shift_queue g.next (rng_piece g.seed g.piece_generated_counter);
        piece_generated_counter = (g.piece_generated_counter + 1) % u32_mod;
      })
      k

-- What a caller of a spawn does with its result.
abbrev pub or_top_out : Bool × GameState → GameState
or_top_out (true, g) = g
or_top_out (false, g) = record g { game_over = true }

unfoldable pub post_lock : GameState → GameState
post_lock g =
    let (n, cleared) = board_clear_lines g in
    let earned = garbage_earn (scoring_add cleared n) n in
    or_top_out (spawn_next (record earned { hold_used = false }))

-- The end of the lock cycle, or the moved piece; the tick count is reset on both.
abbrev pub after_drop : Bool × GameState → Bool × GameState
after_drop (true, g) = (true, record g { tick_count = 0 })
after_drop (false, g) = (false, record (post_lock (board_lock g g.active)) { tick_count = 0 })

unfoldable pub action_softdrop : GameState → Bool × GameState
action_softdrop g = after_drop (action_try_move g (pos 0) (pos 1))

-- `while (action_softdrop(g)) dropped++`; `none` when the fuel runs out.
unfoldable pub drop_loop : ℕ → GameState → ℕ → Option (ℕ × GameState)
drop_loop zero g dropped = none
drop_loop (suc fuel) g dropped =
    let (moved, g') = action_softdrop g in
    elim moved [ true ↦ drop_loop fuel g' (dropped + 1) | false ↦ some (dropped, g') ]

-- Rounds that are enough for a piece that has a filled cell on the board: one for each row
-- between its origin and the floor, and one more.
abbrev pub drop_room : Piece → ℕ
drop_room p = pos_part (pos board_height -ℤ p.y)

unfoldable pub action_harddrop : GameState → Option (ℕ × GameState)
action_harddrop g = drop_loop (suc (drop_room g.active)) g 0

unfoldable pub ghost_loop : ℕ → Board → Piece → Option Piece
ghost_loop zero b p = none
ghost_loop (suc fuel) b p = elim (collides b (action_move p (pos 0) (pos 1))) [
  | true ↦ some p
  | false ↦ ghost_loop fuel b (action_move p (pos 0) (pos 1))
]

unfoldable pub action_ghost : GameState → Option Piece
action_ghost g = elim (is_none g.active.kind) [
  | true ↦ some g.active
  | false ↦ ghost_loop (suc (drop_room g.active)) g.board g.active
]

-- The swap with a held piece: the hold slot is written only if the held piece fits.
abbrev pub swap_held : PieceKind → Bool × GameState → GameState
swap_held cur (true, g) = record g { held = cur }
swap_held cur (false, g) = record g { game_over = true }

unfoldable pub action_hold : GameState → Bool × GameState
action_hold g =
    let cur = g.active.kind in
    let used = record g { hold_used = true } in
    if g.hold_used
    then (false, g)
    else if is_none g.held
    then (true, or_top_out (spawn_next (record used { held = cur })))
    else (true, swap_held cur (board_spawn_piece used g.held))
