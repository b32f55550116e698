-- ===== src/Session/Scan.antt =====
-- The numbers in a path and in `Player-Id`: `sscanf` and `atoi` with `%d`, as glibc reads them, and
-- `path_ids` of session.c.
use corestack.Prelude.Opt.{◌>>=◌}
use corestack.Prelude.{
  ℕ, suc, ◌+◌, ◌-◌, ◌*◌, ◌%◌, ◌^◌, Bool, true, false, ◌||◌, [], ◌∷◌, Bytes, Option, none, some, ℤ,
  pos, negsuc, ltb, ◌==◌, if◌then◌else◌, within, codes, min, sub_ℕ,
}
use corestack.Htttp.Serialize.{decimal}

-- `printf`'s `%d`.
unfoldable pub print_int : ℤ → Bytes
print_int (pos n) = decimal 10 n
print_int (negsuc n) = b'-' ∷ decimal 10 (suc n)

abbrev pub is_space : ℕ → Bool
is_space c = c == 32 || within 9 13 c

unfoldable pub skip_space : Bytes → Bytes
skip_space [] = []
skip_space (c ∷ s) = let rest = skip_space s in if is_space c then rest else c ∷ s

-- The digits at the front, read on from `v`, and what is behind them.
unfoldable pub scan_digits : ℕ → Bytes → ℕ × Bytes
scan_digits v [] = (v, [])
scan_digits v (c ∷ s) =
    let rest = scan_digits (v * 10 + (c - b'0')) s in
    if within b'0' b'9' c then rest else (v, c ∷ s)

-- The low 32 bits, as an `int`.
abbrev pub to_int : ℕ → ℤ
to_int n = let low = n % (2 ^ 32) in if ltb low (2 ^ 31) then pos low else sub_ℕ low (2 ^ 32)

-- `strtol` stops at the ends of `long`; the result is cut to an `int`.
unfoldable pub clamp : Bool → ℕ → ℤ
clamp false n = to_int (min n (2 ^ 63 - 1))
clamp true n = to_int (2 ^ 64 - min n (2 ^ 63))

abbrev pub starts_digit : Bytes → Bool
starts_digit [] = false
starts_digit (c ∷ s) = within b'0' b'9' c

unfoldable pub scan_unsigned : Bool → Bytes → Option (ℤ × Bytes)
scan_unsigned negative s =
    let (n, rest) = scan_digits 0 s in
    if starts_digit s then some (clamp negative n, rest) else none

unfoldable pub scan_signed : Bytes → Option (ℤ × Bytes)
scan_signed [] = none
scan_signed (c ∷ s) =
    if c == b'-'
    then scan_unsigned true s
    else if c == b'+'
    then scan_unsigned false s
    else scan_unsigned false (c ∷ s)

abbrev pub scan_int : Bytes → Option (ℤ × Bytes)
scan_int s = scan_signed (skip_space s)

abbrev pub int_or_zero : Option (ℤ × Bytes) → ℤ
int_or_zero none = pos 0
int_or_zero (some (n, rest)) = n

unfoldable pub atoi : Bytes → ℤ
atoi s = int_or_zero (scan_int s)

-- What follows a literal of the format; none where the text does not start with it.
unfoldable pub literal : Bytes → Bytes → Option Bytes
literal [] s = some s
literal (x ∷ p) [] = none
literal (x ∷ p) (y ∷ s) = if x == y then literal p s else none

pub data RouteShape : Type 0 where
  path_room path_room_player : RouteShape

abbrev pub at_end : ℤ → ℤ → Bytes → Option (ℤ × ℤ)
at_end room player [] = some (room, player)
at_end room player (c ∷ s) = none

-- `room` and `player_id`; none for the result false.
unfoldable pub path_ids : Bytes → RouteShape → Option (ℤ × ℤ)
path_ids path path_room = do
  s ← literal (codes "/room/") path
  (room, rest) ← scan_int s
  at_end room (negsuc 0) rest
path_ids path path_room_player = do
  s ← literal (codes "/room/") path
  (room, t) ← scan_int s
  u ← literal (codes "/player/") t
  (player, rest) ← scan_int u
  at_end room player rest
