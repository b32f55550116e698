-- ===== src/Ballot/Hex.antt =====
-- The payload of a ballot in hex: `hex_encode` and `hex_decode` of
-- ballotbox/src/libballotclient/codec.c.
use corestack.Prelude.Opt.{◌>>=◌}
use corestack.Prelude.{
  ℕ, ◌+◌, ◌-◌, ◌*◌, ◌/◌, ◌%◌, [], ◌∷◌, Option, none, some, Bytes, codes, within, ltb, not, ◌==◌,
  if◌then◌else◌, length, get_or,
}

abbrev pub digit : ℕ → ℕ
digit n = get_or (codes "0123456789abcdef") n 0

unfoldable pub hex_digits : Bytes → Bytes
hex_digits [] = []
hex_digits (b ∷ s) = digit (b / 16) ∷ digit (b % 16) ∷ hex_digits s

unfoldable pub hex_encode : Bytes → ℕ → Option Bytes
hex_encode s out_cap = if ltb out_cap (length s * 2 + 1) then none else some (hex_digits s)

-- None for -1.
abbrev pub hex_nibble : ℕ → Option ℕ
hex_nibble c =
    if within b'0' b'9' c
    then some (c - b'0')
    else if within b'a' b'f' c
    then some (c - b'a' + 10)
    else if within b'A' b'F' c
    then some (c - b'A' + 10)
    else none

unfoldable pub hex_bytes : Bytes → Option Bytes
hex_bytes (h ∷ l ∷ s) = do
  hi ← hex_nibble h
  lo ← hex_nibble l
  rest ← hex_bytes s
  some ((hi * 16 + lo) ∷ rest)
hex_bytes _ = some []

unfoldable pub hex_decode : Bytes → ℕ → Option Bytes
hex_decode hex out_cap =
    if not (length hex % 2 == 0)
    then none
    else if ltb out_cap (length hex / 2)
    then none
    else hex_bytes hex
