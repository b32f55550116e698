-- ===== src/Ballot/Digits.antt =====
-- The hex coding of codec.c on the digits that it writes.
use corestack.Prelude.{
  ℕ, ◌*◌, ◌/◌, ◌%◌, ◌<◌, ◌≡◌, refl, ap, arith, Bool, true, false, not, ◌&&◌, [], ◌∷◌, Option, none,
  some, Bytes, ◌==◌, ltb, length, every, all_below, all_below-true,
}
use corestack.Ballot.Hex.{digit, hex_digits, hex_nibble, hex_bytes, hex_decode}

-- A byte that a line of a body can hold.
abbrev pub plain : ℕ → Bool
plain c = not (c == 0) && (not (c == 10) && not (c == 13))

abbrev pub byte : ℕ → Bool
byte c = ltb c 256

abbrev reads : ℕ → Option ℕ → Bool
reads n none = false
reads n (some m) = m == n

reads-some : (n : ℕ) (o : Option ℕ) → reads n o ≡ true → o ≡ some n
reads-some n none e = absurd cc
reads-some n (some m) e = ap some (ground arith)

abbrev digit_ok : ℕ → Bool
digit_ok n = reads n (hex_nibble (digit n)) && plain (digit n)

digits_ok : all_below 16 digit_ok ≡ true
digits_ok = refl

hex_nibble-digit : (n : ℕ) → n < 16 → hex_nibble (digit n) ≡ some n
hex_nibble-digit n h =
    reads-some n (hex_nibble (digit n)) (ground (arith, all_below-true 16 digit_ok digits_ok n h))

plain-digit : (n : ℕ) → n < 16 → plain (digit n) ≡ true
plain-digit n h = ground (arith, all_below-true 16 digit_ok digits_ok n h)

pub length-hex_digits : (s : Bytes) → length (hex_digits s) ≡ length s * 2
unfolding hex_digits
length-hex_digits [] = refl
length-hex_digits (b ∷ s) = omega (arith, length-hex_digits s)

high : (b : ℕ) → byte b ≡ true → b / 16 < 16
high b h = ground arith

pub plain-hex_digits : (s : Bytes) → every byte s ≡ true → every plain (hex_digits s) ≡ true
unfolding hex_digits every
plain-hex_digits [] h = refl
plain-hex_digits (b ∷ s) h = ground (
  arith,
  plain-digit (b / 16) (high b (ground arith)),
  plain-digit (b % 16) (omega arith),
  plain-hex_digits s,
)

pub hex_bytes-hex_digits : (s : Bytes) → every byte s ≡ true → hex_bytes (hex_digits s) ≡ some s
unfolding hex_digits every hex_bytes
hex_bytes-hex_digits [] h = refl
hex_bytes-hex_digits (b ∷ s) h =
    rw
      (
        hex_nibble-digit (b / 16) (high b (ground arith)),
        hex_nibble-digit (b % 16) (omega arith),
        hex_bytes-hex_digits s (ground arith),
      )
      (ap (λ x. some (x ∷ s)) (omega arith))

-- What was written in hex is read back where it fits.
pub hex_decode-hex_digits :
    (s : Bytes) (cap : ℕ)
    → every byte s ≡ true
    → ltb cap (length s) ≡ false
    → hex_decode (hex_digits s) cap ≡ some s
unfolding hex_decode
hex_decode-hex_digits s cap h fits =
    rw (length-hex_digits s, even (length s), half (length s), fits) (hex_bytes-hex_digits s h)
  where
    even : (n : ℕ) → (n * 2 % 2 == 0) ≡ true
    even n = ground arith

    half : (n : ℕ) → n * 2 / 2 ≡ n
    half n = omega arith
