-- ===== src/Htttp/Numbers.antt =====
-- `parse_uint` and the decimal printing of `snprintf`.
use corestack.Prelude.{
  ℕ, zero, suc, ◌+◌, ◌-◌, ◌*◌, ◌/◌, ◌%◌, ◌≤◌, ◌<◌, ◌≡◌, refl, ◌∙◌, arith, Bool, true, false, [],
  ◌∷◌, ◌++◌, ltb, if◌then◌else◌, length, length-append, Bytes, within, every, every-append,
}
use native.Mathlib.Decide.{dec_lt}
use corestack.Htttp.Result.{ok, err, toolong}
use corestack.Htttp.Message.{is_empty}
use corestack.Htttp.Parse.{uint32_max, parse_digits, parse_uint}
use corestack.Htttp.Serialize.{decimal}

abbrev pub digit : ℕ → Bool
digit = within b'0' b'9'

-- The number that a string of digits stands for, read from `v` on.
unfoldable pub value : ℕ → Bytes → ℕ
value v [] = v
value v (c ∷ src) = value (v * 10 + (c - b'0')) src

value-le : (v : ℕ) (src : Bytes) → v ≤ value v src
unfolding value
value-le v [] = omega arith
value-le v (c ∷ src) = omega (arith, value-le (v * 10 + (c - b'0')) src)

pub value-append : (v : ℕ) (a : Bytes) (b : Bytes) → value v (a ++ b) ≡ value (value v a) b
unfolding value
value-append v [] b = refl
value-append v (c ∷ a) b = value-append (v * 10 + (c - b'0')) a b

-- The loop gives the number that the digits stand for, or refuses it, exactly by its size.
parse_digits-value :
    (v : ℕ) (src : Bytes)
    → v ≤ uint32_max
    → every digit src ≡ true
    → parse_digits v src ≡ (if ltb uint32_max (value v src) then err toolong else ok (value v src))
unfolding parse_digits value every
parse_digits-value v [] h d = ground arith
parse_digits-value v (c ∷ src) h d =
    ground (arith, parse_digits-value (v * 10 + (c - b'0')) src, value-le (v * 10 + (c - b'0')) src)

parse_digits-malformed :
    (v : ℕ) (src : Bytes) (n : ℕ) → parse_digits v src ≡ ok n → every digit src ≡ true
unfolding parse_digits every
parse_digits-malformed v [] n h = refl
parse_digits-malformed v (c ∷ src) n h =
    ground (arith, parse_digits-malformed (v * 10 + (c - b'0')) src n)

-- A string of one to 32 digits parses to the number that it stands for if that fits 32 bits, and is
-- refused as too long if not.
pub parse_uint-value :
    (src : Bytes)
    → is_empty src ≡ false
    → length src ≤ 32
    → every digit src ≡ true
    → parse_uint src ≡ (if ltb uint32_max (value 0 src) then err toolong else ok (value 0 src))
unfolding parse_uint
parse_uint-value src e l d = ground (arith, parse_digits-value 0 src)

-- Where a string parses as a number, it has one to 32 bytes, and all of them are digits.
pub parse_uint-ok :
    (src : Bytes) (n : ℕ)
    → parse_uint src ≡ ok n
    → (is_empty src ≡ false) × (length src ≤ 32) × (every digit src ≡ true)
unfolding parse_uint
parse_uint-ok src n h = ground (arith, parse_digits-malformed 0 src n)

abbrev ten_pow : ℕ → ℕ
ten_pow zero = 1
ten_pow (suc k) = 10 * ten_pow k

-- What the printed number is: digits, one at least, and no more than the fuel.
pub record Printed (fuel n : ℕ) : Type 0 where
  pub digits : every digit (decimal fuel n) ≡ true
  pub some_digit : 0 < length (decimal fuel n)
  pub short : length (decimal fuel n) ≤ fuel
  pub reads : value 0 (decimal fuel n) ≡ n

decimal-small : (fuel n : ℕ) → n < 10 → decimal (suc fuel) n ≡ (b'0' + n) ∷ []
unfolding decimal
decimal-small fuel n h = ground arith

decimal-large :
    (fuel n : ℕ) → 10 ≤ n → decimal (suc fuel) n ≡ decimal fuel (n / 10) ++ ((b'0' + n % 10) ∷ [])
unfolding decimal
decimal-large fuel n h = ground arith

pub decimal-Printed : (fuel n : ℕ) → n < ten_pow fuel → 0 < fuel → Printed fuel n
unfolding every value
decimal-Printed zero n h f = absurd (omega arith)
decimal-Printed (suc fuel) n h f = elim (dec_lt n 10) [
  | yes small ↦
      let e = decimal-small fuel n small in
      record {
        digits = rw e (ground arith);
        some_digit = rw e (omega arith);
        short = rw e (omega arith);
        reads = rw e (omega arith);
      }
  | no big ↦
      let e = decimal-large fuel n (omega arith) in
      let p = decimal-Printed fuel (n / 10) (omega arith) (more fuel h (omega arith)) in
      let l = length-append (decimal fuel (n / 10)) ((b'0' + n % 10) ∷ []) in
      record {
        digits =
            rw (e, every-append digit (decimal fuel (n / 10)) ((b'0' + n % 10) ∷ []), p.digits)
              (ground arith);
        some_digit = rw e (omega (arith, l));
        short = rw e (omega (arith, l, p.short));
        reads =
            rw (e, value-append 0 (decimal fuel (n / 10)) ((b'0' + n % 10) ∷ []), p.reads)
              (omega arith);
      }
]
  where
    more : (k : ℕ) → n < ten_pow (suc k) → 10 ≤ n → 0 < k
    more zero h le = absurd (omega arith)
    more (suc k) h le = omega arith

is_empty-length : (s : Bytes) → 0 < length s → is_empty s ≡ false
unfolding is_empty
is_empty-length [] h = absurd (omega arith)
is_empty-length (c ∷ s) h = refl

-- The digits that the serializer prints for a number below 2 ^ 32 are parsed to that number.
pub parse_uint-decimal : (n : ℕ) → n ≤ uint32_max → parse_uint (decimal 10 n) ≡ ok n
parse_uint-decimal n h =
    let p = decimal-Printed 10 n (omega arith) (omega arith) in
    parse_uint-value (decimal 10 n) (is_empty-length (decimal 10 n) p.some_digit)
      (omega (arith, p.short)) p.digits
    ∙ rw p.reads (ground arith)

pub length-decimal : (n : ℕ) → n ≤ uint32_max → length (decimal 10 n) ≤ 10
length-decimal n h = (decimal-Printed 10 n (omega arith) (omega arith)).short

pub digit-decimal : (n : ℕ) → n ≤ uint32_max → every digit (decimal 10 n) ≡ true
digit-decimal n h = (decimal-Printed 10 n (omega arith) (omega arith)).digits
