-- ===== src/Session/Paths.antt =====
-- The paths and numbers that the client prints are read back by the session.
use corestack.Prelude.{
  ℕ, suc, ◌+◌, ◌-◌, ◌*◌, ◌<◌, ◌≡◌, refl, sym, ap, ◌∙◌, arith, Bool, true, false, [], ◌∷◌, ◌++◌,
  Bytes, some, ℤ, pos, negsuc, length, every, within, codes, ◌==◌,
}
use corestack.Htttp.Numbers.{digit, value, decimal-Printed}
use corestack.Htttp.Serialize.{decimal}
use corestack.Session.Scan.{
  print_int, is_space, skip_space, scan_digits, clamp, starts_digit, scan_unsigned, scan_signed,
  scan_int, atoi, int_or_zero, literal, path_room, path_room_player, path_ids,
}

-- A value of the C type `int`.
abbrev pub IsInt : ℤ → Type 0
IsInt (pos n) = n < 2147483648
IsInt (negsuc n) = n < 2147483648

scan_digits-append :
    (v : ℕ) (d rest : Bytes)
    → every digit d ≡ true
    → starts_digit rest ≡ false
    → scan_digits v (d ++ rest) ≡ (value v d, rest)
unfolding scan_digits value every
scan_digits-append v [] [] e h = refl
scan_digits-append v [] (c ∷ rest) e h = rw h refl
scan_digits-append v (c ∷ d) rest e h =
    let w : within b'0' b'9' c ≡ true = ground (arith, e) in
    rw w (scan_digits-append (v * 10 + (c - b'0')) d rest (ground (arith, e)) h)

scan_unsigned-digits :
    (negative : Bool) (d rest : Bytes)
    → every digit d ≡ true
    → 0 < length d
    → starts_digit rest ≡ false
    → scan_unsigned negative (d ++ rest) ≡ some (clamp negative (value 0 d), rest)
unfolding scan_unsigned every
scan_unsigned-digits negative [] rest e l h = absurd (omega arith)
scan_unsigned-digits negative (c ∷ d) rest e l h =
    let w : within b'0' b'9' c ≡ true = ground (arith, e) in
    rw (w, scan_digits-append 0 (c ∷ d) rest e h) refl

clamp-pos : (n : ℕ) → n < 2147483648 → clamp false n ≡ pos n
unfolding clamp
clamp-pos n h = ground arith

clamp-neg : (n : ℕ) → n < 2147483648 → clamp true (suc n) ≡ negsuc n
unfolding clamp
clamp-neg n h = ground arith

-- A number behind no space and no sign.
scan_int-digits :
    (d rest : Bytes)
    → every digit d ≡ true
    → 0 < length d
    → starts_digit rest ≡ false
    → scan_int (d ++ rest) ≡ some (clamp false (value 0 d), rest)
unfolding scan_signed skip_space every
scan_int-digits [] rest e l h = absurd (omega arith)
scan_int-digits (c ∷ d) rest e l h =
    let space : is_space c ≡ false = ground (arith, e) in
    let minus : (c == b'-') ≡ false = ground (arith, e) in
    let plus : (c == b'+') ≡ false = ground (arith, e) in
    rw (space, minus, plus) (scan_unsigned-digits false (c ∷ d) rest e l h)

scan_int-print_int :
    (z : ℤ) (rest : Bytes)
    → IsInt z
    → starts_digit rest ≡ false
    → scan_int (print_int z ++ rest) ≡ some (z, rest)
unfolding print_int scan_signed skip_space
scan_int-print_int (pos n) rest i h =
    let p = decimal-Printed 10 n (omega arith) (omega arith) in
    scan_int-digits (decimal 10 n) rest p.digits p.some_digit h ∙ rw (p.reads, clamp-pos n i) refl
scan_int-print_int (negsuc n) rest i h =
    let p = decimal-Printed 10 (suc n) (omega arith) (omega arith) in
    scan_unsigned-digits true (decimal 10 (suc n)) rest p.digits p.some_digit h
    ∙ rw (p.reads, clamp-neg n i) refl

append-nil : (s : Bytes) → s ++ [] ≡ s
append-nil [] = refl
append-nil (c ∷ s) = ap (λ i. c ∷ i) (append-nil s)

scan_int-alone : (z : ℤ) → IsInt z → scan_int (print_int z) ≡ some (z, [])
scan_int-alone z i =
    ap (λ s. scan_int s) (sym (append-nil (print_int z))) ∙ scan_int-print_int z [] i refl

-- `atoi` reads a printed number.
pub atoi-print_int : (z : ℤ) → IsInt z → atoi (print_int z) ≡ z
unfolding atoi
atoi-print_int z i = ap int_or_zero (scan_int-alone z i)

-- A path with a room, and one with a player too.
pub path_ids-room :
    (room : ℤ)
    → IsInt room
    → path_ids (codes "/room/" ++ print_int room) path_room ≡ some (room, negsuc 0)
unfolding path_ids literal
path_ids-room room i = rw (scan_int-alone room i) refl

pub path_ids-player :
    (room player : ℤ)
    → IsInt room
    → IsInt player
    → path_ids
        (codes "/room/" ++ (print_int room ++ (codes "/player/" ++ print_int player)))
        path_room_player
      ≡ some (room, player)
unfolding path_ids literal
path_ids-player room player i j =
    rw
      (
        scan_int-print_int room (codes "/player/" ++ print_int player) i refl,
        scan_int-alone player j,
      )
      refl
