-- ===== src/Net/Reach.antt =====
-- What a command of the client comes to in its session.
use corestack.Prelude.{
  ◌≤◌, ◌<◌, ◌≡◌, refl, arith, suc, Bool, true, false, List, [], ◌∷◌, ◌++◌, Bytes, bytes_eq, codes,
  some, ℤ, pos, negsuc, length, every, has, ltb, leb, if◌then◌else◌,
}
use corestack.Htttp.Result.{ok}
use corestack.Htttp.Message.{
  Header, valid_field, is_empty, copy_token, header_set, header_get, ci_eq, max_value, max_headers,
}
use corestack.Htttp.Bodies.{digits-visible}
use corestack.Htttp.Numbers.{decimal-Printed}
use corestack.Htttp.Reads.{has-valid_field}
use corestack.Htttp.Serialize.{decimal}
use corestack.Net.{NetClient}
use corestack.Net.Send.{set_header, request_of, auth_path}
use corestack.Session.Scan.{print_int}
use corestack.Session.Paths.{IsInt}

valid-print_int : (z : ℤ) → IsInt z → valid_field (print_int z) true ≡ true
unfolding valid_field print_int every
valid-print_int (pos n) i =
    digits-visible (decimal 10 n) (decimal-Printed 10 n (omega arith) (omega arith)).digits
valid-print_int (negsuc n) i =
    digits-visible (decimal 10 (suc n))
      (decimal-Printed 10 (suc n) (omega arith) (omega arith)).digits

length-print_int : (z : ℤ) → IsInt z → length (print_int z) ≤ 11
unfolding print_int
length-print_int (pos n) i = omega (arith, (decimal-Printed 10 n (omega arith) (omega arith)).short)
length-print_int (negsuc n) i =
    omega (arith, (decimal-Printed 10 (suc n) (omega arith) (omega arith)).short)

copied : (v : Bytes) → valid_field v true ≡ true → length v ≤ 11 → copy_token max_value v ≡ ok v
unfolding copy_token
copied v h l =
    let z = has-valid_field v true 0 h (omega arith) in
    let s : leb max_value (length v) ≡ false = ground (arith, l) in rw (s, z) refl

player_header : Bytes → Header
player_header v = record { key = codes "Player-Id"; value = v }

header_set-player :
    (hs : List Header) (v : Bytes)
    → length hs < 32
    → valid_field v true ≡ true
    → length v ≤ 11
    → header_set hs (codes "Player-Id") v ≡ ok (hs ++ (player_header v ∷ []))
unfolding header_set player_header is_empty valid_field copy_token every has
header_set-player hs v n h l =
    let m : ltb (length hs) max_headers ≡ true = ground (arith, n) in rw (h, m, copied v h l) refl

-- The header in front of the player's id.
abbrev typed : Bool → List Header
typed b =
    if b then [] else set_header (codes "Content-Type") (codes "application/tetris-command") []

header_get-player :
    (b : Bool) (v : Bytes)
    → valid_field v true ≡ true
    → length v ≤ 11
    → header_get (set_header (codes "Player-Id") v (typed b)) (codes "Player-Id") ≡ some v
unfolding header_set is_empty valid_field every copy_token has header_get ci_eq player_header
header_get-player true v h l = rw (header_set-player [] v (omega arith) h l) refl
header_get-player false v h l = rw (header_set-player (typed false) v (omega arith) h l) refl

-- Every command but those of the authentication carries the player's id.
pub header_get-request_of :
    (c : NetClient) (method path body : Bytes)
    → IsInt c.session.player_id
    → bytes_eq path auth_path ≡ false
    → header_get (request_of c method path body).headers (codes "Player-Id")
      ≡ some (print_int c.session.player_id)
unfolding request_of
header_get-request_of c method path body i e = rw e (
    header_get-player (is_empty body) (print_int c.session.player_id)
      (valid-print_int c.session.player_id i) (length-print_int c.session.player_id i))
