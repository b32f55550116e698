-- ===== src/Htttp/Parse.antt =====
-- The parsers of core/src/libhtttp/htttp.c. A position in the buffer is the list of the bytes from
-- there on, so a range `[off, eol)` is the list of its bytes and no read can pass the end. The
-- buffer and the struct are never NULL here. What a refused parse leaves in the struct is not kept.
use corestack.Prelude.{
  ℕ, zero, suc, ◌+◌, ◌-◌, ◌*◌, ◌/◌, ◌^◌, true, false, not, ◌&&◌, List, [], ◌∷◌, ◌++◌, Option, none,
  some, ◌==◌, ltb, if◌then◌else◌, length, Bytes, codes, within, bytes_eq,
}
use corestack.Htttp.Result.{
  malformed, toolong, length_error, out_of_fuel, Result, ok, err, ◌>>=◌, ◌>>◌, guard, or_fail,
}
use corestack.Htttp.Message.{
  htttp_version, max_method, max_path, max_headers, max_key, max_value, Header, Request, Response,
  header_get, copy_token, is_empty,
}

abbrev pub cr : ℕ
cr = 13

abbrev pub lf : ℕ
lf = 10

abbrev pub add_first : ℕ → Option (Bytes × Bytes) → Option (Bytes × Bytes)
add_first c none = none
add_first c (some (line, rest)) = some (c ∷ line, rest)

-- The bytes before the next CRLF, and those behind it.
unfoldable pub find_crlf : Bytes → Option (Bytes × Bytes)
find_crlf [] = none
find_crlf (x ∷ []) = none
find_crlf (x ∷ y ∷ buf) =
    if x == cr && y == lf then some ([], buf) else add_first x (find_crlf (y ∷ buf))

abbrev pub keep_first : ℕ → Bytes × Bytes → Bytes × Bytes
keep_first c (before, rest) = (c ∷ before, rest)

-- `while (i < eol && buf[i] != c) i++`: the bytes before the first `c`, and the bytes from it on.
unfoldable pub scan_to : ℕ → Bytes → Bytes × Bytes
scan_to c [] = ([], [])
scan_to c (x ∷ line) = if x == c then ([], x ∷ line) else keep_first x (scan_to c line)

abbrev pub uint32_max : ℕ
uint32_max = 2 ^ 32 - 1

-- The loop of `parse_uint`; the digit is added only if the result fits 32 bits.
unfoldable pub parse_digits : ℕ → Bytes → Result ℕ
parse_digits value [] = ok value
parse_digits value (c ∷ src) =
    let digit = c - b'0' in
    let rest = parse_digits (value * 10 + digit) src in
    if not (within b'0' b'9' c)
    then err malformed
    else if ltb ((uint32_max - digit) / 10) value
    then err toolong
    else rest

unfoldable pub parse_uint : Bytes → Result ℕ
parse_uint src =
    if is_empty src
    then err malformed
    else if ltb 32 (length src)
    then err toolong
    else parse_digits 0 src

-- `buf[colon] == ':'` and a space behind it; the value is what follows.
unfoldable pub after_colon : Bytes → Result Bytes
after_colon (a ∷ b ∷ value) = if b == b' ' then ok value else err malformed
after_colon _ = err malformed

-- One header line, at a place where the line is not empty.
unfoldable pub parse_header : ℕ → Bytes → Result Header
parse_header n line = do
  guard (not (is_empty (scan_to b':' line).0)) malformed
  value ← after_colon (scan_to b':' line).1
  guard (ltb n max_headers) toolong
  k ← copy_token max_key (scan_to b':' line).0
  v ← copy_token max_value value
  ok (record { key = k; value = v })

-- The header loop: each round takes a line. The fuel is more than the bytes that are left.
unfoldable pub parse_headers : ℕ → List Header → Bytes → Result (List Header × Bytes)
parse_headers zero headers buf = err out_of_fuel
parse_headers (suc fuel) headers buf = elim (find_crlf buf) [
  | none ↦ err malformed
  | some (line, rest) ↦ elim (is_empty line) [
    | true ↦ ok (headers, rest)
    | false ↦ do
      h ← parse_header (length headers) line
      parse_headers fuel (headers ++ (h ∷ [])) rest
  ]
]

abbrev pub content_length : Bytes
content_length = codes "Content-Length"

-- The body against the declared length.
unfoldable pub parse_body : List Header → Bytes → Result Bytes
parse_body headers remaining = elim (header_get headers content_length) [
  | none ↦ if is_empty remaining then ok [] else err length_error
  | some cl ↦ do
    declared ← or_fail malformed (parse_uint cl)
    guard (declared == length remaining) length_error
    ok remaining
]

unfoldable pub parse_tail : Bytes → Result (List Header × Bytes)
parse_tail buf = do
  (headers, remaining) ← parse_headers (suc (length buf)) [] buf
  body ← parse_body headers remaining
  ok (headers, body)

abbrev pub found : Option (Bytes × Bytes) → Result (Bytes × Bytes)
found none = err malformed
found (some p) = ok p

-- What stands behind the space that a scan stopped at.
unfoldable pub after_space : Bytes → Result Bytes
after_space [] = err malformed
after_space (_ ∷ rest) = ok rest

-- One token of the first line: not empty, and a space behind it.
unfoldable pub token : Bytes → Result (Bytes × Bytes)
token line = do
  guard (not (is_empty (scan_to b' ' line).0)) malformed
  rest ← after_space (scan_to b' ' line).1
  ok ((scan_to b' ' line).0, rest)

unfoldable pub parse_request : Bytes → Result Request
parse_request buf = do
  (line, tail) ← found (find_crlf buf)
  (m, rest) ← token line
  method ← or_fail toolong (copy_token max_method m)
  (p, version) ← token rest
  path ← or_fail toolong (copy_token max_path p)
  guard (bytes_eq version htttp_version) malformed
  (headers, body) ← parse_tail tail
  ok (record { method = method; path = path; headers = headers; body = body })

-- The line starts with these bytes; what follows them.
unfoldable pub strip : Bytes → Bytes → Result Bytes
strip [] line = ok line
strip (x ∷ p) [] = err malformed
strip (x ∷ p) (y ∷ line) = if x == y then strip p line else err malformed

unfoldable pub parse_response : Bytes → Result Response
parse_response buf = do
  (line, tail) ← found (find_crlf buf)
  rest ← strip (htttp_version ++ (b' ' ∷ [])) line
  (st, phrase) ← token rest
  status ← or_fail malformed (parse_uint st)
  guard (within 100 599 status) malformed
  (headers, body) ← parse_tail tail
  ok (record { status = status; headers = headers; body = body })
