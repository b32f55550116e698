-- ===== src/Htttp/Serialize.antt =====
-- The serializers of core/src/libhtttp/htttp.c. The buffer is the list of the bytes written so far,
-- and the result is what `out` and `*out_len` hold on success.
use corestack.Prelude.{
  ℕ, zero, suc, ◌+◌, ◌-◌, ◌/◌, ◌%◌, Bool, true, false, not, ◌&&◌, ◌||◌, List, [], ◌∷◌, ◌++◌, Option,
  none, some, ◌==◌, ltb, leb, if◌then◌else◌, length, Bytes, codes,
}
use corestack.Htttp.Result.{malformed, toolong, nospace, Result, ok, err, ◌>>=◌, ◌>>◌, guard}
use corestack.Htttp.Message.{
  htttp_version, max_headers, Header, Request, Response, ci_eq, valid_field, is_empty, reason,
}
use corestack.Htttp.Parse.{cr, lf, content_length}

-- `printf`'s `%u` and `%d` of a number that is not negative; each round takes one digit off.
unfoldable pub decimal : ℕ → ℕ → Bytes
decimal zero n = []
decimal (suc fuel) n =
    let front = decimal fuel (n / 10) in
    if ltb n 10 then (b'0' + n) ∷ [] else front ++ ((b'0' + n % 10) ∷ [])

abbrev pub crlf : Bytes
crlf = cr ∷ lf ∷ []

unfoldable pub buf_append : ℕ → Bytes → Bytes → Result Bytes
buf_append cap out src =
    if length src == 0
    then ok out
    else if ltb (cap - length out) (length src)
    then err nospace
    else ok (out ++ src)

-- The appends of a first line, chained on `||`: the first failure ends the chain.
unfoldable pub emit_parts : ℕ → Bytes → List Bytes → Result Bytes
emit_parts cap out [] = ok out
emit_parts cap out (part ∷ parts) = do out' ← buf_append cap out part; emit_parts cap out' parts

unfoldable pub emit_header : ℕ → Bytes → Bytes → Bytes → Result Bytes
emit_header cap out key value = do
  a ← buf_append cap out key
  b ← buf_append cap a (codes ": ")
  c ← buf_append cap b value
  buf_append cap c crlf

-- The headers that the library writes itself.
unfoldable pub skipped : Bool → Header → Bool
skipped skip_date h = ci_eq h.key content_length || skip_date && ci_eq h.key (codes "Date")

-- One header of the caller's, checked and written.
unfoldable pub emit_checked : ℕ → Bytes → Header → Result Bytes
emit_checked cap out h = do
  guard (not (is_empty h.key)) malformed
  guard (valid_field h.key false && valid_field h.value true) malformed
  emit_header cap out h.key h.value

unfoldable pub emit_each : ℕ → Bool → Bytes → List Header → Result Bytes
emit_each cap skip_date out [] = ok out
emit_each cap skip_date out (h ∷ hs) = do
  out' ← if skipped skip_date h then ok out else emit_checked cap out h
  emit_each cap skip_date out' hs

unfoldable pub emit_headers : ℕ → Bool → Bytes → List Header → Result Bytes
emit_headers cap skip_date out headers = do
  guard (leb (length headers) max_headers) toolong
  emit_each cap skip_date out headers

unfoldable pub emit_length : ℕ → Bytes → Bytes → Result Bytes
emit_length cap out body =
    let cl = decimal 10 (length body) in
    if length body == 0
    then ok out
    else if leb 16 (length cl)
    then err malformed
    else emit_header cap out content_length cl

unfoldable pub emit_body : ℕ → Bytes → Bytes → Result Bytes
emit_body cap out body = do
  a ← emit_length cap out body
  b ← buf_append cap a crlf
  buf_append cap b body

-- METHOD SP PATH SP VERSION CRLF
abbrev pub request_line : Request → List Bytes
request_line req = req.method ∷ codes " " ∷ req.path ∷ codes " " ∷ htttp_version ∷ crlf ∷ []

-- VERSION SP STATUS SP REASON CRLF
abbrev pub status_line : ℕ → Bytes → List Bytes
status_line status phrase =
    htttp_version ∷ codes " " ∷ decimal 10 status ∷ codes " " ∷ phrase ∷ crlf ∷ []

-- `cap` is the value of `*out_len` at the call.
unfoldable pub serialize_request : ℕ → Request → Result Bytes
serialize_request cap req = do
  guard (not (is_empty req.method) && not (is_empty req.path)) malformed
  guard (valid_field req.method false && valid_field req.path false) malformed
  line ← emit_parts cap [] (request_line req)
  out ← emit_headers cap false line req.headers
  emit_body cap out req.body

abbrev pub known : Option Bytes → Result Bytes
known none = err malformed
known (some phrase) = ok phrase

-- `date` is what `strftime` makes of the clock.
unfoldable pub serialize_response : Bytes → ℕ → Response → Result Bytes
serialize_response date cap res = do
  phrase ← known (reason res.status)
  guard (ltb (length (decimal 10 res.status)) 8) malformed
  line ← emit_parts cap [] (status_line res.status phrase)
  dated ← emit_header cap line (codes "Date") date
  out ← emit_headers cap true dated res.headers
  emit_body cap out res.body
