-- ===== src/Htttp/Reply.antt =====
-- A response that is serialized and parsed again.
use mathlib.Core.List.{append_assoc}
use corestack.Prelude.{
  ℕ, ◌≤◌, ◌<◌, ◌≡◌, refl, ◌∙◌, arith, true, false, List, [], ◌∷◌, ◌++◌, Option, none, some, ltb,
  length, Bytes, codes, within, every, has,
}
use corestack.Htttp.Result.{ok, guard, malformed, >>=-eq-ok}
use corestack.Htttp.Message.{
  reason, is_empty, htttp_version, Header, Response, max_headers, max_value, valid_field, ci_eq,
  header_get,
}
use corestack.Htttp.Parse.{
  cr, strip, find_crlf, token, parse_uint, parse_tail, parse_response, uint32_max,
}
use corestack.Htttp.Serialize.{
  decimal, crlf, emit_parts, emit_header, status_line, known, serialize_response,
}
use corestack.Htttp.Numbers.{digit, parse_uint-ok, parse_uint-decimal, digit-decimal}
use corestack.Htttp.Lines.{has-append, find_crlf-append, has-every}
use corestack.Htttp.Wire.{wires, kept, AllSendable, length_header, emit_header-ok}
use corestack.Htttp.Sent.{emit_parts-ok, headed-ok}
use corestack.Htttp.Reads.{AllReadable}
use corestack.Htttp.Bodies.{header_get-kept, with_length, Shows, parse_tail-wires}
use corestack.Htttp.RoundTrip.{token-append}

reason-range : (s : ℕ) (p : Bytes) → reason s ≡ some p → within 100 599 s ≡ true
unfolding reason
reason-range s p e = ground arith

reason-no_cr : (s : ℕ) (p : Bytes) → reason s ≡ some p → has cr p ≡ false
unfolding reason has
reason-no_cr s p e = ground arith

-- The header that the serializer writes first.
abbrev pub date_header : Bytes → Header
date_header date = record { key = codes "Date"; value = date }

abbrev pub front_of : Bytes → Response → List Header
front_of date res = date_header date ∷ kept true res.headers

abbrev status_text : ℕ → Bytes → Bytes
status_text status phrase = htttp_version ++ (b' ' ∷ (decimal 10 status ++ (b' ' ∷ phrase)))

record Replied (date : Bytes) (res : Response) (r : Bytes) : Type 0 where
  phrase : Bytes
  phrase_of : reason res.status ≡ some phrase
  bytes :
      r
      ≡ status_text res.status phrase
        ++ (crlf ++ wires (front_of date res) (wires (length_header res.body) (crlf ++ res.body)))
  sendable : AllSendable (kept true res.headers)

known-ok : (o : Option Bytes) (p : Bytes) → known o ≡ ok p → o ≡ some p
known-ok none p e = absurd cc
known-ok (some q) p e = ground arith

serialize_response-Replied :
    (date : Bytes) (cap : ℕ) (res : Response) (r : Bytes)
    → serialize_response date cap res ≡ ok r
    → Replied date res r
unfolding serialize_response
serialize_response-Replied date cap res r e =
    let (phrase, e1, h1) = >>=-eq-ok (known (reason res.status)) _ e in
    let (_, e2, h2) = >>=-eq-ok (guard (ltb (length (decimal 10 res.status)) 8) malformed) _ h1 in
    let (line, e3, h3) = >>=-eq-ok (emit_parts cap [] (status_line res.status phrase)) _ h2 in
    let (dated, e4, h4) = >>=-eq-ok (emit_header cap line (codes "Date") date) _ h3 in
    let w = headed-ok cap dated true res.headers res.body r h4 in
    let rest = wires (kept true res.headers) (wires (length_header res.body) (crlf ++ res.body)) in
    let d = emit_header-ok cap line (codes "Date") date dated rest e4 in
    let p =
      emit_parts-ok cap [] (status_line res.status phrase) line (wires (date_header date ∷ []) rest)
        e3 in
    record {
      phrase = phrase;
      phrase_of = known-ok (reason res.status) phrase e1;
      bytes = w.0 ∙ d.0 ∙ p.0 ∙ simp append_assoc;
      sendable = w.2;
    }

-- The response fits the struct that the parser fills, and the date is what `strftime` gives: visible
-- bytes and spaces.
pub record Fits (date : Bytes) (res : Response) : Type 0 where
  pub date_valid : valid_field date true ≡ true
  pub date_fits : length date < max_value
  pub headers : AllReadable (kept true res.headers)
  pub count : length (with_length (front_of date res) res.body) ≤ max_headers
  pub body : length res.body ≤ uint32_max

-- The response as a receiver sees it: the date comes first and the length last.
abbrev pub received : Bytes → Response → Response
received date res = record {
  status = res.status;
  headers = front_of date res ++ length_header res.body;
  body = res.body;
}

digits-free : (c n : ℕ) → n ≤ uint32_max → digit c ≡ false → has c (decimal 10 n) ≡ false
digits-free c n le d = has-every digit c (decimal 10 n) (digit-decimal n le) d

strip-append : (p line : Bytes) → strip p (p ++ line) ≡ ok line
unfolding strip
strip-append [] line = refl
strip-append (x ∷ p) line = ground (arith, strip-append p line)

status-le : (s : ℕ) (p : Bytes) → reason s ≡ some p → s ≤ uint32_max
status-le s p e = ground (arith, reason-range s p e)

status_text-no_cr : (s : ℕ) (p : Bytes) → reason s ≡ some p → has cr (status_text s p) ≡ false
unfolding has
status_text-no_cr s p e =
    has-append cr (decimal 10 s) (b' ' ∷ p)
    ∙ rw (digits-free cr s (status-le s p e) refl) (reason-no_cr s p e)

parse_response-steps :
    (buf line tail rest phrase st : Bytes) (res : Response)
    → find_crlf buf ≡ some (line, tail)
    → strip (htttp_version ++ (b' ' ∷ [])) line ≡ ok rest
    → token rest ≡ ok (st, phrase)
    → parse_uint st ≡ ok res.status
    → within 100 599 res.status ≡ true
    → parse_tail tail ≡ ok (res.headers, res.body)
    → parse_response buf ≡ ok res
unfolding parse_response
parse_response-steps buf line tail rest phrase st res a b c d w g =
    rw a (rw b (rw c (rw d (simp w (rw g refl)))))

date-Shows : (date : Bytes) (res : Response) → Shows (front_of date res) res.body
unfolding header_get ci_eq
date-Shows date res = header_get-kept true res.headers (length_header res.body)

front_of-AllSendable :
    (date : Bytes) (res : Response)
    → Fits date res
    → AllSendable (kept true res.headers)
    → AllSendable (front_of date res)
unfolding is_empty valid_field every
front_of-AllSendable date res f s =
    (record { key_some = refl; key_valid = refl; value_valid = f.date_valid }, s)

front_of-AllReadable :
    (date : Bytes) (res : Response) → Fits date res → AllReadable (front_of date res)
front_of-AllReadable date res f = (
  record { key_fits = omega arith; value_fits = f.date_fits; no_colon = unfold has in refl },
  f.headers,
)

-- Where a response was serialized into `r`, its kept headers and body fit what the parser can
-- take, and the date is a short text of visible bytes and spaces, the parser reads `r` back: the
-- status, the date in front of the headers that the serializer keeps, with the length behind them,
-- and the body.
pub parse-serialize_response :
    (date : Bytes) (cap : ℕ) (res : Response) (r : Bytes)
    → serialize_response date cap res ≡ ok r
    → Fits date res
    → parse_response r ≡ ok (received date res)
parse-serialize_response date cap res r e f =
    let s = serialize_response-Replied date cap res r e in
    let le = status-le res.status s.phrase s.phrase_of in
    let reads = parse_uint-decimal res.status le in
    let tail = wires (front_of date res) (wires (length_header res.body) (crlf ++ res.body)) in
    let digits = decimal 10 res.status in
    rw s.bytes (
      parse_response-steps (status_text res.status s.phrase ++ (crlf ++ tail))
        (status_text res.status s.phrase) tail (digits ++ (b' ' ∷ s.phrase)) s.phrase digits
        (received date res)
        (find_crlf-append (status_text res.status s.phrase) tail
          (status_text-no_cr res.status s.phrase s.phrase_of))
        (strip-append (htttp_version ++ (b' ' ∷ [])) (digits ++ (b' ' ∷ s.phrase)))
        (token-append digits s.phrase (parse_uint-ok digits res.status reads).0
          (digits-free b' ' res.status le refl))
        reads (reason-range res.status s.phrase s.phrase_of)
        (parse_tail-wires (front_of date res) res.body (date-Shows date res) f.body f.count
          (front_of-AllSendable date res f s.sendable) (front_of-AllReadable date res f)))
