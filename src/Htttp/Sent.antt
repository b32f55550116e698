-- ===== src/Htttp/Sent.antt =====
-- The wire form of a request.
use mathlib.Core.List.{append_assoc}
use corestack.Prelude.{
  ℕ, ◌≤◌, ◌≡◌, ◌∙◌, arith, Bool, true, false, not, ◌&&◌, List, [], ◌∷◌, ◌++◌, leb, length, Bytes,
  codes,
}
use corestack.Htttp.Result.{
  Result, ok, malformed, ◌>>=◌, ◌>>◌, guard, toolong, >>=-eq-ok, guard-eq-ok,
}
use corestack.Htttp.Message.{Header, Request, htttp_version, max_headers, valid_field, is_empty}
use corestack.Htttp.Serialize.{
  crlf, buf_append, emit_parts, request_line, emit_each, emit_headers, emit_body, serialize_request,
}
use corestack.Htttp.Wire.{
  wires, kept, AllSendable, length_header, buf_append-ok, nothing-Wrote, and-true, not-true,
  emit_each-Wrote, emit_body-ok,
}

-- The wire form of a request: the request line, the headers that are kept, the generated length,
-- the blank line and the body.
abbrev pub request_wire : Request → Bytes
request_wire q =
    q.method
    ++ (codes " "
        ++ (q.path
            ++ (codes " "
                ++ (htttp_version
                    ++ (crlf
                        ++ wires (kept false q.headers)
                            (wires (length_header q.body) (crlf ++ q.body)))))))

pub record Sent (cap : ℕ) (q : Request) (r : Bytes) : Type 0 where
  pub bytes : r ≡ request_wire q
  pub fits : length r ≤ cap
  pub method_some : is_empty q.method ≡ false
  pub path_some : is_empty q.path ≡ false
  pub method_valid : valid_field q.method false ≡ true
  pub path_valid : valid_field q.path false ≡ true
  pub sendable : AllSendable (kept false q.headers)

abbrev joined : List Bytes → Bytes → Bytes
joined [] rest = rest
joined (part ∷ parts) rest = part ++ joined parts rest

pub emit_parts-ok :
    (cap : ℕ) (out : Bytes) (parts : List Bytes) (r rest : Bytes)
    → emit_parts cap out parts ≡ ok r
    → (r ++ rest ≡ out ++ joined parts rest) × (length out ≤ cap → length r ≤ cap)
unfolding emit_parts
emit_parts-ok cap out [] r rest e = let w = nothing-Wrote cap out r e in (w.bytes rest, w.fits)
emit_parts-ok cap out (part ∷ parts) r rest e =
    let (o, eo, ho) = >>=-eq-ok (buf_append cap out part) (λ o. emit_parts cap o parts) e in
    let po = buf_append-ok cap out part o eo in
    let ps = emit_parts-ok cap o parts r rest ho in
    (ps.0 ∙ rw po.0 (append_assoc out part (joined parts rest)), λ le. ps.1 (po.1 le))

-- The two writing steps behind a first line.
pub headed-ok :
    (cap : ℕ) (line : Bytes) (skip_date : Bool) (hs : List Header) (body r : Bytes)
    → (emit_headers cap skip_date line hs >>= λ o. emit_body cap o body) ≡ ok r
    → (r ≡ line ++ wires (kept skip_date hs) (wires (length_header body) (crlf ++ body)))
      × (length line ≤ cap → length r ≤ cap)
      × AllSendable (kept skip_date hs)
unfolding emit_headers
headed-ok cap line sd hs body r e =
    let (o, eo, ho) = >>=-eq-ok (emit_headers cap sd line hs) (λ o. emit_body cap o body) e in
    let (_, eg, hg) =
      >>=-eq-ok (guard (leb (length hs) max_headers) toolong) (λ _. emit_each cap sd line hs) eo in
    let w = emit_each-Wrote cap sd line hs o hg in
    let b = emit_body-ok cap o body r ho in (b.0 ∙ w.bytes _, λ le. b.1 (w.fits le), w.sendable)

written : ℕ → Request → Result Bytes
written cap q = emit_parts cap [] (request_line q) >>= λ l.
    emit_headers cap false l q.headers >>= λ o. emit_body cap o q.body

written-ok :
    (cap : ℕ) (q : Request) (r : Bytes)
    → written cap q ≡ ok r
    → (r ≡ request_wire q) × (length r ≤ cap) × AllSendable (kept false q.headers)
unfolding written
written-ok cap q r e =
    let (l, el, hl) =
      >>=-eq-ok (emit_parts cap [] (request_line q))
        (λ l. emit_headers cap false l q.headers >>= λ o. emit_body cap o q.body) e in
    let p = λ (rest : Bytes). emit_parts-ok cap [] (request_line q) l rest el in
    let w = headed-ok cap l false q.headers q.body r hl in
    (w.0 ∙ (p _).0, w.1 ((p []).1 (omega arith)), w.2)

-- Where a request is serialized, the bytes are its wire form and fit the buffer, its method and
-- path are not empty and hold no byte that would break the line, and neither does any header that
-- is written.
pub serialize_request-Sent :
    (cap : ℕ) (q : Request) (r : Bytes) → serialize_request cap q ≡ ok r → Sent cap q r
unfolding serialize_request written
serialize_request-Sent cap q r x =
    let fields = not (is_empty q.method) && not (is_empty q.path) in
    let valid = valid_field q.method false && valid_field q.path false in
    let (_, e1, h1) =
      >>=-eq-ok (guard fields malformed) (λ _. guard valid malformed >> written cap q) x in
    let (_, e2, h2) = >>=-eq-ok (guard valid malformed) (λ _. written cap q) h1 in
    let f = and-true _ _ (guard-eq-ok fields malformed e1) in
    let v = and-true _ _ (guard-eq-ok valid malformed e2) in
    let w = written-ok cap q r h2 in
    record {
      bytes = w.0;
      fits = w.1;
      method_some = not-true _ f.0;
      path_some = not-true _ f.1;
      method_valid = v.0;
      path_valid = v.1;
      sendable = w.2;
    }
