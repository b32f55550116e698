-- ===== src/Htttp/RoundTrip.antt =====
-- A request that is serialized and parsed again.
use mathlib.Core.List.{append_assoc}
use corestack.Prelude.{
  ℕ, ◌≤◌, ◌<◌, ◌≡◌, refl, ◌∙◌, arith, true, false, List, [], ◌∷◌, ◌++◌, some, length, Bytes, codes,
  bytes_eq, bytes_eq_refl, has,
}
use corestack.Htttp.Result.{ok}
use corestack.Htttp.Message.{
  Header, Request, htttp_version, max_headers, max_method, max_path, copy_token, visible,
  valid_field, is_empty,
}
use corestack.Htttp.Parse.{cr, find_crlf, token, after_space, parse_request, parse_tail, uint32_max}
use corestack.Htttp.Serialize.{crlf, serialize_request}
use corestack.Htttp.Lines.{has-append, find_crlf-append, scan_to-append, has-every}
use corestack.Htttp.Wire.{wires, kept, length_header}
use corestack.Htttp.Sent.{serialize_request-Sent}
use corestack.Htttp.Reads.{AllReadable, has-valid_field, copy_token-fits}
use corestack.Htttp.Bodies.{header_get-kept, with_length, parse_tail-wires}

-- The request fits the structs that the parser fills.
pub record Fits (q : Request) : Type 0 where
  pub method : length q.method < max_method
  pub path : length q.path < max_path
  pub headers : AllReadable (kept false q.headers)
  pub count : length (with_length (kept false q.headers) q.body) ≤ max_headers
  pub body : length q.body ≤ uint32_max

-- The request as a receiver sees it: the length is one of its headers.
abbrev pub received : Request → Request
received q = record {
  method = q.method;
  path = q.path;
  headers = kept false q.headers ++ length_header q.body;
  body = q.body;
}

pub no_space : (s : Bytes) → valid_field s false ≡ true → has b' ' s ≡ false
unfolding valid_field
no_space s h = has-every (visible false) b' ' s h refl

pub token-append :
    (a rest : Bytes)
    → is_empty a ≡ false
    → has b' ' a ≡ false
    → token (a ++ (b' ' ∷ rest)) ≡ ok (a, rest)
unfolding token after_space
token-append a rest e h = rw (scan_to-append b' ' a rest h, token) (rw e refl)

abbrev request_text : Request → Bytes
request_text q = q.method ++ (b' ' ∷ (q.path ++ (b' ' ∷ htttp_version)))

no_cr : (s : Bytes) → valid_field s false ≡ true → has cr s ≡ false
no_cr s h = has-valid_field s false cr h (omega arith)

request_text-no_cr :
    (q : Request)
    → valid_field q.method false ≡ true
    → valid_field q.path false ≡ true
    → has cr (request_text q) ≡ false
unfolding has
request_text-no_cr q m p =
    has-append cr q.method (b' ' ∷ (q.path ++ (b' ' ∷ htttp_version)))
    ∙ rw (no_cr q.method m) (has-append cr q.path (b' ' ∷ htttp_version) ∙ rw (no_cr q.path p) refl)

request_text-wire :
    (q : Request) (rest : Bytes)
    → q.method ++ (codes " " ++ (q.path ++ (codes " " ++ (htttp_version ++ (crlf ++ rest)))))
      ≡ request_text q ++ (crlf ++ rest)
request_text-wire q rest = simp append_assoc

parse_request-steps :
    (buf line tail rest version : Bytes) (hs : List Header) (q : Request)
    → find_crlf buf ≡ some (line, tail)
    → token line ≡ ok (q.method, rest)
    → copy_token max_method q.method ≡ ok q.method
    → token rest ≡ ok (q.path, version)
    → copy_token max_path q.path ≡ ok q.path
    → bytes_eq version htttp_version ≡ true
    → parse_tail tail ≡ ok (q.headers, q.body)
    → parse_request buf ≡ ok q
unfolding parse_request
parse_request-steps buf line tail rest version hs q a b c d e f g =
    rw a (rw b (rw c (rw d (rw e (rw f (rw g refl))))))

-- Where a request was serialized into `r`, and its method, path, kept headers and body fit what
-- the parser can take, the parser reads `r` back: the method, the path, the headers that the
-- serializer keeps with the length behind them, and the body.
pub parse-serialize :
    (cap : ℕ) (q : Request) (r : Bytes)
    → serialize_request cap q ≡ ok r
    → Fits q
    → parse_request r ≡ ok (received q)
parse-serialize cap q r e f =
    let s = serialize_request-Sent cap q r e in
    let tail = wires (kept false q.headers) (wires (length_header q.body) (crlf ++ q.body)) in
    rw (s.bytes, request_text-wire q tail)
      (parse_request-steps (request_text q ++ (crlf ++ tail)) (request_text q) tail
        (q.path ++ (b' ' ∷ htttp_version)) htttp_version [] (received q)
        (find_crlf-append (request_text q) tail (request_text-no_cr q s.method_valid s.path_valid))
        (token-append q.method (q.path ++ (b' ' ∷ htttp_version)) s.method_some
          (no_space q.method s.method_valid))
        (copy_token-fits max_method q.method f.method
          (has-valid_field q.method false 0 s.method_valid (omega arith)))
        (token-append q.path htttp_version s.path_some (no_space q.path s.path_valid))
        (copy_token-fits max_path q.path f.path
          (has-valid_field q.path false 0 s.path_valid (omega arith)))
        (bytes_eq_refl htttp_version)
        (parse_tail-wires (kept false q.headers) q.body
          (header_get-kept false q.headers (length_header q.body)) f.body f.count s.sendable
          f.headers))
