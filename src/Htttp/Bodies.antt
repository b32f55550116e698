-- ===== src/Htttp/Bodies.antt =====
-- The declared length of a body, from the serializer's header to the parser's check.
use corestack.Prelude.{
  ℕ, suc, ◌+◌, ◌≤◌, ◌≡◌, refl, sym, ◌∙◌, arith, Bool, true, false, List, [], ◌∷◌, ◌++◌, none, some,
  length, length-append, Bytes, codes, every, has, Bool-cases, inl, inr,
}
use corestack.Htttp.Result.{ok}
use corestack.Htttp.Message.{Header, max_headers, ci_eq, header_get, visible, valid_field, is_empty}
use corestack.Htttp.Parse.{
  content_length, parse_headers, parse_body, parse_tail, uint32_max, parse_uint,
}
use corestack.Htttp.Serialize.{crlf, decimal, skipped}
use corestack.Htttp.Numbers.{digit, parse_uint-decimal, length-decimal, digit-decimal}
use corestack.Htttp.Wire.{wires, kept, AllSendable, length_header}
use corestack.Htttp.Reads.{AllReadable, parse_headers-wires}

get-cons :
    (h : Header) (hs : List Header) (key : Bytes)
    → ci_eq h.key key ≡ false
    → header_get (h ∷ hs) key ≡ header_get hs key
unfolding header_get
get-cons h hs key e = rw e

not_skipped :
    (skip_date : Bool) (h : Header)
    → skipped skip_date h ≡ false
    → ci_eq h.key content_length ≡ false
unfolding skipped
not_skipped sd h e = ground arith

-- The headers that are kept hide no header behind them from a search for the length.
pub header_get-kept :
    (skip_date : Bool) (hs rest : List Header)
    → header_get (kept skip_date hs ++ rest) content_length ≡ header_get rest content_length
unfolding kept
header_get-kept sd [] rest = refl
header_get-kept sd (h ∷ hs) rest = elim (Bool-cases (skipped sd h)) [
  | inl s ↦ rw s (header_get-kept sd hs rest)
  | inr s ↦ rw s (
      get-cons h (kept sd hs ++ rest) content_length (not_skipped sd h s)
      ∙ header_get-kept sd hs rest)
]

parse_body-none :
    (hs : List Header) → header_get hs content_length ≡ none → parse_body hs [] ≡ ok []
unfolding parse_body is_empty
parse_body-none hs e = rw (e, parse_body) refl

parse_body-some :
    (hs : List Header) (cl body : Bytes)
    → header_get hs content_length ≡ some cl
    → parse_uint cl ≡ ok (length body)
    → parse_body hs body ≡ ok body
unfolding parse_body
parse_body-some hs cl body e p = rw (e, parse_body) (rw p (ground arith))

get-length_header :
    (c : ℕ) (body : Bytes)
    → header_get (length_header (c ∷ body)) content_length ≡ some (decimal 10 (length (c ∷ body)))
unfolding header_get ci_eq
get-length_header c body = refl

-- The headers in front hide the length from no search for it.
abbrev pub Shows : List Header → Bytes → Type 0
Shows front body =
    header_get (front ++ length_header body) content_length
    ≡ header_get (length_header body) content_length

-- The body that the serializer writes passes the parser's check of its length.
pub parse_body-length_header :
    (front : List Header) (body : Bytes)
    → Shows front body
    → length body ≤ uint32_max
    → parse_body (front ++ length_header body) body ≡ ok body
parse_body-length_header front [] shows le =
    parse_body-none (front ++ []) (shows ∙ unfold header_get in refl)
parse_body-length_header front (c ∷ body) shows le =
    parse_body-some (front ++ length_header (c ∷ body)) (decimal 10 (length (c ∷ body))) (c ∷ body)
      (shows ∙ get-length_header c body) (parse_uint-decimal (length (c ∷ body)) le)

pub digits-visible : (s : Bytes) → every digit s ≡ true → every (visible true) s ≡ true
unfolding every
digits-visible [] e = refl
digits-visible (c ∷ s) e = ground (arith, digits-visible s)

length_header-AllSendable :
    (body : Bytes) → length body ≤ uint32_max → AllSendable (length_header body)
unfolding valid_field is_empty
length_header-AllSendable [] le = tt
length_header-AllSendable (c ∷ body) le = (
  record {
    key_some = refl;
    key_valid = unfold every in refl;
    value_valid = digits-visible _ (digit-decimal (length (c ∷ body)) le);
  },
  tt,
)

length_header-AllReadable :
    (body : Bytes) → length body ≤ uint32_max → AllReadable (length_header body)
length_header-AllReadable [] le = tt
length_header-AllReadable (c ∷ body) le = (
  record {
    key_fits = omega arith;
    value_fits = omega (arith, length-decimal (length (c ∷ body)) le);
    no_colon = unfold has in refl;
  },
  tt,
)

AllSendable-append :
    (hs ks : List Header) → AllSendable hs → AllSendable ks → AllSendable (hs ++ ks)
AllSendable-append [] ks a b = b
AllSendable-append (h ∷ hs) ks a b = (a.0, AllSendable-append hs ks a.1 b)

AllReadable-append :
    (hs ks : List Header) → AllReadable hs → AllReadable ks → AllReadable (hs ++ ks)
AllReadable-append [] ks a b = b
AllReadable-append (h ∷ hs) ks a b = (a.0, AllReadable-append hs ks a.1 b)

wires-append :
    (hs ks : List Header) (rest : Bytes) → wires (hs ++ ks) rest ≡ wires hs (wires ks rest)
wires-append [] ks rest = refl
wires-append (h ∷ hs) ks rest = rw (wires-append hs ks rest)

length-wires : (hs : List Header) (rest : Bytes) → length hs + length rest ≤ length (wires hs rest)
length-wires [] rest = omega arith
length-wires (h ∷ hs) rest = omega (
  arith,
  length-wires hs rest,
  length-append h.key (codes ": " ++ (h.value ++ (crlf ++ wires hs rest))),
  length-append h.value (crlf ++ wires hs rest),
)

parse_tail-ok :
    (buf body b : Bytes) (hs : List Header)
    → parse_headers (suc (length buf)) [] buf ≡ ok (hs, body)
    → parse_body hs body ≡ ok b
    → parse_tail buf ≡ ok (hs, b)
unfolding parse_tail
parse_tail-ok buf body b hs e f = rw e (rw f)

module _ (front : List Header) (body : Bytes) where
  abbrev pub with_length : List Header
  with_length = front ++ length_header body

  -- What follows the first line of a message is read back.
  pub parse_tail-wires :
      Shows front body
      → length body ≤ uint32_max
      → length with_length ≤ max_headers
      → AllSendable front
      → AllReadable front
      → parse_tail (wires front (wires (length_header body) (crlf ++ body)))
        ≡ ok (with_length, body)
  parse_tail-wires shows le n s v =
      rw (sym (wires-append front (length_header body) (crlf ++ body))) (
        parse_tail-ok (wires with_length (crlf ++ body)) body body with_length
          (parse_headers-wires _ [] with_length body
            (omega (arith, length-wires with_length (crlf ++ body))) (omega arith)
            (AllSendable-append _ _ s (length_header-AllSendable body le))
            (AllReadable-append _ _ v (length_header-AllReadable body le)))
          (parse_body-length_header front body shows le))
