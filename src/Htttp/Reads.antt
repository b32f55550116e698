-- ===== src/Htttp/Reads.antt =====
-- How the parsers read header lines that a serializer wrote.
use mathlib.Core.List.{append-nil, append_assoc}
use corestack.Prelude.{
  ℕ, zero, suc, ◌+◌, ◌≤◌, ◌<◌, ◌≡◌, refl, sym, ◌∙◌, ap, arith, Bool, true, false, List, [], ◌∷◌,
  ◌++◌, some, length, length-append, Bytes, codes, has,
}
use corestack.Htttp.Result.{ok}
use corestack.Htttp.Message.{
  Header, max_headers, max_key, max_value, copy_token, visible, valid_field, is_empty,
}
use corestack.Htttp.Parse.{cr, find_crlf, after_colon, parse_header, parse_headers}
use corestack.Htttp.Serialize.{crlf}
use corestack.Htttp.Lines.{has-append, find_crlf-append, scan_to-append, has-every}
use corestack.Htttp.Wire.{wires, IsSendable, AllSendable}

-- The header fits the fields of `htttp_header_t`, and its key holds no colon.
pub record IsReadable (h : Header) : Type 0 where
  pub key_fits : length h.key < max_key
  pub value_fits : length h.value < max_value
  pub no_colon : has b':' h.key ≡ false

abbrev pub AllReadable : List Header → Type 0
AllReadable [] = Unit
AllReadable (h ∷ hs) = IsReadable h × AllReadable hs

-- No byte of a valid field is a control byte.
pub has-valid_field :
    (s : Bytes) (space : Bool) (c : ℕ) → valid_field s space ≡ true → c < b' ' → has c s ≡ false
unfolding valid_field
has-valid_field s space c h lt = has-every (visible space) c s h (ground arith)

pub copy_token-fits :
    (cap : ℕ) (s : Bytes) → length s < cap → has 0 s ≡ false → copy_token cap s ≡ ok s
unfolding copy_token
copy_token-fits cap s h e = ground arith

abbrev line_of : Header → Bytes
line_of h = h.key ++ (codes ": " ++ h.value)

line_of-wires :
    (h : Header) (hs : List Header) (rest : Bytes)
    → wires (h ∷ hs) rest ≡ line_of h ++ (crlf ++ wires hs rest)
line_of-wires h hs rest = sym (append_assoc h.key (codes ": " ++ h.value) (crlf ++ wires hs rest))

line_of-no_cr : (h : Header) → IsSendable h → has cr (line_of h) ≡ false
unfolding has
line_of-no_cr h s =
    has-append cr h.key (codes ": " ++ h.value)
    ∙ rw (has-valid_field h.key false cr s.key_valid (omega arith))
        (has-valid_field h.value true cr s.value_valid (omega arith))

is_empty-append : (a b : Bytes) → is_empty a ≡ false → is_empty (a ++ b) ≡ false
unfolding is_empty
is_empty-append [] b h = cc
is_empty-append (x ∷ a) b h = refl

parse_header-line_of :
    (n : ℕ) (h : Header)
    → n < max_headers
    → IsSendable h
    → IsReadable h
    → parse_header n (line_of h) ≡ ok h
unfolding parse_header after_colon
parse_header-line_of n h lt s v = ground (
  arith,
  scan_to-append b':' h.key (b' ' ∷ h.value) v.no_colon,
  copy_token-fits max_key h.key v.key_fits
      (has-valid_field h.key false 0 s.key_valid (omega arith)),
  copy_token-fits max_value h.value v.value_fits
      (has-valid_field h.value true 0 s.value_valid (omega arith)),
)

parse_headers-line :
    (fuel : ℕ) (acc : List Header) (buf line rest : Bytes) (h : Header)
    → find_crlf buf ≡ some (line, rest)
    → is_empty line ≡ false
    → parse_header (length acc) line ≡ ok h
    → parse_headers (suc fuel) acc buf ≡ parse_headers fuel (acc ++ (h ∷ [])) rest
unfolding parse_headers
parse_headers-line fuel acc buf line rest h e f g = rw (e, parse_headers) (rw f (rw g))

parse_headers-blank :
    (fuel : ℕ) (acc : List Header) (body : Bytes)
    → parse_headers (suc fuel) acc (crlf ++ body) ≡ ok (acc, body)
unfolding parse_headers find_crlf is_empty
parse_headers-blank fuel acc body = refl

-- With a round for each header and one more, and no more headers than the struct holds, the header
-- loop reads back header lines that passed the serializer's checks and fit the parser's fields,
-- and what follows the blank line.
pub parse_headers-wires :
    (fuel : ℕ) (acc hs : List Header) (body : Bytes)
    → length hs < fuel
    → length acc + length hs ≤ max_headers
    → AllSendable hs
    → AllReadable hs
    → parse_headers fuel acc (wires hs (crlf ++ body)) ≡ ok (acc ++ hs, body)
parse_headers-wires zero acc hs body f l s v = absurd (omega arith)
parse_headers-wires (suc fuel) acc [] body f l s v =
    parse_headers-blank fuel acc body ∙ rw append-nil
parse_headers-wires (suc fuel) acc (h ∷ hs) body f l s v =
    parse_headers-line fuel acc (wires (h ∷ hs) (crlf ++ body)) (line_of h)
      (wires hs (crlf ++ body)) h
      (ap find_crlf (line_of-wires h hs (crlf ++ body))
        ∙ find_crlf-append (line_of h) (wires hs (crlf ++ body)) (line_of-no_cr h s.0))
      (is_empty-append h.key (codes ": " ++ h.value) s.0.key_some)
      (parse_header-line_of (length acc) h (omega arith) s.0 v.0)
    ∙ parse_headers-wires fuel (acc ++ (h ∷ [])) hs body (omega arith)
        (omega (arith, length-append acc (h ∷ []))) s.1 v.1
    ∙ rw (append_assoc acc (h ∷ []) hs)
