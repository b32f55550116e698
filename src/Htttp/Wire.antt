-- ===== src/Htttp/Wire.antt =====
-- What the serializers write, as one list of bytes.
use mathlib.Core.List.{append-nil, append_assoc}
use corestack.Prelude.{
  ℕ, ◌≤◌, ◌≡◌, sym, ◌∙◌, arith, Bool, true, false, not, ◌&&◌, List, [], ◌∷◌, ◌++◌, if◌then◌else◌,
  length, length-append, Bytes, codes, Bool-cases, inl, inr,
}
use corestack.Htttp.Result.{ok, malformed, ◌>>=◌, guard, >>=-eq-ok, guard-eq-ok}
use corestack.Htttp.Message.{Header, valid_field, is_empty}
use corestack.Htttp.Parse.{content_length}
use corestack.Htttp.Serialize.{
  decimal, crlf, buf_append, emit_header, emit_checked, emit_each, emit_length, emit_body, skipped,
}

-- The header lines in front of what follows them.
abbrev pub wires : List Header → Bytes → Bytes
wires [] rest = rest
wires (h ∷ hs) rest = h.key ++ (codes ": " ++ (h.value ++ (crlf ++ wires hs rest)))

-- The caller's headers that are written.
unfoldable pub kept : Bool → List Header → List Header
kept skip_date [] = []
kept skip_date (h ∷ hs) = if skipped skip_date h then kept skip_date hs else h ∷ kept skip_date hs

-- What the serializer asks of a header that it writes.
pub record IsSendable (h : Header) : Type 0 where
  pub key_some : is_empty h.key ≡ false
  pub key_valid : valid_field h.key false ≡ true
  pub value_valid : valid_field h.value true ≡ true

abbrev pub AllSendable : List Header → Type 0
AllSendable [] = Unit
AllSendable (h ∷ hs) = IsSendable h × AllSendable hs

-- The new bytes stand behind the old ones, and the buffer does not overflow.
pub buf_append-ok :
    (cap : ℕ) (out src r : Bytes)
    → buf_append cap out src ≡ ok r
    → (r ≡ out ++ src) × (length out ≤ cap → length r ≤ cap)
unfolding buf_append
buf_append-ok cap out [] r h = ground (arith, append-nil out)
buf_append-ok cap out (c ∷ src) r h = ground (arith, length-append out (c ∷ src))

pub emit_header-ok :
    (cap : ℕ) (out key value r rest : Bytes)
    → emit_header cap out key value ≡ ok r
    → (r ++ rest ≡ out ++ wires (record { key = key; value = value } ∷ []) rest)
      × (length out ≤ cap → length r ≤ cap)
unfolding emit_header
emit_header-ok cap out key value r rest h =
    let (a, ea, ha) = >>=-eq-ok (buf_append cap out key) _ h in
    let (b, eb, hb) = >>=-eq-ok (buf_append cap a (codes ": ")) _ ha in
    let (c, ec, hc) = >>=-eq-ok (buf_append cap b value) _ hb in
    let pa = buf_append-ok cap out key a ea in
    let pb = buf_append-ok cap a (codes ": ") b eb in
    let pc = buf_append-ok cap b value c ec in
    let pd = buf_append-ok cap c crlf r hc in
    (rw (pd.0, pc.0, pb.0, pa.0) (simp append_assoc), λ le. pd.1 (pc.1 (pb.1 (pa.1 le))))

pub and-true : (a b : Bool) → (a && b) ≡ true → (a ≡ true) × (b ≡ true)
and-true a b h = ground arith

pub not-true : (a : Bool) → not a ≡ true → a ≡ false
not-true a h = ground arith

emit_checked-ok :
    (cap : ℕ) (out : Bytes) (h : Header) (r rest : Bytes)
    → emit_checked cap out h ≡ ok r
    → (r ++ rest ≡ out ++ wires (h ∷ []) rest) × (length out ≤ cap → length r ≤ cap) × IsSendable h
unfolding emit_checked
emit_checked-ok cap out h r rest e =
    let (_, ea, ha) = >>=-eq-ok (guard (not (is_empty h.key)) malformed) _ e in
    let (_, eb, hb) =
      >>=-eq-ok (guard (valid_field h.key false && valid_field h.value true) malformed) _ ha in
    let valid =
      and-true _ _ (guard-eq-ok (valid_field h.key false && valid_field h.value true) _ eb) in
    let w = emit_header-ok cap out h.key h.value r rest hb in
    (
      w.0,
      w.1,
      record {
        key_some = not-true (is_empty h.key) (guard-eq-ok (not (is_empty h.key)) _ ea);
        key_valid = valid.0;
        value_valid = valid.1;
      },
    )

-- What a loop that writes headers has written.
pub record Wrote (cap : ℕ) (out : Bytes) (hs : List Header) (r : Bytes) : Type 0 where
  pub bytes : (rest : Bytes) → r ++ rest ≡ out ++ wires hs rest
  pub fits : length out ≤ cap → length r ≤ cap
  pub sendable : AllSendable hs

module _ (cap : ℕ) (skip_date : Bool) (out : Bytes) (h : Header) (hs : List Header) where
  emit_each-skip :
      skipped skip_date h ≡ true
      → emit_each cap skip_date out (h ∷ hs) ≡ emit_each cap skip_date out hs
  unfolding emit_each
  emit_each-skip s = rw s

  emit_each-keep :
      skipped skip_date h ≡ false
      → emit_each cap skip_date out (h ∷ hs)
        ≡ (emit_checked cap out h >>= λ out'. emit_each cap skip_date out' hs)
  unfolding emit_each
  emit_each-keep s = rw s

  kept-skip : skipped skip_date h ≡ true → kept skip_date (h ∷ hs) ≡ kept skip_date hs
  unfolding kept
  kept-skip s = rw s

  kept-keep : skipped skip_date h ≡ false → kept skip_date (h ∷ hs) ≡ h ∷ kept skip_date hs
  unfolding kept
  kept-keep s = rw s

pub nothing-Wrote : (cap : ℕ) (out r : Bytes) → ok out ≡ ok r → Wrote cap out [] r
nothing-Wrote cap out r e =
    let q : out ≡ r = cc in record { bytes = λ rest. rw q; fits = λ le. rw q at le; sendable = tt }

pub emit_each-Wrote :
    (cap : ℕ) (skip_date : Bool) (out : Bytes) (hs : List Header) (r : Bytes)
    → emit_each cap skip_date out hs ≡ ok r
    → Wrote cap out (kept skip_date hs) r
emit_each-Wrote cap sd out [] r e = unfold kept in nothing-Wrote cap out r (unfold emit_each in e)
emit_each-Wrote cap sd out (h ∷ hs) r e = elim (Bool-cases (skipped sd h)) [
  | inl s ↦
      rw (kept-skip cap sd out h hs s)
        (emit_each-Wrote cap sd out hs r (sym (emit_each-skip cap sd out h hs s) ∙ e))
  | inr s ↦
      let (o, ea, ha) =
        >>=-eq-ok (emit_checked cap out h) (λ o. emit_each cap sd o hs)
          (sym (emit_each-keep cap sd out h hs s) ∙ e) in
      let w = emit_each-Wrote cap sd o hs r ha in
      rw (kept-keep cap sd out h hs s) (record {
        bytes = λ rest. w.bytes rest ∙ (emit_checked-ok cap out h o (wires (kept sd hs) rest) ea).0;
        fits = λ le. w.fits ((emit_checked-ok cap out h o [] ea).1 le);
        sendable = ((emit_checked-ok cap out h o [] ea).2, w.sendable);
      })
]

-- The header that the serializer adds for a body.
abbrev pub length_header : Bytes → List Header
length_header [] = []
length_header (c ∷ body) =
    record { key = content_length; value = decimal 10 (length (c ∷ body)) } ∷ []

emit_length-some :
    (cap : ℕ) (out : Bytes) (c : ℕ) (body r : Bytes)
    → emit_length cap out (c ∷ body) ≡ ok r
    → emit_header cap out content_length (decimal 10 (length (c ∷ body))) ≡ ok r
unfolding emit_length
emit_length-some cap out c body r e = ground arith

emit_length-ok :
    (cap : ℕ) (out body r rest : Bytes)
    → emit_length cap out body ≡ ok r
    → (r ++ rest ≡ out ++ wires (length_header body) rest) × (length out ≤ cap → length r ≤ cap)
emit_length-ok cap out [] r rest e =
    let w = nothing-Wrote cap out r (unfold emit_length in e) in (w.bytes rest, w.fits)
emit_length-ok cap out (c ∷ body) r rest e =
    emit_header-ok cap out content_length (decimal 10 (length (c ∷ body))) r rest
      (emit_length-some cap out c body r e)

pub emit_body-ok :
    (cap : ℕ) (out body r : Bytes)
    → emit_body cap out body ≡ ok r
    → (r ≡ out ++ wires (length_header body) (crlf ++ body)) × (length out ≤ cap → length r ≤ cap)
unfolding emit_body
emit_body-ok cap out body r e =
    let (a, ea, ha) = >>=-eq-ok (emit_length cap out body) _ e in
    let (b, eb, hb) = >>=-eq-ok (buf_append cap a crlf) _ ha in
    let pa = emit_length-ok cap out body a (crlf ++ body) ea in
    let pb = buf_append-ok cap a crlf b eb in
    let pc = buf_append-ok cap b body r hb in
    (rw (pc.0, pb.0) (append_assoc a crlf body ∙ pa.0), λ le. pc.1 (pb.1 (pa.1 le)))
