-- ===== src/Ballot/Payload.antt =====
-- A ballot through the body of its message: the lines that `bcl_encode_request` of codec.c writes for
-- CAST and UPDATE, as `bcl_decode_request` reads them.
use corestack.Prelude.Opt.{>>=-eq-some}
use corestack.Prelude.{
  ℕ, ◌+◌, ◌*◌, ◌≤◌, ◌≡◌, refl, sym, ap, ◌∙◌, arith, Bool, true, false, ◌&&◌, [], ◌∷◌, ◌++◌, none,
  some, Bytes, codes, leb, ltb, if◌then◌else◌, length, every, every-append, take, length-take,
  bytes_eq, has, Bool-cases, inl, inr,
}
use mathlib.Core.List.{append-nil}
use corestack.Htttp.Message.{is_empty}
use corestack.Ballot.{bb_nonce_len, bb_cert_len, bb_ciphertext_max, BbBallot, BclRequest, fit}
use corestack.Ballot.Digits.{
  plain, byte, length-hex_digits, plain-hex_digits, hex_decode-hex_digits,
}
use corestack.Ballot.Hex.{hex_digits, hex_encode, hex_decode}
use corestack.Ballot.Body.{body_append, field, body_lines, for_lines, body_for_each}
use corestack.Ballot.Lines.{body_append-some, body_lines-line, key_value-line, take-all}
use corestack.Ballot.Encode.{ballot_body}
use corestack.Ballot.Decode.{BallotCtx, ballot_kv, with_payload, decode_ballot}

hex_encode-some :
    (s : Bytes) (cap : ℕ) (hex : Bytes)
    → hex_encode s cap ≡ some hex
    → (ltb cap (length s * 2 + 1) ≡ false) × (hex ≡ hex_digits s)
unfolding hex_encode
hex_encode-some s cap hex e = held (ltb cap (length s * 2 + 1)) refl e
  where
    held :
        (full : Bool)
        → ltb cap (length s * 2 + 1) ≡ full
        → (if full then none else some (hex_digits s)) ≡ some hex
        → (ltb cap (length s * 2 + 1) ≡ false) × (hex ≡ hex_digits s)
    held true f e = absurd cc
    held false f e = (f, cc)

-- What the body is, and that the payload is within its field.
pub ballot_body-some :
    (ballot : BbBallot) (body : Bytes)
    → ballot_body ballot ≡ some body
    → (length ballot.payload ≤ bb_ciphertext_max)
      × (body
          ≡ field (codes "nonce") ballot.nonce
            ++ field (codes "payload") (hex_digits ballot.payload))
unfolding ballot_body
ballot_body-some ballot body e =
    let (a, ea, e1) = >>=-eq-some (body_append [] (field (codes "nonce") ballot.nonce)) _ body e in
    let (hex, eh, e2) =
      >>=-eq-some (hex_encode ballot.payload (bb_ciphertext_max * 2 + 1)) _ body e1 in
    let (fits, same) = hex_encode-some ballot.payload (bb_ciphertext_max * 2 + 1) hex eh in
    (
      ground (arith, fits),
      body_append-some a (field (codes "payload") hex) body e2
          ∙ ap (λ s. s ++ field (codes "payload") hex)
              (body_append-some [] (field (codes "nonce") ballot.nonce) a ea)
          ∙ ap (λ s. field (codes "nonce") ballot.nonce ++ field (codes "payload") s) same,
    )

-- A field at the front of a body is its first line.
body_lines-field :
    (key v rest : Bytes)
    → every plain key ≡ true
    → every plain v ≡ true
    → body_lines (field key v ++ rest) ≡ (key ++ (b'=' ∷ v)) ∷ body_lines rest
unfolding every
body_lines-field key v rest k h =
    ap body_lines (reshaped key)
    ∙ body_lines-line (key ++ (b'=' ∷ v)) rest (every-append plain key (b'=' ∷ v) ∙ both)
  where
    inner : (v : Bytes) → (v ++ (10 ∷ [])) ++ rest ≡ v ++ (10 ∷ rest)
    inner [] = refl
    inner (c ∷ v) = ap (λ s. c ∷ s) (inner v)

    reshaped : (key : Bytes) → field key v ++ rest ≡ (key ++ (b'=' ∷ v)) ++ (10 ∷ rest)
    reshaped [] = ap (λ s. b'=' ∷ s) (inner v)
    reshaped (c ∷ key) = ap (λ s. c ∷ s) (reshaped key)

    both : (every plain key && every plain (b'=' ∷ v)) ≡ true
    both = ground (arith, k, h)

ballot_lines :
    (ballot : BbBallot)
    → every plain ballot.nonce ≡ true
    → every byte ballot.payload ≡ true
    → body_lines
        (field (codes "nonce") ballot.nonce ++ field (codes "payload") (hex_digits ballot.payload))
      ≡ (codes "nonce" ++ (b'=' ∷ ballot.nonce))
        ∷ (codes "payload" ++ (b'=' ∷ hex_digits ballot.payload))
        ∷ []
unfolding body_lines every
ballot_lines ballot n p =
    body_lines-field (codes "nonce") ballot.nonce _ refl n
    ∙ ap (λ ls. (codes "nonce" ++ (b'=' ∷ ballot.nonce)) ∷ ls)
        (ap body_lines (sym (append-nil (field (codes "payload") (hex_digits ballot.payload))))
          ∙ body_lines-field (codes "payload") (hex_digits ballot.payload) [] refl
              (plain-hex_digits ballot.payload p))

ballot_read :
    (ballot : BbBallot) (c : BallotCtx)
    → every plain ballot.nonce ≡ true
    → every byte ballot.payload ≡ true
    → for_lines ballot_kv
        ((codes "nonce" ++ (b'=' ∷ ballot.nonce))
          ∷ (codes "payload" ++ (b'=' ∷ hex_digits ballot.payload))
          ∷ [])
        c
      ≡ with_payload
          (hex_decode (take 319 (hex_digits ballot.payload)) bb_ciphertext_max)
          (record c {
            ballot = record c.ballot { nonce = fit bb_nonce_len (take 319 ballot.nonce) };
          })
unfolding for_lines ballot_kv bytes_eq every has is_empty
ballot_read ballot c n p =
    rw
      (
        key_value-line (codes "nonce") ballot.nonce refl n,
        key_value-line (codes "payload") (hex_digits ballot.payload) refl
            (plain-hex_digits ballot.payload p),
      )
      refl

-- What the reader makes of the hex text.
payload_read :
    (s : Bytes)
    → every byte s ≡ true
    → hex_decode (take 319 (hex_digits s)) bb_ciphertext_max
      ≡ (if leb (length s) 159 then some s else none)
unfolding hex_decode
payload_read s h = elim (Bool-cases (leb (length s) 159)) [
  | inl short ↦
      rw (short, take-all 319 (hex_digits s) (small short))
        (hex_decode-hex_digits s bb_ciphertext_max h (ground (arith, short)))
  | inr long ↦
      let odd : length (take 319 (hex_digits s)) ≡ 319 =
        length-take 319 (hex_digits s) ∙ omega (arith, length-hex_digits s, big long) in
      rw (long, odd) refl
]
  where
    small : leb (length s) 159 ≡ true → length (hex_digits s) ≤ 319
    small e = let le : length s ≤ 159 = ground arith in omega (arith, length-hex_digits s, le)

    big : leb (length s) 159 ≡ false → 160 ≤ length s
    big e = ground arith

-- A ballot whose nonce is plain text that fits its field, and whose payload is bytes, is read back
-- from the body that CAST and UPDATE write, with the certificate of the request, where its payload
-- has 159 bytes at most. From a body with a longer payload the reader makes no ballot.
pub decode_ballot-ballot_body :
    (ballot : BbBallot) (body : Bytes) (req : BclRequest)
    → every plain ballot.nonce ≡ true
    → ltb (length ballot.nonce) bb_nonce_len ≡ true
    → every byte ballot.payload ≡ true
    → ballot_body ballot ≡ some body
    → decode_ballot body req ≡ (
        if leb (length ballot.payload) 159
        then some
            (record req { ballot = record ballot { cert_name = fit bb_cert_len req.cert_name } })
        else none)
unfolding decode_ballot body_for_each
decode_ballot-ballot_body ballot body req n short p e =
    rw
      (
        (ballot_body-some ballot body e).1,
        ballot_lines ballot n p,
        ballot_read ballot _ n p,
        payload_read ballot.payload p,
        take-all 319 ballot.nonce (ground (arith, short)),
        take-all 32 ballot.nonce (ground (arith, short)),
      )
      (judged (leb (length ballot.payload) 159))
  where
    heard : Bool → BallotCtx
    heard b = with_payload (if b then some ballot.payload else none) (record {
      ballot = record req.ballot {
        cert_name = fit bb_cert_len req.cert_name;
        nonce = ballot.nonce;
      };
      got_payload = false;
    })

    judged :
        (b : Bool)
        → (if (heard b).got_payload then some (record req { ballot = (heard b).ballot }) else none)
          ≡ (if b
              then some (record req {
                ballot = record ballot { cert_name = fit bb_cert_len req.cert_name };
              })
              else none)
    judged true = refl
    judged false = refl
