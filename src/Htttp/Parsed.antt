-- ===== src/Htttp/Parsed.antt =====
-- What the parsers accept: a message that fits its struct, with the declared length of its body.
use mathlib.Core.Path.{subst}
use corestack.Prelude.{
  ℕ, zero, suc, ◌≤◌, ◌<◌, ◌≡◌, refl, sym, ap, ◌∙◌, ◌⊎◌, inl, inr, arith, Bool, true, false, not,
  List, [], ◌∷◌, ◌++◌, Option, none, some, ◌==◌, if◌then◌else◌, ltb, ltb→lt, length, length-append,
  Bytes, bytes_eq, Bool-cases, Option-cases,
}
use corestack.Htttp.Result.{
  Result, Error, ok, err, malformed, toolong, length_error, ◌>>=◌, ◌>>◌, guard, or_fail, >>=-eq-ok,
  guard-eq-ok,
}
use corestack.Htttp.Message.{
  htttp_version, Header, Request, max_method, max_path, max_headers, max_key, max_value, header_get,
  copy_token, is_empty,
}
use corestack.Htttp.Parse.{
  find_crlf, scan_to, after_colon, parse_header, parse_headers, content_length, parse_uint,
  parse_body, parse_tail, found, token, parse_request,
}

-- The string fits a field of `cap` bytes with its terminator.
abbrev pub FitsField : ℕ → Bytes → Type 0
FitsField cap s = length s < cap

copy_token-ok : (cap : ℕ) (s t : Bytes) → copy_token cap s ≡ ok t → length t < cap
unfolding copy_token
copy_token-ok cap s t h = ground arith

abbrev pub AllFit : List Header → Type 0
AllFit [] = Unit
AllFit (h ∷ hs) = (length h.key < max_key × length h.value < max_value) × AllFit hs

AllFit-append :
    (hs : List Header) (h : Header)
    → AllFit hs
    → length h.key < max_key × length h.value < max_value
    → AllFit (hs ++ (h ∷ []))
AllFit-append [] h a b = (b, tt)
AllFit-append (x ∷ hs) h a b = (a.0, AllFit-append hs h a.1 b)

parse_header-fits :
    (n : ℕ) (line : Bytes) (h : Header)
    → parse_header n line ≡ ok h
    → (n < max_headers) × (length h.key < max_key × length h.value < max_value)
unfolding parse_header
parse_header-fits n line h e =
    let (_, e1, h1) = >>=-eq-ok (guard (not (is_empty (scan_to b':' line).0)) malformed) _ e in
    let (value, e2, h2) = >>=-eq-ok (after_colon (scan_to b':' line).1) _ h1 in
    let (_, e3, h3) = >>=-eq-ok (guard (ltb n max_headers) toolong) _ h2 in
    let (k, e4, h4) = >>=-eq-ok (copy_token max_key (scan_to b':' line).0) _ h3 in
    let (v, e5, h5) = >>=-eq-ok (copy_token max_value value) _ h4 in
    let q : record { key = k; value = v } ≡ h = cc in
    (
      ltb→lt n max_headers (guard-eq-ok (ltb n max_headers) toolong e3),
      subst (λ x. length x.key < max_key × length x.value < max_value) q
          (copy_token-ok max_key (scan_to b':' line).0 k e4, copy_token-ok max_value value v e5),
    )

-- The headers that a loop has read fit the struct.
abbrev pub Bounded : List Header → Type 0
Bounded hs = AllFit hs × (length hs ≤ max_headers)

Bounded-append :
    (acc : List Header) (line : Bytes) (h : Header)
    → Bounded acc
    → parse_header (length acc) line ≡ ok h
    → Bounded (acc ++ (h ∷ []))
Bounded-append acc line h b e =
    let f = parse_header-fits (length acc) line h e in
    (AllFit-append acc h b.0 f.1, omega (arith, f.0, length-append acc (h ∷ [])))

-- What one round of the loop does.
abbrev pub round : ℕ → List Header → Option (Bytes × Bytes) → Result (List Header × Bytes)
round fuel acc none = err malformed
round fuel acc (some (line, rest)) = elim (is_empty line) [
  | true ↦ ok (acc, rest)
  | false ↦ do h ← parse_header (length acc) line; parse_headers fuel (acc ++ (h ∷ [])) rest
]

pub parse_headers-round :
    (fuel : ℕ) (acc : List Header) (buf : Bytes)
    → parse_headers (suc fuel) acc buf ≡ round fuel acc (find_crlf buf)
unfolding parse_headers
parse_headers-round fuel acc buf = elim (Option-cases (find_crlf buf)) [
  | inl e ↦ rw (e, parse_headers) refl
  | inr (p, e) ↦ rw (e, parse_headers) refl
]

-- A loop with this fuel gives only headers that fit.
abbrev KeepsBounds : ℕ → Type 0
KeepsBounds fuel =
    (acc : List Header) (buf body : Bytes) (hs : List Header)
    → parse_headers fuel acc buf ≡ ok (hs, body)
    → Bounded acc
    → Bounded hs

line-Bounded :
    (fuel : ℕ) (acc hs : List Header) (line rest body : Bytes) (t : Bool)
    → KeepsBounds fuel
    → Bounded acc
    → (elim t [
      | true ↦ ok (acc, rest)
      | false ↦ parse_header (length acc) line >>= λ h. parse_headers fuel (acc ++ (h ∷ [])) rest
    ])
      ≡ ok (hs, body)
    → Bounded hs
line-Bounded fuel acc hs line rest body true ih b e = let q : acc ≡ hs = cc in subst Bounded q b
line-Bounded fuel acc hs line rest body false ih b e =
    let (h, eh, f) =
      >>=-eq-ok (parse_header (length acc) line) (λ h. parse_headers fuel (acc ++ (h ∷ [])) rest)
        e in
    ih (acc ++ (h ∷ [])) rest body hs f (Bounded-append acc line h b eh)

round-Bounded :
    (fuel : ℕ) (acc hs : List Header) (body : Bytes) (o : Option (Bytes × Bytes))
    → KeepsBounds fuel
    → Bounded acc
    → round fuel acc o ≡ ok (hs, body)
    → Bounded hs
round-Bounded fuel acc hs body none ih b e = absurd cc
round-Bounded fuel acc hs body (some (line, rest)) ih b e =
    line-Bounded fuel acc hs line rest body (is_empty line) ih b e

parse_headers-Bounded : (fuel : ℕ) → KeepsBounds fuel
parse_headers-Bounded zero acc buf body hs e b = absurd (unfold parse_headers in cc)
parse_headers-Bounded (suc fuel) acc buf body hs e b =
    round-Bounded fuel acc hs body (find_crlf buf) (parse_headers-Bounded fuel) b
      (sym (parse_headers-round fuel acc buf) ∙ e)

-- The body against the header that declares it.
abbrev pub Declares : List Header → Bytes → Type 0
Declares hs body =
    ((header_get hs content_length ≡ none) × (body ≡ []))
    ⊎ ((cl : Bytes) × (header_get hs content_length ≡ some cl) × (parse_uint cl ≡ ok (length body)))

-- The parts of an accepted request.
pub record IsParsed (q : Request) : Type 0 where
  pub method : length q.method < max_method
  pub path : length q.path < max_path
  pub headers : Bounded q.headers
  pub body : Declares q.headers q.body

is_empty-nil : (s : Bytes) → is_empty s ≡ true → s ≡ []
unfolding is_empty
is_empty-nil [] e = refl
is_empty-nil (c ∷ s) e = cc

abbrev pub body_for : Bytes → Option Bytes → Result Bytes
body_for remaining none = if is_empty remaining then ok [] else err length_error
body_for remaining (some cl) = or_fail malformed (parse_uint cl) >>= λ declared.
    guard (declared == length remaining) length_error >> ok remaining

pub parse_body-for :
    (hs : List Header) (remaining : Bytes)
    → parse_body hs remaining ≡ body_for remaining (header_get hs content_length)
unfolding parse_body
parse_body-for hs remaining = elim (Option-cases (header_get hs content_length)) [
  | inl e ↦ rw (e, parse_body) refl
  | inr (cl, e) ↦ rw (e, parse_body) refl
]

or_fail-ok {ℓ} : {A : Type ℓ} (e : Error) (r : Result A) (a : A) → or_fail e r ≡ ok a → r ≡ ok a
or_fail-ok e (ok b) a h = h
or_fail-ok e (err x) a h = absurd cc

body_for-Declares :
    (hs : List Header) (remaining body : Bytes) (o : Option Bytes)
    → header_get hs content_length ≡ o
    → body_for remaining o ≡ ok body
    → Declares hs body
body_for-Declares hs remaining body none g e = elim (Bool-cases (is_empty remaining)) [
  | inl z ↦ let q : ok [] ≡ ok body = simp z at e in inl (g, cc)
  | inr z ↦ absurd (ground (arith, z, e))
]
body_for-Declares hs remaining body (some cl) g e =
    let (n, en, hn) =
      >>=-eq-ok (or_fail malformed (parse_uint cl))
        (λ declared. guard (declared == length remaining) length_error >> ok remaining) e in
    let (_, eg, hg) =
      >>=-eq-ok (guard (n == length remaining) length_error) (λ _. ok remaining) hn in
    let size : n ≡ length remaining =
      ground (arith, guard-eq-ok (n == length remaining) length_error eg) in
    let same : remaining ≡ body = cc in
    inr (cl, g, or_fail-ok malformed (parse_uint cl) n en ∙ ap ok (size ∙ ap length same))

parse_body-Declares :
    (hs : List Header) (remaining body : Bytes)
    → parse_body hs remaining ≡ ok body
    → Declares hs body
parse_body-Declares hs remaining body e =
    body_for-Declares hs remaining body (header_get hs content_length) refl
      (sym (parse_body-for hs remaining) ∙ e)

parse_tail-parsed :
    (buf : Bytes) (hs : List Header) (body : Bytes)
    → parse_tail buf ≡ ok (hs, body)
    → Bounded hs × Declares hs body
unfolding parse_tail
parse_tail-parsed buf hs body e =
    let (p, ep, hp) =
      >>=-eq-ok (parse_headers (suc (length buf)) [] buf)
        (λ p. parse_body p.0 p.1 >>= λ body. ok (p.0, body)) e in
    let (b, eb, hb) = >>=-eq-ok (parse_body p.0 p.1) (λ body. ok (p.0, body)) hp in
    let same_hs : p.0 ≡ hs = ap_fst hb in
    let same_body : b ≡ body = ap_snd hb in
    (
      subst Bounded same_hs
          (parse_headers-Bounded (suc (length buf)) [] buf p.1 p.0 ep (tt, omega arith)),
      subst (λ h. Declares h body) same_hs
          (subst (Declares p.0) same_body (parse_body-Declares p.0 p.1 b eb)),
    )
  where
    value_of : List Header × Bytes → Result (List Header × Bytes) → List Header × Bytes
    value_of d (ok x) = x
    value_of d (err x) = d

    ap_fst : {p q : List Header × Bytes} → ok p ≡ ok q → p.0 ≡ q.0
    ap_fst {p} {q} h = ap (λ r. (value_of p r).0) h

    ap_snd : {p q : List Header × Bytes} → ok p ≡ ok q → p.1 ≡ q.1
    ap_snd {p} {q} h = ap (λ r. (value_of p r).1) h

-- A request that the parser accepts fits its struct: the method and the path with their terminators,
-- at most 32 headers whose keys and values fit; and the length of its body is the one that it
-- declares, or the body is empty and none is declared.
pub parse_request-IsParsed : (buf : Bytes) (q : Request) → parse_request buf ≡ ok q → IsParsed q
unfolding parse_request
parse_request-IsParsed buf q e =
    let (l, e1, h1) = >>=-eq-ok (found (find_crlf buf)) _ e in
    let (m, e2, h2) = >>=-eq-ok (token l.0) _ h1 in
    let (method, e3, h3) = >>=-eq-ok (or_fail toolong (copy_token max_method m.0)) _ h2 in
    let (p, e4, h4) = >>=-eq-ok (token m.1) _ h3 in
    let (path, e5, h5) = >>=-eq-ok (or_fail toolong (copy_token max_path p.0)) _ h4 in
    let (_, e6, h6) = >>=-eq-ok (guard (bytes_eq p.1 htttp_version) malformed) _ h5 in
    let (t, e7, h7) = >>=-eq-ok (parse_tail l.1) _ h6 in
    let parts = parse_tail-parsed l.1 t.0 t.1 e7 in
    let same : record { method = method; path = path; headers = t.0; body = t.1 } ≡ q = cc in
    subst IsParsed same (record {
      method = copy_token-ok max_method m.0 method (or_fail-ok toolong _ method e3);
      path = copy_token-ok max_path p.0 path (or_fail-ok toolong _ path e5);
      headers = parts.0;
      body = parts.1;
    })
