-- ===== src/Htttp/Ends.antt =====
-- The header loop ends before its fuel is spent, so no parse runs out of it.
use corestack.Prelude.{
  ℕ, zero, suc, ◌<◌, ◌≡◌, ◌≢◌, refl, sym, ap, ◌∙◌, arith, Bool, true, false, not, List, [], ◌∷◌,
  ◌++◌, Option, none, some, ltb, length, Bytes, bytes_eq, within, ◌==◌,
}
use corestack.Htttp.Result.{
  Result, Error, ok, err, out_of_fuel, malformed, toolong, length_error, ◌>>=◌, guard, or_fail,
}
use corestack.Htttp.Message.{
  htttp_version, Header, max_method, max_path, max_headers, max_key, max_value, copy_token,
  is_empty,
}
use corestack.Htttp.Parse.{
  find_crlf, scan_to, after_colon, parse_header, parse_headers, parse_uint, parse_body, parse_tail,
  found, after_space, token, parse_request, strip, parse_response,
}
use corestack.Htttp.Lines.{length-find_crlf}
use corestack.Htttp.Parsed.{round, parse_headers-round, body_for, parse_body-for}

abbrev is_real : Error → Bool
is_real out_of_fuel = false
is_real _ = true

abbrev ends {ℓ} : {A : Type ℓ} → Result A → Bool
ends (ok a) = true
ends (err e) = is_real e

module _ {ℓ κ} {A : Type ℓ} {B : Type κ} where
  >>=-ends :
      (m : Result A) (f : A → Result B)
      → ends m ≡ true
      → ((a : A) → ends (f a) ≡ true)
      → ends (m >>= f) ≡ true
  >>=-ends (ok a) f e h = h a
  >>=-ends (err x) f e h = e

guard-ends : (b : Bool) (e : Error) → is_real e ≡ true → ends (guard b e) ≡ true
guard-ends true e h = refl
guard-ends false e h = h

or_fail-ends {ℓ} :
    {A : Type ℓ} (e : Error) (r : Result A) → is_real e ≡ true → ends (or_fail e r) ≡ true
or_fail-ends e (ok a) h = refl
or_fail-ends e (err x) h = h

copy_token-ends : (cap : ℕ) (s : Bytes) → ends (copy_token cap s) ≡ true
unfolding copy_token
copy_token-ends cap s = ground arith

after_colon-ends : (s : Bytes) → ends (after_colon s) ≡ true
unfolding after_colon
after_colon-ends [] = refl
after_colon-ends (a ∷ []) = refl
after_colon-ends (a ∷ b ∷ s) = ground arith

parse_header-ends : (n : ℕ) (line : Bytes) → ends (parse_header n line) ≡ true
unfolding parse_header
parse_header-ends n line =
    >>=-ends (guard (not (is_empty (scan_to b':' line).0)) malformed) _
      (guard-ends _ malformed refl)
      (λ _.
        >>=-ends (after_colon (scan_to b':' line).1) _ (after_colon-ends (scan_to b':' line).1)
          (λ value. >>=-ends (guard (ltb n max_headers) toolong) _ (guard-ends _ toolong refl) (λ _.
            >>=-ends (copy_token max_key (scan_to b':' line).0) _ (copy_token-ends max_key _) (λ k.
              >>=-ends (copy_token max_value value) _ (copy_token-ends max_value value)
                (λ v. refl)))))

abbrev LoopEnds : ℕ → Type 0
LoopEnds fuel =
    (acc : List Header) (buf : Bytes) → length buf < fuel → ends (parse_headers fuel acc buf) ≡ true

line-ends :
    (fuel : ℕ) (acc : List Header) (line rest : Bytes) (t : Bool)
    → LoopEnds fuel
    → length rest < fuel
    → ends (elim t as (λ _. Result (List Header × Bytes)) [
      | true ↦ ok (acc, rest)
      | false ↦ parse_header (length acc) line >>= λ h. parse_headers fuel (acc ++ (h ∷ [])) rest
    ])
      ≡ true
line-ends fuel acc line rest true ih lt = refl
line-ends fuel acc line rest false ih lt =
    >>=-ends (parse_header (length acc) line) (λ h. parse_headers fuel (acc ++ (h ∷ [])) rest)
      (parse_header-ends (length acc) line) (λ h. ih (acc ++ (h ∷ [])) rest lt)

round-ends :
    (fuel : ℕ) (acc : List Header) (buf : Bytes) (o : Option (Bytes × Bytes))
    → LoopEnds fuel
    → find_crlf buf ≡ o
    → length buf < suc fuel
    → ends (round fuel acc o) ≡ true
round-ends fuel acc buf none ih e lt = refl
round-ends fuel acc buf (some (line, rest)) ih e lt =
    line-ends fuel acc line rest (is_empty line) ih
      (omega (arith, length-find_crlf buf line rest e))

parse_headers-ends : (fuel : ℕ) → LoopEnds fuel
parse_headers-ends zero acc buf lt = absurd (omega arith)
parse_headers-ends (suc fuel) acc buf lt =
    rw (parse_headers-round fuel acc buf)
      (round-ends fuel acc buf (find_crlf buf) (parse_headers-ends fuel) refl lt)

body_for-ends : (remaining : Bytes) (o : Option Bytes) → ends (body_for remaining o) ≡ true
body_for-ends remaining none = ground arith
body_for-ends remaining (some cl) =
    >>=-ends (or_fail malformed (parse_uint cl)) _ (or_fail-ends malformed (parse_uint cl) refl)
      (λ n.
        >>=-ends (guard (n == length remaining) length_error) _ (guard-ends _ length_error refl)
          (λ _. refl))

parse_tail-ends : (buf : Bytes) → ends (parse_tail buf) ≡ true
unfolding parse_tail
parse_tail-ends buf =
    >>=-ends (parse_headers (suc (length buf)) [] buf) _
      (parse_headers-ends (suc (length buf)) [] buf (omega arith))
      (λ p.
        >>=-ends (parse_body p.0 p.1) _ (ap ends (parse_body-for p.0 p.1) ∙ body_for-ends p.1 _)
          (λ b. refl))

found-ends : (o : Option (Bytes × Bytes)) → ends (found o) ≡ true
found-ends none = refl
found-ends (some p) = refl

after_space-ends : (s : Bytes) → ends (after_space s) ≡ true
unfolding after_space
after_space-ends [] = refl
after_space-ends (c ∷ s) = refl

token-ends : (line : Bytes) → ends (token line) ≡ true
unfolding token
token-ends line =
    >>=-ends (guard (not (is_empty (scan_to b' ' line).0)) malformed) _
      (guard-ends _ malformed refl)
      (λ _. >>=-ends (after_space (scan_to b' ' line).1) _ (after_space-ends _) (λ r. refl))

strip-ends : (p line : Bytes) → ends (strip p line) ≡ true
unfolding strip
strip-ends [] line = refl
strip-ends (x ∷ p) [] = refl
strip-ends (x ∷ p) (y ∷ line) = ground (arith, strip-ends p line)

ends-fuel {ℓ} : {A : Type ℓ} (r : Result A) → ends r ≡ true → r ≢ err out_of_fuel
ends-fuel r e h = cc_false (sym e ∙ ap ends h)
  where
    cc_false : true ≡ false → ⊥
    cc_false x = cc

-- Neither parser ever runs out of fuel: each ends with a message or one of the library's errors.
pub parsers-end :
    (buf : Bytes) → (parse_request buf ≢ err out_of_fuel) × (parse_response buf ≢ err out_of_fuel)
unfolding parse_request parse_response
parsers-end buf = (
  ends-fuel (parse_request buf) (
      >>=-ends (found (find_crlf buf)) _ (found-ends _) (λ l.
        >>=-ends (token l.0) _ (token-ends l.0) (λ m.
          >>=-ends (or_fail toolong (copy_token max_method m.0)) _ (or_fail-ends toolong _ refl)
            (λ method. >>=-ends (token m.1) _ (token-ends m.1) (λ p.
              >>=-ends (or_fail toolong (copy_token max_path p.0)) _ (or_fail-ends toolong _ refl)
                (λ path.
                  >>=-ends (guard (bytes_eq p.1 htttp_version) malformed) _
                    (guard-ends _ malformed refl)
                    (λ _. >>=-ends (parse_tail l.1) _ (parse_tail-ends l.1) (λ t. refl)))))))),
  ends-fuel (parse_response buf) (
      >>=-ends (found (find_crlf buf)) _ (found-ends _) (λ l.
        >>=-ends (strip (htttp_version ++ (b' ' ∷ [])) l.0) _ (strip-ends _ l.0) (λ rest.
          >>=-ends (token rest) _ (token-ends rest) (λ s.
            >>=-ends (or_fail malformed (parse_uint s.0)) _ (or_fail-ends malformed _ refl)
              (λ status.
                >>=-ends (guard (within 100 599 status) malformed) _ (guard-ends _ malformed refl)
                  (λ _. >>=-ends (parse_tail l.1) _ (parse_tail-ends l.1) (λ t. refl))))))),
)
