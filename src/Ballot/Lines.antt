-- ===== src/Ballot/Lines.antt =====
-- The lines that `body_append` of codec.c writes, as `body_for_each` reads them.
use corestack.Prelude.{
  ℕ, zero, suc, ◌-◌, ◌≤◌, ◌≡◌, refl, ap, arith, Bool, true, false, not, ◌&&◌, [], ◌∷◌, ◌++◌, none,
  some, Bytes, ◌==◌, leb, if◌then◌else◌, length, every, every-append, has, take,
}
use corestack.Htttp.Message.{is_empty}
use corestack.Ballot.Digits.{plain}
use corestack.Ballot.Body.{
  codec_body_max, breaks, body_append, body_lines, strip_cr, cut_at, c_string, key_value,
}

pub body_append-some :
    (buf text body : Bytes) → body_append buf text ≡ some body → body ≡ buf ++ text
unfolding body_append
body_append-some buf text body e =
    stored (leb (codec_body_max - length buf) (length text)) (breaks text) e
  where
    stored :
        (full broken : Bool)
        → (if full then none else if broken then none else some (buf ++ text)) ≡ some body
        → body ≡ buf ++ text
    stored true broken e = absurd cc
    stored false true e = absurd cc
    stored false false e = cc

pub body_lines-line :
    (s rest : Bytes) → every plain s ≡ true → body_lines (s ++ (10 ∷ rest)) ≡ s ∷ body_lines rest
unfolding body_lines every
body_lines-line [] rest h = refl
body_lines-line (c ∷ s) rest h =
    let other : (c == 10) ≡ false = ground arith in
    rw (other, body_lines-line s rest (ground arith)) refl

strip_cr-plain : (s : Bytes) → every plain s ≡ true → strip_cr s ≡ s
unfolding strip_cr every
strip_cr-plain [] h = refl
strip_cr-plain (c ∷ s) h =
    let other : (c == 13) ≡ false = ground arith in rw (other, strip_cr-plain s (ground arith)) refl

c_string-plain : (s : Bytes) → every plain s ≡ true → c_string s ≡ s
unfolding c_string every
c_string-plain [] h = refl
c_string-plain (c ∷ s) h =
    let other : (c == 0) ≡ false = ground arith in rw (other, c_string-plain s (ground arith)) refl

every-take : (n : ℕ) (s : Bytes) → every plain s ≡ true → every plain (take n s) ≡ true
unfolding every
every-take zero s h = refl
every-take (suc n) [] h = refl
every-take (suc n) (c ∷ s) h = ground (arith, every-take n s)

pub take-all : (n : ℕ) (s : Bytes) → length s ≤ n → take n s ≡ s
take-all zero [] h = refl
take-all zero (c ∷ s) h = absurd (omega arith)
take-all (suc n) [] h = refl
take-all (suc n) (c ∷ s) h = ap (λ t. c ∷ t) (take-all n s (omega arith))

cut_at-first :
    (c : ℕ) (key v : Bytes) → has c key ≡ false → cut_at c (key ++ (c ∷ v)) ≡ some (key, v)
unfolding cut_at has
cut_at-first c [] v h = rw (same c) refl
  where
    same : (c : ℕ) → (c == c) ≡ true
    same c = ground arith
cut_at-first c (x ∷ key) v h =
    let other : (x == c) ≡ false = ground arith in
    rw (other, cut_at-first c key v (ground arith)) refl

-- A key that `body_for_each` gives back as it was written.
abbrev pub proper_key : Bytes → Bool
proper_key key =
    every plain key && (not (has b'=' key) && (leb (length key) 63 && not (is_empty key)))

pub key_value-line :
    (key v : Bytes)
    → proper_key key ≡ true
    → every plain v ≡ true
    → key_value (cut_at b'=' (strip_cr (key ++ (b'=' ∷ v)))) ≡ some (key, take 319 v)
unfolding key_value every
key_value-line key v k h =
    rw
      (
        strip_cr-plain (key ++ (b'=' ∷ v)) whole,
        cut_at-first b'=' key v (ground arith),
        filled,
        take-all 63 key (ground arith),
        c_string-plain key (ground arith),
        c_string-plain (take 319 v) (every-take 319 v h),
      )
      refl
  where
    filled : is_empty key ≡ false
    filled = ground arith

    whole : every plain (key ++ (b'=' ∷ v)) ≡ true
    whole = ground (arith, every-append plain key (b'=' ∷ v))
