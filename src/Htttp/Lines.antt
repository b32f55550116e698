-- ===== src/Htttp/Lines.antt =====
-- How the scans of the parsers take apart what stands on the wire.
use corestack.Prelude.{
  ℕ, ◌+◌, ◌≡◌, refl, ◌∙◌, arith, Bool, true, false, ◌||◌, [], ◌∷◌, ◌++◌, some, ◌==◌, length, Bytes,
  every, has, Option-cases, inl, inr,
}
use corestack.Htttp.Parse.{cr, add_first, find_crlf, scan_to}
use corestack.Htttp.Serialize.{crlf}

pub has-append : (c : ℕ) (a b : Bytes) → has c (a ++ b) ≡ (has c a || has c b)
unfolding has
has-append c [] b = refl
has-append c (x ∷ a) b = ground (arith, has-append c a b)

find_crlf-cons :
    (c : ℕ) (buf : Bytes) → (c == cr) ≡ false → find_crlf (c ∷ buf) ≡ add_first c (find_crlf buf)
unfolding find_crlf
find_crlf-cons c [] h = refl
find_crlf-cons c (x ∷ buf) h = ground arith

-- A line without a CR is found whole.
pub find_crlf-append :
    (line rest : Bytes)
    → has cr line ≡ false
    → find_crlf (line ++ (crlf ++ rest)) ≡ some (line, rest)
unfolding has
find_crlf-append [] rest h = unfold find_crlf in refl
find_crlf-append (c ∷ line) rest h =
    find_crlf-cons c (line ++ (crlf ++ rest)) (ground arith)
    ∙ rw (find_crlf-append line rest (ground arith))

-- What follows a line is shorter than the buffer.
pub length-find_crlf :
    (buf line rest : Bytes)
    → find_crlf buf ≡ some (line, rest)
    → length line + length rest + 2 ≡ length buf
unfolding find_crlf
length-find_crlf [] line rest h = absurd (ground arith)
length-find_crlf (x ∷ []) line rest h = absurd (ground arith)
length-find_crlf (x ∷ y ∷ buf) line rest h = elim (Option-cases (find_crlf (y ∷ buf))) [
  | inl e ↦ ground arith
  | inr (p, e) ↦ ground (arith, length-find_crlf (y ∷ buf) p.0 p.1)
]

pub scan_to-append : (c : ℕ) (a b : Bytes) → has c a ≡ false → scan_to c (a ++ (c ∷ b)) ≡ (a, c ∷ b)
unfolding has scan_to
scan_to-append c [] b h = ground arith
scan_to-append c (x ∷ a) b h = ground (arith, scan_to-append c a b)

-- A scan keeps all the bytes, and takes none of those it looks for.
pub scan_to-split :
    (c : ℕ) (line : Bytes)
    → ((scan_to c line).0 ++ (scan_to c line).1 ≡ line) × (has c (scan_to c line).0 ≡ false)
unfolding has scan_to
scan_to-split c [] = (refl, refl)
scan_to-split c (x ∷ line) = ground (arith, scan_to-split c line)

-- Where every byte passes a test that `c` fails, no byte is `c`.
pub has-every :
    (p : ℕ → Bool) (c : ℕ) (s : Bytes) → every p s ≡ true → p c ≡ false → has c s ≡ false
unfolding has every
has-every p c [] h k = refl
has-every p c (x ∷ s) h k = ground (arith, has-every p c s)
