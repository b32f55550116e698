-- ===== src/Ballot/Body.antt =====
-- The lines of a message body: `body_append`, `body_for_each` and `path_election_id` of
-- ballotbox/src/libballotclient/codec.c.
use corestack.Prelude.{
  ℕ, ◌-◌, Bool, false, not, ◌&&◌, ◌||◌, List, [], ◌∷◌, ◌++◌, Option, none, some, Bytes, codes, leb,
  ◌==◌, if◌then◌else◌, length, take,
}
use corestack.Htttp.Message.{is_empty}
use corestack.Session.Scan.{literal}
use corestack.Ballot.{bb_id_len}

abbrev pub codec_body_max : ℕ
codec_body_max = 8192

-- A line break that does not end the text, or a carriage return.
unfoldable pub breaks : Bytes → Bool
breaks [] = false
breaks (c ∷ s) = c == 13 || c == 10 && not (is_empty s) || breaks s

unfoldable pub body_append : Bytes → Bytes → Option Bytes
body_append buf text =
    if leb (codec_body_max - length buf) (length text)
    then none
    else if breaks text
    then none
    else some (buf ++ text)

-- "key=value\n".
abbrev pub field : Bytes → Bytes → Bytes
field key value = key ++ (b'=' ∷ (value ++ (10 ∷ [])))

abbrev pub cons_line : ℕ → List Bytes → List Bytes
cons_line c [] = (c ∷ []) ∷ []
cons_line c (line ∷ rest) = (c ∷ line) ∷ rest

-- The lines, without their line breaks.
unfoldable pub body_lines : Bytes → List Bytes
body_lines [] = []
body_lines (c ∷ s) = if c == 10 then [] ∷ body_lines s else cons_line c (body_lines s)

-- Without a carriage return at the end.
unfoldable pub strip_cr : Bytes → Bytes
strip_cr [] = []
strip_cr (c ∷ s) = if c == 13 && is_empty s then [] else c ∷ strip_cr s

-- What stands before the first `c` and behind it.
unfoldable pub cut_at : ℕ → Bytes → Option (Bytes × Bytes)
cut_at c [] = none
cut_at c (x ∷ s) = if x == c then some ([], s) else cons_cut x (cut_at c s)
  where
    cons_cut : ℕ → Option (Bytes × Bytes) → Option (Bytes × Bytes)
    cons_cut x none = none
    cons_cut x (some (before, behind)) = some (x ∷ before, behind)

-- The string in a buffer that `s` was copied to.
unfoldable pub c_string : Bytes → Bytes
c_string [] = []
c_string (c ∷ s) = if c == 0 then [] else c ∷ c_string s

unfoldable pub key_value : Option (Bytes × Bytes) → Option (Bytes × Bytes)
key_value none = none
key_value (some (key, val)) =
    if is_empty key then none else some (c_string (take 63 key), c_string (take 319 val))

abbrev pub told {ℓ} : {A : Type ℓ} → (Bytes → Bytes → A → A) → Option (Bytes × Bytes) → A → A
told fn none ctx = ctx
told fn (some (key, val)) ctx = fn key val ctx

unfoldable pub for_lines {ℓ} : {A : Type ℓ} → (Bytes → Bytes → A → A) → List Bytes → A → A
for_lines fn [] ctx = ctx
for_lines fn (line ∷ rest) ctx =
    for_lines fn rest (told fn (key_value (cut_at b'=' (strip_cr line))) ctx)

unfoldable pub body_for_each {ℓ} : {A : Type ℓ} → Bytes → (Bytes → Bytes → A → A) → A → A
body_for_each body fn ctx = for_lines fn (body_lines body) ctx

-- The bytes before the first slash.
unfoldable pub before_slash : Bytes → Bytes
before_slash [] = []
before_slash (c ∷ s) = if c == b'/' then [] else c ∷ before_slash s

abbrev pub non_empty : Bytes → Option Bytes
non_empty [] = none
non_empty (c ∷ s) = some (c ∷ s)

unfoldable pub path_election_id : Bytes → Option Bytes
path_election_id path = scanned (literal (codes "/election/") path)
  where
    scanned : Option Bytes → Option Bytes
    scanned none = none
    scanned (some rest) = non_empty (take (bb_id_len - 1) (before_slash rest))
