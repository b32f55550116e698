-- ===== src/Ballot/Counts.antt =====
-- The arrays and the counts of a reply that `bcl_decode_response` of codec.c has read.
use corestack.Prelude.{
  ℕ, zero, suc, ◌+◌, ◌≤◌, ◌≡◌, refl, ap, ◌∙◌, arith, Bool, true, false, ◌||◌, List, [], ◌∷◌, Option,
  none, some, Bytes, codes, bytes_eq, ℤ, pos, negsuc, ltb, if◌then◌else◌, length, length-set, set,
}
use mathlib.Core.Path.{subst}
use corestack.Htttp.Message.{Response}
use corestack.Session.Scan.{atoi}
use corestack.Ballot.{bb_max_options, bb_max_voters, BbResult}
use corestack.Ballot.Body.{cut_at, strip_cr, key_value, body_lines, told, for_lines, body_for_each}
use corestack.Ballot.Names.{result_from_name}
use corestack.Ballot.Response.{BbBallotHash, BclResponse}
use corestack.Ballot.Reading.{
  RespCtx, read_tally, with_status, with_row, with_option, number_kv, response_kv, scan_row,
  within_bounds, decode_response, blank_response, clamp_counts,
}

-- The arrays have all their slots.
pub record HasSlots (r : BclResponse) : Type 0 where
  pub tally : length r.tally ≡ bb_max_options
  pub options : length r.options ≡ bb_max_options
  pub hashes : length r.hashes ≡ bb_max_voters

record IsReading (c : RespCtx) : Type 0 where
  slots : HasSlots c.resp
  rows : c.row_i ≤ bb_max_voters
  names : c.result_opt_i ≤ bb_max_options

-- A count that a loop over `bound` slots can take.
pub data Within (bound : ℕ) : ℤ → Type 0 where
  within : (n : ℕ) → n ≤ bound → Within bound (pos n)

length-read_tally :
    (slots i : ℕ) (p : Bytes) (tally : List ℤ) → length (read_tally slots i p tally) ≡ length tally
unfolding read_tally
length-read_tally zero i p tally = refl
length-read_tally (suc slots) i [] tally = refl
length-read_tally (suc slots) i (c ∷ p) tally =
    behind (length-read_tally slots (i + 1)) (cut_at b',' (c ∷ p))
  where
    written : List ℤ
    written = set tally i (atoi (c ∷ p))

    behind :
        ((rest : Bytes) (t : List ℤ) → length (read_tally slots (i + 1) rest t) ≡ length t)
        → (o : Option (Bytes × Bytes))
        → length (elim o [
          | none ↦ written
          | some (number, rest) ↦ read_tally slots (i + 1) rest written
        ])
          ≡ length tally
    behind later none = length-set tally i (atoi (c ∷ p))
    behind later (some (number, rest)) = later rest written ∙ length-set tally i (atoi (c ∷ p))

if-HasSlots :
    (b : Bool) (r t : BclResponse) → HasSlots r → HasSlots t → HasSlots (if b then r else t)
if-HasSlots true r t s u = s
if-HasSlots false r t s u = u

if-IsReading :
    (b : Bool) (c d : RespCtx)
    → (b ≡ true → IsReading c)
    → IsReading d
    → IsReading (if b then c else d)
if-IsReading true c d f u = f refl
if-IsReading false c d f u = u

-- The same arrays.
as_before :
    (r t : BclResponse)
    → HasSlots r
    → t.tally ≡ r.tally
    → t.options ≡ r.options
    → t.hashes ≡ r.hashes
    → HasSlots t
as_before r t s e f g = record {
  tally = ap length e ∙ s.tally;
  options = ap length f ∙ s.options;
  hashes = ap length g ∙ s.hashes;
}

number_kv-HasSlots : (k v : Bytes) (r : BclResponse) → HasSlots r → HasSlots (number_kv k v r)
unfolding number_kv
number_kv-HasSlots k v r s =
    if-HasSlots (bytes_eq k (codes "has_prior_ballot")) _ _ (as_before r _ s refl refl refl) (
      if-HasSlots (bytes_eq k (codes "prior_ballot_version")) _ _ (as_before r _ s refl refl refl) (
        if-HasSlots (bytes_eq k (codes "tally_count")) _ _ (as_before r _ s refl refl refl) (
          if-HasSlots (bytes_eq k (codes "tally")) _ _
            (record {
              tally = length-read_tally bb_max_options 0 v r.tally ∙ s.tally;
              options = s.options;
              hashes = s.hashes;
            })
            (if-HasSlots (bytes_eq k (codes "hash_count")) _ _ (as_before r _ s refl refl refl) (
              if-HasSlots (bytes_eq k (codes "found")) _ _ (as_before r _ s refl refl refl) (
                if-HasSlots (bytes_eq k (codes "found_option")) _ _ (as_before r _ s refl refl refl)
                  (if-HasSlots (bytes_eq k (codes "found_option_name")) _ _
                    (as_before r _ s refl refl refl) s)))))))

with_status-IsReading :
    (o : Option BbResult) (c : RespCtx) → IsReading c → IsReading (with_status o c)
with_status-IsReading none c h = h
with_status-IsReading (some st) c h = record {
  slots = as_before c.resp _ h.slots refl refl refl;
  rows = h.rows;
  names = h.names;
}

with_row-IsReading :
    (o : Option BbBallotHash) (c : RespCtx)
    → IsReading c
    → ltb c.row_i bb_max_voters ≡ true
    → IsReading (with_row o c)
with_row-IsReading none c h e = h
with_row-IsReading (some row) c h e = record {
  slots = record {
    tally = h.slots.tally;
    options = h.slots.options;
    hashes = length-set c.resp.hashes c.row_i row ∙ h.slots.hashes;
  };
  rows = ground (arith, e);
  names = h.names;
}

with_option-IsReading :
    (v : Bytes) (c : RespCtx)
    → IsReading c
    → ltb c.result_opt_i bb_max_options ≡ true
    → IsReading (with_option v c)
with_option-IsReading v c h e = record {
  slots = record {
    tally = h.slots.tally;
    options = length-set c.resp.options c.result_opt_i _ ∙ h.slots.options;
    hashes = h.slots.hashes;
  };
  rows = h.rows;
  names = ground (arith, e);
}

response_kv-IsReading : (k v : Bytes) (c : RespCtx) → IsReading c → IsReading (response_kv k v c)
unfolding response_kv
response_kv-IsReading k v c h =
    if-IsReading (bytes_eq k (codes "status")) _ _
      (λ _. with_status-IsReading (result_from_name v) c h)
      (if-IsReading (bytes_eq k (codes "result_option")) _ _
        (λ _. if-IsReading (ltb c.result_opt_i bb_max_options) _ _ (with_option-IsReading v c h) h)
        (if-IsReading (bytes_eq k (codes "row")) _ _
          (λ _.
            if-IsReading (ltb c.row_i bb_max_voters) _ _ (with_row-IsReading (scan_row v) c h) h)
          (record {
            slots =
                as_before (number_kv k v c.resp) _ (number_kv-HasSlots k v c.resp h.slots) refl refl
                  refl;
            rows = h.rows;
            names = h.names;
          })))

told-IsReading :
    (o : Option (Bytes × Bytes)) (c : RespCtx) → IsReading c → IsReading (told response_kv o c)
told-IsReading none c h = h
told-IsReading (some (k, v)) c h = response_kv-IsReading k v c h

for_lines-IsReading :
    (ls : List Bytes) (c : RespCtx) → IsReading c → IsReading (for_lines response_kv ls c)
unfolding for_lines
for_lines-IsReading [] c h = h
for_lines-IsReading (line ∷ rest) c h =
    for_lines-IsReading rest _ (told-IsReading (key_value (cut_at b'=' (strip_cr line))) c h)

within_bounds-Within :
    (n : ℤ) (bound arrived : ℕ) → arrived ≤ bound → Within bound (within_bounds n bound arrived)
within_bounds-Within (negsuc n) bound arrived h = within arrived h
within_bounds-Within (pos n) bound arrived h = judged (ltb n 0 || ltb bound n) refl
  where
    judged :
        (b : Bool) → (ltb n 0 || ltb bound n) ≡ b → Within bound (if b then pos arrived else pos n)
    judged true e = within arrived h
    judged false e = within n (ground arith)

Within-widen : (a b : ℕ) (n : ℤ) → a ≤ b → Within a n → Within b n
Within-widen a b _ h (within n w) = within n (omega arith)

-- What a caller may rely on when it loops to the counts.
pub record IsCounted (r : BclResponse) : Type 0 where
  pub slots : HasSlots r
  pub hash_count : Within bb_max_voters r.hash_count
  pub option_count : Within bb_max_options r.option_count

-- The arrays of a reply that was read have all their slots, and its counts are at least 0 and at most
-- the slots of their arrays, whatever the sender claimed.
pub decode_response-IsCounted :
    (http : Response) (r : BclResponse) → decode_response http ≡ some r → IsCounted r
unfolding decode_response body_for_each
decode_response-IsCounted http r e = told_valid heard.status_valid e
  where
    heard : RespCtx
    heard =
        for_lines response_kv (body_lines http.body)
          (record { resp = blank_response; row_i = 0; result_opt_i = 0; status_valid = false })

    reading : IsReading heard
    reading = for_lines-IsReading (body_lines http.body) _ (record {
      slots = record { tally = refl; options = refl; hashes = refl };
      rows = omega arith;
      names = omega arith;
    })

    counted : IsCounted (clamp_counts heard)
    counted = record {
      slots = as_before heard.resp _ reading.slots refl refl refl;
      hash_count =
          Within-widen heard.row_i bb_max_voters _ reading.rows
            (within_bounds-Within heard.resp.hash_count heard.row_i heard.row_i (omega arith));
      option_count =
          within_bounds-Within heard.resp.option_count bb_max_options heard.result_opt_i
            reading.names;
    }

    told_valid : (b : Bool) → (if b then some (clamp_counts heard) else none) ≡ some r → IsCounted r
    told_valid true e = let same : clamp_counts heard ≡ r = cc in subst IsCounted same counted
    told_valid false e = absurd cc
