-- ===== src/Ballot/Reading.antt =====
-- `bcl_decode_response` of ballotbox/src/libballotclient/codec.c.
use corestack.Prelude.Opt.{◌>>=◌}
use corestack.Prelude.{
  ℕ, zero, suc, ◌+◌, Bool, true, false, ◌||◌, List, [], ◌∷◌, Option, none, some, Bytes, codes,
  bytes_eq, ℤ, pos, ltb, ◌==◌, if◌then◌else◌, set, replicate,
}
use corestack.Htttp.Message.{Response}
use corestack.Room.Model.{ltb_ℤ}
use corestack.Session.Scan.{atoi, scan_int, literal}
use corestack.Ballot.{
  bb_id_len, bb_title_len, bb_option_len, bb_time_len, bb_hash_len, bb_max_options, bb_max_voters,
  BbState, bb_state_draft, BbResult, bb_ok, fit,
}
use corestack.Ballot.Names.{result_from_name, state_from_name}
use corestack.Ballot.Body.{body_for_each, cut_at, non_empty}
use corestack.Ballot.Decode.{push_string}
use corestack.Ballot.Response.{BbElection, BbReceipt, BbBallotHash, BclResponse}

pub record RespCtx : Type 0 where
  pub resp : BclResponse
  pub row_i : ℕ
  pub result_opt_i : ℕ
  pub status_valid : Bool

abbrev pub with_status : Option BbResult → RespCtx → RespCtx
with_status none c = c
with_status (some st) c = record c { resp = record c.resp { status = st }; status_valid = true }

abbrev pub state_or : Option BbState → BbState → BbState
state_or none old = old
state_or (some st) old = st

-- The numbers of the list, from slot `i` on, while there is a slot.
unfoldable pub read_tally : ℕ → ℕ → Bytes → List ℤ → List ℤ
read_tally zero i p tally = tally
read_tally (suc slots) i [] tally = tally
read_tally (suc slots) i (c ∷ p) tally =
    let written = set tally i (atoi (c ∷ p)) in
    elim (cut_at b',' (c ∷ p)) [
      | none ↦ written
      | some (number, rest) ↦ read_tally slots (i + 1) rest written
    ]

-- The bytes before the first comma, at most 64, and what follows them.
unfoldable pub scan_hash : ℕ → Bytes → Bytes × Bytes
scan_hash zero s = ([], s)
scan_hash (suc n) [] = ([], [])
scan_hash (suc n) (c ∷ s) =
    let (hash, rest) = scan_hash n s in if c == b',' then ([], c ∷ s) else (c ∷ hash, rest)

-- None where `sscanf` does not give 4.
unfoldable pub scan_row : Bytes → Option BbBallotHash
scan_row v =
    let (text, r) = scan_hash 64 v in
    do
      hash ← non_empty text
      s ← literal (codes ",") r
      (opt, t) ← scan_int s
      u ← literal (codes ",") t
      (ver, w) ← scan_int u
      x ← literal (codes ",") w
      (sup, y) ← scan_int x
      some (record {
        hash = fit bb_hash_len hash;
        option_index = opt;
        version = ver;
        superseded = sup;
      })

abbrev pub with_row : Option BbBallotHash → RespCtx → RespCtx
with_row none c = c
with_row (some h) c = record c {
  resp = record c.resp { hashes = set c.resp.hashes c.row_i h };
  row_i = c.row_i + 1;
}

abbrev pub with_option : Bytes → RespCtx → RespCtx
with_option v c = record c {
  resp = record c.resp { options = set c.resp.options c.result_opt_i (fit bb_option_len v) };
  result_opt_i = c.result_opt_i + 1;
}

-- The fields of the election and of the receipt.
unfoldable pub election_kv : Bytes → Bytes → BbElection → BbElection
election_kv k v e =
    if bytes_eq k (codes "election_id")
    then record e { id = fit bb_id_len v }
    else if bytes_eq k (codes "title")
    then record e { title = fit bb_title_len v }
    else if bytes_eq k (codes "state")
    then record e { state = state_or (state_from_name v) e.state }
    else if bytes_eq k (codes "open_time")
    then record e { open_time = fit bb_time_len v }
    else if bytes_eq k (codes "close_time")
    then record e { close_time = fit bb_time_len v }
    else if bytes_eq k (codes "option")
    then record e { options = push_string bb_max_options bb_option_len v e.options }
    else e

unfoldable pub receipt_kv : Bytes → Bytes → BbReceipt → BbReceipt
receipt_kv k v r =
    if bytes_eq k (codes "hash")
    then record r { hash = fit bb_hash_len v }
    else if bytes_eq k (codes "issued_at")
    then record r { issued_at = fit bb_time_len v }
    else r

-- The numbers, and the name of the option that was found.
unfoldable pub number_kv : Bytes → Bytes → BclResponse → BclResponse
number_kv k v r =
    if bytes_eq k (codes "has_prior_ballot")
    then record r { has_prior_ballot = atoi v }
    else if bytes_eq k (codes "prior_ballot_version")
    then record r { prior_ballot_version = atoi v }
    else if bytes_eq k (codes "tally_count")
    then record r { option_count = atoi v }
    else if bytes_eq k (codes "tally")
    then record r { tally = read_tally bb_max_options 0 v r.tally }
    else if bytes_eq k (codes "hash_count")
    then record r { hash_count = atoi v }
    else if bytes_eq k (codes "found")
    then record r { found = atoi v }
    else if bytes_eq k (codes "found_option")
    then record r { found_option = atoi v }
    else if bytes_eq k (codes "found_option_name")
    then record r { found_option_name = fit bb_option_len v }
    else r

-- The keys are all different, so that the three readers of fields touch one field at most.
unfoldable pub response_kv : Bytes → Bytes → RespCtx → RespCtx
response_kv k v c =
    if bytes_eq k (codes "status")
    then with_status (result_from_name v) c
    else if bytes_eq k (codes "result_option")
    then if ltb c.result_opt_i bb_max_options then with_option v c else c
    else if bytes_eq k (codes "row")
    then if ltb c.row_i bb_max_voters then with_row (scan_row v) c else c
    else let r = number_kv k v c.resp in
      record c {
        resp = record r {
          election = election_kv k v r.election;
          receipt = receipt_kv k v r.receipt;
        };
      }

abbrev pub no_row : BbBallotHash
no_row = record { hash = []; option_index = pos 0; version = pos 0; superseded = pos 0 }

-- After the `memset`.
abbrev pub blank_response : BclResponse
blank_response = record {
  status = bb_ok;
  election = record {
    id = [];
    title = [];
    state = bb_state_draft;
    options = [];
    eligible = [];
    open_time = [];
    close_time = [];
    tally = replicate bb_max_options (pos 0);
  };
  has_prior_ballot = pos 0;
  prior_ballot_version = pos 0;
  receipt = record { hash = []; issued_at = [] };
  tally = replicate bb_max_options (pos 0);
  option_count = pos 0;
  options = replicate bb_max_options [];
  hashes = replicate bb_max_voters no_row;
  hash_count = pos 0;
  found = pos 0;
  found_option = pos 0;
  found_option_name = [];
}

-- A count outside its bounds is what has arrived.
abbrev pub within_bounds : ℤ → ℕ → ℕ → ℤ
within_bounds n bound arrived = if ltb_ℤ n (pos 0) || ltb_ℤ (pos bound) n then pos arrived else n

abbrev pub clamp_counts : RespCtx → BclResponse
clamp_counts c = record c.resp {
  hash_count = within_bounds c.resp.hash_count c.row_i c.row_i;
  option_count = within_bounds c.resp.option_count bb_max_options c.result_opt_i;
}

-- None for -1.
unfoldable pub decode_response : Response → Option BclResponse
decode_response http =
    let c =
      body_for_each http.body response_kv
        (record { resp = blank_response; row_i = 0; result_opt_i = 0; status_valid = false }) in
    if c.status_valid then some (clamp_counts c) else none
