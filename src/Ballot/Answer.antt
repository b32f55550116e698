-- ===== src/Ballot/Answer.antt =====
-- `bcl_encode_response` of ballotbox/src/libballotclient/codec.c. A loop that counts past its array
-- ends with the array here; what C reads there is not defined.
use corestack.Prelude.Opt.{◌>>=◌}
use corestack.Prelude.{
  ℕ, List, [], ◌∷◌, ◌++◌, map, Option, some, Bytes, codes, ℤ, pos, negsuc, take, if◌then◌else◌,
}
use corestack.Htttp.Message.{is_empty}
use corestack.Htttp.Serialize.{serialize_response}
use corestack.Room.Model.{eq_ℤ, ltb_ℤ}
use corestack.Session.Scan.{print_int}
use corestack.Ballot.{
  BbState, bb_state_draft, bb_state_open, bb_state_closed, bb_state_published, BclOp, bcl_join,
  bcl_cast, bcl_update, bcl_results, bcl_check, bcl_create, bcl_open, bcl_close, bcl_publish,
  bcl_admin_results, bcl_admin_check, bcl_admin_next_id,
}
use corestack.Ballot.Names.{name_from_result, bcl_http_status}
use corestack.Ballot.Body.{body_append, field}
use corestack.Ballot.Encode.{append_each, or_none}
use corestack.Ballot.Response.{BbReceipt, BbBallotHash, BclResponse}

-- The entries that a loop up to the count visits.
abbrev pub counted {ℓ} : {A : Type ℓ} → ℤ → List A → List A
counted (pos n) xs = take n xs
counted (negsuc n) xs = []

abbrev pub bb_state_str : BbState → Bytes
bb_state_str bb_state_draft = codes "DRAFT"
bb_state_str bb_state_open = codes "OPEN"
bb_state_str bb_state_closed = codes "CLOSED"
bb_state_str bb_state_published = codes "PUBLISHED"

unfoldable pub create_answer : BclResponse → Bytes → Option Bytes
create_answer resp buf =
    if is_empty resp.election.id
    then some buf
    else body_append buf (field (codes "election_id") resp.election.id)

unfoldable pub join_lines : BclResponse → Bytes → Option Bytes
join_lines resp buf = do
  a ← body_append buf (field (codes "election_id") resp.election.id)
  b ← body_append a (field (codes "title") resp.election.title)
  c ← body_append b (field (codes "state") (bb_state_str resp.election.state))
  d ← body_append c (field (codes "open_time") resp.election.open_time)
  e ← body_append d (field (codes "close_time") resp.election.close_time)
  f ← body_append e (field (codes "has_prior_ballot") (print_int resp.has_prior_ballot))
  g ← body_append f (field (codes "prior_ballot_version") (print_int resp.prior_ballot_version))
  append_each (codes "option") resp.election.options g

unfoldable pub receipt_lines : BbReceipt → Bytes → Option Bytes
receipt_lines receipt buf = do
  a ← body_append buf (field (codes "hash") receipt.hash)
  body_append a (field (codes "issued_at") receipt.issued_at)

-- The numbers after the first have a comma before them.
unfoldable pub append_tally : Bytes → List ℤ → Bytes → Option Bytes
append_tally comma [] buf = some buf
append_tally comma (n ∷ ns) buf = do
  a ← body_append buf (comma ++ print_int n)
  append_tally (codes ",") ns a

unfoldable pub tally_lines : BclResponse → Bytes → Option Bytes
tally_lines resp buf = do
  a ← body_append buf (codes "tally=")
  b ← append_tally [] (counted resp.option_count resp.tally) a
  c ← body_append b (10 ∷ [])
  append_each (codes "result_option") (counted resp.option_count resp.options) c

abbrev pub row_text : BbBallotHash → Bytes
row_text h =
    h.hash
    ++ (codes ","
        ++ (print_int h.option_index
            ++ (codes "," ++ (print_int h.version ++ (codes "," ++ print_int h.superseded)))))

unfoldable pub results_lines : BclResponse → Bytes → Option Bytes
results_lines resp buf = do
  a ← body_append buf (field (codes "election_id") resp.election.id)
  b ← body_append a (field (codes "title") resp.election.title)
  c ← body_append b (field (codes "tally_count") (print_int resp.option_count))
  d ← if ltb_ℤ (pos 0) resp.option_count then tally_lines resp c else some c
  e ← body_append d (field (codes "hash_count") (print_int resp.hash_count))
  append_each (codes "row") (map row_text (counted resp.hash_count resp.hashes)) e

unfoldable pub found_lines : BclResponse → Bytes → Option Bytes
found_lines resp buf = do
  a ← body_append buf (field (codes "found_option") (print_int resp.found_option))
  body_append a (field (codes "found_option_name") resp.found_option_name)

unfoldable pub check_lines : BclResponse → Bytes → Option Bytes
check_lines resp buf = do
  a ← body_append buf (field (codes "found") (print_int resp.found))
  if eq_ℤ resp.found (pos 0) then some a else found_lines resp a

unfoldable pub response_body : BclOp → BclResponse → Bytes → Option Bytes
response_body bcl_create resp buf = create_answer resp buf
response_body bcl_admin_next_id resp buf = create_answer resp buf
response_body bcl_open resp buf = some buf
response_body bcl_close resp buf = some buf
response_body bcl_publish resp buf = some buf
response_body bcl_join resp buf =
    if is_empty resp.election.id then some buf else join_lines resp buf
response_body bcl_cast resp buf =
    if is_empty resp.receipt.hash then some buf else receipt_lines resp.receipt buf
response_body bcl_update resp buf =
    if is_empty resp.receipt.hash then some buf else receipt_lines resp.receipt buf
response_body bcl_results resp buf = results_lines resp buf
response_body bcl_admin_results resp buf = results_lines resp buf
response_body bcl_check resp buf = check_lines resp buf
response_body bcl_admin_check resp buf = check_lines resp buf

-- `date` is what the serializer makes of the clock; `cap` is the value of `*out_len` at the call.
unfoldable pub encode_response : Bytes → ℕ → BclOp → BclResponse → Option Bytes
encode_response date cap op resp = do
  sname ← name_from_result resp.status
  a ← body_append [] (field (codes "status") sname)
  body ← response_body op resp a
  or_none (
      serialize_response date cap
        (record { status = bcl_http_status resp.status; headers = []; body = body }))
