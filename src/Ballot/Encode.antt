-- ===== src/Ballot/Encode.antt =====
-- `bcl_encode_request` of ballotbox/src/libballotclient/codec.c.
use corestack.Prelude.Opt.{◌>>=◌}
use corestack.Prelude.{
  ℕ, ◌+◌, ◌*◌, List, [], ◌∷◌, ◌++◌, Option, none, some, Bytes, codes, if◌then◌else◌,
}
use corestack.Htttp.Result.{Result, ok, err}
use corestack.Htttp.Message.{Header, header_set, is_empty, max_method, max_path}
use corestack.Htttp.Serialize.{serialize_request}
use corestack.Ballot.{
  bb_ciphertext_max, BclOp, bcl_cast, bcl_update, bcl_check, bcl_create, bcl_admin_check,
  bcl_admin_next_id, BbBallot, BclRequest, fit,
}
use corestack.Ballot.Names.{method_from_op}
use corestack.Ballot.Hex.{hex_encode}
use corestack.Ballot.Body.{body_append, field}

-- One line for each value.
unfoldable pub append_each : Bytes → List Bytes → Bytes → Option Bytes
append_each key [] buf = some buf
append_each key (v ∷ vs) buf = do longer ← body_append buf (field key v); append_each key vs longer

unfoldable pub ballot_body : BbBallot → Option Bytes
ballot_body ballot = do
  a ← body_append [] (field (codes "nonce") ballot.nonce)
  hex ← hex_encode ballot.payload (bb_ciphertext_max * 2 + 1)
  body_append a (field (codes "payload") hex)

unfoldable pub create_body : BclRequest → Option Bytes
create_body req = do
  a ←
      if is_empty req.election_id
      then some []
      else body_append [] (field (codes "election_id") req.election_id)
  b ← body_append a (field (codes "title") req.config.title)
  c ← body_append b (field (codes "open_time") req.config.open_time)
  d ← body_append c (field (codes "close_time") req.config.close_time)
  e ← append_each (codes "option") req.config.options d
  append_each (codes "eligible") req.config.eligible e

abbrev pub election_path : BclRequest → Bytes → Bytes
election_path req suffix = fit max_path (codes "/election/" ++ (req.election_id ++ suffix))

abbrev pub hash_body : BclRequest → Option Bytes
hash_body req = body_append [] (field (codes "hash") req.hash)

-- The path and the body of the operation.
unfoldable pub request_path : BclOp → BclRequest → Bytes
request_path bcl_create req = codes "/election"
request_path bcl_cast req = election_path req (codes "/ballot")
request_path bcl_update req = election_path req (codes "/ballot")
request_path bcl_check req = election_path req (codes "/check")
request_path bcl_admin_check req = election_path req (codes "/check")
request_path bcl_admin_next_id req = codes "/election/next-id"
request_path _ req = election_path req []

unfoldable pub request_body : BclOp → BclRequest → Option Bytes
request_body bcl_create req = create_body req
request_body bcl_cast req = ballot_body req.ballot
request_body bcl_update req = ballot_body req.ballot
request_body bcl_check req = hash_body req
request_body bcl_admin_check req = hash_body req
request_body _ req = some []

abbrev pub or_none {ℓ} : {A : Type ℓ} → Result A → Option A
or_none (ok a) = some a
or_none (err e) = none

unfoldable pub cert_headers : Bytes → Option (List Header)
cert_headers cert_name =
    if is_empty cert_name then some [] else or_none (header_set [] (codes "Cert-Name") cert_name)

-- `cap` is the value of `*out_len` at the call.
unfoldable pub encode_request : ℕ → BclRequest → Option Bytes
encode_request cap req = do
  method ← method_from_op req.op
  body ← request_body req.op req
  headers ← cert_headers req.cert_name
  or_none (
      serialize_request cap (record {
        method = fit max_method method;
        path = fit max_path (request_path req.op req);
        headers = headers;
        body = body;
      }))
