-- ===== src/Ballot/Decode.antt =====
-- `bcl_decode_request` of ballotbox/src/libballotclient/codec.c.
use corestack.Prelude.Opt.{◌>>=◌}
use corestack.Prelude.{
  ℕ, Bool, true, false, List, [], ◌∷◌, ◌++◌, Option, none, some, Bytes, codes, bytes_eq, ltb,
  if◌then◌else◌, length,
}
use corestack.Htttp.Message.{Request, header_get, is_empty}
use corestack.Ballot.{
  bb_id_len, bb_title_len, bb_option_len, bb_cert_len, bb_time_len, bb_hash_len, bb_nonce_len,
  bb_max_options, bb_max_voters, bb_ciphertext_max, BclOp, bcl_cast, bcl_update, bcl_check,
  bcl_create, bcl_admin_check, bcl_admin_next_id, BbBallot, BbConfig, BclRequest, fit,
}
use corestack.Ballot.Names.{op_from_method}
use corestack.Ballot.Hex.{hex_decode}
use corestack.Ballot.Body.{body_for_each, path_election_id}

-- The config and the id that the lines fill.
pub record CreateCtx : Type 0 where
  pub cfg : BbConfig
  pub id : Bytes

-- The next slot of an array of strings, while there is one.
abbrev pub push_string : ℕ → ℕ → Bytes → List Bytes → List Bytes
push_string slots cap v vs = if ltb (length vs) slots then vs ++ (fit cap v ∷ []) else vs

unfoldable pub create_kv : Bytes → Bytes → CreateCtx → CreateCtx
create_kv k v c =
    if bytes_eq k (codes "election_id")
    then record c { id = fit bb_id_len v }
    else if bytes_eq k (codes "title")
    then record c { cfg = record c.cfg { title = fit bb_title_len v } }
    else if bytes_eq k (codes "open_time")
    then record c { cfg = record c.cfg { open_time = fit bb_time_len v } }
    else if bytes_eq k (codes "close_time")
    then record c { cfg = record c.cfg { close_time = fit bb_time_len v } }
    else if bytes_eq k (codes "option")
    then record c {
      cfg = record c.cfg { options = push_string bb_max_options bb_option_len v c.cfg.options };
    }
    else if bytes_eq k (codes "eligible")
    then record c {
      cfg = record c.cfg { eligible = push_string bb_max_voters bb_cert_len v c.cfg.eligible };
    }
    else c

pub record BallotCtx : Type 0 where
  pub ballot : BbBallot
  pub got_payload : Bool

abbrev pub with_payload : Option Bytes → BallotCtx → BallotCtx
with_payload none c = c
with_payload (some payload) c = record {
  ballot = record c.ballot { payload = payload };
  got_payload = true;
}

unfoldable pub ballot_kv : Bytes → Bytes → BallotCtx → BallotCtx
ballot_kv k v c =
    if bytes_eq k (codes "nonce")
    then record c { ballot = record c.ballot { nonce = fit bb_nonce_len v } }
    else if bytes_eq k (codes "payload")
    then with_payload (hex_decode v bb_ciphertext_max) c
    else c

unfoldable pub hash_kv : Bytes → Bytes → Bytes → Bytes
hash_kv k v hash = if bytes_eq k (codes "hash") then fit bb_hash_len v else hash

abbrev pub fit_or_empty : Option Bytes → Bytes
fit_or_empty none = []
fit_or_empty (some cert) = fit bb_cert_len cert

-- After the `memset`, with the operation and the certificate.
abbrev pub blank_request : BclOp → Bytes → BclRequest
blank_request op cert_name = record {
  op = op;
  cert_name = cert_name;
  election_id = [];
  ballot = record { cert_name = []; nonce = []; payload = [] };
  hash = [];
  config = record { title = []; options = []; eligible = []; open_time = []; close_time = [] };
}

unfoldable pub decode_create : Bytes → BclRequest → BclRequest
decode_create body req =
    let c = body_for_each body create_kv (record { cfg = req.config; id = req.election_id }) in
    record req { config = c.cfg; election_id = c.id }

unfoldable pub decode_ballot : Bytes → BclRequest → Option BclRequest
decode_ballot body req =
    let ballot = record req.ballot { cert_name = fit bb_cert_len req.cert_name } in
    let c = body_for_each body ballot_kv (record { ballot = ballot; got_payload = false }) in
    if c.got_payload then some (record req { ballot = c.ballot }) else none

unfoldable pub decode_hash : Bytes → BclRequest → Option BclRequest
decode_hash body req =
    let hash = body_for_each body hash_kv req.hash in
    if is_empty hash then none else some (record req { hash = hash })

abbrev pub with_id : Bytes → BclRequest → Option BclRequest
with_id path req = do id ← path_election_id path; some (record req { election_id = id })

unfoldable pub decode_op : BclOp → Request → BclRequest → Option BclRequest
decode_op bcl_create http req = some (decode_create http.body req)
decode_op bcl_admin_next_id http req = some req
decode_op bcl_cast http req = do r ← with_id http.path req; decode_ballot http.body r
decode_op bcl_update http req = do r ← with_id http.path req; decode_ballot http.body r
decode_op bcl_check http req = do r ← with_id http.path req; decode_hash http.body r
decode_op bcl_admin_check http req = do r ← with_id http.path req; decode_hash http.body r
decode_op _ http req = with_id http.path req

-- None for -1.
unfoldable pub decode_request : Request → Option BclRequest
decode_request http = do
  op ← op_from_method http.method
  decode_op op http (blank_request op (fit_or_empty (header_get http.headers (codes "Cert-Name"))))
