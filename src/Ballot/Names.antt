-- ===== src/Ballot/Names.antt =====
-- The tables of names in ballotbox/src/libballotclient/codec.c.
use corestack.Prelude.{
  ℕ, List, [], ◌∷◌, Option, none, some, Bytes, codes, bytes_eq, ◌==◌, if◌then◌else◌,
}
use corestack.Ballot.{
  BbState, bb_state_draft, bb_state_open, bb_state_closed, bb_state_published, BbResult, bb_ok,
  bb_err_config_title, bb_err_config_options, bb_err_config_time, bb_err_config_id_taken,
  bb_err_illegal_transition, bb_err_not_open, bb_err_closed, bb_err_not_published,
  bb_err_not_eligible, bb_err_cert_invalid, bb_err_cert_expired, bb_err_bad_option, bb_err_replay,
  bb_err_decrypt, bb_err_not_found, bb_err_not_joined, bb_err_db, bb_err_not_implemented,
  bb_err_retry, BclOp, bcl_join, bcl_cast, bcl_update, bcl_results, bcl_check, bcl_create, bcl_open,
  bcl_close, bcl_publish, bcl_admin_results, bcl_admin_check, bcl_admin_next_id,
}

-- The first name whose value has this code, and the first value of this name.
unfoldable pub name_of {ℓ} : {A : Type ℓ} → (A → ℕ) → A → List (A × Bytes) → Option Bytes
name_of code a [] = none
name_of code a ((b, name) ∷ rest) = if code b == code a then some name else name_of code a rest

unfoldable pub value_of {ℓ} : {A : Type ℓ} → Bytes → List (A × Bytes) → Option A
value_of s [] = none
value_of s ((a, name) ∷ rest) = if bytes_eq name s then some a else value_of s rest

-- The values of the enums.
abbrev op_code : BclOp → ℕ
op_code bcl_join = 0
op_code bcl_cast = 1
op_code bcl_update = 2
op_code bcl_results = 3
op_code bcl_check = 4
op_code bcl_create = 5
op_code bcl_open = 6
op_code bcl_close = 7
op_code bcl_publish = 8
op_code bcl_admin_results = 9
op_code bcl_admin_check = 10
op_code bcl_admin_next_id = 11

abbrev op_names : List (BclOp × Bytes)
op_names =
    (bcl_join, codes "JOIN")
    ∷ (bcl_cast, codes "CAST")
    ∷ (bcl_update, codes "UPDATE")
    ∷ (bcl_results, codes "RESULTS")
    ∷ (bcl_check, codes "CHECK")
    ∷ (bcl_create, codes "CREATE")
    ∷ (bcl_open, codes "OPEN")
    ∷ (bcl_close, codes "CLOSE")
    ∷ (bcl_publish, codes "PUBLISH")
    ∷ (bcl_admin_results, codes "ADMIN_RESULTS")
    ∷ (bcl_admin_check, codes "ADMIN_CHECK")
    ∷ (bcl_admin_next_id, codes "ADMIN_NEXT_ID")
    ∷ []

unfoldable pub method_from_op : BclOp → Option Bytes
method_from_op op = name_of op_code op op_names

unfoldable pub op_from_method : Bytes → Option BclOp
op_from_method m = value_of m op_names

abbrev result_code : BbResult → ℕ
result_code bb_ok = 0
result_code bb_err_config_title = 1
result_code bb_err_config_options = 2
result_code bb_err_config_time = 3
result_code bb_err_config_id_taken = 4
result_code bb_err_illegal_transition = 5
result_code bb_err_not_open = 6
result_code bb_err_closed = 7
result_code bb_err_not_published = 8
result_code bb_err_not_eligible = 9
result_code bb_err_cert_invalid = 10
result_code bb_err_cert_expired = 11
result_code bb_err_bad_option = 12
result_code bb_err_replay = 13
result_code bb_err_decrypt = 14
result_code bb_err_not_found = 15
result_code bb_err_not_joined = 16
result_code bb_err_db = 17
result_code bb_err_not_implemented = 18
result_code bb_err_retry = 19

abbrev result_names : List (BbResult × Bytes)
result_names =
    (bb_ok, codes "BB_OK")
    ∷ (bb_err_config_title, codes "BB_ERR_CONFIG_TITLE")
    ∷ (bb_err_config_options, codes "BB_ERR_CONFIG_OPTIONS")
    ∷ (bb_err_config_time, codes "BB_ERR_CONFIG_TIME")
    ∷ (bb_err_config_id_taken, codes "BB_ERR_CONFIG_ID_TAKEN")
    ∷ (bb_err_illegal_transition, codes "BB_ERR_ILLEGAL_TRANSITION")
    ∷ (bb_err_not_open, codes "BB_ERR_NOT_OPEN")
    ∷ (bb_err_closed, codes "BB_ERR_CLOSED")
    ∷ (bb_err_not_published, codes "BB_ERR_NOT_PUBLISHED")
    ∷ (bb_err_not_eligible, codes "BB_ERR_NOT_ELIGIBLE")
    ∷ (bb_err_cert_invalid, codes "BB_ERR_CERT_INVALID")
    ∷ (bb_err_cert_expired, codes "BB_ERR_CERT_EXPIRED")
    ∷ (bb_err_bad_option, codes "BB_ERR_BAD_OPTION")
    ∷ (bb_err_replay, codes "BB_ERR_REPLAY")
    ∷ (bb_err_decrypt, codes "BB_ERR_DECRYPT")
    ∷ (bb_err_not_found, codes "BB_ERR_NOT_FOUND")
    ∷ (bb_err_not_joined, codes "BB_ERR_NOT_JOINED")
    ∷ (bb_err_db, codes "BB_ERR_DB")
    ∷ (bb_err_not_implemented, codes "BB_ERR_NOT_IMPLEMENTED")
    ∷ []

unfoldable pub name_from_result : BbResult → Option Bytes
name_from_result r = name_of result_code r result_names

unfoldable pub result_from_name : Bytes → Option BbResult
result_from_name s = value_of s result_names

abbrev states : List (BbState × Bytes)
states =
    (bb_state_draft, codes "DRAFT")
    ∷ (bb_state_open, codes "OPEN")
    ∷ (bb_state_closed, codes "CLOSED")
    ∷ (bb_state_published, codes "PUBLISHED")
    ∷ []

unfoldable pub state_from_name : Bytes → Option BbState
state_from_name s = value_of s states

-- The status of the reply.
unfoldable pub bcl_http_status : BbResult → ℕ
bcl_http_status bb_ok = 200
bcl_http_status bb_err_config_title = 400
bcl_http_status bb_err_config_options = 400
bcl_http_status bb_err_config_time = 400
bcl_http_status bb_err_bad_option = 400
bcl_http_status bb_err_decrypt = 400
bcl_http_status bb_err_not_eligible = 403
bcl_http_status bb_err_cert_invalid = 403
bcl_http_status bb_err_cert_expired = 403
bcl_http_status bb_err_not_found = 404
bcl_http_status bb_err_illegal_transition = 409
bcl_http_status bb_err_not_open = 409
bcl_http_status bb_err_closed = 409
bcl_http_status bb_err_not_published = 409
bcl_http_status bb_err_replay = 409
bcl_http_status bb_err_not_joined = 409
bcl_http_status bb_err_config_id_taken = 409
bcl_http_status bb_err_db = 500
bcl_http_status bb_err_not_implemented = 500
bcl_http_status bb_err_retry = 500
