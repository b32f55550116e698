-- ===== src/Ballot.antt =====
-- The data of ballotbox: ballotbox/include/libballotbrain/types.h, and the requests of
-- ballotbox/include/libballotclient/client.h. A field of type `char[N]` is the C string in it, and an
-- array with its count is the list of what is in use.
pub mod Names
pub mod Hex
pub mod Body
pub mod Encode
pub mod Decode
pub mod Digits
pub mod Lines
pub mod Payload
pub mod Response
pub mod Answer
pub mod Reading
pub mod Counts
mod Tests
use corestack.Prelude.{ℕ, ◌-◌, List, Bytes, take}

abbrev pub bb_id_len : ℕ
bb_id_len = 16

abbrev pub bb_title_len : ℕ
bb_title_len = 64

abbrev pub bb_option_len : ℕ
bb_option_len = 32

abbrev pub bb_cert_len : ℕ
bb_cert_len = 32

abbrev pub bb_time_len : ℕ
bb_time_len = 32

abbrev pub bb_hash_len : ℕ
bb_hash_len = 65

abbrev pub bb_nonce_len : ℕ
bb_nonce_len = 33

abbrev pub bb_max_options : ℕ
bb_max_options = 16

abbrev pub bb_max_voters : ℕ
bb_max_voters = 64

abbrev pub bb_ciphertext_max : ℕ
bb_ciphertext_max = 256

pub data BbState : Type 0 where
  bb_state_draft bb_state_open bb_state_closed bb_state_published : BbState

pub data BbResult : Type 0 where
  bb_ok : BbResult
  bb_err_config_title bb_err_config_options bb_err_config_time bb_err_config_id_taken : BbResult
  bb_err_illegal_transition bb_err_not_open bb_err_closed bb_err_not_published : BbResult
  bb_err_not_eligible bb_err_cert_invalid bb_err_cert_expired : BbResult
  bb_err_bad_option bb_err_replay bb_err_decrypt : BbResult
  bb_err_not_found bb_err_not_joined bb_err_db bb_err_not_implemented bb_err_retry : BbResult

pub data BclOp : Type 0 where
  bcl_join bcl_cast bcl_update bcl_results bcl_check : BclOp
  bcl_create bcl_open bcl_close bcl_publish : BclOp
  bcl_admin_results bcl_admin_check bcl_admin_next_id : BclOp

pub record BbConfig : Type 0 where
  pub title : Bytes
  pub options : List Bytes
  pub eligible : List Bytes
  pub open_time : Bytes
  pub close_time : Bytes

pub record BbBallot : Type 0 where
  pub cert_name : Bytes
  pub nonce : Bytes
  pub payload : Bytes

pub record BclRequest : Type 0 where
  pub op : BclOp
  pub cert_name : Bytes
  pub election_id : Bytes
  pub ballot : BbBallot
  pub hash : Bytes
  pub config : BbConfig

-- `snprintf(dst, cap, "%s", s)`.
abbrev pub fit : ℕ → Bytes → Bytes
fit cap s = take (cap - 1) s
