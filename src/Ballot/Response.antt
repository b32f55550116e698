-- ===== src/Ballot/Response.antt =====
-- The replies of ballotbox/include/libballotclient/client.h. The arrays of a reply have all their
-- slots, since the counts beside them come from the sender.
use corestack.Prelude.{List, Bytes, ℤ}
use corestack.Ballot.{BbState, BbResult}

pub record BbElection : Type 0 where
  pub id : Bytes
  pub title : Bytes
  pub state : BbState
  pub options : List Bytes
  pub eligible : List Bytes
  pub open_time : Bytes
  pub close_time : Bytes
  pub tally : List ℤ

pub record BbReceipt : Type 0 where
  pub hash : Bytes
  pub issued_at : Bytes

pub record BbBallotHash : Type 0 where
  pub hash : Bytes
  pub option_index : ℤ
  pub version : ℤ
  pub superseded : ℤ

pub record BclResponse : Type 0 where
  pub status : BbResult
  pub election : BbElection
  pub has_prior_ballot : ℤ
  pub prior_ballot_version : ℤ
  pub receipt : BbReceipt
  pub tally : List ℤ
  pub option_count : ℤ
  pub options : List Bytes
  pub hashes : List BbBallotHash
  pub hash_count : ℤ
  pub found : ℤ
  pub found_option : ℤ
  pub found_option_name : Bytes
