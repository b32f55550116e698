-- ===== src/Ballot/Tests.antt =====
-- The codec of ballots at concrete values.
use corestack.Prelude.{
  bytes_eq, ◌≡◌, refl, true, replicate, pos, negsuc, [], ◌∷◌, ◌++◌, none, some, Bytes, codes, every,
}
use corestack.Htttp.Message.{is_empty}
use corestack.Session.Scan.{
  literal, atoi, skip_space, scan_signed, scan_unsigned, scan_digits, clamp,
}
use corestack.Ballot.{bcl_cast, BbBallot}
use corestack.Ballot.Hex.{hex_encode, hex_digits, hex_decode, hex_bytes}
use corestack.Ballot.Body.{
  breaks, body_append, field, path_election_id, before_slash, cut_at, body_for_each, body_lines,
  for_lines, strip_cr, key_value, c_string,
}
use corestack.Ballot.Encode.{ballot_body}
use corestack.Ballot.Decode.{blank_request, decode_ballot}
use corestack.Ballot.Digits.{plain, byte}
use corestack.Ballot.Names.{result_from_name, value_of}
use corestack.Ballot.Response.{BclResponse}
use corestack.Ballot.Counts.{IsCounted, decode_response-IsCounted}
use corestack.Ballot.Reading.{
  blank_response, no_row, decode_response, response_kv, number_kv, election_kv, receipt_kv,
  read_tally, scan_row, scan_hash,
}
use corestack.Ballot.Payload.{decode_ballot-ballot_body}

abbrev vote : BbBallot
vote = record { cert_name = codes "alice"; nonce = codes "n1"; payload = 7 ∷ 255 ∷ [] }

abbrev vote_body : Bytes
vote_body = field (codes "nonce") (codes "n1") ++ field (codes "payload") (codes "07ff")

vote_written : ballot_body vote ≡ some vote_body
unfolding ballot_body body_append breaks hex_encode hex_digits is_empty
vote_written = refl

vote_nonce : every plain (codes "n1") ≡ true
unfolding every
vote_nonce = refl

vote_payload : every byte (7 ∷ 255 ∷ []) ≡ true
unfolding every
vote_payload = refl

decode_ballot-ballot_body_example :
    decode_ballot vote_body (blank_request bcl_cast (codes "alice"))
    ≡ some (record (blank_request bcl_cast (codes "alice")) { ballot = vote })
decode_ballot-ballot_body_example =
    decode_ballot-ballot_body vote vote_body (blank_request bcl_cast (codes "alice")) vote_nonce
      refl vote_payload vote_written

upper_case : hex_decode (codes "0aFf") 2 ≡ some (10 ∷ 255 ∷ [])
unfolding hex_decode hex_bytes
upper_case = refl

odd_digits : hex_decode (codes "0aF") 2 ≡ none
unfolding hex_decode hex_bytes
odd_digits = refl

broken_title : body_append [] (field (codes "title") (codes "a" ++ (10 ∷ codes "b"))) ≡ none
unfolding body_append breaks is_empty
broken_title = refl

no_id : path_election_id (codes "/election/") ≡ none
unfolding path_election_id literal before_slash
no_id = refl

id_of_check : path_election_id (codes "/election/e7/check") ≡ some (codes "e7")
unfolding path_election_id literal before_slash
id_of_check = refl

read_numbers :
    read_tally 16 0 (codes "1,20,-3") (replicate 4 (pos 0)) ≡ pos 1 ∷ pos 20 ∷ negsuc 2 ∷ pos 0 ∷ []
unfolding read_tally cut_at atoi skip_space scan_signed scan_unsigned scan_digits clamp
read_numbers = refl

read_row :
    scan_row (codes "ab,1,2,0")
    ≡ some (record { hash = codes "ab"; option_index = pos 1; version = pos 2; superseded = pos 0 })
unfolding scan_row scan_hash literal skip_space scan_signed scan_unsigned scan_digits clamp
read_row = refl

short_row : scan_row (codes "ab,1,2") ≡ none
unfolding scan_row scan_hash literal skip_space scan_signed scan_unsigned scan_digits clamp
short_row = refl

-- The sender claims more rows than it sent, and fewer options than none.
abbrev claimed : Bytes
claimed =
    field (codes "status") (codes "BB_OK")
    ++ (field (codes "tally_count") (codes "-4")
        ++ (field (codes "hash_count") (codes "78") ++ field (codes "row") (codes "ab,1,2,0")))

abbrev claimed_reply : BclResponse
claimed_reply = record blank_response {
  hash_count = pos 1;
  hashes =
      record { hash = codes "ab"; option_index = pos 1; version = pos 2; superseded = pos 0 }
      ∷ replicate 63 no_row;
}

claimed_read :
    decode_response (record { status = 200; headers = []; body = claimed }) ≡ some claimed_reply
unfolding decode_response body_for_each body_lines for_lines strip_cr cut_at key_value c_string
    response_kv number_kv election_kv receipt_kv bytes_eq result_from_name value_of is_empty
    scan_row scan_hash literal atoi skip_space scan_signed scan_unsigned scan_digits clamp
claimed_read = refl

decode_response-IsCounted_example : IsCounted claimed_reply
decode_response-IsCounted_example =
    decode_response-IsCounted (record { status = 200; headers = []; body = claimed }) claimed_reply
      claimed_read
