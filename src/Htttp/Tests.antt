-- ===== src/Htttp/Tests.antt =====
-- The library's theorems at concrete messages, and runs of the parsers and the serializers.
use corestack.Prelude.{◌≢◌, ◌≡◌, refl, arith, [], ◌∷◌, ◌++◌, Bytes, codes, every, has}
use corestack.Htttp.Result.{out_of_fuel, ok, err, toolong}
use corestack.Htttp.Message.{Header, Request, Response, reason, ci_eq, valid_field, is_empty}
use corestack.Htttp.Parse.{parse_uint, parse_request, parse_response, parse_headers}
use corestack.Htttp.Serialize.{
  crlf, decimal, buf_append, emit_parts, emit_header, emit_checked, emit_each, emit_headers,
  emit_length, emit_body, skipped, serialize_request, serialize_response,
}
use corestack.Htttp.Numbers.{value, parse_uint-value, parse_uint-decimal}
use corestack.Htttp.Wire.{wires, kept}
use corestack.Htttp.Sent.{request_wire, Sent, serialize_request-Sent}
use corestack.Htttp.Reads.{parse_headers-wires}
use corestack.Htttp.Parsed.{IsParsed, parse_request-IsParsed}
use corestack.Htttp.Ends.{parsers-end}
use corestack.Htttp.Reply
use corestack.Htttp.Reply.{parse-serialize_response}
use corestack.Htttp.RoundTrip.{Fits, received, parse-serialize}

abbrev two_to_32 : Bytes
two_to_32 = codes "4294967296"

parse_uint-value_example : parse_uint two_to_32 ≡ err toolong
unfolding value
parse_uint-value_example =
    parse_uint-value two_to_32 (unfold is_empty in refl) (omega arith) (unfold every in refl)

parse_uint-decimal_example : parse_uint (decimal 10 4294967295) ≡ ok 4294967295
parse_uint-decimal_example = parse_uint-decimal 4294967295 (omega arith)

abbrev host : Header
host = record { key = codes "User"; value = codes "ann b" }

abbrev stale_length : Header
stale_length = record { key = codes "content-length"; value = codes "9" }

abbrev post : Request
post = record {
  method = codes "POST";
  path = codes "/rooms/0";
  headers = stale_length ∷ host ∷ [];
  body = codes "hello";
}

abbrev post_wire : Bytes
post_wire = request_wire post

post-serialized : serialize_request 200 post ≡ ok post_wire
unfolding serialize_request emit_parts buf_append emit_headers emit_each emit_checked emit_header
    emit_length emit_body skipped ci_eq decimal kept valid_field every is_empty
post-serialized = refl

serialize_request-Sent_example : Sent 200 post post_wire
serialize_request-Sent_example = serialize_request-Sent 200 post post_wire post-serialized

post-Fits : Fits post
unfolding kept skipped ci_eq
post-Fits = record {
  method = omega arith;
  path = omega arith;
  headers = (
    record { key_fits = omega arith; value_fits = omega arith; no_colon = unfold has in refl },
    tt,
  );
  count = omega arith;
  body = omega arith;
}

parse-serialize_example : parse_request post_wire ≡ ok (received post)
parse-serialize_example = parse-serialize 200 post post_wire post-serialized post-Fits

parse_headers-wires_example :
    parse_headers 5 [] (wires (host ∷ []) (crlf ++ codes "x")) ≡ ok (host ∷ [], codes "x")
parse_headers-wires_example =
    parse_headers-wires 5 [] (host ∷ []) (codes "x") (omega arith) (omega arith)
      (
        record {
          key_some = unfold is_empty in refl;
          key_valid = unfold valid_field every in refl;
          value_valid = unfold valid_field every in refl;
        },
        tt,
      )
      (
        record { key_fits = omega arith; value_fits = omega arith; no_colon = unfold has in refl },
        tt,
      )

parse_request-IsParsed_example : IsParsed (received post)
parse_request-IsParsed_example =
    parse_request-IsParsed post_wire (received post)
      (parse-serialize 200 post post_wire post-serialized post-Fits)

abbrev new_year : Bytes
new_year = codes "Sat, 01 Jan 2000 00:00:00 GMT"

abbrev created : Response
created = record { status = 201; headers = host ∷ stale_length ∷ []; body = codes "room 1" }

abbrev created_wire : Bytes
created_wire =
    codes "HTTTP/1.0 201 Created"
    ++ (crlf
        ++ (codes "Date: Sat, 01 Jan 2000 00:00:00 GMT"
            ++ (crlf
                ++ (codes "User: ann b"
                    ++ (crlf
                        ++ (codes "Content-Length: 6" ++ (crlf ++ (crlf ++ codes "room 1"))))))))

created-serialized : serialize_response new_year 300 created ≡ ok created_wire
unfolding serialize_response reason emit_parts buf_append emit_headers emit_each emit_checked
    emit_header emit_length emit_body skipped ci_eq decimal valid_field every is_empty
created-serialized = refl

created-Fits : Reply.Fits new_year created
unfolding kept skipped ci_eq
created-Fits = record {
  date_valid = unfold valid_field every in refl;
  date_fits = omega arith;
  headers = (
    record { key_fits = omega arith; value_fits = omega arith; no_colon = unfold has in refl },
    tt,
  );
  count = omega arith;
  body = omega arith;
}

parse-serialize_response_example :
    parse_response created_wire ≡ ok (Reply.received new_year created)
parse-serialize_response_example =
    parse-serialize_response new_year 300 created created_wire created-serialized created-Fits

parsers-end_example :
    (parse_request (codes "GET") ≢ err out_of_fuel)
    × (parse_response (codes "GET") ≢ err out_of_fuel)
parsers-end_example = parsers-end (codes "GET")
