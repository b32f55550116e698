-- ===== src/Net/Send.antt =====
-- The commands of net.c.
use corestack.Prelude.{
  ℕ, Bool, true, false, List, [], ◌∷◌, ◌++◌, Bytes, bytes_eq, codes, ℤ, pos, ltb, if◌then◌else◌,
  length,
}
use corestack.Htttp.Result.{Result, ok, err}
use corestack.Htttp.Message.{Header, Request, header_set, is_empty}
use corestack.Htttp.Serialize.{serialize_request}
use corestack.Room.Model.{room_none, eq_ℤ, ltb_ℤ}
use corestack.Net.{
  cli_connected, cli_waiting, AuthMethod, auth_login, auth_register, auth_guest, NetClient,
}
use corestack.Session.Scan.{print_int}

abbrev pub htttp_max_frame : ℕ
htttp_max_frame = 65536

abbrev pub auth_path : Bytes
auth_path = codes "/auth"

abbrev pub kept_headers : List Header → Result (List Header) → List Header
kept_headers hs (ok new) = new
kept_headers hs (err e) = hs

-- A header that does not fit is left out.
abbrev pub set_header : Bytes → Bytes → List Header → List Header
set_header key value hs = kept_headers hs (header_set hs key value)

-- The request that `send_cmd` serializes.
unfoldable pub request_of : NetClient → Bytes → Bytes → Bytes → Request
request_of c method path body =
    let typed =
      if is_empty body
      then []
      else set_header (codes "Content-Type") (codes "application/tetris-command") [] in
    record {
      method = method;
      path = path;
      headers =
          if bytes_eq path auth_path
          then typed
          else set_header (codes "Player-Id") (print_int c.session.player_id) typed;
      body = body;
    }

-- Whether the result is 0, and the client; `takes` tells whether `session_send` takes a frame.
abbrev pub sent_frame : (Bytes → Bool) → NetClient → Result Bytes → Bool × NetClient
sent_frame takes c (err e) = (false, c)
sent_frame takes c (ok frame) =
    if takes frame then (true, record c { sent = c.sent ++ (frame ∷ []) }) else (false, c)

unfoldable pub send_cmd : (Bytes → Bool) → NetClient → Bytes → Bytes → Bytes → Bool × NetClient
send_cmd takes c method path body =
    if ltb_ℤ c.fd (pos 0)
    then (false, c)
    else sent_frame takes c (serialize_request htttp_max_frame (request_of c method path body))

abbrev pub room_path : ℤ → Bytes
room_path room = codes "/room/" ++ print_int room

abbrev pub player_path : NetClient → Bytes
player_path c =
    codes "/room/"
    ++ (print_int c.session.room_id ++ (codes "/player/" ++ print_int c.session.player_id))

abbrev pub send_word : (Bytes → Bool) → NetClient → Bytes → Bytes → Bool × NetClient
send_word takes c method word = send_cmd takes c method (player_path c) word

abbrev pub waits : Bool × NetClient → Bool × NetClient
waits (true, c) = (true, record c { phase = cli_waiting })
waits (false, c) = (false, c)

unfoldable pub client_join : (Bytes → Bool) → NetClient → ℤ → Bool × NetClient
client_join takes c room_id = waits (
    send_cmd takes (record c { room_req = room_id; assume_owner = eq_ℤ room_id (pos 0) })
      (codes "JOIN") (room_path room_id) [])

-- The room in a LEAVE or START: the one that the server told, or else the one that was asked for.
abbrev pub claimed_room : NetClient → ℤ
claimed_room c = if c.have_session then c.session.room_id else c.room_req

abbrev pub left : Bool × NetClient → Bool × NetClient
left (sent, c) = (
  sent,
  record c {
    phase = cli_connected;
    room_req = pos 0;
    assume_owner = false;
    session = record c.session { room_id = room_none };
    have_game = false;
  },
)

unfoldable pub client_leave : (Bytes → Bool) → NetClient → Bool × NetClient
client_leave takes c = left (send_cmd takes c (codes "LEAVE") (room_path (claimed_room c)) [])

unfoldable pub client_start : (Bytes → Bool) → NetClient → Bool × NetClient
client_start takes c = send_cmd takes c (codes "START") (room_path (claimed_room c)) []

abbrev pub move_word : Bool → Bytes
move_word right = if right then codes "RIGHT" else codes "LEFT"

unfoldable pub client_move : (Bytes → Bool) → NetClient → Bool → Bool × NetClient
client_move takes c right = send_word takes c (codes "MOVE") (move_word right)

abbrev pub rotate_word : Bool → Bytes
rotate_word right = if right then codes "CW" else codes "CCW"

unfoldable pub client_rotate : (Bytes → Bool) → NetClient → Bool → Bool × NetClient
client_rotate takes c right = send_word takes c (codes "ROTATE") (rotate_word right)

abbrev pub drop_word : Bool → Bytes
drop_word hard = if hard then codes "HARD" else codes "SOFT"

unfoldable pub client_drop : (Bytes → Bool) → NetClient → Bool → Bool × NetClient
client_drop takes c hard = send_word takes c (codes "DROP") (drop_word hard)

unfoldable pub client_hold : (Bytes → Bool) → NetClient → Bool × NetClient
client_hold takes c = send_cmd takes c (codes "HOLD") (player_path c) []

unfoldable pub client_history : (Bytes → Bool) → NetClient → Bool × NetClient
client_history takes c = send_cmd takes c (codes "HISTORY") (codes "/player/history") []

abbrev pub auth_body_max : ℕ
auth_body_max = 256

unfoldable pub send_auth :
    (Bytes → Bool) → NetClient → AuthMethod → Bytes → Bytes → Bytes → Bool × NetClient
send_auth takes c method wire_method username password =
    let d = record c { auth_pending = method } in
    let body = username ++ (10 ∷ password) in
    if ltb (length body) auth_body_max
    then send_cmd takes d wire_method auth_path body
    else (false, d)

abbrev pub client_login : (Bytes → Bool) → NetClient → Bytes → Bytes → Bool × NetClient
client_login takes c username password =
    send_auth takes c auth_login (codes "LOGIN") username password

abbrev pub client_register : (Bytes → Bool) → NetClient → Bytes → Bytes → Bool × NetClient
client_register takes c username password =
    send_auth takes c auth_register (codes "REGISTER") username password

unfoldable pub client_guest : (Bytes → Bool) → NetClient → Bool × NetClient
client_guest takes c =
    send_cmd takes (record c { auth_pending = auth_guest }) (codes "GUEST") auth_path []
