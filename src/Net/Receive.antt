-- ===== src/Net/Receive.antt =====
-- The receive path of net.c. The layout of the structs in a body belongs to the machine, so how a
-- body is read is a parameter.
use corestack.Prelude.{
  ℕ, ◌+◌, ◌%◌, ◌^◌, Bool, true, false, ◌&&◌, Bytes, bytes_eq, codes, Option, none, some, ℤ, leb,
  ltb, if◌then◌else◌,
}
use corestack.Brain.Model.{GameState}
use corestack.Htttp.Result.{Result, ok, err}
use corestack.Htttp.Message.{Request, Response}
use corestack.Htttp.Parse.{parse_request, parse_response}
use corestack.Room.Model.{
  SessionPhase, session_waiting, session_playing, session_game_over, session_idle, room_none,
  SessionState, eq_ℤ,
}
use corestack.Net.{
  ClientPhase, cli_disconnected, cli_connected, cli_waiting, cli_playing, cli_game_over, AuthMethod,
  auth_none, ClientEvent, ev_none, ev_game, ev_session, ev_result, ev_reject, ev_disconnect,
  ev_history, ev_auth_ok, ev_auth_reply, NetClient, clear_auth,
}

-- The bodies that have the size of the struct; none for any other length.
pub record Structs : Type 0 where
  pub game : Bytes → Option GameState
  pub session : Bytes → Option SessionState
  pub winner : Bytes → Option ℤ
  pub history : Bytes → Option Bytes

-- What `session_recv` gives: the end of the connection, a frame that is lost, or a frame.
pub data Arrival : Type 0 where
  ended : Arrival
  lost : Arrival
  frame : Bytes → Arrival

abbrev pub is_success : ℕ → Bool
is_success status = leb 200 status && ltb status 300

unfoldable pub fold_auth_reply : NetClient → ClientEvent × NetClient
fold_auth_reply c =
    let d = record c { auth_reply = c.auth_pending; auth_pending = auth_none } in
    if is_success c.last_reject
    then (ev_auth_ok, record d { auth_refused_last = false })
    else (ev_reject, record d { auth_failures = d.auth_failures + 1; auth_refused_last = true })

abbrev pub is_auth_none : AuthMethod → Bool
is_auth_none auth_none = true
is_auth_none _ = false

unfoldable pub take_response : Response → NetClient → ClientEvent × NetClient
take_response res c =
    let d = record c { last_reject = res.status } in
    if is_success res.status && is_auth_none c.auth_pending
    then (ev_none, c)
    else if is_auth_none c.auth_pending
    then (ev_reject, d)
    else (ev_auth_reply, d)

-- The first frame of a round tells that it runs.
abbrev pub started : ClientPhase → ClientPhase
started cli_waiting = cli_playing
started cli_connected = cli_playing
started p = p

abbrev pub shown : GameState → ClientPhase → ClientPhase
shown g p = if g.game_over then cli_game_over else started p

unfoldable pub take_state : Option GameState → NetClient → ClientEvent × NetClient
take_state none c = (ev_none, c)
take_state (some g) c = if eq_ℤ c.session.room_id room_none then (ev_none, c) else (
  ev_game,
  record c {
    game = g;
    have_game = true;
    frames_seen = (c.frames_seen + 1) % (2 ^ 32);
    phase = shown g c.phase;
  },
)

abbrev pub phase_of : SessionPhase → ClientPhase → ClientPhase
phase_of session_waiting p = cli_waiting
phase_of session_playing p = cli_playing
phase_of session_game_over p = cli_game_over
phase_of session_idle p = cli_connected
phase_of _ p = p

unfoldable pub take_session : Option SessionState → NetClient → ClientEvent × NetClient
take_session none c = (ev_none, c)
take_session (some st) c =
    (ev_session, record c { session = st; have_session = true; phase = phase_of st.phase c.phase })

unfoldable pub take_result : Option ℤ → NetClient → ClientEvent × NetClient
take_result none c = (ev_none, c)
take_result (some winner) c = (ev_result, record c { last_winner = winner })

unfoldable pub take_history : Option Bytes → NetClient → ClientEvent × NetClient
take_history none c = (ev_none, c)
take_history (some h) c = (ev_history, record c { history = h; have_history = true })

-- A pushed request, by its method.
unfoldable pub take_request : Structs → Result Request → NetClient → ClientEvent × NetClient
take_request structs (err e) c = (ev_none, c)
take_request structs (ok req) c =
    if bytes_eq req.method (codes "STATE")
    then take_state (structs.game req.body) c
    else if bytes_eq req.method (codes "UPD_SESSION")
    then take_session (structs.session req.body) c
    else if bytes_eq req.method (codes "UPD_RESULT")
    then take_result (structs.winner req.body) c
    else if bytes_eq req.method (codes "UPD_HISTORY")
    then take_history (structs.history req.body) c
    else (ev_none, c)

-- A frame is read as a response first.
abbrev pub take_frame : Structs → Result Response → Bytes → NetClient → ClientEvent × NetClient
take_frame structs (ok res) buf c = take_response res c
take_frame structs (err e) buf c = take_request structs (parse_request buf) c

unfoldable pub net_service : Structs → Arrival → NetClient → ClientEvent × NetClient
net_service structs ended c = (ev_disconnect, record c { phase = cli_disconnected })
net_service structs lost c = (ev_none, c)
net_service structs (frame buf) c = take_frame structs (parse_response buf) buf c

abbrev pub fold_reply : ClientEvent × NetClient → ClientEvent × NetClient
fold_reply (ev_auth_reply, c) = fold_auth_reply c
fold_reply p = p

abbrev pub close_auth : Bool → ClientEvent × NetClient → ClientEvent × NetClient
close_auth possible_cap (ev_disconnect, c) =
    (ev_disconnect, clear_auth (record c { reconnect_ok = possible_cap }))
close_auth possible_cap p = p

unfoldable pub client_service : Structs → Arrival → NetClient → ClientEvent × NetClient
client_service structs arrival c =
    close_auth c.auth_refused_last
      (fold_reply (net_service structs arrival (record c { auth_refused_last = false })))

abbrev pub client_phase_str : ClientPhase → Bytes
client_phase_str cli_disconnected = codes "disconnected"
client_phase_str cli_connected = codes "lobby"
client_phase_str cli_waiting = codes "waiting"
client_phase_str cli_playing = codes "playing"
client_phase_str cli_game_over = codes "game over"
