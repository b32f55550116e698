-- ===== src/Net.antt =====
-- The client's side of the wire: tetriSH/src/tetrisu/net.c, with the records of
-- tetriSH/include/tetrisu/client.h.
pub mod Send
pub mod Receive
pub mod Reach
pub mod Obey
pub mod Service
pub mod Tests
use corestack.Prelude.{ℕ, List, [], Bytes, Bool, true, false, Option, ℤ, pos, negsuc}
use corestack.Brain.Model.{GameState}
use corestack.Room.Model.{SessionState}

pub data ClientPhase : Type 0 where
  cli_disconnected cli_connected cli_waiting cli_playing cli_game_over : ClientPhase

pub data AuthMethod : Type 0 where
  auth_none auth_login auth_register auth_guest : AuthMethod

pub data ClientEvent : Type 0 where
  ev_none ev_game ev_session ev_result ev_reject ev_disconnect ev_history ev_auth_ok : ClientEvent
  ev_auth_reply : ClientEvent

-- `Client`, less the connection's keys and its buffer; `sent` lists the frames that were handed to
-- `session_send`.
pub record NetClient : Type 0 where
  pub fd : ℤ
  pub phase : ClientPhase
  pub room_req : ℤ
  pub assume_owner : Bool
  pub session : SessionState
  pub have_session : Bool
  pub game : GameState
  pub have_game : Bool
  pub last_reject : ℕ
  pub last_winner : ℤ
  pub history : Bytes
  pub have_history : Bool
  pub frames_seen : ℕ
  pub auth_failures : ℕ
  pub auth_refused_last : Bool
  pub auth_pending : AuthMethod
  pub auth_reply : AuthMethod
  pub reconnect_ok : Bool
  pub sent : List Bytes

unfoldable pub clear_auth : NetClient → NetClient
clear_auth c = record c {
  auth_failures = 0;
  auth_refused_last = false;
  auth_pending = auth_none;
  auth_reply = auth_none;
}

unfoldable pub client_disconnect : NetClient → NetClient
client_disconnect c = clear_auth (record c { fd = negsuc 0; phase = cli_disconnected })
