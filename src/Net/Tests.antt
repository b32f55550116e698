-- ===== src/Net/Tests.antt =====
-- The theorems on the client at a concrete client and session.
use corestack.Prelude.{true, false, [], replicate, none, pos, negsuc}
use corestack.Brain.Model.{GameState, piece_none}
use corestack.Brain.Board.{empty_row}
use corestack.Room.Model.{session_playing, SessionState}
use corestack.Net.{NetClient, cli_playing, auth_guest, auth_none}
use corestack.Net.Receive.{Structs}
use corestack.Session.{World, Session}

abbrev game : GameState
game = record {
  board = replicate 26 empty_row;
  active = record { kind = piece_none; rot = 0; x = pos 0; y = pos 0 };
  next = replicate 5 piece_none;
  held = piece_none;
  hold_used = false;
  score = 0;
  lines = 0;
  level = 0;
  tick_count = 0;
  tick_trigger = 0;
  seed = 0;
  piece_generated_counter = 0;
  game_over = false;
  garbage_out = 0;
  standings = [];
  standing_count = 0;
  my_player_id = pos 3;
}

abbrev seat : SessionState
seat = record {
  phase = session_playing;
  room_id = pos 5;
  player_id = pos 3;
  is_owner = false;
  roster = [];
}

abbrev client : NetClient
client = record {
  fd = pos 4;
  phase = cli_playing;
  room_req = pos 5;
  assume_owner = false;
  session = seat;
  have_session = true;
  game = game;
  have_game = true;
  last_reject = 0;
  last_winner = negsuc 0;
  history = [];
  have_history = false;
  frames_seen = 10;
  auth_failures = 2;
  auth_refused_last = true;
  auth_pending = auth_guest;
  auth_reply = auth_none;
  reconnect_ok = false;
  sent = [];
}

abbrev world : World
world = record {
  auth_offer = λ req st. false;
  history_offer = λ req name phase. false;
  auth_name = [];
  takes = λ before. true;
  time = 1700000000;
}

abbrev session : Session
session = record {
  session = seat;
  game = game;
  user_name = [];
  ts_start = 0;
  pushed = [];
  to_admin = [];
}

abbrev structs : Structs
structs = record {
  game = λ body. none;
  session = λ body. none;
  winner = λ body. none;
  history = λ body. none;
}
