-- ===== src/Session/Tests.antt =====
-- The theorems on a session at a concrete one, and runs of its paths.
use corestack.Prelude.{
  ◌≡◌, refl, true, false, List, [], ◌∷◌, replicate, codes, none, some, pos, negsuc,
}
use corestack.Brain.Model.{GameState, piece_none}
use corestack.Brain.Board.{empty_row}
use corestack.Brain.Game.Inv.{tetrisbrain_init-IsValid}
use corestack.Htttp.Message.{Request}
use corestack.Room.Model.{session_idle, session_playing, SessionState, room_none}
use corestack.Room.Server.{admin_seed, admin_session, admin_recv_garbage}
use corestack.Session.{World, Session, session_reset, session_start_game}
use corestack.Session.Scan.{
  path_room, path_room_player, path_ids, literal, skip_space, scan_signed, scan_unsigned,
  scan_digits, clamp,
}
use corestack.Session.Dispatch.{session_dispatch}
use corestack.Session.Guard.{Answered, session_dispatch-Answered}
use corestack.Session.Loop.{LoopEvent, admin, due, request, run, started}
use corestack.Session.Life.{timely}
use corestack.Session.Run.{IsRunning, seeded_by, run-IsRunning}

abbrev zeroed : GameState
zeroed = record {
  board = replicate 26 empty_row;
  active = record { kind = piece_none; rot = 0; x = pos 0; y = pos 0 };
  next = replicate 5 piece_none;
  held = piece_none;
  hold_used = false;
  score = 0;
  lines = 0;
  level = 0;
  tick_count = 0;
  tick_trigger = 0;
  seed = 0;
  piece_generated_counter = 0;
  game_over = false;
  garbage_out = 0;
  standings = [];
  standing_count = 0;
  my_player_id = pos 0;
}

abbrev nothing : SessionState
nothing = record {
  phase = session_idle;
  room_id = room_none;
  player_id = pos 0;
  is_owner = false;
  roster = [];
}

abbrev world : World
world = record {
  auth_offer = λ req st. false;
  history_offer = λ req name phase. false;
  auth_name = [];
  takes = λ before. true;
  time = 1700000000;
}

-- Player 3 of room 5, at the start of a round.
abbrev player : Session
player = session_start_game world 9 (record (session_reset zeroed nothing) {
  session = record nothing { room_id = pos 5; player_id = pos 3 };
})

-- A move that names another player.
abbrev forged : Request
forged = record {
  method = codes "MOVE";
  path = codes "/room/5/player/9";
  headers = record { key = codes "Player-Id"; value = codes "3" } ∷ [];
  body = codes "LEFT";
}

-- The player's own path under another player's id.
abbrev borrowed : Request
borrowed = record forged {
  path = codes "/room/5/player/3";
  headers = record { key = codes "Player-Id"; value = codes "9" } ∷ [];
}

session_dispatch-Answered_example :
    Answered player borrowed (session_dispatch world player borrowed)
unfolding session_start_game session_reset
session_dispatch-Answered_example =
    session_dispatch-Answered world player borrowed (λ _. (tetrisbrain_init-IsValid _ 9).0)

abbrev round : List LoopEvent
round =
    admin world (admin_seed 9)
    ∷ due world
    ∷ admin world (admin_recv_garbage (pos 2))
    ∷ request world forged
    ∷ admin world (admin_session (record nothing { phase = session_playing }) false)
    ∷ []

run-IsRunning_example : IsRunning true (run round (started (session_reset zeroed nothing)))
unfolding timely seeded_by
run-IsRunning_example = run-IsRunning zeroed nothing round refl

-- A path that goes on behind the ids is none.
trailing : path_ids (codes "/room/1/player/2/x") path_room_player ≡ none
unfolding path_ids literal skip_space scan_signed scan_unsigned scan_digits clamp
trailing = refl

signed : path_ids (codes "/room/-7") path_room ≡ some (negsuc 6, negsuc 0)
unfolding path_ids literal skip_space scan_signed scan_unsigned scan_digits clamp
signed = refl
