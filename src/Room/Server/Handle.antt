-- ===== src/Room/Server/Handle.antt =====
-- The other handlers of room.c, and `client_add`, `client_handle` and the steps of the admin thread.
use corestack.Prelude.{
  ℕ, Bool, true, false, not, ◌&&◌, List, [], ◌∷◌, Option, none, some, ℤ, pos, negsuc, if◌then◌else◌,
  replicate,
}
use corestack.Room.Model.{
  SessionPhase, session_none, session_playing, session_game_over, is_playing, room_none, Client,
  Room, eq_ℤ,
}
use corestack.Room.Rank.{client_find}
use corestack.Room.Table.{room_find, client_alloc, client_take_wedged, max_sessions, max_rooms}
use corestack.Room.Attack.{handle_garbage}
use corestack.Room.Server.{
  AdminMsg, admin_join, admin_leave, admin_start, admin_garbage, admin_gameover, admin_session,
  admin_seed, admin_recv_garbage, admin_result, admin_reject, admin_score, admin_standings,
  reject_not_owner, reject_conflict, reject_full, Sent, Server, send_msg, room_broadcast,
}
use corestack.Room.Server.Push.{
  update_client, write_room, has_id, room_mark_standings_dirty, room_flush_updates,
}
use corestack.Room.Server.Depart.{check_round_end, handle_leave, client_close}
use corestack.Room.Server.Join.{refuse, handle_join}

abbrev pub in_phase : SessionPhase → Client → Client
in_phase phase c = record c { state = record c.state { phase = phase } }

unfoldable pub play_members : List ℤ → List Client → List Client
play_members [] clients = clients
play_members (fd ∷ fds) clients =
    play_members fds (update_client fd (in_phase session_playing) clients)

-- `seed` is what `gen_seed` gives.
unfoldable pub start_room : ℕ → Client → Option Room → Server → ℕ × Server
start_room seed c none s = refuse c reject_conflict s
start_room seed c (some r) s =
    let q = record r { seed = seed; phase = session_playing; standings_dirty = true } in
    let t =
      room_broadcast r.members (admin_seed seed)
        (record s { clients = play_members r.members s.clients }) in
    if is_playing r.phase
    then refuse c reject_conflict s
    else (0, record t { rooms = write_room (has_id c.state.room_id) q t.rooms })

unfoldable pub handle_start : ℕ → Client → Server → ℕ × Server
handle_start seed c s =
    if eq_ℤ c.state.room_id room_none
    then refuse c reject_conflict s
    else if not c.state.is_owner
    then refuse c reject_not_owner s
    else start_room seed c (room_find s.rooms c.state.room_id) s

abbrev pub send_garbage : Option (ℤ × ℤ) → Server → Server
send_garbage none s = s
send_garbage (some (fd, lines)) s = send_msg fd (admin_recv_garbage lines) s

abbrev pub mark_room : ℤ → Option Room → List Room → List Room
mark_room id none rooms = rooms
mark_room id (some r) rooms = write_room (has_id id) (room_mark_standings_dirty r) rooms

abbrev pub with_score : ℤ → ℤ → Client → Client
with_score score lines c = record c { score = score; lines = lines }

unfoldable pub handle_score : Client → ℤ → ℤ → Server → Server
handle_score c score lines s =
    if eq_ℤ c.state.room_id room_none
    then s
    else if eq_ℤ c.score score && eq_ℤ c.lines lines
    then s
    else record s {
      clients = update_client c.fd (with_score score lines) s.clients;
      rooms = mark_room c.state.room_id (room_find s.rooms c.state.room_id) s.rooms;
    }

abbrev pub topped_out : ℤ → Client → Client
topped_out score c = record c {
  state = record c.state { phase = session_game_over };
  score = score;
}

abbrev pub write_back : ℤ → Bool × Room × Server → Server
write_back id (_, r, s) = record s { rooms = write_room (has_id id) r s.rooms }

unfoldable pub end_round : ℤ → Option Room → Server → Server
end_round id none s = s
end_round id (some r) s = write_back id (check_round_end (room_mark_standings_dirty r) s)

unfoldable pub handle_gameover : Client → ℤ → Server → Server
handle_gameover c score s =
    if eq_ℤ c.state.room_id room_none
    then s
    else end_round c.state.room_id (room_find s.rooms c.state.room_id)
        (record s { clients = update_client c.fd (topped_out score) s.clients })

-- The status goes to the log.
unfoldable pub handle : Client → AdminMsg → ℕ → Server → ℕ × Server
handle c (admin_join room_id name) seed s = handle_join c room_id name s
handle c admin_leave seed s = (0, handle_leave c s)
handle c admin_start seed s = handle_start seed c s
handle c (admin_garbage lines) seed s =
    (0, send_garbage (handle_garbage s.clients s.rooms c lines) s)
handle c (admin_gameover score) seed s = (0, handle_gameover c score s)
handle c (admin_score score lines) seed s = (0, handle_score c score lines s)
handle c (admin_session session created) seed s = (400, s)
handle c (admin_seed n) seed s = (400, s)
handle c (admin_recv_garbage lines) seed s = (400, s)
handle c (admin_result winner) seed s = (400, s)
handle c (admin_reject reason) seed s = (400, s)
handle c (admin_standings rows) seed s = (400, s)

unfoldable pub handle_found : Option Client → AdminMsg → ℕ → Server → ℕ × Server
handle_found none msg seed s = (404, s)
handle_found (some c) msg seed s = handle c msg seed s

abbrev pub client_handle : ℤ → AdminMsg → ℕ → Server → ℕ × Server
client_handle fd msg seed s = handle_found (client_find s.clients fd) msg seed s

unfoldable pub add_client : ℤ → Option (List Client) → Server → Server
add_client fd none s = send_msg fd (admin_reject reject_full) s
add_client fd (some clients) s = record s { clients = clients }

abbrev pub client_add : ℤ → ℤ → Server → Server
client_add fd pid s = add_client fd (client_alloc s.clients fd pid) s

abbrev pub take_wedged : Server → Server
take_wedged s = record s { wedged = (client_take_wedged s.wedged).1 }

-- What the admin thread calls.
pub data Call : Type 0 where
  add : (fd pid : ℤ) → Call
  message : (fd : ℤ) (msg : AdminMsg) (seed : ℕ) → Call
  flush : Call
  close : (fd : ℤ) → Call
  wedged : Call

unfoldable pub serve : Call → Server → Server
serve (add fd pid) s = client_add fd pid s
serve (message fd msg seed) s = (client_handle fd msg seed s).1
serve flush s = room_flush_updates s
serve (close fd) s = client_close fd s
serve wedged s = take_wedged s

unfoldable pub serve_all : List Call → Server → Server
serve_all [] s = s
serve_all (c ∷ cs) s = serve_all cs (serve c s)

abbrev pub no_client : Client
no_client = record {
  fd = negsuc 0;
  pid = pos 0;
  state = record {
    phase = session_none;
    room_id = pos 0;
    player_id = pos 0;
    is_owner = false;
    roster = [];
  };
  score = pos 0;
  lines = pos 0;
  name = [];
}

abbrev pub no_room : Room
no_room = record {
  id = pos 0;
  phase = session_none;
  seed = 0;
  next_player_id = 0;
  members = [];
  standings_dirty = false;
  have_standings = false;
  last_standings = [];
}

-- What `ensure_init` makes of the tables, which are zero before.
unfoldable pub ensure_init : (List Sent → ℤ → Bool) → Server
ensure_init blocks = record {
  clients = replicate max_sessions no_client;
  rooms = replicate max_rooms no_room;
  wedged = [];
  sent = [];
  blocks = blocks;
}
