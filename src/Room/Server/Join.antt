-- ===== src/Room/Server/Join.antt =====
-- `handle_join` of room.c.
use corestack.Prelude.{
  ℕ, suc, Bool, true, false, not, List, [], ◌∷◌, ◌++◌, Bytes, Option, none, some, ℤ, pos, negsuc,
  ◌==◌, if◌then◌else◌, length, take, codes,
}
use corestack.Htttp.Serialize.{decimal}
use corestack.Room.Model.{session_waiting, is_playing, room_none, Client, Room, eq_ℤ}
use corestack.Room.Table.{room_find, room_create, room_add_member}
use corestack.Room.Server.{Server, reject_conflict, reject_full, send_reject}
use corestack.Room.Server.Push.{update_client, write_room, has_id, room_push_sessions_ex}
use corestack.Util.Name.{user_name_max}

-- The status, which the log takes, and the server.
abbrev pub refuse : Client → ℕ → Server → ℕ × Server
refuse c reason s = (reason, send_reject c reason s)

-- `snprintf` cuts the name to its array.
abbrev pub name_or_player : Bytes → ℕ → Bytes
name_or_player [] id = take user_name_max (codes "Player " ++ decimal 10 id)
name_or_player (b ∷ name) id = take user_name_max (b ∷ name)

-- The record of a client that was added to the members of `r`.
abbrev pub entered : Bytes → Room → Client → Client
entered name r c = record c {
  state = record c.state {
    room_id = r.id;
    player_id = pos r.next_player_id;
    is_owner = length r.members == 1;
    phase = session_waiting;
  };
  name = name_or_player name r.next_player_id;
  score = pos 0;
  lines = pos 0;
}

abbrev pub grown : Room → Room
grown r = record r {
  next_player_id = suc r.next_player_id;
  have_standings = false;
  standings_dirty = true;
}

-- `r` is the room before the client is in it, `slot` its place in `g_rooms`.
unfoldable pub enter :
    Client → Bytes → Bool → (Room → Bool) → Room → Option Room → Server → ℕ × Server
enter c name created slot r none s =
    refuse c reject_full (record s { rooms = write_room slot r s.rooms })
enter c name created slot r (some q) s =
    let t =
      room_push_sessions_ex (grown q) (if created then c.fd else negsuc 0)
        (record s { clients = update_client c.fd (entered name q) s.clients }) in
    (0, record t { rooms = write_room slot (grown q) t.rooms })

abbrev pub join_new : Client → Bytes → Option (Room × List Room) → Server → ℕ × Server
join_new c name none s = refuse c reject_full s
join_new c name (some (r, _)) s = enter c name true (has_id (pos 0)) r (room_add_member r c.fd) s

unfoldable pub join_room : Client → ℤ → Bytes → Option Room → Server → ℕ × Server
join_room c want name none s = join_new c name (room_create s.rooms want) s
join_room c want name (some r) s =
    if is_playing r.phase
    then refuse c reject_conflict s
    else enter c name false (has_id want) r (room_add_member r c.fd) s

-- A room that is wanted by number is joined, or created where there is none.
unfoldable pub handle_join : Client → ℤ → Bytes → Server → ℕ × Server
handle_join c want name s =
    if not (eq_ℤ c.state.room_id room_none)
    then refuse c reject_conflict s
    else join_room c want name (if eq_ℤ want (pos 0) then none else room_find s.rooms want) s
