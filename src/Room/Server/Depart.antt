-- ===== src/Room/Server/Depart.antt =====
-- `handle_leave` and `client_close` of room.c: a member goes, and what is left of its room.
use corestack.Prelude.{
  Bool, true, false, List, [], ◌∷◌, Option, none, some, ℤ, pos, negsuc, if◌then◌else◌,
}
use corestack.Room.Model.{session_idle, room_none, Client, Room, eq_ℤ}
use corestack.Room.Rank.{client_find}
use corestack.Room.Round.{Ended, no_members, room_check_round_end}
use corestack.Room.Table.{room_find, room_del_member}
use corestack.Room.Server.{Server, admin_result, send_session, room_broadcast}
use corestack.Room.Server.Push.{
  update_client, write_room, has_id, room_push_sessions, room_push_standings,
  room_mark_standings_dirty,
}

abbrev pub make_owner : Client → Client
make_owner c = record c { state = record c.state { is_owner = true } }

-- The owner's place goes to `members[0]`.
unfoldable pub promote : Bool → List ℤ → List Client → List Client
promote false members clients = clients
promote true [] clients = clients
promote true (fd ∷ fds) clients = update_client fd make_owner clients

-- `room_check_round_end` with what it sends: the scoreboard from before the reset where it is a new
-- one, then the result.
unfoldable pub announce : Option Ended → Room → Server → Bool × Room × Server
announce none r s = (false, r, s)
announce (some e) r s =
    let (_, t) = room_push_standings r s in
    let u = room_broadcast r.members (admin_result e.winner) t in
    (true, e.room, record u { clients = e.clients })

abbrev pub check_round_end : Room → Server → Bool × Room × Server
check_round_end r s = announce (room_check_round_end s.clients r) r s

-- The room after the check, as it is pushed and written back.
unfoldable pub settle : ℤ → Bool × Room × Server → Server
settle id (round_ended, r, s) =
    let t = room_push_sessions r s in
    let q = if round_ended then r else room_mark_standings_dirty r in
    record t { rooms = write_room (has_id id) q t.rooms }

-- The room `r` lost a member: it is freed where it is empty.
unfoldable pub departed : ℤ → Bool → Room → Server → Server
departed id was_owner r s =
    if no_members r.members
    then record s { rooms = write_room (has_id id) (record r { id = pos 0 }) s.rooms }
    else settle id
        (check_round_end r (record s { clients = promote was_owner r.members s.clients }))

abbrev pub out_of_room : Client → Client
out_of_room c = record c {
  state = record c.state {
    room_id = room_none;
    player_id = pos 0;
    is_owner = false;
    phase = session_idle;
    roster = [];
  };
  score = pos 0;
}

abbrev pub depart : Option Room → Client → Server → Server
depart none c s = s
depart (some r) c s = departed c.state.room_id c.state.is_owner (room_del_member r c.fd) s

unfoldable pub handle_leave : Client → Server → Server
handle_leave c s =
    if eq_ℤ c.state.room_id room_none
    then send_session c s
    else depart (room_find s.rooms c.state.room_id) c (
        send_session (out_of_room c)
          (record s { clients = update_client c.fd out_of_room s.clients }))

abbrev pub free_slot : Client → Client
free_slot c = record c { fd = negsuc 0 }

unfoldable pub close_client : Option Client → Server → Server
close_client none s = s
close_client (some c) s =
    let t =
      if eq_ℤ c.state.room_id room_none
      then s
      else depart (room_find s.rooms c.state.room_id) c s in
    record t { clients = update_client c.fd free_slot t.clients }

unfoldable pub client_close : ℤ → Server → Server
client_close fd s = close_client (client_find s.clients fd) s
