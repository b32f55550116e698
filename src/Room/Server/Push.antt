-- ===== src/Room/Server/Push.antt =====
-- What room.c publishes to a whole room: the roster and the scoreboard.
use corestack.Prelude.{
  Bool, true, false, ◌&&◌, ◌||◌, List, [], ◌∷◌, Option, none, some, ℤ, pos, if◌then◌else◌, bytes_eq,
  negsuc,
}
use corestack.Brain.Model.{PlayerStanding}
use corestack.Room.Model.{RoomMember, Client, Room, eq_ℤ}
use corestack.Room.Rank.{client_find, room_standings, room_roster}
use corestack.Room.Round.{no_members}
use corestack.Room.Server.{Server, admin_standings, send_session_ex, room_broadcast}

-- A write through the pointer that `client_find` gives for a descriptor.
unfoldable pub update_client : ℤ → (Client → Client) → List Client → List Client
update_client fd f [] = []
update_client fd f (c ∷ cs) =
    let rest = update_client fd f cs in if eq_ℤ c.fd fd then f c ∷ cs else c ∷ rest

-- A write to the first slot of `g_rooms` that passes the test.
unfoldable pub write_room : (Room → Bool) → Room → List Room → List Room
write_room slot q [] = []
write_room slot q (r ∷ rs) = let rest = write_room slot q rs in if slot r then q ∷ rs else r ∷ rest

abbrev pub has_id : ℤ → Room → Bool
has_id id r = eq_ℤ r.id id

abbrev pub with_roster : List RoomMember → Client → Client
with_roster roster c = record c { state = record c.state { roster = roster } }

unfoldable pub push_to : List RoomMember → ℤ → Option Client → Server → Server
push_to roster creator none s = s
push_to roster creator (some c) s =
    send_session_ex (with_roster roster c) (eq_ℤ c.fd creator)
      (record s { clients = update_client c.fd (with_roster roster) s.clients })

-- The second loop of `room_push_sessions_ex`.
unfoldable pub push_roster : List RoomMember → ℤ → List ℤ → Server → Server
push_roster roster creator [] s = s
push_roster roster creator (fd ∷ fds) s =
    push_roster roster creator fds (push_to roster creator (client_find s.clients fd) s)

-- Nothing is published for a room that is free or empty.
abbrev pub is_quiet : Room → Bool
is_quiet r = eq_ℤ r.id (pos 0) || no_members r.members

unfoldable pub room_push_sessions_ex : Room → ℤ → Server → Server
room_push_sessions_ex r creator s =
    if is_quiet r then s else push_roster (room_roster s.clients r) creator r.members s

abbrev pub room_push_sessions : Room → Server → Server
room_push_sessions r s = room_push_sessions_ex r (negsuc 0) s

abbrev pub same_bool : Bool → Bool → Bool
same_bool true b = b
same_bool false true = false
same_bool false false = true

abbrev pub standing_eq : PlayerStanding → PlayerStanding → Bool
standing_eq a b =
    eq_ℤ a.player_id b.player_id
    && (bytes_eq a.name b.name
        && (eq_ℤ a.score b.score && (eq_ℤ a.lines b.lines && same_bool a.game_over b.game_over)))

-- `memcmp(&r->last_standings, &m, sizeof m) == 0`: the rows that are not in use are zero.
unfoldable pub standings_eq : List PlayerStanding → List PlayerStanding → Bool
standings_eq [] [] = true
standings_eq (a ∷ left) (b ∷ right) = standing_eq a b && standings_eq left right
standings_eq _ _ = false

abbrev pub published : List PlayerStanding → Room → Room
published rows r = record r { last_standings = rows; have_standings = true }

-- The room's record afterwards, and the server.
unfoldable pub room_push_standings : Room → Server → Room × Server
room_push_standings r s =
    let rows = room_standings s.clients r in
    if is_quiet r || r.have_standings && standings_eq r.last_standings rows
    then (r, s)
    else (published rows r, room_broadcast r.members (admin_standings rows) s)

abbrev pub room_mark_standings_dirty : Room → Room
room_mark_standings_dirty r = record r { standings_dirty = true }

-- One slot of `g_rooms` in `room_flush_updates`.
abbrev pub flush_room : Room → Server → Room × Server
flush_room r s =
    let clean = record r { standings_dirty = false } in
    if r.standings_dirty
    then (if eq_ℤ r.id (pos 0) then (clean, s) else room_push_standings clean s)
    else (r, s)

-- The slots afterwards; the tables of `s` are those from before.
unfoldable pub flush_rooms : List Room → Server → List Room × Server
flush_rooms [] s = ([], s)
flush_rooms (r ∷ rs) s =
    let (q, t) = flush_room r s in let (qs, u) = flush_rooms rs t in (q ∷ qs, u)

unfoldable pub room_flush_updates : Server → Server
room_flush_updates s = let (rs, t) = flush_rooms s.rooms s in record t { rooms = rs }
