-- ===== src/Room/Server/Sound.antt =====
-- What the tables of room.c keep, and that sending and publishing keep it.
use corestack.Prelude.{
  suc, ◌≡◌, refl, ap, ◌∙◌, arith, Bool, true, false, not, ◌&&◌, ◌||◌, List, [], ◌∷◌, Option, none,
  some, ℤ, pos, leb, if◌then◌else◌, length,
}
use corestack.Room.Model.{RoomMember, Client, Room, eq_ℤ}
use corestack.Room.Rank.{client_find, room_standings, room_roster}
use corestack.Room.Round.{no_members}
use corestack.Room.Table.{max_sessions, max_rooms, max_room_members, mark_wedged}
use corestack.Room.Members.{IsWedged, mark_wedged-IsWedged}
use corestack.Room.Server.{AdminMsg, admin_standings, Server, send_msg, room_broadcast}
use corestack.Room.Server.Push.{
  update_client, write_room, with_roster, push_to, push_roster, is_quiet, room_push_sessions_ex,
  standings_eq, published, room_push_standings, flush_room, flush_rooms, room_flush_updates,
}

-- The members of a room fit their array, and a room in use has some.
abbrev pub sound : Room → Bool
sound r =
    leb (length r.members) max_room_members && (eq_ℤ r.id (pos 0) || not (no_members r.members))

unfoldable pub all_sound : List Room → Bool
all_sound [] = true
all_sound (r ∷ rs) = sound r && all_sound rs

pub record IsSound (s : Server) : Type 0 where
  pub clients : length s.clients ≡ max_sessions
  pub rooms : length s.rooms ≡ max_rooms
  pub members : all_sound s.rooms ≡ true
  pub wedged : IsWedged s.wedged

-- The tables of the second server are as good as those of the first.
pub with_clients :
    (s : Server) (cs : List Client)
    → length cs ≡ length s.clients
    → IsSound s
    → IsSound (record s { clients = cs })
with_clients s cs e w = record {
  clients = e ∙ w.clients;
  rooms = w.rooms;
  members = w.members;
  wedged = w.wedged;
}

pub length-update_client :
    (fd : ℤ) (f : Client → Client) (cs : List Client) → length (update_client fd f cs) ≡ length cs
unfolding update_client
length-update_client fd f [] = refl
length-update_client fd f (c ∷ cs) = ground (arith, length-update_client fd f cs)

pub with_update :
    (s : Server) (fd : ℤ) (f : Client → Client)
    → IsSound s
    → IsSound (record s { clients = update_client fd f s.clients })
with_update s fd f w = with_clients s _ (length-update_client fd f s.clients) w

pub length-write_room :
    (slot : Room → Bool) (q : Room) (rs : List Room) → length (write_room slot q rs) ≡ length rs
unfolding write_room
length-write_room slot q [] = refl
length-write_room slot q (r ∷ rs) = ground (arith, length-write_room slot q rs)

write_room-sound :
    (slot : Room → Bool) (q : Room) (rs : List Room)
    → sound q ≡ true
    → all_sound rs ≡ true
    → all_sound (write_room slot q rs) ≡ true
unfolding write_room all_sound
write_room-sound slot q [] e h = refl
write_room-sound slot q (r ∷ rs) e h = ground (arith, write_room-sound slot q rs)

pub with_room :
    (s : Server) (slot : Room → Bool) (q : Room)
    → sound q ≡ true
    → IsSound s
    → IsSound (record s { rooms = write_room slot q s.rooms })
with_room s slot q e w = record {
  clients = w.clients;
  rooms = length-write_room slot q s.rooms ∙ w.rooms;
  members = write_room-sound slot q s.rooms e w.members;
  wedged = w.wedged;
}

if-IsWedged :
    (b : Bool) (fd : ℤ) (l : List ℤ) → IsWedged l → IsWedged (if b then mark_wedged l fd else l)
if-IsWedged true fd l w = mark_wedged-IsWedged l fd w
if-IsWedged false fd l w = w

pub send_msg-IsSound : (fd : ℤ) (m : AdminMsg) (s : Server) → IsSound s → IsSound (send_msg fd m s)
unfolding send_msg
send_msg-IsSound fd m s w = record {
  clients = w.clients;
  rooms = w.rooms;
  members = w.members;
  wedged = if-IsWedged (s.blocks s.sent fd) fd s.wedged w.wedged;
}

pub room_broadcast-IsSound :
    (fds : List ℤ) (m : AdminMsg) (s : Server) → IsSound s → IsSound (room_broadcast fds m s)
unfolding room_broadcast
room_broadcast-IsSound [] m s w = w
room_broadcast-IsSound (fd ∷ fds) m s w =
    room_broadcast-IsSound fds m (send_msg fd m s) (send_msg-IsSound fd m s w)

push_to-IsSound :
    (roster : List RoomMember) (creator : ℤ) (o : Option Client) (s : Server)
    → IsSound s
    → IsSound (push_to roster creator o s)
unfolding push_to
push_to-IsSound roster creator none s w = w
push_to-IsSound roster creator (some c) s w =
    send_msg-IsSound c.fd _ _
      (with_clients s _ (length-update_client c.fd (with_roster roster) s.clients) w)

push_roster-IsSound :
    (roster : List RoomMember) (creator : ℤ) (fds : List ℤ) (s : Server)
    → IsSound s
    → IsSound (push_roster roster creator fds s)
unfolding push_roster
push_roster-IsSound roster creator [] s w = w
push_roster-IsSound roster creator (fd ∷ fds) s w =
    push_roster-IsSound roster creator fds (push_to roster creator (client_find s.clients fd) s)
      (push_to-IsSound roster creator (client_find s.clients fd) s w)

pub if-IsSound : (b : Bool) (s t : Server) → IsSound s → IsSound t → IsSound (if b then s else t)
if-IsSound true s t v w = v
if-IsSound false s t v w = w

pub room_push_sessions_ex-IsSound :
    (r : Room) (creator : ℤ) (s : Server) → IsSound s → IsSound (room_push_sessions_ex r creator s)
unfolding room_push_sessions_ex
room_push_sessions_ex-IsSound r creator s w =
    if-IsSound (is_quiet r) s _ w
      (push_roster-IsSound (room_roster s.clients r) creator r.members s w)

-- Of a room and the server next to it.
abbrev pub IsPair : Room × Server → Type 0
IsPair p = (sound p.0 ≡ true) × IsSound p.1

pub if-IsPair : (b : Bool) (p q : Room × Server) → IsPair p → IsPair q → IsPair (if b then p else q)
if-IsPair true p q v w = v
if-IsPair false p q v w = w

pub room_push_standings-IsPair :
    (r : Room) (s : Server) → sound r ≡ true → IsSound s → IsPair (room_push_standings r s)
unfolding room_push_standings
room_push_standings-IsPair r s e w =
    let rows = room_standings s.clients r in
    if-IsPair (is_quiet r || r.have_standings && standings_eq r.last_standings rows) (r, s)
      (published rows r, room_broadcast r.members (admin_standings rows) s) (e, w)
      (e, room_broadcast-IsSound r.members (admin_standings rows) s w)

and-true : (a b : Bool) → a ≡ true → b ≡ true → (a && b) ≡ true
and-true a b e f = ground arith

flush_room-IsPair : (r : Room) (s : Server) → sound r ≡ true → IsSound s → IsPair (flush_room r s)
flush_room-IsPair r s e w =
    let clean : Room = record r { standings_dirty = false } in
    if-IsPair r.standings_dirty _ (r, s)
      (if-IsPair (eq_ℤ r.id (pos 0)) (clean, s) (room_push_standings clean s) (e, w)
        (room_push_standings-IsPair clean s e w))
      (e, w)

flush_rooms-IsSound :
    (rs : List Room) (s : Server)
    → all_sound rs ≡ true
    → IsSound s
    → (length (flush_rooms rs s).0 ≡ length rs)
      × (all_sound (flush_rooms rs s).0 ≡ true)
      × IsSound (flush_rooms rs s).1
unfolding flush_rooms all_sound
flush_rooms-IsSound [] s e w = (refl, refl, w)
flush_rooms-IsSound (r ∷ rs) s e w =
    let (here, v) = flush_room-IsPair r s (ground (arith, e)) w in
    let (l, m, u) = flush_rooms-IsSound rs (flush_room r s).1 (ground (arith, e)) v in
    (ap suc l, and-true _ _ here m, u)

pub room_flush_updates-IsSound : (s : Server) → IsSound s → IsSound (room_flush_updates s)
unfolding room_flush_updates
room_flush_updates-IsSound s w =
    let (l, m, u) = flush_rooms-IsSound s.rooms s w.members w in
    record { clients = u.clients; rooms = l ∙ w.rooms; members = m; wedged = u.wedged }
