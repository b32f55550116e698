-- ===== src/Room/Server/Stays.antt =====
-- Sending, publishing and the end of a round leave the rooms' table and the room of each client.
use mathlib.Core.Path.{subst}
use corestack.Brain.Model.{PlayerStanding}
use corestack.Prelude.{
  ◌≡◌, refl, ◌∙◌, Bool, true, false, ◌&&◌, ◌||◌, List, [], ◌∷◌, Option, none, some, ℤ,
  if◌then◌else◌,
}
use corestack.Room.Model.{RoomMember, Client, Room}
use corestack.Room.Rank.{client_find, room_standings, room_roster}
use corestack.Room.Round.{Ended, ended, if-none, room_check_round_end}
use corestack.Room.Server.{
  AdminMsg, admin_standings, admin_result, Server, send_msg, room_broadcast,
}
use corestack.Room.Server.Push.{
  update_client, with_roster, push_to, push_roster, is_quiet, room_push_sessions_ex, standings_eq,
  published, room_push_standings,
}
use corestack.Room.Server.Depart.{announce, check_round_end}
use corestack.Room.Server.Seats.{
  SameSeats, SameSeats-refl, SameSeats-trans, update_client-SameSeats, reset_members-SameSeats,
}

pub record Stays (s t : Server) : Type 0 where
  pub clients : SameSeats s.clients t.clients
  pub rooms : t.rooms ≡ s.rooms

Stays-refl : (s : Server) → Stays s s
Stays-refl s = record { clients = SameSeats-refl s.clients; rooms = refl }

pub Stays-trans : (s t u : Server) → Stays s t → Stays t u → Stays s u
Stays-trans s t u a b = record {
  clients = SameSeats-trans s.clients t.clients u.clients a.clients b.clients;
  rooms = b.rooms ∙ a.rooms;
}

pub send_msg-Stays : (fd : ℤ) (m : AdminMsg) (s : Server) → Stays s (send_msg fd m s)
unfolding send_msg
send_msg-Stays fd m s = record { clients = SameSeats-refl s.clients; rooms = refl }

pub room_broadcast-Stays :
    (fds : List ℤ) (m : AdminMsg) (s : Server) → Stays s (room_broadcast fds m s)
unfolding room_broadcast
room_broadcast-Stays [] m s = Stays-refl s
room_broadcast-Stays (fd ∷ fds) m s =
    Stays-trans s (send_msg fd m s) _ (send_msg-Stays fd m s)
      (room_broadcast-Stays fds m (send_msg fd m s))

push_to-Stays :
    (roster : List RoomMember) (creator : ℤ) (o : Option Client) (s : Server)
    → Stays s (push_to roster creator o s)
unfolding push_to
push_to-Stays roster creator none s = Stays-refl s
push_to-Stays roster creator (some c) s =
    let t : Server = record s { clients = update_client c.fd (with_roster roster) s.clients } in
    Stays-trans s t _
      (record {
        clients =
            update_client-SameSeats c.fd (with_roster roster) s.clients (λ c. refl) (λ c. refl);
        rooms = refl;
      })
      (send_msg-Stays c.fd _ t)

push_roster-Stays :
    (roster : List RoomMember) (creator : ℤ) (fds : List ℤ) (s : Server)
    → Stays s (push_roster roster creator fds s)
unfolding push_roster
push_roster-Stays roster creator [] s = Stays-refl s
push_roster-Stays roster creator (fd ∷ fds) s =
    let t = push_to roster creator (client_find s.clients fd) s in
    Stays-trans s t _ (push_to-Stays roster creator (client_find s.clients fd) s)
      (push_roster-Stays roster creator fds t)

pub room_push_sessions_ex-Stays :
    (r : Room) (creator : ℤ) (s : Server) → Stays s (room_push_sessions_ex r creator s)
unfolding room_push_sessions_ex
room_push_sessions_ex-Stays r creator s = pushed (is_quiet r)
  where
    pushed :
        (b : Bool)
        → Stays s (if b then s else push_roster (room_roster s.clients r) creator r.members s)
    pushed true = Stays-refl s
    pushed false = push_roster-Stays (room_roster s.clients r) creator r.members s

-- The room keeps its number and its members, and the rest stays.
abbrev pub PairStays : Room → Server → Room × Server → Type 0
PairStays r s p = (p.0.id ≡ r.id) × (p.0.members ≡ r.members) × Stays s p.1

pub room_push_standings-Stays : (r : Room) (s : Server) → PairStays r s (room_push_standings r s)
unfolding room_push_standings
room_push_standings-Stays r s =
    pushed
      (is_quiet r || r.have_standings && standings_eq r.last_standings (room_standings s.clients r))
  where
    rows : List PlayerStanding
    rows = room_standings s.clients r

    pushed :
        (b : Bool)
        → PairStays r s (
            if b
            then (r, s)
            else (published rows r, room_broadcast r.members (admin_standings rows) s))
    pushed true = (refl, refl, Stays-refl s)
    pushed false = (refl, refl, room_broadcast-Stays r.members (admin_standings rows) s)

ended-same :
    (cs : List Client) (r : Room) (d : Ended)
    → room_check_round_end cs r ≡ some d
    → (d.room.id ≡ r.id) × (d.room.members ≡ r.members) × SameSeats cs d.clients
unfolding room_check_round_end ended
ended-same cs r d h =
    let (_, q) = if-none _ (ended cs r) d h in
    subst (λ i. (i.room.id ≡ r.id) × (i.room.members ≡ r.members) × SameSeats cs i.clients) q
      (refl, refl, reset_members-SameSeats r.members cs)

announce-Stays :
    (o : Option Ended) (r : Room) (s : Server)
    → room_check_round_end s.clients r ≡ o
    → PairStays r s ((announce o r s).1, (announce o r s).2)
unfolding announce
announce-Stays none r s e = (refl, refl, Stays-refl s)
announce-Stays (some d) r s e =
    let (id, members, seats) = ended-same s.clients r d e in
    let (_, _, a) = room_push_standings-Stays r s in
    let b = room_broadcast-Stays r.members (admin_result d.winner) (room_push_standings r s).1 in
    (id, members, record { clients = seats; rooms = b.rooms ∙ a.rooms })

pub check_round_end-Stays :
    (r : Room) (s : Server) → PairStays r s ((check_round_end r s).1, (check_round_end r s).2)
check_round_end-Stays r s = announce-Stays (room_check_round_end s.clients r) r s refl
