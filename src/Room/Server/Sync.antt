-- ===== src/Room/Server/Sync.antt =====
-- START, SCORE, GAMEOVER and GARBAGE in both views of membership.
use mathlib.Core.Path.{subst}
use corestack.Prelude.{
  ℕ, ◌≡◌, refl, sym, Bool, true, false, not, ◌&&◌, List, Option, none, some, ℤ, pos, if◌then◌else◌,
}
use corestack.Room.Model.{room_none, session_playing, is_playing, Client, Room, eq_ℤ, ltb_ℤ}
use corestack.Room.Rank.{client_find}
use corestack.Room.Table.{room_find}
use corestack.Room.Server.{admin_seed, reject_not_owner, reject_conflict, Server}
use corestack.Room.Server.Push.{write_room, has_id, room_mark_standings_dirty}
use corestack.Room.Server.Depart.{check_round_end}
use corestack.Room.Server.Handle.{
  play_members, start_room, handle_start, send_garbage, mark_room, with_score, handle_score,
  topped_out, end_round, handle_gameover,
}
use corestack.Room.Server.Seats.{update_client-SameSeats, play_members-SameSeats}
use corestack.Room.Server.Stays.{
  Stays, Stays-trans, send_msg-Stays, room_broadcast-Stays, check_round_end-Stays,
}
use corestack.Room.Server.Agree.{Agree, seats-Agree, same-Agree}
use corestack.Room.Server.Leaving.{stays-Agree}
use corestack.Room.Server.Creating.{AgreeAfter, if-AgreeAfter, refused}

-- A room that was found is written back with its members, next to clients with their rooms.
written :
    (s t : Server) (id0 : ℤ) (r q : Room)
    → Stays s t
    → Agree s.clients s.rooms
    → room_find s.rooms id0 ≡ some r
    → q.id ≡ r.id
    → q.members ≡ r.members
    → Agree t.clients (write_room (has_id id0) q t.rooms)
written s t id0 r q st a f e m =
    subst (λ i. Agree t.clients (write_room (has_id id0) q i)) (sym st.rooms)
      (same-Agree t.clients s.rooms id0 r q (seats-Agree s.clients t.clients s.rooms st.clients a) f
        e m)

start_room-Agree :
    (seed : ℕ) (c : Client) (o : Option Room) (s : Server)
    → client_find s.clients c.fd ≡ some c
    → ltb_ℤ c.fd (pos 0) ≡ false
    → Agree s.clients s.rooms
    → room_find s.rooms c.state.room_id ≡ o
    → AgreeAfter (start_room seed c o s)
unfolding start_room
start_room-Agree seed c none s found h a e = refused c s found h a reject_conflict _
start_room-Agree seed c (some r) s found h a e =
    if-AgreeAfter (is_playing r.phase) _ _ (refused c s found h a reject_conflict _) (λ _.
      written s _ c.state.room_id r
        (record r { seed = seed; phase = session_playing; standings_dirty = true })
        (Stays-trans s played _
          (record { clients = play_members-SameSeats r.members s.clients; rooms = refl })
          (room_broadcast-Stays r.members (admin_seed seed) played))
        a e refl refl)
  where
    played : Server
    played = record s { clients = play_members r.members s.clients }

pub handle_start-Agree :
    (seed : ℕ) (c : Client) (s : Server)
    → client_find s.clients c.fd ≡ some c
    → ltb_ℤ c.fd (pos 0) ≡ false
    → Agree s.clients s.rooms
    → AgreeAfter (handle_start seed c s)
unfolding handle_start
handle_start-Agree seed c s found h a =
    if-AgreeAfter (eq_ℤ c.state.room_id room_none) _ _ (refused c s found h a reject_conflict _)
      (λ _.
        if-AgreeAfter (not c.state.is_owner) _ _ (refused c s found h a reject_not_owner _)
          (λ _. start_room-Agree seed c (room_find s.rooms c.state.room_id) s found h a refl))

mark_room-Agree :
    (cs : List Client) (id : ℤ) (o : Option Room) (rs : List Room)
    → Agree cs rs
    → room_find rs id ≡ o
    → Agree cs (mark_room id o rs)
mark_room-Agree cs id none rs a e = a
mark_room-Agree cs id (some r) rs a e =
    same-Agree cs rs id r (room_mark_standings_dirty r) a e refl refl

abbrev pub AgreeOn : Server → Type 0
AgreeOn s = Agree s.clients s.rooms

if-AgreeOn : (b : Bool) (s t : Server) → AgreeOn s → AgreeOn t → AgreeOn (if b then s else t)
if-AgreeOn true s t f g = f
if-AgreeOn false s t f g = g

pub handle_score-Agree :
    (c : Client) (score lines : ℤ) (s : Server) → AgreeOn s → AgreeOn (handle_score c score lines s)
unfolding handle_score
handle_score-Agree c score lines s a = if-AgreeOn (eq_ℤ c.state.room_id room_none) s _ a (
    if-AgreeOn (eq_ℤ c.score score && eq_ℤ c.lines lines) s _ a (
      mark_room-Agree _ c.state.room_id (room_find s.rooms c.state.room_id) s.rooms
        (seats-Agree s.clients _ s.rooms
          (update_client-SameSeats c.fd (with_score score lines) s.clients (λ d. refl) (λ d. refl))
          a)
        refl))

end_round-Agree :
    (id : ℤ) (o : Option Room) (s : Server)
    → room_find s.rooms id ≡ o
    → AgreeOn s
    → AgreeOn (end_round id o s)
unfolding end_round
end_round-Agree id none s e a = a
end_round-Agree id (some r) s e a =
    let (own, members, st) = check_round_end-Stays (room_mark_standings_dirty r) s in
    written s (check_round_end (room_mark_standings_dirty r) s).2 id r
      (check_round_end (room_mark_standings_dirty r) s).1 st a e own members

pub handle_gameover-Agree :
    (c : Client) (score : ℤ) (s : Server) → AgreeOn s → AgreeOn (handle_gameover c score s)
unfolding handle_gameover
handle_gameover-Agree c score s a = if-AgreeOn (eq_ℤ c.state.room_id room_none) s _ a (
    end_round-Agree c.state.room_id (room_find s.rooms c.state.room_id) _ refl (
      seats-Agree s.clients _ s.rooms
        (update_client-SameSeats c.fd (topped_out score) s.clients (λ d. refl) (λ d. refl)) a))

pub send_garbage-Agree : (o : Option (ℤ × ℤ)) (s : Server) → AgreeOn s → AgreeOn (send_garbage o s)
send_garbage-Agree none s a = a
send_garbage-Agree (some (fd, lines)) s a = stays-Agree s _ (send_msg-Stays fd _ s) a
