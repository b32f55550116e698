-- ===== src/Room/Server/Finish.antt =====
-- The last game of a round ends the round.
use mathlib.Core.List.{map}
use corestack.Prelude.{
  ◌≡◌, refl, sym, ap, ◌∙◌, arith, Bool, true, false, List, [], ◌∷◌, ◌++◌, Option, none, some, ℤ,
}
use corestack.Room.Model.{session_waiting, is_playing, is_game_over, room_none, Client, Room, eq_ℤ}
use corestack.Room.Rank.{client_find, member_clients, winner_of, still_playing}
use corestack.Room.Round.{Ended, ended, no_members, room_check_round_end}
use corestack.Room.Table.{with_id, room_find, listed}
use corestack.Room.Server.{AdminMsg, admin_result, Sent, Server, send_msg, room_broadcast}
use corestack.Room.Server.Push.{
  update_client, write_room, has_id, room_push_standings, room_mark_standings_dirty,
}
use corestack.Room.Server.Depart.{announce}
use corestack.Room.Server.Handle.{write_back, topped_out, end_round, handle_gameover}
use corestack.Room.Server.Seats.{changed, find-update_client}
use corestack.Room.Server.Stays.{room_push_standings-Stays, room_broadcast-Stays}
use corestack.Room.Server.Places.{room_find-some, room_find-positive, with_id-found, with_id-id}
use corestack.Room.Server.Agree.{eq_ℤ-refl}

-- A member whose game is over; one without a record does not count.
abbrev pub is_out : Option Client → Bool
is_out none = true
is_out (some c) = is_game_over c.state.phase

out-changed :
    (score : ℤ) (b : Bool) (o : Option Client)
    → (b ≡ false → is_out o ≡ true)
    → is_out (changed b (topped_out score) o) ≡ true
out-changed score b none h = refl
out-changed score true (some c) h = refl
out-changed score false (some c) h = h refl

-- All others are out, as the sender is from now on.
out-after :
    (cs : List Client) (fd score : ℤ) (ms : List ℤ)
    → ((y : ℤ) → listed y ms ≡ true → eq_ℤ fd y ≡ false → is_out (client_find cs y) ≡ true)
    → still_playing (member_clients (update_client fd (topped_out score) cs) ms) ≡ false
unfolding still_playing member_clients listed
out-after cs fd score [] others = refl
out-after cs fd score (m ∷ ms) others =
    let rest = out-after cs fd score ms (λ y l e. others y (ground (arith, l)) e) in
    member (client_find (update_client fd (topped_out score) cs) m) rest (
      ap is_out (find-update_client (topped_out score) (λ d. refl) fd cs m)
      ∙ out-changed score (eq_ℤ fd m) (client_find cs m) (others m (ground (arith, eq_ℤ-refl m))))
  where
    member :
        (o : Option Client)
        → still_playing (member_clients (update_client fd (topped_out score) cs) ms) ≡ false
        → is_out o ≡ true
        → still_playing (elim o [
          | none ↦ member_clients (update_client fd (topped_out score) cs) ms
          | some c ↦ c ∷ member_clients (update_client fd (topped_out score) cs) ms
        ])
          ≡ false
    member none r e = r
    member (some c) r e = ground (arith, r, e)

abbrev to_all : AdminMsg → List ℤ → List Sent
to_all m fds = map (λ fd. (fd, m)) fds

append_nil : (l : List Sent) → l ++ [] ≡ l
append_nil [] = refl
append_nil (x ∷ l) = ap (λ i. x ∷ i) (append_nil l)

append_assoc : (a b c : List Sent) → (a ++ b) ++ c ≡ a ++ (b ++ c)
append_assoc [] b c = refl
append_assoc (x ∷ a) b c = ap (λ i. x ∷ i) (append_assoc a b c)

-- A broadcast is handed to every member, in order.
sent-room_broadcast :
    (fds : List ℤ) (m : AdminMsg) (s : Server)
    → (room_broadcast fds m s).sent ≡ s.sent ++ to_all m fds
unfolding room_broadcast send_msg
sent-room_broadcast [] m s = sym (append_nil s.sent)
sent-room_broadcast (fd ∷ fds) m s =
    sent-room_broadcast fds m (send_msg fd m s) ∙ append_assoc s.sent ((fd, m) ∷ []) (to_all m fds)

-- The room waits for the next round, and every member was told the winner last.
pub record IsFinished (cs : List Client) (r : Room) (id : ℤ) (t : Server) : Type 0 where
  pub room : Room
  pub found : room_find t.rooms id ≡ some room
  pub waits : room.phase ≡ session_waiting
  pub before : List Sent
  pub told :
      t.sent ≡ before ++ to_all (admin_result (winner_of (member_clients cs r.members))) r.members

check-ended :
    (cs : List Client) (r : Room)
    → is_playing r.phase ≡ true
    → no_members r.members ≡ false
    → still_playing (member_clients cs r.members) ≡ false
    → room_check_round_end cs r ≡ some (ended cs r)
unfolding room_check_round_end ended
check-ended cs r p m o = rw (p, m, o) refl

finished :
    (s : Server) (r q : Room) (id : ℤ) (d : Ended)
    → room_find s.rooms id ≡ some r
    → d ≡ ended s.clients q
    → q.id ≡ r.id
    → IsFinished s.clients q id (write_back id (announce (some d) q s))
unfolding announce ended
finished s r q id d f e own =
    let t = (room_push_standings q s).1 in
    let u = room_broadcast q.members (admin_result d.winner) t in
    let (_, _, a) = room_push_standings-Stays q s in
    let b = room_broadcast-Stays q.members (admin_result d.winner) t in
    let (p, w) = room_find-some s.rooms id r f in
    let g : with_id u.rooms id ≡ some r = ap (λ i. with_id i id) (b.rooms ∙ a.rooms) ∙ w in
    let same : d.room.id ≡ r.id = ap (λ i. i.room.id) e ∙ own in
    record {
      room = d.room;
      found =
          room_find-positive (write_room (has_id id) d.room u.rooms) id p
          ∙ with_id-found d.room u.rooms id r g
              (ap (λ i. eq_ℤ i id) same ∙ with_id-id s.rooms id r w);
      waits = ap (λ i. i.room.phase) e;
      before = t.sent;
      told =
          sent-room_broadcast q.members (admin_result d.winner) t
          ∙ ap (λ i. t.sent ++ to_all (admin_result i.winner) q.members) e;
    }

-- When a player tops out, in a room whose round runs and whose other members have all topped out or
-- are gone: the round ends. The room, found by its number, waits for the next one, and the last that
-- is sent is the result, to every member, with the winner among the members as they are then.
pub handle_gameover-IsFinished :
    (c : Client) (score : ℤ) (s : Server) (r : Room)
    → eq_ℤ c.state.room_id room_none ≡ false
    → room_find s.rooms c.state.room_id ≡ some r
    → is_playing r.phase ≡ true
    → no_members r.members ≡ false
    → ((y : ℤ)
        → listed y r.members ≡ true
        → eq_ℤ c.fd y ≡ false
        → is_out (client_find s.clients y) ≡ true)
    → IsFinished
        (update_client c.fd (topped_out score) s.clients)
        r
        c.state.room_id
        (handle_gameover c score s)
unfolding handle_gameover end_round
handle_gameover-IsFinished c score s r n f p m others =
    let cs = update_client c.fd (topped_out score) s.clients in
    let q : Room = room_mark_standings_dirty r in
    let o = check-ended cs q p m (out-after s.clients c.fd score r.members others) in
    let all = finished (record s { clients = cs }) r q c.state.room_id (ended cs q) f refl refl in
    rw (n, f, o)
      (record {
        room = all.room;
        found = all.found;
        waits = all.waits;
        before = all.before;
        told = all.told;
      })
