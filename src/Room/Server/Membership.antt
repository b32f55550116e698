-- ===== src/Room/Server/Membership.antt =====
-- Both views of membership agree through every sequence of calls.
use corestack.Prelude.{
  ℕ, zero, suc, ◌≡◌, refl, sym, ap, ◌∙◌, inl, inr, arith, Bool, true, false, not, ◌&&◌, List, [],
  ◌∷◌, Option, none, some, ℤ, pos, negsuc, if◌then◌else◌, Bool-cases, replicate,
}
use corestack.Room.Model.{room_none, Client, Room, eq_ℤ, ltb_ℤ}
use corestack.Room.Members.{occurs}
use corestack.Room.Rank.{client_find}
use corestack.Room.Table.{room_find, with_id, client_alloc, max_sessions, max_rooms}
use corestack.Room.Server.{
  AdminMsg, admin_join, admin_leave, admin_start, admin_garbage, admin_gameover, admin_score, Sent,
  Server,
}
use corestack.Room.Server.Push.{room_push_standings, flush_room, flush_rooms, room_flush_updates}
use corestack.Room.Server.Depart.{client_close}
use corestack.Room.Server.Handle.{
  handle, handle_found, Call, add, message, flush, close, wedged, serve, serve_all, no_client,
  no_room, ensure_init,
}
use corestack.Room.Server.Seats.{SameSeats, SameSeats-refl, SameSeats-trans, fd_count, seat}
use corestack.Room.Server.Stays.{room_push_standings-Stays, PairStays}
use corestack.Room.Compare.{eq_ℤ-sym}
use corestack.Room.Server.Places.{zero_other, place, id_count}
use corestack.Room.Server.Agree.{Agree, seats-Agree}
use corestack.Room.Server.Leaving.{handle_leave-Agree}
use corestack.Room.Server.Closing.{found-own, close_client-Agree}
use corestack.Room.Server.Adding.{add_client-Agree}
use corestack.Room.Server.Creating.{handle_join-Agree}
use corestack.Room.Server.Sync.{
  AgreeOn, handle_start-Agree, handle_score-Agree, handle_gameover-Agree, send_garbage-Agree,
}

-- A slot of the flush keeps its number and its members.
pair_refl : (r q : Room) (s : Server) → q.id ≡ r.id → q.members ≡ r.members → PairStays r s (q, s)
pair_refl r q s e m = (e, m, record { clients = SameSeats-refl s.clients; rooms = refl })

if-PairStays :
    (r : Room) (s : Server) (b : Bool) (p q : Room × Server)
    → PairStays r s p
    → PairStays r s q
    → PairStays r s (if b then p else q)
if-PairStays r s true p q f g = f
if-PairStays r s false p q f g = g

flush_room-Stays : (r : Room) (s : Server) → PairStays r s (flush_room r s)
flush_room-Stays r s =
    let clean : Room = record r { standings_dirty = false } in
    if-PairStays r s r.standings_dirty _ (r, s)
      (if-PairStays r s (eq_ℤ r.id (pos 0)) (clean, s) (room_push_standings clean s)
        (pair_refl r clean s refl refl) (room_push_standings-Stays clean s))
      (pair_refl r r s refl refl)

-- The second table has the rooms of the first.
record SameRooms (rs qs : List Room) : Type 0 where
  pub places : (id y : ℤ) → place (with_id qs id) y ≡ place (with_id rs id) y
  pub counts : (id : ℤ) → id_count id qs ≡ id_count id rs

cons-SameRooms :
    (r q : Room) (rs qs : List Room)
    → q.id ≡ r.id
    → q.members ≡ r.members
    → SameRooms rs qs
    → SameRooms (r ∷ rs) (q ∷ qs)
unfolding with_id id_count
cons-SameRooms r q rs qs e m s = record {
  places = λ id y. pick (eq_ℤ q.id id) (eq_ℤ r.id id) id y (ap (λ i. eq_ℤ i id) e);
  counts = λ id. let here = ap (λ i. eq_ℤ i id) e in rw (here, s.counts id) refl;
}
  where
    pick :
        (a b : Bool) (id y : ℤ)
        → a ≡ b
        → place (if a then some q else with_id qs id) y
          ≡ place (if b then some r else with_id rs id) y
    pick true true id y h = ap (occurs y) m
    pick true false id y h = absurd cc
    pick false true id y h = absurd cc
    pick false false id y h = s.places id y

flush_rooms-Same :
    (rs : List Room) (s : Server)
    → SameRooms rs (flush_rooms rs s).0 × SameSeats s.clients (flush_rooms rs s).1.clients
unfolding flush_rooms
flush_rooms-Same [] s =
    (record { places = λ id y. refl; counts = λ id. refl }, SameSeats-refl s.clients)
flush_rooms-Same (r ∷ rs) s =
    let (e, m, st) = flush_room-Stays r s in
    let (rooms, seats) = flush_rooms-Same rs (flush_room r s).1 in
    (
      cons-SameRooms r (flush_room r s).0 rs _ e m rooms,
      SameSeats-trans s.clients (flush_room r s).1.clients _ st.clients seats,
    )

rooms-Agree : (cs : List Client) (rs qs : List Room) → SameRooms rs qs → Agree cs rs → Agree cs qs
unfolding room_find
rooms-Agree cs rs qs s a = record {
  fds = a.fds;
  ids = λ id h. omega (arith, s.counts id, a.ids id h);
  agree = λ y id h n. same (ltb_ℤ (pos 0) id) id y ∙ a.agree y id h n;
}
  where
    same :
        (b : Bool) (id y : ℤ)
        → place (if b then with_id qs id else none) y ≡ place (if b then with_id rs id else none) y
    same true id y = s.places id y
    same false id y = refl

room_flush_updates-Agree : (s : Server) → AgreeOn s → AgreeOn (room_flush_updates s)
unfolding room_flush_updates
room_flush_updates-Agree s a =
    let (rooms, seats) = flush_rooms-Same s.rooms s in
    seats-Agree s.clients (flush_rooms s.rooms s).1.clients (flush_rooms s.rooms s).0 seats
      (rooms-Agree s.clients s.rooms (flush_rooms s.rooms s).0 rooms a)

-- A JOIN asks for a room that is not negative.
abbrev pub asks_well : AdminMsg → Bool
asks_well (admin_join want name) = not (ltb_ℤ want (pos 0))
asks_well _ = true

handle-Agree :
    (c : Client) (m : AdminMsg) (seed : ℕ) (s : Server)
    → client_find s.clients c.fd ≡ some c
    → ltb_ℤ c.fd (pos 0) ≡ false
    → asks_well m ≡ true
    → AgreeOn s
    → AgreeOn (handle c m seed s).1
unfolding handle
handle-Agree c (admin_join want name) seed s found h p a =
    handle_join-Agree c s found h a want name (ground (arith, p))
handle-Agree c admin_leave seed s found h p a = handle_leave-Agree c s found h a
handle-Agree c admin_start seed s found h p a = handle_start-Agree seed c s found h a
handle-Agree c (admin_garbage lines) seed s found h p a = send_garbage-Agree _ s a
handle-Agree c (admin_gameover score) seed s found h p a = handle_gameover-Agree c score s a
handle-Agree c (admin_score score lines) seed s found h p a = handle_score-Agree c score lines s a
handle-Agree c _ seed s found h p a = a

handle_found-Agree :
    (fd : ℤ) (o : Option Client) (m : AdminMsg) (seed : ℕ) (s : Server)
    → client_find s.clients fd ≡ o
    → ltb_ℤ fd (pos 0) ≡ false
    → asks_well m ≡ true
    → AgreeOn s
    → AgreeOn (handle_found o m seed s).1
unfolding handle_found
handle_found-Agree fd none m seed s found h p a = a
handle_found-Agree fd (some c) m seed s found h p a =
    let (own, k) = found-own s.clients fd c found h in handle-Agree c m seed s own k p a

-- What the admin thread observes: descriptors are not negative, one that is added is not in use, and
-- no JOIN asks for a negative room.
abbrev pub in_use : Option Client → Bool
in_use none = false
in_use (some c) = true

abbrev pub is_proper : Call → Server → Bool
is_proper (add fd pid) s = not (in_use (client_find s.clients fd))
is_proper (message fd m seed) s = not (ltb_ℤ fd (pos 0)) && asks_well m
is_proper (close fd) s = not (ltb_ℤ fd (pos 0))
is_proper flush s = true
is_proper wedged s = true

unfoldable pub all_proper : List Call → Server → Bool
all_proper [] s = true
all_proper (c ∷ cs) s = is_proper c s && all_proper cs (serve c s)

free : (o : Option Client) → not (in_use o) ≡ true → o ≡ none
free none e = refl
free (some c) e = absurd cc

serve-Agree : (c : Call) (s : Server) → is_proper c s ≡ true → AgreeOn s → AgreeOn (serve c s)
unfolding serve client_close
serve-Agree (add fd pid) s p a =
    add_client-Agree fd pid (client_alloc s.clients fd pid) s refl
      (free (client_find s.clients fd) p) a
serve-Agree (message fd m seed) s p a =
    handle_found-Agree fd (client_find s.clients fd) m seed s refl (ground (arith, p))
      (ground (arith, p)) a
serve-Agree (close fd) s p a =
    close_client-Agree (client_find s.clients fd) fd s refl (ground (arith, p)) a
serve-Agree flush s p a = room_flush_updates-Agree s a
serve-Agree wedged s p a = a

serve_all-keeps :
    (cs : List Call) (s : Server) → all_proper cs s ≡ true → AgreeOn s → AgreeOn (serve_all cs s)
unfolding serve_all all_proper
serve_all-keeps [] s p a = a
serve_all-keeps (c ∷ cs) s p a =
    serve_all-keeps cs (serve c s) (ground (arith, p)) (serve-Agree c s (ground (arith, p)) a)

-- The tables of the start.
no_fd :
    (y : ℤ) (n : ℕ)
    → ltb_ℤ y (pos 0) ≡ false
    → (fd_count y (replicate n no_client) ≡ 0) × (client_find (replicate n no_client) y ≡ none)
unfolding fd_count client_find
no_fd (pos y) zero h = (refl, refl)
no_fd (pos y) (suc n) h = let (a, b) = no_fd (pos y) n h in (omega (arith, a), b)
no_fd (negsuc y) n h = absurd cc

no_id :
    (id : ℤ) (n : ℕ)
    → ltb_ℤ (pos 0) id ≡ true
    → (id_count id (replicate n no_room) ≡ 0) × (with_id (replicate n no_room) id ≡ none)
unfolding id_count with_id
no_id id zero h = (refl, refl)
no_id id (suc n) h =
    let (a, b) = no_id id n h in rw (zero_other (pos 0) id refl h) (omega (arith, a), b)

nobody_at : (id y : ℤ) → place (room_find (replicate max_rooms no_room) id) y ≡ 0
unfolding room_find
nobody_at id y = elim (Bool-cases (ltb_ℤ (pos 0) id)) [
  | inl b ↦ simp (b, (no_id id max_rooms b).1) refl
  | inr b ↦ simp (b) refl
]

init-Agree : (blocks : List Sent → ℤ → Bool) → AgreeOn (ensure_init blocks)
unfolding ensure_init
init-Agree blocks = record {
  fds = λ y h. omega (arith, (no_fd y max_sessions h).0);
  ids = λ id h. omega (arith, (no_id id max_rooms h).0);
  agree = λ y id h n.
      nobody_at id y
      ∙ sym (
          ap (λ o. if eq_ℤ (seat o) id then 1 else 0) (no_fd y max_sessions h).1
          ∙ rw (eq_ℤ-sym room_none id ∙ n) refl);
}

-- Whatever calls the admin thread makes from the start: if descriptors are not negative, one that is
-- added is not in use and no JOIN asks for a negative room, then no descriptor and no room number is
-- used twice, and a client is listed in a room, once, exactly if its own record names that room.
pub serve_all-Agree :
    (blocks : List Sent → ℤ → Bool) (cs : List Call)
    → all_proper cs (ensure_init blocks) ≡ true
    → Agree (serve_all cs (ensure_init blocks)).clients (serve_all cs (ensure_init blocks)).rooms
serve_all-Agree blocks cs p = serve_all-keeps cs (ensure_init blocks) p (init-Agree blocks)
