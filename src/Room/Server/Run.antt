-- ===== src/Room/Server/Run.antt =====
-- Every call of the admin thread keeps its tables sound.
use corestack.Prelude.{
  ℕ, zero, suc, ◌≤◌, ◌≡◌, refl, ap, arith, Bool, true, false, List, [], ◌∷◌, Option, none, some, ℤ,
  pos, if◌then◌else◌, length, length-replicate, replicate,
}
use corestack.Room.Model.{Client, ltb_ℤ}
use corestack.Room.Rank.{client_find}
use corestack.Room.Table.{max_rooms, client_alloc, occupy, max_sessions, client_take_wedged}
use corestack.Room.Members.{IsWedged, occurs}
use corestack.Room.Server.{Server, Sent}
use corestack.Room.Server.Depart.{client_close}
use corestack.Room.Server.Handle.{
  add_client, Call, add, message, flush, close, wedged, serve, serve_all, no_client, no_room,
  ensure_init,
}
use corestack.Room.Server.Sound.{
  all_sound, IsSound, with_clients, send_msg-IsSound, room_flush_updates-IsSound,
}
use corestack.Room.Server.Serve.{handle_found-IsSound, close_client-IsSound}

-- Of as many clients, where there are any.
abbrev HasLength : ℕ → Option (List Client) → Type 0
HasLength n none = Unit
HasLength n (some cs) = length cs ≡ n

behind-HasLength :
    (c : Client) (n : ℕ) (o : Option (List Client))
    → HasLength n o
    → HasLength (suc n) (elim o [ none ↦ none | some ds ↦ some (c ∷ ds) ])
behind-HasLength c n none l = l
behind-HasLength c n (some ds) l = ap suc l

if-HasLength :
    (n : ℕ) (b : Bool) (o p : Option (List Client))
    → HasLength n o
    → HasLength n p
    → HasLength n (if b then o else p)
if-HasLength n true o p l m = l
if-HasLength n false o p l m = m

client_alloc-HasLength :
    (cs : List Client) (fd pid : ℤ) → HasLength (length cs) (client_alloc cs fd pid)
unfolding client_alloc
client_alloc-HasLength [] fd pid = tt
client_alloc-HasLength (c ∷ cs) fd pid =
    if-HasLength (suc (length cs)) (ltb_ℤ c.fd (pos 0)) (some (occupy fd pid c ∷ cs)) _ refl
      (behind-HasLength c (length cs) (client_alloc cs fd pid) (client_alloc-HasLength cs fd pid))

add_client-IsSound :
    (fd : ℤ) (o : Option (List Client)) (s : Server)
    → HasLength (length s.clients) o
    → IsSound s
    → IsSound (add_client fd o s)
unfolding add_client
add_client-IsSound fd none s l w = send_msg-IsSound fd _ s w
add_client-IsSound fd (some cs) s l w = with_clients s cs l w

occurs-rest : (y x : ℤ) (l : List ℤ) → occurs y (x ∷ l) ≤ 1 → occurs y l ≤ 1
unfolding occurs
occurs-rest y x l h = omega arith

taken-IsWedged : (l : List ℤ) → IsWedged l → IsWedged (client_take_wedged l).1
unfolding client_take_wedged
taken-IsWedged [] w = w
taken-IsWedged (fd ∷ l) w = record {
  once = λ y. occurs-rest y fd l (w.once y);
  room = omega (arith, w.room);
}

serve-IsSound : (c : Call) (s : Server) → IsSound s → IsSound (serve c s)
unfolding serve client_close
serve-IsSound (add fd pid) s w =
    add_client-IsSound fd (client_alloc s.clients fd pid) s
      (client_alloc-HasLength s.clients fd pid) w
serve-IsSound (message fd m seed) s w = handle_found-IsSound (client_find s.clients fd) m seed s w
serve-IsSound flush s w = room_flush_updates-IsSound s w
serve-IsSound (close fd) s w = close_client-IsSound (client_find s.clients fd) s w
serve-IsSound wedged s w = record {
  clients = w.clients;
  rooms = w.rooms;
  members = w.members;
  wedged = taken-IsWedged s.wedged w.wedged;
}

free_sound : (n : ℕ) → all_sound (replicate n no_room) ≡ true
unfolding all_sound
free_sound zero = refl
free_sound (suc n) = free_sound n

serve_all-from : (cs : List Call) (s : Server) → IsSound s → IsSound (serve_all cs s)
unfolding serve_all
serve_all-from [] s w = w
serve_all-from (c ∷ cs) s w = serve_all-from cs (serve c s) (serve-IsSound c s w)

-- Whatever calls the admin thread makes from the start, and whichever sockets are full: the tables
-- keep their sizes, the members of each room fit their array, a room in use has at least one
-- member, and the list of wedged sessions has none twice and fits its array.
pub serve_all-IsSound :
    (blocks : List Sent → ℤ → Bool) (cs : List Call) → IsSound (serve_all cs (ensure_init blocks))
unfolding ensure_init
serve_all-IsSound blocks cs = serve_all-from cs (ensure_init blocks) (record {
  clients = length-replicate max_sessions no_client;
  rooms = length-replicate max_rooms no_room;
  members = free_sound max_rooms;
  wedged = record { once = λ y. unfold occurs in omega arith; room = omega arith };
})
