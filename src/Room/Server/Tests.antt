-- ===== src/Room/Server/Tests.antt =====
-- The theorems on the admin thread at a concrete server, and runs of its calls.
use corestack.Prelude.{
  true, some, none, if◌then◌else◌, ◌≡◌, refl, Bool, false, List, [], ◌∷◌, ℤ, pos, codes,
}
use corestack.Room.Server.{
  AdminMsg, admin_join, admin_start, admin_gameover, admin_garbage, admin_recv_garbage, Sent,
  Server, send_msg,
}
use corestack.Room.Server.Handle.{
  no_client, no_room, topped_out, handle_gameover, serve, handle, handle_found, add_client, Call,
  add, message, flush, close, serve_all, ensure_init, no_client, no_room, topped_out,
  handle_gameover,
}
use corestack.Room.Server.Agree.{Agree}
use corestack.Room.Server.Membership.{all_proper, serve_all-Agree}
use corestack.Room.Model.{session_playing, session_game_over, Client, Room, eq_ℤ}
use corestack.Room.Server.Finish.{is_out, IsFinished, handle_gameover-IsFinished}
use corestack.Room.Rank.{client_find}
use corestack.Room.Table.{
  client_alloc, occupy, open_slot, opened, free_id, room_find, with_id, room_create,
  room_add_member,
}
use corestack.Room.Server.Push.{
  update_client, write_room, push_to, push_roster, room_push_sessions_ex,
}
use corestack.Room.Server.Join.{enter, join_room, handle_join}
use corestack.Room.Server.Sound.{IsSound}
use corestack.Room.Server.Run.{serve_all-IsSound}
use corestack.Room.Attack.{handle_garbage, take_aim, hittable, aim_at}

abbrev never : List Sent → ℤ → Bool
never sent fd = false

abbrev first : ℤ → AdminMsg
first room = admin_join room (codes "ann")

-- Two players share a room, play, and the first one leaves the server.
abbrev evening : List Call
evening =
    add (pos 7) (pos 100)
    ∷ message (pos 7) (first (pos 0)) 0
    ∷ add (pos 8) (pos 101)
    ∷ message (pos 8) (first (pos 1)) 0
    ∷ message (pos 7) admin_start 5
    ∷ message (pos 8) (admin_gameover (pos 300)) 0
    ∷ close (pos 7)
    ∷ flush
    ∷ []

serve_all-IsSound_example : IsSound (serve_all evening (ensure_init never))
serve_all-IsSound_example = serve_all-IsSound never evening

-- A small server: three slots for clients and two for rooms.
abbrev small : Server
small = record {
  clients = no_client ∷ no_client ∷ no_client ∷ [];
  rooms = no_room ∷ no_room ∷ [];
  wedged = [];
  sent = [];
  blocks = never;
}

abbrev lobby : Server
lobby =
    serve_all
      (add (pos 7) (pos 100)
        ∷ message (pos 7) (first (pos 0)) 0
        ∷ add (pos 8) (pos 101)
        ∷ message (pos 8) (first (pos 1)) 0
        ∷ [])
      small

evening-proper : all_proper evening (ensure_init never) ≡ true
unfolding all_proper serve ensure_init handle_found handle handle_join join_room enter room_create
    open_slot free_id room_find with_id opened room_add_member room_push_sessions_ex push_roster
    push_to send_msg update_client client_find client_alloc add_client occupy write_room
evening-proper = refl

serve_all-Agree_example :
    Agree
      (serve_all evening (ensure_init never)).clients
      (serve_all evening (ensure_init never)).rooms
serve_all-Agree_example = serve_all-Agree never evening evening-proper

abbrev last_one : Client
last_one = record no_client {
  fd = pos 7;
  state = record no_client.state { phase = session_playing; room_id = pos 1 };
}

abbrev out_already : Client
out_already = record no_client {
  fd = pos 8;
  state = record no_client.state { phase = session_game_over; room_id = pos 1; player_id = pos 1 };
}

abbrev round : Room
round = record no_room { id = pos 1; phase = session_playing; members = pos 7 ∷ pos 8 ∷ [] }

abbrev late : Server
late = record {
  clients = last_one ∷ out_already ∷ [];
  rooms = round ∷ [];
  wedged = [];
  sent = [];
  blocks = never;
}

other_is_out : (y : ℤ) → eq_ℤ (pos 7) y ≡ false → is_out (client_find late.clients y) ≡ true
unfolding client_find
other_is_out y e = simp (e) (second (eq_ℤ (pos 8) y))
  where
    second : (b : Bool) → is_out (if b then some out_already else none) ≡ true
    second true = refl
    second false = refl

handle_gameover-IsFinished_example :
    IsFinished
      (update_client (pos 7) (topped_out (pos 40)) late.clients)
      round
      (pos 1)
      (handle_gameover last_one (pos 40) late)
unfolding room_find with_id
handle_gameover-IsFinished_example =
    handle_gameover-IsFinished last_one (pos 40) late round refl refl refl refl
      (λ y _ e. other_is_out y e)

-- Two players in a round; the first one has earned two rows.
abbrev rival : Client
rival = record last_one { fd = pos 8 }

abbrev duel : Server
duel = record late { clients = last_one ∷ rival ∷ [] }

-- The rows go to the other player.
rival_is_hit :
    (handle last_one (admin_garbage (pos 2)) 0 duel).1.sent
    ≡ (pos 8, admin_recv_garbage (pos 2)) ∷ []
unfolding handle handle_garbage room_find with_id take_aim hittable aim_at client_find send_msg
rival_is_hit = refl
