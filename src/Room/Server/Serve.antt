-- ===== src/Room/Server/Serve.antt =====
-- The handlers of messages and of a closed session keep the tables sound.
use corestack.Prelude.{
  ℕ, ◌≡◌, refl, ◌∙◌, arith, true, not, ◌&&◌, List, [], ◌∷◌, Option, none, some, ℤ, length,
}
use corestack.Room.Model.{session_playing, Client, Room, eq_ℤ, room_none, is_playing}
use corestack.Room.Table.{room_find, room_del_member}
use corestack.Room.Server.{
  AdminMsg, admin_join, admin_leave, admin_start, admin_garbage, admin_gameover, admin_seed,
  admin_score, Server,
}
use corestack.Room.Server.Push.{room_mark_standings_dirty, update_client, has_id}
use corestack.Room.Server.Depart.{
  check_round_end, out_of_room, depart, handle_leave, free_slot, close_client,
}
use corestack.Room.Server.Handle.{
  play_members, in_phase, start_room, handle_start, send_garbage, mark_room, handle_score,
  with_score, topped_out, end_round, handle_gameover, handle, handle_found,
}
use corestack.Room.Server.Sound.{
  with_update, sound, IsSound, with_clients, length-update_client, with_room, send_msg-IsSound,
  room_broadcast-IsSound, if-IsSound,
}
use corestack.Room.Server.Entry.{handle_join-IsSound, if-Status}
use corestack.Room.Server.Keep.{
  room_find-sound, length-swap_remove, departed-IsSound, check_round_end-Keeps,
}

depart-IsSound :
    (rs : Server) (o : Option Room) (c : Client) (s : Server)
    → IsSound rs
    → room_find rs.rooms c.state.room_id ≡ o
    → IsSound s
    → IsSound (depart o c s)
unfolding room_del_member
depart-IsSound rs none c s v e w = w
depart-IsSound rs (some r) c s v e w =
    let h = room_find-sound rs.rooms c.state.room_id r v.members e in
    departed-IsSound c.state.room_id c.state.is_owner (room_del_member r c.fd) s
      (ground (arith, h, length-swap_remove c.fd r.members)) w

handle_leave-IsSound : (c : Client) (s : Server) → IsSound s → IsSound (handle_leave c s)
unfolding handle_leave
handle_leave-IsSound c s w =
    if-IsSound (eq_ℤ c.state.room_id room_none) _ _ (send_msg-IsSound c.fd _ s w) (
      depart-IsSound s (room_find s.rooms c.state.room_id) c _ w refl
        (send_msg-IsSound c.fd _ _ (with_update s c.fd out_of_room w)))

pub close_client-IsSound : (o : Option Client) (s : Server) → IsSound s → IsSound (close_client o s)
unfolding close_client
close_client-IsSound none s w = w
close_client-IsSound (some c) s w = with_update _ c.fd free_slot (
    if-IsSound (eq_ℤ c.state.room_id room_none) s _ w
      (depart-IsSound s (room_find s.rooms c.state.room_id) c s w refl w))

length-play_members : (fds : List ℤ) (cs : List Client) → length (play_members fds cs) ≡ length cs
unfolding play_members
length-play_members [] cs = refl
length-play_members (fd ∷ fds) cs =
    length-play_members fds (update_client fd (in_phase session_playing) cs)
    ∙ length-update_client fd (in_phase session_playing) cs

start_room-IsSound :
    (seed : ℕ) (c : Client) (o : Option Room) (s : Server)
    → ((r : Room) → o ≡ some r → sound r ≡ true)
    → IsSound s
    → IsSound (start_room seed c o s).1
unfolding start_room
start_room-IsSound seed c none s good w = send_msg-IsSound c.fd _ s w
start_room-IsSound seed c (some r) s good w =
    if-Status (is_playing r.phase) _ _ (send_msg-IsSound c.fd _ s w) (
      with_room _ (has_id c.state.room_id) _ (good r refl) (
        room_broadcast-IsSound r.members (admin_seed seed) _
          (with_clients s _ (length-play_members r.members s.clients) w)))

handle_start-IsSound :
    (seed : ℕ) (c : Client) (s : Server) → IsSound s → IsSound (handle_start seed c s).1
unfolding handle_start
handle_start-IsSound seed c s w =
    if-Status (eq_ℤ c.state.room_id room_none) _ _ (send_msg-IsSound c.fd _ s w) (
      if-Status (not c.state.is_owner) _ _ (send_msg-IsSound c.fd _ s w) (
        start_room-IsSound seed c (room_find s.rooms c.state.room_id) s
          (λ r. room_find-sound s.rooms c.state.room_id r w.members) w))

mark_room-IsSound :
    (id : ℤ) (o : Option Room) (s : Server)
    → ((r : Room) → o ≡ some r → sound r ≡ true)
    → IsSound s
    → IsSound (record s { rooms = mark_room id o s.rooms })
mark_room-IsSound id none s good w = w
mark_room-IsSound id (some r) s good w = with_room s (has_id id) _ (good r refl) w

handle_score-IsSound :
    (c : Client) (score lines : ℤ) (s : Server) → IsSound s → IsSound (handle_score c score lines s)
unfolding handle_score
handle_score-IsSound c score lines s w = if-IsSound (eq_ℤ c.state.room_id room_none) s _ w (
    if-IsSound (eq_ℤ c.score score && eq_ℤ c.lines lines) s _ w (
      with_update _ c.fd (with_score score lines) (
        mark_room-IsSound c.state.room_id (room_find s.rooms c.state.room_id) s
          (λ r. room_find-sound s.rooms c.state.room_id r w.members) w)))

end_round-IsSound :
    (id : ℤ) (o : Option Room) (s : Server)
    → ((r : Room) → o ≡ some r → sound r ≡ true)
    → IsSound s
    → IsSound (end_round id o s)
unfolding end_round
end_round-IsSound id none s good w = w
end_round-IsSound id (some r) s good w =
    let (e, v) = check_round_end-Keeps (room_mark_standings_dirty r) s (good r refl) w in
    with_room (check_round_end (room_mark_standings_dirty r) s).2 (has_id id) _ e v

handle_gameover-IsSound :
    (c : Client) (score : ℤ) (s : Server) → IsSound s → IsSound (handle_gameover c score s)
unfolding handle_gameover
handle_gameover-IsSound c score s w = if-IsSound (eq_ℤ c.state.room_id room_none) s _ w (
    end_round-IsSound c.state.room_id (room_find s.rooms c.state.room_id) _
      (λ r. room_find-sound s.rooms c.state.room_id r w.members)
      (with_update s c.fd (topped_out score) w))

send_garbage-IsSound : (o : Option (ℤ × ℤ)) (s : Server) → IsSound s → IsSound (send_garbage o s)
send_garbage-IsSound none s w = w
send_garbage-IsSound (some (fd, lines)) s w = send_msg-IsSound fd _ s w

handle-IsSound :
    (c : Client) (m : AdminMsg) (seed : ℕ) (s : Server) → IsSound s → IsSound (handle c m seed s).1
unfolding handle
handle-IsSound c (admin_join room_id name) seed s w = handle_join-IsSound c room_id name s w
handle-IsSound c admin_leave seed s w = handle_leave-IsSound c s w
handle-IsSound c admin_start seed s w = handle_start-IsSound seed c s w
handle-IsSound c (admin_garbage lines) seed s w = send_garbage-IsSound _ s w
handle-IsSound c (admin_gameover score) seed s w = handle_gameover-IsSound c score s w
handle-IsSound c (admin_score score lines) seed s w = handle_score-IsSound c score lines s w
handle-IsSound c _ seed s w = w

pub handle_found-IsSound :
    (o : Option Client) (m : AdminMsg) (seed : ℕ) (s : Server)
    → IsSound s
    → IsSound (handle_found o m seed s).1
unfolding handle_found
handle_found-IsSound none m seed s w = w
handle_found-IsSound (some c) m seed s w = handle-IsSound c m seed s w
