-- ===== src/Net/Obey.antt =====
-- A command of the client reaches the route that is meant, with what it asks for.
use corestack.Prelude.{◌≡◌, Bool, true, false, [], codes, ℤ, if◌then◌else◌}
use corestack.Brain.Model.{
  move_left, move_right, move_rot_left, move_rot_right, move_soft_drop, move_hard_drop, hold,
}
use corestack.Htttp.Message.{Request}
use corestack.Net.{NetClient}
use corestack.Net.Send.{
  request_of, room_path, player_path, claimed_room, move_word, rotate_word, drop_word,
}
use corestack.Session.{World, Session}
use corestack.Session.Paths.{IsInt}
use corestack.Session.Route.{
  Answer, send_input, accepted, flushed, route_join, route_leave, route_start, Route,
}

pub data Command : Type 0 where
  move : (right : Bool) → Command
  rotate : (right : Bool) → Command
  drop : (hard : Bool) → Command
  keep : Command
  join : (room : ℤ) → Command
  leave : Command
  start : Command

-- The request of the command's function in net.c.
unfoldable pub command_request : NetClient → Command → Request
command_request c (move right) = request_of c (codes "MOVE") (player_path c) (move_word right)
command_request c (rotate right) = request_of c (codes "ROTATE") (player_path c) (rotate_word right)
command_request c (drop hard) = request_of c (codes "DROP") (player_path c) (drop_word hard)
command_request c keep = request_of c (codes "HOLD") (player_path c) []
command_request c (join room) = request_of c (codes "JOIN") (room_path room) []
command_request c leave = request_of c (codes "LEAVE") (room_path (claimed_room c)) []
command_request c start = request_of c (codes "START") (room_path (claimed_room c)) []

-- What the command asks of the session.
abbrev pub effect : World → Session → Command → Answer
effect w s (move right) = accepted (send_input (if right then move_right else move_left) s)
effect w s (rotate right) =
    accepted (send_input (if right then move_rot_right else move_rot_left) s)
effect w s (drop hard) = flushed w (send_input (if hard then move_hard_drop else move_soft_drop) s)
effect w s keep = accepted (send_input hold s)
effect w s (join room) = route_join w s room
effect w s leave = route_leave w s
effect w s start = route_start w s

abbrev pub in_game : Command → Bool
in_game (join room) = false
in_game leave = false
in_game start = false
in_game _ = true

abbrev pub IsIntCommand : Command → Type 0
IsIntCommand (join room) = IsInt room
IsIntCommand _ = Unit

-- Client and session name the same room and player.
pub record IsSynced (c : NetClient) (s : Session) : Type 0 where
  pub told : c.have_session ≡ true
  pub room : c.session.room_id ≡ s.session.room_id
  pub player : c.session.player_id ≡ s.session.player_id
  pub room_int : IsInt c.session.room_id
  pub player_int : IsInt c.session.player_id

-- Nobody takes the request before the table.
pub record IsFree (w : World) (s : Session) (req : Request) : Type 0 where
  pub auth : w.auth_offer req s.session ≡ false
  pub history : w.history_offer req s.user_name s.session.phase ≡ false
