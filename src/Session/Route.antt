-- ===== src/Session/Route.antt =====
-- The table of routes in session.c, and what each route does.
use corestack.Prelude.Opt.{◌>>=◌}
use corestack.Prelude.{
  ℕ, Bool, true, false, List, [], ◌∷◌, Bytes, bytes_eq, codes, Option, none, some, ℤ, if◌then◌else◌,
  take,
}
use corestack.Htttp.Message.{Request}
use corestack.Brain.Model.{
  Move, move_left, move_right, move_rot_left, move_rot_right, move_soft_drop, move_hard_drop, hold,
}
use corestack.Brain.Game.{tetrisbrain_input}
use corestack.Room.Server.{admin_join, admin_leave, admin_start}
use corestack.Session.{World, Session, admin_send, session_flush_garbage}
use corestack.Session.Scan.{RouteShape, path_room, path_room_player}
use corestack.Util.Name.{user_name_max}

abbrev pub body_is : Request → Bytes → Bool
body_is req token = bytes_eq req.body token

-- None where `tetrisbrain_input` does not return.
abbrev pub Answer : Type 0
Answer = Option (ℕ × Session)

unfoldable pub send_input : Move → Session → Option Session
send_input m s = do g ← tetrisbrain_input s.game m; some (record s { game = g })

abbrev pub accepted : Option Session → Answer
accepted none = none
accepted (some s) = some (200, s)

unfoldable pub route_move : Session → Request → Answer
route_move s req =
    if body_is req (codes "LEFT")
    then accepted (send_input move_left s)
    else if body_is req (codes "RIGHT")
    then accepted (send_input move_right s)
    else some (400, s)

unfoldable pub route_rotate : Session → Request → Answer
route_rotate s req =
    if body_is req (codes "CW")
    then accepted (send_input move_rot_right s)
    else if body_is req (codes "CCW")
    then accepted (send_input move_rot_left s)
    else some (400, s)

abbrev pub flushed : World → Option Session → Answer
flushed w none = none
flushed w (some s) = some (200, session_flush_garbage w s)

unfoldable pub route_drop : World → Session → Request → Answer
route_drop w s req =
    if body_is req (codes "SOFT")
    then flushed w (send_input move_soft_drop s)
    else if body_is req (codes "HARD")
    then flushed w (send_input move_hard_drop s)
    else some (400, s)

unfoldable pub route_hold : Session → Answer
route_hold s = accepted (send_input hold s)

-- 500 where the message could not be sent.
abbrev pub handed : Bool × Session → Answer
handed (true, s) = some (200, s)
handed (false, s) = some (500, s)

unfoldable pub route_join : World → Session → ℤ → Answer
route_join w s room =
    let name = take user_name_max w.auth_name in
    handed (admin_send w (admin_join room name) (record s { user_name = name }))

unfoldable pub route_leave : World → Session → Answer
route_leave w s = handed (admin_send w admin_leave s)

unfoldable pub route_start : World → Session → Answer
route_start w s = handed (admin_send w admin_start s)

pub data RouteWhen : Type 0 where
  route_any route_playing : RouteWhen

-- The function of a row.
pub data RouteFn : Type 0 where
  to_move to_rotate to_drop to_hold to_join to_leave to_start : RouteFn

unfoldable pub call : RouteFn → World → Session → Request → ℤ → Answer
call to_move w s req room = route_move s req
call to_rotate w s req room = route_rotate s req
call to_drop w s req room = route_drop w s req
call to_hold w s req room = route_hold s
call to_join w s req room = route_join w s room
call to_leave w s req room = route_leave w s
call to_start w s req room = route_start w s

pub record Route : Type 0 where
  pub method : Bytes
  pub when : RouteWhen
  pub shape : RouteShape
  pub owns_room : Bool
  pub fn : RouteFn

abbrev pub row : Bytes → RouteWhen → RouteShape → Bool → RouteFn → Route
row method when shape owns_room fn = record {
  method = method;
  when = when;
  shape = shape;
  owns_room = owns_room;
  fn = fn;
}

abbrev pub routes : List Route
routes =
    row (codes "MOVE") route_playing path_room_player true to_move
    ∷ row (codes "ROTATE") route_playing path_room_player true to_rotate
    ∷ row (codes "DROP") route_playing path_room_player true to_drop
    ∷ row (codes "HOLD") route_playing path_room_player true to_hold
    ∷ row (codes "JOIN") route_any path_room false to_join
    ∷ row (codes "LEAVE") route_any path_room true to_leave
    ∷ row (codes "START") route_any path_room true to_start
    ∷ []
