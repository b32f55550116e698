-- ===== src/Session/Dispatch.antt =====
-- `session_dispatch` of session.c: who may reach a route.
use corestack.Prelude.{
  Bool, true, false, not, ◌&&◌, ◌||◌, List, [], ◌∷◌, Bytes, bytes_eq, codes, Option, none, some, ℤ,
  ◌==◌, if◌then◌else◌,
}
use corestack.Htttp.Message.{Request, header_get}
use corestack.Room.Model.{is_playing, room_none, eq_ℤ}
use corestack.Session.{World, Session, push, push_reject}
use corestack.Session.Scan.{RouteShape, path_room, path_room_player, atoi, path_ids}
use corestack.Session.Route.{RouteWhen, route_any, route_playing, Answer, Route, call, routes}

-- The first row with the method.
unfoldable pub route_for : List Route → Bytes → Option Route
route_for [] method = none
route_for (r ∷ rs) method = if bytes_eq method r.method then some r else route_for rs method

abbrev pub needs_game : RouteWhen → Bool
needs_game route_any = false
needs_game route_playing = true

abbrev pub names_player : RouteShape → Bool
names_player path_room = false
names_player path_room_player = true

-- The path claims a room or a player that the session does not have.
abbrev pub is_foreign : Route → Session → ℤ → ℤ → Bool
is_foreign r s room player =
    r.owns_room
    && (not (eq_ℤ room s.session.room_id)
        || names_player r.shape && not (eq_ℤ player s.session.player_id))

unfoldable pub with_ids : World → Session → Request → Route → Option (ℤ × ℤ) → Answer
with_ids w s req r none = some (404, s)
with_ids w s req r (some (room, player)) =
    if is_foreign r s room player then some (403, s) else call r.fn w s req room

unfoldable pub with_player : World → Session → Request → Route → Option Bytes → Answer
with_player w s req r none = some (401, s)
with_player w s req r (some id) =
    if not (eq_ℤ s.session.room_id room_none) && not (eq_ℤ (atoi id) s.session.player_id)
    then some (403, s)
    else with_ids w s req r (path_ids req.path r.shape)

-- `if (answer && status != 200) session_push_reject(...)`.
abbrev pub answered : Answer → Option Session
answered none = none
answered (some (status, s)) = some (if status == 200 then s else push (push_reject status) s)

-- A method in the wrong phase is not answered.
unfoldable pub with_route : World → Session → Request → Option Route → Option Session
with_route w s req none = some (push (push_reject 501) s)
with_route w s req (some r) =
    if needs_game r.when && not (is_playing s.session.phase)
    then some s
    else answered (with_player w s req r (header_get req.headers (codes "Player-Id")))

unfoldable pub session_dispatch : World → Session → Request → Option Session
session_dispatch w s req =
    if w.auth_offer req s.session
    then some s
    else if w.history_offer req s.user_name s.session.phase
    then some s
    else with_route w s req (route_for routes req.method)
