-- ===== src/Session/Admin.antt =====
-- `session_handle_admin` of session.c and the pushes to the client.
use corestack.Prelude.{
  not, ◌&&◌, List, Bytes, codes, ◌++◌, Option, none, some, ℤ, negsuc, if◌then◌else◌, length, take,
}
use corestack.Brain.Model.{GameState, PlayerStanding}
use corestack.Brain.Game.Play.{receive_garbage}
use corestack.Room.Board.{max_standings}
use corestack.Room.Model.{session_waiting, is_playing, is_game_over, room_none, SessionState, eq_ℤ}
use corestack.Room.Server.{
  AdminMsg, admin_join, admin_leave, admin_start, admin_garbage, admin_gameover, admin_session,
  admin_seed, admin_recv_garbage, admin_result, admin_reject, admin_score, admin_standings,
}
use corestack.Session.{
  Session, World, push_request, push_reject, session_body, game_body, winner_body, push,
  session_start_game,
}
use corestack.Session.Scan.{print_int}

abbrev pub ct_state : Bytes
ct_state = codes "application/tetris-state"

unfoldable pub session_push_session : Session → Session
session_push_session s =
    push
      (push_request (codes "UPD_SESSION") (codes "/session/state") ct_state
        (session_body s.session))
      s

abbrev pub room_path : ℤ → Bytes
room_path room = codes "/room/" ++ print_int room

unfoldable pub session_push_game : Session → Session
session_push_game s =
    push (push_request (codes "STATE") (room_path s.session.room_id) ct_state (game_body s.game)) s

-- `new phase / room / owner`.
abbrev pub with_session : SessionState → Session → Session
with_session st s = record s {
  session = st;
  game = record s.game {
    my_player_id = if eq_ℤ st.room_id room_none then negsuc 0 else st.player_id;
  };
}

abbrev pub show_game : Option GameState → Session → Option Session
show_game none s = none
show_game (some g) s = some (session_push_game (record s { game = g }))

-- The rows that are not copied keep what they held.
abbrev pub with_standings : List PlayerStanding → Session → Session
with_standings rows s = record s {
  game = record s.game {
    standings = take max_standings rows;
    standing_count = length (take max_standings rows);
  };
}

-- None where `board_add_garbage` does not return.
unfoldable pub session_handle_admin : World → AdminMsg → Session → Option Session
session_handle_admin w (admin_session st created) s =
    let t = if created then push (push_reject 201) s else s in
    some (session_push_session (with_session st t))
session_handle_admin w (admin_seed seed) s =
    some (session_push_session (session_start_game w seed s))
session_handle_admin w (admin_recv_garbage lines) s =
    if is_playing s.session.phase && not s.game.game_over
    then show_game (receive_garbage s.game lines) s
    else some s
session_handle_admin w (admin_standings rows) s =
    let t = with_standings rows s in
    some (if is_game_over s.session.phase then session_push_game t else t)
session_handle_admin w (admin_result winner) s =
    let t = record s { session = record s.session { phase = session_waiting } } in
    some (
      session_push_session (
        push
          (push_request (codes "UPD_RESULT") (codes "/game/result") ct_state (winner_body winner))
          t))
session_handle_admin w (admin_reject reason) s = some (push (push_reject reason) s)
session_handle_admin w (admin_join room_id name) s = some s
session_handle_admin w admin_leave s = some s
session_handle_admin w admin_start s = some s
session_handle_admin w (admin_garbage lines) s = some s
session_handle_admin w (admin_gameover score) s = some s
session_handle_admin w (admin_score score lines) s = some s
