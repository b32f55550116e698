-- ===== src/Session.antt =====
-- One client's game session: tetriSH/src/tetrisd/session.c. What it sends to the client and to the
-- admin thread is kept in two lists.
pub mod Scan
pub mod Route
pub mod Dispatch
pub mod Admin
pub mod Loop
pub mod Ready
pub mod Guard
pub mod Life
pub mod Run
pub mod Tests
pub mod Paths
use corestack.Prelude.{
  ℕ, List, [], ◌∷◌, ◌++◌, Bytes, Bool, Option, ℤ, negsuc, pos, if◌then◌else◌, ◌==◌,
}
use corestack.Htttp.Message.{Request}
use corestack.Brain.Model.{GameState}
use corestack.Room.Model.{SessionPhase, session_idle, session_playing, room_none, SessionState}
use corestack.Room.Server.{AdminMsg, admin_garbage}
use corestack.Brain.Game.{tetrisbrain_init}

-- The body of a push: the bytes of a struct.
pub data Body : Type 0 where
  session_body : SessionState → Body
  game_body : GameState → Body
  winner_body : ℤ → Body

-- What goes to the client: a pushed request, or a bare response.
pub data Push : Type 0 where
  push_request : (method path ctype : Bytes) → Body → Push
  push_reject : (status : ℕ) → Push

-- `Session`, with all that was pushed to the client and handed to the admin thread.
pub record Session : Type 0 where
  pub session : SessionState
  pub game : GameState
  pub user_name : Bytes
  pub ts_start : ℕ
  pub pushed : List Push
  pub to_admin : List AdminMsg

-- What the session meets: the answers of the library for accounts and of history.c, whether the
-- socket to the admin thread takes a message after those before it, and the clock.
pub record World : Type 0 where
  pub auth_offer : Request → SessionState → Bool
  pub history_offer : Request → Bytes → SessionPhase → Bool
  pub auth_name : Bytes
  pub takes : List AdminMsg → Bool
  pub time : ℕ

unfoldable pub push : Push → Session → Session
push p s = record s { pushed = s.pushed ++ (p ∷ []) }

-- Whether the admin thread was sent the message, and the session.
unfoldable pub admin_send : World → AdminMsg → Session → Bool × Session
admin_send w m s =
    let ok = w.takes s.to_admin in
    (ok, if ok then record s { to_admin = s.to_admin ++ (m ∷ []) } else s)

-- `zeroed` is a GameState of zero bytes.
unfoldable pub session_reset : GameState → SessionState → Session
session_reset zeroed memory = record {
  session = record memory {
    phase = session_idle;
    room_id = room_none;
    player_id = pos 0;
    is_owner = Bool.false;
  };
  game = record zeroed { my_player_id = negsuc 0 };
  user_name = [];
  ts_start = 0;
  pushed = [];
  to_admin = [];
}

unfoldable pub session_start_game : World → ℕ → Session → Session
session_start_game w seed s = record s {
  game = tetrisbrain_init s.game seed;
  session = record s.session { phase = session_playing };
  ts_start = w.time;
}

abbrev pub unbanked : Bool × Session → Session
unbanked (Bool.true, s) = record s { game = record s.game { garbage_out = 0 } }
unbanked (Bool.false, s) = s

unfoldable pub session_flush_garbage : World → Session → Session
session_flush_garbage w s =
    if s.game.garbage_out == 0
    then s
    else unbanked (admin_send w (admin_garbage (pos s.game.garbage_out)) s)
