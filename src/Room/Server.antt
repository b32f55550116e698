-- ===== src/Room/Server.antt =====
-- The admin thread's side of the rooms: what room.c keeps, the messages of
-- tetriSH/include/tetrisd/adminmsg.h, and sending them.
pub mod Push
pub mod Depart
pub mod Join
pub mod Handle
pub mod Views
pub mod Sound
pub mod Keep
pub mod Seats
pub mod Stays
pub mod Places
pub mod Agree
pub mod Leaving
pub mod Closing
pub mod Adding
pub mod Joining
pub mod Creating
pub mod Sync
pub mod Membership
pub mod Finish
pub mod Tests
pub mod Run
pub mod Refuse
pub mod Entry
pub mod Serve
pub mod Target
use corestack.Prelude.{ℕ, List, [], ◌∷◌, ◌++◌, Bytes, Bool, false, ℤ, if◌then◌else◌}
use corestack.Brain.Model.{PlayerStanding}
use corestack.Room.Model.{SessionState, Client, Room}
use corestack.Room.Table.{mark_wedged}

-- One message with the fields that its type uses.
pub data AdminMsg : Type 0 where
  admin_join : (room_id : ℤ) (name : Bytes) → AdminMsg
  admin_leave : AdminMsg
  admin_start : AdminMsg
  admin_garbage : (lines : ℤ) → AdminMsg
  admin_gameover : (score : ℤ) → AdminMsg
  admin_session : (session : SessionState) (created : Bool) → AdminMsg
  admin_seed : (seed : ℕ) → AdminMsg
  admin_recv_garbage : (lines : ℤ) → AdminMsg
  admin_result : (winner : ℤ) → AdminMsg
  admin_reject : (reason : ℕ) → AdminMsg
  admin_score : (score : ℤ) (lines : ℤ) → AdminMsg
  admin_standings : (standings : List PlayerStanding) → AdminMsg

abbrev pub reject_not_owner : ℕ
reject_not_owner = 403

abbrev pub reject_conflict : ℕ
reject_conflict = 409

abbrev pub reject_full : ℕ
reject_full = 429

-- A descriptor and what was handed to `adminmsg_write` for it.
abbrev pub Sent : Type 0
Sent = ℤ × AdminMsg

-- `g_clients`, `g_rooms` and `g_wedged`. `sent` lists all messages that were handed to the sockets,
-- and `blocks` tells after which of them a socket does not take another one at once.
pub record Server : Type 0 where
  pub clients : List Client
  pub rooms : List Room
  pub wedged : List ℤ
  pub sent : List Sent
  pub blocks : List Sent → ℤ → Bool

unfoldable pub send_msg : ℤ → AdminMsg → Server → Server
send_msg fd m s = record s {
  wedged = if s.blocks s.sent fd then mark_wedged s.wedged fd else s.wedged;
  sent = s.sent ++ ((fd, m) ∷ []);
}

abbrev pub send_session_ex : Client → Bool → Server → Server
send_session_ex c created s = send_msg c.fd (admin_session c.state created) s

abbrev pub send_session : Client → Server → Server
send_session c s = send_session_ex c false s

abbrev pub send_reject : Client → ℕ → Server → Server
send_reject c reason s = send_msg c.fd (admin_reject reason) s

-- To the members of a room, in the order of the list.
unfoldable pub room_broadcast : List ℤ → AdminMsg → Server → Server
room_broadcast [] m s = s
room_broadcast (fd ∷ fds) m s = room_broadcast fds m (send_msg fd m s)
