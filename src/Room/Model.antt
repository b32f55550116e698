-- ===== src/Room/Model.antt =====
-- The records of room.c, and the session state of core/include/libtetrisutil/sessionstate.h. Of an
-- array with a count, the list of the entries in use is kept.
use corestack.Prelude.{ℕ, Bool, true, false, List, ℤ, pos, negsuc, Bytes, ltb, ◌==◌}
use corestack.Brain.Model.{PlayerStanding}

pub data SessionPhase : Type 0 where
  session_none session_idle session_waiting session_playing session_game_over : SessionPhase
  session_disconnected : SessionPhase

abbrev pub is_playing : SessionPhase → Bool
is_playing session_playing = true
is_playing _ = false

abbrev pub is_game_over : SessionPhase → Bool
is_game_over session_game_over = true
is_game_over _ = false

abbrev pub room_none : ℤ
room_none = negsuc 0

pub record RoomMember : Type 0 where
  pub player_id : ℤ
  pub name : Bytes
  pub is_owner : Bool

pub record SessionState : Type 0 where
  pub phase : SessionPhase
  pub room_id : ℤ
  pub player_id : ℤ
  pub is_owner : Bool
  pub roster : List RoomMember

-- One slot of `g_clients`; it is free where `fd` is -1.
pub record Client : Type 0 where
  pub fd : ℤ
  pub pid : ℤ
  pub state : SessionState
  pub score : ℤ
  pub lines : ℤ
  pub name : Bytes

-- One slot of `g_rooms`; it is free where `id` is 0.
pub record Room : Type 0 where
  pub id : ℤ
  pub phase : SessionPhase
  pub seed : ℕ
  pub next_player_id : ℕ
  pub members : List ℤ
  pub standings_dirty : Bool
  pub have_standings : Bool
  pub last_standings : List PlayerStanding

abbrev pub eq_ℤ : ℤ → ℤ → Bool
eq_ℤ (pos a) (pos b) = a == b
eq_ℤ (negsuc a) (negsuc b) = a == b
eq_ℤ (pos a) (negsuc b) = false
eq_ℤ (negsuc a) (pos b) = false

abbrev pub ltb_ℤ : ℤ → ℤ → Bool
ltb_ℤ (pos a) (pos b) = ltb a b
ltb_ℤ (negsuc a) (negsuc b) = ltb b a
ltb_ℤ (pos a) (negsuc b) = false
ltb_ℤ (negsuc a) (pos b) = true
