-- ===== src/Room/Server/Views.antt =====
-- The read-only views of room.c for the control plane.
use corestack.Prelude.{
  ℕ, zero, suc, Bool, ◌&&◌, not, List, [], ◌∷◌, Bytes, Option, none, some, ℤ, pos, negsuc,
  if◌then◌else◌, length,
}
use corestack.Room.Model.{SessionPhase, Client, Room, eq_ℤ, ltb_ℤ}
use corestack.Room.Rank.{client_find, member_clients}

pub record RoomInfo : Type 0 where
  pub id : ℤ
  pub phase : SessionPhase
  pub members : ℕ
  pub owner_player : ℤ

pub record PlayerInfo : Type 0 where
  pub room : ℤ
  pub player : ℤ
  pub pid : ℤ
  pub is_owner : Bool
  pub score : ℤ
  pub lines : ℤ
  pub name : Bytes

-- The first member with the flag; -1 where there is none.
unfoldable pub owner_player : List Client → ℤ
owner_player [] = negsuc 0
owner_player (c ∷ cs) = if c.state.is_owner then c.state.player_id else owner_player cs

abbrev pub room_info : List Client → Room → RoomInfo
room_info clients r = record {
  id = r.id;
  phase = r.phase;
  members = length r.members;
  owner_player = owner_player (member_clients clients r.members);
}

-- At most `max` rooms in use, in the order of the slots.
unfoldable pub room_snapshot : List Client → List Room → ℕ → List RoomInfo
room_snapshot clients rooms zero = []
room_snapshot clients [] (suc max) = []
room_snapshot clients (r ∷ rs) (suc max) =
    let skip = room_snapshot clients rs (suc max) in
    let more = room_snapshot clients rs max in
    if eq_ℤ r.id (pos 0) then skip else room_info clients r ∷ more

abbrev pub player_info : Client → PlayerInfo
player_info c = record {
  room = c.state.room_id;
  player = c.state.player_id;
  pid = c.pid;
  is_owner = c.state.is_owner;
  score = c.score;
  lines = c.lines;
  name = c.name;
}

unfoldable pub player_snapshot : List Client → ℕ → List PlayerInfo
player_snapshot clients zero = []
player_snapshot [] (suc max) = []
player_snapshot (c ∷ cs) (suc max) =
    let skip = player_snapshot cs (suc max) in
    let more = player_snapshot cs max in if ltb_ℤ c.fd (pos 0) then skip else player_info c ∷ more

unfoldable pub client_fd_by_player : List Client → ℤ → ℤ → ℤ
client_fd_by_player [] room_id player_id = negsuc 0
client_fd_by_player (c ∷ cs) room_id player_id =
    let rest = client_fd_by_player cs room_id player_id in
    if not (ltb_ℤ c.fd (pos 0))
      && (eq_ℤ c.state.room_id room_id && eq_ℤ c.state.player_id player_id)
    then c.fd
    else rest

abbrev pub pid_or : Option Client → ℤ
pid_or none = negsuc 0
pid_or (some c) = c.pid

unfoldable pub client_pid_of : List Client → ℤ → ℤ
client_pid_of clients fd = pid_or (client_find clients fd)
