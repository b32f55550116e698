-- ===== src/Room/Rank.antt =====
-- The scoreboard and the roster of a room, and the winner of a round.
use corestack.Prelude.{
  ◌&&◌, ◌||◌, not, Bool, false, List, [], ◌∷◌, map, Option, none, some, ℤ, pos, negsuc,
  if◌then◌else◌,
}
use corestack.Brain.Model.{PlayerStanding}
use corestack.Room.Model.{is_game_over, RoomMember, Client, Room, eq_ℤ, ltb_ℤ}
use corestack.Room.Board.{rows}

unfoldable pub standing_ranks_before : PlayerStanding → PlayerStanding → Bool
standing_ranks_before a b =
    if not (eq_ℤ a.score b.score) then ltb_ℤ b.score a.score else ltb_ℤ a.player_id b.player_id

-- A member's row.
abbrev pub standing_of : Client → PlayerStanding
standing_of c = record {
  player_id = c.state.player_id;
  name = c.name;
  score = c.score;
  lines = c.lines;
  game_over = is_game_over c.state.phase;
}

abbrev pub no_standing : PlayerStanding
no_standing = record {
  player_id = pos 0;
  name = [];
  score = pos 0;
  lines = pos 0;
  game_over = false;
}

abbrev pub joined_before : RoomMember → RoomMember → Bool
joined_before a b = ltb_ℤ a.player_id b.player_id

abbrev pub member_of : Client → RoomMember
member_of c = record { player_id = c.state.player_id; name = c.name; is_owner = c.state.is_owner }

abbrev pub no_member : RoomMember
no_member = record { player_id = pos 0; name = []; is_owner = false }

-- `client_find`: the first slot with this descriptor.
unfoldable pub client_find : List Client → ℤ → Option Client
client_find [] fd = none
client_find (c ∷ cs) fd = if eq_ℤ c.fd fd then some c else client_find cs fd

-- The records of a room's members; a member without one is passed over.
unfoldable pub member_clients : List Client → List ℤ → List Client
member_clients clients [] = []
member_clients clients (fd ∷ fds) =
    let rest = member_clients clients fds in
    elim (client_find clients fd) [ none ↦ rest | some c ↦ c ∷ rest ]

-- The rows that `room_push_standings` sends.
unfoldable pub room_standings : List Client → Room → List PlayerStanding
room_standings clients r =
    rows standing_ranks_before no_standing (map standing_of (member_clients clients r.members))

-- The rows that `room_push_sessions_ex` sends.
unfoldable pub room_roster : List Client → Room → List RoomMember
room_roster clients r =
    rows joined_before no_member (map member_of (member_clients clients r.members))

-- The loop for the winner, over `(best, winner)`.
unfoldable pub best_of : ℤ × ℤ → List Client → ℤ × ℤ
best_of b [] = b
best_of (best, winner) (m ∷ ms) =
    let take_it = ltb_ℤ best m.score || eq_ℤ m.score best && ltb_ℤ m.state.player_id winner in
    best_of (if take_it then (m.score, m.state.player_id) else (best, winner)) ms

unfoldable pub winner_of : List Client → ℤ
winner_of ms = (best_of (negsuc 0, negsuc 0) ms).1

-- Some member is not at the end of its game.
unfoldable pub still_playing : List Client → Bool
still_playing [] = false
still_playing (m ∷ ms) = not (is_game_over m.state.phase) || still_playing ms
