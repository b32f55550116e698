-- ===== src/Room/Tests.antt =====
-- The rooms' theorems at a concrete room, and runs of the operations.
use corestack.Prelude.{
  ℕ, ◌*◌, ◌≡◌, refl, arith, true, false, List, [], ◌∷◌, some, pos, negsuc, take, replicate, codes,
}
use corestack.Room.Model.{
  SessionPhase, session_playing, session_waiting, session_game_over, Client, Room,
}
use corestack.Room.Board.{max_standings, insert_all, rows}
use corestack.Room.Top.{place_all-top}
use corestack.Room.Rank.{
  standing_ranks_before, no_standing, joined_before, client_find, member_clients, room_standings,
  room_roster, winner_of,
}
use corestack.Room.Winner.{first_of, winner_of-first}
use corestack.Room.Sorted.{Ranked, room_standings-Ranked, room_roster-Ranked}
use corestack.Room.Table.{room_find, with_id, free_id, swap_remove, mark_wedged}
use corestack.Room.Create.{Smallest, free_id-Smallest}
use corestack.Room.Members.{occurs, occurs-swap_remove, IsWedged, mark_wedged-IsWedged}
use corestack.Room.Rank.{still_playing, best_of}
use corestack.Room.Round.{Ended, reset_members, room_check_round_end}
use corestack.Room.Over.{Checked, room_check_round_end-Checked}

abbrev player : ℕ → ℕ → SessionPhase → Client
player n score phase = record {
  fd = pos (10 * n);
  pid = pos 1;
  state = record {
    phase = phase;
    room_id = pos 1;
    player_id = pos n;
    is_owner = false;
    roster = [];
  };
  score = pos score;
  lines = pos 0;
  name = codes "p";
}

-- The first player has topped out; the next two are level.
abbrev players : List Client
players =
    player 1 900 session_game_over
    ∷ player 2 300 session_playing
    ∷ player 3 300 session_playing
    ∷ player 4 100 session_playing
    ∷ []

abbrev room : Room
room = record {
  id = pos 1;
  phase = session_playing;
  seed = 5;
  next_player_id = 5;
  members = pos 40 ∷ pos 30 ∷ pos 10 ∷ pos 20 ∷ [];
  standings_dirty = false;
  have_standings = false;
  last_standings = [];
}

place_all-top_example :
    rows standing_ranks_before no_standing (replicate 9 no_standing)
    ≡ take max_standings (insert_all standing_ranks_before (replicate 9 no_standing) [])
place_all-top_example = place_all-top standing_ranks_before no_standing (replicate 9 no_standing)

winner_of-first_example :
    winner_of (member_clients players room.members)
    ≡ (first_of (negsuc 0, negsuc 0) (room_standings players room)).1
unfolding member_clients client_find
winner_of-first_example = winner_of-first players room (refl, (refl, (refl, (refl, tt))))

room_standings-Ranked_example : Ranked standing_ranks_before (room_standings players room)
room_standings-Ranked_example = room_standings-Ranked players room

room_roster-Ranked_example : Ranked joined_before (room_roster players room)
room_roster-Ranked_example = room_roster-Ranked players room

abbrev second_room : Room
second_room = record room { id = pos 2 }

abbrev rooms : List Room
rooms = second_room ∷ room ∷ []

free_id-Smallest_example : (id : ℕ) × (free_id 3 rooms 1 ≡ some id) × Smallest rooms 1 id
free_id-Smallest_example = free_id-Smallest rooms

three_is_free : free_id 3 rooms 1 ≡ some 3
unfolding free_id room_find with_id
three_is_free = refl

occurs-swap_remove_example : occurs (pos 10) (swap_remove (pos 10) room.members) ≡ 0
unfolding occurs
occurs-swap_remove_example = occurs-swap_remove (pos 10) (pos 10) room.members

last_fills_the_gap : swap_remove (pos 40) room.members ≡ pos 20 ∷ pos 30 ∷ pos 10 ∷ []
unfolding swap_remove
last_fills_the_gap = refl

nothing-IsWedged : IsWedged []
nothing-IsWedged = record { once = λ y. unfold occurs in omega arith; room = omega arith }

mark_wedged-IsWedged_example : IsWedged (mark_wedged [] (pos 10))
mark_wedged-IsWedged_example = mark_wedged-IsWedged [] (pos 10) nothing-IsWedged

abbrev finished : List Client
finished = player 1 900 session_game_over ∷ player 2 950 session_game_over ∷ []

abbrev finished_room : Room
finished_room = record room { members = pos 20 ∷ pos 10 ∷ [] }

abbrev after_round : Ended
after_round = record {
  clients = reset_members finished (pos 20 ∷ pos 10 ∷ []);
  room = record finished_room {
    phase = session_waiting;
    standings_dirty = false;
    have_standings = true;
    last_standings = room_standings finished finished_room;
  };
  standings = room_standings finished finished_room;
  winner = pos 2;
}

finished-ends : room_check_round_end finished finished_room ≡ some after_round
unfolding room_check_round_end still_playing member_clients client_find winner_of best_of
finished-ends = refl

room_check_round_end-Checked_example :
    Checked finished finished_room (room_check_round_end finished finished_room)
room_check_round_end-Checked_example = room_check_round_end-Checked finished finished_room
