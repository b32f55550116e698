-- ===== src/Room/Over.antt =====
-- When a round is over, and what `room_check_round_end` of room.c leaves of it then.
use corestack.Prelude.{
  ◌≡◌, refl, sym, ap, ◌∙◌, ◌⊎◌, inl, inr, Bool, true, false, not, ◌||◌, List, [], ◌∷◌, Option, none,
  some, ℤ, pos, negsuc, if◌then◌else◌, map, take,
}
use mathlib.Core.Path.{subst}
use corestack.Room.Model.{session_waiting, is_playing, is_game_over, Client, Room}
use corestack.Room.Board.{max_standings}
use corestack.Room.Table.{listed}
use corestack.Room.Top.{place_all-top}
use corestack.Room.Rank.{
  standing_ranks_before, standing_of, no_standing, client_find, member_clients, room_standings,
  still_playing,
}
use corestack.Room.Round.{
  Ended, ended, no_members, reset_found, find-reset_members, room_check_round_end,
}
use corestack.Room.Winner.{AllScored, first_of, ranking, winner_of-first}

abbrev pub IsIn : ℤ → List ℤ → Type 0
IsIn y [] = ⊥
IsIn y (x ∷ xs) = (y ≡ x) ⊎ IsIn y xs

-- Every member that has a record is at the end of its game.
abbrev pub AllOut : List Client → List ℤ → Type 0
AllOut clients [] = Unit
AllOut clients (fd ∷ fds) =
    ((t : Client) → client_find clients fd ≡ some t → is_game_over t.state.phase ≡ true)
    × AllOut clients fds

-- Some member is still in its game.
pub record IsInGame (clients : List Client) (members : List ℤ) : Type 0 where
  pub fd : ℤ
  pub member : IsIn fd members
  pub client : Client
  pub found : client_find clients fd ≡ some client
  pub plays_on : is_game_over client.state.phase ≡ false

-- The record of a member before and after the end of its round.
pub record IsReset (c d : Client) : Type 0 where
  pub phase : d.state.phase ≡ session_waiting
  pub score : d.score ≡ pos 0
  pub lines : d.lines ≡ pos 0
  pub fd : d.fd ≡ c.fd
  pub room : d.state.room_id ≡ c.state.room_id
  pub player : d.state.player_id ≡ c.state.player_id
  pub owner : d.state.is_owner ≡ c.state.is_owner
  pub name : d.name ≡ c.name

abbrev pub AreReset : Option Client → Option Client → Type 0
AreReset none o = o ≡ none
AreReset (some c) none = ⊥
AreReset (some c) (some d) = IsReset c d

-- What is left of the round that was played in `r`.
pub record IsOver (clients : List Client) (r : Room) (e : Ended) : Type 0 where
  pub waits : e.room.phase ≡ session_waiting
  pub same_room : e.room.id ≡ r.id
  pub same_members : e.room.members ≡ r.members
  pub board : e.standings ≡ take max_standings (ranking (member_clients clients r.members) [])
  pub kept_board : e.room.last_standings ≡ e.standings
  pub winner :
      AllScored (member_clients clients r.members)
      → e.winner ≡ (first_of (negsuc 0, negsuc 0) e.standings).1
  pub members :
      (y : ℤ)
      → listed y r.members ≡ true
      → AreReset (client_find clients y) (client_find e.clients y)
  pub others :
      (y : ℤ) → listed y r.members ≡ false → client_find e.clients y ≡ client_find clients y

-- What the check finds: no round in the room, a round that goes on, or the end of one.
pub data Checked (clients : List Client) (r : Room) : Option Ended → Type 0 where
  no_round : is_playing r.phase ≡ false → Checked clients r none
  nobody : r.members ≡ [] → Checked clients r none
  goes_on : IsInGame clients r.members → Checked clients r none
  over :
      (e : Ended)
      → is_playing r.phase ≡ true
      → no_members r.members ≡ false
      → AllOut clients r.members
      → IsOver clients r e
      → Checked clients r (some e)

-- The loop over the members finds one in its game, or finds all of them out.
abbrev Found : List Client → List ℤ → Bool → Type 0
Found clients fds true = IsInGame clients fds
Found clients fds false = AllOut clients fds

still_playing-Found :
    (clients : List Client) (fds : List ℤ)
    → Found clients fds (still_playing (member_clients clients fds))
unfolding still_playing member_clients
still_playing-Found clients [] = tt
still_playing-Found clients (fd ∷ fds) =
    turn (client_find clients fd) refl (still_playing-Found clients fds)
  where
    later : IsInGame clients fds → IsInGame clients (fd ∷ fds)
    later i = record {
      fd = i.fd;
      member = inr i.member;
      client = i.client;
      found = i.found;
      plays_on = i.plays_on;
    }

    missing :
        (b : Bool)
        → client_find clients fd ≡ none
        → Found clients fds b
        → Found clients (fd ∷ fds) b
    missing true e h = later h
    missing false e h = (λ t f. absurd cc, h)

    met :
        (c : Client) (o b : Bool)
        → client_find clients fd ≡ some c
        → is_game_over c.state.phase ≡ o
        → Found clients fds b
        → Found clients (fd ∷ fds) (not o || b)
    met c false b e f h = record { fd = fd; member = inl refl; client = c; found = e; plays_on = f }
    met c true true e f h = later h
    met c true false e f h = (λ t g. out t g, h)
      where
        out : (t : Client) → client_find clients fd ≡ some t → is_game_over t.state.phase ≡ true
        out t g = let same : c ≡ t = cc in ap (λ d. is_game_over d.state.phase) (sym same) ∙ f

    turn :
        (o : Option Client)
        → client_find clients fd ≡ o
        → Found clients fds (still_playing (member_clients clients fds))
        → Found clients (fd ∷ fds) (
            still_playing (elim o [
              | none ↦ member_clients clients fds
              | some c ↦ c ∷ member_clients clients fds
            ]))
    turn none e h = missing (still_playing (member_clients clients fds)) e h
    turn (some c) e h =
        met c (is_game_over c.state.phase) (still_playing (member_clients clients fds)) e refl h

reset_found-AreReset : (o : Option Client) → AreReset o (reset_found true o)
reset_found-AreReset none = refl
reset_found-AreReset (some c) = record {
  phase = refl;
  score = refl;
  lines = refl;
  fd = refl;
  room = refl;
  player = refl;
  owner = refl;
  name = refl;
}

reset_found-none : (o : Option Client) → reset_found false o ≡ o
reset_found-none none = refl
reset_found-none (some c) = refl

ended-IsOver : (clients : List Client) (r : Room) → IsOver clients r (ended clients r)
unfolding ended
ended-IsOver clients r = record {
  waits = refl;
  same_room = refl;
  same_members = refl;
  board = board;
  kept_board = refl;
  winner = winner_of-first clients r;
  members = λ y h.
      subst (AreReset (client_find clients y))
        (sym (find-reset_members r.members clients y ∙ ap (hit y) h))
        (reset_found-AreReset (client_find clients y));
  others = λ y h.
      find-reset_members r.members clients y
      ∙ ap (hit y) h
      ∙ reset_found-none (client_find clients y);
}
  where
    hit : ℤ → Bool → Option Client
    hit y b = reset_found b (client_find clients y)

    board :
        room_standings clients r
        ≡ take max_standings (ranking (member_clients clients r.members) [])
    board =
        unfold room_standings in
        place_all-top standing_ranks_before no_standing
          (map standing_of (member_clients clients r.members))

no_members-nil : (l : List ℤ) → no_members l ≡ true → l ≡ []
no_members-nil [] e = refl
no_members-nil (x ∷ l) e = absurd cc

-- The end of a round is found exactly in a room that plays and has members, all of whom that have a
-- record are at the end of their game. The room then waits with the same members, and keeps the
-- scoreboard that was announced: the first rows of the members ranked by their scores. Where no
-- score is below 0 the winner is the player of its first row. The record of each member waits for
-- the next round with no score and no lines, and keeps the rest of what is compared here; what any
-- other descriptor finds is as it was.
pub room_check_round_end-Checked :
    (clients : List Client) (r : Room) → Checked clients r (room_check_round_end clients r)
unfolding room_check_round_end ended
room_check_round_end-Checked clients r =
    turn (is_playing r.phase) (no_members r.members)
      (still_playing (member_clients clients r.members)) refl refl
      (still_playing-Found clients r.members)
  where
    turn :
        (p n g : Bool)
        → is_playing r.phase ≡ p
        → no_members r.members ≡ n
        → Found clients r.members g
        → Checked clients r (if not p || (n || g) then none else some (ended clients r))
    turn false n g e f h = no_round e
    turn true true g e f h = nobody (no_members-nil r.members f)
    turn true false true e f h = goes_on h
    turn true false false e f h = over (ended clients r) e f h (ended-IsOver clients r)
