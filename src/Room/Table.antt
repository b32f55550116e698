-- ===== src/Room/Table.antt =====
-- The tables of room.c: clients, rooms, the members of a room, and the sessions to be closed.
use corestack.Prelude.{
  ℕ, zero, suc, ◌+◌, Bool, true, false, ◌||◌, List, [], ◌∷◌, ◌++◌, Option, none, some, ℤ, pos,
  negsuc, ltb, leb, if◌then◌else◌, length,
}
use corestack.Room.Model.{session_idle, session_waiting, room_none, Client, Room, eq_ℤ, ltb_ℤ}

abbrev pub max_sessions : ℕ
max_sessions = 1024

abbrev pub max_rooms : ℕ
max_rooms = 1024

abbrev pub max_room_members : ℕ
max_room_members = 1024

-- The client that takes a free slot. The roster, the lines and the name of the slot stay.
unfoldable pub occupy : ℤ → ℤ → Client → Client
occupy fd pid c = record c {
  fd = fd;
  pid = pid;
  score = pos 0;
  state = record c.state {
    phase = session_idle;
    room_id = room_none;
    player_id = pos 0;
    is_owner = false;
  };
}

-- The first free slot is taken; none where the table is full.
unfoldable pub client_alloc : List Client → ℤ → ℤ → Option (List Client)
client_alloc [] fd pid = none
client_alloc (c ∷ cs) fd pid =
    let rest = client_alloc cs fd pid in
    if ltb_ℤ c.fd (pos 0)
    then some (occupy fd pid c ∷ cs)
    else elim rest [ none ↦ none | some ds ↦ some (c ∷ ds) ]

unfoldable pub client_count : List Client → ℕ
client_count [] = 0
client_count (c ∷ cs) = (if ltb_ℤ c.fd (pos 0) then 0 else 1) + client_count cs

unfoldable pub with_id : List Room → ℤ → Option Room
with_id [] id = none
with_id (r ∷ rs) id = if eq_ℤ r.id id then some r else with_id rs id

unfoldable pub room_find : List Room → ℤ → Option Room
room_find rs id = if ltb_ℤ (pos 0) id then with_id rs id else none

unfoldable pub room_count : List Room → ℕ
room_count [] = 0
room_count (r ∷ rs) = (if eq_ℤ r.id (pos 0) then 0 else 1) + room_count rs

abbrev pub is_found : Option Room → Bool
is_found none = false
is_found (some r) = true

abbrev pub taken : List Room → ℕ → Bool
taken rs cand = is_found (room_find rs (pos cand))

-- `for (cand = 1;; cand++) if (!room_find(cand))`. Among one more candidates than rooms one is free.
unfoldable pub free_id : ℕ → List Room → ℕ → Option ℕ
free_id zero rs cand = none
free_id (suc fuel) rs cand =
    let next = free_id fuel rs (cand + 1) in if taken rs cand then next else some cand

unfoldable pub opened : ℤ → Room → Room
opened id r = record r {
  id = id;
  phase = session_waiting;
  seed = 0;
  next_player_id = 0;
  members = [];
  standings_dirty = false;
  have_standings = false;
}

-- The first free slot becomes the room.
unfoldable pub open_slot : List Room → ℤ → Option (Room × List Room)
open_slot [] id = none
open_slot (r ∷ rs) id =
    let rest = open_slot rs id in
    if eq_ℤ r.id (pos 0)
    then some (opened id r, opened id r ∷ rs)
    else elim rest [ none ↦ none | some (q, qs) ↦ some (q, r ∷ qs) ]

unfoldable pub room_create : List Room → ℤ → Option (Room × List Room)
room_create rs id =
    if eq_ℤ id (pos 0)
    then elim (free_id (suc (length rs)) rs 1) [ none ↦ none | some cand ↦ open_slot rs (pos cand) ]
    else open_slot rs id

-- None where the room is full.
unfoldable pub room_add_member : Room → ℤ → Option Room
room_add_member r fd =
    if leb max_room_members (length r.members)
    then none
    else some (record r { members = r.members ++ (fd ∷ []) })

-- A list that is not empty, as its last entry and those before it.
abbrev pub split_last : ℤ → List ℤ → ℤ × List ℤ
split_last x [] = (x, [])
split_last x (y ∷ ys) = ((split_last y ys).0, x ∷ (split_last y ys).1)

-- `members[i] = members[--count]`, of the entries from `i` on.
abbrev pub drop_first : List ℤ → List ℤ
drop_first [] = []
drop_first (y ∷ ys) = (split_last y ys).0 ∷ (split_last y ys).1

unfoldable pub swap_remove : ℤ → List ℤ → List ℤ
swap_remove fd [] = []
swap_remove fd (x ∷ xs) =
    let rest = swap_remove fd xs in if eq_ℤ x fd then drop_first xs else x ∷ rest

unfoldable pub room_del_member : Room → ℤ → Room
room_del_member r fd = record r { members = swap_remove fd r.members }

abbrev pub wedged_max : ℕ
wedged_max = 16

unfoldable pub listed : ℤ → List ℤ → Bool
listed fd [] = false
listed fd (x ∷ xs) = eq_ℤ x fd || listed fd xs

unfoldable pub mark_wedged : List ℤ → ℤ → List ℤ
mark_wedged wedged fd =
    if listed fd wedged
    then wedged
    else if ltb (length wedged) wedged_max
    then wedged ++ (fd ∷ [])
    else wedged

-- -1 where no session is wedged.
unfoldable pub client_take_wedged : List ℤ → ℤ × List ℤ
client_take_wedged [] = (negsuc 0, [])
client_take_wedged (fd ∷ rest) = (fd, rest)
