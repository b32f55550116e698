-- ===== src/Room/Server/Refuse.antt =====
-- Which commands are refused, and what the admin thread does then.
use corestack.Prelude.{
  ℕ, ◌≡◌, refl, sym, ap, ◌∙◌, ◌⊎◌, inl, inr, Bool, true, false, not, ◌&&◌, List, [], ◌∷◌, ◌++◌,
  Option, none, some, ℤ, pos, if◌then◌else◌, Bytes, Bool-cases, leb, length,
}
use corestack.Room.Model.{Client, Room, eq_ℤ, ltb_ℤ, room_none, is_playing}
use corestack.Room.Rank.{client_find}
use corestack.Room.Table.{with_id, room_find, mark_wedged, max_room_members}
use corestack.Room.Server.{
  AdminMsg, admin_join, admin_leave, admin_start, admin_garbage, admin_gameover, admin_session,
  admin_seed, admin_recv_garbage, admin_result, admin_reject, admin_score, admin_standings, Server,
  reject_conflict, reject_full, reject_not_owner,
}
use corestack.Room.Server.Push.{write_room, has_id}
use corestack.Room.Server.Keep.{guard-some}

-- No slot of the table is free.
abbrev pub all_used : List Room → Bool
all_used [] = true
all_used (r ∷ rs) = not (eq_ℤ r.id (pos 0)) && all_used rs

-- There is no room to join: none is asked for, or none has the number.
abbrev pub NoneToJoin : List Room → ℤ → Type 0
NoneToJoin rooms want = (eq_ℤ want (pos 0) ≡ true) ⊎ (room_find rooms want ≡ none)

-- Why a command is refused, and with which status.
pub data Refuses (rooms : List Room) (c : Client) : AdminMsg → ℕ → Type 0 where
  in_room_already :
      (want : ℤ) (name : Bytes)
      → eq_ℤ c.state.room_id room_none ≡ false
      → Refuses rooms c (admin_join want name) reject_conflict
  round_runs :
      (want : ℤ) (name : Bytes) (r : Room)
      → eq_ℤ c.state.room_id room_none ≡ true
      → eq_ℤ want (pos 0) ≡ false
      → room_find rooms want ≡ some r
      → is_playing r.phase ≡ true
      → Refuses rooms c (admin_join want name) reject_conflict
  room_full :
      (want : ℤ) (name : Bytes) (r : Room)
      → eq_ℤ c.state.room_id room_none ≡ true
      → eq_ℤ want (pos 0) ≡ false
      → room_find rooms want ≡ some r
      → is_playing r.phase ≡ false
      → leb max_room_members (length r.members) ≡ true
      → Refuses rooms c (admin_join want name) reject_full
  table_full :
      (want : ℤ) (name : Bytes)
      → eq_ℤ c.state.room_id room_none ≡ true
      → NoneToJoin rooms want
      → all_used rooms ≡ true
      → Refuses rooms c (admin_join want name) reject_full
  in_no_room : eq_ℤ c.state.room_id room_none ≡ true → Refuses rooms c admin_start reject_conflict
  not_owner :
      eq_ℤ c.state.room_id room_none ≡ false
      → c.state.is_owner ≡ false
      → Refuses rooms c admin_start reject_not_owner
  no_such_room :
      eq_ℤ c.state.room_id room_none ≡ false
      → c.state.is_owner ≡ true
      → room_find rooms c.state.room_id ≡ none
      → Refuses rooms c admin_start reject_conflict
  started_already :
      (r : Room)
      → eq_ℤ c.state.room_id room_none ≡ false
      → c.state.is_owner ≡ true
      → room_find rooms c.state.room_id ≡ some r
      → is_playing r.phase ≡ true
      → Refuses rooms c admin_start reject_conflict

-- When a command is carried out.
pub data Accepts (rooms : List Room) (c : Client) : AdminMsg → Type 0 where
  joins :
      (want : ℤ) (name : Bytes) (r : Room)
      → eq_ℤ c.state.room_id room_none ≡ true
      → eq_ℤ want (pos 0) ≡ false
      → room_find rooms want ≡ some r
      → is_playing r.phase ≡ false
      → leb max_room_members (length r.members) ≡ false
      → Accepts rooms c (admin_join want name)
  founds :
      (want : ℤ) (name : Bytes)
      → eq_ℤ c.state.room_id room_none ≡ true
      → NoneToJoin rooms want
      → all_used rooms ≡ false
      → Accepts rooms c (admin_join want name)
  starts :
      (r : Room)
      → eq_ℤ c.state.room_id room_none ≡ false
      → c.state.is_owner ≡ true
      → room_find rooms c.state.room_id ≡ some r
      → is_playing r.phase ≡ false
      → Accepts rooms c admin_start
  leaves : Accepts rooms c admin_leave
  attacks : (lines : ℤ) → Accepts rooms c (admin_garbage lines)
  tops_out : (score : ℤ) → Accepts rooms c (admin_gameover score)
  scores : (score lines : ℤ) → Accepts rooms c (admin_score score lines)

-- The refusal is handed to the socket of `fd`, which may be full then, and nothing else changes.
abbrev pub Rejected : ℤ → ℕ → Server → Server → Type 0
Rejected fd status s t = t ≡ record s {
  wedged = if s.blocks s.sent fd then mark_wedged s.wedged fd else s.wedged;
  sent = s.sent ++ ((fd, admin_reject status) ∷ []);
}

-- What a command of a client comes to.
pub data Verdict (s : Server) (c : Client) (m : AdminMsg) (p : ℕ × Server) : Type 0 where
  accepted : Accepts s.rooms c m → p.0 ≡ 0 → Verdict s c m p
  refused : Refuses s.rooms c m p.0 → Rejected c.fd p.0 s p.1 → Verdict s c m p

-- A room that a lookup found is written back as it was.
write_room-found :
    (rs : List Room) (id : ℤ) (r : Room) → with_id rs id ≡ some r → write_room (has_id id) r rs ≡ rs
unfolding with_id write_room
write_room-found [] id r e = refl
write_room-found (q ∷ rs) id r e = elim (Bool-cases (eq_ℤ q.id id)) [
  | inl b ↦ rw b (let same : some q ≡ some r = sym (rw b refl) ∙ e in cc)
  | inr b ↦ rw b (ap (λ i. q ∷ i) (write_room-found rs id r (sym (rw b refl) ∙ e)))
]

pub room_find-written :
    (rs : List Room) (id : ℤ) (r : Room)
    → room_find rs id ≡ some r
    → write_room (has_id id) r rs ≡ rs
unfolding room_find
room_find-written rs id r e =
    write_room-found rs id r (guard-some (ltb_ℤ (pos 0) id) r (with_id rs id) e)

-- A search of the table finds nothing exactly where every slot is used.
abbrev Used : Bool → Option (Room × List Room) → Type 0
Used u none = u ≡ true
Used u (some r) = u ≡ false

-- A room has a place exactly where it is not full.
abbrev Placed : Room → Option Room → Type 0
Placed r none = leb max_room_members (length r.members) ≡ true
Placed r (some q) = leb max_room_members (length r.members) ≡ false

module _ (s : Server) (c : Client) where
  abbrev Judged : AdminMsg → ℕ × Server → Type 0
  Judged m p = Verdict s c m p

  module _ (want : ℤ) (name : Bytes) (outside : eq_ℤ c.state.room_id room_none ≡ true) where
    abbrev join : AdminMsg
    join = admin_join want name

-- A message that only the admin thread sends.
abbrev pub IsAnswer : AdminMsg → Type 0
IsAnswer (admin_session session created) = Unit
IsAnswer (admin_seed seed) = Unit
IsAnswer (admin_recv_garbage lines) = Unit
IsAnswer (admin_result winner) = Unit
IsAnswer (admin_reject reason) = Unit
IsAnswer (admin_standings rows) = Unit
IsAnswer _ = ⊥

-- What a message from a descriptor comes to.
pub data Outcome (s : Server) (fd : ℤ) (m : AdminMsg) (p : ℕ × Server) : Type 0 where
  unknown : client_find s.clients fd ≡ none → p ≡ (404, s) → Outcome s fd m p
  no_command : IsAnswer m → p ≡ (400, s) → Outcome s fd m p
  accepted_for :
      (c : Client)
      → client_find s.clients fd ≡ some c
      → Accepts s.rooms c m
      → p.0 ≡ 0
      → Outcome s fd m p
  refused_to :
      (c : Client)
      → client_find s.clients fd ≡ some c
      → Refuses s.rooms c m p.0
      → Rejected fd p.0 s p.1
      → Outcome s fd m p
