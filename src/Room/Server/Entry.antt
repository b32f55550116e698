-- ===== src/Room/Server/Entry.antt =====
-- A join keeps the tables sound.
use mathlib.Core.Path.{subst}
use corestack.Room.Round.{no_members, if-none}
use corestack.Prelude.{
  ℕ, suc, ◌≢◌, ◌≡◌, refl, arith, Bool, true, false, not, List, [], ◌∷◌, ◌++◌, Option, none, some, ℤ,
  pos, leb, if◌then◌else◌, length, length-append, Bytes,
}
use corestack.Room.Model.{Client, Room, eq_ℤ, room_none, is_playing}
use corestack.Room.Table.{
  max_room_members, open_slot, opened, free_id, room_create, room_add_member,
}
use corestack.Room.Server.{Server}
use corestack.Room.Server.Push.{has_id}
use corestack.Room.Server.Join.{entered, grown, enter, join_new, join_room, handle_join}
use corestack.Room.Server.Sound.{
  with_update, sound, IsSound, with_room, send_msg-IsSound, room_push_sessions_ex-IsSound,
}
use corestack.Room.Server.Keep.{room_find-sound}

nonempty : (ms : List ℤ) (fd : ℤ) → no_members (ms ++ (fd ∷ [])) ≡ false
nonempty [] fd = refl
nonempty (m ∷ ms) fd = refl

room_add_member-sound :
    (r : Room) (fd : ℤ) (q : Room) → room_add_member r fd ≡ some q → sound q ≡ true
unfolding room_add_member
room_add_member-sound r fd q e =
    let (b, same) = if-none _ (record r { members = r.members ++ (fd ∷ []) }) q e in
    subst (λ i. sound i ≡ true) same
      (ground (arith, b, nonempty r.members fd, length-append r.members (fd ∷ [])))

-- Where the room has a place, the client is in it.
enter-IsSound :
    (c : Client) (name : Bytes) (created : Bool) (slot : Room → Bool) (r : Room) (o : Option Room)
    (s : Server)
    → ((q : Room) → o ≡ some q → sound q ≡ true)
    → (o ≡ none → sound r ≡ true)
    → IsSound s
    → IsSound (enter c name created slot r o s).1
unfolding enter
enter-IsSound c name created slot r none s good bad w =
    send_msg-IsSound c.fd _ _ (with_room s slot r (bad refl) w)
enter-IsSound c name created slot r (some q) s good bad w =
    with_room _ slot (grown q) (good q refl)
      (room_push_sessions_ex-IsSound (grown q) _ _ (with_update s c.fd (entered name q) w))

pub unless_zero :
    (b : Bool) (r : Room) (o : Option Room) → (if b then none else o) ≡ some r → o ≡ some r
unless_zero true r o e = absurd cc
unless_zero false r o e = e

if-not-none : {A : Type 0} (b : Bool) (x : A) → (if b then none else some x) ≡ none → b ≡ true
if-not-none true x e = refl
if-not-none false x e = absurd cc

length-no_members : (ms : List ℤ) → no_members ms ≡ true → length ms ≡ 0
length-no_members [] e = refl
length-no_members (m ∷ ms) e = absurd cc

-- A room without members has a place.
pub room_add_member-fits :
    (r : Room) (fd : ℤ) → no_members r.members ≡ true → room_add_member r fd ≢ none
unfolding room_add_member
room_add_member-fits r fd e h =
    let b = if-not-none (leb max_room_members (length r.members)) _ h in
    ground (arith, b, length-no_members r.members e)

abbrev pub Fresh : Option (Room × List Room) → Type 0
Fresh none = Unit
Fresh (some (r, rs)) = no_members r.members ≡ true

behind-Fresh :
    (r : Room) (o : Option (Room × List Room))
    → Fresh o
    → Fresh (elim o [ none ↦ none | some (q, qs) ↦ some (q, r ∷ qs) ])
behind-Fresh r none f = f
behind-Fresh r (some (q, qs)) f = f

if-Fresh :
    (b : Bool) (o p : Option (Room × List Room)) → Fresh o → Fresh p → Fresh (if b then o else p)
if-Fresh true o p f g = f
if-Fresh false o p f g = g

open_slot-Fresh : (rs : List Room) (id : ℤ) → Fresh (open_slot rs id)
unfolding open_slot opened
open_slot-Fresh [] id = tt
open_slot-Fresh (r ∷ rs) id =
    if-Fresh (eq_ℤ r.id (pos 0)) (some (opened id r, opened id r ∷ rs)) _ refl
      (behind-Fresh r (open_slot rs id) (open_slot-Fresh rs id))

numbered-Fresh :
    (rs : List Room) (o : Option ℕ)
    → Fresh (elim o [ none ↦ none | some cand ↦ open_slot rs (pos cand) ])
numbered-Fresh rs none = tt
numbered-Fresh rs (some cand) = open_slot-Fresh rs (pos cand)

pub room_create-Fresh : (rs : List Room) (id : ℤ) → Fresh (room_create rs id)
unfolding room_create
room_create-Fresh rs id =
    if-Fresh (eq_ℤ id (pos 0)) _ (open_slot rs id)
      (numbered-Fresh rs (free_id (suc (length rs)) rs 1)) (open_slot-Fresh rs id)

join_new-IsSound :
    (c : Client) (name : Bytes) (o : Option (Room × List Room)) (s : Server)
    → Fresh o
    → IsSound s
    → IsSound (join_new c name o s).1
join_new-IsSound c name none s f w = send_msg-IsSound c.fd _ s w
join_new-IsSound c name (some (r, rs)) s f w =
    enter-IsSound c name true _ r (room_add_member r c.fd) s (room_add_member-sound r c.fd)
      (λ e. absurd (room_add_member-fits r c.fd f e)) w

pub if-Status :
    (b : Bool) (p q : ℕ × Server) → IsSound p.1 → IsSound q.1 → IsSound (if b then p else q).1
if-Status true p q v w = v
if-Status false p q v w = w

join_room-IsSound :
    (c : Client) (want : ℤ) (name : Bytes) (o : Option Room) (s : Server)
    → ((r : Room) → o ≡ some r → sound r ≡ true)
    → IsSound s
    → IsSound (join_room c want name o s).1
unfolding join_room
join_room-IsSound c want name none s good w =
    join_new-IsSound c name (room_create s.rooms want) s (room_create-Fresh s.rooms want) w
join_room-IsSound c want name (some r) s good w =
    if-Status (is_playing r.phase) _ _ (send_msg-IsSound c.fd _ s w) (
      enter-IsSound c name false (has_id want) r (room_add_member r c.fd) s
        (room_add_member-sound r c.fd) (λ _. good r refl) w)

pub handle_join-IsSound :
    (c : Client) (want : ℤ) (name : Bytes) (s : Server)
    → IsSound s
    → IsSound (handle_join c want name s).1
unfolding handle_join
handle_join-IsSound c want name s w =
    if-Status (not (eq_ℤ c.state.room_id room_none)) _ _ (send_msg-IsSound c.fd _ s w) (
      join_room-IsSound c want name _ s
        (λ r e. room_find-sound s.rooms want r w.members (unless_zero (eq_ℤ want (pos 0)) r _ e)) w)
