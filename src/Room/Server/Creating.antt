-- ===== src/Room/Server/Creating.antt =====
-- The room that a join creates, and `handle_join` in both views of membership.
use corestack.Prelude.{
  ℕ, suc, ◌≡◌, refl, sym, ap, ◌∙◌, arith, Bool, true, false, not, List, [], ◌∷◌, Option, none, some,
  ℤ, pos, negsuc, if◌then◌else◌, length, Bytes,
}
use corestack.Room.Model.{room_none, is_playing, Client, Room, eq_ℤ, ltb_ℤ}
use corestack.Room.Compare.{eq_ℤ-eq}
use corestack.Room.Create.{free_id-Smallest}
use corestack.Room.Rank.{client_find}
use corestack.Room.Round.{no_members}
use corestack.Room.Table.{
  with_id, room_find, free_id, is_found, opened, open_slot, room_create, room_add_member,
}
use corestack.Room.Server.{AdminMsg, reject_conflict, reject_full, Server, send_msg}
use corestack.Room.Server.Push.{has_id}
use corestack.Room.Server.Join.{join_new, join_room, handle_join}
use corestack.Room.Server.Stays.{send_msg-Stays}
use corestack.Room.Server.Places.{has_slot, room_find-positive}
use corestack.Room.Server.Agree.{Agree}
use corestack.Room.Server.Leaving.{stays-Agree}
use corestack.Room.Server.Joining.{found-Entry, new-Entry, enter-Agree}
use corestack.Room.Server.Entry.{room_add_member-fits, unless_zero}
use corestack.Room.Server.Refuse.{room_find-written}

-- The slot that was taken, and its room.
abbrev Opened : List Room → ℤ → Option (Room × List Room) → Type 0
Opened rs id none = Unit
Opened rs id (some (q, _)) = (q.id ≡ id) × (q.members ≡ []) × (has_slot (has_id (pos 0)) rs ≡ true)

behind-Opened :
    (r : Room) (rs : List Room) (id : ℤ) (o : Option (Room × List Room))
    → Opened rs id o
    → Opened (r ∷ rs) id (elim o [ none ↦ none | some (q, qs) ↦ some (q, r ∷ qs) ])
unfolding has_slot
behind-Opened r rs id none f = f
behind-Opened r rs id (some (q, qs)) (e, m, h) = (e, m, ground (arith, h))

if-Opened :
    (rs : List Room) (id : ℤ) (b : Bool) (o p : Option (Room × List Room))
    → (b ≡ true → Opened rs id o)
    → Opened rs id p
    → Opened rs id (if b then o else p)
if-Opened rs id true o p f g = f refl
if-Opened rs id false o p f g = g

open_slot-Opened : (rs : List Room) (id : ℤ) → Opened rs id (open_slot rs id)
unfolding open_slot opened has_slot
open_slot-Opened [] id = tt
open_slot-Opened (r ∷ rs) id =
    if-Opened (r ∷ rs) id (eq_ℤ r.id (pos 0)) (some (opened id r, opened id r ∷ rs)) _
      (λ b. (refl, refl, rw b refl))
      (behind-Opened r rs id (open_slot rs id) (open_slot-Opened rs id))

-- What a created room is: its number is positive and was free.
abbrev Created : List Room → Option (Room × List Room) → Type 0
Created rs none = Unit
Created rs (some (q, _)) =
    (id : ℤ) × (ltb_ℤ (pos 0) id ≡ true)
    × (q.id ≡ id)
    × (q.members ≡ [])
    × (with_id rs id ≡ none)
    × (has_slot (has_id (pos 0)) rs ≡ true)

Opened-Created :
    (rs : List Room) (id : ℤ) (o : Option (Room × List Room))
    → ltb_ℤ (pos 0) id ≡ true
    → with_id rs id ≡ none
    → Opened rs id o
    → Created rs o
Opened-Created rs id none p n f = tt
Opened-Created rs id (some (q, qs)) p n (e, m, h) = (id, p, e, m, n, h)

not_taken : (o : Option Room) → is_found o ≡ false → o ≡ none
not_taken none e = refl
not_taken (some r) e = absurd cc

smallest-Created :
    (rs : List Room)
    → Created rs (elim (free_id (suc (length rs)) rs 1) [
      | none ↦ none
      | some cand ↦ open_slot rs (pos cand)
    ])
smallest-Created rs =
    let (cand, e, s) = free_id-Smallest rs in
    let p : ltb_ℤ (pos 0) (pos cand) ≡ true = ground (arith, s.least) in
    rw e (
      Opened-Created rs (pos cand) (open_slot rs (pos cand)) p
        (sym (room_find-positive rs (pos cand) p) ∙ not_taken (room_find rs (pos cand)) s.free)
        (open_slot-Opened rs (pos cand)))

if-Created :
    (rs : List Room) (b : Bool) (o p : Option (Room × List Room))
    → Created rs o
    → (b ≡ false → Created rs p)
    → Created rs (if b then o else p)
if-Created rs true o p f g = f
if-Created rs false o p f g = g refl

positive : (z : ℤ) → ltb_ℤ z (pos 0) ≡ false → eq_ℤ z (pos 0) ≡ false → ltb_ℤ (pos 0) z ≡ true
positive (pos n) h e = ground arith
positive (negsuc n) h e = absurd cc

room_create-Created :
    (rs : List Room) (want : ℤ)
    → ltb_ℤ want (pos 0) ≡ false
    → (eq_ℤ want (pos 0) ≡ false → room_find rs want ≡ none)
    → Created rs (room_create rs want)
unfolding room_create
room_create-Created rs want h n =
    if-Created rs (eq_ℤ want (pos 0)) _ (open_slot rs want) (smallest-Created rs) (λ e.
      Opened-Created rs want (open_slot rs want) (positive want h e)
        (sym (room_find-positive rs want (positive want h e)) ∙ n e) (open_slot-Opened rs want))

-- Of a status and the server next to it.
abbrev pub AgreeAfter : ℕ × Server → Type 0
AgreeAfter p = Agree p.1.clients p.1.rooms

pub if-AgreeAfter :
    (b : Bool) (p q : ℕ × Server)
    → AgreeAfter p
    → (b ≡ false → AgreeAfter q)
    → AgreeAfter (if b then p else q)
if-AgreeAfter true p q f g = f
if-AgreeAfter false p q f g = g refl

module _ (c : Client) (s : Server) (found : client_find s.clients c.fd ≡ some c)
    (h : ltb_ℤ c.fd (pos 0) ≡ false) (a : Agree s.clients s.rooms) where
  pub refused : (status : ℕ) (m : AdminMsg) → AgreeAfter (status, send_msg c.fd m s)
  refused status m = stays-Agree s _ (send_msg-Stays c.fd m s) a

  join_new-Agree :
      (name : Bytes) (o : Option (Room × List Room))
      → c.state.room_id ≡ room_none
      → Created s.rooms o
      → AgreeAfter (join_new c name o s)
  join_new-Agree name none out d = refused reject_full _
  join_new-Agree name (some (r, rs)) out (id0, p, own, empty, n, free) =
      enter-Agree c name true (has_id (pos 0)) r (room_add_member r c.fd) s id0 found h out a
        (new-Entry s.clients s.rooms r id0 a p own empty n free) refl
        (λ e. absurd (room_add_member-fits r c.fd (ap no_members empty) e))

  join_room-Agree :
      (want : ℤ) (name : Bytes) (o : Option Room)
      → c.state.room_id ≡ room_none
      → ltb_ℤ want (pos 0) ≡ false
      → ((r : Room) → o ≡ some r → room_find s.rooms want ≡ some r)
      → (o ≡ none → eq_ℤ want (pos 0) ≡ false → room_find s.rooms want ≡ none)
      → AgreeAfter (join_room c want name o s)
  unfolding join_room
  join_room-Agree want name none out k hit miss =
      join_new-Agree name (room_create s.rooms want) out
        (room_create-Created s.rooms want k (miss refl))
  join_room-Agree want name (some r) out k hit miss =
      if-AgreeAfter (is_playing r.phase) _ _ (refused reject_conflict _) (λ _.
        enter-Agree c name false (has_id want) r (room_add_member r c.fd) s want found h out a
          (found-Entry s.clients s.rooms r want a (hit r refl)) refl
          (λ _. room_find-written s.rooms want r (hit r refl)))

  pub handle_join-Agree :
      (want : ℤ) (name : Bytes)
      → ltb_ℤ want (pos 0) ≡ false
      → AgreeAfter (handle_join c want name s)
  unfolding handle_join
  handle_join-Agree want name k =
      if-AgreeAfter (not (eq_ℤ c.state.room_id room_none)) _ _ (refused reject_conflict _) (λ b.
        join_room-Agree want name _ (eq_ℤ-eq c.state.room_id room_none (ground (arith, b))) k
          (λ r e. unless_zero (eq_ℤ want (pos 0)) r _ e) (λ e z. sym (rw z refl) ∙ e))
