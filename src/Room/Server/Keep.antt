-- ===== src/Room/Server/Keep.antt =====
-- Every call of the admin thread keeps the tables sound.
use mathlib.Core.Path.{subst}
use corestack.Prelude.{
  ◌⊎◌, ◌≤◌, ◌≡◌, refl, ◌∙◌, inl, inr, arith, Bool, true, false, List, [], ◌∷◌, Option, none, some,
  ℤ, pos, negsuc, leb, if◌then◌else◌, length, Bool-cases,
}
use corestack.Room.Model.{Client, Room, eq_ℤ, ltb_ℤ}
use corestack.Room.Round.{
  Ended, ended, if-none, no_members, reset_member, reset_members, room_check_round_end,
}
use corestack.Room.Table.{max_room_members, with_id, room_find, split_last, drop_first, swap_remove}
use corestack.Room.Server.{admin_result, Server}
use corestack.Room.Server.Push.{
  has_id, room_push_sessions, room_push_standings, room_mark_standings_dirty,
}
use corestack.Room.Server.Depart.{make_owner, promote, announce, check_round_end, settle, departed}
use corestack.Room.Server.Sound.{
  sound, all_sound, IsSound, with_clients, length-update_client, with_room, room_broadcast-IsSound,
  room_push_sessions_ex-IsSound, room_push_standings-IsPair,
}

pub if-some :
    {A : Type 0} (b : Bool) (x y : A) (o : Option A)
    → (if b then some x else o) ≡ some y
    → ((b ≡ true) × (x ≡ y)) ⊎ (o ≡ some y)
if-some true x y o e = inl (refl, cc)
if-some false x y o e = inr e

pub guard-some :
    {A : Type 0} (b : Bool) (y : A) (o : Option A) → (if b then o else none) ≡ some y → o ≡ some y
guard-some true y o e = e
guard-some false y o e = absurd cc

-- A room that a lookup finds is one of the table.
pub with_id-sound :
    (rs : List Room) (id : ℤ) (r : Room)
    → all_sound rs ≡ true
    → with_id rs id ≡ some r
    → sound r ≡ true
unfolding all_sound with_id
with_id-sound [] id r h e = absurd cc
with_id-sound (q ∷ rs) id r h e = elim (if-some (eq_ℤ q.id id) q r (with_id rs id) e) [
  | inl (_, same) ↦ subst (λ i. sound i ≡ true) same (ground (arith, h))
  | inr rest ↦ with_id-sound rs id r (ground (arith, h)) rest
]

pub room_find-sound :
    (rs : List Room) (id : ℤ) (r : Room)
    → all_sound rs ≡ true
    → room_find rs id ≡ some r
    → sound r ≡ true
unfolding room_find
room_find-sound rs id r h e =
    with_id-sound rs id r h (guard-some (ltb_ℤ (pos 0) id) r (with_id rs id) e)

length-split_last : (x : ℤ) (xs : List ℤ) → length (split_last x xs).1 ≡ length xs
length-split_last x [] = refl
length-split_last x (y ∷ ys) = omega (arith, length-split_last y ys)

length-drop_first : (xs : List ℤ) → length (drop_first xs) ≡ length xs
length-drop_first [] = refl
length-drop_first (y ∷ ys) = omega (arith, length-split_last y ys)

pub length-swap_remove : (fd : ℤ) (xs : List ℤ) → length (swap_remove fd xs) ≤ length xs
unfolding swap_remove
length-swap_remove fd [] = omega arith
length-swap_remove fd (x ∷ xs) = ground (arith, length-swap_remove fd xs, length-drop_first xs)

length-reset_member : (cs : List Client) (fd : ℤ) → length (reset_member cs fd) ≡ length cs
unfolding reset_member
length-reset_member [] fd = refl
length-reset_member (c ∷ cs) fd = ground (arith, length-reset_member cs fd)

length-reset_members : (fds : List ℤ) (cs : List Client) → length (reset_members cs fds) ≡ length cs
unfolding reset_members
length-reset_members [] cs = refl
length-reset_members (fd ∷ fds) cs =
    length-reset_members fds (reset_member cs fd) ∙ length-reset_member cs fd

length-promote :
    (b : Bool) (fds : List ℤ) (cs : List Client) → length (promote b fds cs) ≡ length cs
unfolding promote
length-promote false fds cs = refl
length-promote true [] cs = refl
length-promote true (fd ∷ fds) cs = length-update_client fd make_owner cs

-- The room of a round that ended has the number and the members that it had.
ended-room :
    (cs : List Client) (r : Room) (e : Ended)
    → room_check_round_end cs r ≡ some e
    → (sound r ≡ true → sound e.room ≡ true) × (length e.clients ≡ length cs)
unfolding room_check_round_end ended
ended-room cs r e h =
    let (_, q) = if-none _ (ended cs r) e h in
    subst (λ i. (sound r ≡ true → sound i.room ≡ true) × (length i.clients ≡ length cs)) q
      (λ h. h, length-reset_members r.members cs)

announce-Keeps :
    (o : Option Ended) (r : Room) (s : Server)
    → room_check_round_end s.clients r ≡ o
    → sound r ≡ true
    → IsSound s
    → (sound (announce o r s).1 ≡ true) × IsSound (announce o r s).2
unfolding announce
announce-Keeps none r s q e w = (e, w)
announce-Keeps (some d) r s q e w =
    let (keeps, l) = ended-room s.clients r d q in
    let (_, v) = room_push_standings-IsPair r s e w in
    let u =
      room_broadcast-IsSound r.members (admin_result d.winner) (room_push_standings r s).1 v in
    (
      keeps e,
      record { clients = l ∙ w.clients; rooms = u.rooms; members = u.members; wedged = u.wedged },
    )

pub check_round_end-Keeps :
    (r : Room) (s : Server)
    → sound r ≡ true
    → IsSound s
    → (sound (check_round_end r s).1 ≡ true) × IsSound (check_round_end r s).2
check_round_end-Keeps r s e w = announce-Keeps (room_check_round_end s.clients r) r s refl e w

if-sound :
    (b : Bool) (r : Room)
    → sound r ≡ true
    → sound (if b then r else room_mark_standings_dirty r) ≡ true
if-sound true r e = e
if-sound false r e = e

settle-IsSound :
    (id : ℤ) (p : Bool × Room × Server) → sound p.1 ≡ true → IsSound p.2 → IsSound (settle id p)
unfolding settle
settle-IsSound id (b, r, s) e w =
    with_room (room_push_sessions r s) (has_id id) _ (if-sound b r e)
      (room_push_sessions_ex-IsSound r (negsuc 0) s w)

pub departed-IsSound :
    (id : ℤ) (was_owner : Bool) (r : Room) (s : Server)
    → leb (length r.members) max_room_members ≡ true
    → IsSound s
    → IsSound (departed id was_owner r s)
unfolding departed
departed-IsSound id was_owner r s e w = elim (Bool-cases (no_members r.members)) [
  | inl b ↦ rw b (with_room s (has_id id) (record r { id = pos 0 }) (ground (arith, e)) w)
  | inr b ↦ rw b (
      let t : Server = record s { clients = promote was_owner r.members s.clients } in
      let (f, v) =
        check_round_end-Keeps r t (ground (arith, b, e))
          (with_clients s _ (length-promote was_owner r.members s.clients) w) in
      settle-IsSound id (check_round_end r t) f v)
]
