-- ===== src/Room/Server/Places.antt =====
-- The members of each room, as the table of rooms tells them, after a write to it.
use mathlib.Core.Path.{subst}
use corestack.Room.Server.Keep.{if-some}
use corestack.Prelude.{
  ℕ, ◌+◌, ◌≤◌, ◌≡◌, refl, sym, ap, ◌∙◌, inl, inr, arith, Bool, true, false, ◌||◌, List, [], ◌∷◌,
  Option, none, some, ℤ, pos, negsuc, if◌then◌else◌, Bool-cases,
}
use corestack.Room.Model.{Room, eq_ℤ, ltb_ℤ}
use corestack.Room.Compare.{eq_ℤ-eq}
use corestack.Room.Members.{occurs}
use corestack.Room.Table.{with_id, room_find}
use corestack.Room.Server.Push.{write_room, has_id}

-- How often the descriptor is listed in the room.
abbrev pub place : Option Room → ℤ → ℕ
place none y = 0
place (some r) y = occurs y r.members

-- How many slots have the number.
unfoldable pub id_count : ℤ → List Room → ℕ
id_count id [] = 0
id_count id (r ∷ rs) = (if eq_ℤ r.id id then 1 else 0) + id_count id rs

-- Equal numbers compare alike.
pub eq_ℤ-left : (a b c : ℤ) → eq_ℤ a b ≡ true → eq_ℤ a c ≡ eq_ℤ b c
eq_ℤ-left a b c e = ap (λ i. eq_ℤ i c) (eq_ℤ-eq a b e)

-- A number that neither the written room nor the slots in question have.
with_id-untouched :
    (slot : Room → Bool) (q : Room) (rs : List Room) (id : ℤ)
    → ((p : Room) → slot p ≡ true → eq_ℤ p.id id ≡ false)
    → eq_ℤ q.id id ≡ false
    → with_id (write_room slot q rs) id ≡ with_id rs id
unfolding with_id write_room
with_id-untouched slot q [] id h e = refl
with_id-untouched slot q (p ∷ rs) id h e = elim (Bool-cases (slot p)) [
  | inl b ↦ simp (b, e, h p b) refl
  | inr b ↦ simp (b, with_id-untouched slot q rs id h e) refl
]

-- The number of a room that was found, which the written room has too.
pub with_id-found :
    (q : Room) (rs : List Room) (id : ℤ) (r : Room)
    → with_id rs id ≡ some r
    → eq_ℤ q.id id ≡ true
    → with_id (write_room (has_id id) q rs) id ≡ some q
unfolding with_id write_room
with_id-found q [] id r h e = absurd cc
with_id-found q (p ∷ rs) id r h e = elim (Bool-cases (eq_ℤ p.id id)) [
  | inl b ↦ simp (b, e) refl
  | inr b ↦ simp (b, with_id-found q rs id r (sym (simp (b) refl) ∙ h) e) refl
]

-- Some slot passes.
unfoldable pub has_slot : (Room → Bool) → List Room → Bool
has_slot slot [] = false
has_slot slot (p ∷ rs) = slot p || has_slot slot rs

-- The number of a new room.
pub with_id-new :
    (slot : Room → Bool) (q : Room) (rs : List Room) (id : ℤ)
    → ((p : Room) → slot p ≡ true → eq_ℤ p.id id ≡ false)
    → with_id rs id ≡ none
    → has_slot slot rs ≡ true
    → eq_ℤ q.id id ≡ true
    → with_id (write_room slot q rs) id ≡ some q
unfolding with_id write_room has_slot
with_id-new slot q [] id h n w e = absurd cc
with_id-new slot q (p ∷ rs) id h n w e = elim (Bool-cases (slot p)) [
  | inl b ↦ simp (b, e) refl
  | inr b ↦ elim (Bool-cases (eq_ℤ p.id id)) [
    | inl c ↦ let no : some p ≡ none = sym (simp (c) refl) ∙ n in absurd cc
    | inr c ↦
        simp (b, c)
          (with_id-new slot q rs id h (sym (simp (c) refl) ∙ n) (sym (simp (b) refl) ∙ w) e)
  ]
]

id_count-none : (rs : List Room) (id : ℤ) → id_count id rs ≡ 0 → with_id rs id ≡ none
unfolding with_id id_count
id_count-none [] id e = refl
id_count-none (r ∷ rs) id e = elim (Bool-cases (eq_ℤ r.id id)) [
  | inl b ↦ absurd (ground (arith, b, e))
  | inr b ↦ simp (b) (id_count-none rs id (ground (arith, b, e)))
]

pub none-id_count : (rs : List Room) (id : ℤ) → with_id rs id ≡ none → id_count id rs ≡ 0
unfolding with_id id_count
none-id_count [] id e = refl
none-id_count (r ∷ rs) id e = elim (Bool-cases (eq_ℤ r.id id)) [
  | inl b ↦ let no : some r ≡ none = sym (simp (b) refl) ∙ e in absurd cc
  | inr b ↦ let rest = none-id_count rs id (sym (simp (b) refl) ∙ e) in ground (arith, b, rest)
]

-- The number of a room that is freed.
pub with_id-freed :
    (q : Room) (rs : List Room) (id : ℤ)
    → eq_ℤ q.id id ≡ false
    → id_count id rs ≤ 1
    → with_id (write_room (has_id id) q rs) id ≡ none
unfolding with_id write_room id_count
with_id-freed q [] id e c = refl
with_id-freed q (p ∷ rs) id e c = elim (Bool-cases (eq_ℤ p.id id)) [
  | inl b ↦ simp (b, e) (id_count-none rs id (ground (arith, b, c)))
  | inr b ↦ simp (b) (with_id-freed q rs id e (ground (arith, b, c)))
]

pub id_count-write :
    (slot : Room → Bool) (q : Room) (rs : List Room) (id : ℤ)
    → id_count id (write_room slot q rs) ≤ id_count id rs + (if eq_ℤ q.id id then 1 else 0)
unfolding write_room id_count
id_count-write slot q [] id = omega arith
id_count-write slot q (p ∷ rs) id = ground (arith, id_count-write slot q rs id)

pub id_count-same :
    (q : Room) (rs : List Room) (id0 id : ℤ)
    → eq_ℤ q.id id0 ≡ true
    → id_count id (write_room (has_id id0) q rs) ≡ id_count id rs
unfolding write_room id_count
id_count-same q [] id0 id e = refl
id_count-same q (p ∷ rs) id0 id e = elim (Bool-cases (eq_ℤ p.id id0)) [
  | inl b ↦ simp (b, eq_ℤ-left p.id id0 id b, eq_ℤ-left q.id id0 id e) refl
  | inr b ↦ simp (b, id_count-same q rs id0 id e) refl
]

pub with_id-id : (rs : List Room) (id : ℤ) (r : Room) → with_id rs id ≡ some r → eq_ℤ r.id id ≡ true
unfolding with_id
with_id-id [] id r e = absurd cc
with_id-id (p ∷ rs) id r e = elim (if-some (eq_ℤ p.id id) p r (with_id rs id) e) [
  | inl (b, same) ↦ subst (λ i. eq_ℤ i.id id ≡ true) same b
  | inr rest ↦ with_id-id rs id r rest
]

-- A lookup of a number that no room can have finds none, and any other looks at the slots.
pub room_find-positive :
    (rs : List Room) (id : ℤ) → ltb_ℤ (pos 0) id ≡ true → room_find rs id ≡ with_id rs id
unfolding room_find
room_find-positive rs id e = simp (e) refl

no_room : {r : Room} (o : Option Room) → o ≡ none → o ≡ some r → ⊥
no_room none e f = absurd cc
no_room (some q) e f = absurd cc

pub room_find-some :
    (rs : List Room) (id : ℤ) (r : Room)
    → room_find rs id ≡ some r
    → (ltb_ℤ (pos 0) id ≡ true) × (with_id rs id ≡ some r)
unfolding room_find
room_find-some rs id r e = elim (Bool-cases (ltb_ℤ (pos 0) id)) [
  | inl b ↦ (b, sym (simp (b) refl) ∙ e)
  | inr b ↦ absurd (no_room (room_find rs id) (simp (b) refl) e)
]

-- A lookup in a table with one slot written anew, of a number whose slot is not touched.
pub room_find-untouched :
    (slot : Room → Bool) (q : Room) (rs : List Room) (id : ℤ)
    → ((p : Room) → slot p ≡ true → ltb_ℤ (pos 0) id ≡ true → eq_ℤ p.id id ≡ false)
    → (ltb_ℤ (pos 0) id ≡ true → eq_ℤ q.id id ≡ false)
    → room_find (write_room slot q rs) id ≡ room_find rs id
unfolding room_find
room_find-untouched slot q rs id h e = elim (Bool-cases (ltb_ℤ (pos 0) id)) [
  | inl b ↦ simp (b) (with_id-untouched slot q rs id (λ p c. h p c b) (e b))
  | inr b ↦ simp (b) refl
]

-- No room with a positive number is free.
pub zero_other : (z id : ℤ) → eq_ℤ z (pos 0) ≡ true → ltb_ℤ (pos 0) id ≡ true → eq_ℤ z id ≡ false
zero_other z (pos n) e h = rw (eq_ℤ-eq z (pos 0) e) (ground arith)
zero_other z (negsuc n) e h = absurd cc
