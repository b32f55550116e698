-- ===== src/Room/Server/Agree.antt =====
-- The two views of membership: the room of each client, and the members of each room.
use mathlib.Core.Path.{subst}
use corestack.Prelude.{
  ℕ, ◌+◌, ◌-◌, ◌≤◌, ◌≡◌, refl, sym, ap, ◌∙◌, inl, inr, arith, Bool, true, false, ◌&&◌, List, none,
  some, ℤ, pos, negsuc, if◌then◌else◌, Bool-cases,
}
use corestack.Room.Model.{room_none, Client, Room, eq_ℤ, ltb_ℤ}
use corestack.Room.Compare.{eq_ℤ-eq, eq_ℤ-sym}
use corestack.Room.Members.{occurs}
use corestack.Room.Rank.{client_find}
use corestack.Room.Table.{room_find}
use corestack.Room.Server.Push.{write_room, has_id}
use corestack.Room.Server.Seats.{seat, fd_count, SameSeats}
use corestack.Room.Server.Places.{
  zero_other, place, id_count, eq_ℤ-left, with_id-found, with_id-freed, with_id-id,
  room_find-positive, room_find-some, room_find-untouched, id_count-same,
}

-- No descriptor is used twice and no room number is; and a client is listed, once, exactly in the
-- room that its own record names.
pub record Agree (cs : List Client) (rs : List Room) : Type 0 where
  pub fds : (y : ℤ) → ltb_ℤ y (pos 0) ≡ false → fd_count y cs ≤ 1
  pub ids : (id : ℤ) → ltb_ℤ (pos 0) id ≡ true → id_count id rs ≤ 1
  pub agree :
      (y id : ℤ)
      → ltb_ℤ y (pos 0) ≡ false
      → eq_ℤ id room_none ≡ false
      → place (room_find rs id) y ≡ (if eq_ℤ (seat (client_find cs y)) id then 1 else 0)

pub seats-Agree :
    (cs ds : List Client) (rs : List Room) → SameSeats cs ds → Agree cs rs → Agree ds rs
seats-Agree cs ds rs s a = record {
  fds = λ y h. omega (arith, s.counts y, a.fds y h);
  ids = a.ids;
  agree = λ y id h n. a.agree y id h n ∙ ap (λ i. if eq_ℤ i id then 1 else 0) (sym (s.seats y));
}

-- The lookup of the number that was written, and of another one.
pub found-place :
    (q r : Room) (rs : List Room) (id0 id y : ℤ)
    → room_find rs id0 ≡ some r
    → eq_ℤ q.id id0 ≡ true
    → place (room_find (write_room (has_id id0) q rs) id) y
      ≡ (if eq_ℤ id0 id then occurs y q.members else place (room_find rs id) y)
found-place q r rs id0 id y f e =
    let (p, w) = room_find-some rs id0 r f in
    elim (Bool-cases (eq_ℤ id0 id)) [
      | inl b ↦
          let here : room_find (write_room (has_id id0) q rs) id0 ≡ some q =
            room_find-positive (write_room (has_id id0) q rs) id0 p
            ∙ with_id-found q rs id0 r w e in
          rw b (
            ap (λ i. place (room_find (write_room (has_id id0) q rs) i) y) (sym (eq_ℤ-eq id0 id b))
            ∙ ap (λ i. place i y) here)
      | inr b ↦ rw b (
          ap (λ i. place i y)
            (room_find-untouched (has_id id0) q rs id (λ p c _. eq_ℤ-left p.id id0 id c ∙ b)
              (λ _. eq_ℤ-left q.id id0 id e ∙ b)))
    ]

pub freed-place :
    (q r : Room) (rs : List Room) (id0 id y : ℤ)
    → room_find rs id0 ≡ some r
    → id_count id0 rs ≤ 1
    → eq_ℤ q.id (pos 0) ≡ true
    → place (room_find (write_room (has_id id0) q rs) id) y
      ≡ (if eq_ℤ id0 id then 0 else place (room_find rs id) y)
freed-place q r rs id0 id y f c e =
    let (p, w) = room_find-some rs id0 r f in
    elim (Bool-cases (eq_ℤ id0 id)) [
      | inl b ↦
          let here : room_find (write_room (has_id id0) q rs) id0 ≡ none =
            room_find-positive (write_room (has_id id0) q rs) id0 p
            ∙ with_id-freed q rs id0 (zero_other q.id id0 e p) c in
          rw b (
            ap (λ i. place (room_find (write_room (has_id id0) q rs) i) y) (sym (eq_ℤ-eq id0 id b))
            ∙ ap (λ i. place i y) here)
      | inr b ↦ rw b (
          ap (λ i. place i y)
            (room_find-untouched (has_id id0) q rs id (λ p c _. eq_ℤ-left p.id id0 id c ∙ b)
              (λ h. zero_other q.id id e h)))
    ]

-- The written room in the place of the one that was found.
back :
    (id0 id : ℤ) (rs : List Room) (y : ℤ) (n : ℕ) (b : Bool)
    → eq_ℤ id0 id ≡ b
    → n ≡ place (room_find rs id0) y
    → (if b then n else place (room_find rs id) y) ≡ place (room_find rs id) y
back id0 id rs y n true e m = m ∙ ap (λ i. place (room_find rs i) y) (eq_ℤ-eq id0 id e)
back id0 id rs y n false e m = refl

-- A room that is found and written with the same number and members.
pub same-Agree :
    (cs : List Client) (rs : List Room) (id0 : ℤ) (r q : Room)
    → Agree cs rs
    → room_find rs id0 ≡ some r
    → q.id ≡ r.id
    → q.members ≡ r.members
    → Agree cs (write_room (has_id id0) q rs)
same-Agree cs rs id0 r q a f e m =
    let (p, w) = room_find-some rs id0 r f in
    let own : eq_ℤ q.id id0 ≡ true = ap (λ i. eq_ℤ i id0) e ∙ with_id-id rs id0 r w in
    record {
      fds = a.fds;
      ids = λ id h. omega (arith, id_count-same q rs id0 id own, a.ids id h);
      agree = λ y id h n.
          found-place q r rs id0 id y f own
          ∙ back id0 id rs y (occurs y q.members) (eq_ℤ id0 id) refl
              (ap (occurs y) m ∙ sym (ap (λ i. place i y) f))
          ∙ a.agree y id h n;
    }

pub eq_ℤ-refl : (z : ℤ) → eq_ℤ z z ≡ true
eq_ℤ-refl (pos n) = ground arith
eq_ℤ-refl (negsuc n) = ground arith

-- One client leaves its room in both views.
pub left-Agree :
    (cs ds : List Client) (rs qs : List Room) (id0 fd : ℤ)
    → Agree cs rs
    → ltb_ℤ fd (pos 0) ≡ false
    → seat (client_find cs fd) ≡ id0
    → seat (client_find ds fd) ≡ room_none
    → ((y : ℤ)
        → ltb_ℤ y (pos 0) ≡ false
        → eq_ℤ fd y ≡ false
        → seat (client_find ds y) ≡ seat (client_find cs y))
    → ((y : ℤ) → ltb_ℤ y (pos 0) ≡ false → fd_count y ds ≤ fd_count y cs)
    → ((id : ℤ) → ltb_ℤ (pos 0) id ≡ true → id_count id qs ≤ id_count id rs)
    → ((id y : ℤ)
        → place (room_find qs id) y ≡ (
            if eq_ℤ id0 id && eq_ℤ fd y
            then place (room_find rs id) y - 1
            else place (room_find rs id) y))
    → Agree ds qs
left-Agree cs ds rs qs id0 fd a h was gone others fds ids places = record {
  fds = λ y k. omega (arith, fds y k, a.fds y k);
  ids = λ id k. omega (arith, ids id k, a.ids id k);
  agree = λ y id k n. elim (Bool-cases (eq_ℤ fd y)) [
    | inl b ↦
        subst
          (λ i. place (room_find qs id) i ≡ (if eq_ℤ (seat (client_find ds i)) id then 1 else 0))
          (eq_ℤ-eq fd y b)
          (let before : place (room_find rs id) fd ≡ (if eq_ℤ id0 id then 1 else 0) =
              a.agree fd id h n ∙ ap (λ i. if eq_ℤ i id then 1 else 0) was in
            let no : eq_ℤ room_none id ≡ false = eq_ℤ-sym room_none id ∙ n in
            let now = places id fd in rw (gone, no) (ground (arith, before, now, eq_ℤ-refl fd)))
    | inr b ↦
        let now = places id y in
        (let same : place (room_find qs id) y ≡ place (room_find rs id) y =
            ground (arith, now, b) in
          same ∙ a.agree y id k n ∙ ap (λ i. if eq_ℤ i id then 1 else 0) (sym (others y k b)))
  ];
}

-- One client without a room comes into one, in both views.
pub joined-Agree :
    (cs ds : List Client) (rs qs : List Room) (id0 fd : ℤ)
    → Agree cs rs
    → ltb_ℤ fd (pos 0) ≡ false
    → seat (client_find cs fd) ≡ room_none
    → seat (client_find ds fd) ≡ id0
    → ((y : ℤ) → eq_ℤ fd y ≡ false → seat (client_find ds y) ≡ seat (client_find cs y))
    → ((y : ℤ) → fd_count y ds ≡ fd_count y cs)
    → ((id : ℤ) → ltb_ℤ (pos 0) id ≡ true → id_count id qs ≤ 1)
    → ((id y : ℤ)
        → place (room_find qs id) y ≡ (
            if eq_ℤ id0 id && eq_ℤ fd y
            then place (room_find rs id) y + 1
            else place (room_find rs id) y))
    → Agree ds qs
joined-Agree cs ds rs qs id0 fd a h was now others fds ids places = record {
  fds = λ y k. omega (arith, fds y, a.fds y k);
  ids = ids;
  agree = λ y id k n. elim (Bool-cases (eq_ℤ fd y)) [
    | inl b ↦
        subst
          (λ i. place (room_find qs id) i ≡ (if eq_ℤ (seat (client_find ds i)) id then 1 else 0))
          (eq_ℤ-eq fd y b)
          (let no : eq_ℤ room_none id ≡ false = eq_ℤ-sym room_none id ∙ n in
            let before : place (room_find rs id) fd ≡ 0 =
              a.agree fd id h n ∙ ap (λ i. if eq_ℤ i id then 1 else 0) was ∙ rw no refl in
            let after = places id fd in rw now (ground (arith, before, after, eq_ℤ-refl fd)))
    | inr b ↦
        let after = places id y in
        (let same : place (room_find qs id) y ≡ place (room_find rs id) y =
            ground (arith, after, b) in
          same ∙ a.agree y id k n ∙ ap (λ i. if eq_ℤ i id then 1 else 0) (sym (others y b)))
  ];
}
