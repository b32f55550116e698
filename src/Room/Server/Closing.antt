-- ===== src/Room/Server/Closing.antt =====
-- A session that is closed, in both views of membership.
use mathlib.Core.Path.{subst}
use corestack.Prelude.{
  ◌≤◌, ◌≡◌, refl, ap, ◌∙◌, inl, inr, arith, Bool, true, false, List, [], ◌∷◌, Option, none, some, ℤ,
  pos, negsuc, if◌then◌else◌, Bool-cases,
}
use corestack.Room.Model.{room_none, Client, Room, eq_ℤ, ltb_ℤ}
use corestack.Room.Compare.{eq_ℤ-eq}
use corestack.Room.Rank.{client_find}
use corestack.Room.Table.{room_find}
use corestack.Room.Server.{Server}
use corestack.Room.Server.Push.{update_client}
use corestack.Room.Server.Depart.{depart, free_slot, close_client}
use corestack.Room.Server.Seats.{seat, fd_count}
use corestack.Room.Server.Keep.{if-some}
use corestack.Room.Server.Places.{eq_ℤ-left}
use corestack.Room.Server.Leaving.{Departure, nobody, depart-Departure}
use corestack.Room.Server.Agree.{Agree, left-Agree}

-- A free slot is not found.
free_other : (y : ℤ) → ltb_ℤ y (pos 0) ≡ false → eq_ℤ (negsuc 0) y ≡ false
free_other (pos n) h = refl
free_other (negsuc n) h = absurd cc

find-freed :
    (fd y : ℤ) (cs : List Client)
    → ltb_ℤ y (pos 0) ≡ false
    → eq_ℤ fd y ≡ false
    → client_find (update_client fd free_slot cs) y ≡ client_find cs y
unfolding client_find update_client
find-freed fd y [] h e = refl
find-freed fd y (c ∷ cs) h e = elim (Bool-cases (eq_ℤ c.fd fd)) [
  | inl b ↦ simp (b, free_other y h, eq_ℤ-left c.fd fd y b ∙ e) refl
  | inr b ↦ simp (b, find-freed fd y cs h e) refl
]

fd_count-none : (fd : ℤ) (cs : List Client) → fd_count fd cs ≡ 0 → client_find cs fd ≡ none
unfolding client_find fd_count
fd_count-none fd [] e = refl
fd_count-none fd (c ∷ cs) e = elim (Bool-cases (eq_ℤ c.fd fd)) [
  | inl b ↦ absurd (ground (arith, b, e))
  | inr b ↦ simp (b) (fd_count-none fd cs (ground (arith, b, e)))
]

find-closed :
    (fd : ℤ) (cs : List Client)
    → ltb_ℤ fd (pos 0) ≡ false
    → fd_count fd cs ≤ 1
    → client_find (update_client fd free_slot cs) fd ≡ none
unfolding client_find update_client fd_count
find-closed fd [] h e = refl
find-closed fd (c ∷ cs) h e = elim (Bool-cases (eq_ℤ c.fd fd)) [
  | inl b ↦ simp (b, free_other fd h) (fd_count-none fd cs (ground (arith, b, e)))
  | inr b ↦ simp (b) (find-closed fd cs h (ground (arith, b, e)))
]

fd_count-freed :
    (fd y : ℤ) (cs : List Client)
    → ltb_ℤ y (pos 0) ≡ false
    → fd_count y (update_client fd free_slot cs) ≤ fd_count y cs
unfolding update_client fd_count
fd_count-freed fd y [] h = omega arith
fd_count-freed fd y (c ∷ cs) h = elim (Bool-cases (eq_ℤ c.fd fd)) [
  | inl b ↦ simp (b, free_other y h) (omega arith)
  | inr b ↦ simp (b) (omega (arith, fd_count-freed fd y cs h))
]

pub find-fd :
    (cs : List Client) (fd : ℤ) (c : Client) → client_find cs fd ≡ some c → eq_ℤ c.fd fd ≡ true
unfolding client_find
find-fd [] fd c e = absurd cc
find-fd (d ∷ cs) fd c e = elim (if-some (eq_ℤ d.fd fd) d c (client_find cs fd) e) [
  | inl (b, same) ↦ subst (λ i. eq_ℤ i.fd fd ≡ true) same b
  | inr rest ↦ find-fd cs fd c rest
]

-- A client is found by its own descriptor, which is not negative.
pub found-own :
    (cs : List Client) (fd : ℤ) (c : Client)
    → client_find cs fd ≡ some c
    → ltb_ℤ fd (pos 0) ≡ false
    → (client_find cs c.fd ≡ some c) × (ltb_ℤ c.fd (pos 0) ≡ false)
found-own cs fd c e h =
    let same = eq_ℤ-eq c.fd fd (find-fd cs fd c e) in
    (ap (λ i. client_find cs i) same ∙ e, ap (λ i. ltb_ℤ i (pos 0)) same ∙ h)

outside : (rs : List Room) → room_find rs room_none ≡ none
unfolding room_find
outside rs = refl

closed-Agree :
    (c : Client) (s : Server)
    → client_find s.clients c.fd ≡ some c
    → ltb_ℤ c.fd (pos 0) ≡ false
    → Agree s.clients s.rooms
    → Agree (close_client (some c) s).clients (close_client (some c) s).rooms
unfolding close_client
closed-Agree c s found h a = close (eq_ℤ c.state.room_id room_none) refl
  where
    id0 : ℤ
    id0 = c.state.room_id

    left :
        (t : Server)
        → Departure s t id0 c.fd
        → Agree (update_client c.fd free_slot t.clients) t.rooms
    left t d =
        left-Agree s.clients (update_client c.fd free_slot t.clients) s.rooms t.rooms id0 c.fd a h
          (ap seat found)
          (ap seat
            (find-closed c.fd t.clients h (omega (arith, d.seats.counts c.fd, a.fds c.fd h))))
          (λ y k e. ap seat (find-freed c.fd y t.clients k e) ∙ d.seats.seats y)
          (λ y k. omega (arith, d.seats.counts y, fd_count-freed c.fd y t.clients k)) d.ids d.places

    close :
        (b : Bool)
        → eq_ℤ id0 room_none ≡ b
        → Agree
            (update_client c.fd free_slot
              (if b then s else depart (room_find s.rooms id0) c s).clients)
            (if b then s else depart (room_find s.rooms id0) c s).rooms
    close true e = left s (
        nobody s s id0 c.fd (ap (room_find s.rooms) (eq_ℤ-eq id0 room_none e) ∙ outside s.rooms)
          refl)
    close false e =
        left (depart (room_find s.rooms id0) c s)
          (depart-Departure s s (room_find s.rooms id0) c refl refl a)

pub close_client-Agree :
    (o : Option Client) (fd : ℤ) (s : Server)
    → client_find s.clients fd ≡ o
    → ltb_ℤ fd (pos 0) ≡ false
    → Agree s.clients s.rooms
    → Agree (close_client o s).clients (close_client o s).rooms
close_client-Agree none fd s found h a = unfold close_client in a
close_client-Agree (some c) fd s found h a =
    let (own, k) = found-own s.clients fd c found h in closed-Agree c s own k a
