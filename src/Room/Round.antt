-- ===== src/Room/Round.antt =====
-- The end of a round: `room_check_round_end` of room.c.
use corestack.Prelude.{
  ◌≡◌, refl, sym, ap, ◌∙◌, inl, inr, Bool, true, false, not, ◌||◌, List, [], ◌∷◌, Option, none,
  some, ℤ, pos, if◌then◌else◌, Bool-cases,
}
use corestack.Brain.Model.{PlayerStanding}
use corestack.Room.Model.{session_waiting, is_playing, Client, Room, eq_ℤ}
use corestack.Room.Compare.{eq_ℤ-eq, eq_ℤ-sym}
use corestack.Room.Rank.{client_find, member_clients, room_standings, winner_of, still_playing}
use corestack.Room.Table.{listed}

-- A member's record, ready for the next round.
abbrev pub reset : Client → Client
reset c = record c {
  state = record c.state { phase = session_waiting };
  score = pos 0;
  lines = pos 0;
}

-- The first slot with this descriptor is reset.
unfoldable pub reset_member : List Client → ℤ → List Client
reset_member [] fd = []
reset_member (c ∷ cs) fd =
    let rest = reset_member cs fd in if eq_ℤ c.fd fd then reset c ∷ cs else c ∷ rest

unfoldable pub reset_members : List Client → List ℤ → List Client
reset_members clients [] = clients
reset_members clients (fd ∷ fds) = reset_members (reset_member clients fd) fds

-- What a finished round leaves: the tables, and what was announced before the reset.
pub record Ended : Type 0 where
  pub clients : List Client
  pub room : Room
  pub standings : List PlayerStanding
  pub winner : ℤ

abbrev pub no_members : List ℤ → Bool
no_members [] = true
no_members (fd ∷ fds) = false

-- None where the round is not over. `standings` is what `room_push_standings` makes of the members.
unfoldable pub room_check_round_end : List Client → Room → Option Ended
room_check_round_end clients r =
    if not (is_playing r.phase)
      || (no_members r.members || still_playing (member_clients clients r.members))
    then none
    else some (record {
      clients = reset_members clients r.members;
      room = record r {
        phase = session_waiting;
        standings_dirty = false;
        have_standings = true;
        last_standings = room_standings clients r;
      };
      standings = room_standings clients r;
      winner = winner_of (member_clients clients r.members);
    })

abbrev pub reset_found : Bool → Option Client → Option Client
reset_found hit none = none
reset_found hit (some c) = if hit then some (reset c) else some c

reset_found-false : (o : Option Client) → reset_found false o ≡ o
reset_found-false none = refl
reset_found-false (some c) = refl

reset_found-twice :
    (a b : Bool) (o : Option Client) → reset_found b (reset_found a o) ≡ reset_found (a || b) o
reset_found-twice a b none = refl
reset_found-twice true true (some c) = refl
reset_found-twice true false (some c) = refl
reset_found-twice false b (some c) = refl

find-here :
    (c : Client) (cs : List Client) (y : ℤ)
    → client_find (reset c ∷ cs) y ≡ reset_found (eq_ℤ c.fd y) (client_find (c ∷ cs) y)
unfolding client_find
find-here c cs y = elim (Bool-cases (eq_ℤ c.fd y)) [
  | inl f ↦ rw f refl
  | inr f ↦ rw f (sym (reset_found-false (client_find cs y)))
]

other : (a fd y : ℤ) → eq_ℤ a fd ≡ false → eq_ℤ a y ≡ true → eq_ℤ fd y ≡ false
other a fd y e f = eq_ℤ-sym fd y ∙ ap (λ i. eq_ℤ i fd) (sym (eq_ℤ-eq a y f)) ∙ e

find-reset_member :
    (cs : List Client) (fd y : ℤ)
    → client_find (reset_member cs fd) y ≡ reset_found (eq_ℤ fd y) (client_find cs y)
unfolding client_find reset_member
find-reset_member [] fd y = refl
find-reset_member (c ∷ cs) fd y = elim (Bool-cases (eq_ℤ c.fd fd)) [
  | inl e ↦ rw e (
      find-here c cs y
      ∙ ap (λ i. reset_found (eq_ℤ i y) (client_find (c ∷ cs) y)) (eq_ℤ-eq c.fd fd e))
  | inr e ↦ elim (Bool-cases (eq_ℤ c.fd y)) [
    | inl f ↦ rw (e, f) (rw (other c.fd fd y e f) refl)
    | inr f ↦ rw (e, f) (find-reset_member cs fd y)
  ]
]

pub find-reset_members :
    (fds : List ℤ) (cs : List Client) (y : ℤ)
    → client_find (reset_members cs fds) y ≡ reset_found (listed y fds) (client_find cs y)
unfolding reset_members listed
find-reset_members [] cs y = sym (reset_found-false (client_find cs y))
find-reset_members (fd ∷ fds) cs y =
    find-reset_members fds (reset_member cs fd) y
    ∙ ap (reset_found (listed y fds)) (find-reset_member cs fd y)
    ∙ reset_found-twice (eq_ℤ fd y) (listed y fds) (client_find cs y)

unfoldable pub ended : List Client → Room → Ended
ended clients r = record {
  clients = reset_members clients r.members;
  room = record r {
    phase = session_waiting;
    standings_dirty = false;
    have_standings = true;
    last_standings = room_standings clients r;
  };
  standings = room_standings clients r;
  winner = winner_of (member_clients clients r.members);
}

pub if-none :
    {A : Type 0} (b : Bool) (x e : A)
    → (if b then none else some x) ≡ some e
    → (b ≡ false) × (x ≡ e)
if-none true x e h = absurd cc
if-none false x e h = (refl, cc)
