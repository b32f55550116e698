-- ===== src/Room/Server/Seats.antt =====
-- The room of each client, as the table of clients tells it, and the calls that leave it as it is.
use corestack.Prelude.{
  ℕ, ◌+◌, ◌≡◌, refl, sym, ap, ◌∙◌, inl, inr, Bool, true, false, List, [], ◌∷◌, Option, none, some,
  ℤ, if◌then◌else◌, Bool-cases,
}
use corestack.Room.Model.{room_none, session_playing, Client, eq_ℤ}
use corestack.Room.Compare.{eq_ℤ-eq, eq_ℤ-sym}
use corestack.Room.Rank.{client_find}
use corestack.Room.Round.{reset, reset_member, reset_members}
use corestack.Room.Server.Push.{update_client}
use corestack.Room.Server.Depart.{make_owner, promote}
use corestack.Room.Server.Handle.{in_phase, play_members}

-- No room for a descriptor without a client.
abbrev pub seat : Option Client → ℤ
seat none = room_none
seat (some c) = c.state.room_id

-- How many slots have the descriptor.
unfoldable pub fd_count : ℤ → List Client → ℕ
fd_count y [] = 0
fd_count y (c ∷ cs) = (if eq_ℤ c.fd y then 1 else 0) + fd_count y cs

abbrev pub changed : Bool → (Client → Client) → Option Client → Option Client
changed hit f none = none
changed hit f (some c) = if hit then some (f c) else some c

other : (a fd y : ℤ) → eq_ℤ a fd ≡ false → eq_ℤ a y ≡ true → eq_ℤ fd y ≡ false
other a fd y e f = eq_ℤ-sym fd y ∙ ap (λ i. eq_ℤ i fd) (sym (eq_ℤ-eq a y f)) ∙ e

changed-false : (f : Client → Client) (o : Option Client) → changed false f o ≡ o
changed-false f none = refl
changed-false f (some c) = refl

module _ (f : Client → Client) (same : (c : Client) → (f c).fd ≡ c.fd) where
  find-first :
      (c : Client) (cs : List Client) (y : ℤ)
      → client_find (f c ∷ cs) y ≡ changed (eq_ℤ c.fd y) f (client_find (c ∷ cs) y)
  unfolding client_find
  find-first c cs y = pick (eq_ℤ (f c).fd y) (eq_ℤ c.fd y) (ap (λ i. eq_ℤ i y) (same c))
    where
      pick :
          (a b : Bool)
          → a ≡ b
          → (if a then some (f c) else client_find cs y)
            ≡ changed b f (if b then some c else client_find cs y)
      pick true true e = refl
      pick true false e = absurd cc
      pick false true e = absurd cc
      pick false false e = sym (changed-false f (client_find cs y))

  -- Exactly the record that the descriptor finds is changed.
  pub find-update_client :
      (fd : ℤ) (cs : List Client) (y : ℤ)
      → client_find (update_client fd f cs) y ≡ changed (eq_ℤ fd y) f (client_find cs y)
  unfolding client_find update_client
  find-update_client fd [] y = refl
  find-update_client fd (c ∷ cs) y = elim (Bool-cases (eq_ℤ c.fd fd)) [
    | inl e ↦ rw e (
        find-first c cs y
        ∙ ap (λ i. changed (eq_ℤ i y) f (client_find (c ∷ cs) y)) (eq_ℤ-eq c.fd fd e))
    | inr e ↦ elim (Bool-cases (eq_ℤ c.fd y)) [
      | inl h ↦ rw (e, h) (rw (other c.fd fd y e h) refl)
      | inr h ↦ rw (e, h) (find-update_client fd cs y)
    ]
  ]

  pub fd_count-update_client :
      (fd : ℤ) (cs : List Client) (y : ℤ) → fd_count y (update_client fd f cs) ≡ fd_count y cs
  unfolding fd_count update_client
  fd_count-update_client fd [] y = refl
  fd_count-update_client fd (c ∷ cs) y = elim (Bool-cases (eq_ℤ c.fd fd)) [
    | inl e ↦ rw (e, same c) refl
    | inr e ↦ rw e (ap (λ i. (if eq_ℤ c.fd y then 1 else 0) + i) (fd_count-update_client fd cs y))
  ]

-- Two tables that tell the same rooms.
pub record SameSeats (cs ds : List Client) : Type 0 where
  pub seats : (y : ℤ) → seat (client_find ds y) ≡ seat (client_find cs y)
  pub counts : (y : ℤ) → fd_count y ds ≡ fd_count y cs

pub SameSeats-refl : (cs : List Client) → SameSeats cs cs
SameSeats-refl cs = record { seats = λ y. refl; counts = λ y. refl }

pub SameSeats-trans : (cs ds es : List Client) → SameSeats cs ds → SameSeats ds es → SameSeats cs es
SameSeats-trans cs ds es a b = record {
  seats = λ y. b.seats y ∙ a.seats y;
  counts = λ y. b.counts y ∙ a.counts y;
}

changed-seat :
    (b : Bool) (f : Client → Client) (o : Option Client)
    → ((c : Client) → (f c).state.room_id ≡ c.state.room_id)
    → seat (changed b f o) ≡ seat o
changed-seat b f none room = refl
changed-seat true f (some c) room = room c
changed-seat false f (some c) room = refl

pub update_client-SameSeats :
    (fd : ℤ) (f : Client → Client) (cs : List Client)
    → ((c : Client) → (f c).fd ≡ c.fd)
    → ((c : Client) → (f c).state.room_id ≡ c.state.room_id)
    → SameSeats cs (update_client fd f cs)
update_client-SameSeats fd f cs same room = record {
  seats = λ y.
      ap seat (find-update_client f same fd cs y)
      ∙ changed-seat (eq_ℤ fd y) f (client_find cs y) room;
  counts = fd_count-update_client f same fd cs;
}

-- The reset of a member is such an update.
reset_member-update : (cs : List Client) (fd : ℤ) → reset_member cs fd ≡ update_client fd reset cs
unfolding reset_member update_client
reset_member-update [] fd = refl
reset_member-update (c ∷ cs) fd = rw (reset_member-update cs fd) refl

pub reset_members-SameSeats :
    (fds : List ℤ) (cs : List Client) → SameSeats cs (reset_members cs fds)
unfolding reset_members
reset_members-SameSeats [] cs = SameSeats-refl cs
reset_members-SameSeats (fd ∷ fds) cs = rw (reset_member-update cs fd) (
    SameSeats-trans cs (update_client fd reset cs) _
      (update_client-SameSeats fd reset cs (λ c. refl) (λ c. refl))
      (reset_members-SameSeats fds (update_client fd reset cs)))

pub promote-SameSeats :
    (b : Bool) (fds : List ℤ) (cs : List Client) → SameSeats cs (promote b fds cs)
unfolding promote
promote-SameSeats false fds cs = SameSeats-refl cs
promote-SameSeats true [] cs = SameSeats-refl cs
promote-SameSeats true (fd ∷ fds) cs =
    update_client-SameSeats fd make_owner cs (λ c. refl) (λ c. refl)

pub play_members-SameSeats : (fds : List ℤ) (cs : List Client) → SameSeats cs (play_members fds cs)
unfolding play_members
play_members-SameSeats [] cs = SameSeats-refl cs
play_members-SameSeats (fd ∷ fds) cs =
    SameSeats-trans cs (update_client fd (in_phase session_playing) cs) _
      (update_client-SameSeats fd (in_phase session_playing) cs (λ c. refl) (λ c. refl))
      (play_members-SameSeats fds (update_client fd (in_phase session_playing) cs))
