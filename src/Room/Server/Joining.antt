-- ===== src/Room/Server/Joining.antt =====
-- A client that joins a room comes into both views of membership.
use mathlib.Core.Path.{subst}
use corestack.Prelude.{
  ◌+◌, ◌≤◌, ◌≡◌, refl, sym, ap, ◌∙◌, inl, inr, arith, Bool, true, false, ◌&&◌, List, [], ◌∷◌, ◌++◌,
  Option, none, some, ℤ, pos, negsuc, if◌then◌else◌, Bool-cases, Bytes,
}
use corestack.Room.Model.{room_none, Client, Room, eq_ℤ, ltb_ℤ}
use corestack.Room.Compare.{eq_ℤ-eq}
use corestack.Room.Members.{occurs, occurs-append}
use corestack.Room.Rank.{client_find}
use corestack.Room.Round.{if-none}
use corestack.Room.Table.{with_id, room_find, room_add_member}
use corestack.Room.Server.{Server}
use corestack.Room.Server.Push.{update_client, write_room, has_id, room_push_sessions_ex}
use corestack.Room.Server.Join.{entered, grown, enter}
use corestack.Room.Server.Seats.{seat, changed, find-update_client, fd_count-update_client}
use corestack.Room.Server.Stays.{Stays, send_msg-Stays, room_push_sessions_ex-Stays}
use corestack.Room.Server.Places.{
  place, id_count, has_slot, with_id-id, with_id-new, none-id_count, room_find-positive,
  room_find-some, room_find-untouched, id_count-write, id_count-same, zero_other,
}
use corestack.Room.Server.Agree.{Agree, found-place, joined-Agree, eq_ℤ-refl}
use corestack.Room.Server.Leaving.{stays-Agree}

-- The place where room `r`, with number `id0`, is to be written with a new member.
pub record Entry (rs : List Room) (slot : Room → Bool) (r : Room) (id0 : ℤ) : Type 0 where
  pub positive : ltb_ℤ (pos 0) id0 ≡ true
  pub own : r.id ≡ id0
  pub old : (y : ℤ) → place (room_find rs id0) y ≡ occurs y r.members
  pub new :
      (q : Room) (id y : ℤ)
      → q.id ≡ r.id
      → place (room_find (write_room slot q rs) id) y
        ≡ (if eq_ℤ id0 id then occurs y q.members else place (room_find rs id) y)
  pub ids :
      (q : Room) (id : ℤ)
      → q.id ≡ r.id
      → ltb_ℤ (pos 0) id ≡ true
      → id_count id (write_room slot q rs) ≤ 1

to_eq : (a b : ℤ) → a ≡ b → eq_ℤ a b ≡ true
to_eq a b e = ap (eq_ℤ a) (sym e) ∙ eq_ℤ-refl a

pub found-Entry :
    (cs : List Client) (rs : List Room) (r : Room) (want : ℤ)
    → Agree cs rs
    → room_find rs want ≡ some r
    → Entry rs (has_id want) r want
found-Entry cs rs r want a f =
    let (p, w) = room_find-some rs want r f in
    let own : r.id ≡ want = eq_ℤ-eq r.id want (with_id-id rs want r w) in
    record {
      positive = p;
      own = own;
      old = λ y. ap (λ i. place i y) f;
      new = λ q id y e. found-place q r rs want id y f (to_eq q.id want (e ∙ own));
      ids = λ q id e h.
          omega (arith, id_count-same q rs want id (to_eq q.id want (e ∙ own)), a.ids id h);
    }

-- Room `r` stands for a free slot, with a number that no room has.
pub new-Entry :
    (cs : List Client) (rs : List Room) (r : Room) (id0 : ℤ)
    → Agree cs rs
    → ltb_ℤ (pos 0) id0 ≡ true
    → r.id ≡ id0
    → r.members ≡ []
    → with_id rs id0 ≡ none
    → has_slot (has_id (pos 0)) rs ≡ true
    → Entry rs (has_id (pos 0)) r id0
unfolding occurs
new-Entry cs rs r id0 a p own empty n free = record {
  positive = p;
  own = own;
  old = λ y. ap (λ i. place i y) (room_find-positive rs id0 p ∙ n) ∙ sym (ap (occurs y) empty);
  new = λ q id y e. elim (Bool-cases (eq_ℤ id0 id)) [
    | inl b ↦
        let here : room_find (write_room (has_id (pos 0)) q rs) id0 ≡ some q =
          room_find-positive (write_room (has_id (pos 0)) q rs) id0 p
          ∙ with_id-new (has_id (pos 0)) q rs id0 (λ i c. zero_other i.id id0 c p) n free
              (to_eq q.id id0 (e ∙ own)) in
        rw b (
          ap (λ i. place (room_find (write_room (has_id (pos 0)) q rs) i) y)
            (sym (eq_ℤ-eq id0 id b))
          ∙ ap (λ i. place i y) here)
    | inr b ↦ rw b (
        ap (λ i. place i y)
          (room_find-untouched (has_id (pos 0)) q rs id (λ i c h. zero_other i.id id c h)
            (λ _. ap (λ i. eq_ℤ i id) (e ∙ own) ∙ b)))
  ];
  ids = λ q id e h. elim (Bool-cases (eq_ℤ id0 id)) [
    | inl b ↦
        let zero : id_count id rs ≡ 0 =
          ap (λ i. id_count i rs) (sym (eq_ℤ-eq id0 id b)) ∙ none-id_count rs id0 n in
        let w = id_count-write (has_id (pos 0)) q rs id in ground (arith, zero, w)
    | inr b ↦
        let w = id_count-write (has_id (pos 0)) q rs id in
        let miss : eq_ℤ q.id id ≡ false = ap (λ i. eq_ℤ i id) (e ∙ own) ∙ b in
        let le = a.ids id h in ground (arith, w, miss, le)
  ];
}

-- The member that is added.
added :
    (r q : Room) (fd y : ℤ)
    → room_add_member r fd ≡ some q
    → (q.id ≡ r.id) × (occurs y q.members ≡ occurs y r.members + (if eq_ℤ fd y then 1 else 0))
unfolding room_add_member occurs
added r q fd y e =
    let (_, same) = if-none _ (record r { members = r.members ++ (fd ∷ []) }) q e in
    subst
      (λ i.
        (i.id ≡ r.id) × (occurs y i.members ≡ occurs y r.members + (if eq_ℤ fd y then 1 else 0)))
      same (refl, occurs-append y r.members (fd ∷ []) ∙ omega arith)

entered-seat :
    (name : Bytes) (q : Room) (c : Client) (cs : List Client)
    → client_find cs c.fd ≡ some c
    → seat (changed (eq_ℤ c.fd c.fd) (entered name q) (client_find cs c.fd)) ≡ q.id
entered-seat name q c cs e = rw (e, eq_ℤ-refl c.fd) refl

changed-miss :
    (f : Client → Client) (o : Option Client) (b : Bool) → b ≡ false → seat (changed b f o) ≡ seat o
changed-miss f none b e = refl
changed-miss f (some d) b e = rw e refl

pub enter-Agree :
    (c : Client) (name : Bytes) (created : Bool) (slot : Room → Bool) (r : Room) (o : Option Room)
    (s : Server) (id0 : ℤ)
    → client_find s.clients c.fd ≡ some c
    → ltb_ℤ c.fd (pos 0) ≡ false
    → c.state.room_id ≡ room_none
    → Agree s.clients s.rooms
    → Entry s.rooms slot r id0
    → room_add_member r c.fd ≡ o
    → (o ≡ none → write_room slot r s.rooms ≡ s.rooms)
    → Agree (enter c name created slot r o s).1.clients (enter c name created slot r o s).1.rooms
unfolding enter
enter-Agree c name created slot r none s id0 found h out a entry e same =
    stays-Agree _ _ (send_msg-Stays c.fd _ (record s { rooms = write_room slot r s.rooms }))
      (subst (λ i. Agree s.clients i) (sym (same refl)) a)
enter-Agree c name created slot r (some q) s id0 found h out a entry e same = joined
  where
    cs : List Client
    cs = update_client c.fd (entered name q) s.clients

    creator : ℤ
    creator = if created then c.fd else negsuc 0

    t : Server
    t = room_push_sessions_ex (grown q) creator (record s { clients = cs })

    st : Stays (record s { clients = cs }) t
    st = room_push_sessions_ex-Stays (grown q) creator (record s { clients = cs })

    here :
        (y : ℤ)
        → client_find cs y ≡ changed (eq_ℤ c.fd y) (entered name q) (client_find s.clients y)
    here y = find-update_client (entered name q) (λ d. refl) c.fd s.clients y

    own : q.id ≡ r.id
    own = (added r q c.fd c.fd e).0

    one_more :
        (id y : ℤ)
        → place (room_find (write_room slot (grown q) s.rooms) id) y ≡ (
            if eq_ℤ id0 id && eq_ℤ c.fd y
            then place (room_find s.rooms id) y + 1
            else place (room_find s.rooms id) y)
    one_more id y = entry.new (grown q) id y own ∙ elim (Bool-cases (eq_ℤ id0 id)) [
      | inl b ↦
          let old : place (room_find s.rooms id) y ≡ occurs y r.members =
            ap (λ i. place (room_find s.rooms i) y) (sym (eq_ℤ-eq id0 id b)) ∙ entry.old y in
          let more = (added r q c.fd y e).1 in rw (b, old) (ground (arith, more))
      | inr b ↦ rw b refl
    ]

    joined : Agree t.clients (write_room slot (grown q) t.rooms)
    joined =
        subst (λ i. Agree t.clients (write_room slot (grown q) i)) (sym st.rooms)
          (joined-Agree s.clients t.clients s.rooms (write_room slot (grown q) s.rooms) id0 c.fd a h
            (ap seat found ∙ out)
            (st.clients.seats c.fd
              ∙ ap seat (here c.fd)
              ∙ entered-seat name q c s.clients found
              ∙ own
              ∙ entry.own)
            (λ y k.
              st.clients.seats y
              ∙ ap seat (here y)
              ∙ changed-miss (entered name q) (client_find s.clients y) (eq_ℤ c.fd y) k)
            (λ y.
              st.clients.counts y
              ∙ fd_count-update_client (entered name q) (λ d. refl) c.fd s.clients y)
            (λ id k. entry.ids (grown q) id own k) one_more)
