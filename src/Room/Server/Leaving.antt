-- ===== src/Room/Server/Leaving.antt =====
-- A client that leaves its room or the server leaves both views of membership.
use mathlib.Core.Path.{subst}
use corestack.Prelude.{
  ◌-◌, ◌≤◌, ◌≡◌, refl, sym, ap, ◌∙◌, inl, inr, arith, Bool, true, false, ◌&&◌, List, [], ◌∷◌,
  Option, none, some, ℤ, pos, negsuc, if◌then◌else◌, Bool-cases,
}
use corestack.Room.Model.{room_none, Client, Room, eq_ℤ, ltb_ℤ}
use corestack.Room.Compare.{eq_ℤ-eq, eq_ℤ-sym}
use corestack.Room.Members.{occurs, occurs-swap_remove}
use corestack.Room.Rank.{client_find}
use corestack.Room.Round.{no_members}
use corestack.Room.Table.{room_find, swap_remove, room_del_member}
use corestack.Room.Server.{Server, send_session}
use corestack.Room.Server.Push.{
  update_client, write_room, has_id, room_push_sessions, room_mark_standings_dirty,
}
use corestack.Room.Server.Depart.{
  promote, check_round_end, settle, departed, out_of_room, depart, handle_leave,
}
use corestack.Room.Server.Seats.{
  seat, changed, find-update_client, fd_count-update_client, SameSeats, SameSeats-refl,
  promote-SameSeats,
}
use corestack.Room.Server.Stays.{
  Stays, Stays-trans, send_msg-Stays, room_push_sessions_ex-Stays, check_round_end-Stays,
}
use corestack.Room.Server.Places.{
  place, id_count, room_find-some, with_id-id, id_count-write, id_count-same, zero_other,
}
use corestack.Room.Server.Agree.{
  eq_ℤ-refl, Agree, seats-Agree, found-place, freed-place, left-Agree,
}

-- What a departure makes of the tables: one entry of `fd` in room `id0` goes.
pub record Departure (s t : Server) (id0 fd : ℤ) : Type 0 where
  pub seats : SameSeats s.clients t.clients
  pub ids : (id : ℤ) → ltb_ℤ (pos 0) id ≡ true → id_count id t.rooms ≤ id_count id s.rooms
  pub places :
      (id y : ℤ)
      → place (room_find t.rooms id) y ≡ (
          if eq_ℤ id0 id && eq_ℤ fd y
          then place (room_find s.rooms id) y - 1
          else place (room_find s.rooms id) y)

-- The members of the room without `fd`, for those of the room.
gone :
    (rs : List Room) (r : Room) (id0 id fd y : ℤ)
    → room_find rs id0 ≡ some r
    → (if eq_ℤ id0 id then occurs y (swap_remove fd r.members) else place (room_find rs id) y) ≡ (
        if eq_ℤ id0 id && eq_ℤ fd y
        then place (room_find rs id) y - 1
        else place (room_find rs id) y)
gone rs r id0 id fd y f = elim (Bool-cases (eq_ℤ id0 id)) [
  | inl b ↦
      let here : place (room_find rs id) y ≡ occurs y r.members =
        ap (λ i. place (room_find rs i) y) (sym (eq_ℤ-eq id0 id b)) ∙ ap (λ i. place i y) f in
      let o = occurs-swap_remove fd y r.members in rw (b, here) (ground (arith, o, eq_ℤ-sym fd y))
  | inr b ↦ rw b refl
]

no_occurs : (y : ℤ) (ms : List ℤ) → no_members ms ≡ true → occurs y ms ≡ 0
unfolding occurs
no_occurs y [] e = refl
no_occurs y (m ∷ ms) e = absurd cc

marked :
    (b : Bool) (r : Room)
    → ((if b then r else room_mark_standings_dirty r).id ≡ r.id)
      × ((if b then r else room_mark_standings_dirty r).members ≡ r.members)
marked true r = (refl, refl)
marked false r = (refl, refl)

-- The room `r` was found, and `q` is what is written back in its place.
written :
    (s t : Server) (id0 fd : ℤ) (r q : Room)
    → Stays s t
    → room_find s.rooms id0 ≡ some r
    → q.id ≡ r.id
    → q.members ≡ swap_remove fd r.members
    → Departure s (record t { rooms = write_room (has_id id0) q t.rooms }) id0 fd
written s t id0 fd r q st f e m =
    let (p, w) = room_find-some s.rooms id0 r f in
    let own : eq_ℤ q.id id0 ≡ true = ap (λ i. eq_ℤ i id0) e ∙ with_id-id s.rooms id0 r w in
    let g : room_find t.rooms id0 ≡ some r = ap (λ i. room_find i id0) st.rooms ∙ f in
    record {
      seats = st.clients;
      ids = λ id h. omega (arith, id_count-same q t.rooms id0 id own, ap (id_count id) st.rooms);
      places = λ id y.
          found-place q r t.rooms id0 id y g own
          ∙ ap (λ i. if eq_ℤ id0 id then occurs y i else place (room_find t.rooms id) y) m
          ∙ gone t.rooms r id0 id fd y g
          ∙ ap
              (λ i.
                if eq_ℤ id0 id && eq_ℤ fd y
                then place (room_find i id) y - 1
                else place (room_find i id) y)
              st.rooms;
    }

settle-Departure :
    (s t : Server) (id0 fd : ℤ) (r p : Room) (b : Bool)
    → Stays s t
    → room_find s.rooms id0 ≡ some r
    → p.id ≡ r.id
    → p.members ≡ swap_remove fd r.members
    → Departure s (settle id0 (b, p, t)) id0 fd
unfolding settle
settle-Departure s t id0 fd r p b st f e m =
    let u = room_push_sessions p t in
    let (x, y) = marked b p in
    written s u id0 fd r (if b then p else room_mark_standings_dirty p)
      (Stays-trans s t u st (room_push_sessions_ex-Stays p (negsuc 0) t)) f (x ∙ e) (y ∙ m)

departed-Departure :
    (s : Server) (id0 fd : ℤ) (was_owner : Bool) (r : Room)
    → room_find s.rooms id0 ≡ some r
    → id_count id0 s.rooms ≤ 1
    → Departure s (departed id0 was_owner (room_del_member r fd) s) id0 fd
unfolding departed room_del_member
departed-Departure s id0 fd was_owner r f c = freed (no_members (swap_remove fd r.members)) refl
  where
    q : Room
    q = record r { members = swap_remove fd r.members }

    t : Server
    t = record s { clients = promote was_owner q.members s.clients }

    freed :
        (b : Bool)
        → no_members (swap_remove fd r.members) ≡ b
        → Departure s
            (if b
              then record s { rooms = write_room (has_id id0) (record q { id = pos 0 }) s.rooms }
              else settle id0 (check_round_end q t))
            id0
            fd
    freed true e = record {
      seats = SameSeats-refl s.clients;
      ids = λ id h.
          let z = zero_other (pos 0) id refl h in
          let w = id_count-write (has_id id0) (record q { id = pos 0 }) s.rooms id in
          ground (arith, z, w);
      places = λ id y.
          freed-place (record q { id = pos 0 }) r s.rooms id0 id y f c refl
          ∙ ap (λ i. if eq_ℤ id0 id then i else place (room_find s.rooms id) y)
              (sym (no_occurs y (swap_remove fd r.members) e))
          ∙ gone s.rooms r id0 id fd y f;
    }
    freed false e =
        let (id, members, st) = check_round_end-Stays q t in
        settle-Departure s (check_round_end q t).2 id0 fd r (check_round_end q t).1
          (check_round_end q t).0
          (Stays-trans s t _
            (record { clients = promote-SameSeats was_owner q.members s.clients; rooms = refl }) st)
          f id members

-- A room that is not found has nobody to lose.
pub nobody :
    (s t : Server) (id0 fd : ℤ)
    → room_find s.rooms id0 ≡ none
    → t.rooms ≡ s.rooms
    → Departure t t id0 fd
nobody s t id0 fd e same = record {
  seats = SameSeats-refl t.clients;
  ids = λ id h. omega arith;
  places = λ id y. elim (Bool-cases (eq_ℤ id0 id)) [
    | inl b ↦
        let zero : place (room_find t.rooms id) y ≡ 0 =
          ap (λ i. place (room_find t.rooms i) y) (sym (eq_ℤ-eq id0 id b))
          ∙ ap (λ i. place (room_find i id0) y) same
          ∙ ap (λ i. place i y) e in
        rw zero (ground arith)
    | inr b ↦ rw b refl
  ];
}

pub depart-Departure :
    (s t : Server) (o : Option Room) (c : Client)
    → room_find s.rooms c.state.room_id ≡ o
    → t.rooms ≡ s.rooms
    → Agree s.clients s.rooms
    → Departure t (depart o c t) c.state.room_id c.fd
depart-Departure s t none c e same a = nobody s t c.state.room_id c.fd e same
depart-Departure s t (some r) c e same a =
    let f : room_find t.rooms c.state.room_id ≡ some r =
      ap (λ i. room_find i c.state.room_id) same ∙ e in
    let (p, _) = room_find-some s.rooms c.state.room_id r e in
    departed-Departure t c.state.room_id c.fd c.state.is_owner r f
      (omega (arith, a.ids c.state.room_id p, ap (id_count c.state.room_id) same))

pub stays-Agree : (s t : Server) → Stays s t → Agree s.clients s.rooms → Agree t.clients t.rooms
stays-Agree s t st a =
    subst (λ i. Agree t.clients i) (sym st.rooms)
      (seats-Agree s.clients t.clients s.rooms st.clients a)

changed-out :
    (c : Client) (o : Option Client) (b : Bool)
    → b ≡ true
    → seat (changed b out_of_room o) ≡ room_none
changed-out c none b e = refl
changed-out c (some d) b e = rw e refl

changed-miss :
    (f : Client → Client) (o : Option Client) (b : Bool) → b ≡ false → seat (changed b f o) ≡ seat o
changed-miss f none b e = refl
changed-miss f (some d) b e = rw e refl

pub handle_leave-Agree :
    (c : Client) (s : Server)
    → client_find s.clients c.fd ≡ some c
    → ltb_ℤ c.fd (pos 0) ≡ false
    → Agree s.clients s.rooms
    → Agree (handle_leave c s).clients (handle_leave c s).rooms
unfolding handle_leave
handle_leave-Agree c s found h a = leave (eq_ℤ c.state.room_id room_none)
  where
    cs : List Client
    cs = update_client c.fd out_of_room s.clients

    t : Server
    t = send_session (out_of_room c) (record s { clients = cs })

    u : Server
    u = depart (room_find s.rooms c.state.room_id) c t

    st : Stays (record s { clients = cs }) t
    st = send_msg-Stays c.fd _ (record s { clients = cs })

    d : Departure t u c.state.room_id c.fd
    d = depart-Departure s t (room_find s.rooms c.state.room_id) c refl st.rooms a

    here : (y : ℤ) → client_find cs y ≡ changed (eq_ℤ c.fd y) out_of_room (client_find s.clients y)
    here y = find-update_client out_of_room (λ e. refl) c.fd s.clients y

    there : (y : ℤ) → seat (client_find u.clients y) ≡ seat (client_find cs y)
    there y = d.seats.seats y ∙ st.clients.seats y

    leave :
        (b : Bool)
        → Agree
            (if b then send_session c s else u).clients
            (if b then send_session c s else u).rooms
    leave true = stays-Agree s (send_session c s) (send_msg-Stays c.fd _ s) a
    leave false =
        left-Agree s.clients u.clients s.rooms u.rooms c.state.room_id c.fd a h (ap seat found)
          (there c.fd
            ∙ ap seat (here c.fd)
            ∙ changed-out c (client_find s.clients c.fd) (eq_ℤ c.fd c.fd) (eq_ℤ-refl c.fd))
          (λ y _ e.
            there y
            ∙ ap seat (here y)
            ∙ changed-miss out_of_room (client_find s.clients y) (eq_ℤ c.fd y) e)
          (λ y _. omega (
            arith,
            d.seats.counts y,
            st.clients.counts y,
            fd_count-update_client out_of_room (λ e. refl) c.fd s.clients y,
          ))
          (λ id k. omega (arith, d.ids id k, ap (id_count id) st.rooms))
          (λ id y.
            d.places id y
            ∙ ap
                (λ i.
                  if eq_ℤ c.state.room_id id && eq_ℤ c.fd y
                  then place (room_find i id) y - 1
                  else place (room_find i id) y)
                st.rooms)
