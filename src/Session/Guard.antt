-- ===== src/Session/Guard.antt =====
-- Which requests reach the game or the admin thread.
use corestack.Prelude.{
  ◌≡◌, refl, ◌⊎◌, inl, inr, arith, ℕ, Bool, true, false, not, ◌&&◌, Bytes, codes, Option, none,
  some, ℤ, if◌then◌else◌, ◌==◌,
}
use corestack.Htttp.Message.{Request, header_get}
use corestack.Room.Model.{is_playing, room_none, eq_ℤ}
use corestack.Session.{World, Session, Push, push, push_reject}
use corestack.Session.Scan.{atoi, path_ids}
use corestack.Session.Route.{Answer, Route, call, routes}
use corestack.Brain.Action.Inv.{IsValid}
use corestack.Session.Ready.{IsAfter, IsAfter-refl, AnswerAfter, call-After, row-plays}
use corestack.Session.Dispatch.{
  route_for, needs_game, names_player, is_foreign, with_ids, with_player, answered, with_route,
  session_dispatch,
}

-- The identity claims of a request that a route takes: the round runs where the route needs one,
-- `Player-Id` is there and right once the session is in a room, and a path that claims a room or a
-- player claims those of the session.
pub record IsAllowed (s : Session) (req : Request) (r : Route) : Type 0 where
  pub row : route_for routes req.method ≡ some r
  pub phase : needs_game r.when ≡ true → is_playing s.session.phase ≡ true
  pub id : Bytes
  pub header : header_get req.headers (codes "Player-Id") ≡ some id
  pub own_id : eq_ℤ s.session.room_id room_none ≡ false → eq_ℤ (atoi id) s.session.player_id ≡ true
  pub room : ℤ
  pub player : ℤ
  pub path : path_ids req.path r.shape ≡ some (room, player)
  pub own_room : r.owns_room ≡ true → eq_ℤ room s.session.room_id ≡ true
  pub own_player :
      (r.owns_room && names_player r.shape) ≡ true → eq_ℤ player s.session.player_id ≡ true

-- The game is as it was, and the admin thread hears nothing.
abbrev pub IsSilent : Session → Session → Type 0
IsSilent s t = (t.game ≡ s.game) × (t.to_admin ≡ s.to_admin)

abbrev Guarded : Session → Type 0 → Answer → Type 0
Guarded s A none = ⊥
Guarded s A (some (status, t)) = (IsSilent s t ⊎ A) × IsAfter s t

if-Guarded :
    (s : Session) (A : Type 0) (b : Bool) (o p : Answer)
    → (b ≡ true → Guarded s A o)
    → (b ≡ false → Guarded s A p)
    → Guarded s A (if b then o else p)
if-Guarded s A true o p f g = f refl
if-Guarded s A false o p f g = g refl

any-Guarded : (s : Session) (A : Type 0) (o : Answer) → A → AnswerAfter s o → Guarded s A o
any-Guarded s A none a k = k
any-Guarded s A (some (status, t)) a k = (inr a, k)

refused-Guarded : (s : Session) (A : Type 0) (status : ℕ) → Guarded s A (some (status, s))
refused-Guarded s A status = (inl (refl, refl), IsAfter-refl s)

module _ (w : World) (s : Session) (req : Request) (r : Route)
    (row : route_for routes req.method ≡ some r)
    (phase : (needs_game r.when && not (is_playing s.session.phase)) ≡ false)
    (ready : is_playing s.session.phase ≡ true → IsValid s.game) where
  with_ids-Guarded :
      (id : Bytes) (o : Option (ℤ × ℤ))
      → header_get req.headers (codes "Player-Id") ≡ some id
      → (not (eq_ℤ s.session.room_id room_none) && not (eq_ℤ (atoi id) s.session.player_id)) ≡ false
      → path_ids req.path r.shape ≡ o
      → Guarded s (IsAllowed s req r) (with_ids w s req r o)
  unfolding with_ids
  with_ids-Guarded id none h own p = refused-Guarded s (IsAllowed s req r) 404
  with_ids-Guarded id (some (room, player)) h own p =
      if-Guarded s (IsAllowed s req r) (is_foreign r s room player) (some (403, s)) _
        (λ _. refused-Guarded s (IsAllowed s req r) 403)
        (λ b.
          any-Guarded s (IsAllowed s req r) (call r.fn w s req room)
            (record {
              row = row;
              phase = λ n. ground (arith, phase, n);
              id = id;
              header = h;
              own_id = λ n. ground (arith, own, n);
              room = room;
              player = player;
              path = p;
              own_room = λ n. ground (arith, b, n);
              own_player = λ n. ground (arith, b, n);
            })
            (call-After r.fn w s req room
              (λ p. ready (row-plays req.method r (is_playing s.session.phase) row phase p))))

  with_player-Guarded :
      (o : Option Bytes)
      → header_get req.headers (codes "Player-Id") ≡ o
      → Guarded s (IsAllowed s req r) (with_player w s req r o)
  unfolding with_player
  with_player-Guarded none h = refused-Guarded s (IsAllowed s req r) 401
  with_player-Guarded (some id) h =
      if-Guarded s (IsAllowed s req r)
        (not (eq_ℤ s.session.room_id room_none) && not (eq_ℤ (atoi id) s.session.player_id))
        (some (403, s)) _ (λ _. refused-Guarded s (IsAllowed s req r) 403)
        (λ b. with_ids-Guarded id (path_ids req.path r.shape) h b refl)

-- What is true of a dispatched request.
abbrev pub IsGuarded : Session → Request → Option Session → Type 0
IsGuarded s req none = ⊥
IsGuarded s req (some t) = (IsSilent s t ⊎ ((r : Route) × IsAllowed s req r)) × IsAfter s t

same-IsGuarded : (s : Session) (req : Request) → IsGuarded s req (some s)
same-IsGuarded s req = (inl (refl, refl), IsAfter-refl s)

pushed-IsAfter : (p : Push) (s t : Session) → IsAfter s t → IsAfter s (push p t)
unfolding push
pushed-IsAfter p s t a = record { valid = a.valid; phase = a.phase }

answered-IsGuarded :
    (s : Session) (req : Request) (r : Route) (o : Answer)
    → Guarded s (IsAllowed s req r) o
    → IsGuarded s req (answered o)
unfolding push
answered-IsGuarded s req r none g = g
answered-IsGuarded s req r (some (status, t)) (g, a) = answer (status == 200) g
  where
    answer :
        (b : Bool)
        → IsSilent s t ⊎ IsAllowed s req r
        → IsGuarded s req (some (if b then t else push (push_reject status) t))
    answer true (inl g) = (inl g, a)
    answer true (inr g) = (inr (r, g), a)
    answer false (inl g) = (inl g, pushed-IsAfter (push_reject status) s t a)
    answer false (inr g) = (inr (r, g), pushed-IsAfter (push_reject status) s t a)

if-IsGuarded :
    (s : Session) (req : Request) (b : Bool) (o p : Option Session)
    → IsGuarded s req o
    → (b ≡ false → IsGuarded s req p)
    → IsGuarded s req (if b then o else p)
if-IsGuarded s req true o p f g = f
if-IsGuarded s req false o p f g = g refl

module _ (w : World) (s : Session) (req : Request)
    (ready : is_playing s.session.phase ≡ true → IsValid s.game) where
  with_route-IsGuarded :
      (o : Option Route) → route_for routes req.method ≡ o → IsGuarded s req (with_route w s req o)
  unfolding with_route push
  with_route-IsGuarded none e =
      (inl (refl, refl), pushed-IsAfter (push_reject 501) s s (IsAfter-refl s))
  with_route-IsGuarded (some r) e =
      if-IsGuarded s req (needs_game r.when && not (is_playing s.session.phase)) (some s) _
        (same-IsGuarded s req)
        (λ b. answered-IsGuarded s req r _ (
          with_player-Guarded w s req r e b ready (header_get req.headers (codes "Player-Id"))
            refl))

  -- Where the game is sound while the round runs, a request of the client is dispatched, the game
  -- stays sound, and the session does not begin to play. The request either leaves the game as it
  -- was and tells the admin thread nothing, or is one of the table's methods, comes while the round
  -- runs if it is a move, brings the session's own player id once there is a room, and, unless it
  -- is a JOIN, names in its path the session's own room, and its own player where the path has one.
  pub session_dispatch-IsGuarded : IsGuarded s req (session_dispatch w s req)
  unfolding session_dispatch
  session_dispatch-IsGuarded =
      if-IsGuarded s req (w.auth_offer req s.session) (some s) _ (same-IsGuarded s req) (λ _.
        if-IsGuarded s req (w.history_offer req s.user_name s.session.phase) (some s) _
          (same-IsGuarded s req) (λ _. with_route-IsGuarded (route_for routes req.method) refl))

-- What a request must bring to have an effect, by its method and its header: the round runs where the
-- method needs one, and `Player-Id` is there and right once the session is in a room.
pub record IsIdentified (s : Session) (req : Request) : Type 0 where
  pub route : Route
  pub row : route_for routes req.method ≡ some route
  pub phase : needs_game route.when ≡ true → is_playing s.session.phase ≡ true
  pub id : Bytes
  pub header : header_get req.headers (codes "Player-Id") ≡ some id
  pub own_id : eq_ℤ s.session.room_id room_none ≡ false → eq_ℤ (atoi id) s.session.player_id ≡ true

abbrev pub Answered : Session → Request → Option Session → Type 0
Answered s req none = ⊥
Answered s req (some t) = (IsSilent s t ⊎ IsIdentified s req) × IsAfter s t

guarded-Answered :
    (s : Session) (req : Request) (o : Option Session) → IsGuarded s req o → Answered s req o
guarded-Answered s req none g = g
guarded-Answered s req (some t) (inl g, a) = (inl g, a)
guarded-Answered s req (some t) (inr (r, g), a) = (
  inr (record {
    route = r;
    row = g.row;
    phase = g.phase;
    id = g.id;
    header = g.header;
    own_id = g.own_id;
  }),
  a,
)

-- Where the game is sound while the round runs, a request of the client is dispatched, the game
-- stays sound, and the session does not begin to play. The request either leaves the game as it was
-- and tells the admin thread nothing, or its method is one of the table's, it comes while the round
-- runs if the method needs that, it brings a Player-Id, and the id is the session's own once the
-- session is in a room.
pub session_dispatch-Answered :
    (w : World) (s : Session) (req : Request)
    → (is_playing s.session.phase ≡ true → IsValid s.game)
    → Answered s req (session_dispatch w s req)
session_dispatch-Answered w s req ready =
    guarded-Answered s req (session_dispatch w s req) (session_dispatch-IsGuarded w s req ready)
