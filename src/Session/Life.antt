-- ===== src/Session/Life.antt =====
-- What a request and a message of the admin thread leave of a session.
use corestack.Prelude.{
  ◌≡◌, refl, arith, ℕ, Bool, true, false, not, ◌&&◌, ◌||◌, List, [], ◌∷◌, Option, none, some, ℤ,
  if◌then◌else◌,
}
use corestack.Brain.Model.{GameState, PlayerStanding}
use corestack.Brain.Action.Inv.{IsValid}
use corestack.Brain.Game.Inv.{Gives, tetrisbrain_init-IsValid}
use corestack.Brain.Game.Play.{receive_garbage, receive_garbage-IsValid}
use corestack.Room.Model.{is_playing, is_game_over, SessionState}
use corestack.Room.Server.{
  AdminMsg, admin_session, admin_seed, admin_recv_garbage, admin_result, admin_reject,
  admin_standings,
}
use corestack.Session.{World, Session, push, push_reject, session_start_game}
use corestack.Session.Dispatch.{session_dispatch}
use corestack.Session.Guard.{IsGuarded, session_dispatch-IsGuarded}
use corestack.Session.Admin.{
  session_push_session, session_push_game, show_game, with_session, with_standings,
  session_handle_admin,
}
use corestack.Session.Loop.{LoopEvent, admin}
use corestack.Session.Ready.{IsAfter}

-- `seeded` tells whether a round was started: then the game is sound. Before it the session does
-- not play.
pub record IsAlive (seeded : Bool) (s : Session) : Type 0 where
  pub valid : seeded ≡ true → IsValid s.game
  pub playing : is_playing s.session.phase ≡ true → seeded ≡ true

abbrev pub Alive : Bool → Option Session → Type 0
Alive seeded none = ⊥
Alive seeded (some s) = IsAlive seeded s

pub after-IsAlive :
    (seeded : Bool) (s t : Session) → IsAlive seeded s → IsAfter s t → IsAlive seeded t
after-IsAlive seeded s t a b = record {
  valid = λ e. b.valid (a.valid e);
  playing = λ p. a.playing (b.phase p);
}

pub pushed-IsAlive :
    (seeded : Bool) (s : Session) → IsAlive seeded s → IsAlive seeded (session_push_game s)
unfolding session_push_game push
pushed-IsAlive seeded s a = record { valid = a.valid; playing = a.playing }

-- A message of the admin thread that says that the round runs comes after the seed of one.
abbrev pub is_seed : LoopEvent → Bool
is_seed (admin w (admin_seed seed)) = true
is_seed _ = false

abbrev pub is_timely : Bool → LoopEvent → Bool
is_timely seeded (admin w (admin_session st created)) = seeded || not (is_playing st.phase)
is_timely seeded _ = true

unfoldable pub timely : Bool → List LoopEvent → Bool
timely seeded [] = true
timely seeded (e ∷ es) = is_timely seeded e && timely (is_seed e || seeded) es

pub dispatch-Alive :
    (seeded : Bool) (w : World) (s : Session) (req : _)
    → IsAlive seeded s
    → Alive seeded (session_dispatch w s req)
dispatch-Alive seeded w s req a =
    given (session_dispatch w s req)
      (session_dispatch-IsGuarded w s req (λ p. a.valid (a.playing p)))
  where
    given : (o : Option Session) → IsGuarded s req o → Alive seeded o
    given none g = g
    given (some t) (_, b) = after-IsAlive seeded s t a b

known-IsValid : (g : GameState) (id : ℤ) → IsValid g → IsValid (record g { my_player_id = id })
known-IsValid g id v = record {
  settled = record { board = v.settled.board; queue = v.settled.queue; held = v.settled.held };
  real = v.real;
  free = v.free;
}

ranked-IsValid :
    (g : GameState) (rows : List PlayerStanding) (n : ℕ)
    → IsValid g
    → IsValid (record g { standings = rows; standing_count = n })
ranked-IsValid g rows n v = record {
  settled = record { board = v.settled.board; queue = v.settled.queue; held = v.settled.held };
  real = v.real;
  free = v.free;
}

if-Alive :
    (seeded b : Bool) (o p : Option Session)
    → (b ≡ true → Alive seeded o)
    → Alive seeded p
    → Alive seeded (if b then o else p)
if-Alive seeded true o p f g = f refl
if-Alive seeded false o p f g = g

show_game-Alive :
    (seeded : Bool) (o : Option GameState) (s : Session)
    → Gives IsValid o
    → IsAlive seeded s
    → Alive seeded (show_game o s)
show_game-Alive seeded none s v a = v
show_game-Alive seeded (some g) s v a =
    pushed-IsAlive seeded (record s { game = g }) (record { valid = λ _. v; playing = a.playing })

if-IsAlive :
    (seeded b : Bool) (s t : Session)
    → IsAlive seeded s
    → IsAlive seeded t
    → IsAlive seeded (if b then s else t)
if-IsAlive seeded true s t a b = a
if-IsAlive seeded false s t a b = b

told-IsAlive :
    (seeded : Bool) (st : SessionState) (s : Session)
    → (seeded || not (is_playing st.phase)) ≡ true
    → IsAlive seeded s
    → IsAlive seeded (session_push_session (with_session st s))
unfolding session_push_session push
told-IsAlive seeded st s h a = record {
  valid = λ e. known-IsValid s.game _ (a.valid e);
  playing = λ p. ground (arith, h, p);
}

pub handle_admin-Alive :
    (seeded : Bool) (w : World) (m : AdminMsg) (s : Session)
    → is_timely seeded (admin w m) ≡ true
    → IsAlive seeded s
    → Alive (is_seed (admin w m) || seeded) (session_handle_admin w m s)
unfolding session_handle_admin session_push_session session_push_game session_start_game push
handle_admin-Alive seeded w (admin_session st created) s h a = told-IsAlive seeded st _ h (
    if-IsAlive seeded created (push (push_reject 201) s) s
      (record { valid = a.valid; playing = a.playing }) a)
handle_admin-Alive seeded w (admin_seed seed) s h a = record {
  valid = λ _. (tetrisbrain_init-IsValid s.game seed).0;
  playing = λ _. refl;
}
handle_admin-Alive seeded w (admin_recv_garbage lines) s h a =
    if-Alive seeded (is_playing s.session.phase && not s.game.game_over) _ (some s)
      (λ b.
        show_game-Alive seeded (receive_garbage s.game lines) s
          (receive_garbage-IsValid s.game lines (a.valid (a.playing (ground (arith, b))))) a)
      a
handle_admin-Alive seeded w (admin_standings rows) s h a =
    let t = with_standings rows s in
    let b : IsAlive seeded t = record {
      valid = λ e. ranked-IsValid s.game _ _ (a.valid e);
      playing = a.playing;
    } in
    if-IsAlive seeded (is_game_over s.session.phase) (session_push_game t) t
      (pushed-IsAlive seeded t b) b
handle_admin-Alive seeded w (admin_result winner) s h a = record {
  valid = a.valid;
  playing = λ p. absurd cc;
}
handle_admin-Alive seeded w (admin_reject reason) s h a = record {
  valid = a.valid;
  playing = a.playing;
}
handle_admin-Alive seeded w _ s h a = a
