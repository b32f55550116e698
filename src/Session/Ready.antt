-- ===== src/Session/Ready.antt =====
-- That a route returns and leaves a sound game.
use corestack.Prelude.Opt.{◌>>=◌}
use mathlib.Core.Path.{subst}
use corestack.Room.Server.Keep.{if-some}
use corestack.Prelude.{
  arith, ◌||◌, ◌≡◌, refl, inl, inr, Bool, true, false, not, ◌&&◌, List, [], ◌∷◌, ◌++◌, Bytes, take,
  bytes_eq, codes, Option, none, some, ℤ, if◌then◌else◌, pos, ◌==◌,
}
use corestack.Brain.Model.{
  Move, move_left, move_right, move_rot_left, move_rot_right, move_soft_drop, move_hard_drop, hold,
  GameState,
}
use corestack.Brain.Action.Inv.{IsValid}
use corestack.Brain.Game.{tetrisbrain_input}
use corestack.Brain.Game.Inv.{Gives, tetrisbrain_input-IsValid}
use corestack.Htttp.Message.{Request}
use corestack.Room.Model.{is_playing}
use corestack.Room.Server.{AdminMsg, admin_join, admin_leave, admin_start, admin_garbage}
use corestack.Session.{World, Session, admin_send, unbanked, session_flush_garbage}
use corestack.Session.Route.{
  Answer, body_is, send_input, accepted, route_move, route_rotate, flushed, route_drop, route_hold,
  handed, route_join, route_leave, route_start, RouteFn, to_move, to_rotate, to_drop, to_hold,
  to_join, to_leave, to_start, call, Route, routes,
}
use corestack.Util.Name.{user_name_max}
use corestack.Session.Dispatch.{route_for, needs_game}

-- The game is sound if it was, and the session does not begin to play.
pub record IsAfter (s t : Session) : Type 0 where
  pub valid : IsValid s.game → IsValid t.game
  pub phase : is_playing t.session.phase ≡ true → is_playing s.session.phase ≡ true

pub IsAfter-refl : (s : Session) → IsAfter s s
IsAfter-refl s = record { valid = λ v. v; phase = λ p. p }

abbrev pub AnswerAfter : Session → Answer → Type 0
AnswerAfter s none = ⊥
AnswerAfter s (some (status, t)) = IsAfter s t

abbrev pub SessionAfter : Session → Option Session → Type 0
SessionAfter s none = ⊥
SessionAfter s (some t) = IsAfter s t

unbank-IsValid : (g : GameState) → IsValid g → IsValid (record g { garbage_out = 0 })
unbank-IsValid g v = record {
  settled = record { board = v.settled.board; queue = v.settled.queue; held = v.settled.held };
  real = v.real;
  free = v.free;
}

-- A send changes neither the game nor the phase.
pub admin_send-IsAfter : (w : World) (m : AdminMsg) (s : Session) → IsAfter s (admin_send w m s).1
unfolding admin_send
admin_send-IsAfter w m s = sent (w.takes s.to_admin)
  where
    sent : (b : Bool) → IsAfter s (if b then record s { to_admin = s.to_admin ++ (m ∷ []) } else s)
    sent true = record { valid = λ v. v; phase = λ p. p }
    sent false = IsAfter-refl s

unbanked-IsAfter : (p : Bool × Session) → IsAfter p.1 (unbanked p)
unbanked-IsAfter (true, s) = record { valid = unbank-IsValid s.game; phase = λ p. p }
unbanked-IsAfter (false, s) = IsAfter-refl s

pub IsAfter-trans : (s t u : Session) → IsAfter s t → IsAfter t u → IsAfter s u
IsAfter-trans s t u a b = record {
  valid = λ v. b.valid (a.valid v);
  phase = λ p. a.phase (b.phase p);
}

pub session_flush_garbage-IsAfter :
    (w : World) (s : Session) → IsAfter s (session_flush_garbage w s)
unfolding session_flush_garbage
session_flush_garbage-IsAfter w s = flush (s.game.garbage_out == 0)
  where
    flush :
        (b : Bool)
        → IsAfter s
            (if b then s else unbanked (admin_send w (admin_garbage (pos s.game.garbage_out)) s))
    flush true = IsAfter-refl s
    flush false =
        IsAfter-trans s _ _ (admin_send-IsAfter w (admin_garbage (pos s.game.garbage_out)) s)
          (unbanked-IsAfter (admin_send w (admin_garbage (pos s.game.garbage_out)) s))

send_input-After : (m : Move) (s : Session) → IsValid s.game → SessionAfter s (send_input m s)
unfolding send_input
send_input-After m s v = given (tetrisbrain_input s.game m) (tetrisbrain_input-IsValid s.game m v)
  where
    given :
        (o : Option GameState)
        → Gives IsValid o
        → SessionAfter s (o >>= λ g. some (record s { game = g }))
    given none x = x
    given (some g) x = record { valid = λ _. x; phase = λ p. p }

accepted-After : (s : Session) (o : Option Session) → SessionAfter s o → AnswerAfter s (accepted o)
accepted-After s none a = a
accepted-After s (some t) a = a

flushed-After :
    (w : World) (s : Session) (o : Option Session) → SessionAfter s o → AnswerAfter s (flushed w o)
flushed-After w s none a = a
flushed-After w s (some t) a = IsAfter-trans s t _ a (session_flush_garbage-IsAfter w t)

handed-After : (s : Session) (p : Bool × Session) → IsAfter s p.1 → AnswerAfter s (handed p)
handed-After s (true, t) a = a
handed-After s (false, t) a = a

pub if-AnswerAfter :
    (s : Session) (b : Bool) (o p : Answer)
    → AnswerAfter s o
    → AnswerAfter s p
    → AnswerAfter s (if b then o else p)
if-AnswerAfter s true o p f g = f
if-AnswerAfter s false o p f g = g

-- Two words are known, and any other is refused.
words-After :
    (s : Session) (a b : Bool) (o p : Answer)
    → AnswerAfter s o
    → AnswerAfter s p
    → AnswerAfter s (if a then o else if b then p else some (400, s))
words-After s a b o p f g =
    if-AnswerAfter s a o _ f (if-AnswerAfter s b p (some (400, s)) g (IsAfter-refl s))

-- The functions that give the game an input.
abbrev pub plays : RouteFn → Bool
plays to_move = true
plays to_rotate = true
plays to_drop = true
plays to_hold = true
plays _ = false

pub call-After :
    (fn : RouteFn) (w : World) (s : Session) (req : Request) (room : ℤ)
    → (plays fn ≡ true → IsValid s.game)
    → AnswerAfter s (call fn w s req room)
unfolding call route_move route_rotate route_drop route_hold route_join route_leave route_start
call-After to_move w s req room v =
    words-After s (body_is req (codes "LEFT")) (body_is req (codes "RIGHT")) _ _
      (accepted-After s _ (send_input-After move_left s (v refl)))
      (accepted-After s _ (send_input-After move_right s (v refl)))
call-After to_rotate w s req room v =
    words-After s (body_is req (codes "CW")) (body_is req (codes "CCW")) _ _
      (accepted-After s _ (send_input-After move_rot_right s (v refl)))
      (accepted-After s _ (send_input-After move_rot_left s (v refl)))
call-After to_drop w s req room v =
    words-After s (body_is req (codes "SOFT")) (body_is req (codes "HARD")) _ _
      (flushed-After w s _ (send_input-After move_soft_drop s (v refl)))
      (flushed-After w s _ (send_input-After move_hard_drop s (v refl)))
call-After to_hold w s req room v = accepted-After s _ (send_input-After hold s (v refl))
call-After to_join w s req room v =
    let renamed = record s { user_name = take user_name_max w.auth_name } in
    let a = admin_send-IsAfter w (admin_join room renamed.user_name) renamed in
    handed-After s _ (record { valid = a.valid; phase = a.phase })
call-After to_leave w s req room v = handed-After s _ (admin_send-IsAfter w admin_leave s)
call-After to_start w s req room v = handed-After s _ (admin_send-IsAfter w admin_start s)

-- Only the rows that need a running game give it an input.
abbrev plays_safely : Route → Bool
plays_safely r = not (plays r.fn) || needs_game r.when

abbrev all_safe : List Route → Bool
all_safe [] = true
all_safe (r ∷ rs) = plays_safely r && all_safe rs

row-safe :
    (rs : List Route) (method : Bytes) (r : Route)
    → all_safe rs ≡ true
    → route_for rs method ≡ some r
    → plays_safely r ≡ true
unfolding route_for
row-safe [] method r h e = absurd cc
row-safe (q ∷ rs) method r h e =
    elim (if-some (bytes_eq method q.method) q r (route_for rs method) e) [
      | inl (_, same) ↦ subst (λ i. plays_safely i ≡ true) same (ground (arith, h))
      | inr rest ↦ row-safe rs method r (ground (arith, h)) rest
    ]

-- A row of the table that gives an input is taken only while the game runs.
pub row-plays :
    (method : Bytes) (r : Route) (playing : Bool)
    → route_for routes method ≡ some r
    → (needs_game r.when && not playing) ≡ false
    → plays r.fn ≡ true
    → playing ≡ true
row-plays method r playing e h p =
    let safe = row-safe routes method r refl e in ground (arith, safe, h, p)
