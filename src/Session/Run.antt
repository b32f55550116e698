-- ===== src/Session/Run.antt =====
-- A session from its start, whatever the client, the admin thread and the clock do.
use corestack.Prelude.Opt.{◌>>=◌}
use corestack.Prelude.{
  ◌≡◌, arith, Bool, true, false, not, ◌||◌, List, [], ◌∷◌, Option, none, some, pos, if◌then◌else◌,
}
use corestack.Brain.Model.{GameState}
use corestack.Brain.Game.{tetrisbrain_tick, tetrisbrain_game_over}
use corestack.Brain.Game.Inv.{tetrisbrain_tick-IsValid}
use corestack.Room.Model.{session_game_over, is_playing, SessionState, eq_ℤ}
use corestack.Room.Server.{admin_gameover}
use corestack.Session.{World, Session, session_reset, session_flush_garbage, admin_send}
use corestack.Session.Admin.{session_push_game}
use corestack.Session.Loop.{
  Running, report_score, report_end, tick, LoopEvent, request, admin, due, keep_running, on_event,
  run, started,
}
use corestack.Session.Ready.{
  IsAfter, IsAfter-refl, IsAfter-trans, admin_send-IsAfter, session_flush_garbage-IsAfter,
}
use corestack.Session.Life.{
  IsAlive, Alive, after-IsAlive, pushed-IsAlive, is_seed, is_timely, timely, dispatch-Alive,
  handle_admin-Alive,
}

report_score-IsAfter : (w : World) (r : Running) → IsAfter r.session (report_score w r).session
unfolding report_score
report_score-IsAfter w r =
    scored
      (not (eq_ℤ (pos r.session.game.score) r.last_score)
        || not (eq_ℤ (pos r.session.game.lines) r.last_lines))
      _ (admin_send-IsAfter w _ r.session)
  where
    scored :
        (b : Bool) (q : Running)
        → IsAfter r.session q.session
        → IsAfter r.session (if b then q else r).session
    scored true q a = a
    scored false q a = IsAfter-refl r.session

-- A game that ended is reported, and the session does not play on.
report_end-IsAfter : (w : World) (s : Session) → IsAfter s (report_end w s)
unfolding report_end
report_end-IsAfter w s = ended (tetrisbrain_game_over s.game)
  where
    over : Session
    over = record s { session = record s.session { phase = session_game_over } }

    ended :
        (b : Bool)
        → IsAfter s (if b then (admin_send w (admin_gameover (pos s.game.score)) over).1 else s)
    ended true =
        IsAfter-trans s over _ (record { valid = λ v. v; phase = λ p. absurd cc })
          (admin_send-IsAfter w (admin_gameover (pos s.game.score)) over)
    ended false = IsAfter-refl s

tick-IsAlive :
    (seeded : Bool) (w : World) (r : Running)
    → IsAlive seeded r.session
    → IsAlive seeded (tick w r).session
unfolding tick
tick-IsAlive seeded w r a = due_or_not (is_playing r.session.session.phase)
  where
    ticked : Session
    ticked = record r.session { game = tetrisbrain_tick r.session.game }

    flushed : Session
    flushed = session_flush_garbage w ticked

    scored : Running
    scored = report_score w (record r { session = flushed })

    moved : IsAlive seeded ticked
    moved = record {
      valid = λ e. tetrisbrain_tick-IsValid r.session.game (a.valid e);
      playing = a.playing;
    }

    sent : IsAlive seeded scored.session
    sent =
        after-IsAlive seeded flushed scored.session
          (after-IsAlive seeded ticked flushed moved (session_flush_garbage-IsAfter w ticked))
          (report_score-IsAfter w (record r { session = flushed }))

    done : IsAlive seeded (report_end w (session_push_game scored.session))
    done =
        after-IsAlive seeded (session_push_game scored.session) _
          (pushed-IsAlive seeded scored.session sent)
          (report_end-IsAfter w (session_push_game scored.session))

    due_or_not :
        (b : Bool)
        → IsAlive seeded
            (if b
              then record scored { session = report_end w (session_push_game scored.session) }
              else r).session
    due_or_not true = done
    due_or_not false = a

abbrev pub IsRunning : Bool → Option Running → Type 0
IsRunning seeded none = ⊥
IsRunning seeded (some r) = IsAlive seeded r.session

kept-IsRunning :
    (seeded : Bool) (r : Running) (o : Option Session)
    → Alive seeded o
    → IsRunning seeded (keep_running r o)
kept-IsRunning seeded r none a = a
kept-IsRunning seeded r (some s) a = a

on_event-IsRunning :
    (seeded : Bool) (e : LoopEvent) (r : Running)
    → is_timely seeded e ≡ true
    → IsAlive seeded r.session
    → IsRunning (is_seed e || seeded) (on_event e r)
unfolding on_event
on_event-IsRunning seeded (request w req) r h a =
    kept-IsRunning seeded r _ (dispatch-Alive seeded w r.session req a)
on_event-IsRunning seeded (admin w m) r h a =
    kept-IsRunning (is_seed (admin w m) || seeded) r _ (handle_admin-Alive seeded w m r.session h a)
on_event-IsRunning seeded (due w) r h a = tick-IsAlive seeded w r a

-- Whether a round was started by the end of the events.
unfoldable pub seeded_by : Bool → List LoopEvent → Bool
seeded_by seeded [] = seeded
seeded_by seeded (e ∷ es) = seeded_by (is_seed e || seeded) es

run-from :
    (seeded : Bool) (es : List LoopEvent) (o : Option Running)
    → timely seeded es ≡ true
    → IsRunning seeded o
    → IsRunning (seeded_by seeded es) (o >>= run es)
unfolding run timely seeded_by
run-from seeded es none h a = a
run-from seeded [] (some r) h a = a
run-from seeded (e ∷ es) (some r) h a =
    run-from (is_seed e || seeded) es (on_event e r) (ground (arith, h))
      (on_event-IsRunning seeded e r (ground (arith, h)) a)

-- Whatever requests come, whatever the admin thread sends and whenever ticks are due: if the admin
-- thread says that a round runs only after it sent the seed of one, the session's loop handles all
-- of it, the session does not play before a seed came, and from then on its game is a sound one.
pub run-IsRunning :
    (zeroed : GameState) (memory : SessionState) (es : List LoopEvent)
    → timely false es ≡ true
    → IsRunning (seeded_by false es) (run es (started (session_reset zeroed memory)))
unfolding session_reset
run-IsRunning zeroed memory es h =
    run-from false es (some (started (session_reset zeroed memory))) h
      (record { valid = λ e. absurd cc; playing = λ p. absurd cc })
