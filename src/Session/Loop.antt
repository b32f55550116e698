-- ===== src/Session/Loop.antt =====
-- The gravity tick of `session_main` in session.c, and the events of its loop.
use corestack.Prelude.Opt.{◌>>=◌}
use corestack.Prelude.{not, ◌||◌, List, [], ◌∷◌, Option, none, some, ℤ, pos, negsuc, if◌then◌else◌}
use corestack.Brain.Game.{tetrisbrain_tick, tetrisbrain_game_over}
use corestack.Htttp.Message.{Request}
use corestack.Room.Model.{session_game_over, is_playing, eq_ℤ}
use corestack.Room.Server.{AdminMsg, admin_gameover, admin_score}
use corestack.Session.{World, Session, admin_send, session_flush_garbage}
use corestack.Session.Dispatch.{session_dispatch}
use corestack.Session.Admin.{session_handle_admin, session_push_game}

-- The session, and `last_score` and `last_lines` of the loop.
pub record Running : Type 0 where
  pub session : Session
  pub last_score : ℤ
  pub last_lines : ℤ

-- Sends the figures where they moved.
unfoldable pub report_score : World → Running → Running
report_score w r =
    let g = r.session.game in
    if not (eq_ℤ (pos g.score) r.last_score) || not (eq_ℤ (pos g.lines) r.last_lines)
    then record {
      session = (admin_send w (admin_score (pos g.score) (pos g.lines)) r.session).1;
      last_score = pos g.score;
      last_lines = pos g.lines;
    }
    else r

unfoldable pub report_end : World → Session → Session
report_end w s =
    if tetrisbrain_game_over s.game
    then (admin_send w (admin_gameover (pos s.game.score))
        (record s { session = record s.session { phase = session_game_over } })).1
    else s

-- The branch of a tick that is due; what it writes to the history is left out.
unfoldable pub tick : World → Running → Running
tick w r =
    let s = session_flush_garbage w (record r.session { game = tetrisbrain_tick r.session.game }) in
    let q = report_score w (record r { session = s }) in
    if is_playing r.session.session.phase
    then record q { session = report_end w (session_push_game q.session) }
    else r

pub data LoopEvent : Type 0 where
  request : World → Request → LoopEvent
  admin : World → AdminMsg → LoopEvent
  due : World → LoopEvent

abbrev pub keep_running : Running → Option Session → Option Running
keep_running r none = none
keep_running r (some s) = some (record r { session = s })

unfoldable pub on_event : LoopEvent → Running → Option Running
on_event (request w req) r = keep_running r (session_dispatch w r.session req)
on_event (admin w m) r = keep_running r (session_handle_admin w m r.session)
on_event (due w) r = some (tick w r)

-- The loop; none where a step does not return.
unfoldable pub run : List LoopEvent → Running → Option Running
run [] r = some r
run (e ∷ es) r = do q ← on_event e r; run es q

-- `session_main` when its loop starts.
abbrev pub started : Session → Running
started s = record { session = s; last_score = negsuc 0; last_lines = negsuc 0 }
