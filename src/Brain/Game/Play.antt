-- ===== src/Brain/Game/Play.antt =====
-- A whole game: start-up, then inputs, gravity ticks and garbage in any order, as the session's loop
-- in tetriSH/src/tetrisd/session.c makes them.
use corestack.Prelude.{
  refl, Bool, true, false, List, [], ◌∷◌, Option, none, some, ℤ, Bool-cases, inl, inr,
  if◌then◌else◌, ℕ,
}
use corestack.Brain.Model.{Move, GameState}
use corestack.Brain.Board.{board_add_garbage}
use corestack.Brain.Action.{or_top_out}
use corestack.Brain.Action.Inv.{IsValid}
use corestack.Brain.Game.{tetrisbrain_init, tetrisbrain_tick, tetrisbrain_input}
use corestack.Brain.Game.Inv.{
  Gives, tetrisbrain_init-IsValid, tetrisbrain_tick-IsValid, tetrisbrain_input-IsValid,
}
use corestack.Brain.Game.Garbage.{Survives, board_add_garbage-Survives}

pub data Event : Type 0 where
  input : Move → Event
  tick : Event
  garbage : ℤ → Event

-- `ADMIN_RECV_GARBAGE` in `session_handle_admin`, of a session that is playing.
unfoldable pub receive_garbage : GameState → ℤ → Option GameState
receive_garbage g rows =
    if g.game_over
    then some g
    else elim (board_add_garbage g rows) [ none ↦ none | some r ↦ some (or_top_out r) ]

unfoldable pub step : Event → GameState → Option GameState
step (input m) g = tetrisbrain_input g m
step tick g = some (tetrisbrain_tick g)
step (garbage rows) g = receive_garbage g rows

unfoldable pub play : List Event → GameState → Option GameState
play [] g = some g
play (e ∷ es) g = elim (step e g) [ none ↦ none | some h ↦ play es h ]

or_top_out-Survives : (r : Bool × GameState) → Survives r → IsValid (or_top_out r)
or_top_out-Survives (true, g) s = record { settled = s.settled; real = s.real; free = s.free }
or_top_out-Survives (false, g) s = record {
  settled = record { board = s.settled.board; queue = s.settled.queue; held = s.settled.held };
  real = s.real;
  free = refl;
}

pub receive_garbage-IsValid :
    (g : GameState) (rows : ℤ) → IsValid g → Gives IsValid (receive_garbage g rows)
unfolding receive_garbage
receive_garbage-IsValid g rows v = elim (Bool-cases g.game_over) [
  | inl e ↦ simp (e, receive_garbage) v
  | inr e ↦
      let (r, runs, s) = board_add_garbage-Survives g rows v in
      simp (e, runs, receive_garbage) (or_top_out-Survives r s)
]

step-IsValid : (e : Event) (g : GameState) → IsValid g → Gives IsValid (step e g)
unfolding step
step-IsValid (input m) g v = tetrisbrain_input-IsValid g m v
step-IsValid tick g v = tetrisbrain_tick-IsValid g v
step-IsValid (garbage rows) g v = receive_garbage-IsValid g rows v

play_all :
    (es : List Event) (o : Option GameState)
    → Gives IsValid o
    → Gives IsValid (elim o [ none ↦ none | some h ↦ play es h ])
unfolding play
play_all es none v = v
play_all [] (some g) v = v
play_all (e ∷ es) (some g) v = play_all es (step e g) (step-IsValid e g v)

-- Every game of inputs, ticks and incoming garbage goes on to its end, from whatever memory and
-- seed it starts, and leaves a valid state: 26 rows of 10 cells, five real pieces in the queue, a
-- real falling piece, which, while the game runs, lies inside the playfield on empty cells.
pub play-IsValid :
    (g : GameState) (seed : ℕ) (es : List Event) → Gives IsValid (play es (tetrisbrain_init g seed))
play-IsValid g seed es =
    play_all es (some (tetrisbrain_init g seed)) (tetrisbrain_init-IsValid g seed).0
