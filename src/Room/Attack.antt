-- ===== src/Room/Attack.antt =====
-- Where `handle_garbage` sends the rows that a player earned.
use corestack.Prelude.{
  ℕ, ◌+◌, Bool, false, not, ◌&&◌, ◌||◌, List, [], ◌∷◌, Option, none, some, ℤ, pos, negsuc, ◌==◌,
  if◌then◌else◌,
}
use corestack.Room.Model.{is_playing, room_none, Client, Room, eq_ℤ, ltb_ℤ}
use corestack.Room.Rank.{client_find}
use corestack.Room.Table.{room_find}

-- `n`, `candidate_real` and `score_m`.
pub record Aim : Type 0 where
  pub count : ℕ
  pub target : ℤ
  pub best : ℤ

-- A member that can be hit: another one, that is still playing.
unfoldable pub hittable : ℤ → ℤ → Option Client → Bool
hittable sender fd none = false
hittable sender fd (some t) = not (eq_ℤ fd sender) && is_playing t.state.phase

abbrev pub score_or : Option Client → ℤ
score_or none = negsuc 0
score_or (some t) = t.score

-- One member that can be hit.
unfoldable pub aim_at : ℤ → ℤ → Aim → Aim
aim_at fd score a =
    if eq_ℤ a.best (negsuc 0) || ltb_ℤ a.best score
    then record { count = a.count + 1; target = fd; best = score }
    else record a { count = a.count + 1 }

-- The loop over the members.
unfoldable pub take_aim : List Client → ℤ → Aim → List ℤ → Aim
take_aim clients sender a [] = a
take_aim clients sender a (fd ∷ fds) =
    take_aim clients sender
      (if hittable sender fd (client_find clients fd)
        then aim_at fd (score_or (client_find clients fd)) a
        else a)
      fds

abbrev pub no_aim : Aim
no_aim = record { count = 0; target = negsuc 0; best = negsuc 0 }

-- The descriptor that `ADMIN_RECV_GARBAGE` goes to, with its rows; none where nothing is sent.
abbrev pub sent_garbage : ℤ → Aim → Option (ℤ × ℤ)
sent_garbage lines a = if a.count == 0 then none else some (a.target, lines)

abbrev pub garbage_in : List Client → ℤ → ℤ → Option Room → Option (ℤ × ℤ)
garbage_in clients sender lines none = none
garbage_in clients sender lines (some r) =
    sent_garbage lines (take_aim clients sender no_aim r.members)

unfoldable pub handle_garbage : List Client → List Room → Client → ℤ → Option (ℤ × ℤ)
handle_garbage clients rooms c lines =
    if eq_ℤ c.state.room_id room_none
    then none
    else if not (ltb_ℤ (pos 0) lines)
    then none
    else garbage_in clients c.fd lines (room_find rooms c.state.room_id)
