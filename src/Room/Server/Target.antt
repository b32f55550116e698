-- ===== src/Room/Server/Target.antt =====
-- Whom the rows hit that a player earned: the GARBAGE command of room.c.
use corestack.Prelude.{
  ◌≡◌, ◌⊎◌, true, false, List, [], ◌∷◌, ◌++◌, none, some, ℤ, pos, negsuc, ◌==◌, if◌then◌else◌,
}
use corestack.Room.Model.{is_playing, room_none, Client, Room, eq_ℤ, ltb_ℤ}
use corestack.Room.Over.{IsIn}
use corestack.Room.Rank.{client_find}
use corestack.Room.Table.{room_find, mark_wedged}
use corestack.Room.Attack.{Aim}
use corestack.Room.Server.{admin_recv_garbage, Server}

-- Another member, that is still playing.
pub record IsVictim (clients : List Client) (sender : ℤ) (members : List ℤ) (fd : ℤ) : Type 0 where
  pub member : IsIn fd members
  pub other : eq_ℤ fd sender ≡ false
  pub victim : Client
  pub found : client_find clients fd ≡ some victim
  pub plays : is_playing victim.state.phase ≡ true

-- No other member is still playing.
abbrev pub NoVictim : List Client → ℤ → List ℤ → Type 0
NoVictim clients sender [] = Unit
NoVictim clients sender (fd ∷ fds) =
    ((t : Client)
      → client_find clients fd ≡ some t
      → eq_ℤ fd sender ≡ false
      → is_playing t.state.phase ≡ false)
    × NoVictim clients sender fds

module _ (clients : List Client) (sender : ℤ) (members : List ℤ) where
  abbrev Victim : ℤ → Type 0
  Victim fd = IsVictim clients sender members fd

  -- Nobody is aimed at yet, or the aim is at a member that can be hit.
  abbrev Aimed : Aim → Type 0
  Aimed a =
      ((a.count ≡ 0) × (eq_ℤ a.best (negsuc 0) ≡ true))
      ⊎ (((a.count == 0) ≡ false) × Victim a.target)

  -- The loop over the rest of the members leaves nobody aimed at only where nobody can be hit.
  abbrev Chosen : List ℤ → Aim → Type 0
  Chosen fds r =
      ((r.count ≡ 0) × NoVictim clients sender fds) ⊎ (((r.count == 0) ≡ false) × Victim r.target)

  abbrev Loops : List ℤ → Aim → Aim → Type 0
  Loops fds a r = Chosen fds r × (((a.count == 0) ≡ false) → (r.count == 0) ≡ false)

-- What a GARBAGE command of `c` comes to: the rows go to one other member of its room that is still
-- playing, or nothing happens where there is none, where `c` is in no room, or where no row is sent.
pub data Hits (s : Server) (c : Client) (lines : ℤ) : Server → Type 0 where
  outside : eq_ℤ c.state.room_id room_none ≡ true → Hits s c lines s
  no_rows : ltb_ℤ (pos 0) lines ≡ false → Hits s c lines s
  no_such_room : room_find s.rooms c.state.room_id ≡ none → Hits s c lines s
  nobody :
      (r : Room)
      → room_find s.rooms c.state.room_id ≡ some r
      → NoVictim s.clients c.fd r.members
      → Hits s c lines s
  one :
      (r : Room) (fd : ℤ)
      → eq_ℤ c.state.room_id room_none ≡ false
      → ltb_ℤ (pos 0) lines ≡ true
      → room_find s.rooms c.state.room_id ≡ some r
      → IsVictim s.clients c.fd r.members fd
      → Hits s c lines (record s {
        wedged = if s.blocks s.sent fd then mark_wedged s.wedged fd else s.wedged;
        sent = s.sent ++ ((fd, admin_recv_garbage lines) ∷ []);
      })
