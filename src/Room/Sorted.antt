-- ===== src/Room/Sorted.antt =====
-- The published rows are in order.
use corestack.Prelude.{
  ℕ, zero, suc, ◌≡◌, sym, inl, inr, arith, Bool, true, false, List, [], ◌∷◌, take, Bool-cases,
}
use mathlib.Core.Path.{subst}
use corestack.Brain.Model.{PlayerStanding}
use corestack.Room.Model.{Client, Room}
use corestack.Room.Compare.{ltb_ℤ-asym, eq_ℤ-sym}
use corestack.Room.Board.{max_standings, insert, insert_all, rows}
use corestack.Room.Top.{place_all-top}
use corestack.Room.Rank.{
  standing_ranks_before, no_standing, joined_before, no_member, room_standings, room_roster,
}

module _ {ℓ} {A : Type ℓ} (before : A → A → Bool) where
  abbrev pub Under : A → List A → Type 0
  Under x [] = Unit
  Under x (y ∷ ys) = before y x ≡ false

  -- No row ranks before the one above it.
  abbrev pub Ranked : List A → Type 0
  Ranked [] = Unit
  Ranked (x ∷ ys) = Under x ys × Ranked ys

  Ranked-take : (n : ℕ) (l : List A) → Ranked l → Ranked (take n l)
  Ranked-take zero l r = tt
  Ranked-take (suc n) [] r = tt
  Ranked-take (suc zero) (x ∷ ys) r = (tt, tt)
  Ranked-take (suc (suc n)) (x ∷ []) r = (tt, tt)
  Ranked-take (suc (suc n)) (x ∷ y ∷ ys) r = (r.0, Ranked-take (suc n) (y ∷ ys) r.1)

  module _ (asym : (x y : A) → before x y ≡ true → before y x ≡ false) where
    insert-Under :
        (x y : A) (ys : List A) → before y x ≡ true → Under y ys → Under y (insert before x ys)
    unfolding insert
    insert-Under x y [] e u = asym y x e
    insert-Under x y (z ∷ zs) e u = elim (Bool-cases (before z x)) [
      | inl f ↦ rw f u
      | inr f ↦ rw f (asym y x e)
    ]

    insert-Ranked : (x : A) (ys : List A) → Ranked ys → Ranked (insert before x ys)
    unfolding insert
    insert-Ranked x [] r = (tt, tt)
    insert-Ranked x (y ∷ ys) r = elim (Bool-cases (before y x)) [
      | inl e ↦ rw e (insert-Under x y ys e r.0, insert-Ranked x ys r.1)
      | inr e ↦ rw e (e, r)
    ]

    insert_all-Ranked : (xs ys : List A) → Ranked ys → Ranked (insert_all before xs ys)
    unfolding insert_all
    insert_all-Ranked [] ys r = r
    insert_all-Ranked (x ∷ xs) ys r =
        insert_all-Ranked xs (insert before x ys) (insert-Ranked x ys r)

    rows-Ranked : (d : A) (xs : List A) → Ranked (rows before d xs)
    rows-Ranked d xs =
        subst Ranked (sym (place_all-top before d xs))
          (Ranked-take max_standings (insert_all before xs []) (insert_all-Ranked xs [] tt))

standings-asym :
    (x y : PlayerStanding) → standing_ranks_before x y ≡ true → standing_ranks_before y x ≡ false
unfolding standing_ranks_before
standings-asym x y e = ground (
  arith,
  eq_ℤ-sym x.score y.score,
  ltb_ℤ-asym y.score x.score,
  ltb_ℤ-asym x.player_id y.player_id,
)

-- The published scoreboard is in order: no row ranks before the one above it.
pub room_standings-Ranked :
    (clients : List Client) (r : Room) → Ranked standing_ranks_before (room_standings clients r)
unfolding room_standings
room_standings-Ranked clients r = rows-Ranked standing_ranks_before standings-asym no_standing _

-- The published roster is in the order in which the members joined.
pub room_roster-Ranked :
    (clients : List Client) (r : Room) → Ranked joined_before (room_roster clients r)
unfolding room_roster
room_roster-Ranked clients r =
    rows-Ranked joined_before (λ x y. ltb_ℤ-asym x.player_id y.player_id) no_member _
