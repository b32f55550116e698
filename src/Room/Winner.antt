-- ===== src/Room/Winner.antt =====
-- The winner of a round is the first row of the scoreboard.
use corestack.Prelude.{
  ◌&&◌, ◌||◌, not, ◌≡◌, refl, sym, ap, ◌∙◌, ◌⊎◌, inl, inr, arith, Bool, true, false, List, [], ◌∷◌,
  map, ℤ, pos, negsuc, if◌then◌else◌, take, Bool-cases,
}
use corestack.Brain.Model.{PlayerStanding}
use corestack.Room.Model.{Client, Room, eq_ℤ, ltb_ℤ}
use corestack.Room.Board.{max_standings, insert, insert_all}
use corestack.Room.Top.{place_all-top}
use corestack.Room.Rank.{
  standing_ranks_before, standing_of, no_standing, best_of, winner_of, member_clients,
  room_standings,
}

abbrev Less : ℤ → ℤ → Type 0
Less a b = (ltb_ℤ a b ≡ true) × (ltb_ℤ b a ≡ false) × (eq_ℤ a b ≡ false) × (eq_ℤ b a ≡ false)

abbrev Same : ℤ → ℤ → Type 0
Same a b =
    (a ≡ b) × (ltb_ℤ a b ≡ false) × (ltb_ℤ b a ≡ false) × (eq_ℤ a b ≡ true) × (eq_ℤ b a ≡ true)

ltb_ℤ-cases : (a b : ℤ) → Less a b ⊎ Same a b ⊎ Less b a
ltb_ℤ-cases (pos a) (pos b) = ground arith
ltb_ℤ-cases (negsuc a) (negsuc b) = ground arith
ltb_ℤ-cases (pos a) (negsuc b) = inr (inr (refl, refl, refl, refl))
ltb_ℤ-cases (negsuc a) (pos b) = inl (refl, refl, refl, refl)

-- The two tests of a row (first) and a member (second), by score and then by id.
abbrev ranks : ℤ → ℤ → ℤ → ℤ → Bool
ranks hs hi xs xi = if not (eq_ℤ hs xs) then ltb_ℤ xs hs else ltb_ℤ hi xi

abbrev takes : ℤ → ℤ → ℤ → ℤ → Bool
takes hs hi xs xi = ltb_ℤ hs xs || eq_ℤ xs hs && ltb_ℤ xi hi

tests-agree :
    (hs hi xs xi : ℤ)
    → ((ranks hs hi xs xi ≡ true) × (takes hs hi xs xi ≡ false))
      ⊎ ((ranks hs hi xs xi ≡ false) × (takes hs hi xs xi ≡ true))
      ⊎ ((ranks hs hi xs xi ≡ false) × (takes hs hi xs xi ≡ false) × (hs ≡ xs) × (hi ≡ xi))
tests-agree hs hi xs xi = elim (ltb_ℤ-cases hs xs) [
  | inl l ↦ inr (inl (simp (l.1, l.2), simp (l.0, l.3)))
  | inr (inl s) ↦ elim (ltb_ℤ-cases hi xi) [
    | inl l ↦ inl (simp (l.0, s.3), simp (l.1, s.1, s.4))
    | inr (inl t) ↦ inr (inr (simp (t.1, s.3), simp (t.2, s.1, s.4), s.0, t.0))
    | inr (inr l) ↦ inr (inl (simp (l.1, s.3), simp (l.0, s.1, s.4)))
  ]
  | inr (inr l) ↦ inl (simp (l.0, l.3), simp (l.1, l.2))
]

-- Score and id of the first row.
abbrev pub first_of : ℤ × ℤ → List PlayerStanding → ℤ × ℤ
first_of none_yet [] = none_yet
first_of none_yet (h ∷ t) = (h.score, h.player_id)

abbrev pub ranking : List Client → List PlayerStanding → List PlayerStanding
ranking ms ys = insert_all standing_ranks_before (map standing_of ms) ys

best_of-step :
    (m : Client) (h : PlayerStanding) (t : List PlayerStanding) (none_yet : ℤ × ℤ)
    → first_of none_yet (insert standing_ranks_before (standing_of m) (h ∷ t)) ≡ (
        if takes h.score h.player_id m.score m.state.player_id
        then (m.score, m.state.player_id)
        else (h.score, h.player_id))
unfolding insert standing_ranks_before
best_of-step m h t none_yet = elim (tests-agree h.score h.player_id m.score m.state.player_id) [
  | inl r ↦ simp (r.0, r.1)
  | inr (inl r) ↦ simp (r.0, r.1)
  | inr (inr r) ↦ simp (r.0, r.1) cc
]

insert-cons :
    (x h : PlayerStanding) (t : List PlayerStanding)
    → (y : PlayerStanding) × (ys : List PlayerStanding) × (insert standing_ranks_before x (h ∷ t)
        ≡ y ∷ ys)
unfolding insert
insert-cons x h t = elim (Bool-cases (standing_ranks_before h x)) [
  | inl e ↦ (h, insert standing_ranks_before x t, rw e refl)
  | inr e ↦ (x, h ∷ t, rw e refl)
]

-- From a first row on, the loop for the winner and the ranking keep the same best.
best_of-first :
    (ms : List Client) (h : PlayerStanding) (t : List PlayerStanding) (none_yet : ℤ × ℤ)
    → best_of (h.score, h.player_id) ms ≡ first_of none_yet (ranking ms (h ∷ t))
unfolding best_of insert_all
best_of-first [] h t none_yet = refl
best_of-first (m ∷ ms) h t none_yet =
    let (y, ys, e) = insert-cons (standing_of m) h t in
    let step : (y.score, y.player_id) ≡ (
        if takes h.score h.player_id m.score m.state.player_id
        then (m.score, m.state.player_id)
        else (h.score, h.player_id)) =
      ap (first_of none_yet) (sym e) ∙ best_of-step m h t none_yet in
    ap (λ b. best_of b ms) (sym step)
    ∙ best_of-first ms y ys none_yet
    ∙ ap (λ l. first_of none_yet (ranking ms l)) (sym e)

-- No score is below 0.
abbrev pub AllScored : List Client → Type 0
AllScored [] = Unit
AllScored (m ∷ ms) = (ltb_ℤ m.score (pos 0) ≡ false) × AllScored ms

above_none : (s : ℤ) → ltb_ℤ s (pos 0) ≡ false → ltb_ℤ (negsuc 0) s ≡ true
above_none (pos n) e = refl
above_none (negsuc n) e = cc

first_of-take :
    (none_yet : ℤ × ℤ) (l : List PlayerStanding)
    → first_of none_yet (take max_standings l) ≡ first_of none_yet l
first_of-take none_yet [] = refl
first_of-take none_yet (h ∷ t) = refl

winner-ranking :
    (ms : List Client)
    → AllScored ms
    → best_of (negsuc 0, negsuc 0) ms ≡ first_of (negsuc 0, negsuc 0) (ranking ms [])
unfolding best_of insert_all insert
winner-ranking [] a = refl
winner-ranking (m ∷ ms) a =
    rw (above_none m.score a.0) (best_of-first ms (standing_of m) [] (negsuc 0, negsuc 0))

-- Where no member's score is below 0, the winner that a round's end announces is the player in the
-- first row of the scoreboard, or -1 where the room has no member.
pub winner_of-first :
    (clients : List Client) (r : Room)
    → AllScored (member_clients clients r.members)
    → winner_of (member_clients clients r.members)
      ≡ (first_of (negsuc 0, negsuc 0) (room_standings clients r)).1
unfolding winner_of room_standings
winner_of-first clients r a =
    let ms = member_clients clients r.members in
    ap (λ p. p.1)
      (winner-ranking ms a
        ∙ sym (first_of-take (negsuc 0, negsuc 0) (ranking ms []))
        ∙ ap (first_of (negsuc 0, negsuc 0))
            (sym (place_all-top standing_ranks_before no_standing (map standing_of ms))))
