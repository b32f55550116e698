-- ===== src/Room/Top.antt =====
-- The scoreboard and the roster are the first eight rows of the whole ranking.
use corestack.Prelude.{
  ℕ, zero, suc, ◌+◌, ◌-◌, ◌≤◌, ◌<◌, ◌≡◌, refl, sym, ap, ◌∙◌, arith, Bool, true, false, inl, inr,
  List, [], ◌∷◌, ◌++◌, ltb, leb, if◌then◌else◌, length, length-set, length-take, length-drop,
  ltb→lt, leb→le, replicate, get_or, set, take, drop, Bool-cases,
}
use corestack.Room.Board.{
  max_standings, Kept, shift_down, position, place, place_all, rows, insert, insert_all,
}
use corestack.Room.Shift.{
  shift_down-at, position-le, insert-position, take-insert, take-middle, take-take, take_long,
  drop-take,
}

module _ {ℓ} {A : Type ℓ} (before : A → A → Bool) (d : A) where
  pub record IsKept (k : Kept A) : Type ℓ where
    pub slots : length k.slots ≡ max_standings
    pub room : k.count ≤ max_standings

  abbrev entries : Kept A → List A
  entries k = take k.count k.slots

  -- The place of the last entry after a row was put in.
  abbrev last_of : ℕ → ℕ
  last_of count = if ltb count max_standings then count else max_standings - 1

  last_of-bounds :
      (count pos : ℕ)
      → pos ≤ count
      → pos < max_standings
      → count ≤ max_standings
      → (pos + (last_of count - pos) < max_standings)
        × ((if ltb count max_standings then count + 1 else count) ≡ suc (last_of count))
        × (pos ≤ last_of count)
  last_of-bounds count pos le lt room = ground arith

  take-prefix : (n : ℕ) (t r : List A) → length t ≡ n → take n (t ++ r) ≡ t
  take-prefix zero [] r e = refl
  take-prefix zero (y ∷ t) r e = absurd (omega arith)
  take-prefix (suc n) [] r e = absurd (omega arith)
  take-prefix (suc n) (y ∷ t) r e = ap (λ l. y ∷ l) (take-prefix n t r (omega arith))

  inserted : A → Kept A → ℕ → Kept A
  inserted x k pos = record {
    slots = set (shift_down d k.slots pos (last_of k.count - pos)) pos x;
    count = if ltb k.count max_standings then k.count + 1 else k.count;
  }

  place-full :
      (x : A) (k : Kept A)
      → leb max_standings (position before x (entries k)) ≡ true
      → place before d x k ≡ k
  unfolding place
  place-full x k e = rw (e, place) refl

  place-in :
      (x : A) (k : Kept A)
      → leb max_standings (position before x (entries k)) ≡ false
      → place before d x k ≡ inserted x k (position before x (entries k))
  unfolding place inserted
  place-in x k e = rw (e, place) refl

  entries-inserted :
      (x : A) (k : Kept A) (pos : ℕ)
      → IsKept k
      → pos ≤ k.count
      → pos < max_standings
      → entries (inserted x k pos)
        ≡ take pos k.slots ++ (x ∷ take (last_of k.count - pos) (drop pos k.slots))
  unfolding inserted
  entries-inserted x k pos i le lt =
      let n = last_of k.count - pos in
      let b = last_of-bounds k.count pos le lt i.room in
      let u = take pos k.slots in
      let r = drop pos k.slots in
      let lu : length u ≡ pos = omega (arith, length-take pos k.slots, i.slots) in
      let lt_n : length (take n r) ≡ n =
        omega (arith, length-take n r, length-drop pos k.slots, i.slots, b.0) in
      rw (b.1, shift_down-at d pos n x k.slots (omega (arith, i.slots, b.0)))
        (take-middle (suc (last_of k.count)) u x (take n r ++ drop (suc n) r)
            (omega (arith, lu, b.2))
          ∙ ap (λ l. u ++ (x ∷ l))
              (ap (λ m. take m (take n r ++ drop (suc n) r)) (omega (arith, lu))
                ∙ take-prefix n (take n r) (drop (suc n) r) lt_n))

  take-split :
      (x : A) (k : Kept A) (pos : ℕ)
      → IsKept k
      → pos ≤ k.count
      → pos < max_standings
      → take max_standings (take pos (entries k) ++ (x ∷ drop pos (entries k)))
        ≡ take pos k.slots ++ (x ∷ take (last_of k.count - pos) (drop pos k.slots))
  take-split x k pos i le lt =
      let u = take pos k.slots in
      let r = drop pos k.slots in
      let lu : length u ≡ pos = omega (arith, length-take pos k.slots, i.slots) in
      rw (take-take pos k.count k.slots le, drop-take pos k.count k.slots le)
        (take-middle max_standings u x (take (k.count - pos) r) (omega (arith, lu))
          ∙ ap (λ l. u ++ (x ∷ l))
              (ap (λ m. take m (take (k.count - pos) r)) (omega (arith, lu))
                ∙ seven k.count pos r i.room le lt))
    where
      seven :
          (count pos : ℕ) (r : List A)
          → count ≤ max_standings
          → pos ≤ count
          → pos < max_standings
          → take (7 - pos) (take (count - pos) r) ≡ take (last_of count - pos) r
      seven count pos r room le lt = elim (Bool-cases (ltb count max_standings)) [
        | inl e ↦ rw e (
            take_long (7 - pos) (take (count - pos) r)
              (omega (arith, length-take (count - pos) r, ltb→lt count max_standings e)))
        | inr e ↦ rw e (take-take (7 - pos) (count - pos) r (ground arith))
      ]

  length-shift_down : (n pos : ℕ) (a : List A) → length (shift_down d a pos n) ≡ length a
  unfolding shift_down
  length-shift_down zero pos a = refl
  length-shift_down (suc n) pos a =
      length-shift_down n pos (set a (pos + suc n) (get_or a (pos + n) d))
      ∙ length-set a (pos + suc n) (get_or a (pos + n) d)

  inserted-IsKept : (x : A) (k : Kept A) (pos : ℕ) → IsKept k → IsKept (inserted x k pos)
  unfolding inserted
  inserted-IsKept x k pos i = record {
    slots =
        length-set (shift_down d k.slots pos (last_of k.count - pos)) pos x
        ∙ length-shift_down (last_of k.count - pos) pos k.slots
        ∙ i.slots;
    room = ground (arith, i.room);
  }

  -- One row: the array stays an array of eight, and the entries in use are the first eight of an
  -- insertion.
  place-top :
      (x : A) (k : Kept A)
      → IsKept k
      → IsKept (place before d x k)
        × (entries (place before d x k) ≡ take max_standings (insert before x (entries k)))
  place-top x k i =
      let pos = position before x (entries k) in
      let le : pos ≤ k.count =
        omega (arith, position-le before x (entries k), length-take k.count k.slots) in
      let split = insert-position before x (entries k) in
      elim (Bool-cases (leb max_standings pos)) [
        | inl e ↦
            let p : pos ≡ max_standings = omega (arith, leb→le max_standings pos e, i.room, le) in
            rw (place-full x k e) (
              i,
              sym (
                  ap (take max_standings) split
                  ∙ rw p (
                      full_top x (entries k)
                        (omega (arith, length-take k.count k.slots, i.room, i.slots, le, p)))),
            )
        | inr e ↦
            let lt : pos < max_standings = ground arith in
            rw (place-in x k e) (
              inserted-IsKept x k pos i,
              entries-inserted x k pos i le lt
                  ∙ sym (take-split x k pos i le lt)
                  ∙ sym (ap (take max_standings) split),
            )
      ]
    where
      full_top :
          (x : A) (e : List A)
          → length e ≡ max_standings
          → take max_standings (take max_standings e ++ (x ∷ drop max_standings e)) ≡ e
      full_top x e l =
          take-prefix max_standings (take max_standings e) (x ∷ drop max_standings e)
            (omega (arith, length-take max_standings e))
          ∙ take_long max_standings e (omega arith)

  place_all-from :
      (xs : List A) (k : Kept A) (ys : List A)
      → IsKept k
      → entries k ≡ take max_standings ys
      → entries (place_all before d xs k) ≡ take max_standings (insert_all before xs ys)
  unfolding place_all insert_all
  place_all-from [] k ys i e = e
  place_all-from (x ∷ xs) k ys i e =
      let p = place-top x k i in
      place_all-from xs (place before d x k) (insert before x ys) p.0 (
        p.1
        ∙ ap (λ l. take max_standings (insert before x l)) e
        ∙ sym (take-insert before max_standings x ys))

  empty-IsKept : IsKept (record { slots = replicate max_standings d; count = 0 })
  empty-IsKept = record { slots = refl; room = omega arith }

  -- However many members a room has, the rows that are published are the first eight of the ranking
  -- of them all.
  pub place_all-top :
      (xs : List A) → rows before d xs ≡ take max_standings (insert_all before xs [])
  unfolding rows
  place_all-top xs =
      place_all-from xs (record { slots = replicate max_standings d; count = 0 }) [] empty-IsKept
        refl
