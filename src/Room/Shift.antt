-- ===== src/Room/Shift.antt =====
-- The array that the bounded insertion leaves, against an insertion into a list.
use mathlib.Core.List.{append_assoc}
use corestack.Prelude.{
  ℕ, zero, suc, ◌+◌, ◌-◌, ◌≤◌, ◌<◌, ◌≡◌, refl, sym, ap, ◌∙◌, arith, Bool, inl, inr, List, [], ◌∷◌,
  ◌++◌, length, length-set, get_or, set, take, drop, Bool-cases,
}
use corestack.Room.Board.{shift_down, position, insert}

module _ {ℓ} {A : Type ℓ} where
  take-set : (n i : ℕ) (a : List A) (v : A) → n ≤ i → take n (set a i v) ≡ take n a
  take-set zero i a v le = refl
  take-set (suc n) i [] v le = refl
  take-set (suc n) zero (x ∷ a) v le = absurd (omega arith)
  take-set (suc n) (suc i) (x ∷ a) v le = ap (λ t. x ∷ t) (take-set n i a v (omega arith))

  drop-set : (n : ℕ) (a : List A) (v : A) → n < length a → drop n (set a n v) ≡ v ∷ drop (suc n) a
  drop-set n [] v lt = absurd (omega arith)
  drop-set zero (x ∷ a) v lt = refl
  drop-set (suc n) (x ∷ a) v lt = drop-set n a v (omega arith)

  take-suc :
      (n : ℕ) (a : List A) (d : A) → n < length a → take (suc n) a ≡ take n a ++ (get_or a n d ∷ [])
  take-suc n [] d lt = absurd (omega arith)
  take-suc zero (x ∷ a) d lt = refl
  take-suc (suc n) (x ∷ a) d lt = ap (λ t. x ∷ t) (take-suc n a d (omega arith))

  pub take-take : (i j : ℕ) (a : List A) → i ≤ j → take i (take j a) ≡ take i a
  take-take zero j a le = refl
  take-take (suc i) zero a le = absurd (omega arith)
  take-take (suc i) (suc j) [] le = refl
  take-take (suc i) (suc j) (x ∷ a) le = ap (λ t. x ∷ t) (take-take i j a (omega arith))

  pub take_long : (i : ℕ) (a : List A) → length a ≤ i → take i a ≡ a
  take_long zero [] le = refl
  take_long zero (x ∷ a) le = absurd (omega arith)
  take_long (suc i) [] le = refl
  take_long (suc i) (x ∷ a) le = ap (λ t. x ∷ t) (take_long i a (omega arith))

  take-nil : (i : ℕ) → take {A = A} i [] ≡ []
  take-nil zero = refl
  take-nil (suc i) = refl

  pub drop-take : (p c : ℕ) (a : List A) → p ≤ c → drop p (take c a) ≡ take (c - p) (drop p a)
  drop-take zero c a le = ap (λ i. take i a) (omega arith)
  drop-take (suc p) zero a le = absurd (omega arith)
  drop-take (suc p) (suc c) [] le = sym (take-nil (suc c - suc p))
  drop-take (suc p) (suc c) (x ∷ a) le =
      drop-take p c a (omega arith) ∙ ap (λ i. take i (drop p a)) (omega arith)

  -- A row stands behind `u`, and `m` reaches past it.
  pub take-middle :
      (m : ℕ) (u : List A) (x : A) (w : List A)
      → length u < m
      → take m (u ++ (x ∷ w)) ≡ u ++ (x ∷ take (m - suc (length u)) w)
  take-middle zero u x w lt = absurd (omega arith)
  take-middle (suc m) [] x w lt = ap (λ i. x ∷ take i w) (omega arith)
  take-middle (suc m) (y ∷ u) x w lt =
      ap (λ t. y ∷ t)
        (take-middle m u x w (omega arith) ∙ ap (λ i. u ++ (x ∷ take i w)) (omega arith))

module _ {ℓ} {A : Type ℓ} (d : A) where
  shift_down-cons :
      (n pos : ℕ) (y : A) (a : List A) → shift_down d (y ∷ a) (suc pos) n ≡ y ∷ shift_down d a pos n
  unfolding shift_down
  shift_down-cons zero pos y a = refl
  shift_down-cons (suc n) pos y a =
      let write : suc pos + suc n ≡ suc (pos + suc n) = omega arith in
      let read : suc pos + n ≡ suc (pos + n) = omega arith in
      rw (write, read) (shift_down-cons n pos y (set a (pos + suc n) (get_or a (pos + n) d)))

  -- The cells from 0 move one place on.
  shift_down-front :
      (n : ℕ) (x : A) (a : List A)
      → n < length a
      → set (shift_down d a 0 n) 0 x ≡ x ∷ (take n a ++ drop (suc n) a)
  unfolding shift_down
  shift_down-front zero x [] lt = absurd (omega arith)
  shift_down-front zero x (y ∷ a) lt = refl
  shift_down-front (suc n) x a lt =
      let write : 0 + suc n ≡ suc n = omega arith in
      let read : 0 + n ≡ n = omega arith in
      let b = set a (suc n) (get_or a n d) in
      rw (write, read)
        (shift_down-front n x b (omega (arith, length-set a (suc n) (get_or a n d)))
          ∙ ap (λ l. x ∷ l)
              (rw
                (
                  take-set n (suc n) a (get_or a n d) (omega arith),
                  drop-set (suc n) a (get_or a n d) lt,
                  take-suc n a d (omega arith),
                )
                (sym (append_assoc (take n a) (get_or a n d ∷ []) (drop (suc (suc n)) a)))))

  -- A row is put at `pos`, and the `n` cells from there on move one place on.
  pub shift_down-at :
      (pos n : ℕ) (x : A) (a : List A)
      → pos + n < length a
      → set (shift_down d a pos n) pos x
        ≡ take pos a ++ (x ∷ (take n (drop pos a) ++ drop (suc n) (drop pos a)))
  shift_down-at zero n x a lt = shift_down-front n x a (omega arith)
  shift_down-at (suc pos) n x [] lt = absurd (omega arith)
  shift_down-at (suc pos) n x (y ∷ a) lt =
      rw (shift_down-cons n pos y a) (ap (λ l. y ∷ l) (shift_down-at pos n x a (omega arith)))

module _ {ℓ} {A : Type ℓ} (before : A → A → Bool) where
  pub position-le : (x : A) (ys : List A) → position before x ys ≤ length ys
  unfolding position
  position-le x [] = omega arith
  position-le x (y ∷ ys) = ground (arith, position-le x ys)

  -- An insertion puts the row at the place that the scan finds.
  pub insert-position :
      (x : A) (ys : List A)
      → insert before x ys ≡ take (position before x ys) ys ++ (x ∷ drop (position before x ys) ys)
  unfolding position insert
  insert-position x [] = refl
  insert-position x (y ∷ ys) = elim (Bool-cases (before y x)) [
    | inl e ↦ rw e (ap (λ l. y ∷ l) (insert-position x ys))
    | inr e ↦ rw e refl
  ]

  take-cons-take : (m : ℕ) (y : A) (ys : List A) → take m (y ∷ ys) ≡ take m (y ∷ take m ys)
  take-cons-take zero y ys = refl
  take-cons-take (suc k) y ys = ap (λ l. y ∷ l) (sym (take-take k (suc k) ys (omega arith)))

  -- The first `m` of an insertion come from the first `m` that were there.
  pub take-insert :
      (m : ℕ) (x : A) (ys : List A)
      → take m (insert before x ys) ≡ take m (insert before x (take m ys))
  unfolding insert
  take-insert zero x ys = refl
  take-insert (suc m) x [] = refl
  take-insert (suc m) x (y ∷ ys) = elim (Bool-cases (before y x)) [
    | inl e ↦ rw e (ap (λ l. y ∷ l) (take-insert m x ys))
    | inr e ↦ rw e (ap (λ l. x ∷ l) (take-cons-take m y ys))
  ]
