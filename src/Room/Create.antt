-- ===== src/Room/Create.antt =====
-- The number of a new room, and the members of a room.
use corestack.Prelude.{
  ℕ, zero, suc, ◌+◌, ◌-◌, ◌≤◌, ◌<◌, ◌≡◌, refl, ap, ◌∙◌, arith, inl, inr, true, false, List, [], ◌∷◌,
  some, ℤ, pos, negsuc, if◌then◌else◌, length, Bool-cases,
}
use corestack.Room.Model.{Room, eq_ℤ, ltb_ℤ}
use corestack.Room.Table.{with_id, room_find, taken, free_id}

-- How many of the `n` numbers from `c` on are taken.
unfoldable pub taken_from : List Room → ℕ → ℕ → ℕ
taken_from rs c zero = 0
taken_from rs c (suc n) = (if taken rs c then 1 else 0) + taken_from rs (c + 1) n

abbrev hits : ℤ → ℕ → ℕ → ℕ
hits id c zero = 0
hits id c (suc n) = (if eq_ℤ id (pos c) then 1 else 0) + hits id (c + 1) n

taken-cons :
    (r : Room) (rs : List Room) (c : ℕ)
    → (if taken (r ∷ rs) c then 1 else 0)
      ≤ (if eq_ℤ r.id (pos c) then 1 else 0) + (if taken rs c then 1 else 0)
unfolding room_find with_id
taken-cons r rs c = elim (Bool-cases (ltb_ℤ (pos 0) (pos c))) [
  | inl e ↦ elim (Bool-cases (eq_ℤ r.id (pos c))) [
    | inl f ↦ rw (e, f) (omega arith)
    | inr f ↦ rw (e, f) (omega arith)
  ]
  | inr e ↦ rw e (omega arith)
]

hits-none : (id c n : ℕ) → id < c → hits (pos id) c n ≡ 0
hits-none id c zero lt = refl
hits-none id c (suc n) lt = ground (arith, hits-none id (c + 1) n)

hits-le : (id : ℤ) (c n : ℕ) → hits id c n ≤ 1
hits-le id c zero = omega arith
hits-le (pos id) c (suc n) = ground (arith, hits-le (pos id) (c + 1) n, hits-none id (c + 1) n)
hits-le (negsuc id) c (suc n) = omega (arith, hits-le (negsuc id) (c + 1) n)

taken_from-cons :
    (r : Room) (rs : List Room) (c n : ℕ)
    → taken_from (r ∷ rs) c n ≤ hits r.id c n + taken_from rs c n
unfolding taken_from
taken_from-cons r rs c zero = omega arith
taken_from-cons r rs c (suc n) = omega (arith, taken-cons r rs c, taken_from-cons r rs (c + 1) n)

taken-nil : (c : ℕ) → taken [] c ≡ false
unfolding room_find with_id
taken-nil c = elim (Bool-cases (ltb_ℤ (pos 0) (pos c))) [ inl e ↦ rw e refl | inr e ↦ rw e refl ]

taken_from-nil : (c n : ℕ) → taken_from [] c n ≡ 0
unfolding taken_from
taken_from-nil c zero = refl
taken_from-nil c (suc n) = rw (taken-nil c) (omega (arith, taken_from-nil (c + 1) n))

taken_from-le : (rs : List Room) (c n : ℕ) → taken_from rs c n ≤ length rs
taken_from-le [] c n = omega (arith, taken_from-nil c n)
taken_from-le (r ∷ rs) c n =
    omega (arith, taken_from-cons r rs c n, hits-le r.id c n, taken_from-le rs c n)

-- The search ends with a number that is free, and no smaller candidate is.
pub record Smallest (rs : List Room) (from : ℕ) (id : ℕ) : Type 0 where
  pub least : from ≤ id
  pub free : taken rs id ≡ false
  pub below : taken_from rs from (id - from) ≡ id - from

search :
    (fuel : ℕ) (rs : List Room) (c : ℕ)
    → taken_from rs c fuel < fuel
    → (id : ℕ) × (free_id fuel rs c ≡ some id) × Smallest rs c id
unfolding taken_from free_id
search zero rs c lt = absurd (omega arith)
search (suc fuel) rs c lt = elim (Bool-cases (taken rs c)) [
  | inl e ↦
      let (id, found, s) = search fuel rs (c + 1) (ground arith) in
      (
        id,
        rw e found,
        record { least = omega (arith, s.least); free = s.free; below = one_more id e s },
      )
  | inr e ↦ (c, rw e refl, record { least = omega arith; free = e; below = none_below c })
]
  where
    none_below : (c : ℕ) → taken_from rs c (c - c) ≡ c - c
    none_below c = let z : c - c ≡ 0 = omega arith in rw z refl

    one_more :
        (id : ℕ) → taken rs c ≡ true → Smallest rs (c + 1) id → taken_from rs c (id - c) ≡ id - c
    one_more id e s =
        let k : id - c ≡ suc (id - (c + 1)) = omega (arith, s.least) in
        ap (taken_from rs c) k ∙ rw e (omega (arith, s.below, s.least))

-- The search for a number ends, with a number that is free and below which, from 1 on, every number
-- is taken.
pub free_id-Smallest :
    (rs : List Room) → (id : ℕ) × (free_id (suc (length rs)) rs 1 ≡ some id) × Smallest rs 1 id
free_id-Smallest rs =
    search (suc (length rs)) rs 1 (omega (arith, taken_from-le rs 1 (suc (length rs))))
