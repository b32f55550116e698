-- ===== src/Room/Members.antt =====
-- The members of a room when one leaves, and the list of wedged sessions.
use corestack.Prelude.{
  ℕ, ◌+◌, ◌-◌, ◌≤◌, ◌≡◌, refl, sym, ap, ◌∙◌, arith, inl, inr, false, List, [], ◌∷◌, ◌++◌, ℤ, ltb,
  ltb→lt, if◌then◌else◌, length, length-append, Bool-cases,
}
use corestack.Room.Model.{eq_ℤ}
use corestack.Room.Compare.{eq_ℤ-eq, eq_ℤ_turn, eq_ℤ_other}
use corestack.Room.Table.{split_last, drop_first, swap_remove, listed, wedged_max, mark_wedged}

-- How often a descriptor stands in a list.
unfoldable pub occurs : ℤ → List ℤ → ℕ
occurs y [] = 0
occurs y (x ∷ xs) = (if eq_ℤ x y then 1 else 0) + occurs y xs

occurs-split_last :
    (y x : ℤ) (xs : List ℤ)
    → (if eq_ℤ (split_last x xs).0 y then 1 else 0) + occurs y (split_last x xs).1
      ≡ (if eq_ℤ x y then 1 else 0) + occurs y xs
unfolding occurs
occurs-split_last y x [] = refl
occurs-split_last y x (z ∷ zs) = omega (arith, occurs-split_last y z zs)

occurs-drop_first : (y : ℤ) (xs : List ℤ) → occurs y (drop_first xs) ≡ occurs y xs
unfolding occurs
occurs-drop_first y [] = refl
occurs-drop_first y (x ∷ xs) = occurs-split_last y x xs

-- Taking a member out of a room takes one entry of that member, where there is one, and leaves those
-- of every other member as often as they were there.
pub occurs-swap_remove :
    (fd y : ℤ) (xs : List ℤ)
    → occurs y (swap_remove fd xs) ≡ (if eq_ℤ y fd then occurs y xs - 1 else occurs y xs)
unfolding occurs swap_remove
occurs-swap_remove fd y [] = ground arith
occurs-swap_remove fd y (x ∷ xs) = elim (Bool-cases (eq_ℤ x fd)) [
  | inl e ↦ rw e (occurs-drop_first y xs ∙ ground (arith, eq_ℤ_turn x y fd e))
  | inr e ↦ rw e (ground (arith, occurs-swap_remove fd y xs, eq_ℤ_other x y fd e))
]

-- No descriptor is listed twice, and the list fits its array.
pub record IsWedged (l : List ℤ) : Type 0 where
  pub once : (fd : ℤ) → occurs fd l ≤ 1
  pub room : length l ≤ wedged_max

pub occurs-append : (y : ℤ) (a b : List ℤ) → occurs y (a ++ b) ≡ occurs y a + occurs y b
unfolding occurs
occurs-append y [] b = omega arith
occurs-append y (x ∷ a) b = omega (arith, occurs-append y a b)

occurs-listed : (y : ℤ) (l : List ℤ) → listed y l ≡ false → occurs y l ≡ 0
unfolding occurs listed
occurs-listed y [] e = refl
occurs-listed y (x ∷ l) e = ground (arith, occurs-listed y l)

occurs-new :
    (l : List ℤ) (fd y : ℤ) → listed fd l ≡ false → occurs y l ≤ 1 → occurs y (l ++ (fd ∷ [])) ≤ 1
unfolding occurs
occurs-new l fd y e le = elim (Bool-cases (eq_ℤ fd y)) [
  | inl s ↦
      let z : occurs y l ≡ 0 = ap (λ i. occurs i l) (sym (eq_ℤ-eq fd y s)) ∙ occurs-listed fd l e in
      rw (occurs-append y l (fd ∷ [])) (rw s (omega arith))
  | inr s ↦ rw (occurs-append y l (fd ∷ [])) (rw s (omega arith))
]

-- Marking a session for closing keeps the list without doubles and inside its array, if it was so
-- before.
pub mark_wedged-IsWedged : (l : List ℤ) (fd : ℤ) → IsWedged l → IsWedged (mark_wedged l fd)
unfolding mark_wedged
mark_wedged-IsWedged l fd w = elim (Bool-cases (listed fd l)) [
  | inl e ↦ rw e w
  | inr e ↦ elim (Bool-cases (ltb (length l) wedged_max)) [
    | inl f ↦
        rw (e, f)
          (record {
            once = λ y. occurs-new l fd y e (w.once y);
            room = omega (arith, length-append l (fd ∷ []), ltb→lt (length l) wedged_max f);
          })
    | inr f ↦ rw (e, f) w
  ]
]
