-- ===== src/Room/Compare.antt =====
-- The comparisons of `int` values.
use corestack.Prelude.{◌≡◌, refl, ap, ◌∙◌, arith, true, false, ℤ, pos, negsuc}
use corestack.Room.Model.{eq_ℤ, ltb_ℤ}

pub ltb_ℤ-asym : (a b : ℤ) → ltb_ℤ a b ≡ true → ltb_ℤ b a ≡ false
ltb_ℤ-asym (pos a) (pos b) e = ground arith
ltb_ℤ-asym (negsuc a) (negsuc b) e = ground arith
ltb_ℤ-asym (pos a) (negsuc b) e = cc
ltb_ℤ-asym (negsuc a) (pos b) e = refl

pub eq_ℤ-sym : (a b : ℤ) → eq_ℤ a b ≡ eq_ℤ b a
eq_ℤ-sym (pos a) (pos b) = ground arith
eq_ℤ-sym (negsuc a) (negsuc b) = ground arith
eq_ℤ-sym (pos a) (negsuc b) = refl
eq_ℤ-sym (negsuc a) (pos b) = refl

pub eq_ℤ-eq : (a b : ℤ) → eq_ℤ a b ≡ true → a ≡ b
eq_ℤ-eq (pos a) (pos b) e = ground arith
eq_ℤ-eq (negsuc a) (negsuc b) e = ground arith
eq_ℤ-eq (pos a) (negsuc b) e = cc
eq_ℤ-eq (negsuc a) (pos b) e = cc

pub eq_ℤ_turn : (x y z : ℤ) → eq_ℤ x z ≡ true → eq_ℤ x y ≡ eq_ℤ y z
eq_ℤ_turn x y z e = ap (λ i. eq_ℤ i y) (eq_ℤ-eq x z e) ∙ eq_ℤ-sym z y

pub eq_ℤ_other : (x y z : ℤ) → eq_ℤ x z ≡ false → eq_ℤ y z ≡ true → eq_ℤ x y ≡ false
eq_ℤ_other x y z e f = ap (eq_ℤ x) (eq_ℤ-eq y z f) ∙ e
