-- ===== src/Prelude/Loops.antt =====
-- Counted `for` loops: `i` runs from 0 up to, and not including, the bound.
use corestack.Prelude.Tests.{Bool-cases, ltb}
use Prim.Native.Nat.{ℕ, zero, suc, ◌<◌}
use mathlib.Core.Path.{◌≡◌, refl, ap, ◌∙◌}
use mathlib.Core.Logic.{inl, inr}
use mathlib.Core.Bool.{Bool, true, false, ◌&&◌, ◌||◌}
use native.Mathlib.Omega.{arith}

-- A loop that returns `true` at the first index that passes.
abbrev pub any_below : ℕ → (ℕ → Bool) → Bool
any_below zero f = false
any_below (suc n) f = any_below n f || f n

-- A loop that returns `false` at the first index that fails.
abbrev pub all_below : ℕ → (ℕ → Bool) → Bool
all_below zero f = true
all_below (suc n) f = all_below n f && f n

-- A loop whose body updates `s`.
abbrev pub for_below {ℓ} : {S : Type ℓ} → ℕ → (ℕ → S → S) → S → S
for_below zero body s = s
for_below (suc n) body s = body n (for_below n body s)

pub any_below-false : (n : ℕ) (f : ℕ → Bool) (i : ℕ) → any_below n f ≡ false → i < n → f i ≡ false
any_below-false zero f i h lt = absurd (omega arith)
any_below-false (suc n) f i h lt = ground (arith, any_below-false n f i)

pub any_below-false_of :
    (n : ℕ) (f : ℕ → Bool) → ((i : ℕ) → i < n → f i ≡ false) → any_below n f ≡ false
any_below-false_of zero f h = refl
any_below-false_of (suc n) f h =
    ground (arith, any_below-false_of n f (λ i lt. h i (omega arith)), h n (omega arith))

pub any_below-true : (n : ℕ) (f : ℕ → Bool) (i : ℕ) → i < n → f i ≡ true → any_below n f ≡ true
any_below-true zero f i lt h = absurd (omega arith)
any_below-true (suc n) f i lt h = ground (arith, any_below-true n f i)

pub any_below-true_inv :
    (n : ℕ) (f : ℕ → Bool) → any_below n f ≡ true → (i : ℕ) × (i < n) × (f i ≡ true)
any_below-true_inv zero f h = absurd (ground arith)
any_below-true_inv (suc n) f h = elim (Bool-cases (any_below n f)) [
  | inl e ↦ let (i, lt, p) = any_below-true_inv n f e in (i, omega arith, p)
  | inr e ↦ (n, omega arith, ground arith)
]

-- What every round keeps, the loop keeps.
pub for_below_inv {ℓ κ} :
    {S : Type ℓ} (P : S → Type κ) (n : ℕ) (body : ℕ → S → S) (s : S)
    → ((i : ℕ) (t : S) → i < n → P t → P (body i t))
    → P s
    → P (for_below n body s)
for_below_inv P zero body s keep h = h
for_below_inv P (suc n) body s keep h =
    keep n (for_below n body s) (omega arith)
      (for_below_inv P n body s (λ i t lt. keep i t (omega arith)) h)

pub all_below-true : (n : ℕ) (f : ℕ → Bool) → all_below n f ≡ true → (i : ℕ) → i < n → f i ≡ true
all_below-true zero f e i lt = absurd (omega arith)
all_below-true (suc n) f e i lt = elim (Bool-cases (ltb i n)) [
  | inl a ↦ all_below-true n f (ground arith) i (ground arith)
  | inr b ↦ let same : i ≡ n = ground arith in last (f n) (all_below n f) (ap f same) e
]
  where
    last : (b c : Bool) → f i ≡ b → (c && b) ≡ true → f i ≡ true
    last b c e h = e ∙ ground arith
