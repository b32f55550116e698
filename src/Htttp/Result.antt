-- ===== src/Htttp/Result.antt =====
-- core/include/libhtttp/htttp.h: the results of the library's calls.
use corestack.Prelude.{◌≡◌, refl, Bool, true, false}

-- `out_of_fuel` is not in the source: it marks a loop that did not end within its fuel.
pub data Error : Type 0 where
  malformed toolong length_error nospace out_of_fuel : Error

-- `HTTTP_OK` with what the call hands back, or an error.
pub data Result {ℓ} (A : Type ℓ) : Type ℓ where
  err : Error → Result A
  ok : A → Result A

-- `if (!test) return e;`
abbrev pub guard : Bool → Error → Result (Unit {0})
guard false e = err e
guard true e = ok tt

-- A caller that answers every failure of a call with its own code.
abbrev pub or_fail {ℓ} : {A : Type ℓ} → Error → Result A → Result A
or_fail e (err _) = err e
or_fail e (ok a) = ok a

infixl 5 ◌>>=◌ ◌>>◌
-- A failed call ends the caller with the same code.
abbrev pub ◌>>=◌ {m n} : {A : Type m} {B : Type n} → Result A → (A → Result B) → Result B
err e >>= next = err e
ok a >>= next = next a

abbrev pub ◌>>◌ {n} : {B : Type n} → Result (Unit {0}) → Result B → Result B
test >> next = test >>= λ _. next

pub guard-eq-ok : (b : Bool) (e : Error) → guard b e ≡ ok tt → b ≡ true
guard-eq-ok true e h = refl
guard-eq-ok false e h = cc

-- A call whose caller succeeds has itself succeeded.
pub >>=-eq-ok {m n} :
    {A : Type m} {B : Type n} (r : Result A) (next : A → Result B) {b : B}
    → (r >>= next) ≡ ok b
    → (a : A) × (r ≡ ok a) × (next a ≡ ok b)
>>=-eq-ok (err e) next h = cc
>>=-eq-ok (ok a) next h = (a, refl, h)
