-- ===== src/Room/Board.antt =====
-- The bounded insertion by which room.c builds the roster and the scoreboard: an array of
-- MAX_STANDINGS slots, of which the first `count` are in use.
use corestack.Prelude.{
  ℕ, zero, suc, ◌+◌, ◌-◌, Bool, List, [], ◌∷◌, ltb, leb, if◌then◌else◌, get_or, set, take,
  replicate,
}

abbrev pub max_standings : ℕ
max_standings = 8

pub record Kept {ℓ} (A : Type ℓ) : Type ℓ where
  pub slots : List A
  pub count : ℕ

-- `for (k = last; k > pos; k--) a[k] = a[k - 1]`, with `n` for `last - pos`.
unfoldable pub shift_down {ℓ} : {A : Type ℓ} → A → List A → ℕ → ℕ → List A
shift_down d a pos zero = a
shift_down d a pos (suc n) = shift_down d (set a (pos + suc n) (get_or a (pos + n) d)) pos n

module _ {ℓ} {A : Type ℓ} (before : A → A → Bool) where
  -- `while (pos < count && before(a[pos], x)) pos++` over the entries in use.
  unfoldable pub position : A → List A → ℕ
  position x [] = 0
  position x (y ∷ ys) = let next = position x ys in if before y x then suc next else 0

  -- One member's row. `d` stands for what a slot holds that was not written.
  unfoldable pub place : A → A → Kept A → Kept A
  place d x k =
      let pos = position x (take k.count k.slots) in
      let last = if ltb k.count max_standings then k.count else max_standings - 1 in
      if leb max_standings pos then k else record {
        slots = set (shift_down d k.slots pos (last - pos)) pos x;
        count = if ltb k.count max_standings then k.count + 1 else k.count;
      }

  unfoldable pub place_all : A → List A → Kept A → Kept A
  place_all d [] k = k
  place_all d (x ∷ xs) k = place_all d xs (place d x k)

  -- The rows in use once every member was placed, from an array that was cleared.
  unfoldable pub rows : A → List A → List A
  rows d xs =
      let k = place_all d xs (record { slots = replicate max_standings d; count = 0 }) in
      take k.count k.slots

  -- The same without a bound: behind the rows that come before it.
  unfoldable pub insert : A → List A → List A
  insert x [] = x ∷ []
  insert x (y ∷ ys) = let rest = insert x ys in if before y x then y ∷ rest else x ∷ y ∷ ys

  unfoldable pub insert_all : List A → List A → List A
  insert_all [] ys = ys
  insert_all (x ∷ xs) ys = insert_all xs (insert x ys)
