-- ===== src/Db/Ring.antt =====
-- The ring of the queue against a list of the statements that wait in it.
use native.Mathlib.Nat.{mod-eq_of_lt, mod_self}
use corestack.Prelude.{
  ℕ, zero, suc, ◌+◌, ◌-◌, ◌%◌, ◌≤◌, ◌<◌, ◌≡◌, ◌⊎◌, inl, inr, refl, ap, ◌∙◌, arith, Bool, true,
  false, not, ◌&&◌, List, [], ◌∷◌, ◌++◌, ◌==◌, if◌then◌else◌, Bool-cases, set, get_or, length,
  length-set, get_or-set, Bytes,
}
use corestack.Db.Queue.{
  Db, Taken, waits, stopped, took, bump, drop_one, pop_head, dequeue, push_tail, refuses, db_submit,
}

-- The slot behind `i`, which wraps at the end of the ring.
abbrev next_slot : ℕ → ℕ → ℕ
next_slot cap i = if i + 1 == cap then 0 else i + 1

mod-next_slot : (cap i : ℕ) → i < cap → (i + 1) % cap ≡ next_slot cap i
mod-next_slot cap i h = elim (Bool-cases (i + 1 == cap)) [
  | inl e ↦ let q : i + 1 ≡ cap = ground arith in rw (e, q) (mod_self cap)
  | inr e ↦ rw e (mod-eq_of_lt (ground arith))
]

-- The `n` slots from `i` on.
unfoldable pub window : List Bytes → ℕ → ℕ → ℕ → List Bytes
window items cap i zero = []
window items cap i (suc n) = get_or items i [] ∷ window items cap (next_slot cap i) n

-- `t` is the slot `n` places behind `i`.
abbrev pub Behind : ℕ → ℕ → ℕ → ℕ → Type 0
Behind cap i n t = (t ≡ i + n) ⊎ (t + cap ≡ i + n)

-- A write behind the slots that are read changes none of them.
window-set :
    (items : List Bytes) (cap i n m t : ℕ) (x : Bytes)
    → length items ≡ cap
    → i < cap
    → t < cap
    → n ≤ m
    → m < cap
    → Behind cap i m t
    → window (set items t x) cap i n ≡ window items cap i n
unfolding window
window-set items cap i zero m t x l hi ht hn hm b = refl
window-set items cap i (suc n) m t x l hi ht hn hm b =
    let same : get_or (set items t x) i [] ≡ get_or items i [] =
      ground (arith, get_or-set items t i x []) in
    rw
      (
        same,
        window-set items cap (next_slot cap i) n (m - 1) t x l (ground arith) ht (omega arith)
            (omega arith) (ground arith),
      )
      refl

-- The slot behind the ones that are read comes last.
window-last :
    (items : List Bytes) (cap i n t : ℕ)
    → i < cap
    → t < cap
    → n < cap
    → Behind cap i n t
    → window items cap i (suc n) ≡ window items cap i n ++ (get_or items t [] ∷ [])
unfolding window
window-last items cap i zero t hi ht hn b = let e : i ≡ t = ground arith in rw e refl
window-last items cap i (suc n) t hi ht hn b =
    rw (window-last items cap (next_slot cap i) n t (ground arith) ht (omega arith) (ground arith))
      refl

pub record IsRing (db : Db) : Type 0 where
  pub slots : length db.items ≡ db.cap
  pub room : db.count ≤ db.cap
  pub head_in : db.head < db.cap
  pub tail_in : db.tail < db.cap
  pub tail_behind : Behind db.cap db.head db.count db.tail

-- The statements that wait, the oldest first.
unfoldable pub waiting : Db → List Bytes
waiting db = window db.items db.cap db.head db.count

abbrev accepts : Bool → Db → Bool
accepts copied db = copied && not (refuses db)

db_submit-yes :
    (copied : Bool) (sql : Bytes) (db : Db)
    → accepts copied db ≡ true
    → db_submit copied sql db ≡ (true, push_tail sql db)
unfolding db_submit
db_submit-yes copied sql db e = ground arith

db_submit-no :
    (copied : Bool) (sql : Bytes) (db : Db)
    → accepts copied db ≡ false
    → db_submit copied sql db ≡ (false, drop_one db)
unfolding db_submit
db_submit-no copied sql db e = ground arith

not_full : (copied : Bool) (db : Db) → IsRing db → accepts copied db ≡ true → db.count < db.cap
not_full copied db i e = ground (arith, i.room)

push_tail-IsRing :
    (sql : Bytes) (db : Db) → IsRing db → db.count < db.cap → IsRing (push_tail sql db)
unfolding push_tail
push_tail-IsRing sql db i lt = record {
  slots = length-set db.items db.tail sql ∙ i.slots;
  room = omega arith;
  head_in = i.head_in;
  tail_in = rw (mod-next_slot db.cap db.tail i.tail_in) (ground (arith, i.tail_in));
  tail_behind =
      rw (mod-next_slot db.cap db.tail i.tail_in)
        (ground (arith, i.tail_in, i.tail_behind, i.head_in));
}

push_tail-waiting :
    (sql : Bytes) (db : Db)
    → IsRing db
    → db.count < db.cap
    → waiting (push_tail sql db) ≡ waiting db ++ (sql ∷ [])
unfolding push_tail waiting
push_tail-waiting sql db i lt =
    let items = set db.items db.tail sql in
    let last =
      window-last items db.cap db.head db.count db.tail i.head_in i.tail_in lt i.tail_behind in
    let old =
      window-set db.items db.cap db.head db.count db.count db.tail sql i.slots i.head_in i.tail_in
        (omega arith) lt i.tail_behind in
    let new : get_or items db.tail [] ≡ sql =
      ground (arith, get_or-set db.items db.tail db.tail sql [], i.slots, i.tail_in) in
    ap (window items db.cap db.head) (omega arith) ∙ last ∙ rw (old, new) refl

drop_one-IsRing : (db : Db) → IsRing db → IsRing (drop_one db)
unfolding drop_one
drop_one-IsRing db i = record {
  slots = i.slots;
  room = i.room;
  head_in = i.head_in;
  tail_in = i.tail_in;
  tail_behind = i.tail_behind;
}

pub db_submit-waiting :
    (copied : Bool) (sql : Bytes) (db : Db)
    → IsRing db
    → IsRing (db_submit copied sql db).1
      × ((db_submit copied sql db).0 ≡ (copied && not (refuses db)))
      × (waiting (db_submit copied sql db).1
          ≡ (if copied && not (refuses db) then waiting db ++ (sql ∷ []) else waiting db))
      × ((db_submit copied sql db).1.dropped
          ≡ (if copied && not (refuses db) then db.dropped else bump db.dropped))
db_submit-waiting copied sql db i = elim (Bool-cases (accepts copied db)) [
  | inl e ↦
      rw (db_submit-yes copied sql db e, e)
        (let lt = not_full copied db i e in
          (
            push_tail-IsRing sql db i lt,
            refl,
            push_tail-waiting sql db i lt,
            unfold push_tail in refl,
          ))
  | inr e ↦
      rw (db_submit-no copied sql db e, e)
        (drop_one-IsRing db i, refl, unfold waiting drop_one in refl, unfold drop_one in refl)
]

pop_head-IsRing : (db : Db) → IsRing db → 0 < db.count → IsRing (pop_head db)
unfolding pop_head
pop_head-IsRing db i lt = record {
  slots = i.slots;
  room = omega (arith, i.room);
  head_in = rw (mod-next_slot db.cap db.head i.head_in) (ground (arith, i.head_in));
  tail_in = i.tail_in;
  tail_behind =
      rw (mod-next_slot db.cap db.head i.head_in)
        (ground (arith, i.tail_in, i.tail_behind, i.head_in));
}

pop_head-waiting :
    (db : Db)
    → IsRing db
    → 0 < db.count
    → waiting db ≡ get_or db.items db.head [] ∷ waiting (pop_head db)
unfolding pop_head waiting window
pop_head-waiting db i lt =
    let e : db.count ≡ suc (db.count - 1) = omega arith in
    ap (window db.items db.cap db.head) e ∙ rw (mod-next_slot db.cap db.head i.head_in) refl

-- What a call of `dequeue` gives: nothing where nothing waits, else the oldest statement.
abbrev pub Dequeued : Db → Taken → Type 0
Dequeued db waits = (waiting db ≡ []) × (db.stopping ≡ false)
Dequeued db stopped = (waiting db ≡ []) × (db.stopping ≡ true)
Dequeued db (took sql db') =
    IsRing db'
    × (waiting db ≡ sql ∷ waiting db')
    × (db'.stopping ≡ db.stopping)
    × (db'.dropped ≡ db.dropped)
    × (db'.errors ≡ db.errors)
    × (db.count ≡ suc db'.count)

window-nil : (items : List Bytes) (cap i n : ℕ) → window items cap i n ≡ [] → n ≡ 0
unfolding window
window-nil items cap i zero e = refl
window-nil items cap i (suc n) e = cc

waiting-nil : (db : Db) → db.count ≡ 0 → waiting db ≡ []
unfolding waiting window
waiting-nil db e = rw e refl

pub waiting-count : (db : Db) → waiting db ≡ [] → db.count ≡ 0
unfolding waiting
waiting-count db e = window-nil db.items db.cap db.head db.count e

-- On a well-formed ring `dequeue` sleeps only on an empty queue that is not stopping, gives NULL
-- only where it is stopping and empty, and else takes the oldest of the waiting statements, and no
-- other.
pub dequeue-Dequeued : (db : Db) → IsRing db → Dequeued db (dequeue db)
unfolding dequeue waiting
dequeue-Dequeued db i = elim (Bool-cases (db.count == 0)) [
  | inl e ↦ elim (Bool-cases db.stopping) [
    | inl s ↦ rw (e, s) (waiting-nil db (ground arith), refl)
    | inr s ↦ rw (e, s) (waiting-nil db (ground arith), refl)
  ]
  | inr e ↦
      let lt : 0 < db.count = ground arith in
      rw e (
        pop_head-IsRing db i lt,
        pop_head-waiting db i lt,
        unfold pop_head in refl,
        unfold pop_head in refl,
        unfold pop_head in refl,
        unfold pop_head in omega arith,
      )
]
