-- ===== src/Db/Stop.antt =====
-- What becomes of the waiting statements: the drain of `db_stop`.
use mathlib.Core.Path.{subst}
use corestack.Prelude.{
  ℕ, zero, suc, ◌+◌, ◌<◌, ◌≡◌, refl, sym, ap, ◌∙◌, arith, Bool, true, false, List, [], ◌∷◌, Option,
  none, some, Bytes, ◌==◌, if◌then◌else◌, get_or,
}
use corestack.Db.Queue.{
  Db, Taken, waits, stopped, took, pop_head, dequeue, Proc, execute, worker_main, discard, finish,
  finish_all, after_join, stopping_db, db_stop,
}
use corestack.Db.Ring.{IsRing, waiting, waiting-count, Dequeued, dequeue-Dequeued}
use corestack.Db.Execute.{
  Fate, lost_of, failed_of, Counts, Ends, One, SameRing-IsRing, SameRing-rest, SameRing-waiting,
  execute-One,
}

abbrev pub losses : List Fate → ℕ
losses [] = 0
losses (f ∷ fs) = lost_of f + losses fs

abbrev pub failures : List Fate → ℕ
failures [] = 0
failures (f ∷ fs) = failed_of f + failures fs

-- A statement that is taken does not change whether there is a child.
abbrev SameDead : Db → Taken → Type 0
SameDead db (took sql db') = db'.dead ≡ db.dead
SameDead db _ = Unit

dequeue-SameDead : (db : Db) → SameDead db (dequeue db)
unfolding dequeue pop_head
dequeue-SameDead db = chosen (db.count == 0) db.stopping
  where
    chosen :
        (a b : Bool)
        → SameDead db (
            if a
            then if b then stopped else waits
            else took (get_or db.items db.head []) (pop_head db))
    chosen true true = tt
    chosen true false = tt
    chosen false b = refl

module _ {P : Type 0} (proc : Proc P) where
  -- The statements are run one after the other, with these ends, on the child that each one leaves.
  pub data RunAll : Bool → P → List Bytes → List Fate → Bool → P → Type 0 where
    no_more : (dead : Bool) (p : P) → RunAll dead p [] [] dead p
    run_next :
        (sql : Bytes) (sqls : List Bytes) (f : Fate) (fs : List Fate) (dead gone left : Bool)
        (p q r : P)
        → Ends proc sql dead p f gone q
        → RunAll gone q sqls fs left r
        → RunAll dead p (sql ∷ sqls) (f ∷ fs) left r

  -- Each of the statements was run, and the two counts are those of their ends.
  pub record Accounts (sqls : List Bytes) (db : Db) (p : P) (db' : Db) (q : P) : Type 0 where
    pub fates : List Fate
    pub all : RunAll db.dead p sqls fates db'.dead q
    pub counts : Counts (losses fates) (failures fates) db db'

  -- The end of the worker: the queue is empty, and every statement that waited is accounted for.
  abbrev Drained : Db → P → Option (Db × P) → Type 0
  Drained db p none = ⊥
  Drained db p (some (db', q)) = (db'.count ≡ 0) × Accounts (waiting db) db p db' q

  worker_main_step : (fuel : ℕ) (db : Db) (p : P) → Taken → Option (Db × P)
  worker_main_step fuel db p waits = none
  worker_main_step fuel db p stopped = some (db, p)
  worker_main_step fuel db p (took sql db') =
      worker_main proc fuel (execute proc sql db' p).0 (execute proc sql db' p).1

  worker_main-suc :
      (fuel : ℕ) (db : Db) (p : P)
      → worker_main proc (suc fuel) db p ≡ worker_main_step fuel db p (dequeue db)
  unfolding worker_main worker_main_step
  worker_main-suc fuel db p = refl

  Accounts-join :
      (sql : Bytes) (sqls : List Bytes) (a b c : Db) (p r : P) (x : Db × P)
      → b.dropped ≡ a.dropped
      → b.errors ≡ a.errors
      → b.dead ≡ a.dead
      → One proc sql b p x
      → Accounts sqls x.0 x.1 c r
      → Accounts (sql ∷ sqls) a p c r
  Accounts-join sql sqls a b c p r x d e f one rest = record {
    fates = one.fate ∷ rest.fates;
    all =
        run_next sql sqls one.fate rest.fates a.dead x.0.dead c.dead p x.1 r
          (subst (λ h. Ends proc sql h p one.fate x.0.dead x.1) f one.ends) rest.all;
    counts = record {
      dropped = omega (arith, d, one.counts.dropped, rest.counts.dropped);
      errors = omega (arith, e, one.counts.errors, rest.counts.errors);
    };
  }

  Drained-join :
      (sql : Bytes) (a b : Db) (p : P) (x : Db × P) (m : Option (Db × P))
      → waiting a ≡ sql ∷ waiting x.0
      → b.dropped ≡ a.dropped
      → b.errors ≡ a.errors
      → b.dead ≡ a.dead
      → One proc sql b p x
      → Drained x.0 x.1 m
      → Drained a p m
  Drained-join sql a b p x none w d e f one n = absurd n
  Drained-join sql a b p x (some (c, r)) w d e f one n = (
    n.0,
    subst (λ l. Accounts l a p c r) (sym w)
        (Accounts-join sql (waiting x.0) a b c p r x d e f one n.1),
  )

  nothing-Accounts : (db : Db) (p : P) → Accounts [] db p db p
  nothing-Accounts db p = record {
    fates = [];
    all = no_more db.dead p;
    counts = record { dropped = omega arith; errors = omega arith };
  }

  abbrev Drains : ℕ → Type 0
  Drains fuel =
      (db : Db) (p : P)
      → IsRing db
      → db.stopping ≡ true
      → db.count < fuel
      → Drained db p (worker_main proc fuel db p)

  step-Drained :
      (fuel : ℕ) (db : Db) (p : P) (t : Taken)
      → Drains fuel
      → Dequeued db t
      → SameDead db t
      → db.stopping ≡ true
      → db.count < suc fuel
      → Drained db p (worker_main_step fuel db p t)
  unfolding worker_main_step
  step-Drained fuel db p waits ih d h s lt = absurd (ground (arith, d.1, s))
  step-Drained fuel db p stopped ih d h s lt =
      (waiting-count db d.0, subst (λ l. Accounts l db p db p) (sym d.0) (nothing-Accounts db p))
  step-Drained fuel db p (took sql db') ih d h s lt =
      let x = execute proc sql db' p in
      let one = execute-One proc sql db' p in
      let rest = SameRing-rest db' x.0 one.ring in
      Drained-join sql db db' p x _
        (d.1 ∙ ap (λ l. sql ∷ l) (sym (SameRing-waiting db' x.0 one.ring))) d.3 d.4 h one
        (ih x.0 x.1 (SameRing-IsRing db' x.0 one.ring d.0) (rest.1 ∙ d.2 ∙ s) (omega arith))

  worker_main-Drains : (fuel : ℕ) → Drains fuel
  worker_main-Drains zero db p i s lt = absurd (omega arith)
  worker_main-Drains (suc fuel) db p i s lt = rw (worker_main-suc fuel db p) (
      step-Drained fuel db p (dequeue db) (worker_main-Drains fuel) (dequeue-Dequeued db i)
        (dequeue-SameDead db) s lt)

  -- What `db_stop` tells: the queue is empty, every statement that waited was run in its turn, and
  -- the two counts told are those from before with the lost and the failed ones.
  pub record Stopped (db : Db) (p : P) (r : (ℕ × ℕ) × (Db × P)) : Type 0 where
    pub empty : r.1.0.count ≡ 0
    pub told : r.0 ≡ (r.1.0.dropped, r.1.0.errors)
    pub child : P
    pub closed : r.1.1 ≡ proc.close child
    pub accounts : Accounts (waiting db) db p r.1.0 child

  discard-zero : (n : ℕ) (db : Db) → n ≡ 0 → discard n db ≡ db
  unfolding discard
  discard-zero n db e = rw e refl

  finish-Stopped :
      (db db' : Db) (p q : P)
      → db'.count ≡ 0
      → Accounts (waiting db) db p db' q
      → Stopped db p (finish proc (db', q))
  finish-Stopped db db' p q e x =
      subst (λ d. Stopped db p ((d.dropped, d.errors), (d, proc.close q)))
        (sym (discard-zero db'.count db' e))
        (record { empty = e; told = refl; child = q; closed = refl; accounts = x })

  Tells : Db → P → Option ((ℕ × ℕ) × (Db × P)) → Type 0
  Tells db p m = (r : (ℕ × ℕ) × (Db × P)) × (m ≡ some r) × Stopped db p r

  finish_all-Tells :
      (db : Db) (p : P) (m : Option (Db × P)) → Drained db p m → Tells db p (finish_all proc m)
  unfolding Tells
  finish_all-Tells db p none d = absurd d
  finish_all-Tells db p (some (db', q)) d =
      (finish proc (db', q), refl, finish-Stopped db db' p q d.0 d.1)

  stopping_db-IsRing : (db : Db) → IsRing db → IsRing (stopping_db proc db)
  stopping_db-IsRing db i = record {
    slots = i.slots;
    room = i.room;
    head_in = i.head_in;
    tail_in = i.tail_in;
    tail_behind = i.tail_behind;
  }

  Drained-stopping :
      (db : Db) (p : P) (m : Option (Db × P)) → Drained (stopping_db proc db) p m → Drained db p m
  unfolding waiting
  Drained-stopping db p none d = d
  Drained-stopping db p (some r) d = (
    d.0,
    record {
      fates = d.1.fates;
      all = d.1.all;
      counts = record { dropped = d.1.counts.dropped; errors = d.1.counts.errors };
    },
  )

  -- With a live worker and a well-formed ring `db_stop` ends and the queue is empty then. The
  -- statements that waited were run in their order, each to the end that the child's answers tell:
  -- completed, failed or lost. The two counts that it tells are those from before, raised by the
  -- number of the lost and of the failed ones, as far as an unsigned long counts.
  pub db_stop-Stopped :
      (db : Db) (p : P)
      → IsRing db
      → db.worker_live ≡ true
      → (r : (ℕ × ℕ) × (Db × P)) × (db_stop proc db p ≡ some r) × Stopped db p r
  unfolding db_stop Tells
  db_stop-Stopped db p i l =
      let m = worker_main proc (suc db.count) (stopping_db proc db) p in
      subst (λ b. Tells db p (after_join proc b m (stopping_db proc db, p))) (sym l)
        (finish_all-Tells db p m (
          Drained-stopping db p m (
            worker_main-Drains (suc db.count) (stopping_db proc db) p (stopping_db-IsRing db i) refl
              (omega arith))))
