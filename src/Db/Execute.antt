-- ===== src/Db/Execute.antt =====
-- What becomes of one statement: the retries of `execute`.
use mathlib.Core.Path.{subst}
use corestack.Prelude.{
  ℕ, zero, suc, ◌+◌, ◌%◌, ◌^◌, ◌≤◌, ◌<◌, ◌≡◌, refl, sym, ap, arith, Bool, true, false, Bytes,
  Bool-cases, inl, inr,
}
use corestack.Db.Queue.{
  Db, drop_one, error_one, give_up, Reply, gone, rejected, done, Proc, unless_dead, after_exec,
  after_spawn, execute_from, execute, db_respawn_max,
}
use corestack.Db.Ring.{IsRing, waiting}

-- The three ends of a statement.
pub data Fate : Type 0 where
  completed failed lost : Fate

-- What a statement adds to the count of the lost ones, and to that of the failed ones.
abbrev pub lost_of : Fate → ℕ
lost_of lost = 1
lost_of _ = 0

abbrev pub failed_of : Fate → ℕ
failed_of failed = 1
failed_of _ = 0

-- The two counts, as far as an `unsigned long` counts.
pub record Counts (losses failures : ℕ) (db db' : Db) : Type 0 where
  pub dropped : db'.dropped % 2 ^ 64 ≡ (db.dropped + losses) % 2 ^ 64
  pub errors : db'.errors % 2 ^ 64 ≡ (db.errors + failures) % 2 ^ 64

-- The ring is as it was.
abbrev pub SameRing : Db → Db → Type 0
SameRing db db' = db' ≡ record db { dead = db'.dead; dropped = db'.dropped; errors = db'.errors }

module _ {P : Type 0} (proc : Proc P) (sql : Bytes) where
  -- The child `q` is there after `n` times that the child was gone and another one came up.
  pub data Respawned (p : P) : ℕ → P → Type 0 where
    first : Respawned p 0 p
    another :
        (n : ℕ) (q r s : P)
        → Respawned p n q
        → proc.exec sql q ≡ (gone, r)
        → proc.spawn (proc.kill r) ≡ (true, s)
        → Respawned p (suc n) s

  -- The end of the statement, told by the answers of the child alone: from whether the child was
  -- given up before and its state, to whether it is given up now and its state.
  pub data Ends (dead : Bool) (p : P) : Fate → Bool → P → Type 0 where
    without_child : dead ≡ true → Ends dead p lost true p
    answered :
        (n : ℕ) (q r : P)
        → dead ≡ false
        → n ≤ db_respawn_max
        → Respawned p n q
        → proc.exec sql q ≡ (done, r)
        → Ends dead p completed false r
    refused :
        (n : ℕ) (q r : P)
        → dead ≡ false
        → n ≤ db_respawn_max
        → Respawned p n q
        → proc.exec sql q ≡ (rejected, r)
        → Ends dead p failed false r
    exhausted :
        (q r : P)
        → dead ≡ false
        → Respawned p db_respawn_max q
        → proc.exec sql q ≡ (gone, r)
        → Ends dead p lost true (proc.kill r)
    no_other :
        (n : ℕ) (q r s : P)
        → dead ≡ false
        → n < db_respawn_max
        → Respawned p n q
        → proc.exec sql q ≡ (gone, r)
        → proc.spawn (proc.kill r) ≡ (false, s)
        → Ends dead p lost true s

  pub record One (db : Db) (p : P) (r : Db × P) : Type 0 where
    pub fate : Fate
    pub ends : Ends db.dead p fate r.0.dead r.1
    pub ring : SameRing db r.0
    pub counts : Counts (lost_of fate) (failed_of fate) db r.0

  give_up-One : (db : Db) (p q : P) → Ends db.dead p lost true q → One db p (give_up db, q)
  unfolding give_up
  give_up-One db p q e = record {
    fate = lost;
    ends = e;
    ring = refl;
    counts = record { dropped = omega arith; errors = omega arith };
  }

  drop_one-One : (db : Db) (p : P) → db.dead ≡ true → One db p (drop_one db, p)
  unfolding drop_one
  drop_one-One db p d = record {
    fate = lost;
    ends = subst (λ b. Ends db.dead p lost b p) (sym d) (without_child d);
    ring = refl;
    counts = record { dropped = omega arith; errors = omega arith };
  }

  error_one-One : (db : Db) (p q : P) → Ends db.dead p failed db.dead q → One db p (error_one db, q)
  unfolding error_one
  error_one-One db p q e = record {
    fate = failed;
    ends = e;
    ring = refl;
    counts = record { dropped = omega arith; errors = omega arith };
  }

  done-One : (db : Db) (p q : P) → Ends db.dead p completed db.dead q → One db p (db, q)
  done-One db p q e = record {
    fate = completed;
    ends = e;
    ring = refl;
    counts = record { dropped = omega arith; errors = omega arith };
  }

  module _ (db : Db) (p : P) where
    after_exec-One :
        (n : ℕ) (q : P) (r : Reply × P) (retry : P → Db × P)
        → db.dead ≡ false
        → n ≤ db_respawn_max
        → Respawned p n q
        → proc.exec sql q ≡ r
        → ((s : P) → r ≡ (gone, s) → One db p (retry s))
        → One db p (after_exec proc db r retry)
    after_exec-One n q (done, r) retry d le c e h =
        done-One db p r
          (subst (λ b. Ends db.dead p completed b r) (sym d) (answered n q r d le c e))
    after_exec-One n q (rejected, r) retry d le c e h =
        error_one-One db p r
          (subst (λ b. Ends db.dead p failed b r) (sym d) (refused n q r d le c e))
    after_exec-One n q (gone, r) retry d le c e h = h r refl

    after_spawn-One :
        (n : ℕ) (q r : P) (a : Bool × P) (retry : P → Db × P)
        → db.dead ≡ false
        → n < db_respawn_max
        → Respawned p n q
        → proc.exec sql q ≡ (gone, r)
        → proc.spawn (proc.kill r) ≡ a
        → ((s : P) → Respawned p (suc n) s → One db p (retry s))
        → One db p (after_spawn proc db a retry)
    after_spawn-One n q r (true, s) retry d lt c e f h = h s (another n q r s c e f)
    after_spawn-One n q r (false, s) retry d lt c e f h =
        give_up-One db p s (no_other n q r s d lt c e f)

    unless_dead-One :
        (b : Bool) (q : P) (attempt : P → Db × P)
        → b ≡ false
        → One db p (attempt q)
        → One db p (unless_dead proc b db q attempt)
    unless_dead-One true q attempt e h = absurd cc
    unless_dead-One false q attempt e h = h

    execute_from-One :
        (left n : ℕ) (q : P)
        → db.dead ≡ false
        → n + left ≡ db_respawn_max
        → Respawned p n q
        → One db p (execute_from proc left sql db q)
    unfolding execute_from
    execute_from-One zero n q d e c = unless_dead-One db.dead q _ d (
        after_exec-One n q (proc.exec sql q) (λ s. (give_up db, proc.kill s)) d (omega arith) c refl
          (λ s g.
            give_up-One db p (proc.kill s)
              (exhausted q s d (subst (λ k. Respawned p k q) (omega arith) c) g)))
    execute_from-One (suc left) n q d e c = unless_dead-One db.dead q _ d (
        after_exec-One n q (proc.exec sql q) _ d (omega arith) c refl (λ r g.
          after_spawn-One n q r (proc.spawn (proc.kill r)) _ d (omega arith) c g refl
            (λ s c'. execute_from-One left (suc n) s d (omega arith) c')))

  dead-One :
      (b : Bool) (db : Db) (p : P) (attempt : P → Db × P)
      → b ≡ true
      → db.dead ≡ true
      → One db p (unless_dead proc b db p attempt)
  dead-One true db p attempt e d = drop_one-One db p d
  dead-One false db p attempt e d = absurd cc

  -- Running a statement leaves the ring alone. It is completed, fails or is lost as the child's
  -- answers tell: the first answer of one of at most four children decides, and it is lost where
  -- there is no child or the last one is gone. A lost statement adds one to the count of the dropped
  -- ones and a failed one adds one to the errors; nothing else changes a count.
  pub execute-One : (db : Db) (p : P) → One db p (execute proc sql db p)
  unfolding execute execute_from
  execute-One db p = elim (Bool-cases db.dead) [
    | inl d ↦ dead-One db.dead db p _ d d
    | inr d ↦ execute_from-One db p db_respawn_max 0 p d refl first
  ]

pub SameRing-IsRing : (db db' : Db) → SameRing db db' → IsRing db → IsRing db'
SameRing-IsRing db db' e i = subst IsRing (sym e) (record {
  slots = i.slots;
  room = i.room;
  head_in = i.head_in;
  tail_in = i.tail_in;
  tail_behind = i.tail_behind;
})

pub SameRing-rest :
    (db db' : Db) → SameRing db db' → (db'.count ≡ db.count) × (db'.stopping ≡ db.stopping)
SameRing-rest db db' e = (ap Db.count e, ap Db.stopping e)

pub SameRing-waiting : (db db' : Db) → SameRing db db' → waiting db' ≡ waiting db
unfolding waiting
SameRing-waiting db db' e = ap waiting e
