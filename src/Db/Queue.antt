-- ===== src/Db/Queue.antt =====
-- The struct `db` and the calls on it. The mutex makes each of them one step.
use corestack.Prelude.{
  ℕ, zero, suc, ◌+◌, ◌-◌, ◌%◌, ◌^◌, Bool, true, false, not, ◌||◌, List, [], Option, none, some,
  ◌==◌, if◌then◌else◌, set, get_or, replicate, Bytes,
}

-- Consecutive respawns before giving up on the child for good.
abbrev pub db_respawn_max : ℕ
db_respawn_max = 3

-- `items` holds what the slots point to; a slot that holds nothing yet holds the empty string.
pub record Db : Type 0 where
  pub items : List Bytes
  pub cap : ℕ
  pub head : ℕ
  pub tail : ℕ
  pub count : ℕ
  pub stopping : Bool
  pub dead : Bool
  pub dropped : ℕ
  pub errors : ℕ
  pub worker_live : Bool

-- `n++` on an `unsigned long`.
abbrev pub bump : ℕ → ℕ
bump n = (n + 1) % 2 ^ 64

unfoldable pub drop_one : Db → Db
drop_one db = record db { dropped = bump db.dropped }

unfoldable pub error_one : Db → Db
error_one db = record db { errors = bump db.errors }

-- The first waiting statement leaves the ring.
unfoldable pub pop_head : Db → Db
pop_head db = record db { head = (db.head + 1) % db.cap; count = db.count - 1 }

-- What a call of `dequeue` does: it sleeps on, it returns NULL, or it returns a statement.
pub data Taken : Type 0 where
  waits stopped : Taken
  took : Bytes → Db → Taken

unfoldable pub dequeue : Db → Taken
dequeue db =
    if db.count == 0
    then if db.stopping then stopped else waits
    else took (get_or db.items db.head []) (pop_head db)

unfoldable pub push_tail : Bytes → Db → Db
push_tail sql db = record db {
  items = set db.items db.tail sql;
  tail = (db.tail + 1) % db.cap;
  count = db.count + 1;
}

-- The test under the lock: full, shutting down, or no child left.
abbrev pub refuses : Db → Bool
refuses db = db.count == db.cap || db.stopping || db.dead

-- `copied`: whether `strdup` had the memory. The result is true for 0 and false for -1.
unfoldable pub db_submit : Bool → Bytes → Db → Bool × Db
db_submit copied sql db =
    if not copied
    then (false, drop_one db)
    else if refuses db
    then (false, drop_one db)
    else (true, push_tail sql db)

abbrev pub get_db_dropped : Db → ℕ
get_db_dropped db = db.dropped

abbrev pub get_db_errors : Db → ℕ
get_db_errors db = db.errors

-- The child is gone and out of respawns; the statement counts as dropped.
unfoldable pub give_up : Db → Db
give_up db = record db { dead = true; dropped = bump db.dropped }

-- What `db_proc_exec` returns: negative, 0 or positive.
pub data Reply : Type 0 where
  gone rejected done : Reply

-- The calls on the child, each with the state of the child behind it.
pub record Proc (P : Type 0) : Type 0 where
  pub exec : Bytes → P → Reply × P
  pub spawn : P → Bool × P
  pub kill : P → P
  pub close : P → P

-- Every statement that is still waiting is dropped.
unfoldable pub discard : ℕ → Db → Db
discard zero db = db
discard (suc fuel) db = if db.count == 0 then db else discard fuel (drop_one (pop_head db))

module _ {P : Type 0} (proc : Proc P) where
  abbrev pub kill_spawn : P → Bool × P
  kill_spawn p = proc.spawn (proc.kill p)

  -- The answer of the child; `retry` is what follows where it is gone.
  abbrev pub after_exec : Db → Reply × P → (P → Db × P) → Db × P
  after_exec db (done, p) retry = (db, p)
  after_exec db (rejected, p) retry = (error_one db, p)
  after_exec db (gone, p) retry = retry p

  abbrev pub after_spawn : Db → Bool × P → (P → Db × P) → Db × P
  after_spawn db (true, p) retry = retry p
  after_spawn db (false, p) retry = (give_up db, p)

  -- `if (db->dead)` in front of an attempt.
  abbrev pub unless_dead : Bool → Db → P → (P → Db × P) → Db × P
  unless_dead true db p attempt = (drop_one db, p)
  unless_dead false db p attempt = attempt p

  -- The loop of `execute`; the first argument is `DB_RESPAWN_MAX - attempt`.
  unfoldable pub execute_from : ℕ → Bytes → Db → P → Db × P
  execute_from zero sql db p =
      unless_dead db.dead db p
        (λ p. after_exec db (proc.exec sql p) (λ q. (give_up db, proc.kill q)))
  execute_from (suc left) sql db p = unless_dead db.dead db p (λ p.
      after_exec db (proc.exec sql p)
        (λ q. after_spawn db (kill_spawn q) (λ r. execute_from left sql db r)))

  unfoldable pub execute : Bytes → Db → P → Db × P
  execute sql db p = execute_from db_respawn_max sql db p

  -- The worker's loop. Fuel is for its rounds; it gives none where it sleeps or the fuel is spent.
  unfoldable pub worker_main : ℕ → Db → P → Option (Db × P)
  worker_main zero db p = none
  worker_main (suc fuel) db p = elim (dequeue db) [
    | waits ↦ none
    | stopped ↦ some (db, p)
    | took sql db' ↦ worker_main fuel (execute sql db' p).0 (execute sql db' p).1
  ]

  -- After `pthread_join`: the child is closed, the rest is dropped, and the two counts are told.
  abbrev pub finish : Db × P → (ℕ × ℕ) × (Db × P)
  finish (db, p) = (
    (get_db_dropped (discard db.count db), get_db_errors (discard db.count db)),
    (discard db.count db, proc.close p),
  )

  abbrev pub finish_all : Option (Db × P) → Option ((ℕ × ℕ) × (Db × P))
  finish_all none = none
  finish_all (some r) = some (finish r)

  -- `if (db->worker_live) pthread_join(...)`; without a worker the queue is as it was.
  abbrev pub after_join : Bool → Option (Db × P) → Db × P → Option ((ℕ × ℕ) × (Db × P))
  after_join true joined left = finish_all joined
  after_join false joined left = some (finish left)

  abbrev pub stopping_db : Db → Db
  stopping_db db = record db { stopping = true }

  -- None is a worker that `pthread_join` waits for in vain.
  unfoldable pub db_stop : Db → P → Option ((ℕ × ℕ) × (Db × P))
  db_stop db p =
      after_join db.worker_live (worker_main (suc db.count) (stopping_db db) p) (stopping_db db, p)

  -- `true` where the probe was not asked for, or the child answered it.
  abbrev pub probed : Option Bytes → P → Bool × P
  probed none p = (true, p)
  probed (some sql) p = elim (proc.exec sql p).0 [
    | gone ↦ (false, proc.kill (proc.exec sql p).1)
    | rejected ↦ (true, (proc.exec sql p).1)
    | done ↦ (true, (proc.exec sql p).1)
  ]

  abbrev pub default_cap : ℕ → ℕ
  default_cap zero = 256
  default_cap (suc n) = suc n

  abbrev pub fresh : ℕ → Db
  fresh n = record {
    items = replicate n [];
    cap = n;
    head = 0;
    tail = 0;
    count = 0;
    stopping = false;
    dead = false;
    dropped = 0;
    errors = 0;
    worker_live = true;
  }

  -- `memory` and `threads`: whether both `calloc` calls and `pthread_create` succeed.
  unfoldable pub db_start : Bool → Bool → ℕ → Option Bytes → P → Option Db × P
  db_start memory threads queue_cap probe p =
      let q = proc.spawn p in
      let r = probed probe q.1 in
      if not memory
      then (none, p)
      else if not q.0
      then (none, q.1)
      else if not r.0
      then (none, r.1)
      else if not threads
      then (none, proc.close r.1)
      else (some (fresh (default_cap queue_cap)), r.1)
