-- ===== src/Db/Tests.antt =====
-- The queue's theorems at concrete queues, and runs of them.
use corestack.Prelude.{
  ℕ, zero, suc, ◌≡◌, inr, refl, arith, true, false, [], ◌∷◌, none, some, if◌then◌else◌, Bytes,
  codes,
}
use corestack.Db.Queue.{
  Db, pop_head, push_tail, dequeue, db_submit, Reply, gone, rejected, done, Proc, execute, db_stop,
}
use corestack.Db.Ring.{IsRing, window, waiting, Dequeued, dequeue-Dequeued}
use corestack.Db.Execute.{One, execute-One}
use corestack.Db.Stop.{Stopped, db_stop-Stopped}
use corestack.Db.Run.{Running, Step, submit, take, stay, next, InOrder, Steps-InOrder}

-- A child that counts the statements it has left, and is gone when there are none; a respawned one
-- has two. It rejects the empty statement.
abbrev child_exec : Bytes → ℕ → Reply × ℕ
child_exec sql zero = (gone, 0)
child_exec [] (suc n) = (rejected, n)
child_exec (c ∷ sql) (suc n) = (done, n)

abbrev child : Proc ℕ
child = record { exec = child_exec; spawn = λ n. (true, 2); kill = λ n. 0; close = λ n. 0 }

abbrev insert_a : Bytes
insert_a = codes "insert a"

abbrev insert_b : Bytes
insert_b = codes "insert b"

-- A ring of two slots, whose tail has wrapped.
abbrev wrapped : Db
wrapped = record {
  items = insert_a ∷ insert_b ∷ [];
  cap = 2;
  head = 1;
  tail = 0;
  count = 1;
  stopping = false;
  dead = false;
  dropped = 5;
  errors = 0;
  worker_live = true;
}

wrapped-IsRing : IsRing wrapped
wrapped-IsRing = record {
  slots = refl;
  room = omega arith;
  head_in = omega arith;
  tail_in = omega arith;
  tail_behind = inr refl;
}

dequeue-Dequeued_example : Dequeued wrapped (dequeue wrapped)
dequeue-Dequeued_example = dequeue-Dequeued wrapped wrapped-IsRing

execute-One_example : One child insert_b wrapped 0 (execute child insert_b wrapped 0)
execute-One_example = execute-One child insert_b wrapped 0

db_stop-Stopped_example :
    (r : (ℕ × ℕ) × (Db × ℕ)) × (db_stop child wrapped 1 ≡ some r) × Stopped child wrapped 1 r
db_stop-Stopped_example = db_stop-Stopped child wrapped 1 wrapped-IsRing refl

-- The statement is accepted, taken and run.
abbrev first : Running ℕ
first = record { db = wrapped; child = 1; busy = none; accepted = insert_b ∷ []; ran = [] }

first-InOrder : InOrder child first
first-InOrder = record { ring = wrapped-IsRing; order = unfold waiting window in refl }

abbrev second : Running ℕ
second = record first {
  db = (db_submit true insert_a wrapped).1;
  accepted =
      if (db_submit true insert_a wrapped).0 then insert_b ∷ insert_a ∷ [] else insert_b ∷ [];
}

abbrev third : Running ℕ
third = record second { db = pop_head second.db; busy = some insert_b }

third-Step : Step child second third
unfolding dequeue db_submit push_tail
third-Step = take insert_b (pop_head second.db) second refl refl

Steps-InOrder_example : InOrder child third
Steps-InOrder_example =
    Steps-InOrder child first third
      (next first second third (next first first second (stay first) (submit true insert_a first))
        third-Step)
      first-InOrder
