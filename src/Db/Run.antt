-- ===== src/Db/Run.antt =====
-- The queue while it runs: callers submit while the worker takes statements and runs them.
use mathlib.Core.Path.{subst}
use mathlib.Core.List.{append_assoc}
use corestack.Prelude.{
  ◌≡◌, sym, ap, ◌∙◌, Bool, true, false, not, ◌&&◌, List, [], ◌∷◌, ◌++◌, Option, none, some,
  if◌then◌else◌, Bytes,
}
use corestack.Db.Queue.{Db, took, dequeue, refuses, db_submit, Proc, execute}
use corestack.Db.Ring.{IsRing, waiting, Dequeued, dequeue-Dequeued, db_submit-waiting}
use corestack.Db.Execute.{SameRing-IsRing, SameRing-waiting, execute-One}

-- The worker holds at most one statement. `accepted` and `ran` are for the proofs: what callers were
-- told is queued, and what `execute` was called with, both in order.
pub record Running (P : Type 0) : Type 0 where
  pub db : Db
  pub child : P
  pub busy : Option Bytes
  pub accepted : List Bytes
  pub ran : List Bytes

abbrev pub held : Option Bytes → List Bytes
held none = []
held (some sql) = sql ∷ []

module _ {P : Type 0} (proc : Proc P) where
  -- One step of a caller or of the worker.
  pub data Step : Running P → Running P → Type 0 where
    submit :
        (copied : Bool) (sql : Bytes) (s : Running P)
        → Step s (record s {
          db = (db_submit copied sql s.db).1;
          accepted = if (db_submit copied sql s.db).0 then s.accepted ++ (sql ∷ []) else s.accepted;
        })
    take :
        (sql : Bytes) (db : Db) (s : Running P)
        → s.busy ≡ none
        → dequeue s.db ≡ took sql db
        → Step s (record s { db = db; busy = some sql })
    run :
        (sql : Bytes) (s : Running P)
        → s.busy ≡ some sql
        → Step s (record s {
          db = (execute proc sql s.db s.child).0;
          child = (execute proc sql s.db s.child).1;
          busy = none;
          ran = s.ran ++ (sql ∷ []);
        })

  pub data Steps : Running P → Running P → Type 0 where
    stay : (s : Running P) → Steps s s
    next : (s t u : Running P) → Steps s t → Step t u → Steps s u

  pub record InOrder (s : Running P) : Type 0 where
    pub ring : IsRing s.db
    pub order : s.accepted ≡ s.ran ++ (held s.busy ++ waiting s.db)

  submit-InOrder :
      (copied : Bool) (sql : Bytes) (s : Running P)
      → InOrder s
      → InOrder (record s {
        db = (db_submit copied sql s.db).1;
        accepted = if (db_submit copied sql s.db).0 then s.accepted ++ (sql ∷ []) else s.accepted;
      })
  submit-InOrder copied sql s i =
      let d = db_submit-waiting copied sql s.db i.ring in
      record {
        ring = d.0;
        order = rw (d.1, d.2) (grow (copied && not (refuses s.db)) sql s i.order);
      }
    where
      grow :
          (b : Bool) (sql : Bytes) (s : Running P)
          → s.accepted ≡ s.ran ++ (held s.busy ++ waiting s.db)
          → (if b then s.accepted ++ (sql ∷ []) else s.accepted)
            ≡ s.ran ++ (held s.busy ++ (if b then waiting s.db ++ (sql ∷ []) else waiting s.db))
      grow false sql s e = e
      grow true sql s e =
          ap (λ l. l ++ (sql ∷ [])) e
          ∙ append_assoc s.ran (held s.busy ++ waiting s.db) (sql ∷ [])
          ∙ ap (λ l. s.ran ++ l) (append_assoc (held s.busy) (waiting s.db) (sql ∷ []))

  take-InOrder :
      (sql : Bytes) (db : Db) (s : Running P)
      → s.busy ≡ none
      → dequeue s.db ≡ took sql db
      → InOrder s
      → InOrder (record s { db = db; busy = some sql })
  take-InOrder sql db s n e i =
      let d = subst (Dequeued s.db) e (dequeue-Dequeued s.db i.ring) in
      record {
        ring = d.0;
        order = i.order ∙ ap (λ b. s.ran ++ (held b ++ waiting s.db)) n ∙ ap (λ w. s.ran ++ w) d.1;
      }

  run-InOrder :
      (sql : Bytes) (s : Running P)
      → s.busy ≡ some sql
      → InOrder s
      → InOrder (record s {
        db = (execute proc sql s.db s.child).0;
        child = (execute proc sql s.db s.child).1;
        busy = none;
        ran = s.ran ++ (sql ∷ []);
      })
  run-InOrder sql s e i =
      let db' = (execute proc sql s.db s.child).0 in
      let one = execute-One proc sql s.db s.child in
      record {
        ring = SameRing-IsRing s.db db' one.ring i.ring;
        order =
            i.order
            ∙ ap (λ b. s.ran ++ (held b ++ waiting s.db)) e
            ∙ rw (SameRing-waiting s.db db' one.ring)
                (sym (append_assoc s.ran (sql ∷ []) (waiting s.db)));
      }

  step-InOrder : (s t : Running P) → Step s t → InOrder s → InOrder t
  step-InOrder _ _ (submit copied sql s) i = submit-InOrder copied sql s i
  step-InOrder _ _ (take sql db s n e) i = take-InOrder sql db s n e i
  step-InOrder _ _ (run sql s e) i = run-InOrder sql s e i

  -- From a state in order, whatever steps of the callers and the worker follow: the statements
  -- that were run, the one that the worker holds and those that wait are together the accepted
  -- ones, in the order of acceptance.
  pub Steps-InOrder : (s t : Running P) → Steps s t → InOrder s → InOrder t
  Steps-InOrder _ _ (stay s) i = i
  Steps-InOrder _ _ (next s t u r e) i = step-InOrder t u e (Steps-InOrder s t r i)
