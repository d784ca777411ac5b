-- ===== src/EventProcessor/Trace.antt =====
-- Runs of the methods of `EventProcessor` (kit-pay/kit_pay/event_processor.py), one after another.
use kit_api_optimization.Prelude.{
  ℕ, zero, suc, ◌+◌, leb, String, length, List-cases, false, inl, inr, ◌≡◌, refl, sym, ℤ, Option,
  none, some, List, [], ◌∷◌, arith,
}
use mathlib.Core.Path.{subst}
use kit_api_optimization.Exceptions.{Result}
use kit_api_optimization.Redis.Queues.{Queues}
use kit_api_optimization.WebhookReceiver.{WebhookEvent, ProcessResult}
use kit_api_optimization.EventProcessor.{
  RecordData, max_retries, failed_key, incr_metric, enqueue, process_batch, requeued, retry,
  retry_loop, retry_failed,
}
use kit_api_optimization.EventProcessor.Rounds.{failures, key-eq, Answers}
use kit_api_optimization.EventProcessor.Accounting.{
  IsAccounted, requeues, enqueue-IsAccounted, process_batch-IsAccounted,
}
use kit_api_optimization.EventProcessor.Retry.{retry_some, retry_none}

-- One call of a method, with what the clock reads in its rounds.
pub data Call (J : Type 0) : Type 0 where
  enqueued : WebhookEvent J → ℕ → Call J
  batched : ℤ → (ℕ → ℕ × ℕ) → Call J
  retried : (ℕ → ℕ) → Call J

module _ {J : Type 0} (redis : Queues (RecordData J)) (prefix : String)
    (utf8 : List ℕ → Option String) where
  open redis use {
    Db, rpop, queue-lpush, counter-lpush, queue-rpop, counter-rpop, queue-incr, counter-incr,
  }

  round-IsAccounted :
      (d : RecordData J) (ds : List (RecordData J)) (now count : ℕ) (db : Db)
      → failures redis prefix utf8 db ≡ d ∷ ds
      → IsAccounted redis prefix utf8 db
      → IsAccounted redis prefix utf8
          (retry redis prefix utf8 d now count (rpop (failed_key redis prefix utf8) db).1).1
  unfolding retry incr_metric
  round-IsAccounted d ds now count db h a =
      let k = key-eq redis prefix utf8 in
      let a' = rw h at a in
      let left : leb max_retries d.attempts ≡ false = ground (arith, a'.failed_retried.0) in
      simp
        (left, queue-incr, counter-incr, queue-lpush, counter-lpush, queue-rpop, counter-rpop, k, h)
        (requeues (requeued redis prefix utf8 d now) a' refl)

  emptied-IsAccounted :
      (db : Db)
      → failures redis prefix utf8 db ≡ []
      → IsAccounted redis prefix utf8 db
      → IsAccounted redis prefix utf8 (rpop (failed_key redis prefix utf8) db).1
  emptied-IsAccounted db h a =
      simp (queue-rpop, counter-rpop, key-eq redis prefix utf8, h) (rw h at a)

  -- what `retry_failed` leaves, if it ends
  Leaves : Option (ℕ × Db) → Type 0
  Leaves none = Unit
  Leaves (some (count, db)) = IsAccounted redis prefix utf8 db

  retry_loop-Leaves :
      (fuel i count : ℕ) (clock : ℕ → ℕ) (db : Db)
      → IsAccounted redis prefix utf8 db
      → Leaves (retry_loop redis prefix utf8 fuel i clock count db)
  unfolding retry_loop Leaves
  retry_loop-Leaves zero i count clock db a = tt
  retry_loop-Leaves (suc fuel) i count clock db a =
      elim (List-cases (failures redis prefix utf8 db)) [
        | inl empty ↦
            subst Leaves (sym (retry_none redis prefix utf8 fuel i count clock db empty))
              (emptied-IsAccounted db empty a)
        | inr (d, ds, h) ↦
            let (count', db') =
              retry redis prefix utf8 d (clock i) count
                (rpop (failed_key redis prefix utf8) db).1 in
            subst Leaves (sym (retry_some redis prefix utf8 fuel i count clock db h)) (
              retry_loop-Leaves fuel (i + 1) count' clock db'
                (round-IsAccounted d ds (clock i) count db h a))
      ]

  left_db : Db → Option (ℕ × Db) → Db
  left_db db none = db
  left_db db (some (count, db')) = db'

  module _ {R W : Type 0} (process : ℕ → WebhookEvent J → W → Result (ProcessResult J R) × W) where
    -- `retry_failed` has the fuel that it needs
    pub call : Call J → Db × W → Db × W
    unfolding left_db
    call (enqueued event now) (db, w) = ((enqueue redis prefix utf8 event now db).1, w)
    call (batched max_events clock) s =
        (process_batch redis prefix utf8 process max_events clock s).1
    call (retried clock) (db, w) =
        let fuel = suc (length (failures redis prefix utf8 db)) in
        (left_db db (retry_failed redis prefix utf8 fuel clock db), w)

    unfoldable pub run : List (Call J) → Db × W → Db × W
    unfolding call
    run [] s = s
    run (x ∷ calls) s = run calls (call x s)

    call-IsAccounted :
        Answers redis prefix utf8 process
        → (x : Call J) (s : Db × W) → IsAccounted redis prefix utf8 s.0
        → IsAccounted redis prefix utf8 (call x s).0
    unfolding call retry_failed Leaves
    call-IsAccounted answers (enqueued event now) (db, w) a =
        enqueue-IsAccounted redis prefix utf8 event now db a
    call-IsAccounted answers (batched max_events clock) (db, w) a =
        process_batch-IsAccounted redis prefix utf8 process answers max_events clock db w a
    call-IsAccounted answers (retried clock) (db, w) a =
        let fuel = suc (length (failures redis prefix utf8 db)) in
        go (retry_loop redis prefix utf8 fuel 0 clock 0 db) (retry_loop-Leaves fuel 0 0 clock db a)
      where
        go : (o : Option (ℕ × Db)) → Leaves o → IsAccounted redis prefix utf8 (left_db db o)
        go none h = a
        go (some (count, db')) h = h

    -- The metrics and the lists account for every event that `enqueue` has taken. However `enqueue`,
    -- `process_batch` and `retry_failed` are called, and whatever the receiver answers, if at first the
    -- number of enqueued events by the metrics is that of the events that count as completed and of those in
    -- the queue, the failed list and the dead letters together, it is so at the end as well; so is that every
    -- record in the queue and the failed list has had fewer than `MAX_RETRIES` attempts and every dead letter
    -- exactly as many. The receiver raises nothing: an event on which it raises is in none of the lists. An
    -- event that it answers with FAILED and an empty text counts as completed, as in the source.
    pub run-IsAccounted :
        Answers redis prefix utf8 process
        → (calls : List (Call J)) (s : Db × W) → IsAccounted redis prefix utf8 s.0
        → IsAccounted redis prefix utf8 (run calls s).0
    unfolding run
    run-IsAccounted answers [] s a = a
    run-IsAccounted answers (x ∷ calls) s a =
        run-IsAccounted answers calls (call x s) (call-IsAccounted answers x s a)
