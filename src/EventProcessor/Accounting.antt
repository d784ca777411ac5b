-- ===== src/EventProcessor/Accounting.antt =====
-- How the counters and the three lists of `EventProcessor` (kit-pay/kit_pay/event_processor.py) account
-- for the events that `enqueue` has taken.
use mathlib.Core.Path.{subst}
use kit_api_optimization.Prelude.{
  ℕ, zero, suc, ◌+◌, ◌<◌, leb, String, length, length-append, List-cases, All, All-append,
  Bool-cases, inl, inr, ◌≡◌, refl, sym, Option, none, some, List, [], ◌∷◌, ◌++◌, ℤ, arith,
  if◌then◌else◌,
}
use kit_api_optimization.Exceptions.{Result, ok, err}
use kit_api_optimization.Redis.Queues.{Queues}
use kit_api_optimization.WebhookReceiver.{WebhookEvent, ProcessResult}
use kit_api_optimization.EventProcessor.{
  EventRecord, EventData, RecordData, max_retries, serialise_event, deserialise_event, queue_key,
  incr_metric, push_event, received_data, enqueue, is_failure, batch, rounds, process_batch,
}
use kit_api_optimization.EventProcessor.Rounds.{
  waiting, failures, dead_letters, metric, key-eq, failed_data, after_round, waiting-push_failure,
  failures-push_failure, dead_letters-push_failure, metric-push_failure, Answers, batch-cons,
  batch-nil, settled_record,
}

abbrev pub Retried : {J : Type 0} → RecordData J → Type 0
Retried d = d.attempts < max_retries

abbrev pub Spent : {J : Type 0} → RecordData J → Type 0
Spent d = d.attempts ≡ max_retries

-- By the metrics, every event that was enqueued is completed or stands in one of the lists, and only the
-- dead letters have used all their attempts.
pub record Accounted {J : Type 0} (w f d : List (RecordData J)) (enqueued completed : ℕ)
    : Type 0 where
  pub balanced : enqueued ≡ completed + length w + length f + length d
  pub waiting_retried : All Retried w
  pub failed_retried : All Retried f
  pub dead_spent : All Spent d

module _ {J : Type 0} where
  completes :
      {x : RecordData J} {w f d : List (RecordData J)} {n c : ℕ}
      → Accounted (x ∷ w) f d n c
      → Accounted w f d n (suc c)
  completes a = record {
    balanced = omega (arith, a.balanced);
    waiting_retried = a.waiting_retried.1;
    failed_retried = a.failed_retried;
    dead_spent = a.dead_spent;
  }

  fails :
      {x : RecordData J} (y : RecordData J) {w f d : List (RecordData J)} {n c : ℕ}
      → Accounted (x ∷ w) f d n c
      → y.attempts ≡ x.attempts + 1
      → Accounted w
          (if leb max_retries y.attempts then f else f ++ y ∷ [])
          (if leb max_retries y.attempts then d ++ y ∷ [] else d)
          n
          c
  fails {x} y {w} {f} {d} a more = elim (Bool-cases (leb max_retries y.attempts)) [
    | inl last ↦ rw last (record {
      balanced = omega (arith, a.balanced, length-append d (y ∷ []));
      waiting_retried = a.waiting_retried.1;
      failed_retried = a.failed_retried;
      dead_spent =
          All-append Spent d (y ∷ []) a.dead_spent
            (ground (arith, last, more, a.waiting_retried.0), tt);
    })
    | inr left ↦ rw left (record {
      balanced = omega (arith, a.balanced, length-append f (y ∷ []));
      waiting_retried = a.waiting_retried.1;
      failed_retried = All-append Retried f (y ∷ []) a.failed_retried (ground (arith, left), tt);
      dead_spent = a.dead_spent;
    })
  ]

  pub requeues :
      {x : RecordData J} (y : RecordData J) {w f d : List (RecordData J)} {n c : ℕ}
      → Accounted w (x ∷ f) d n c
      → y.attempts ≡ x.attempts
      → Accounted (w ++ y ∷ []) f d n c
  requeues {x} y {w} a same = record {
    balanced = omega (arith, a.balanced, length-append w (y ∷ []));
    waiting_retried =
        All-append Retried w (y ∷ []) a.waiting_retried
          (ground (arith, same, a.failed_retried.0), tt);
    failed_retried = a.failed_retried.1;
    dead_spent = a.dead_spent;
  }

  enqueues :
      (y : RecordData J) {w f d : List (RecordData J)} {n c : ℕ}
      → Accounted w f d n c
      → y.attempts ≡ 0
      → Accounted (w ++ y ∷ []) f d (suc n) c
  enqueues y {w} a new = record {
    balanced = omega (arith, a.balanced, length-append w (y ∷ []));
    waiting_retried = All-append Retried w (y ∷ []) a.waiting_retried (ground (arith, new), tt);
    failed_retried = a.failed_retried;
    dead_spent = a.dead_spent;
  }

module _ {J : Type 0} (redis : Queues (RecordData J)) (prefix : String)
    (utf8 : List ℕ → Option String) where
  open redis use {
    Db, lpush, rpop, queue-lpush, counter-lpush, queue-rpop, counter-rpop, queue-incr, counter-incr,
  }

  -- The database accounts for every event.
  abbrev pub IsAccounted : Db → Type 0
  IsAccounted db =
      Accounted (waiting redis prefix utf8 db) (failures redis prefix utf8 db)
        (dead_letters redis prefix utf8 db) (metric redis prefix utf8 "enqueued" db)
        (metric redis prefix utf8 "completed" db)

  pub after_round-IsAccounted :
      (d : RecordData J) (ds : List (RecordData J)) (e : Option String) (now : ℕ) (db : Db)
      → waiting redis prefix utf8 db ≡ d ∷ ds
      → IsAccounted db
      → IsAccounted
          (after_round redis prefix utf8 d e now (rpop (queue_key redis prefix utf8) db).1)
  unfolding after_round incr_metric
  after_round-IsAccounted d ds none now db h a =
      let k = key-eq redis prefix utf8 in
      simp (queue-incr, counter-incr, queue-rpop, counter-rpop, k, h) (completes (rw h at a))
  after_round-IsAccounted d ds (some e) now db h a =
      let y = failed_data redis prefix utf8 d e now in
      let k = key-eq redis prefix utf8 in
      let db' = (rpop (queue_key redis prefix utf8) db).1 in
      simp
        (
          waiting-push_failure redis prefix utf8 y db',
          failures-push_failure redis prefix utf8 y db',
          dead_letters-push_failure redis prefix utf8 y db',
          metric-push_failure redis prefix utf8 "enqueued" y db' refl refl,
          metric-push_failure redis prefix utf8 "completed" y db' refl refl,
          queue-rpop,
          counter-rpop,
          k,
          h,
        )
        (fails y (rw h at a) refl)

  emptied-IsAccounted :
      (db : Db)
      → waiting redis prefix utf8 db ≡ []
      → IsAccounted db
      → IsAccounted (rpop (queue_key redis prefix utf8) db).1
  emptied-IsAccounted db h a =
      let k = key-eq redis prefix utf8 in simp (queue-rpop, counter-rpop, k, h) (rw h at a)

  module _ {R W : Type 0} (process : ℕ → WebhookEvent J → W → Result (ProcessResult J R) × W)
      (answers : Answers redis prefix utf8 process) where
    pub batch-IsAccounted :
        (n i : ℕ) (clock : ℕ → ℕ × ℕ) (results : List (EventRecord J)) (db : Db) (w : W)
        → IsAccounted db
        → IsAccounted (batch redis prefix utf8 process n i clock results (db, w)).1.0
    unfolding batch
    batch-IsAccounted zero i clock results db w a = a
    batch-IsAccounted (suc n) i clock results db w a =
        elim (List-cases (waiting redis prefix utf8 db)) [
          | inl empty ↦
              subst (λ p. IsAccounted p.1.0)
                (sym (batch-nil redis prefix utf8 process n i clock results w empty))
                (emptied-IsAccounted db empty a)
          | inr (d, ds, h) ↦
              let (r, answered) = answers i (deserialise_event d.event) w in
              let w' = (process i (deserialise_event d.event) w).1 in
              let e = is_failure redis prefix utf8 r in
              let (now, then_) = clock i in
              let db' =
                after_round redis prefix utf8 d e now (rpop (queue_key redis prefix utf8) db).1 in
              subst (λ p. IsAccounted p.1.0)
                (sym (batch-cons redis prefix utf8 process n i clock results w r h answered))
                (batch-IsAccounted n (i + 1) clock
                  (results ++ settled_record redis prefix utf8 d e now then_ ∷ []) db' w'
                  (after_round-IsAccounted d ds e now db h a))
        ]

    pub process_batch-IsAccounted :
        (max_events : ℤ) (clock : ℕ → ℕ × ℕ) (db : Db) (w : W)
        → IsAccounted db
        → IsAccounted (process_batch redis prefix utf8 process max_events clock (db, w)).1.0
    unfolding process_batch
    process_batch-IsAccounted max_events clock db w a =
        batch-IsAccounted (rounds redis prefix utf8 process max_events) 0 clock [] db w a

  pub enqueue-IsAccounted :
      (event : WebhookEvent J) (now : ℕ) (db : Db)
      → IsAccounted db
      → IsAccounted (enqueue redis prefix utf8 event now db).1
  unfolding enqueue push_event incr_metric
  enqueue-IsAccounted event now db a = go (serialise_event utf8 event)
    where
      go : (r : Result (EventData J)) → IsAccounted (push_event redis prefix utf8 now r db).1
      go (err x) = a
      go (ok d) =
          let k = key-eq redis prefix utf8 in
          let y = received_data redis prefix utf8 d now in
          simp (queue-incr, counter-incr, queue-lpush, counter-lpush, k) (enqueues y a refl)
