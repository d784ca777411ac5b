-- ===== src/EventProcessor/Order.antt =====
-- The order in which `process_batch` of `EventProcessor` (kit-pay/kit_pay/event_processor.py) takes
-- the events of the queue.
use mathlib.Core.List.{append-nil, append_assoc}
use mathlib.Core.Path.{subst}
use kit_api_optimization.Prelude.{
  ℕ, zero, suc, ◌+◌, String, take, drop, ◌≡◌, refl, sym, ap, ap₂, ◌∙◌, Option, none, some, List, [],
  ◌∷◌, ◌++◌, map, pos,
}
use kit_api_optimization.Exceptions.{Result, ok}
use kit_api_optimization.Redis.Queues.{Queues}
use kit_api_optimization.WebhookReceiver.{WebhookEvent, ProcessResult}
use kit_api_optimization.EventProcessor.{
  EventRecord, RecordData, deserialise_event, queue_key, incr_metric, is_failure, batch,
  process_batch,
}
use kit_api_optimization.EventProcessor.Rounds.{
  waiting, key-eq, after_round, settled_record, waiting-push_failure, Answers, batch-cons,
  batch-nil,
}

-- What a record tells of its attempt: the event and the number of the attempt.
abbrev pub shown : {J : Type 0} → EventRecord J → WebhookEvent J × ℕ
shown r = (r.event, r.attempts)

-- What is expected of an element of the queue.
abbrev pub expected : {J : Type 0} → RecordData J → WebhookEvent J × ℕ
expected d = (deserialise_event d.event, d.attempts + 1)

module _ {J : Type 0} (redis : Queues (RecordData J)) (prefix : String)
    (utf8 : List ℕ → Option String) where
  open redis use {Db, rpop, queue-rpop, queue-incr}

  waiting-after_round :
      (d : RecordData J) (ds : List (RecordData J)) (e : Option String) (now : ℕ) (db : Db)
      → waiting redis prefix utf8 db ≡ d ∷ ds
      → waiting redis prefix utf8
          (after_round redis prefix utf8 d e now (rpop (queue_key redis prefix utf8) db).1)
        ≡ ds
  unfolding after_round incr_metric
  waiting-after_round d ds none now db h =
      simp (queue-incr, queue-rpop, key-eq redis prefix utf8, h) refl
  waiting-after_round d ds (some e) now db h =
      simp (waiting-push_failure, queue-rpop, key-eq redis prefix utf8, h) refl

  shown-settled_record :
      (d : RecordData J) (e : Option String) (now then_ : ℕ)
      → shown (settled_record redis prefix utf8 d e now then_) ≡ expected d
  shown-settled_record d none now then_ = refl
  shown-settled_record d (some e) now then_ = refl

  module _ {R W : Type 0} (process : ℕ → WebhookEvent J → W → Result (ProcessResult J R) × W)
      (answers : Answers redis prefix utf8 process) where
    batch_lem :
        (n i : ℕ) (clock : ℕ → ℕ × ℕ) (results : List (EventRecord J)) (q : List (RecordData J))
        (db : Db) (w : W)
        → waiting redis prefix utf8 db ≡ q
        → let (r, (db', w')) = batch redis prefix utf8 process n i clock results (db, w) in
          (records : List (EventRecord J)) × (r ≡ ok (results ++ records))
          × (map shown records ≡ map expected (take n q))
          × (waiting redis prefix utf8 db' ≡ drop n q)
    unfolding batch
    batch_lem zero i clock results q db w h = ([], ap ok (sym (append-nil results)), refl, h)
    batch_lem (suc n) i clock results [] db w h =
        subst
          (λ p.
            (records : List (EventRecord J)) × (p.0 ≡ ok (results ++ records))
            × (map shown records ≡ [])
            × (waiting redis prefix utf8 p.1.0 ≡ []))
          (sym (batch-nil redis prefix utf8 process n i clock results w h))
          (
            [],
            ap ok (sym (append-nil results)),
            refl,
            simp (queue-rpop, key-eq redis prefix utf8, h) refl,
          )
    batch_lem (suc n) i clock results (d ∷ ds) db w h =
        let (r, answered) = answers i (deserialise_event d.event) w in
        let w' = (process i (deserialise_event d.event) w).1 in
        let e = is_failure redis prefix utf8 r in
        let (now, then_) = clock i in
        let record_ = settled_record redis prefix utf8 d e now then_ in
        let db' = after_round redis prefix utf8 d e now (rpop (queue_key redis prefix utf8) db).1 in
        let (records, came, same, left) =
          batch_lem n (i + 1) clock (results ++ record_ ∷ []) ds db' w'
            (waiting-after_round d ds e now db h) in
        subst
          (λ p.
            (records : List (EventRecord J)) × (p.0 ≡ ok (results ++ records))
            × (map shown records ≡ expected d ∷ map expected (take n ds))
            × (waiting redis prefix utf8 p.1.0 ≡ drop n ds))
          (sym (batch-cons redis prefix utf8 process n i clock results w r h answered))
          (
            record_ ∷ records,
            came ∙ ap ok (append_assoc results (record_ ∷ []) records),
            ap₂ ◌∷◌ (shown-settled_record d e now then_) same,
            left,
          )

    -- `process_batch` returns, whatever the receiver answers, if it raises nothing. It takes the first `max_events` elements
    -- of the queue, or all if there are fewer, in their order, and leaves the others: the records that
    -- it returns are those of their events, each with one attempt more than before.
    pub process_batch-Fifo :
        (n : ℕ) (clock : ℕ → ℕ × ℕ) (db : Db) (w : W)
        → let (r, (db', w')) = process_batch redis prefix utf8 process (pos n) clock (db, w) in
          let q = waiting redis prefix utf8 db in
          (records : List (EventRecord J)) × (r ≡ ok records)
          × (map shown records ≡ map expected (take n q))
          × (waiting redis prefix utf8 db' ≡ drop n q)
    unfolding process_batch
    process_batch-Fifo n clock db w =
        batch_lem n 0 clock [] (waiting redis prefix utf8 db) db w refl
