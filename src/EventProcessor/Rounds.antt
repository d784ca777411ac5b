-- ===== src/EventProcessor/Rounds.antt =====
-- One round of `process_batch` of `EventProcessor` (kit-pay/kit_pay/event_processor.py), and what it
-- does to the three lists and the counters.
use kit_api_optimization.Prelude.{
  ℕ, suc, ◌+◌, leb, String, ◌==◌, eq-append_left, join, false, Bool-cases, inl, inr, ◌≡◌, refl, ap,
  ◌∙◌, Option, none, some, List, [], ◌∷◌, ◌++◌, if◌then◌else◌,
}
use kit_api_optimization.Exceptions.{Result, ok}
use kit_api_optimization.Redis.Queues.{first, Queues}
use kit_api_optimization.WebhookReceiver.{WebhookEvent, ProcessResult}
use kit_api_optimization.EventProcessor.{
  EventRecord, RecordData, completed, failed, max_retries, deserialise_event, serialise_event,
  raw_text, queue_key, failed_key, dead_letter_key, metric_key, incr_metric, push_failure,
  handle_failure, attempted, is_failure, settle, round, received_answer, continue_batch, batch,
  failure_of,
}

module _ {J : Type 0} (redis : Queues (RecordData J)) (prefix : String)
    (utf8 : List ℕ → Option String) where
  open redis use {
    Db, queue, counter, lpush, rpop, incr, queue-lpush, counter-lpush, rpop-first, queue-rpop,
    counter-rpop, queue-incr, counter-incr,
  }

  -- The three lists, in the order in which RPOP takes their elements.
  abbrev pub waiting : Db → List (RecordData J)
  waiting db = queue (queue_key redis prefix utf8) db

  abbrev pub failures : Db → List (RecordData J)
  failures db = queue (failed_key redis prefix utf8) db

  abbrev pub dead_letters : Db → List (RecordData J)
  dead_letters db = queue (dead_letter_key redis prefix utf8) db

  abbrev pub metric : String → Db → ℕ
  metric name db = counter (metric_key redis prefix utf8 name) db

  pub key-eq : (s t : String) → (join (prefix ∷ s ∷ []) == join (prefix ∷ t ∷ [])) ≡ (s == t)
  key-eq s t = eq-append_left prefix s t

  pub metric-eq :
      (s t : String) → (metric_key redis prefix utf8 s == metric_key redis prefix utf8 t) ≡ (s == t)
  metric-eq s t =
      eq-append_left prefix (join (":metrics:" ∷ s ∷ [])) (join (":metrics:" ∷ t ∷ []))
      ∙ eq-append_left ":metrics:" s t

  -- the record of a round, by whether the receiver failed
  abbrev pub settled_record : RecordData J → Option String → ℕ → ℕ → EventRecord J
  settled_record d none now then_ = record (attempted redis prefix utf8 d now) {
    status = completed;
    updated_at = then_;
  }
  settled_record d (some e) now then_ = record (attempted redis prefix utf8 d now) {
    status = failed;
    last_error = some e;
    updated_at = then_;
  }

  -- what is dumped of a failed attempt
  abbrev pub failed_data : RecordData J → String → ℕ → RecordData J
  failed_data d e now = record d {
    status = failed;
    attempts = d.attempts + 1;
    last_error = some e;
    updated_at = now;
  }

  -- the database after a round that has taken `d`
  unfoldable pub after_round : RecordData J → Option String → ℕ → Db → Db
  after_round d none now db = incr_metric redis prefix utf8 "completed" db
  after_round d (some e) now db = push_failure redis prefix utf8 (failed_data d e now) db

  pub settle-eq :
      (d : RecordData J) (e : Option String) (now then_ : ℕ) (db : Db)
      → settle redis prefix utf8 (attempted redis prefix utf8 d now) e then_ db
        ≡ (ok (settled_record d e now then_), after_round d e now db)
  unfolding settle after_round handle_failure failure_of serialise_event raw_text
  settle-eq d none now then_ db = refl
  settle-eq d (some e) now then_ db = refl

  pub waiting-push_failure :
      (d : RecordData J) (db : Db) → waiting (push_failure redis prefix utf8 d db) ≡ waiting db
  unfolding push_failure incr_metric
  waiting-push_failure d db = elim (Bool-cases (leb max_retries d.attempts)) [
    | inl last ↦ simp (last, queue-incr, queue-lpush, key-eq) refl
    | inr more ↦ simp (more, queue-incr, queue-lpush, key-eq) refl
  ]

  pub failures-push_failure :
      (d : RecordData J) (db : Db)
      → failures (push_failure redis prefix utf8 d db)
        ≡ (if leb max_retries d.attempts then failures db else failures db ++ d ∷ [])
  unfolding push_failure incr_metric
  failures-push_failure d db = elim (Bool-cases (leb max_retries d.attempts)) [
    | inl last ↦ simp (last, queue-incr, queue-lpush, key-eq) refl
    | inr more ↦ simp (more, queue-incr, queue-lpush, key-eq) refl
  ]

  pub dead_letters-push_failure :
      (d : RecordData J) (db : Db)
      → dead_letters (push_failure redis prefix utf8 d db)
        ≡ (if leb max_retries d.attempts then dead_letters db ++ d ∷ [] else dead_letters db)
  unfolding push_failure incr_metric
  dead_letters-push_failure d db = elim (Bool-cases (leb max_retries d.attempts)) [
    | inl last ↦ simp (last, queue-incr, queue-lpush, key-eq) refl
    | inr more ↦ simp (more, queue-incr, queue-lpush, key-eq) refl
  ]

  pub metric-push_failure :
      (name : String) (d : RecordData J) (db : Db)
      → ("dead_letter" == name) ≡ false
      → ("failed" == name) ≡ false
      → metric name (push_failure redis prefix utf8 d db) ≡ metric name db
  unfolding push_failure incr_metric
  metric-push_failure name d db dead fails = elim (Bool-cases (leb max_retries d.attempts)) [
    | inl last ↦ simp (last, counter-incr, counter-lpush, metric-eq, dead) refl
    | inr more ↦ simp (more, counter-incr, counter-lpush, metric-eq, fails) refl
  ]

  pub rpop-some :
      (k : String) (db : Db) {d : RecordData J} {ds : List (RecordData J)}
      → queue k db ≡ d ∷ ds
      → rpop k db ≡ (some d, (rpop k db).1)
  rpop-some k db h = ap (λ o. (o, (rpop k db).1)) (rpop-first k db ∙ ap first h)

  pub rpop-none : (k : String) (db : Db) → queue k db ≡ [] → rpop k db ≡ (none, (rpop k db).1)
  rpop-none k db h = ap (λ o. (o, (rpop k db).1)) (rpop-first k db ∙ ap first h)

  module _ {R W : Type 0} (process : ℕ → WebhookEvent J → W → Result (ProcessResult J R) × W) where
    -- The receiver raises nothing.
    abbrev pub Answers : Type 0
    Answers =
        (i : ℕ) (event : WebhookEvent J) (w : W)
        → (r : ProcessResult J R) × ((process i event w).0 ≡ ok r)

    -- A round that finds an element, and one that does not.
    pub batch-cons :
        (left i : ℕ) (clock : ℕ → ℕ × ℕ) (results : List (EventRecord J)) (w : W)
        (r : ProcessResult J R) {db : Db} {d : RecordData J} {ds : List (RecordData J)}
        → waiting db ≡ d ∷ ds
        → (process i (deserialise_event d.event) w).0 ≡ ok r
        → let e = is_failure redis prefix utf8 r in
          let (now, then_) = clock i in
          batch redis prefix utf8 process (suc left) i clock results (db, w)
          ≡ batch redis prefix utf8 process left
              (i + 1)
              clock
              (results ++ settled_record d e now then_ ∷ [])
              (
                after_round d e now (rpop (queue_key redis prefix utf8) db).1,
                (process i (deserialise_event d.event) w).1,
              )
    unfolding batch round
    batch-cons left i clock results w r {db} {d} {ds} h answers =
        let w' = (process i (deserialise_event d.event) w).1 in
        let next = batch redis prefix utf8 process left (i + 1) clock in
        let (now, then_) = clock i in
        let db' = (rpop (queue_key redis prefix utf8) db).1 in
        ap (round redis prefix utf8 process i clock results w next)
          (rpop-some (queue_key redis prefix utf8) db h)
        ∙ ap
            (λ x.
              continue_batch redis prefix utf8 process results w' next
                (received_answer redis prefix utf8 process d (clock i) x db'))
            answers
        ∙ ap (continue_batch redis prefix utf8 process results w' next)
            (settle-eq d (is_failure redis prefix utf8 r) now then_ db')

    pub batch-nil :
        (left i : ℕ) (clock : ℕ → ℕ × ℕ) (results : List (EventRecord J)) (w : W) {db : Db}
        → waiting db ≡ []
        → batch redis prefix utf8 process (suc left) i clock results (db, w)
          ≡ (ok results, ((rpop (queue_key redis prefix utf8) db).1, w))
    unfolding batch round
    batch-nil left i clock results w {db} h =
        ap
          (round redis prefix utf8 process i clock results w
            (batch redis prefix utf8 process left (i + 1) clock))
          (rpop-none (queue_key redis prefix utf8) db h)
