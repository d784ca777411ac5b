-- ===== src/EventProcessor.antt =====
-- kit-pay/kit_pay/event_processor.py: `EventProcessor` over a Redis that is a parameter. Its receiver is
-- a parameter too, a method on a state of its own: for each round of a batch, what `process` answers or
-- raises.
-- `utf8` is `bytes.decode`, which may fail. Times are whole microseconds.
pub mod Rounds
pub mod Accounting
pub mod Order
pub mod Trace
pub mod Retry
mod Tests
use kit_api_optimization.Prelude.{
  ℕ, zero, suc, ◌+◌, ℤ, pos, negsuc, leb, String, string_eq, ◌==◌, join, Dict, Bool, true, false,
  not, Option, none, some, List, [], ◌∷◌, ◌++◌, if◌then◌else◌,
}
use kit_api_optimization.Exceptions.{Error, Result, ok, err, Method, value_error}
use kit_api_optimization.Redis.Queues.{Queues}
use kit_api_optimization.WebhookReceiver.{Raw, bytes, str, WebhookEvent, ProcessResult}
use kit_api_optimization.WebhookReceiver as Webhook

pub data EventStatus : Type 0 where
  received processing completed failed dead_letter : EventStatus

pub record EventRecord (J : Type 0) : Type 0 where
  pub event : WebhookEvent J
  pub status : EventStatus
  pub attempts : ℕ
  pub last_error : Option String
  pub created_at : ℕ
  pub updated_at : ℕ

-- the dictionary of an event, as it is dumped
pub record EventData (J : Type 0) : Type 0 where
  pub id : J
  pub type : J
  pub provider : String
  pub data_ : Dict String J
  pub timestamp : ℕ
  pub raw : String

-- the dictionary of a record, as it is dumped
pub record RecordData (J : Type 0) : Type 0 where
  pub event : EventData J
  pub status : EventStatus
  pub attempts : ℕ
  pub last_error : Option String
  pub created_at : ℕ
  pub updated_at : ℕ

abbrev pub max_retries : ℕ
max_retries = 5

-- `raw.decode()` where it is bytes
pub raw_text : (List ℕ → Option String) → Raw → Result String
raw_text utf8 (str s) = ok s
raw_text utf8 (bytes b) = elim (utf8 b) [ none ↦ err value_error | some s ↦ ok s ]

module _ {J : Type 0} where
  abbrev with_raw : WebhookEvent J → Result String → Result (EventData J)
  with_raw event (err x) = err x
  with_raw event (ok s) = ok (record {
    id = event.id;
    type = event.type;
    provider = event.provider;
    data_ = event.data_;
    timestamp = event.timestamp;
    raw = s;
  })

  unfoldable pub serialise_event : (List ℕ → Option String) → WebhookEvent J → Result (EventData J)
  unfolding raw_text
  serialise_event utf8 event = with_raw event (raw_text utf8 event.raw)

  abbrev pub deserialise_event : EventData J → WebhookEvent J
  deserialise_event d = record {
    id = d.id;
    type = d.type;
    provider = d.provider;
    data_ = d.data_;
    timestamp = d.timestamp;
    raw = str d.raw;
  }

  module _ (redis : Queues (RecordData J)) (prefix : String) (utf8 : List ℕ → Option String) where
    open redis use {Db, counter, lpush, rpop, incr}

    abbrev pub queue_key : String
    queue_key = join (prefix ∷ ":queue" ∷ [])

    abbrev pub failed_key : String
    failed_key = join (prefix ∷ ":failed" ∷ [])

    abbrev pub dead_letter_key : String
    dead_letter_key = join (prefix ∷ ":dead_letter" ∷ [])

    abbrev pub metric_key : String → String
    metric_key name = join (prefix ∷ ":metrics:" ∷ name ∷ [])

    unfoldable pub incr_metric : String → Db → Db
    incr_metric name db = incr (metric_key name) db

    abbrev pub received_data : EventData J → ℕ → RecordData J
    received_data d now = record {
      event = d;
      status = received;
      attempts = 0;
      last_error = none;
      created_at = now;
      updated_at = now;
    }

    unfoldable pub push_event : ℕ → Result (EventData J) → Method Db (Unit {0})
    unfolding incr_metric
    push_event now (err x) db = (err x, db)
    push_event now (ok d) db =
        (ok tt, incr_metric "enqueued" (lpush queue_key (received_data d now) db))

    unfoldable pub enqueue : WebhookEvent J → ℕ → Method Db (Unit {0})
    unfolding push_event serialise_event
    enqueue event now db = push_event now (serialise_event utf8 event) db

    abbrev pub failure_data : EventRecord J → EventData J → RecordData J
    failure_data r d = record {
      event = d;
      status = failed;
      attempts = r.attempts;
      last_error = r.last_error;
      created_at = r.created_at;
      updated_at = r.updated_at;
    }

    -- the record goes to the dead letters after the last attempt, and to the failed ones before
    unfoldable pub push_failure : RecordData J → Db → Db
    unfolding incr_metric
    push_failure d db =
        if leb max_retries d.attempts
        then incr_metric "dead_letter" (lpush dead_letter_key d db)
        else incr_metric "failed" (lpush failed_key d db)

    failure_of : EventRecord J → Result (EventData J) → Method Db (Unit {0})
    unfolding push_failure
    failure_of r (err x) db = (err x, db)
    failure_of r (ok d) db = (ok tt, push_failure (failure_data r d) db)

    unfoldable pub handle_failure : EventRecord J → Method Db (Unit {0})
    unfolding failure_of serialise_event
    handle_failure r db = failure_of r (serialise_event utf8 r.event) db

    -- the record of an element of the queue, at the reading `now` of the clock
    abbrev pub attempted : RecordData J → ℕ → EventRecord J
    attempted d now = record {
      event = deserialise_event d.event;
      status = processing;
      attempts = d.attempts + 1;
      last_error = none;
      created_at = d.created_at;
      updated_at = now;
    }

    -- `result.error and result.status.value == "failed"`
    abbrev pub is_failure : {R : Type 0} → ProcessResult J R → Option String
    is_failure r = elim r.status [
      | Webhook.success ↦ none
      | Webhook.skipped ↦ none
      | Webhook.failed ↦ elim r.error [ none ↦ none | some e ↦ if e == "" then none else some e ]
    ]

    -- The record once the receiver has answered, and what is written of it.
    unfoldable pub settle : EventRecord J → Option String → ℕ → Method Db (EventRecord J)
    unfolding handle_failure incr_metric
    settle r none now db =
        (ok (record r { status = completed; updated_at = now }), incr_metric "completed" db)
    settle r (some e) now db =
        let (failure, db') =
          handle_failure (record r { status = failed; last_error = some e }) db in
        elim failure [
          | ok _ ↦ (ok (record r { status = failed; last_error = some e; updated_at = now }), db')
          | err x ↦ (err x, db')
        ]

    module _ {R W : Type 0}
        (process : ℕ → WebhookEvent J → W → Result (ProcessResult J R) × W) where
      -- The end of a round, for the outcome of its record; `next` has the rounds after it.
      abbrev pub continue_batch :
          List (EventRecord J)
          → W
          → (List (EventRecord J) → Method (Db × W) (List (EventRecord J)))
          → Result (EventRecord J) × Db
          → Result (List (EventRecord J)) × (Db × W)
      continue_batch results w next (ok r, db) = next (results ++ r ∷ []) (db, w)
      continue_batch results w next (err x, db) = (err x, (db, w))

      -- the record of a round, for what the receiver has come to; what it raises is not caught
      abbrev pub received_answer :
          RecordData J → ℕ × ℕ → Result (ProcessResult J R) → Method Db (EventRecord J)
      received_answer d times (err x) db = (err x, db)
      received_answer d times (ok r) db = settle (attempted d times.0) (is_failure r) times.1 db

      -- A round, for what RPOP has answered, with its number, the two readings of the clock in each
      -- round and the records so far.
      unfoldable pub round :
          ℕ
          → (ℕ → ℕ × ℕ)
          → List (EventRecord J)
          → W
          → (List (EventRecord J) → Method (Db × W) (List (EventRecord J)))
          → Option (RecordData J) × Db
          → Result (List (EventRecord J)) × (Db × W)
      unfolding settle
      round i clock results w next (none, db) = (ok results, (db, w))
      round i clock results w next (some d, db) =
          let (r, w') = process i (deserialise_event d.event) w in
          continue_batch results w' next (received_answer d (clock i) r db)

      -- the rounds that are left
      unfoldable pub batch :
          ℕ → ℕ → (ℕ → ℕ × ℕ) → List (EventRecord J) → Method (Db × W) (List (EventRecord J))
      unfolding round
      batch zero i clock results (db, w) = (ok results, (db, w))
      batch (suc left) i clock results (db, w) =
          round i clock results w (batch left (i + 1) clock) (rpop queue_key db)

      -- `range(max_events)`
      abbrev pub rounds : ℤ → ℕ
      rounds (pos n) = n
      rounds (negsuc n) = 0

      unfoldable pub process_batch : ℤ → (ℕ → ℕ × ℕ) → Method (Db × W) (List (EventRecord J))
      unfolding batch
      process_batch max_events clock = batch (rounds max_events) 0 clock []

    abbrev pub requeued : RecordData J → ℕ → RecordData J
    requeued d now = record d { status = received; updated_at = now }

    -- one record that `retry_failed` has taken, with the number of those it has put back
    unfoldable pub retry : RecordData J → ℕ → ℕ → Db → ℕ × Db
    unfolding incr_metric
    retry d now count db =
        if leb max_retries d.attempts
        then (count, incr_metric "dead_letter" (lpush dead_letter_key d db))
        else (count + 1, incr_metric "retried" (lpush queue_key (requeued d now) db))

    -- a round of `while True`, for what RPOP has answered; `next` has the rounds after it
    unfoldable pub retry_round :
        ℕ → ℕ → (ℕ → Db → Option (ℕ × Db)) → Option (RecordData J) × Db → Option (ℕ × Db)
    unfolding retry
    retry_round now count next (none, db) = some (count, db)
    retry_round now count next (some d, db) =
        let (count', db') = retry d now count db in next count' db'

    -- the rounds, with fuel; `clock` is read once a round
    unfoldable pub retry_loop : ℕ → ℕ → (ℕ → ℕ) → ℕ → Db → Option (ℕ × Db)
    unfolding retry_round
    retry_loop zero i clock count db = none
    retry_loop (suc fuel) i clock count db =
        retry_round (clock i) count (retry_loop fuel (i + 1) clock) (rpop failed_key db)

    unfoldable pub retry_failed : ℕ → (ℕ → ℕ) → Db → Option (ℕ × Db)
    unfolding retry_loop
    retry_failed fuel clock db = retry_loop fuel 0 clock 0 db

    -- `int(val) if val else 0`, for each of the names
    pub metrics_of : List String → Db → Dict String ℕ
    metrics_of [] db = []
    metrics_of (name ∷ names) db = (name, counter (metric_key name) db) ∷ metrics_of names db

    unfoldable pub get_metrics : Db → Dict String ℕ
    unfolding metrics_of
    get_metrics db =
        metrics_of ("enqueued" ∷ "completed" ∷ "failed" ∷ "retried" ∷ "dead_letter" ∷ []) db
