-- ===== src/EventProcessor/Tests.antt =====
-- `EventProcessor` at concrete inputs, with the receiver of `WebhookReceiver` on a Redis of its own.
use kit_api_optimization.Prelude.{
  ℕ, ◌+◌, ◌*◌, String, string_eq, take, drop, ◌≡◌, refl, pos, true, false, Bool-cases, inl, inr,
  Option, none, some, List, [], ◌∷◌, map, arith,
}
use kit_api_optimization.Exceptions.{Result, ok, err, value_error, type_error}
use kit_api_optimization.Redis.Persistent.{Value}
use kit_api_optimization.Redis.Memory.{expiring, queues}
use kit_api_optimization.WebhookReceiver.{str, WebhookEvent, ProcessResult, Json, Handler, Handlers}
use kit_api_optimization.WebhookReceiver as Webhook
use kit_api_optimization.EventProcessor.{
  failed, EventRecord, EventData, RecordData, process_batch, retry_failed, batch, round, settle,
  incr_metric,
}
use kit_api_optimization.EventProcessor.Rounds.{waiting, failures, Answers}
use kit_api_optimization.WebhookReceiver.Dedup.{seen_at}
use kit_api_optimization.EventProcessor.Order.{shown, expected, process_batch-Fifo}
use kit_api_optimization.EventProcessor.Retry.{Requeues, retry_failed-Requeues}
use kit_api_optimization.EventProcessor.Accounting.{IsAccounted}
use kit_api_optimization.EventProcessor.Trace.{
  Call, enqueued, batched, retried, run, run-IsAccounted,
}

-- the text of an exception
abbrev json_with : String → Json String
json_with text = record {
  quote = λ s. s;
  show = λ s. s;
  float = λ s. ok 7;
  message = λ e. text;
  is_hashable = λ j. true;
}

abbrev event : WebhookEvent String
event = record {
  id = "n1";
  type = "invoice.paid";
  provider = "stripe";
  data_ = [];
  timestamp = 5;
  raw = str "{}";
}

abbrev failing : Handler String ℕ ℕ
failing e calls = (err value_error, calls + 1)

abbrev handlers : Handlers String ℕ ℕ
handlers = ("invoice.paid", failing ∷ []) ∷ []

abbrev Seen : Type 0
Seen = List (String × (Value String × ℕ))

abbrev receiver :
    String → ℕ → WebhookEvent String → Seen × ℕ → Result (ProcessResult String ℕ) × (Seen × ℕ)
receiver text i e s =
    Webhook.process (expiring String) (json_with text) "kit:webhook" handlers e (10 * i)
      (10 * i + 1) s

abbrev utf8 : List ℕ → Option String
utf8 b = none

-- the receiver answers, since every type is hashable
receiver-Answers : Answers (queues (RecordData String)) "kit:events" utf8 (receiver "failed")
unfolding Webhook.process Webhook.dispatch_found
receiver-Answers i e (db, w) =
    elim (Bool-cases (seen_at (expiring String) (json_with "failed") "kit:webhook" e (10 * i) db)) [
      | inl marked ↦ rw marked (_, refl)
      | inr new ↦ rw new (_, refl)
    ]

abbrev clock : ℕ → ℕ × ℕ
clock i = (10 * i, 10 * i + 2)

abbrev data_of : EventData String
data_of = record {
  id = "n1";
  type = "invoice.paid";
  provider = "stripe";
  data_ = [];
  timestamp = 5;
  raw = "{}";
}

-- the record of the event, after some attempts
abbrev tried : ℕ → RecordData String
tried n = record {
  event = data_of;
  status = failed;
  attempts = n;
  last_error = some "failed";
  created_at = 1;
  updated_at = 2;
}

abbrev Db : Type 0
Db = List (String × List (RecordData String)) × List (String × ℕ)

abbrev waiting_db : Db
waiting_db =
    (("kit:events:queue", tried 1 ∷ tried 2 ∷ []) ∷ [], ("kit:events:metrics:enqueued", 2) ∷ [])

abbrev failed_db : Db
failed_db = (("kit:events:failed", tried 1 ∷ tried 5 ∷ []) ∷ [], [])

process_batch-Fifo_example :
    let (r, (db', w')) =
      process_batch
        (queues (RecordData String))
        "kit:events"
        utf8
        (receiver "failed")
        (pos 1)
        clock
        (waiting_db, ([], 0)) in
    let q = waiting (queues (RecordData String)) "kit:events" utf8 waiting_db in
    (records : List (EventRecord String)) × (r ≡ ok records)
    × (map shown records ≡ map expected (take 1 q))
    × (waiting (queues (RecordData String)) "kit:events" utf8 db' ≡ drop 1 q)
process_batch-Fifo_example =
    process_batch-Fifo (queues (RecordData String)) "kit:events" utf8 (receiver "failed")
      receiver-Answers 1 clock waiting_db ([], 0)

retry_failed-Requeues_example :
    (count : ℕ) × (after : Db) × (retry_failed
        (queues (RecordData String))
        "kit:events"
        utf8
        3
        (λ i. i)
        failed_db
      ≡ some (count, after))
    × Requeues
        (queues (RecordData String))
        "kit:events"
        utf8
        failed_db
        (failures (queues (RecordData String)) "kit:events" utf8 failed_db)
        count
        after
retry_failed-Requeues_example =
    retry_failed-Requeues (queues (RecordData String)) "kit:events" utf8 3 (λ i. i) failed_db
      (omega arith)

abbrev calls : List (Call String)
calls = enqueued event 1 ∷ batched (pos 3) clock ∷ retried (λ i. i) ∷ batched (pos 1) clock ∷ []

start-IsAccounted : IsAccounted (queues (RecordData String)) "kit:events" utf8 ([], [])
start-IsAccounted = record {
  balanced = refl;
  waiting_retried = tt;
  failed_retried = tt;
  dead_spent = tt;
}

run-IsAccounted_example :
    IsAccounted
      (queues (RecordData String))
      "kit:events"
      utf8
      (run
        (queues (RecordData String))
        "kit:events"
        utf8
        (receiver "failed")
        calls
        (([], []), ([], 0))).0
run-IsAccounted_example =
    run-IsAccounted (queues (RecordData String)) "kit:events" utf8 (receiver "failed")
      receiver-Answers calls (([], []), ([], 0)) start-IsAccounted

-- An exception whose text is empty counts as no failure: the event is completed.
blank_failure :
    (process_batch
      (queues (RecordData String))
      "kit:events"
      utf8
      (receiver "")
      (pos 1)
      clock
      (waiting_db, ([], 0))).1.0
    ≡ (
      ("kit:events:queue", tried 2 ∷ []) ∷ [],
      ("kit:events:metrics:completed", 1) ∷ ("kit:events:metrics:enqueued", 2) ∷ [],
    )
unfolding process_batch batch round settle incr_metric Webhook.process Webhook.dispatch
    Webhook.settle Webhook.run_handlers
blank_failure = refl

abbrev unhashable : Json String
unhashable = record (json_with "failed") { is_hashable = λ j. false }

abbrev raising : ℕ → WebhookEvent String → Seen × ℕ → Result (ProcessResult String ℕ) × (Seen × ℕ)
raising i e s = Webhook.process (expiring String) unhashable "kit:webhook" handlers e i i s

-- An event whose type is an object is taken from the queue, and lost when the receiver raises.
unhashable_lost :
    process_batch
      (queues (RecordData String))
      "kit:events"
      utf8
      raising
      (pos 1)
      clock
      (waiting_db, ([], 0))
    ≡ (
      err type_error,
      ((("kit:events:queue", tried 2 ∷ []) ∷ [], ("kit:events:metrics:enqueued", 2) ∷ []), ([], 0)),
    )
unfolding process_batch batch round Webhook.process Webhook.dispatch_found
unhashable_lost = refl
