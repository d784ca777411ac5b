-- ===== src/WebhookReceiver/Tests.antt =====
-- `WebhookReceiver` at concrete inputs, on the Redis of `Redis.Memory`. A JSON value is a text, and a
-- handler counts its calls.
use kit_api_optimization.Prelude.{
  ℕ, ◌+◌, String, string_eq, ◌==◌, Dict, not, ◌≡◌, refl, none, some, [], ◌∷◌, arith,
}
use kit_api_optimization.Exceptions.{Result, ok, err, value_error, type_error}
use kit_api_optimization.Redis.Memory.{expiring}
use kit_api_optimization.WebhookReceiver.{
  Raw, str, success, skipped, failed, WebhookEvent, Json, Handler, Handlers, parse,
  register_handler, run_handlers, process, result, dispatch, settle,
}
use kit_api_optimization.WebhookReceiver.Dedup.{process_once}

abbrev json : Json String
json = record {
  quote = λ s. s;
  show = λ s. s;
  float = λ s. ok 7;
  message = λ e. "failed";
  is_hashable = λ j. not (j == "{}");
}

abbrev loads : Raw → Result (Dict String String)
loads raw = ok (("event_type", "invoice.paid") ∷ ("notification_id", "n1") ∷ [])

abbrev event : WebhookEvent String
event = record {
  id = "n1";
  type = "invoice.paid";
  provider = "paddle";
  data_ = ("event_type", "invoice.paid") ∷ ("notification_id", "n1") ∷ [];
  timestamp = 5;
  raw = str "{}";
}

abbrev counting : Handler String ℕ ℕ
counting e calls = (ok calls, calls + 1)

abbrev failing : Handler String ℕ ℕ
failing e calls = (err value_error, calls)

abbrev handlers : Handlers String ℕ ℕ
handlers = ("invoice.paid", counting ∷ counting ∷ []) ∷ []

parsed_paddle : parse json loads (str "{}") "paddle" 5 ≡ ok event
unfolding parse
parsed_paddle = refl

registered :
    register_handler "invoice.paid" counting (register_handler "invoice.paid" counting [])
    ≡ handlers
unfolding register_handler
registered = refl

failure_keeps_results :
    (process
      (expiring String)
      json
      "kit:webhook"
      (("invoice.paid", counting ∷ failing ∷ counting ∷ []) ∷ [])
      event
      1
      2
      ([], 0))
    ≡ (ok (result event failed (0 ∷ []) (some "failed")), ([], 1))
unfolding process dispatch settle run_handlers
failure_keeps_results = refl

-- a type that is an object
unhashable_type :
    process (expiring String) json "kit:webhook" handlers (record event { type = "{}" }) 1 2 ([], 0)
    ≡ (err type_error, ([], 0))
unfolding process
unhashable_type = refl

succeeds :
    (process (expiring String) json "kit:webhook" handlers event 1 2 ([], 0)).0
    ≡ ok (result event success (0 ∷ 1 ∷ []) none)
unfolding process dispatch settle run_handlers
succeeds = refl

process_once_example :
    let (r, (db', w')) = process (expiring String) json "kit:webhook" handlers event 1 2 ([], 0) in
    process (expiring String) json "kit:webhook" handlers event 3 4 (db', w')
    ≡ (ok (result event skipped [] (some "duplicate event")), (db', w'))
process_once_example =
    process_once (expiring String) json "kit:webhook" handlers event 1 2 3 4 [] 0
      (result event success (0 ∷ 1 ∷ []) none) succeeds refl (omega arith)
