-- ===== src/ExampleApp/Tests.antt =====
-- The example application at concrete inputs, on the Redis of `Redis.Memory`.
use kit_api_optimization.Prelude.{ℕ, pos, String, string_eq, Dict, ◌≡◌, refl, true, [], arith}
use kit_api_optimization.Exceptions.{Result, ok}
use kit_api_optimization.Redis.Memory.{sorted, expiring}
use kit_api_optimization.RateLimiter as Scripted
use kit_api_optimization.WebhookReceiver.{Raw, str, Json}
use kit_api_optimization.ExampleApp.{http, returned}
use kit_api_optimization.ExampleApp.SimpleLimiter.{
  SimpleRateLimiter, acquire, remaining, reset, scripted, simple-Scripted,
}
use kit_api_optimization.ExampleApp.Limits.{retry_demo, retry_demo-attempts}
use kit_api_optimization.ExampleApp.Payments.{receive_webhook, receive_webhook_unsigned}
use kit_api_optimization.ExampleApp.Orders.{Times, cache, new, create_order_idempotent, order_once}
use kit_api_optimization.CdnRouter.{Texts}
use kit_api_optimization.Idempotency.{CachedResponse}

abbrev limiter : SimpleRateLimiter
limiter = record { max_requests = pos 10; window_seconds = pos 60 }

simple-Scripted_example :
    (acquire sorted limiter "user-1" "5-a" 5 5 []
      ≡ Scripted.acquire sorted (scripted sorted limiter) "user-1" "5-a" 5 5 [])
    × (remaining sorted limiter "user-1" 5 5 []
        ≡ Scripted.remaining sorted (scripted sorted limiter) "user-1" 5 5 [])
    × (reset sorted limiter "user-1" 5 []
        ≡ Scripted.reset sorted (scripted sorted limiter) "user-1" 5 [])
simple-Scripted_example = simple-Scripted sorted limiter "user-1" "5-a" 5 5 []

abbrev longest : ℕ → ℕ → ℕ
longest attempt x = x

abbrev times : Times
times = record { checked = 1; asked = 2; stored = 3 }

abbrev later : Times
later = record { checked = 50; asked = 51; stored = 52 }

order_once_example :
    let (r, db') = create_order_idempotent (expiring (CachedResponse String)) "k" "o1" times [] in
    (r ≡ ok (returned (new "o1")))
    × (create_order_idempotent (expiring (CachedResponse String)) "k" "o2" later db'
        ≡ (ok (returned (cache "o1")), db'))
order_once_example =
    order_once (expiring (CachedResponse String)) "k" "o1" "o2" times later [] refl refl
      (omega arith)

abbrev json : Json String
json = record {
  quote = λ s. s;
  show = λ s. s;
  float = λ s. ok 7;
  message = λ e. "failed";
  is_hashable = λ j. true;
}

abbrev loads : Raw → Result (Dict String String)
loads raw = ok []

abbrev hexdigest : String → Raw → String
hexdigest secret payload = "d1"

-- four failures are one too many
exhausted : (retry_demo longest (pos 4) (9, [])).0 ≡ ok (http 502 4)
exhausted = retry_demo-attempts longest (pos 4) 9 []

wrong_signature :
    receive_webhook (expiring Unit) json loads hexdigest "stripe" (str "body") "d2" 5 6 7 ([], [])
    ≡ (ok (http 401 tt), ([], []))
wrong_signature =
    receive_webhook_unsigned (expiring Unit) json loads hexdigest "stripe" (str "body") "d2" 5 6 7
      ([], []) refl refl

abbrev texts : Texts
texts = record { lower = λ s. s; decimal = λ n. "9"; hexdigest = λ key s. "ff" }
