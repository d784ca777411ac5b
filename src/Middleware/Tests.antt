-- ===== src/Middleware/Tests.antt =====
-- `KitAPIMiddleware` at concrete inputs, on the Redis of `Redis.Memory`. A JSON value and a content are
-- texts, and the application counts the requests that it sees.
use kit_api_optimization.Prelude.{
  ℕ, ◌+◌, ◌-ℤ◌, pos, String, string_eq, ◌≡◌, refl, none, some, List, [], ◌∷◌, arith,
}
use kit_api_optimization.Exceptions.{ok, err, Method, value_error}
use kit_api_optimization.Redis.Persistent.{Value}
use kit_api_optimization.Redis.Expiring.{Expiring}
use kit_api_optimization.Redis.Memory.{sorted, expiring}
use kit_api_optimization.Redis.Sorted.{Entry, above, step}
use kit_api_optimization.RateLimiter.{acquire, script, remaining}
use kit_api_optimization.Idempotency.{CachedResponse}
use kit_api_optimization.Middleware.{
  Request, Response, Codec, KitApiMiddleware, Times, client_key, handle, in_progress, bytes, str,
  body_bytes,
}
use kit_api_optimization.Middleware.Once.{limited_db, Admitted, locked_for, handle-raises}

abbrev codec : Codec String String
codec = record {
  first_address = λ f. f;
  show = λ n. "n";
  error_body = λ e detail. detail;
  dict_of = λ headers. headers;
  json_response = λ body status headers.
      ok (record { status_code = status; content = body; headers = headers });
}

abbrev middleware : KitApiMiddleware
middleware = record {
  rate_limiter = record { max_requests = pos 3; window_seconds = pos 60; key_prefix = "kit:rl" };
  idempotency_store = record { key_prefix = "kit:idem" };
  idempotency_ttl = pos 3600;
}

abbrev post : Request
post = record { method = "POST"; forwarded = none; host = some "10.0.0.1"; idem_key = some "k" }

abbrev times : ℕ → String → Times
times n member = record {
  member = member;
  limited = n;
  limited_at = n;
  checked = n + 1;
  asked = n + 2;
  stored = n + 3;
  counted = n + 4;
  counted_at = n + 4;
}

abbrev Limits : Type 0
Limits = List (String × Entry)

abbrev Responses : Type 0
Responses = List (String × (Value (CachedResponse String) × ℕ))

abbrev created : Response String
created = record { status_code = pos 201; content = "created"; headers = [] }

abbrev app : Request → Method ((Limits × Responses) × ℕ) (Response String)
app r (db, calls) = (ok created, (db, calls + 1))

abbrev failing : Request → Method ((Limits × Responses) × ℕ) (Response String)
failing r (db, calls) = (err value_error, (db, calls + 1))

abbrev text_of : String → String
text_of content = content

abbrev same : Response String → Response String
same r = r

chunks_joined :
    body_bytes {B = ℕ} (λ s. 7 ∷ []) (bytes (1 ∷ 2 ∷ []) ∷ str "x" ∷ []) ≡ 1 ∷ 2 ∷ 7 ∷ []
chunks_joined = refl

let_in :
    Admitted codec text_of same sorted
      (expiring (CachedResponse String))
      middleware
      ℕ
      (times 10 "10-a")
      post
      []
unfolding acquire script step above ◌-ℤ◌
let_in = refl

let_in_again :
    Admitted codec text_of same sorted
      (expiring (CachedResponse String))
      middleware
      ℕ
      (times 20 "20-b")
      post
      (limited_db codec text_of same sorted
        (expiring (CachedResponse String))
        middleware
        ℕ
        (times 10 "10-a")
        post
        [])
unfolding acquire script step above ◌-ℤ◌
let_in_again = refl

abbrev responses : Expiring (CachedResponse String)
responses = expiring (CachedResponse String)

abbrev limited_at_10 : Limits
limited_at_10 =
    limited_db codec text_of same sorted responses middleware ℕ (times 10 "10-a") post []

abbrev counted_at_14 : Limits
counted_at_14 =
    (remaining sorted middleware.rate_limiter (client_key codec post) 14 14 limited_at_10).1

handle-raises_example :
    (handle codec text_of same sorted responses middleware ℕ
        (times 10 "10-a")
        failing
        post
        (([], []), 0)
      ≡ (
        err value_error,
        ((limited_at_10, locked_for codec text_of same sorted responses middleware ℕ "k" 12 []), 1),
      ))
    × (handle codec text_of same sorted responses middleware ℕ (times 20 "20-b") failing post (
      (limited_at_10, locked_for codec text_of same sorted responses middleware ℕ "k" 12 []),
      1,
    )
        ≡ (
          in_progress codec,
          (
            (
              limited_db codec text_of same sorted responses middleware ℕ
                  (times 20 "20-b")
                  post
                  limited_at_10,
              locked_for codec text_of same sorted responses middleware ℕ "k" 12 [],
            ),
            1,
          ),
        ))
handle-raises_example =
    handle-raises codec text_of same sorted responses middleware ℕ (times 10 "10-a")
      (times 20 "20-b") failing post post "k" [] [] 0 1 value_error let_in refl refl refl refl refl
      let_in_again refl (omega arith)

abbrev closed : KitApiMiddleware
closed = record middleware {
  rate_limiter = record { max_requests = pos 0; window_seconds = pos 60; key_prefix = "kit:rl" };
}

nothing_left : (remaining sorted closed.rate_limiter (client_key codec post) 10 10 []).0 ≡ 0
unfolding remaining step above ◌-ℤ◌
nothing_left = refl
