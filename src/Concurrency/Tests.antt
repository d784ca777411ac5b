-- ===== src/Concurrency/Tests.antt =====
-- `ConcurrencyLimiter` at concrete inputs, on the Redis of `Redis.Memory`.
use kit_api_optimization.Prelude.{◌-ℤ◌, ◌≤◌, pos, String, ◌≡◌, refl, some, List, [], ◌∷◌, arith}
use kit_api_optimization.Exceptions.{ok, err, concurrency_limit_exceeded}
use kit_api_optimization.Redis.Memory.{sorted}
use kit_api_optimization.Redis.Sorted.{Entry, above, step}
use kit_api_optimization.Concurrency.{ConcurrencyLimiter, acquire}
use kit_api_optimization.Concurrency.Bound.{size, standing}
use kit_api_optimization.Concurrency.Limit.{Call, acquired, released, counted, run, run_within}

abbrev limiter : ConcurrencyLimiter
limiter = record {
  name = "report";
  max_concurrent = pos 1;
  max_hold_seconds = pos 30;
  key_prefix = "kit:bulkhead";
}

abbrev Db : Type 0
Db = List (String × Entry)

-- one token, taken at 5
abbrev full : Db
full = ("kit:bulkhead:report", (("a", 5) ∷ [], some 30000005)) ∷ []

second_refused :
    (acquire sorted limiter "b" 6 6 full).0 ≡ err (concurrency_limit_exceeded "report" (pos 1))
unfolding acquire step above ◌-ℤ◌
second_refused = refl

stale_trimmed : (acquire sorted limiter "b" 30000005 30000004 full).0 ≡ ok "b"
unfolding acquire step above ◌-ℤ◌
stale_trimmed = refl

abbrev calls : List Call
calls = acquired "b" 6 6 ∷ released "a" 7 ∷ acquired "c" 8 8 ∷ counted 9 9 ∷ []

run_within_example : size (standing sorted limiter (run sorted limiter calls full)) ≤ 1
run_within_example = run_within sorted limiter 1 calls full refl (omega arith)
