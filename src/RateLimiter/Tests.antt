-- ===== src/RateLimiter/Tests.antt =====
-- `RateLimiter` at concrete inputs, on the Redis of `Redis.Memory`.
use kit_api_optimization.Prelude.{
  ℕ, suc, ◌-ℤ◌, ◌≤◌, ◌<◌, pos, String, ◌≡◌, refl, true, some, List, [], ◌∷◌, arith,
}
use kit_api_optimization.Exceptions.{ok, err, rate_limit_exceeded}
use kit_api_optimization.Redis.Expiring.{seconds}
use kit_api_optimization.Redis.Memory.{sorted}
use kit_api_optimization.Redis.Sorted.{Entry, above, step}
use kit_api_optimization.RateLimiter.{RateLimiter, acquire, remaining, script}
use kit_api_optimization.RateLimiter.Window.{recent, run, run_bounded}
use kit_api_optimization.RateLimiter.Remaining.{acquire-remaining}

abbrev limiter : RateLimiter
limiter = record { max_requests = pos 2; window_seconds = pos 1; key_prefix = "kit:rl" }

abbrev Db : Type 0
Db = List (String × Entry)

-- one call, recorded at 5
abbrev one : Db
one = ("kit:rl:u", (("5-a", 5) ∷ [], some 1000005)) ∷ []

abbrev requests : List (String × ℕ)
requests =
    ("5-a", 5) ∷ ("6-b", 6) ∷ ("7-c", 7) ∷ ("1000005-d", 1000005) ∷ ("1000005-e", 1000005) ∷ []

third_refused : run sorted limiter "u" requests [] [] ≡ 1000005 ∷ 6 ∷ 5 ∷ []
unfolding run acquire script step above ◌-ℤ◌
third_refused = refl

run_bounded_example : recent (seconds 1) 1000005 (run sorted limiter "u" requests [] []) ≤ 2
run_bounded_example =
    run_bounded sorted limiter "u" 2 0 refl refl requests [] refl
      (refl, (refl, (refl, (refl, (refl, tt)))))
      (omega arith, (omega arith, (omega arith, (omega arith, (omega arith, tt))))) 1000005

acquire-remaining_example :
    let left = (remaining sorted limiter "u" 6 6 one).0 in
    let (r, db') = acquire sorted limiter "u" "6-b" 6 6 one in
    (left ≡ 0 → r ≡ err rate_limit_exceeded)
    × (0 < left → (r ≡ ok true) × (suc (remaining sorted limiter "u" 6 6 db').0 ≡ left))
acquire-remaining_example = acquire-remaining sorted limiter "u" 2 0 6 6 "6-b" one refl refl refl
