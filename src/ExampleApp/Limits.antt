-- ===== src/ExampleApp/Limits.antt =====
-- The endpoints of example-app/main.py for the rate limiter, the circuit breaker and the retry engine.
use kit_api_optimization.Prelude.{
  ℕ, zero, suc, ◌+◌, ℤ, pos, negsuc, leb_ℤ, pos_part, String, Bool, true, false, ◌≡◌, refl, List,
  arith, if◌then◌else◌,
}
use kit_api_optimization.Exceptions.{
  Error, Result, ok, err, Method, pure, ◌>>=◌, ◌>>◌, rate_limit_exceeded, circuit_open, application,
}
use kit_api_optimization.Redis.Persistent.{Persistent}
use kit_api_optimization.Redis.Sorted.{Sorted}
use kit_api_optimization.CircuitBreaker.{
  State, CircuitBreaker, state, allow_request, record_success, record_failure,
}
use kit_api_optimization.CircuitBreaker as Breaker
use kit_api_optimization.RetryEngine.{RetryEngine, attempt_loop, execute}
use kit_api_optimization.ExampleApp.{Answer, http, returned}
use kit_api_optimization.ExampleApp.SimpleLimiter.{SimpleRateLimiter, acquire, remaining, reset}

abbrev pub rate_limiter : SimpleRateLimiter
rate_limiter = record { max_requests = pos 10; window_seconds = pos 60 }

module _ (redis : Sorted) where
  open redis use {Db}

  -- `now` and `at` are the times of the call of `remaining`
  unfoldable pub after_acquire : String → ℕ → ℕ → Result Bool × Db → Result (Answer ℕ ℕ) × Db
  after_acquire client_id now at (err rate_limit_exceeded, db) =
      let (left, db') = remaining redis rate_limiter client_id now at db in
      (ok (http 429 left), db')
  after_acquire client_id now at (err x, db) = (err x, db)
  after_acquire client_id now at (ok _, db) =
      let (left, db') = remaining redis rate_limiter client_id now at db in
      (ok (returned left), db')

  unfoldable pub test_rate_limit : String → String → ℕ × ℕ → ℕ × ℕ → Method Db (Answer ℕ ℕ)
  unfolding after_acquire
  test_rate_limit client_id member t later db =
      after_acquire client_id later.0 later.1
        (acquire redis rate_limiter client_id member t.0 t.1 db)

  unfoldable pub check_remaining : String → ℕ × ℕ → Db → ℕ × Db
  check_remaining client_id t db = remaining redis rate_limiter client_id t.0 t.1 db

  unfoldable pub reset_rate_limit : String → ℕ → Db → Db
  reset_rate_limit client_id at db = reset redis rate_limiter client_id at db

abbrev pub circuit_breaker : CircuitBreaker
circuit_breaker = record {
  name = "external-api";
  failure_threshold = pos 3;
  recovery_timeout = 30;
  half_open_max_calls = pos 1;
}

-- The readings of the clock of one request: of `allow_request`, of the record of the outcome, and of
-- the `state` that is shown.
pub record Times : Type 0 where
  pub asked : ℕ
  pub finished : ℕ
  pub tripped : ℕ
  pub shown : ℕ

module _ {D : Type 0} (redis : Persistent D) where
  open redis use {Db}

  unfoldable pub circuit_status : ℕ → Method Db State
  circuit_status now = state redis circuit_breaker now

  -- `body.success`, and what is recorded of it
  unfoldable pub record_outcome : Bool → Times → Method Db (Unit {0})
  record_outcome true t = record_success redis circuit_breaker t.finished
  record_outcome false t = record_failure redis circuit_breaker t.finished t.tripped

  unfoldable pub after_allow :
      Bool → Times → Result Bool × Db → Result (Answer (String × State) State) × Db
  unfolding record_outcome
  after_allow success t (err (circuit_open message), db) =
      (do shown ← state redis circuit_breaker t.shown; pure (http 503 (message, shown))) db
  after_allow success t (err x, db) = (err x, db)
  after_allow success t (ok _, db) =
      (do
        record_outcome success t
        shown ← state redis circuit_breaker t.shown
        pure (returned shown))
        db

  unfoldable pub simulate_circuit_call : Bool → Times → Method Db (Answer (String × State) State)
  unfolding after_allow
  simulate_circuit_call success t db =
      after_allow success t (allow_request redis circuit_breaker t.asked db)

  unfoldable pub reset_circuit : Method Db (Unit {0})
  reset_circuit = Breaker.reset redis circuit_breaker

abbrev pub retry_engine : RetryEngine
retry_engine = record {
  max_retries = pos 3;
  base_delay = 100000;
  max_delay = 2000000;
  retryable = λ e. true;
}

abbrev pub connection_error : Error
connection_error = application 0

-- the function of the demonstration, on the global count of its calls: its answer is the count
abbrev pub unreliable : ℤ → Method ℕ ℕ
unreliable fail_times calls =
    if leb_ℤ (pos (calls + 1)) fail_times
    then (err connection_error, calls + 1)
    else (ok (calls + 1), calls + 1)

-- `except ConnectionError`, with the number of attempts
abbrev pub after_execute : Result ℕ × (ℕ × List ℕ) → Result (Answer ℕ (ℕ × ℕ)) × (ℕ × List ℕ)
after_execute (ok n, (calls, slept)) = (ok (returned (n, calls)), (calls, slept))
after_execute (err (application zero), (calls, slept)) = (ok (http 502 calls), (calls, slept))
after_execute (err x, s) = (err x, s)

-- `uniform` is the random draw of each delay
unfoldable pub retry_demo : (ℕ → ℕ → ℕ) → ℤ → Method (ℕ × List ℕ) (Answer ℕ (ℕ × ℕ))
retry_demo uniform fail_times (calls, slept) =
    after_execute (execute retry_engine uniform (unreliable fail_times) (0, slept))

-- What the demonstration promises in its docstring: it succeeds if the function fails at most 3 times,
-- with one attempt more than failures, and otherwise answers with 502 after 4 attempts.
pub retry_demo-attempts :
    (uniform : ℕ → ℕ → ℕ) (fail_times : ℤ) (calls : ℕ) (slept : List ℕ)
    → (retry_demo uniform fail_times (calls, slept)).0 ≡ (
        if leb_ℤ fail_times (pos 3)
        then ok (returned (pos_part fail_times + 1, pos_part fail_times + 1))
        else ok (http 502 4))
unfolding retry_demo execute attempt_loop
retry_demo-attempts uniform (negsuc n) calls slept = ground arith
retry_demo-attempts uniform (pos zero) calls slept = refl
retry_demo-attempts uniform (pos (suc zero)) calls slept = refl
retry_demo-attempts uniform (pos (suc (suc zero))) calls slept = refl
retry_demo-attempts uniform (pos (suc (suc (suc zero)))) calls slept = refl
retry_demo-attempts uniform (pos (suc (suc (suc (suc n))))) calls slept = ground arith
