-- ===== src/KitTask/Tests.antt =====
-- The wrapper of `kit_task` at a concrete task, on the Redis of `Redis.Memory`: a circuit that opens at the
-- first failure, and a task that succeeds at its second call.
use kit_api_optimization.Prelude.{ℕ, zero, suc, ◌+◌, pos, refl, true, []}
use kit_api_optimization.Exceptions.{Result, ok, err, value_error}
use kit_api_optimization.Redis.Memory.{persistent}
use kit_api_optimization.CircuitBreaker.{CircuitBreaker}
use kit_api_optimization.CircuitBreaker.Circuit.{fresh, requested, Represents}
use kit_api_optimization.CircuitBreaker.Wrapper.{Times}
use kit_api_optimization.RetryEngine.{RetryEngine}
use kit_api_optimization.KitTask.{wrapper}
use kit_api_optimization.KitTask.Calls.{Runs, wrapper-Runs}

abbrev cb : CircuitBreaker
cb = record {
  name = "task";
  failure_threshold = pos 1;
  recovery_timeout = 30;
  half_open_max_calls = pos 1;
}

abbrev engine : RetryEngine
engine = record { max_retries = pos 3; base_delay = 5; max_delay = 100; retryable = λ e. true }

abbrev clock : ℕ → Times
clock n = record { asked = n; finished = n; tripped = n }

abbrev second_time : ℕ → Result ℕ × ℕ
second_time zero = (err value_error, 1)
second_time (suc n) = (ok 7, n + 2)

empty-Represents : Represents (persistent Unit) cb [] fresh
empty-Represents = record { state = refl; failures = refl; opened_at = refl; calls = refl }

wrapper-Runs_example :
    Runs
      (persistent Unit)
      cb
      second_time
      clock
      engine
      (λ attempt x. x)
      3
      0
      (requested cb 0 fresh).1
      (requested cb 0 fresh).0
      (wrapper (persistent Unit) cb engine (λ attempt x. x) second_time 0 clock ([], 0))
wrapper-Runs_example =
    wrapper-Runs (persistent Unit) cb second_time clock engine (λ attempt x. x) 3 0 0 refl
      empty-Represents
