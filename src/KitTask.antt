-- ===== src/KitTask.antt =====
-- kit-api/kit_api/adapters/celery_adapter.py: the wrapper that the decorator `kit_task` puts around a task,
-- a circuit breaker around a retry engine. The task is a method on a state of its own, `W`.
pub mod Calls
mod Tests
use kit_api_optimization.Prelude.{ℕ, zero, suc, ◌+◌, List, [], Bool}
use kit_api_optimization.Exceptions.{Result, ok, err, Method}
use kit_api_optimization.Redis.Persistent.{Persistent}
use kit_api_optimization.CircuitBreaker.{CircuitBreaker, allow_request}
use kit_api_optimization.CircuitBreaker.Wrapper.{Times, recorded}
use kit_api_optimization.RetryEngine.{RetryEngine, execute}

module _ {D : Type 0} (redis : Persistent D) (cb : CircuitBreaker) {W A : Type 0}
    (fn : Method W A) where
  open redis use {Db}

  -- `_guarded`: `clock n` has the readings of the clock at the attempt `n`
  unfoldable pub guarded : (ℕ → Times) → Method ((Db × W) × ℕ) A
  guarded clock ((db, w), n) = let (r, s) = recorded redis cb (clock n) (fn w) db in (r, (s, n + 1))

module _ {D : Type 0} (redis : Persistent D) (cb : CircuitBreaker) (engine : RetryEngine)
    (uniform : ℕ → ℕ → ℕ) {W A : Type 0} (fn : Method W A) where
  open redis use {Db}

  -- once the circuit has answered
  unfoldable pub admitted :
      (ℕ → Times) → W → Result Bool × Db → Result A × (((Db × W) × ℕ) × List ℕ)
  unfolding guarded
  admitted clock w (err e, db) = (err e, (((db, w), 0), []))
  admitted clock w (ok b, db) =
      execute engine uniform (guarded redis cb fn clock) (((db, w), 0), [])

  -- The answer, with the number of attempts and the delays slept.
  unfoldable pub wrapper : ℕ → (ℕ → Times) → Db × W → Result A × (((Db × W) × ℕ) × List ℕ)
  unfolding admitted
  wrapper asked clock (db, w) = admitted clock w (allow_request redis cb asked db)
