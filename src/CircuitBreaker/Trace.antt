-- ===== src/CircuitBreaker/Trace.antt =====
-- Runs of the methods of one breaker, in the order in which Redis sees them. A method is one step:
-- between the commands of one method no other client of the same circuit writes.
use kit_api_optimization.Prelude.{ℕ, pos, ◌+ℤ◌, ◌≤ℤ◌, ◌≡◌, List, [], ◌∷◌, arith}
use kit_api_optimization.Redis.Persistent.{Persistent}
use kit_api_optimization.CircuitBreaker.{
  closed, CircuitBreaker, record_success, record_failure, allow_request, reset,
}
use kit_api_optimization.CircuitBreaker.Circuit.{
  Circuit, fresh, succeeded, failed, requested, Represents,
}
use kit_api_optimization.CircuitBreaker.Refinement.{
  record_success-refines, record_failure-refines, allow_request-refines, reset-Represents,
}

-- One call of a method, with the clock readings that it takes.
pub data Call : Type 0 where
  success : ℕ → Call
  failure : ℕ → ℕ → Call
  request : ℕ → Call
  force_reset : Call

module _ {D : Type 0} (redis : Persistent D) (cb : CircuitBreaker) where
  open redis use {Db}

  pub call : Call → Db → Db
  call (success now) db = (record_success redis cb now db).1
  call (failure now later) db = (record_failure redis cb now later db).1
  call (request now) db = (allow_request redis cb now db).1
  call force_reset db = (reset redis cb db).1

  pub run : List Call → Db → Db
  run [] db = db
  run (x ∷ calls) db = run calls (call x db)

step : CircuitBreaker → Call → Circuit → Circuit
step cb (success now) c = succeeded cb now c
step cb (failure now later) c = failed cb now later c
step cb (request now) c = (requested cb now c).1
step cb force_reset c = fresh

-- A closed circuit has seen fewer failures in a row than the threshold.
pub record IsSound (cb : CircuitBreaker) (c : Circuit) : Type 0 where
  pub below : c.state ≡ closed → c.failures +ℤ pos 1 ≤ℤ cb.failure_threshold

step-IsSound :
    (cb : CircuitBreaker) (x : Call) (c : Circuit)
    → pos 1 ≤ℤ cb.failure_threshold
    → IsSound cb c
    → IsSound cb (step cb x c)
unfolding step succeeded failed requested ◌+ℤ◌
step-IsSound cb (success now) c t h = record { below = ground arith }
step-IsSound cb (failure now later) c t h = record { below = ground arith }
step-IsSound cb (request now) c t h = record { below = ground arith }
step-IsSound cb force_reset c t h = record { below = ground arith }

module _ {D : Type 0} (redis : Persistent D) (cb : CircuitBreaker) where
  open redis use {Db}

  call-refines :
      (x : Call) {db : Db} {c : Circuit}
      → Represents redis cb db c
      → Represents redis cb (call redis cb x db) (step cb x c)
  unfolding call step
  call-refines (success now) h = (record_success-refines redis cb now h).1
  call-refines (failure now later) h = (record_failure-refines redis cb now later h).1
  call-refines (request now) h = (allow_request-refines redis cb now h).1
  call-refines force_reset {db} h = (reset-Represents redis cb db).1

  -- From four keys that hold a circuit, closed only below the threshold, every run of calls with
  -- any clock readings ends in four keys that hold such a circuit.
  pub run-IsSound :
      (calls : List Call) (db : Db) (c : Circuit)
      → pos 1 ≤ℤ cb.failure_threshold
      → Represents redis cb db c
      → IsSound cb c
      → (c' : Circuit) × Represents redis cb (run redis cb calls db) c' × IsSound cb c'
  unfolding run
  run-IsSound [] db c t rep h = (c, rep, h)
  run-IsSound (x ∷ calls) db c t rep h =
      run-IsSound calls (call redis cb x db) (step cb x c) t (call-refines x rep)
        (step-IsSound cb x c t h)
