-- ===== src/CircuitBreaker/Tests.antt =====
-- `CircuitBreaker` at concrete inputs, over a dictionary in memory.
use kit_api_optimization.Prelude.{
  ℕ, ◌+◌, pos, ◌≡◌, refl, String, List, [], ◌∷◌, arith, inl, int_laws,
}
use kit_api_optimization.Exceptions.{Result, ok, err, circuit_open}
use kit_api_optimization.Redis.Persistent.{Value, text, num}
use kit_api_optimization.Redis.Memory.{persistent}
use kit_api_optimization.CircuitBreaker.{
  opened, half_open, CircuitBreaker, key, record_failure, allow_request,
}
use kit_api_optimization.CircuitBreaker.Circuit.{Circuit, fresh, requested, Represents}
use kit_api_optimization.CircuitBreaker.Refinement.{allow_request-refines}
use kit_api_optimization.CircuitBreaker.Trace.{failure, request, run, IsSound, run-IsSound}
use kit_api_optimization.CircuitBreaker.Behaviour.{
  record_failures, tripped_refuses, opens_at_threshold,
}
use kit_api_optimization.CircuitBreaker.Trials.{request_all, half_open_admits}
use kit_api_optimization.CircuitBreaker.Wrapper.{Times, Guards, wrapper, wrapper-Guards}

abbrev Db : Type 0
Db = List (String × Value Unit)

abbrev cb : CircuitBreaker
cb = record {
  name = "pay";
  failure_threshold = pos 3;
  recovery_timeout = 30;
  half_open_max_calls = pos 1;
}

abbrev empty : Db
empty = []

empty-fresh : Represents (persistent Unit) cb empty fresh
empty-fresh = record { state = refl; failures = refl; opened_at = refl; calls = refl }

-- opened at second 100
abbrev open_db : Db
open_db =
    (key cb "state", text "open")
    ∷ (key cb "failures", num (pos 3))
    ∷ (key cb "opened_at", num (pos 100))
    ∷ []

abbrev open_circuit : Circuit
open_circuit = record { state = opened; failures = pos 3; opened_at = pos 100; calls = pos 0 }

open_db-Represents : Represents (persistent Unit) cb open_db open_circuit
open_db-Represents = record { state = refl; failures = refl; opened_at = refl; calls = refl }

abbrev trial_db : Db
trial_db = (key cb "state", text "half_open") ∷ (key cb "opened_at", num (pos 100)) ∷ []

abbrev trial_circuit : Circuit
trial_circuit = record { state = half_open; failures = pos 0; opened_at = pos 100; calls = pos 0 }

trial_db-Represents : Represents (persistent Unit) cb trial_db trial_circuit
trial_db-Represents = record { state = refl; failures = refl; opened_at = refl; calls = refl }

refused_early :
    (allow_request (persistent Unit) cb 129000000 open_db).0
    ≡ err (circuit_open "Circuit 'pay' is open")
unfolding allow_request
refused_early = refl

run-IsSound_example :
    (c' : Circuit) × Represents
      (persistent Unit)
      cb
      (run (persistent Unit) cb (failure 1 2 ∷ request 3 ∷ []) empty)
      c'
    × IsSound cb c'
run-IsSound_example =
    run-IsSound (persistent Unit) cb (failure 1 2 ∷ request 3 ∷ []) empty fresh (omega arith)
      empty-fresh (record { below = λ e. omega int_laws })

opens_at_threshold_example :
    let before = record_failures (persistent Unit) cb ((5, 6) ∷ (7, 8) ∷ []) empty in
    Represents (persistent Unit) cb before (record fresh { failures = pos 2 })
    × (◌≡◌ {A = ℕ} 2 2
        → Represents
            (persistent Unit)
            cb
            (record_failure (persistent Unit) cb 2000000 3000000 before).1
            (record { state = opened; failures = pos 3; opened_at = pos 3; calls = pos 0 }))
opens_at_threshold_example =
    opens_at_threshold (persistent Unit) cb 2 ((5, 6) ∷ (7, 8) ∷ []) 2000000 3000000 empty-fresh
      refl (omega arith)

tripped_refuses_example :
    (allow_request
      (persistent Unit)
      cb
      228000000
      (record_failure (persistent Unit) cb 199000000 200000000 trial_db).1).0
    ≡ err (circuit_open "Circuit 'pay' is open")
tripped_refuses_example =
    tripped_refuses (persistent Unit) cb 199000000 200000000 228000000 trial_db-Represents
      (inl refl) (omega arith)

half_open_admits_example :
    let (admitted, after) = request_all (persistent Unit) cb (7 ∷ 8 ∷ 9 ∷ []) trial_db in
    (admitted ≡ 1) × Represents (persistent Unit) cb after (record trial_circuit { calls = pos 3 })
half_open_admits_example =
    half_open_admits (persistent Unit) cb (7 ∷ 8 ∷ 9 ∷ []) 0 1 trial_db-Represents refl refl refl

abbrev times : Times
times = record { asked = 1; finished = 2; tripped = 3 }

-- a function that counts its calls
abbrev counted : ℕ → Result ℕ × ℕ
counted n = (ok n, n + 1)

wrapper-Guards_example :
    Guards
      (persistent Unit)
      cb
      times
      counted
      4
      open_circuit
      (requested cb 1 open_circuit).0
      (wrapper (persistent Unit) cb times counted (open_db, 4))
wrapper-Guards_example = wrapper-Guards (persistent Unit) cb times counted 4 open_db-Represents

allow_request-refines_example :
    let (r, db') = allow_request (persistent Unit) cb 1 open_db in
    (r ≡ (requested cb 1 open_circuit).0)
    × Represents (persistent Unit) cb db' (requested cb 1 open_circuit).1
allow_request-refines_example = allow_request-refines (persistent Unit) cb 1 open_db-Represents
