-- ===== src/CircuitBreaker/Wrapper.antt =====
-- The wrapper that the decorator `circuit_breaker` of kit-api/kit_api/circuit_breaker.py puts around
-- a function. The function is a method on a state of its own, `W`.
use kit_api_optimization.Prelude.{ℕ, ◌≡◌, Bool, arith}
use kit_api_optimization.Exceptions.{Result, ok, err, Method}
use kit_api_optimization.Redis.Persistent.{Persistent}
use kit_api_optimization.CircuitBreaker.{
  CircuitBreaker, record_success, record_failure, allow_request,
}
use kit_api_optimization.CircuitBreaker.Circuit.{Circuit, succeeded, failed, requested, Represents}
use kit_api_optimization.CircuitBreaker.Refinement.{
  record_success-refines, record_failure-refines, allow_request-refines,
}

-- The clock readings of one call: of `allow_request`, and of the record of its outcome.
pub record Times : Type 0 where
  pub asked : ℕ
  pub finished : ℕ
  pub tripped : ℕ

-- The circuit once the outcome of the function is recorded.
pub outcome : {A : Type 0} → CircuitBreaker → Times → Result A → Circuit → Circuit
outcome cb t (ok a) c = succeeded cb t.finished c
outcome cb t (err e) c = failed cb t.finished t.tripped c

module _ {D : Type 0} (redis : Persistent D) (cb : CircuitBreaker) {W A : Type 0} where
  open redis use {Db}

  -- `raise` and `return result` come after the outcome is recorded, so an error of the record
  -- itself would hide them.
  after_record : Result (Unit {0}) × Db → Result A → W → Result A × (Db × W)
  after_record (ok _, db) r w = (r, (db, w))
  after_record (err e, db) r w = (err e, (db, w))

  pub recorded : Times → Result A × W → Db → Result A × (Db × W)
  unfolding after_record
  recorded t (ok a, w) db = after_record (record_success redis cb t.finished db) (ok a) w
  recorded t (err e, w) db =
      after_record (record_failure redis cb t.finished t.tripped db) (err e) w

  guarded : Times → Method W A → W → Result Bool × Db → Result A × (Db × W)
  unfolding recorded
  guarded t fn w (err e, db) = (err e, (db, w))
  guarded t fn w (ok b, db) = recorded t (fn w) db

  unfoldable pub wrapper : Times → Method W A → Method (Db × W) A
  unfolding guarded
  wrapper t fn (db, w) = guarded t fn w (allow_request redis cb t.asked db)

  -- What a call comes to, by the answer of `allow_request`.
  abbrev pub Guards : Times → Method W A → W → Circuit → Result Bool → Result A × (Db × W) → Type 0
  Guards t fn w c (err e) (r, (db', w')) =
      (r ≡ err e) × (w' ≡ w) × Represents redis cb db' (requested cb t.asked c).1
  Guards t fn w c (ok b) (r, (db', w')) =
      (r ≡ (fn w).0)
      × (w' ≡ (fn w).1)
      × Represents redis cb db' (outcome cb t (fn w).0 (requested cb t.asked c).1)

  pub recorded-Guards :
      (t : Times) (r : Result A) (w : W) {db : Db} {c : Circuit}
      → Represents redis cb db c
      → let (r', (db', w')) = recorded t (r, w) db in
        (r' ≡ r) × (w' ≡ w) × Represents redis cb db' (outcome cb t r c)
  unfolding recorded outcome
  recorded-Guards t (ok a) w h = ground (arith, record_success-refines redis cb t.finished h)
  recorded-Guards t (err e) w h =
      ground (arith, record_failure-refines redis cb t.finished t.tripped h)

  -- A call that `allow_request` refuses does not run the function: it raises the refusal and leaves
  -- the function's state alone. Any other call runs it once, passes on its result or its exception,
  -- and records that outcome in the circuit.
  pub wrapper-Guards :
      (t : Times) (fn : Method W A) (w : W) {db : Db} {c : Circuit}
      → Represents redis cb db c
      → Guards t fn w c (requested cb t.asked c).0 (wrapper t fn (db, w))
  unfolding wrapper
  wrapper-Guards t fn w {db} {c} h =
      let (answer, rep) = allow_request-refines redis cb t.asked h in
      ground (arith, recorded-Guards t (fn w).0 (fn w).1 rep)
