-- ===== src/CircuitBreaker/Circuit.antt =====
-- The circuit that the docstring of `CircuitBreaker` (kit-api/kit_api/circuit_breaker.py) describes:
-- what the four Redis keys stand for, with each operation as a plain function.
use kit_api_optimization.Prelude.{
  ℕ, ◌/◌, ℤ, pos, ◌+ℤ◌, ◌==◌, eq-append_left, leb_ℤ, ◌≡◌, Bool, true, if◌then◌else◌, String, join,
  [], ◌∷◌,
}
use kit_api_optimization.Exceptions.{Result, ok, err, circuit_open}
use kit_api_optimization.Redis.Persistent.{Persistent}
use kit_api_optimization.CircuitBreaker.{
  State, closed, opened, half_open, CircuitBreaker, microseconds, has_recovered, key, decode_state,
  decode_int,
}

pub record Circuit : Type 0 where
  pub state : State
  pub failures : ℤ
  pub opened_at : ℤ
  -- trial calls since the circuit became half-open
  pub calls : ℤ

abbrev pub fresh : Circuit
fresh = record { state = closed; failures = pos 0; opened_at = pos 0; calls = pos 0 }

-- OPEN becomes HALF_OPEN when the recovery timeout has passed.
abbrev pub promoted : CircuitBreaker → ℕ → State → Circuit → Circuit
promoted cb now opened c =
    if has_recovered cb now c.opened_at then record c { state = half_open; calls = pos 0 } else c
promoted cb now s c = c

unfoldable pub current : CircuitBreaker → ℕ → Circuit → Circuit
current cb now c = promoted cb now c.state c

abbrev pub tripped : ℕ → Circuit → Circuit
tripped later c = record c { state = opened; opened_at = pos (later / microseconds) }

abbrev pub succeeded_in : State → Circuit → Circuit
succeeded_in half_open c = record c { state = closed; failures = pos 0; calls = pos 0 }
succeeded_in closed c = record c { failures = pos 0 }
succeeded_in opened c = c

unfoldable pub succeeded : CircuitBreaker → ℕ → Circuit → Circuit
unfolding current
succeeded cb now c = let c' = current cb now c in succeeded_in c'.state c'

abbrev pub failed_in : CircuitBreaker → ℕ → State → Circuit → Circuit
failed_in cb later half_open c = tripped later c
failed_in cb later closed c =
    let c' : Circuit = record c { failures = c.failures +ℤ pos 1 } in
    if leb_ℤ cb.failure_threshold c'.failures then tripped later c' else c'
failed_in cb later opened c = c

unfoldable pub failed : CircuitBreaker → ℕ → ℕ → Circuit → Circuit
unfolding current
failed cb now later c = let c' = current cb now c in failed_in cb later c'.state c'

abbrev pub requested_in : CircuitBreaker → State → Circuit → Result Bool × Circuit
requested_in cb closed c = (ok true, c)
requested_in cb half_open c =
    let c' : Circuit = record c { calls = c.calls +ℤ pos 1 } in
    if leb_ℤ c'.calls cb.half_open_max_calls then (ok true, c') else (
      err (
          circuit_open
            (join ("Circuit '" ∷ cb.name ∷ "' is half-open and trial limit reached" ∷ []))),
      c',
    )
requested_in cb opened c = (err (circuit_open (join ("Circuit '" ∷ cb.name ∷ "' is open" ∷ []))), c)

unfoldable pub requested : CircuitBreaker → ℕ → Circuit → Result Bool × Circuit
unfolding current
requested cb now c = let c' = current cb now c in requested_in cb c'.state c'

-- The keys of one breaker differ by their suffix alone.
pub key-eq : (cb : CircuitBreaker) (s t : String) → (key cb s == key cb t) ≡ (s == t)
key-eq cb s t = simp eq-append_left

module _ {D : Type 0} (redis : Persistent D) where
  open redis use {Db, get}

  -- The four keys hold the circuit.
  pub record Represents (cb : CircuitBreaker) (db : Db) (c : Circuit) : Type 0 where
    pub state : decode_state (get (key cb "state") db) ≡ ok c.state
    pub failures : decode_int (get (key cb "failures") db) ≡ ok c.failures
    pub opened_at : decode_int (get (key cb "opened_at") db) ≡ ok c.opened_at
    pub calls : decode_int (get (key cb "ho_calls") db) ≡ ok c.calls
