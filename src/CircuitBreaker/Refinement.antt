-- ===== src/CircuitBreaker/Refinement.antt =====
-- The commands that `CircuitBreaker` sends carry out the operations of the circuit.
use kit_api_optimization.Prelude.{ℕ, ◌/◌, ℤ, pos, ◌+ℤ◌, ◌≡◌, refl, arith, Option, none, some}
use kit_api_optimization.Exceptions.{ok}
use kit_api_optimization.Redis.Persistent.{Persistent, Value, incremented, text, num, doc}
use kit_api_optimization.CircuitBreaker.{
  State, value, of_value, closed, opened, half_open, CircuitBreaker, key, decode_int, state,
  record_success, record_failure, allow_request, reset, microseconds, on_success, on_failure,
  on_request,
}
use kit_api_optimization.CircuitBreaker.Circuit.{
  Circuit, fresh, current, succeeded, failed, requested, succeeded_in, failed_in, requested_in,
  key-eq, Represents,
}

of_value-value : (s : State) → of_value (value s) ≡ ok s
of_value-value closed = refl
of_value-value opened = refl
of_value-value half_open = refl

-- INCR adds one to the integer that the key stands for.
incremented-decode_int :
    {D : Type 0} (raw : Option (Value D)) (n : ℤ)
    → decode_int raw ≡ ok n
    → incremented raw (pos 1) ≡ some (n +ℤ pos 1)
unfolding ◌+ℤ◌
incremented-decode_int none n e = ground arith
incremented-decode_int (some (num m)) n e = ground arith
incremented-decode_int (some (text t)) n e = cc
incremented-decode_int (some (doc d)) n e = cc

module _ {D : Type 0} (redis : Persistent D) (cb : CircuitBreaker) where
  open redis use {Db, get, set, delete, incrby, get-set, get-delete, incrby-get}

  module _ {db : Db} {c : Circuit} (h : Represents redis cb db c) where
    set_state-Represents :
        (s : State)
        → Represents redis cb (set (key cb "state") (text (value s)) db) (record c { state = s })
    set_state-Represents s = record {
      state = simp (get-set, key-eq) (of_value-value s);
      failures = simp (get-set, key-eq) h.failures;
      opened_at = simp (get-set, key-eq) h.opened_at;
      calls = simp (get-set, key-eq) h.calls;
    }

    set_failures-Represents :
        (n : ℤ)
        → Represents redis cb (set (key cb "failures") (num n) db) (record c { failures = n })
    set_failures-Represents n = record {
      state = simp (get-set, key-eq) h.state;
      failures = simp (get-set, key-eq);
      opened_at = simp (get-set, key-eq) h.opened_at;
      calls = simp (get-set, key-eq) h.calls;
    }

    set_opened_at-Represents :
        (n : ℤ)
        → Represents redis cb (set (key cb "opened_at") (num n) db) (record c { opened_at = n })
    set_opened_at-Represents n = record {
      state = simp (get-set, key-eq) h.state;
      failures = simp (get-set, key-eq) h.failures;
      opened_at = simp (get-set, key-eq);
      calls = simp (get-set, key-eq) h.calls;
    }

    set_calls-Represents :
        (n : ℤ) → Represents redis cb (set (key cb "ho_calls") (num n) db) (record c { calls = n })
    set_calls-Represents n = record {
      state = simp (get-set, key-eq) h.state;
      failures = simp (get-set, key-eq) h.failures;
      opened_at = simp (get-set, key-eq) h.opened_at;
      calls = simp (get-set, key-eq);
    }

    delete_calls-Represents :
        Represents redis cb (delete (key cb "ho_calls") db) (record c { calls = pos 0 })
    delete_calls-Represents = record {
      state = simp (get-delete, key-eq) h.state;
      failures = simp (get-delete, key-eq) h.failures;
      opened_at = simp (get-delete, key-eq) h.opened_at;
      calls = simp (get-delete, key-eq);
    }

    trip-Represents :
        (later : ℕ)
        → Represents redis cb
            (set
              (key cb "opened_at")
              (num (pos (later / microseconds)))
              (set (key cb "state") (text "open") db))
            (record c { state = opened; opened_at = pos (later / microseconds) })
    trip-Represents later = record {
      state = simp (get-set, key-eq);
      failures = simp (get-set, key-eq) h.failures;
      opened_at = simp (get-set, key-eq);
      calls = simp (get-set, key-eq) h.calls;
    }

    incrby_failures :
        incrby (key cb "failures") (pos 1) db
        ≡ some (c.failures +ℤ pos 1, set (key cb "failures") (num (c.failures +ℤ pos 1)) db)
    incrby_failures =
        rw (incrby-get, incremented-decode_int (get (key cb "failures") db) c.failures h.failures)

    incrby_calls :
        incrby (key cb "ho_calls") (pos 1) db
        ≡ some (c.calls +ℤ pos 1, set (key cb "ho_calls") (num (c.calls +ℤ pos 1)) db)
    incrby_calls =
        rw (incrby-get, incremented-decode_int (get (key cb "ho_calls") db) c.calls h.calls)

  pub state-refines :
      (now : ℕ) {db : Db} {c : Circuit}
      → Represents redis cb db c
      → let (r, db') = state redis cb now db in
        (r ≡ ok (current cb now c).state) × Represents redis cb db' (current cb now c)
  unfolding state current
  state-refines now {db} {c} h =
      ground (arith, set_calls-Represents (set_state-Represents h half_open) (pos 0))

  on_success-refines :
      (s : State) {db : Db} {c : Circuit}
      → Represents redis cb db c
      → let (r, db') = on_success redis cb s db in
        (r ≡ ok tt) × Represents redis cb db' (succeeded_in s c)
  unfolding on_success
  on_success-refines closed h = (refl, set_failures-Represents h (pos 0))
  on_success-refines opened h = (refl, h)
  on_success-refines half_open h = (
    refl,
    delete_calls-Represents (set_failures-Represents (set_state-Represents h closed) (pos 0)),
  )

  on_failure-refines :
      (later : ℕ) (s : State) {db : Db} {c : Circuit}
      → Represents redis cb db c
      → let (r, db') = on_failure redis cb later s db in
        (r ≡ ok tt) × Represents redis cb db' (failed_in cb later s c)
  unfolding on_failure
  on_failure-refines later closed {db} {c} h = ground (
    arith,
    incrby_failures h,
    set_failures-Represents h (c.failures +ℤ pos 1),
    trip-Represents (set_failures-Represents h (c.failures +ℤ pos 1)) later,
  )
  on_failure-refines later opened h = (refl, h)
  on_failure-refines later half_open h = (refl, trip-Represents h later)

  on_request-refines :
      (s : State) {db : Db} {c : Circuit}
      → Represents redis cb db c
      → let (r, db') = on_request redis cb s db in
        (r ≡ (requested_in cb s c).0) × Represents redis cb db' (requested_in cb s c).1
  unfolding on_request
  on_request-refines closed h = (refl, h)
  on_request-refines opened h = (refl, h)
  on_request-refines half_open {db} {c} h =
      ground (arith, incrby_calls h, set_calls-Represents h (c.calls +ℤ pos 1))

  -- `record_success` is the circuit's success, and never raises.
  pub record_success-refines :
      (now : ℕ) {db : Db} {c : Circuit}
      → Represents redis cb db c
      → let (r, db') = record_success redis cb now db in
        (r ≡ ok tt) × Represents redis cb db' (succeeded cb now c)
  unfolding record_success succeeded
  record_success-refines now {db} {c} h =
      let c' = current cb now c in
      let (r, rep) = state-refines now h in ground (arith, r, on_success-refines c'.state rep)

  -- `record_failure` is the circuit's failure, and never raises.
  pub record_failure-refines :
      (now later : ℕ) {db : Db} {c : Circuit}
      → Represents redis cb db c
      → let (r, db') = record_failure redis cb now later db in
        (r ≡ ok tt) × Represents redis cb db' (failed cb now later c)
  unfolding record_failure failed
  record_failure-refines now later {db} {c} h =
      let c' = current cb now c in
      let (r, rep) = state-refines now h in ground (arith, r, on_failure-refines later c'.state rep)

  -- `allow_request` answers as the circuit's request does, with the same exception.
  pub allow_request-refines :
      (now : ℕ) {db : Db} {c : Circuit}
      → Represents redis cb db c
      → let (r, db') = allow_request redis cb now db in
        (r ≡ (requested cb now c).0) × Represents redis cb db' (requested cb now c).1
  unfolding allow_request requested
  allow_request-refines now {db} {c} h =
      let c' = current cb now c in
      let (r, rep) = state-refines now h in ground (arith, r, on_request-refines c'.state rep)

  -- Whatever the four keys held, `reset` leaves a fresh circuit.
  pub reset-Represents :
      (db : Db) → ((reset redis cb db).0 ≡ ok tt) × Represents redis cb (reset redis cb db).1 fresh
  unfolding reset
  reset-Represents db = (
    refl,
    record {
      state = simp (get-delete, key-eq);
      failures = simp (get-delete, key-eq);
      opened_at = simp (get-delete, key-eq);
      calls = simp (get-delete, key-eq);
    },
  )
