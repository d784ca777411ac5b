-- ===== src/CircuitBreaker/Behaviour.antt =====
-- What a caller of `CircuitBreaker` can rely on: how many failures open it, how long an open circuit
-- refuses, and how many trial calls a half-open one lets through.
use kit_api_optimization.Prelude.{
  ℕ, ◌+◌, ◌*◌, ◌/◌, ◌≤◌, ◌<◌, pos, ◌+ℤ◌, ◌≤ℤ◌, ◌≡◌, true, List, [], ◌∷◌, arith, leb, join, ◌∙◌, ap,
  ◌⊎◌, length, if◌then◌else◌,
}
use kit_api_optimization.Exceptions.{ok, err, circuit_open}
use kit_api_optimization.Redis.Persistent.{Persistent}
use kit_api_optimization.CircuitBreaker.{
  closed, opened, half_open, CircuitBreaker, microseconds, record_failure, allow_request,
}
use kit_api_optimization.CircuitBreaker.Circuit.{
  Circuit, fresh, current, failed, requested, Represents,
}
use kit_api_optimization.CircuitBreaker.Refinement.{record_failure-refines, allow_request-refines}

-- The circuit after failures in a row, each with its two clock readings.
failed_all : CircuitBreaker → List (ℕ × ℕ) → Circuit → Circuit
failed_all cb [] c = c
failed_all cb ((now, later) ∷ times) c = failed_all cb times (failed cb now later c)

failed_trips :
    (cb : CircuitBreaker) (now later : ℕ) (c : Circuit)
    → (c.state ≡ half_open) ⊎ (c.state ≡ closed) × (cb.failure_threshold ≤ℤ c.failures +ℤ pos 1)
    → ((failed cb now later c).state ≡ opened)
      × ((failed cb now later c).opened_at ≡ pos (later / microseconds))
unfolding failed current
failed_trips cb now later c h = ground arith

requested_early :
    (cb : CircuitBreaker) (asked since : ℕ) (c : Circuit)
    → c.state ≡ opened
    → c.opened_at ≡ pos since
    → asked < microseconds * (since + cb.recovery_timeout)
    → (requested cb asked c).0
      ≡ err (circuit_open (join ("Circuit '" ∷ cb.name ∷ "' is open" ∷ [])))
unfolding requested current
requested_early cb asked since c s t early = ground arith

-- Below the threshold every failure is counted and the circuit stays closed.
failed_all_closed :
    (cb : CircuitBreaker) (times : List (ℕ × ℕ)) (n : ℕ)
    → pos (n + length times + 1) ≤ℤ cb.failure_threshold
    → failed_all cb times (record fresh { failures = pos n })
      ≡ record fresh { failures = pos (n + length times) }
unfolding failed_all failed current ◌+ℤ◌
failed_all_closed cb [] n h = ground arith
failed_all_closed cb ((now, later) ∷ times) n h = ground (arith, failed_all_closed cb times (n + 1))

failed_at_threshold :
    (cb : CircuitBreaker) (now later n : ℕ)
    → cb.failure_threshold ≡ pos (n + 1)
    → failed cb now later (record fresh { failures = pos n }) ≡ record {
      state = opened;
      failures = cb.failure_threshold;
      opened_at = pos (later / microseconds);
      calls = pos 0;
    }
unfolding failed current ◌+ℤ◌
failed_at_threshold cb now later n t = ground arith

module _ {D : Type 0} (redis : Persistent D) (cb : CircuitBreaker) where
  open redis use {Db}

  pub record_failures : List (ℕ × ℕ) → Db → Db
  record_failures [] db = db
  record_failures ((now, later) ∷ times) db =
      record_failures times (record_failure redis cb now later db).1

  record_failures-refines :
      (times : List (ℕ × ℕ)) {db : Db} {c : Circuit}
      → Represents redis cb db c
      → Represents redis cb (record_failures times db) (failed_all cb times c)
  unfolding record_failures failed_all
  record_failures-refines [] h = h
  record_failures-refines ((now, later) ∷ times) h =
      record_failures-refines times (record_failure-refines redis cb now later h).1

  -- An open circuit answers a request by its clock alone: before `recovery_timeout` seconds have
  -- passed since `opened_at` the request raises `CircuitOpen`, and afterwards the circuit is
  -- half-open and its first trial call passes, if the breaker allows any.
  pub allow_request_opened :
      (now since : ℕ) {db : Db} {c : Circuit}
      → Represents redis cb db c
      → c.state ≡ opened
      → c.opened_at ≡ pos since
      → pos 1 ≤ℤ cb.half_open_max_calls
      → (allow_request redis cb now db).0 ≡ (
          if leb (microseconds * (since + cb.recovery_timeout)) now
          then ok true
          else err (circuit_open (join ("Circuit '" ∷ cb.name ∷ "' is open" ∷ []))))
  unfolding requested current ◌+ℤ◌
  allow_request_opened now since {db} {c} h s t m =
      ground (arith, (allow_request-refines redis cb now h).0)

  -- A failure that opens the circuit at the clock reading `later`, a failed trial call or the one
  -- that reaches the threshold, shuts it: requests raise `CircuitOpen` for `recovery_timeout` seconds
  -- less the one second that `int(time.time())` may have rounded off.
  pub tripped_refuses :
      (now later asked : ℕ) {db : Db} {c : Circuit}
      → Represents redis cb db c
      → (c.state ≡ half_open) ⊎ (c.state ≡ closed) × (cb.failure_threshold ≤ℤ c.failures +ℤ pos 1)
      → asked + microseconds ≤ later + microseconds * cb.recovery_timeout
      → (allow_request redis cb asked (record_failure redis cb now later db).1).0
        ≡ err (circuit_open (join ("Circuit '" ∷ cb.name ∷ "' is open" ∷ [])))
  tripped_refuses now later asked {db} {c} h s early =
      let (r, rep) = record_failure-refines redis cb now later h in
      (allow_request-refines redis cb asked rep).0
      ∙ requested_early cb asked (later / microseconds) (failed cb now later c)
          (failed_trips cb now later c s).0 (failed_trips cb now later c s).1 (omega arith)

  -- Failures in a row on a fresh circuit leave it closed and are counted, however many there are below the
  -- threshold; if they are one less than the threshold, the next one opens the circuit at its own clock
  -- reading. The threshold is at least 1.
  pub opens_at_threshold :
      (n : ℕ) (times : List (ℕ × ℕ)) (now later : ℕ) {db : Db}
      → Represents redis cb db fresh
      → cb.failure_threshold ≡ pos (n + 1)
      → length times ≤ n
      → let before = record_failures times db in
        Represents redis cb before (record fresh { failures = pos (length times) })
        × (length times ≡ n
            → Represents redis cb (record_failure redis cb now later before).1 (record {
              state = opened;
              failures = cb.failure_threshold;
              opened_at = pos (later / microseconds);
              calls = pos 0;
            }))
  opens_at_threshold n times now later {db} h t below =
      let closed_at : failed_all cb times fresh ≡ record fresh { failures = pos (length times) } =
        ground (arith, failed_all_closed cb times 0) in
      let before : Represents redis cb (record_failures times db)
          (record fresh { failures = pos (length times) }) =
        rw closed_at at (record_failures-refines times h) in
      (
        before,
        λ last.
            rw (failed_at_threshold cb now later (length times) (t ∙ ap pos (omega (arith, last))))
              at (record_failure-refines redis cb now later before).1,
      )
