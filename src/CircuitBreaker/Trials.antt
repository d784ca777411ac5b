-- ===== src/CircuitBreaker/Trials.antt =====
-- The trial calls of a half-open circuit (kit-api/kit_api/circuit_breaker.py, `allow_request`).
use kit_api_optimization.Prelude.{
  ℕ, ◌+◌, ◌-◌, min, pos, ◌+ℤ◌, ◌≡◌, refl, Bool, List, [], ◌∷◌, length, arith,
}
use kit_api_optimization.Exceptions.{Result, ok, err}
use kit_api_optimization.Redis.Persistent.{Persistent}
use kit_api_optimization.CircuitBreaker.{CircuitBreaker, half_open, allow_request}
use kit_api_optimization.CircuitBreaker.Circuit.{Circuit, current, requested, Represents}
use kit_api_optimization.CircuitBreaker.Refinement.{allow_request-refines}

-- A request that is let through counts one, a request that raises counts none.
abbrev passed : Result Bool → ℕ
passed (ok b) = 1
passed (err e) = 0

trial_left :
    (cb : CircuitBreaker) (now n m : ℕ) (c : Circuit)
    → c.state ≡ half_open
    → c.calls ≡ pos n
    → cb.half_open_max_calls ≡ pos m
    → (passed (requested cb now c).0 ≡ min 1 (m - n))
      × ((requested cb now c).1 ≡ record c { calls = pos (n + 1) })
unfolding requested current ◌+ℤ◌
trial_left cb now n m c s t e = ground arith

module _ {D : Type 0} (redis : Persistent D) (cb : CircuitBreaker) where
  open redis use {Db}

  -- One request after another, with no outcome recorded between them: how many are let through, and
  -- the database afterwards.
  pub request_all : List ℕ → Db → ℕ × Db
  request_all [] db = (0, db)
  request_all (now ∷ times) db =
      let (r, db') = allow_request redis cb now db in
      let (n, db'') = request_all times db' in (passed r + n, db'')

  -- Of any requests, at any clock readings, a half-open circuit lets exactly as many through as it
  -- has trial calls left, and it stays half-open with every request counted. So if no outcome of
  -- a trial call is ever recorded, no later request gets through, however long it waits.
  pub half_open_admits :
      (times : List ℕ) (n m : ℕ) {db : Db} {c : Circuit}
      → Represents redis cb db c
      → c.state ≡ half_open
      → c.calls ≡ pos n
      → cb.half_open_max_calls ≡ pos m
      → let (admitted, after) = request_all times db in
        (admitted ≡ min (length times) (m - n))
        × Represents redis cb after (record c { calls = pos (n + length times) })
  unfolding request_all
  half_open_admits [] n m {db} {c} h s t e = (omega arith, ground arith)
  half_open_admits (now ∷ times) n m {db} {c} h s t e =
      let (answer, rep) = allow_request-refines redis cb now h in
      let (count, left) = trial_left cb now n m c s t e in
      let counted : Represents redis cb (allow_request redis cb now db).1
          (record c { calls = pos (n + 1) }) =
        rw left at rep in
      let (rest, after) = half_open_admits times (n + 1) m counted s refl e in
      (rw answer (omega (arith, count, rest)), ground (arith, after))
