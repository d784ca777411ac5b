-- ===== src/Concurrency/Limit.antt =====
-- What `ConcurrencyLimiter` (kit-data/kit_data/concurrency.py) promises its callers.
use kit_api_optimization.Prelude.{
  ℕ, ◌≤◌, leb_ℤ, pos, String, ◌≡◌, refl, ap, Bool-cases, inl, inr, List, [], ◌∷◌, arith,
}
use kit_api_optimization.Exceptions.{Result, ok, err, concurrency_limit_exceeded}
use kit_api_optimization.Redis.Sorted.{zremrangebyscore, zrem, Sorted, zcard}
use kit_api_optimization.Concurrency.{
  ConcurrencyLimiter, oldest, claim, acquire, release, in_flight,
}
use kit_api_optimization.Concurrency.Bound.{
  size, size-drop, size-zrem, standing, standing-send, others-claim, size-claim,
}

-- One call of a method, with the clock of the caller and the server's.
pub data Call : Type 0 where
  acquired : String → ℕ → ℕ → Call
  released : String → ℕ → Call
  counted : ℕ → ℕ → Call

module _ (redis : Sorted) (l : ConcurrencyLimiter) where
  open redis use {Db, send}

  -- What `acquire` may come to: its token stands, with at most `n` tokens in all; or it raises, and
  -- no more tokens stand than before.
  abbrev pub Admits : ℕ → String → Db → Result String × Db → Type 0
  Admits n token before (ok claimed, after) =
      (claimed ≡ token) × (size (standing redis l after) ≤ n)
  Admits n token before (err x, after) =
      (x ≡ concurrency_limit_exceeded l.name l.max_concurrent)
      × (size (standing redis l after) ≤ size (standing redis l before))

  -- `acquire` returns its token only if at most `max_concurrent` tokens stand, its own included.
  -- Otherwise it raises `ConcurrencyLimitExceeded` with the limiter's name and limit, and leaves no
  -- token behind.
  pub acquire-Admits :
      (n : ℕ) (token : String) (now at : ℕ) (db : Db)
      → l.max_concurrent ≡ pos n
      → Admits n token db (acquire redis l token now at db)
  unfolding acquire
  acquire-Admits n token now at db limit =
      let claimed = claim redis l token now at db in
      elim (Bool-cases (leb_ℤ (pos (zcard at (standing redis l claimed))) l.max_concurrent)) [
        | inl room ↦ rw room (refl, ground (arith, room, limit, size-claim redis l token now at db))
        | inr full ↦ rw full (
          refl,
          omega (
            arith,
            ap size (standing-send redis l at (zrem token) claimed),
            size-zrem token at (standing redis l claimed),
            others-claim redis l token now at db,
          ),
        )
      ]

  pub call : Call → Db → Db
  call (acquired token now at) db = (acquire redis l token now at db).1
  call (released token at) db = release redis l token at db
  call (counted now at) db = (in_flight redis l now at db).1

  pub run : List Call → Db → Db
  run [] db = db
  run (x ∷ calls) db = run calls (call x db)

  Admits-within :
      (n : ℕ) (token : String) (db : Db) (p : Result String × Db)
      → size (standing redis l db) ≤ n
      → Admits n token db p
      → size (standing redis l p.1) ≤ n
  Admits-within n token db (ok claimed, after) within admits = admits.1
  Admits-within n token db (err x, after) within admits = omega (arith, within, admits.1)

  call_within :
      (n : ℕ) (x : Call) (db : Db)
      → l.max_concurrent ≡ pos n
      → size (standing redis l db) ≤ n
      → size (standing redis l (call x db)) ≤ n
  unfolding call release in_flight
  call_within n (acquired token now at) db limit within =
      Admits-within n token db (acquire redis l token now at db) within
        (acquire-Admits n token now at db limit)
  call_within n (released token at) db limit within = omega (
    arith,
    within,
    ap size (standing-send redis l at (zrem token) db),
    size-drop at (zrem token) (standing redis l db) (λ m score e. cc e),
  )
  call_within n (counted now at) db limit within = omega (
    arith,
    within,
    ap size (standing-send redis l at (zremrangebyscore (oldest l now)) db),
    size-drop at (zremrangebyscore (oldest l now)) (standing redis l db) (λ m score e. cc e),
  )

  -- However the methods are called, at any readings of the clocks, at most `max_concurrent` tokens
  -- stand after each call, if no more stood at first.
  pub run_within :
      (n : ℕ) (calls : List Call) (db : Db)
      → l.max_concurrent ≡ pos n
      → size (standing redis l db) ≤ n
      → size (standing redis l (run calls db)) ≤ n
  unfolding run
  run_within n [] db limit within = within
  run_within n (x ∷ calls) db limit within =
      run_within n calls (call x db) limit (call_within n x db limit within)
