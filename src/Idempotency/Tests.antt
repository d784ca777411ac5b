-- ===== src/Idempotency/Tests.antt =====
-- The wrapper of `idempotent` at concrete inputs, on the Redis of `Redis.Memory`. A JSON value is a
-- text, and the function counts its calls.
use kit_api_optimization.Prelude.{ℕ, ◌+◌, pos, String, ◌≡◌, refl, none, List, [], arith}
use kit_api_optimization.Exceptions.{ok, err, Method}
use kit_api_optimization.Redis.Persistent.{Value}
use kit_api_optimization.Redis.Memory.{expiring}
use kit_api_optimization.Idempotency.{
  CachedResponse, IdempotencyStore, conflict, Returned, structured, Times, wrapper,
}
use kit_api_optimization.Idempotency.Store.{lock_at, locked_db}
use kit_api_optimization.Idempotency.Once.{
  LeavesResponse, lock_time, wrapper_runs, concurrent_refused, runs_once,
}

abbrev idempotency : IdempotencyStore
idempotency = record { key_prefix = "kit:idem" }

abbrev Db : Type 0
Db = List (String × (Value (CachedResponse String) × ℕ))

abbrev created : CachedResponse String
created = record { status_code = pos 201; body = "created"; headers = [] }

abbrev fn : Method (Db × ℕ) (Returned String ℕ)
fn (db, calls) = (ok (structured created), (db, calls + 1))

abbrev times : Times
times = record { checked = 1; asked = 2; stored = 50 }

abbrev later : Times
later = record { checked = 60; asked = 61; stored = 62 }

wrapper_runs_example :
    let (r, (db', w')) =
      fn (locked_db (expiring (CachedResponse String)) idempotency "k" 2 (lock_time 59) [], 0) in
    let (r'', (db'', w'')) =
      wrapper (expiring (CachedResponse String)) idempotency (pos 60) "k" times fn ([], 0) in
    (r'' ≡ r)
    × (w'' ≡ w')
    × ((τ : ℕ) → lock_at (expiring (CachedResponse String)) idempotency "k" τ db'' ≡ none)
    × LeavesResponse (expiring (CachedResponse String)) idempotency "k" 59 50 r db' db''
wrapper_runs_example =
    wrapper_runs (expiring (CachedResponse String)) idempotency "k" 59 times fn [] 0 refl refl

concurrent_refused_example :
    let held = locked_db (expiring (CachedResponse String)) idempotency "k" 2 (lock_time 59) [] in
    wrapper (expiring (CachedResponse String)) idempotency (pos 60) "k" later fn (held, 5)
    ≡ (err (conflict "k"), (held, 5))
concurrent_refused_example =
    concurrent_refused (expiring (CachedResponse String)) idempotency "k" 59 2 later fn [] 5 refl
      (omega arith)

runs_once_example :
    let (r, after) =
      wrapper (expiring (CachedResponse String)) idempotency (pos 60) "k" times fn ([], 0) in
    (r ≡ ok (structured created))
    × (wrapper (expiring (CachedResponse String)) idempotency (pos 60) "k" later fn after
        ≡ (ok (structured created), after))
runs_once_example =
    runs_once (expiring (CachedResponse String)) idempotency "k" 59 times later fn fn created [] 0
      refl refl refl (omega arith)
