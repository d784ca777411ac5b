-- ===== src/Concurrency.antt =====
-- kit-data/kit_data/concurrency.py: `ConcurrencyLimiter` over a Redis that is a parameter. The commands
-- of one method are sent at one time of the server, `at`; `now` is the clock of the caller.
pub mod Bound
pub mod Limit
mod Tests
use kit_api_optimization.Prelude.{
  ℕ, ◌*◌, ◌+◌, ◌-◌, ℤ, pos, negsuc, ◌-ℤ◌, leb_ℤ, String, join, Bool, Option, none, some, List, [],
  ◌∷◌, if◌then◌else◌,
}
use kit_api_optimization.Exceptions.{Error, Result, ok, err, Method, concurrency_limit_exceeded}
use kit_api_optimization.Redis.Expiring.{seconds}
use kit_api_optimization.Redis.Sorted.{Sorted, zadd, zremrangebyscore, zrem, expire, zcard}

pub record ConcurrencyLimiter : Type 0 where
  pub name : String
  pub max_concurrent : ℤ
  pub max_hold_seconds : ℤ
  pub key_prefix : String

abbrev pub key : ConcurrencyLimiter → String
key l = join (l.key_prefix ∷ ":" ∷ l.name ∷ [])

-- `now - self.max_hold_seconds`
abbrev pub oldest : ConcurrencyLimiter → ℕ → ℤ
oldest l now = elim l.max_hold_seconds [
  | pos n ↦ pos now -ℤ pos (seconds n)
  | negsuc n ↦ pos (now + seconds (n + 1))
]

module _ (redis : Sorted) where
  open redis use {Db, entry, send}

  -- ZADD, ZREMRANGEBYSCORE and EXPIRE
  unfoldable pub claim : ConcurrencyLimiter → String → ℕ → ℕ → Db → Db
  claim l token now at db =
      send at (key l) (expire l.max_hold_seconds)
        (send at (key l) (zremrangebyscore (oldest l now)) (send at (key l) (zadd token now) db))

  -- `token` is what `uuid4` draws
  unfoldable pub acquire : ConcurrencyLimiter → String → ℕ → ℕ → Method Db String
  unfolding claim
  acquire l token now at db =
      let claimed = claim l token now at db in
      if leb_ℤ (pos (zcard at (entry (key l) claimed))) l.max_concurrent
      then (ok token, claimed)
      else (
        err (concurrency_limit_exceeded l.name l.max_concurrent),
        send at (key l) (zrem token) claimed,
      )

  unfoldable pub release : ConcurrencyLimiter → String → ℕ → Db → Db
  release l token at db = send at (key l) (zrem token) db

  unfoldable pub in_flight : ConcurrencyLimiter → ℕ → ℕ → Db → ℕ × Db
  in_flight l now at db =
      let trimmed = send at (key l) (zremrangebyscore (oldest l now)) db in
      (zcard at (entry (key l) trimmed), trimmed)

  -- the body of a `with` runs on Redis and on a state of its own; `later` is the time of the release
  module _ {W A : Type 0} (l : ConcurrencyLimiter) (token : String) (now at later : ℕ) where
    after_body : Result A × (Db × W) → Result A × (Db × W)
    after_body (r, (db, w)) = (r, (release l token later db, w))

    after_acquire : Method (Db × W) A → W → Result String × Db → Result A × (Db × W)
    unfolding after_body release
    after_acquire body w (err x, db) = (err x, (db, w))
    after_acquire body w (ok claimed, db) = after_body (body (db, w))

    unfoldable pub slot : Method (Db × W) A → Method (Db × W) A
    unfolding after_acquire acquire
    slot body (db, w) = after_acquire body w (acquire l token now at db)
