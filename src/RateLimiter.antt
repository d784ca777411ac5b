-- ===== src/RateLimiter.antt =====
-- kit-api/kit_api/rate_limiter.py: `RateLimiter` over a Redis that is a parameter, and the wrapper of
-- the decorator `rate_limit`. `now` is the clock of the caller, `at` the server's, both in whole
-- microseconds. `member` is the text that the script puts together from `now` and a random number.
pub mod Admission
pub mod Window
pub mod Remaining
mod Tests
use kit_api_optimization.Prelude.{
  ℕ, ◌+◌, ◌-◌, ℤ, pos, negsuc, ◌-ℤ◌, leb_ℤ, pos_part, String, join, Bool, true, [], ◌∷◌,
  if◌then◌else◌,
}
use kit_api_optimization.Exceptions.{Result, ok, err, Method, rate_limit_exceeded}
use kit_api_optimization.Redis.Expiring.{seconds}
use kit_api_optimization.Redis.Sorted.{Sorted, zadd, zremrangebyscore, expire, del, zcard}

pub record RateLimiter : Type 0 where
  pub max_requests : ℤ
  pub window_seconds : ℤ
  pub key_prefix : String

abbrev pub key : RateLimiter → String → String
key l k = join (l.key_prefix ∷ ":" ∷ k ∷ [])

-- `now - window`
abbrev pub oldest : ℤ → ℕ → ℤ
oldest (pos n) now = pos now -ℤ pos (seconds n)
oldest (negsuc n) now = pos (now + seconds (n + 1))

-- `if result < 0`
abbrev pub admitted : ℤ → Result Bool
admitted (pos n) = ok true
admitted (negsuc n) = err rate_limit_exceeded

module _ (redis : Sorted) where
  open redis use {Db, entry, send}

  -- the script, whose commands Redis runs at one time
  unfoldable pub script : String → ℕ → ℤ → ℤ → String → ℕ → Db → ℤ × Db
  script k now window max_req member at db =
      let trimmed = send at k (zremrangebyscore (oldest window now)) db in
      let current = pos (zcard at (entry k trimmed)) in
      if leb_ℤ max_req current then (negsuc 0, trimmed) else (
        max_req -ℤ current -ℤ pos 1,
        send at k (expire window) (send at k (zadd member now) trimmed),
      )

  unfoldable pub acquire : RateLimiter → String → String → ℕ → ℕ → Method Db Bool
  unfolding script
  acquire l k member now at db =
      let (result, db') = script (key l k) now l.window_seconds l.max_requests member at db in
      (admitted result, db')

  unfoldable pub remaining : RateLimiter → String → ℕ → ℕ → Db → ℕ × Db
  remaining l k now at db =
      let trimmed = send at (key l k) (zremrangebyscore (oldest l.window_seconds now)) db in
      (pos_part (l.max_requests -ℤ pos (zcard at (entry (key l k) trimmed))), trimmed)

  unfoldable pub reset : RateLimiter → String → ℕ → Db → Db
  reset l k at db = send at (key l k) del db

  -- the wrapper, for the key that `key_func` returned
  module _ {W A : Type 0} where
    after_acquire : Method (Db × W) A → W → Result Bool × Db → Result A × (Db × W)
    after_acquire fn w (err x, db) = (err x, (db, w))
    after_acquire fn w (ok b, db) = fn (db, w)

    unfoldable pub wrapper :
        RateLimiter → String → String → ℕ → ℕ → Method (Db × W) A → Method (Db × W) A
    unfolding after_acquire acquire
    wrapper l k member now at fn (db, w) = after_acquire fn w (acquire l k member now at db)
