-- ===== src/ExampleApp/SimpleLimiter.antt =====
-- `SimpleRateLimiter` of example-app/main.py, which stands in for `RateLimiter` where Redis has no
-- scripts. It sends the commands one by one; `now` is the clock of the caller, `at` the server's.
use text.Mathlib.TextLemmas.{append_assoc}
use kit_api_optimization.Prelude.{
  ℕ, ℤ, pos, negsuc, ◌-ℤ◌, leb_ℤ, pos_part, String, join, Bool, true, false, Bool-cases, inl, inr,
  [], ◌∷◌, ◌≡◌, refl, ap, arith, if◌then◌else◌,
}
use kit_api_optimization.Exceptions.{ok, err, Method, rate_limit_exceeded}
use kit_api_optimization.Redis.Sorted.{Sorted, zadd, zremrangebyscore, expire, del, zcard}
use kit_api_optimization.RateLimiter.{RateLimiter, oldest, admitted, script}
use kit_api_optimization.RateLimiter as Scripted

pub record SimpleRateLimiter : Type 0 where
  pub max_requests : ℤ
  pub window_seconds : ℤ

abbrev pub redis_key : String → String
redis_key key = join ("demo:rl:" ∷ key ∷ [])

module _ (redis : Sorted) where
  open redis use {Db, entry, send}

  unfoldable pub acquire : SimpleRateLimiter → String → String → ℕ → ℕ → Method Db Bool
  acquire l key member now at db =
      let trimmed = send at (redis_key key) (zremrangebyscore (oldest l.window_seconds now)) db in
      if leb_ℤ l.max_requests (pos (zcard at (entry (redis_key key) trimmed)))
      then (err rate_limit_exceeded, trimmed)
      else (
        ok true,
        send at (redis_key key) (expire l.window_seconds)
            (send at (redis_key key) (zadd member now) trimmed),
      )

  unfoldable pub remaining : SimpleRateLimiter → String → ℕ → ℕ → Db → ℕ × Db
  remaining l key now at db =
      let trimmed = send at (redis_key key) (zremrangebyscore (oldest l.window_seconds now)) db in
      (pos_part (l.max_requests -ℤ pos (zcard at (entry (redis_key key) trimmed))), trimmed)

  unfoldable pub reset : SimpleRateLimiter → String → ℕ → Db → Db
  reset l key at db = send at (redis_key key) del db

  -- the limiter with the script that it stands in for
  abbrev pub scripted : SimpleRateLimiter → RateLimiter
  scripted l = record {
    max_requests = l.max_requests;
    window_seconds = l.window_seconds;
    key_prefix = "demo:rl";
  }

  left_admitted :
      (m : ℤ) (c : ℕ) → leb_ℤ m (pos c) ≡ false → admitted (m -ℤ pos c -ℤ pos 1) ≡ ok true
  unfolding ◌-ℤ◌
  left_admitted (pos n) c h = ground arith
  left_admitted (negsuc n) c h = absurd (ground arith)

  key_same : (key : String) → redis_key key ≡ join ("demo:rl" ∷ ":" ∷ key ∷ [])
  key_same key = append_assoc "demo:rl" ":" key

  -- As long as no other client sends a command in between, each of the three methods answers as that
  -- of the `RateLimiter` with the prefix demo:rl and leaves the same in Redis, for any limit and window.
  pub simple-Scripted :
      (l : SimpleRateLimiter) (key member : String) (now at : ℕ) (db : Db)
      → (acquire l key member now at db ≡ Scripted.acquire redis (scripted l) key member now at db)
        × (remaining l key now at db ≡ Scripted.remaining redis (scripted l) key now at db)
        × (reset l key at db ≡ Scripted.reset redis (scripted l) key at db)
  unfolding acquire remaining reset Scripted.acquire Scripted.remaining Scripted.reset script
  simple-Scripted l key member now at db =
      let k = join ("demo:rl" ∷ ":" ∷ key ∷ []) in
      let db0 = send at k (zremrangebyscore (oldest l.window_seconds now)) db in
      let current = zcard at (entry k db0) in
      (
        rw (key_same key) (elim (Bool-cases (leb_ℤ l.max_requests (pos current))) [
          | inl full ↦ simp full refl
          | inr room ↦ simp (room, left_admitted l.max_requests current room) refl
        ]),
        ap
            (λ j.
              let trimmed = send at j (zremrangebyscore (oldest l.window_seconds now)) db in
              (pos_part (l.max_requests -ℤ pos (zcard at (entry j trimmed))), trimmed))
            (key_same key),
        ap (λ j. send at j del db) (key_same key),
      )
