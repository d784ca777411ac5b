-- ===== src/Redis/Expiring.antt =====
-- Redis for a component whose keys expire: GET, SET with EX, SET with NX and EX, and DEL, which
-- kit-api/kit_api/idempotency.py and kit-data/kit_data/cache.py send. Each command carries the server's time, in whole
-- microseconds, and a time to live is in whole microseconds too.
use kit_api_optimization.Prelude.{
  ℕ, zero, suc, ◌+◌, ◌*◌, ◌<◌, ltb, ℤ, pos, negsuc, refl, String, ◌==◌, ◌≡◌, Bool, true, false,
  Option, none, some, if◌then◌else◌,
}
use kit_api_optimization.Redis.Persistent.{Value}

abbrev pub seconds : ℕ → ℕ
seconds n = 1000000 * n

-- What Redis makes of a time to live in seconds: it refuses anything below 1.
abbrev pub valid_ttl : ℤ → Option ℕ
valid_ttl (pos zero) = none
valid_ttl (pos (suc n)) = some (seconds (suc n))
valid_ttl (negsuc n) = none

pub valid_ttl-pos : (m : ℕ) → 0 < m → valid_ttl (pos m) ≡ some (seconds m)
valid_ttl-pos zero h = elim h [ ]
valid_ttl-pos (suc m) h = refl

pub record Expiring (D : Type 0) : Type 1 where
  pub Db : Type 0
  pub get : ℕ → String → Db → Option (Value D)
  pub set_ex : ℕ → String → Value D → ℕ → Db → Db
  -- whether the key was written
  pub set_nx : ℕ → String → Value D → ℕ → Db → Bool × Db
  pub delete : String → Db → Db
  pub get-set_ex :
      (now t : ℕ) (k j : String) (v : Value D) (ttl : ℕ) (db : Db)
      → get t j (set_ex now k v ttl db)
        ≡ (if k == j then (if ltb t (now + ttl) then some v else none) else get t j db)
  pub get-delete :
      (t : ℕ) (k j : String) (db : Db)
      → get t j (delete k db) ≡ (if k == j then none else get t j db)
  pub set_nx-get :
      (now : ℕ) (k : String) (v : Value D) (ttl : ℕ) (db : Db)
      → set_nx now k v ttl db
        ≡ elim (get now k db) [ none ↦ (true, set_ex now k v ttl db) | some _ ↦ (false, db) ]
