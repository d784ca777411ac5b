-- ===== src/Redis/Client.antt =====
-- kit-core/kit_core/redis_client.py: `get`, `set` and `delete` of `RedisClient`, for a component that keeps
-- JSON documents, with and without a time to live, over a Redis that is a parameter: GET, SET, SETEX and
-- DEL. Each command carries the server's time, in whole microseconds.
use kit_api_optimization.Prelude.{
  ℕ, ◌+◌, ltb, eqb, ℤ, pos, negsuc, String, ◌==◌, ◌≡◌, Option, none, some, if◌then◌else◌,
}
use kit_api_optimization.Exceptions.{ok, err, Method, response_error}
use kit_api_optimization.Redis.Expiring.{valid_ttl}

pub record Store (D : Type 0) : Type 1 where
  pub Db : Type 0
  pub get : ℕ → String → Db → Option D
  pub set : String → D → Db → Db
  -- with a time to live in microseconds
  pub setex : ℕ → String → D → ℕ → Db → Db
  pub delete : String → Db → Db
  pub get-set :
      (t : ℕ) (k j : String) (d : D) (db : Db)
      → get t j (set k d db) ≡ (if k == j then some d else get t j db)
  pub get-setex :
      (now t : ℕ) (k j : String) (d : D) (ttl : ℕ) (db : Db)
      → get t j (setex now k d ttl db)
        ≡ (if k == j then (if ltb t (now + ttl) then some d else none) else get t j db)
  pub get-delete :
      (t : ℕ) (k j : String) (db : Db)
      → get t j (delete k db) ≡ (if k == j then none else get t j db)

module _ {D : Type 0} (redis : Store D) where
  open redis use {Db}

  -- SETEX, which refuses a time to live that is not positive
  unfoldable pub expiring_set : String → D → Option ℕ → ℕ → Method Db (Unit {0})
  expiring_set k d none now db = (err response_error, db)
  expiring_set k d (some ttl) now db = (ok tt, redis.setex now k d ttl db)

  -- `set`: `if ttl` is false for None and for 0
  unfoldable pub client_set : String → D → Option ℤ → ℕ → Method Db (Unit {0})
  unfolding expiring_set
  client_set k d none now db = (ok tt, redis.set k d db)
  client_set k d (some (pos n)) now db =
      if eqb n 0 then (ok tt, redis.set k d db) else expiring_set k d (valid_ttl (pos n)) now db
  client_set k d (some (negsuc n)) now db = expiring_set k d (valid_ttl (negsuc n)) now db
