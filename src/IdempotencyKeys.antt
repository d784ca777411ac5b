-- ===== src/IdempotencyKeys.antt =====
-- kit-pay/kit_pay/idempotency_key.py: `IdempotencyKeyManager` over a Redis that is a parameter. SHA-256 of
-- a text, in hexadecimal digits, is a parameter. Each command carries the server's time, in whole
-- microseconds.
pub mod Locking
mod Tests
use kit_api_optimization.Prelude.{ℕ, ℤ, pos, String, join, Bool, Option, none, some, List, [], ◌∷◌}
use kit_api_optimization.Exceptions.{
  Result, ok, err, Method, modify, ◌>>◌, response_error, type_error,
}
use kit_api_optimization.Redis.Persistent.{Value, text, num, doc}
use kit_api_optimization.Redis.Expiring.{Expiring, valid_ttl}

-- the document of a result
pub record Completed (J : Type 0) : Type 0 where
  pub result : J
  pub completed_at : ℕ

-- `':'.join(identifiers)`
abbrev joined : List String → String
joined [] = ""
joined (s ∷ []) = s
joined (s ∷ t ∷ rest) = join (s ∷ ":" ∷ joined (t ∷ rest) ∷ [])

abbrev pub generate : (String → String) → String → List String → String
generate sha256 operation identifiers = sha256 (join (operation ∷ ":" ∷ joined identifiers ∷ []))

abbrev pub lock_key : String → String → String
lock_key prefix k = join (prefix ∷ ":lock:" ∷ k ∷ [])

abbrev pub result_key : String → String → String
result_key prefix k = join (prefix ∷ ":result:" ∷ k ∷ [])

-- `data["result"]`
abbrev pub decode : {J : Type 0} → Option (Value (Completed J)) → Result (Option J)
decode none = ok none
decode (some (doc d)) = ok (some d.result)
decode (some (text s)) = err type_error
decode (some (num n)) = err type_error

module _ {J : Type 0} (redis : Expiring (Completed J)) (prefix : String) where
  open redis use {Db}

  abbrev pub set_if_free : String → ℕ → Option ℕ → Method Db Bool
  set_if_free k now none db = (err response_error, db)
  set_if_free k now (some ttl) db =
      let (written, db') = redis.set_nx now (lock_key prefix k) (num (pos now)) ttl db in
      (ok written, db')

  -- the value of the lock is the time, which is not read
  unfoldable pub acquire_lock : String → ℤ → ℕ → Method Db Bool
  acquire_lock k ttl now = set_if_free k now (valid_ttl ttl)

  unfoldable pub release_lock : String → Method Db (Unit {0})
  release_lock k = modify (redis.delete (lock_key prefix k))

  abbrev pub set_result : String → Completed J → ℕ → Option ℕ → Method Db (Unit {0})
  set_result k d now none db = (err response_error, db)
  set_result k d now (some ttl) db = (ok tt, redis.set_ex now (result_key prefix k) (doc d) ttl db)

  -- `completed_at` is the reading of the clock
  unfoldable pub mark_completed : String → J → ℤ → ℕ → ℕ → Method Db (Unit {0})
  unfolding release_lock
  mark_completed k result ttl completed_at now = do
    set_result k (record { result = result; completed_at = completed_at }) now (valid_ttl ttl)
    release_lock k

  unfoldable pub get_result : String → ℕ → Method Db (Option J)
  get_result k now db = (decode (redis.get now (result_key prefix k) db), db)
