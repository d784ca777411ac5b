-- ===== src/Idempotency.antt =====
-- kit-api/kit_api/idempotency.py: `IdempotencyStore` over a Redis that is a parameter, and the wrapper
-- that the decorator `idempotent` builds. A body is a JSON value of the application (`J`). Every
-- command carries its time, in whole microseconds.
pub mod Store
pub mod Once
mod Tests
use kit_api_optimization.Prelude.{
  ℕ, zero, suc, ◌+◌, ◌*◌, min, ℤ, pos, negsuc, String, join, Dict, Bool, true, false, Option, none,
  some, List, [], ◌∷◌, if◌then◌else◌,
}
use kit_api_optimization.Exceptions.{
  Error, Result, ok, err, Method, pure, raise, lift, gets, ◌>>=◌, ◌>>◌, idempotency_conflict,
  value_error, type_error, response_error,
}
use kit_api_optimization.Redis.Persistent.{Value, text, num, doc}
use kit_api_optimization.Redis.Expiring.{valid_ttl, Expiring}

pub record CachedResponse (J : Type 0) : Type 0 where
  pub status_code : ℤ
  pub body : J
  pub headers : Dict String String

pub record IdempotencyStore : Type 0 where
  pub key_prefix : String

abbrev pub key : IdempotencyStore → String → String
key s k = join (s.key_prefix ∷ ":" ∷ k ∷ [])

abbrev pub lock_key : IdempotencyStore → String → String
lock_key s k = join (s.key_prefix ∷ ":lock:" ∷ k ∷ [])

-- The value of a lock, "1".
abbrev pub locked : {D : Type 0} → Value D
locked = num (pos 1)

-- What `check` makes of the reply to GET: an integer cannot be subscripted, a `text` is no JSON.
abbrev pub decode :
    {J : Type 0} → Option (Value (CachedResponse J)) → Result (Option (CachedResponse J))
decode none = ok none
decode (some (doc r)) = ok (some r)
decode (some (num n)) = err type_error
decode (some (text s)) = err value_error

-- `min(ttl, 30)`
abbrev pub lock_ttl : ℤ → ℤ
lock_ttl (pos n) = pos (min n 30)
lock_ttl (negsuc n) = negsuc n

-- What the function returns: a structured result is cached.
pub data Returned (J A : Type 0) : Type 0 where
  structured : CachedResponse J → Returned J A
  other : A → Returned J A

-- The times of the commands of one call: of `check`, of the lock, and of `store`.
pub record Times : Type 0 where
  pub checked : ℕ
  pub asked : ℕ
  pub stored : ℕ

abbrev pub conflict : String → Error
conflict k =
    idempotency_conflict
      (join ("Request with idempotency key '" ∷ k ∷ "' is already being processed" ∷ []))

module _ {J : Type 0} (redis : Expiring (CachedResponse J)) where
  open redis use {Db}

  unfoldable pub check : IdempotencyStore → String → ℕ → Method Db (Option (CachedResponse J))
  check s k now = do raw ← gets (redis.get now (key s k)); lift (decode raw)

  unfoldable pub store : IdempotencyStore → String → CachedResponse J → ℤ → ℕ → Method Db (Unit {0})
  store s k r ttl now db = elim (valid_ttl ttl) [
    | none ↦ (err response_error, db)
    | some duration ↦ (ok tt, redis.set_ex now (key s k) (doc r) duration db)
  ]

  -- `if not acquired: raise`
  answered : String → Bool × Db → Result Bool × Db
  answered k (true, db) = (ok true, db)
  answered k (false, db) = (err (conflict k), db)

  unfoldable pub acquire_lock : IdempotencyStore → String → ℤ → ℕ → Method Db Bool
  unfolding answered
  acquire_lock s k ttl now db = elim (valid_ttl ttl) [
    | none ↦ (err response_error, db)
    | some duration ↦ answered k (redis.set_nx now (lock_key s k) locked duration db)
  ]

  unfoldable pub release_lock : IdempotencyStore → String → Method Db (Unit {0})
  release_lock s k db = (ok tt, redis.delete (lock_key s k) db)

  -- The function runs on Redis and on a state of its own: what other clients send to Redis
  -- while it runs is part of it.
  module _ {W A : Type 0} (s : IdempotencyStore) (ttl : ℤ) (k : String) where
    -- the rest of the call, once the function has returned or raised
    finished : ℕ → Result (Returned J A) × (Db × W) → Result (Returned J A) × (Db × W)
    unfolding store release_lock
    finished now (err x, (db, w)) = (err x, ((release_lock s k db).1, w))
    finished now (ok (other a), (db, w)) = (ok (other a), ((release_lock s k db).1, w))
    finished now (ok (structured r), (db, w)) = elim (store s k r ttl now db).0 [
      | ok _ ↦ (ok (structured r), ((release_lock s k (store s k r ttl now db).1).1, w))
      | err x ↦ (err x, ((store s k r ttl now db).1, w))
    ]

    after_lock :
        ℕ → Method (Db × W) (Returned J A) → W → Result Bool × Db → Result (Returned J A) × (Db × W)
    unfolding finished
    after_lock now fn w (err x, db) = (err x, (db, w))
    after_lock now fn w (ok b, db) = finished now (fn (db, w))

    after_check :
        Times
        → Method (Db × W) (Returned J A)
        → W
        → Result (Option (CachedResponse J)) × Db
        → Result (Returned J A) × (Db × W)
    unfolding after_lock acquire_lock
    after_check t fn w (err x, db) = (err x, (db, w))
    after_check t fn w (ok (some r), db) = (ok (structured r), (db, w))
    after_check t fn w (ok none, db) =
        after_lock t.stored fn w (acquire_lock s k (lock_ttl ttl) t.asked db)

    -- the wrapper, for the key that `key_func` returned
    unfoldable pub wrapper : Times → Method (Db × W) (Returned J A) → Method (Db × W) (Returned J A)
    unfolding after_check check
    wrapper t fn (db, w) = after_check t fn w (check s k t.checked db)
