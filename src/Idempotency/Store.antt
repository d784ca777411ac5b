-- ===== src/Idempotency/Store.antt =====
-- What the methods of `IdempotencyStore` (kit-api/kit_api/idempotency.py) do to the response and the
-- lock of a key.
use kit_api_optimization.Prelude.{
  ℕ, ◌+◌, ltb, String, ◌==◌, eq_refl, eq_iff, middles_apart, ◌≡◌, refl, false, Option, none, some,
  arith, if◌then◌else◌,
}
use kit_api_optimization.Exceptions.{Result, ok}
use kit_api_optimization.Redis.Persistent.{Value, doc}
use kit_api_optimization.Redis.Expiring.{Expiring}
use kit_api_optimization.Idempotency.{
  CachedResponse, IdempotencyStore, key, lock_key, locked, decode, check,
}

lock-key : (s : IdempotencyStore) (k : String) → (lock_key s k == key s k) ≡ false
lock-key s k = middles_apart s.key_prefix ":lock:" ":" k refl

key-lock : (s : IdempotencyStore) (k : String) → (key s k == lock_key s k) ≡ false
key-lock s k =
    ground (arith, lock-key s k, eq_iff (key s k) (lock_key s k), eq_iff (lock_key s k) (key s k))

module _ {J : Type 0} (redis : Expiring (CachedResponse J)) (s : IdempotencyStore)
    (k : String) where
  open redis use {Db, get, set_ex, delete, get-set_ex, get-delete, set_nx-get}

  -- The response that stands at a time, or the exception of reading it.
  abbrev pub response_at : ℕ → Db → Result (Option (CachedResponse J))
  response_at t db = decode (get t (key s k) db)

  abbrev pub lock_at : ℕ → Db → Option (Value (CachedResponse J))
  lock_at t db = get t (lock_key s k) db

  abbrev pub locked_db : ℕ → ℕ → Db → Db
  locked_db now duration db = set_ex now (lock_key s k) locked duration db

  abbrev pub released_db : Db → Db
  released_db db = delete (lock_key s k) db

  pub response-lock :
      (t now duration : ℕ) (db : Db) → response_at t (locked_db now duration db) ≡ response_at t db
  response-lock t now duration db = simp (get-set_ex, lock-key s k)

  pub lock-lock :
      (t now duration : ℕ) (db : Db)
      → lock_at t (locked_db now duration db)
        ≡ (if ltb t (now + duration) then some locked else none)
  lock-lock t now duration db = simp (get-set_ex, eq_refl)

  pub response-release : (t : ℕ) (db : Db) → response_at t (released_db db) ≡ response_at t db
  response-release t db = simp (get-delete, lock-key s k)

  pub lock-release : (t : ℕ) (db : Db) → lock_at t (released_db db) ≡ none
  lock-release t db = simp (get-delete, eq_refl)

  pub response-store :
      (t now duration : ℕ) (r : CachedResponse J) (db : Db)
      → response_at t (set_ex now (key s k) (doc r) duration db)
        ≡ (if ltb t (now + duration) then ok (some r) else ok none)
  response-store t now duration r db = simp (get-set_ex, eq_refl) (ground arith)

  pub check-eq : (t : ℕ) (db : Db) → check redis s k t db ≡ (response_at t db, db)
  unfolding check
  check-eq t db = refl
