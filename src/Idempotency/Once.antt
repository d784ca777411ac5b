-- ===== src/Idempotency/Once.antt =====
-- What the wrapper of `idempotent` (kit-api/kit_api/idempotency.py) guarantees for one key.
use kit_api_optimization.Prelude.{
  ℕ, suc, ◌+◌, ◌<◌, min, ltb, ℤ, pos, String, ◌≡◌, refl, ap, ◌∙◌, true, none, some, arith,
  if◌then◌else◌,
}
use mathlib.Core.Path.{subst}
use kit_api_optimization.Exceptions.{Result, ok, err, Method}
use kit_api_optimization.Redis.Persistent.{Value, doc}
use kit_api_optimization.Redis.Expiring.{seconds, valid_ttl, valid_ttl-pos, Expiring}
use kit_api_optimization.Idempotency.{
  CachedResponse, IdempotencyStore, key, lock_key, locked, lock_ttl, conflict, Returned, structured,
  other, Times, check, store, answered, acquire_lock, release_lock, finished, after_lock,
  after_check, wrapper,
}
use kit_api_optimization.Idempotency.Store.{
  response_at, lock_at, locked_db, response-lock, lock-lock, response-release, lock-release,
  response-store,
}

-- how long a lock lives
abbrev pub lock_time : ℕ → ℕ
lock_time n = seconds (min (suc n) 30)

valid_ttl-lock_ttl : (n : ℕ) → valid_ttl (lock_ttl (pos (suc n))) ≡ some (lock_time n)
valid_ttl-lock_ttl n = valid_ttl-pos (min (suc n) 30) (omega arith)

module _ {J : Type 0} (redis : Expiring (CachedResponse J)) (s : IdempotencyStore)
    (k : String) where
  open redis use {Db, set_ex, set_nx-get}

  pub acquire-free :
      (ttl : ℤ) (duration now : ℕ) (db : Db)
      → valid_ttl ttl ≡ some duration
      → lock_at redis s k now db ≡ none
      → acquire_lock redis s k ttl now db ≡ (ok true, locked_db redis s k now duration db)
  unfolding acquire_lock answered
  acquire-free ttl duration now db valid free =
      ground (arith, valid, free, set_nx-get now (lock_key s k) locked duration db)

  pub acquire-held :
      (ttl : ℤ) (duration now : ℕ) (v : Value (CachedResponse J)) (db : Db)
      → valid_ttl ttl ≡ some duration
      → lock_at redis s k now db ≡ some v
      → acquire_lock redis s k ttl now db ≡ (err (conflict k), db)
  unfolding acquire_lock answered
  acquire-held ttl duration now v db valid held =
      ground (arith, valid, held, set_nx-get now (lock_key s k) locked duration db)

module _ {J : Type 0} (redis : Expiring (CachedResponse J)) (s : IdempotencyStore) (k : String)
    (n : ℕ) {A : Type 0} where
  open redis use {Db}

  -- The stored response after a call: the new one, or else what the function left.
  abbrev pub LeavesResponse : ℕ → Result (Returned J A) → Db → Db → Type 0
  LeavesResponse stored (ok (structured r)) before after =
      (τ : ℕ)
      → response_at redis s k τ after
        ≡ (if ltb τ (stored + seconds (suc n)) then ok (some r) else ok none)
  LeavesResponse stored _ before after =
      (τ : ℕ) → response_at redis s k τ after ≡ response_at redis s k τ before

-- The times to live are whole seconds from 1 on.
module _ {J : Type 0} (redis : Expiring (CachedResponse J)) (s : IdempotencyStore) (k : String)
    (n : ℕ) {W A : Type 0} where
  open redis use {Db, set_ex}

  wrapper_replays :
      (t : Times) (fn : Method (Db × W) (Returned J A)) (r : CachedResponse J) (db : Db) (w : W)
      → response_at redis s k t.checked db ≡ ok (some r)
      → wrapper redis s (pos (suc n)) k t fn (db, w) ≡ (ok (structured r), (db, w))
  unfolding wrapper check after_check
  wrapper_replays t fn r db w cached =
      ap (λ c. after_check redis s (pos (suc n)) k t fn w (c, db)) cached

  wrapper-locked :
      (t : Times) (fn : Method (Db × W) (Returned J A)) (db : Db) (w : W)
      → response_at redis s k t.checked db ≡ ok none
      → wrapper redis s (pos (suc n)) k t fn (db, w)
        ≡ after_lock redis s
            (pos (suc n))
            k
            t.stored
            fn
            w
            (acquire_lock redis s k (lock_ttl (pos (suc n))) t.asked db)
  unfolding wrapper check after_check
  wrapper-locked t fn db w absent =
      ap (λ c. after_check redis s (pos (suc n)) k t fn w (c, db)) absent

  abbrev Finishes : ℕ → Result (Returned J A) × (Db × W) → Result (Returned J A) × (Db × W) → Type 0
  Finishes stored (r, (db, w)) (r', (db', w')) =
      (r' ≡ r)
      × (w' ≡ w)
      × ((τ : ℕ) → lock_at redis s k τ db' ≡ none)
      × LeavesResponse redis s k n stored r db db'

  finished-Finishes :
      (now : ℕ) (r : Result (Returned J A)) (db : Db) (w : W)
      → Finishes now (r, (db, w)) (finished redis s (pos (suc n)) k now (r, (db, w)))
  unfolding finished store release_lock
  finished-Finishes now (err x) db w =
      (refl, refl, λ τ. lock-release redis s k τ db, λ τ. response-release redis s k τ db)
  finished-Finishes now (ok (other a)) db w =
      (refl, refl, λ τ. lock-release redis s k τ db, λ τ. response-release redis s k τ db)
  finished-Finishes now (ok (structured r)) db w = (
    refl,
    refl,
    λ τ. lock-release redis s k τ (set_ex now (key s k) (doc r) (seconds (suc n)) db),
    λ τ.
        response-release redis s k τ (set_ex now (key s k) (doc r) (seconds (suc n)) db)
        ∙ response-store redis s k τ now (seconds (suc n)) r db,
  )

  -- A call with no stored response and no lock runs the function once, with the lock held, and
  -- passes on its result or its exception. Afterwards the lock is gone, and a structured response is
  -- what is read under the key for `ttl` seconds; without one the stored response is what the
  -- function left.
  pub wrapper_runs :
      (t : Times) (fn : Method (Db × W) (Returned J A)) (db : Db) (w : W)
      → response_at redis s k t.checked db ≡ ok none
      → lock_at redis s k t.asked db ≡ none
      → let (r, (db', w')) = fn (locked_db redis s k t.asked (lock_time n) db, w) in
        let (r'', (db'', w'')) = wrapper redis s (pos (suc n)) k t fn (db, w) in
        (r'' ≡ r)
        × (w'' ≡ w')
        × ((τ : ℕ) → lock_at redis s k τ db'' ≡ none)
        × LeavesResponse redis s k n t.stored r db' db''
  unfolding after_lock
  wrapper_runs t fn db w absent free =
      let whole =
        wrapper-locked t fn db w absent
        ∙ ap (after_lock redis s (pos (suc n)) k t.stored fn w) (
            acquire-free redis s k (lock_ttl (pos (suc n))) (lock_time n) t.asked db
              (valid_ttl-lock_ttl n) free) in
      let (r, (db', w')) = fn (locked_db redis s k t.asked (lock_time n) db, w) in
      rw whole (finished-Finishes t.stored r db' w')

  -- While the function of one call runs, with the lock that it took at `asked`, any other call with
  -- the key that finds no stored response raises `IdempotencyConflict` and does not run its function,
  -- as long as the lock lives.
  pub concurrent_refused :
      (asked : ℕ) (t : Times) (fn : Method (Db × W) (Returned J A)) (db : Db) (w : W)
      → response_at redis s k t.checked db ≡ ok none
      → t.asked < asked + (lock_time n)
      → let held = locked_db redis s k asked (lock_time n) db in
        wrapper redis s (pos (suc n)) k t fn (held, w) ≡ (err (conflict k), (held, w))
  unfolding after_lock
  concurrent_refused asked t fn db w absent early =
      let held = locked_db redis s k asked (lock_time n) db in
      let lock : lock_at redis s k t.asked held ≡ some locked =
        ground (arith, lock-lock redis s k t.asked asked (lock_time n) db, early) in
      wrapper-locked t fn held w (response-lock redis s k t.checked asked (lock_time n) db ∙ absent)
      ∙ ap (after_lock redis s (pos (suc n)) k t.stored fn w) (
          acquire-held redis s k (lock_ttl (pos (suc n))) (lock_time n) t.asked locked held
            (valid_ttl-lock_ttl n) lock)

  -- After a call that stored a response, every call that checks within `ttl` seconds returns that
  -- response, does not run its function and changes nothing.
  pub runs_once :
      (t t' : Times) (fn fn' : Method (Db × W) (Returned J A)) (c : CachedResponse J) (db : Db)
      (w : W)
      → response_at redis s k t.checked db ≡ ok none
      → lock_at redis s k t.asked db ≡ none
      → (fn (locked_db redis s k t.asked (lock_time n) db, w)).0 ≡ ok (structured c)
      → t'.checked < t.stored + seconds (suc n)
      → let (r, after) = wrapper redis s (pos (suc n)) k t fn (db, w) in
        (r ≡ ok (structured c))
        × (wrapper redis s (pos (suc n)) k t' fn' after ≡ (ok (structured c), after))
  runs_once t t' fn fn' c db w absent free returned early =
      let (db', w') = (fn (locked_db redis s k t.asked (lock_time n) db, w)).1 in
      let (db'', w'') = (wrapper redis s (pos (suc n)) k t fn (db, w)).1 in
      let (passed, same, unlocked, leaves) = wrapper_runs t fn db w absent free in
      let stored : LeavesResponse redis s k n {A = A} t.stored (ok (structured c)) db' db'' =
        subst (λ r. LeavesResponse redis s k n t.stored r db' db'') returned leaves in
      (
        passed ∙ returned,
        wrapper_replays t' fn' c db'' w'' (ground (arith, stored t'.checked, early)),
      )
