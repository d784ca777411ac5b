-- ===== src/ExampleApp/Orders.antt =====
-- The endpoint of example-app/main.py that creates an order once for each key.
use kit_api_optimization.Prelude.{
  ℕ, ◌+◌, ◌<◌, pos, String, ◌≡◌, refl, ap, ◌∙◌, Bool, Option, none, some, [], arith,
}
use kit_api_optimization.Exceptions.{Result, ok, err, Method, idempotency_conflict}
use kit_api_optimization.Redis.Persistent.{doc}
use kit_api_optimization.Redis.Expiring.{Expiring, seconds}
use kit_api_optimization.Idempotency.{
  CachedResponse, IdempotencyStore, key, check, store, acquire_lock,
}
use kit_api_optimization.Idempotency.Store.{
  response_at, lock_at, locked_db, response-store, check-eq,
}
use kit_api_optimization.Idempotency.Once.{acquire-free}
use kit_api_optimization.ExampleApp.{Answer, http, returned}

abbrev pub idempotency_store : IdempotencyStore
idempotency_store = record { key_prefix = "kit:idem" }

-- the body of the answer, with its `source`
pub data Created (J : Type 0) : Type 0 where
  cache new : J → Created J

-- The times of the commands.
pub record Times : Type 0 where
  pub checked : ℕ
  pub asked : ℕ
  pub stored : ℕ

-- the response that is stored of an order
abbrev pub stored_order : {J : Type 0} → J → CachedResponse J
stored_order order = record { status_code = pos 200; body = order; headers = [] }

module _ {J : Type 0} (redis : Expiring (CachedResponse J)) where
  open redis use {Db}

  -- once the response is stored
  abbrev pub after_store : J → Result (Unit {0}) × Db → Result (Answer (Unit {0}) (Created J)) × Db
  after_store order (err x, db) = (err x, db)
  after_store order (ok _, db) = (ok (returned (new order)), db)

  -- the lock of `acquire_lock`, whose conflict is answered with 409
  unfoldable pub after_lock :
      String → J → Times → Result Bool × Db → Result (Answer (Unit {0}) (Created J)) × Db
  after_lock k order t (err (idempotency_conflict message), db) = (ok (http 409 tt), db)
  after_lock k order t (err x, db) = (err x, db)
  after_lock k order t (ok _, db) =
      after_store order
        (store redis idempotency_store k (stored_order order) (pos 3600) t.stored db)

  unfoldable pub after_check :
      String
      → J
      → Times
      → Result (Option (CachedResponse J)) × Db
      → Result (Answer (Unit {0}) (Created J)) × Db
  unfolding after_lock
  after_check k order t (err x, db) = (err x, db)
  after_check k order t (ok (some cached), db) = (ok (returned (cache cached.body)), db)
  after_check k order t (ok none, db) =
      after_lock k order t (acquire_lock redis idempotency_store k (pos 30) t.asked db)

  -- `order` is the order that would be created, with the identifier and the time drawn for it
  unfoldable pub create_order_idempotent :
      String → J → Times → Method Db (Answer (Unit {0}) (Created J))
  unfolding after_check
  create_order_idempotent k order t db =
      after_check k order t (check redis idempotency_store k t.checked db)

  -- An order is created once for a key: with no response and no lock for the key, the first request
  -- answers with its new order, and every request with the key that checks within an hour of its storage
  -- answers with the same order from the cache and changes nothing.
  pub order_once :
      (k : String) (order other : J) (t t' : Times) (db : Db)
      → response_at redis idempotency_store k t.checked db ≡ ok none
      → lock_at redis idempotency_store k t.asked db ≡ none
      → t'.checked < t.stored + seconds 3600
      → let (r, db') = create_order_idempotent k order t db in
        (r ≡ ok (returned (new order)))
        × (create_order_idempotent k other t' db' ≡ (ok (returned (cache order)), db'))
  unfolding create_order_idempotent after_check after_lock store
  order_once k order other t t' db absent free soon =
      let s = idempotency_store in
      let held = locked_db redis s k t.asked (seconds 30) db in
      let after = redis.set_ex t.stored (key s k) (doc (stored_order order)) (seconds 3600) held in
      let first : create_order_idempotent k order t db ≡ (ok (returned (new order)), after) =
        ap (after_check k order t) (check-eq redis s k t.checked db)
        ∙ ap (λ r. after_check k order t (r, db)) absent
        ∙ ap (after_lock k order t)
            (acquire-free redis s k (pos 30) (seconds 30) t.asked db refl free) in
      let found : response_at redis s k t'.checked after ≡ ok (some (stored_order order)) =
        response-store redis s k t'.checked t.stored (seconds 3600) (stored_order order) held
        ∙ ground (arith, soon) in
      rw first (
        refl,
        ap (after_check k other t') (check-eq redis s k t'.checked after)
            ∙ ap (λ r. after_check k other t' (r, after)) found,
      )
