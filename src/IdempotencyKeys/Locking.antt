-- ===== src/IdempotencyKeys/Locking.antt =====
-- What the lock and the result of a key of `IdempotencyKeyManager` (kit-pay/kit_pay/idempotency_key.py)
-- promise.
use kit_api_optimization.Prelude.{
  ℕ, suc, ◌+◌, ◌<◌, pos, String, ◌==◌, eq_refl, eq_iff, middles_apart, ◌≡◌, refl, ap, true, false,
  Option, none, some, arith,
}
use kit_api_optimization.Exceptions.{ok}
use kit_api_optimization.Redis.Persistent.{Value, num, doc}
use kit_api_optimization.Redis.Expiring.{Expiring, seconds}
use kit_api_optimization.IdempotencyKeys.{
  Completed, lock_key, result_key, acquire_lock, release_lock, mark_completed, get_result,
}

result-lock : (prefix k : String) → (result_key prefix k == lock_key prefix k) ≡ false
result-lock prefix k = middles_apart prefix ":result:" ":lock:" k refl

lock-result : (prefix k : String) → (lock_key prefix k == result_key prefix k) ≡ false
lock-result prefix k = ground (
  arith,
  result-lock prefix k,
  eq_iff (lock_key prefix k) (result_key prefix k),
  eq_iff (result_key prefix k) (lock_key prefix k),
)

module _ {J : Type 0} (redis : Expiring (Completed J)) (prefix k : String) where
  open redis use {Db, get, set_ex, delete, get-set_ex, get-delete, set_nx-get}

  abbrev lock_at : ℕ → Db → Option (Value (Completed J))
  lock_at t db = get t (lock_key prefix k) db

  abbrev taken : ℕ → ℕ → Db → Db
  taken now n db = set_ex now (lock_key prefix k) (num (pos now)) (seconds (suc n)) db

  acquire_lock-free :
      (n now : ℕ) (db : Db)
      → lock_at now db ≡ none
      → acquire_lock redis prefix k (pos (suc n)) now db ≡ (ok true, taken now n db)
  unfolding acquire_lock
  acquire_lock-free n now db free =
      ground (arith, free, set_nx-get now (lock_key prefix k) (num (pos now)) (seconds (suc n)) db)

  acquire_lock-held :
      (n now : ℕ) (v : Value (Completed J)) (db : Db)
      → lock_at now db ≡ some v
      → acquire_lock redis prefix k (pos (suc n)) now db ≡ (ok false, db)
  unfolding acquire_lock
  acquire_lock-held n now v db held =
      ground (arith, held, set_nx-get now (lock_key prefix k) (num (pos now)) (seconds (suc n)) db)

  -- the locks and results once an operation is completed
  abbrev completed_db : J → ℕ → ℕ → ℕ → Db → Db
  completed_db result kept completed_at done db = delete (lock_key prefix k) (
      set_ex done (result_key prefix k)
        (doc (record { result = result; completed_at = completed_at })) (seconds (suc kept)) db)

  get_result-completed :
      (result : J) (kept completed_at done t : ℕ) (db : Db)
      → t < done + seconds (suc kept)
      → get_result redis prefix k t (completed_db result kept completed_at done db)
        ≡ (ok (some result), completed_db result kept completed_at done db)
  unfolding get_result
  get_result-completed result kept completed_at done t db soon =
      simp (get-delete, get-set_ex, lock-result prefix k, eq_refl) (ground (arith, soon))

  -- One caller at a time has the lock of a key. Where the key is free, `acquire_lock` answers true; to every
  -- other call within its `ttl` seconds it answers false and changes nothing. Both times to live are
  -- positive.
  pub acquire_lock-excludes :
      (n m now later : ℕ) (db : Db)
      → lock_at now db ≡ none
      → later < now + seconds (suc n)
      → let (r, held) = acquire_lock redis prefix k (pos (suc n)) now db in
        (r ≡ ok true) × (acquire_lock redis prefix k (pos (suc m)) later held ≡ (ok false, held))
  acquire_lock-excludes n m now later db free soon = rw (acquire_lock-free n now db free) (
    refl,
    acquire_lock-held m later (num (pos now)) (taken now n db)
        (simp (get-set_ex, eq_refl) (ground (arith, soon))),
  )

  -- The result of an operation that is completed is kept, and its lock is free at once: for `ttl` seconds, of
  -- which there are some, `get_result` answers with the result, and `acquire_lock` answers true.
  pub mark_completed-keeps :
      (n kept completed_at done t : ℕ) (result : J) (db : Db)
      → t < done + seconds (suc kept)
      → let (r, after) =
          mark_completed redis prefix k result (pos (suc kept)) completed_at done db in
        (r ≡ ok tt)
        × (get_result redis prefix k t after ≡ (ok (some result), after))
        × ((acquire_lock redis prefix k (pos (suc n)) t after).0 ≡ ok true)
  unfolding mark_completed release_lock
  mark_completed-keeps n kept completed_at done t result db soon = (
    refl,
    get_result-completed result kept completed_at done t db soon,
    ap (λ r. r.0)
        (acquire_lock-free n t (completed_db result kept completed_at done db)
          (simp (get-delete, eq_refl))),
  )
