-- ===== src/IdempotencyKeys/Tests.antt =====
-- `IdempotencyKeyManager` at concrete inputs, on the Redis of `Redis.Memory`.
use kit_api_optimization.Prelude.{pos, String, ◌≡◌, refl, true, false, some, [], ◌∷◌, arith}
use kit_api_optimization.Exceptions.{ok}
use kit_api_optimization.Redis.Expiring.{Expiring}
use kit_api_optimization.Redis.Memory.{expiring}
use kit_api_optimization.IdempotencyKeys.{
  Completed, generate, acquire_lock, mark_completed, get_result,
}
use kit_api_optimization.IdempotencyKeys.Locking.{acquire_lock-excludes, mark_completed-keeps}

abbrev redis : Expiring (Completed String)
redis = expiring (Completed String)

-- identifiers with a colon have the key of others
one_key_for_two :
    (sha256 : String → String)
    → generate sha256 "charge" ("a:b" ∷ []) ≡ generate sha256 "charge" ("a" ∷ "b" ∷ [])
one_key_for_two sha256 = refl

acquire_lock-excludes_example :
    let (r, held) = acquire_lock redis "kit" "k" (pos 300) 5 [] in
    (r ≡ ok true) × (acquire_lock redis "kit" "k" (pos 60) 7 held ≡ (ok false, held))
acquire_lock-excludes_example =
    acquire_lock-excludes redis "kit" "k" 299 59 5 7 [] refl (omega arith)

mark_completed-keeps_example :
    let (r, after) = mark_completed redis "kit" "k" "charged" (pos 60) 8 9 [] in
    (r ≡ ok tt)
    × (get_result redis "kit" "k" 10 after ≡ (ok (some "charged"), after))
    × ((acquire_lock redis "kit" "k" (pos 300) 10 after).0 ≡ ok true)
mark_completed-keeps_example =
    mark_completed-keeps redis "kit" "k" 299 59 8 9 10 "charged" [] (omega arith)
