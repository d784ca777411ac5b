-- ===== src/Cache/Tests.antt =====
-- `get_or_set` at concrete inputs, on the Redis of `Redis.Memory`. A JSON value is an integer, and the
-- loader counts its calls.
use kit_api_optimization.Prelude.{
  ℕ, zero, suc, ◌+◌, ◌*◌, ℤ, pos, String, ◌≡◌, refl, Option, none, some, List, [], ◌∷◌, arith,
}
use kit_api_optimization.Exceptions.{ok, Method}
use kit_api_optimization.Redis.Persistent.{Value, doc}
use kit_api_optimization.Redis.Expiring.{valid_ttl}
use kit_api_optimization.Redis.Memory.{expiring}
use kit_api_optimization.Cache.{Cache, locked, Wait, Times, get_or_set, jittered}
use kit_api_optimization.Cache.Flight.{locked_db, Computes, get_or_set-Computes}
use kit_api_optimization.Cache.Waiting.{Sleeps, Waits, get_or_set-Waits}

abbrev cache : Cache
cache = record { namespace = "kit:cache"; default_ttl = pos 300; lock_ttl = pos 10; jitter = pos 0 }

abbrev Db : Type 0
Db = List (String × (Value (Option ℤ) × ℕ))

abbrev loader : Method (Db × ℕ) (Option ℤ)
loader (db, calls) = (ok (some (pos 7)), (db, calls + 1))

abbrev times : Times
times = record { first = 1; lock = 2; second = 3; started = 5; stored = 9; draw = 0 }

-- The holder of the lock stores its value during the second sleep.
abbrev arrive : ℕ → Db → Db
arrive (suc zero) db = ("kit:cache:k", (doc (some (pos 8)), 900000000)) ∷ db
arrive _ db = db

abbrev wait : Wait Db
wait = record { clock = λ i. 6 + 50000 * i; asked = λ i. 20 + 50000 * i; meanwhile = arrive }

abbrev held : Db
held = locked_db (λ n. n) (expiring (Option ℤ)) cache "k" 0 10000000 []

served :
    get_or_set (λ n. n) (expiring (Option ℤ)) cache "k" none times loader wait 201 held 0
    ≡ some (ok (some (pos 8)), (arrive 1 held, 0))
unfolding get_or_set
served = refl

five_minutes : valid_ttl (jittered cache 0 (pos 300)) ≡ some 300000000
unfolding jittered
five_minutes = refl

get_or_set-Computes_example :
    Computes
      (λ n. n)
      (expiring (Option ℤ))
      cache
      "k"
      9
      300000000
      (loader (locked_db (λ n. n) (expiring (Option ℤ)) cache "k" 2 10000000 [], 0))
      (get_or_set (λ n. n) (expiring (Option ℤ)) cache "k" none times loader wait 0 [] 0)
get_or_set-Computes_example =
    get_or_set-Computes (λ n. n) (expiring (Option ℤ)) cache "k" none times loader 300000000
      five_minutes wait 0 10000000 [] 0 refl refl refl refl

wait-Sleeps : Sleeps wait
wait-Sleeps i = omega arith

get_or_set-Waits_example :
    Waits
      (λ n. n)
      (expiring (Option ℤ))
      cache
      "k"
      none
      times
      loader
      wait
      10000005
      0
      0
      held
      (get_or_set (λ n. n) (expiring (Option ℤ)) cache "k" none times loader wait 201 held 0)
get_or_set-Waits_example =
    get_or_set-Waits (λ n. n) (expiring (Option ℤ)) cache "k" none times loader wait 200 10000000
      locked held 0 refl refl refl wait-Sleeps (omega arith) (omega arith)
