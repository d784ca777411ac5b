-- ===== src/Redis/Sorted.antt =====
-- Redis for a component that keeps sorted sets: ZADD, ZREMRANGEBYSCORE, ZREM, ZCARD, EXPIRE and DEL,
-- which kit-data/kit_data/concurrency.py and kit-api/kit_api/rate_limiter.py send. A score is a time
-- that is not negative, in whole microseconds, as is the server's time of a command.
use kit_api_optimization.Prelude.{
  ℕ, ◌+◌, leb, leb_ℤ, length, ℤ, pos, String, string_eq, ◌==◌, Dict, insert, erase, ◌≡◌, Option,
  none, some, [], ◌∷◌, if◌then◌else◌,
}
use kit_api_optimization.Redis.Expiring.{valid_ttl}

-- A key: its members with their scores, and the time from which it is gone.
abbrev pub Entry : Type 0
Entry = Dict String ℕ × Option ℕ

pub data Command : Type 0 where
  zadd : String → ℕ → Command
  -- the scores from 0 up to this one
  zremrangebyscore : ℤ → Command
  zrem : String → Command
  -- in seconds
  expire : ℤ → Command
  del : Command

-- what is left of a key at a time
abbrev pub live : ℕ → Entry → Entry
live now (members, none) = (members, none)
live now (members, some expiry) = if leb expiry now then ([], none) else (members, some expiry)

unfoldable pub above : ℤ → Dict String ℕ → Dict String ℕ
above bound [] = []
above bound ((m, score) ∷ members) =
    let rest = above bound members in if leb_ℤ (pos score) bound then rest else (m, score) ∷ rest

-- EXPIRE deletes the key if the time to live is not positive.
abbrev pub expiring : ℕ → Dict String ℕ → Option ℕ → Entry
expiring now members none = ([], none)
expiring now members (some ttl) = (members, some (now + ttl))

abbrev pub on_live : ℕ → Command → Entry → Entry
on_live now (zadd m score) (members, expiry) = (insert m score members, expiry)
on_live now (zremrangebyscore bound) (members, expiry) = (above bound members, expiry)
on_live now (zrem m) (members, expiry) = (erase m members, expiry)
on_live now (expire ttl) (members, expiry) = expiring now members (valid_ttl ttl)
on_live now del (members, expiry) = ([], none)

-- A set without members is no key, so it has no time to live.
abbrev pub present : Entry → Entry
present ([], expiry) = ([], none)
present (m ∷ members, expiry) = (m ∷ members, expiry)

unfoldable pub step : ℕ → Command → Entry → Entry
unfolding above
step now x e = present (on_live now x (live now e))

pub record Sorted : Type 1 where
  pub Db : Type 0
  pub entry : String → Db → Entry
  pub send : ℕ → String → Command → Db → Db
  pub entry-send :
      (now : ℕ) (k j : String) (x : Command) (db : Db)
      → entry j (send now k x db) ≡ (if k == j then step now x (entry k db) else entry j db)

-- ZCARD
abbrev pub zcard : ℕ → Entry → ℕ
zcard now e = length (live now e).0
