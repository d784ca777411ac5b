-- ===== src/Redis/Logs.antt =====
-- Redis for a component that keeps documents, and lists that expire: GET and SET of a document, LPUSH,
-- LRANGE of a whole list and EXPIRE, which kit-pay/kit_pay/budget_enforcer.py sends. The component
-- keeps its documents and its lists under keys that always differ, so a key is here either of a
-- document or of a list. Times are whole microseconds.
use kit_api_optimization.Prelude.{
  ℕ, ◌+◌, leb, ℤ, String, ◌==◌, ◌≡◌, Option, none, some, List, [], ◌∷◌, if◌then◌else◌,
}
use kit_api_optimization.Redis.Expiring.{valid_ttl}

-- A key: its elements, the newest first, and the time from which it is gone.
abbrev pub Entry : Type 0 → Type 0
Entry D = List D × Option ℕ

pub data Command (D : Type 0) : Type 0 where
  lpush : D → Command D
  -- in seconds
  expire : ℤ → Command D

module _ {D : Type 0} where
  -- what is left of a key at a time
  abbrev pub live : ℕ → Entry D → Entry D
  live now (items, none) = (items, none)
  live now (items, some expiry) = if leb expiry now then ([], none) else (items, some expiry)

  -- LRANGE from 0 to -1
  abbrev pub lrange : ℕ → Entry D → List D
  lrange now e = (live now e).0

  -- EXPIRE does nothing to a key that is missing, and deletes one if the time to live is not positive.
  abbrev pub expiring : ℕ → List D → Option ℕ → Entry D
  expiring now [] ttl = ([], none)
  expiring now (d ∷ items) none = ([], none)
  expiring now (d ∷ items) (some ttl) = (d ∷ items, some (now + ttl))

  abbrev pub step : ℕ → Command D → Entry D → Entry D
  step now (lpush d) e = let (items, expiry) = live now e in (d ∷ items, expiry)
  step now (expire ttl) e = expiring now (live now e).0 (valid_ttl ttl)

pub record Logs (C D : Type 0) : Type 1 where
  pub Db : Type 0
  pub get : String → Db → Option C
  pub set : String → C → Db → Db
  pub entry : String → Db → Entry D
  pub send : ℕ → String → Command D → Db → Db
  pub get-set :
      (k j : String) (v : C) (db : Db) → get j (set k v db) ≡ (if k == j then some v else get j db)
  pub get-send :
      (now : ℕ) (k j : String) (x : Command D) (db : Db) → get j (send now k x db) ≡ get j db
  pub entry-set : (k j : String) (v : C) (db : Db) → entry j (set k v db) ≡ entry j db
  pub entry-send :
      (now : ℕ) (k j : String) (x : Command D) (db : Db)
      → entry j (send now k x db) ≡ (if k == j then step now x (entry k db) else entry j db)
