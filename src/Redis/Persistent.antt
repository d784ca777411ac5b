-- ===== src/Redis/Persistent.antt =====
-- Redis for a component that sets no expiry: GET, SET, DEL and INCRBY (redis-py's `get`, `set`,
-- `delete`, `incr`/`incrby`/`decrby`), which kit-api/kit_api/circuit_breaker.py,
-- kit-data/kit_data/counter.py, kit-pay/kit_pay/plan_state.py and grace_handler.py send.
use mathlib.Core.Option as Option
use kit_api_optimization.Prelude.{ℤ, ◌+ℤ◌, String, ◌==◌, ◌≡◌, Option, none, some, if◌then◌else◌}

-- What the programs store under a key: a text, an integer (in decimal), or a JSON document. A
-- document is kept as the record that `json.dumps` was given and that `json.loads` gives back.
pub data Value (D : Type 0) : Type 0 where
  text : String → Value D
  num : ℤ → Value D
  doc : D → Value D

-- INCRBY counts from 0 where the key is missing, and refuses a value that is no integer. It also refuses to
-- leave the signed 64-bit integers: kit-data/kit_data/counter.py, whose amounts the caller chooses, adds
-- that, and the counts of calls of a circuit breaker do not come near.
abbrev pub incremented : {D : Type 0} → Option (Value D) → ℤ → Option ℤ
incremented none a = some a
incremented (some (num n)) a = some (n +ℤ a)
incremented (some (text s)) a = none
incremented (some (doc d)) a = none

pub record Persistent (D : Type 0) : Type 1 where
  pub Db : Type 0
  pub get : String → Db → Option (Value D)
  pub set : String → Value D → Db → Db
  pub delete : String → Db → Db
  -- the new value and the database, or none for an error reply
  pub incrby : String → ℤ → Db → Option (ℤ × Db)
  pub get-set :
      (k j : String) (v : Value D) (db : Db)
      → get j (set k v db) ≡ (if k == j then some v else get j db)
  pub get-delete :
      (k j : String) (db : Db) → get j (delete k db) ≡ (if k == j then none else get j db)
  pub incrby-get :
      (k : String) (a : ℤ) (db : Db)
      → incrby k a db ≡ Option.map (λ n. (n, set k (num n) db)) (incremented (get k db) a)
