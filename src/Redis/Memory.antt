-- ===== src/Redis/Memory.antt =====
-- A dictionary in memory meets the laws of the interfaces.
use mathlib.Core.Option as Option
use kit_api_optimization.Prelude.{
  ℕ, suc, ◌++◌, ◌+◌, ltb, true, false, String, ◌==◌, eq_iff, ◌≡◌, refl, List, [], ◌∷◌, Option, none,
  some, arith, if◌then◌else◌,
}
use kit_api_optimization.Redis.Expiring.{Expiring}
use kit_api_optimization.Redis.Sorted.{Entry, Command, step, Sorted}
use kit_api_optimization.Redis.Client.{Store}
use kit_api_optimization.Redis.Logs as Logs
use kit_api_optimization.Redis.Queues.{first, rest, Queues}
use kit_api_optimization.Redis.Persistent.{Value, num, incremented, Persistent}

module _ {V : Type 0} where
  abbrev pub lookup : String → List (String × V) → Option V
  lookup k [] = none
  lookup k ((j, v) ∷ m) = if j == k then some v else lookup k m

  abbrev pub without : String → List (String × V) → List (String × V)
  without k [] = []
  without k ((j, v) ∷ m) = let rest = without k m in if j == k then rest else (j, v) ∷ rest

  abbrev pub put : String → V → List (String × V) → List (String × V)
  put k v m = (k, v) ∷ without k m

  pub lookup-without :
      (k j : String) (m : List (String × V))
      → lookup j (without k m) ≡ (if k == j then none else lookup j m)
  lookup-without k j [] = ground arith
  lookup-without k j ((i, v) ∷ m) =
      ground (arith, lookup-without k j m, eq_iff i k, eq_iff i j, eq_iff k j)

  pub lookup-put :
      (k j : String) (v : V) (m : List (String × V))
      → lookup j (put k v m) ≡ (if k == j then some v else lookup j m)
  lookup-put k j v m = simp lookup-without (ground arith)

abbrev pub persistent : (D : Type 0) → Persistent D
persistent D = record {
  Db = List (String × Value D);
  get = lookup;
  set = put;
  delete = without;
  incrby = λ k a db. Option.map (λ n. (n, put k (num n) db)) (incremented (lookup k db) a);
  get-set = lookup-put;
  get-delete = lookup-without;
  incrby-get = λ k a db. refl;
}

-- A value with the time from which it is gone.
abbrev pub live : {V : Type 0} → ℕ → Option (V × ℕ) → Option V
live t none = none
live t (some (v, expiry)) = if ltb t expiry then some v else none

pub expiring_get-set_ex :
    {V : Type 0} (now t : ℕ) (k j : String) (v : V) (ttl : ℕ) (db : List (String × (V × ℕ)))
    → live t (lookup j (put k (v, now + ttl) db))
      ≡ (if k == j then (if ltb t (now + ttl) then some v else none) else live t (lookup j db))
expiring_get-set_ex now t k j v ttl db = simp lookup-put (ground arith)

pub expiring_get-delete :
    {V : Type 0} (t : ℕ) (k j : String) (db : List (String × (V × ℕ)))
    → live t (lookup j (without k db)) ≡ (if k == j then none else live t (lookup j db))
expiring_get-delete t k j db = simp lookup-without (ground arith)

abbrev pub expiring : (D : Type 0) → Expiring D
expiring D = record {
  Db = List (String × (Value D × ℕ));
  get = λ t k db. live t (lookup k db);
  set_ex = λ now k v ttl db. put k (v, now + ttl) db;
  set_nx = λ now k v ttl db. elim (live now (lookup k db)) [
    | none ↦ (true, put k (v, now + ttl) db)
    | some _ ↦ (false, db)
  ];
  delete = without;
  get-set_ex = expiring_get-set_ex;
  get-delete = expiring_get-delete;
  set_nx-get = λ now k v ttl db. refl;
}

-- what stands under a key, where a missing one is a set without members
abbrev pub entry_of : Option Entry → Entry
entry_of none = ([], none)
entry_of (some e) = e

pub sorted_entry-send :
    (now : ℕ) (k j : String) (x : Command) (db : List (String × Entry))
    → entry_of (lookup j (put k (step now x (entry_of (lookup k db))) db))
      ≡ (if k == j then step now x (entry_of (lookup k db)) else entry_of (lookup j db))
sorted_entry-send now k j x db = simp lookup-put (ground arith)

abbrev pub sorted : Sorted
sorted = record {
  Db = List (String × Entry);
  entry = λ k db. entry_of (lookup k db);
  send = λ now k x db. put k (step now x (entry_of (lookup k db))) db;
  entry-send = sorted_entry-send;
}

-- what stands under a key, where a missing one is an empty list
abbrev pub list_of : {D : Type 0} → Option (List D) → List D
list_of none = []
list_of (some ds) = ds

-- a missing counter is 0
abbrev pub count_of : Option ℕ → ℕ
count_of none = 0
count_of (some n) = n

abbrev Lists : Type 0 → Type 0
Lists D = List (String × List D) × List (String × ℕ)

pub queues_queue-lpush :
    {D : Type 0} (k j : String) (d : D) (db : Lists D)
    → list_of (lookup j (put k (list_of (lookup k db.0) ++ d ∷ []) db.0))
      ≡ (if k == j then list_of (lookup k db.0) ++ d ∷ [] else list_of (lookup j db.0))
queues_queue-lpush k j d db = simp lookup-put (ground arith)

pub queues_queue-rpop :
    {D : Type 0} (k j : String) (db : Lists D)
    → list_of (lookup j (put k (rest (list_of (lookup k db.0))) db.0))
      ≡ (if k == j then rest (list_of (lookup k db.0)) else list_of (lookup j db.0))
queues_queue-rpop k j db = simp lookup-put (ground arith)

pub queues_counter-incr :
    {D : Type 0} (k j : String) (db : Lists D)
    → count_of (lookup j (put k (suc (count_of (lookup k db.1))) db.1))
      ≡ (if k == j then suc (count_of (lookup k db.1)) else count_of (lookup j db.1))
queues_counter-incr k j db = simp lookup-put (ground arith)

abbrev pub queues : (D : Type 0) → Queues D
queues D = record {
  Db = Lists D;
  queue = λ k db. list_of (lookup k db.0);
  counter = λ k db. count_of (lookup k db.1);
  lpush = λ k d db. (put k (list_of (lookup k db.0) ++ d ∷ []) db.0, db.1);
  rpop = λ k db.
      (first (list_of (lookup k db.0)), (put k (rest (list_of (lookup k db.0))) db.0, db.1));
  incr = λ k db. (db.0, put k (suc (count_of (lookup k db.1))) db.1);
  queue-lpush = queues_queue-lpush;
  counter-lpush = λ k j d db. refl;
  rpop-first = λ k db. refl;
  queue-rpop = queues_queue-rpop;
  counter-rpop = λ k j db. refl;
  queue-incr = λ k j db. refl;
  counter-incr = queues_counter-incr;
}

abbrev pub log_of : {D : Type 0} → Option (Logs.Entry D) → Logs.Entry D
log_of none = ([], none)
log_of (some e) = e

pub logs_entry-send :
    {D : Type 0} (now : ℕ) (k j : String) (x : Logs.Command D) (db : List (String × Logs.Entry D))
    → log_of (lookup j (put k (Logs.step now x (log_of (lookup k db))) db))
      ≡ (if k == j then Logs.step now x (log_of (lookup k db)) else log_of (lookup j db))
logs_entry-send now k j x db = simp lookup-put (ground arith)

abbrev pub logs : (C D : Type 0) → Logs.Logs C D
logs C D = record {
  Db = List (String × C) × List (String × Logs.Entry D);
  get = λ k db. lookup k db.0;
  set = λ k v db. (put k v db.0, db.1);
  entry = λ k db. log_of (lookup k db.1);
  send = λ now k x db. (db.0, put k (Logs.step now x (log_of (lookup k db.1))) db.1);
  get-set = λ k j v db. lookup-put k j v db.0;
  get-send = λ now k j x db. refl;
  entry-set = λ k j v db. refl;
  entry-send = λ now k j x db. logs_entry-send now k j x db.1;
}

-- a document with the time from which it is gone, if there is one
abbrev pub standing : {D : Type 0} → ℕ → Option (D × Option ℕ) → Option D
standing t none = none
standing t (some (d, none)) = some d
standing t (some (d, some expiry)) = if ltb t expiry then some d else none

module _ {D : Type 0} where
  pub store_get-put :
      (t : ℕ) (k j : String) (d : D) (expiry : Option ℕ) (db : List (String × (D × Option ℕ)))
      → standing t (lookup j (put k (d, expiry) db))
        ≡ (if k == j then standing t (some (d, expiry)) else standing t (lookup j db))
  store_get-put t k j d expiry db = simp lookup-put (ground arith)

  pub store_get-without :
      (t : ℕ) (k j : String) (db : List (String × (D × Option ℕ)))
      → standing t (lookup j (without k db)) ≡ (if k == j then none else standing t (lookup j db))
  store_get-without t k j db = simp lookup-without (ground arith)

abbrev pub store : (D : Type 0) → Store D
store D = record {
  Db = List (String × (D × Option ℕ));
  get = λ t k db. standing t (lookup k db);
  set = λ k d db. put k (d, none) db;
  setex = λ now k d ttl db. put k (d, some (now + ttl)) db;
  delete = without;
  get-set = λ t k j d db. store_get-put t k j d none db;
  get-setex = λ now t k j d ttl db. store_get-put t k j d (some (now + ttl)) db;
  get-delete = store_get-without;
}
