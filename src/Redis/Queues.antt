-- ===== src/Redis/Queues.antt =====
-- Redis for a component that keeps lists and counters: LPUSH, RPOP, INCR and GET of a counter, which
-- kit-pay/kit_pay/event_processor.py sends. LPUSH puts an element at one end of a list and RPOP takes
-- one from the other, so `queue` has the elements in the order in which RPOP takes them. The component
-- keeps its lists and its counters under keys that always differ, so a key is here either of a list or
-- of a counter.
use kit_api_optimization.Prelude.{
  ℕ, suc, String, ◌==◌, ◌≡◌, Option, none, some, List, [], ◌∷◌, ◌++◌, if◌then◌else◌,
}

abbrev pub first : {D : Type 0} → List D → Option D
first [] = none
first (d ∷ ds) = some d

abbrev pub rest : {D : Type 0} → List D → List D
rest [] = []
rest (d ∷ ds) = ds

pub record Queues (D : Type 0) : Type 1 where
  pub Db : Type 0
  pub queue : String → Db → List D
  pub counter : String → Db → ℕ
  pub lpush : String → D → Db → Db
  pub rpop : String → Db → Option D × Db
  pub incr : String → Db → Db
  pub queue-lpush :
      (k j : String) (d : D) (db : Db)
      → queue j (lpush k d db) ≡ (if k == j then queue k db ++ d ∷ [] else queue j db)
  pub counter-lpush : (k j : String) (d : D) (db : Db) → counter j (lpush k d db) ≡ counter j db
  pub rpop-first : (k : String) (db : Db) → (rpop k db).0 ≡ first (queue k db)
  pub queue-rpop :
      (k j : String) (db : Db)
      → queue j (rpop k db).1 ≡ (if k == j then rest (queue k db) else queue j db)
  pub counter-rpop : (k j : String) (db : Db) → counter j (rpop k db).1 ≡ counter j db
  pub queue-incr : (k j : String) (db : Db) → queue j (incr k db) ≡ queue j db
  pub counter-incr :
      (k j : String) (db : Db)
      → counter j (incr k db) ≡ (if k == j then suc (counter k db) else counter j db)
