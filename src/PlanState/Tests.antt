-- ===== src/PlanState/Tests.antt =====
-- `PlanStateManager` at concrete inputs, on the Redis of `Redis.Memory`.
use kit_api_optimization.Prelude.{ℕ, String, ◌≡◌, ◌≢◌, refl, true, none, List, [], ◌∷◌}
use kit_api_optimization.Exceptions.{ok}
use kit_api_optimization.Redis.Persistent.{Value, doc}
use kit_api_optimization.Redis.Memory.{persistent}
use kit_api_optimization.PlanState.{
  PlanState, trial, active, past_due, grace, Subscription, Doc, subscription, PlanStateManager,
  serialise, is_active,
}
use kit_api_optimization.PlanState.Machine.{Follows}
use kit_api_optimization.PlanState.Store.{
  at, Files, requests, transition_all, transition_all-Follows,
}

abbrev manager : PlanStateManager
manager = record { prefix = "kit:plan" }

abbrev sub_active : Subscription
sub_active = record {
  id = "s1";
  customer_id = "c1";
  plan_id = "pro";
  state = active;
  current_period_end = 900;
  grace_until = none;
  metadata = [];
}

abbrev db : List (String × Value Doc)
db = ("kit:plan:s1", doc (subscription (serialise sub_active))) ∷ []

filed : Files (persistent Doc) manager "s1" db sub_active
filed = record { found = refl; own_id = refl }

served : (is_active (persistent Doc) manager "s1" db).0 ≡ ok true
unfolding is_active
served = refl

abbrev calls : List (PlanState × ℕ)
calls = (past_due, 70) ∷ (trial, 80) ∷ (grace, 90) ∷ []

transition_all-Follows_example :
    (sub' : Subscription) × Files
      (persistent Doc)
      manager
      "s1"
      (transition_all (persistent Doc) manager "s1" calls db)
      sub'
    × Follows active (requests (persistent Doc) manager calls) sub'.state
    × ((j : String)
        → "s1" ≢ j
        → at (persistent Doc) manager j (transition_all (persistent Doc) manager "s1" calls db)
          ≡ at (persistent Doc) manager j db)
transition_all-Follows_example = transition_all-Follows (persistent Doc) manager "s1" calls filed
