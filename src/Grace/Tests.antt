-- ===== src/Grace/Tests.antt =====
-- `GraceHandler` at concrete inputs, on the Redis of `Redis.Memory`.
use Prim.Native.String.{◌++◌}
use kit_api_optimization.Prelude.{
  pos, int_eq, String, prefixes_apart, ◌≡◌, ◌+ℤ◌, refl, none, some, List, [], ◌∷◌,
}
use kit_api_optimization.Exceptions.{ok}
use kit_api_optimization.Redis.Persistent.{Value, doc}
use kit_api_optimization.Redis.Memory.{persistent}
use kit_api_optimization.PlanState.{
  past_due, grace, Subscription, Doc, subscription, grace_period, GracePeriod, serialise,
}
use kit_api_optimization.PlanState.Machine.{Follows}
use kit_api_optimization.Grace.{GraceHandler, init, started}
use kit_api_optimization.Grace.Stored.{IsApart, grace_at}
use kit_api_optimization.Grace.Sync.{Synced, moved_until}
use kit_api_optimization.Grace.Trace.{requests, Call, start, extend, end, mark, run, run-Synced}

abbrev handler : GraceHandler
handler = init (record { prefix = "kit:plan" }) (pos 7) none "kit:grace"

handler-IsApart : IsApart handler
handler-IsApart = record {
  apart = λ i j. prefixes_apart "kit:" "g" "p" "race" "lan" (":" ++ i) (":" ++ j) refl;
}

abbrev sub_late : Subscription
sub_late = record {
  id = "s1";
  customer_id = "c1";
  plan_id = "pro";
  state = past_due;
  current_period_end = 900;
  grace_until = none;
  metadata = [];
}

abbrev Db : Type 0
Db = List (String × Value Doc)

abbrev db : Db
db = ("kit:plan:s1", doc (subscription (serialise sub_late))) ∷ []

synced : Synced (persistent Doc) handler handler-IsApart "s1" db sub_late
synced = record { files = record { found = refl; own_id = refl }; agrees = tt }

abbrev sub_grace : Subscription
sub_grace =
    moved_until (persistent Doc) handler handler-IsApart grace 6 (some (pos 604800000005)) sub_late

abbrev period : GracePeriod
period = started handler "s1" "payment_failed" 5

-- the same id with a grace period that started at 5
abbrev grace_db : Db
grace_db =
    ("kit:plan:s1", doc (subscription (serialise sub_grace)))
    ∷ ("kit:grace:s1", doc (grace_period period))
    ∷ []

grace_found : grace_at (persistent Doc) handler handler-IsApart "s1" grace_db ≡ ok (some period)
grace_found = refl

grace-Synced : Synced (persistent Doc) handler handler-IsApart "s1" grace_db sub_grace
unfolding ◌+ℤ◌
grace-Synced = record { files = record { found = refl; own_id = refl }; agrees = (refl, refl) }

abbrev calls : List Call
calls = start "payment_failed" 5 6 ∷ mark (pos 3) ∷ extend (pos 2) ∷ end "gone" 9 ∷ []

run-Synced_example :
    (sub' : Subscription) × Synced
      (persistent Doc)
      handler
      handler-IsApart
      "s1"
      (run (persistent Doc) handler handler-IsApart "s1" calls db)
      sub'
    × Follows past_due (requests calls) sub'.state
run-Synced_example = run-Synced (persistent Doc) handler handler-IsApart "s1" calls synced
