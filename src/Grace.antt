-- ===== src/Grace.antt =====
-- kit-pay/kit_pay/grace_handler.py: `GraceHandler`, over the Redis of the plan states. Times are whole
-- microseconds, `now` for each reading of `time.time()`.
pub mod Stored
pub mod Sync
pub mod Ending
pub mod Trace
pub mod Reminders
mod Tests
use kit_api_optimization.Prelude.{
  ℕ, ◌+◌, ◌*◌, ◌-◌, ℤ, pos, negsuc, pos_part, neg_part, ◌+ℤ◌, leb, leb_ℤ, int_eq, String, ◌==◌,
  join, Eq, elem, Bool, true, false, ◌&&◌, Option, none, some, List, [], ◌∷◌, ◌++◌, ◌≡◌, ◌↔◌, arith,
  if◌then◌else◌,
}
use kit_api_optimization.Exceptions.{
  Result, ok, err, Method, pure, raise, lift, gets, modify, ◌>>=◌, ◌>>◌, key_error, value_error,
  type_error,
}
use kit_api_optimization.Redis.Persistent.{Value, text, num, doc, Persistent}
use kit_api_optimization.PlanState.{
  PlanState, active, grace, cancelled, Subscription, Doc, subscription, grace_period, GracePeriod,
  PlanStateManager, save, get, transition,
}

pub record GraceHandler : Type 0 where
  pub plan_state : PlanStateManager
  pub grace_days : ℤ
  pub reminder_intervals : List ℤ
  pub prefix : String

-- `__init__`: None and the empty list both stand for `[3, 1]`
abbrev pub init : PlanStateManager → ℤ → Option (List ℤ) → String → GraceHandler
init plan_state grace_days intervals prefix = record {
  plan_state = plan_state;
  grace_days = grace_days;
  reminder_intervals = elim intervals [
    | none ↦ pos 3 ∷ pos 1 ∷ []
    | some xs ↦ elim xs [ [] ↦ pos 3 ∷ pos 1 ∷ [] | y ∷ ys ↦ y ∷ ys ]
  ];
  prefix = prefix;
}

abbrev pub day : ℕ
day = 86400000000

-- `days * 86400`
abbrev pub in_days : ℤ → ℤ
in_days (pos n) = pos (day * n)
in_days (negsuc n) = negsuc (day * n + day - 1)

abbrev pub key : GraceHandler → String → String
key h id = join (h.prefix ∷ ":" ∷ id ∷ [])

-- What `check_grace` makes of the reply to GET: a subscription has keywords that `GracePeriod` does
-- not take.
abbrev pub decode : Option (Value Doc) → Result (Option GracePeriod)
decode none = ok none
decode (some (doc (grace_period g))) = ok (some g)
decode (some (doc (subscription d))) = err type_error
decode (some (text s)) = err value_error
decode (some (num n)) = err type_error

abbrev pub extended : ℤ → GracePeriod → GracePeriod
extended days g = record g { ends_at = g.ends_at +ℤ in_days days }

abbrev pub started : GraceHandler → String → String → ℕ → GracePeriod
started h id reason now = record {
  subscription_id = id;
  started_at = now;
  ends_at = pos now +ℤ in_days h.grace_days;
  reason = reason;
  reminders_sent = [];
}

-- `days_remaining <= interval`, multiplied by the length of a day
unfoldable pub is_near : GracePeriod → ℕ → ℤ → Bool
is_near g now interval = leb_ℤ g.ends_at (pos now +ℤ in_days interval)

-- the loop of `due_reminders`
pub due_among : GracePeriod → ℕ → List ℤ → List ℤ
due_among g now [] = []
due_among g now (i ∷ intervals) =
    let rest = due_among g now intervals in
    if is_near g now i then (if elem i g.reminders_sent then rest else i ∷ rest) else rest

-- `if interval not in grace.reminders_sent: grace.reminders_sent.append(interval)`
abbrev pub reminded : ℤ → GracePeriod → GracePeriod
reminded i g = record g { reminders_sent = g.reminders_sent ++ i ∷ [] }

-- where `end_grace` sends the subscription
abbrev pub end_state : String → PlanState
end_state reason = if reason == "resolved" then active else cancelled

module _ (redis : Persistent Doc) where
  open redis use {Db}

  pub save_grace : GraceHandler → GracePeriod → Method Db (Unit {0})
  save_grace h g = modify (redis.set (key h g.subscription_id) (doc (grace_period g)))

  -- `sub = get(id); sub.grace_until = until; _save(sub)`
  pub set_until : GraceHandler → String → Option ℤ → Method Db (Unit {0})
  set_until h id until = do
    sub ← get redis h.plan_state id
    save redis h.plan_state (record sub { grace_until = until })

  -- `later` is the clock reading of the transition
  unfoldable pub start_grace : GraceHandler → String → String → ℕ → ℕ → Method Db GracePeriod
  unfolding save_grace set_until
  start_grace h id reason now later = do
    transition redis h.plan_state id grace later
    set_until h id (some (started h id reason now).ends_at)
    save_grace h (started h id reason now)
    pure (started h id reason now)

  unfoldable pub check_grace : GraceHandler → String → Method Db (Option GracePeriod)
  check_grace h id = do raw ← gets (redis.get (key h id)); lift (decode raw)

  pub extend_found : GraceHandler → String → ℤ → Option GracePeriod → Method Db GracePeriod
  unfolding save_grace set_until
  extend_found h id days none = raise key_error
  extend_found h id days (some g) = do
    set_until h id (some (extended days g).ends_at)
    save_grace h (extended days g)
    pure (extended days g)

  unfoldable pub extend_grace : GraceHandler → String → ℤ → Method Db GracePeriod
  unfolding check_grace extend_found
  extend_grace h id days = do g ← check_grace h id; extend_found h id days g

  unfoldable pub end_grace : GraceHandler → String → String → ℕ → Method Db (Unit {0})
  unfolding set_until
  end_grace h id reason later = do
    transition redis h.plan_state id (end_state reason) later
    set_until h id none
    modify (redis.delete (key h id))

  due_in : GraceHandler → ℕ → Option GracePeriod → List ℤ
  unfolding due_among
  due_in h now none = []
  due_in h now (some g) = due_among g now h.reminder_intervals

  unfoldable pub due_reminders : GraceHandler → String → ℕ → Method Db (List ℤ)
  unfolding check_grace due_in
  due_reminders h id now = do g ← check_grace h id; pure (due_in h now g)

  pub mark_found : GraceHandler → ℤ → Option GracePeriod → Method Db (Unit {0})
  unfolding save_grace
  mark_found h interval none = pure tt
  mark_found h interval (some g) =
      if elem interval g.reminders_sent then pure tt else save_grace h (reminded interval g)

  unfoldable pub mark_reminder_sent : GraceHandler → String → ℤ → Method Db (Unit {0})
  unfolding check_grace mark_found
  mark_reminder_sent h id interval = do g ← check_grace h id; mark_found h interval g
