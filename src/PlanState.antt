-- ===== src/PlanState.antt =====
-- kit-pay/kit_pay/plan_state.py: `PlanStateManager` over a Redis that is a parameter. Times are whole
-- microseconds. The documents of grace_handler.py stand in the same Redis (`Doc`).
pub mod Machine
pub mod Store
mod Tests
use kit_api_optimization.Prelude.{
  ℕ, ℤ, eqb, String, string_eq, ◌==◌, join, Eq, Dict, elem, insert, ◌≡◌, ◌↔◌, Bool, true, false,
  Option, none, some, List, [], ◌∷◌, arith, if◌then◌else◌,
}
use kit_api_optimization.Exceptions.{
  Result, ok, err, Method, pure, raise, lift, gets, modify, ◌>>=◌, ◌>>◌, key_error, value_error,
  type_error, invalid_transition,
}
use kit_api_optimization.Redis.Persistent.{Value, text, num, doc, Persistent}

pub data PlanState : Type 0 where
  trial active past_due grace cancelled expired : PlanState

abbrev pub value : PlanState → String
value trial = "trial"
value active = "active"
value past_due = "past_due"
value grace = "grace"
value cancelled = "cancelled"
value expired = "expired"

-- `PlanState(value)`
abbrev pub of_value : String → Result PlanState
of_value s =
    if s == "trial"
    then ok trial
    else if s == "active"
    then ok active
    else if s == "past_due"
    then ok past_due
    else if s == "grace"
    then ok grace
    else if s == "cancelled"
    then ok cancelled
    else if s == "expired"
    then ok expired
    else err value_error

abbrev place : PlanState → ℕ
place trial = 0
place active = 1
place past_due = 2
place grace = 3
place cancelled = 4
place expired = 5

abbrev pub same_state : PlanState → PlanState → Bool
same_state a b = eqb (place a) (place b)

pub same_state_iff : (a b : PlanState) → (same_state a b ≡ true) ↔ (a ≡ b)
same_state_iff a b = ground arith

instance abbrev pub plan_state_eq : Eq PlanState
plan_state_eq = record { beq = same_state; beq_iff = same_state_iff }

-- `VALID_TRANSITIONS`
abbrev pub valid_transitions : PlanState → List PlanState
valid_transitions trial = active ∷ cancelled ∷ expired ∷ []
valid_transitions active = past_due ∷ cancelled ∷ expired ∷ []
valid_transitions past_due = active ∷ grace ∷ cancelled ∷ []
valid_transitions grace = active ∷ cancelled ∷ expired ∷ []
valid_transitions cancelled = active ∷ []
valid_transitions expired = active ∷ []

-- What `metadata` holds, under names that are texts: a time that a transition wrote, or another JSON value,
-- as its text. A value that JSON changes, such as a tuple, stands here as the value that is read back.
pub data Meta : Type 0 where
  time : ℕ → Meta
  json : String → Meta

-- `Subscription`, with its state as an enumeration or, in Redis, as a text
pub record SubscriptionOf (S : Type 0) : Type 0 where
  pub id : String
  pub customer_id : String
  pub plan_id : String
  pub state : S
  pub current_period_end : ℕ
  pub grace_until : Option ℤ
  pub metadata : Dict String Meta

abbrev pub Subscription : Type 0
Subscription = SubscriptionOf PlanState

-- `GracePeriod` of grace_handler.py
pub record GracePeriod : Type 0 where
  pub subscription_id : String
  pub started_at : ℕ
  pub ends_at : ℤ
  pub reason : String
  pub reminders_sent : List ℤ

-- the JSON documents of the two managers
pub data Doc : Type 0 where
  subscription : SubscriptionOf String → Doc
  grace_period : GracePeriod → Doc

pub record PlanStateManager : Type 0 where
  pub prefix : String

abbrev pub key : PlanStateManager → String → String
key m id = join (m.prefix ∷ ":" ∷ id ∷ [])

-- `asdict`, with the value of the state
abbrev pub serialise : Subscription → SubscriptionOf String
serialise sub = record {
  id = sub.id;
  customer_id = sub.customer_id;
  plan_id = sub.plan_id;
  state = value sub.state;
  current_period_end = sub.current_period_end;
  grace_until = sub.grace_until;
  metadata = sub.metadata;
}

abbrev with_state : SubscriptionOf String → PlanState → Subscription
with_state d s = record {
  id = d.id;
  customer_id = d.customer_id;
  plan_id = d.plan_id;
  state = s;
  current_period_end = d.current_period_end;
  grace_until = d.grace_until;
  metadata = d.metadata;
}

-- `_deserialise`
abbrev pub deserialise : SubscriptionOf String → Result Subscription
deserialise d = elim (of_value d.state) [ ok s ↦ ok (with_state d s) | err x ↦ err x ]

-- What `get` makes of the reply to GET. A `text` is no JSON, a grace period has no `state`, and an
-- integer cannot be subscripted.
abbrev pub decode : Option (Value Doc) → Result Subscription
decode none = err key_error
decode (some (doc (subscription d))) = deserialise d
decode (some (doc (grace_period g))) = err key_error
decode (some (text s)) = err value_error
decode (some (num n)) = err type_error

-- the subscription that `transition` saves at the time `now`
abbrev pub transitioned : PlanState → ℕ → Subscription → Subscription
transitioned new_state now sub = record sub {
  state = new_state;
  metadata = insert "last_transition" (time now) sub.metadata;
}

-- `except KeyError: return False`, and the membership test
answered : Result Subscription → Result Bool
answered (ok sub) = ok (elem sub.state (trial ∷ active ∷ past_due ∷ grace ∷ []))
answered (err key_error) = ok false
answered (err x) = err x

module _ (redis : Persistent Doc) where
  open redis use {Db}

  unfoldable pub save : PlanStateManager → Subscription → Method Db (Unit {0})
  save m sub = modify (redis.set (key m sub.id) (doc (subscription (serialise sub))))

  unfoldable pub create : PlanStateManager → Subscription → Method Db Subscription
  unfolding save
  create m sub = do save m sub; pure sub

  unfoldable pub get : PlanStateManager → String → Method Db Subscription
  get m id = do raw ← gets (redis.get (key m id)); lift (decode raw)

  save_transition : PlanStateManager → PlanState → ℕ → Subscription → Method Db Subscription
  unfolding save
  save_transition m new_state now sub =
      if elem new_state (valid_transitions sub.state)
      then (do save m (transitioned new_state now sub); pure (transitioned new_state now sub))
      else raise invalid_transition

  unfoldable pub transition : PlanStateManager → String → PlanState → ℕ → Method Db Subscription
  unfolding get save_transition
  transition m id new_state now = do sub ← get m id; save_transition m new_state now sub

  unfoldable pub is_active : PlanStateManager → String → Method Db Bool
  unfolding get answered
  is_active m id db = let (r, db') = get m id db in (answered r, db')
