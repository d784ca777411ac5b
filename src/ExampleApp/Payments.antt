-- ===== src/ExampleApp/Payments.antt =====
-- The endpoints of example-app/main.py for webhooks, subscriptions and budgets.
use kit_api_optimization.Prelude.{
  ℕ, ◌+◌, ℤ, String, ◌==◌, Eq, Dict, Bool, false, not, ◌≡◌, refl, ◌*◌, ◌++◌, Option, none, List, [],
  ◌∷◌, if◌then◌else◌,
}
use kit_api_optimization.Exceptions.{
  Error, Result, ok, err, Method, pure, ◌>>=◌, key_error, payment_error,
}
use kit_api_optimization.Redis.Persistent.{Persistent}
use kit_api_optimization.Redis.Expiring.{Expiring, seconds}
use kit_api_optimization.Redis.Logs.{Logs}
use kit_api_optimization.PlanState.{
  PlanState, trial, value, of_value, Subscription, Doc, PlanStateManager, create, get, transition,
  is_active,
}
use kit_api_optimization.WebhookReceiver.{
  Raw, WebhookEvent, ProcessResult, Json, Handler, Handlers, verify, parse, process,
  register_handler,
}
use kit_api_optimization.BudgetEnforcer.{
  ChargeRecord, Limit, BudgetStatus, Calendar, check_limit, record_charge, set_limit, get_history,
}
use kit_api_optimization.BudgetEnforcer as Budget
use kit_api_optimization.ExampleApp.{Answer, http, returned}

-- Webhooks. A JSON value that a handler returns is a text, and `handled_events` is the state of the handlers.
pub record HandledEvent (J : Type 0) : Type 0 where
  pub type : J
  pub id : J
  pub provider : String

-- `provider if provider != "test" else "stripe"`
abbrev pub parsed_provider : String → String
parsed_provider provider = if provider == "test" then "stripe" else provider

-- whether the signature is wrong, where it is checked
abbrev pub is_unsigned : (String → Raw → String) → String → Raw → String → Bool
is_unsigned hexdigest provider body signature =
    if provider == "test"
    then false
    else not (verify hexdigest body signature "whsec_demo_secret_123")

module _ {J : Type 0} where
  abbrev pub on_invoice_paid : Handler J String (List (HandledEvent J))
  on_invoice_paid event handled = (
    ok "processed",
    handled ++ record { type = event.type; id = event.id; provider = event.provider } ∷ [],
  )

  abbrev pub handlers : ⦃e : Eq J⦄ → Json J → Handlers J String (List (HandledEvent J))
  handlers json = register_handler (json.quote "invoice.paid") on_invoice_paid []

  module _ {D : Type 0} (redis : Expiring D) (json : Json J) (loads : Raw → Result (Dict String J))
      (hexdigest : String → Raw → String) where
    open redis use {Db}

    abbrev State : Type 0
    State = Db × List (HandledEvent J)

    abbrev answered :
        Result (ProcessResult J String) → Result (Answer (Unit {0}) (ProcessResult J String))
    answered (err x) = err x
    answered (ok r) = ok (returned r)

    -- the event is processed, if it was parsed; `now` and `later` are the times of its commands
    unfoldable pub processed :
        ⦃e : Eq J⦄
        → ℕ
        → ℕ
        → Result (WebhookEvent J)
        → Method State (Answer (Unit {0}) (ProcessResult J String))
    processed now later (err x) s = (err x, s)
    processed now later (ok event) s =
        let (r, s') = process redis json "kit:webhook" (handlers json) event now later s in
        (answered r, s')

    -- `parsed_at` is the reading of the clock for an event without a time
    unfoldable pub receive_webhook :
        ⦃e : Eq J⦄
        → String
        → Raw
        → String
        → ℕ
        → ℕ
        → ℕ
        → Method State (Answer (Unit {0}) (ProcessResult J String))
    unfolding processed
    receive_webhook provider body signature parsed_at now later s =
        if is_unsigned hexdigest provider body signature
        then (ok (http 401 tt), s)
        else processed now later (parse json loads body (parsed_provider provider) parsed_at) s

    -- A webhook of a provider other than "test" whose signature is not the HMAC of its body is
    -- answered with 401 before it is parsed: no handler runs, and no event is marked.
    pub receive_webhook_unsigned :
        ⦃e : Eq J⦄
        → (provider : String) (body : Raw) (signature : String) (parsed_at now later : ℕ)
          (s : State)
        → (provider == "test") ≡ false
        → (hexdigest "whsec_demo_secret_123" body == signature) ≡ false
        → receive_webhook provider body signature parsed_at now later s ≡ (ok (http 401 tt), s)
    unfolding receive_webhook
    receive_webhook_unsigned provider body signature parsed_at now later s real wrong =
        simp (real, wrong) refl

-- Subscriptions: the dictionary of the answers.
pub record SubDict : Type 0 where
  pub id : String
  pub customer_id : String
  pub plan_id : String
  pub state : String
  pub current_period_end : ℕ
  pub grace_until : Option ℤ

abbrev pub sub_to_dict : Subscription → SubDict
sub_to_dict sub = record {
  id = sub.id;
  customer_id = sub.customer_id;
  plan_id = sub.plan_id;
  state = value sub.state;
  current_period_end = sub.current_period_end;
  grace_until = sub.grace_until;
}

abbrev pub plan_manager : PlanStateManager
plan_manager = record { prefix = "kit:plan" }

-- `except KeyError` in `get_subscription`
abbrev pub on_missing : {A : Type 0} → Error → Result (Answer (Unit {0}) A)
on_missing key_error = ok (http 404 tt)
on_missing x = err x

-- `except KeyError` and `except Exception` in `transition_subscription`
abbrev pub on_refused : {A : Type 0} → Error → Result (Answer (Unit {0}) A)
on_refused key_error = ok (http 404 tt)
on_refused x = ok (http 400 tt)

module _ (redis : Persistent Doc) where
  open redis use {Db}

  unfoldable pub create_subscription : String → String → String → ℕ → Method Db SubDict
  create_subscription id customer_id plan_id now = do
    sub ← create redis plan_manager (record {
      id = id;
      customer_id = customer_id;
      plan_id = plan_id;
      state = trial;
      current_period_end = now + seconds (30 * 86400);
      grace_until = none;
      metadata = [];
    })
    pure (sub_to_dict sub)

  -- the answer with the subscription, and whether it is active
  unfoldable pub shown : String → Subscription → Method Db (Answer (Unit {0}) (SubDict × Bool))
  shown id sub = do
    active ← is_active redis plan_manager id
    pure (returned (sub_to_dict sub, active))

  unfoldable pub after_get :
      String → Result Subscription × Db → Result (Answer (Unit {0}) (SubDict × Bool)) × Db
  unfolding shown
  after_get id (err x, db) = (on_missing x, db)
  after_get id (ok sub, db) = shown id sub db

  unfoldable pub get_subscription : String → Method Db (Answer (Unit {0}) (SubDict × Bool))
  unfolding after_get
  get_subscription id db = after_get id (get redis plan_manager id db)

  unfoldable pub after_transition :
      String → Result Subscription × Db → Result (Answer (Unit {0}) (SubDict × Bool)) × Db
  unfolding shown
  after_transition id (err x, db) = (on_refused x, db)
  after_transition id (ok sub, db) = shown id sub db

  -- once the name of the state is read
  unfoldable pub transition_to :
      String → ℕ → Result PlanState → Method Db (Answer (Unit {0}) (SubDict × Bool))
  unfolding after_transition
  transition_to id now (err x) db = (ok (http 400 tt), db)
  transition_to id now (ok new_state) db =
      after_transition id (transition redis plan_manager id new_state now db)

  unfoldable pub transition_subscription :
      String → String → ℕ → Method Db (Answer (Unit {0}) (SubDict × Bool))
  unfolding transition_to
  transition_subscription id new_state now = transition_to id now (of_value new_state)

-- Budgets, with the amounts and the times of budget_enforcer.py.
module _ (redis : Logs Limit ChargeRecord) (calendar : Calendar) where
  open redis use {Db}

  unfoldable pub set_spending_limit : String → ℤ → String → Db → Db
  set_spending_limit customer_id amount period db =
      set_limit redis calendar "kit:budget" customer_id amount period db

  -- `except PaymentError`, and the status after the charge
  unfoldable pub after_charge :
      String
      → Budget.Times
      → ℕ
      → Result ChargeRecord × Db
      → Result (Answer (Unit {0}) (ChargeRecord × BudgetStatus)) × Db
  after_charge customer_id t at (err payment_error, db) = (ok (http 402 tt), db)
  after_charge customer_id t at (err x, db) = (err x, db)
  after_charge customer_id t at (ok r, db) =
      (ok (returned (r, check_limit redis calendar "kit:budget" customer_id t at db)), db)

  -- `t` and `at` are the times of the charge, `later` and `shown_at` those of the status
  unfoldable pub charge_customer :
      String
      → ℤ
      → String
      → String
      → Budget.Times × ℕ
      → Budget.Times × ℕ
      → Method Db (Answer (Unit {0}) (ChargeRecord × BudgetStatus))
  unfolding after_charge
  charge_customer customer_id amount description provider t later db =
      after_charge customer_id later.0 later.1 (
        record_charge redis calendar "kit:budget" customer_id amount description provider t.0 t.1
          db)

  unfoldable pub check_budget : String → Budget.Times → ℕ → Db → BudgetStatus
  check_budget customer_id t at db = check_limit redis calendar "kit:budget" customer_id t at db

  unfoldable pub charge_history : String → ℕ → ℕ → ℕ → Db → List ChargeRecord
  charge_history customer_id keyed started at db =
      get_history redis calendar "kit:budget" customer_id "monthly" keyed started at db
