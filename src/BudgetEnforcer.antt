-- ===== src/BudgetEnforcer.antt =====
-- kit-pay/kit_pay/budget_enforcer.py: `BudgetEnforcer` over a Redis that is a parameter. An amount is
-- a whole number of the smallest unit of the currency, and a time is in whole microseconds. The
-- calendar is a parameter; `at` is the server's time of the commands of a method.
pub mod Spending
mod Tests
use kit_api_optimization.Prelude.{
  ℕ, ◌+◌, ◌-◌, ◌*◌, ℤ, pos, negsuc, ◌+ℤ◌, ◌-ℤ◌, leb_ℤ, pos_part, leb, String, ◌==◌, join, Bool,
  true, false, not, ◌&&◌, Option, none, some, List, [], ◌∷◌, if◌then◌else◌,
}
use kit_api_optimization.Exceptions.{Error, Result, ok, err, Method, payment_error}
use kit_api_optimization.Redis.Logs.{Logs, lpush, expire, lrange}

pub record ChargeRecord : Type 0 where
  pub amount : ℤ
  pub timestamp : ℕ
  pub description : String
  pub provider : String

-- the document of a limit
pub record Limit : Type 0 where
  pub amount : ℤ
  pub period : String

pub record BudgetStatus : Type 0 where
  pub customer_id : String
  pub used : ℤ
  pub limit : ℤ
  pub remaining : ℤ
  pub period : String
  pub enforced : Bool

-- a `struct_time` in UTC; Monday is day 0 of a week
pub record Tm : Type 0 where
  pub tm_year : ℕ
  pub tm_mon : ℕ
  pub tm_mday : ℕ
  pub tm_wday : ℕ

-- Python's `time.gmtime`, `time.strftime("%G-W%V", ...)`, `calendar.timegm` and `time.mktime` of the
-- midnight of a day, and the formats of numbers. A day of a month may be negative.
pub record Calendar : Type 0 where
  pub gmtime : ℕ → Tm
  pub iso_week : Tm → String
  pub timegm : ℕ → ℕ → ℤ → ℕ
  pub mktime : ℕ → ℕ → ℤ → ℕ
  pub decimal : ℕ → String
  pub two_digits : ℕ → String

module _ (calendar : Calendar) where
  pub tag_of : String → Tm → String
  tag_of period t =
      if period == "daily"
      then join (
          calendar.decimal t.tm_year
          ∷ "-"
          ∷ calendar.two_digits t.tm_mon
          ∷ "-"
          ∷ calendar.two_digits t.tm_mday
          ∷ [])
      else if period == "weekly"
      then calendar.iso_week t
      else join (calendar.decimal t.tm_year ∷ "-" ∷ calendar.two_digits t.tm_mon ∷ [])

  unfoldable pub period_tag : String → ℕ → String
  unfolding tag_of
  period_tag period now = tag_of period (calendar.gmtime now)

  pub start_of : String → Tm → ℕ
  start_of period t =
      if period == "daily"
      then calendar.timegm t.tm_year t.tm_mon (pos t.tm_mday)
      else if period == "weekly"
      then calendar.mktime t.tm_year t.tm_mon (pos t.tm_mday -ℤ pos t.tm_wday)
      else calendar.timegm t.tm_year t.tm_mon (pos 1)

  unfoldable pub period_start : String → ℕ → ℕ
  unfolding start_of
  period_start period now = start_of period (calendar.gmtime now)

-- the charges with `timestamp >= start`
pub since : ℕ → List ChargeRecord → List ChargeRecord
since start [] = []
since start (c ∷ charges) =
    let rest = since start charges in if leb start c.timestamp then c ∷ rest else rest

-- `sum(c.amount for c in charges)`
pub total : List ChargeRecord → ℤ
total [] = pos 0
total (c ∷ charges) = c.amount +ℤ total charges

-- `max(x, 0.0)`
abbrev pub max_0 : ℤ → ℤ
max_0 x = if leb_ℤ (pos 0) x then x else pos 0

-- The readings of the clock: for the key and the start of the period of the charges, and, if a charge
-- is recorded, for its timestamp and its key.
pub record Times : Type 0 where
  pub keyed : ℕ
  pub started : ℕ
  pub stamped : ℕ
  pub pushed : ℕ

abbrev pub is_above : ℤ → ℤ → Bool
is_above a b = not (leb_ℤ a b)

module _ (redis : Logs Limit ChargeRecord) (calendar : Calendar) (prefix : String) where
  open redis use {Db, get, set, entry, send}

  abbrev pub limit_key : String → String
  limit_key customer_id = join (prefix ∷ ":limit:" ∷ customer_id ∷ [])

  unfoldable pub period_key : String → String → ℕ → String
  period_key customer_id period now =
      join (prefix ∷ ":charges:" ∷ customer_id ∷ ":" ∷ period_tag calendar period now ∷ [])

  unfoldable pub set_limit : String → ℤ → String → Db → Db
  set_limit customer_id amount period db =
      set (limit_key customer_id) (record { amount = amount; period = period }) db

  unfoldable pub get_charges_for_period : String → String → ℕ → ℕ → ℕ → Db → List ChargeRecord
  unfolding since
  get_charges_for_period customer_id period keyed started at db =
      since (period_start calendar period started)
        (lrange at (entry (period_key customer_id period keyed) db))

  abbrev pub unlimited : String → BudgetStatus
  unlimited customer_id = record {
    customer_id = customer_id;
    used = pos 0;
    limit = pos 0;
    remaining = pos 0;
    period = "monthly";
    enforced = false;
  }

  abbrev pub limited : String → Limit → ℤ → BudgetStatus
  limited customer_id config used = record {
    customer_id = customer_id;
    used = used;
    limit = config.amount;
    remaining = max_0 (config.amount -ℤ used);
    period = config.period;
    enforced = true;
  }

  -- for the reply to GET
  unfoldable pub status_of : String → Times → ℕ → Db → Option Limit → BudgetStatus
  status_of customer_id t at db none = unlimited customer_id
  status_of customer_id t at db (some config) =
      limited customer_id config
        (total (get_charges_for_period customer_id config.period t.keyed t.started at db))

  unfoldable pub check_limit : String → Times → ℕ → Db → BudgetStatus
  unfolding status_of
  check_limit customer_id t at db = status_of customer_id t at db (get (limit_key customer_id) db)

  -- `lpush` and `expire`
  unfoldable pub push_charge : String → String → ChargeRecord → ℕ → ℕ → Db → Db
  unfolding period_key
  push_charge customer_id period r pushed at db =
      let k = period_key customer_id period pushed in
      send at k (expire (pos (90 * 86400))) (send at k (lpush r) db)

  abbrev pub charge : ℤ → ℕ → String → String → ChargeRecord
  charge amount now description provider = record {
    amount = amount;
    timestamp = now;
    description = description;
    provider = provider;
  }

  -- `if status.enforced and amount > status.remaining`, and what follows
  unfoldable pub charge_within :
      String → ChargeRecord → ℕ → ℕ → BudgetStatus → Method Db ChargeRecord
  charge_within customer_id r pushed at status db =
      if status.enforced && is_above r.amount status.remaining
      then (err payment_error, db)
      else (ok r, push_charge customer_id status.period r pushed at db)

  unfoldable pub record_charge : String → ℤ → String → String → Times → ℕ → Method Db ChargeRecord
  unfolding charge_within
  record_charge customer_id amount description provider t at db =
      charge_within customer_id (charge amount t.stamped description provider) t.pushed at
        (check_limit customer_id t at db) db

  pub get_history : String → String → ℕ → ℕ → ℕ → Db → List ChargeRecord
  unfolding get_charges_for_period
  get_history customer_id period keyed started at db =
      get_charges_for_period customer_id period keyed started at db
