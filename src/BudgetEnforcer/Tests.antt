-- ===== src/BudgetEnforcer/Tests.antt =====
-- `BudgetEnforcer` at concrete inputs, on the Redis of `Redis.Memory`, with a calendar of one day.
use kit_api_optimization.Prelude.{ℕ, ◌+ℤ◌, ◌-ℤ◌, ◌≤ℤ◌, ◌≡◌, pos, String, refl, List, [], ◌∷◌, arith}
use kit_api_optimization.Redis.Logs.{Entry}
use kit_api_optimization.Redis.Memory.{logs}
use kit_api_optimization.BudgetEnforcer.{
  ChargeRecord, Limit, Calendar, Times, period_tag, period_start, total, tag_of, start_of,
  record_charge, check_limit, status_of, get_charges_for_period, charge_within, push_charge,
  period_key,
}
use kit_api_optimization.BudgetEnforcer.Spending.{
  Call, InPeriod, IsTimely, IsUtc, call, charged, spending_within,
}

abbrev calendar : Calendar
calendar = record {
  gmtime = λ now. record { tm_year = 2024; tm_mon = 5; tm_mday = 6; tm_wday = 0 };
  iso_week = λ t. "2024-W19";
  timegm = λ y m d. 0;
  mktime = λ y m d. 0;
  decimal = λ n. "2024";
  two_digits = λ n. "05";
}

abbrev Db : Type 0
Db = List (String × Limit) × List (String × Entry ChargeRecord)

abbrev config : Limit
config = record { amount = pos 100; period = "monthly" }

abbrev start_db : Db
start_db = (("kit:budget:limit:c", config) ∷ [], [])

abbrev times : Times
times = record { keyed = 200; started = 201; stamped = 202; pushed = 203 }

abbrev charge_of : ℕ → Call
charge_of n = record {
  amount = pos n;
  description = "";
  provider = "stripe";
  times = times;
  at = 204;
}

in_period :
    (n : ℕ)
    → InPeriod
        (logs Limit ChargeRecord)
        calendar
        "kit:budget"
        "c"
        "monthly"
        "2024-05"
        0
        (charge_of n)
unfolding period_tag tag_of period_start start_of
in_period n = (refl, refl, refl)

in_time :
    (n : ℕ)
    → IsTimely
        (logs Limit ChargeRecord)
        calendar
        "kit:budget"
        "c"
        "monthly"
        "2024-05"
        0
        200
        (charge_of n)
in_time n = record {
  in_period = in_period n;
  stamped_later = omega arith;
  from_then = omega arith;
  within_90_days = omega arith;
}

calendar-IsUtc : IsUtc calendar
calendar-IsUtc = record { midnight = λ now. omega arith; first_day = λ now. omega arith }

abbrev calls : List Call
calls = charge_of 60 ∷ charge_of 50 ∷ charge_of 40 ∷ []

-- the second charge is refused
charged_100 : charged (logs Limit ChargeRecord) calendar "kit:budget" "c" calls start_db ≡ pos 100
unfolding charged call record_charge check_limit status_of get_charges_for_period charge_within
    push_charge period_key period_tag period_start ◌+ℤ◌ ◌-ℤ◌ total
charged_100 = refl

spending_within_example :
    charged (logs Limit ChargeRecord) calendar "kit:budget" "c" calls start_db ≤ℤ pos 100
spending_within_example =
    spending_within (logs Limit ChargeRecord) calendar "kit:budget" "c" config 100 "2024-05" 0 200
      calls start_db calendar-IsUtc refl refl refl (in_time 60, (in_time 50, (in_time 40, tt)))
      (λ τ. refl)
