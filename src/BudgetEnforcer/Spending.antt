-- ===== src/BudgetEnforcer/Spending.antt =====
-- How much `record_charge` of `BudgetEnforcer` (kit-pay/kit_pay/budget_enforcer.py) lets a customer
-- spend within a period.
use mathlib.Core.Path.{subst, sym}
use kit_api_optimization.Prelude.{
  int_laws, ℕ, ◌+◌, ◌*◌, ℤ, pos, ◌+ℤ◌, ◌-ℤ◌, ◌≤ℤ◌, leb_ℤ, String, ◌==◌, eq_refl, join, Bool, true,
  false, Bool-cases, inl, inr, ◌≡◌, ◌≤◌, ◌<◌, refl, ap, ◌∙◌, none, some, List, [], ◌∷◌, All, ◌&&◌,
  arith,
}
use kit_api_optimization.Exceptions.{Result, ok, err, payment_error}
use kit_api_optimization.Redis.Expiring.{seconds}
use kit_api_optimization.Redis.Logs.{Entry, lpush, expire, lrange, step, Logs}
use kit_api_optimization.BudgetEnforcer.{
  ChargeRecord, Limit, BudgetStatus, Calendar, period_tag, period_start, start_of, since, total,
  max_0, Times, is_above, limit_key, period_key, get_charges_for_period, status_of, limited,
  check_limit, push_charge, charge, charge_within, record_charge,
}

-- 90 days
abbrev pub kept_for : ℕ
kept_for = seconds (90 * 86400)

-- What is spent by the charges of a list since a time, as they stand at another.
abbrev pub spent : ℕ → ℕ → Entry ChargeRecord → ℤ
spent start at e = total (since start (lrange at e))

pushed_entry :
    (at : ℕ) (r : ChargeRecord) (e : Entry ChargeRecord)
    → step at (expire (pos (90 * 86400))) (step at (lpush r) e)
      ≡ (r ∷ lrange at e, some (at + kept_for))
pushed_entry at r (items, none) = refl
pushed_entry at r (items, some x) = ground arith

-- A charge within what remains keeps the sum within the limit.
max_0_room :
    (limit used amount : ℤ)
    → used ≤ℤ limit
    → leb_ℤ amount (max_0 (limit -ℤ used)) ≡ true
    → (amount +ℤ used) ≤ℤ limit
unfolding ◌+ℤ◌ ◌-ℤ◌
max_0_room limit used amount within room = ground (arith, within, room)

-- Python's `gmtime` and `timegm` agree: the midnight of the day of a time, and that of the first day of its
-- month, are not after it.
pub record IsUtc (calendar : Calendar) : Type 0 where
  pub midnight :
      (now : ℕ)
      → let t = calendar.gmtime now in calendar.timegm t.tm_year t.tm_mon (pos t.tm_mday) ≤ now
  pub first_day :
      (now : ℕ) → let t = calendar.gmtime now in calendar.timegm t.tm_year t.tm_mon (pos 1) ≤ now

-- a day or a month does not start late
period_start-before :
    (calendar : Calendar) (period : String) (now : ℕ)
    → IsUtc calendar
    → (period == "weekly") ≡ false
    → period_start calendar period now ≤ now
unfolding period_start start_of
period_start-before calendar period now utc not_weekly =
    ground (arith, not_weekly, utc.midnight now, utc.first_day now)

-- A call of `record_charge`, with the readings of the clocks.
pub record Call : Type 0 where
  pub amount : ℤ
  pub description : String
  pub provider : String
  pub times : Times
  pub at : ℕ

module _ (redis : Logs Limit ChargeRecord) (calendar : Calendar) (prefix customer_id : String) where
  open redis use {Db, get, entry, send, get-send, entry-send}

  -- The charges of the customer in the period of a tag.
  abbrev pub charges_key : String → String
  charges_key tag = join (prefix ∷ ":charges:" ∷ customer_id ∷ ":" ∷ tag ∷ [])

  abbrev pub charges : String → Db → Entry ChargeRecord
  charges tag db = entry (charges_key tag) db

  -- The readings of the clock of a call lie in the period.
  abbrev pub InPeriod : String → String → ℕ → Call → Type 0
  InPeriod period tag start x =
      (period_tag calendar period x.times.keyed ≡ tag)
      × (period_tag calendar period x.times.pushed ≡ tag)
      × (period_start calendar period x.times.started ≡ start)

  abbrev pub made : Call → ChargeRecord
  made x = charge redis calendar prefix x.amount x.times.stamped x.description x.provider

  unfoldable pub call : Call → Db → Result ChargeRecord × Db
  call x db =
      record_charge redis calendar prefix customer_id x.amount x.description x.provider x.times x.at
        db

  pub charges-push_charge :
      (period tag : String) (r : ChargeRecord) (pushed at : ℕ) (db : Db)
      → period_tag calendar period pushed ≡ tag
      → charges tag (push_charge redis calendar prefix customer_id period r pushed at db)
        ≡ (r ∷ lrange at (charges tag db), some (at + kept_for))
  unfolding push_charge period_key
  charges-push_charge period tag r pushed at db same =
      let k = charges_key tag in
      ap
        (λ t.
          let j = charges_key t in
          charges tag (send at j (expire (pos (90 * 86400))) (send at j (lpush r) db)))
        same
      ∙ simp (entry-send, eq_refl k) (pushed_entry at r (charges tag db))

  status-eq :
      (config : Limit) (tag : String) (start : ℕ) (x : Call) (db : Db)
      → get (limit_key redis calendar prefix customer_id) db ≡ some config
      → InPeriod config.period tag start x
      → check_limit redis calendar prefix customer_id x.times x.at db
        ≡ limited redis calendar prefix customer_id config (spent start x.at (charges tag db))
  unfolding check_limit status_of get_charges_for_period period_key
  status-eq config tag start x db found (keyed, pushed, started) =
      ap (status_of redis calendar prefix customer_id x.times x.at db) found
      ∙ rw (keyed, started) refl

  -- What a call may come to, by whether the amount is within what remains.
  abbrev pub Charges : Limit → String → ℕ → Call → Db → Bool → Result ChargeRecord × Db → Type 0
  Charges config tag start x db true (r, db') =
      (r ≡ ok (made x))
      × (charges tag db' ≡ (made x ∷ lrange x.at (charges tag db), some (x.at + kept_for)))
  Charges config tag start x db false (r, db') = (r ≡ err payment_error) × (db' ≡ db)

  -- With a limit set, and the readings of the clock of the call in one period, `record_charge` records
  -- the charge as the newest one of the period if its amount is at most the limit less the charges of
  -- the period, or less 0 if that is below 0; otherwise it raises `PaymentError` and changes nothing.
  pub record_charge-Charges :
      (config : Limit) (tag : String) (start : ℕ) (x : Call) (db : Db)
      → get (limit_key redis calendar prefix customer_id) db ≡ some config
      → InPeriod config.period tag start x
      → Charges config tag start x db
          (leb_ℤ x.amount (max_0 (config.amount -ℤ spent start x.at (charges tag db))))
          (call x db)
  unfolding call record_charge charge_within
  record_charge-Charges config tag start x db found (keyed, pushed, started) =
      let used = spent start x.at (charges tag db) in
      rw (status-eq config tag start x db found (keyed, pushed, started))
        (elim (Bool-cases (leb_ℤ x.amount (max_0 (config.amount -ℤ used)))) [
          | inl room ↦
              rw room
                (refl, charges-push_charge config.period tag (made x) x.times.pushed x.at db pushed)
          | inr over ↦ rw over (refl, refl)
        ])

  get-charge_within :
      (j : String) (r : ChargeRecord) (pushed at : ℕ) (status : BudgetStatus) (db : Db)
      → get j (charge_within redis calendar prefix customer_id r pushed at status db).1 ≡ get j db
  unfolding charge_within push_charge
  get-charge_within j r pushed at status db =
      elim (Bool-cases (status.enforced && is_above r.amount status.remaining)) [
        | inl over ↦ simp over refl
        | inr room ↦ simp (room, get-send) refl
      ]

  get-call : (j : String) (x : Call) (db : Db) → get j (call x db).1 ≡ get j db
  unfolding call record_charge
  get-call j x db =
      get-charge_within j (made x) x.times.pushed x.at
        (check_limit redis calendar prefix customer_id x.times x.at db) db

  -- The customer has these charges in the period, at every time of the server before another.
  abbrev Holds : String → ℕ → List ChargeRecord → Db → Type 0
  Holds tag before items db = (τ : ℕ) → τ < before → lrange τ (charges tag db) ≡ items

  -- A call in the period, whose timestamp is read after the start of the period is computed, and which the
  -- server carries out in the 90 days from `from` on.
  pub record IsTimely (period tag : String) (start from : ℕ) (x : Call) : Type 0 where
    pub in_period : InPeriod period tag start x
    pub stamped_later : x.times.started ≤ x.times.stamped
    pub from_then : from ≤ x.at
    pub within_90_days : x.at < from + kept_for

  -- What the customer is charged by some calls: the amounts of those that answer, added up.
  unfoldable pub charged : List Call → Db → ℤ
  charged [] db = pos 0
  charged (x ∷ calls) db =
      let rest = charged calls (call x db).1 in
      elim (call x db).0 [ ok r ↦ x.amount +ℤ rest | err e ↦ rest ]

  Holds-pushed :
      (tag : String) (from at : ℕ) (r : ChargeRecord) (items : List ChargeRecord) (db db' : Db)
      → from ≤ at
      → lrange at (charges tag db) ≡ items
      → charges tag db' ≡ (r ∷ lrange at (charges tag db), some (at + kept_for))
      → Holds tag (from + kept_for) (r ∷ items) db'
  Holds-pushed tag from at r items db db' later holds pushed τ soon =
      rw pushed (ground (arith, later, soon, holds))

  spent-Holds :
      (tag : String) (start before at : ℕ) (items : List ChargeRecord) (db : Db)
      → Holds tag before items db
      → at < before
      → since start items ≡ items
      → spent start at (charges tag db) ≡ total items
  spent-Holds tag start before at items db holds soon all =
      ap (λ l. total (since start l)) (holds at soon) ∙ ap total all

  -- what the calls after some charges come to, if those are within the limit
  abbrev Continues : Limit → ℕ → String → ℕ → ℕ → List Call → Type 0
  Continues config limit tag start from calls =
      (items : List ChargeRecord) (db : Db)
      → get (limit_key redis calendar prefix customer_id) db ≡ some config
      → Holds tag (from + kept_for) items db
      → since start items ≡ items
      → total items ≤ℤ pos limit
      → (total items +ℤ charged calls db) ≤ℤ pos limit

  -- the charges with that of a call
  call_within :
      (config : Limit) (limit : ℕ) (tag : String) (start from : ℕ) (x : Call) (calls : List Call)
      (items : List ChargeRecord) (db : Db) (b : Bool) (p : Result ChargeRecord × Db)
      → start ≤ x.times.stamped
      → IsTimely config.period tag start from x
      → Continues config limit tag start from calls
      → Holds tag (from + kept_for) items db
      → since start items ≡ items
      → total items ≤ℤ pos limit
      → leb_ℤ x.amount (max_0 (pos limit -ℤ total items)) ≡ b
      → Charges config tag start x db b p
      → get (limit_key redis calendar prefix customer_id) p.1 ≡ some config
      → (total items +ℤ (elim p.0 as (λ r. ℤ) [
        | ok r ↦ x.amount +ℤ charged calls p.1
        | err e ↦ charged calls p.1
      ]))
        ≤ℤ pos limit
  unfolding since total
  call_within config limit tag start from x calls items db true p stamped timely later holds all
        within room h found =
      let items' = made x ∷ items in
      let pushed =
        Holds-pushed tag from x.at (made x) items db p.1 timely.from_then
          (holds x.at timely.within_90_days) h.1 in
      let fits : total items' ≤ℤ pos limit =
        max_0_room (pos limit) (total items) x.amount within room in
      let kept : since start items' ≡ items' = ground (arith, stamped, all) in
      let rest = later items' p.1 found pushed kept fits in rw h.0 (omega (int_laws, rest))
  call_within config limit tag start from x calls items db false p stamped timely later holds all
        within room h found =
      rw h.0 (
        later items p.1 found (subst (Holds tag (from + kept_for) items) (sym h.1) holds) all
          within)

  charged-Continues :
      (config : Limit) (limit : ℕ) (tag : String) (start from : ℕ) (calls : List Call)
      → IsUtc calendar
      → (config.period == "weekly") ≡ false
      → config.amount ≡ pos limit
      → All (IsTimely config.period tag start from) calls
      → Continues config limit tag start from calls
  unfolding charged
  charged-Continues config limit tag start from [] utc not_weekly amount timely items db found holds
        all within =
      omega (int_laws, within)
  charged-Continues config limit tag start from (x ∷ calls) utc not_weekly amount timely items db
        found holds all within =
      let used : spent start x.at (charges tag db) ≡ total items =
        spent-Holds tag start (from + kept_for) x.at items db holds timely.0.within_90_days all in
      let came = record_charge-Charges config tag start x db found timely.0.in_period in
      call_within config limit tag start from x calls items db
        (leb_ℤ x.amount (max_0 (pos limit -ℤ total items))) (call x db)
        (omega (
          arith,
          period_start-before calendar config.period x.times.started utc not_weekly,
          timely.0.in_period.2,
          timely.0.stamped_later,
        ))
        timely.0
        (charged-Continues config limit tag start from calls utc not_weekly amount timely.1) holds
        all within refl (rw (used, amount) at came)
        (get-call (limit_key redis calendar prefix customer_id) x db ∙ found)

  -- However a customer is charged within a day or a month, by any amounts, what `record_charge` takes comes in
  -- sum to no more than the limit that is set. The limit is not negative, no charge of the period stands at
  -- first, every reading of the clock of every call lies in the period, the timestamp of a charge is read
  -- after the start of the period, the server carries out the calls within 90 days, and gmtime and timegm
  -- agree. Amounts add up exactly. (A week is left out: `_period_start` computes its start in local time.)
  pub spending_within :
      (config : Limit) (limit : ℕ) (tag : String) (start from : ℕ) (calls : List Call) (db : Db)
      → IsUtc calendar
      → (config.period == "weekly") ≡ false
      → get (limit_key redis calendar prefix customer_id) db ≡ some config
      → config.amount ≡ pos limit
      → All (IsTimely config.period tag start from) calls
      → ((τ : ℕ) → lrange τ (charges tag db) ≡ [])
      → charged calls db ≤ℤ pos limit
  unfolding since total
  spending_within config limit tag start from calls db utc not_weekly found amount timely empty =
      let sum =
        charged-Continues config limit tag start from calls utc not_weekly amount timely [] db found
          (λ τ soon. empty τ) refl (omega arith) in
      omega (int_laws, sum)
