-- ===== src/Grace/Trace.antt =====
-- Runs of the methods of `GraceHandler` (kit-pay/kit_pay/grace_handler.py) on one subscription.
use kit_api_optimization.Prelude.{
  ℕ, ℤ, String, int_eq, ◌≡◌, ◌⊎◌, refl, Bool-cases, inl, inr, Option, none, some, List, [], ◌∷◌,
  ◌++◌, arith, elem,
}
use kit_api_optimization.Exceptions.{Result, ok, err}
use kit_api_optimization.Redis.Persistent.{Persistent}
use kit_api_optimization.PlanState.{PlanState, grace, Subscription, Doc, GracePeriod}
use kit_api_optimization.PlanState.Machine.{Moves, allowed, allowed_iff}
use kit_api_optimization.Grace.{
  GraceHandler, reminded, start_grace, check_grace, extend_grace, end_state, end_grace, mark_found,
  mark_reminder_sent,
}
use kit_api_optimization.Grace.Stored.{IsApart, grace_at}
use kit_api_optimization.PlanState.Machine.{Follows, done, moved, stayed, Follows-append}
use kit_api_optimization.Grace.Sync.{
  Agrees, Synced, save_grace-Synced, start_grace-Synced, start_grace_refused, extend_grace-Synced,
  extend_grace-none,
}
use kit_api_optimization.Grace.Ending.{end_grace-Synced, end_grace_refused}

-- One call of a method that writes, with its clock readings.
pub data Call : Type 0 where
  start : String → ℕ → ℕ → Call
  extend : ℤ → Call
  end : String → ℕ → Call
  mark : ℤ → Call

-- the state that a call asks for
unfoldable pub request : Call → List PlanState
request (start reason now later) = grace ∷ []
request (extend days) = []
request (end reason later) = end_state reason ∷ []
request (mark i) = []

unfoldable pub requests : List Call → List PlanState
requests [] = []
requests (x ∷ calls) = request x ++ requests calls

module _ (redis : Persistent Doc) (h : GraceHandler) (a : IsApart h) where
  open redis use {Db}

  mark_reminder_sent-eq :
      (id : String) (i : ℤ) (db : Db)
      → mark_reminder_sent redis h id i db ≡ elim (grace_at redis h a id db) [
        | ok found ↦ mark_found redis h i found db
        | err x ↦ (err x, db)
      ]
  unfolding mark_reminder_sent check_grace
  mark_reminder_sent-eq id i db = ground arith

  mark_found-Synced :
      (id : String) (i : ℤ) (found : Option GracePeriod) {db : Db} {sub : Subscription}
      → Synced redis h a id db sub
      → grace_at redis h a id db ≡ ok found
      → Synced redis h a id (mark_found redis h i found db).1 sub
  unfolding mark_found
  mark_found-Synced id i none s there = s
  mark_found-Synced id i (some g) {db} {sub} s there =
      let agrees : Agrees id sub (ok (some g)) = rw there at s.agrees in
      elim (Bool-cases (elem i g.reminders_sent)) [
        | inl already ↦ rw already s
        | inr new ↦ rw new (save_grace-Synced redis h a (reminded i g) s.files agrees.0 agrees.1).0
      ]

  pub call : String → Call → Db → Db
  call id (start reason now later) db = (start_grace redis h id reason now later db).1
  call id (extend days) db = (extend_grace redis h id days db).1
  call id (end reason later) db = (end_grace redis h id reason later db).1
  call id (mark i) db = (mark_reminder_sent redis h id i db).1

  pub run : String → List Call → Db → Db
  run id [] db = db
  run id (x ∷ calls) db = run id calls (call id x db)

  -- What every call keeps of a subscription `sub`: one is there, in agreement with its grace period,
  -- whose state goes along with the state that the call asks for.
  abbrev pub Kept : String → Subscription → Call → Db → Type 0
  Kept id sub x db =
      (sub' : Subscription) × Synced redis h a id db sub' × Follows sub.state (request x) sub'.state

  Moves-or_not : (s t : PlanState) → Moves s t ⊎ (¬ Moves s t)
  Moves-or_not s t = elim (Bool-cases (allowed s t)) [
    | inl is_allowed ↦ inl ((allowed_iff s t).0 is_allowed)
    | inr is_not ↦ inr (λ mv. cc ((allowed_iff s t).1 mv))
  ]

  start-Kept :
      (id reason : String) (now later : ℕ) {db : Db} {sub : Subscription}
      → Synced redis h a id db sub
      → Kept id sub (start reason now later) (call id (start reason now later) db)
  unfolding call request
  start-Kept id reason now later {db} {sub} s = elim (Moves-or_not sub.state grace) [
    | inl mv ↦
        let (r, synced, found) = start_grace-Synced redis h a id reason now later s.files mv in
        (_, synced, moved mv (done _))
    | inr stuck ↦
        rw (start_grace_refused redis h a id reason now later s.files stuck, call)
          (sub, s, stayed stuck (done sub.state))
  ]

  end-Kept :
      (id reason : String) (later : ℕ) {db : Db} {sub : Subscription}
      → Synced redis h a id db sub
      → Kept id sub (end reason later) (call id (end reason later) db)
  unfolding call request
  end-Kept id reason later {db} {sub} s = elim (Moves-or_not sub.state (end_state reason)) [
    | inl mv ↦
        let (r, synced, gone) = end_grace-Synced redis h a id reason later s.files mv in
        (_, synced, moved mv (done _))
    | inr stuck ↦
        rw (end_grace_refused redis h a id reason later s.files stuck, call)
          (sub, s, stayed stuck (done sub.state))
  ]

  -- The period of a synced subscription can be read.
  found_at :
      (id : String) (db : Db) (sub : Subscription)
      → Synced redis h a id db sub
      → (found : Option GracePeriod) × (grace_at redis h a id db ≡ ok found)
  found_at id db sub s = go (grace_at redis h a id db) refl s.agrees
    where
      go :
          (r : Result (Option GracePeriod))
          → grace_at redis h a id db ≡ r
          → Agrees id sub r
          → (found : Option GracePeriod) × (grace_at redis h a id db ≡ ok found)
      go (ok found) e agrees = (found, e)
      go (err x) e agrees = absurd agrees

  extend-Kept :
      (id : String) (days : ℤ) {db : Db} {sub : Subscription}
      → Synced redis h a id db sub
      → Kept id sub (extend days) (call id (extend days) db)
  unfolding call request
  extend-Kept id days {db} {sub} s = let (found, there) = found_at id db sub s in go found there
    where
      go :
          (found : Option GracePeriod)
          → grace_at redis h a id db ≡ ok found
          → Kept id sub (extend days) (extend_grace redis h id days db).1
      go none there = rw (extend_grace-none redis h a id days there) (sub, s, done sub.state)
      go (some g) there =
          let (r, synced, saved) = extend_grace-Synced redis h a id days g s there in
          (_, synced, done sub.state)

  mark-Kept :
      (id : String) (i : ℤ) {db : Db} {sub : Subscription}
      → Synced redis h a id db sub
      → Kept id sub (mark i) (call id (mark i) db)
  unfolding call request
  mark-Kept id i {db} {sub} s =
      let (found, there) = found_at id db sub s in
      let whole : mark_reminder_sent redis h id i db ≡ mark_found redis h i found db =
        ground (arith, mark_reminder_sent-eq id i db, there) in
      rw (whole, call) (sub, mark_found-Synced id i found s there, done sub.state)

  call-Kept :
      (id : String) (x : Call) {db : Db} {sub : Subscription}
      → Synced redis h a id db sub
      → Kept id sub x (call id x db)
  call-Kept id (start reason now later) s = start-Kept id reason now later s
  call-Kept id (extend days) s = extend-Kept id days s
  call-Kept id (end reason later) s = end-Kept id reason later s
  call-Kept id (mark i) s = mark-Kept id i s

  -- However the methods are called on a subscription, whether they succeed or raise: if there is
  -- a grace period, it is the subscription's own and ends at its `grace_until`, if that is so at first; and
  -- the state of the subscription goes along with every state that start_grace (grace) and end_grace (the one
  -- for its reason) ask for and that is a move of the state machine, and with nothing else. The prefixes of
  -- the two kinds of keys keep them apart.
  pub run-Synced :
      (id : String) (calls : List Call) {db : Db} {sub : Subscription}
      → Synced redis h a id db sub
      → (sub' : Subscription) × Synced redis h a id (run id calls db) sub'
        × Follows sub.state (requests calls) sub'.state
  unfolding run requests
  run-Synced id [] {sub = sub} s = (sub, s, done sub.state)
  run-Synced id (x ∷ calls) {db} {sub} s =
      let (sub', s', first) = call-Kept id x s in
      let (sub'', s'', rest) = run-Synced id calls s' in (sub'', s'', Follows-append first rest)
