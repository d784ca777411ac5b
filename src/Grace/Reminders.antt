-- ===== src/Grace/Reminders.antt =====
-- Which reminders are due (kit-pay/kit_pay/grace_handler.py, `due_reminders`).
use kit_api_optimization.Prelude.{
  ℕ, ℤ, int_eq, String, eq_refl, elem, elem-append, ◌≡◌, refl, ap, ◌∙◌, Bool, false, not, ◌&&◌,
  ◌||◌, Bool-cases, inl, inr, some, List, [], ◌∷◌, arith,
}
use kit_api_optimization.Exceptions.{ok, pure, bind-ok}
use kit_api_optimization.Redis.Persistent.{Persistent}
use kit_api_optimization.PlanState.{Doc, GracePeriod}
use kit_api_optimization.Grace.{
  GraceHandler, reminded, is_near, due_among, check_grace, due_in, due_reminders, mark_found,
  mark_reminder_sent,
}
use kit_api_optimization.Grace.Stored.{IsApart, grace_at, grace_at-save_grace}

elem-due_among :
    (g : GracePeriod) (now : ℕ) (i : ℤ) (intervals : List ℤ)
    → elem i (due_among g now intervals)
      ≡ (elem i intervals && (is_near g now i && not (elem i g.reminders_sent)))
unfolding due_among
elem-due_among g now i [] = refl
elem-due_among g now i (j ∷ intervals) =
    ground (arith, int_eq.beq_iff j i, elem-due_among g now i intervals)

or_swap : (x y : Bool) → (x || (y || false)) ≡ (y || x)
or_swap x y = ground arith

module _ (redis : Persistent Doc) (h : GraceHandler) (a : IsApart h) where
  open redis use {Db}

  -- A reminder is due exactly if it is one of the intervals, the period ends within that many days,
  -- and it has not been sent; and asking changes nothing.
  pub due_reminders_exact :
      (id : String) (now : ℕ) (g : GracePeriod) {db : Db}
      → grace_at redis h a id db ≡ ok (some g)
      → (due : List ℤ) × (due_reminders redis h id now db ≡ (ok due, db))
        × ((i : ℤ)
            → elem i due
              ≡ (elem i h.reminder_intervals && (is_near g now i && not (elem i g.reminders_sent))))
  unfolding due_reminders check_grace due_in
  due_reminders_exact id now g {db} found = (
    due_among g now h.reminder_intervals,
    bind-ok (check_grace redis h id) (λ found. pure (due_in redis h now found))
        (ap (λ r. (r, db)) found),
    λ i. elem-due_among g now i h.reminder_intervals,
  )

  -- What a marked period is like: it ends when it did, and one more reminder is sent.
  record Marked (i : ℤ) (g g' : GracePeriod) : Type 0 where
    same_end : (now : ℕ) (j : ℤ) → is_near g' now j ≡ is_near g now j
    sent : (j : ℤ) → elem j g'.reminders_sent ≡ (int_eq.beq i j || elem j g.reminders_sent)

  mark_found-Marked :
      (id : String) (i : ℤ) (g : GracePeriod) (db : Db)
      → grace_at redis h a id db ≡ ok (some g)
      → g.subscription_id ≡ id
      → (g' : GracePeriod) × (grace_at redis h a id (mark_found redis h i (some g) db).1
          ≡ ok (some g'))
        × Marked i g g'
  unfolding mark_found is_near
  mark_found-Marked id i g db found own = elim (Bool-cases (elem i g.reminders_sent)) [
    | inl already ↦ rw already (
      g,
      found,
      record { same_end = λ now j. refl; sent = λ j. ground (arith, int_eq.beq_iff i j, already) },
    )
    | inr new ↦ rw new (
      reminded i g,
      ground (arith, grace_at-save_grace redis h a (reminded i g) id db, own, eq_refl id),
      record {
        same_end = λ now j. refl;
        sent = λ j.
            elem-append j g.reminders_sent (i ∷ [])
            ∙ or_swap (elem j g.reminders_sent) (int_eq.beq i j);
      },
    )
  ]

  -- Once a reminder is marked, it is not due any more, and every other one is due as before.
  pub marked_not_due :
      (id : String) (i : ℤ) (now : ℕ) (g : GracePeriod) (db : Db)
      → grace_at redis h a id db ≡ ok (some g)
      → g.subscription_id ≡ id
      → let db' = (mark_reminder_sent redis h id i db).1 in
        (due : List ℤ) × (due_reminders redis h id now db' ≡ (ok due, db'))
        × ((j : ℤ)
            → elem j due ≡ (
                elem j h.reminder_intervals
                && (is_near g now j && not (int_eq.beq i j || elem j g.reminders_sent))))
  unfolding mark_reminder_sent check_grace
  marked_not_due id i now g db found own =
      let (g', found', m) = mark_found-Marked id i g db found own in
      let whole : mark_reminder_sent redis h id i db ≡ mark_found redis h i (some g) db =
        bind-ok (check_grace redis h id) (mark_found redis h i) (ap (λ r. (r, db)) found) in
      let (due, asked, exact) = due_reminders_exact id now g' found' in
      (due, rw whole asked, λ j. ground (arith, exact j, m.same_end now j, m.sent j))
