-- ===== src/Grace/Sync.antt =====
-- A grace period and the `grace_until` of its subscription agree
-- (kit-pay/kit_pay/grace_handler.py).
use kit_api_optimization.Prelude.{
  ℕ, ℤ, String, int_eq, eq_refl, ◌≡◌, refl, ◌∙◌, Option, none, some, arith,
}
use kit_api_optimization.Exceptions.{Result, ok, err, key_error, invalid_transition}
use kit_api_optimization.Redis.Persistent.{Persistent}
use kit_api_optimization.PlanState.{
  PlanState, grace, Subscription, Doc, GracePeriod, transitioned, save,
}
use kit_api_optimization.PlanState.Machine.{Moves}
use kit_api_optimization.PlanState.Store.{Files, transition-eq, transition_refused}
use kit_api_optimization.Grace.{
  GraceHandler, started, extended, start_grace, check_grace, extend_found, extend_grace, save_grace,
}
use kit_api_optimization.Grace.Stored.{
  IsApart, grace_at, at-save_grace, grace_at-save_grace, save-Files, set_until-eq,
}

-- What may stand as the grace period of a subscription: nothing, or one of its own that ends when
-- the subscription says.
abbrev pub Agrees : String → Subscription → Result (Option GracePeriod) → Type 0
Agrees id sub (ok none) = Unit
Agrees id sub (ok (some g)) = (g.subscription_id ≡ id) × (sub.grace_until ≡ some g.ends_at)
Agrees id sub (err x) = ⊥

module _ (redis : Persistent Doc) (h : GraceHandler) (a : IsApart h) where
  open redis use {Db}

  pub record Synced (id : String) (db : Db) (sub : Subscription) : Type 0 where
    pub files : Files redis h.plan_state id db sub
    pub agrees : Agrees id sub (grace_at redis h a id db)

  -- The subscription once its `grace_until` is written after a transition.
  abbrev pub moved_until : PlanState → ℕ → Option ℤ → Subscription → Subscription
  moved_until new_state now until sub = record (transitioned new_state now sub) {
    grace_until = until;
  }

  -- The database after `transition`, and the assignment of `grace_until`.
  abbrev pub twice_saved : PlanState → ℕ → Option ℤ → Subscription → Db → Db
  twice_saved new_state now until sub db =
      (save redis h.plan_state (moved_until new_state now until sub)
        (save redis h.plan_state (transitioned new_state now sub) db).1).1

  start_grace-eq :
      (id reason : String) (now later : ℕ) {db : Db} {sub : Subscription}
      → Files redis h.plan_state id db sub
      → Moves sub.state grace
      → let g = started h id reason now in
        start_grace redis h id reason now later db
        ≡ (ok g, (save_grace redis h g (twice_saved grace later (some g.ends_at) sub db)).1)
  unfolding start_grace save_grace
  start_grace-eq id reason now later {db} {sub} f mv =
      let g = started h id reason now in
      let sub' = transitioned grace later sub in
      ground (
        arith,
        transition-eq redis h.plan_state id grace later f mv,
        set_until-eq redis h a id (some g.ends_at) {sub = sub'}
            (save-Files redis h a sub' id db f.own_id),
      )

  -- `save_grace` of the period of a subscription whose `grace_until` is its end.
  pub save_grace-Synced :
      (g : GracePeriod) {id : String} {db : Db} {sub : Subscription}
      → Files redis h.plan_state id db sub
      → g.subscription_id ≡ id
      → sub.grace_until ≡ some g.ends_at
      → Synced id (save_grace redis h g db).1 sub
        × (grace_at redis h a id (save_grace redis h g db).1 ≡ ok (some g))
  save_grace-Synced g {id} {db} {sub} f own until =
      let found : grace_at redis h a id (save_grace redis h g db).1 ≡ ok (some g) =
        ground (arith, grace_at-save_grace redis h a g id db, own, eq_refl id) in
      (
        record {
          files = record { found = at-save_grace redis h a g id db ∙ f.found; own_id = f.own_id };
          agrees = rw found (own, until);
        },
        found,
      )

  -- A grace period starts, where the plan may enter one, with the subscription in its state GRACE and
  -- `grace_until` and the stored period in agreement, `grace_days` days from the call.
  pub start_grace-Synced :
      (id reason : String) (now later : ℕ) {db : Db} {sub : Subscription}
      → Files redis h.plan_state id db sub
      → Moves sub.state grace
      → let g = started h id reason now in
        let (r, db') = start_grace redis h id reason now later db in
        (r ≡ ok g)
        × Synced id db' (moved_until grace later (some g.ends_at) sub)
        × (grace_at redis h a id db' ≡ ok (some g))
  start_grace-Synced id reason now later {db} {sub} f mv =
      let g = started h id reason now in
      let saved =
        save_grace-Synced g
          (save-Files redis h a (moved_until grace later (some g.ends_at) sub) id
            (save redis h.plan_state (transitioned grace later sub) db).1 f.own_id)
          refl refl in
      rw (start_grace-eq id reason now later f mv) (refl, saved.0, saved.1)

  -- Where the plan may not enter one, nothing is written.
  pub start_grace_refused :
      (id reason : String) (now later : ℕ) {db : Db} {sub : Subscription}
      → Files redis h.plan_state id db sub
      → ¬ Moves sub.state grace
      → start_grace redis h id reason now later db ≡ (err invalid_transition, db)
  unfolding start_grace
  start_grace_refused id reason now later f no_move =
      ground (arith, transition_refused redis h.plan_state id grace later f no_move)

  -- What `check_grace` finds.
  check_grace-eq :
      (id : String) (db : Db) → check_grace redis h id db ≡ (grace_at redis h a id db, db)
  unfolding check_grace
  check_grace-eq id db = refl

  extend_grace-eq :
      (id : String) (days : ℤ) (g : GracePeriod) {db : Db} {sub : Subscription}
      → Files redis h.plan_state id db sub
      → grace_at redis h a id db ≡ ok (some g)
      → let sub' = record sub { grace_until = some (extended days g).ends_at } in
        extend_grace redis h id days db ≡ (
          ok (extended days g),
          (save_grace redis h (extended days g) (save redis h.plan_state sub' db).1).1,
        )
  unfolding extend_grace extend_found save_grace
  extend_grace-eq id days g f found = ground (
    arith,
    check_grace-eq id _,
    found,
    set_until-eq redis h a id (some (extended days g).ends_at) f,
  )

  -- Extending moves the end of the stored period and `grace_until` by the same days.
  pub extend_grace-Synced :
      (id : String) (days : ℤ) (g : GracePeriod) {db : Db} {sub : Subscription}
      → Synced id db sub
      → grace_at redis h a id db ≡ ok (some g)
      → let (r, db') = extend_grace redis h id days db in
        (r ≡ ok (extended days g))
        × Synced id db' (record sub { grace_until = some (extended days g).ends_at })
        × (grace_at redis h a id db' ≡ ok (some (extended days g)))
  extend_grace-Synced id days g {db} {sub} s found =
      let sub' : Subscription = record sub { grace_until = some (extended days g).ends_at } in
      let agrees : Agrees id sub (ok (some g)) = rw found at s.agrees in
      let saved =
        save_grace-Synced (extended days g) (save-Files redis h a sub' id db s.files.own_id)
          agrees.0 refl in
      rw (extend_grace-eq id days g s.files found) (refl, saved.0, saved.1)

  -- Without a period there is nothing to extend.
  pub extend_grace-none :
      (id : String) (days : ℤ) {db : Db}
      → grace_at redis h a id db ≡ ok none
      → extend_grace redis h id days db ≡ (err key_error, db)
  unfolding extend_grace extend_found
  extend_grace-none id days {db} none_there = ground (arith, check_grace-eq id db)
