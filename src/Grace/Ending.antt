-- ===== src/Grace/Ending.antt =====
-- `end_grace` (kit-pay/kit_pay/grace_handler.py) ends the stored period and `grace_until` together.
use kit_api_optimization.Prelude.{ℕ, String, int_eq, eq_refl, ◌≡◌, refl, ◌∙◌, none, arith}
use kit_api_optimization.Exceptions.{ok, err, invalid_transition}
use kit_api_optimization.Redis.Persistent.{Persistent}
use kit_api_optimization.PlanState.{Subscription, Doc, transitioned, save}
use kit_api_optimization.PlanState.Machine.{Moves}
use kit_api_optimization.PlanState.Store.{Files, transition-eq, transition_refused}
use kit_api_optimization.Grace.{GraceHandler, key, end_state, end_grace}
use kit_api_optimization.Grace.Stored.{
  IsApart, grace_at, at-delete, grace_at-delete, save-Files, set_until-eq,
}
use kit_api_optimization.Grace.Sync.{Synced, moved_until, twice_saved}

module _ (redis : Persistent Doc) (h : GraceHandler) (a : IsApart h) where
  open redis use {Db}

  end_grace-eq :
      (id reason : String) (later : ℕ) {db : Db} {sub : Subscription}
      → Files redis h.plan_state id db sub
      → Moves sub.state (end_state reason)
      → end_grace redis h id reason later db ≡ (
        ok tt,
        redis.delete (key h id) (twice_saved redis h a (end_state reason) later none sub db),
      )
  unfolding end_grace
  end_grace-eq id reason later {db} {sub} f mv =
      let sub' = transitioned (end_state reason) later sub in
      ground (
        arith,
        transition-eq redis h.plan_state id (end_state reason) later f mv,
        set_until-eq redis h a id none {sub = sub'} (save-Files redis h a sub' id db f.own_id),
      )

  -- Ending a grace period, where the plan may move on, leaves no period and no `grace_until`. The
  -- subscription is active if the reason is "resolved", and otherwise cancelled.
  pub end_grace-Synced :
      (id reason : String) (later : ℕ) {db : Db} {sub : Subscription}
      → Files redis h.plan_state id db sub
      → Moves sub.state (end_state reason)
      → let (r, db') = end_grace redis h id reason later db in
        (r ≡ ok tt)
        × Synced redis h a id db' (moved_until redis h a (end_state reason) later none sub)
        × (grace_at redis h a id db' ≡ ok none)
  end_grace-Synced id reason later {db} {sub} f mv =
      let saved = twice_saved redis h a (end_state reason) later none sub db in
      let gone : grace_at redis h a id (redis.delete (key h id) saved) ≡ ok none =
        ground (arith, grace_at-delete redis h a id id saved, eq_refl id) in
      let sub' = moved_until redis h a (end_state reason) later none sub in
      let filed =
        save-Files redis h a sub' id
          (save redis h.plan_state (transitioned (end_state reason) later sub) db).1 f.own_id in
      rw (end_grace-eq id reason later f mv) (
        refl,
        record {
          files = record {
            found = at-delete redis h a id id saved ∙ filed.found;
            own_id = f.own_id;
          };
          agrees = rw gone tt;
        },
        gone,
      )

  -- A call that the state machine does not allow raises, and the grace period stays.
  pub end_grace_refused :
      (id reason : String) (later : ℕ) {db : Db} {sub : Subscription}
      → Files redis h.plan_state id db sub
      → ¬ Moves sub.state (end_state reason)
      → end_grace redis h id reason later db ≡ (err invalid_transition, db)
  unfolding end_grace
  end_grace_refused id reason later f no_move =
      ground (arith, transition_refused redis h.plan_state id (end_state reason) later f no_move)
