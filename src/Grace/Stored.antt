-- ===== src/Grace/Stored.antt =====
-- What the commands of `GraceHandler` (kit-pay/kit_pay/grace_handler.py) do to the two documents of an
-- id: its subscription and its grace period.
use kit_api_optimization.Prelude.{
  ℤ, String, ◌==◌, eq_refl, eq_iff, eq-append_left, ◌≡◌, ap, false, Option, none, some, arith,
  if◌then◌else◌,
}
use kit_api_optimization.Exceptions.{Result, ok, bind-ok}
use kit_api_optimization.Redis.Persistent.{Persistent}
use kit_api_optimization.PlanState.{Subscription, Doc, PlanStateManager, save, get}
use kit_api_optimization.PlanState as PlanState
use kit_api_optimization.PlanState.Store.{at, at-save, Files}
use kit_api_optimization.Grace.{GraceHandler, GracePeriod, key, decode, save_grace, set_until}

-- No subscription stands under the key of a grace period.
pub record IsApart (h : GraceHandler) : Type 0 where
  pub apart : (i j : String) → (key h i == PlanState.key h.plan_state j) ≡ false

pub key-eq : (h : GraceHandler) (i j : String) → (key h i == key h j) ≡ (i == j)
key-eq h i j = simp eq-append_left

apart_sym :
    (h : GraceHandler)
    → IsApart h
    → (i j : String) → (PlanState.key h.plan_state i == key h j) ≡ false
apart_sym h a i j = ground (
  arith,
  a.apart j i,
  eq_iff (PlanState.key h.plan_state i) (key h j),
  eq_iff (key h j) (PlanState.key h.plan_state i),
)

module _ (redis : Persistent Doc) (h : GraceHandler) (a : IsApart h) where
  open redis use {Db, get-set, get-delete}

  -- The grace period that stands under an id, or the exception of reading it.
  abbrev pub grace_at : String → Db → Result (Option GracePeriod)
  grace_at id db = decode (redis.get (key h id) db)

  pub at-save_grace :
      (g : GracePeriod) (j : String) (db : Db)
      → at redis h.plan_state j (save_grace redis h g db).1 ≡ at redis h.plan_state j db
  unfolding save_grace
  at-save_grace g j db = simp (get-set, a.apart)

  pub at-delete :
      (id j : String) (db : Db)
      → at redis h.plan_state j (redis.delete (key h id) db) ≡ at redis h.plan_state j db
  at-delete id j db = simp (get-delete, a.apart)

  pub grace_at-save_grace :
      (g : GracePeriod) (j : String) (db : Db)
      → grace_at j (save_grace redis h g db).1
        ≡ (if g.subscription_id == j then ok (some g) else grace_at j db)
  unfolding save_grace
  grace_at-save_grace g j db = simp (get-set, key-eq) (ground arith)

  pub grace_at-delete :
      (id j : String) (db : Db)
      → grace_at j (redis.delete (key h id) db) ≡ (if id == j then ok none else grace_at j db)
  grace_at-delete id j db = simp (get-delete, key-eq) (ground arith)

  pub grace_at-save :
      (sub : Subscription) (j : String) (db : Db)
      → grace_at j (save redis h.plan_state sub db).1 ≡ grace_at j db
  unfolding save
  grace_at-save sub j db = simp (get-set, apart_sym h a)

  pub save-Files :
      (sub : Subscription) (id : String) (db : Db)
      → sub.id ≡ id
      → Files redis h.plan_state id (save redis h.plan_state sub db).1 sub
  save-Files sub id db own = record {
    found = ground (arith, at-save redis h.plan_state sub id db, own, eq_refl id);
    own_id = own;
  }

  pub set_until-eq :
      (id : String) (until : Option ℤ) {db : Db} {sub : Subscription}
      → Files redis h.plan_state id db sub
      → set_until redis h id until db
        ≡ (ok tt, (save redis h.plan_state (record sub { grace_until = until }) db).1)
  unfolding set_until get save
  set_until-eq id until {db} {sub} f =
      bind-ok (get redis h.plan_state id)
        (λ s. save redis h.plan_state (record s { grace_until = until }))
        (ap (λ r. (r, db)) f.found)
