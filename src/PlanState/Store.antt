-- ===== src/PlanState/Store.antt =====
-- What the methods of `PlanStateManager` (kit-pay/kit_pay/plan_state.py) do to the stored
-- subscriptions.
use kit_api_optimization.Prelude.{
  ℕ, String, ◌==◌, eq_refl, eq_iff, eq-append_left, ◌≡◌, ◌↔◌, ◌≢◌, refl, ◌∙◌, Bool, true, false,
  elem, Bool-cases, inl, inr, List, [], ◌∷◌, arith, if◌then◌else◌,
}
use kit_api_optimization.Exceptions.{Result, ok, err, key_error, invalid_transition}
use kit_api_optimization.Redis.Persistent.{Persistent}
use kit_api_optimization.PlanState.{
  PlanState, value, of_value, trial, active, past_due, grace, cancelled, expired, Subscription, Doc,
  PlanStateManager, key, serialise, deserialise, decode, transitioned, plan_state_eq, save, get,
  answered, is_active, transition,
}
use kit_api_optimization.PlanState.Machine.{
  Moves, allowed, allowed_iff, Follows, done, moved, stayed, Follows-ended, IsEnded,
}

of_value-value : (s : PlanState) → of_value (value s) ≡ ok s
of_value-value trial = refl
of_value-value active = refl
of_value-value past_due = refl
of_value-value grace = refl
of_value-value cancelled = refl
of_value-value expired = refl

-- what `_save` writes of a subscription is read back
pub deserialise-serialise : (sub : Subscription) → deserialise (serialise sub) ≡ ok sub
deserialise-serialise sub = ground (arith, of_value-value sub.state)

pub key-eq : (m : PlanStateManager) (i j : String) → (key m i == key m j) ≡ (i == j)
key-eq m i j = simp eq-append_left

refused : (a b : PlanState) → ¬ Moves a b → allowed a b ≡ false
refused a b n = elim (Bool-cases (allowed a b)) [
  | inl is_allowed ↦ absurd (n ((allowed_iff a b).0 is_allowed))
  | inr is_not ↦ is_not
]

module _ (redis : Persistent Doc) (m : PlanStateManager) where
  open redis use {Db, set, get-set}

  -- The subscription that stands under an id, or the exception of reading it.
  abbrev pub at : String → Db → Result Subscription
  at id db = decode (redis.get (key m id) db)

  pub get-eq-at : (id : String) (db : Db) → get redis m id db ≡ (at id db, db)
  unfolding get
  get-eq-at id db = refl

  -- A saved subscription is what is read under its id, and no other id reads differently.
  pub at-save :
      (sub : Subscription) (j : String) (db : Db)
      → at j (save redis m sub db).1 ≡ (if sub.id == j then ok sub else at j db)
  unfolding save
  at-save sub j db = simp (get-set, key-eq) (ground (arith, deserialise-serialise sub))

  -- Under the id stands this subscription, and it is filed under its own id.
  pub record Files (id : String) (db : Db) (sub : Subscription) : Type 0 where
    pub found : at id db ≡ ok sub
    pub own_id : sub.id ≡ id

  -- A transition that the state machine allows saves the moved subscription.
  pub transition-eq :
      (id : String) (new_state : PlanState) (now : ℕ) {db : Db} {sub : Subscription}
      → Files id db sub
      → Moves sub.state new_state
      → transition redis m id new_state now db ≡ (
        ok (transitioned new_state now sub),
        (save redis m (transitioned new_state now sub) db).1,
      )
  unfolding transition
  transition-eq id new_state now {db} {sub} f mv =
      ground (arith, f.found, (allowed_iff sub.state new_state).1 mv)

  -- A transition that the state machine allows returns the subscription in its new state, stamped
  -- with the time, and files that under the id; every other id reads as before.
  pub transition-Moves :
      (id : String) (new_state : PlanState) (now : ℕ) {db : Db} {sub : Subscription}
      → Files id db sub
      → Moves sub.state new_state
      → let (r, db') = transition redis m id new_state now db in
        (r ≡ ok (transitioned new_state now sub))
        × Files id db' (transitioned new_state now sub)
        × ((j : String) → id ≢ j → at j db' ≡ at j db)
  transition-Moves id new_state now {db} {sub} f mv =
      let sub' = transitioned new_state now sub in
      rw (transition-eq id new_state now f mv) (
        refl,
        record {
          found = ground (arith, at-save sub' id db, f.own_id, eq_refl id);
          own_id = f.own_id;
        },
        λ j other. ground (arith, at-save sub' j db, f.own_id, eq_iff id j),
      )

  -- A transition that it does not allow raises `InvalidTransitionError` and writes nothing.
  pub transition_refused :
      (id : String) (new_state : PlanState) (now : ℕ) {db : Db} {sub : Subscription}
      → Files id db sub
      → ¬ Moves sub.state new_state
      → transition redis m id new_state now db ≡ (err invalid_transition, db)
  unfolding transition
  transition_refused id new_state now {db} {sub} f no_move =
      ground (arith, f.found, refused (sub.state) new_state no_move)

  -- Calls of `transition` on one id, each with its time, whether they succeed or raise.
  pub transition_all : String → List (PlanState × ℕ) → Db → Db
  transition_all id [] db = db
  transition_all id ((new_state, now) ∷ calls) db =
      transition_all id calls (transition redis m id new_state now db).1

  -- the states that are asked for
  pub requests : List (PlanState × ℕ) → List PlanState
  requests [] = []
  requests ((new_state, now) ∷ calls) = new_state ∷ requests calls

  -- However `transition` is called on an id under which its subscription stands, the state of the
  -- subscription goes along with every requested state that is a move of the state machine and stays as it is
  -- at every other one, in the order of the calls; and no other subscription is touched.
  pub transition_all-Follows :
      (id : String) (calls : List (PlanState × ℕ)) {db : Db} {sub : Subscription}
      → Files id db sub
      → (sub' : Subscription) × Files id (transition_all id calls db) sub'
        × Follows sub.state (requests calls) sub'.state
        × ((j : String) → id ≢ j → at j (transition_all id calls db) ≡ at j db)
  unfolding transition_all requests
  transition_all-Follows id [] {sub = sub} f = (sub, f, done sub.state, λ j other. refl)
  transition_all-Follows id ((new_state, now) ∷ calls) {db} {sub} f =
      elim (Bool-cases (allowed sub.state new_state)) [
        | inl is_allowed ↦
            let mv = (allowed_iff sub.state new_state).0 is_allowed in
            let (r, filed, others) = transition-Moves id new_state now f mv in
            let (sub', filed', follows, others') = transition_all-Follows id calls filed in
            (sub', filed', moved mv follows, λ j other. others' j other ∙ others j other)
        | inr is_not ↦
            let no_move : ¬ Moves sub.state new_state =
              λ mv. cc ((allowed_iff sub.state new_state).1 mv) in
            let (sub', filed', follows, others') = transition_all-Follows id calls f in
            rw (transition_refused id new_state now f no_move)
              (sub', filed', stayed no_move follows, others')
      ]

  -- However `transition` is called on the id of a subscription that has ended, it stays in its state as long
  -- as the active state is not asked for.
  pub ended_stays :
      (id : String) (calls : List (PlanState × ℕ)) {db : Db} {sub : Subscription}
      → Files id db sub
      → IsEnded sub.state
      → elem active (requests calls) ≡ false
      → (sub' : Subscription) × Files id (transition_all id calls db) sub'
        × (sub.state ≡ sub'.state)
  ended_stays id calls f ended never =
      let (sub', filed, follows, _) = transition_all-Follows id calls f in
      (sub', filed, Follows-ended follows ended never)

  answered_iff : (sub : Subscription) → (answered (ok sub) ≡ ok true) ↔ ¬ IsEnded sub.state
  unfolding answered
  answered_iff sub = go sub.state
    where
      go :
          (s : PlanState)
          → (ok (elem s (trial ∷ active ∷ past_due ∷ grace ∷ [])) ≡ ok true) ↔ ¬ IsEnded s
      go trial = ground arith
      go active = ground arith
      go past_due = ground arith
      go grace = ground arith
      go cancelled = ground arith
      go expired = ground arith

  -- What `is_active` should answer for what stands under the id.
  abbrev pub Answers : Result Subscription → Result Bool → Type 0
  Answers (ok sub) r = (r ≡ ok true) ↔ ¬ IsEnded sub.state
  Answers (err key_error) r = r ≡ ok false
  Answers (err x) r = r ≡ err x

  answered-Answers : (r : Result Subscription) → Answers r (answered r)
  unfolding answered
  answered-Answers (ok sub) = answered_iff sub
  answered-Answers (err x) = ground arith

  -- `is_active` writes nothing. It answers True for a subscription exactly if it has not ended, False
  -- where there is none, and passes on any other exception of reading it.
  pub is_active-Answers :
      (id : String) (db : Db)
      → ((is_active redis m id db).1 ≡ db) × Answers (at id db) (is_active redis m id db).0
  unfolding is_active get
  is_active-Answers id db = (refl, answered-Answers (at id db))
