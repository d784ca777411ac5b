-- ===== src/PlanState/Machine.antt =====
-- The state machine of kit-pay/kit_pay/plan_state.py as a relation, apart from the table that the
-- code looks up.
use kit_api_optimization.Prelude.{
  List, [], ◌∷◌, ◌++◌, elem, ◌≡◌, ◌↔◌, ◌⊎◌, refl, Bool, true, false, arith,
}
use kit_api_optimization.PlanState.{
  PlanState, trial, active, past_due, grace, cancelled, expired, plan_state_eq, valid_transitions,
}

-- The moves of a subscription: a trial or an active plan can end, an active plan can fall behind,
-- a plan that is behind can enter its grace period, and every state but a trial leads back to active.
pub data Moves : PlanState → PlanState → Type 0 where
  start : Moves trial active
  abandon_trial : Moves trial cancelled
  end_trial : Moves trial expired
  fall_behind : Moves active past_due
  cancel : Moves active cancelled
  expire : Moves active expired
  pay : Moves past_due active
  allow_grace : Moves past_due grace
  cancel_behind : Moves past_due cancelled
  pay_in_grace : Moves grace active
  cancel_in_grace : Moves grace cancelled
  expire_in_grace : Moves grace expired
  reactivate : Moves cancelled active
  renew : Moves expired active

-- The table as a test.
abbrev pub allowed : PlanState → PlanState → Bool
allowed a b = elem b (valid_transitions a)

allowed-Moves : (a b : PlanState) → allowed a b ≡ true → Moves a b
allowed-Moves trial active h = start
allowed-Moves trial cancelled h = abandon_trial
allowed-Moves trial expired h = end_trial
allowed-Moves active past_due h = fall_behind
allowed-Moves active cancelled h = cancel
allowed-Moves active expired h = expire
allowed-Moves past_due active h = pay
allowed-Moves past_due grace h = allow_grace
allowed-Moves past_due cancelled h = cancel_behind
allowed-Moves grace active h = pay_in_grace
allowed-Moves grace cancelled h = cancel_in_grace
allowed-Moves grace expired h = expire_in_grace
allowed-Moves cancelled active h = reactivate
allowed-Moves expired active h = renew
allowed-Moves _ _ h = cc

Moves-allowed : {a b : PlanState} → Moves a b → allowed a b ≡ true
Moves-allowed start = refl
Moves-allowed abandon_trial = refl
Moves-allowed end_trial = refl
Moves-allowed fall_behind = refl
Moves-allowed cancel = refl
Moves-allowed expire = refl
Moves-allowed pay = refl
Moves-allowed allow_grace = refl
Moves-allowed cancel_behind = refl
Moves-allowed pay_in_grace = refl
Moves-allowed cancel_in_grace = refl
Moves-allowed expire_in_grace = refl
Moves-allowed reactivate = refl
Moves-allowed renew = refl

-- `VALID_TRANSITIONS` allows exactly the moves of the relation.
pub allowed_iff : (a b : PlanState) → (allowed a b ≡ true) ↔ Moves a b
allowed_iff a b = (allowed-Moves a b, Moves-allowed)

-- A subscription that has ended: a plan that only a reactivation brings back.
abbrev pub IsEnded : PlanState → Type 0
IsEnded a = (a ≡ cancelled) ⊎ (a ≡ expired)

move_from_ended : {a b : PlanState} → Moves a b → IsEnded a → b ≡ active
move_from_ended reactivate e = refl
move_from_ended renew e = refl
move_from_ended _ e = ground arith

-- What a sequence of requested states leads to: a request that is a move is followed, any other one leaves
-- the state as it is.
pub data Follows : PlanState → List PlanState → PlanState → Type 0 where
  done : (a : PlanState) → Follows a [] a
  moved :
      {a b c : PlanState} {rest : List PlanState}
      → Moves a b
      → Follows b rest c
      → Follows a (b ∷ rest) c
  stayed :
      {a b c : PlanState} {rest : List PlanState}
      → ¬ Moves a b
      → Follows a rest c
      → Follows a (b ∷ rest) c

pub Follows-append :
    {a b c : PlanState} {first rest : List PlanState}
    → Follows a first b
    → Follows b rest c
    → Follows a (first ++ rest) c
Follows-append (done a) g = g
Follows-append (moved m f) g = moved m (Follows-append f g)
Follows-append (stayed n f) g = stayed n (Follows-append f g)

-- An ended subscription stays as it is as long as the active state is not asked for.
pub Follows-ended :
    {a c : PlanState} {requests : List PlanState}
    → Follows a requests c
    → IsEnded a
    → elem active requests ≡ false
    → a ≡ c
Follows-ended (done a) ended never = refl
Follows-ended (moved {b = b} m rest) ended never =
    absurd (ground (arith, move_from_ended m ended, never))
Follows-ended (stayed n rest) ended never = Follows-ended rest ended (ground (arith, never))
