-- ===== src/CircuitBreaker.antt =====
-- kit-api/kit_api/circuit_breaker.py: `CircuitBreaker` over a Redis that is a parameter, and the
-- wrapper that the decorator `circuit_breaker` builds. A clock reading is an argument for each
-- call of `time.time()`, in whole microseconds.
pub mod Circuit
pub mod Refinement
pub mod Trace
pub mod Behaviour
pub mod Trials
pub mod Wrapper
mod Tests
use kit_api_optimization.Prelude.{
  ℕ, ◌+◌, ◌*◌, ◌/◌, ℤ, pos, pos_part, neg_part, leb, leb_ℤ, String, ◌==◌, join, Bool, true, Option,
  none, some, List, [], ◌∷◌, if◌then◌else◌,
}
use kit_api_optimization.Exceptions.{
  Error, Result, ok, err, Method, pure, raise, lift, gets, modify, ◌>>=◌, ◌>>◌, circuit_open,
  value_error, response_error,
}
use kit_api_optimization.Redis.Persistent.{Value, text, num, doc, Persistent}

-- `State`
pub data State : Type 0 where
  closed opened half_open : State

abbrev pub value : State → String
value closed = "closed"
value opened = "open"
value half_open = "half_open"

-- `State(value)`
abbrev pub of_value : String → Result State
of_value s =
    if s == "closed"
    then ok closed
    else if s == "open"
    then ok opened
    else if s == "half_open"
    then ok half_open
    else err value_error

pub record CircuitBreaker : Type 0 where
  pub name : String
  pub failure_threshold : ℤ
  pub recovery_timeout : ℕ
  pub half_open_max_calls : ℤ

abbrev pub microseconds : ℕ
microseconds = 1000000

-- `time.time() - opened_at >= recovery_timeout`, for `now` in microseconds.
abbrev pub has_recovered : CircuitBreaker → ℕ → ℤ → Bool
has_recovered cb now opened_at =
    leb (microseconds * (pos_part opened_at + cb.recovery_timeout))
      (now + microseconds * neg_part opened_at)

abbrev pub key : CircuitBreaker → String → String
key cb suffix = join ("kit:cb:" ∷ cb.name ∷ ":" ∷ suffix ∷ [])

-- what `_get_state` and `_get_int` make of the reply to GET
abbrev pub decode_state : {D : Type 0} → Option (Value D) → Result State
decode_state none = ok closed
decode_state (some (text s)) = of_value s
decode_state (some (num n)) = err value_error
decode_state (some (doc d)) = err value_error

abbrev pub decode_int : {D : Type 0} → Option (Value D) → Result ℤ
decode_int none = ok (pos 0)
decode_int (some (num n)) = ok n
decode_int (some (text s)) = err value_error
decode_int (some (doc d)) = err value_error

module _ {D : Type 0} (redis : Persistent D) where
  open redis use {Db, get, set, delete, incrby}

  get_state : CircuitBreaker → Method Db State
  get_state cb = do raw ← gets (get (key cb "state")); lift (decode_state raw)

  set_state : CircuitBreaker → State → Method Db Unit
  set_state cb s = modify (set (key cb "state") (text (value s)))

  get_int : String → Method Db ℤ
  get_int k = do raw ← gets (get k); lift (decode_int raw)

  incr : String → Method Db ℤ
  incr k db = elim (incrby k (pos 1) db) [
    | none ↦ (err response_error, db)
    | some (n, db') ↦ (ok n, db')
  ]

  enter_half_open : CircuitBreaker → Method Db State
  unfolding set_state
  enter_half_open cb = do
    set_state cb half_open
    modify (set (key cb "ho_calls") (num (pos 0)))
    pure half_open

  promote : CircuitBreaker → ℕ → State → Method Db State
  unfolding get_int enter_half_open
  promote cb now opened = do
    opened_at ← get_int (key cb "opened_at")
    if has_recovered cb now opened_at then enter_half_open cb else pure opened
  promote cb now current = pure current

  -- the property `state`
  unfoldable pub state : CircuitBreaker → ℕ → Method Db State
  unfolding get_state promote
  state cb now = do current ← get_state cb; promote cb now current

  -- `_trip`, at the clock reading `later`
  trip : CircuitBreaker → ℕ → Method Db Unit
  unfolding set_state
  trip cb later = do
    set_state cb opened
    modify (set (key cb "opened_at") (num (pos (later / microseconds))))

  on_success : CircuitBreaker → State → Method Db Unit
  unfolding set_state
  on_success cb half_open = do
    set_state cb closed
    modify (set (key cb "failures") (num (pos 0)))
    modify (delete (key cb "ho_calls"))
  on_success cb closed = modify (set (key cb "failures") (num (pos 0)))
  on_success cb opened = pure tt

  unfoldable pub record_success : CircuitBreaker → ℕ → Method Db Unit
  unfolding state on_success
  record_success cb now = do s ← state cb now; on_success cb s

  on_failure : CircuitBreaker → ℕ → State → Method Db Unit
  unfolding trip incr
  on_failure cb later half_open = trip cb later
  on_failure cb later closed = do
    failures ← incr (key cb "failures")
    if leb_ℤ cb.failure_threshold failures then trip cb later else pure tt
  on_failure cb later opened = pure tt

  -- `now` is the reading of the property `state`, `later` that of `_trip`
  unfoldable pub record_failure : CircuitBreaker → ℕ → ℕ → Method Db Unit
  unfolding state on_failure
  record_failure cb now later = do s ← state cb now; on_failure cb later s

  on_request : CircuitBreaker → State → Method Db Bool
  unfolding incr
  on_request cb closed = pure true
  on_request cb half_open = do
    calls ← incr (key cb "ho_calls")
    if leb_ℤ calls cb.half_open_max_calls
        then pure true
        else raise (
            circuit_open
              (join ("Circuit '" ∷ cb.name ∷ "' is half-open and trial limit reached" ∷ [])))
  on_request cb opened = raise (circuit_open (join ("Circuit '" ∷ cb.name ∷ "' is open" ∷ [])))

  unfoldable pub allow_request : CircuitBreaker → ℕ → Method Db Bool
  unfolding state on_request
  allow_request cb now = do s ← state cb now; on_request cb s

  -- `reset`: the pipeline's four deletions
  unfoldable pub reset : CircuitBreaker → Method Db Unit
  reset cb = do
    modify (delete (key cb "state"))
    modify (delete (key cb "failures"))
    modify (delete (key cb "opened_at"))
    modify (delete (key cb "ho_calls"))
