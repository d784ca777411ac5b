-- ===== src/WebhookReceiver.antt =====
-- kit-pay/kit_pay/webhook_receiver.py: `WebhookReceiver` over a Redis that is a parameter. A value of
-- a JSON document is of a type `J` of which the source uses four things: a text is one, an f-string
-- shows it, `float` reads a time from it, or raises, and it is hashable or not (a list and an object are not). HMAC-SHA256 and `json.loads` are arguments. A handler
-- of the application is a method on a state of its own.
pub mod Dedup
mod Tests
use kit_api_optimization.Prelude.{
  ℕ, ◌+◌, ℤ, pos, String, ◌==◌, join, Eq, string_eq, Dict, lookup, insert, Bool, true, false, not,
  Option, none, some, List, [], ◌∷◌, ◌++◌, if◌then◌else◌,
}
use kit_api_optimization.Exceptions.{Error, Result, ok, err, Method, type_error}
use kit_api_optimization.Redis.Persistent.{Value, text, num, doc}
use kit_api_optimization.Redis.Expiring.{seconds, Expiring}

pub data ProcessStatus : Type 0 where
  success failed skipped : ProcessStatus

-- a payload, `bytes | str`
pub data Raw : Type 0 where
  bytes : List ℕ → Raw
  str : String → Raw

pub record WebhookEvent (J : Type 0) : Type 0 where
  pub id : J
  pub type : J
  pub provider : String
  pub data_ : Dict String J
  pub timestamp : ℕ
  pub raw : Raw

pub record ProcessResult (J R : Type 0) : Type 0 where
  pub event_id : J
  pub status : ProcessStatus
  pub handler_results : List R
  pub error : Option String

-- what the source uses of JSON values, with `str` of an exception
pub record Json (J : Type 0) : Type 0 where
  pub quote : String → J
  pub show : J → String
  pub float : J → Result ℕ
  pub message : Error → String
  pub is_hashable : J → Bool

abbrev pub Handler : Type 0 → Type 0 → Type 0 → Type 0
Handler J R W = WebhookEvent J → Method W R

abbrev pub Handlers : Type 0 → Type 0 → Type 0 → Type 0
Handlers J R W = Dict J (List (Handler J R W))

-- `hexdigest secret payload` is the HMAC in hexadecimal
abbrev pub verify : (String → Raw → String) → Raw → String → String → Bool
verify hexdigest payload signature secret = hexdigest secret payload == signature

module _ {J : Type 0} where
  -- `data.get(k, default)`
  abbrev pub get_or : String → J → Dict String J → J
  get_or k default d = elim (lookup k d) [ none ↦ default | some v ↦ v ]

  module _ (json : Json J) where
    pub extract_event_id : Dict String J → String → J
    extract_event_id d provider =
        if provider == "stripe"
        then get_or "id" (json.quote "") d
        else if provider == "paddle"
        then get_or "event_id" (get_or "notification_id" (json.quote "") d) d
        else get_or "id" (get_or "event_id" (json.quote "") d) d

    pub extract_event_type : Dict String J → String → J
    extract_event_type d provider =
        if provider == "stripe"
        then get_or "type" (json.quote "") d
        else if provider == "paddle"
        then get_or "event_type" (json.quote "") d
        else get_or "type" (get_or "event_type" (json.quote "") d) d

    -- `float(data.get(k, time.time()))`
    time_at : String → ℕ → Dict String J → Result ℕ
    time_at k now d = elim (lookup k d) [ none ↦ ok now | some v ↦ json.float v ]

    pub extract_timestamp : Dict String J → String → ℕ → Result ℕ
    unfolding time_at
    extract_timestamp d provider now =
        if provider == "stripe"
        then time_at "created" now d
        else if provider == "paddle"
        then time_at "occurred_at" now d
        else time_at "timestamp" now d

    with_timestamp : Raw → String → Dict String J → Result ℕ → Result (WebhookEvent J)
    unfolding extract_event_id extract_event_type
    with_timestamp payload provider d (err x) = err x
    with_timestamp payload provider d (ok timestamp) = ok (record {
      id = extract_event_id d provider;
      type = extract_event_type d provider;
      provider = provider;
      data_ = d;
      timestamp = timestamp;
      raw = payload;
    })

    parsed : Raw → String → ℕ → Result (Dict String J) → Result (WebhookEvent J)
    unfolding with_timestamp extract_timestamp
    parsed payload provider now (err x) = err x
    parsed payload provider now (ok d) =
        with_timestamp payload provider d (extract_timestamp d provider now)

    unfoldable pub parse :
        (Raw → Result (Dict String J)) → Raw → String → ℕ → Result (WebhookEvent J)
    unfolding parsed
    parse loads payload provider now = parsed payload provider now (loads payload)

-- The value of a key of an event that is done, "1".
abbrev pub seen : {D : Type 0} → Value D
seen = num (pos 1)

-- `if self._redis.get(dedup_key)`: only the empty text is false
abbrev pub is_seen : {D : Type 0} → Option (Value D) → Bool
is_seen none = false
is_seen (some (text s)) = not (s == "")
is_seen (some (num n)) = true
is_seen (some (doc d)) = true

abbrev pub day : ℕ
day = seconds 86400

abbrev pub result :
    {J R : Type 0} → WebhookEvent J → ProcessStatus → List R → Option String → ProcessResult J R
result event status results error = record {
  event_id = event.id;
  status = status;
  handler_results = results;
  error = error;
}

module _ {J D : Type 0} (redis : Expiring D) (json : Json J) (prefix : String) where
  abbrev pub dedup_key : WebhookEvent J → String
  dedup_key event = join (prefix ∷ ":seen:" ∷ json.show event.id ∷ [])

  -- `self._redis.set(dedup_key, "1", ex=86400)`
  unfoldable pub mark : WebhookEvent J → ℕ → redis.Db → redis.Db
  mark event later db = redis.set_ex later (dedup_key event) seen day db

module _ {J R W : Type 0} where
  -- `self._handlers.setdefault(event_type, []).append(handler)`
  unfoldable pub register_handler : ⦃e : Eq J⦄ → J → Handler J R W → Handlers J R W → Handlers J R W
  register_handler type handler handlers = elim (lookup type handlers) [
    | none ↦ insert type (handler ∷ []) handlers
    | some hs ↦ insert type (hs ++ handler ∷ []) handlers
  ]

  -- the loop over the handlers, with the results so far: the results, and the exception that ended it
  unfoldable pub run_handlers :
      List (Handler J R W) → WebhookEvent J → List R → W → (List R × Option Error) × W
  run_handlers [] event results w = ((results, none), w)
  run_handlers (h ∷ handlers) event results w =
      let (r, w') = h event w in
      elim r [
        | ok a ↦ run_handlers handlers event (results ++ a ∷ []) w'
        | err x ↦ ((results, some x), w')
      ]

  -- `self._handlers.get(event.type, [])`, which hashes the type
  abbrev pub handlers_of :
      ⦃e : Eq J⦄ → Json J → Handlers J R W → WebhookEvent J → Result (List (Handler J R W))
  handlers_of json handlers event =
      if json.is_hashable event.type
      then ok (elim (lookup event.type handlers) [ none ↦ [] | some hs ↦ hs ])
      else err type_error

  module _ {D : Type 0} (redis : Expiring D) (json : Json J) (prefix : String) where
    open redis use {Db}

    -- the outcome of the handlers
    unfoldable pub settle :
        WebhookEvent J → ℕ → Db → (List R × Option Error) × W → ProcessResult J R × (Db × W)
    unfolding mark
    settle event later db ((results, none), w) =
        (result event success results none, (mark redis json prefix event later db, w))
    settle event later db ((results, some x), w) =
        (result event failed results (some (json.message x)), (db, w))

    -- the dispatch to the handlers of the event
    unfoldable pub dispatch :
        WebhookEvent J → ℕ → Db → W → List (Handler J R W) → ProcessResult J R × (Db × W)
    unfolding settle
    dispatch event later db w [] =
        (result event success [] none, (mark redis json prefix event later db, w))
    dispatch event later db w (h ∷ hs) = settle event later db (run_handlers (h ∷ hs) event [] w)

    -- and once its handlers are looked up
    unfoldable pub dispatch_found :
        WebhookEvent J
        → ℕ
        → Db
        → W
        → Result (List (Handler J R W))
        → Result (ProcessResult J R) × (Db × W)
    unfolding dispatch
    dispatch_found event later db w (err x) = (err x, (db, w))
    dispatch_found event later db w (ok hs) = let (r, s) = dispatch event later db w hs in (ok r, s)

    -- `now` and `later` are the times of GET and SET
    unfoldable pub process :
        ⦃e : Eq J⦄ → Handlers J R W → WebhookEvent J → ℕ → ℕ → Method (Db × W) (ProcessResult J R)
    unfolding dispatch_found
    process handlers event now later (db, w) =
        if is_seen (redis.get now (dedup_key redis json prefix event) db)
        then (ok (result event skipped [] (some "duplicate event")), (db, w))
        else dispatch_found event later db w (handlers_of json handlers event)
