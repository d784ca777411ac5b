-- ===== src/Cache.antt =====
-- kit-data/kit_data/cache.py: `Cache` over a Redis that is a parameter, and `get_or_set` with its lock,
-- its wait and its way out. A JSON value is a value of the application (`J`), or None. Every command
-- carries its time, in whole microseconds; the random jitter is an argument, in millionths.
pub mod Flight
pub mod Waiting
mod Tests
use kit_api_optimization.Prelude.{
  ℕ, zero, suc, ◌+◌, ◌*◌, ◌/◌, max, ltb, leb_ℤ, ℤ, pos, negsuc, pos_part, String, join, Bool, true,
  false, Option, none, some, List, [], ◌∷◌, if◌then◌else◌,
}
use kit_api_optimization.Exceptions.{
  Error, Result, ok, err, Method, gets, lift, ◌>>=◌, value_error, response_error,
}
use kit_api_optimization.Redis.Persistent.{Value, text, num, doc}
use kit_api_optimization.Redis.Expiring.{valid_ttl, seconds, Expiring}

pub record Cache : Type 0 where
  pub namespace : String
  pub default_ttl : ℤ
  pub lock_ttl : ℤ
  pub jitter : ℤ

abbrev pub key : Cache → String → String
key c k = join (c.namespace ∷ ":" ∷ k ∷ [])

abbrev pub lock_key : Cache → String → String
lock_key c k = join (c.namespace ∷ ":lock:" ∷ k ∷ [])

abbrev pub locked : {D : Type 0} → Value D
locked = num (pos 1)

-- `_jittered`, where `draw` is what `random.uniform(0, self._jitter)` returns
unfoldable pub jittered : Cache → ℕ → ℤ → ℤ
jittered c draw ttl =
    if leb_ℤ c.jitter (pos 0) then ttl else pos (max 1 (pos_part ttl * (1000000 + draw) / 1000000))

-- `self._default_ttl if ttl is None else ttl`
abbrev pub given_ttl : Cache → Option ℤ → ℤ
given_ttl c none = c.default_ttl
given_ttl c (some ttl) = ttl

-- What a waiting call meets: the clock at the head of each round, the time of the GET of each round,
-- and what the other clients send to Redis during its sleep.
pub record Wait (Db : Type 0) : Type 0 where
  pub clock : ℕ → ℕ
  pub asked : ℕ → ℕ
  pub meanwhile : ℕ → Db → Db

-- The other readings of one call: the first GET, the lock, the second GET, the clock before the
-- wait, the SET, and the draw of its jitter.
pub record Times : Type 0 where
  pub first : ℕ
  pub lock : ℕ
  pub second : ℕ
  pub started : ℕ
  pub stored : ℕ
  pub draw : ℕ

-- `of_int` is the value of a text that is an integer; other texts that are no document are no JSON
module _ {J : Type 0} (of_int : ℤ → J) (redis : Expiring (Option J)) where
  open redis use {Db, set_ex, set_nx, delete}

  abbrev pub decode : Option (Value (Option J)) → Result (Option J)
  decode none = ok none
  decode (some (doc v)) = ok v
  decode (some (num n)) = ok (some (of_int n))
  decode (some (text s)) = err value_error

  unfoldable pub get : Cache → String → ℕ → Method Db (Option J)
  get c k now = do raw ← gets (redis.get now (key c k)); lift (decode raw)

  unfoldable pub set : Cache → String → Option J → Option ℤ → ℕ → ℕ → Method Db (Unit {0})
  unfolding jittered
  set c k v ttl draw now db = elim (valid_ttl (jittered c draw (given_ttl c ttl))) [
    | none ↦ (err response_error, db)
    | some duration ↦ (ok tt, set_ex now (key c k) (doc v) duration db)
  ]

  -- `delete`, key by key
  pub delete_all : Cache → List String → Db → Db
  delete_all c [] db = db
  delete_all c (k ∷ keys) db = delete_all c keys (delete (key c k) db)

  module _ {W : Type 0} (c : Cache) (k : String) (ttl : Option ℤ) (t : Times)
      (loader : Method (Db × W) (Option J)) where
    -- `self.set(key, value, ttl); return value`
    stored : Option J → Method (Db × W) (Option J)
    unfolding set
    stored v (db, w) =
        let (r, db') = set c k v ttl t.draw t.stored db in
        (elim r [ ok _ ↦ ok v | err x ↦ err x ], (db', w))

    pub compute : Method (Db × W) (Option J)
    unfolding stored
    compute = do v ← loader; stored v

    -- the `finally` of the holder of the lock
    unlocked : Result (Option J) × (Db × W) → Result (Option J) × (Db × W)
    unlocked (r, (db, w)) = (r, (delete (lock_key c k) db, w))

    -- the `try` of the holder of the lock, after its second GET
    checked_again : W → Result (Option J) × Db → Result (Option J) × (Db × W)
    unfolding compute
    checked_again w (err x, db) = (err x, (db, w))
    checked_again w (ok (some v), db) = (ok (some v), (db, w))
    checked_again w (ok none, db) = compute (db, w)

    -- The loop up to the deadline, and the computation after it; none if the fuel runs out.
    wait_until : Wait Db → ℕ → ℕ → ℕ → Db → W → Option (Result (Option J) × (Db × W))
    unfolding compute
    wait_until wait deadline zero round db w = none
    wait_until wait deadline (suc fuel) round db w =
        let db' = wait.meanwhile round db in
        let rest = wait_until wait deadline fuel (suc round) db' w in
        if ltb (wait.clock round) deadline
        then elim (decode (redis.get (wait.asked round) (key c k) db')) [
          | ok found ↦ elim found [ none ↦ rest | some v ↦ some (ok (some v), (db', w)) ]
          | err x ↦ some (err x, (db', w))
        ]
        else some (compute (db, w))

    after_lock : Wait Db → ℕ → W → Bool × Db → Option (Result (Option J) × (Db × W))
    unfolding checked_again unlocked wait_until get
    after_lock wait fuel w (true, db) = some (unlocked (checked_again w (get c k t.second db)))
    after_lock wait fuel w (false, db) =
        wait_until wait (t.started + seconds (pos_part c.lock_ttl)) fuel 0 db w

    after_miss : Wait Db → ℕ → W → Result (Option J) × Db → Option (Result (Option J) × (Db × W))
    unfolding after_lock
    after_miss wait fuel w (err x, db) = some (err x, (db, w))
    after_miss wait fuel w (ok (some v), db) = some (ok (some v), (db, w))
    after_miss wait fuel w (ok none, db) = elim (valid_ttl c.lock_ttl) [
      | none ↦ some (err response_error, (db, w))
      | some duration ↦ after_lock wait fuel w (set_nx t.lock (lock_key c k) locked duration db)
    ]

    unfoldable pub get_or_set : Wait Db → ℕ → Db → W → Option (Result (Option J) × (Db × W))
    unfolding after_miss
    get_or_set wait fuel db w = after_miss wait fuel w (get c k t.first db)
