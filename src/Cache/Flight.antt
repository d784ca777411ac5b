-- ===== src/Cache/Flight.antt =====
-- The call of `get_or_set` (kit-data/kit_data/cache.py) that computes a missing value.
use mathlib.Core.Path.{subst}
use kit_api_optimization.Prelude.{
  ℕ, ◌+◌, ltb, ℤ, String, ◌==◌, eq_refl, middles_apart, ◌≡◌, refl, sym, ◌∙◌, false, Option, none,
  some, arith, if◌then◌else◌,
}
use kit_api_optimization.Exceptions.{Result, ok, err, Method}
use kit_api_optimization.Redis.Persistent.{Value, doc}
use kit_api_optimization.Redis.Expiring.{valid_ttl, Expiring}
use kit_api_optimization.Cache.{
  Cache, key, lock_key, locked, jittered, given_ttl, Wait, Times, decode, get, set, stored, compute,
  unlocked, checked_again, after_lock, after_miss, get_or_set,
}

lock-key : (c : Cache) (k : String) → (lock_key c k == key c k) ≡ false
lock-key c k = middles_apart c.namespace ":lock:" ":" k refl

module _ {J : Type 0} (of_int : ℤ → J) (redis : Expiring (Option J)) (c : Cache) (k : String) where
  open redis use {Db, set_ex, delete, get-set_ex, get-delete, set_nx-get}

  -- The value that stands at a time, or the exception of reading it.
  abbrev pub value_at : ℕ → Db → Result (Option J)
  value_at t db = decode of_int redis (redis.get t (key c k) db)

  abbrev pub lock_at : ℕ → Db → Option (Value (Option J))
  lock_at t db = redis.get t (lock_key c k) db

  abbrev pub locked_db : ℕ → ℕ → Db → Db
  locked_db now duration db = set_ex now (lock_key c k) locked duration db

  value-lock :
      (t now duration : ℕ) (db : Db) → value_at t (locked_db now duration db) ≡ value_at t db
  value-lock t now duration db = simp (get-set_ex, lock-key c k)

  value-unlock : (t : ℕ) (db : Db) → value_at t (delete (lock_key c k) db) ≡ value_at t db
  value-unlock t db = simp (get-delete, lock-key c k)

  lock-unlock : (t : ℕ) (db : Db) → lock_at t (delete (lock_key c k) db) ≡ none
  lock-unlock t db = simp (get-delete, eq_refl)

  value-set :
      (t now duration : ℕ) (v : Option J) (db : Db)
      → value_at t (set_ex now (key c k) (doc v) duration db)
        ≡ (if ltb t (now + duration) then ok v else ok none)
  value-set t now duration v db = simp (get-set_ex, eq_refl) (ground arith)

  -- What stands under the key after the call: the new value, or what the loader left.
  abbrev pub LeavesValue : ℕ → ℕ → Result (Option J) → Db → Db → Type 0
  LeavesValue now duration (ok v) before after =
      (τ : ℕ) → value_at τ after ≡ (if ltb τ (now + duration) then ok v else ok none)
  LeavesValue now duration (err x) before after = (τ : ℕ) → value_at τ after ≡ value_at τ before

  -- What the holder of the lock comes to, by what its loader did.
  abbrev pub Computes :
      {W : Type 0}
      → ℕ
      → ℕ
      → Result (Option J) × (Db × W)
      → Option (Result (Option J) × (Db × W))
      → Type 0
  Computes now duration (r, (db, w)) none = ⊥
  Computes now duration (r, (db, w)) (some (r', (db', w'))) =
      (r' ≡ r) × (w' ≡ w) × ((τ : ℕ) → lock_at τ db' ≡ none) × LeavesValue now duration r db db'

  module _ {W : Type 0} (ttl : Option ℤ) (t : Times) (loader : Method (Db × W) (Option J))
      (duration : ℕ) (valid : valid_ttl (jittered c t.draw (given_ttl c ttl)) ≡ some duration) where
    stored-eq :
        (v : Option J) (db : Db) (w : W)
        → stored of_int redis c k ttl t loader v (db, w)
          ≡ (ok v, (set_ex t.stored (key c k) (doc v) duration db, w))
    unfolding stored set
    stored-eq v db w = ground (arith, valid)

    unlocked-Computes :
        (s : Db × W)
        → Computes t.stored duration (loader s) (
            some (unlocked of_int redis c k ttl t loader (compute of_int redis c k ttl t loader s)))
    unfolding unlocked compute
    unlocked-Computes s = go (loader s)
      where
        go :
            (p : Result (Option J) × (Db × W))
            → Computes t.stored duration p (
                some (
                  unlocked of_int redis c k ttl t loader (elim p.0 [
                    | ok v ↦ stored of_int redis c k ttl t loader v p.1
                    | err x ↦ (err x, p.1)
                  ])))
        go (err x, (db, w)) = (refl, refl, λ τ. lock-unlock τ db, λ τ. value-unlock τ db)
        go (ok v, (db, w)) =
            subst
              (λ p.
                Computes t.stored duration (ok v, (db, w))
                  (some (unlocked of_int redis c k ttl t loader p)))
              (sym (stored-eq v db w))
              (
                refl,
                refl,
                λ τ. lock-unlock τ (set_ex t.stored (key c k) (doc v) duration db),
                λ τ.
                    value-unlock τ (set_ex t.stored (key c k) (doc v) duration db)
                    ∙ value-set τ t.stored duration v db,
              )

    -- Where the value is missing and nobody holds the lock, the loader is run once, with the lock
    -- held, and its value is returned and is what is read under the key until its jittered time to live
    -- is over. An exception of the loader is passed on, with the value as the loader left it. The lock
    -- is gone in both cases.
    pub get_or_set-Computes :
        (wait : Wait Db) (fuel lock_duration : ℕ) (db : Db) (w : W)
        → valid_ttl c.lock_ttl ≡ some lock_duration
        → value_at t.first db ≡ ok none
        → value_at t.second db ≡ ok none
        → lock_at t.lock db ≡ none
        → Computes t.stored duration
            (loader (locked_db t.lock lock_duration db, w))
            (get_or_set of_int redis c k ttl t loader wait fuel db w)
    unfolding get_or_set after_miss after_lock checked_again get
    get_or_set-Computes wait fuel lock_duration db w lock_valid first second free =
        let held = locked_db t.lock lock_duration db in
        let second' : value_at t.second held ≡ ok none =
          value-lock t.second t.lock lock_duration db ∙ second in
        let whole : get_or_set of_int redis c k ttl t loader wait fuel db w
            ≡ some (
                unlocked of_int redis c k ttl t loader
                  (compute of_int redis c k ttl t loader (held, w))) =
          ground (
            arith,
            first,
            second',
            free,
            lock_valid,
            set_nx-get t.lock (lock_key c k) locked lock_duration db,
          ) in
        rw whole (unlocked-Computes (held, w))
