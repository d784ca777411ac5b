-- ===== src/Cache/Waiting.antt =====
-- A call of `get_or_set` (kit-data/kit_data/cache.py) that finds the lock held.
use kit_api_optimization.Prelude.{
  ℕ, zero, suc, ◌+◌, ◌*◌, ◌≤◌, ◌<◌, ltb, ltb→lt, ℤ, pos_part, String, ◌≡◌, ◌≢◌, refl, Bool-cases,
  inl, inr, Option, none, some, arith, if◌then◌else◌,
}
use kit_api_optimization.Exceptions.{Result, ok, err, Method}
use kit_api_optimization.Redis.Persistent.{Value}
use kit_api_optimization.Redis.Expiring.{seconds, valid_ttl, Expiring}
use kit_api_optimization.Cache.{
  Cache, lock_key, locked, Wait, Times, get, compute, after_lock, after_miss, wait_until,
  get_or_set,
}
use kit_api_optimization.Cache.Flight.{value_at, lock_at}

-- Each round sleeps for at least 0.05 seconds of the clock.
abbrev pub Sleeps : {Db : Type 0} → Wait Db → Type 0
Sleeps wait = (i : ℕ) → wait.clock i + 50000 ≤ wait.clock (suc i)

module _ {J : Type 0} (of_int : ℤ → J) (redis : Expiring (Option J)) (c : Cache) (k : String)
    {W : Type 0} (ttl : Option ℤ) (t : Times) (loader : Method (redis.Db × W) (Option J))
    (wait : Wait redis.Db) where
  open redis use {Db, set_nx-get}

  -- How a wait may end, from a round on. `late`: the deadline has passed, and the call computes the
  -- value itself. `read`: a value, or an exception of reading it, ends the wait, with the loader's state
  -- untouched. `missed`: the value is still missing after the sleep, and the next round goes on.
  pub data Waits (deadline : ℕ) (w : W)
      : ℕ → Db → Option (Result (Option J) × (Db × W)) → Type 0 where
    late :
        {round : ℕ} {db : Db}
        → deadline ≤ wait.clock round
        → Waits deadline w round db (some (compute of_int redis c k ttl t loader (db, w)))
    read :
        {round : ℕ} {db : Db} {r : Result (Option J)}
        → wait.clock round < deadline
        → value_at of_int redis c k (wait.asked round) (wait.meanwhile round db) ≡ r
        → r ≢ ok none
        → Waits deadline w round db (some (r, (wait.meanwhile round db, w)))
    missed :
        {round : ℕ} {db : Db} {res : Option (Result (Option J) × (Db × W))}
        → wait.clock round < deadline
        → value_at of_int redis c k (wait.asked round) (wait.meanwhile round db) ≡ ok none
        → Waits deadline w (suc round) (wait.meanwhile round db) res
        → Waits deadline w round db res

  -- One round, where `rest` is what the next ones come to.
  abbrev one_round :
      ℕ → ℕ → Db → W → Option (Result (Option J) × (Db × W)) → Option (Result (Option J) × (Db × W))
  one_round deadline round db w rest =
      let db' = wait.meanwhile round db in
      if ltb (wait.clock round) deadline
      then elim (value_at of_int redis c k (wait.asked round) db') [
        | ok found ↦ elim found [ none ↦ rest | some v ↦ some (ok (some v), (db', w)) ]
        | err x ↦ some (err x, (db', w))
      ]
      else some (compute of_int redis c k ttl t loader (db, w))

  one_round-Waits :
      (deadline round : ℕ) (db : Db) (w : W) (rest : Option (Result (Option J) × (Db × W)))
      → (wait.clock round < deadline → Waits deadline w (suc round) (wait.meanwhile round db) rest)
      → Waits deadline w round db (one_round deadline round db w rest)
  one_round-Waits deadline round db w rest next =
      elim (Bool-cases (ltb (wait.clock round) deadline)) [
        | inr over ↦ rw over (late (ground (arith, over)))
        | inl early ↦ rw early (
            go (value_at of_int redis c k (wait.asked round) (wait.meanwhile round db)) refl
              (ltb→lt _ _ early))
      ]
    where
      go :
          (r : Result (Option J))
          → value_at of_int redis c k (wait.asked round) (wait.meanwhile round db) ≡ r
          → wait.clock round < deadline
          → Waits deadline w round db (elim r [
            | ok found ↦ elim found [
              | none ↦ rest
              | some v ↦ some (ok (some v), (wait.meanwhile round db, w))
            ]
            | err x ↦ some (err x, (wait.meanwhile round db, w))
          ])
      go (err x) e early = read early e (λ h. ground (arith, h))
      go (ok (some v)) e early = read early e (λ h. ground (arith, h))
      go (ok none) e early = missed early e (next early)

  wait_until-Waits :
      (deadline fuel round : ℕ) (db : Db) (w : W)
      → Sleeps wait
      → deadline ≤ wait.clock round + 50000 * fuel
      → Waits deadline w round db
          (wait_until of_int redis c k ttl t loader wait deadline (suc fuel) round db w)
  unfolding wait_until
  wait_until-Waits deadline zero round db w sleeps enough =
      one_round-Waits deadline round db w
        (wait_until of_int redis c k ttl t loader wait deadline zero (suc round)
          (wait.meanwhile round db) w)
        (λ early. absurd (omega (arith, enough, early)))
  wait_until-Waits deadline (suc fuel) round db w sleeps enough =
      one_round-Waits deadline round db w
        (wait_until of_int redis c k ttl t loader wait deadline (suc fuel) (suc round)
          (wait.meanwhile round db) w)
        (λ early.
          wait_until-Waits deadline fuel (suc round) (wait.meanwhile round db) w sleeps
            (omega (arith, enough, sleeps round)))

  -- A call that finds the value missing and the lock held waits, and the wait ends: with fuel for one
  -- round more than a sleep of 0.05 seconds fits into `lock_ttl`, it returns or raises what it read in a round
  -- before the deadline, or computes the value itself after it.
  pub get_or_set-Waits :
      (fuel lock_duration : ℕ) (v : Value (Option J)) (db : Db) (w : W)
      → valid_ttl c.lock_ttl ≡ some lock_duration
      → value_at of_int redis c k t.first db ≡ ok none
      → lock_at of_int redis c k t.lock db ≡ some v
      → Sleeps wait
      → t.started ≤ wait.clock 0
      → 20 * pos_part c.lock_ttl ≤ fuel
      → Waits
          (t.started + seconds (pos_part c.lock_ttl))
          w
          0
          db
          (get_or_set of_int redis c k ttl t loader wait (suc fuel) db w)
  unfolding get_or_set after_miss after_lock get
  get_or_set-Waits fuel lock_duration v db w valid first held sleeps begun enough =
      let deadline = t.started + seconds (pos_part c.lock_ttl) in
      let whole : get_or_set of_int redis c k ttl t loader wait (suc fuel) db w
          ≡ wait_until of_int redis c k ttl t loader wait deadline (suc fuel) 0 db w =
        ground
          (arith, first, held, valid, set_nx-get t.lock (lock_key c k) locked lock_duration db) in
      rw whole (wait_until-Waits deadline fuel 0 db w sleeps (omega (arith, begun, enough)))
