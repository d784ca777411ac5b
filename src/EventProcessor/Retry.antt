-- ===== src/EventProcessor/Retry.antt =====
-- `retry_failed` of `EventProcessor` (kit-pay/kit_pay/event_processor.py): that its loop ends, and
-- where the records go.
use mathlib.Core.List.{append-nil, append_assoc}
use kit_api_optimization.Prelude.{
  ℕ, zero, suc, ◌+◌, ◌<◌, leb, String, eq_refl, length, Bool-cases, inl, inr, ◌≡◌, refl, ap, ◌∙◌,
  Option, some, List, [], ◌∷◌, ◌++◌, map, arith, if◌then◌else◌,
}
use kit_api_optimization.Redis.Queues.{Queues}
use kit_api_optimization.EventProcessor.{
  EventData, RecordData, max_retries, failed_key, incr_metric, requeued, retry, retry_round,
  retry_loop, retry_failed,
}
use kit_api_optimization.EventProcessor.Rounds.{
  waiting, failures, dead_letters, key-eq, rpop-some, rpop-none,
}

-- The records of a list that have attempts left, and those that have not.
pub again : {J : Type 0} → List (RecordData J) → List (RecordData J)
again [] = []
again (d ∷ ds) = let more = again ds in if leb max_retries d.attempts then more else d ∷ more

pub spent : {J : Type 0} → List (RecordData J) → List (RecordData J)
spent [] = []
spent (d ∷ ds) = let more = spent ds in if leb max_retries d.attempts then d ∷ more else more

-- What stays of a record when it is put back: the event, its attempts, the last error and the time of
-- its creation.
abbrev pub kept : {J : Type 0} → RecordData J → EventData J × (ℕ × (Option String × ℕ))
kept d = (d.event, (d.attempts, (d.last_error, d.created_at)))

module _ {J : Type 0} (redis : Queues (RecordData J)) (prefix : String)
    (utf8 : List ℕ → Option String) where
  open redis use {
    Db, queue, lpush, rpop, queue-lpush, counter-lpush, queue-rpop, counter-rpop, queue-incr,
    counter-incr,
  }

  -- What `retry_failed` makes of a database: the number that it has put back, and where the records
  -- stand.
  pub record Requeues (before : Db) (f : List (RecordData J)) (count : ℕ) (after : Db)
      : Type 0 where
    pub number : count ≡ length (again f)
    pub emptied : failures redis prefix utf8 after ≡ []
    pub put_back :
        map kept (waiting redis prefix utf8 after)
        ≡ map kept (waiting redis prefix utf8 before ++ again f)
    pub buried :
        dead_letters redis prefix utf8 after ≡ dead_letters redis prefix utf8 before ++ spent f

  retry-failures :
      (d : RecordData J) (now count : ℕ) (db : Db)
      → failures redis prefix utf8 (retry redis prefix utf8 d now count db).1
        ≡ failures redis prefix utf8 db
  unfolding retry incr_metric
  retry-failures d now count db = elim (Bool-cases (leb max_retries d.attempts)) [
    | inl last ↦ simp (last, queue-incr, queue-lpush, key-eq redis prefix utf8) refl
    | inr more ↦ simp (more, queue-incr, queue-lpush, key-eq redis prefix utf8) refl
  ]

  retry-waiting :
      (d : RecordData J) (now count : ℕ) (db : Db)
      → waiting redis prefix utf8 (retry redis prefix utf8 d now count db).1 ≡ (
          if leb max_retries d.attempts
          then waiting redis prefix utf8 db
          else waiting redis prefix utf8 db ++ requeued redis prefix utf8 d now ∷ [])
  unfolding retry incr_metric
  retry-waiting d now count db = elim (Bool-cases (leb max_retries d.attempts)) [
    | inl last ↦ simp (last, queue-incr, queue-lpush, key-eq redis prefix utf8) refl
    | inr more ↦ simp (more, queue-incr, queue-lpush, key-eq redis prefix utf8) refl
  ]

  retry-dead_letters :
      (d : RecordData J) (now count : ℕ) (db : Db)
      → dead_letters redis prefix utf8 (retry redis prefix utf8 d now count db).1 ≡ (
          if leb max_retries d.attempts
          then dead_letters redis prefix utf8 db ++ d ∷ []
          else dead_letters redis prefix utf8 db)
  unfolding retry incr_metric
  retry-dead_letters d now count db = elim (Bool-cases (leb max_retries d.attempts)) [
    | inl last ↦ simp (last, queue-incr, queue-lpush, key-eq redis prefix utf8) refl
    | inr more ↦ simp (more, queue-incr, queue-lpush, key-eq redis prefix utf8) refl
  ]

  retry-count :
      (d : RecordData J) (now count : ℕ) (db : Db)
      → (retry redis prefix utf8 d now count db).0
        ≡ (if leb max_retries d.attempts then count else count + 1)
  unfolding retry
  retry-count d now count db = elim (Bool-cases (leb max_retries d.attempts)) [
    | inl last ↦ simp last refl
    | inr more ↦ simp more refl
  ]

  pub retry_some :
      (fuel i count : ℕ) (clock : ℕ → ℕ) (db : Db) {d : RecordData J} {ds : List (RecordData J)}
      → failures redis prefix utf8 db ≡ d ∷ ds
      → let (count', db') =
          retry redis prefix utf8 d (clock i) count (rpop (failed_key redis prefix utf8) db).1 in
        retry_loop redis prefix utf8 (suc fuel) i clock count db
        ≡ retry_loop redis prefix utf8 fuel (i + 1) clock count' db'
  unfolding retry_loop retry_round
  retry_some fuel i count clock db h =
      ap
        (retry_round redis prefix utf8 (clock i) count
          (retry_loop redis prefix utf8 fuel (i + 1) clock))
        (rpop-some redis prefix utf8 (failed_key redis prefix utf8) db h)

  pub retry_none :
      (fuel i count : ℕ) (clock : ℕ → ℕ) (db : Db)
      → failures redis prefix utf8 db ≡ []
      → retry_loop redis prefix utf8 (suc fuel) i clock count db
        ≡ some (count, (rpop (failed_key redis prefix utf8) db).1)
  unfolding retry_loop retry_round
  retry_none fuel i count clock db h =
      ap
        (retry_round redis prefix utf8 (clock i) count
          (retry_loop redis prefix utf8 fuel (i + 1) clock))
        (rpop-none redis prefix utf8 (failed_key redis prefix utf8) db h)

  kept-requeued :
      (xs ys : List (RecordData J)) (d : RecordData J) (now : ℕ)
      → map kept (xs ++ requeued redis prefix utf8 d now ∷ ys) ≡ map kept (xs ++ d ∷ ys)
  kept-requeued [] ys d now = refl
  kept-requeued (x ∷ xs) ys d now = ap (λ l. kept x ∷ l) (kept-requeued xs ys d now)

  none_left :
      (db : Db)
      → failures redis prefix utf8 db ≡ []
      → Requeues db [] 0 (rpop (failed_key redis prefix utf8) db).1
  unfolding again spent
  none_left db h = record {
    number = refl;
    emptied = simp (queue-rpop, h) (ground (arith, eq_refl (failed_key redis prefix utf8)));
    put_back = simp (queue-rpop, key-eq redis prefix utf8, append-nil) refl;
    buried = simp (queue-rpop, key-eq redis prefix utf8, append-nil) refl;
  }

  one_more :
      (d : RecordData J) (ds : List (RecordData J)) (now count c : ℕ) (db after : Db)
      → let (_, db2) =
          retry redis prefix utf8 d now count (rpop (failed_key redis prefix utf8) db).1 in
        Requeues db2 ds c after
        → Requeues db (d ∷ ds) (if leb max_retries d.attempts then c else suc c) after
  unfolding again spent
  one_more d ds now count c db after r =
      let k = key-eq redis prefix utf8 in
      elim (Bool-cases (leb max_retries d.attempts)) [
        | inl last ↦ record {
          number = rw last r.number;
          emptied = r.emptied;
          put_back = rw last (r.put_back ∙ simp (retry-waiting, last, queue-rpop, k) refl);
          buried = rw last (
              r.buried
              ∙ simp (retry-dead_letters, last, queue-rpop, k)
                  (append_assoc (dead_letters redis prefix utf8 db) (d ∷ []) (spent ds)));
        }
        | inr more ↦ record {
          number = rw more (ap suc r.number);
          emptied = r.emptied;
          put_back = rw more (
              r.put_back
              ∙ simp (retry-waiting, more, queue-rpop, k, append_assoc)
                  (kept-requeued (waiting redis prefix utf8 db) (again ds) d now));
          buried = rw more (r.buried ∙ simp (retry-dead_letters, more, queue-rpop, k) refl);
        }
      ]

  failures_after :
      (d : RecordData J) (ds : List (RecordData J)) (now count : ℕ) (db : Db)
      → failures redis prefix utf8 db ≡ d ∷ ds
      → failures redis prefix utf8
          (retry redis prefix utf8 d now count (rpop (failed_key redis prefix utf8) db).1).1
        ≡ ds
  failures_after d ds now count db h =
      simp (retry-failures, queue-rpop, h) (ground (arith, eq_refl (failed_key redis prefix utf8)))

  count_after :
      (d : RecordData J) (ds : List (RecordData J)) (now count c : ℕ) (db : Db)
      → (retry redis prefix utf8 d now count db).0 + c
        ≡ count + (if leb max_retries d.attempts then c else suc c)
  count_after d ds now count c db = ground (arith, retry-count d now count db)

  retry_loop_lem :
      (f : List (RecordData J)) (fuel i count : ℕ) (clock : ℕ → ℕ) (db : Db)
      → failures redis prefix utf8 db ≡ f
      → length f < fuel
      → (c : ℕ) × (after : Db) × (retry_loop redis prefix utf8 fuel i clock count db
          ≡ some (count + c, after))
        × Requeues db f c after
  retry_loop_lem f zero i count clock db h enough = absurd (omega (arith, enough))
  retry_loop_lem [] (suc fuel) i count clock db h enough = (
    0,
    (rpop (failed_key redis prefix utf8) db).1,
    retry_none fuel i count clock db h
        ∙ ap (λ n. some (n, (rpop (failed_key redis prefix utf8) db).1)) (omega arith),
    none_left db h,
  )
  retry_loop_lem (d ∷ ds) (suc fuel) i count clock db h enough =
      let db1 = (rpop (failed_key redis prefix utf8) db).1 in
      let (count', db2) = retry redis prefix utf8 d (clock i) count db1 in
      let (c, after, ends, r) =
        retry_loop_lem ds fuel (i + 1) count' clock db2 (failures_after d ds (clock i) count db h)
          (omega (arith, enough)) in
      (
        (if leb max_retries d.attempts then c else suc c),
        after,
        retry_some fuel i count clock db h
            ∙ ends
            ∙ ap (λ n. some (n, after)) (count_after d ds (clock i) count c db1),
        one_more d ds (clock i) count c db after r,
      )

  -- `retry_failed` ends, on every database, with fuel for one round more than there are failed
  -- records. It empties the list of these: the records that have attempts left stand at the end of the
  -- queue, in their order and with their attempts, the others at the end of the dead letters, and the
  -- answer is the number of the former.
  pub retry_failed-Requeues :
      (fuel : ℕ) (clock : ℕ → ℕ) (db : Db)
      → length (failures redis prefix utf8 db) < fuel
      → (count : ℕ) × (after : Db) × (retry_failed redis prefix utf8 fuel clock db
          ≡ some (count, after))
        × Requeues db (failures redis prefix utf8 db) count after
  unfolding retry_failed
  retry_failed-Requeues fuel clock db enough =
      let (c, after, ends, r) =
        retry_loop_lem (failures redis prefix utf8 db) fuel 0 0 clock db refl enough in
      (c, after, ends ∙ ap (λ n. some (n, after)) (omega arith), r)
