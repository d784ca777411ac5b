-- ===== src/WebhookReceiver/Dedup.antt =====
-- What `process` of `WebhookReceiver` (kit-pay/kit_pay/webhook_receiver.py) does to an event: which
-- handlers run, and when the event is skipped.
use mathlib.Core.List.{append-nil, append_assoc}
use kit_api_optimization.Prelude.{
  ℕ, ◌+◌, ◌<◌, String, eq_refl, Eq, Bool, true, false, Bool-cases, inl, inr, ◌≡◌, refl, sym, ap,
  ◌∙◌, Option, none, some, List, [], ◌∷◌, ◌++◌, arith,
}
use kit_api_optimization.Exceptions.{Error, Result, ok, err}
use kit_api_optimization.Redis.Expiring.{Expiring}
use kit_api_optimization.WebhookReceiver.{
  success, failed, skipped, WebhookEvent, ProcessResult, Json, Handler, Handlers, seen, is_seen,
  day, run_handlers, handlers_of, result, dedup_key, mark, settle, dispatch, dispatch_found,
  process,
}

module _ {J R W : Type 0} where
  -- Handlers run one after another on an event, each on the state that the one before has left, until
  -- one raises: the results of those that returned, the exception, and the last state.
  pub data Dispatch (event : WebhookEvent J)
      : List (Handler J R W) → W → List R → Option Error → W → Type 0 where
    done : {w : W} → Dispatch event [] w [] none w
    returned :
        {h : Handler J R W} {hs : List (Handler J R W)} {w w1 w2 : W} {a : R} {rs : List R}
        {e : Option Error}
        → h event w ≡ (ok a, w1)
        → Dispatch event hs w1 rs e w2
        → Dispatch event (h ∷ hs) w (a ∷ rs) e w2
    raised :
        {h : Handler J R W} {hs : List (Handler J R W)} {w w1 : W} {x : Error}
        → h event w ≡ (err x, w1)
        → Dispatch event (h ∷ hs) w [] (some x) w1

  -- The loop over the handlers is such a run, with the results after those that it starts with.
  Ran : List (Handler J R W) → WebhookEvent J → List R → W → (List R × Option Error) × W → Type 0
  Ran hs event acc w ((results, e), w') =
      (rs : List R) × (results ≡ acc ++ rs) × Dispatch event hs w rs e w'

  run_handlers-Ran :
      (hs : List (Handler J R W)) (event : WebhookEvent J) (acc : List R) (w : W)
      → Ran hs event acc w (run_handlers hs event acc w)
  unfolding Ran run_handlers
  run_handlers-Ran [] event acc w = ([], sym (append-nil acc), done)
  run_handlers-Ran (h ∷ hs) event acc w =
      go (λ acc' w'. run_handlers-Ran hs event acc' w') (h event w) refl
    where
      go :
          ((acc' : List R) (w' : W) → Ran hs event acc' w' (run_handlers hs event acc' w'))
          → (p : Result R × W) → h event w ≡ p
          → Ran (h ∷ hs) event acc w (elim p.0 [
            | ok a ↦ run_handlers hs event (acc ++ a ∷ []) p.1
            | err x ↦ ((acc, some x), p.1)
          ])
      go ih (err x, w1) ran = ([], sym (append-nil acc), raised ran)
      go ih (ok a, w1) ran =
          let (rs, same, rest) = ih (acc ++ a ∷ []) w1 in
          (a ∷ rs, same ∙ append_assoc acc (a ∷ []) rs, returned ran rest)

module _ {J D : Type 0} (redis : Expiring D) (json : Json J) (prefix : String) where
  open redis use {Db}

  -- What stands under the key of an event at a time.
  abbrev pub seen_at : WebhookEvent J → ℕ → Db → Bool
  seen_at event t db = is_seen (redis.get t (dedup_key redis json prefix event) db)

  -- A mark stands for a day.
  pub seen_at-mark :
      (event : WebhookEvent J) (later t : ℕ) (db : Db)
      → t < later + day
      → seen_at event t (mark redis json prefix event later db) ≡ true
  unfolding mark
  seen_at-mark event later t db h =
      let k = dedup_key redis json prefix event in
      rw (redis.get-set_ex later t k k seen day db, eq_refl k) (ground (arith, h))

  module _ {R W : Type 0} ⦃e : Eq J⦄ (handlers : Handlers J R W) (event : WebhookEvent J) where
    -- What the handlers of an event may come to: the event is marked if none raised.
    abbrev pub Finishes : ℕ → Db → List R → Option Error → ProcessResult J R → Db → Type 0
    Finishes later db rs none r db' =
        (r ≡ result event success rs none) × (db' ≡ mark redis json prefix event later db)
    Finishes later db rs (some x) r db' =
        (r ≡ result event failed rs (some (json.message x))) × (db' ≡ db)

    abbrev Runs :
        Result (List (Handler J R W)) → ℕ → Db → W → Result (ProcessResult J R) × (Db × W) → Type 0
    Runs (err x) later db w (r, (db', w')) = (r ≡ err x) × (db' ≡ db) × (w' ≡ w)
    Runs (ok hs) later db w (r, (db', w')) =
        (answer : ProcessResult J R) × (rs : List R) × (x : Option Error) × (r ≡ ok answer)
        × Dispatch event hs w rs x w'
        × Finishes later db rs x answer db'

    -- What `process` may come to, by whether the event is marked: it is skipped; or its handlers are looked
    -- up, and run.
    abbrev pub Processes : Bool → ℕ → Db → W → Result (ProcessResult J R) × (Db × W) → Type 0
    Processes true later db w (r, (db', w')) =
        (r ≡ ok (result event skipped [] (some "duplicate event"))) × (db' ≡ db) × (w' ≡ w)
    Processes false later db w p = Runs (handlers_of json handlers event) later db w p

    settle_lem :
        (later : ℕ) (db : Db) (w : W) (hs : List (Handler J R W)) (p : (List R × Option Error) × W)
        → Ran hs event [] w p
        → let (r, (db', w')) = settle redis json prefix event later db p in
          (rs : List R) × (x : Option Error) × Dispatch event hs w rs x w'
          × Finishes later db rs x r db'
    unfolding Ran settle mark
    settle_lem later db w hs ((results, none), w') (rs, same, runs) =
        (rs, none, runs, (rw same refl, refl))
    settle_lem later db w hs ((results, some x), w') (rs, same, runs) =
        (rs, some x, runs, (rw same refl, refl))

    unmarked :
        (later : ℕ) (db : Db) (w : W) (hs : List (Handler J R W))
        → let (r, (db', w')) = dispatch redis json prefix event later db w hs in
          (rs : List R) × (x : Option Error) × Dispatch event hs w rs x w'
          × Finishes later db rs x r db'
    unfolding dispatch
    unmarked later db w [] = ([], none, done, (refl, refl))
    unmarked later db w (h ∷ hs) =
        settle_lem later db w (h ∷ hs) (run_handlers (h ∷ hs) event [] w)
          (run_handlers-Ran (h ∷ hs) event [] w)

    dispatch_found-Runs :
        (found : Result (List (Handler J R W))) (later : ℕ) (db : Db) (w : W)
        → Runs found later db w (dispatch_found redis json prefix event later db w found)
    unfolding dispatch_found
    dispatch_found-Runs (err x) later db w = (refl, refl, refl)
    dispatch_found-Runs (ok hs) later db w =
        let (rs, x, runs, finishes) = unmarked later db w hs in
        ((dispatch redis json prefix event later db w hs).0, rs, x, refl, runs, finishes)

    -- `process` skips an event that is marked, and changes nothing. For any other it runs the handlers
    -- of its type in the order of their registration until one raises, and answers with the results of
    -- those that returned: if none raised it marks the event and answers SUCCESS, otherwise it leaves
    -- Redis alone and answers FAILED with the text of the exception. A type that cannot be hashed raises.
    pub process-Processes :
        (now later : ℕ) (db : Db) (w : W)
        → Processes
            (seen_at event now db)
            later
            db
            w
            (process redis json prefix handlers event now later (db, w))
    unfolding process
    process-Processes now later db w = elim (Bool-cases (seen_at event now db)) [
      | inl marked ↦ rw marked (refl, refl, refl)
      | inr new ↦ rw new (dispatch_found-Runs (handlers_of json handlers event) later db w)
    ]

    skips :
        (t after : ℕ) (db : Db) (w : W)
        → seen_at event t db ≡ true
        → process redis json prefix handlers event t after (db, w)
          ≡ (ok (result event skipped [] (some "duplicate event")), (db, w))
    unfolding process
    skips t after db w marked = rw marked refl

    finished_by :
        (later : ℕ) (db db' : Db) (rs : List R) (x : Option Error) (answer : ProcessResult J R)
        → Finishes later db rs x answer db'
        → answer.status ≡ success
        → db' ≡ mark redis json prefix event later db
    finished_by later db db' rs none answer h won = h.1
    finished_by later db db' rs (some x) answer h won = absurd (cc (ap (λ r. r.status) h.0, won))

    ran_by :
        (found : Result (List (Handler J R W))) (later : ℕ) (db : Db) (w : W)
        (p : Result (ProcessResult J R) × (Db × W)) (answer : ProcessResult J R)
        → Runs found later db w p
        → p.0 ≡ ok answer
        → answer.status ≡ success
        → p.1.0 ≡ mark redis json prefix event later db
    ran_by (err x) later db w p answer h came won = absurd (cc (h.0, came))
    ran_by (ok hs) later db w p answer (answer', rs, x, came', runs, h) came won =
        finished_by later db p.1.0 rs x answer' h (cc (came, came', won))

    marked_by :
        (b : Bool) (later : ℕ) (db : Db) (w : W) (p : Result (ProcessResult J R) × (Db × W))
        (answer : ProcessResult J R)
        → Processes b later db w p
        → p.0 ≡ ok answer
        → answer.status ≡ success
        → p.1.0 ≡ mark redis json prefix event later db
    marked_by true later db w p answer h came won =
        let same : result event skipped [] (some "duplicate event") ≡ answer = cc (h.0, came) in
        absurd (cc (ap (λ r. r.status) same, won))
    marked_by false later db w p answer h came won =
        ran_by (handlers_of json handlers event) later db w p answer h came won

    -- An event that `process` has answered with SUCCESS is not processed again for a day after its
    -- mark was set: a second call for it runs no handler, changes nothing and answers SKIPPED.
    pub process_once :
        (now later again after : ℕ) (db : Db) (w : W) (answer : ProcessResult J R)
        → let (r, (db', w')) = process redis json prefix handlers event now later (db, w) in
          r ≡ ok answer
          → answer.status ≡ success
          → again < later + day
          → process redis json prefix handlers event again after (db', w')
            ≡ (ok (result event skipped [] (some "duplicate event")), (db', w'))
    process_once now later again after db w answer came won soon =
        let (r, (db', w')) = process redis json prefix handlers event now later (db, w) in
        let marked =
          marked_by (seen_at event now db) later db w (r, (db', w')) answer
            (process-Processes now later db w) came won in
        skips again after db' w'
          (ap (seen_at event again) marked ∙ seen_at-mark event later again db soon)
