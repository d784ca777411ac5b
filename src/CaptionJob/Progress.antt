-- ===== src/CaptionJob/Progress.antt =====
-- What `poll` and `get_result` of `CaptionJob` (kit-media/kit_media/caption_job.py) tell of an update.
use kit_api_optimization.Prelude.{
  ℕ, suc, ◌+◌, ◌<◌, pos, String, eq_refl, ◌≡◌, ◌≢◌, refl, ap, ◌∙◌, Option, none, some, arith,
}
use kit_api_optimization.Exceptions.{ok, err, pure, lift, bind-ok, media_error}
use kit_api_optimization.Redis.Expiring.{seconds}
use kit_api_optimization.Redis.Client.{Store, client_set, expiring_set}
use kit_api_optimization.CaptionJob.{
  JobStatus, pending, processing, completed, failed, CaptionResult, JobState, redis_key, updated,
  result_of, found, get_state, save, poll, get_result, update_status,
}

module _ (redis : Store JobState) (n : ℕ) where
  open redis use {Db, get, setex, get-setex}

  -- a job that stands, seen by the two queries
  seen :
      (id : String) (t : ℕ) (db : Db) (st : JobState)
      → get t (redis_key id) db ≡ some st
      → (poll redis (pos (suc n)) id t db ≡ (ok st.status, db))
        × (get_result redis (pos (suc n)) id t db ≡ (result_of st, db))
  unfolding poll get_result get_state
  seen id t db st h =
      let standing = ap (λ o. (found o, db)) h in
      (
        bind-ok (get_state redis (pos (suc n)) id t) (λ st'. pure st'.status) standing,
        bind-ok (get_state redis (pos (suc n)) id t) (λ st'. lift (result_of st')) standing,
      )

  save-eq :
      (id : String) (st : JobState) (later : ℕ) (db : Db)
      → save redis (pos (suc n)) id st later db
        ≡ (ok tt, setex later (redis_key id) st (seconds (suc n)) db)
  unfolding save client_set expiring_set
  save-eq id st later db = ground arith

  update_status-eq :
      (id : String) (status : JobStatus) (result : Option CaptionResult) (error : Option String)
      (now later : ℕ) (db : Db) (st : JobState)
      → get now (redis_key id) db ≡ some st
      → update_status redis (pos (suc n)) id status result error now later db
        ≡ (ok tt, setex later (redis_key id) (updated status result error st) (seconds (suc n)) db)
  unfolding update_status get_state
  update_status-eq id status result error now later db st h =
      bind-ok (get_state redis (pos (suc n)) id now)
        (λ st'. save redis (pos (suc n)) id (updated status result error st') later)
        (ap (λ o. (found o, db)) h)
      ∙ save-eq id (updated status result error st) later db

  status-updated :
      (status : JobStatus) (result : Option CaptionResult) (error : Option String) (st : JobState)
      → (updated status result error st).status ≡ status
  status-updated status none none st = refl
  status-updated status (some c) none st = refl
  status-updated status none (some e) st = ground arith
  status-updated status (some c) (some e) st = ground arith

  result-updated :
      (status : JobStatus) (c : CaptionResult) (error : Option String) (st : JobState)
      → (updated status (some c) error st).result ≡ some c
  result-updated status c none st = refl
  result-updated status c (some e) st = ground arith

  unfinished : (st : JobState) → st.status ≢ completed → result_of st ≡ err media_error
  unfinished st h = go st.status refl
    where
      go : (s : JobStatus) → st.status ≡ s → result_of st ≡ err media_error
      go pending e = rw e refl
      go processing e = rw e refl
      go failed e = rw e refl
      go completed e = absurd (h e)

  finished :
      (st : JobState) (c : CaptionResult)
      → st.status ≡ completed
      → st.result ≡ some c
      → result_of st ≡ ok c
  finished st c done given = rw (done, given) refl

  -- An update of a job that stands is stored, and until the time to live is over `poll` answers with
  -- its status; `get_result` answers with its result, if the status is COMPLETED and a result is given,
  -- and raises `MediaError` if the status is another. The time to live is positive.
  pub update_status-shows :
      (id : String) (status : JobStatus) (result : Option CaptionResult) (error : Option String)
      (now later t : ℕ) (db : Db) (st : JobState)
      → get now (redis_key id) db ≡ some st
      → t < later + seconds (suc n)
      → let (r, db') = update_status redis (pos (suc n)) id status result error now later db in
        (r ≡ ok tt)
        × (poll redis (pos (suc n)) id t db' ≡ (ok status, db'))
        × ((c : CaptionResult)
            → status ≡ completed
            → result ≡ some c
            → get_result redis (pos (suc n)) id t db' ≡ (ok c, db'))
        × (status ≢ completed → get_result redis (pos (suc n)) id t db' ≡ (err media_error, db'))
  update_status-shows id status result error now later t db st h soon =
      let st' = updated status result error st in
      let db' = setex later (redis_key id) st' (seconds (suc n)) db in
      let stands : get t (redis_key id) db' ≡ some st' = ground (
        arith,
        get-setex later t (redis_key id) (redis_key id) st' (seconds (suc n)) db,
        eq_refl (redis_key id),
        soon,
      ) in
      let (polled, got) = seen id t db' st' stands in
      let kept = status-updated status result error st in
      rw (update_status-eq id status result error now later db st h) (
        refl,
        polled ∙ ap (λ s. (ok s, db')) kept,
        λ c done given.
            got
            ∙ ap (λ r. (r, db'))
                (finished st' c (kept ∙ done) (
                  ap (λ r. (updated status r error st).result) given
                  ∙ result-updated status c error st)),
        λ other. got ∙ ap (λ r. (r, db')) (unfinished st' (λ e. other (cc (kept, e)))),
      )
