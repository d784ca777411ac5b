-- ===== src/CaptionJob.antt =====
-- kit-media/kit_media/caption_job.py: `CaptionJob` over the client of Redis. Times are whole
-- microseconds; those of a caption are too.
pub mod Progress
mod Tests
use kit_api_optimization.Prelude.{
  ℕ, ℤ, String, ◌==◌, join, Option, none, some, List, [], ◌∷◌, if◌then◌else◌,
}
use kit_api_optimization.Exceptions.{
  Result, ok, err, Method, pure, lift, ◌>>=◌, ◌>>◌, media_error, attribute_error,
}
use kit_api_optimization.Redis.Client.{Store, client_set}

pub data JobStatus : Type 0 where
  pending processing completed failed : JobStatus

pub record CaptionSegment : Type 0 where
  pub start : ℕ
  pub end_ : ℕ
  pub text : String

-- the result of a job, and the dictionary that is stored of it
pub record CaptionResult : Type 0 where
  pub text : String
  pub segments : List CaptionSegment
  pub language : Option String
  pub duration : Option ℕ

-- the document of a job
pub record JobState : Type 0 where
  pub job_id : String
  pub media_url : String
  pub language : Option String
  pub callback_url : Option String
  pub status : JobStatus
  pub result : Option CaptionResult
  pub error : Option String

abbrev pub redis_key : String → String
redis_key job_id = join ("kit:media:caption:" ∷ job_id ∷ [])

abbrev pub submitted : String → String → Option String → Option String → JobState
submitted job_id media_url language callback_url = record {
  job_id = job_id;
  media_url = media_url;
  language = language;
  callback_url = callback_url;
  status = pending;
  result = none;
  error = none;
}

-- `if result`
abbrev pub given_result : Option CaptionResult → JobState → JobState
given_result none st = st
given_result (some r) st = record st { result = some r }

-- `if error`
abbrev pub given_error : Option String → JobState → JobState
given_error none st = st
given_error (some e) st = if e == "" then st else record st { error = some e }

-- the document once its status is updated
abbrev pub updated : JobStatus → Option CaptionResult → Option String → JobState → JobState
updated status result error st =
    given_error error (given_result result (record st { status = status }))

-- `state["result"]` of a completed job, where None has no `get`
abbrev pub stored_result : Option CaptionResult → Result CaptionResult
stored_result none = err attribute_error
stored_result (some r) = ok r

-- by the status
abbrev pub result_of : JobState → Result CaptionResult
result_of st = elim st.status [
  | pending ↦ err media_error
  | processing ↦ err media_error
  | completed ↦ stored_result st.result
  | failed ↦ err media_error
]

abbrev pub found : Option JobState → Result JobState
found none = err media_error
found (some st) = ok st

module _ (redis : Store JobState) (job_ttl : ℤ) where
  open redis use {Db}

  unfoldable pub get_state : String → ℕ → Method Db JobState
  get_state job_id now db = (found (redis.get now (redis_key job_id) db), db)

  unfoldable pub save : String → JobState → ℕ → Method Db (Unit {0})
  save job_id st now = client_set redis (redis_key job_id) st (some job_ttl) now

  -- `job_id` is what `uuid4` draws
  unfoldable pub submit : String → String → Option String → Option String → ℕ → Method Db String
  unfolding save
  submit job_id media_url language callback_url now = do
    save job_id (submitted job_id media_url language callback_url) now
    pure job_id

  unfoldable pub poll : String → ℕ → Method Db JobStatus
  unfolding get_state
  poll job_id now = do st ← get_state job_id now; pure st.status

  unfoldable pub get_result : String → ℕ → Method Db CaptionResult
  unfolding get_state
  get_result job_id now = do st ← get_state job_id now; lift (result_of st)

  -- `now` and `later` are the times of GET and SET
  unfoldable pub update_status :
      String → JobStatus → Option CaptionResult → Option String → ℕ → ℕ → Method Db (Unit {0})
  unfolding get_state save
  update_status job_id status result error now later = do
    st ← get_state job_id now
    save job_id (updated status result error st) later
