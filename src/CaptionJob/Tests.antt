-- ===== src/CaptionJob/Tests.antt =====
-- `CaptionJob` at concrete inputs, on the Redis of `Redis.Memory`.
use kit_api_optimization.Prelude.{
  ℕ, pos, String, ◌≡◌, ◌≢◌, refl, Option, none, some, List, [], ◌∷◌, arith,
}
use kit_api_optimization.Exceptions.{ok, err, media_error, attribute_error}
use kit_api_optimization.Redis.Memory.{store}
use kit_api_optimization.CaptionJob.{
  completed, CaptionResult, JobState, submitted, get_state, poll, get_result, update_status,
}
use kit_api_optimization.CaptionJob.Progress.{update_status-shows}

abbrev job : JobState
job = submitted "j" "https://m" none none

abbrev db : List (String × (JobState × Option ℕ))
db = ("kit:media:caption:j", (job, some 1000)) ∷ []

abbrev transcript : CaptionResult
transcript = record { text = "hello"; segments = []; language = some "en"; duration = none }

-- a job that is completed without a result
without_result :
    (get_result
      (store JobState)
      (pos 60)
      "j"
      5
      (("kit:media:caption:j", (record job { status = completed }, some 1000)) ∷ [])).0
    ≡ err attribute_error
unfolding get_result get_state
without_result = refl

update_status-shows_example :
    let (r, db') =
      update_status (store JobState) (pos 60) "j" completed (some transcript) none 5 6 db in
    (r ≡ ok tt)
    × (poll (store JobState) (pos 60) "j" 7 db' ≡ (ok completed, db'))
    × ((c : CaptionResult)
        → completed ≡ completed
        → some transcript ≡ some c
        → get_result (store JobState) (pos 60) "j" 7 db' ≡ (ok c, db'))
    × (completed ≢ completed
        → get_result (store JobState) (pos 60) "j" 7 db' ≡ (err media_error, db'))
update_status-shows_example =
    update_status-shows (store JobState) 59 "j" completed (some transcript) none 5 6 7 db job refl
      (omega arith)
