-- ===== src/ChunkedUploader/Tests.antt =====
-- `ChunkedUploader` at concrete inputs, on the Redis of `Redis.Memory`, with an adapter that counts the
-- parts it has taken.
use kit_api_optimization.Prelude.{
  ℕ, ◌+◌, ℤ, pos, int_eq, String, lookup, length, ◌≡◌, refl, Option, none, some, List, [], ◌∷◌,
}
use kit_api_optimization.Exceptions.{ok}
use kit_api_optimization.Redis.Memory.{store}
use kit_api_optimization.ChunkedUploader.{
  UploadState, in_progress, completed, StorageAdapter, Times, upload_part, complete,
}
use kit_api_optimization.ChunkedUploader.Sort.{Ascending}
use kit_api_optimization.ChunkedUploader.Upload.{
  HasPart, day, hour, upload_part-stores, complete-Ascending,
}
use kit_api_optimization.ChunkedUploader.Session.{AllCount, Call, Keeps, run, run-AllCount}
use kit_api_optimization.ChunkedUploader.Session as Session

abbrev Db : Type 0
Db = List (String × (UploadState × Option ℕ))

abbrev adapter : StorageAdapter (Db × ℕ)
adapter = record {
  initiate_multipart_upload = λ b k c s. (ok "u", s);
  upload_part = λ b k id n d s. (ok "tag", (s.0, s.1 + 1));
  complete_multipart_upload = λ b k id parts s. (ok "location", s);
  abort_multipart_upload = λ b k id s. (ok tt, s);
}

abbrev two_parts : UploadState
two_parts = record {
  bucket = "b";
  key = "k";
  content_type = "video/mp4";
  status = in_progress;
  total_parts = pos 0;
  completed_parts = 2;
  parts = (pos 2, "t2") ∷ (pos 1, "t1") ∷ [];
}

abbrev db : Db
db = ("kit:media:upload:u", (two_parts, some 1000)) ∷ []

abbrev times : Times
times = record { read = 1; written = 2 }

upload_part-stores_example :
    (st' : UploadState) × (upload_part (store UploadState) adapter "u" (pos 3) [] times (db, 0)
      ≡ (ok "tag", ((store UploadState).setex 2 "kit:media:upload:u" st' day db, 1)))
    × HasPart (pos 3) "tag" two_parts st'
upload_part-stores_example =
    upload_part-stores (store UploadState) adapter "u" (pos 3) [] times db 0 two_parts "tag" db 1
      refl refl

complete-Ascending_example :
    (parts : List (ℤ × String)) × Ascending parts
    × ((n : ℤ) → lookup n parts ≡ lookup n two_parts.parts)
    × (length parts ≡ length two_parts.parts)
    × (adapter.complete_multipart_upload "b" "k" "u" parts (db, 0) ≡ (ok "location", (db, 0))
        → complete (store UploadState) adapter "u" none times (db, 0) ≡ (
          ok "location",
          (
            (store UploadState).setex 2 "kit:media:upload:u"
                (record two_parts { status = completed })
                hour
                db,
            0,
          ),
        ))
complete-Ascending_example =
    complete-Ascending (store UploadState) adapter "u" times db 0 two_parts "location" db 0 refl
      (refl, (refl, tt))

adapter-Keeps : Keeps (store UploadState) adapter
adapter-Keeps = record {
  initiates = λ b k c s all. all;
  uploads = λ b k id n d s all. all;
  completes = λ b k id parts s all. all;
  aborts = λ b k id s all. all;
}

abbrev calls : List Call
calls =
    Session.initiated "b" "k" "video/mp4" none 1
    ∷ Session.uploaded "u" (pos 2) [] times
    ∷ Session.uploaded "u" (pos 1) [] times
    ∷ Session.closed "u" none times
    ∷ []

run-AllCount_example :
    AllCount (store UploadState) (run (store UploadState) adapter adapter-Keeps calls ([], 0))
run-AllCount_example =
    run-AllCount (store UploadState) adapter adapter-Keeps calls ([], 0)
      (λ id t st h. absurd (cc h))
