-- ===== src/ChunkedUploader.antt =====
-- kit-media/kit_media/chunked_upload.py: `ChunkedUploader` over a Redis and a storage adapter that are
-- parameters. Each call of the adapter is awaited, so other tasks may run meanwhile: it is a method on
-- Redis and on a state of its own, and what others send to Redis while it runs is part of it. The keys
-- of `parts` are the decimal texts of the part numbers in the document; here they are the numbers.
pub mod Sort
pub mod Upload
pub mod Session
mod Tests
use kit_api_optimization.Prelude.{
  ℕ, ◌+◌, ℤ, pos, leb_ℤ, int_eq, String, join, Dict, insert, length, Option, none, some, List, [],
  ◌∷◌, if◌then◌else◌,
}
use kit_api_optimization.Exceptions.{
  Result, ok, err, Method, pure, raise, lift, ◌>>=◌, ◌>>◌, media_error,
}
use kit_api_optimization.Redis.Client.{Store, client_set}

pub data UploadStatus : Type 0 where
  initiated in_progress completed aborted : UploadStatus

-- the document of an upload
pub record UploadState : Type 0 where
  pub bucket : String
  pub key : String
  pub content_type : String
  pub status : UploadStatus
  pub total_parts : ℤ
  pub completed_parts : ℕ
  pub parts : Dict ℤ String

pub record UploadProgress : Type 0 where
  pub upload_id : String
  pub bucket : String
  pub key : String
  pub total_parts : ℤ
  pub completed_parts : ℕ
  pub status : UploadStatus

-- The methods of `StorageAdapter` that the uploader calls, on a state `S`; an argument is written as
-- the source passes it: bucket, key, and then the others.
pub record StorageAdapter (S : Type 0) : Type 0 where
  pub initiate_multipart_upload : String → String → String → Method S String
  pub upload_part : String → String → String → ℤ → List ℕ → Method S String
  pub complete_multipart_upload : String → String → String → List (ℤ × String) → Method S String
  pub abort_multipart_upload : String → String → String → Method S (Unit {0})

-- `sorted(..., key=lambda x: int(x[0]))`, which keeps the order of equal keys
abbrev pub insert_sorted : ℤ × String → List (ℤ × String) → List (ℤ × String)
insert_sorted p [] = p ∷ []
insert_sorted p (q ∷ rest) =
    let later = insert_sorted p rest in if leb_ℤ p.0 q.0 then p ∷ q ∷ rest else q ∷ later

abbrev pub sorted_parts : Dict ℤ String → List (ℤ × String)
sorted_parts [] = []
sorted_parts (p ∷ parts) = insert_sorted p (sorted_parts parts)

abbrev pub redis_key : String → String
redis_key upload_id = join ("kit:media:upload:" ∷ upload_id ∷ [])

abbrev pub or_zero : Option ℤ → ℤ
or_zero none = pos 0
or_zero (some n) = n

abbrev pub initial : String → String → String → Option ℤ → UploadState
initial bucket key content_type expected_parts = record {
  bucket = bucket;
  key = key;
  content_type = content_type;
  status = initiated;
  total_parts = or_zero expected_parts;
  completed_parts = 0;
  parts = [];
}

-- the state once a part is uploaded
abbrev pub with_part : ℤ → String → UploadState → UploadState
with_part part_number etag st = record st {
  parts = insert part_number etag st.parts;
  completed_parts = length (insert part_number etag st.parts);
  status = in_progress;
}

-- `if parts is None`
abbrev pub chosen : Option (List (ℤ × String)) → UploadState → List (ℤ × String)
chosen none st = sorted_parts st.parts
chosen (some parts) st = parts

-- The times of the commands of a method: of GET and of SETEX.
pub record Times : Type 0 where
  pub read : ℕ
  pub written : ℕ

abbrev pub found : Option UploadState → Result UploadState
found none = err media_error
found (some st) = ok st

module _ (redis : Store UploadState) {S : Type 0} (adapter : StorageAdapter (redis.Db × S)) where
  open redis use {Db}

  unfoldable pub get_state : String → ℕ → Method (Db × S) UploadState
  get_state upload_id now (db, s) = (found (redis.get now (redis_key upload_id) db), (db, s))

  -- `self._redis.set(key, json.dumps(state), ttl=ttl)`
  unfoldable pub save : String → UploadState → ℤ → ℕ → Method (Db × S) (Unit {0})
  save upload_id st ttl now (db, s) =
      let (r, db') = client_set redis (redis_key upload_id) st (some ttl) now db in (r, (db', s))

  unfoldable pub initiate : String → String → String → Option ℤ → ℕ → Method (Db × S) String
  unfolding save
  initiate bucket key content_type expected_parts now = do
    upload_id ← adapter.initiate_multipart_upload bucket key content_type
    save upload_id (initial bucket key content_type expected_parts) (pos 86400) now
    pure upload_id

  -- the rest of `upload_part`, once the adapter has answered
  unfoldable pub record_part : String → ℤ → Times → UploadState → String → Method (Db × S) String
  unfolding save
  record_part upload_id part_number t st etag = do
    save upload_id (with_part part_number etag st) (pos 86400) t.written
    pure etag

  -- and once the state is read
  unfoldable pub put_part : String → ℤ → List ℕ → Times → UploadState → Method (Db × S) String
  unfolding record_part
  put_part upload_id part_number data_ t st = do
    etag ← adapter.upload_part st.bucket st.key upload_id part_number data_
    record_part upload_id part_number t st etag

  unfoldable pub upload_part : String → ℤ → List ℕ → Times → Method (Db × S) String
  unfolding put_part get_state
  upload_part upload_id part_number data_ t = do
    st ← get_state upload_id t.read
    put_part upload_id part_number data_ t st

  -- `state["status"] = status` and what is stored of it, for an hour
  unfoldable pub close : String → UploadStatus → Times → UploadState → Method (Db × S) (Unit {0})
  unfolding save
  close upload_id status t st = save upload_id (record st { status = status }) (pos 3600) t.written

  -- the rest of `complete`, once the adapter has answered
  unfoldable pub record_location : String → Times → UploadState → String → Method (Db × S) String
  unfolding close
  record_location upload_id t st location = do close upload_id completed t st; pure location

  unfoldable pub assemble :
      String → Option (List (ℤ × String)) → Times → UploadState → Method (Db × S) String
  unfolding record_location
  assemble upload_id parts t st = do
    location ← adapter.complete_multipart_upload st.bucket st.key upload_id (chosen parts st)
    record_location upload_id t st location

  unfoldable pub complete : String → Option (List (ℤ × String)) → Times → Method (Db × S) String
  unfolding assemble get_state
  complete upload_id parts t = do st ← get_state upload_id t.read; assemble upload_id parts t st

  unfoldable pub discard : String → Times → UploadState → Method (Db × S) (Unit {0})
  unfolding close
  discard upload_id t st = do
    adapter.abort_multipart_upload st.bucket st.key upload_id
    close upload_id aborted t st

  unfoldable pub abort : String → Times → Method (Db × S) (Unit {0})
  unfolding discard get_state
  abort upload_id t = do st ← get_state upload_id t.read; discard upload_id t st

  abbrev pub progress_of : String → UploadState → UploadProgress
  progress_of upload_id st = record {
    upload_id = upload_id;
    bucket = st.bucket;
    key = st.key;
    total_parts = st.total_parts;
    completed_parts = st.completed_parts;
    status = st.status;
  }

  unfoldable pub get_progress : String → ℕ → Method (Db × S) UploadProgress
  unfolding get_state
  get_progress upload_id now = do st ← get_state upload_id now; pure (progress_of upload_id st)
