-- ===== src/ChunkedUploader/Upload.antt =====
-- What `upload_part` and `complete` of `ChunkedUploader` (kit-media/kit_media/chunked_upload.py) store
-- and hand to the adapter.
use kit_api_optimization.Prelude.{
  ℕ, ℤ, int_eq, String, lookup, lookup-insert, same_ℤ_iff, IsDict, length, ◌≡◌, ◌≢◌, refl, arith,
  ap, ◌∙◌, Option, none, some, List,
}
use kit_api_optimization.Exceptions.{ok, err, bind-ok, bind-err, media_error}
use kit_api_optimization.Redis.Expiring.{seconds}
use kit_api_optimization.Redis.Client.{Store, client_set, expiring_set}
use kit_api_optimization.ChunkedUploader.{
  UploadState, in_progress, completed, StorageAdapter, sorted_parts, redis_key, with_part, Times,
  found, get_state, save, upload_part, complete, put_part, record_part, record_location, assemble,
  close, discard, abort,
}
use kit_api_optimization.ChunkedUploader.Sort.{
  Ascending, length-sorted_parts, lookup-sorted_parts, sorted_parts-Ascending,
}

abbrev pub day : ℕ
day = seconds 86400

abbrev pub hour : ℕ
hour = seconds 3600

-- What the document of an upload should be once a part is there.
pub record HasPart (n : ℤ) (etag : String) (st st' : UploadState) : Type 0 where
  pub has_tag : lookup n st'.parts ≡ some etag
  pub keeps_others : (j : ℤ) → n ≢ j → lookup j st'.parts ≡ lookup j st.parts
  pub is_counted : st'.completed_parts ≡ length st'.parts
  pub is_under_way : st'.status ≡ in_progress
  pub keeps_rest :
      (st'.bucket ≡ st.bucket)
      × (st'.key ≡ st.key)
      × (st'.content_type ≡ st.content_type)
      × (st'.total_parts ≡ st.total_parts)

with_part-HasPart :
    (n : ℤ) (etag : String) (st : UploadState) → HasPart n etag st (with_part n etag st)
with_part-HasPart n etag st = record {
  has_tag = ground (arith, lookup-insert n n etag st.parts, same_ℤ_iff n n);
  keeps_others = λ j other. ground (arith, lookup-insert n j etag st.parts, same_ℤ_iff n j);
  is_counted = refl;
  is_under_way = refl;
  keeps_rest = (refl, refl, refl, refl);
}

module _ (redis : Store UploadState) {S : Type 0} (adapter : StorageAdapter (redis.Db × S)) where
  open redis use {Db, get, setex}

  get_state-eq :
      (id : String) (now : ℕ) (db : Db) (s : S) {st : UploadState}
      → get now (redis_key id) db ≡ some st
      → get_state redis adapter id now (db, s) ≡ (ok st, (db, s))
  unfolding get_state
  get_state-eq id now db s h = ap (λ o. (found o, (db, s))) h

  -- Once the adapter has taken a part of an upload that is known, `upload_part` answers with its tag and keeps
  -- a document for a day: the one that was read before, in which the number of the part has its tag, every
  -- other number has what it had, the parts are counted and the status is in_progress. What others have
  -- written to the document meanwhile is gone.
  pub upload_part-stores :
      (id : String) (n : ℤ) (data_ : List ℕ) (t : Times) (db : Db) (s : S) (st : UploadState)
      (etag : String) (db1 : Db) (s1 : S)
      → get t.read (redis_key id) db ≡ some st
      → adapter.upload_part st.bucket st.key id n data_ (db, s) ≡ (ok etag, (db1, s1))
      → (st' : UploadState) × (upload_part redis adapter id n data_ t (db, s)
          ≡ (ok etag, (setex t.written (redis_key id) st' day db1, s1)))
        × HasPart n etag st st'
  unfolding upload_part put_part record_part save client_set expiring_set
  upload_part-stores id n data_ t db s st etag db1 s1 h took = (
    with_part n etag st,
    bind-ok (get_state redis adapter id t.read) (put_part redis adapter id n data_ t)
          (get_state-eq id t.read db s h)
        ∙ bind-ok (adapter.upload_part st.bucket st.key id n data_)
            (record_part redis adapter id n t st) took,
    with_part-HasPart n etag st,
  )

  -- An upload whose document is missing or expired is not handed to the adapter: `upload_part`, `complete`
  -- and `abort` raise `MediaError` and change nothing.
  pub missing-raises :
      (id : String) (n : ℤ) (data_ : List ℕ) (parts : Option (List (ℤ × String))) (t : Times)
      (db : Db) (s : S)
      → get t.read (redis_key id) db ≡ none
      → (upload_part redis adapter id n data_ t (db, s) ≡ (err media_error, (db, s)))
        × (complete redis adapter id parts t (db, s) ≡ (err media_error, (db, s)))
        × (abort redis adapter id t (db, s) ≡ (err media_error, (db, s)))
  unfolding upload_part complete abort get_state
  missing-raises id n data_ parts t db s h =
      let gone = ap (λ o. (found o, (db, s))) h in
      (
        bind-err (get_state redis adapter id t.read) (put_part redis adapter id n data_ t) gone,
        bind-err (get_state redis adapter id t.read) (assemble redis adapter id parts t) gone,
        bind-err (get_state redis adapter id t.read) (discard redis adapter id t) gone,
      )

  -- `complete` without a list of parts hands the adapter every part of the document once, with its
  -- tag, in the order of their numbers. When the adapter answers, the document is COMPLETED for an
  -- hour, and `complete` answers with the location. No part number stands twice in the document.
  pub complete-Ascending :
      (id : String) (t : Times) (db : Db) (s : S) (st : UploadState) (location : String) (db1 : Db)
      (s1 : S)
      → get t.read (redis_key id) db ≡ some st
      → IsDict st.parts
      → (parts : List (ℤ × String)) × Ascending parts
        × ((n : ℤ) → lookup n parts ≡ lookup n st.parts)
        × (length parts ≡ length st.parts)
        × (adapter.complete_multipart_upload st.bucket st.key id parts (db, s)
              ≡ (ok location, (db1, s1))
            → complete redis adapter id none t (db, s) ≡ (
              ok location,
              (setex t.written (redis_key id) (record st { status = completed }) hour db1, s1),
            ))
  unfolding complete assemble record_location close save client_set expiring_set
  complete-Ascending id t db s st location db1 s1 h dict = (
    sorted_parts st.parts,
    sorted_parts-Ascending st.parts,
    λ n. lookup-sorted_parts n st.parts dict,
    length-sorted_parts st.parts,
    λ took.
        bind-ok (get_state redis adapter id t.read) (assemble redis adapter id none t)
          (get_state-eq id t.read db s h)
        ∙ bind-ok (adapter.complete_multipart_upload st.bucket st.key id (sorted_parts st.parts))
            (record_location redis adapter id t st) took,
  )
