-- ===== src/ChunkedUploader/Session.antt =====
-- What stays true of the documents of the uploads (kit-media/kit_media/chunked_upload.py), whatever the
-- methods of `ChunkedUploader` are called for and whatever other tasks call while the adapter runs.
use kit_api_optimization.Prelude.{
  ℕ, suc, ℤ, pos, int_eq, String, insert-IsDict, IsDict, length, ◌≡◌, refl, Option, none, some,
  List, [], ◌∷◌, arith,
}
use kit_api_optimization.Exceptions.{Result, ok, err, Method, pure, bind-Post, Post, ◌>>=◌, ◌>>◌}
use kit_api_optimization.Redis.Expiring.{seconds}
use kit_api_optimization.Redis.Client.{Store, client_set, expiring_set}
use kit_api_optimization.ChunkedUploader.{
  UploadState, completed, aborted, StorageAdapter, redis_key, initial, with_part, chosen, Times,
  found, get_state, save, initiate, upload_part, complete, put_part, record_part, record_location,
  assemble, close, discard, abort,
}

-- `completed_parts` is the number of the parts, each of which has a number of its own.
abbrev pub Counts : UploadState → Type 0
Counts st = (st.completed_parts ≡ length st.parts) × IsDict st.parts

-- One call of a method.
pub data Call : Type 0 where
  initiated : String → String → String → Option ℤ → ℕ → Call
  uploaded : String → ℤ → List ℕ → Times → Call
  closed : String → Option (List (ℤ × String)) → Times → Call
  dropped : String → Times → Call

module _ (redis : Store UploadState) {S : Type 0} where
  open redis use {Db, get, get-setex}

  -- Every document of an upload counts its parts, as long as it stands.
  abbrev pub AllCount : Db × S → Type 0
  AllCount (db, s) =
      (id : String) (t : ℕ) (st : UploadState) → get t (redis_key id) db ≡ some st → Counts st

  -- The adapter keeps to it, and so does what others send to Redis while it runs.
  pub record Keeps (adapter : StorageAdapter (Db × S)) : Type 0 where
    pub initiates :
        (b k c : String) (s : Db × S)
        → AllCount s
        → AllCount (adapter.initiate_multipart_upload b k c s).1
    pub uploads :
        (b k id : String) (n : ℤ) (d : List ℕ) (s : Db × S)
        → AllCount s
        → AllCount (adapter.upload_part b k id n d s).1
    pub completes :
        (b k id : String) (parts : List (ℤ × String)) (s : Db × S)
        → AllCount s
        → AllCount (adapter.complete_multipart_upload b k id parts s).1
    pub aborts :
        (b k id : String) (s : Db × S)
        → AllCount s
        → AllCount (adapter.abort_multipart_upload b k id s).1

  module _ (adapter : StorageAdapter (Db × S)) (keeps : Keeps adapter) where
    save-AllCount :
        (id : String) (st : UploadState) (n now : ℕ) (s : Db × S)
        → Counts st
        → AllCount s
        → AllCount (save redis adapter id st (pos (suc n)) now s).1
    unfolding save client_set expiring_set
    save-AllCount id st n now (db, s) c all j t st' h = ground (
      arith,
      c,
      h,
      all j t st',
      get-setex now t (redis_key id) (redis_key j) st (seconds (suc n)) db,
    )

    Post-any : {A : Type 0} (r : Result A) → Post (λ a. Unit {0}) r
    Post-any (ok a) = tt
    Post-any (err e) = tt

    found-Counts :
        (o : Option UploadState)
        → ((st : UploadState) → o ≡ some st → Counts st)
        → Post Counts (found o)
    found-Counts none h = tt
    found-Counts (some st) h = h st refl

    -- a method that reads the document first
    reading :
        {B : Type 0} (id : String) (now : ℕ) (k : UploadState → Method (Db × S) B) (s : Db × S)
        → AllCount s
        → ((st : UploadState) (s' : Db × S) → Counts st → AllCount s' → AllCount (k st s').1)
        → AllCount ((get_state redis adapter id now >>= k) s).1
    unfolding get_state
    reading id now k (db, s) all rest =
        bind-Post AllCount Counts (get_state redis adapter id now) k (db, s) all
          (found-Counts (get now (redis_key id) db) (λ st h. all id now st h)) rest

    -- and one that calls the adapter next
    calling :
        {A B : Type 0} (m : Method (Db × S) A) (k : A → Method (Db × S) B) (s : Db × S)
        → AllCount (m s).1
        → ((a : A) (s' : Db × S) → AllCount s' → AllCount (k a s').1)
        → AllCount ((m >>= k) s).1
    calling m k s kept rest =
        bind-Post AllCount (λ a. Unit {0}) m k s kept (Post-any (m s).0) (λ a s' u. rest a s')

    saving :
        {B : Type 0} (id : String) (st : UploadState) (n now : ℕ) (b : B) (s : Db × S)
        → Counts st
        → AllCount s
        → AllCount ((save redis adapter id st (pos (suc n)) now >> pure b) s).1
    saving id st n now b s c all =
        calling (save redis adapter id st (pos (suc n)) now) (λ u. pure b) s
          (save-AllCount id st n now s c all) (λ u s' h. h)

    with_part-Counts :
        (n : ℤ) (etag : String) (st : UploadState) → Counts st → Counts (with_part n etag st)
    with_part-Counts n etag st c = (refl, insert-IsDict n etag st.parts c.1)

    initiate-AllCount :
        (b k c : String) (expected : Option ℤ) (now : ℕ) (s : Db × S)
        → AllCount s
        → AllCount (initiate redis adapter b k c expected now s).1
    unfolding initiate
    initiate-AllCount b k c expected now s all =
        calling (adapter.initiate_multipart_upload b k c)
          (λ id. save redis adapter id (initial b k c expected) (pos 86400) now >> pure id) s
          (keeps.initiates b k c s all)
          (λ id s'. saving id (initial b k c expected) 86399 now id s' (refl, tt))

    upload_part-AllCount :
        (id : String) (n : ℤ) (d : List ℕ) (t : Times) (s : Db × S)
        → AllCount s
        → AllCount (upload_part redis adapter id n d t s).1
    unfolding upload_part put_part record_part
    upload_part-AllCount id n d t s all =
        reading id t.read (put_part redis adapter id n d t) s all (λ st s' c all'.
          calling (adapter.upload_part st.bucket st.key id n d)
            (record_part redis adapter id n t st) s' (keeps.uploads st.bucket st.key id n d s' all')
            (λ etag s''.
              saving id (with_part n etag st) 86399 t.written etag s''
                (with_part-Counts n etag st c)))

    complete-AllCount :
        (id : String) (parts : Option (List (ℤ × String))) (t : Times) (s : Db × S)
        → AllCount s
        → AllCount (complete redis adapter id parts t s).1
    unfolding complete assemble record_location close
    complete-AllCount id parts t s all =
        reading id t.read (assemble redis adapter id parts t) s all (λ st s' c all'.
          calling (adapter.complete_multipart_upload st.bucket st.key id (chosen parts st))
            (record_location redis adapter id t st) s'
            (keeps.completes st.bucket st.key id (chosen parts st) s' all')
            (λ location s''.
              saving id (record st { status = completed }) 3599 t.written location s'' c))

    abort-AllCount :
        (id : String) (t : Times) (s : Db × S)
        → AllCount s
        → AllCount (abort redis adapter id t s).1
    unfolding abort discard close
    abort-AllCount id t s all =
        reading id t.read (discard redis adapter id t) s all (λ st s' c all'.
          calling (adapter.abort_multipart_upload st.bucket st.key id)
            (λ u. close redis adapter id aborted t st) s' (keeps.aborts st.bucket st.key id s' all')
            (λ u s''. save-AllCount id (record st { status = aborted }) 3599 t.written s'' c))

    pub call : Call → Db × S → Db × S
    call (initiated b k c expected now) s = (initiate redis adapter b k c expected now s).1
    call (uploaded id n d t) s = (upload_part redis adapter id n d t s).1
    call (closed id parts t) s = (complete redis adapter id parts t s).1
    call (dropped id t) s = (abort redis adapter id t s).1

    pub run : List Call → Db × S → Db × S
    run [] s = s
    run (x ∷ calls) s = run calls (call x s)

    call-AllCount : (x : Call) (s : Db × S) → AllCount s → AllCount (call x s)
    unfolding call
    call-AllCount (initiated b k c expected now) s all = initiate-AllCount b k c expected now s all
    call-AllCount (uploaded id n d t) s all = upload_part-AllCount id n d t s all
    call-AllCount (closed id parts t) s all = complete-AllCount id parts t s all
    call-AllCount (dropped id t) s all = abort-AllCount id t s all

    -- However the methods are called, and whether the adapter answers or raises, the `completed_parts` of
    -- each document that stands is the number of its parts, and no part number stands twice in it. It is so at
    -- first, and what the adapter and the other tasks do while it runs keeps to it.
    pub run-AllCount : (calls : List Call) (s : Db × S) → AllCount s → AllCount (run calls s)
    unfolding run
    run-AllCount [] s all = all
    run-AllCount (x ∷ calls) s all = run-AllCount calls (call x s) (call-AllCount x s all)
