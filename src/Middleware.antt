-- ===== src/Middleware.antt =====
-- kit-api/kit_api/middleware/django.py and fastapi.py: `KitAPIMiddleware`, which puts the rate limiter
-- and the idempotency store around an application. What the application does to a request is a method
-- on Redis and on a state of its own. The sorted sets of the limiter and the keys of the store stand
-- apart in Redis. The two classes differ in how they read the body of a response.
pub mod Once
mod Tests
use kit_api_optimization.Prelude.{
  ℕ, ◌+◌, ℤ, pos, String, ◌==◌, string_eq, Dict, insert, elem, Bool, true, false, not, ◌&&◌, Option,
  none, some, List, [], ◌∷◌, ◌++◌, if◌then◌else◌,
}
use kit_api_optimization.Exceptions.{
  Error, Result, ok, err, Method, rate_limit_exceeded, idempotency_conflict,
}
use kit_api_optimization.Redis.Sorted.{Sorted}
use kit_api_optimization.Redis.Expiring.{Expiring}
use kit_api_optimization.RateLimiter.{RateLimiter, acquire, remaining}
use kit_api_optimization.Idempotency.{
  CachedResponse, IdempotencyStore, check, store, acquire_lock, release_lock,
}

pub record Request : Type 0 where
  pub method : String
  -- the header X-Forwarded-For, and the address of the peer
  pub forwarded : Option String
  pub host : Option String
  pub idem_key : Option String

pub record Response (C : Type 0) : Type 0 where
  pub status_code : ℤ
  pub content : C
  -- in their order, in which a name may stand more than once
  pub headers : Dict String String

-- What the middleware uses of texts and of its framework: `forwarded.split(",")[0].strip()`, `str` of a
-- number, the dictionary of an error, `dict(response.headers)` (whose keys are those of the headers, each
-- once), and the class `JSONResponse` (`JsonResponse` of Django), which may
-- refuse a body or its headers.
pub record Codec (J C : Type 0) : Type 0 where
  pub first_address : String → String
  pub show : ℕ → String
  pub error_body : String → String → J
  pub dict_of : Dict String String → Dict String String
  pub json_response : J → ℤ → Dict String String → Result (Response C)

pub record KitApiMiddleware : Type 0 where
  pub rate_limiter : RateLimiter
  pub idempotency_store : IdempotencyStore
  pub idempotency_ttl : ℤ

-- The readings of the clocks of one request, and the member that the script of the limiter draws.
pub record Times : Type 0 where
  pub member : String
  pub limited : ℕ
  pub limited_at : ℕ
  pub checked : ℕ
  pub asked : ℕ
  pub stored : ℕ
  pub counted : ℕ
  pub counted_at : ℕ

abbrev pub safe_methods : List String
safe_methods = "GET" ∷ "HEAD" ∷ "OPTIONS" ∷ []

-- The key of a request for which idempotency is enforced: `idem_key and request.method not in
-- _SAFE_METHODS`.
abbrev pub enforced_key : Request → Option String
enforced_key r = elim r.idem_key [
  | none ↦ none
  | some k ↦ if k == "" then none else if elem r.method safe_methods then none else some k
]

abbrev pub peer : Request → String
peer r = elim r.host [ none ↦ "unknown" | some host ↦ host ]

module _ {J C : Type 0} (codec : Codec J C) where
  abbrev pub client_key : Request → String
  client_key r = elim r.forwarded [
    | none ↦ peer r
    | some f ↦ if f == "" then peer r else codec.first_address f
  ]

  abbrev pub too_many : Result (Response C)
  too_many =
      codec.json_response (codec.error_body "rate_limit_exceeded" "Too many requests") (pos 429) []

  abbrev pub in_progress : Result (Response C)
  in_progress =
      codec.json_response (codec.error_body "idempotency_conflict" "Duplicate request in progress")
        (pos 409) []

  abbrev pub replayed : CachedResponse J → Result (Response C)
  replayed c = codec.json_response c.body c.status_code c.headers

  -- `except RateLimitExceeded` and `except IdempotencyConflict`
  abbrev pub on_limit : Error → Result (Response C)
  on_limit x = elim x [ rate_limit_exceeded ↦ too_many | y ↦ err y ]

  abbrev pub on_conflict : Error → Result (Response C)
  on_conflict x = elim x [ idempotency_conflict k ↦ in_progress | y ↦ err y ]

-- `body_of` is the JSON value that is stored of a response, and `rebuild` makes the response that is passed
-- on once its body has been read.
module _ {J C : Type 0} (codec : Codec J C) (body_of : C → J) (rebuild : Response C → Response C)
    (limits : Sorted) (responses : Expiring (CachedResponse J)) (m : KitApiMiddleware)
    (W : Type 0) where
  abbrev State : Type 0
  State = (limits.Db × responses.Db) × W

  abbrev pub cached_of : Response C → CachedResponse J
  cached_of r = record {
    status_code = r.status_code;
    body = body_of r.content;
    headers = r.headers;
  }

  -- `response["X-RateLimit-Remaining"] = str(remaining)`
  unfoldable pub count : Request → Times → Response C → Method State (Response C)
  count request t r ((limited, stored), w) =
      let (left, limited') =
        remaining limits m.rate_limiter (client_key codec request) t.counted t.counted_at limited in
      (
        ok (record r { headers = insert "X-RateLimit-Remaining" (codec.show left) r.headers }),
        ((limited', stored), w),
      )

  -- once the response is stored
  unfoldable pub after_store :
      String
      → Request
      → Times
      → Response C
      → limits.Db
      → W
      → Result (Unit {0}) × responses.Db
      → Result (Response C) × State
  unfolding count
  after_store k request t r limited w (err x, stored) = (err x, ((limited, stored), w))
  after_store k request t r limited w (ok _, stored) =
      count request t (rebuild r)
        ((limited, (release_lock responses m.idempotency_store k stored).1), w)

  -- once the application has answered a request with a key that is enforced
  unfoldable pub after_call :
      String → Request → Times → Result (Response C) × State → Result (Response C) × State
  unfolding after_store
  after_call k request t (err x, s) = (err x, s)
  after_call k request t (ok r, ((limited, stored), w)) =
      after_store k request t r limited w
        (store responses m.idempotency_store k (cached_of r) m.idempotency_ttl t.stored stored)

  unfoldable pub after_lock :
      String
      → Request
      → Times
      → (Request → Method State (Response C))
      → limits.Db
      → W
      → Result Bool × responses.Db
      → Result (Response C) × State
  unfolding after_call
  after_lock k request t call_next limited w (err x, stored) =
      (on_conflict codec x, ((limited, stored), w))
  after_lock k request t call_next limited w (ok _, stored) =
      after_call k request t (call_next request ((limited, stored), w))

  unfoldable pub after_check :
      String
      → Request
      → Times
      → (Request → Method State (Response C))
      → limits.Db
      → W
      → Result (Option (CachedResponse J)) × responses.Db
      → Result (Response C) × State
  unfolding after_lock
  after_check k request t call_next limited w (err x, stored) = (err x, ((limited, stored), w))
  after_check k request t call_next limited w (ok (some c), stored) =
      (replayed codec c, ((limited, stored), w))
  after_check k request t call_next limited w (ok none, stored) =
      after_lock k request t call_next limited w
        (acquire_lock responses m.idempotency_store k (pos 30) t.asked stored)

  -- a request without a key that is enforced
  unfoldable pub after_plain :
      Request → Times → Result (Response C) × State → Result (Response C) × State
  unfolding count
  after_plain request t (err x, s) = (err x, s)
  after_plain request t (ok r, s) = count request t r s

  unfoldable pub admitted :
      Option String
      → Request
      → Times
      → (Request → Method State (Response C))
      → Method State (Response C)
  unfolding after_plain after_check
  admitted none request t call_next s = after_plain request t (call_next request s)
  admitted (some k) request t call_next ((limited, stored), w) =
      after_check k request t call_next limited w
        (check responses m.idempotency_store k t.checked stored)

  unfoldable pub after_limit :
      Request
      → Times
      → (Request → Method State (Response C))
      → responses.Db
      → W
      → Result Bool × limits.Db
      → Result (Response C) × State
  unfolding admitted
  after_limit request t call_next stored w (err x, limited) =
      (on_limit codec x, ((limited, stored), w))
  after_limit request t call_next stored w (ok _, limited) =
      admitted (enforced_key request) request t call_next ((limited, stored), w)

  -- `__call__` and `dispatch`
  unfoldable pub handle :
      Times → (Request → Method State (Response C)) → Request → Method State (Response C)
  unfolding after_limit
  handle t call_next request ((limited, stored), w) = after_limit request t call_next stored w (
      acquire limits m.rate_limiter (client_key codec request) t.member t.limited t.limited_at
        limited)

-- Django: the content is a value; `loads` is `json.loads`, which may fail, and `decode` replaces what
-- is no text.
abbrev pub safe_body : {J C : Type 0} → (C → Option J) → (C → J) → C → J
safe_body loads decode content = elim (loads content) [ none ↦ decode content | some j ↦ j ]

abbrev pub django_call :
    {J C : Type 0} (codec : Codec J C) (loads : C → Option J) (decode : C → J) (limits : Sorted)
    (responses : Expiring (CachedResponse J)) (m : KitApiMiddleware) (W : Type 0)
    → Times
    → (Request → Method ((limits.Db × responses.Db) × W) (Response C))
    → Request
    → Method ((limits.Db × responses.Db) × W) (Response C)
django_call codec loads decode limits responses m W =
    handle codec (safe_body loads decode) (λ r. r) limits responses m W

-- FastAPI: the content is an iterator of chunks, which the middleware reads and puts together, and
-- `make_response` is the class `Response` of Starlette, with the media type of the response.
pub data Chunk (B : Type 0) : Type 0 where
  bytes : B → Chunk B
  str : String → Chunk B

abbrev pub encoded : {B : Type 0} → (String → List B) → Chunk (List B) → List B
encoded encode (bytes b) = b
encoded encode (str s) = encode s

abbrev pub body_bytes : {B : Type 0} → (String → List B) → List (Chunk (List B)) → List B
body_bytes encode [] = []
body_bytes encode (c ∷ chunks) = encoded encode c ++ body_bytes encode chunks

abbrev pub fastapi_dispatch :
    {J B : Type 0} (encode : String → List B) (codec : Codec J (List (Chunk (List B))))
    (make_response : List (Chunk (List B))
      → ℤ
      → Dict String String
      → Response (List (Chunk (List B))))
    (loads : List B → Option J) (decode : List B → J) (limits : Sorted)
    (responses : Expiring (CachedResponse J)) (m : KitApiMiddleware) (W : Type 0)
    → Times
    → (Request → Method ((limits.Db × responses.Db) × W) (Response (List (Chunk (List B)))))
    → Request
    → Method ((limits.Db × responses.Db) × W) (Response (List (Chunk (List B))))
fastapi_dispatch encode codec make_response loads decode limits responses m W =
    handle codec (λ chunks. safe_body loads decode (body_bytes encode chunks))
      (λ r.
        make_response (bytes (body_bytes encode r.content) ∷ []) r.status_code
          (codec.dict_of r.headers))
      limits responses m W
