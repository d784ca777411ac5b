-- ===== src/Middleware/Once.antt =====
-- What `KitAPIMiddleware` (kit-api/kit_api/middleware/) guarantees of the requests that it lets through
-- to the application.
use kit_api_optimization.Prelude.{
  ℕ, suc, ◌+◌, ◌<◌, pos, String, string_eq, lookup, ◌≡◌, refl, ap, ◌∙◌, true, Option, none, some,
  arith,
}
use kit_api_optimization.Exceptions.{Error, Result, ok, err, Method}
use kit_api_optimization.Redis.Persistent.{doc}
use kit_api_optimization.Redis.Sorted.{Sorted}
use kit_api_optimization.Redis.Expiring.{Expiring, seconds}
use kit_api_optimization.RateLimiter.{acquire, remaining}
use kit_api_optimization.RateLimiter.Admission.{standing}
use kit_api_optimization.RateLimiter.Remaining.{acquire-remaining}
use kit_api_optimization.Idempotency.{CachedResponse, key, locked, check}
use kit_api_optimization.Idempotency.Store.{
  response_at, lock_at, locked_db, response-lock, lock-lock, released_db,
}
use kit_api_optimization.Idempotency.Once.{acquire-free, acquire-held}
use kit_api_optimization.Middleware.{
  Request, Response, Codec, KitApiMiddleware, Times, enforced_key, client_key, too_many,
  in_progress, replayed, cached_of, after_call, after_lock, after_check, admitted, after_limit,
  handle,
}

module _ {J C : Type 0} (codec : Codec J C) (body_of : C → J) (rebuild : Response C → Response C)
    (limits : Sorted) (responses : Expiring (CachedResponse J)) (m : KitApiMiddleware)
    (W : Type 0) where
  abbrev State : Type 0
  State = (limits.Db × responses.Db) × W

  -- the sorted sets once the limiter has answered
  abbrev pub limited_db : Times → Request → limits.Db → limits.Db
  limited_db t request limited =
      (acquire limits m.rate_limiter (client_key codec request) t.member t.limited t.limited_at
        limited).1

  abbrev pub Admitted : Times → Request → limits.Db → Type 0
  Admitted t request limited =
      (acquire limits m.rate_limiter (client_key codec request) t.member t.limited t.limited_at
        limited).0
      ≡ ok true

  abbrev pub stored_at : String → ℕ → responses.Db → Result (Option (CachedResponse J))
  stored_at k t stored = response_at responses m.idempotency_store k t stored

  abbrev pub locked_for : String → ℕ → responses.Db → responses.Db
  locked_for k t stored = locked_db responses m.idempotency_store k t (seconds 30) stored

  -- A request of a client that has no request left in the window is answered with the JSON response of status 429: neither the
  -- store nor the application sees it. The limit is not negative, the window is positive, and the
  -- member is new to the set of the client.
  pub handle_limited :
      (n w : ℕ) (t : Times) (call_next : Request → Method State (Response C)) (request : Request)
      (limited : limits.Db) (stored : responses.Db) (x : W)
      → m.rate_limiter.max_requests ≡ pos n
      → m.rate_limiter.window_seconds ≡ pos (suc w)
      → lookup t.member (standing limits m.rate_limiter (client_key codec request) limited).0 ≡ none
      → (remaining limits m.rate_limiter
          (client_key codec request)
          t.limited
          t.limited_at
          limited).0
        ≡ 0
      → handle codec body_of rebuild limits responses m W t call_next request ((limited, stored), x)
        ≡ (too_many codec, ((limited_db t request limited, stored), x))
  unfolding handle after_limit
  handle_limited n w t call_next request limited stored x limit window fresh nothing =
      let k = client_key codec request in
      let agrees =
        acquire-remaining limits m.rate_limiter k n w t.limited t.limited_at t.member limited limit
          window fresh in
      ap
        (λ r.
          after_limit codec body_of rebuild limits responses m W request t call_next stored x
            (r, limited_db t request limited))
        (agrees.0 nothing)

  -- an admitted request with a key
  handle-keyed :
      (t : Times) (call_next : Request → Method State (Response C)) (request : Request) (k : String)
      (limited : limits.Db) (stored : responses.Db) (x : W)
      → Admitted t request limited
      → enforced_key request ≡ some k
      → handle codec body_of rebuild limits responses m W t call_next request ((limited, stored), x)
        ≡ after_check codec body_of rebuild limits responses m W k request t call_next
            (limited_db t request limited)
            x
            (stored_at k t.checked stored, stored)
  unfolding handle after_limit admitted check
  handle-keyed t call_next request k limited stored x let_in keyed =
      let limited' = limited_db t request limited in
      ap
        (λ r.
          after_limit codec body_of rebuild limits responses m W request t call_next stored x
            (r, limited'))
        let_in
      ∙ ap
          (λ o.
            admitted codec body_of rebuild limits responses m W o request t call_next
              ((limited', stored), x))
          keyed

  -- A request whose key has a stored response is answered with what the framework's class of a JSON
  -- response makes of it, and the application does not see
  -- the request.
  pub handle-replays :
      (t : Times) (call_next : Request → Method State (Response C)) (request : Request) (k : String)
      (limited : limits.Db) (stored : responses.Db) (x : W) (c : CachedResponse J)
      → Admitted t request limited
      → enforced_key request ≡ some k
      → stored_at k t.checked stored ≡ ok (some c)
      → handle codec body_of rebuild limits responses m W t call_next request ((limited, stored), x)
        ≡ (replayed codec c, ((limited_db t request limited, stored), x))
  unfolding after_check
  handle-replays t call_next request k limited stored x c let_in keyed found =
      handle-keyed t call_next request k limited stored x let_in keyed
      ∙ ap
          (λ r.
            after_check codec body_of rebuild limits responses m W k request t call_next
              (limited_db t request limited) x (r, stored))
          found

  -- a request that takes the lock of its key
  handle-locks :
      (t : Times) (call_next : Request → Method State (Response C)) (request : Request) (k : String)
      (limited : limits.Db) (stored : responses.Db) (x : W)
      → Admitted t request limited
      → enforced_key request ≡ some k
      → stored_at k t.checked stored ≡ ok none
      → lock_at responses m.idempotency_store k t.asked stored ≡ none
      → handle codec body_of rebuild limits responses m W t call_next request ((limited, stored), x)
        ≡ after_call codec body_of rebuild limits responses m W k request t
            (call_next request ((limited_db t request limited, locked_for k t.asked stored), x))
  unfolding after_check after_lock
  handle-locks t call_next request k limited stored x let_in keyed absent free =
      let limited' = limited_db t request limited in
      handle-keyed t call_next request k limited stored x let_in keyed
      ∙ ap
          (λ r.
            after_check codec body_of rebuild limits responses m W k request t call_next limited' x
              (r, stored))
          absent
      ∙ ap (after_lock codec body_of rebuild limits responses m W k request t call_next limited' x)
          (acquire-free responses m.idempotency_store k (pos 30) (seconds 30) t.asked stored refl
            free)

  -- If the application raises, the lock of the key stays as the application leaves it: for 30 seconds every
  -- request with the key that the limiter admits and that has no stored response is answered with 409, and
  -- the application does not see it, though no request is in progress. The application leaves Redis alone.
  pub handle-raises :
      (t t' : Times) (call_next : Request → Method State (Response C)) (request again : Request)
      (k : String) (limited : limits.Db) (stored : responses.Db) (x x' : W) (e : Error)
      → Admitted t request limited
      → enforced_key request ≡ some k
      → enforced_key again ≡ some k
      → stored_at k t.checked stored ≡ ok none
      → lock_at responses m.idempotency_store k t.asked stored ≡ none
      → let after : limits.Db × responses.Db =
          (limited_db t request limited, locked_for k t.asked stored) in
        call_next request (after, x) ≡ (err e, (after, x'))
        → Admitted t' again after.0
        → stored_at k t'.checked stored ≡ ok none
        → t'.asked < t.asked + seconds 30
        → (handle codec body_of rebuild limits responses m W t call_next request
              ((limited, stored), x)
            ≡ (err e, (after, x')))
          × (handle codec body_of rebuild limits responses m W t' call_next again (after, x')
              ≡ (in_progress codec, ((limited_db t' again after.0, after.1), x')))
  unfolding after_check after_lock after_call
  handle-raises t t' call_next request again k limited stored x x' e let_in keyed keyed' absent free
        raises let_in' absent' soon =
      let limited1 = limited_db t request limited in
      let held = locked_for k t.asked stored in
      (
        handle-locks t call_next request k limited stored x let_in keyed absent free
            ∙ ap (after_call codec body_of rebuild limits responses m W k request t) raises,
        handle-keyed t' call_next again k limited1 held x' let_in' keyed'
            ∙ ap
                (λ r.
                  after_check codec body_of rebuild limits responses m W k again t' call_next
                    (limited_db t' again limited1) x' (r, held))
                (response-lock responses m.idempotency_store k t'.checked t.asked (seconds 30)
                    stored
                  ∙ absent')
            ∙ ap
                (after_lock codec body_of rebuild limits responses m W k again t' call_next
                  (limited_db t' again limited1) x')
                (acquire-held responses m.idempotency_store k (pos 30) (seconds 30) t'.asked locked
                  held refl
                  (ground (
                    arith,
                    lock-lock responses m.idempotency_store k t'.asked t.asked (seconds 30) stored,
                    soon,
                  ))),
      )

  -- the store once a response is stored and the lock released
  abbrev pub finished_db : String → ℕ → ℕ → Response C → responses.Db → responses.Db
  finished_db k stored_time n r stored = released_db responses m.idempotency_store k (
      responses.set_ex stored_time (key m.idempotency_store k)
        (doc (cached_of codec body_of rebuild limits responses m W r)) (seconds (suc n)) stored)
