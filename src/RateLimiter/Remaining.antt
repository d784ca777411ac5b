-- ===== src/RateLimiter/Remaining.antt =====
-- What `remaining` of `RateLimiter` (kit-api/kit_api/rate_limiter.py) tells of `acquire`.
use kit_api_optimization.Prelude.{
  ℕ, suc, ◌+◌, ◌-◌, ◌<◌, leb, leb_ℤ, ◌-ℤ◌, ℤ, pos, String, string_eq, Dict, insert, lookup, ◌≡◌,
  refl, sym, ap, ◌∙◌, Bool, Bool-cases, inl, inr, true, false, Option, none, some, [], ◌∷◌, arith,
}
use kit_api_optimization.Exceptions.{Result, ok, err, rate_limit_exceeded}
use kit_api_optimization.Redis.Expiring.{seconds}
use kit_api_optimization.Redis.Sorted.{
  Entry, zremrangebyscore, del, live, above, present, step, Sorted, zcard,
}
use kit_api_optimization.RateLimiter.{RateLimiter, oldest, acquire, remaining, reset}
use kit_api_optimization.RateLimiter.Admission.{
  count, size-above-insert, lookup-live, lookup-trimmed, count-trim, add-eq, standing, trimmed,
  recorded, Decides, acquire-Decides, standing-send,
}

zcard-present :
    (t : ℕ) (d : Dict String ℕ) (expiry : Option ℕ)
    → zcard t (present (d, expiry)) ≡ zcard t (d, expiry)
zcard-present t [] none = refl
zcard-present t [] (some x) = ground arith
zcard-present t (m ∷ d) expiry = refl

-- ZCARD after trimming counts what is above the bound.
zcard-trim : (b : ℤ) (t : ℕ) (e : Entry) → zcard t (step t (zremrangebyscore b) e) ≡ count b t e
unfolding step above
zcard-trim b t (d, none) = zcard-present t (above b d) none
zcard-trim b t (d, some x) = elim (Bool-cases (leb x t)) [
  | inl gone ↦ rw gone (ground (arith, gone))
  | inr alive ↦ rw alive (zcard-present t (above b d) (some x) ∙ ground (arith, alive))
]

-- A recorded call is one more member of the window.
zcard-recorded :
    (w now at : ℕ) (m : String) (e : Entry)
    → lookup m (live at e).0 ≡ none
    → let b = oldest (pos (suc w)) now in
      count b at (insert m now (live at e).0, some (at + seconds (suc w))) ≡ suc (count b at e)
unfolding ◌-ℤ◌
zcard-recorded w now at m e fresh =
    ground (arith, size-above-insert m (oldest (pos (suc w)) now) now (live at e).0 fresh)

module _ (redis : Sorted) (l : RateLimiter) (k : String) where
  open redis use {Db}

  remaining-eq :
      (n now at : ℕ) (db : Db)
      → l.max_requests ≡ pos n
      → (remaining redis l k now at db).0
        ≡ n - zcard at (trimmed redis l k now at (standing redis l k db))
  unfolding remaining ◌-ℤ◌
  remaining-eq n now at db limit =
      rw (limit, standing-send redis l k at (zremrangebyscore (oldest l.window_seconds now)) db)
        (ground arith)

  -- `reset` gives back every request of the window.
  pub remaining-reset :
      (n now at : ℕ) (db : Db)
      → l.max_requests ≡ pos n
      → (remaining redis l k now at (reset redis l k at db)).0 ≡ n
  unfolding reset step above
  remaining-reset n now at db limit =
      remaining-eq n now at (reset redis l k at db) limit
      ∙ rw (standing-send redis l k at del db) (ground arith)

  zcard-after :
      (w now at : ℕ) (m : String) (e : Entry)
      → l.window_seconds ≡ pos (suc w)
      → lookup m e.0 ≡ none
      → zcard at
          (trimmed redis l k now at (recorded redis l k m now at (trimmed redis l k now at e)))
        ≡ suc (zcard at (trimmed redis l k now at e))
  zcard-after w now at m e window fresh =
      let b = oldest (pos (suc w)) now in
      let e' = step at (zremrangebyscore b) e in
      rw (window, add-eq at m now w e')
        (zcard-trim b at (insert m now (live at e').0, some (at + seconds (suc w)))
          ∙ zcard-recorded w now at m e' (lookup-live m at e' (lookup-trimmed m at b e fresh))
          ∙ ap suc (count-trim b b at at e (ground arith) (omega arith) ∙ sym (zcard-trim b at e)))

  agreed :
      (n w now at : ℕ) (m : String) (e after : Entry) (r : Result Bool) (full : Bool)
      → l.window_seconds ≡ pos (suc w)
      → leb_ℤ (pos n) (pos (zcard at (trimmed redis l k now at e))) ≡ full
      → Decides redis l k n m now at e full r after
      → lookup m e.0 ≡ none
      → let left = n - zcard at (trimmed redis l k now at e) in
        (left ≡ 0 → r ≡ err rate_limit_exceeded)
        × (0 < left → (r ≡ ok true) × (suc (n - zcard at (trimmed redis l k now at after)) ≡ left))
  agreed n w now at m e after r true window h d fresh =
      (λ z. d.0, λ p. absurd (ground (arith, h, p)))
  agreed n w now at m e after r false window h d fresh = (
    λ z. absurd (ground (arith, h, z)),
    λ p. (d.0, rw d.1 (omega (arith, p, zcard-after w now at m e window fresh))),
  )

  -- `acquire` raises `RateLimitExceeded` if `remaining` at the same time is 0, and otherwise admits
  -- the call; then `remaining` is one less after it, if the member is new to the set. The limit is
  -- not negative, and the window is positive.
  pub acquire-remaining :
      (n w now at : ℕ) (m : String) (db : Db)
      → l.max_requests ≡ pos n
      → l.window_seconds ≡ pos (suc w)
      → lookup m (standing redis l k db).0 ≡ none
      → let left = (remaining redis l k now at db).0 in
        let (r, db') = acquire redis l k m now at db in
        (left ≡ 0 → r ≡ err rate_limit_exceeded)
        × (0 < left → (r ≡ ok true) × (suc (remaining redis l k now at db').0 ≡ left))
  acquire-remaining n w now at m db limit window fresh =
      let (r, db') = acquire redis l k m now at db in
      rw (remaining-eq n now at db limit, remaining-eq n now at db' limit)
        (agreed n w now at m (standing redis l k db) (standing redis l k db') r
          (leb_ℤ (pos n) (pos (zcard at (trimmed redis l k now at (standing redis l k db))))) window
          refl (acquire-Decides redis l k n m now at db limit) fresh)
