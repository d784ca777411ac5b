-- ===== src/RateLimiter/Admission.antt =====
-- What one call of `RateLimiter` (kit-api/kit_api/rate_limiter.py) does to the sorted set of its key,
-- and how `acquire` and `remaining` agree.
use kit_api_optimization.Prelude.{
  ℕ, suc, ◌+◌, ◌≤◌, leb, leb_ℤ, ◌-ℤ◌, length, ℤ, pos, String, string_eq, eq_refl, Dict, insert,
  lookup, ◌≡◌, refl, sym, ap, ◌∙◌, Bool, Bool-cases, inl, inr, true, false, Option, none, some, [],
  ◌∷◌, arith, if◌then◌else◌,
}
use kit_api_optimization.Exceptions.{Result, ok, err, rate_limit_exceeded}
use kit_api_optimization.Redis.Expiring.{seconds}
use kit_api_optimization.Redis.Sorted.{
  Entry, Command, zadd, zremrangebyscore, expire, live, above, present, step, Sorted, zcard,
}
use kit_api_optimization.RateLimiter.{RateLimiter, key, oldest, admitted, script, acquire}

-- The members of a key above a score that are alive at a time.
abbrev pub count : ℤ → ℕ → Entry → ℕ
count bound t e = length (above bound (live t e).0)

pub above-above : (b c : ℤ) (d : Dict String ℕ) → leb_ℤ b c ≡ true → above c (above b d) ≡ above c d
unfolding above
above-above b c [] h = refl
above-above b c ((m, score) ∷ d) h = ground (arith, above-above b c d h, h)

pub lookup-above :
    (m : String) (b : ℤ) (d : Dict String ℕ) → lookup m d ≡ none → lookup m (above b d) ≡ none
unfolding above
lookup-above m b [] h = refl
lookup-above m b ((j, score) ∷ d) h = ground (arith, lookup-above m b d, h)

pub size-above : (b : ℤ) (d : Dict String ℕ) → length (above b d) ≤ length d
unfolding above
size-above b [] = omega arith
size-above b ((m, score) ∷ d) = ground (arith, size-above b d)

-- A member that is new counts if its score is above the bound.
pub size-above-insert :
    (m : String) (b : ℤ) (score : ℕ) (d : Dict String ℕ)
    → lookup m d ≡ none
    → length (above b (insert m score d))
      ≡ (if leb_ℤ (pos score) b then length (above b d) else suc (length (above b d)))
unfolding above
size-above-insert m b score [] h = ground arith
size-above-insert m b score ((j, other) ∷ d) h = ground (arith, size-above-insert m b score d, h)

-- What is alive at a time was alive before.
pub count-live : (c : ℤ) (s t : ℕ) (e : Entry) → s ≤ t → count c t e ≤ count c s e
unfolding above
count-live c s t (d, none) h = omega arith
count-live c s t (d, some x) h = ground (arith, h)

count-present :
    (c : ℤ) (t : ℕ) (d : Dict String ℕ) (expiry : Option ℕ)
    → count c t (present (d, expiry)) ≡ count c t (d, expiry)
unfolding above
count-present c t [] none = refl
count-present c t [] (some x) = ground arith
count-present c t (m ∷ d) expiry = refl

-- Trimming a set below the bound does not change what is counted.
pub count-trim :
    (b c : ℤ) (s t : ℕ) (e : Entry)
    → leb_ℤ b c ≡ true
    → s ≤ t
    → count c t (step s (zremrangebyscore b) e) ≡ count c t e
unfolding step above
count-trim b c s t (d, none) h later =
    count-present c t (above b d) none ∙ ap length (above-above b c d h)
count-trim b c s t (d, some x) h later = elim (Bool-cases (leb x s)) [
  | inl gone ↦ rw gone (ground (arith, gone, later))
  | inr alive ↦
      rw alive (count-present c t (above b d) (some x) ∙ ground (arith, above-above b c d h))
]

-- What ZADD and EXPIRE leave: the members that were alive and the new one, until the window is over.
pub add-eq :
    (t : ℕ) (m : String) (score w : ℕ) (e : Entry)
    → step t (expire (pos (suc w))) (step t (zadd m score) e)
      ≡ (insert m score (live t e).0, some (t + seconds (suc w)))
unfolding step
add-eq t m score w ([], none) = refl
add-eq t m score w ((j, other) ∷ d, none) = ground arith
add-eq t m score w ([], some x) = ground arith
add-eq t m score w ((j, other) ∷ d, some x) = ground arith

pub lookup-live :
    (m : String) (t : ℕ) (e : Entry) → lookup m e.0 ≡ none → lookup m (live t e).0 ≡ none
lookup-live m t (d, none) h = h
lookup-live m t (d, some x) h = ground (arith, h)

pub lookup-trimmed :
    (m : String) (t : ℕ) (b : ℤ) (e : Entry)
    → lookup m e.0 ≡ none
    → lookup m (step t (zremrangebyscore b) e).0 ≡ none
unfolding step
lookup-trimmed m t b e h =
    lookup-present (above b (live t e).0) (live t e).1
    ∙ lookup-above m b (live t e).0 (lookup-live m t e h)
  where
    lookup-present : (d : Dict String ℕ) (x : Option ℕ) → lookup m (present (d, x)).0 ≡ lookup m d
    lookup-present [] x = refl
    lookup-present (i ∷ d) x = refl

left_admitted :
    (n c : ℕ) → leb_ℤ (pos n) (pos c) ≡ false → admitted (pos n -ℤ pos c -ℤ pos 1) ≡ ok true
unfolding ◌-ℤ◌
left_admitted n c h = ground arith

module _ (redis : Sorted) (l : RateLimiter) (k : String) where
  open redis use {Db, entry, send, entry-send}

  -- The sorted set of the key.
  abbrev pub standing : Db → Entry
  standing db = entry (key l k) db

  -- The sorted set once it is trimmed.
  abbrev pub trimmed : ℕ → ℕ → Entry → Entry
  trimmed now at e = step at (zremrangebyscore (oldest l.window_seconds now)) e

  -- The sorted set once a call is recorded in it.
  abbrev pub recorded : String → ℕ → ℕ → Entry → Entry
  recorded member now at e = step at (expire l.window_seconds) (step at (zadd member now) e)

  pub standing-send :
      (at : ℕ) (x : Command) (db : Db) → standing (send at (key l k) x db) ≡ step at x (standing db)
  standing-send at x db = rw (entry-send at (key l k) (key l k) x db, eq_refl (key l k)) refl

  standing-trimmed :
      (now at : ℕ) (db : Db)
      → standing (send at (key l k) (zremrangebyscore (oldest l.window_seconds now)) db)
        ≡ trimmed now at (standing db)
  standing-trimmed now at db = standing-send at (zremrangebyscore (oldest l.window_seconds now)) db

  standing-recorded :
      (member : String) (now at : ℕ) (db : Db)
      → standing
          (send at (key l k) (expire l.window_seconds) (send at (key l k) (zadd member now) db))
        ≡ recorded member now at (standing db)
  standing-recorded member now at db =
      standing-send at (expire l.window_seconds) (send at (key l k) (zadd member now) db)
      ∙ ap (step at (expire l.window_seconds)) (standing-send at (zadd member now) db)

  -- What a call may come to, for the number of members in the window: it is admitted and recorded,
  -- or it raises and only the trimming stays.
  abbrev pub Decides : ℕ → String → ℕ → ℕ → Entry → Bool → Result Bool → Entry → Type 0
  Decides n member now at e true r after =
      (r ≡ err rate_limit_exceeded) × (after ≡ trimmed now at e)
  Decides n member now at e false r after =
      (r ≡ ok true) × (after ≡ recorded member now at (trimmed now at e))

  pub acquire-Decides :
      (n : ℕ) (member : String) (now at : ℕ) (db : Db)
      → l.max_requests ≡ pos n
      → let (r, db') = acquire redis l k member now at db in
        Decides n member now at
          (standing db)
          (leb_ℤ (pos n) (pos (zcard at (trimmed now at (standing db)))))
          r
          (standing db')
  unfolding acquire script
  acquire-Decides n member now at db limit =
      let db0 = send at (key l k) (zremrangebyscore (oldest l.window_seconds now)) db in
      let same = standing-trimmed now at db in
      elim (Bool-cases (leb_ℤ (pos n) (pos (zcard at (standing db0))))) [
        | inl full ↦ simp (limit, sym same, full) (refl, refl)
        | inr room ↦
            simp (limit, sym same, room)
              (left_admitted n (zcard at (standing db0)) room, standing-recorded member now at db0)
      ]
