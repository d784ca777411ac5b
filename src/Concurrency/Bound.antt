-- ===== src/Concurrency/Bound.antt =====
-- How many tokens `ConcurrencyLimiter` (kit-data/kit_data/concurrency.py) lets stand.
use kit_api_optimization.Prelude.{
  ℕ, zero, suc, ◌+◌, ◌≤◌, length, ℤ, pos, negsuc, String, string_eq, eq_refl, Dict, insert, erase,
  ◌≡◌, ◌≢◌, refl, ap, ◌∙◌, Option, none, some, [], ◌∷◌, arith,
}
use kit_api_optimization.Redis.Expiring.{valid_ttl}
use kit_api_optimization.Redis.Sorted.{
  Entry, Command, zadd, zremrangebyscore, zrem, expire, del, live, above, expiring, on_live,
  present, step, Sorted, zcard,
}
use kit_api_optimization.Concurrency.{ConcurrencyLimiter, key, oldest, claim}

abbrev pub size : Entry → ℕ
size e = length e.0

size-present : (e : Entry) → size (present e) ≡ size e
size-present ([], expiry) = refl
size-present (m ∷ members, expiry) = refl

size-live : (now : ℕ) (e : Entry) → size (live now e) ≤ size e
size-live now (members, none) = omega arith
size-live now (members, some expiry) = ground arith

size-above : (bound : ℤ) (d : Dict String ℕ) → length (above bound d) ≤ length d
unfolding above
size-above bound [] = omega arith
size-above bound ((m, score) ∷ d) = ground (arith, size-above bound d)

size-erase : (m : String) (d : Dict String ℕ) → length (erase m d) ≤ length d
size-erase m [] = omega arith
size-erase m ((j, score) ∷ d) = ground (arith, size-erase m d)

-- A new member that is erased again leaves no more than there were.
size-erase-insert :
    (m : String) (score : ℕ) (d : Dict String ℕ) → length (erase m (insert m score d)) ≤ length d
size-erase-insert m score [] = ground (arith, string_eq.beq_iff m m)
size-erase-insert m score ((j, other) ∷ d) =
    ground (arith, string_eq.beq_iff j m, size-erase m d, size-erase-insert m score d)

size-erase-above :
    (m : String) (bound : ℤ) (d : Dict String ℕ)
    → length (erase m (above bound d)) ≤ length (erase m d)
unfolding above
size-erase-above m bound [] = omega arith
size-erase-above m bound ((j, score) ∷ d) = ground (arith, size-erase-above m bound d)

size-above-insert :
    (m : String) (bound : ℤ) (score : ℕ) (d : Dict String ℕ)
    → length (above bound (insert m score d)) ≤ length (above bound d) + 1
unfolding above
size-above-insert m bound score [] = ground arith
size-above-insert m bound score ((j, other) ∷ d) = ground (arith, size-above-insert m bound score d)

-- Every command but ZADD leaves at most as many members as there were.
pub size-drop :
    (now : ℕ) (x : Command) (e : Entry)
    → ((m : String) (score : ℕ) → x ≢ zadd m score)
    → size (step now x e) ≤ size e
unfolding step
size-drop now (zadd m score) e h = absurd (h m score refl)
size-drop now (zremrangebyscore bound) e h = omega (
  arith,
  size-present (on_live now (zremrangebyscore bound) (live now e)),
  size-above bound (live now e).0,
  size-live now e,
)
size-drop now (zrem m) e h = omega (
  arith,
  size-present (on_live now (zrem m) (live now e)),
  size-erase m (live now e).0,
  size-live now e,
)
size-drop now (expire ttl) e h = omega (
  arith,
  size-present (expiring now (live now e).0 (valid_ttl ttl)),
  size-expiring (valid_ttl ttl),
  size-live now e,
)
  where
    size-expiring : (ttl' : Option ℕ) → size (expiring now (live now e).0 ttl') ≤ size (live now e)
    size-expiring none = omega arith
    size-expiring (some d) = omega arith
size-drop now del e h = omega arith

-- The members of an entry but for one.
abbrev pub others : String → Entry → ℕ
others m e = length (erase m e.0)

others-present : (m : String) (e : Entry) → others m (present e) ≡ others m e
others-present m ([], expiry) = refl
others-present m (j ∷ members, expiry) = refl

others-live : (m : String) (now : ℕ) (e : Entry) → others m (live now e) ≤ others m e
others-live m now (members, none) = omega arith
others-live m now (members, some expiry) = ground arith

others-trim :
    (m : String) (now : ℕ) (bound : ℤ) (e : Entry)
    → others m (step now (zremrangebyscore bound) e) ≤ others m e
unfolding step
others-trim m now bound e = omega (
  arith,
  others-present m (on_live now (zremrangebyscore bound) (live now e)),
  size-erase-above m bound (live now e).0,
  others-live m now e,
)

others-expire :
    (m : String) (now : ℕ) (ttl : ℤ) (e : Entry) → others m (step now (expire ttl) e) ≤ others m e
unfolding step
others-expire m now ttl e = omega (
  arith,
  others-present m (expiring now (live now e).0 (valid_ttl ttl)),
  go (valid_ttl ttl),
  others-live m now e,
)
  where
    go : (ttl' : Option ℕ) → others m (expiring now (live now e).0 ttl') ≤ others m (live now e)
    go none = omega arith
    go (some d) = omega arith

others-zadd :
    (m : String) (now score : ℕ) (e : Entry) → others m (step now (zadd m score) e) ≤ size e
unfolding step
others-zadd m now score e = omega (
  arith,
  others-present m (on_live now (zadd m score) (live now e)),
  size-erase-insert m score (live now e).0,
  size-live now e,
)

pub size-zrem : (m : String) (now : ℕ) (e : Entry) → size (step now (zrem m) e) ≤ others m e
unfolding step
size-zrem m now e =
    omega (arith, size-present (on_live now (zrem m) (live now e)), others-live m now e)

-- What EXPIRE leaves is alive.
size-live-expire :
    (now : ℕ) (ttl : ℤ) (e : Entry)
    → size (step now (expire ttl) e) ≤ zcard now (step now (expire ttl) e)
unfolding step
size-live-expire now ttl e = go ttl (live now e).0
  where
    go :
        (t : ℤ) (members : Dict String ℕ)
        → size (present (expiring now members (valid_ttl t)))
          ≤ zcard now (present (expiring now members (valid_ttl t)))
    go (pos zero) members = omega arith
    go (negsuc n) members = omega arith
    go (pos (suc n)) [] = omega arith
    go (pos (suc n)) (m ∷ members) = ground arith

module _ (redis : Sorted) (l : ConcurrencyLimiter) where
  open redis use {Db, entry, send, entry-send}

  -- The tokens that stand in Redis.
  abbrev pub standing : Db → Entry
  standing db = entry (key l) db

  pub standing-send :
      (now : ℕ) (x : Command) (db : Db)
      → standing (send now (key l) x db) ≡ step now x (standing db)
  standing-send now x db = rw (entry-send now (key l) (key l) x db, eq_refl (key l)) refl

  standing-claim :
      (token : String) (now at : ℕ) (db : Db)
      → standing (claim redis l token now at db)
        ≡ step at
            (expire l.max_hold_seconds)
            (step at (zremrangebyscore (oldest l now)) (step at (zadd token now) (standing db)))
  unfolding claim
  standing-claim token now at db =
      let added = send at (key l) (zadd token now) db in
      let trimmed = send at (key l) (zremrangebyscore (oldest l now)) added in
      standing-send at (expire l.max_hold_seconds) trimmed
      ∙ ap (step at (expire l.max_hold_seconds))
          (standing-send at (zremrangebyscore (oldest l now)) added)
      ∙ ap (λ e. step at (expire l.max_hold_seconds) (step at (zremrangebyscore (oldest l now)) e))
          (standing-send at (zadd token now) db)

  pub others-claim :
      (token : String) (now at : ℕ) (db : Db)
      → others token (standing (claim redis l token now at db)) ≤ size (standing db)
  others-claim token now at db =
      let added = step at (zadd token now) (standing db) in
      let trimmed = step at (zremrangebyscore (oldest l now)) added in
      omega (
        arith,
        ap (others token) (standing-claim token now at db),
        others-expire token at l.max_hold_seconds trimmed,
        others-trim token at (oldest l now) added,
        others-zadd token at now (standing db),
      )

  pub size-claim :
      (token : String) (now at : ℕ) (db : Db)
      → size (standing (claim redis l token now at db))
        ≤ zcard at (standing (claim redis l token now at db))
  size-claim token now at db =
      let trimmed =
        step at (zremrangebyscore (oldest l now)) (step at (zadd token now) (standing db)) in
      omega (
        arith,
        ap size (standing-claim token now at db),
        ap (zcard at) (standing-claim token now at db),
        size-live-expire at l.max_hold_seconds trimmed,
      )
