-- ===== src/RateLimiter/Window.antt =====
-- The sliding window of `RateLimiter` (kit-api/kit_api/rate_limiter.py): how many calls `acquire`
-- admits in any stretch of time of the length of the window.
use kit_api_optimization.Prelude.{
  ℕ, suc, ◌+◌, ◌≤◌, ◌<◌, leb, ltb, leb_ℤ, ◌-ℤ◌, ℤ, pos, String, string_eq, Dict, insert, lookup,
  lookup-insert, IsDict, All, All-imp, ◌≡◌, refl, ap, Bool, true, false, Bool-cases, inl, inr, ◌&&◌,
  none, some, List, [], ◌∷◌, arith, if◌then◌else◌,
}
use kit_api_optimization.Exceptions.{Result, ok, err}
use kit_api_optimization.Redis.Expiring.{seconds}
use kit_api_optimization.Redis.Sorted.{Entry, live, step, zremrangebyscore, Sorted, zcard}
use kit_api_optimization.RateLimiter.{RateLimiter, oldest, acquire}
use kit_api_optimization.RateLimiter.Admission.{
  count, size-above, size-above-insert, count-live, count-trim, add-eq, lookup-live, lookup-trimmed,
  standing, trimmed, Decides, acquire-Decides,
}

-- The times of a log in the stretch of length `w` that ends at `t`.
abbrev pub recent : ℕ → ℕ → List ℕ → ℕ
recent w t [] = 0
recent w t (x ∷ log) =
    let rest = recent w t log in if leb x t && ltb t (x + w) then suc rest else rest

abbrev Before : ℕ → List ℕ → Type 0
Before t log = All (λ x. x ≤ t) log

recent_over : (w t s : ℕ) (log : List ℕ) → Before s log → s + w ≤ t → recent w t log ≡ 0
recent_over w t s [] h late = refl
recent_over w t s (x ∷ log) h late = ground (arith, recent_over w t s log, h)

recent_later : (w s t : ℕ) (log : List ℕ) → Before s log → s ≤ t → recent w t log ≤ recent w s log
recent_later w s t [] h later = omega arith
recent_later w s t (x ∷ log) h later = ground (arith, recent_later w s t log, h)

Before-later : (s t : ℕ) (log : List ℕ) → s ≤ t → Before s log → Before t log
Before-later s t log later h =
    All-imp (λ x. x ≤ s) (λ x. x ≤ t) log (λ x le. omega (arith, le, later)) h

-- Requests, each a member and a time: no member stands among those of the set.
abbrev pub Fresh : List (String × ℕ) → Dict String ℕ → Type 0
Fresh requests d = All (λ r. lookup r.0 d ≡ none) requests

-- The times do not go back.
abbrev pub Ordered : ℕ → List (String × ℕ) → Type 0
Ordered last [] = Unit
Ordered last ((m, t) ∷ requests) = (last ≤ t) × Ordered t requests

-- What holds of the log of the times admitted, newest first, and the sorted set, after the last call:
-- what is recent by the log is counted in the set.
record Inv (n w last : ℕ) (log : List ℕ) (e : Entry) : Type 0 where
  before : Before last log
  counted : (t : ℕ) → last ≤ t → recent (seconds (suc w)) t log ≤ count (oldest (pos (suc w)) t) t e
  bounded : (t : ℕ) → recent (seconds (suc w)) t log ≤ n

-- The bounds of the window move with the time.
oldest_later : (w s t : ℕ) → s ≤ t → leb_ℤ (oldest (pos w) s) (oldest (pos w) t) ≡ true
unfolding ◌-ℤ◌
oldest_later w s t h = ground arith

in_window : (w s t : ℕ) → leb_ℤ (pos s) (oldest (pos w) t) ≡ leb (s + seconds w) t
unfolding ◌-ℤ◌
in_window w s t = ground arith

Inv-trimmed :
    (n w last t : ℕ) (log : List ℕ) (e : Entry)
    → last ≤ t
    → Inv n w last log e
    → Inv n w t log (step t (zremrangebyscore (oldest (pos (suc w)) t)) e)
Inv-trimmed n w last t log e later inv = record {
  before = Before-later last t log later inv.before;
  counted = λ τ h. omega (
    arith,
    inv.counted τ (omega (arith, later, h)),
    count-trim (oldest (pos (suc w)) t) (oldest (pos (suc w)) τ) t τ e (oldest_later (suc w) t τ h)
        h,
  );
  bounded = inv.bounded;
}

Inv-recorded :
    (n w t : ℕ) (m : String) (log : List ℕ) (e : Entry)
    → Inv n w t log e
    → zcard t e < n
    → lookup m (live t e).0 ≡ none
    → Inv n w t (t ∷ log) (insert m t (live t e).0, some (t + seconds (suc w)))
Inv-recorded n w t m log e inv room fresh = record {
  before = (omega arith, inv.before);
  counted = λ τ h. elim (Bool-cases (ltb τ (t + seconds (suc w)))) [
    | inl within ↦ ground (
      arith,
      within,
      h,
      in_window (suc w) t τ,
      inv.counted τ h,
      count-live (oldest (pos (suc w)) τ) t τ e h,
      size-above-insert m (oldest (pos (suc w)) τ) t (live t e).0 fresh,
    )
    | inr over ↦ ground (arith, over, recent_over (seconds (suc w)) τ t log inv.before)
  ];
  bounded = λ τ. elim (Bool-cases (leb t τ && ltb τ (t + seconds (suc w)))) [
    | inl within ↦ ground (
      arith,
      within,
      room,
      inv.counted t (omega arith),
      recent_later (seconds (suc w)) t τ log inv.before,
      size-above (oldest (pos (suc w)) t) (live t e).0,
    )
    | inr outside ↦ ground (arith, outside, inv.bounded τ)
  ];
}

Fresh-trimmed :
    (t : ℕ) (b : ℤ) (e : Entry) (requests : List (String × ℕ))
    → Fresh requests e.0
    → Fresh requests (step t (zremrangebyscore b) e).0
Fresh-trimmed t b e requests h =
    All-imp (λ r. lookup r.0 e.0 ≡ none) (λ r. lookup r.0 (step t (zremrangebyscore b) e).0 ≡ none)
      requests (λ r. lookup-trimmed r.0 t b e) h

-- A new member is none of those that are still to come.
Fresh-recorded :
    (m : String) (t : ℕ) (e : Entry) (requests : List (String × ℕ))
    → lookup m requests ≡ none
    → Fresh requests e.0
    → Fresh requests (insert m t (live t e).0)
Fresh-recorded m t e [] new h = tt
Fresh-recorded m t e ((j, s) ∷ requests) new h = (
  ground (
    arith,
    new,
    h,
    lookup-insert m j t (live t e).0,
    lookup-live j t e h.0,
    string_eq.beq_iff m j,
    string_eq.beq_iff j m,
  ),
  Fresh-recorded m t e requests (ground (arith, new)) h.1,
)

-- the log of the times admitted, after the answer to one more call
abbrev logged : Result Bool → ℕ → List ℕ → List ℕ
logged (ok _) t log = t ∷ log
logged (err _) t log = log

module _ (redis : Sorted) (l : RateLimiter) (k : String) where
  open redis use {Db}

  -- One call after another, each at a time of a clock that the server shares.
  unfoldable pub run : List (String × ℕ) → List ℕ → Db → List ℕ
  run [] log db = log
  run ((m, t) ∷ requests) log db =
      let (r, db') = acquire redis l k m t t db in run requests (logged r t log) db'

  module _ (n w : ℕ) (limit : l.max_requests ≡ pos n)
      (window : l.window_seconds ≡ pos (suc w)) where
    -- What a call leaves, by whether the window was full.
    settled :
        (last t : ℕ) (m : String) (requests : List (String × ℕ)) (log : List ℕ) (e after : Entry)
        (r : Result Bool) (full : Bool)
        → leb_ℤ (pos n) (pos (zcard t (trimmed redis l k t t e))) ≡ full
        → Decides redis l k n m t t e full r after
        → last ≤ t
        → lookup m requests ≡ none
        → Fresh ((m, t) ∷ requests) e.0
        → Inv n w last log e
        → Inv n w t (logged r t log) after × Fresh requests after.0
    settled last t m requests log e after r true full d later new fresh inv =
        rw (d.0, d.1, window)
          (
            Inv-trimmed n w last t log e later inv,
            Fresh-trimmed t (oldest (pos (suc w)) t) e requests fresh.1,
          )
    settled last t m requests log e after r false full d later new fresh inv =
        let e' = step t (zremrangebyscore (oldest (pos (suc w)) t)) e in
        rw (d.0, d.1, window, add-eq t m t w e')
          (
            Inv-recorded n w t m log e' (Inv-trimmed n w last t log e later inv)
                (ground (
                  arith,
                  full,
                  ap (λ x. zcard t (step t (zremrangebyscore (oldest x t)) e)) window,
                ))
                (lookup-live m t e' (lookup-trimmed m t (oldest (pos (suc w)) t) e fresh.0)),
            Fresh-recorded m t e' requests new
                (Fresh-trimmed t (oldest (pos (suc w)) t) e requests fresh.1),
          )

    run_lem :
        (requests : List (String × ℕ)) (last : ℕ) (log : List ℕ) (db : Db)
        → IsDict requests
        → Ordered last requests
        → Fresh requests (standing redis l k db).0
        → Inv n w last log (standing redis l k db)
        → (t : ℕ) → recent (seconds (suc w)) t (run requests log db) ≤ n
    unfolding run
    run_lem [] last log db dict ordered fresh inv t = inv.bounded t
    run_lem ((m, s) ∷ requests) last log db dict ordered fresh inv t =
        let (r, db') = acquire redis l k m s s db in
        let left =
          settled last s m requests log (standing redis l k db) (standing redis l k db') r
            (leb_ℤ (pos n) (pos (zcard s (trimmed redis l k s s (standing redis l k db))))) refl
            (acquire-Decides redis l k n m s s db limit) ordered.0 dict.0 fresh inv in
        run_lem requests s (logged r s log) db' dict.1 ordered.1 left.1 left.0 t

    Fresh-empty : (requests : List (String × ℕ)) → Fresh requests []
    Fresh-empty [] = tt
    Fresh-empty (r ∷ requests) = (refl, Fresh-empty requests)

    -- Let calls of `acquire` for one key be made one after another, at times that do not go back and
    -- with members that differ, from a set without members. Then every stretch of time of the length
    -- of the window holds at most `max_requests` calls that are admitted.
    pub run_bounded :
        (requests : List (String × ℕ)) (db : Db)
        → standing redis l k db ≡ ([], none)
        → IsDict requests
        → Ordered 0 requests
        → (t : ℕ) → recent (seconds (suc w)) t (run requests [] db) ≤ n
    run_bounded requests db start dict ordered =
        run_lem requests 0 [] db dict ordered (rw start (Fresh-empty requests)) (
          rw start
            (record { before = tt; counted = λ t h. omega arith; bounded = λ t. omega arith }))
