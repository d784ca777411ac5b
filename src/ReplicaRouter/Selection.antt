-- ===== src/ReplicaRouter/Selection.antt =====
-- Which replica `_select` and `route` (kit-data/kit_data/replica_router.py) choose.
use native.Mathlib.Nat.{mod-lt, mod-add-mod, mod-eq_of_lt, add-mod_right}
use mathlib.Core.Path.{subst}
use kit_api_optimization.Prelude.{
  ℕ, zero, suc, ◌+◌, ◌-◌, ◌*◌, ◌%◌, ◌≤◌, ◌<◌, leb, leb→le, sym, length, get_elem?, String,
  string_eq, Dict, lookup, IsDict, ◌≡◌, refl, ◌∙◌, ap, true, none, some, List, [], ◌∷◌, ◌++◌, arith,
  All, All-imp, Bool-cases, inl, inr, if◌then◌else◌,
}
use kit_api_optimization.Exceptions.{Result, ok, err, no_healthy_replicas}
use kit_api_optimization.ReplicaRouter.{
  Replica, Strategy, weighted, round_robin, ReplicaRouter, is_in, share, still_down, recover,
  up_among, healthy, get_or, total_share, pick_from, select, select_by, routed, route,
}

-- An entry is kept until its cooldown has passed.
pub lookup-still_down :
    (cooldown now : ℕ) (d : Dict String ℕ) (name : String)
    → IsDict d
    → lookup name (still_down cooldown now d) ≡ elim (lookup name d) [
      | none ↦ none
      | some t ↦ if leb (t + cooldown) now then none else some t
    ]
unfolding still_down
lookup-still_down cooldown now [] name h = refl
lookup-still_down cooldown now ((n, t) ∷ d) name h =
    ground (arith, string_eq.beq_iff n name, lookup-still_down cooldown now d name h.1)

-- From any count `a` some step below `n` leads to the remainder `i`.
step_to : (a i n : ℕ) → i < n → (k : ℕ) × (k < n) × ((a + k) % n ≡ i)
step_to a i n h = elim (Bool-cases (leb (a % n) i)) [
  | inl below ↦ (
    i - a % n,
    omega arith,
    sym (mod-add-mod a n (i - a % n))
        ∙ ap (λ s. s % n) (omega (arith, leb→le _ _ below))
        ∙ mod-eq_of_lt h,
  )
  | inr above ↦ (
    i + n - a % n,
    ground (arith, mod-lt a {m = n} (omega arith)),
    sym (mod-add-mod a n (i + n - a % n))
        ∙ ap (λ s. s % n) (ground (arith, mod-lt a {m = n} (omega arith)))
        ∙ add-mod_right i n
        ∙ mod-eq_of_lt h,
  )
]

module _ {T : Type 0} where
  get_or-All :
      (P : Replica T → Type 0) (i : ℕ) (d : Replica T) (pool : List (Replica T))
      → All P pool
      → P d
      → P (get_or pool i d)
  get_or-All P i d [] h p = p
  get_or-All P zero d (x ∷ xs) h p = h.0
  get_or-All P (suc i) d (x ∷ xs) h p = get_or-All P i d xs h.1 p

  pick_from-All :
      (P : Replica T → Type 0) (pick upto : ℕ) (last : Replica T) (pool : List (Replica T))
      → P last
      → All P pool
      → P (pick_from pick upto last pool)
  unfolding pick_from
  pick_from-All P pick upto last [] p h = p
  pick_from-All P pick upto last (r ∷ rs) p h =
      elim (Bool-cases (leb pick (1000000 * (upto + share r.weight)))) [
        | inl here ↦ rw here h.0
        | inr later ↦ rw later (pick_from-All P pick (upto + share r.weight) r rs h.0 h.1)
      ]

  -- The chosen replica has every property that the whole pool has: it is one of the pool.
  pub select-All :
      (P : Replica T → Type 0) (draw : ℕ → ℕ) (r : Replica T) (rs : List (Replica T))
      (router : ReplicaRouter T)
      → All P (r ∷ rs)
      → P (select draw r rs router).0
  unfolding select
  select-All P draw r rs router h = go router.strategy
    where
      go : (s : Strategy) → P (select_by s draw r rs router).0
      go round_robin = get_or-All P (router.rr % length (r ∷ rs)) r (r ∷ rs) h h.0
      go weighted = pick_from-All P (draw (total_share (r ∷ rs))) 0 r (r ∷ rs) h.0 h

  pick_from-skip :
      (before : List (Replica T)) (x : Replica T) (rest : List (Replica T)) (pick upto : ℕ)
      (last : Replica T)
      → 1000000 * (upto + total_share before) < pick
      → pick ≤ 1000000 * (upto + total_share before + share x.weight)
      → pick_from pick upto last (before ++ x ∷ rest) ≡ x
  unfolding pick_from total_share
  pick_from-skip [] x rest pick upto last low high = ground arith
  pick_from-skip (b ∷ before) x rest pick upto last low high =
      ground (arith, pick_from-skip before x rest pick (upto + share b.weight) b)

  -- A weighted choice falls on the replica in whose stretch of the shares the draw lies, and
  -- a stretch is as long as the replica's weight, which counts as 1 if it is below 1.
  pub weighted_share :
      (before : List (Replica T)) (x : Replica T) (rest : List (Replica T)) (draw : ℕ → ℕ)
      (r : Replica T) (rs : List (Replica T)) (router : ReplicaRouter T)
      → router.strategy ≡ weighted
      → r ∷ rs ≡ before ++ x ∷ rest
      → 1000000 * total_share before < draw (total_share (r ∷ rs))
      → draw (total_share (r ∷ rs)) ≤ 1000000 * (total_share before + share x.weight)
      → (select draw r rs router).0 ≡ x
  unfolding select
  weighted_share before x rest draw r rs router s pool low high =
      ap (λ strategy. (select_by strategy draw r rs router).0) s
      ∙ ap (pick_from (draw (total_share (r ∷ rs))) 0 r) pool
      ∙ pick_from-skip before x rest (draw (total_share (r ∷ rs))) 0 r (omega arith) (omega arith)

  -- The pool that `_recover` leaves: of the replicas, those that are not down.
  pub up_among-All :
      (down : Dict String ℕ) (rs : List (Replica T))
      → All (λ r. lookup r.name down ≡ none) (up_among down rs)
  unfolding up_among
  up_among-All down [] = tt
  up_among-All down (r ∷ rs) = ground (arith, up_among-All down rs)

  nil-up_among :
      (down : Dict String ℕ) (rs : List (Replica T))
      → up_among down rs ≡ []
      → All (λ r. is_in r.name down ≡ true) rs
  unfolding up_among
  nil-up_among down [] h = tt
  nil-up_among down (r ∷ rs) h = ground (arith, nil-up_among down rs)

  -- Whether a replica may be used at the reading `now`: it is not marked down, or its cooldown has
  -- passed.
  abbrev pub MayServe : ReplicaRouter T → ℕ → Replica T → Type 0
  MayServe router now r = elim (lookup r.name router.down) [
    | none ↦ Unit
    | some t ↦ t + router.cooldown ≤ now
  ]

  MayServe-up :
      (router : ReplicaRouter T) (now : ℕ) (r : Replica T)
      → IsDict router.down
      → lookup r.name (still_down router.cooldown now router.down) ≡ none
      → MayServe router now r
  MayServe-up router now r d h =
      ground (arith, lookup-still_down router.cooldown now router.down r.name d)

  not-MayServe :
      (router : ReplicaRouter T) (now : ℕ) (r : Replica T)
      → IsDict router.down
      → is_in r.name (still_down router.cooldown now router.down) ≡ true
      → ¬ MayServe router now r
  not-MayServe router now r d h serves =
      ground (arith, lookup-still_down router.cooldown now router.down r.name d)

  -- What `route` may come to at the reading `now`.
  abbrev pub Routes : ReplicaRouter T → ℕ → Result (Replica T) → Type 0
  Routes router now (ok r) = MayServe router now r
  Routes router now (err x) =
      (x ≡ no_healthy_replicas) × All (λ r. ¬ MayServe router now r) router.replicas

  routed-Routes :
      (draw : ℕ → ℕ) (now : ℕ) (router router' : ReplicaRouter T) (pool : List (Replica T))
      → IsDict router.down
      → up_among (still_down router.cooldown now router.down) router.replicas ≡ pool
      → Routes router now (routed draw (pool, router')).0
  unfolding routed
  routed-Routes draw now router router' [] d e = (
    refl,
    All-imp _ _ router.replicas (λ r. not-MayServe router now r d)
        (nil-up_among (still_down router.cooldown now router.down) router.replicas e),
  )
  routed-Routes draw now router router' (r ∷ rs) d e =
      select-All (MayServe router now) draw r rs router' (
        All-imp (λ x. lookup x.name down ≡ none) (MayServe router now) (r ∷ rs)
          (λ x. MayServe-up router now x d)
          (subst (All (λ x. lookup x.name down ≡ none)) e (up_among-All down router.replicas)))
    where
      down : Dict String ℕ
      down = still_down router.cooldown now router.down

  -- `route` returns a replica that is not marked down or whose cooldown is over, or it raises
  -- `NoHealthyReplicas`, and that only if every replica is still in its cooldown.
  pub route_serves :
      (draw : ℕ → ℕ) (now : ℕ) (router : ReplicaRouter T)
      → IsDict router.down
      → Routes router now (route draw now router).0
  unfolding route healthy recover
  route_serves draw now router d = routed-Routes draw now router _ _ d refl

  get_elem?-get_or :
      (pool : List (Replica T)) (i : ℕ) (d : Replica T)
      → i < length pool
      → get_elem? pool i ≡ some (get_or pool i d)
  get_elem?-get_or [] i d h = elim h [ ]
  get_elem?-get_or (x ∷ xs) zero d h = refl
  get_elem?-get_or (x ∷ xs) (suc i) d h = get_elem?-get_or xs i d (omega arith)

  -- The router after `k` more round-robin choices.
  pub turns : ℕ → (ℕ → ℕ) → Replica T → List (Replica T) → ReplicaRouter T → ReplicaRouter T
  turns zero draw r rs router = router
  turns (suc k) draw r rs router = turns k draw r rs (select draw r rs router).1

  turns-rr :
      (k : ℕ) (draw : ℕ → ℕ) (r : Replica T) (rs : List (Replica T)) (router : ReplicaRouter T)
      → router.strategy ≡ round_robin
      → turns k draw r rs router ≡ record router { rr = router.rr + k }
  unfolding turns select
  turns-rr zero draw r rs router s = ground arith
  turns-rr (suc k) draw r rs router s =
      ground (arith, turns-rr k draw r rs (record router { rr = router.rr + 1 }) s)

  -- Over a pool of `n` replicas the choice number `k` from now on is the one at place
  -- `(rr + k) % n`.
  pub round_robin_turn :
      (k : ℕ) (draw : ℕ → ℕ) (r : Replica T) (rs : List (Replica T)) (router : ReplicaRouter T)
      → router.strategy ≡ round_robin
      → some (select draw r rs (turns k draw r rs router)).0
        ≡ get_elem? (r ∷ rs) ((router.rr + k) % length (r ∷ rs))
  unfolding select
  round_robin_turn k draw r rs router s = ground (
    arith,
    turns-rr k draw r rs router s,
    get_elem?-get_or (r ∷ rs) ((router.rr + k) % length (r ∷ rs)) r (mod-lt _ (omega arith)),
  )

  -- Every replica of a pool of `n` is taken within the next `n` choices.
  pub round_robin_covers :
      (i : ℕ) (draw : ℕ → ℕ) (r : Replica T) (rs : List (Replica T)) (router : ReplicaRouter T)
      → router.strategy ≡ round_robin
      → i < length (r ∷ rs)
      → (k : ℕ) × (k < length (r ∷ rs))
        × (some (select draw r rs (turns k draw r rs router)).0 ≡ get_elem? (r ∷ rs) i)
  round_robin_covers i draw r rs router s h =
      let (k, below, lands) = step_to router.rr i (length (r ∷ rs)) h in
      (k, below, round_robin_turn k draw r rs router s ∙ ap (get_elem? (r ∷ rs)) lands)
