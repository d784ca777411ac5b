-- ===== src/ReplicaRouter/Failover.antt =====
-- The failover of `run` (kit-data/kit_data/replica_router.py).
use mathlib.Core.Path.{subst}
use kit_api_optimization.Prelude.{
  ℕ, zero, suc, ◌+◌, ◌≤◌, ◌<◌, length, String, string_eq, Dict, elem, lookup, lookup-insert, ◌≡◌,
  ◌≢◌, refl, ap, sym, true, false, Option, none, some, List, [], ◌∷◌, arith, All, All-imp,
  Bool-cases, inl, inr,
}
use kit_api_optimization.Exceptions.{Error, Result, ok, err, Method}
use kit_api_optimization.ReplicaRouter.{
  Replica, ReplicaRouter, is_in, still_down, recover, up_among, healthy, select, mark_down, untried,
  after_call, try_pool, failover, run,
}
use kit_api_optimization.ReplicaRouter.Selection.{select-All}

module _ {T : Type 0} where
  -- Among `rs`, the replicas that have not been tried.
  untried-All :
      (tried : List String) (rs : List (Replica T))
      → All (λ r. elem r.name tried ≡ false) (untried tried rs)
  unfolding untried
  untried-All tried [] = tt
  untried-All tried (r ∷ rs) = ground (arith, untried-All tried rs)

  untried-All-of :
      (P : Replica T → Type 0) (tried : List String) (rs : List (Replica T))
      → All P rs
      → All P (untried tried rs)
  unfolding untried
  untried-All-of P tried [] h = tt
  untried-All-of P tried (r ∷ rs) h = elim (Bool-cases (elem r.name tried)) [
    | inl old ↦ rw old (untried-All-of P tried rs h.1)
    | inr new ↦ rw new (h.0, untried-All-of P tried rs h.1)
  ]

  up_among-All-of :
      (P : Replica T → Type 0) (down : Dict String ℕ) (rs : List (Replica T))
      → All P rs
      → All P (up_among down rs)
  unfolding up_among
  up_among-All-of P down [] h = tt
  up_among-All-of P down (r ∷ rs) h = elim (Bool-cases (is_in r.name down)) [
    | inl gone ↦ rw gone (up_among-All-of P down rs h.1)
    | inr up ↦ rw up (h.0, up_among-All-of P down rs h.1)
  ]

  abbrev pub names : List (Replica T) → List String
  names [] = []
  names (r ∷ rs) = r.name ∷ names rs

  -- Trying a name that has not been tried leaves fewer.
  untried-le :
      (name : String) (tried : List String) (rs : List (Replica T))
      → length (untried (name ∷ tried) rs) ≤ length (untried tried rs)
  unfolding untried
  untried-le name tried [] = omega arith
  untried-le name tried (r ∷ rs) = ground (arith, untried-le name tried rs)

  untried-lt :
      (name : String) (tried : List String) (rs : List (Replica T))
      → elem name (names rs) ≡ true
      → elem name tried ≡ false
      → length (untried (name ∷ tried) rs) < length (untried tried rs)
  unfolding untried
  untried-lt name tried [] m new = cc
  untried-lt name tried (r ∷ rs) m new = ground (
    arith,
    untried-lt name tried rs,
    untried-le name tried rs,
    string_eq.beq_iff r.name name,
    string_eq.beq_iff name r.name,
  )

  untried_all : (rs : List (Replica T)) → length (untried [] rs) ≡ length rs
  unfolding untried
  untried_all [] = refl
  untried_all (r ∷ rs) = ap suc (untried_all rs)

  names_of_All : (rs : List (Replica T)) → All (λ r. elem r.name (names rs) ≡ true) rs
  names_of_All [] = tt
  names_of_All (r ∷ rs) = (
    ground (arith, string_eq.beq_iff r.name r.name),
    All-imp _ _ rs (λ x h. ground (arith, h)) (names_of_All rs),
  )

  -- A replica that is up and has not been tried is in the pool.
  elem-pool :
      (name : String) (tried : List String) (down : Dict String ℕ) (rs : List (Replica T))
      → elem name (names rs) ≡ true
      → elem name tried ≡ false
      → lookup name down ≡ none
      → elem name (names (untried tried (up_among down rs))) ≡ true
  unfolding untried up_among
  elem-pool name tried down [] m new up = m
  elem-pool name tried down (r ∷ rs) m new up =
      ground (arith, string_eq.beq_iff r.name name, elem-pool name tried down rs)

  select-keeps :
      (draw : ℕ → ℕ) (r : Replica T) (rs : List (Replica T)) (router : ReplicaRouter T)
      → ((select draw r rs router).1.replicas ≡ router.replicas)
        × ((select draw r rs router).1.down ≡ router.down)
  unfolding select
  select-keeps draw r rs router = ground arith

still_down-none :
    (cooldown now : ℕ) (d : Dict String ℕ) (name : String)
    → lookup name d ≡ none
    → lookup name (still_down cooldown now d) ≡ none
unfolding still_down
still_down-none cooldown now [] name h = refl
still_down-none cooldown now ((n, t) ∷ d) name h =
    ground (arith, still_down-none cooldown now d name)

module _ {T W A : Type 0} (asked failed : ℕ → ℕ) (draw : ℕ → ℕ → ℕ) (fn : T → Method W A)
    (good : String) where
  -- The function returns on the replica that is named `good`, in every state.
  abbrev pub Works : Replica T → Type 0
  Works r = r.name ≡ good → (w : W) → (a : A) × (w' : W) × (fn r.target w ≡ (ok a, w'))

  abbrev Returns : Option (Result A × (W × ReplicaRouter T)) → Type 0
  Returns o = (a : A) × (w : W) × (router : ReplicaRouter T) × (o ≡ some (ok a, (w, router)))

  -- What a round needs to know of a replica that it may choose.
  record Candidate (rs : List (Replica T)) (tried : List String) (r : Replica T) : Type 0 where
    new : elem r.name tried ≡ false
    listed : elem r.name (names rs) ≡ true
    works : Works r

  pool-Candidate :
      (tried : List String) (down : Dict String ℕ) (rs : List (Replica T))
      → All Works rs
      → All (Candidate rs tried) (untried tried (up_among down rs))
  pool-Candidate tried down rs works =
      both (untried tried (up_among down rs)) (untried-All tried (up_among down rs))
        (untried-All-of _ tried _
          (up_among-All-of (λ r. elem r.name (names rs) ≡ true) down rs (names_of_All rs)))
        (untried-All-of _ tried _ (up_among-All-of Works down rs works))
    where
      both :
          (pool : List (Replica T))
          → All (λ r. elem r.name tried ≡ false) pool
          → All (λ r. elem r.name (names rs) ≡ true) pool
          → All Works pool
          → All (Candidate rs tried) pool
      both [] n l w = tt
      both (r ∷ pool) n l w =
          (record { new = n.0; listed = l.0; works = w.0 }, both pool n.1 l.1 w.1)

  failed_name :
      (r : Replica T) (w : W) {x : Error} → Works r → (fn r.target w).0 ≡ err x → r.name ≢ good
  failed_name r w {x} works e same = let (a, w', returned) = works same w in cc (returned, e)

  after_call-Returns :
      (next : Error → W → ReplicaRouter T → Option (Result A × (W × ReplicaRouter T)))
      (r : Result A) (w : W) (router : ReplicaRouter T)
      → ((x : Error) → r ≡ err x → Returns (next x w router))
      → Returns (after_call asked failed draw fn next (r, w) router)
  unfolding after_call
  after_call-Returns next (ok a) w router h = (a, w, router, refl)
  after_call-Returns next (err x) w router h = h x refl

  try_pool-Returns :
      (round : ℕ)
      (next : String → Error → W → ReplicaRouter T → Option (Result A × (W × ReplicaRouter T)))
      (last_exc : Option Error) (w : W) (pool : List (Replica T)) (router : ReplicaRouter T)
      (P : Replica T → Type 0)
      → elem good (names pool) ≡ true
      → All P pool
      → ((r : Replica T) (x : Error) (w' : W) (router' : ReplicaRouter T)
          → P r
          → router'.replicas ≡ router.replicas
          → router'.down ≡ router.down
          → (fn r.target w).0 ≡ err x
          → Returns (next r.name x w' router'))
      → Returns (try_pool asked failed draw fn round next last_exc w pool router)
  unfolding try_pool
  try_pool-Returns round next last_exc w [] router P m h go = cc
  try_pool-Returns round next last_exc w (r ∷ rs) router P m h go =
      let chosen = (select (draw round) r rs router).0 in
      let router' = (select (draw round) r rs router).1 in
      let (same_replicas, same_down) = select-keeps (draw round) r rs router in
      after_call-Returns (next chosen.name) (fn chosen.target w).0 (fn chosen.target w).1 router'
        λ x raised.
          go chosen x (fn chosen.target w).1 router' (select-All P (draw round) r rs router h)
            same_replicas same_down raised

  failover_finds :
      (fuel round : ℕ) (tried : List String) (last_exc : Option Error) (w : W)
      (router : ReplicaRouter T)
      → All Works router.replicas
      → elem good (names router.replicas) ≡ true
      → elem good tried ≡ false
      → lookup good router.down ≡ none
      → length (untried tried router.replicas) < fuel
      → Returns (failover asked failed draw fn fuel round tried last_exc w router)
  unfolding failover healthy recover mark_down
  failover_finds zero round tried last_exc w router works listed new up enough = elim enough [ ]
  failover_finds (suc fuel) round tried last_exc w router works listed new up enough =
      let down = still_down router.cooldown (asked round) router.down in
      let up' : lookup good down ≡ none =
        still_down-none router.cooldown (asked round) router.down good up in
      try_pool-Returns round _ last_exc w (untried tried (up_among down router.replicas))
        (record router { down = down }) (Candidate router.replicas tried)
        (elem-pool good tried down router.replicas listed new up')
        (pool-Candidate tried down router.replicas works)
        λ r x w' router' c same_replicas same_down raised.
          let differs = failed_name r w c.works raised in
          failover_finds fuel (round + 1) (r.name ∷ tried) (some x) w'
            (mark_down r.name (failed round) router') (subst (All Works) (sym same_replicas) works)
            (subst (λ rs. elem good (names rs) ≡ true) (sym same_replicas) listed)
            (ground (arith, string_eq.beq_iff r.name good))
            (ground (
              arith,
              string_eq.beq_iff r.name good,
              lookup-insert r.name good (failed round) router'.down,
              ap (lookup good) same_down,
            ))
            (omega (
              arith,
              untried-lt r.name tried router.replicas c.listed c.new,
              ap (λ rs. length (untried (r.name ∷ tried) rs)) same_replicas,
            ))

  -- `run` ends, and it returns, if some replica that is not marked down works: however the clock
  -- runs, whichever replicas are chosen and whatever they do before. "Works" is said of every
  -- replica with that name.
  pub run_finds :
      (w : W) (router : ReplicaRouter T)
      → All Works router.replicas
      → elem good (names router.replicas) ≡ true
      → lookup good router.down ≡ none
      → (a : A) × (w' : W) × (router' : ReplicaRouter T) × (run asked failed draw fn w router
          ≡ some (ok a, (w', router')))
  unfolding run
  run_finds w router works listed up =
      failover_finds (length router.replicas + 1) 0 [] none w router works listed refl up
        (omega (arith, untried_all router.replicas))
