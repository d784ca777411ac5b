-- ===== src/ReplicaRouter.antt =====
-- kit-data/kit_data/replica_router.py: `ReplicaRouter`, in memory. Clock readings (of
-- `time.monotonic()`) and what the random generator draws are arguments. A draw is in millionths.
pub mod Selection
pub mod Failover
mod Tests
use kit_api_optimization.Prelude.{
  ℕ, zero, suc, ◌+◌, ◌*◌, ◌%◌, ℤ, pos, negsuc, max, leb, length, String, string_eq, Dict, elem,
  lookup, insert, erase, Bool, true, false, not, Option, none, some, List, [], ◌∷◌, map,
  if◌then◌else◌,
}
use kit_api_optimization.Exceptions.{
  Error, Result, ok, err, Method, value_error, no_healthy_replicas,
}

-- `target` is opaque to the router
pub record Replica (T : Type 0) : Type 0 where
  pub name : String
  pub target : T
  pub weight : ℤ

pub data Strategy : Type 0 where
  weighted round_robin : Strategy

pub record ReplicaRouter (T : Type 0) : Type 0 where
  pub replicas : List (Replica T)
  pub strategy : Strategy
  pub cooldown : ℕ
  pub down : Dict String ℕ
  pub rr : ℕ

abbrev pub is_in : {V : Type 0} → String → Dict String V → Bool
is_in name d = elim (lookup name d) [ none ↦ false | some v ↦ true ]

-- `max(1, r.weight)`
abbrev pub share : ℤ → ℕ
share (pos n) = max 1 n
share (negsuc n) = 1

-- `_recover`: the entries whose cooldown has passed are deleted
pub still_down : ℕ → ℕ → Dict String ℕ → Dict String ℕ
still_down cooldown now [] = []
still_down cooldown now ((n, t) ∷ d) =
    let rest = still_down cooldown now d in if leb (t + cooldown) now then rest else (n, t) ∷ rest

-- `raise last_exc`, or `NoHealthyReplicas` where nothing was tried
abbrev pub give_up : Option Error → Error
give_up none = no_healthy_replicas
give_up (some x) = x

module _ {T : Type 0} where
  abbrev with_strategy : Strategy → List (Replica T) → ℕ → Result (ReplicaRouter T)
  with_strategy s [] cooldown = err value_error
  with_strategy s (r ∷ rs) cooldown =
      ok (record { replicas = r ∷ rs; strategy = s; cooldown = cooldown; down = []; rr = 0 })

  -- `__init__`, with the text of the strategy
  unfoldable pub init : List (Replica T) → String → ℕ → Result (ReplicaRouter T)
  init replicas strategy cooldown =
      if string_eq.beq strategy "weighted"
      then with_strategy weighted replicas cooldown
      else if string_eq.beq strategy "round_robin"
      then with_strategy round_robin replicas cooldown
      else err value_error

  pub recover : ℕ → ReplicaRouter T → ReplicaRouter T
  recover now router = record router { down = still_down router.cooldown now router.down }

  pub up_among : Dict String ℕ → List (Replica T) → List (Replica T)
  up_among down [] = []
  up_among down (r ∷ rs) =
      let rest = up_among down rs in if is_in r.name down then rest else r ∷ rest

  pub healthy : ℕ → ReplicaRouter T → List (Replica T) × ReplicaRouter T
  healthy now router =
      let router' = recover now router in (up_among router'.down router'.replicas, router')

  unfoldable pub mark_down : String → ℕ → ReplicaRouter T → ReplicaRouter T
  mark_down name now router = record router { down = insert name now router.down }

  unfoldable pub mark_up : String → ReplicaRouter T → ReplicaRouter T
  mark_up name router = record router { down = erase name router.down }

  abbrev pub get_or : List (Replica T) → ℕ → Replica T → Replica T
  get_or [] i d = d
  get_or (x ∷ xs) zero d = x
  get_or (x ∷ xs) (suc i) d = get_or xs i d

  pub total_share : List (Replica T) → ℕ
  total_share [] = 0
  total_share (r ∷ rs) = share r.weight + total_share rs

  -- The loop over the pool, with the last replica that it saw for `pool[-1]`.
  pub pick_from : ℕ → ℕ → Replica T → List (Replica T) → Replica T
  pick_from pick upto last [] = last
  pick_from pick upto last (r ∷ rs) =
      let upto' = upto + share r.weight in
      let rest = pick_from pick upto' r rs in if leb pick (1000000 * upto') then r else rest

  -- `_select`, on a pool that is not empty: its first replica and the others
  select_by :
      Strategy
      → (ℕ → ℕ)
      → Replica T
      → List (Replica T)
      → ReplicaRouter T
      → Replica T × ReplicaRouter T
  select_by round_robin draw r rs router =
      (get_or (r ∷ rs) (router.rr % length (r ∷ rs)) r, record router { rr = router.rr + 1 })
  select_by weighted draw r rs router =
      (pick_from (draw (total_share (r ∷ rs))) 0 r (r ∷ rs), router)

  pub select :
      (ℕ → ℕ) → Replica T → List (Replica T) → ReplicaRouter T → Replica T × ReplicaRouter T
  unfolding select_by pick_from total_share
  select draw r rs router = select_by router.strategy draw r rs router

  routed : (ℕ → ℕ) → List (Replica T) × ReplicaRouter T → Result (Replica T) × ReplicaRouter T
  routed draw ([], router) = (err no_healthy_replicas, router)
  routed draw (r ∷ rs, router) =
      let (chosen, router') = select draw r rs router in (ok chosen, router')

  pub route : (ℕ → ℕ) → ℕ → ReplicaRouter T → Result (Replica T) × ReplicaRouter T
  unfolding routed healthy recover
  route draw now router = routed draw (healthy now router)

  pub untried : List String → List (Replica T) → List (Replica T)
  untried tried [] = []
  untried tried (r ∷ rs) =
      let rest = untried tried rs in if elem r.name tried then rest else r ∷ rest

  -- The loop of `run`, with its two clock readings and its draw for each round; none if the fuel
  -- runs out.
  module _ {W A : Type 0} (asked failed : ℕ → ℕ) (draw : ℕ → ℕ → ℕ) (fn : T → Method W A) where
    -- `return fn(replica.target)`, or the rest of the loop after the exception
    after_call :
        (Error → W → ReplicaRouter T → Option (Result A × (W × ReplicaRouter T)))
        → Result A × W
        → ReplicaRouter T
        → Option (Result A × (W × ReplicaRouter T))
    after_call next (ok a, w) router = some (ok a, (w, router))
    after_call next (err x, w) router = next x w router

    try_pool :
        ℕ
        → (String → Error → W → ReplicaRouter T → Option (Result A × (W × ReplicaRouter T)))
        → Option Error
        → W
        → List (Replica T)
        → ReplicaRouter T
        → Option (Result A × (W × ReplicaRouter T))
    unfolding after_call
    try_pool round next last_exc w [] router = some (err (give_up last_exc), (w, router))
    try_pool round next last_exc w (r ∷ rs) router =
        let (chosen, router') = select (draw round) r rs router in
        after_call (next chosen.name) (fn chosen.target w) router'

    pub failover :
        ℕ
        → ℕ
        → List String
        → Option Error
        → W
        → ReplicaRouter T
        → Option (Result A × (W × ReplicaRouter T))
    failover zero round tried last_exc w router = none
    failover (suc fuel) round tried last_exc w router =
        let (up, router') = healthy (asked round) router in
        try_pool round
          (λ name x w' router''.
            failover fuel (round + 1) (name ∷ tried) (some x) w'
              (mark_down name (failed round) router''))
          last_exc w (untried tried up) router'

    -- `run`, with fuel for one round more than there are replicas
    pub run : W → ReplicaRouter T → Option (Result A × (W × ReplicaRouter T))
    unfolding failover
    run w router = failover (length router.replicas + 1) 0 [] none w router
