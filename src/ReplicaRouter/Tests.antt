-- ===== src/ReplicaRouter/Tests.antt =====
-- `ReplicaRouter` at concrete inputs. A target is a number, and the callable counts its calls.
use kit_api_optimization.Prelude.{
  ℕ, ◌+◌, ◌%◌, pos, String, ◌≡◌, ◌≢◌, refl, some, [], ◌∷◌, All, IsDict, get_elem?, string_eq, eqb,
  if◌then◌else◌,
}
use kit_api_optimization.Exceptions.{ok, err, Method, application}
use kit_api_optimization.ReplicaRouter.{
  Replica, weighted, round_robin, ReplicaRouter, select, run, healthy, recover, still_down,
  up_among,
}
use kit_api_optimization.ReplicaRouter.Selection.{turns, round_robin_turn}
use kit_api_optimization.ReplicaRouter.Failover.{Works, run_finds}

abbrev r1 : Replica ℕ
r1 = record { name = "r1"; target = 1; weight = pos 3 }

abbrev r2 : Replica ℕ
r2 = record { name = "r2"; target = 2; weight = pos 1 }

-- `r2` went down at 40
abbrev router : ReplicaRouter ℕ
router = record {
  replicas = r1 ∷ r2 ∷ [];
  strategy = weighted;
  cooldown = 30;
  down = ("r2", 40) ∷ [];
  rr = 0;
}

abbrev fresh : ReplicaRouter ℕ
fresh = record { replicas = r1 ∷ r2 ∷ []; strategy = round_robin; cooldown = 30; down = []; rr = 5 }

-- a draw in the last quarter
abbrev high : ℕ → ℕ
high total = 3500000

abbrev low : ℕ → ℕ
low total = 10

still : (healthy 69 router).0 ≡ r1 ∷ []
unfolding healthy recover still_down up_among
still = refl

over : (healthy 70 router).0 ≡ r1 ∷ r2 ∷ []
unfolding healthy recover still_down up_among
over = refl

router-IsDict : IsDict router.down
router-IsDict = (refl, tt)

round_robin_turn_example :
    some (select high r1 (r2 ∷ []) (turns 3 high r1 (r2 ∷ []) fresh)).0
    ≡ get_elem? (r1 ∷ r2 ∷ []) (8 % 2)
round_robin_turn_example = round_robin_turn 3 high r1 (r2 ∷ []) fresh refl

-- Only target 2 answers.
abbrev fn : ℕ → Method ℕ String
fn target calls = (if eqb target 2 then ok "row" else err (application 9), calls + 1)

differ : r1.name ≢ r2.name
differ e = cc ((string_eq.beq_iff r1.name r2.name).1 e)

fresh-Works : All (Works (λ n. n) (λ n. n) (λ n total. 10) fn "r2") (r1 ∷ r2 ∷ [])
fresh-Works = (λ same. absurd (differ same), (λ same calls. ("row", calls + 1, refl), tt))

run_finds_example :
    (a : String) × (calls : ℕ) × (router' : ReplicaRouter ℕ) × (run
        (λ n. n)
        (λ n. n)
        (λ n total. 10)
        fn
        0
        fresh
      ≡ some (ok a, (calls, router')))
run_finds_example =
    run_finds (λ n. n) (λ n. n) (λ n total. 10) fn "r2" 0 fresh fresh-Works refl refl
