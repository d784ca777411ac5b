-- ===== src/KitTask/Calls.antt =====
-- Which calls of its task the wrapper of `kit_task` (kit-api/kit_api/adapters/celery_adapter.py) makes, and
-- what they leave of the circuit.
use mathlib.Core.Path.{subst}
use kit_api_optimization.Prelude.{
  ℕ, zero, suc, ◌+◌, pos, ◌≡◌, refl, sym, ap, ◌∙◌, Bool, inl, inr, List, [], arith,
}
use kit_api_optimization.Exceptions.{Result, ok, err, Method}
use kit_api_optimization.Redis.Persistent.{Persistent}
use kit_api_optimization.CircuitBreaker.{CircuitBreaker, allow_request}
use kit_api_optimization.CircuitBreaker.Circuit.{Circuit, requested, Represents}
use kit_api_optimization.CircuitBreaker.Refinement.{allow_request-refines}
use kit_api_optimization.CircuitBreaker.Wrapper.{Times, recorded, recorded-Guards}
use kit_api_optimization.CircuitBreaker.Wrapper as Wrapper
use kit_api_optimization.RetryEngine.{RetryEngine}
use kit_api_optimization.RetryEngine.Outcome.{
  after, outcome, delays, is_retried, Settles, execute-Settles,
}
use kit_api_optimization.KitTask.{guarded, admitted, wrapper}

module _ {D : Type 0} (redis : Persistent D) (cb : CircuitBreaker) {W A : Type 0} (fn : Method W A)
    (clock : ℕ → Times) where
  open redis use {Db}

  -- The circuit once the outcomes of `k` calls are recorded, the first of them at the attempt `n`.
  unfoldable pub circuit_after : ℕ → ℕ → W → Circuit → Circuit
  circuit_after zero n w c = c
  circuit_after (suc k) n w c =
      circuit_after k (n + 1) (fn w).1 (Wrapper.outcome cb (clock n) (fn w).0 c)

  abbrev state_after : ℕ → Db × W → ℕ → (Db × W) × ℕ
  state_after k s n = after (guarded redis cb fn clock) k (s, n)

  -- the calls of `_guarded` are those of the task
  after-Represents :
      (k n : ℕ) (w : W) (db : Db) (c : Circuit)
      → Represents redis cb db c
      → let ((db', w'), n') = state_after k (db, w) n in
        (w' ≡ after fn k w) × (n' ≡ n + k) × Represents redis cb db' (circuit_after k n w c)
  unfolding after circuit_after guarded
  after-Represents zero n w db c h = (refl, omega arith, h)
  after-Represents (suc k) n w db c h =
      let (r', (db', w')) = recorded redis cb (clock n) (fn w) db in
      let (same, left, rep) = recorded-Guards redis cb (clock n) (fn w).0 (fn w).1 h in
      let (w-eq, n-eq, later) =
        after-Represents k (n + 1) w' db' (Wrapper.outcome cb (clock n) (fn w).0 c) rep in
      (
        w-eq ∙ ap (after fn k) left,
        n-eq ∙ omega arith,
        subst
            (λ x.
              Represents redis cb (state_after k (db', w') (n + 1)).0.0
                (circuit_after k (n + 1) x (Wrapper.outcome cb (clock n) (fn w).0 c)))
            left later,
      )

  outcome-guarded :
      (k : ℕ) (w : W) (db : Db) (c : Circuit)
      → Represents redis cb db c
      → outcome (guarded redis cb fn clock) k ((db, w), 0) ≡ outcome fn k w
  unfolding outcome guarded
  outcome-guarded k w db c h =
      let (w-eq, n-eq, rep) = after-Represents k 0 w db c h in
      let ((db', w'), n') = state_after k (db, w) 0 in
      (recorded-Guards redis cb (clock n') (fn w').0 (fn w').1 rep).0 ∙ ap (λ x. (fn x).0) w-eq

  module _ (engine : RetryEngine) (uniform : ℕ → ℕ → ℕ) where
    -- what decides the attempts decides the calls of the task
    Settles-guarded :
        (m k : ℕ) (w : W) (db : Db) (c : Circuit)
        → Represents redis cb db c
        → Settles engine uniform (guarded redis cb fn clock) ((db, w), 0) m k
        → Settles engine uniform fn w m k
    Settles-guarded m k w db c h s = record {
      within = s.within;
      retried =
          λ i below. ap (is_retried engine) (sym (outcome-guarded i w db c h)) ∙ s.retried i below;
      decisive = elim s.decisive [
        | inl last ↦ inl last
        | inr final ↦ inr (ap (is_retried engine) (sym (outcome-guarded k w db c h)) ∙ final)
      ];
    }

    -- What a task comes to, by the answer of `allow_request`: the refusal; or the outcome of the last of its
    -- `k + 1` calls, all of which are recorded.
    abbrev pub Runs : ℕ → W → Circuit → Result Bool → Result A × (((Db × W) × ℕ) × List ℕ) → Type 0
    Runs m w c (err e) (r, (((db', w'), n), slept)) =
        (r ≡ err e) × (w' ≡ w) × (n ≡ 0) × (slept ≡ []) × Represents redis cb db' c
    Runs m w c (ok b) (r, (((db', w'), n), slept)) =
        (k : ℕ) × Settles engine uniform fn w m k
        × (r ≡ outcome fn k w)
        × (w' ≡ after fn (suc k) w)
        × (n ≡ suc k)
        × (slept ≡ delays engine uniform 0 k)
        × Represents redis cb db' (circuit_after (suc k) 0 w c)

    admitted-Runs :
        (m : ℕ) (w : W) (db : Db) (c : Circuit) (r : Result Bool)
        → engine.max_retries ≡ pos m
        → Represents redis cb db c
        → Runs m w c r (admitted redis cb engine uniform fn clock w (r, db))
    unfolding admitted
    admitted-Runs m w db c (err e) limit h = (refl, refl, refl, refl, h)
    admitted-Runs m w db c (ok b) limit h =
        let (k, settles, eq) =
          execute-Settles engine uniform (guarded redis cb fn clock) m ((db, w), 0) limit in
        let (w-eq, n-eq, rep) = after-Represents (suc k) 0 w db c h in
        rw eq (
          k,
          Settles-guarded m k w db c h settles,
          outcome-guarded k w db c h,
          w-eq,
          n-eq ∙ omega arith,
          refl,
          rep,
        )

    -- A task whose circuit refuses the request is not called: the refusal is raised. An admitted task is
    -- called as the retry engine says, at most `max_retries + 1` times, until a call returns, raises what is
    -- not retried, or is the last allowed; that call decides the result, and every call is recorded in the
    -- circuit, which is not asked again: a call after one that opens the circuit is made all the same.
    -- `max_retries` is not negative.
    pub wrapper-Runs :
        (m asked : ℕ) (w : W) {db : Db} {c : Circuit}
        → engine.max_retries ≡ pos m
        → Represents redis cb db c
        → Runs m w
            (requested cb asked c).1
            (requested cb asked c).0
            (wrapper redis cb engine uniform fn asked clock (db, w))
    unfolding wrapper
    wrapper-Runs m asked w {db} {c} limit h =
        let (answer, rep) = allow_request-refines redis cb asked h in
        subst
          (λ r.
            Runs m w (requested cb asked c).1 r
              (admitted redis cb engine uniform fn clock w (allow_request redis cb asked db)))
          answer
          (admitted-Runs m w (allow_request redis cb asked db).1 (requested cb asked c).1
            (allow_request redis cb asked db).0 limit rep)
