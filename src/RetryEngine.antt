-- ===== src/RetryEngine.antt =====
-- kit-api/kit_api/retry_engine.py: `RetryEngine`. The callable is a method on a state of its own;
-- delays are in whole microseconds. What `random.uniform` draws for each attempt and which
-- exceptions are instances of `retryable_exceptions` are arguments.
pub mod Outcome
pub mod Backoff
mod Tests
use kit_api_optimization.Prelude.{
  ℕ, zero, suc, ◌+◌, ◌*◌, ◌^◌, min, ℤ, pos, negsuc, eqb, Bool, Option, none, some, List, [], ◌∷◌,
  ◌++◌, if◌then◌else◌,
}
use kit_api_optimization.Exceptions.{Error, Result, ok, err, Method, type_error}

pub record RetryEngine : Type 0 where
  pub max_retries : ℤ
  pub base_delay : ℕ
  pub max_delay : ℕ
  -- `except self.retryable_exceptions`
  pub retryable : Error → Bool

-- `min(self.max_delay, self.base_delay * (2 ** attempt))`
unfoldable pub longest_delay : RetryEngine → ℕ → ℕ
longest_delay engine attempt = min engine.max_delay (engine.base_delay * 2 ^ attempt)

-- `uniform attempt x` is what `random.uniform(0, x)` draws at this attempt.
unfoldable pub compute_delay : RetryEngine → (ℕ → ℕ → ℕ) → ℕ → ℕ
compute_delay engine uniform attempt = uniform attempt (longest_delay engine attempt)

-- `len(range(max_retries + 1))`
abbrev pub rounds : ℤ → ℕ
rounds (pos n) = n + 1
rounds (negsuc n) = 0

-- `attempt == self.max_retries`
abbrev pub is_last : ℤ → ℕ → Bool
is_last (pos n) attempt = eqb attempt n
is_last (negsuc n) attempt = Bool.false

-- `raise last_exc`: raising None is a TypeError
abbrev reraise : Option Error → Error
reraise none = type_error
reraise (some e) = e

module _ {W A : Type 0} (engine : RetryEngine) (uniform : ℕ → ℕ → ℕ) (fn : Method W A) where
  -- The loop, with the rounds that `range` has left, on the callable's state and the delays slept.
  unfoldable pub attempt_loop : ℕ → ℕ → Option Error → Method (W × List ℕ) A
  unfolding compute_delay
  attempt_loop zero attempt last_exc (w, slept) = (err (reraise last_exc), (w, slept))
  attempt_loop (suc left) attempt last_exc (w, slept) =
      let (r, w') = fn w in
      elim r [
        | ok a ↦ (ok a, (w', slept))
        | err e ↦
            let delay = compute_delay engine uniform attempt in
            let next = attempt_loop left (attempt + 1) (some e) (w', slept ++ delay ∷ []) in
            if engine.retryable e
            then (if is_last engine.max_retries attempt then (err e, (w', slept)) else next)
            else (err e, (w', slept))
      ]

  unfoldable pub execute : Method (W × List ℕ) A
  unfolding attempt_loop
  execute = attempt_loop (rounds engine.max_retries) 0 none
