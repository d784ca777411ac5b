-- ===== src/RetryEngine/Backoff.antt =====
-- How long `execute` of kit-api/kit_api/retry_engine.py can sleep.
use kit_api_optimization.Prelude.{
  ℕ, zero, suc, ◌+◌, ◌*◌, ◌^◌, ◌≤◌, pos, ◌≡◌, List, [], ◌∷◌, arith, length, refl, min, ap,
}
use kit_api_optimization.Exceptions.{Method}
use kit_api_optimization.RetryEngine.{RetryEngine, longest_delay, compute_delay, execute}
use kit_api_optimization.RetryEngine.Outcome.{delays, execute-Settles}

abbrev pub sum : List ℕ → ℕ
sum [] = 0
sum (x ∷ xs) = x + sum xs

-- Each delay is at most the base delay doubled at every attempt, and at most the cap.
abbrev pub BacksOff : RetryEngine → ℕ → List ℕ → Type 0
BacksOff engine attempt [] = Unit
BacksOff engine attempt (d ∷ ds) =
    (d ≤ engine.base_delay * 2 ^ attempt)
    × (d ≤ engine.max_delay)
    × BacksOff engine (attempt + 1) ds

module _ (engine : RetryEngine) (uniform : ℕ → ℕ → ℕ)
    (drawn : (attempt x : ℕ) → uniform attempt x ≤ x) where
  compute_delay_le :
      (attempt : ℕ)
      → (compute_delay engine uniform attempt ≤ engine.base_delay * 2 ^ attempt)
        × (compute_delay engine uniform attempt ≤ engine.max_delay)
  unfolding compute_delay longest_delay
  compute_delay_le attempt =
      let d = drawn attempt (min engine.max_delay (engine.base_delay * 2 ^ attempt)) in
      (omega (arith, d), omega (arith, d))

  delays-BacksOff : (first k : ℕ) → BacksOff engine first (delays engine uniform first k)
  unfolding delays
  delays-BacksOff first zero = tt
  delays-BacksOff first (suc k) =
      let (grows, capped) = compute_delay_le first in (grows, capped, delays-BacksOff (first + 1) k)

  length-delays : (first k : ℕ) → length (delays engine uniform first k) ≡ k
  unfolding delays
  length-delays first zero = refl
  length-delays first (suc k) = omega (arith, length-delays (first + 1) k)

  sum-delays : (first k : ℕ) → sum (delays engine uniform first k) ≤ k * engine.max_delay
  unfolding delays
  sum-delays first zero = omega arith
  sum-delays first (suc k) = omega (arith, sum-delays (first + 1) k, (compute_delay_le first).1)

  -- However the draws fall, `execute` sleeps at most `max_retries` times and `max_retries` times
  -- the cap in all, and the sleep after attempt `i` is at most `base_delay * 2 ** i` and the cap.
  pub execute_sleeps :
      {W A : Type 0} (fn : Method W A) (m : ℕ) (w : W)
      → engine.max_retries ≡ pos m
      → let (r, (w', slept)) = execute engine uniform fn (w, []) in
        (length slept ≤ m) × (sum slept ≤ m * engine.max_delay) × BacksOff engine 0 slept
  execute_sleeps fn m w e =
      let (k, settles, eq) = execute-Settles engine uniform fn m w e in
      let slept : (execute engine uniform fn (w, [])).1.1 ≡ delays engine uniform 0 k =
        ap (λ r. r.1.1) eq in
      rw slept (
        omega (arith, length-delays 0 k, settles.within),
        grind (arith, sum-delays 0 k, settles.within),
        delays-BacksOff 0 k,
      )
