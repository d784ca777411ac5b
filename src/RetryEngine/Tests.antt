-- ===== src/RetryEngine/Tests.antt =====
-- `RetryEngine` at concrete inputs. The callable pops the next of its scripted results.
use kit_api_optimization.Prelude.{
  ℕ, ◌*◌, ◌≤◌, pos, ◌≡◌, refl, Bool, true, false, List, [], ◌∷◌, length, suc,
}
use native.Mathlib.Nat.{le_refl}
use kit_api_optimization.Exceptions.{Error, Result, ok, err, application, value_error}
use kit_api_optimization.RetryEngine.{RetryEngine, longest_delay, execute}
use kit_api_optimization.RetryEngine.Outcome.{outcome, after, delays, Settles, execute-Settles}
use kit_api_optimization.RetryEngine.Backoff.{sum, BacksOff, execute_sleeps}

abbrev pop : List (Result ℕ) → Result ℕ × List (Result ℕ)
pop [] = (err value_error, [])
pop (r ∷ rs) = (r, rs)

abbrev is_application : Error → Bool
is_application (application n) = true
is_application _ = false

abbrev engine : RetryEngine
engine = record { max_retries = pos 2; base_delay = 10; max_delay = 15; retryable = is_application }

-- every draw is the longest
abbrev longest : ℕ → ℕ → ℕ
longest attempt x = x

abbrev script : List (Result ℕ)
script = err (application 1) ∷ err (application 2) ∷ ok 7 ∷ ok 8 ∷ []

third_call : execute engine longest pop (script, []) ≡ (ok 7, (ok 8 ∷ [], 10 ∷ 15 ∷ []))
unfolding execute longest_delay
third_call = refl

execute-Settles_example :
    (k : ℕ) × Settles engine longest pop script 2 k
    × (execute engine longest pop (script, [])
        ≡ (outcome pop k script, (after pop (suc k) script, delays engine longest 0 k)))
execute-Settles_example = execute-Settles engine longest pop 2 script refl

execute_sleeps_example :
    let (r, (w', slept)) = execute engine longest pop (script, []) in
    (length slept ≤ 2) × (sum slept ≤ 2 * 15) × BacksOff engine 0 slept
execute_sleeps_example = execute_sleeps engine longest (λ attempt x. le_refl x) pop 2 script refl
