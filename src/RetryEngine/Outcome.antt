-- ===== src/RetryEngine/Outcome.antt =====
-- Which call of the callable decides the outcome of `execute`, and how long it sleeps before it.
use kit_api_optimization.Prelude.{
  ℕ, zero, suc, ◌+◌, ◌≤◌, ◌<◌, pos, negsuc, ◌≡◌, refl, Bool, true, false, Option, none, some, List,
  [], ◌∷◌, ◌++◌, arith, Bool-cases, inl, inr, ◌⊎◌, ap, ◌∙◌,
}
use mathlib.Core.List.{append-nil, append_assoc}
use native.Mathlib.Numerals.{add-one}
use kit_api_optimization.Exceptions.{Error, Result, ok, err, Method, type_error}
use kit_api_optimization.RetryEngine.{RetryEngine, compute_delay, rounds, attempt_loop, execute}

module _ {W A : Type 0} (fn : Method W A) where
  -- The callable's state after `k` calls, and the result of the call that follows.
  unfoldable pub after : ℕ → W → W
  after zero w = w
  after (suc k) w = after k (fn w).1

  unfoldable pub outcome : ℕ → W → Result A
  outcome k w = (fn (after k w)).0

-- The delays drawn at the attempts `first`, `first + 1`, and so on.
unfoldable pub delays : RetryEngine → (ℕ → ℕ → ℕ) → ℕ → ℕ → List ℕ
delays engine uniform first zero = []
delays engine uniform first (suc k) =
    compute_delay engine uniform first ∷ delays engine uniform (first + 1) k

-- Whether the engine retries after this result, if it may.
abbrev pub is_retried : {A : Type 0} → RetryEngine → Result A → Bool
is_retried engine (ok a) = false
is_retried engine (err e) = engine.retryable e

module _ {W A : Type 0} (engine : RetryEngine) (uniform : ℕ → ℕ → ℕ) (fn : Method W A) where
  -- Of at most `d + 1` calls the one after `k` retried ones decides: it is the last that is allowed,
  -- or it returned, or it raised something that is not retried.
  pub record Settles (w : W) (d k : ℕ) : Type 0 where
    pub within : k ≤ d
    pub retried : (i : ℕ) → i < k → is_retried engine (outcome fn i w) ≡ true
    pub decisive : (k ≡ d) ⊎ (is_retried engine (outcome fn k w) ≡ false)

  Settles-suc :
      (w : W) (d k : ℕ)
      → is_retried engine (fn w).0 ≡ true
      → Settles (fn w).1 d k
      → Settles w (suc d) (suc k)
  unfolding outcome after
  Settles-suc w d k first rest = record {
    within = omega (arith, rest.within);
    retried = elim [ zero ↦ λ h. first | suc i ↦ λ h. rest.retried i (omega arith) ];
    decisive = elim rest.decisive [ inl last ↦ inl (omega arith) | inr final ↦ inr final ];
  }

  -- What the loop comes to, from any attempt on.
  abbrev Ended : ℕ → ℕ → Option Error → W → List ℕ → Type 0
  Ended d first last w slept =
      (k : ℕ) × Settles w d k
      × (attempt_loop engine uniform fn (suc d) first last (w, slept)
          ≡ (outcome fn k w, (after fn (suc k) w, slept ++ delays engine uniform first k)))

  Ended-at_once :
      (d first : ℕ) (last : Option Error) (w : W) (slept : List ℕ)
      → (d ≡ 0) ⊎ (is_retried engine (fn w).0 ≡ false)
      → engine.max_retries ≡ pos (first + d)
      → Ended d first last w slept
  unfolding attempt_loop outcome after delays
  Ended-at_once d first last w slept why m = (
    0,
    record { within = omega arith; retried = λ i h. elim h [ ]; decisive = ground (arith, why) },
    ground (arith, append-nil slept),
  )

  Ended-later :
      (d first : ℕ) (last : Option Error) (w : W) (slept : List ℕ) (e : Error)
      → (fn w).0 ≡ err e
      → engine.retryable e ≡ true
      → engine.max_retries ≡ pos (first + suc d)
      → Ended d (first + 1) (some e) (fn w).1 (slept ++ compute_delay engine uniform first ∷ [])
      → Ended (suc d) first last w slept
  unfolding attempt_loop outcome after delays
  Ended-later d first last w slept e raised again m (k, settles, eq) = (
    suc k,
    Settles-suc w d k (rw raised again) settles,
    ground (
      arith,
      eq,
      append_assoc slept (compute_delay engine uniform first ∷ [])
          (delays engine uniform (first + 1) k),
    ),
  )

  loop_ends :
      (d first : ℕ) (last : Option Error) (w : W) (slept : List ℕ)
      → engine.max_retries ≡ pos (first + d)
      → Ended d first last w slept
  loop_ends zero first last w slept m = Ended-at_once 0 first last w slept (inl refl) m
  loop_ends (suc d) first last w slept m = go (fn w).0 refl (λ e.
      loop_ends d (first + 1) (some e) (fn w).1 (slept ++ compute_delay engine uniform first ∷ [])
        (m ∙ ap pos (omega arith)))
    where
      go :
          (r : Result A)
          → (fn w).0 ≡ r
          → ((e : Error)
              → Ended d
                  (first + 1)
                  (some e)
                  (fn w).1
                  (slept ++ compute_delay engine uniform first ∷ []))
          → Ended (suc d) first last w slept
      go (ok a) returned later = Ended-at_once (suc d) first last w slept (inr (rw returned)) m
      go (err e) raised later = elim (Bool-cases (engine.retryable e)) [
        | inl again ↦ Ended-later d first last w slept e raised again m (later e)
        | inr final ↦ Ended-at_once (suc d) first last w slept (inr (rw raised final)) m
      ]

  -- `execute` returns or raises what one of at most `max_retries + 1` calls did. Every call before
  -- that one raised a retryable exception, and that one was the last allowed or did not. The
  -- callable is left as that call left it, and each retried attempt slept its delay once, in order.
  pub execute-Settles :
      (m : ℕ) (w : W)
      → engine.max_retries ≡ pos m
      → (k : ℕ) × Settles w m k
        × (execute engine uniform fn (w, [])
            ≡ (outcome fn k w, (after fn (suc k) w, delays engine uniform 0 k)))
  unfolding execute
  execute-Settles m w e =
      let (k, settles, eq) = loop_ends m 0 none w [] (e ∙ ap pos (omega arith)) in
      (k, settles, rounds_left ∙ eq)
    where
      rounds_left :
          execute engine uniform fn (w, []) ≡ attempt_loop engine uniform fn (suc m) 0 none (w, [])
      rounds_left =
          ap (λ r. attempt_loop engine uniform fn (rounds r) 0 none (w, [])) e
          ∙ ap (λ n. attempt_loop engine uniform fn n 0 none (w, [])) (add-one m)

  -- A negative `max_retries` makes no call at all and raises TypeError, for `raise None`.
  pub execute_negative :
      (n : ℕ) (w : W)
      → engine.max_retries ≡ negsuc n
      → execute engine uniform fn (w, []) ≡ (err type_error, (w, []))
  unfolding execute
  execute_negative n w e = rw e
