-- ===== src/Exceptions.antt =====
-- The exceptions that the packages raise: kit-core/kit_core/exceptions.py, the further classes of
-- kit-data/kit_data/exceptions.py and kit-pay/kit_pay/plan_state.py, and Python's own. A method that
-- may raise returns a `Result`; what it wrote before it raised stays written, so a method that keeps
-- state is a function from the state to a `Result` and the state that it leaves.
use kit_api_optimization.Prelude.{ℕ, ℤ, String, ◌≡◌, ap}

pub data Error : Type 0 where
  -- kit_core.exceptions, with the attributes that a caller can read
  rate_limit_exceeded : Error
  circuit_open : String → Error
  idempotency_conflict : String → Error
  payment_error : Error
  media_error : Error
  -- kit_data.exceptions
  concurrency_limit_exceeded : String → ℤ → Error
  no_healthy_replicas : Error
  -- kit_pay.plan_state
  invalid_transition : Error
  -- Python's own, and the reply of Redis to a command on a value of the wrong kind
  key_error value_error type_error index_error attribute_error response_error : Error
  -- an exception of a callable that the application hands over
  application : ℕ → Error

pub data Result {ℓ} (A : Type ℓ) : Type ℓ where
  ok : A → Result A
  err : Error → Result A

abbrev pub Method {ℓ} : Type ℓ → Type ℓ → Type ℓ
Method S A = S → Result A × S

module _ {ℓ} {S A : Type ℓ} where
  abbrev pub pure : A → Method S A
  pure a s = (ok a, s)

  abbrev pub raise : Error → Method S A
  raise e s = (err e, s)

  abbrev pub lift : Result A → Method S A
  lift r s = (r, s)

  abbrev pub gets : (S → A) → Method S A
  gets f s = (ok (f s), s)

infixl 5 ◌>>=◌ ◌>>◌
abbrev pub ◌>>=◌ {ℓ} : {S A B : Type ℓ} → Method S A → (A → Method S B) → Method S B
◌>>=◌ m f s = let (r, s') = m s in elim r [ ok a ↦ f a s' | err e ↦ (err e, s') ]

abbrev pub ◌>>◌ {ℓ} : {S A B : Type ℓ} → Method S A → Method S B → Method S B
m >> k = m >>= λ _. k

abbrev pub modify : {S : Type 0} → (S → S) → Method S (Unit {0})
modify f s = (ok tt, f s)

module _ {S A B : Type 0} where
  -- The rest of a do block follows a method that returns, and does not follow one that raises.
  pub bind-ok :
      (m : Method S A) (k : A → Method S B) {s s' : S} {a : A}
      → m s ≡ (ok a, s')
      → (m >>= k) s ≡ k a s'
  bind-ok m k h = ap (λ p. elim p.0 [ ok a ↦ k a p.1 | err e ↦ (err e, p.1) ]) h

  pub bind-err :
      (m : Method S A) (k : A → Method S B) {s s' : S} {x : Error}
      → m s ≡ (err x, s')
      → (m >>= k) s ≡ (err x, s')
  bind-err m k h = ap (λ p. elim p.0 [ ok a ↦ k a p.1 | err e ↦ (err e, p.1) ]) h

-- What holds of a value, if one is returned.
abbrev pub Post : {A : Type 0} → (A → Type 0) → Result A → Type 0
Post Q (ok a) = Q a
Post Q (err e) = Unit

abbrev after : {S A B : Type 0} → (A → Method S B) → Result A × S → Result B × S
after k p = elim p.0 [ ok a ↦ k a p.1 | err e ↦ (err e, p.1) ]

-- A property of the state that a method keeps, and the rest of a do block keeps for what the method
-- returns, is kept by the block.
pub bind-Post :
    {S A B : Type 0} (P : S → Type 0) (Q : A → Type 0) (m : Method S A) (k : A → Method S B) (s : S)
    → P (m s).1
    → Post Q (m s).0
    → ((a : A) (s' : S) → Q a → P s' → P (k a s').1)
    → P ((m >>= k) s).1
bind-Post {S = S} {A = A} P Q m k s kept post keeps = go (m s) kept post
  where
    go : (p : Result A × S) → P p.1 → Post Q p.0 → P (after k p).1
    go (ok a, s') kept' post' = keeps a s' post' kept'
    go (err e, s') kept' post' = kept'
