-- ===== src/Prelude/Equality.antt =====
-- Decidable equality as an interface: what Python asks of the keys of a dictionary.
use Prim.Native.Nat.{ℕ}
use Prim.Native.String.{String}
use mathlib.Core.Path.{◌≡◌}
use mathlib.Core.Logic.{◌↔◌}
use mathlib.Core.Bool.{Bool, true, ◌&&◌}
use native.Mathlib.Omega.{arith}
use text.Mathlib.Text.{◌==◌}
use text.Mathlib.TextEquality.{eq_iff}
use kit_api_optimization.Prelude.Tests.{eqb}
use kit_api_optimization.Prelude.Int.{ℤ, leb_ℤ}

pub record Eq {ℓ} (A : Type ℓ) : Type ℓ where
  pub beq : A → A → Bool
  pub beq_iff : (a b : A) → (beq a b ≡ true) ↔ (a ≡ b)

pub eqb_iff : (a b : ℕ) → (eqb a b ≡ true) ↔ (a ≡ b)
eqb_iff a b = ground arith

instance abbrev pub nat_eq : Eq ℕ
nat_eq = record { beq = eqb; beq_iff = eqb_iff }

instance abbrev pub string_eq : Eq String
string_eq = record { beq = ◌==◌; beq_iff = eq_iff }

abbrev pub same_ℤ : ℤ → ℤ → Bool
same_ℤ a b = leb_ℤ a b && leb_ℤ b a

pub same_ℤ_iff : (a b : ℤ) → (same_ℤ a b ≡ true) ↔ (a ≡ b)
same_ℤ_iff a b = ground arith

instance abbrev pub int_eq : Eq ℤ
int_eq = record { beq = same_ℤ; beq_iff = same_ℤ_iff }
