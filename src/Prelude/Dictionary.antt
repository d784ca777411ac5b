-- ===== src/Prelude/Dictionary.antt =====
-- Python's `dict` in insertion order, and membership in a list.
use mathlib.Core.Path.{◌≡◌, refl}
use mathlib.Core.Bool.{Bool, false, ◌||◌}
use mathlib.Core.Option.{Option, none, some}
use mathlib.Core.List.{List, [], ◌∷◌, ◌++◌}
use native.Mathlib.Omega.{arith}
use kit_api_optimization.Prelude.Tests.{if◌then◌else◌}
use kit_api_optimization.Prelude.Equality.{Eq}

abbrev pub Dict : Type 0 → Type 0 → Type 0
Dict K V = List (K × V)

module _ {K : Type 0} ⦃e : Eq K⦄ where
  -- `k in xs`
  abbrev pub elem : K → List K → Bool
  elem k [] = false
  elem k (x ∷ xs) = e.beq x k || elem k xs

  pub elem-append : (k : K) (xs ys : List K) → elem k (xs ++ ys) ≡ (elem k xs || elem k ys)
  elem-append k [] ys = refl
  elem-append k (x ∷ xs) ys = ground (arith, elem-append k xs ys)

module _ {K V : Type 0} ⦃e : Eq K⦄ where
  -- `d.get(k)`
  abbrev pub lookup : K → Dict K V → Option V
  lookup k [] = none
  lookup k ((j, v) ∷ d) = if e.beq j k then some v else lookup k d

  -- `d[k] = v`
  abbrev pub insert : K → V → Dict K V → Dict K V
  insert k v [] = (k, v) ∷ []
  insert k v ((j, w) ∷ d) = if e.beq j k then (j, v) ∷ d else (j, w) ∷ insert k v d

  -- `d.pop(k, None)`
  abbrev pub erase : K → Dict K V → Dict K V
  erase k [] = []
  erase k ((j, v) ∷ d) = let rest = erase k d in if e.beq j k then rest else (j, v) ∷ rest

  pub lookup-insert :
      (k j : K) (v : V) (d : Dict K V)
      → lookup j (insert k v d) ≡ (if e.beq k j then some v else lookup j d)
  lookup-insert k j v [] = refl
  lookup-insert k j v ((i, w) ∷ d) =
      ground (arith, e.beq_iff k j, e.beq_iff i k, e.beq_iff i j, lookup-insert k j v d)

  pub lookup-erase :
      (k j : K) (d : Dict K V) → lookup j (erase k d) ≡ (if e.beq k j then none else lookup j d)
  lookup-erase k j [] = ground arith
  lookup-erase k j ((i, v) ∷ d) =
      ground (arith, e.beq_iff k j, e.beq_iff i k, e.beq_iff i j, lookup-erase k j d)

  -- No key stands twice.
  abbrev pub IsDict : Dict K V → Type 0
  IsDict [] = Unit
  IsDict ((k, v) ∷ d) = (lookup k d ≡ none) × IsDict d

  pub insert-IsDict : (k : K) (v : V) (d : Dict K V) → IsDict d → IsDict (insert k v d)
  insert-IsDict k v [] h = (refl, tt)
  insert-IsDict k v ((j, w) ∷ d) h =
      ground (arith, e.beq_iff j k, e.beq_iff k j, lookup-insert k j v d, insert-IsDict k v d h.1)
