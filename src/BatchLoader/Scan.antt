-- ===== src/BatchLoader/Scan.antt =====
-- What the two loops of `load_many` (kit-data/kit_data/batch_loader.py) leave in `resolved`,
-- `missing` and the cache.
use kit_api_optimization.Prelude.{
  Eq, Dict, elem, elem-append, lookup, lookup-insert, insert, ◌≡◌, refl, Bool, true, false, ◌||◌,
  ◌&&◌, Option, none, some, List, [], ◌∷◌, ◌++◌, arith, Bool-cases, Option-cases, inl, inr,
  if◌then◌else◌,
}
use kit_api_optimization.BatchLoader.{BatchLoader, hit, scan, resolve}

abbrev pub is_none : {A : Type 0} → Option A → Bool
is_none none = true
is_none (some a) = false

-- A list with no repetition.
abbrev pub IsDistinct : {K : Type 0} ⦃e : Eq K⦄ → List K → Type 0
IsDistinct [] = Unit
IsDistinct (k ∷ ks) = (elem k ks ≡ false) × IsDistinct ks

abbrev pub or_else : {A : Type 0} → Option A → Option A → Option A
or_else none o = o
or_else (some a) o = some a

module _ {K : Type 0} ⦃e : Eq K⦄ where
  IsDistinct-append :
      (k : K) (ks : List K) → IsDistinct ks → elem k ks ≡ false → IsDistinct (ks ++ k ∷ [])
  IsDistinct-append k [] d n = ground arith
  IsDistinct-append k (x ∷ ks) d n =
      ground
        (arith, e.beq_iff x k, e.beq_iff k x, elem-append x ks (k ∷ []), IsDistinct-append k ks d.1)

module _ {K V : Type 0} ⦃e : Eq K⦄ where
  -- A key that the loop has met is in `resolved` with its cached value, if it has one.
  pub lookup-scan :
      (loader : BatchLoader K V) (keys : List K) (acc : Dict K (Option V) × List K) (j : K)
      → lookup j (scan loader keys acc).0
        ≡ (if elem j keys then or_else (hit loader j) (lookup j acc.0) else lookup j acc.0)
  unfolding scan
  lookup-scan loader [] acc j = refl
  lookup-scan loader (k ∷ keys) (resolved, missing) j = elim (Option-cases (hit loader k)) [
    | inl h ↦ ground (
      arith,
      h,
      e.beq_iff k j,
      lookup-scan loader keys (resolved, if elem k missing then missing else missing ++ k ∷ []) j,
    )
    | inr (v, h) ↦ ground (
      arith,
      h,
      e.beq_iff k j,
      lookup-insert k j v resolved,
      lookup-scan loader keys (insert k v resolved, missing) j,
    )
  ]

  -- and in `missing`, if it has none.
  pub elem-scan :
      (loader : BatchLoader K V) (keys : List K) (acc : Dict K (Option V) × List K) (j : K)
      → elem j (scan loader keys acc).1 ≡ (elem j acc.1 || (elem j keys && is_none (hit loader j)))
  unfolding scan
  elem-scan loader [] acc j = ground arith
  elem-scan loader (k ∷ keys) (resolved, missing) j = elim (Option-cases (hit loader k)) [
    | inl h ↦ ground (
      arith,
      h,
      e.beq_iff k j,
      elem-append j missing (k ∷ []),
      elem-scan loader keys (resolved, if elem k missing then missing else missing ++ k ∷ []) j,
    )
    | inr (v, h) ↦
        ground (arith, h, e.beq_iff k j, elem-scan loader keys (insert k v resolved, missing) j)
  ]

  pub lookup-resolve :
      (fetched : Dict K V) (missing : List K) (resolved : Dict K (Option V)) (j : K)
      → lookup j (resolve fetched missing resolved)
        ≡ (if elem j missing then some (lookup j fetched) else lookup j resolved)
  unfolding resolve
  lookup-resolve fetched [] resolved j = refl
  lookup-resolve fetched (k ∷ missing) resolved j = ground (
    arith,
    e.beq_iff k j,
    lookup-insert k j (lookup k fetched) resolved,
    lookup-resolve fetched missing (insert k (lookup k fetched) resolved) j,
  )

  pub scan-IsDistinct :
      (loader : BatchLoader K V) (keys : List K) (acc : Dict K (Option V) × List K)
      → IsDistinct acc.1
      → IsDistinct (scan loader keys acc).1
  unfolding scan
  scan-IsDistinct loader [] acc d = d
  scan-IsDistinct loader (k ∷ keys) (resolved, missing) d = elim (Option-cases (hit loader k)) [
    | inl h ↦ elim (Bool-cases (elem k missing)) [
      | inl old ↦ ground (arith, h, scan-IsDistinct loader keys (resolved, missing) d)
      | inr new ↦ ground (
        arith,
        h,
        scan-IsDistinct loader keys (resolved, missing ++ k ∷ [])
            (IsDistinct-append k missing d new),
      )
    ]
    | inr (v, h) ↦ ground (arith, h, scan-IsDistinct loader keys (insert k v resolved, missing) d)
  ]

  -- The keys that `batch_fn` is asked for.
  abbrev pub missing_keys : BatchLoader K V → List K → List K
  missing_keys loader keys = (scan loader keys ([], [])).1

  -- `batch_fn` is asked, once each, for the keys of the input that the cache does not answer, and
  -- for no others.
  pub missing_keys_exact :
      (loader : BatchLoader K V) (keys : List K)
      → IsDistinct (missing_keys loader keys)
        × ((j : K) → elem j (missing_keys loader keys) ≡ (elem j keys && is_none (hit loader j)))
  missing_keys_exact loader keys =
      (scan-IsDistinct loader keys ([], []) tt, λ j. elem-scan loader keys ([], []) j)
