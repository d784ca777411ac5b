-- ===== src/BatchLoader.antt =====
-- kit-data/kit_data/batch_loader.py: `BatchLoader`, in memory. `batch_fn` belongs to the application:
-- it is a method on a state of its own, so that a call of it shows.
pub mod Scan
pub mod Loading
mod Tests
use kit_api_optimization.Prelude.{
  Eq, Dict, elem, lookup, insert, erase, eqb, length, Bool, true, false, Option, none, some, List,
  [], ◌∷◌, ◌++◌, map, if◌then◌else◌,
}
use kit_api_optimization.Exceptions.{Result, ok, err, Method, pure, value_error, index_error, ◌>>=◌}

-- What `batch_fn` may return.
pub data Fetched (K V : Type 0) : Type 0 where
  by_key : Dict K V → Fetched K V
  aligned : List V → Fetched K V

pub record BatchLoader (K V : Type 0) : Type 0 where
  pub cache_enabled : Bool
  -- None stands for a key with no value
  pub cache : Dict K (Option V)

module _ {K V : Type 0} ⦃e : Eq K⦄ where
  -- `self._cache_enabled and k in self._cache`, with the value where it holds
  abbrev pub hit : BatchLoader K V → K → Option (Option V)
  hit loader k = if loader.cache_enabled then lookup k loader.cache else none

  abbrev classified :
      Option (Option V) → K → Dict K (Option V) × List K → Dict K (Option V) × List K
  classified (some v) k (resolved, missing) = (insert k v resolved, missing)
  classified none k (resolved, missing) =
      (resolved, if elem k missing then missing else missing ++ k ∷ [])

  -- `for k in keys:`, on `resolved` and `missing`
  pub scan : BatchLoader K V → List K → Dict K (Option V) × List K → Dict K (Option V) × List K
  scan loader [] acc = acc
  scan loader (k ∷ keys) acc = scan loader keys (classified (hit loader k) k acc)

  -- `dict(zip(keys, values))`
  pub zipped : List K → List V → Dict K V → Dict K V
  zipped (k ∷ keys) (v ∷ values) d = zipped keys values (insert k v d)
  zipped _ _ d = d

  pub normalize : List K → Fetched K V → Result (Dict K V)
  unfolding zipped
  normalize keys (by_key d) = ok d
  normalize keys (aligned values) =
      if eqb (length values) (length keys) then ok (zipped keys values []) else err value_error

  pub then_normalize : List K → Result (Fetched K V) → Result (Dict K V)
  unfolding normalize
  then_normalize keys (ok result) = normalize keys result
  then_normalize keys (err x) = err x

  -- `for k in missing:`, on `resolved`; and its writes to the cache
  pub resolve : Dict K V → List K → Dict K (Option V) → Dict K (Option V)
  resolve fetched [] resolved = resolved
  resolve fetched (k ∷ missing) resolved =
      resolve fetched missing (insert k (lookup k fetched) resolved)

  pub remember : Dict K V → List K → BatchLoader K V → BatchLoader K V
  unfolding resolve
  remember fetched missing loader =
      if loader.cache_enabled
      then record loader { cache = resolve fetched missing loader.cache }
      else loader

  -- `resolved.get(k)`: a stored None and a missing key read alike
  abbrev pub get_resolved : Dict K (Option V) → K → Option V
  get_resolved resolved k = elim (lookup k resolved) [ none ↦ none | some v ↦ v ]

  module _ {W : Type 0} (batch_fn : List K → Method W (Fetched K V)) where
    fetch_missing :
        List K → List K → Dict K (Option V) → Method (W × BatchLoader K V) (List (Option V))
    unfolding remember then_normalize
    fetch_missing keys [] resolved s = (ok (map (get_resolved resolved) keys), s)
    fetch_missing keys (m ∷ ms) resolved (w, loader) =
        let (r, w') = batch_fn (m ∷ ms) w in
        elim (then_normalize (m ∷ ms) r) [
          | ok fetched ↦ (
            ok (map (get_resolved (resolve fetched (m ∷ ms) resolved)) keys),
            (w', remember fetched (m ∷ ms) loader),
          )
          | err x ↦ (err x, (w', loader))
        ]

    unfoldable pub load_many : List K → Method (W × BatchLoader K V) (List (Option V))
    unfolding scan fetch_missing
    load_many keys (w, loader) =
        let (resolved, missing) = scan loader keys ([], []) in
        fetch_missing keys missing resolved (w, loader)

    -- `load_many([key])[0]`
    unfoldable pub load : K → Method (W × BatchLoader K V) (Option V)
    unfolding load_many
    load key = do
      values ← load_many (key ∷ [])
      elim values [ [] ↦ (λ s. (err index_error, s)) | v ∷ _ ↦ pure v ]

  unfoldable pub prime : K → Option V → BatchLoader K V → BatchLoader K V
  prime key v loader =
      if loader.cache_enabled then record loader { cache = insert key v loader.cache } else loader

  unfoldable pub clear : K → BatchLoader K V → BatchLoader K V
  clear key loader = record loader { cache = erase key loader.cache }

pub clear_all : {K V : Type 0} → BatchLoader K V → BatchLoader K V
clear_all loader = record loader { cache = [] }
