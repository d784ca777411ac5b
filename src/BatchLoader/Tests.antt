-- ===== src/BatchLoader/Tests.antt =====
-- `BatchLoader` at concrete inputs. `batch_fn` counts its calls and fetches from a small table.
use kit_api_optimization.Prelude.{
  ℕ, ◌+◌, nat_eq, Dict, ◌≡◌, ◌≢◌, refl, true, none, some, List, [], ◌∷◌, map,
}
use kit_api_optimization.Exceptions.{ok, Method}
use kit_api_optimization.BatchLoader.{
  BatchLoader, Fetched, by_key, aligned, normalize, load_many, scan,
}
use kit_api_optimization.BatchLoader.Scan.{missing_keys}
use kit_api_optimization.BatchLoader.Loading.{Remembers, answer, load_many_fetches}

abbrev table : Dict ℕ ℕ
table = (1, 10) ∷ (2, 20) ∷ []

abbrev fetch_rows : List ℕ → Method ℕ (Fetched ℕ ℕ)
fetch_rows asked calls = (ok (by_key table), calls + 1)

-- key 5 is already in the cache
abbrev loader : BatchLoader ℕ ℕ
loader = record { cache_enabled = true; cache = (5, some 50) ∷ [] }

abbrev keys : List ℕ
keys = 2 ∷ 5 ∷ 3 ∷ 2 ∷ []

missing : missing_keys loader keys ≡ 2 ∷ 3 ∷ []
unfolding scan
missing = refl

missing_ne : missing_keys loader keys ≢ []
unfolding scan
missing_ne e = cc

one_query : (load_many fetch_rows keys (0, loader)).0 ≡ ok (some 20 ∷ some 50 ∷ none ∷ some 20 ∷ [])
unfolding load_many
one_query = refl

load_many_fetches_example :
    (loader' : BatchLoader ℕ ℕ) × (load_many fetch_rows keys (0, loader)
      ≡ (ok (map (answer loader table) keys), (1, loader')))
    × Remembers loader keys table loader'
unfolding normalize
load_many_fetches_example =
    load_many_fetches fetch_rows keys loader 0 1 (by_key table) table missing_ne refl refl

-- a sequence that is too short
abbrev one_value : List ℕ → Method ℕ (Fetched ℕ ℕ)
one_value asked calls = (ok (aligned (7 ∷ [])), calls + 1)
