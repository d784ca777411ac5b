-- ===== src/BatchLoader/Loading.antt =====
-- What `load_many` (kit-data/kit_data/batch_loader.py) returns, and what it remembers.
use kit_api_optimization.Prelude.{
  Eq, Dict, elem, lookup, ◌≡◌, ◌≢◌, refl, true, false, Option, none, some, List, [], ◌∷◌, map,
  arith, ap₂, ap, ◌∙◌,
}
use kit_api_optimization.Exceptions.{Error, Result, ok, err, Method}
use kit_api_optimization.BatchLoader.{
  BatchLoader, Fetched, hit, scan, resolve, remember, normalize, then_normalize, get_resolved,
  fetch_missing, load_many,
}
use kit_api_optimization.BatchLoader.Scan.{
  is_none, lookup-scan, lookup-resolve, missing_keys, missing_keys_exact,
}

module _ {K : Type 0} ⦃e : Eq K⦄ where
  -- Functions that agree on the elements of a list.
  map-eq_of_elem :
      {B : Type 0} (f g : K → B) (keys : List K)
      → ((k : K) → elem k keys ≡ true → f k ≡ g k)
      → map f keys ≡ map g keys
  map-eq_of_elem f g [] h = refl
  map-eq_of_elem f g (k ∷ keys) h =
      ap₂ (λ x xs. x ∷ xs) (h k (ground (arith, e.beq_iff k k)))
        (map-eq_of_elem f g keys (λ j m. h j (ground arith)))

  nil_of_elem : (ks : List K) → ((j : K) → elem j ks ≡ false) → ks ≡ []
  nil_of_elem [] h = refl
  nil_of_elem (k ∷ ks) h = ground (arith, h k, e.beq_iff k k)

module _ {K V : Type 0} ⦃e : Eq K⦄ where
  -- What the caller should get for one key: the cached value, or else the fetched one.
  abbrev pub answer : BatchLoader K V → Dict K V → K → Option V
  answer loader fetched k = elim (hit loader k) [ none ↦ lookup k fetched | some v ↦ v ]

  resolved-answer :
      (loader : BatchLoader K V) (keys : List K) (fetched : Dict K V) (k : K)
      → elem k keys ≡ true
      → get_resolved (resolve fetched (missing_keys loader keys) (scan loader keys ([], [])).0) k
        ≡ answer loader fetched k
  resolved-answer loader keys fetched k m = ground (
    arith,
    lookup-resolve fetched (missing_keys loader keys) (scan loader keys ([], [])).0 k,
    lookup-scan loader keys ([], []) k,
    (missing_keys_exact loader keys).1 k,
  )

  scanned-answer :
      (loader : BatchLoader K V) (keys : List K)
      → ((k : K) → elem k keys ≡ true → is_none (hit loader k) ≡ false)
      → (k : K) → elem k keys ≡ true
      → get_resolved (scan loader keys ([], [])).0 k ≡ answer loader [] k
  scanned-answer loader keys cached k m =
      ground (arith, lookup-scan loader keys ([], []) k, cached k m)

  -- Every key of the input is in the cache once the missing ones are remembered.
  hit-remember :
      (loader : BatchLoader K V) (keys : List K) (fetched : Dict K V)
      → loader.cache_enabled ≡ true
      → (k : K) → elem k keys ≡ true
      → hit (remember fetched (missing_keys loader keys) loader) k ≡ some (answer loader fetched k)
  unfolding remember
  hit-remember loader keys fetched on k m = ground (
    arith,
    lookup-resolve fetched (missing_keys loader keys) loader.cache k,
    (missing_keys_exact loader keys).1 k,
  )

  -- What a loader should have in its cache once the missing keys of an input are fetched.
  pub record Remembers (loader : BatchLoader K V) (keys : List K) (fetched : Dict K V)
      (loader' : BatchLoader K V) : Type 0 where
    pub same_setting : loader'.cache_enabled ≡ loader.cache_enabled
    pub has_answers :
        loader.cache_enabled ≡ true
        → (k : K) → elem k keys ≡ true
        → lookup k loader'.cache ≡ some (answer loader fetched k)
    pub keeps_others :
        (k : K) → elem k keys ≡ false → lookup k loader'.cache ≡ lookup k loader.cache
    pub is_unchanged : loader.cache_enabled ≡ false → loader' ≡ loader

  remember-Remembers :
      (loader : BatchLoader K V) (keys : List K) (fetched : Dict K V)
      → Remembers loader keys fetched (remember fetched (missing_keys loader keys) loader)
  unfolding remember
  remember-Remembers loader keys fetched = record {
    same_setting = ground arith;
    has_answers = λ on k m. ground (
      arith,
      on,
      m,
      lookup-resolve fetched (missing_keys loader keys) loader.cache k,
      (missing_keys_exact loader keys).1 k,
    );
    keeps_others = λ k m. ground (
      arith,
      m,
      lookup-resolve fetched (missing_keys loader keys) loader.cache k,
      (missing_keys_exact loader keys).1 k,
    );
    is_unchanged = λ off. rw off refl;
  }

  module _ {W : Type 0} (batch_fn : List K → Method W (Fetched K V)) where
    fetch_missing-fetches :
        (keys missing : List K) (resolved : Dict K (Option V)) (loader : BatchLoader K V) (w w' : W)
        (result : Fetched K V) (fetched : Dict K V)
        → missing ≢ []
        → batch_fn missing w ≡ (ok result, w')
        → normalize missing result ≡ ok fetched
        → fetch_missing batch_fn keys missing resolved (w, loader) ≡ (
          ok (map (get_resolved (resolve fetched missing resolved)) keys),
          (w', remember fetched missing loader),
        )
    unfolding fetch_missing
    fetch_missing-fetches keys [] resolved loader w w' result fetched ne called normal =
        absurd (ne refl)
    fetch_missing-fetches keys (m ∷ ms) resolved loader w w' result fetched ne called normal =
        ground arith

    fetch_missing-fails :
        (keys missing : List K) (resolved : Dict K (Option V)) (loader : BatchLoader K V) (w w' : W)
        (r : Result (Fetched K V)) (x : Error)
        → missing ≢ []
        → batch_fn missing w ≡ (r, w')
        → then_normalize missing r ≡ err x
        → fetch_missing batch_fn keys missing resolved (w, loader) ≡ (err x, (w', loader))
    unfolding fetch_missing
    fetch_missing-fails keys [] resolved loader w w' r x ne called failed = absurd (ne refl)
    fetch_missing-fails keys (m ∷ ms) resolved loader w w' r x ne called failed = ground arith

    load_many-eq :
        (keys : List K) (loader : BatchLoader K V) (w w' : W) (result : Fetched K V)
        (fetched : Dict K V)
        → missing_keys loader keys ≢ []
        → batch_fn (missing_keys loader keys) w ≡ (ok result, w')
        → normalize (missing_keys loader keys) result ≡ ok fetched
        → load_many batch_fn keys (w, loader) ≡ (
          ok (map (answer loader fetched) keys),
          (w', remember fetched (missing_keys loader keys) loader),
        )
    unfolding load_many
    load_many-eq keys loader w w' result fetched some_missing called normal =
        fetch_missing-fetches keys (missing_keys loader keys) (scan loader keys ([], [])).0 loader w
          w' result fetched some_missing called normal
        ∙ ap (λ values. (ok values, (w', remember fetched (missing_keys loader keys) loader)))
            (map-eq_of_elem _ _ keys (resolved-answer loader keys fetched))

    -- If some keys of the input are missing in the cache, one call of `batch_fn`, for the missing keys,
    -- answers the whole input in its order: each key gets its cached value, or else its fetched one, or None.
    -- A loader that caches has those answers under the keys of the input afterwards, and every other entry as
    -- before; one that does not is as before. `batch_fn` returns, and what it returns fits the missing keys.
    pub load_many_fetches :
        (keys : List K) (loader : BatchLoader K V) (w w' : W) (result : Fetched K V)
        (fetched : Dict K V)
        → missing_keys loader keys ≢ []
        → batch_fn (missing_keys loader keys) w ≡ (ok result, w')
        → normalize (missing_keys loader keys) result ≡ ok fetched
        → (loader' : BatchLoader K V) × (load_many batch_fn keys (w, loader)
            ≡ (ok (map (answer loader fetched) keys), (w', loader')))
          × Remembers loader keys fetched loader'
    load_many_fetches keys loader w w' result fetched some_missing called normal = (
      remember fetched (missing_keys loader keys) loader,
      load_many-eq keys loader w w' result fetched some_missing called normal,
      remember-Remembers loader keys fetched,
    )

    all_cached-missing :
        (keys : List K) (loader : BatchLoader K V)
        → ((k : K) → elem k keys ≡ true → is_none (hit loader k) ≡ false)
        → missing_keys loader keys ≡ []
    all_cached-missing keys loader cached =
        nil_of_elem (missing_keys loader keys)
          λ j. ground (arith, (missing_keys_exact loader keys).1 j, cached j)

    fetch_missing-nothing :
        (keys missing : List K) (resolved : Dict K (Option V)) (s : W × BatchLoader K V)
        → missing ≡ []
        → fetch_missing batch_fn keys missing resolved s
          ≡ (ok (map (get_resolved resolved) keys), s)
    unfolding fetch_missing
    fetch_missing-nothing keys [] resolved s h = refl
    fetch_missing-nothing keys (m ∷ ms) resolved s h = cc

    -- If the cache answers every key, `batch_fn` is not called and nothing changes.
    pub load_many_cached :
        (keys : List K) (loader : BatchLoader K V) (w : W)
        → ((k : K) → elem k keys ≡ true → is_none (hit loader k) ≡ false)
        → load_many batch_fn keys (w, loader) ≡ (ok (map (answer loader []) keys), (w, loader))
    unfolding load_many
    load_many_cached keys loader w cached =
        fetch_missing-nothing keys (missing_keys loader keys) (scan loader keys ([], [])).0
          (w, loader) (all_cached-missing keys loader cached)
        ∙ ap (λ values. (ok values, (w, loader)))
            (map-eq_of_elem _ _ keys (scanned-answer loader keys cached))

    -- If `batch_fn` raises, or returns a sequence of the wrong length, the call raises that exception
    -- or ValueError, and the cache is as it was.
    pub load_many_fails :
        (keys : List K) (loader : BatchLoader K V) (w w' : W) (r : Result (Fetched K V)) (x : Error)
        → missing_keys loader keys ≢ []
        → batch_fn (missing_keys loader keys) w ≡ (r, w')
        → then_normalize (missing_keys loader keys) r ≡ err x
        → load_many batch_fn keys (w, loader) ≡ (err x, (w', loader))
    unfolding load_many
    load_many_fails keys loader w w' r x ne called failed =
        fetch_missing-fails keys (missing_keys loader keys) (scan loader keys ([], [])).0 loader w
          w' r x ne called failed

    -- A loader that caches asks for no key twice: the same keys again get the same answers from the
    -- cache, and `batch_fn` is not called.
    pub load_many_twice :
        (keys : List K) (loader : BatchLoader K V) (w w' : W) (result : Fetched K V)
        (fetched : Dict K V)
        → loader.cache_enabled ≡ true
        → missing_keys loader keys ≢ []
        → batch_fn (missing_keys loader keys) w ≡ (ok result, w')
        → normalize (missing_keys loader keys) result ≡ ok fetched
        → let (first, s) = load_many batch_fn keys (w, loader) in
          (s.0 ≡ w') × (load_many batch_fn keys s ≡ (first, s))
    load_many_twice keys loader w w' result fetched on ne called normal =
        let loaded = load_many-eq keys loader w w' result fetched ne called normal in
        rw loaded (
          refl,
          load_many_cached keys (remember fetched (missing_keys loader keys) loader) w'
                (λ k m. ground (arith, hit-remember loader keys fetched on k m))
              ∙ ap (λ values. (ok values, (w', remember fetched (missing_keys loader keys) loader)))
                  (map-eq_of_elem _ _ keys
                    λ k m. ground (arith, hit-remember loader keys fetched on k m)),
        )
