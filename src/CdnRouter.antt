-- ===== src/CdnRouter.antt =====
-- kit-media/kit_media/cdn_router.py: `CDNRouter`. The random draw and the clock, in whole microseconds,
-- are arguments; `str.lower`, the decimal text of a number and HMAC-SHA256 are parameters. A request to
-- the purge API of an endpoint is a method on a state of its own.
pub mod Urls
pub mod Choice
mod Tests
use kit_api_optimization.Prelude.{
  ℕ, ◌+◌, ◌/◌, ℤ, pos, ◌+ℤ◌, leb_ℤ, String, string_eq, ◌==◌, join, elem, Dict, Bool, true, false,
  Option, none, some, List, [], ◌∷◌, map, if◌then◌else◌,
}
use kit_api_optimization.Exceptions.{Error, Result, ok, err, Method, value_error}
use kit_api_optimization.CdnRouter.Urls.{lstrip_slashes, rstrip_slashes}

pub record CdnEndpoint : Type 0 where
  pub name : String
  pub base_url : String
  pub regions : List String
  pub weight : ℤ
  pub signing_key : Option String
  pub purge_api : Option String
  pub purge_headers : Dict String String

-- The parameters: `lower`, the decimal text of a number, and the HMAC of a text under a key.
pub record Texts : Type 0 where
  pub lower : String → String
  pub decimal : ℕ → String
  pub hexdigest : String → String → String

-- `__init__`
abbrev pub init : List CdnEndpoint → Result (List CdnEndpoint)
init [] = err value_error
init (ep ∷ endpoints) = ok (ep ∷ endpoints)

-- a text that is not None and not empty
abbrev pub given : Option String → Option String
given none = none
given (some s) = if s == "" then none else some s

-- `sum(ep.weight for ep in endpoints)`
abbrev pub total : List CdnEndpoint → ℤ
total [] = pos 0
total (ep ∷ endpoints) = ep.weight +ℤ total endpoints

-- The loop of `_weighted_choice`, with the weights so far and the endpoint before; the last endpoint
-- of the list is the answer if the draw is above them all.
abbrev pub pick : ℤ → ℤ → CdnEndpoint → List CdnEndpoint → CdnEndpoint
pick r cumulative before [] = before
pick r cumulative before (ep ∷ endpoints) =
    let later = pick r (cumulative +ℤ ep.weight) ep endpoints in
    if leb_ℤ r (cumulative +ℤ ep.weight) then ep else later

-- `randint x` is what `random.randint(1, x)` draws, which raises if x is below 1
unfoldable pub weighted_choice : (ℤ → ℤ) → CdnEndpoint → List CdnEndpoint → Result CdnEndpoint
weighted_choice randint ep endpoints =
    if leb_ℤ (pos 1) (total (ep ∷ endpoints))
    then ok (pick (randint (total (ep ∷ endpoints))) (pos 0) ep (ep ∷ endpoints))
    else err value_error

module _ (texts : Texts) where
  -- `region.lower() in [r.lower() for r in ep.regions]`
  abbrev pub serves : String → CdnEndpoint → Bool
  serves region ep = elem (texts.lower region) (map texts.lower ep.regions)

  abbrev pub regional : String → List CdnEndpoint → List CdnEndpoint
  regional region [] = []
  regional region (ep ∷ endpoints) =
      let others = regional region endpoints in if serves region ep then ep ∷ others else others

  -- the endpoints of a region, if there are any
  abbrev pub or_all : List CdnEndpoint → List CdnEndpoint → List CdnEndpoint
  or_all [] all = all
  or_all (ep ∷ endpoints) all = ep ∷ endpoints

  abbrev pub candidates_of : Option String → List CdnEndpoint → List CdnEndpoint
  candidates_of none endpoints = endpoints
  candidates_of (some r) endpoints = or_all (regional r endpoints) endpoints

  abbrev pub candidates : Option String → List CdnEndpoint → List CdnEndpoint
  candidates region endpoints = candidates_of (given region) endpoints

  abbrev pub sign_url : String → String → ℕ → ℕ → String
  sign_url url key ttl now =
      let expires = texts.decimal (now / 1000000 + ttl) in
      join (
        url
        ∷ "?expires="
        ∷ expires
        ∷ "&sig="
        ∷ texts.hexdigest key (join (url ∷ "?expires=" ∷ expires ∷ []))
        ∷ [])

  abbrev pub url_of : String → ℕ → CdnEndpoint → String
  url_of key now ep =
      let url = join (rstrip_slashes ep.base_url ∷ "/" ∷ lstrip_slashes key ∷ []) in
      elim (given ep.signing_key) [ none ↦ url | some k ↦ sign_url url k 3600 now ]

  abbrev pub url_chosen : String → ℕ → Result CdnEndpoint → Result String
  url_chosen key now (ok e) = ok (url_of key now e)
  url_chosen key now (err x) = err x

  -- the choice among the candidates, of which there are some
  abbrev pub chosen : (ℤ → ℤ) → String → ℕ → List CdnEndpoint → Result String
  chosen randint key now [] = err value_error
  chosen randint key now (ep ∷ endpoints) =
      url_chosen key now (weighted_choice randint ep endpoints)

  unfoldable pub resolve : (ℤ → ℤ) → String → Option String → ℕ → List CdnEndpoint → Result String
  resolve randint key region now endpoints = chosen randint key now (candidates region endpoints)

  abbrev pub resolve_all : String → ℕ → List CdnEndpoint → List String
  resolve_all key now [] = []
  resolve_all key now (ep ∷ endpoints) = url_of key now ep ∷ resolve_all key now endpoints

-- `post` sends a request and raises for its status; `is_http_error` is `except httpx.HTTPError`
module _ {W : Type 0} (post : CdnEndpoint → List String → Method W (Unit {0}))
    (is_http_error : Error → Bool) where
  abbrev pub caught : Result (Unit {0}) × W → Result (Unit {0}) × W
  caught (ok u, w) = (ok u, w)
  caught (err x, w) = if is_http_error x then (ok tt, w) else (err x, w)

  unfoldable pub send_purge : CdnEndpoint → List String → Method W (Unit {0})
  send_purge ep paths w = caught (post ep paths w)

  -- `if ep.purge_api`
  unfoldable pub purge_one : List String → CdnEndpoint → Method W (Unit {0})
  unfolding send_purge
  purge_one paths ep w = elim (given ep.purge_api) [
    | none ↦ (ok tt, w)
    | some api ↦ send_purge ep paths w
  ]

  -- the loop of `purge`, for the paths
  unfoldable pub purge_paths : List String → List CdnEndpoint → Method W (Unit {0})
  unfolding purge_one
  purge_paths paths [] w = (ok tt, w)
  purge_paths paths (ep ∷ endpoints) w =
      let (r, w') = purge_one paths ep w in
      elim r [ ok _ ↦ purge_paths paths endpoints w' | err x ↦ (err x, w') ]

  unfoldable pub purge : String → List CdnEndpoint → Method W (Unit {0})
  unfolding purge_paths
  purge key endpoints = purge_paths (key ∷ []) endpoints

  unfoldable pub purge_prefix : String → List CdnEndpoint → Method W (Unit {0})
  unfolding purge_paths
  purge_prefix prefix endpoints = purge_paths (join (prefix ∷ "*" ∷ []) ∷ []) endpoints
