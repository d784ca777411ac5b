-- ===== src/CdnRouter/Choice.antt =====
-- Which endpoint `resolve` of `CDNRouter` (kit-media/kit_media/cdn_router.py) chooses, and which
-- endpoints a purge reaches.
use kit_api_optimization.Prelude.{ℕ, String, get_elem?, true, ◌≡◌, ◌≢◌, Option, some, List, []}
use kit_api_optimization.CdnRouter.{CdnEndpoint, Texts, given, serves, regional}

-- An endpoint stands in a list.
abbrev pub Among : CdnEndpoint → List CdnEndpoint → Type 0
Among ep endpoints = (i : ℕ) × (get_elem? endpoints i ≡ some ep)

module _ (texts : Texts) where
  -- what is chosen serves the region and stands in the list
  abbrev Regional : String → List CdnEndpoint → CdnEndpoint → Type 0
  Regional region endpoints e = (serves texts region e ≡ true) × Among e endpoints

  -- What `resolve` promises: the URL of the key at an endpoint of the router, and, if a region is given that
  -- some endpoint serves, at one that serves it.
  pub record Resolves (region : Option String) (endpoints : List CdnEndpoint) (e : CdnEndpoint)
      : Type 0 where
    pub is_ours : Among e endpoints
    pub is_regional :
        (r : String)
        → given region ≡ some r
        → regional texts r endpoints ≢ []
        → serves texts r e ≡ true
