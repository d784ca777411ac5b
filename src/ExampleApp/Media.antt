-- ===== src/ExampleApp/Media.antt =====
-- The endpoints of example-app/main.py for the media processor and the router of the CDN.
use kit_api_optimization.Prelude.{
  ℕ, ℤ, pos, String, Dict, Bool, if◌then◌else◌, Option, none, some, List, [], ◌∷◌,
}
use kit_api_optimization.Exceptions.{Result, ok, err}
use kit_api_optimization.MediaProcessor.{
  FitMode, of_value, TransformSpec, to_params, build_transform_url,
}
use kit_api_optimization.MediaProcessor as Processor
use kit_api_optimization.CdnRouter.{CdnEndpoint, or_all, resolve, resolve_all}
use kit_api_optimization.CdnRouter as Router

-- the base of `media_processor`
abbrev transform_base_url : Option String
transform_base_url = some "https://images.example.com/transform"

abbrev endpoint : String → String → List String → ℤ → CdnEndpoint
endpoint name base_url regions weight = record {
  name = name;
  base_url = base_url;
  regions = regions;
  weight = weight;
  signing_key = none;
  purge_api = none;
  purge_headers = [];
}

abbrev us_cdn : CdnEndpoint
us_cdn = endpoint "us-cdn" "https://us.cdn.example.com" ("us" ∷ "ca" ∷ []) (pos 3)

abbrev eu_cdn : CdnEndpoint
eu_cdn = endpoint "eu-cdn" "https://eu.cdn.example.com" ("eu" ∷ "uk" ∷ []) (pos 2)

abbrev ap_cdn : CdnEndpoint
ap_cdn = endpoint "ap-cdn" "https://ap.cdn.example.com" ("ap" ∷ "jp" ∷ []) (pos 1)

-- the endpoints of `cdn_router`
abbrev pub cdn_endpoints : List CdnEndpoint
cdn_endpoints = us_cdn ∷ eu_cdn ∷ ap_cdn ∷ []

pub record TransformRequest : Type 0 where
  pub source_url : String
  pub width : Option ℤ
  pub height : Option ℤ
  pub format : Option String
  pub quality : Option ℤ
  pub fit : String

abbrev spec_of : TransformRequest → FitMode → TransformSpec
spec_of body fit = record {
  width = body.width;
  height = body.height;
  format = body.format;
  quality = body.quality;
  fit = fit;
}

-- the URL, and the parameters
abbrev transformed :
    Processor.Texts → TransformRequest → Result FitMode → Result (String × Dict String String)
transformed texts body (err x) = err x
transformed texts body (ok fit) = ok (
  build_transform_url texts transform_base_url body.source_url (spec_of body fit),
  to_params texts (spec_of body fit),
)

abbrev pub transform_image :
    Processor.Texts → TransformRequest → Result (String × Dict String String)
transform_image texts body = transformed texts body (of_value body.fit)

abbrev pub validate_media_type : Processor.Texts → String → Bool
validate_media_type texts content_type = Processor.validate_media_type texts content_type

unfoldable pub resolve_cdn : Router.Texts → (ℤ → ℤ) → String → Option String → ℕ → Result String
resolve_cdn texts randint key region now = resolve texts randint key region now cdn_endpoints

abbrev pub resolve_all_cdns : Router.Texts → String → ℕ → List String
resolve_all_cdns texts key now = resolve_all texts key now cdn_endpoints

module _ (texts : Router.Texts) where
  -- the endpoints of a region, by which of them serve it
  serving : Bool → Bool → Bool → List CdnEndpoint
  serving us eu ap =
      let asia = if ap then ap_cdn ∷ [] else [] in
      let europe = if eu then eu_cdn ∷ asia else asia in
      or_all texts (if us then us_cdn ∷ europe else europe) cdn_endpoints
