-- ===== src/MediaProcessor/Tests.antt =====
-- `MediaProcessor` at concrete inputs; the parameters of a URL are joined as they stand.
use kit_api_optimization.Prelude.{
  pos, String, string_eq, join, Dict, ◌≡◌, refl, true, none, some, [], ◌∷◌,
}
use kit_api_optimization.MediaProcessor.{
  cover, TransformSpec, Texts, build_transform_url, validate_media_type,
}

abbrev encoded : Dict String String → String
encoded [] = ""
encoded ((k, v) ∷ params) = join (k ∷ "=" ∷ v ∷ ";" ∷ encoded params ∷ [])

abbrev texts : Texts
texts = record { decimal = λ n. "8"; urlencode = encoded; lower = λ s. s; strip = λ s. s }

abbrev spec : TransformSpec
spec = record {
  width = some (pos 8);
  height = some (pos 0);
  format = none;
  quality = none;
  fit = cover;
}

-- a height of 0 is left out, and a query is gone on with
appended_query :
    build_transform_url texts none "https://a/b?c" spec ≡ "https://a/b?c&w=8;fit=cover;"
appended_query = refl

-- with a base the source is a parameter
with_base :
    build_transform_url texts (some "https://t/") "s" spec ≡ "https://t/?w=8;fit=cover;url=s;"
with_base = refl

known_type : validate_media_type texts "video/mp4" ≡ true
known_type = refl
