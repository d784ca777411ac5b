-- ===== src/MediaProcessor.antt =====
-- kit-media/kit_media/processor.py: `TransformSpec` and `MediaProcessor` but `get_dimensions`, which only
-- asks Pillow. The decimal text of an integer, `urlencode`, `lower` and `strip` are parameters.
mod Tests
use kit_api_optimization.Prelude.{
  ℤ, pos, same_ℤ, String, string_eq, ◌==◌, join, elem, Dict, Bool, Option, none, some, List, [],
  ◌∷◌, ◌++◌, if◌then◌else◌,
}
use kit_api_optimization.Exceptions.{Result, ok, err, value_error}
use kit_api_optimization.CdnRouter.Urls.{rstrip_slashes, has_query}

pub data FitMode : Type 0 where
  cover contain fill : FitMode

abbrev value : FitMode → String
value cover = "cover"
value contain = "contain"
value fill = "fill"

-- `FitMode(value)`
abbrev pub of_value : String → Result FitMode
of_value s =
    if s == "cover"
    then ok cover
    else if s == "contain"
    then ok contain
    else if s == "fill"
    then ok fill
    else err value_error

abbrev allowed_media_types : List String
allowed_media_types =
    "image/jpeg" ∷ "image/png" ∷ "image/webp" ∷ "image/avif" ∷ "image/gif" ∷ "image/svg+xml"
    ∷ "video/mp4" ∷ "video/webm" ∷ "video/quicktime" ∷ "audio/mpeg" ∷ "audio/ogg" ∷ "audio/wav"
    ∷ "application/pdf" ∷ []

pub record TransformSpec : Type 0 where
  pub width : Option ℤ
  pub height : Option ℤ
  pub format : Option String
  pub quality : Option ℤ
  pub fit : FitMode

pub record Texts : Type 0 where
  pub decimal : ℤ → String
  pub urlencode : Dict String String → String
  pub lower : String → String
  pub strip : String → String

module _ (texts : Texts) where
  -- `if self.width`, which is false for None and for 0
  abbrev number : String → Option ℤ → Dict String String
  number name none = []
  number name (some n) = if same_ℤ n (pos 0) then [] else (name, texts.decimal n) ∷ []

  abbrev word : String → Option String → Dict String String
  word name none = []
  word name (some s) = if s == "" then [] else (name, s) ∷ []

  -- the parameters in the order of their names in the source
  abbrev pub to_params : TransformSpec → Dict String String
  to_params spec =
      number "w" spec.width
      ++ (number "h" spec.height
          ++ (word "fm" spec.format ++ (number "q" spec.quality ++ ("fit", value spec.fit) ∷ [])))

  abbrev appended : String → TransformSpec → String
  appended source_url spec = join (
      source_url
      ∷ (if has_query source_url then "&" else "?")
      ∷ texts.urlencode (to_params spec)
      ∷ [])

  abbrev pub build_transform_url : Option String → String → TransformSpec → String
  build_transform_url none source_url spec = appended source_url spec
  build_transform_url (some base) source_url spec =
      if base == ""
      then appended source_url spec
      else join (
          rstrip_slashes base
          ∷ "/?"
          ∷ texts.urlencode (to_params spec ++ ("url", source_url) ∷ [])
          ∷ [])

  abbrev pub validate_media_type : String → Bool
  validate_media_type content_type =
      elem (texts.strip (texts.lower content_type)) allowed_media_types
