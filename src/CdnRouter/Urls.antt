-- ===== src/CdnRouter/Urls.antt =====
-- `lstrip("/")`, `rstrip("/")` and the test for a question mark, of kit-media/kit_media/cdn_router.py and
-- processor.py.
use Prim.Native.String.{String, [], ◌∷◌}
use Prim.Native.Char.{Char}
use mathlib.Core.Bool.{Bool, false, ◌&&◌, ◌||◌}
use text.Mathlib.Text.{◌==◌}
use kit_api_optimization.Prelude.{if◌then◌else◌}

abbrev is_char : String → Char → Bool
is_char s c = s == (c ∷ [])

abbrev pub lstrip_slashes : String → String
lstrip_slashes [] = []
lstrip_slashes (c ∷ s) = let rest = lstrip_slashes s in if is_char "/" c then rest else c ∷ s

abbrev pub rstrip_slashes : String → String
rstrip_slashes [] = []
rstrip_slashes (c ∷ s) =
    let rest = rstrip_slashes s in if is_char "/" c && (rest == "") then "" else c ∷ rest

-- `"?" in s`
abbrev pub has_query : String → Bool
has_query [] = false
has_query (c ∷ s) = is_char "?" c || has_query s
