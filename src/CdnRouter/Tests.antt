-- ===== src/CdnRouter/Tests.antt =====
-- `CDNRouter` at concrete endpoints, with a draw that is its upper bound.
use kit_api_optimization.Prelude.{ℤ, pos, String, ◌≡◌, refl, Option, none, some, List, [], ◌∷◌}
use kit_api_optimization.Exceptions.{ok, err, value_error}
use kit_api_optimization.CdnRouter.{CdnEndpoint, Texts, weighted_choice, resolve}

abbrev texts : Texts
texts = record { lower = λ s. s; decimal = λ n. "9"; hexdigest = λ key s. "ff" }

abbrev east : CdnEndpoint
east = record {
  name = "east";
  base_url = "https://east/";
  regions = "us" ∷ [];
  weight = pos 1;
  signing_key = none;
  purge_api = none;
  purge_headers = [];
}

abbrev west : CdnEndpoint
west = record east {
  name = "west";
  base_url = "https://west";
  regions = "eu" ∷ [];
  weight = pos 2;
  signing_key = some "k";
}

the_last_draw :
    resolve texts (λ x. x) "/a" none 0 (east ∷ west ∷ []) ≡ ok "https://west/a?expires=9&sig=ff"
unfolding resolve weighted_choice kit_api_optimization.Prelude.◌+ℤ◌
the_last_draw = refl

-- weights of 0 leave nothing to draw from
no_weights :
    resolve texts (λ x. x) "/a" none 0 ((record east { weight = pos 0 }) ∷ []) ≡ err value_error
unfolding resolve weighted_choice kit_api_optimization.Prelude.◌+ℤ◌
no_weights = refl
