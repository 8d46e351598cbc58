-- ===== src/Policy/Tests.antt =====
-- The registry policy on concrete ConfigMaps.
use kube_op.Prelude.{◌≡◌, refl, true, false, ◌↔◌, [], ◌∷◌, none, some, ok, err}
use kube_op.Text.{text}
use kube_op.StringMap.{StringMap}
use kube_op.Policy.{
  RegistryPolicy, PolicyError, invalid_boolean, list_key, parse_config_map, allows_registry,
  allows_repository, normalise,
}
use kube_op.Policy.Patterns.{HostMatches, RepoMatches}
use kube_op.Policy.Decisions.{
  Allows, allows_registry-parse_config_map, allows_repository-parse_config_map, IsNormal,
  parse_config_map-IsNormal,
}
use kube_op.Policy.Outcomes.{
  yes_words, no_words, IsWord, IsBlankList, OfKey, UnlessMissing, IsNoBoolean,
  parse_config_map_outcomes,
}

abbrev settings : StringMap
settings =
    ("allowedRegistries", text " *.Example.com,ghcr.io")
    ∷ ("allowedRepositories", text "ghcr.io/team/*")
    ∷ ("requireCosign", text "Yes")
    ∷ []

abbrev parsed_policy : RegistryPolicy
parsed_policy = record {
  allowed_registries = text "*.example.com" ∷ text "ghcr.io" ∷ [];
  allowed_repositories = text "ghcr.io/team/*" ∷ [];
  require_cosign = true;
}

parsed_settings : parse_config_map (some settings) ≡ ok (some parsed_policy)
unfolding parse_config_map
parsed_settings = refl

refused :
    parse_config_map (some (("requireCosign", text "maybe") ∷ []))
    ≡ err (invalid_boolean (text "maybe"))
unfolding parse_config_map
refused = refl

hosts :
    (allows_registry (some parsed_policy) (text "eu.example.com") ≡ true)
    × (allows_registry (some parsed_policy) (text "badexample.com") ≡ false)
    × (allows_registry none (text "any") ≡ true)
unfolding allows_registry
hosts = (refl, refl, refl)

repositories :
    (allows_repository (some parsed_policy) (text "ghcr.io/team/web") ≡ true)
    × (allows_repository (some parsed_policy) (text "ghcr.io/teams") ≡ false)
unfolding allows_repository
repositories = (refl, refl)

allows_registry-parse_config_map_example :
    (allows_registry (some parsed_policy) (text "eu.example.com") ≡ true)
    ↔ Allows HostMatches (list_key "allowedRegistries" settings) (text "eu.example.com")
allows_registry-parse_config_map_example =
    allows_registry-parse_config_map settings (some parsed_policy) parsed_settings
      (text "eu.example.com")

allows_repository-parse_config_map_example :
    (allows_repository (some parsed_policy) (text "ghcr.io/team/web") ≡ true)
    ↔ Allows RepoMatches (list_key "allowedRepositories" settings) (text "ghcr.io/team/web")
allows_repository-parse_config_map_example =
    allows_repository-parse_config_map settings (some parsed_policy) parsed_settings
      (text "ghcr.io/team/web")

parse_config_map-IsNormal_example :
    IsNormal parsed_policy × (normalise parsed_policy ≡ parsed_policy)
parse_config_map-IsNormal_example = parse_config_map-IsNormal settings parsed_policy parsed_settings

abbrev blank_settings : StringMap
blank_settings = ("allowedRegistries", text " , ") ∷ ("requireCosign", text " No") ∷ []

parse_config_map_outcomes_example :
    ((e : PolicyError)
      → (parse_config_map (some blank_settings) ≡ err e)
        ↔ OfKey "requireCosign" (λ raw. IsNoBoolean raw × (e ≡ invalid_boolean raw)) blank_settings)
    × ((parse_config_map (some blank_settings) ≡ ok none) ↔ (
        UnlessMissing "allowedRegistries" IsBlankList blank_settings
        × UnlessMissing "allowedRepositories" IsBlankList blank_settings
        × UnlessMissing "requireCosign" (IsWord no_words) blank_settings))
    × ((p : RegistryPolicy)
        → parse_config_map (some blank_settings) ≡ ok (some p)
        → (p.require_cosign ≡ true) ↔ OfKey "requireCosign" (IsWord yes_words) blank_settings)
parse_config_map_outcomes_example = parse_config_map_outcomes blank_settings
