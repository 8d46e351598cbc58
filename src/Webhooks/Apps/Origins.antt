-- ===== src/Webhooks/Apps/Origins.antt =====
-- When the registry policy of a namespace accepts an app.
use kube_op.Prelude.{
  ◌≡◌, refl, true, ◌↔◌, ◌⊎◌, [], ◌∷◌, Option, none, some, Result, ok, err, arith, both_iff, Points,
}
use kube_op.Text.{Text, trim_space, to_lower}
use kube_op.Policy.{RegistryPolicy, allows_registry, allows_repository}
use kube_op.Field.{ErrorList}
use kube_op.Api.{AppType, AppSource, AppSpec, App}
use kube_op.Cluster.{Client, Parsers, ImageReference}
use kube_op.Webhooks.Metadata.{is_empty-cases, unless_blank_iff}
use kube_op.Webhooks.Apps.Sources.{
  PolicyFailure, policy_for, registry_info_from_source, source_path, reference_errors, image_errors,
  parsed_errors, source_errors, policy_errors, registry_policy_errors,
}

-- The image parses, and its registry and its repository are on the policy's lists.
abbrev pub ImageAllowed : Parsers → RegistryPolicy → Text → Type 0
ImageAllowed parsers policy image =
    Points
      (λ ref.
        (allows_registry (some policy) (to_lower ref.registry) ≡ true)
        × (allows_repository (some policy) (to_lower ref.repository) ≡ true))
      (parsers.parse_reference (trim_space image))

-- A host and a repository, each on its list unless it is empty.
abbrev pub PlaceAllowed : RegistryPolicy → Text → Text → Type 0
PlaceAllowed policy host repo =
    ((host ≡ []) ⊎ (allows_registry (some policy) host ≡ true))
    × ((repo ≡ []) ⊎ (allows_repository (some policy) repo ≡ true))

-- A source is absent or blank, or it parses and what the type of the app takes from it is allowed.
abbrev pub SourceAllowed : Parsers → RegistryPolicy → AppType → Option AppSource → Type 0
SourceAllowed parsers policy app_type none = Unit
SourceAllowed parsers policy app_type (some source) =
    let info = registry_info_from_source parsers app_type (some source) source_path in
    (trim_space source.url ≡ []) ⊎ ((info.errors ≡ []) × PlaceAllowed policy info.host info.repo)

-- A nil policy restricts nothing; one that does not load admits nothing.
abbrev pub OriginAllowed : Parsers → AppSpec → Result PolicyFailure (Option RegistryPolicy) → Type 0
OriginAllowed parsers spec (err e) = ⊥
OriginAllowed parsers spec (ok none) = Unit
OriginAllowed parsers spec (ok (some policy)) =
    ((trim_space spec.image ≡ []) ⊎ ImageAllowed parsers policy spec.image)
    × SourceAllowed parsers policy spec.app_type spec.source

module _ (parsers : Parsers) (policy : RegistryPolicy) where
  reference_errors_iff :
      (image : Text) (o : Option ImageReference)
      → (reference_errors policy image o ≡ [])
        ↔ Points
            (λ ref.
              (allows_registry (some policy) (to_lower ref.registry) ≡ true)
              × (allows_repository (some policy) (to_lower ref.repository) ≡ true))
            o
  unfolding reference_errors
  reference_errors_iff image none = (λ h. cc, λ h. absurd h)
  reference_errors_iff image (some ref) = ground arith

  image_errors_iff :
      (image : Text)
      → (image_errors parsers policy image ≡ [])
        ↔ ((trim_space image ≡ []) ⊎ ImageAllowed parsers policy image)
  unfolding image_errors
  image_errors_iff image =
      unless_blank_iff (trim_space image) _ _
        (reference_errors_iff image (parsers.parse_reference (trim_space image)))

  parsed_errors_iff :
      (host repo : Text) (es : ErrorList)
      → (parsed_errors policy host repo es ≡ []) ↔ ((es ≡ []) × PlaceAllowed policy host repo)
  unfolding parsed_errors
  parsed_errors_iff host repo [] = ground (arith, is_empty-cases host, is_empty-cases repo)
  parsed_errors_iff host repo (e ∷ es) = (λ h. cc, λ h. cc (h.0))

  source_errors_iff :
      (app_type : AppType) (o : Option AppSource)
      → (source_errors parsers policy app_type o ≡ []) ↔ SourceAllowed parsers policy app_type o
  unfolding source_errors
  source_errors_iff app_type none = (λ h. tt, λ h. refl)
  source_errors_iff app_type (some source) =
      let info = registry_info_from_source parsers app_type (some source) source_path in
      unless_blank_iff (trim_space source.url) _ _
        (parsed_errors_iff info.host info.repo info.errors)

policy_errors_iff :
    (parsers : Parsers) (spec : AppSpec) (loaded : Result PolicyFailure (Option RegistryPolicy))
    → (policy_errors parsers spec loaded ≡ []) ↔ OriginAllowed parsers spec loaded
unfolding policy_errors
policy_errors_iff parsers spec (err e) = (λ h. cc, λ h. absurd h)
policy_errors_iff parsers spec (ok none) = (λ h. tt, λ h. refl)
policy_errors_iff parsers spec (ok (some policy)) =
    both_iff (image_errors_iff parsers policy spec.image)
      (λ _. source_errors_iff parsers policy spec.app_type spec.source)

-- `validateRegistryPolicy` reports nothing exactly when the policy of the app's namespace loads and
-- allows its image and its source.
pub registry_policy_errors_iff :
    (client : Client) (parsers : Parsers) (a : App)
    → (registry_policy_errors client parsers a ≡ [])
      ↔ OriginAllowed parsers a.spec (policy_for client a.meta.namespace)
unfolding registry_policy_errors
registry_policy_errors_iff client parsers a =
    policy_errors_iff parsers a.spec (policy_for client a.meta.namespace)
