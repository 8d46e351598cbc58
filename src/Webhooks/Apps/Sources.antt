-- ===== src/Webhooks/Apps/Sources.antt =====
-- `PolicyFor`, `validateRegistryPolicy` and `registryInfoFromSource`: where an app's image and
-- chart may come from.
use kube_op.Prelude.{
  Bool, true, false, not, ◌&&◌, List, [], ◌∷◌, ◌++◌, Option, none, some, Result, ok, err,
  if◌then◌else◌, ◌==◌,
}
use kube_op.Text.{Text, text, is_empty, trim, trim_space, trim_prefix, to_lower, split, join}
use kube_op.StringMap.{StringMap}
use kube_op.Policy.{
  RegistryPolicy, PolicyError, parse_config_map, allows_registry, allows_repository,
}
use kube_op.Field.{FieldPath, child, ErrorList, invalid, forbidden, internal}
use kube_op.Api.{AppType, helm_repo, helm_oci, AppSource, AppSpec, App}
use kube_op.Cluster.{Client, Fetch, found, not_found, failed, Parsers, ImageReference, UrlParts}
use kube_op.Webhooks.{when, Warning, requires_cosign}

pub data PolicyFailure : Type 0 where
  unavailable : PolicyFailure
  malformed : PolicyError → PolicyFailure

unfoldable pub loaded_policy : Fetch StringMap → Result PolicyFailure (Option RegistryPolicy)
unfolding parse_config_map
loaded_policy not_found = ok none
loaded_policy failed = err unavailable
loaded_policy (found data_map) = elim (parse_config_map (some data_map)) [
  | ok p ↦ ok p
  | err e ↦ err (malformed e)
]

-- `PolicyFor` of the ConfigMap "registry-policy" of a namespace.
unfoldable pub policy_for : Client → Text → Result PolicyFailure (Option RegistryPolicy)
unfolding loaded_policy
policy_for client namespace =
    loaded_policy
      (client.config_map (record { namespace = namespace; name = text "registry-policy" }))

-- The host, the repository and the errors that `registryInfoFromSource` returns.
pub record SourceInfo : Type 0 where
  pub host : Text
  pub repo : Text
  pub errors : ErrorList

abbrev bad_source : FieldPath → Text → SourceInfo
bad_source path raw = record { host = []; repo = []; errors = invalid path raw ∷ [] }

abbrev source_at : Text → Text → SourceInfo
source_at host repo = record { host = host; repo = repo; errors = [] }

-- The case of a Helm repository, from what `url.Parse` gave.
unfoldable pub helm_repo_info : FieldPath → Text → Option UrlParts → SourceInfo
unfolding to_lower trim
helm_repo_info path raw none = bad_source path raw
helm_repo_info path raw (some u) =
    let host = to_lower u.host in
    let repo_path = trim (λ c. c == b'/') u.path in
    if is_empty u.host
    then bad_source path raw
    else if is_empty repo_path
    then source_at host host
    else source_at host (to_lower (host ++ (b'/' ∷ repo_path)))

-- The case of an OCI reference, from the pieces between slashes.
unfoldable pub helm_oci_info : FieldPath → Text → List Text → SourceInfo
unfolding to_lower trim_space join
helm_oci_info path raw [] = bad_source path raw
helm_oci_info path raw (first ∷ []) = bad_source path raw
helm_oci_info path raw (first ∷ second ∷ more) =
    let host = to_lower (trim_space first) in
    if is_empty (trim_space first)
    then bad_source path raw
    else source_at host (to_lower (host ++ (b'/' ∷ join b'/' (second ∷ more))))

unfoldable pub registry_info : Parsers → AppType → FieldPath → Text → SourceInfo
unfolding helm_repo_info helm_oci_info trim_prefix split
registry_info parsers helm_repo path raw = helm_repo_info path raw (parsers.parse_url raw)
registry_info parsers helm_oci path raw =
    helm_oci_info path raw (split b'/' (trim_prefix (trim_prefix raw (text "oci://")) (text "//")))
registry_info parsers _ path raw = source_at [] []

-- `registryInfoFromSource`; a nil source or a blank URL gives nothing.
unfoldable pub registry_info_from_source :
    Parsers → AppType → Option AppSource → FieldPath → SourceInfo
unfolding registry_info trim_space
registry_info_from_source parsers app_type none path = source_at [] []
registry_info_from_source parsers app_type (some source) path =
    if is_empty (trim_space source.url)
    then source_at [] []
    else registry_info parsers app_type path (trim_space source.url)

abbrev pub image_path : FieldPath
image_path = child "spec" ∷ child "image" ∷ []

abbrev pub source_path : FieldPath
source_path = child "spec" ∷ child "source" ∷ child "url" ∷ []

unfoldable pub reference_errors : RegistryPolicy → Text → Option ImageReference → ErrorList
unfolding to_lower allows_registry allows_repository
reference_errors policy image none = invalid image_path image ∷ []
reference_errors policy image (some ref) =
    when (not (allows_registry (some policy) (to_lower ref.registry))) (forbidden image_path)
    ++ when (not (allows_repository (some policy) (to_lower ref.repository))) (forbidden image_path)

unfoldable pub image_errors : Parsers → RegistryPolicy → Text → ErrorList
unfolding reference_errors trim_space
image_errors parsers policy image =
    if is_empty (trim_space image)
    then []
    else reference_errors policy image (parsers.parse_reference (trim_space image))

-- The allowlists are enforced only where the source was parsed.
unfoldable pub parsed_errors : RegistryPolicy → Text → Text → ErrorList → ErrorList
unfolding allows_registry allows_repository
parsed_errors policy host repo (e ∷ es) = e ∷ es
parsed_errors policy host repo [] =
    when (not (is_empty host) && not (allows_registry (some policy) host)) (forbidden source_path)
    ++ when (not (is_empty repo) && not (allows_repository (some policy) repo))
        (forbidden source_path)

-- A nil source or a blank URL is not checked.
unfoldable pub source_errors : Parsers → RegistryPolicy → AppType → Option AppSource → ErrorList
unfolding parsed_errors registry_info_from_source trim_space
source_errors parsers policy app_type none = []
source_errors parsers policy app_type (some source) =
    let info = registry_info_from_source parsers app_type (some source) source_path in
    if is_empty (trim_space source.url)
    then []
    else parsed_errors policy info.host info.repo info.errors

unfoldable pub policy_errors :
    Parsers → AppSpec → Result PolicyFailure (Option RegistryPolicy) → ErrorList
unfolding image_errors source_errors
policy_errors parsers spec (err e) = internal (child "spec" ∷ []) ∷ []
policy_errors parsers spec (ok none) = []
policy_errors parsers spec (ok (some policy)) =
    image_errors parsers policy spec.image ++ source_errors parsers policy spec.app_type spec.source

abbrev cosign_warning : Bool → List Warning
cosign_warning true = requires_cosign ∷ []
cosign_warning false = []

unfoldable pub policy_warnings : Result PolicyFailure (Option RegistryPolicy) → List Warning
policy_warnings (ok (some policy)) = cosign_warning policy.require_cosign
policy_warnings (ok none) = []
policy_warnings (err e) = []

-- `validateRegistryPolicy`: its errors, and its warnings.
unfoldable pub registry_policy_errors : Client → Parsers → App → ErrorList
unfolding policy_errors policy_for
registry_policy_errors client parsers a =
    policy_errors parsers a.spec (policy_for client a.meta.namespace)

unfoldable pub registry_policy_warnings : Client → App → List Warning
unfolding policy_warnings policy_for
registry_policy_warnings client a = policy_warnings (policy_for client a.meta.namespace)
