-- ===== src/Webhooks/Apps/Versions.antt =====
-- `validateAppVersion`.
use kube_op.Prelude.{◌≡◌, Bool, true, not, ◌&&◌, ◌↔◌, ◌⊎◌, [], ◌∷◌, ◌++◌, arith}
use kube_op.Text.{Text, is_empty, trim_space}
use kube_op.Field.{FieldPath, child, at, ErrorList, invalid, forbidden}
use kube_op.Api.{AppSpec}
use kube_op.Cluster.{Parsers}
use kube_op.Webhooks.{when}
use kube_op.Webhooks.Metadata.{is_empty-cases}
use kube_op.Webhooks.Releases.{strip_semver_prefixes}

abbrev spec_path : FieldPath
spec_path = child "spec" ∷ []

-- A trimmed text that is not empty and that the parser refuses.
abbrev refuses : (Text → Bool) → Text → Bool
refuses parse value = not (is_empty value) && not (parse value)

unfoldable pub validate_app_version : Parsers → AppSpec → ErrorList
unfolding trim_space strip_semver_prefixes
validate_app_version parsers spec =
    let version = trim_space spec.version in
    let range = trim_space spec.version_range in
    when (not (is_empty version) && not (is_empty range))
      (forbidden (at spec_path (child "semverRange")))
    ++ (when (refuses (λ v. parsers.is_version (strip_semver_prefixes v)) version)
          (invalid (at spec_path (child "version")) spec.version)
        ++ when (refuses parsers.is_constraint range)
            (invalid (at spec_path (child "semverRange")) spec.version_range))

-- At most one of the version and the range is set, and the one that is set parses.
pub record IsVersioned (parsers : Parsers) (spec : AppSpec) : Type 0 where
  pub exclusive : (trim_space spec.version ≡ []) ⊎ (trim_space spec.version_range ≡ [])
  pub version :
      (trim_space spec.version ≡ [])
      ⊎ (parsers.is_version (strip_semver_prefixes (trim_space spec.version)) ≡ true)
  pub range :
      (trim_space spec.version_range ≡ [])
      ⊎ (parsers.is_constraint (trim_space spec.version_range) ≡ true)

pub validate_app_version_iff :
    (parsers : Parsers) (spec : AppSpec)
    → (validate_app_version parsers spec ≡ []) ↔ IsVersioned parsers spec
unfolding validate_app_version
validate_app_version_iff parsers spec = ground (
  arith,
  is_empty-cases (trim_space spec.version),
  is_empty-cases (trim_space spec.version_range),
)
