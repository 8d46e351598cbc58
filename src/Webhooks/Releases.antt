-- ===== src/Webhooks/Releases.antt =====
-- `AppReleaseWebhook`: a release names an app of its tenant and project, and its spec never changes.
pub mod Formats
pub mod Admission
use kube_op.Prelude.{
  ◌≡◌, ◌≢◌, refl, Bool, true, false, not, ◌&&◌, ◌||◌, List, [], ◌∷◌, ◌++◌, Option, none, some,
  Result, ok, err, leb, ◌==◌, length, String, if◌then◌else◌, ℕ,
}
use kube_op.Text.{Text, text, is_empty, same, trim_space, trim_prefix}
use kube_op.StringMap.{get}
use kube_op.Field.{FieldPath, child, at, ErrorList, required, invalid, forbidden, internal}
use kube_op.Api.{ObjectMeta, App, AppRelease, AppReleaseSpec}
use kube_op.Cluster.{Client, Fetch, found, not_found, failed, Parsers}
use kube_op.Webhooks.{
  Object, release, Verdict, on_create, on_update, verdict, when, default_metadata, label,
  validate_required_labels, validate_tenant_immutability, label_tenant, label_project,
}

abbrev pub as_release : Object → Option AppRelease
as_release (release r) = some r
as_release _ = none

abbrev pub old_meta : Option AppRelease → Option ObjectMeta
old_meta none = none
old_meta (some r) = some r.meta

abbrev pub spec_path : FieldPath
spec_path = child "spec" ∷ []

abbrev pub app_ref_path : FieldPath
app_ref_path = child "spec" ∷ child "appRef" ∷ []

-- The character classes of the two regular expressions.
abbrev pub is_hex : ℕ → Bool
is_hex c = (leb b'A' c && leb c b'F') || (leb b'a' c && leb c b'f') || (leb b'0' c && leb c b'9')

abbrev pub is_algorithm : ℕ → Bool
is_algorithm c =
    (leb b'A' c && leb c b'Z')
    || (leb b'a' c && leb c b'z')
    || (leb b'0' c && leb c b'9')
    || c == b'+'
    || c == b'_'
    || c == b'.'
    || c == b'-'

unfoldable pub all_hex : Text → Bool
all_hex [] = true
all_hex (c ∷ s) = is_hex c && all_hex s

-- `configHashRegex`: 32 to 128 hexadecimal digits.
unfoldable pub matches_config_hash : Text → Bool
unfolding all_hex
matches_config_hash s = leb 32 (length s) && leb (length s) 128 && all_hex s

-- `digestRegex`: a non-empty algorithm, a colon, and 32 to 128 hexadecimal digits. The colon is
-- in neither class, so that the first one ends the algorithm.
unfoldable pub digest_rest : Text → Bool
unfolding matches_config_hash
digest_rest [] = false
digest_rest (c ∷ s) =
    let rest = digest_rest s in if c == b':' then matches_config_hash s else is_algorithm c && rest

unfoldable pub matches_digest : Text → Bool
unfolding digest_rest
matches_digest [] = false
matches_digest (c ∷ s) = is_algorithm c && digest_rest s

-- `stripSemverPrefixes`: the only prefix is "v".
unfoldable pub strip_semver_prefixes : Text → Text
unfolding trim_space trim_prefix
strip_semver_prefixes version = trim_prefix (trim_space version) (text "v")

-- `apiequality.Semantic.DeepEqual` of two specs, whose fields are texts.
unfoldable pub same_spec : AppReleaseSpec → AppReleaseSpec → Bool
unfolding same
same_spec a b =
    same a.app_ref b.app_ref
    && same a.version b.version
    && same a.resolved_source b.resolved_source
    && same a.digest b.digest
    && same a.rendered_config_hash b.rendered_config_hash

unfoldable pub validate_release_immutability : Option AppRelease → AppRelease → ErrorList
unfolding same_spec
validate_release_immutability none r = []
validate_release_immutability (some old) r =
    when (not (same_spec old.spec r.spec)) (forbidden spec_path)

-- A field that may be blank, and must pass the test if it is not.
abbrev pub optional : Text → (Text → Bool) → Bool
optional value test = is_empty value || test value

unfoldable pub validate_release_fields : Parsers → AppRelease → ErrorList
unfolding strip_semver_prefixes matches_digest matches_config_hash trim_space
validate_release_fields parsers r =
    when
      (not
        (optional (trim_space r.spec.version) (λ v. parsers.is_version (strip_semver_prefixes v))))
      (invalid (at spec_path (child "version")) r.spec.version)
    ++ (when (not (optional (trim_space r.spec.digest) matches_digest))
          (invalid (at spec_path (child "digest")) r.spec.digest)
        ++ when (not (optional (trim_space r.spec.rendered_config_hash) matches_config_hash))
            (invalid (at spec_path (child "renderedConfigHash")) r.spec.rendered_config_hash))

-- A label of the release that is not empty differs from the app's.
abbrev pub label_differs : ObjectMeta → ObjectMeta → String → Bool
label_differs m app_meta name =
    not (is_empty (label m name)) && not (same (label app_meta name) (label m name))

unfoldable pub app_errors : AppRelease → Fetch App → ErrorList
unfolding get same
app_errors r not_found = invalid app_ref_path r.spec.app_ref ∷ []
app_errors r failed = internal app_ref_path ∷ []
app_errors r (found a) =
    when (label_differs r.meta a.meta label_tenant) (forbidden app_ref_path)
    ++ when (label_differs r.meta a.meta label_project) (forbidden app_ref_path)

-- A blank reference ends the check.
unfoldable pub app_ref_errors : Client → AppRelease → ErrorList
unfolding app_errors trim_space
app_ref_errors client r =
    if is_empty (trim_space r.spec.app_ref)
    then required app_ref_path ∷ []
    else app_errors r (client.app (record { namespace = r.meta.namespace; name = r.spec.app_ref }))

unfoldable pub validate_release : Client → Parsers → Option AppRelease → AppRelease → ErrorList
unfolding validate_required_labels validate_tenant_immutability validate_release_immutability
    validate_release_fields app_ref_errors
validate_release client parsers old r =
    validate_required_labels r.meta
    ++ (validate_tenant_immutability (old_meta old) r.meta
        ++ (validate_release_immutability old r
            ++ (validate_release_fields parsers r ++ app_ref_errors client r)))

-- The release after `Default`, or an error for an object of another kind.
pub default : Object → Result (Unit {0}) AppRelease
unfolding default_metadata
default obj = elim (as_release obj) [
  | none ↦ err tt
  | some r ↦ ok (record r { meta = default_metadata r.meta })
]

unfoldable pub validate_create : Client → Parsers → Object → Verdict
unfolding validate_release
validate_create client parsers obj =
    on_create (as_release obj)
      λ r. verdict "AppRelease" r.meta.name [] (validate_release client parsers none r)

unfoldable pub validate_update : Client → Parsers → Object → Object → Verdict
unfolding validate_release
validate_update client parsers old_obj new_obj =
    on_update (as_release old_obj) (as_release new_obj)
      λ old r. verdict "AppRelease" r.meta.name [] (validate_release client parsers (some old) r)

-- `ValidateDelete` admits every deletion.
pub validate_delete : Object → Verdict
validate_delete obj = ok []
