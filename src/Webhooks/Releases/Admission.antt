-- ===== src/Webhooks/Releases/Admission.antt =====
-- When the release webhook admits.
use kube_op.Prelude.{
  ◌≡◌, ◌≢◌, refl, Bool, true, false, not, ◌↔◌, ◌⊎◌, inl, inr, [], ◌∷◌, Option, none, some, ok,
  arith, both_iff, String,
}
use kube_op.Text.{Text, trim_space}
use kube_op.Text.Equality.{same_iff}
use kube_op.Field.{FieldError, invalid, at, child}
use kube_op.Api.{ObjectMeta, App, AppRelease, AppReleaseSpec}
use kube_op.Cluster.{Client, Fetch, found, Parsers}
use kube_op.Cluster.Found.{Found, Found_iff}
use kube_op.Webhooks.{when, release, label, label_tenant, label_project}
use kube_op.Webhooks.Metadata.{
  HasRequiredLabels, KeepsTenant, validate_required_labels_iff, validate_tenant_immutability_iff,
  verdict_iff, is_empty-cases, label-ne-nil,
}
use kube_op.Webhooks.Releases.{
  old_meta, spec_path, strip_semver_prefixes, matches_digest, matches_config_hash, same_spec,
  validate_release_immutability, optional, validate_release_fields, label_differs, app_errors,
  app_ref_errors, validate_release, validate_create, validate_update,
}
use kube_op.Webhooks.Releases.Formats.{
  IsHash, IsDigest, matches_config_hash_iff, matches_digest_iff,
}

abbrev pub KeepsSpec : Option AppRelease → AppRelease → Type 0
KeepsSpec none r = Unit
KeepsSpec (some old) r = old.spec ≡ r.spec

-- The app of the release: its tenant and its project are the release's.
pub record OwnsRelease (m : ObjectMeta) (a : App) : Type 0 where
  pub tenant : label a.meta label_tenant ≡ label m label_tenant
  pub project : label a.meta label_project ≡ label m label_project

pub record IsAdmissible (client : Client) (parsers : Parsers) (old : Option AppRelease)
    (r : AppRelease) : Type 0 where
  pub labelled : HasRequiredLabels r.meta
  pub keeps_tenant : KeepsTenant (old_meta old) r.meta
  pub keeps_spec : KeepsSpec old r
  pub version :
      (trim_space r.spec.version ≡ [])
      ⊎ (parsers.is_version (strip_semver_prefixes (trim_space r.spec.version)) ≡ true)
  pub digest : (trim_space r.spec.digest ≡ []) ⊎ IsDigest (trim_space r.spec.digest)
  pub config_hash :
      (trim_space r.spec.rendered_config_hash ≡ [])
      ⊎ IsHash (trim_space r.spec.rendered_config_hash)
  pub names_app : trim_space r.spec.app_ref ≢ []
  pub app :
      Found
        (client.app (record { namespace = r.meta.namespace; name = r.spec.app_ref }))
        (OwnsRelease r.meta)

same_spec_iff : (a b : AppReleaseSpec) → (same_spec a b ≡ true) ↔ (a ≡ b)
unfolding same_spec
same_spec_iff a b = ground (
  arith,
  same_iff a.app_ref b.app_ref,
  same_iff a.version b.version,
  same_iff a.resolved_source b.resolved_source,
  same_iff a.digest b.digest,
  same_iff a.rendered_config_hash b.rendered_config_hash,
)

validate_release_immutability_iff :
    (old : Option AppRelease) (r : AppRelease)
    → (validate_release_immutability old r ≡ []) ↔ KeepsSpec old r
unfolding validate_release_immutability
validate_release_immutability_iff none r = (λ h. tt, λ h. refl)
validate_release_immutability_iff (some old) r = ground (arith, same_spec_iff old.spec r.spec)

optional_iff :
    (value : Text) (test : Text → Bool) (e : FieldError) (P : Type 0)
    → (test value ≡ true) ↔ P
    → (when (not (optional value test)) e ≡ []) ↔ ((value ≡ []) ⊎ P)
optional_iff [] test e P h = (λ k. inl refl, λ k. refl)
optional_iff (c ∷ value) test e P h = ground arith

validate_release_fields_iff :
    (parsers : Parsers) (r : AppRelease)
    → (validate_release_fields parsers r ≡ []) ↔ (
        ((trim_space r.spec.version ≡ [])
          ⊎ (parsers.is_version (strip_semver_prefixes (trim_space r.spec.version)) ≡ true))
        × (((trim_space r.spec.digest ≡ []) ⊎ IsDigest (trim_space r.spec.digest))
            × ((trim_space r.spec.rendered_config_hash ≡ [])
                ⊎ IsHash (trim_space r.spec.rendered_config_hash))))
unfolding validate_release_fields
validate_release_fields_iff parsers r =
    let version =
      optional_iff (trim_space r.spec.version) (λ v. parsers.is_version (strip_semver_prefixes v))
        (invalid (at spec_path (child "version")) r.spec.version) _ ((λ h. h), (λ h. h)) in
    let digest =
      optional_iff (trim_space r.spec.digest) matches_digest
        (invalid (at spec_path (child "digest")) r.spec.digest) _ (matches_digest_iff _) in
    let config_hash =
      optional_iff (trim_space r.spec.rendered_config_hash) matches_config_hash
        (invalid (at spec_path (child "renderedConfigHash")) r.spec.rendered_config_hash) _
        (matches_config_hash_iff _) in
    both_iff version (λ _. both_iff digest (λ _. config_hash))

label_differs_iff :
    (m app_meta : ObjectMeta) (name : String)
    → label m name ≢ []
    → (label_differs m app_meta name ≡ false) ↔ (label app_meta name ≡ label m name)
label_differs_iff m app_meta name ne =
    ground (arith, is_empty-cases (label m name), same_iff (label app_meta name) (label m name))

module _ (r : AppRelease) (labelled : HasRequiredLabels r.meta) where
  app_errors_iff : (f : Fetch App) → (app_errors r f ≡ []) ↔ Found f (OwnsRelease r.meta)
  app_errors_iff =
      Found_iff (OwnsRelease r.meta) (app_errors r) (unfold app_errors in λ h. cc)
        (unfold app_errors in λ h. cc) found_iff
    where
      found_iff : (a : App) → (app_errors r (found a) ≡ []) ↔ OwnsRelease r.meta a
      found_iff a =
          unfold app_errors in
          ground (
            arith,
            label_differs_iff r.meta a.meta label_tenant (label-ne-nil _ labelled.0),
            label_differs_iff r.meta a.meta label_project (label-ne-nil _ labelled.1.0),
          )

  app_ref_errors_iff :
      (client : Client)
      → (app_ref_errors client r ≡ []) ↔ (
          (trim_space r.spec.app_ref ≢ [])
          × Found
              (client.app (record { namespace = r.meta.namespace; name = r.spec.app_ref }))
              (OwnsRelease r.meta))
  unfolding app_ref_errors
  app_ref_errors_iff client =
      let lookup_iff =
        app_errors_iff
          (client.app (record { namespace = r.meta.namespace; name = r.spec.app_ref })) in
      elim (is_empty-cases (trim_space r.spec.app_ref)) [
        | inl (e, n) ↦ rw e (λ h. cc, λ (ne, _). absurd (ne n))
        | inr (e, ne) ↦ rw e (λ h. (ne, lookup_iff.0 h), λ (_, k). lookup_iff.1 k)
      ]

validate_release_iff :
    (client : Client) (parsers : Parsers) (old : Option AppRelease) (r : AppRelease)
    → (validate_release client parsers old r ≡ []) ↔ IsAdmissible client parsers old r
unfolding validate_release
validate_release_iff client parsers old r =
    let (to, from) = both_iff (validate_required_labels_iff r.meta) (λ labelled.
      both_iff (validate_tenant_immutability_iff (old_meta old) r.meta) (λ _.
        both_iff (validate_release_immutability_iff old r) (λ _.
          both_iff (validate_release_fields_iff parsers r)
            (λ _. app_ref_errors_iff r labelled client)))) in
    (
      λ h.
          let (labelled, (keeps, (spec, ((version, (digest, config_hash)), (named, app))))) =
            to h in
          record {
            labelled = labelled;
            keeps_tenant = keeps;
            keeps_spec = spec;
            version = version;
            digest = digest;
            config_hash = config_hash;
            names_app = named;
            app = app;
          },
      λ a. from (
        a.labelled,
        (
          a.keeps_tenant,
          (a.keeps_spec, ((a.version, (a.digest, a.config_hash)), (a.names_app, a.app))),
        ),
      ),
    )

-- The release webhook admits a release exactly when it has the required labels, an update keeps
-- the tenant and the whole spec, the version parses, the digest and the configuration hash have
-- their formats, each unless it is blank, and the app that the release names exists in its
-- namespace with the release's tenant and project.
pub release_admission_iff :
    (client : Client) (parsers : Parsers) (r : AppRelease)
    → ((validate_create client parsers (release r) ≡ ok []) ↔ IsAdmissible client parsers none r)
      × ((old : AppRelease)
          → (validate_update client parsers (release old) (release r) ≡ ok [])
            ↔ IsAdmissible client parsers (some old) r)
unfolding validate_create validate_update
release_admission_iff client parsers r = (
  ground (
    arith,
    verdict_iff "AppRelease" r.meta.name [] [] (validate_release client parsers none r),
    validate_release_iff client parsers none r,
  ),
  λ old. ground (
    arith,
    verdict_iff "AppRelease" r.meta.name [] [] (validate_release client parsers (some old) r),
    validate_release_iff client parsers (some old) r,
  ),
)
