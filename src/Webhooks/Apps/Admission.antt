-- ===== src/Webhooks/Apps/Admission.antt =====
-- When the app webhook admits.
use kube_op.Prelude.{
  ◌≡◌, ◌≢◌, refl, ◌↔◌, List, [], ◌∷◌, Option, none, some, ok, arith, both_iff, if◌then◌else◌,
}
use kube_op.Text.{Text, is_empty}
use kube_op.Api.{App}
use kube_op.Cluster.{Client, Parsers}
use kube_op.Cluster.Found.{Found}
use kube_op.Field.{ErrorList}
use kube_op.Webhooks.{app, Warning, label, trimmed_label, label_tenant, label_project}
use kube_op.Webhooks.Metadata.{
  HasRequiredLabels, KeepsTenant, validate_required_labels_iff, validate_tenant_immutability_iff,
  verdict_iff, label-ne-nil,
}
use kube_op.Webhooks.Apps.Versions.{IsVersioned, validate_app_version_iff}
use kube_op.Webhooks.Apps.Sources.{policy_for, registry_policy_warnings}
use kube_op.Webhooks.Apps.Origins.{OriginAllowed, registry_policy_errors_iff}
use kube_op.Webhooks.Apps.References.{RefersWithin, refs_iff}
use kube_op.Webhooks.Apps.Exposure.{project_for_app, fetch_project}
use kube_op.Webhooks.Apps.Services.{
  OwnsApp, project_errors_iff, ExposureAllowed, validate_service_policy_iff,
}
use kube_op.Webhooks.Apps.Handlers.{
  old_meta, scoped_errors, validate_app, validate_create, validate_update,
}

pub record IsAdmissible (client : Client) (parsers : Parsers) (old : Option App) (a : App)
    : Type 0 where
  pub labelled : HasRequiredLabels a.meta
  pub keeps_tenant : KeepsTenant (old_meta old) a.meta
  pub versioned : IsVersioned parsers a.spec
  pub refers_within : RefersWithin client a (label a.meta label_tenant)
  pub project : Found (fetch_project client a) (OwnsApp (label a.meta label_tenant))
  pub exposure : ExposureAllowed client a.spec.service_profile (project_for_app client a)
  pub origin : OriginAllowed parsers a.spec (policy_for client a.meta.namespace)

scoped_errors_iff :
    (client : Client) (a : App) (tenant : Text)
    → tenant ≢ []
    → trimmed_label a.meta label_project ≢ []
    → (scoped_errors client a tenant ≡ []) ↔ (
        RefersWithin client a tenant
        × (Found (fetch_project client a) (OwnsApp tenant)
            × ExposureAllowed client a.spec.service_profile (project_for_app client a)))
unfolding scoped_errors
scoped_errors_iff client a tenant ne labelled = both_iff (refs_iff client a tenant) (λ _.
    both_iff (project_errors_iff client a tenant ne labelled)
      (λ _. validate_service_policy_iff client a (project_for_app client a)))

-- With a tenant the checks that need one are made.
with_tenant_iff :
    (t : Text) (es : ErrorList) (P : Type 0)
    → t ≢ []
    → (es ≡ []) ↔ P
    → ((if is_empty t then [] else es) ≡ []) ↔ P
with_tenant_iff [] es P ne h = absurd (ne refl)
with_tenant_iff (c ∷ t) es P ne h = h

validate_app_iff :
    (client : Client) (parsers : Parsers) (old : Option App) (a : App)
    → (validate_app client parsers old a ≡ []) ↔ IsAdmissible client parsers old a
unfolding validate_app
validate_app_iff client parsers old a =
    let tenant = label a.meta label_tenant in
    let (to, from) = both_iff (validate_required_labels_iff a.meta) (λ labelled.
      both_iff (validate_tenant_immutability_iff (old_meta old) a.meta) (λ _.
        both_iff (validate_app_version_iff parsers a.spec) (λ _.
          both_iff
            (with_tenant_iff tenant _ _ (label-ne-nil tenant labelled.0)
              (scoped_errors_iff client a tenant (label-ne-nil tenant labelled.0) labelled.1.0))
            (λ _. registry_policy_errors_iff client parsers a)))) in
    (
      λ h.
          let (labelled, (keeps, (versioned, ((refers, (project, exposure)), origin)))) = to h in
          record {
            labelled = labelled;
            keeps_tenant = keeps;
            versioned = versioned;
            refers_within = refers;
            project = project;
            exposure = exposure;
            origin = origin;
          },
      λ r. from (
        r.labelled,
        (r.keeps_tenant, (r.versioned, ((r.refers_within, (r.project, r.exposure)), r.origin))),
      ),
    )

-- The app webhook admits an app, with any warnings, exactly when it is admissible and the warnings
-- are those of the registry policy: the required labels are there, an update keeps the tenant, the
-- version or the range parses, all references belong to the tenant, the project exists and neither
-- its spec nor its label names another tenant, the exposure is allowed by the network profile of the
-- project or, without one, asks for no load balancer and no external address, and the policy of the
-- namespace allows the image and the source.
pub app_admission_iff :
    (client : Client) (parsers : Parsers) (a : App) (warnings : List Warning)
    → ((validate_create client parsers (app a) ≡ ok warnings)
        ↔ (IsAdmissible client parsers none a × (registry_policy_warnings client a ≡ warnings)))
      × ((old : App)
          → (validate_update client parsers (app old) (app a) ≡ ok warnings) ↔ (
              IsAdmissible client parsers (some old) a
              × (registry_policy_warnings client a ≡ warnings)))
unfolding validate_create validate_update
app_admission_iff client parsers a warnings = (
  ground (
    arith,
    verdict_iff "App" a.meta.name (registry_policy_warnings client a) warnings
        (validate_app client parsers none a),
    validate_app_iff client parsers none a,
  ),
  λ old. ground (
    arith,
    verdict_iff "App" a.meta.name (registry_policy_warnings client a) warnings
        (validate_app client parsers (some old) a),
    validate_app_iff client parsers (some old) a,
  ),
)
