-- ===== src/Webhooks/Projects.antt =====
-- `ProjectWebhook`.
use kube_op.Prelude.{
  ◌≡◌, refl, not, ◌&&◌, ◌↔◌, ◌⊎◌, [], ◌∷◌, ◌++◌, Option, none, some, Result, ok, err, arith,
  both_iff,
}
use kube_op.Text.{is_empty, same, trim_space}
use kube_op.Text.Equality.{same_iff}
use kube_op.StringMap.{get}
use kube_op.Field.{FieldPath, child, key, at, ErrorList, invalid, forbidden}
use kube_op.Api.{ObjectMeta, Project}
use kube_op.Webhooks.{
  Object, project, Verdict, on_create, on_update, verdict, when, default_metadata,
  validate_required_labels, validate_tenant_immutability, label_tenant, label_project, labels_path,
  trimmed_label,
}
use kube_op.Webhooks.Metadata.{
  HasRequiredLabels, KeepsTenant, validate_required_labels_iff, validate_tenant_immutability_iff,
  verdict_iff, is_empty-cases,
}

abbrev as_project : Object → Option Project
as_project (project p) = some p
as_project _ = none

abbrev old_meta : Option Project → Option ObjectMeta
old_meta none = none
old_meta (some p) = some p.meta

abbrev tenant_ref_path : FieldPath
tenant_ref_path = child "spec" ∷ child "tenantRef" ∷ []

-- The checks that compare the labels with the spec and the name.
unfoldable pub project_label_errors : Project → ErrorList
unfolding trim_space get same
project_label_errors p =
    let tenant = trimmed_label p.meta label_tenant in
    let name = trimmed_label p.meta label_project in
    when
      (not (is_empty tenant)
        && (not (is_empty p.spec.tenant_ref) && not (same tenant p.spec.tenant_ref)))
      (invalid tenant_ref_path p.spec.tenant_ref)
    ++ when (not (is_empty name) && not (same name p.meta.name))
        (invalid (at labels_path (key label_project)) name)

unfoldable pub tenant_ref_errors : Option Project → Project → ErrorList
unfolding same
tenant_ref_errors none p = []
tenant_ref_errors (some old) p =
    when (not (same old.spec.tenant_ref p.spec.tenant_ref)) (forbidden tenant_ref_path)

unfoldable pub validate_project : Option Project → Project → ErrorList
unfolding validate_required_labels validate_tenant_immutability project_label_errors
    tenant_ref_errors
validate_project old p =
    validate_required_labels p.meta
    ++ (validate_tenant_immutability (old_meta old) p.meta
        ++ (project_label_errors p ++ tenant_ref_errors old p))

-- The project after `Default`, or an error for an object of another kind.
pub default : Object → Result (Unit {0}) Project
unfolding default_metadata
default obj = elim (as_project obj) [
  | none ↦ err tt
  | some p ↦ ok (record p { meta = default_metadata p.meta })
]

unfoldable pub validate_create : Object → Verdict
unfolding validate_project
validate_create obj =
    on_create (as_project obj) λ p. verdict "Project" p.meta.name [] (validate_project none p)

unfoldable pub validate_update : Object → Object → Verdict
unfolding validate_project
validate_update old_obj new_obj =
    on_update (as_project old_obj) (as_project new_obj)
      λ old p. verdict "Project" p.meta.name [] (validate_project (some old) p)

-- `ValidateDelete` admits every deletion.
pub validate_delete : Object → Verdict
validate_delete obj = ok []

abbrev KeepsTenantRef : Option Project → Project → Type 0
KeepsTenantRef none p = Unit
KeepsTenantRef (some old) p = old.spec.tenant_ref ≡ p.spec.tenant_ref

-- What a project must satisfy to be admitted, as a replacement of an old one or as a new one.
pub record IsAdmissible (old : Option Project) (p : Project) : Type 0 where
  pub labelled : HasRequiredLabels p.meta
  pub keeps_tenant : KeepsTenant (old_meta old) p.meta
  pub owned : (p.spec.tenant_ref ≡ []) ⊎ (trimmed_label p.meta label_tenant ≡ p.spec.tenant_ref)
  pub named : trimmed_label p.meta label_project ≡ p.meta.name
  pub keeps_tenant_ref : KeepsTenantRef old p

project_label_errors_iff :
    (p : Project)
    → HasRequiredLabels p.meta
    → (project_label_errors p ≡ []) ↔ (
        ((p.spec.tenant_ref ≡ []) ⊎ (trimmed_label p.meta label_tenant ≡ p.spec.tenant_ref))
        × (trimmed_label p.meta label_project ≡ p.meta.name))
unfolding project_label_errors
project_label_errors_iff p (tenant, (project_name, _)) = ground (
  arith,
  is_empty-cases (trimmed_label p.meta label_tenant),
  is_empty-cases (trimmed_label p.meta label_project),
  is_empty-cases p.spec.tenant_ref,
  same_iff (trimmed_label p.meta label_tenant) p.spec.tenant_ref,
  same_iff (trimmed_label p.meta label_project) p.meta.name,
)

tenant_ref_errors_iff :
    (old : Option Project) (p : Project) → (tenant_ref_errors old p ≡ []) ↔ KeepsTenantRef old p
unfolding tenant_ref_errors
tenant_ref_errors_iff none p = (λ h. tt, λ h. refl)
tenant_ref_errors_iff (some old) p = ground (arith, same_iff old.spec.tenant_ref p.spec.tenant_ref)

validate_project_iff :
    (old : Option Project) (p : Project) → (validate_project old p ≡ []) ↔ IsAdmissible old p
unfolding validate_project
validate_project_iff old p =
    let (to, from) = both_iff (validate_required_labels_iff p.meta) (λ labelled.
      both_iff (validate_tenant_immutability_iff (old_meta old) p.meta)
        (λ _. both_iff (project_label_errors_iff p labelled) (λ _. tenant_ref_errors_iff old p))) in
    (
      λ h.
          let (labelled, (keeps, ((owned, named), ref))) = to h in
          record {
            labelled = labelled;
            keeps_tenant = keeps;
            owned = owned;
            named = named;
            keeps_tenant_ref = ref;
          },
      λ a. from (a.labelled, (a.keeps_tenant, ((a.owned, a.named), a.keeps_tenant_ref))),
    )

-- The project webhook admits a project exactly when it is admissible: it has the required labels,
-- its tenant label agrees with the spec's tenant, its project label is its name, and an update
-- changes neither the tenant label, once set, nor the spec's tenant.
pub project_admission_iff :
    (p : Project)
    → ((validate_create (project p) ≡ ok []) ↔ IsAdmissible none p)
      × ((old : Project)
          → (validate_update (project old) (project p) ≡ ok []) ↔ IsAdmissible (some old) p)
unfolding validate_create validate_update
project_admission_iff p = (
  ground (
    arith,
    verdict_iff "Project" p.meta.name [] [] (validate_project none p),
    validate_project_iff none p,
  ),
  λ old. ground (
    arith,
    verdict_iff "Project" p.meta.name [] [] (validate_project (some old) p),
    validate_project_iff (some old) p,
  ),
)
