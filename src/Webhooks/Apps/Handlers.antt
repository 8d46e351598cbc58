-- ===== src/Webhooks/Apps/Handlers.antt =====
-- `validateApp` and the handlers of `AppWebhook`.
use kube_op.Prelude.{[], ◌++◌, Option, none, some, Result, ok, err, if◌then◌else◌}
use kube_op.Text.{Text, is_empty}
use kube_op.StringMap.{get}
use kube_op.Field.{ErrorList}
use kube_op.Api.{ObjectMeta, App}
use kube_op.Cluster.{Client, Parsers}
use kube_op.Webhooks.{
  Object, app, Verdict, on_create, on_update, verdict, default_metadata, label, label_tenant,
  validate_required_labels, validate_tenant_immutability,
}
use kube_op.Webhooks.Apps.Versions.{validate_app_version}
use kube_op.Webhooks.Apps.Sources.{registry_policy_errors, registry_policy_warnings}
use kube_op.Webhooks.Apps.References.{
  validate_config_refs, validate_secret_refs, validate_ingress_refs,
}
use kube_op.Webhooks.Apps.Exposure.{project_for_app, project_errors, validate_service_policy}

abbrev pub as_app : Object → Option App
as_app (app a) = some a
as_app _ = none

abbrev pub old_meta : Option App → Option ObjectMeta
old_meta none = none
old_meta (some a) = some a.meta

-- The checks that need a tenant: its references, its project and its service.
unfoldable pub scoped_errors : Client → App → Text → ErrorList
unfolding validate_config_refs validate_secret_refs validate_ingress_refs project_for_app
    project_errors validate_service_policy
scoped_errors client a tenant =
    (validate_config_refs client a tenant
      ++ (validate_secret_refs client a tenant ++ validate_ingress_refs client a tenant))
    ++ (project_errors client a tenant
        ++ validate_service_policy client a (project_for_app client a))

-- `validateApp`: its errors. Without a tenant label only the registry policy is checked further.
unfoldable pub validate_app : Client → Parsers → Option App → App → ErrorList
unfolding validate_required_labels validate_tenant_immutability validate_app_version scoped_errors
    registry_policy_errors get
validate_app client parsers old a =
    validate_required_labels a.meta
    ++ (validate_tenant_immutability (old_meta old) a.meta
        ++ (validate_app_version parsers a.spec
            ++ ((if is_empty (label a.meta label_tenant)
                  then []
                  else scoped_errors client a (label a.meta label_tenant))
                ++ registry_policy_errors client parsers a)))

-- The app after `Default`, or an error for an object of another kind.
pub default : Object → Result (Unit {0}) App
unfolding default_metadata
default obj = elim (as_app obj) [
  | none ↦ err tt
  | some a ↦ ok (record a { meta = default_metadata a.meta })
]

unfoldable pub validate_create : Client → Parsers → Object → Verdict
unfolding validate_app registry_policy_warnings
validate_create client parsers obj = on_create (as_app obj) λ a.
    verdict "App" a.meta.name (registry_policy_warnings client a)
      (validate_app client parsers none a)

unfoldable pub validate_update : Client → Parsers → Object → Object → Verdict
unfolding validate_app registry_policy_warnings
validate_update client parsers old_obj new_obj =
    on_update (as_app old_obj) (as_app new_obj) λ old a.
      verdict "App" a.meta.name (registry_policy_warnings client a)
        (validate_app client parsers (some old) a)

-- `ValidateDelete` admits every deletion.
pub validate_delete : Object → Verdict
validate_delete obj = ok []
