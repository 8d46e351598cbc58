-- ===== src/Webhooks/Apps/Exposure.antt =====
-- `projectForApp` and `validateServicePolicy`: which services an app may expose.
use kube_op.Prelude.{
  ℕ, suc, Bool, not, ◌&&◌, ◌||◌, List, [], ◌∷◌, ◌++◌, Option, none, some, any, if◌then◌else◌,
}
use kube_op.Text.{Text, text, is_empty, same, trim_space}
use kube_op.StringMap.{get}
use kube_op.Policy.{is_nil}
use kube_op.Field.{FieldPath, child, key, index, at, ErrorList, invalid, forbidden, internal}
use kube_op.Api.{App, Project, AppServiceProfile, ServiceExposurePolicy, NetworkPolicyProfile}
use kube_op.Cluster.{Client, Fetch, found, not_found, failed}
use kube_op.Webhooks.{when, trimmed_label, label_tenant, label_project, labels_path}

-- The project that `projectForApp` returns, and its errors.
abbrev pub found_project : Fetch Project → Option Project
found_project (found p) = some p
found_project not_found = none
found_project failed = none

unfoldable pub fetched_project_errors : Text → Text → Fetch Project → ErrorList
unfolding same trim_space get
fetched_project_errors tenant name not_found =
    invalid (at labels_path (key label_project)) name ∷ []
fetched_project_errors tenant name failed = internal (at labels_path (key label_project)) ∷ []
fetched_project_errors tenant name (found p) =
    when
      (not (is_empty tenant)
        && (not (is_empty p.spec.tenant_ref) && not (same p.spec.tenant_ref tenant)))
      (forbidden (at labels_path (key label_tenant)))
    ++ when
        (not (is_empty tenant)
          && (not (is_empty (trimmed_label p.meta label_tenant))
              && not (same (trimmed_label p.meta label_tenant) tenant)))
        (forbidden (at labels_path (key label_tenant)))

abbrev pub fetch_project : Client → App → Fetch Project
fetch_project client a =
    client.project
      (record { namespace = a.meta.namespace; name = trimmed_label a.meta label_project })

-- A blank project label fetches nothing.
unfoldable pub project_for_app : Client → App → Option Project
unfolding trim_space get
project_for_app client a =
    if is_empty (trimmed_label a.meta label_project)
    then none
    else found_project (fetch_project client a)

unfoldable pub project_errors : Client → App → Text → ErrorList
unfolding fetched_project_errors trim_space get
project_errors client a tenant =
    if is_empty (trimmed_label a.meta label_project)
    then []
    else fetched_project_errors tenant (trimmed_label a.meta label_project) (fetch_project client a)

abbrev pub profile_path : FieldPath
profile_path = child "spec" ∷ child "serviceProfile" ∷ []

abbrev pub cluster_ip : Text
cluster_ip = text "ClusterIP"

-- An empty type asks for the default.
unfoldable pub requested_type : AppServiceProfile → Text
requested_type profile = if is_empty profile.service_type then cluster_ip else profile.service_type

-- Without a service policy: no load balancer and no external IP.
unfoldable pub default_policy_errors : AppServiceProfile → ErrorList
unfolding requested_type same
default_policy_errors profile =
    when (same (requested_type profile) (text "LoadBalancer"))
      (forbidden (at profile_path (child "type")))
    ++ when (not (is_nil profile.external_ips)) (forbidden (at profile_path (child "externalIPs")))

-- `sets.String.Has`
unfoldable pub has : List Text → Text → Bool
unfolding same
has items t = any (λ item. same item t) items

-- A nil policy lists no type.
abbrev pub allowed_types : Option ServiceExposurePolicy → List Text
allowed_types none = []
allowed_types (some p) = p.allowed_types

-- The default type is always allowed.
unfoldable pub type_allowed : Option ServiceExposurePolicy → Text → Bool
unfolding same has
type_allowed policy t = same t cluster_ip || has (allowed_types policy) t

unfoldable pub ip_errors : List Text → ℕ → List Text → ErrorList
unfolding has
ip_errors allowed i [] = []
ip_errors allowed i (ip ∷ ips) =
    when (not (has allowed ip)) (forbidden (at (at profile_path (child "externalIPs")) (index i)))
    ++ ip_errors allowed (suc i) ips

-- Of the addresses that are asked for, under the allowlist of the policy; a nil policy has none.
abbrev pub allowed_ips : Option ServiceExposurePolicy → List Text
allowed_ips none = []
allowed_ips (some p) = p.allowed_external_ips

unfoldable pub external_ip_errors : List Text → List Text → ErrorList
unfolding ip_errors
external_ip_errors allowed [] = []
external_ip_errors [] (ip ∷ ips) = forbidden (at profile_path (child "externalIPs")) ∷ []
external_ip_errors (a ∷ allowed) (ip ∷ ips) = ip_errors (a ∷ allowed) 0 (ip ∷ ips)

unfoldable pub profile_errors : AppServiceProfile → Text → Fetch NetworkPolicyProfile → ErrorList
unfolding requested_type type_allowed external_ip_errors
profile_errors profile name not_found = invalid profile_path name ∷ []
profile_errors profile name failed = internal profile_path ∷ []
profile_errors profile name (found n) =
    when (not (type_allowed n.service_policy (requested_type profile)))
      (forbidden (at profile_path (child "type")))
    ++ external_ip_errors (allowed_ips n.service_policy) profile.external_ips

-- The profile that the project refers to, if any.
unfoldable pub project_policy_errors : Client → AppServiceProfile → Option Project → ErrorList
unfolding default_policy_errors profile_errors trim_space
project_policy_errors client profile none = default_policy_errors profile
project_policy_errors client profile (some p) =
    if is_empty (trim_space p.spec.network_policy_profile_ref)
    then default_policy_errors profile
    else profile_errors profile p.spec.network_policy_profile_ref
        (client.network_policy_profile p.spec.network_policy_profile_ref)

abbrev pub service_errors : Client → Option AppServiceProfile → Option Project → ErrorList
service_errors client none project = []
service_errors client (some profile) project = project_policy_errors client profile project

unfoldable pub validate_service_policy : Client → App → Option Project → ErrorList
unfolding project_policy_errors
validate_service_policy client a project = service_errors client a.spec.service_profile project
