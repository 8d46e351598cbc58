-- ===== src/TenantReconciler.antt =====
-- The Tenant controller of the operator (kubeop-operator/controllers/tenant_controller.go): three
-- role bindings in every namespace that carries the tenant's label.
pub mod Bindings
pub mod Namespaces
pub mod Synced
pub mod Tests
use kube_op.Prelude.{◌≡◌, Bool, true, false, List, [], ◌∷◌, ◌++◌, Option, none, some, if◌then◌else◌}
use kube_op.Text.{Text, text, is_empty, same}
use kube_op.StringMap.{StringMap, get, insert}
use kube_op.Cluster.{Key, Fetch, found, not_found, failed}
use kube_op.KeyMap.{KeyMap, find, put}

-- The three cluster roles that a tenant's groups are bound to.
pub data TenantRole : Type 0 where
  owner developer viewer : TenantRole

abbrev pub role_name : TenantRole → Text
role_name owner = text "tenant-owner"
role_name developer = text "tenant-developer"
role_name viewer = text "tenant-viewer"

abbrev pub group_name : Text → TenantRole → Text
group_name tenant owner = text "tenant:" ++ (tenant ++ text ":owners")
group_name tenant developer = text "tenant:" ++ (tenant ++ text ":developers")
group_name tenant viewer = text "tenant:" ++ (tenant ++ text ":viewers")

-- `rbacv1.RoleBinding`: the role reference is a ClusterRole, each subject a Group.
pub record RoleBinding : Type 0 where
  pub labels : Option StringMap
  pub role_ref : Text
  pub subjects : List Text

pub record Namespace : Type 0 where
  pub name : Text
  pub labels : Option StringMap

pub record Server : Type 0 where
  pub namespaces : List Namespace
  pub bindings : KeyMap RoleBinding

-- The calls that fail.
pub record Faults : Type 0 where
  pub list : Bool
  pub sync : Key → Bool

pub data Failure : Type 0 where
  fetch_failed list_failed : Failure
  sync_failed : Key → Failure

abbrev pub binding_key : Text → TenantRole → Key
binding_key ns role = record { namespace = ns; name = text "kubeop:" ++ role_name role }

abbrev pub labels_or_new : Option StringMap → StringMap
labels_or_new none = []
labels_or_new (some m) = m

-- The function that `CreateOrUpdate` runs on the binding.
unfoldable pub write_binding : Text → TenantRole → RoleBinding → RoleBinding
unfolding insert
write_binding tenant role rb = record {
  labels = some (
      insert "rbac.kubeop.io/managed" (text "true")
        (insert "paas.kubeop.io/tenant" tenant (labels_or_new rb.labels)));
  role_ref = role_name role;
  subjects = group_name tenant role ∷ [];
}

abbrev pub binding_or_new : Option RoleBinding → RoleBinding
binding_or_new none = record { labels = none; role_ref = []; subjects = [] }
binding_or_new (some rb) = rb

-- `ensureRoleBinding`
unfoldable pub ensure_role_binding :
    Faults → Text → Text → TenantRole → KeyMap RoleBinding → KeyMap RoleBinding × Option Failure
unfolding write_binding find put
ensure_role_binding faults tenant ns role bindings =
    let key = binding_key ns role in
    if faults.sync key
    then (bindings, some (sync_failed key))
    else (put key (write_binding tenant role (binding_or_new (find key bindings))) bindings, none)

-- A failure ends the run with what is there by then.
abbrev pub and_then :
    KeyMap RoleBinding × Option Failure
    → (KeyMap RoleBinding → KeyMap RoleBinding × Option Failure)
    → KeyMap RoleBinding × Option Failure
and_then (bindings, none) next = next bindings
and_then (bindings, some f) next = (bindings, some f)

-- The body of the loop over the namespaces.
unfoldable pub ensure_role_bindings :
    Faults → Text → Text → KeyMap RoleBinding → KeyMap RoleBinding × Option Failure
unfolding ensure_role_binding
ensure_role_bindings faults tenant ns bindings =
    and_then
      (and_then (ensure_role_binding faults tenant ns owner bindings)
        (λ b. ensure_role_binding faults tenant ns developer b))
      (λ b. ensure_role_binding faults tenant ns viewer b)

unfoldable pub sync_namespaces :
    Faults → Text → List Namespace → KeyMap RoleBinding → KeyMap RoleBinding × Option Failure
unfolding ensure_role_bindings
sync_namespaces faults tenant [] bindings = (bindings, none)
sync_namespaces faults tenant (ns ∷ namespaces) bindings =
    and_then (ensure_role_bindings faults tenant ns.name bindings)
      (λ b. sync_namespaces faults tenant namespaces b)

-- `namespacesForTenant`, once the list succeeds.
unfoldable pub namespaces_for_tenant : Text → List Namespace → List Namespace
unfolding get same
namespaces_for_tenant tenant [] = []
namespaces_for_tenant tenant (ns ∷ namespaces) =
    let rest = namespaces_for_tenant tenant namespaces in
    if same (get ns.labels "paas.kubeop.io/tenant") tenant then ns ∷ rest else rest

-- `Reconcile`; a tenant that is not found is a success.
unfoldable pub reconcile : Faults → Fetch Text → Server → Server × Option Failure
unfolding sync_namespaces namespaces_for_tenant
reconcile faults not_found s = (s, none)
reconcile faults failed s = (s, some fetch_failed)
reconcile faults (found tenant) s =
    let (bindings, failure) =
      sync_namespaces faults tenant (namespaces_for_tenant tenant s.namespaces) s.bindings in
    if faults.list then (s, some list_failed) else (record s { bindings = bindings }, failure)

-- `enqueueNamespace`: the tenants to reconcile when a namespace changes.
unfoldable pub enqueue_namespace : Namespace → List Text
unfolding get
enqueue_namespace ns =
    let tenant = get ns.labels "paas.kubeop.io/tenant" in
    if is_empty tenant then [] else tenant ∷ []
