-- ===== src/TenantReconciler/Tests.antt =====
-- A tenant with one namespace among two.
use kube_op.Prelude.{◌≡◌, refl, false, [], ◌∷◌, none, some}
use kube_op.Text.{text, same}
use kube_op.Cluster.{found}
use kube_op.KeyMap.{find, same_key}
use kube_op.TenantReconciler.{
  owner, viewer, RoleBinding, Namespace, Server, Faults, binding_key, enqueue_namespace, reconcile,
}
use kube_op.TenantReconciler.Synced.{IsSynced, reconcile-IsSynced}

abbrev no_faults : Faults
no_faults = record { list = false; sync = λ key. false }

abbrev acme_namespace : Namespace
acme_namespace = record {
  name = text "ns-acme";
  labels = some (("paas.kubeop.io/tenant", text "acme") ∷ []);
}

-- A binding by one of the three names in a namespace that is not the tenant's.
abbrev others_binding : RoleBinding
others_binding = record { labels = none; role_ref = text "view"; subjects = text "auditors" ∷ [] }

abbrev cluster : Server
cluster = record {
  namespaces = record { name = text "default"; labels = none } ∷ acme_namespace ∷ [];
  bindings = (binding_key (text "default") owner, others_binding) ∷ [];
}

succeeds : (reconcile no_faults (found (text "acme")) cluster).1 ≡ none
unfolding reconcile same
succeeds = refl

viewers :
    find
      (binding_key (text "ns-acme") viewer)
      (reconcile no_faults (found (text "acme")) cluster).0.bindings
    ≡ some (record {
      labels =
          some
            (("paas.kubeop.io/tenant", text "acme") ∷ ("rbac.kubeop.io/managed", text "true") ∷ []);
      role_ref = text "tenant-viewer";
      subjects = text "tenant:acme:viewers" ∷ [];
    })
unfolding reconcile same find same_key
viewers = refl

outside :
    find
      (binding_key (text "default") owner)
      (reconcile no_faults (found (text "acme")) cluster).0.bindings
    ≡ some others_binding
unfolding reconcile same find same_key
outside = refl

enqueued : enqueue_namespace acme_namespace ≡ text "acme" ∷ []
unfolding enqueue_namespace
enqueued = refl

reconcile-IsSynced_example :
    IsSynced (text "acme") cluster (reconcile no_faults (found (text "acme")) cluster).0
reconcile-IsSynced_example = reconcile-IsSynced no_faults (text "acme") cluster succeeds
