-- ===== src/AppReconciler/Tests.antt =====
-- Two apps in one namespace.
use kube_op.Prelude.{ℕ, ◌≡◌, refl, false, List, [], ◌∷◌, none, some}
use kube_op.Text.{Text, text}
use kube_op.StringMap.{get}
use kube_op.Api.{App, raw}
use kube_op.Cluster.{Key}
use kube_op.KeyMap.{KeyMap, find, same_key}
use kube_op.AppReconciler.{
  Kubernetes, DesiredDeployment, Faults, AppObject, Server, app_key, reconcile_workload, reconcile,
}
use kube_op.AppReconciler.Pruning.{HasDistinctKeys}
use kube_op.AppReconciler.Reconciled.{IsReconciled, reconcile-IsReconciled}
use kube_op.AppReconciler.Runs.{
  ComparesStatus, AppliesLabels, reconcile_workload-reconcile_workload,
}

-- Deployments as they are desired; every status differs.
abbrev plain : Kubernetes DesiredDeployment (List ℕ)
plain = record {
  labels_of = λ d. d.labels;
  applied = λ old d. d;
  set_status_condition = λ cs c. 1 ∷ [];
  same_status = λ s t. false;
}

plain-AppliesLabels : AppliesLabels plain
unfolding get
plain-AppliesLabels old d key v h = rw h refl

plain-ComparesStatus : ComparesStatus plain
plain-ComparesStatus s t h = cc

abbrev no_faults : Faults
no_faults = record {
  set_owner = false;
  dry_run = false;
  apply = false;
  list = false;
  delete = λ key. false;
  update_status = false;
}

abbrev app_named : Text → App
app_named name = record {
  meta = record { name = name; namespace = text "shop"; labels = none; annotations = none };
  spec = record {
    app_type = raw;
    source = some (record { url = text "ghcr.io/acme/web"; chart = []; ref = text "v1" });
    image = [];
    version = [];
    version_range = [];
    values_refs = [];
    secrets_refs = [];
    ingress_refs = [];
    service_profile = none;
  };
}

abbrev web_object : AppObject (List ℕ)
web_object = record {
  app = app_named (text "web");
  generation = 3;
  status = record { revision = []; urls = []; sync = []; observed_generation = 0; conditions = [] };
}

-- A Deployment, by its namespace, its name and who manages it.
abbrev deployment : Text → Text → Text → DesiredDeployment
deployment ns name manager = record {
  key = record { namespace = ns; name = name };
  labels = ("app.kubernetes.io/managed-by", manager) ∷ [];
  image = text "old:1";
  container_port = none;
  owner = none;
}

abbrev with_key : DesiredDeployment → Key × DesiredDeployment
with_key d = (d.key, d)

-- One Deployment to prune, one that others manage, and one of another namespace.
abbrev old_app : DesiredDeployment
old_app = deployment (text "shop") (text "old") (text "kubeop-operator")

abbrev others_app : DesiredDeployment
others_app = deployment (text "shop") (text "db") (text "helm")

abbrev far_app : DesiredDeployment
far_app = deployment (text "lab") (text "old") (text "kubeop-operator")

abbrev cluster : Server DesiredDeployment (List ℕ)
cluster = record {
  deployments = with_key old_app ∷ with_key others_app ∷ with_key far_app ∷ [];
  apps = (app_key web_object.app, web_object) ∷ [];
}

cluster-HasDistinctKeys : HasDistinctKeys cluster.deployments
unfolding find same_key
cluster-HasDistinctKeys = (refl, (refl, (refl, tt)))

abbrev api_key : Key
api_key = app_key (app_named (text "api"))

after_api : KeyMap DesiredDeployment
unfolding reconcile_workload
after_api = (reconcile_workload plain no_faults (app_named (text "api")) []).0

images :
    (find api_key after_api
      ≡ some (record {
        key = api_key;
        labels =
            ("app.kubernetes.io/name", text "api")
            ∷ ("app.kubernetes.io/managed-by", text "kubeop-operator")
            ∷ [];
        image = text "ghcr.io/acme/web:v1";
        container_port = none;
        owner = some api_key;
      }))
    × ((reconcile_workload plain no_faults (app_named (text "web")) after_api).1 ≡ none)
unfolding after_api reconcile_workload find same_key
images = (refl, refl)

stored : find (app_key web_object.app) cluster.apps ≡ some web_object
unfolding find same_key
stored = refl

succeeds : (reconcile plain no_faults false (app_key web_object.app) cluster).1 ≡ none
unfolding reconcile same_key
succeeds = refl

remaining :
    let after = (reconcile plain no_faults false (app_key web_object.app) cluster).0.deployments in
    (find old_app.key after ≡ none)
    × (find others_app.key after ≡ some others_app)
    × (find far_app.key after ≡ some far_app)
unfolding reconcile find same_key
remaining = (refl, refl, refl)

reconcile-IsReconciled_example :
    IsReconciled plain no_faults web_object cluster
      (reconcile plain no_faults false (app_key web_object.app) cluster).0
reconcile-IsReconciled_example =
    reconcile-IsReconciled plain no_faults false (app_key web_object.app) web_object cluster
      plain-ComparesStatus cluster-HasDistinctKeys stored succeeds

api_succeeds : (reconcile_workload plain no_faults (app_named (text "api")) []).1 ≡ none
unfolding reconcile_workload
api_succeeds = refl

web_succeeds :
    (reconcile_workload plain no_faults
      (app_named (text "web"))
      (reconcile_workload plain no_faults (app_named (text "api")) []).0).1
    ≡ none
unfolding reconcile_workload same_key
web_succeeds = refl

names_differ : same_key (app_key (app_named (text "web"))) api_key ≡ false
unfolding same_key
names_differ = refl

reconcile_workload-reconcile_workload_example :
    find api_key
      (reconcile_workload plain no_faults
        (app_named (text "web"))
        (reconcile_workload plain no_faults (app_named (text "api")) []).0).0
    ≡ none
reconcile_workload-reconcile_workload_example =
    reconcile_workload-reconcile_workload plain no_faults plain-AppliesLabels
      (app_named (text "web")) (app_named (text "api")) [] refl names_differ api_succeeds
      web_succeeds
