-- ===== src/AppReconciler.antt =====
-- The App controller of the operator (kubeop-operator/controllers/app_controller.go): one
-- reconcile applies the app's Deployment, prunes others and reports the status.
pub mod Pruning
pub mod Runs
pub mod Reconciled
pub mod Tests
use kube_op.Prelude.{
  ℕ, ◌≡◌, Bool, true, false, not, ◌&&◌, ◌||◌, List, [], ◌∷◌, ◌++◌, Option, none, some,
  if◌then◌else◌, any,
}
use kube_op.Text.{Text, text, is_empty, same}
use kube_op.StringMap.{StringMap, get}
use kube_op.Api.{App, AppSource}
use kube_op.Cluster.{Key, Fetch, found, not_found, failed}
use kube_op.KeyMap.{KeyMap, same_key, find, put, remove}

-- What the controller sets of a Deployment; its selector and its pod labels are the labels, and
-- its one container is called "app". The owner is the App that controls it.
pub record DesiredDeployment : Type 0 where
  pub key : Key
  pub labels : StringMap
  pub image : Text
  pub container_port : Option ℕ
  pub owner : Option Key

-- `metav1.Condition`
pub record Condition : Type 0 where
  pub type : Text
  pub status : Bool
  pub reason : Text
  pub message : Text
  pub observed_generation : ℕ

-- `AppStatus`; the count of available replicas, which the controller never writes, is left out.
pub record AppStatus (C : Type 0) : Type 0 where
  pub revision : Text
  pub urls : List Text
  pub sync : Text
  pub observed_generation : ℕ
  pub conditions : C

pub record AppObject (C : Type 0) : Type 0 where
  pub app : App
  pub generation : ℕ
  pub status : AppStatus C

abbrev pub managed_by : Text
managed_by = text "kubeop-operator"

-- `resolveAppImage` for an app that is not nil.
unfoldable pub resolve_app_image : Option AppSource → Text
resolve_app_image none = text "ghcr.io/vaheed/kubeop-operator-placeholder:latest"
resolve_app_image (some source) =
    if is_empty source.url
    then text "ghcr.io/vaheed/kubeop-operator-placeholder:latest"
    else if is_empty source.ref
    then source.url
    else source.url ++ (b':' ∷ source.ref)

abbrev pub head_port : List ℕ → Option ℕ
head_port [] = none
head_port (port ∷ ports) = some port

unfoldable pub app_port : App → Option ℕ
app_port a = elim (a.spec.service_profile) [ none ↦ none | some profile ↦ head_port profile.ports ]

abbrev pub app_key : App → Key
app_key a = record { namespace = a.meta.namespace; name = a.meta.name }

-- `buildDesiredResources`: one Deployment.
unfoldable pub build_desired_resources : App → DesiredDeployment
unfolding resolve_app_image app_port
build_desired_resources a = record {
  key = app_key a;
  labels =
      ("app.kubernetes.io/name", a.meta.name) ∷ ("app.kubernetes.io/managed-by", managed_by) ∷ [];
  image = resolve_app_image a.spec.source;
  container_port = app_port a;
  owner = none;
}

-- `SetControllerReference`, on an object that is built here and has no controller yet.
abbrev pub owned_by : App → DesiredDeployment → DesiredDeployment
owned_by a d = record d { owner = some (app_key a) }

-- What comes from Kubernetes: Deployments with their labels, what a server-side apply makes of the
-- Deployment that is there, condition lists, and the comparison of statuses.
pub record Kubernetes (D C : Type 0) : Type 0 where
  pub labels_of : D → StringMap
  pub applied : Option D → DesiredDeployment → D
  pub set_status_condition : C → Condition → C
  pub same_status : AppStatus C → AppStatus C → Bool

-- The calls that fail.
pub record Faults : Type 0 where
  pub set_owner : Bool
  pub dry_run : Bool
  pub apply : Bool
  pub list : Bool
  pub delete : Key → Bool
  pub update_status : Bool

pub data Failure : Type 0 where
  fetch_failed owner_failed dry_run_failed apply_failed list_failed : Failure
  prune_failed : Key → Failure
  status_failed : Failure

-- The Deployments of the server, and the apps with their statuses.
pub record Server (D C : Type 0) : Type 0 where
  pub deployments : KeyMap D
  pub apps : KeyMap (AppObject C)

-- A write that is not needed, fails, or is made.
abbrev pub written : {A : Type 0} → Bool → Bool → A → A → Failure → A × Option Failure
written same fails old new f =
    if same then (old, none) else if fails then (old, some f) else (new, none)

-- A failure ends the run with what is there by then.
abbrev pub and_then : {A : Type 0} → Option Failure → A → A × Option Failure → A × Option Failure
and_then none stopped next = next
and_then (some f) stopped next = (stopped, some f)

module _ {D C : Type 0} (kube : Kubernetes D C) (faults : Faults) where
  -- What the list in `pruneWorkload` selects.
  unfoldable pub is_managed_in : Text → Key → D → Bool
  unfolding get same
  is_managed_in ns k d =
      same k.namespace ns
      && same (get (some (kube.labels_of d)) "app.kubernetes.io/managed-by") managed_by

  -- The loop of `pruneWorkload` over the Deployments that were listed; `r.Delete` of one that is
  -- gone already counts as a success.
  unfoldable pub prune_loop : Text → Key → KeyMap D → KeyMap D → KeyMap D × Option Failure
  unfolding is_managed_in same_key remove
  prune_loop ns own [] deployments = (deployments, none)
  prune_loop ns own ((k, d) ∷ listed) deployments =
      let skip = not (is_managed_in ns k d) || same_key k own in
      let rest = prune_loop ns own listed (if skip then deployments else remove k deployments) in
      if not skip && faults.delete k then (deployments, some (prune_failed k)) else rest

  unfoldable pub prune_workload : Text → Key → KeyMap D → KeyMap D × Option Failure
  unfolding prune_loop
  prune_workload ns own deployments =
      if faults.list
      then (deployments, some list_failed)
      else prune_loop ns own deployments deployments

  -- `reconcileWorkload`
  unfoldable pub reconcile_workload : App → KeyMap D → KeyMap D × Option Failure
  unfolding build_desired_resources prune_workload find put
  reconcile_workload a deployments =
      let own = app_key a in
      if faults.set_owner
      then (deployments, some owner_failed)
      else if faults.dry_run
      then (deployments, some dry_run_failed)
      else if faults.apply
      then (deployments, some apply_failed)
      else prune_workload a.meta.namespace own (
          put own (kube.applied (find own deployments) (owned_by a (build_desired_resources a)))
            deployments)

  abbrev pub status_urls : Option AppSource → List Text → List Text
  status_urls none urls = urls
  status_urls (some source) urls = if is_empty source.url then urls else source.url ∷ []

  abbrev pub status_revision : Option AppSource → Text → Text
  status_revision none revision = revision
  status_revision (some source) revision = source.ref

  -- The status that `updateStatus` makes.
  unfoldable pub new_status : AppObject C → AppStatus C
  new_status o = record {
    revision = status_revision o.app.spec.source o.status.revision;
    urls = status_urls o.app.spec.source o.status.urls;
    sync = text "Applied";
    observed_generation = o.generation;
    conditions = kube.set_status_condition o.status.conditions (record {
      type = text "Ready";
      status = true;
      reason = text "Reconciled";
      message = text "App reconciliation completed successfully";
      observed_generation = o.generation;
    });
  }

  -- `updateStatus`: the object that the server holds after it.
  unfoldable pub update_status : AppObject C → AppObject C × Option Failure
  unfolding new_status
  update_status o =
      written (kube.same_status o.status (new_status o)) faults.update_status o
        (record o { status = new_status o }) status_failed

  -- `Reconcile` once the app is fetched.
  unfoldable pub reconcile_app : AppObject C → Server D C → Server D C × Option Failure
  unfolding reconcile_workload update_status put
  reconcile_app o s =
      let (deployments, failure) = reconcile_workload o.app s.deployments in
      let (stored, status_failure) = update_status o in
      and_then failure (record s { deployments = deployments })
        (
          record { deployments = deployments; apps = put (app_key o.app) stored s.apps },
          status_failure,
        )

  -- `Reconcile` of what `r.Get` found; NotFound is a success.
  unfoldable pub reconcile_found : Option (AppObject C) → Server D C → Server D C × Option Failure
  unfolding reconcile_app
  reconcile_found none s = (s, none)
  reconcile_found (some o) s = reconcile_app o s

  -- `Reconcile`; `fetch_fails` tells that `r.Get` answers another error than NotFound.
  unfoldable pub reconcile : Bool → Key → Server D C → Server D C × Option Failure
  unfolding reconcile_found find
  reconcile fetch_fails key s =
      if fetch_fails then (s, some fetch_failed) else reconcile_found (find key s.apps) s
