-- ===== src/AppOperations.antt =====
-- Operations on deployed apps (internal/service/apps.go): ScaleApp, UpdateAppImage,
-- RolloutRestartApp, and attaching and detaching ConfigMaps and Secrets.
pub mod Changes
pub mod Attachments
pub mod Outcomes
pub mod Successes
pub mod Scaled
pub mod Versions
pub mod Stale
pub mod Guards
pub mod RoundTrips
pub mod Failures
pub mod Errors
pub mod Tests
use kube_op.Prelude.{
  ℕ, ◌≡◌, Bool, true, false, not, List, [], ◌∷◌, Option, none, some, if◌then◌else◌, Result, ok, err,
  ◌>>=◌, and_then, on_ok,
}
use kube_op.Text.{Text, text, is_empty, same, trim_space}
use kube_op.TextMap.{TextMap}
use kube_op.TextMap
use kube_op.KeyMap.{KeyMap, find, put}
use kube_op.Cluster.{Key, Fetch, found, not_found, failed}
use kube_op.KubeNames.{app_kube_name}
use kube_op.Events.{
  MetaValue, string, Meta, empty, entry, ProjectEvent, EventInput, EventFaults, EventFailure,
  append_project_event,
}
use kube_op.Maintenance.{MaintenanceState, MaintenanceFailure, ensure_maintenance_allows}
use kube_op.EnvAttachments.{
  Container, SourceKind, config_map, secret, attach_env, detach_env, normalize_attachment_keys,
}

-- `store.Project` and `store.App`; the kube name is that of the app's source where it is a string.
pub record Project : Type 0 where
  pub cluster_id : Text
  pub namespace : Text

pub record App : Type 0 where
  pub project_id : Text
  pub name : Text
  pub kube_name : Option Text

-- What the operations read and write of `appsv1.Deployment`; replicas are words of 32 bits.
pub record Deployment : Type 0 where
  pub annotations : TextMap Text
  pub replicas : Option ℕ
  pub containers : List Container

-- The operator's App as the control plane sees it.
pub record AppResource : Type 0 where
  pub resource_version : Text
  pub replicas : Option ℕ
  pub image : Text

-- The database, and by cluster the Deployments, the App resources, and the rows of the table
-- k8s_crds that mirror these.
pub record ControlPlane : Type 0 where
  pub maintenance : MaintenanceState
  pub projects : TextMap Project
  pub apps : TextMap App
  pub events : List ProjectEvent
  pub deployments : Text → KeyMap Deployment
  pub resources : Text → KeyMap AppResource
  pub mirrors : Text → KeyMap AppResource

-- The calls that fail; the actor and the time; what a server-side apply makes of the Deployment
-- that is there, and an update of an App resource.
pub record Calls : Type 0 where
  pub load_maintenance : Bool
  pub get_project : Bool
  pub get_app : Bool
  pub get_client : Text → Bool
  pub get_resource : Bool
  pub update_resource : Bool
  pub upsert_mirror : Bool
  pub get_deployment : Bool
  pub apply : Bool
  pub events : EventFaults
  pub actor : Text
  pub now : Text
  pub applied : Option Deployment → Deployment → Deployment
  pub updated : AppResource → AppResource → AppResource

pub data OperationFailure : Type 0 where
  maintenance_failed : MaintenanceFailure → OperationFailure
  project_failed app_failed foreign_app client_failed : OperationFailure
  resource_failed version_required update_failed : OperationFailure
  version_mismatch : Text → OperationFailure
  deployment_failed apply_failed no_containers : OperationFailure
  image_required name_required : OperationFailure
  event_failed : EventFailure → OperationFailure

abbrev pub in_cluster : {A : Type 0} → Text → A → (Text → A) → Text → A
in_cluster cluster a objects other = if same cluster other then a else objects other

abbrev pub stored : {A : Type 0} → Bool → OperationFailure → Option A → Result OperationFailure A
stored fails f none = err f
stored fails f (some a) = if fails then err f else ok a

abbrev pub app_key : Project → App → Key
app_key p a = record { namespace = p.namespace; name = app_kube_name a.kube_name a.name }

abbrev pub own_app : Calls → Text → Project → App → Result OperationFailure (Project × App)
own_app calls project_id p a =
    if not (same a.project_id project_id)
    then err foreign_app
    else if calls.get_client p.cluster_id
    then err client_failed
    else ok (p, a)

-- What `ScaleApp`, `UpdateAppImage` and `updateAppDeployment` begin with.
unfoldable pub locate : Calls → Text → Text → ControlPlane → Result OperationFailure (Project × App)
unfolding TextMap.find same
locate calls project_id app_id s = do
  p ← stored calls.get_project project_failed (TextMap.find project_id s.projects)
  a ← stored calls.get_app app_failed (TextMap.find app_id s.apps)
  own_app calls project_id p a

abbrev pub maintenance_failure : Option MaintenanceFailure → Option OperationFailure
maintenance_failure none = none
maintenance_failure (some f) = some (maintenance_failed f)

-- `ensureMaintenanceAllows`, as a step.
unfoldable pub guard : Calls → ControlPlane → ControlPlane × Option OperationFailure
unfolding ensure_maintenance_allows
guard calls s =
    (s, maintenance_failure (ensure_maintenance_allows calls.load_maintenance s.maintenance))

abbrev pub with_events :
    ControlPlane → List ProjectEvent × Option EventFailure → ControlPlane × Option OperationFailure
with_events s (events, none) = (record s { events = events }, none)
with_events s (events, some f) = (record s { events = events }, some (event_failed f))

unfoldable pub append_event :
    Calls → EventInput → ControlPlane → ControlPlane × Option OperationFailure
unfolding append_project_event
append_event calls input s =
    with_events s (append_project_event calls.events calls.actor input s.events)

abbrev pub info_event : Text → Text → Text → Text → Meta → EventInput
info_event project_id app_id kind message meta = record {
  project_id = project_id;
  app_id = app_id;
  actor_user_id = [];
  kind = kind;
  severity = text "INFO";
  message = message;
  meta = meta;
}

-- The meta that every event of an app carries.
abbrev pub app_meta : Project → App → Meta
app_meta p a =
    entry (text "cluster_id") (string p.cluster_id) (
      entry (text "namespace") (string p.namespace) (entry (text "app_name") (string a.name) empty))

abbrev pub deployment_or_new : Option Deployment → Deployment
deployment_or_new none = record { annotations = []; replicas = none; containers = [] }
deployment_or_new (some d) = d

abbrev pub put_deployment : Calls → Project → App → Deployment → ControlPlane → ControlPlane
put_deployment calls p a d s =
    let key = app_key p a in
    let objects = s.deployments p.cluster_id in
    record s {
      deployments =
          in_cluster p.cluster_id (put key (calls.applied (find key objects) d) objects)
            s.deployments;
    }

-- `updateAppDeployment` once the project and the app are there.
unfoldable pub update_deployment :
    Calls
    → Project
    → App
    → (Deployment → Result OperationFailure Deployment)
    → ControlPlane
    → ControlPlane × Option OperationFailure
unfolding find put
update_deployment calls p a mutate s =
    if calls.get_deployment
    then (s, some deployment_failed)
    else on_ok (mutate (deployment_or_new (find (app_key p a) (s.deployments p.cluster_id)))) s
        (λ d. if calls.apply then (s, some apply_failed) else (put_deployment calls p a d s, none))
