-- ===== src/AppOperations/Tests.antt =====
-- Two apps of one project: `web` has a Deployment, `api` an App resource.
use kube_op.Prelude.{ℕ, ◌≡◌, ◌≢◌, refl, true, false, [], ◌∷◌, none, some, arith, ap, map, length}
use kube_op.Text.{Text, text, same, trim_space}
use kube_op.TextMap
use kube_op.KeyMap.{find, same_key}
use kube_op.KubeNames.{app_kube_name}
use kube_op.Maintenance.{MaintenanceState}
use kube_op.EnvAttachments.{Container, config_map, secret, key_env, normalize_attachment_keys}
use kube_op.EnvAttachments.Detaching.{IsDetached, IsFree}
use kube_op.AppOperations.{
  Project, App, Deployment, AppResource, ControlPlane, Calls, version_mismatch, name_required,
  app_key,
}
use kube_op.AppOperations.Changes.{scale_app, update_app_image, rollout_restart_app}
use kube_op.AppOperations.Attachments.{
  attach_secret_to_app, detach_config_map_from_app, attach_to_app, detach_from_app,
}
use kube_op.AppOperations.Outcomes.{IsLocated}
use kube_op.AppOperations.Scaled.{StoresReplicas, IsScaled, scale_app-IsScaled}
use kube_op.AppOperations.Versions.{IsRefused}
use kube_op.AppOperations.Stale.{GivesVersions, scale_app-scale_app}
use kube_op.AppOperations.Guards.{with_maintenance, enabled-IsRefused}
use kube_op.AppOperations.Failures.{FailsFirst}
use kube_op.AppOperations.Errors.{operations-FailsFirst}
use kube_op.AppOperations.RoundTrips.{detach_from_app-attach_to_app}

abbrev running : Calls
running = record {
  load_maintenance = false;
  get_project = false;
  get_app = false;
  get_client = λ cluster. false;
  get_resource = false;
  update_resource = false;
  upsert_mirror = false;
  get_deployment = false;
  apply = false;
  events = record { events_db_enabled = true; events_bridge_enabled = false; insert = λ e. false };
  actor = text "ann";
  now = text "2024-05-01T10:00:00Z";
  applied = λ old d. d;
  updated = λ stored r. record r { resource_version = b'1' ∷ stored.resource_version };
}

abbrev project : Project
project = record { cluster_id = text "c1"; namespace = text "ns" }

abbrev web_app : App
web_app = record { project_id = text "p"; name = text "Web Shop"; kube_name = none }

abbrev api_app : App
api_app = record { project_id = text "p"; name = text "api"; kube_name = some (text "api-1") }

abbrev web_container : Container
web_container = record { name = text "app"; image = text "web:1"; env_from = []; env = [] }

abbrev web_deployment : Deployment
web_deployment = record { annotations = []; replicas = some 1; containers = web_container ∷ [] }

abbrev api_resource : AppResource
api_resource = record { resource_version = text "7"; replicas = none; image = text "api:1" }

abbrev open_state : MaintenanceState
open_state = record { enabled = false; message = []; updated_by = text "system" }

abbrev closed_state : MaintenanceState
closed_state = record { enabled = true; message = text "upgrade"; updated_by = text "ann" }

abbrev plane : ControlPlane
plane = record {
  maintenance = open_state;
  projects = (text "p", project) ∷ [];
  apps = (text "w", web_app) ∷ (text "a", api_app) ∷ [];
  events = [];
  deployments =
      λ cluster. (record { namespace = text "ns"; name = text "web-shop" }, web_deployment) ∷ [];
  resources = λ cluster. (record { namespace = text "ns"; name = text "api-1" }, api_resource) ∷ [];
  mirrors = λ cluster. [];
}

scaled_web :
    find
      (app_key project web_app)
      ((scale_app running (text "p") (text "w") [] 3 plane).0.deployments (text "c1"))
    ≡ some (record web_deployment { replicas = some 3 })
unfolding scale_app find same_key app_kube_name
scaled_web = refl

stale_scale :
    (scale_app running (text "p") (text "a") (text "6") 3 plane).1
    ≡ some (version_mismatch (text "7"))
unfolding scale_app same_key app_kube_name
stale_scale = refl

-- The events of a scale and a restart, the latest first.
event_kinds :
    map
      (λ e. e.kind)
      (rollout_restart_app running
        (text "p")
        (text "w")
        (scale_app running (text "p") (text "w") [] 3 plane).0).0.events
    ≡ text "app_rollout_restarted" ∷ text "app_scaled" ∷ []
unfolding scale_app rollout_restart_app same_key app_kube_name
event_kinds = refl

-- An attachment after the scale keeps its replicas.
attached_after_scale :
    find (app_key project web_app) (
      (attach_secret_to_app running
          (text "p")
          (text "w")
          (text " db ")
          (text "user" ∷ [])
          []
          (scale_app running (text "p") (text "w") [] 3 plane).0).0.deployments
        (text "c1"))
    ≡ some (record web_deployment {
      replicas = some 3;
      containers =
          record web_container { env = key_env secret (text "db") (text "user") (text "user") ∷ [] }
          ∷ [];
    })
unfolding scale_app attach_secret_to_app find same_key app_kube_name
attached_after_scale = refl

nameless :
    (detach_config_map_from_app running (text "p") (text "w") (text " ") plane).1
    ≡ some name_required
unfolding detach_config_map_from_app
nameless = refl

running-StoresReplicas : StoresReplicas running
running-StoresReplicas = record { applied = λ old d. refl; updated = λ stored r. refl }

scaled_api : (scale_app running (text "p") (text "a") (text "7") 3 plane).1 ≡ none
unfolding scale_app same_key app_kube_name
scaled_api = refl

scale_app-IsScaled_example :
    IsScaled
      (text "p")
      (text "a")
      3
      plane
      (scale_app running (text "p") (text "a") (text "7") 3 plane).0
scale_app-IsScaled_example =
    scale_app-IsScaled running (text "p") (text "a") (text "7") 3 plane running-StoresReplicas
      scaled_api

longer : (c : ℕ) (t : Text) → c ∷ t ≢ t
longer c t h = let e = ap length h in omega arith

web-IsLocated : IsLocated (text "p") (text "w") project web_app plane
unfolding TextMap.find same
web-IsLocated = record { project = refl; app = refl; owner = refl }

api-IsLocated : IsLocated (text "p") (text "a") project api_app plane
unfolding TextMap.find same
api-IsLocated = record { project = refl; app = refl; owner = refl }

running-GivesVersions : GivesVersions running
running-GivesVersions stored r h = longer b'1' stored.resource_version

api_there : find (app_key project api_app) (plane.resources project.cluster_id) ≡ some api_resource
unfolding find same_key app_kube_name
api_there = refl

scale_app-scale_app_example :
    let after = (scale_app running (text "p") (text "a") (text "7") 3 plane).0 in
    IsRefused after (scale_app running (text "p") (text "a") (text "7") 5 after)
    × IsRefused after
        (update_app_image running (text "p") (text "a") (text "7") (text "api:2") after)
scale_app-scale_app_example =
    scale_app-scale_app running running (text "p") (text "a") (text "7") (text "api:2") 3 5 project
      api_app api_resource plane running-GivesVersions api-IsLocated api_there (λ e. cc) scaled_api

abbrev closed_plane : ControlPlane
closed_plane = record plane { maintenance = closed_state }

enabled-IsRefused_example :
    IsRefused closed_plane (scale_app running (text "p") (text "w") [] 3 closed_plane)
    × IsRefused closed_plane
        (update_app_image running (text "p") (text "w") [] (text "web:2") closed_plane)
    × IsRefused closed_plane (rollout_restart_app running (text "p") (text "w") closed_plane)
    × (attach_to_app secret running
          (text "p")
          (text "w")
          (text "db")
          []
          []
          (record closed_plane { maintenance = open_state })
        ≡ with_maintenance open_state
            (attach_to_app secret running (text "p") (text "w") (text "db") [] [] closed_plane))
    × (detach_from_app secret running
          (text "p")
          (text "w")
          (text "db")
          (record closed_plane { maintenance = open_state })
        ≡ with_maintenance open_state
            (detach_from_app secret running (text "p") (text "w") (text "db") closed_plane))
enabled-IsRefused_example =
    enabled-IsRefused running secret (text "p") (text "w") [] (text "web:2") (text "db") [] [] 3
      open_state closed_plane refl

web_there :
    find (app_key project web_app) (plane.deployments project.cluster_id) ≡ some web_deployment
unfolding find same_key app_kube_name
web_there = refl

attaches :
    (attach_to_app secret running
      (text "p")
      (text "w")
      (text "db")
      (text "user" ∷ [])
      (text "DB_")
      plane).1
    ≡ none
unfolding attach_to_app same_key app_kube_name
attaches = refl

detaches :
    (detach_from_app secret running
      (text "p")
      (text "w")
      (text "db")
      (attach_to_app secret running
        (text "p")
        (text "w")
        (text "db")
        (text "user" ∷ [])
        (text "DB_")
        plane).0).1
    ≡ none
unfolding attach_to_app detach_from_app same_key app_kube_name
detaches = refl

web-IsDetached : IsDetached secret (trim_space (text "db")) web_container
web-IsDetached = record { env_from = tt; env = tt }

web-IsFree :
    IsFree secret
      (trim_space (text "db"))
      (trim_space (trim_space (text "DB_")))
      (normalize_attachment_keys (normalize_attachment_keys (text "user" ∷ [])))
      web_container
unfolding normalize_attachment_keys
web-IsFree = (tt, tt)

detach_from_app-attach_to_app_example :
    find (app_key project web_app) (
      (detach_from_app secret running
          (text "p")
          (text "w")
          (text "db")
          (attach_to_app secret running
            (text "p")
            (text "w")
            (text "db")
            (text "user" ∷ [])
            (text "DB_")
            plane).0).0.deployments
        (text "c1"))
    ≡ find (app_key project web_app) (plane.deployments (text "c1"))
detach_from_app-attach_to_app_example =
    detach_from_app-attach_to_app secret running (text "p") (text "w") (text "db") (text "DB_")
      (text "user" ∷ []) project web_app web_deployment web_container [] plane (λ old d. refl)
      web-IsLocated web_there refl web-IsDetached web-IsFree attaches detaches (text "c1")
      (app_key project web_app)

operations-FailsFirst_example :
    FailsFirst plane (scale_app running (text "p") (text "a") (text "6") 3 plane)
    × FailsFirst plane
        (update_app_image running (text "p") (text "a") (text "6") (text "api:2") plane)
    × FailsFirst plane (rollout_restart_app running (text "p") (text "a") plane)
    × FailsFirst plane
        (attach_to_app config_map running (text "p") (text "a") (text "cm") [] [] plane)
    × FailsFirst plane (detach_from_app config_map running (text "p") (text "a") (text "cm") plane)
operations-FailsFirst_example =
    operations-FailsFirst running config_map (text "p") (text "a") (text "6") (text "api:2")
      (text "cm") [] [] 3 plane
