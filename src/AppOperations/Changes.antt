-- ===== src/AppOperations/Changes.antt =====
-- ScaleApp, UpdateAppImage and RolloutRestartApp.
use kube_op.Prelude.{
  ℕ, not, List, [], ◌∷◌, ◌++◌, Option, none, some, if◌then◌else◌, Result, ok, and_then, on_ok,
}
use kube_op.Text.{Text, text, is_empty, same, trim_space}
use kube_op.TextMap
use kube_op.KeyMap.{find, put}
use kube_op.Cluster.{Fetch, found, not_found, failed}
use kube_op.Events.{string, number, entry, EventInput}
use kube_op.EnvAttachments.{Container}
use kube_op.AppOperations.{
  Project, App, Deployment, AppResource, ControlPlane, Calls, OperationFailure, resource_failed,
  version_required, update_failed, version_mismatch, image_required, in_cluster, app_key, locate,
  guard, append_event, info_event, app_meta, update_deployment,
}

abbrev pub resource_found : Option AppResource → Fetch AppResource
resource_found none = not_found
resource_found (some r) = found r

-- `loadAppCRD`
unfoldable pub load_app_crd : Calls → Project → App → ControlPlane → Fetch AppResource
unfolding find
load_app_crd calls p a s =
    if calls.get_resource
    then failed
    else resource_found (find (app_key p a) (s.resources p.cluster_id))

-- `mirrorAppCRD`; its errors are only logged.
unfoldable pub mirror_app_crd : Calls → Project → App → AppResource → ControlPlane → ControlPlane
unfolding put
mirror_app_crd calls p a r s =
    let mirrors =
      in_cluster p.cluster_id (put (app_key p a) r (s.mirrors p.cluster_id)) s.mirrors in
    if calls.upsert_mirror then s else record s { mirrors = mirrors }

-- `c.Update(ctx, crd)`
abbrev pub put_resource : Calls → Project → App → AppResource → ControlPlane → ControlPlane
put_resource calls p a r s = record s {
  resources = in_cluster p.cluster_id (put (app_key p a) r (s.resources p.cluster_id)) s.resources;
}

-- An App resource is changed only where the caller knows its version.
unfoldable pub update_resource :
    Calls
    → Project
    → App
    → Text
    → (AppResource → AppResource)
    → AppResource
    → ControlPlane
    → ControlPlane × Option OperationFailure
unfolding mirror_app_crd put trim_space same
update_resource calls p a version edit r s =
    let new = calls.updated r (edit r) in
    if is_empty (trim_space version)
    then (s, some version_required)
    else if not (same version r.resource_version)
    then (s, some (version_mismatch r.resource_version))
    else if calls.update_resource
    then (s, some update_failed)
    else (mirror_app_crd calls p a new (put_resource calls p a new s), none)

-- The App resource if there is one, else the Deployment. The source looks the project and the app
-- up a second time for the Deployment, and finds what it found before.
abbrev pub change_found :
    Calls
    → Project
    → App
    → Text
    → (AppResource → AppResource)
    → (Deployment → Result OperationFailure Deployment)
    → ControlPlane
    → Fetch AppResource
    → ControlPlane × Option OperationFailure
change_found calls p a version edit mutate s (found r) = update_resource calls p a version edit r s
change_found calls p a version edit mutate s not_found = update_deployment calls p a mutate s
change_found calls p a version edit mutate s failed = (s, some resource_failed)

-- The body that `ScaleApp` and `UpdateAppImage` share.
unfoldable pub change_app :
    Calls
    → Text
    → Text
    → Text
    → (AppResource → AppResource)
    → (Deployment → Result OperationFailure Deployment)
    → (Project → App → EventInput)
    → ControlPlane
    → ControlPlane × Option OperationFailure
unfolding locate load_app_crd update_resource update_deployment append_event
change_app calls project_id app_id version edit mutate event s =
    on_ok (locate calls project_id app_id s) s (λ (p, a).
      and_then (change_found calls p a version edit mutate s (load_app_crd calls p a s))
        (λ t. append_event calls (event p a) t))

abbrev pub scaled_event : Text → Text → ℕ → Project → App → EventInput
scaled_event project_id app_id replicas p a =
    info_event project_id app_id (text "app_scaled") (text "scaled app " ++ a.name)
      (entry (text "replicas") (number replicas) (app_meta p a))

-- `ScaleApp`
unfoldable pub scale_app :
    Calls → Text → Text → Text → ℕ → ControlPlane → ControlPlane × Option OperationFailure
unfolding guard change_app
scale_app calls project_id app_id version replicas s = and_then (guard calls s) (λ t.
    change_app calls project_id app_id version (λ r. record r { replicas = some replicas })
      (λ d. ok (record d { replicas = some replicas }))
      (λ p a. scaled_event project_id app_id replicas p a) t)

abbrev pub with_image : Text → List Container → List Container
with_image image [] = record { name = text "app"; image = image; env_from = []; env = [] } ∷ []
with_image image (c ∷ cs) = record c { image = image } ∷ cs

abbrev pub image_event : Text → Text → Text → Project → App → EventInput
image_event project_id app_id image p a =
    info_event project_id app_id (text "app_image_updated") (text "updated image for " ++ a.name)
      (entry (text "image") (string image) (app_meta p a))

-- `UpdateAppImage` of an image that is trimmed.
abbrev pub update_trimmed_image :
    Calls → Text → Text → Text → Text → ControlPlane → ControlPlane × Option OperationFailure
update_trimmed_image calls project_id app_id version image t =
    if is_empty image
    then (t, some image_required)
    else change_app calls project_id app_id version (λ r. record r { image = image })
        (λ d. ok (record d { containers = with_image image d.containers }))
        (λ p a. image_event project_id app_id image p a) t

-- `UpdateAppImage`
unfoldable pub update_app_image :
    Calls → Text → Text → Text → Text → ControlPlane → ControlPlane × Option OperationFailure
unfolding guard change_app trim_space
update_app_image calls project_id app_id version image s =
    and_then (guard calls s)
      (λ t. update_trimmed_image calls project_id app_id version (trim_space image) t)

abbrev pub restarted_event : Calls → Text → Text → Project → App → EventInput
restarted_event calls project_id app_id p a =
    info_event project_id app_id (text "app_rollout_restarted")
      (text "rollout restarted for " ++ a.name)
      (entry (text "redeploy_at") (string calls.now) (app_meta p a))

abbrev pub restart : Text → Deployment → Deployment
restart now d = record d { annotations = TextMap.put (text "kubeop.io/redeploy") now d.annotations }

-- `RolloutRestartApp`
unfoldable pub rollout_restart_app :
    Calls → Text → Text → ControlPlane → ControlPlane × Option OperationFailure
unfolding guard locate update_deployment append_event TextMap.put
rollout_restart_app calls project_id app_id s = and_then (guard calls s) (λ t.
    on_ok (locate calls project_id app_id t) t (λ (p, a).
      and_then (update_deployment calls p a (λ d. ok (restart calls.now d)) t)
        (λ u. append_event calls (restarted_event calls project_id app_id p a) u)))
