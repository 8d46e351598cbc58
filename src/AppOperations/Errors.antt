-- ===== src/AppOperations/Errors.antt =====
-- The five operations on an app where they return an error.
use kube_op.Prelude.{
  ℕ, refl, Bool, true, false, inl, List, Option, some, if◌then◌else◌, ok, and_then, on_ok,
}
use kube_op.Text.{Text, is_empty, trim_space}
use kube_op.Events.{EventInput}
use kube_op.EnvAttachments.{
  Container, SourceKind, attach_env, detach_env, normalize_attachment_keys,
}
use kube_op.AppOperations.{
  Project, App, ControlPlane, Calls, OperationFailure, image_required, name_required, locate,
  append_event, update_deployment,
}
use kube_op.AppOperations.Changes.{
  change_app, scaled_event, scale_app, image_event, with_image, update_trimmed_image,
  update_app_image, restarted_event, restart, rollout_restart_app,
}
use kube_op.AppOperations.Attachments.{
  on_first_container, change_container, attached_event, detached_event, attach_to_app,
  detach_from_app,
}
use kube_op.AppOperations.Failures.{
  FailsFirst, guard-FailsFirst, change_app-FailsFirst, change_deployment-FailsFirst,
}

unless-FailsFirst :
    (fails : Bool) (s : ControlPlane) (g : OperationFailure)
    (r : ControlPlane × Option OperationFailure)
    → FailsFirst s r
    → FailsFirst s (if fails then (s, some g) else r)
unless-FailsFirst true s g r h = λ f e. inl refl
unless-FailsFirst false s g r h = h

module _ (calls : Calls) (project_id app_id : Text) where
  scale_app-FailsFirst :
      (version : Text) (replicas : ℕ) (s : ControlPlane)
      → FailsFirst s (scale_app calls project_id app_id version replicas s)
  unfolding scale_app
  scale_app-FailsFirst version n s =
      guard-FailsFirst calls s
        (λ t.
          change_app calls project_id app_id version (λ r. record r { replicas = some n })
            (λ d. ok (record d { replicas = some n })) (λ p a. scaled_event project_id app_id n p a)
            t)
        (change_app-FailsFirst calls project_id app_id version (λ r. record r { replicas = some n })
          (λ d. ok (record d { replicas = some n })) (λ p a. scaled_event project_id app_id n p a)
          s)

  update_trimmed_image-FailsFirst :
      (version image : Text) (s : ControlPlane)
      → FailsFirst s (update_trimmed_image calls project_id app_id version image s)
  update_trimmed_image-FailsFirst version image s =
      unless-FailsFirst (is_empty image) s image_required
        (change_app calls project_id app_id version (λ r. record r { image = image })
          (λ d. ok (record d { containers = with_image image d.containers }))
          (λ p a. image_event project_id app_id image p a) s)
        (change_app-FailsFirst calls project_id app_id version (λ r. record r { image = image })
          (λ d. ok (record d { containers = with_image image d.containers }))
          (λ p a. image_event project_id app_id image p a) s)

  update_app_image-FailsFirst :
      (version image : Text) (s : ControlPlane)
      → FailsFirst s (update_app_image calls project_id app_id version image s)
  unfolding update_app_image
  update_app_image-FailsFirst version image s =
      guard-FailsFirst calls s
        (λ t. update_trimmed_image calls project_id app_id version (trim_space image) t)
        (update_trimmed_image-FailsFirst version (trim_space image) s)

  rollout_restart_app-FailsFirst :
      (s : ControlPlane) → FailsFirst s (rollout_restart_app calls project_id app_id s)
  unfolding rollout_restart_app
  rollout_restart_app-FailsFirst s =
      guard-FailsFirst calls s
        (λ t. on_ok (locate calls project_id app_id t) t (λ (p, a).
          and_then (update_deployment calls p a (λ d. ok (restart calls.now d)) t)
            (λ u. append_event calls (restarted_event calls project_id app_id p a) u)))
        (change_deployment-FailsFirst calls project_id app_id (λ d. ok (restart calls.now d))
          (λ p a. restarted_event calls project_id app_id p a) s)

  change_container-FailsFirst :
      (name : Text) (f : Container → Container) (event : Project → App → EventInput)
      (s : ControlPlane)
      → FailsFirst s (change_container calls project_id app_id name f event s)
  unfolding change_container
  change_container-FailsFirst name f event s =
      unless-FailsFirst (is_empty name) s name_required
        (on_ok (locate calls project_id app_id s) s (λ (p, a).
          and_then (update_deployment calls p a (λ d. on_first_container f d) s)
            (λ t. append_event calls (event p a) t)))
        (change_deployment-FailsFirst calls project_id app_id (λ d. on_first_container f d) event s)

-- A scale, an image update, a restart, and attaching or detaching a ConfigMap or a Secret, that
-- return an error have changed nothing, unless the error is that of appending the event.
pub operations-FailsFirst :
    (calls : Calls) (kind : SourceKind) (project_id app_id version image name prefix : Text)
    (keys : List Text) (replicas : ℕ) (s : ControlPlane)
    → FailsFirst s (scale_app calls project_id app_id version replicas s)
      × FailsFirst s (update_app_image calls project_id app_id version image s)
      × FailsFirst s (rollout_restart_app calls project_id app_id s)
      × FailsFirst s (attach_to_app kind calls project_id app_id name keys prefix s)
      × FailsFirst s (detach_from_app kind calls project_id app_id name s)
unfolding attach_to_app detach_from_app
operations-FailsFirst calls kind project_id app_id version image name prefix keys replicas s = (
  scale_app-FailsFirst calls project_id app_id version replicas s,
  update_app_image-FailsFirst calls project_id app_id version image s,
  rollout_restart_app-FailsFirst calls project_id app_id s,
  change_container-FailsFirst calls project_id app_id (trim_space name)
      (λ c.
        attach_env kind (trim_space name) (normalize_attachment_keys keys) (trim_space prefix) c)
      (λ p a.
        attached_event kind project_id app_id (trim_space name) (normalize_attachment_keys keys)
          (trim_space prefix) p a)
      s,
  change_container-FailsFirst calls project_id app_id (trim_space name)
      (λ c. detach_env kind (trim_space name) c)
      (λ p a. detached_event kind project_id app_id (trim_space name) p a) s,
)
