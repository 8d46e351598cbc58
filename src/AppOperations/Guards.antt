-- ===== src/AppOperations/Guards.antt =====
-- Maintenance mode and the operations on apps.
use kube_op.Prelude.{
  ℕ, ◌≡◌, refl, ap, ◌∙◌, Bool, true, false, inl, inr, List, Option, none, some, if◌then◌else◌,
  Result, ok, err, and_then, on_ok, Bool-cases,
}
use kube_op.Text.{Text, is_empty, trim_space}
use kube_op.KeyMap.{find}
use kube_op.Events.{ProjectEvent, EventInput, EventFailure, append_project_event}
use kube_op.Maintenance.{
  MaintenanceState, MaintenanceFailure, load_failed, maintenance_enabled, ensure_maintenance_allows,
}
use kube_op.EnvAttachments.{
  Container, SourceKind, attach_env, detach_env, normalize_attachment_keys,
}
use kube_op.AppOperations.{
  Project, App, Deployment, ControlPlane, Calls, OperationFailure, maintenance_failed, apply_failed,
  app_key, locate, guard, append_event, with_events, deployment_or_new, put_deployment,
  update_deployment,
}
use kube_op.AppOperations.Changes.{scale_app, update_app_image, rollout_restart_app}
use kube_op.AppOperations.Attachments.{
  on_first_container, change_container, attached_event, detached_event, attach_to_app,
  detach_from_app,
}
use kube_op.AppOperations.Versions.{IsRefused}

guard-enabled :
    (calls : Calls) (s : ControlPlane)
    → s.maintenance.enabled ≡ true
    → (f : MaintenanceFailure) × (guard calls s ≡ (s, some (maintenance_failed f)))
unfolding guard ensure_maintenance_allows
guard-enabled calls s h = elim (Bool-cases calls.load_maintenance) [
  | inl e ↦ (load_failed, rw e refl)
  | inr e ↦ (maintenance_enabled s.maintenance.message, rw (e, h) refl)
]

-- The same outcome, with the other maintenance state.
abbrev pub with_maintenance :
    MaintenanceState
    → ControlPlane × Option OperationFailure
    → ControlPlane × Option OperationFailure
with_maintenance m (s, f) = (record s { maintenance = m }, f)

module _ (m : MaintenanceState) where
  on_ok-with_maintenance :
      (l : Result OperationFailure (Project × App)) (s : ControlPlane)
      (next other : Project × App → ControlPlane × Option OperationFailure)
      → ((pa : Project × App) → other pa ≡ with_maintenance m (next pa))
      → on_ok l (record s { maintenance = m }) other ≡ with_maintenance m (on_ok l s next)
  on_ok-with_maintenance (ok pa) s next other h = h pa
  on_ok-with_maintenance (err f) s next other h = refl

  and_then-with_maintenance :
      (r : ControlPlane × Option OperationFailure)
      (next : ControlPlane → ControlPlane × Option OperationFailure)
      → ((t : ControlPlane) → next (record t { maintenance = m }) ≡ with_maintenance m (next t))
      → and_then (with_maintenance m r) next ≡ with_maintenance m (and_then r next)
  and_then-with_maintenance (t, none) next h = h t
  and_then-with_maintenance (t, some f) next h = refl

  with_events-with_maintenance :
      (s : ControlPlane) (r : List ProjectEvent × Option EventFailure)
      → with_events (record s { maintenance = m }) r ≡ with_maintenance m (with_events s r)
  with_events-with_maintenance s (events, none) = refl
  with_events-with_maintenance s (events, some f) = refl

  append_event-with_maintenance :
      (calls : Calls) (input : EventInput) (s : ControlPlane)
      → append_event calls input (record s { maintenance = m })
        ≡ with_maintenance m (append_event calls input s)
  unfolding append_event
  append_event-with_maintenance calls input s =
      with_events-with_maintenance s (append_project_event calls.events calls.actor input s.events)

  applied-with_maintenance :
      (calls : Calls) (p : Project) (a : App) (s : ControlPlane) (fails : Bool)
      (r : Result OperationFailure Deployment)
      → on_ok r
          (record s { maintenance = m })
          (λ d.
            if fails
            then (record s { maintenance = m }, some apply_failed)
            else (put_deployment calls p a d (record s { maintenance = m }), none))
        ≡ with_maintenance m (
            on_ok r s
              (λ d. if fails then (s, some apply_failed) else (put_deployment calls p a d s, none)))
  applied-with_maintenance calls p a s true (ok d) = refl
  applied-with_maintenance calls p a s false (ok d) = refl
  applied-with_maintenance calls p a s fails (err f) = refl

  update_deployment-with_maintenance :
      (calls : Calls) (p : Project) (a : App)
      (mutate : Deployment → Result OperationFailure Deployment) (s : ControlPlane)
      → update_deployment calls p a mutate (record s { maintenance = m })
        ≡ with_maintenance m (update_deployment calls p a mutate s)
  unfolding update_deployment
  update_deployment-with_maintenance calls p a mutate s = elim (Bool-cases calls.get_deployment) [
    | inl e ↦ rw e refl
    | inr e ↦ rw e (
        applied-with_maintenance calls p a s calls.apply
          (mutate (deployment_or_new (find (app_key p a) (s.deployments p.cluster_id)))))
  ]

  change_container-with_maintenance :
      (calls : Calls) (project_id app_id name : Text) (f : Container → Container)
      (event : Project → App → EventInput) (s : ControlPlane)
      → change_container calls project_id app_id name f event (record s { maintenance = m })
        ≡ with_maintenance m (change_container calls project_id app_id name f event s)
  unfolding change_container locate
  change_container-with_maintenance calls project_id app_id name f event s =
      elim (Bool-cases (is_empty name)) [
        | inl e ↦ rw e refl
        | inr e ↦ rw e (
            on_ok-with_maintenance (locate calls project_id app_id s) s
              (λ (p, a).
                and_then (update_deployment calls p a (λ d. on_first_container f d) s)
                  (λ t. append_event calls (event p a) t))
              (λ (p, a).
                and_then
                  (update_deployment calls p a (λ d. on_first_container f d)
                    (record s { maintenance = m }))
                  (λ t. append_event calls (event p a) t))
              (λ (p, a).
                ap (λ r. and_then r (λ t. append_event calls (event p a) t))
                  (update_deployment-with_maintenance calls p a (λ d. on_first_container f d) s)
                ∙ and_then-with_maintenance
                    (update_deployment calls p a (λ d. on_first_container f d) s)
                    (λ t. append_event calls (event p a) t)
                    (λ t. append_event-with_maintenance calls (event p a) t)))
      ]

-- While maintenance mode is enabled, a scale, an image update and a restart are refused and change
-- nothing; attaching and detaching a ConfigMap or a Secret do the same in every state of maintenance.
pub enabled-IsRefused :
    (calls : Calls) (kind : SourceKind) (project_id app_id version image name prefix : Text)
    (keys : List Text) (replicas : ℕ) (m : MaintenanceState) (s : ControlPlane)
    → s.maintenance.enabled ≡ true
    → IsRefused s (scale_app calls project_id app_id version replicas s)
      × IsRefused s (update_app_image calls project_id app_id version image s)
      × IsRefused s (rollout_restart_app calls project_id app_id s)
      × (attach_to_app kind calls project_id app_id name keys prefix (record s { maintenance = m })
          ≡ with_maintenance m (attach_to_app kind calls project_id app_id name keys prefix s))
      × (detach_from_app kind calls project_id app_id name (record s { maintenance = m })
          ≡ with_maintenance m (detach_from_app kind calls project_id app_id name s))
unfolding scale_app update_app_image rollout_restart_app attach_to_app detach_from_app
enabled-IsRefused calls kind project_id app_id version image name prefix keys replicas m s h =
    let (f, e) = guard-enabled calls s h in
    (
      rw e (maintenance_failed f, refl),
      rw e (maintenance_failed f, refl),
      rw e (maintenance_failed f, refl),
      change_container-with_maintenance m calls project_id app_id (trim_space name)
          (λ c.
            attach_env kind (trim_space name) (normalize_attachment_keys keys) (trim_space prefix)
              c)
          (λ p a.
            attached_event kind project_id app_id (trim_space name) (normalize_attachment_keys keys)
              (trim_space prefix) p a)
          s,
      change_container-with_maintenance m calls project_id app_id (trim_space name)
          (λ c. detach_env kind (trim_space name) c)
          (λ p a. detached_event kind project_id app_id (trim_space name) p a) s,
    )
