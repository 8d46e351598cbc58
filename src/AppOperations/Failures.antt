-- ===== src/AppOperations/Failures.antt =====
-- What an operation on an app that returns an error leaves.
use kube_op.Prelude.{
  ◌≡◌, refl, Bool, true, false, not, inl, inr, ◌⊎◌, List, Option, none, some, if◌then◌else◌, Result,
  ok, err, and_then, on_ok,
}
use kube_op.Text.{Text, is_empty, same, trim_space}
use kube_op.Cluster.{Fetch, found, not_found, failed}
use kube_op.KeyMap.{find}
use kube_op.Events.{ProjectEvent, EventInput, EventFailure, append_project_event}
use kube_op.Maintenance.{ensure_maintenance_allows}
use kube_op.AppOperations.{
  Project, App, Deployment, AppResource, ControlPlane, Calls, OperationFailure, event_failed,
  version_required, version_mismatch, update_failed, deployment_failed, apply_failed, app_key,
  locate, guard, maintenance_failure, append_event, with_events, deployment_or_new, put_deployment,
  update_deployment,
}
use kube_op.AppOperations.Changes.{
  mirror_app_crd, put_resource, update_resource, load_app_crd, change_found, change_app,
}

abbrev pub IsEventFailure : OperationFailure → Type 0
IsEventFailure f = (g : EventFailure) × (f ≡ event_failed g)

-- A step that fails changes nothing.
abbrev StopsAt : ControlPlane → ControlPlane × Option OperationFailure → Type 0
StopsAt s r = (f : OperationFailure) → r.1 ≡ some f → r.0 ≡ s

-- An error other than that of the event comes before every change.
abbrev pub FailsFirst : ControlPlane → ControlPlane × Option OperationFailure → Type 0
FailsFirst s r = (f : OperationFailure) → r.1 ≡ some f → (r.0 ≡ s) ⊎ IsEventFailure f

with_events-fails :
    (t : ControlPlane) (r : List ProjectEvent × Option EventFailure) (f : OperationFailure)
    → (with_events t r).1 ≡ some f
    → IsEventFailure f
with_events-fails t (events, none) f h = cc
with_events-fails t (events, some g) f h = (g, cc)

append_event-fails :
    (calls : Calls) (input : EventInput) (t : ControlPlane) (f : OperationFailure)
    → (append_event calls input t).1 ≡ some f
    → IsEventFailure f
unfolding append_event
append_event-fails calls input t f h =
    with_events-fails t (append_project_event calls.events calls.actor input t.events) f h

then_event-FailsFirst :
    (calls : Calls) (input : EventInput) (s : ControlPlane)
    (r : ControlPlane × Option OperationFailure)
    → StopsAt s r
    → FailsFirst s (and_then r (λ t. append_event calls input t))
then_event-FailsFirst calls input s (t, none) stops f h = inr (append_event-fails calls input t f h)
then_event-FailsFirst calls input s (t, some g) stops f h = inl (stops f h)

on_ok-FailsFirst :
    (l : Result OperationFailure (Project × App)) (s : ControlPlane)
    (next : Project × App → ControlPlane × Option OperationFailure)
    → ((pa : Project × App) → FailsFirst s (next pa))
    → FailsFirst s (on_ok l s next)
on_ok-FailsFirst (ok pa) s next h = h pa
on_ok-FailsFirst (err g) s next h = λ f e. inl refl

allowed-FailsFirst :
    (o : Option OperationFailure) (s : ControlPlane)
    (next : ControlPlane → ControlPlane × Option OperationFailure)
    → FailsFirst s (next s)
    → FailsFirst s (and_then (s, o) next)
allowed-FailsFirst none s next h = h
allowed-FailsFirst (some g) s next h = λ f e. inl refl

pub guard-FailsFirst :
    (calls : Calls) (s : ControlPlane)
    (next : ControlPlane → ControlPlane × Option OperationFailure)
    → FailsFirst s (next s)
    → FailsFirst s (and_then (guard calls s) next)
unfolding guard
guard-FailsFirst calls s next h =
    allowed-FailsFirst
      (maintenance_failure (ensure_maintenance_allows calls.load_maintenance s.maintenance)) s next
      h

unless-StopsAt :
    (fails : Bool) (s t : ControlPlane) (g : OperationFailure)
    → StopsAt s (if fails then (s, some g) else (t, none))
unless-StopsAt true s t g f h = refl
unless-StopsAt false s t g f h = cc

unless_else-StopsAt :
    (fails : Bool) (s : ControlPlane) (g : OperationFailure)
    (r : ControlPlane × Option OperationFailure)
    → StopsAt s r
    → StopsAt s (if fails then (s, some g) else r)
unless_else-StopsAt true s g r stops f h = refl
unless_else-StopsAt false s g r stops f h = stops f h

applied-StopsAt :
    (l : Result OperationFailure Deployment) (fails : Bool) (s : ControlPlane)
    (next : Deployment → ControlPlane)
    → StopsAt s (on_ok l s (λ d. if fails then (s, some apply_failed) else (next d, none)))
applied-StopsAt (ok d) fails s next = unless-StopsAt fails s (next d) apply_failed
applied-StopsAt (err g) fails s next = λ f h. refl

module _ (calls : Calls) where
  update_deployment-StopsAt :
      (p : Project) (a : App) (mutate : Deployment → Result OperationFailure Deployment)
      (s : ControlPlane)
      → StopsAt s (update_deployment calls p a mutate s)
  unfolding update_deployment
  update_deployment-StopsAt p a mutate s =
      let old = deployment_or_new (find (app_key p a) (s.deployments p.cluster_id)) in
      unless_else-StopsAt calls.get_deployment s deployment_failed
        (on_ok (mutate old) s (λ d.
          if calls.apply then (s, some apply_failed) else (put_deployment calls p a d s, none)))
        (applied-StopsAt (mutate old) calls.apply s (λ d. put_deployment calls p a d s))

  update_resource-StopsAt :
      (p : Project) (a : App) (version : Text) (edit : AppResource → AppResource) (r : AppResource)
      (s : ControlPlane)
      → StopsAt s (update_resource calls p a version edit r s)
  unfolding update_resource
  update_resource-StopsAt p a version edit r s =
      let new = calls.updated r (edit r) in
      let after = mirror_app_crd calls p a new (put_resource calls p a new s) in
      let step : ControlPlane × Option OperationFailure =
        if calls.update_resource then (s, some update_failed) else (after, none) in
      let mismatch = version_mismatch r.resource_version in
      unless_else-StopsAt (is_empty (trim_space version)) s version_required
        (if not (same version r.resource_version) then (s, some mismatch) else step)
        (unless_else-StopsAt (not (same version r.resource_version)) s mismatch step
          (unless-StopsAt calls.update_resource s after update_failed))

  change_found-StopsAt :
      (p : Project) (a : App) (version : Text) (edit : AppResource → AppResource)
      (mutate : Deployment → Result OperationFailure Deployment) (s : ControlPlane)
      (fetch : Fetch AppResource)
      → StopsAt s (change_found calls p a version edit mutate s fetch)
  change_found-StopsAt p a version edit mutate s (found r) =
      update_resource-StopsAt p a version edit r s
  change_found-StopsAt p a version edit mutate s not_found = update_deployment-StopsAt p a mutate s
  change_found-StopsAt p a version edit mutate s failed = λ f h. refl

  pub change_app-FailsFirst :
      (project_id app_id version : Text) (edit : AppResource → AppResource)
      (mutate : Deployment → Result OperationFailure Deployment)
      (event : Project → App → EventInput) (s : ControlPlane)
      → FailsFirst s (change_app calls project_id app_id version edit mutate event s)
  unfolding change_app
  change_app-FailsFirst project_id app_id version edit mutate event s =
      on_ok-FailsFirst (locate calls project_id app_id s) s
        (λ (p, a).
          and_then (change_found calls p a version edit mutate s (load_app_crd calls p a s))
            (λ t. append_event calls (event p a) t))
        (λ (p, a).
          then_event-FailsFirst calls (event p a) s
            (change_found calls p a version edit mutate s (load_app_crd calls p a s))
            (change_found-StopsAt p a version edit mutate s (load_app_crd calls p a s)))

  pub change_deployment-FailsFirst :
      (project_id app_id : Text) (mutate : Deployment → Result OperationFailure Deployment)
      (event : Project → App → EventInput) (s : ControlPlane)
      → FailsFirst s (
          on_ok (locate calls project_id app_id s) s (λ (p, a).
            and_then
              (update_deployment calls p a mutate s)
              (λ t. append_event calls (event p a) t)))
  change_deployment-FailsFirst project_id app_id mutate event s =
      on_ok-FailsFirst (locate calls project_id app_id s) s
        (λ (p, a).
          and_then (update_deployment calls p a mutate s) (λ t. append_event calls (event p a) t))
        (λ (p, a).
          then_event-FailsFirst calls (event p a) s (update_deployment calls p a mutate s)
            (update_deployment-StopsAt p a mutate s))
