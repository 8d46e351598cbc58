-- ===== src/AppOperations/Outcomes.antt =====
-- What a step of an operation on an app leaves where it succeeds.
use kube_op.Prelude.{
  ◌≡◌, refl, ap, sym, ◌∙◌, Bool, true, false, inl, inr, List, Option, none, some, if◌then◌else◌,
  Result, ok, err, ◌>>=◌, on_ok-succeeds, Bool-cases, arith,
}
use kube_op.Text.{Text}
use kube_op.Text.Equality.{same_iff}
use kube_op.TextMap
use kube_op.KeyMap.{find}
use kube_op.Events.{ProjectEvent, EventInput, EventFailure, append_project_event}
use kube_op.AppOperations.{
  Project, App, Deployment, ControlPlane, Calls, OperationFailure, project_failed, app_failed,
  apply_failed, stored, own_app, app_key, locate, append_event, with_events, deployment_or_new,
  put_deployment, update_deployment,
}

stored-ok :
    {A : Type 0} (fails : Bool) (f : OperationFailure) (o : Option A) (a : A)
    → stored fails f o ≡ ok a
    → o ≡ some a
stored-ok fails f none a h = cc
stored-ok true f (some b) a h = cc
stored-ok false f (some b) a h = cc

bind-ok :
    {A B : Type 0} (r : Result OperationFailure A) (next : A → Result OperationFailure B) (b : B)
    → (r >>= next) ≡ ok b
    → (a : A) × (r ≡ ok a) × (next a ≡ ok b)
bind-ok (ok a) next b h = (a, refl, h)
bind-ok (err f) next b h = cc

own_app-ok :
    (calls : Calls) (project_id : Text) (p q : Project) (a b : App)
    → own_app calls project_id p a ≡ ok (q, b)
    → (p ≡ q) × (a ≡ b) × (a.project_id ≡ project_id)
own_app-ok calls project_id p q a b h = ground (arith, same_iff a.project_id project_id)

-- The project and the app are those of the database, and the app is the project's.
pub record IsLocated (project_id app_id : Text) (p : Project) (a : App) (s : ControlPlane)
    : Type 0 where
  pub project : TextMap.find project_id s.projects ≡ some p
  pub app : TextMap.find app_id s.apps ≡ some a
  pub owner : a.project_id ≡ project_id

pub locate-IsLocated :
    (calls : Calls) (project_id app_id : Text) (p : Project) (a : App) (s : ControlPlane)
    → locate calls project_id app_id s ≡ ok (p, a)
    → IsLocated project_id app_id p a s
unfolding locate
locate-IsLocated calls project_id app_id p a s h =
    let (q, found_q, rest) =
      bind-ok (stored calls.get_project project_failed (TextMap.find project_id s.projects))
        (λ q.
          stored calls.get_app app_failed (TextMap.find app_id s.apps)
          >>= (λ b. own_app calls project_id q b))
        (p, a) h in
    let (b, found_b, own) =
      bind-ok (stored calls.get_app app_failed (TextMap.find app_id s.apps))
        (λ b. own_app calls project_id q b) (p, a) rest in
    let (same_p, same_a, owned) = own_app-ok calls project_id q p b a own in
    record {
      project =
          stored-ok calls.get_project project_failed (TextMap.find project_id s.projects) q found_q
          ∙ ap some same_p;
      app =
          stored-ok calls.get_app app_failed (TextMap.find app_id s.apps) b found_b
          ∙ ap some same_a;
      owner = ap (λ (c : App). c.project_id) (sym same_a) ∙ owned;
    }

-- Appending an event changes the events alone.
with_events-state :
    (s : ControlPlane) (r : List ProjectEvent × Option EventFailure)
    → (with_events s r).0 ≡ record s { events = r.0 }
with_events-state s (events, none) = refl
with_events-state s (events, some f) = refl

pub append_event-state :
    (calls : Calls) (input : EventInput) (s : ControlPlane)
    → (append_event calls input s).0
      ≡ record s { events = (append_project_event calls.events calls.actor input s.events).0 }
unfolding append_event
append_event-state calls input s =
    with_events-state s (append_project_event calls.events calls.actor input s.events)

-- A step over a Deployment that succeeds.
pub update_deployment-succeeds :
    (calls : Calls) (p : Project) (a : App)
    (mutate : Deployment → Result OperationFailure Deployment) (s : ControlPlane)
    → (update_deployment calls p a mutate s).1 ≡ none
    → (d : Deployment) × (mutate
          (deployment_or_new (find (app_key p a) (s.deployments p.cluster_id)))
        ≡ ok d)
      × ((update_deployment calls p a mutate s).0 ≡ put_deployment calls p a d s)
unfolding update_deployment
update_deployment-succeeds calls p a mutate s = elim (Bool-cases calls.get_deployment) [
  | inl e ↦ rw e (λ h. cc)
  | inr e ↦ rw e (λ h.
      let next : Deployment → ControlPlane × Option OperationFailure =
        λ d. if calls.apply then (s, some apply_failed) else (put_deployment calls p a d s, none) in
      let (d, mutated, goes) =
        on_ok-succeeds
          (mutate (deployment_or_new (find (app_key p a) (s.deployments p.cluster_id)))) s next h in
      (d, mutated, ground (goes, h, arith)))
]
