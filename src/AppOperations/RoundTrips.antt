-- ===== src/AppOperations/RoundTrips.antt =====
-- Attaching to an app and detaching again.
use kube_op.Prelude.{
  ◌≡◌, refl, ap, sym, subst, ◌∙◌, ◌&&◌, inl, inr, List, ◌∷◌, Option, none, some, Result, ok, ◌>>=◌,
  and_then, and_then-succeeds, on_ok-succeeds, Bool-cases, arith,
}
use kube_op.Text.{Text, is_empty, same, trim_space}
use kube_op.Text.Equality.{same_iff}
use kube_op.Cluster.{Key}
use kube_op.TextMap
use kube_op.KeyMap.{KeyMap, same_key, same_key_iff, find}
use kube_op.Events.{EventInput}
use kube_op.EnvAttachments.{
  Container, SourceKind, attach_env, detach_env, normalize_attachment_keys,
}
use kube_op.EnvAttachments.Detaching.{IsDetached, IsFree, detach_env-attach_env}
use kube_op.AppOperations.{
  Project, App, Deployment, ControlPlane, Calls, OperationFailure, app_key, locate, append_event,
  deployment_or_new, put_deployment, update_deployment,
}
use kube_op.AppOperations.Attachments.{
  on_first, on_first_container, change_container, attached_event, detached_event, attach_to_app,
  detach_from_app,
}
use kube_op.AppOperations.Outcomes.{
  IsLocated, locate-IsLocated, append_event-state, update_deployment-succeeds,
}
use kube_op.AppOperations.Scaled.{placed, find-placed, find-placed_else}
use kube_op.AppOperations.Versions.{IsLocated-unique}

-- The operator's applies are the only ones: a Deployment is afterwards as it was applied.
abbrev pub StoresApplied : Calls → Type 0
StoresApplied calls = (old : Option Deployment) (d : Deployment) → calls.applied old d ≡ d

-- What a change of the first container leaves.
record IsContained (calls : Calls) (project_id app_id : Text) (f : Container → Container)
    (before after : ControlPlane) : Type 0 where
  p : Project
  a : App
  d : Deployment
  located : IsLocated project_id app_id p a before
  mutated :
      on_first_container f
        (deployment_or_new (find (app_key p a) (before.deployments p.cluster_id)))
      ≡ ok d
  deployments : after.deployments ≡ (put_deployment calls p a d before).deployments
  projects : after.projects ≡ before.projects
  apps : after.apps ≡ before.apps

change_container-IsContained :
    (calls : Calls) (project_id app_id name : Text) (f : Container → Container)
    (event : Project → App → EventInput) (s : ControlPlane)
    → (change_container calls project_id app_id name f event s).1 ≡ none
    → IsContained calls project_id app_id f s
        (change_container calls project_id app_id name f event s).0
unfolding change_container
change_container-IsContained calls project_id app_id name f event s =
    elim (Bool-cases (is_empty name)) [
      | inl e ↦ rw e (λ h. cc)
      | inr e ↦ rw e (λ h.
          let step : Project × App → ControlPlane × Option OperationFailure =
            λ pa. update_deployment calls pa.0 pa.1 (λ d. on_first_container f d) s in
          let next : Project × App → ControlPlane × Option OperationFailure =
            λ pa. and_then (step pa) (λ t. append_event calls (event pa.0 pa.1) t) in
          let ((p, a), at, goes) = on_ok-succeeds (locate calls project_id app_id s) s next h in
          let (done, appended) =
            and_then-succeeds (step (p, a)) (λ t. append_event calls (event p a) t)
              (ap (λ (r : ControlPlane × Option OperationFailure). r.1) (sym goes) ∙ h) in
          let (d, mutated, put_lem) =
            update_deployment-succeeds calls p a (λ d. on_first_container f d) s done in
          rw (goes, appended, append_event-state calls (event p a) (step (p, a)).0, put_lem)
            (record {
              p = p;
              a = a;
              d = d;
              located = locate-IsLocated calls project_id app_id p a s at;
              mutated = mutated;
              deployments = refl;
              projects = refl;
              apps = refl;
            }))
    ]

abbrev with_first : (Container → Container) → Deployment → Container → List Container → Deployment
with_first f d c cs = record d { containers = f c ∷ cs }

on_first_container-ok :
    (f : Container → Container) (d new : Deployment) (c : Container) (cs : List Container)
    → d.containers ≡ c ∷ cs
    → on_first_container f d ≡ ok new
    → new ≡ with_first f d c cs
on_first_container-ok f d new c cs e h =
    let r : Result OperationFailure Deployment = ok (with_first f d c cs) in
    let step : r ≡ ok new =
      ap (λ l. on_first f l >>= (λ l. ok (record d { containers = l }))) (sym e) ∙ h in
    cc

module _ (calls : Calls) (project_id app_id : Text) (p : Project) (a : App) (d : Deployment)
    (c : Container) (cs : List Container) (stores : StoresApplied calls) where
  contained_deployments :
      (f : Container → Container) (before after : ControlPlane)
      → IsLocated project_id app_id p a before
      → find (app_key p a) (before.deployments p.cluster_id) ≡ some d
      → d.containers ≡ c ∷ cs
      → IsContained calls project_id app_id f before after
      → after.deployments
        ≡ placed p.cluster_id (app_key p a) (with_first f d c cs) before.deployments
  contained_deployments f before after one there containers x =
      let (same_project, same_app) = IsLocated-unique x.located one in
      let outcome : Project → App → Type 0 = λ q b.
        (on_first_container f
            (deployment_or_new (find (app_key q b) (before.deployments q.cluster_id)))
          ≡ ok x.d)
        × (after.deployments ≡ (put_deployment calls q b x.d before).deployments) in
      let (mutated, deployments) =
        subst (λ b. outcome p b) same_app
          (subst (λ q. outcome q x.a) same_project (x.mutated, x.deployments)) in
      let new =
        on_first_container-ok f d x.d c cs containers
          (ap (λ o. on_first_container f (deployment_or_new o)) (sym there) ∙ mutated) in
      deployments
      ∙ ap (λ e. placed p.cluster_id (app_key p a) e before.deployments)
          (stores (find (app_key p a) (before.deployments p.cluster_id)) x.d ∙ new)

put_back :
    {V : Type 0} (cluster : Text) (key : Key) (v w : V) (objects : Text → KeyMap V)
    → find key (objects cluster) ≡ some w
    → (other : Text) (k : Key)
    → find k (placed cluster key w (placed cluster key v objects) other) ≡ find k (objects other)
put_back cluster key v w objects there other k =
    elim (Bool-cases (same cluster other && same_key key k)) [
      | inl e ↦
          let here : cluster ≡ other = ground (arith, e, same_iff cluster other) in
          let at : key ≡ k = ground (arith, e, same_key_iff key k) in
          rw (sym here, sym at)
            (find-placed cluster key w (placed cluster key v objects) ∙ sym there)
      | inr e ↦
          find-placed_else cluster key w (placed cluster key v objects) other k e
          ∙ find-placed_else cluster key v objects other k e
    ]

with_first-undone :
    (f g : Container → Container) (d : Deployment) (c : Container) (cs : List Container)
    → d.containers ≡ c ∷ cs
    → g (f c) ≡ c
    → with_first g (with_first f d c cs) (f c) cs ≡ d
with_first-undone f g d c cs e undone =
    ap (λ c. record d { containers = c ∷ cs }) undone
    ∙ ap (λ l. record d { containers = l }) (sym e)

restored :
    (calls : Calls) (project_id app_id : Text) (p : Project) (a : App) (d : Deployment)
    (c : Container) (cs : List Container) (f g : Container → Container) (s mid after : ControlPlane)
    → StoresApplied calls
    → IsLocated project_id app_id p a s
    → find (app_key p a) (s.deployments p.cluster_id) ≡ some d
    → d.containers ≡ c ∷ cs
    → g (f c) ≡ c
    → IsContained calls project_id app_id f s mid
    → IsContained calls project_id app_id g mid after
    → (cluster : Text) (key : Key)
    → find key (after.deployments cluster) ≡ find key (s.deployments cluster)
restored calls project_id app_id p a d c cs f g s mid after stores one there containers undone x y
      cluster key =
    let middle = with_first f d c cs in
    let first =
      contained_deployments calls project_id app_id p a d c cs stores f s mid one there containers
        x in
    let mid_located : IsLocated project_id app_id p a mid = record {
      project = ap (λ m. TextMap.find project_id m) x.projects ∙ one.project;
      app = ap (λ m. TextMap.find app_id m) x.apps ∙ one.app;
      owner = one.owner;
    } in
    let second =
      contained_deployments calls project_id app_id p a middle (f c) cs stores g mid after
        mid_located
        (ap (λ objects. find (app_key p a) (objects p.cluster_id)) first
          ∙ find-placed p.cluster_id (app_key p a) middle s.deployments)
        refl y in
    ap (λ objects. find key (objects cluster))
      (second
        ∙ ap (λ objects. placed p.cluster_id (app_key p a) (with_first g middle (f c) cs) objects)
            first
        ∙ ap
            (λ e.
              placed p.cluster_id (app_key p a) e
                (placed p.cluster_id (app_key p a) middle s.deployments))
            (with_first-undone f g d c cs containers undone))
    ∙ put_back p.cluster_id (app_key p a) middle d s.deployments there cluster key

-- If a Deployment is stored as it is applied, and the first container of the app's Deployment does
-- not refer to a ConfigMap or a Secret and has no variable by a name that attaching it sets, then
-- attaching it to the app and detaching it again, both without error, leaves every Deployment as it
-- was.
pub detach_from_app-attach_to_app :
    (kind : SourceKind) (calls : Calls) (project_id app_id name prefix : Text) (keys : List Text)
    (p : Project) (a : App) (d : Deployment) (c : Container) (cs : List Container)
    (s : ControlPlane)
    → StoresApplied calls
    → IsLocated project_id app_id p a s
    → find (app_key p a) (s.deployments p.cluster_id) ≡ some d
    → d.containers ≡ c ∷ cs
    → IsDetached kind (trim_space name) c
    → IsFree kind
        (trim_space name)
        (trim_space (trim_space prefix))
        (normalize_attachment_keys (normalize_attachment_keys keys))
        c
    → (attach_to_app kind calls project_id app_id name keys prefix s).1 ≡ none
    → (detach_from_app kind calls project_id app_id name
        (attach_to_app kind calls project_id app_id name keys prefix s).0).1
      ≡ none
    → (cluster : Text) (key : Key)
    → find key (
        (detach_from_app kind calls project_id app_id name
            (attach_to_app kind calls project_id app_id name keys prefix s).0).0.deployments
          cluster)
      ≡ find key (s.deployments cluster)
unfolding attach_to_app detach_from_app
detach_from_app-attach_to_app kind calls project_id app_id name prefix keys p a d c cs s stores one
      there containers detached free attached again cluster key =
    let n = trim_space name in
    let ks = normalize_attachment_keys keys in
    let f : Container → Container = λ c. attach_env kind n ks (trim_space prefix) c in
    let g : Container → Container = λ c. detach_env kind n c in
    let mid = (attach_to_app kind calls project_id app_id name keys prefix s).0 in
    restored calls project_id app_id p a d c cs f g s mid
      (detach_from_app kind calls project_id app_id name mid).0 stores one there containers
      (detach_env-attach_env kind n ks (trim_space prefix) c detached free)
      (change_container-IsContained calls project_id app_id n f
        (λ p a. attached_event kind project_id app_id n ks (trim_space prefix) p a) s attached)
      (change_container-IsContained calls project_id app_id n g
        (λ p a. detached_event kind project_id app_id n p a) mid again)
      cluster key
