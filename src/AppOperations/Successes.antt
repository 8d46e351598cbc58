-- ===== src/AppOperations/Successes.antt =====
-- What ScaleApp and UpdateAppImage leave where they succeed.
use kube_op.Prelude.{
  ◌≡◌, refl, ap, sym, ◌∙◌, Bool, true, false, not, inl, inr, ◌⊎◌, Option, none, some, if◌then◌else◌,
  Result, ok, and_then, and_then-succeeds, on_ok-succeeds, Bool-cases,
}
use kube_op.Text.{Text, is_empty, same, trim_space}
use kube_op.Text.Equality.{same_iff}
use kube_op.KeyMap.{find}
use kube_op.Cluster.{Fetch, found, not_found, failed}
use kube_op.Events.{EventInput}
use kube_op.AppOperations.{
  Project, App, Deployment, AppResource, ControlPlane, Calls, OperationFailure, version_required,
  version_mismatch, update_failed, app_key, locate, append_event, deployment_or_new, put_deployment,
}
use kube_op.AppOperations.Changes.{
  mirror_app_crd, put_resource, update_resource, resource_found, load_app_crd, change_found,
  change_app,
}
use kube_op.AppOperations.Outcomes.{
  IsLocated, locate-IsLocated, append_event-state, update_deployment-succeeds,
}

-- The resource was at the version that the caller names, and is as the server updates it; the
-- Deployments are as they were.
pub record IsUpdated (calls : Calls) (p : Project) (a : App) (version : Text)
    (edit : AppResource → AppResource) (r : AppResource) (before after : ControlPlane)
    : Type 0 where
  pub current : version ≡ r.resource_version
  pub resources :
      after.resources ≡ (put_resource calls p a (calls.updated r (edit r)) before).resources
  pub deployments : after.deployments ≡ before.deployments

pub record KeepsDatabase (before after : ControlPlane) : Type 0 where
  pub projects : after.projects ≡ before.projects
  pub apps : after.apps ≡ before.apps
  pub maintenance : after.maintenance ≡ before.maintenance

mirror_app_crd-keeps :
    (calls : Calls) (p : Project) (a : App) (r : AppResource) (s : ControlPlane)
    → KeepsDatabase s (mirror_app_crd calls p a r s)
      × ((mirror_app_crd calls p a r s).resources ≡ s.resources)
      × ((mirror_app_crd calls p a r s).deployments ≡ s.deployments)
unfolding mirror_app_crd
mirror_app_crd-keeps calls p a r s = elim (Bool-cases calls.upsert_mirror) [
  | inl e ↦ rw e (record { projects = refl; apps = refl; maintenance = refl }, refl, refl)
  | inr e ↦ rw e (record { projects = refl; apps = refl; maintenance = refl }, refl, refl)
]

chosen :
    (blank same fails : Bool) (s t : ControlPlane) (f g h : OperationFailure)
    → (let r : ControlPlane × Option OperationFailure =
          if blank
          then (s, some f)
          else if not same
          then (s, some g)
          else if fails
          then (s, some h)
          else (t, none) in
        r.1 ≡ none → (same ≡ true) × (r.0 ≡ t))
chosen true same fails s t f g h e = cc
chosen false true true s t f g h e = cc
chosen false true false s t f g h e = (refl, refl)
chosen false false fails s t f g h e = cc

update_resource-succeeds :
    (calls : Calls) (p : Project) (a : App) (version : Text) (edit : AppResource → AppResource)
    (r : AppResource) (s : ControlPlane)
    → (update_resource calls p a version edit r s).1 ≡ none
    → IsUpdated calls p a version edit r s (update_resource calls p a version edit r s).0
      × KeepsDatabase s (update_resource calls p a version edit r s).0
unfolding update_resource
update_resource-succeeds calls p a version edit r s h =
    let new = calls.updated r (edit r) in
    let t = mirror_app_crd calls p a new (put_resource calls p a new s) in
    let (same_version, e) =
      chosen (is_empty (trim_space version)) (same version r.resource_version) calls.update_resource
        s t version_required (version_mismatch r.resource_version) update_failed h in
    let (kept, resources, deployments) =
      mirror_app_crd-keeps calls p a new (put_resource calls p a new s) in
    rw e (
      record {
        current = (same_iff version r.resource_version).0 same_version;
        resources = resources;
        deployments = deployments;
      },
      record { projects = kept.projects; apps = kept.apps; maintenance = kept.maintenance },
    )

-- There is no resource, and the Deployment is as the server applies what the mutation makes of it.
pub record IsApplied (calls : Calls) (p : Project) (a : App)
    (mutate : Deployment → Result OperationFailure Deployment) (before after : ControlPlane)
    : Type 0 where
  pub d : Deployment
  pub mutated :
      mutate (deployment_or_new (find (app_key p a) (before.deployments p.cluster_id))) ≡ ok d
  pub deployments : after.deployments ≡ (put_deployment calls p a d before).deployments
  pub resources : after.resources ≡ before.resources

module _ (calls : Calls) (p : Project) (a : App) where
  -- One of the two, by whether there is a resource.
  abbrev pub IsChanged :
      Text
      → (AppResource → AppResource)
      → (Deployment → Result OperationFailure Deployment)
      → ControlPlane
      → ControlPlane
      → Type 0
  IsChanged version edit mutate before after =
      ((r : AppResource) × (find (app_key p a) (before.resources p.cluster_id) ≡ some r)
        × IsUpdated calls p a version edit r before after)
      ⊎ ((find (app_key p a) (before.resources p.cluster_id) ≡ none)
          × IsApplied calls p a mutate before after)

  abbrev Answers : Fetch AppResource → ControlPlane → Type 0
  Answers (found r) s = find (app_key p a) (s.resources p.cluster_id) ≡ some r
  Answers not_found s = find (app_key p a) (s.resources p.cluster_id) ≡ none
  Answers failed s = Unit

  resource_found-Answers :
      (fails : Bool) (s : ControlPlane) (o : Option AppResource)
      → find (app_key p a) (s.resources p.cluster_id) ≡ o
      → Answers (if fails then failed else resource_found o) s
  resource_found-Answers true s o h = tt
  resource_found-Answers false s none h = h
  resource_found-Answers false s (some r) h = h

  load_app_crd-Answers : (s : ControlPlane) → Answers (load_app_crd calls p a s) s
  unfolding load_app_crd
  load_app_crd-Answers s =
      resource_found-Answers calls.get_resource s (find (app_key p a) (s.resources p.cluster_id))
        refl

  change_found-succeeds :
      (version : Text) (edit : AppResource → AppResource)
      (mutate : Deployment → Result OperationFailure Deployment) (s : ControlPlane)
      (fetch : Fetch AppResource)
      → Answers fetch s
      → (change_found calls p a version edit mutate s fetch).1 ≡ none
      → IsChanged version edit mutate s (change_found calls p a version edit mutate s fetch).0
        × KeepsDatabase s (change_found calls p a version edit mutate s fetch).0
  change_found-succeeds version edit mutate s (found r) l h =
      let (updated, kept) = update_resource-succeeds calls p a version edit r s h in
      (inl (r, l, updated), kept)
  change_found-succeeds version edit mutate s not_found l h =
      let (d, mutated, e) = update_deployment-succeeds calls p a mutate s h in
      rw e (
        inr (l, record { d = d; mutated = mutated; deployments = refl; resources = refl }),
        record { projects = refl; apps = refl; maintenance = refl },
      )
  change_found-succeeds version edit mutate s failed l h = cc

  -- Events stand beside what is changed.
  after_event :
      (version : Text) (edit : AppResource → AppResource)
      (mutate : Deployment → Result OperationFailure Deployment) (input : EventInput)
      (s t : ControlPlane)
      → IsChanged version edit mutate s t × KeepsDatabase s t
      → IsChanged version edit mutate s (append_event calls input t).0
        × KeepsDatabase s (append_event calls input t).0
  after_event version edit mutate input s t (inl (r, l, u), k) =
      rw (append_event-state calls input t) (
        inl (
          r,
          l,
          record { current = u.current; resources = u.resources; deployments = u.deployments },
        ),
        record { projects = k.projects; apps = k.apps; maintenance = k.maintenance },
      )
  after_event version edit mutate input s t (inr (l, u), k) =
      rw (append_event-state calls input t) (
        inr (
          l,
          record {
            d = u.d;
            mutated = u.mutated;
            deployments = u.deployments;
            resources = u.resources;
          },
        ),
        record { projects = k.projects; apps = k.apps; maintenance = k.maintenance },
      )

-- A change that succeeds found the project and the app, and changed the resource or the Deployment.
pub record IsDone (calls : Calls) (project_id app_id version : Text)
    (edit : AppResource → AppResource) (mutate : Deployment → Result OperationFailure Deployment)
    (before after : ControlPlane) : Type 0 where
  pub p : Project
  pub a : App
  pub located : IsLocated project_id app_id p a before
  pub changed : IsChanged calls p a version edit mutate before after
  pub kept : KeepsDatabase before after

pub change_app-IsDone :
    (calls : Calls) (project_id app_id version : Text) (edit : AppResource → AppResource)
    (mutate : Deployment → Result OperationFailure Deployment) (event : Project → App → EventInput)
    (s : ControlPlane)
    → (change_app calls project_id app_id version edit mutate event s).1 ≡ none
    → IsDone calls project_id app_id version edit mutate s
        (change_app calls project_id app_id version edit mutate event s).0
unfolding change_app
change_app-IsDone calls project_id app_id version edit mutate event s h =
    let step : Project × App → ControlPlane × Option OperationFailure =
      λ pa. change_found calls pa.0 pa.1 version edit mutate s (load_app_crd calls pa.0 pa.1 s) in
    let next : Project × App → ControlPlane × Option OperationFailure =
      λ pa. and_then (step pa) (λ t. append_event calls (event pa.0 pa.1) t) in
    let ((p, a), at, goes) = on_ok-succeeds (locate calls project_id app_id s) s next h in
    let (done, appended) =
      and_then-succeeds (step (p, a)) (λ t. append_event calls (event p a) t)
        (ap (λ (r : ControlPlane × Option OperationFailure). r.1) (sym goes) ∙ h) in
    let (changed, kept) = after_event calls p a version edit mutate (event p a) s (step (p, a)).0 (
      change_found-succeeds calls p a version edit mutate s (load_app_crd calls p a s)
        (load_app_crd-Answers calls p a s) done) in
    rw (goes, appended)
      (record {
        p = p;
        a = a;
        located = locate-IsLocated calls project_id app_id p a s at;
        changed = changed;
        kept = kept;
      })
