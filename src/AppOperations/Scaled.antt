-- ===== src/AppOperations/Scaled.antt =====
-- The replicas of an app, before and after ScaleApp.
use kube_op.Prelude.{
  ℕ, ◌≡◌, refl, ap, sym, ◌∙◌, false, ◌&&◌, inl, inr, Option, none, some, Result, ok,
  and_then-succeeds, Bool-cases,
}
use kube_op.Text.{Text, same}
use kube_op.Text.Equality.{same_iff, same_refl}
use kube_op.Cluster.{Key}
use kube_op.KeyMap.{KeyMap, same_key, same_key_refl, find, put, find-put}
use kube_op.AppOperations.{
  Project, App, Deployment, AppResource, ControlPlane, Calls, OperationFailure, in_cluster, app_key,
  guard, deployment_or_new,
}
use kube_op.AppOperations.Changes.{change_app, scaled_event, scale_app}
use kube_op.AppOperations.Outcomes.{IsLocated}
use kube_op.AppOperations.Successes.{IsUpdated, IsApplied, IsDone, change_app-IsDone}

-- The replicas that an app asks for: those of its resource, if there is one, else those of its Deployment.
abbrev pub replicas_in : Option AppResource → Option Deployment → Option ℕ
replicas_in (some r) o = r.replicas
replicas_in none (some d) = d.replicas
replicas_in none none = none

abbrev pub replicas_of : Project → App → ControlPlane → Option ℕ
replicas_of p a s =
    replicas_in (find (app_key p a) (s.resources p.cluster_id))
      (find (app_key p a) (s.deployments p.cluster_id))

-- The server stores the replicas that it is given.
pub record StoresReplicas (calls : Calls) : Type 0 where
  pub applied :
      (old : Option Deployment) (d : Deployment) → (calls.applied old d).replicas ≡ d.replicas
  pub updated : (stored r : AppResource) → (calls.updated stored r).replicas ≡ r.replicas

module _ {V : Type 0} (cluster : Text) (key : Key) (v : V) (objects : Text → KeyMap V) where
  abbrev pub placed : Text → KeyMap V
  placed = in_cluster cluster (put key v (objects cluster)) objects

  pub find-placed : find key (placed cluster) ≡ some v
  find-placed =
      rw (same_refl cluster) (find-put key key v (objects cluster) ∙ rw (same_key_refl key) refl)

  pub find-placed_else :
      (other : Text) (k : Key)
      → (same cluster other && same_key key k) ≡ false
      → find k (placed other) ≡ find k (objects other)
  find-placed_else other k h = elim (Bool-cases (same cluster other)) [
    | inl e ↦ rw e (
        find-put key k v (objects cluster)
        ∙ rw (ap (λ b. b && same_key key k) (sym e) ∙ h)
            (ap (λ c. find k (objects c)) ((same_iff cluster other).0 e)))
    | inr e ↦ rw e refl
  ]

-- Every object by another name, or in another namespace or cluster, is as before.
abbrev pub SparesOthers : Text → Key → ControlPlane → ControlPlane → Type 0
SparesOthers cluster key before after =
    (other : Text) (k : Key)
    → (same cluster other && same_key key k) ≡ false
    → (find k (after.deployments other) ≡ find k (before.deployments other))
      × (find k (after.resources other) ≡ find k (before.resources other))

ok-injective :
    (r : Result OperationFailure Deployment) (x y : Deployment) → r ≡ ok x → r ≡ ok y → x ≡ y
ok-injective r x y h k = cc

module _ (calls : Calls) (p : Project) (a : App) (version : Text) (replicas : ℕ)
    (before after : ControlPlane) where
  abbrev scaled_resource : AppResource → AppResource
  scaled_resource r = record r { replicas = some replicas }

  abbrev scaled_deployment : Deployment → Result OperationFailure Deployment
  scaled_deployment d = ok (record d { replicas = some replicas })

  replicas_of-updated :
      (r : AppResource)
      → StoresReplicas calls
      → IsUpdated calls p a version scaled_resource r before after
      → (replicas_of p a after ≡ some replicas)
        × SparesOthers p.cluster_id (app_key p a) before after
  replicas_of-updated r stores u =
      let new = calls.updated r (scaled_resource r) in
      (
        rw (u.resources, find-placed p.cluster_id (app_key p a) new before.resources)
            (stores.updated r (scaled_resource r)),
        λ other k h. (
          ap (λ objects. find k (objects other)) u.deployments,
          ap (λ objects. find k (objects other)) u.resources
              ∙ find-placed_else p.cluster_id (app_key p a) new before.resources other k h,
        ),
      )

  replicas_of-applied :
      StoresReplicas calls
      → find (app_key p a) (before.resources p.cluster_id) ≡ none
      → IsApplied calls p a scaled_deployment before after
      → (replicas_of p a after ≡ some replicas)
        × SparesOthers p.cluster_id (app_key p a) before after
  replicas_of-applied stores absent u =
      let old = find (app_key p a) (before.deployments p.cluster_id) in
      let new = calls.applied old u.d in
      (
        rw
            (
              u.resources,
              absent,
              u.deployments,
              find-placed p.cluster_id (app_key p a) new before.deployments,
            )
            (stores.applied old u.d
              ∙ ap (λ (d : Deployment). d.replicas)
                  (ok-injective (scaled_deployment (deployment_or_new old)) u.d
                    (record (deployment_or_new old) { replicas = some replicas }) u.mutated refl)),
        λ other k h. (
          ap (λ objects. find k (objects other)) u.deployments
              ∙ find-placed_else p.cluster_id (app_key p a) new before.deployments other k h,
          ap (λ objects. find k (objects other)) u.resources,
        ),
      )

-- The app is the project's, it asks for the replicas, and every other object is as before.
pub record IsScaled (project_id app_id : Text) (n : ℕ) (before after : ControlPlane) : Type 0 where
  pub p : Project
  pub a : App
  pub located : IsLocated project_id app_id p a before
  pub replicas : replicas_of p a after ≡ some n
  pub spared : SparesOthers p.cluster_id (app_key p a) before after

changed-IsScaled :
    (calls : Calls) (project_id app_id version : Text) (replicas : ℕ) (before after : ControlPlane)
    → StoresReplicas calls
    → IsDone calls project_id app_id version
        (λ r. record r { replicas = some replicas })
        (λ d. ok (record d { replicas = some replicas }))
        before
        after
    → IsScaled project_id app_id replicas before after
changed-IsScaled calls project_id app_id version n before after stores done =
    let result : (replicas_of done.p done.a after ≡ some n)
        × SparesOthers done.p.cluster_id (app_key done.p done.a) before after =
      elim done.changed [
        | inl (r, l, u) ↦ replicas_of-updated calls done.p done.a version n before after r stores u
        | inr (l, u) ↦ replicas_of-applied calls done.p done.a version n before after stores l u
      ] in
    record {
      p = done.p;
      a = done.a;
      located = done.located;
      replicas = result.0;
      spared = result.1;
    }

pub scale_app-IsDone :
    (calls : Calls) (project_id app_id version : Text) (replicas : ℕ) (s : ControlPlane)
    → (scale_app calls project_id app_id version replicas s).1 ≡ none
    → IsDone calls project_id app_id version
        (λ r. record r { replicas = some replicas })
        (λ d. ok (record d { replicas = some replicas }))
        s
        (scale_app calls project_id app_id version replicas s).0
unfolding scale_app guard
scale_app-IsDone calls project_id app_id version n s h =
    let change : ControlPlane → ControlPlane × Option OperationFailure = λ t.
      change_app calls project_id app_id version (λ r. record r { replicas = some n })
        (λ d. ok (record d { replicas = some n })) (λ p a. scaled_event project_id app_id n p a)
        t in
    let (allowed, goes) = and_then-succeeds (guard calls s) change h in
    rw goes (
      change_app-IsDone calls project_id app_id version (λ r. record r { replicas = some n })
        (λ d. ok (record d { replicas = some n })) (λ p a. scaled_event project_id app_id n p a) s
        (ap (λ (r : ControlPlane × Option OperationFailure). r.1) (sym goes) ∙ h))

-- If the server stores the replicas that it is given, then a scale that returns no error found the
-- project and an app of it, after it the app asks for these replicas, in its resource if there is
-- one, else in its Deployment, and every other Deployment and resource is as before.
pub scale_app-IsScaled :
    (calls : Calls) (project_id app_id version : Text) (replicas : ℕ) (s : ControlPlane)
    → StoresReplicas calls
    → (scale_app calls project_id app_id version replicas s).1 ≡ none
    → IsScaled project_id app_id replicas s (scale_app calls project_id app_id version replicas s).0
scale_app-IsScaled calls project_id app_id version n s stores h =
    changed-IsScaled calls project_id app_id version n s
      (scale_app calls project_id app_id version n s).0 stores
      (scale_app-IsDone calls project_id app_id version n s h)
