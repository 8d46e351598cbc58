-- ===== src/AppOperations/Versions.antt =====
-- Changes of an App resource that name another version than its own.
use kube_op.Prelude.{
  ℕ, ◌≡◌, ◌≢◌, refl, sym, inl, inr, Option, none, some, Result, ok, err, and_then, on_ok,
  Bool-cases, arith,
}
use kube_op.Text.{Text, is_empty, same, trim_space}
use kube_op.Text.Equality.{same_iff}
use kube_op.KeyMap.{find}
use kube_op.Events.{EventInput}
use kube_op.AppOperations.{
  Project, App, Deployment, AppResource, ControlPlane, Calls, OperationFailure, resource_failed,
  version_required, version_mismatch, image_required, app_key, locate, guard, maintenance_failure,
  append_event,
}
use kube_op.Maintenance.{ensure_maintenance_allows}
use kube_op.AppOperations.Changes.{
  update_resource, load_app_crd, change_found, change_app, scaled_event, scale_app, image_event,
  with_image, update_trimmed_image, update_app_image,
}
use kube_op.AppOperations.Outcomes.{IsLocated, locate-IsLocated}

-- An error, and nothing changes.
abbrev pub IsRefused : ControlPlane → ControlPlane × Option OperationFailure → Type 0
IsRefused s r = (f : OperationFailure) × (r ≡ (s, some f))

update_resource-IsRefused :
    (calls : Calls) (p : Project) (a : App) (version : Text) (edit : AppResource → AppResource)
    (r : AppResource) (s : ControlPlane)
    → version ≢ r.resource_version
    → IsRefused s (update_resource calls p a version edit r s)
unfolding update_resource
update_resource-IsRefused calls p a version edit r s differs =
    elim (Bool-cases (is_empty (trim_space version))) [
      | inl e ↦ rw e (version_required, refl)
      | inr e ↦ elim (Bool-cases (same version r.resource_version)) [
        | inl f ↦ absurd (differs ((same_iff version r.resource_version).0 f))
        | inr f ↦ rw (e, f) (version_mismatch r.resource_version, refl)
      ]
    ]

and_then-IsRefused :
    (s : ControlPlane) (r : ControlPlane × Option OperationFailure)
    (next : ControlPlane → ControlPlane × Option OperationFailure)
    → IsRefused s r
    → IsRefused s (and_then r next)
and_then-IsRefused s r next (f, e) = rw e (f, refl)

pub IsLocated-unique :
    {project_id app_id : Text} {p q : Project} {a b : App} {s : ControlPlane}
    → IsLocated project_id app_id p a s
    → IsLocated project_id app_id q b s
    → (p ≡ q) × (a ≡ b)
IsLocated-unique one other =
    (ground (arith, one.project, other.project), ground (arith, one.app, other.app))

module _ (calls : Calls) (project_id app_id version : Text) (edit : AppResource → AppResource)
    (mutate : Deployment → Result OperationFailure Deployment) (event : Project → App → EventInput)
    (s : ControlPlane) (p : Project) (a : App) (r : AppResource) where
  change_found-IsRefused :
      find (app_key p a) (s.resources p.cluster_id) ≡ some r
      → version ≢ r.resource_version
      → IsRefused s (change_found calls p a version edit mutate s (load_app_crd calls p a s))
  unfolding load_app_crd update_resource
  change_found-IsRefused there differs = elim (Bool-cases calls.get_resource) [
    | inl e ↦ rw e (resource_failed, refl)
    | inr e ↦ rw (e, there) (update_resource-IsRefused calls p a version edit r s differs)
  ]

  located-IsRefused :
      (pa : Project × App)
      → IsLocated project_id app_id p a s
      → IsLocated project_id app_id pa.0 pa.1 s
      → find (app_key p a) (s.resources p.cluster_id) ≡ some r
      → version ≢ r.resource_version
      → IsRefused s (
          and_then
            (change_found calls pa.0 pa.1 version edit mutate s (load_app_crd calls pa.0 pa.1 s))
            (λ t. append_event calls (event pa.0 pa.1) t))
  located-IsRefused (q, b) one other there differs =
      let (same_project, same_app) = IsLocated-unique one other in
      rw (sym same_project, sym same_app)
        (and_then-IsRefused s
          (change_found calls p a version edit mutate s (load_app_crd calls p a s))
          (λ t. append_event calls (event p a) t) (change_found-IsRefused there differs))

  on_ok-IsRefused :
      (l : Result OperationFailure (Project × App))
      (next : Project × App → ControlPlane × Option OperationFailure)
      → ((pa : Project × App) → l ≡ ok pa → IsRefused s (next pa))
      → IsRefused s (on_ok l s next)
  on_ok-IsRefused (ok pa) next h = h pa refl
  on_ok-IsRefused (err f) next h = (f, refl)

  change_app-IsRefused :
      IsLocated project_id app_id p a s
      → find (app_key p a) (s.resources p.cluster_id) ≡ some r
      → version ≢ r.resource_version
      → IsRefused s (change_app calls project_id app_id version edit mutate event s)
  unfolding change_app
  change_app-IsRefused one there differs =
      on_ok-IsRefused (locate calls project_id app_id s)
        (λ (q, b).
          and_then (change_found calls q b version edit mutate s (load_app_crd calls q b s))
            (λ t. append_event calls (event q b) t))
        (λ pa at.
          located-IsRefused pa one (locate-IsLocated calls project_id app_id pa.0 pa.1 s at) there
            differs)

allowed-IsRefused :
    (o : Option OperationFailure) (s : ControlPlane)
    (next : ControlPlane → ControlPlane × Option OperationFailure)
    → IsRefused s (next s)
    → IsRefused s (and_then (s, o) next)
allowed-IsRefused none s next h = h
allowed-IsRefused (some f) s next h = (f, refl)

guarded-IsRefused :
    (calls : Calls) (s : ControlPlane)
    (next : ControlPlane → ControlPlane × Option OperationFailure)
    → IsRefused s (next s)
    → IsRefused s (and_then (guard calls s) next)
unfolding guard
guarded-IsRefused calls s next h =
    allowed-IsRefused
      (maintenance_failure (ensure_maintenance_allows calls.load_maintenance s.maintenance)) s next
      h

module _ (calls : Calls) (project_id app_id version : Text) (p : Project) (a : App)
    (s : ControlPlane) where
  -- The app has a resource at another version.
  abbrev pub IsElsewhere : Type 0
  IsElsewhere =
      IsLocated project_id app_id p a s
      × ((r : AppResource) × (find (app_key p a) (s.resources p.cluster_id) ≡ some r)
          × (version ≢ r.resource_version))

  pub scale_app-IsRefused :
      (replicas : ℕ)
      → IsElsewhere
      → IsRefused s (scale_app calls project_id app_id version replicas s)
  unfolding scale_app
  scale_app-IsRefused n (one, (r, there, differs)) =
      guarded-IsRefused calls s
        (λ t.
          change_app calls project_id app_id version (λ r. record r { replicas = some n })
            (λ d. ok (record d { replicas = some n })) (λ p a. scaled_event project_id app_id n p a)
            t)
        (change_app-IsRefused calls project_id app_id version (λ r. record r { replicas = some n })
          (λ d. ok (record d { replicas = some n })) (λ p a. scaled_event project_id app_id n p a) s
          p a r one there differs)

  pub update_app_image-IsRefused :
      (image : Text)
      → IsElsewhere
      → IsRefused s (update_app_image calls project_id app_id version image s)
  unfolding update_app_image
  update_app_image-IsRefused image (one, (r, there, differs)) =
      guarded-IsRefused calls s
        (λ t. update_trimmed_image calls project_id app_id version (trim_space image) t)
        (elim (Bool-cases (is_empty (trim_space image))) [
          | inl e ↦ rw e (image_required, refl)
          | inr e ↦ rw e (
              change_app-IsRefused calls project_id app_id version
                (λ r. record r { image = trim_space image })
                (λ d. ok (record d { containers = with_image (trim_space image) d.containers }))
                (λ p a. image_event project_id app_id (trim_space image) p a) s p a r one there
                differs)
        ])
