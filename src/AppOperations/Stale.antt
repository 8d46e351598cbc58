-- ===== src/AppOperations/Stale.antt =====
-- Two changes of one App resource that name the same version.
use kube_op.Prelude.{
  some-injective, ℕ, ◌≡◌, ◌≢◌, ap, sym, subst, ◌∙◌, inl, inr, none, some, ok, arith,
}
use kube_op.Text.{Text}
use kube_op.KeyMap.{find}
use kube_op.TextMap
use kube_op.AppOperations.{Project, App, AppResource, ControlPlane, Calls, app_key}
use kube_op.AppOperations.Changes.{scale_app, update_app_image}
use kube_op.AppOperations.Outcomes.{IsLocated}
use kube_op.AppOperations.Successes.{IsDone}
use kube_op.AppOperations.Successes.{IsChanged}
use kube_op.AppOperations.Scaled.{find-placed, scale_app-IsDone}
use kube_op.AppOperations.Versions.{
  IsRefused, IsLocated-unique, IsElsewhere, scale_app-IsRefused, update_app_image-IsRefused,
}

-- The server gives a new version to a resource whose replicas an update changes; an update that
-- changes nothing may keep the version.
abbrev pub GivesVersions : Calls → Type 0
GivesVersions calls =
    (stored r : AppResource)
    → r.replicas ≢ stored.replicas
    → (calls.updated stored r).resource_version ≢ stored.resource_version

changed_version :
    (calls : Calls) (version : Text) (replicas : ℕ) (p : Project) (a : App) (r : AppResource)
    (s after : ControlPlane)
    → GivesVersions calls
    → find (app_key p a) (s.resources p.cluster_id) ≡ some r
    → r.replicas ≢ some replicas
    → IsChanged calls p a version
        (λ r. record r { replicas = some replicas })
        (λ d. ok (record d { replicas = some replicas }))
        s
        after
    → (r : AppResource) × (find (app_key p a) (after.resources p.cluster_id) ≡ some r)
      × (version ≢ r.resource_version)
changed_version calls version n p a r s after gives there other (inl (old, l, u)) =
    let edited : AppResource = record old { replicas = some n } in
    let new = calls.updated old edited in
    let one : r ≡ old = some-injective r old (sym there ∙ l) in
    (
      new,
      rw u.resources (find-placed p.cluster_id (app_key p a) new s.resources),
      λ e.
          gives old edited (λ k. other (ap (λ (x : AppResource). x.replicas) one ∙ sym k))
            (sym e ∙ u.current),
    )
changed_version calls version n p a r s after gives there other (inr (l, u)) =
    absurd (ground (arith, there, l))

scaled-IsElsewhere :
    (calls later : Calls) (project_id app_id version : Text) (replicas : ℕ) (p : Project) (a : App)
    (r : AppResource) (s after : ControlPlane)
    → GivesVersions calls
    → IsLocated project_id app_id p a s
    → find (app_key p a) (s.resources p.cluster_id) ≡ some r
    → r.replicas ≢ some replicas
    → IsDone calls project_id app_id version
        (λ r. record r { replicas = some replicas })
        (λ d. ok (record d { replicas = some replicas }))
        s
        after
    → IsElsewhere later project_id app_id version p a after
scaled-IsElsewhere calls later project_id app_id version n p a r s after gives one there other
      done =
    let (same_project, same_app) = IsLocated-unique done.located one in
    let changes : Project → App → Type 0 = λ q b.
      IsChanged calls q b version (λ r. record r { replicas = some n })
        (λ d. ok (record d { replicas = some n })) s after in
    let changed =
      subst (λ b. changes p b) same_app (subst (λ q. changes q done.a) same_project done.changed) in
    (
      record {
        project = ap (λ m. TextMap.find project_id m) done.kept.projects ∙ one.project;
        app = ap (λ m. TextMap.find app_id m) done.kept.apps ∙ one.app;
        owner = one.owner;
      },
      changed_version calls version n p a r s after gives there other changed,
    )

-- If the server gives a new version to a resource whose replicas an update changes, then after a
-- scale that returns no error, of an app whose resource asked for another number of replicas, a
-- scale and an image update that name the same version again are refused and change nothing,
-- whatever calls fail.
pub scale_app-scale_app :
    (calls later : Calls) (project_id app_id version image : Text) (replicas again : ℕ)
    (p : Project) (a : App) (r : AppResource) (s : ControlPlane)
    → GivesVersions calls
    → IsLocated project_id app_id p a s
    → find (app_key p a) (s.resources p.cluster_id) ≡ some r
    → r.replicas ≢ some replicas
    → (scale_app calls project_id app_id version replicas s).1 ≡ none
    → let after = (scale_app calls project_id app_id version replicas s).0 in
      IsRefused after (scale_app later project_id app_id version again after)
      × IsRefused after (update_app_image later project_id app_id version image after)
scale_app-scale_app calls later project_id app_id version image n again p a r s gives one there
      other h =
    let after = (scale_app calls project_id app_id version n s).0 in
    let elsewhere =
      scaled-IsElsewhere calls later project_id app_id version n p a r s after gives one there other
        (scale_app-IsDone calls project_id app_id version n s h) in
    (
      scale_app-IsRefused later project_id app_id version p a after again elsewhere,
      update_app_image-IsRefused later project_id app_id version p a after image elsewhere,
    )
