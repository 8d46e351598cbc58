-- ===== src/AppReconciler/Runs.antt =====
-- What a reconcile of an app leaves on the server, and what it does to the other apps.
use kube_op.Prelude.{
  ◌≡◌, refl, ap, sym, subst, ◌∙◌, String, Bool, true, false, Option, none, some, if◌then◌else◌,
  arith,
}
use kube_op.Text.{Text}
use kube_op.Text.Equality.{same_refl}
use kube_op.StringMap.{lookup, get}
use kube_op.Api.{App}
use kube_op.Cluster.{Key}
use kube_op.KeyMap.{KeyMap, same_key, find, put, find-put, same_key_refl, same_key_iff}
use kube_op.AppReconciler.{
  Kubernetes, DesiredDeployment, Faults, Failure, written, and_then, reconcile_found, status_failed,
  Server, AppStatus, AppObject, app_key, managed_by, build_desired_resources, owned_by,
  is_managed_in, prune_workload, reconcile_workload, new_status, update_status, reconcile_app,
  reconcile,
}
use kube_op.AppReconciler.Pruning.{
  has_foreign, find-prune_workload, find-has_foreign, find_unless_foreign-put,
}

-- Statuses that compare as the same are the same.
abbrev pub ComparesStatus : {D C : Type 0} → Kubernetes D C → Type 0
ComparesStatus {C} kube = (s t : AppStatus C) → kube.same_status s t ≡ true → s ≡ t

-- A label that is applied is there afterwards.
abbrev pub AppliesLabels : {D C : Type 0} → Kubernetes D C → Type 0
AppliesLabels {D} kube =
    (old : Option D) (d : DesiredDeployment) (key : String) (v : Text)
    → lookup key d.labels ≡ some v
    → get (some (kube.labels_of (kube.applied old d))) key ≡ v

-- A step that may be skipped, may fail, or is made.
made_unless_same :
    {A : Type 0} (skip fails : Bool) (old new : A) (f : Failure)
    → (skip ≡ true → old ≡ new)
    → (written skip fails old new f).1 ≡ none
    → (written skip fails old new f).0 ≡ new
made_unless_same true fails old new f h e = h refl
made_unless_same false true old new f h e = cc
made_unless_same false false old new f h e = refl

-- A run that stops at a failure succeeds only if there is none, and then goes on.
goes_on_unless :
    {A : Type 0} (failure : Option Failure) (stopped : A) (next : A × Option Failure)
    → (and_then failure stopped next).1 ≡ none
    → (failure ≡ none) × (and_then failure stopped next ≡ next)
goes_on_unless none stopped next h = (refl, refl)
goes_on_unless (some f) stopped next h = cc

module _ {D C : Type 0} (kube : Kubernetes D C) (faults : Faults) where
  -- What the server holds by a key once the app `a` is reconciled: the app's own Deployment as
  -- applied, no other managed one in its namespace, and every other one as before.
  abbrev pub deployed : App → KeyMap D → Key → Option D
  deployed a deployments key =
      if same_key (app_key a) key
      then some
          (kube.applied (find (app_key a) deployments) (owned_by a (build_desired_resources a)))
      else if has_foreign kube faults a.meta.namespace (app_key a) deployments key
      then none
      else find key deployments

  find-pruned :
      (a : App) (new : D) (deployments : KeyMap D) (key : Key)
      → (prune_workload kube faults a.meta.namespace
          (app_key a)
          (put (app_key a) new deployments)).1
        ≡ none
      → find key
          (prune_workload kube faults a.meta.namespace
            (app_key a)
            (put (app_key a) new deployments)).0
        ≡ (if same_key (app_key a) key
            then some new
            else if has_foreign kube faults a.meta.namespace (app_key a) deployments key
            then none
            else find key deployments)
  find-pruned a new deployments key h =
      find-prune_workload kube faults a.meta.namespace (app_key a) (put (app_key a) new deployments)
        key h
      ∙ find_unless_foreign-put kube faults a.meta.namespace (app_key a) new deployments key

  find-reconcile_workload :
      (a : App) (deployments : KeyMap D) (key : Key)
      → (reconcile_workload kube faults a deployments).1 ≡ none
      → find key (reconcile_workload kube faults a deployments).0 ≡ deployed a deployments key
  unfolding reconcile_workload
  find-reconcile_workload a deployments key h = ground (
    arith,
    find-pruned a
        (kube.applied (find (app_key a) deployments) (owned_by a (build_desired_resources a)))
        deployments key,
  )

  update_status-status :
      ComparesStatus kube
      → (o : AppObject C) → (update_status kube faults o).1 ≡ none
      → (update_status kube faults o).0 ≡ record o { status = new_status kube faults o }
  unfolding update_status
  update_status-status compares o =
      made_unless_same (kube.same_status o.status (new_status kube faults o)) faults.update_status o
        (record o { status = new_status kube faults o }) status_failed
        (λ e. ap (λ st. record o { status = st }) (compares o.status (new_status kube faults o) e))

  -- What a successful run leaves of the server `s`: the Deployments as `deployed` says, and the app
  -- with its new status.
  pub record IsDeployed (o : AppObject C) (s after : Server D C) : Type 0 where
    pub deployments : (key : Key) → find key after.deployments ≡ deployed o.app s.deployments key
    pub status :
        find (app_key o.app) after.apps ≡ some (record o { status = new_status kube faults o })

  reconcile_app-IsDeployed :
      ComparesStatus kube
      → (o : AppObject C) (s : Server D C) → (reconcile_app kube faults o s).1 ≡ none
      → IsDeployed o s (reconcile_app kube faults o s).0
  unfolding reconcile_app
  reconcile_app-IsDeployed compares o s h =
      let (worked, went_on) =
        goes_on_unless (reconcile_workload kube faults o.app s.deployments).1
          (record s { deployments = (reconcile_workload kube faults o.app s.deployments).0 })
          (
            record {
              deployments = (reconcile_workload kube faults o.app s.deployments).0;
              apps = put (app_key o.app) (update_status kube faults o).0 s.apps;
            },
            (update_status kube faults o).1,
          )
          h in
      let stored = update_status-status compares o (ap (λ r. r.1) (sym went_on) ∙ h) in
      record {
        deployments = λ key.
            ap (λ r. find key r.0.deployments) went_on
            ∙ find-reconcile_workload o.app s.deployments key worked;
        status =
            ap (λ r. find (app_key o.app) r.0.apps) went_on
            ∙ find-put (app_key o.app) (app_key o.app) (update_status kube faults o).0 s.apps
            ∙ ap
                (λ b.
                  if b then some (update_status kube faults o).0 else find (app_key o.app) s.apps)
                (same_key_refl (app_key o.app))
            ∙ ap (λ x. some x) stored;
      }

-- A reconcile that returns no error, by the steps of the code.
pub reconcile-IsDeployed :
    {D C : Type 0} (kube : Kubernetes D C) (faults : Faults) (fetch_fails : Bool) (key : Key)
    (o : AppObject C) (s : Server D C)
    → ComparesStatus kube
    → find key s.apps ≡ some o
    → (reconcile kube faults fetch_fails key s).1 ≡ none
    → IsDeployed kube faults o s (reconcile kube faults fetch_fails key s).0
unfolding reconcile reconcile_found
reconcile-IsDeployed kube faults true key o s compares f h = cc
reconcile-IsDeployed {D} {C} kube faults false key o s compares f h =
    let run = λ (f : Option (AppObject C)). reconcile_found kube faults f s in
    let done =
      reconcile_app-IsDeployed kube faults compares o s (ap (λ f. (run f).1) (sym f) ∙ h) in
    subst (λ r. IsDeployed kube faults o s r.0) (ap run (sym f)) done

module _ {D C : Type 0} (kube : Kubernetes D C) (faults : Faults) where
  -- An applied Deployment is among those that the controller lists in its namespace.
  applied-is_managed_in :
      AppliesLabels kube
      → (a : App) (old : Option D)
      → is_managed_in kube faults a.meta.namespace
          (app_key a)
          (kube.applied old (owned_by a (build_desired_resources a)))
        ≡ true
  unfolding is_managed_in
  applied-is_managed_in applies a old =
      let label =
        applies old (owned_by a (build_desired_resources a)) "app.kubernetes.io/managed-by"
          managed_by (unfold build_desired_resources lookup in refl) in
      rw (label, same_refl a.meta.namespace, same_refl managed_by) refl

  -- If applied labels are there afterwards, then of two apps of different names in one namespace,
  -- reconciled one after the other with success, the second removes the Deployment of the first.
  pub reconcile_workload-reconcile_workload :
      AppliesLabels kube
      → (a b : App) (deployments : KeyMap D) → a.meta.namespace ≡ b.meta.namespace
      → same_key (app_key a) (app_key b) ≡ false
      → (reconcile_workload kube faults b deployments).1 ≡ none
      → (reconcile_workload kube faults a (reconcile_workload kube faults b deployments).0).1 ≡ none
      → find
          (app_key b)
          (reconcile_workload kube faults a (reconcile_workload kube faults b deployments).0).0
        ≡ none
  reconcile_workload-reconcile_workload applies a b deployments e n first second =
      let between = (reconcile_workload kube faults b deployments).0 in
      let new =
        kube.applied (find (app_key b) deployments) (owned_by b (build_desired_resources b)) in
      let own : find (app_key b) between ≡ some new =
        find-reconcile_workload kube faults b deployments (app_key b) first
        ∙ ap
            (λ c.
              if c
              then some new
              else if has_foreign kube faults b.meta.namespace (app_key b) deployments (app_key b)
              then none
              else find (app_key b) deployments)
            (same_key_refl (app_key b)) in
      let managed : is_managed_in kube faults a.meta.namespace (app_key b) new ≡ true =
        ap (λ ns. is_managed_in kube faults ns (app_key b) new) e
        ∙ applied-is_managed_in applies b (find (app_key b) deployments) in
      let foreign =
        find-has_foreign kube faults a.meta.namespace (app_key a) between (app_key b) new own
          managed
          (ground
            (arith, same_key_iff (app_key a) (app_key b), same_key_iff (app_key b) (app_key a))) in
      find-reconcile_workload kube faults a between (app_key b) second ∙ rw (n, foreign) refl
