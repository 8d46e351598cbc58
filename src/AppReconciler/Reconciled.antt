-- ===== src/AppReconciler/Reconciled.antt =====
-- The server after a reconcile of an app, in words of its own.
use kube_op.Prelude.{
  ℕ, ◌≡◌, ◌≢◌, refl, ap, sym, ◌∙◌, Bool, true, false, inl, inr, ◌⊎◌, List, [], ◌∷◌, ◌++◌, Option,
  none, some, if◌then◌else◌, arith,
}
use kube_op.Text.{Text, text, is_empty}
use kube_op.Text.Equality.{same_iff, is_empty_iff}
use kube_op.StringMap.{lookup, get}
use kube_op.Api.{App, AppSource, AppServiceProfile}
use kube_op.Cluster.{Key}
use kube_op.KeyMap.{same_key, same_key_iff, same_key_refl, find}
use kube_op.AppReconciler.{
  Kubernetes, DesiredDeployment, Faults, Server, AppStatus, AppObject, resolve_app_image, head_port,
  app_port, build_desired_resources, owned_by, is_managed_in, new_status, reconcile,
}
use kube_op.AppReconciler.Pruning.{
  HasDistinctKeys, has_foreign-elsewhere, has_foreign_absent, has_foreign-unmanaged,
  find-has_foreign,
}
use kube_op.AppReconciler.Runs.{ComparesStatus, IsDeployed, reconcile-IsDeployed}

abbrev pub own_key : App → Key
own_key a = record { namespace = a.meta.namespace; name = a.meta.name }

-- The image of a source: its URL with its ref, if it has one; the placeholder if there is no URL.
abbrev pub placeholder : Text
placeholder = text "ghcr.io/vaheed/kubeop-operator-placeholder:latest"

abbrev pub IsImageOf : Option AppSource → Text → Type 0
IsImageOf none image = image ≡ placeholder
IsImageOf (some source) image =
    ((source.url ≡ []) × (image ≡ placeholder))
    ⊎ (((source.url ≢ []) × (source.ref ≡ []) × (image ≡ source.url))
        ⊎ ((source.url ≢ []) × (source.ref ≢ []) × (image ≡ source.url ++ (b':' ∷ source.ref))))

abbrev pub IsPortOf : Option AppServiceProfile → Option ℕ → Type 0
IsPortOf none port = port ≡ none
IsPortOf (some profile) port =
    ((profile.ports ≡ []) × (port ≡ none))
    ⊎ ((first : ℕ) × (rest : List ℕ) × (profile.ports ≡ first ∷ rest) × (port ≡ some first))

-- The Deployment that an app asks for.
pub record IsDesired (a : App) (d : DesiredDeployment) : Type 0 where
  pub key : d.key ≡ own_key a
  pub name_label : lookup "app.kubernetes.io/name" d.labels ≡ some a.meta.name
  pub managed_label : lookup "app.kubernetes.io/managed-by" d.labels ≡ some (text "kubeop-operator")
  pub image : IsImageOf a.spec.source d.image
  pub port : IsPortOf a.spec.service_profile d.container_port
  pub owner : d.owner ≡ some (own_key a)

-- The status that a reconciled app has: "Applied", of this generation, ready, with the revision
-- and the URL of its source; what the source leaves open is as before.
pub record IsApplied {C : Type 0} (o : AppObject C) (set : C) (st : AppStatus C) : Type 0 where
  pub sync : st.sync ≡ text "Applied"
  pub observed_generation : st.observed_generation ≡ o.generation
  pub conditions : st.conditions ≡ set
  pub sourceless :
      o.app.spec.source ≡ none → (st.revision ≡ o.status.revision) × (st.urls ≡ o.status.urls)
  pub revision : (source : AppSource) → o.app.spec.source ≡ some source → st.revision ≡ source.ref
  pub urls :
      (source : AppSource)
      → o.app.spec.source ≡ some source
      → ((source.url ≡ []) × (st.urls ≡ o.status.urls))
        ⊎ ((source.url ≢ []) × (st.urls ≡ source.url ∷ []))

resolve_app_image-IsImageOf : (o : Option AppSource) → IsImageOf o (resolve_app_image o)
unfolding resolve_app_image
resolve_app_image-IsImageOf none = refl
resolve_app_image-IsImageOf (some source) =
    ground (arith, is_empty_iff source.url, is_empty_iff source.ref)

ports-IsPortOf :
    (o : Option AppServiceProfile)
    → IsPortOf o (elim o [ none ↦ none | some profile ↦ head_port profile.ports ])
ports-IsPortOf none = refl
ports-IsPortOf (some profile) = from profile.ports refl
  where
    from :
        (ports : List ℕ) → profile.ports ≡ ports → IsPortOf (some profile) (head_port profile.ports)
    from [] e = inl (e, rw e refl)
    from (first ∷ rest) e = inr (first, rest, e, rw e refl)

app_port-IsPortOf : (a : App) → IsPortOf a.spec.service_profile (app_port a)
unfolding app_port
app_port-IsPortOf a = ports-IsPortOf a.spec.service_profile

build_desired_resources-IsDesired : (a : App) → IsDesired a (owned_by a (build_desired_resources a))
unfolding build_desired_resources lookup
build_desired_resources-IsDesired a = record {
  key = refl;
  name_label = refl;
  managed_label = refl;
  image = resolve_app_image-IsImageOf a.spec.source;
  port = app_port-IsPortOf a;
  owner = refl;
}

status_urls_cases :
    (source : AppSource) (urls : List Text)
    → ((source.url ≡ []) × ((if is_empty source.url then urls else source.url ∷ []) ≡ urls))
      ⊎ ((source.url ≢ [])
          × ((if is_empty source.url then urls else source.url ∷ []) ≡ source.url ∷ []))
status_urls_cases source urls = ground (arith, is_empty_iff source.url)

module _ {D C : Type 0} (kube : Kubernetes D C) (faults : Faults) where
  -- The label that the controller lists by.
  abbrev pub IsManaged : D → Type 0
  IsManaged d =
      get (some (kube.labels_of d)) "app.kubernetes.io/managed-by" ≡ text "kubeop-operator"

  abbrev ready : AppObject C → C
  ready o = kube.set_status_condition o.status.conditions (record {
    type = text "Ready";
    status = true;
    reason = text "Reconciled";
    message = text "App reconciliation completed successfully";
    observed_generation = o.generation;
  })

  new_status-IsApplied : (o : AppObject C) → IsApplied o (ready o) (new_status kube faults o)
  unfolding new_status
  new_status-IsApplied o = record {
    sync = refl;
    observed_generation = refl;
    conditions = refl;
    sourceless = λ e. (rw e refl, rw e refl);
    revision = λ source e. rw e refl;
    urls = λ source e. rw e (status_urls_cases source o.status.urls);
  }

  -- What a reconcile of the app leaves of the server: its own Deployment as the server applies the
  -- desired one, no other managed one in its namespace, every other Deployment as it was, and the
  -- app with its status.
  pub record IsReconciled (o : AppObject C) (before after : Server D C) : Type 0 where
    pub d : DesiredDeployment
    pub st : AppStatus C
    pub desired : IsDesired o.app d
    pub own :
        find (own_key o.app) after.deployments
        ≡ some (kube.applied (find (own_key o.app) before.deployments) d)
    pub pruned :
        (key : Key) (old : D)
        → key.namespace ≡ o.app.meta.namespace
        → key ≢ own_key o.app
        → find key before.deployments ≡ some old
        → IsManaged old
        → find key after.deployments ≡ none
    pub unmanaged :
        (key : Key) (old : D)
        → key ≢ own_key o.app
        → find key before.deployments ≡ some old
        → ¬ IsManaged old
        → find key after.deployments ≡ some old
    pub elsewhere :
        (key : Key)
        → key.namespace ≢ o.app.meta.namespace
        → find key after.deployments ≡ find key before.deployments
    pub absent :
        (key : Key)
        → key ≢ own_key o.app
        → find key before.deployments ≡ none
        → find key after.deployments ≡ none
    pub status : IsApplied o (ready o) st
    pub stored : find (own_key o.app) after.apps ≡ some (record o { status = st })

  differ_key : (a b : Key) → a ≢ b → same_key a b ≡ false
  differ_key a b h = ground (arith, same_key_iff a b, h)

  IsDeployed→IsReconciled :
      (o : AppObject C) (before after : Server D C)
      → HasDistinctKeys before.deployments
      → IsDeployed kube faults o before after
      → IsReconciled o before after
  unfolding is_managed_in
  IsDeployed→IsReconciled o before after distinct run =
      let own = own_key o.app in
      let ns = o.app.meta.namespace in
      let m = before.deployments in
      record {
        d = owned_by o.app (build_desired_resources o.app);
        st = new_status kube faults o;
        desired = build_desired_resources-IsDesired o.app;
        own = run.deployments own ∙ rw (same_key_refl own) refl;
        pruned = λ key old in_ns other found managed.
            let foreign =
              find-has_foreign kube faults ns own m key old found
                (rw ((same_iff key.namespace ns).1 in_ns, (same_iff _ _).1 managed) refl)
                (differ_key key own other) in
            run.deployments key ∙ rw (differ_key own key (λ e. other (sym e)), foreign) refl;
        unmanaged = λ key old other found not_managed.
            let label = get (some (kube.labels_of old)) "app.kubernetes.io/managed-by" in
            let kept =
              has_foreign-unmanaged kube faults ns own m key old distinct found
                (ground (arith, same_iff label (text "kubeop-operator"), not_managed)) in
            run.deployments key ∙ rw (differ_key own key (λ e. other (sym e)), kept) found;
        elsewhere = λ key away.
            run.deployments key
            ∙ rw
                (
                  differ_key own key (λ e. away (ap (λ (k : Key). k.namespace) (sym e))),
                  has_foreign-elsewhere kube faults ns own m key
                      (ground (arith, same_iff key.namespace ns, away)),
                )
                refl;
        absent = λ key other missing.
            run.deployments key
            ∙ rw
                (
                  differ_key own key (λ e. other (sym e)),
                  has_foreign_absent kube faults ns own m key missing,
                )
                missing;
        status = new_status-IsApplied o;
        stored = run.status;
      }

-- If statuses that compare as the same are the same and the server has one Deployment by each name,
-- then a reconcile that returns no error for an app that is stored leaves the app's own Deployment
-- as the server applies the desired one (labels, image, port and owner from the app), removes every
-- other Deployment of the app's namespace with the operator's label, and leaves every Deployment
-- without that label or of another namespace as it was; the app's status is "Applied" and ready, of
-- its generation, with the revision and the URL of its source.
pub reconcile-IsReconciled :
    {D C : Type 0} (kube : Kubernetes D C) (faults : Faults) (fetch_fails : Bool) (key : Key)
    (o : AppObject C) (s : Server D C)
    → ComparesStatus kube
    → HasDistinctKeys s.deployments
    → find key s.apps ≡ some o
    → (reconcile kube faults fetch_fails key s).1 ≡ none
    → IsReconciled kube faults o s (reconcile kube faults fetch_fails key s).0
reconcile-IsReconciled kube faults fetch_fails key o s compares distinct stored h =
    IsDeployed→IsReconciled kube faults o s (reconcile kube faults fetch_fails key s).0 distinct
      (reconcile-IsDeployed kube faults fetch_fails key o s compares stored h)
