-- ===== src/UsageWriter/Loops.antt =====
-- What a run of the usage writer leaves: the statuses, the BillingUsages and its errors.
use kube_op.Prelude.{
  ℕ, ◌≡◌, refl, Bool, true, false, ◌↔◌, List, [], ◌∷◌, ◌++◌, Result, ok, err, if◌then◌else◌, arith,
  All, both_iff,
}
use kube_op.Text.{Text}
use kube_op.TextMap.{TextMap}
use kube_op.UsageWriter.{UsageSample, UsageAccumulator, BillingSubjectType, truncate_hour}
use kube_op.UsageWriter.Totals.{totals_of, Totals, no_totals, aggregate}
use kube_op.UsageWriter.Server.{
  Platform, Metered, AppName, BillingUsage, Faults, Failure, reported, upsert_billing_usage,
}
use kube_op.UsageWriter.Reconcile.{
  Server, Outcome, tenant_ref, project_ref, app_ref, metered_loop, app_loop, write_totals,
  reconcile, patch_fails, patch_failed,
}
use kube_op.UsageWriter.Snapshots.{upsert-failures_iff}

module _ {Q C : Type 0} (p : Platform Q C) (faults : Faults) (window : ℕ) where
  reported_iff : (fails : Bool) (f : Failure) → (reported p fails f ≡ []) ↔ (fails ≡ false)
  reported_iff fails f = ground arith

  -- No write for the subject fails.
  abbrev pub Writes : BillingSubjectType → Text → Type 0
  Writes subject ref =
      (faults.sync_usage subject ref ≡ false) × (faults.patch_usage subject ref ≡ false)

  abbrev pub WritesStatus : BillingSubjectType → Text → Type 0
  WritesStatus subject ref = (patch_fails p faults window subject ref ≡ false) × Writes subject ref

  module _ (subject : BillingSubjectType) (ref_of : Metered Q C → Text)
      (totals : TextMap (UsageAccumulator Q)) where
    metered_loop-failures_iff :
        (ms : List (Metered Q C)) (usages : TextMap (BillingUsage C))
        → ((metered_loop p faults window subject ref_of totals ms usages).2 ≡ [])
          ↔ All (λ m. WritesStatus subject (ref_of m)) ms
    unfolding metered_loop
    metered_loop-failures_iff [] usages = (λ h. tt, λ h. refl)
    metered_loop-failures_iff (m ∷ ms) usages =
        let own = totals_of p.quantities (ref_of m) totals in
        let (written, errs) = upsert_billing_usage p faults subject (ref_of m) own window usages in
        let status =
          reported_iff (patch_fails p faults window subject (ref_of m))
            (patch_failed p faults window subject (ref_of m)) in
        let upsert = upsert-failures_iff p window no_totals faults subject (ref_of m) own usages in
        let rest = metered_loop-failures_iff ms written in
        let tail = both_iff upsert (λ h. rest) in
        let whole = both_iff status (λ h. tail) in
        (λ h. let (a, (b, c)) = whole.0 h in ((a, b), c), λ ((a, b), c). whole.1 (a, (b, c)))

  app_loop-failures_iff :
      (totals : TextMap (UsageAccumulator Q)) (apps : List AppName)
      (usages : TextMap (BillingUsage C))
      → ((app_loop p faults window totals apps usages).1 ≡ [])
        ↔ All (λ a. Writes BillingSubjectType.app (app_ref a)) apps
  unfolding app_loop
  app_loop-failures_iff totals [] usages = (λ h. tt, λ h. refl)
  app_loop-failures_iff totals (a ∷ apps) usages =
      let own = totals_of p.quantities (app_ref a) totals in
      let (written, errs) =
        upsert_billing_usage p faults BillingSubjectType.app (app_ref a) own window usages in
      both_iff
        (upsert-failures_iff p window no_totals faults BillingSubjectType.app (app_ref a) own
          usages)
        (λ h. app_loop-failures_iff totals apps written)

-- No call of the run fails.
pub record Succeeds {Q C : Type 0} (p : Platform Q C) (faults : Faults) (window : ℕ)
    (s : Server Q C) : Type 0 where
  pub lists :
      (faults.list_tenants ≡ false) × (faults.list_projects ≡ false) × (faults.list_apps ≡ false)
  pub tenants :
      All (λ m. WritesStatus p faults window BillingSubjectType.tenant (tenant_ref m)) s.tenants
  pub projects :
      All (λ m. WritesStatus p faults window BillingSubjectType.project (project_ref m)) s.projects
  pub apps : All (λ a. Writes p faults window BillingSubjectType.app (app_ref a)) s.apps

module _ {Q C : Type 0} (p : Platform Q C) (faults : Faults) (window : ℕ) (totals : Totals Q)
    (s : Server Q C) where
  abbrev after_tenants : TextMap (BillingUsage C)
  after_tenants =
      (metered_loop p faults window BillingSubjectType.tenant tenant_ref totals.tenant_totals
        s.tenants s.usages).1

  abbrev after_projects : TextMap (BillingUsage C)
  after_projects =
      (metered_loop p faults window BillingSubjectType.project project_ref totals.project_totals
        s.projects after_tenants).1

  loops_iff :
      ((metered_loop p faults window BillingSubjectType.tenant tenant_ref totals.tenant_totals
            s.tenants s.usages).2
          ++ ((metered_loop p faults window BillingSubjectType.project project_ref
                totals.project_totals s.projects after_tenants).2
              ++ (app_loop p faults window totals.app_totals s.apps after_projects).1)
        ≡ [])
      ↔ (All (λ m. WritesStatus p faults window BillingSubjectType.tenant (tenant_ref m)) s.tenants
          × (All
                (λ m. WritesStatus p faults window BillingSubjectType.project (project_ref m))
                s.projects
              × All (λ a. Writes p faults window BillingSubjectType.app (app_ref a)) s.apps))
  loops_iff =
      both_iff
        (metered_loop-failures_iff p faults window BillingSubjectType.tenant tenant_ref
          totals.tenant_totals s.tenants s.usages)
        (λ h.
          both_iff
            (metered_loop-failures_iff p faults window BillingSubjectType.project project_ref
              totals.project_totals s.projects after_tenants)
            (λ k. app_loop-failures_iff p faults window totals.app_totals s.apps after_projects))

  -- Each list that fails ends the run with its own error.
  ends_iff :
      (a b c : Bool) (f g h : Failure) (r t u : Server Q C) (o : Outcome Q C)
      → ((if a
            then record { server = r; failures = f ∷ [] }
            else if b
            then record { server = t; failures = g ∷ [] }
            else if c
            then record { server = u; failures = h ∷ [] }
            else o).failures
          ≡ [])
        ↔ (((a ≡ false) × (b ≡ false) × (c ≡ false)) × (o.failures ≡ []))
  ends_iff true b c f g h r t u o = ground arith
  ends_iff false true c f g h r t u o = ground arith
  ends_iff false false true f g h r t u o = ground arith
  ends_iff false false false f g h r t u o = (λ e. ((refl, refl, refl), e), λ e. e.1)

  pub write_totals-failures_iff :
      ((write_totals p faults window totals s).failures ≡ []) ↔ Succeeds p faults window s
  unfolding write_totals
  write_totals-failures_iff =
      let ends = ends_iff faults.list_tenants faults.list_projects faults.list_apps _ _ _ _ _ _ _ in
      (
        λ h.
            let (lists, none_failed) = ends.0 h in
            let (ts, (ps, apps)) = loops_iff.0 none_failed in
            record { lists = lists; tenants = ts; projects = ps; apps = apps },
        λ h. ends.1 (h.lists, loops_iff.1 (h.tenants, (h.projects, h.apps))),
      )

-- A run with collected samples succeeds exactly when no list fails and no write fails for any
-- tenant, project or app; a run without samples never does.
pub reconcile-failures_iff :
    {Q C : Type 0} (p : Platform Q C) (faults : Faults) (now : ℕ)
    (collected : Result Text (List (UsageSample Q))) (s : Server Q C)
    → ((reconcile p faults now collected s).failures ≡ []) ↔ (
        ((samples : List (UsageSample Q)) × (collected ≡ ok samples))
        × Succeeds p faults (truncate_hour now) s)
unfolding reconcile
reconcile-failures_iff p faults now (err e) s = (λ h. cc, λ h. cc)
reconcile-failures_iff p faults now (ok samples) s =
    let writes =
      write_totals-failures_iff p faults (truncate_hour now)
        (aggregate p.quantities no_totals samples) s in
    (λ h. ((samples, refl), writes.0 h), λ (h, k). writes.1 k)
