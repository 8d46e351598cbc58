-- ===== src/UsageWriter/Reconcile.antt =====
-- `Reconcile` and `updateConditionsOnError`.
use kube_op.Prelude.{ℕ, Bool, false, List, [], ◌∷◌, ◌++◌, some, Result, ok, err, if◌then◌else◌}
use kube_op.Text.{Text}
use kube_op.TextMap.{TextMap}
use kube_op.UsageWriter.{UsageSample, UsageAccumulator, BillingSubjectType, truncate_hour}
use kube_op.UsageWriter.Names.{namespace_key}
use kube_op.UsageWriter.Totals.{totals_of, Totals, no_totals, aggregate}
use kube_op.UsageWriter.Server.{
  Platform, Metered, AppName, BillingUsage, Faults, Failure, collect_failed, list_tenants_failed,
  list_projects_failed, list_apps_failed, patch_tenant_failed, patch_project_failed,
  set_usage_conditions, metered_status, patched, reported, upsert_billing_usage,
}

-- What the API server holds of the program's objects.
pub record Server (Q C : Type 0) : Type 0 where
  pub tenants : List (Metered Q C)
  pub projects : List (Metered Q C)
  pub apps : List AppName
  pub usages : TextMap (BillingUsage C)

-- The server after a run, and the errors that the run returns; none is success.
pub record Outcome (Q C : Type 0) : Type 0 where
  pub server : Server Q C
  pub failures : List Failure

abbrev pub tenant_ref : {Q C : Type 0} → Metered Q C → Text
tenant_ref m = m.name

abbrev pub project_ref : {Q C : Type 0} → Metered Q C → Text
project_ref m = namespace_key m.namespace m.name

abbrev pub app_ref : AppName → Text
app_ref a = namespace_key a.namespace a.name

module _ {Q C : Type 0} (p : Platform Q C) (faults : Faults) (window : ℕ) where
  abbrev pub patch_fails : BillingSubjectType → Text → Bool
  patch_fails BillingSubjectType.tenant ref = faults.patch_tenant ref
  patch_fails BillingSubjectType.project ref = faults.patch_project ref
  patch_fails BillingSubjectType.app ref = false

  abbrev pub patch_failed : BillingSubjectType → Text → Failure
  patch_failed BillingSubjectType.tenant ref = patch_tenant_failed ref
  patch_failed BillingSubjectType.project ref = patch_project_failed ref
  patch_failed BillingSubjectType.app ref = patch_project_failed ref

  -- The loops over the tenants and over the projects: the objects, the BillingUsages, the errors.
  unfoldable pub metered_loop :
      BillingSubjectType
      → (Metered Q C → Text)
      → TextMap (UsageAccumulator Q)
      → List (Metered Q C)
      → TextMap (BillingUsage C)
      → List (Metered Q C) × TextMap (BillingUsage C) × List Failure
  unfolding totals_of metered_status upsert_billing_usage
  metered_loop subject ref_of totals [] usages = ([], usages, [])
  metered_loop subject ref_of totals (m ∷ ms) usages =
      let ref = ref_of m in
      let own = totals_of p.quantities ref totals in
      let (written, errs) = upsert_billing_usage p faults subject ref own window usages in
      let (rest, all, more) = metered_loop subject ref_of totals ms written in
      (
        patched p (patch_fails subject ref) m (metered_status p own window m) ∷ rest,
        all,
        reported p (patch_fails subject ref) (patch_failed subject ref) ++ (errs ++ more),
      )

  -- The loop over the apps, which have no usage in their status.
  unfoldable pub app_loop :
      TextMap (UsageAccumulator Q)
      → List AppName
      → TextMap (BillingUsage C)
      → TextMap (BillingUsage C) × List Failure
  unfolding namespace_key totals_of upsert_billing_usage
  app_loop totals [] usages = (usages, [])
  app_loop totals (a ∷ others) usages =
      let own = totals_of p.quantities (app_ref a) totals in
      let (written, errs) =
        upsert_billing_usage p faults BillingSubjectType.app (app_ref a) own window usages in
      let (all, more) = app_loop totals others written in (all, errs ++ more)

  -- A loop of `updateConditionsOnError`.
  unfoldable pub error_loop :
      Text
      → BillingSubjectType
      → (Metered Q C → Text)
      → List (Metered Q C)
      → List (Metered Q C) × List Failure
  unfolding set_usage_conditions
  error_loop error subject ref_of [] = ([], [])
  error_loop error subject ref_of (m ∷ ms) =
      let (rest, more) = error_loop error subject ref_of ms in
      (
        patched p (patch_fails subject (ref_of m)) m
              (record m { conditions = set_usage_conditions p window (some error) m.conditions })
            ∷ rest,
        reported p (patch_fails subject (ref_of m)) (patch_failed subject (ref_of m)) ++ more,
      )

  -- `updateConditionsOnError`
  unfoldable pub update_conditions_on_error : Text → Server Q C → Outcome Q C
  unfolding error_loop namespace_key
  update_conditions_on_error error s =
      let (ts, tenant_errs) =
        if faults.list_tenants
        then (s.tenants, list_tenants_failed ∷ [])
        else error_loop error BillingSubjectType.tenant tenant_ref s.tenants in
      let (ps, project_errs) =
        if faults.list_projects
        then (s.projects, list_projects_failed ∷ [])
        else error_loop error BillingSubjectType.project project_ref s.projects in
      record {
        server = record s { tenants = ts; projects = ps };
        failures = tenant_errs ++ project_errs;
      }

  -- `Reconcile` once the samples are added up. A failing list ends the run with its error alone.
  unfoldable pub write_totals : Totals Q → Server Q C → Outcome Q C
  unfolding metered_loop app_loop namespace_key
  write_totals totals s =
      let (ts, tenant_usages, tenant_errs) =
        metered_loop BillingSubjectType.tenant tenant_ref totals.tenant_totals s.tenants s.usages in
      let (ps, project_usages, project_errs) =
        metered_loop BillingSubjectType.project project_ref totals.project_totals s.projects
          tenant_usages in
      let (app_usages, app_errs) = app_loop totals.app_totals s.apps project_usages in
      if faults.list_tenants
      then record { server = s; failures = list_tenants_failed ∷ [] }
      else if faults.list_projects
      then record {
        server = record s { tenants = ts; usages = tenant_usages };
        failures = list_projects_failed ∷ [];
      }
      else if faults.list_apps
      then record {
        server = record s { tenants = ts; projects = ps; usages = project_usages };
        failures = list_apps_failed ∷ [];
      }
      else record {
        server = record s { tenants = ts; projects = ps; usages = app_usages };
        failures = tenant_errs ++ (project_errs ++ app_errs);
      }

-- `Reconcile` at a time, given what `CollectUsage` returns for its window.
unfoldable pub reconcile :
    {Q C : Type 0}
    → Platform Q C
    → Faults
    → ℕ
    → Result Text (List (UsageSample Q))
    → Server Q C
    → Outcome Q C
unfolding update_conditions_on_error write_totals aggregate
reconcile p faults now (err error) s =
    let marked = update_conditions_on_error p faults (truncate_hour now) error s in
    record marked { failures = collect_failed error ∷ marked.failures }
reconcile p faults now (ok samples) s =
    write_totals p faults (truncate_hour now) (aggregate p.quantities no_totals samples) s
