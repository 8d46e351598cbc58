-- ===== src/UsageWriter/Runs.antt =====
-- What a run of the usage writer (`Reconcile`) leaves on the server.
use kube_op.Prelude.{
  ℕ, ◌≡◌, refl, Bool, true, false, List, [], ◌∷◌, map, some, Result, ok, err, if◌then◌else◌, arith,
  All,
}
use kube_op.Text.{Text}
use kube_op.TextMap.{TextMap}
use kube_op.UsageWriter.{UsageSample, UsageAccumulator, BillingSubjectType, truncate_hour}
use kube_op.UsageWriter.Names.{build_billing_usage_name}
use kube_op.UsageWriter.Totals.{totals_of, Totals, no_totals, aggregate}
use kube_op.UsageWriter.Server.{
  Platform, SetsConditions, Metered, AppName, BillingUsage, Faults, metered_status,
  upsert_billing_usage,
}
use kube_op.UsageWriter.Reconcile.{
  Server, Outcome, tenant_ref, project_ref, app_ref, metered_loop, app_loop, write_totals,
  reconcile,
}
use kube_op.UsageWriter.Snapshots.{
  totals_for, IsReady, Billed, set_usage_conditions-IsReady, upsert-Billed,
}
use kube_op.UsageWriter.Loops.{Writes, WritesStatus, Succeeds, reconcile-failures_iff}

module _ {Q C : Type 0} (p : Platform Q C) (window : ℕ) (totals : Totals Q) where
  -- The status shows the totals of the subject, and that the window is done.
  abbrev pub IsUpToDate : BillingSubjectType → (Metered Q C → Text) → Metered Q C → Type 0
  IsUpToDate subject ref_of m =
      (m.usage ≡ some (totals_of p.quantities (ref_of m) (totals_for totals subject)))
      × IsReady p window totals m.conditions

  abbrev pub name_of : BillingSubjectType → Text → Text
  name_of subject ref = build_billing_usage_name p.formats subject ref window

  module _ (sets : SetsConditions p) (faults : Faults) where
    -- A reference that only the names of an object decide.
    module _ (subject : BillingSubjectType) (ref_of : Metered Q C → Text)
        (keeps : (own : UsageAccumulator Q) (m : Metered Q C)
          → ref_of (metered_status p own window m) ≡ ref_of m) where
      status-IsUpToDate :
          (m : Metered Q C)
          → IsUpToDate subject ref_of (
              metered_status p
                (totals_of p.quantities (ref_of m) (totals_for totals subject))
                window
                m)
      status-IsUpToDate m =
          let own = totals_of p.quantities (ref_of m) (totals_for totals subject) in
          rw (keeps own m) (
            unfold metered_status in refl,
            unfold metered_status in set_usage_conditions-IsReady p window totals sets m.conditions,
          )

      metered_loop-IsUpToDate :
          (ms : List (Metered Q C)) (usages : TextMap (BillingUsage C))
          → All (λ m. WritesStatus p faults window subject (ref_of m)) ms
          → let out =
              (metered_loop p faults window subject ref_of
                (totals_for totals subject)
                ms
                usages).0 in
            All (IsUpToDate subject ref_of) out × (map ref_of out ≡ map ref_of ms)
      unfolding metered_loop
      metered_loop-IsUpToDate [] usages h = (tt, refl)
      metered_loop-IsUpToDate (m ∷ ms) usages ((status, writes), h) =
          let own = totals_of p.quantities (ref_of m) (totals_for totals subject) in
          let written = (upsert_billing_usage p faults subject (ref_of m) own window usages).0 in
          let (shows, names) = metered_loop-IsUpToDate ms written h in
          rw status ((status-IsUpToDate m, shows), rw (keeps own m, names) refl)

      metered_loop-Billed :
          (ms : List (Metered Q C)) (usages : TextMap (BillingUsage C))
          → All (λ m. WritesStatus p faults window subject (ref_of m)) ms
          → let after =
              (metered_loop p faults window subject ref_of
                (totals_for totals subject)
                ms
                usages).1 in
            All (λ m. Billed p window totals after (name_of subject (ref_of m))) ms
            × ((other : Text)
                → Billed p window totals usages other
                → Billed p window totals after other)
      unfolding metered_loop
      metered_loop-Billed [] usages h = (tt, λ other k. k)
      metered_loop-Billed (m ∷ ms) usages ((status, (sync, patch)), h) =
          let (own, kept) =
            upsert-Billed p window totals sets faults subject (ref_of m) usages sync patch in
          let (rest, later) = metered_loop-Billed ms _ h in
          ((later (name_of subject (ref_of m)) own, rest), λ other k. later other (kept other k))

    app_loop-Billed :
        (apps : List AppName) (usages : TextMap (BillingUsage C))
        → All (λ a. Writes p faults window BillingSubjectType.app (app_ref a)) apps
        → let after = (app_loop p faults window totals.app_totals apps usages).0 in
          All (λ a. Billed p window totals after (name_of BillingSubjectType.app (app_ref a))) apps
          × ((other : Text)
              → Billed p window totals usages other
              → Billed p window totals after other)
    unfolding app_loop
    app_loop-Billed [] usages h = (tt, λ other k. k)
    app_loop-Billed (a ∷ apps) usages ((sync, patch), h) =
        let (own, kept) =
          upsert-Billed p window totals sets faults BillingSubjectType.app (app_ref a) usages sync
            patch in
        let (rest, later) = app_loop-Billed apps _ h in
        (
          (later (name_of BillingSubjectType.app (app_ref a)) own, rest),
          λ other k. later other (kept other k),
        )

-- `after` has the tenants and projects of `s` with up-to-date statuses, and a snapshot under the
-- name of every tenant, project and app of `s`.
pub record IsReported {Q C : Type 0} (p : Platform Q C) (window : ℕ) (totals : Totals Q)
    (s after : Server Q C) : Type 0 where
  pub tenants :
      All (IsUpToDate p window totals BillingSubjectType.tenant tenant_ref) after.tenants
      × (map tenant_ref after.tenants ≡ map tenant_ref s.tenants)
  pub projects :
      All (IsUpToDate p window totals BillingSubjectType.project project_ref) after.projects
      × (map project_ref after.projects ≡ map project_ref s.projects)
  pub tenant_usages :
      All
        (λ m.
          Billed p window totals after.usages
            (name_of p window totals BillingSubjectType.tenant (tenant_ref m)))
        s.tenants
  pub project_usages :
      All
        (λ m.
          Billed p window totals after.usages
            (name_of p window totals BillingSubjectType.project (project_ref m)))
        s.projects
  pub app_usages :
      All
        (λ a.
          Billed p window totals after.usages
            (name_of p window totals BillingSubjectType.app (app_ref a)))
        s.apps

-- Snapshots that are kept.
Billed-kept :
    {Q C A : Type 0} (p : Platform Q C) (window : ℕ) (totals : Totals Q)
    (usages after : TextMap (BillingUsage C)) (names : A → Text)
    → ((other : Text) → Billed p window totals usages other → Billed p window totals after other)
    → (xs : List A) → All (λ x. Billed p window totals usages (names x)) xs
    → All (λ x. Billed p window totals after (names x)) xs
Billed-kept p window totals usages after names kept [] h = tt
Billed-kept p window totals usages after names kept (x ∷ xs) h =
    (kept (names x) h.0, Billed-kept p window totals usages after names kept xs h.1)

-- A run in which no list fails goes to the end.
goes_on :
    {A : Type 0} (P : A → Type 0) (a b c : Bool) (x y z o : A)
    → a ≡ false
    → b ≡ false
    → c ≡ false
    → P o
    → P (if a then x else if b then y else if c then z else o)
goes_on P true b c x y z o f g h k = absurd (ground arith)
goes_on P false true c x y z o f g h k = absurd (ground arith)
goes_on P false false true x y z o f g h k = absurd (ground arith)
goes_on P false false false x y z o f g h k = k

module _ {Q C : Type 0} (p : Platform Q C) (sets : SetsConditions p) (faults : Faults) (window : ℕ)
    (totals : Totals Q) (s : Server Q C) where
  write_totals-IsReported :
      Succeeds p faults window s
      → IsReported p window totals s (write_totals p faults window totals s).server
  unfolding write_totals
  write_totals-IsReported h =
      let (no_tenants, no_projects, no_apps) = h.lists in
      let (ts, tenant_usages, _) =
        metered_loop p faults window BillingSubjectType.tenant tenant_ref totals.tenant_totals
          s.tenants s.usages in
      let (ps, project_usages, _) =
        metered_loop p faults window BillingSubjectType.project project_ref totals.project_totals
          s.projects tenant_usages in
      let (app_usages, _) = app_loop p faults window totals.app_totals s.apps project_usages in
      let (own_tenants, _) =
        metered_loop-Billed p window totals sets faults BillingSubjectType.tenant tenant_ref
          (λ own m. unfold metered_status in refl) s.tenants s.usages h.tenants in
      let (own_projects, kept) =
        metered_loop-Billed p window totals sets faults BillingSubjectType.project project_ref
          (λ own m. unfold metered_status in refl) s.projects tenant_usages h.projects in
      let (own_apps, kept_too) =
        app_loop-Billed p window totals sets faults s.apps project_usages h.apps in
      goes_on (λ (o : Outcome Q C). IsReported p window totals s o.server) faults.list_tenants
        faults.list_projects faults.list_apps _ _ _ _ no_tenants no_projects no_apps
        (record {
          tenants =
              metered_loop-IsUpToDate p window totals sets faults BillingSubjectType.tenant
                tenant_ref (λ own m. unfold metered_status in refl) s.tenants s.usages h.tenants;
          projects =
              metered_loop-IsUpToDate p window totals sets faults BillingSubjectType.project
                project_ref (λ own m. unfold metered_status in refl) s.projects tenant_usages
                h.projects;
          tenant_usages =
              Billed-kept p window totals tenant_usages app_usages
                (λ m. name_of p window totals BillingSubjectType.tenant (tenant_ref m))
                (λ other k. kept_too other (kept other k)) s.tenants own_tenants;
          project_usages =
              Billed-kept p window totals project_usages app_usages
                (λ m. name_of p window totals BillingSubjectType.project (project_ref m)) kept_too
                s.projects own_projects;
          app_usages = own_apps;
        })

-- If setting a condition is what reads back, then a run that returns no error has collected samples
-- and leaves every tenant and project with the totals of its samples and Ready in its status, and
-- under the name of every tenant, project and app a BillingUsage of the window that holds the
-- totals of a subject by that name, Ready.
pub reconcile-IsReported :
    {Q C : Type 0} (p : Platform Q C) (faults : Faults) (now : ℕ) (s : Server Q C)
    (collected : Result Text (List (UsageSample Q)))
    → SetsConditions p
    → (reconcile p faults now collected s).failures ≡ []
    → (samples : List (UsageSample Q)) × (collected ≡ ok samples)
      × IsReported p
          (truncate_hour now)
          (aggregate p.quantities no_totals samples)
          s
          (reconcile p faults now collected s).server
reconcile-IsReported {Q = Q} p faults now s (err e) sets h =
    absurd (no_samples ((reconcile-failures_iff p faults now (err e) s).0 h).0)
  where
    no_samples : ¬ ((samples : List (UsageSample Q)) × (err e ≡ ok samples))
    no_samples (samples, h) = cc
reconcile-IsReported p faults now s (ok samples) sets h = (
  samples,
  refl,
  unfold reconcile in
      write_totals-IsReported p sets faults (truncate_hour now)
        (aggregate p.quantities no_totals samples) s
        ((reconcile-failures_iff p faults now (ok samples) s).0 h).1,
)
