-- ===== src/UsageWriter/Snapshots.antt =====
-- BillingUsage objects as snapshots of their subjects, and one upsert of them.
use kube_op.Prelude.{
  ℕ, ◌≡◌, refl, subst, true, false, ◌↔◌, inl, inr, String, [], ◌++◌, none, some, arith, Bool-cases,
}
use kube_op.Text.{Text, text, same}
use kube_op.Text.Equality.{same_iff, same_refl}
use kube_op.TextMap.{TextMap, find, put, find-put}
use kube_op.StringMap.{lookup, lookup-insert}
use kube_op.UsageWriter.{UsageAccumulator, BillingSubjectType}
use kube_op.UsageWriter.Names.{build_billing_usage_name}
use kube_op.UsageWriter.Totals.{totals_of, Totals}
use kube_op.UsageWriter.Sums.{Meter, cpu, memory, storage, egress, lb_hours, total}
use kube_op.UsageWriter.Server.{
  Platform, SetsConditions, BillingUsage, Faults, set_usage_conditions, upsert_billing_usage,
  write_usage, stored_usage, complete_reason, window_message,
}

abbrev pub meter_key : Meter → String
meter_key cpu = "cpu"
meter_key memory = "memory"
meter_key storage = "storage"
meter_key egress = "egress"
meter_key lb_hours = "lbHours"

abbrev pub totals_for : {Q : Type 0} → Totals Q → BillingSubjectType → TextMap (UsageAccumulator Q)
totals_for t BillingSubjectType.tenant = t.tenant_totals
totals_for t BillingSubjectType.project = t.project_totals
totals_for t BillingSubjectType.app = t.app_totals

module _ {Q C : Type 0} (p : Platform Q C) (window : ℕ) (totals : Totals Q) where
  -- The Ready condition says that the window is done.
  abbrev pub IsReady : C → Type 0
  IsReady cs =
      p.find_status_condition cs (text "Ready")
      ≡ some (record {
        type = text "Ready";
        status = true;
        reason = complete_reason p;
        message = window_message p window ++ text " updated";
      })

  -- The BillingUsage holds the totals of its own subject in the window, and goes by its name.
  pub record IsSnapshot (name : Text) (u : BillingUsage C) : Type 0 where
    pub named : build_billing_usage_name p.formats u.subject_type u.subject_ref window ≡ name
    pub window_text : u.window ≡ p.formats.format_window window
    pub meters :
        (m : Meter)
        → lookup (meter_key m) u.meters
          ≡ some (
              p.quantities.print
                (total m (totals_of p.quantities u.subject_ref (totals_for totals u.subject_type))))
    pub ready : IsReady u.conditions

  abbrev pub Billed : TextMap (BillingUsage C) → Text → Type 0
  Billed usages name = (u : BillingUsage C) × (find name usages ≡ some u) × IsSnapshot name u

  -- Two writes under one name, the second a snapshot.
  pub put-Billed :
      (name other : Text) (u w : BillingUsage C) (usages : TextMap (BillingUsage C))
      → IsSnapshot name u
      → Billed usages other
      → Billed (put name u (put name w usages)) other
  put-Billed name other u w usages h (v, f, k) = elim (Bool-cases (same name other)) [
    | inl e ↦ (
      u,
      rw (find-put name other u (put name w usages), e) refl,
      subst (λ n. IsSnapshot n u) ((same_iff name other).0 e) h,
    )
    | inr e ↦
        (v, rw (find-put name other u (put name w usages), e, find-put name other w usages, e) f, k)
  ]

  pub put_own-Billed :
      (name : Text) (u : BillingUsage C) (usages : TextMap (BillingUsage C))
      → IsSnapshot name u
      → Billed (put name u usages) name
  put_own-Billed name u usages h = (u, rw (find-put name name u usages, same_refl name) refl, h)

  pub write_usage-meters :
      (subject : BillingSubjectType) (ref : Text) (own : UsageAccumulator Q) (u : BillingUsage C)
      (m : Meter)
      → lookup (meter_key m) (write_usage p subject ref own window u).meters
        ≡ some (p.quantities.print (total m own))
  unfolding write_usage
  write_usage-meters subject ref own u cpu = simp lookup-insert
  write_usage-meters subject ref own u memory = simp lookup-insert
  write_usage-meters subject ref own u storage = simp lookup-insert
  write_usage-meters subject ref own u egress = simp lookup-insert
  write_usage-meters subject ref own u lb_hours = simp lookup-insert

  module _ (sets : SetsConditions p) where
    pub set_usage_conditions-IsReady : (cs : C) → IsReady (set_usage_conditions p window none cs)
    unfolding set_usage_conditions same
    set_usage_conditions-IsReady cs = simp sets

  -- An upsert fails exactly when one of its two calls does.
  pub upsert-failures_iff :
      (faults : Faults) (subject : BillingSubjectType) (ref : Text) (own : UsageAccumulator Q)
      (usages : TextMap (BillingUsage C))
      → ((upsert_billing_usage p faults subject ref own window usages).1 ≡ [])
        ↔ ((faults.sync_usage subject ref ≡ false) × (faults.patch_usage subject ref ≡ false))
  unfolding upsert_billing_usage
  upsert-failures_iff faults subject ref own usages = ground arith

  -- An upsert without fault leaves a snapshot under the subject's name, and snapshots where they were.
  module _ (sets : SetsConditions p) (faults : Faults) (subject : BillingSubjectType) (ref : Text)
      (usages : TextMap (BillingUsage C)) where
    abbrev pub own_totals : UsageAccumulator Q
    own_totals = totals_of p.quantities ref (totals_for totals subject)

    abbrev pub own_name : Text
    own_name = build_billing_usage_name p.formats subject ref window

    written_usage-IsSnapshot :
        let written =
          write_usage p subject ref own_totals window (stored_usage p own_name usages) in
        IsSnapshot own_name
          (record written { conditions = set_usage_conditions p window none written.conditions })
    written_usage-IsSnapshot =
        let written =
          write_usage p subject ref own_totals window (stored_usage p own_name usages) in
        record {
          named = unfold write_usage in refl;
          window_text = unfold write_usage in refl;
          meters =
              unfold write_usage in
              write_usage-meters subject ref own_totals (stored_usage p own_name usages);
          ready = set_usage_conditions-IsReady sets written.conditions;
        }

    pub upsert-Billed :
        faults.sync_usage subject ref ≡ false
        → faults.patch_usage subject ref ≡ false
        → let after = (upsert_billing_usage p faults subject ref own_totals window usages).0 in
          Billed after own_name × ((other : Text) → Billed usages other → Billed after other)
    unfolding upsert_billing_usage
    upsert-Billed e k =
        rw (e, k)
          (
            put_own-Billed own_name _ _ written_usage-IsSnapshot,
            λ other h. put-Billed own_name other _ _ usages written_usage-IsSnapshot h,
          )
