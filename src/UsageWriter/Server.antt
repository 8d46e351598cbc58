-- ===== src/UsageWriter/Server.antt =====
-- What the usage writer reads and writes on the API server, and one write of each kind:
-- `setUsageConditions`, `updateTenantStatus`, `updateProjectStatus` and `upsertBillingUsage`.
use kube_op.Prelude.{
  ℕ, ◌≡◌, Bool, true, false, List, [], ◌∷◌, ◌++◌, Option, none, some, if◌then◌else◌,
}
use kube_op.Text.{Text, text, or_else, same}
use kube_op.TextMap.{TextMap, find, put}
use kube_op.StringMap.{StringMap, insert}
use kube_op.UsageWriter.{Quantities, UsageAccumulator, BillingSubjectType, Formats}
use kube_op.UsageWriter.Names.{build_billing_usage_name}

-- `metav1.Condition`; the status is True or False here.
pub record Condition : Type 0 where
  pub type : Text
  pub status : Bool
  pub reason : Text
  pub message : Text

-- Other packages' part: quantities, the formats of the names, RFC 3339, and condition lists with
-- `SetStatusCondition` and `FindStatusCondition` of apimachinery.
pub record Platform (Q C : Type 0) : Type 0 where
  pub quantities : Quantities Q
  pub formats : Formats
  pub format_rfc3339 : ℕ → Text
  pub no_conditions : C
  pub set_status_condition : C → Condition → C
  pub find_status_condition : C → Text → Option Condition

-- What is set is found under its type, and the other types keep theirs.
abbrev pub SetsConditions : {Q C : Type 0} → Platform Q C → Type 0
SetsConditions {C} p =
    (cs : C) (c : Condition) (type : Text)
    → p.find_status_condition (p.set_status_condition cs c) type
      ≡ (if same c.type type then some c else p.find_status_condition cs type)

-- `Tenant` and `Project`: their names and status. A tenant has no namespace.
pub record Metered (Q C : Type 0) : Type 0 where
  pub namespace : Text
  pub name : Text
  pub usage : Option (UsageAccumulator Q)
  pub conditions : C

-- The name of an `App`.
pub record AppName : Type 0 where
  pub namespace : Text
  pub name : Text

pub record BillingUsage (C : Type 0) : Type 0 where
  pub subject_type : BillingSubjectType
  pub subject_ref : Text
  pub window : Text
  pub meters : StringMap
  pub conditions : C

-- The calls that fail, by what they name: the three lists, the status patches of tenants and
-- projects, and `CreateOrUpdate` and the status patch of a BillingUsage.
pub record Faults : Type 0 where
  pub list_tenants : Bool
  pub list_projects : Bool
  pub list_apps : Bool
  pub patch_tenant : Text → Bool
  pub patch_project : Text → Bool
  pub sync_usage : BillingSubjectType → Text → Bool
  pub patch_usage : BillingSubjectType → Text → Bool

pub data Failure : Type 0 where
  collect_failed : Text → Failure
  list_tenants_failed : Failure
  list_projects_failed : Failure
  list_apps_failed : Failure
  patch_tenant_failed : Text → Failure
  patch_project_failed : Text → Failure
  sync_usage_failed : BillingSubjectType → Text → Failure
  patch_usage_failed : BillingSubjectType → Text → Failure

module _ {Q C : Type 0} (p : Platform Q C) where
  abbrev pub set_condition : Text → Bool → Text → Text → C → C
  set_condition type status reason message cs =
      p.set_status_condition cs
        (record { type = type; status = status; reason = reason; message = message })

  abbrev pub failed_reason : Text
  failed_reason = text "UsageAggregationFailed"

  abbrev pub complete_reason : Text
  complete_reason = text "UsageAggregationComplete"

  abbrev pub window_message : ℕ → Text
  window_message window = text "Usage window " ++ p.format_rfc3339 window

  -- `setUsageConditions`; the error is given by its message.
  unfoldable pub set_usage_conditions : ℕ → Option Text → C → C
  set_usage_conditions window (some error) cs =
      let msg = window_message window ++ (text ": " ++ error) in
      set_condition (text "Degraded") true failed_reason msg (
        set_condition (text "Ready") false failed_reason msg
          (set_condition (text "Reconciling") false failed_reason msg cs))
  set_usage_conditions window none cs =
      let message = window_message window ++ text " updated" in
      set_condition (text "Degraded") false complete_reason (text "Usage aggregation healthy") (
        set_condition (text "Ready") true complete_reason message
          (set_condition (text "Reconciling") false complete_reason message cs))

  -- `updateTenantStatus` and `updateProjectStatus`, up to the patch.
  unfoldable pub metered_status : UsageAccumulator Q → ℕ → Metered Q C → Metered Q C
  unfolding set_usage_conditions
  metered_status totals window m = record m {
    usage = some totals;
    conditions = set_usage_conditions window none m.conditions;
  }

  -- A status patch: where it fails the server keeps the object.
  abbrev pub patched : {A : Type 0} → Bool → A → A → A
  patched fails old new = if fails then old else new

  abbrev pub reported : Bool → Failure → List Failure
  reported fails failure = if fails then failure ∷ [] else []

  -- The function that `CreateOrUpdate` runs on the object.
  unfoldable pub write_usage :
      BillingSubjectType → Text → UsageAccumulator Q → ℕ → BillingUsage C → BillingUsage C
  unfolding insert
  write_usage subject ref totals window u = record u {
    subject_type = subject;
    subject_ref = ref;
    window = p.formats.format_window window;
    meters = insert "lbHours" (p.quantities.print totals.lb_hours) (
        insert "egress" (p.quantities.print totals.egress) (
          insert "storage" (p.quantities.print totals.storage) (
            insert "memory" (p.quantities.print totals.memory)
              (insert "cpu" (p.quantities.print totals.cpu) u.meters))));
  }

  -- The object by that name, or the empty one that is created.
  unfoldable pub stored_usage : Text → TextMap (BillingUsage C) → BillingUsage C
  unfolding find
  stored_usage name usages = or_else (find name usages) (record {
    subject_type = BillingSubjectType.tenant;
    subject_ref = [];
    window = [];
    meters = [];
    conditions = p.no_conditions;
  })

  -- `upsertBillingUsage`: the objects after it, and its error.
  unfoldable pub upsert_billing_usage :
      Faults
      → BillingSubjectType
      → Text
      → UsageAccumulator Q
      → ℕ
      → TextMap (BillingUsage C)
      → TextMap (BillingUsage C) × List Failure
  unfolding build_billing_usage_name write_usage stored_usage set_usage_conditions put
  upsert_billing_usage faults subject ref totals window usages =
      let name = build_billing_usage_name p.formats subject ref window in
      let written = write_usage subject ref totals window (stored_usage name usages) in
      let conditions = set_usage_conditions window none written.conditions in
      if faults.sync_usage subject ref
      then (usages, sync_usage_failed subject ref ∷ [])
      else if faults.patch_usage subject ref
      then (put name written usages, patch_usage_failed subject ref ∷ [])
      else (put name (record written { conditions = conditions }) (put name written usages), [])
