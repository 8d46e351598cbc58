-- ===== src/UsageWriter.antt =====
-- The usage writer of the operator (kubeop-operator/controllers/usagewriter_controller.go):
-- every interval it adds up metered usage and writes BillingUsage objects. Here its data; the
-- children hold the names, the totals and the reconcile loop.
pub mod Names
pub mod Labels
pub mod BillingNames
pub mod Totals
pub mod Sums
pub mod Server
pub mod Reconcile
pub mod Snapshots
pub mod Loops
pub mod Runs
pub mod Tests
use kube_op.Prelude.{ℕ, ◌*◌, ◌/◌, ◌≡◌, Bool, true, List, Option}
use kube_op.Text.{Text, text}
use kube_op.TextMap.{TextMap}

-- `resource.Quantity` of apimachinery: the value 0, `Add`, `Sign() == 0` and `String`.
pub record Quantities (Q : Type 0) : Type 0 where
  pub zero_quantity : Q
  pub add : Q → Q → Q
  pub is_zero : Q → Bool
  pub print : Q → Text

-- Adding a quantity of sign 0 changes nothing.
abbrev pub AddsZero : {Q : Type 0} → Quantities Q → Type 0
AddsZero {Q} ops = (x y : Q) → ops.is_zero y ≡ true → ops.add x y ≡ x

-- `metrics.UsageSample`
pub record UsageSample (Q : Type 0) : Type 0 where
  pub tenant : Text
  pub project_namespace : Text
  pub project : Text
  pub app_namespace : Text
  pub app : Text
  pub cpu : Q
  pub memory : Q
  pub storage : Q
  pub egress : Q
  pub lb_hours : Q

-- `usageAccumulator`
pub record UsageAccumulator (Q : Type 0) : Type 0 where
  pub cpu : Q
  pub memory : Q
  pub storage : Q
  pub egress : Q
  pub lb_hours : Q

pub data BillingSubjectType : Type 0 where
  tenant : BillingSubjectType
  project : BillingSubjectType
  app : BillingSubjectType

-- The constants' values.
abbrev pub subject_text : BillingSubjectType → Text
subject_text tenant = text "tenant"
subject_text project = text "project"
subject_text app = text "app"

-- A time is the number of seconds since 1970 in UTC; `Truncate(time.Hour)`.
abbrev pub truncate_hour : ℕ → ℕ
truncate_hour now = now / 3600 * 3600

-- What the names take from the standard library: SHA-1, and the time in the layout 2006-01-02T15.
pub record Formats : Type 0 where
  pub sha1 : Text → List ℕ
  pub format_window : ℕ → Text
