-- ===== src/UsageWriter/Totals.antt =====
-- Adding up: `usageAccumulator` and the loop over the samples in `Reconcile`.
use kube_op.Prelude.{Bool, ◌||◌, List, [], ◌∷◌, if◌then◌else◌}
use kube_op.Text.{Text, is_empty, or_else, trim_space}
use kube_op.TextMap.{TextMap, find, put}
use kube_op.UsageWriter.{Quantities, UsageSample, UsageAccumulator}
use kube_op.UsageWriter.Names.{namespace_key}

module _ {Q : Type 0} (ops : Quantities Q) where
  -- `newUsageAccumulator`
  unfoldable pub new_usage_accumulator : UsageAccumulator Q
  new_usage_accumulator = record {
    cpu = ops.zero_quantity;
    memory = ops.zero_quantity;
    storage = ops.zero_quantity;
    egress = ops.zero_quantity;
    lb_hours = ops.zero_quantity;
  }

  abbrev pub add_unless_zero : Q → Q → Q
  add_unless_zero total x = if ops.is_zero x then total else ops.add total x

  -- `usageAccumulator.add`
  unfoldable pub accumulate : UsageAccumulator Q → UsageSample Q → UsageAccumulator Q
  accumulate a sample = record {
    cpu = add_unless_zero a.cpu sample.cpu;
    memory = add_unless_zero a.memory sample.memory;
    storage = add_unless_zero a.storage sample.storage;
    egress = add_unless_zero a.egress sample.egress;
    lb_hours = add_unless_zero a.lb_hours sample.lb_hours;
  }

  -- The accumulator of a key, or a new one.
  unfoldable pub totals_of : Text → TextMap (UsageAccumulator Q) → UsageAccumulator Q
  unfolding find new_usage_accumulator
  totals_of key totals = or_else (find key totals) new_usage_accumulator

  -- One of the three updates in the loop's body.
  unfoldable pub add_to :
      Text → UsageSample Q → TextMap (UsageAccumulator Q) → TextMap (UsageAccumulator Q)
  unfolding put accumulate totals_of
  add_to key sample totals = put key (accumulate (totals_of key totals) sample) totals

-- The three maps of `Reconcile`.
pub record Totals (Q : Type 0) : Type 0 where
  pub tenant_totals : TextMap (UsageAccumulator Q)
  pub project_totals : TextMap (UsageAccumulator Q)
  pub app_totals : TextMap (UsageAccumulator Q)

abbrev pub no_totals : {Q : Type 0} → Totals Q
no_totals = record { tenant_totals = []; project_totals = []; app_totals = [] }

module _ {Q : Type 0} (sample : UsageSample Q) where
  -- A sample that lacks its tenant, project or app is left out.
  unfoldable pub is_incomplete : Bool
  unfolding trim_space
  is_incomplete =
      is_empty (trim_space sample.tenant)
      || is_empty (trim_space sample.project)
      || is_empty (trim_space sample.app)

  unfoldable pub tenant_key : Text
  unfolding trim_space
  tenant_key = trim_space sample.tenant

  unfoldable pub project_key : Text
  unfolding namespace_key trim_space
  project_key = namespace_key sample.project_namespace (trim_space sample.project)

  unfoldable pub app_key : Text
  unfolding namespace_key trim_space
  app_key = namespace_key sample.app_namespace (trim_space sample.app)

module _ {Q : Type 0} (ops : Quantities Q) where
  -- The body of the loop over the samples.
  unfoldable pub add_sample : Totals Q → UsageSample Q → Totals Q
  unfolding is_incomplete tenant_key project_key app_key add_to
  add_sample totals sample = if is_incomplete sample then totals else record {
    tenant_totals = add_to ops (tenant_key sample) sample totals.tenant_totals;
    project_totals = add_to ops (project_key sample) sample totals.project_totals;
    app_totals = add_to ops (app_key sample) sample totals.app_totals;
  }

  -- The loop.
  unfoldable pub aggregate : Totals Q → List (UsageSample Q) → Totals Q
  unfolding add_sample
  aggregate totals [] = totals
  aggregate totals (sample ∷ samples) = aggregate (add_sample totals sample) samples
