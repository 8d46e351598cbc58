-- ===== src/UsageWriter/Sums.antt =====
-- The maps of totals (the loop over the samples in `Reconcile`) and sums over the samples.
use kube_op.Prelude.{
  ◌≡◌, refl, ap, ◌∙◌, Bool, not, ◌&&◌, List, [], ◌∷◌, if◌then◌else◌, Bool-cases, inl, inr,
}
use kube_op.Text.{Text, same}
use kube_op.Text.Equality.{same_iff}
use kube_op.TextMap.{TextMap, find, find-put}
use kube_op.UsageWriter.{Quantities, AddsZero, UsageSample, UsageAccumulator}
use kube_op.UsageWriter.Totals.{
  new_usage_accumulator, accumulate, totals_of, add_to, Totals, no_totals, is_incomplete,
  tenant_key, project_key, app_key, add_sample, aggregate,
}

pub data Meter : Type 0 where
  cpu : Meter
  memory : Meter
  storage : Meter
  egress : Meter
  lb_hours : Meter

module _ {Q : Type 0} where
  abbrev pub metered : Meter → UsageSample Q → Q
  metered cpu s = s.cpu
  metered memory s = s.memory
  metered storage s = s.storage
  metered egress s = s.egress
  metered lb_hours s = s.lb_hours

  abbrev pub total : Meter → UsageAccumulator Q → Q
  total cpu a = a.cpu
  total memory a = a.memory
  total storage a = a.storage
  total egress a = a.egress
  total lb_hours a = a.lb_hours

  -- A complete sample of the subject.
  abbrev pub counts : (UsageSample Q → Text) → Text → UsageSample Q → Bool
  counts key_of key s = not (is_incomplete s) && same (key_of s) key

module _ {Q : Type 0} (ops : Quantities Q) where
  -- `start` and the meter's values in the samples that count, added in their order.
  unfoldable pub sum : Meter → (UsageSample Q → Bool) → Q → List (UsageSample Q) → Q
  sum meter test start [] = start
  sum meter test start (s ∷ samples) =
      sum meter test (if test s then ops.add start (metered meter s) else start) samples

  module _ (adds_zero : AddsZero ops) where
    add_unless_zero_lem : (x y : Q) → (if ops.is_zero y then x else ops.add x y) ≡ ops.add x y
    add_unless_zero_lem x y = elim (Bool-cases (ops.is_zero y)) [
      | inl e ↦ rw (e, adds_zero x y e) refl
      | inr e ↦ rw e refl
    ]

    total-accumulate :
        (meter : Meter) (a : UsageAccumulator Q) (s : UsageSample Q)
        → total meter (accumulate ops a s) ≡ ops.add (total meter a) (metered meter s)
    unfolding accumulate
    total-accumulate cpu a s = add_unless_zero_lem a.cpu s.cpu
    total-accumulate memory a s = add_unless_zero_lem a.memory s.memory
    total-accumulate storage a s = add_unless_zero_lem a.storage s.storage
    total-accumulate egress a s = add_unless_zero_lem a.egress s.egress
    total-accumulate lb_hours a s = add_unless_zero_lem a.lb_hours s.lb_hours

    total-add_to :
        (meter : Meter) (key other : Text) (s : UsageSample Q) (m : TextMap (UsageAccumulator Q))
        → total meter (totals_of ops other (add_to ops key s m)) ≡ (
            if same key other
            then ops.add (total meter (totals_of ops other m)) (metered meter s)
            else total meter (totals_of ops other m))
    unfolding totals_of add_to
    total-add_to meter key other s m = elim (Bool-cases (same key other)) [
      | inl e ↦
          rw
            (
              find-put key other (accumulate ops (totals_of ops key m) s) m,
              e,
              (same_iff key other).0 e,
            )
            (total-accumulate meter (totals_of ops other m) s)
      | inr e ↦ rw (find-put key other (accumulate ops (totals_of ops key m) s) m, e) refl
    ]

    -- A map whose update in the loop's body adds the sample to the key `key_of` it.
    module _ (totals : Totals Q → TextMap (UsageAccumulator Q)) (key_of : UsageSample Q → Text)
        (step : (t : Totals Q) (s : UsageSample Q)
          → totals (add_sample ops t s)
            ≡ (if is_incomplete s then totals t else add_to ops (key_of s) s (totals t))) where
      total-add_sample :
          (meter : Meter) (key : Text) (t : Totals Q) (s : UsageSample Q)
          → total meter (totals_of ops key (totals (add_sample ops t s))) ≡ (
              if counts key_of key s
              then ops.add (total meter (totals_of ops key (totals t))) (metered meter s)
              else total meter (totals_of ops key (totals t)))
      total-add_sample meter key t s = elim (Bool-cases (is_incomplete s)) [
        | inl e ↦ rw (step t s, e) refl
        | inr e ↦ rw (step t s, e) (total-add_to meter (key_of s) key s (totals t))
      ]

      total-aggregate :
          (meter : Meter) (key : Text) (t : Totals Q) (samples : List (UsageSample Q))
          → total meter (totals_of ops key (totals (aggregate ops t samples)))
            ≡ sum meter (counts key_of key) (total meter (totals_of ops key (totals t))) samples
      unfolding aggregate sum
      total-aggregate meter key t [] = refl
      total-aggregate meter key t (s ∷ samples) =
          total-aggregate meter key (add_sample ops t s) samples
          ∙ ap (λ start. sum meter (counts key_of key) start samples)
              (total-add_sample meter key t s)

module _ {Q : Type 0} (ops : Quantities Q) (t : Totals Q) (s : UsageSample Q) where
  tenant_step :
      (add_sample ops t s).tenant_totals
      ≡ (if is_incomplete s then t.tenant_totals else add_to ops (tenant_key s) s t.tenant_totals)
  unfolding add_sample
  tenant_step = elim (Bool-cases (is_incomplete s)) [ inl e ↦ rw e refl | inr e ↦ rw e refl ]

  project_step : (add_sample ops t s).project_totals ≡ (
      if is_incomplete s then t.project_totals else add_to ops (project_key s) s t.project_totals)
  unfolding add_sample
  project_step = elim (Bool-cases (is_incomplete s)) [ inl e ↦ rw e refl | inr e ↦ rw e refl ]

  app_step :
      (add_sample ops t s).app_totals
      ≡ (if is_incomplete s then t.app_totals else add_to ops (app_key s) s t.app_totals)
  unfolding add_sample
  app_step = elim (Bool-cases (is_incomplete s)) [ inl e ↦ rw e refl | inr e ↦ rw e refl ]

module _ {Q : Type 0} (ops : Quantities Q) where
  total-new : (meter : Meter) (key : Text) → total meter (totals_of ops key []) ≡ ops.zero_quantity
  unfolding totals_of new_usage_accumulator find
  total-new cpu key = refl
  total-new memory key = refl
  total-new storage key = refl
  total-new egress key = refl
  total-new lb_hours key = refl

-- If adding a quantity of sign 0 changes nothing, then every meter of every tenant, project and
-- app holds exactly the sum of that meter over the complete samples of that subject.
pub aggregate-sum :
    {Q : Type 0} (ops : Quantities Q)
    → AddsZero ops
    → (samples : List (UsageSample Q)) (meter : Meter) (key : Text)
    → let t = aggregate ops no_totals samples in
      (total meter (totals_of ops key t.tenant_totals)
        ≡ sum ops meter (counts tenant_key key) ops.zero_quantity samples)
      × (total meter (totals_of ops key t.project_totals)
          ≡ sum ops meter (counts project_key key) ops.zero_quantity samples)
      × (total meter (totals_of ops key t.app_totals)
          ≡ sum ops meter (counts app_key key) ops.zero_quantity samples)
aggregate-sum {Q = Q} ops adds_zero samples meter key = (
  total-aggregate ops adds_zero (λ t. t.tenant_totals) tenant_key (tenant_step ops) meter key
        no_totals samples
      ∙ start_at_zero tenant_key,
  total-aggregate ops adds_zero (λ t. t.project_totals) project_key (project_step ops) meter key
        no_totals samples
      ∙ start_at_zero project_key,
  total-aggregate ops adds_zero (λ t. t.app_totals) app_key (app_step ops) meter key no_totals
        samples
      ∙ start_at_zero app_key,
)
  where
    start_at_zero :
        (key_of : UsageSample Q → Text)
        → sum ops meter (counts key_of key) (total meter (totals_of ops key [])) samples
          ≡ sum ops meter (counts key_of key) ops.zero_quantity samples
    start_at_zero key_of =
        ap (λ start. sum ops meter (counts key_of key) start samples) (total-new ops meter key)
