-- ===== src/Webhooks/LabelGuard.antt =====
-- `LabelGuardWebhook`: the label checks alone, for any kind of object.
use kube_op.Prelude.{
  String, ◌≡◌, refl, ◌↔◌, [], ◌++◌, Option, none, some, Result, ok, err, append-eq-nil_iff, arith,
}
use mathlib.Core.Option.{some-injective}
use kube_op.Api.{ObjectMeta}
use kube_op.Webhooks.{
  Object, Verdict, on_create, on_update, verdict, meta_of, default_metadata,
  validate_required_labels, validate_tenant_immutability,
}
use kube_op.Webhooks.Metadata.{
  HasRequiredLabels, KeepsTenant, validate_required_labels_iff, validate_tenant_immutability_iff,
  verdict_iff,
}

-- The object's metadata after `Default`, or the accessor's error.
pub default : Object → Result (Unit {0}) ObjectMeta
unfolding default_metadata
default obj = elim (meta_of obj) [ none ↦ err tt | some m ↦ ok (default_metadata m) ]

unfoldable pub validate_create : String → Object → Verdict
unfolding validate_required_labels
validate_create kind obj =
    on_create (meta_of obj) λ m. verdict kind m.name [] (validate_required_labels m)

unfoldable pub validate_update : String → Object → Object → Verdict
unfolding validate_required_labels validate_tenant_immutability
validate_update kind old_obj new_obj = on_update (meta_of old_obj) (meta_of new_obj) λ old m.
    verdict kind m.name [] (validate_required_labels m ++ validate_tenant_immutability (some old) m)

-- `ValidateDelete` admits every deletion.
pub validate_delete : String → Object → Verdict
validate_delete kind obj = ok []

admits_iff :
    (kind : String) (old m : ObjectMeta)
    → (verdict kind m.name []
          (validate_required_labels m ++ validate_tenant_immutability (some old) m)
        ≡ ok [])
      ↔ (HasRequiredLabels m × KeepsTenant (some old) m)
admits_iff kind old m = ground (
  arith,
  verdict_iff kind m.name [] []
      (validate_required_labels m ++ validate_tenant_immutability (some old) m),
  append-eq-nil_iff (validate_required_labels m) (validate_tenant_immutability (some old) m),
  validate_required_labels_iff m,
  validate_tenant_immutability_iff (some old) m,
)

-- The label guard admits an update exactly when both objects have metadata, the new one has the
-- required labels, and the tenant label, once set, stays; whatever the kind.
pub label_guard_admission_iff :
    (kind : String) (old_obj new_obj : Object)
    → (validate_update kind old_obj new_obj ≡ ok []) ↔ (
        (old : ObjectMeta) × (m : ObjectMeta) × (meta_of old_obj ≡ some old)
        × (meta_of new_obj ≡ some m)
        × HasRequiredLabels m
        × KeepsTenant (some old) m)
unfolding validate_update
label_guard_admission_iff kind old_obj new_obj = go (meta_of old_obj) (meta_of new_obj)
  where
    go :
        (o n : Option ObjectMeta)
        → (on_update o n (λ old m.
              verdict kind m.name []
                (validate_required_labels m ++ validate_tenant_immutability (some old) m))
            ≡ ok [])
          ↔ ((old : ObjectMeta) × (m : ObjectMeta) × (o ≡ some old)
              × (n ≡ some m)
              × HasRequiredLabels m
              × KeepsTenant (some old) m)
    go none none = (λ h. cc, λ (old, m, e, f, r, k). cc)
    go (some o) none = (λ h. cc, λ (old, m, e, f, r, k). cc)
    go none (some n) = (λ h. cc, λ (old, m, e, f, r, k). cc)
    go (some o) (some n) = (
      λ h. let (labelled, keeps) = (admits_iff kind o n).0 h in (o, n, refl, refl, labelled, keeps),
      λ (old, m, e, f, r, k).
          (let a = some-injective o old e in
            let b = some-injective n m f in rw (a, b) ((admits_iff kind old m).1 (r, k))),
    )
