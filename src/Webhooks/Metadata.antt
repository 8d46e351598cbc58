-- ===== src/Webhooks/Metadata.antt =====
-- The label checks that every webhook makes, and the defaulting of metadata.
use kube_op.Prelude.{
  String, ◌≡◌, ◌≢◌, refl, Bool, true, false, ◌↔◌, ◌⊎◌, inl, inr, List, [], ◌∷◌, Option, none, some,
  arith, All, if◌then◌else◌, ok,
}
use kube_op.Text.{Text, is_empty, trim_space}
use kube_op.Text.Equality.{same_iff}
use kube_op.StringMap.{StringMap, get}
use kube_op.Field.{FieldError, ErrorList}
use kube_op.Api.{ObjectMeta}
use kube_op.Webhooks.{
  label_tenant, required_label_keys, trimmed_label, default_metadata, missing_labels,
  validate_required_labels, validate_tenant_immutability, Warning, Verdict, verdict, or_empty, when,
  on_create,
}

-- Every required label holds something besides white space.
abbrev pub HasRequiredLabels : ObjectMeta → Type 0
HasRequiredLabels m = All (λ name. trimmed_label m name ≢ []) required_label_keys

-- A tenant, once set, stays.
abbrev pub KeepsTenant : Option ObjectMeta → ObjectMeta → Type 0
KeepsTenant none m = Unit
KeepsTenant (some old) m =
    (trimmed_label old label_tenant ≡ [])
    ⊎ (trimmed_label m label_tenant ≡ trimmed_label old label_tenant)

pub cons_iff :
    (t : Text) (e : FieldError) (rest : ErrorList) (P : Type 0)
    → (rest ≡ []) ↔ P
    → ((if is_empty t then e ∷ rest else rest) ≡ []) ↔ ((t ≢ []) × P)
cons_iff [] e rest P h = (λ k. cc, λ k. absurd (k.0 refl))
cons_iff (c ∷ t) e rest P h = (λ k. ((λ (n : c ∷ t ≡ []). cc), h.0 k), λ k. h.1 k.1)

missing_labels_iff :
    (m : ObjectMeta) (names : List String)
    → (missing_labels m names ≡ []) ↔ All (λ name. trimmed_label m name ≢ []) names
unfolding missing_labels
missing_labels_iff m [] = (λ h. tt, λ h. refl)
missing_labels_iff m (name ∷ names) =
    cons_iff (trimmed_label m name) _ _ _ (missing_labels_iff m names)

pub validate_required_labels_iff :
    (m : ObjectMeta) → (validate_required_labels m ≡ []) ↔ HasRequiredLabels m
unfolding validate_required_labels
validate_required_labels_iff m = missing_labels_iff m required_label_keys

pub is_empty-cases :
    (t : Text) → ((is_empty t ≡ true) × (t ≡ [])) ⊎ ((is_empty t ≡ false) × (t ≢ []))
is_empty-cases [] = inl (refl, refl)
is_empty-cases (c ∷ t) = inr (refl, λ (n : c ∷ t ≡ []). cc)

pub validate_tenant_immutability_iff :
    (old : Option ObjectMeta) (m : ObjectMeta)
    → (validate_tenant_immutability old m ≡ []) ↔ KeepsTenant old m
unfolding validate_tenant_immutability
validate_tenant_immutability_iff none m = (λ h. tt, λ h. refl)
validate_tenant_immutability_iff (some old) m = ground (
  arith,
  is_empty-cases (trimmed_label old label_tenant),
  same_iff (trimmed_label m label_tenant) (trimmed_label old label_tenant),
)

-- The defaulting changes no label: a missing map and an empty one read alike.
pub get-or_empty : (m : Option StringMap) (name : String) → get (or_empty m) name ≡ get m name
unfolding get
get-or_empty none name = refl
get-or_empty (some m) name = refl

pub default_metadata_idem :
    (m : ObjectMeta) → default_metadata (default_metadata m) ≡ default_metadata m
unfolding default_metadata
default_metadata_idem m = ground (arith, twice m.labels, twice m.annotations)
  where
    twice : (o : Option StringMap) → or_empty (or_empty o) ≡ or_empty o
    twice none = refl
    twice (some s) = refl

pub verdict_iff :
    (kind : String) (name : Text) (warnings admitted : List Warning) (es : ErrorList)
    → (verdict kind name warnings es ≡ ok admitted) ↔ ((es ≡ []) × (warnings ≡ admitted))
verdict_iff kind name warnings admitted [] = ground arith
verdict_iff kind name warnings admitted (e ∷ es) = ground arith

pub when_iff : (b : Bool) (e : FieldError) → (when b e ≡ []) ↔ (b ≡ false)
when_iff b e = ground arith

-- A handler that admits has asserted its objects and passed its checks.
pub on_create_iff {ℓ} :
    {A : Type ℓ} (o : Option A) (check : A → Verdict) (w : List Warning)
    → (on_create o check ≡ ok w) ↔ ((a : A) × (o ≡ some a) × (check a ≡ ok w))
on_create_iff none check w = (λ h. cc, λ (a, e, h). cc)
on_create_iff (some a) check w = (λ h. (a, refl, h), λ (b, e, h). ground (arith, e, h))

-- A label that holds something besides white space is not empty.
pub label-ne-nil : (t : Text) → trim_space t ≢ [] → t ≢ []
unfolding trim_space
label-ne-nil [] h = λ e. h refl
label-ne-nil (c ∷ t) h = λ (e : c ∷ t ≡ []). cc

-- Checks that are made unless a text is blank.
pub unless_blank_iff :
    (t : Text) (es : ErrorList) (P : Type 0)
    → (es ≡ []) ↔ P
    → ((if is_empty t then [] else es) ≡ []) ↔ ((t ≡ []) ⊎ P)
unless_blank_iff [] es P h = (λ k. inl refl, λ k. refl)
unless_blank_iff (c ∷ t) es P h = (λ k. inr (h.0 k), λ k. elim k [ inl n ↦ cc | inr p ↦ h.1 p ])
