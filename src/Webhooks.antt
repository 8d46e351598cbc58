-- ===== src/Webhooks.antt =====
-- kubeop-operator/internal/webhooks/webhooks.go: what the admission webhooks share. The webhooks
-- themselves are the child modules.
pub mod Metadata
pub mod LabelGuard
pub mod Projects
pub mod Buckets
pub mod Releases
pub mod Bindings
pub mod Jobs
pub mod Apps
pub mod History
pub mod Tests
use kube_op.Prelude.{
  String, Bool, true, false, not, ◌&&◌, List, [], ◌∷◌, ◌++◌, Option, none, some, Result, ok, err,
  if◌then◌else◌,
}
use kube_op.Text.{Text, is_empty, same, trim_space}
use kube_op.StringMap.{get}
use kube_op.Field.{child, key, FieldPath, at, FieldError, required, forbidden, ErrorList}
use kube_op.Api.{ObjectMeta, App, Project, AppRelease, ServiceBinding, Bucket, Job}

abbrev pub label_tenant : String
label_tenant = "paas.kubeop.io/tenant"

abbrev pub label_project : String
label_project = "paas.kubeop.io/project"

abbrev pub label_app : String
label_app = "paas.kubeop.io/app"

abbrev pub required_label_keys : List String
required_label_keys = label_tenant ∷ label_project ∷ label_app ∷ []

abbrev pub labels_path : FieldPath
labels_path = child "metadata" ∷ child "labels" ∷ []

-- The label of an object, "" if it is missing.
abbrev pub label : ObjectMeta → String → Text
label m name = get m.labels name

-- `strings.TrimSpace` of a label.
abbrev pub trimmed_label : ObjectMeta → String → Text
trimmed_label m name = trim_space (label m name)

abbrev pub or_empty {ℓ} : {A : Type ℓ} → Option (List A) → Option (List A)
or_empty none = some []
or_empty (some m) = some m

unfoldable pub default_metadata : ObjectMeta → ObjectMeta
default_metadata m = record m { labels = or_empty m.labels; annotations = or_empty m.annotations }

unfoldable pub missing_labels : ObjectMeta → List String → ErrorList
missing_labels m [] = []
missing_labels m (name ∷ names) =
    let rest = missing_labels m names in
    if is_empty (trimmed_label m name) then required (at labels_path (key name)) ∷ rest else rest

unfoldable pub validate_required_labels : ObjectMeta → ErrorList
unfolding missing_labels trim_space get
validate_required_labels m = missing_labels m required_label_keys

-- `if test { errs = append(errs, e) }`
abbrev pub when : Bool → FieldError → ErrorList
when true e = e ∷ []
when false e = []

-- `none` is a nil object.
unfoldable pub validate_tenant_immutability : Option ObjectMeta → ObjectMeta → ErrorList
unfolding trim_space get same
validate_tenant_immutability none m = []
validate_tenant_immutability (some old) m =
    let old_tenant = trimmed_label old label_tenant in
    let new_tenant = trimmed_label m label_tenant in
    when (not (is_empty old_tenant) && not (same new_tenant old_tenant))
      (forbidden (at labels_path (key label_tenant)))

-- A `runtime.Object`, told apart by the type assertions of the webhooks. `other` is an object of
-- any further kind; `opaque` has no metadata, so that `meta.Accessor` fails.
pub data Object : Type 0 where
  app : App → Object
  project : Project → Object
  release : AppRelease → Object
  binding : ServiceBinding → Object
  bucket : Bucket → Object
  job : Job → Object
  other : ObjectMeta → Object
  opaque : Object

pub data AdmissionError : Type 0 where
  bad_request : AdmissionError
  invalid_object : String → Text → ErrorList → AdmissionError

pub data Warning : Type 0 where
  requires_cosign : Warning

abbrev pub Verdict : Type 0
Verdict = Result AdmissionError (List Warning)

-- The end of every handler: `if len(errs) > 0 { return nil, NewInvalid(…) }`.
abbrev pub verdict : String → Text → List Warning → ErrorList → Verdict
verdict kind name warnings [] = ok warnings
verdict kind name warnings (e ∷ es) = err (invalid_object kind name (e ∷ es))

-- The shape of `ValidateCreate`: a type assertion, then the checks.
abbrev pub on_create {ℓ} : {A : Type ℓ} → Option A → (A → Verdict) → Verdict
on_create none check = err bad_request
on_create (some a) check = check a

-- The shape of `ValidateUpdate`: the new object is asserted first.
abbrev pub on_update {ℓ} : {A : Type ℓ} → Option A → Option A → (A → A → Verdict) → Verdict
on_update old none check = err bad_request
on_update none (some new) check = err bad_request
on_update (some old) (some new) check = check old new

abbrev pub meta_of : Object → Option ObjectMeta
meta_of (app a) = some a.meta
meta_of (project p) = some p.meta
meta_of (release r) = some r.meta
meta_of (binding b) = some b.meta
meta_of (bucket b) = some b.meta
meta_of (job j) = some j.meta
meta_of (other m) = some m
meta_of opaque = none
