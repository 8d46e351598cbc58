-- ===== src/Webhooks/Buckets.antt =====
-- `BucketWebhook`: a bucket may use only the policies of its tenant, project and app.
use kube_op.Prelude.{
  ℕ, suc, ◌≡◌, ◌≢◌, refl, Bool, false, not, ◌&&◌, ◌↔◌, List, [], ◌∷◌, ◌++◌, Option, none, some,
  Result, ok, err, arith, both_iff, All, String,
}
use kube_op.Text.{Text, is_empty, same, trim_space}
use kube_op.Text.Equality.{same_iff}
use kube_op.StringMap.{get}
use kube_op.Field.{FieldPath, child, index, at, ErrorList, invalid, forbidden, internal}
use kube_op.Api.{ObjectMeta, Bucket}
use kube_op.Cluster.{Client, Fetch, found, not_found, failed}
use kube_op.Cluster.Found.{Found, Found_iff}
use kube_op.Webhooks.{
  Object, bucket, Verdict, on_create, on_update, verdict, when, default_metadata, label,
  validate_required_labels, validate_tenant_immutability, label_tenant, label_project, label_app,
  trimmed_label,
}
use kube_op.Webhooks.Metadata.{
  HasRequiredLabels, KeepsTenant, validate_required_labels_iff, validate_tenant_immutability_iff,
  verdict_iff, is_empty-cases,
}

abbrev as_bucket : Object → Option Bucket
as_bucket (bucket b) = some b
as_bucket _ = none

abbrev old_meta : Option Bucket → Option ObjectMeta
old_meta none = none
old_meta (some b) = some b.meta

abbrev refs_path : FieldPath
refs_path = child "spec" ∷ child "policyRefs" ∷ []

-- A policy's label differs from the bucket's, which is not empty.
unfoldable pub label_differs : ObjectMeta → ObjectMeta → String → Bool
unfolding trim_space get same
label_differs m policy name =
    not (is_empty (trimmed_label m name)) && not (same (label policy name) (trimmed_label m name))

-- One round of the loop over `spec.policyRefs`.
unfoldable pub policy_ref_errors : ObjectMeta → ℕ → Text → Fetch ObjectMeta → ErrorList
unfolding label_differs
policy_ref_errors m i name not_found = invalid (at refs_path (index i)) name ∷ []
policy_ref_errors m i name failed = internal (at refs_path (index i)) ∷ []
policy_ref_errors m i name (found policy) =
    when (label_differs m policy label_tenant) (forbidden (at refs_path (index i)))
    ++ (when (label_differs m policy label_project) (forbidden (at refs_path (index i)))
        ++ when (label_differs m policy label_app) (forbidden (at refs_path (index i))))

unfoldable pub policy_refs_errors : Client → ObjectMeta → ℕ → List Text → ErrorList
unfolding policy_ref_errors
policy_refs_errors client m i [] = []
policy_refs_errors client m i (name ∷ names) =
    policy_ref_errors m i name
      (client.bucket_policy (record { namespace = m.namespace; name = name }))
    ++ policy_refs_errors client m (suc i) names

unfoldable pub validate_bucket : Client → Option Bucket → Bucket → ErrorList
unfolding validate_required_labels validate_tenant_immutability policy_refs_errors
validate_bucket client old b =
    validate_required_labels b.meta
    ++ (validate_tenant_immutability (old_meta old) b.meta
        ++ policy_refs_errors client b.meta 0 b.policy_refs)

-- The bucket after `Default`, or an error for an object of another kind.
pub default : Object → Result (Unit {0}) Bucket
unfolding default_metadata
default obj = elim (as_bucket obj) [
  | none ↦ err tt
  | some b ↦ ok (record b { meta = default_metadata b.meta })
]

unfoldable pub validate_create : Client → Object → Verdict
unfolding validate_bucket
validate_create client obj =
    on_create (as_bucket obj) λ b. verdict "Bucket" b.meta.name [] (validate_bucket client none b)

unfoldable pub validate_update : Client → Object → Object → Verdict
unfolding validate_bucket
validate_update client old_obj new_obj =
    on_update (as_bucket old_obj) (as_bucket new_obj)
      λ old b. verdict "Bucket" b.meta.name [] (validate_bucket client (some old) b)

-- `ValidateDelete` admits every deletion.
pub validate_delete : Object → Verdict
validate_delete obj = ok []

-- The policy exists and carries the bucket's three labels.
pub record Shares (m policy : ObjectMeta) : Type 0 where
  pub tenant : label policy label_tenant ≡ trimmed_label m label_tenant
  pub project : label policy label_project ≡ trimmed_label m label_project
  pub app : label policy label_app ≡ trimmed_label m label_app

abbrev pub UsesPolicy : Client → ObjectMeta → Text → Type 0
UsesPolicy client m name =
    Found (client.bucket_policy (record { namespace = m.namespace; name = name })) (Shares m)

pub record IsAdmissible (client : Client) (old : Option Bucket) (b : Bucket) : Type 0 where
  pub labelled : HasRequiredLabels b.meta
  pub keeps_tenant : KeepsTenant (old_meta old) b.meta
  pub policies : All (UsesPolicy client b.meta) b.policy_refs

label_differs_iff :
    (m policy : ObjectMeta) (name : String)
    → trimmed_label m name ≢ []
    → (label_differs m policy name ≡ false) ↔ (label policy name ≡ trimmed_label m name)
unfolding label_differs
label_differs_iff m policy name ne = ground (
  arith,
  is_empty-cases (trimmed_label m name),
  same_iff (label policy name) (trimmed_label m name),
)

module _ (m : ObjectMeta) (labelled : HasRequiredLabels m) where
  found_iff :
      (i : ℕ) (name : Text) (policy : ObjectMeta)
      → (policy_ref_errors m i name (found policy) ≡ []) ↔ Shares m policy
  unfolding policy_ref_errors
  found_iff i name policy = ground (
    arith,
    label_differs_iff m policy label_tenant labelled.0,
    label_differs_iff m policy label_project labelled.1.0,
    label_differs_iff m policy label_app labelled.1.1.0,
  )

  policy_ref_errors_iff :
      (i : ℕ) (name : Text) (f : Fetch ObjectMeta)
      → (policy_ref_errors m i name f ≡ []) ↔ Found f (Shares m)
  policy_ref_errors_iff i name =
      Found_iff (Shares m) (policy_ref_errors m i name) (unfold policy_ref_errors in λ h. cc)
        (unfold policy_ref_errors in λ h. cc) (found_iff i name)

  policy_refs_errors_iff :
      (client : Client) (i : ℕ) (names : List Text)
      → (policy_refs_errors client m i names ≡ []) ↔ All (UsesPolicy client m) names
  unfolding policy_refs_errors
  policy_refs_errors_iff client i [] = (λ h. tt, λ h. refl)
  policy_refs_errors_iff client i (name ∷ names) =
      both_iff (policy_ref_errors_iff i name _) λ _. policy_refs_errors_iff client (suc i) names

validate_bucket_iff :
    (client : Client) (old : Option Bucket) (b : Bucket)
    → (validate_bucket client old b ≡ []) ↔ IsAdmissible client old b
unfolding validate_bucket
validate_bucket_iff client old b =
    let (to, from) = both_iff (validate_required_labels_iff b.meta) (λ labelled.
      both_iff (validate_tenant_immutability_iff (old_meta old) b.meta)
        (λ _. policy_refs_errors_iff b.meta labelled client 0 b.policy_refs)) in
    (
      λ h.
          let (labelled, (keeps, policies)) = to h in
          record { labelled = labelled; keeps_tenant = keeps; policies = policies },
      λ a. from (a.labelled, (a.keeps_tenant, a.policies)),
    )

-- The bucket webhook admits a bucket exactly when it has the required labels, an update keeps the
-- tenant, and every policy that it names exists in its namespace and carries the bucket's tenant,
-- project and app.
pub bucket_admission_iff :
    (client : Client) (b : Bucket)
    → ((validate_create client (bucket b) ≡ ok []) ↔ IsAdmissible client none b)
      × ((old : Bucket)
          → (validate_update client (bucket old) (bucket b) ≡ ok [])
            ↔ IsAdmissible client (some old) b)
unfolding validate_create validate_update
bucket_admission_iff client b = (
  ground (
    arith,
    verdict_iff "Bucket" b.meta.name [] [] (validate_bucket client none b),
    validate_bucket_iff client none b,
  ),
  λ old. ground (
    arith,
    verdict_iff "Bucket" b.meta.name [] [] (validate_bucket client (some old) b),
    validate_bucket_iff client (some old) b,
  ),
)
