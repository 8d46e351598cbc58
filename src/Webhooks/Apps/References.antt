-- ===== src/Webhooks/Apps/References.antt =====
-- `validateConfigRefs`, `validateSecretRefs` and `validateIngressRefs`: an app refers only to
-- objects of its tenant.
use kube_op.Prelude.{ℕ, suc, String, ◌≡◌, refl, not, ◌↔◌, List, [], ◌∷◌, ◌++◌, arith, both_iff, All}
use kube_op.Text.{Text, same}
use kube_op.Text.Equality.{same_iff}
use kube_op.StringMap.{get}
use kube_op.Field.{FieldPath, child, index, at, ErrorList, invalid, forbidden, internal}
use kube_op.Api.{ObjectMeta, App}
use kube_op.Cluster.{Client, Key, Fetch, found, not_found, failed}
use kube_op.Cluster.Found.{Found, Found_iff}
use kube_op.Webhooks.{when, label, label_tenant}

-- The body of the loop, which the three functions share word for word.
unfoldable pub reference_errors : FieldPath → Text → Text → Fetch ObjectMeta → ErrorList
unfolding same get
reference_errors path name tenant not_found = invalid path name ∷ []
reference_errors path name tenant failed = internal path ∷ []
reference_errors path name tenant (found m) =
    when (not (same (label m label_tenant) tenant)) (forbidden path)

-- The loop over the names, from index `i` on.
unfoldable pub references_errors :
    FieldPath → (Key → Fetch ObjectMeta) → Text → Text → ℕ → List Text → ErrorList
unfolding reference_errors
references_errors path fetch namespace tenant i [] = []
references_errors path fetch namespace tenant i (name ∷ names) =
    reference_errors (at path (index i)) name tenant
      (fetch (record { namespace = namespace; name = name }))
    ++ references_errors path fetch namespace tenant (suc i) names

abbrev ref_path : String → FieldPath
ref_path list = child "spec" ∷ child list ∷ []

unfoldable pub validate_config_refs : Client → App → Text → ErrorList
unfolding references_errors
validate_config_refs client a tenant =
    references_errors (ref_path "valuesRefs") client.config_ref a.meta.namespace tenant 0
      a.spec.values_refs

unfoldable pub validate_secret_refs : Client → App → Text → ErrorList
unfolding references_errors
validate_secret_refs client a tenant =
    references_errors (ref_path "secretsRefs") client.secret_ref a.meta.namespace tenant 0
      a.spec.secrets_refs

unfoldable pub validate_ingress_refs : Client → App → Text → ErrorList
unfolding references_errors
validate_ingress_refs client a tenant =
    references_errors (ref_path "ingressRefs") client.ingress_route a.meta.namespace tenant 0
      a.spec.ingress_refs

-- The object exists in the namespace, and its tenant label is the tenant.
abbrev pub Owned : (Key → Fetch ObjectMeta) → Text → Text → Text → Type 0
Owned fetch namespace tenant name =
    Found (fetch (record { namespace = namespace; name = name }))
      (λ m. label m label_tenant ≡ tenant)

reference_errors_iff :
    (path : FieldPath) (name tenant : Text) (f : Fetch ObjectMeta)
    → (reference_errors path name tenant f ≡ []) ↔ Found f (λ m. label m label_tenant ≡ tenant)
unfolding reference_errors
reference_errors_iff path name tenant =
    Found_iff (λ m. label m label_tenant ≡ tenant) (reference_errors path name tenant) (λ e. cc)
      (λ e. cc) (λ m. ground (arith, same_iff (label m label_tenant) tenant))

module _ (path : FieldPath) (fetch : Key → Fetch ObjectMeta) (namespace tenant : Text) where
  pub references_errors_iff :
      (i : ℕ) (names : List Text)
      → (references_errors path fetch namespace tenant i names ≡ [])
        ↔ All (Owned fetch namespace tenant) names
  unfolding references_errors
  references_errors_iff i [] = (λ h. tt, λ h. refl)
  references_errors_iff i (name ∷ names) =
      both_iff (reference_errors_iff (at path (index i)) name tenant _)
        (λ _. references_errors_iff (suc i) names)

-- All that the app refers to belongs to the tenant.
pub record RefersWithin (client : Client) (a : App) (tenant : Text) : Type 0 where
  pub values : All (Owned client.config_ref a.meta.namespace tenant) a.spec.values_refs
  pub secrets : All (Owned client.secret_ref a.meta.namespace tenant) a.spec.secrets_refs
  pub ingresses : All (Owned client.ingress_route a.meta.namespace tenant) a.spec.ingress_refs

pub refs_iff :
    (client : Client) (a : App) (tenant : Text)
    → (validate_config_refs client a tenant
          ++ (validate_secret_refs client a tenant ++ validate_ingress_refs client a tenant)
        ≡ [])
      ↔ RefersWithin client a tenant
unfolding validate_config_refs validate_secret_refs validate_ingress_refs
refs_iff client a tenant =
    let ns = a.meta.namespace in
    let (to, from) =
      both_iff
        (references_errors_iff (ref_path "valuesRefs") client.config_ref ns tenant 0
          a.spec.values_refs)
        (λ _.
          both_iff
            (references_errors_iff (ref_path "secretsRefs") client.secret_ref ns tenant 0
              a.spec.secrets_refs)
            (λ _.
              references_errors_iff (ref_path "ingressRefs") client.ingress_route ns tenant 0
                a.spec.ingress_refs)) in
    (
      λ h. let (v, (s, i)) = to h in record { values = v; secrets = s; ingresses = i },
      λ r. from (r.values, (r.secrets, r.ingresses)),
    )
