-- ===== src/Webhooks/Bindings.antt =====
-- `ServiceBindingWebhook`: the consumer and the provider of a binding belong to its tenant.
pub mod Admission
use kube_op.Prelude.{
  ◌≡◌, ◌≢◌, refl, Bool, true, false, not, ◌↔◌, ◌⊎◌, inl, inr, List, [], ◌∷◌, ◌++◌, Option, none,
  some, Result, ok, err, arith, both_iff, Bool-cases, if◌then◌else◌,
}
use kube_op.Text.{Text, text, is_empty, same, trim_space}
use kube_op.Text.Equality.{same_iff}
use kube_op.StringMap.{get}
use kube_op.Field.{FieldPath, child, at, ErrorList, required, invalid, forbidden, internal}
use kube_op.Api.{ObjectMeta, App, BindingTarget, ServiceBinding}
use kube_op.Cluster.{Client, Key, Fetch, found, not_found, failed}
use kube_op.Cluster.Found.{Found, Found_iff}
use kube_op.Webhooks.{
  Object, binding, Verdict, on_create, on_update, verdict, when, default_metadata, label,
  validate_required_labels, validate_tenant_immutability, label_tenant, trimmed_label,
}
use kube_op.Webhooks.Metadata.{
  HasRequiredLabels, KeepsTenant, validate_required_labels_iff, validate_tenant_immutability_iff,
  verdict_iff, is_empty-cases,
}

abbrev as_binding : Object → Option ServiceBinding
as_binding (binding b) = some b
as_binding _ = none

abbrev old_meta : Option ServiceBinding → Option ObjectMeta
old_meta none = none
old_meta (some b) = some b.meta

abbrev consumer_path : FieldPath
consumer_path = child "spec" ∷ child "consumerRef" ∷ []

abbrev provider_path : FieldPath
provider_path = child "spec" ∷ child "providerRef" ∷ []

abbrev target_key : ServiceBinding → BindingTarget → Key
target_key b target = record { namespace = b.meta.namespace; name = target.name }

-- What a lookup of a target reports, when a found object is checked by `test`.
unfoldable pub target_errors {ℓ} :
    {A : Type ℓ} → FieldPath → Text → (A → Bool) → Fetch A → ErrorList
target_errors path name test not_found = invalid (at path (child "name")) name ∷ []
target_errors path name test failed = internal (at path (child "name")) ∷ []
target_errors path name test (found a) = when (not (test a)) (forbidden (at path (child "name")))

abbrev in_tenant : Text → ObjectMeta → Bool
in_tenant tenant m = same (label m label_tenant) tenant

unfoldable pub validate_consumer : Client → ServiceBinding → Text → ErrorList
unfolding target_errors same get
validate_consumer client b tenant =
    if same b.consumer.target_type (text "app")
    then target_errors consumer_path b.consumer.name (λ a. in_tenant tenant a.meta)
        (client.app (target_key b b.consumer))
    else if same b.consumer.target_type (text "serviceAccount")
    then target_errors consumer_path b.consumer.name (λ m. same m.namespace b.meta.namespace)
        (client.service_account (target_key b b.consumer))
    else invalid (at consumer_path (child "type")) b.consumer.target_type ∷ []

-- `providerLookupError` makes the two error cases of `target_errors`.
unfoldable pub validate_provider : Client → ServiceBinding → Text → ErrorList
unfolding target_errors same get trim_space
validate_provider client b tenant =
    if is_empty (trim_space b.provider.name)
    then required (at provider_path (child "name")) ∷ []
    else if same b.provider.target_type (text "database")
    then target_errors provider_path b.provider.name (in_tenant tenant)
        (client.database_instance (target_key b b.provider))
    else if same b.provider.target_type (text "cache")
    then target_errors provider_path b.provider.name (in_tenant tenant)
        (client.cache_instance (target_key b b.provider))
    else if same b.provider.target_type (text "queue")
    then target_errors provider_path b.provider.name (in_tenant tenant)
        (client.queue_instance (target_key b b.provider))
    else invalid (at provider_path (child "type")) b.provider.target_type ∷ []

unfoldable pub tenant_errors : Client → ServiceBinding → Text → ErrorList
unfolding validate_consumer validate_provider
tenant_errors client b tenant =
    if is_empty tenant
    then []
    else validate_consumer client b tenant ++ validate_provider client b tenant

unfoldable pub validate_binding : Client → Option ServiceBinding → ServiceBinding → ErrorList
unfolding validate_required_labels validate_tenant_immutability tenant_errors trim_space get
validate_binding client old b =
    validate_required_labels b.meta
    ++ (validate_tenant_immutability (old_meta old) b.meta
        ++ tenant_errors client b (trimmed_label b.meta label_tenant))

-- The binding after `Default`, or an error for an object of another kind.
pub default : Object → Result (Unit {0}) ServiceBinding
unfolding default_metadata
default obj = elim (as_binding obj) [
  | none ↦ err tt
  | some b ↦ ok (record b { meta = default_metadata b.meta })
]

unfoldable pub validate_create : Client → Object → Verdict
unfolding validate_binding
validate_create client obj =
    on_create (as_binding obj)
      λ b. verdict "ServiceBinding" b.meta.name [] (validate_binding client none b)

unfoldable pub validate_update : Client → Object → Object → Verdict
unfolding validate_binding
validate_update client old_obj new_obj =
    on_update (as_binding old_obj) (as_binding new_obj)
      λ old b. verdict "ServiceBinding" b.meta.name [] (validate_binding client (some old) b)

-- `ValidateDelete` admits every deletion.
pub validate_delete : Object → Verdict
validate_delete obj = ok []

abbrev InTenant : Text → ObjectMeta → Type 0
InTenant tenant m = label m label_tenant ≡ tenant

-- The consumer is an app of the tenant, or a service account of the binding's namespace.
pub data ConsumerAllowed (client : Client) (b : ServiceBinding) (tenant : Text) : Type 0 where
  app :
      b.consumer.target_type ≡ text "app"
      → Found (client.app (target_key b b.consumer)) (λ a. InTenant tenant a.meta)
      → ConsumerAllowed client b tenant
  service_account :
      b.consumer.target_type ≡ text "serviceAccount"
      → Found
          (client.service_account (target_key b b.consumer))
          (λ m. m.namespace ≡ b.meta.namespace)
      → ConsumerAllowed client b tenant

-- The provider is a database, a cache or a queue of the tenant.
pub data ProviderAllowed (client : Client) (b : ServiceBinding) (tenant : Text) : Type 0 where
  database :
      b.provider.target_type ≡ text "database"
      → Found (client.database_instance (target_key b b.provider)) (InTenant tenant)
      → ProviderAllowed client b tenant
  cache :
      b.provider.target_type ≡ text "cache"
      → Found (client.cache_instance (target_key b b.provider)) (InTenant tenant)
      → ProviderAllowed client b tenant
  queue :
      b.provider.target_type ≡ text "queue"
      → Found (client.queue_instance (target_key b b.provider)) (InTenant tenant)
      → ProviderAllowed client b tenant

pub record IsAdmissible (client : Client) (old : Option ServiceBinding) (b : ServiceBinding)
    : Type 0 where
  pub labelled : HasRequiredLabels b.meta
  pub keeps_tenant : KeepsTenant (old_meta old) b.meta
  pub consumer : ConsumerAllowed client b (trimmed_label b.meta label_tenant)
  pub provider_named : trim_space b.provider.name ≢ []
  pub provider : ProviderAllowed client b (trimmed_label b.meta label_tenant)
