-- ===== src/Cluster.antt =====
-- What the operator takes from elsewhere: the API server, read by the controller-runtime client,
-- and the parsers of other packages. These are parameters of the model, with no law assumed.
pub mod Found
use kube_op.Prelude.{Bool, Option}
use kube_op.Text.{Text}
use kube_op.StringMap.{StringMap}
use kube_op.Api.{ObjectMeta, App, Project, NetworkPolicyProfile}

-- The outcome of `client.Get`: the object, a NotFound error, or another error.
pub data Fetch {ℓ} (A : Type ℓ) : Type ℓ where
  found : A → Fetch A
  not_found : Fetch A
  failed : Fetch A

-- `types.NamespacedName`
pub record Key : Type 0 where
  pub namespace : Text
  pub name : Text

-- `client.Get` for each kind. Of most kinds only the metadata is read; of a ConfigMap, the data.
pub record Client : Type 0 where
  pub config_map : Key → Fetch StringMap
  pub config_ref : Key → Fetch ObjectMeta
  pub secret_ref : Key → Fetch ObjectMeta
  pub ingress_route : Key → Fetch ObjectMeta
  pub bucket_policy : Key → Fetch ObjectMeta
  pub database_instance : Key → Fetch ObjectMeta
  pub cache_instance : Key → Fetch ObjectMeta
  pub queue_instance : Key → Fetch ObjectMeta
  pub service_account : Key → Fetch ObjectMeta
  pub app : Key → Fetch App
  pub project : Key → Fetch Project
  pub network_policy_profile : Text → Fetch NetworkPolicyProfile

-- An image reference of go-containerregistry: `Context().Name()` and `Context().RegistryStr()`.
pub record ImageReference : Type 0 where
  pub repository : Text
  pub registry : Text

-- The fields of `url.URL` that the webhook reads.
pub record UrlParts : Type 0 where
  pub host : Text
  pub path : Text

-- `semver.NewVersion` and `semver.NewConstraint` (do they succeed?), `name.ParseReference` with
-- strict validation, and `url.Parse`.
pub record Parsers : Type 0 where
  pub is_version : Text → Bool
  pub is_constraint : Text → Bool
  pub parse_reference : Text → Option ImageReference
  pub parse_url : Text → Option UrlParts
