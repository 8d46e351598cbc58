-- ===== src/Api.antt =====
-- kubeop-operator/apis/paas/v1alpha1: the resources, with the fields that the operator's webhooks
-- read. Every string is a `Text`; a pointer is an `Option`.
use kube_op.Prelude.{ℕ, Bool, List, Option}
use kube_op.Text.{Text}
use kube_op.StringMap.{StringMap}

-- metav1.ObjectMeta. A nil map is `none`.
pub record ObjectMeta : Type 0 where
  pub name : Text
  pub namespace : Text
  pub labels : Option StringMap
  pub annotations : Option StringMap

pub data AppType : Type 0 where
  helm_repo helm_oci kustomize raw git : AppType
  other_type : Text → AppType

pub record AppSource : Type 0 where
  pub url : Text
  pub chart : Text
  pub ref : Text

pub record AppServiceProfile : Type 0 where
  pub service_type : Text
  pub ports : List ℕ
  pub is_internal : Bool
  pub external_ips : List Text

pub record AppSpec : Type 0 where
  pub app_type : AppType
  pub source : Option AppSource
  pub image : Text
  pub version : Text
  pub version_range : Text
  pub values_refs : List Text
  pub secrets_refs : List Text
  pub ingress_refs : List Text
  pub service_profile : Option AppServiceProfile

pub record App : Type 0 where
  pub meta : ObjectMeta
  pub spec : AppSpec

pub record ProjectSpec : Type 0 where
  pub tenant_ref : Text
  pub network_policy_profile_ref : Text

pub record Project : Type 0 where
  pub meta : ObjectMeta
  pub spec : ProjectSpec

pub record ServiceExposurePolicy : Type 0 where
  pub allowed_types : List Text
  pub allowed_external_ips : List Text

pub record NetworkPolicyProfile : Type 0 where
  pub meta : ObjectMeta
  pub service_policy : Option ServiceExposurePolicy

pub record AppReleaseSpec : Type 0 where
  pub app_ref : Text
  pub version : Text
  pub resolved_source : Text
  pub digest : Text
  pub rendered_config_hash : Text

pub record AppRelease : Type 0 where
  pub meta : ObjectMeta
  pub spec : AppReleaseSpec

-- A consumer or a provider of a binding: its type, as text, and its name.
pub record BindingTarget : Type 0 where
  pub target_type : Text
  pub name : Text

pub record ServiceBinding : Type 0 where
  pub meta : ObjectMeta
  pub consumer : BindingTarget
  pub provider : BindingTarget

pub record Bucket : Type 0 where
  pub meta : ObjectMeta
  pub policy_refs : List Text

-- corev1.SecurityContext. `added_capabilities` is `none` where `Capabilities` is nil. A user id is
-- a natural number: only 0 is told apart from the others.
pub record SecurityContext : Type 0 where
  pub added_capabilities : Option (List Text)
  pub run_as_non_root : Option Bool
  pub run_as_user : Option ℕ

pub record PodSecurityContext : Type 0 where
  pub run_as_non_root : Option Bool
  pub run_as_user : Option ℕ

pub record Volume : Type 0 where
  pub name : Text
  pub host_path : Option Text

pub record Container : Type 0 where
  pub name : Text
  pub security_context : Option SecurityContext

pub record PodSpec : Type 0 where
  pub host_network : Bool
  pub host_pid : Bool
  pub host_ipc : Bool
  pub volumes : List Volume
  pub init_containers : List Container
  pub containers : List Container
  pub security_context : Option PodSecurityContext

pub record Job : Type 0 where
  pub meta : ObjectMeta
  pub pod_spec : PodSpec
