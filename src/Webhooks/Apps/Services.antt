-- ===== src/Webhooks/Apps/Services.antt =====
-- When an app's project and its service are accepted.
use kube_op.Prelude.{
  ℕ, suc, ◌≡◌, ◌≢◌, refl, true, false, not, ◌↔◌, ◌⊎◌, inl, inr, List, [], ◌∷◌, Option, none, some,
  arith, both_iff, any_iff, All, Any,
}
use kube_op.Text.{Text, text, same, trim_space}
use kube_op.Text.Equality.{same_iff}
use kube_op.Policy.{is_nil}
use kube_op.Field.{at, child, index, forbidden}
use kube_op.Api.{App, Project, AppServiceProfile, NetworkPolicyProfile}
use kube_op.Cluster.{Client, Fetch, found}
use kube_op.Cluster.Found.{Found, Found_iff}
use kube_op.Webhooks.{when, trimmed_label, label_tenant, label_project}
use kube_op.Webhooks.Metadata.{is_empty-cases}
use kube_op.Webhooks.Apps.Exposure.{
  fetched_project_errors, fetch_project, project_errors, profile_path, cluster_ip, requested_type,
  default_policy_errors, has, allowed_types, type_allowed, ip_errors, allowed_ips,
  external_ip_errors, profile_errors, project_policy_errors, service_errors,
  validate_service_policy,
}

-- The project's tenant, by its spec and by its label, is the app's, wherever it is set.
abbrev pub OwnsApp : Text → Project → Type 0
OwnsApp tenant p =
    ((p.spec.tenant_ref ≡ []) ⊎ (p.spec.tenant_ref ≡ tenant))
    × ((trimmed_label p.meta label_tenant ≡ []) ⊎ (trimmed_label p.meta label_tenant ≡ tenant))

module _ (client : Client) (a : App) (tenant : Text) (ne : tenant ≢ []) where
  fetched_project_errors_iff :
      (name : Text) (f : Fetch Project)
      → (fetched_project_errors tenant name f ≡ []) ↔ Found f (OwnsApp tenant)
  unfolding fetched_project_errors
  fetched_project_errors_iff name =
      Found_iff (OwnsApp tenant) (fetched_project_errors tenant name) (λ e. cc) (λ e. cc)
        (λ p. ground (
          arith,
          is_empty-cases tenant,
          is_empty-cases p.spec.tenant_ref,
          is_empty-cases (trimmed_label p.meta label_tenant),
          same_iff p.spec.tenant_ref tenant,
          same_iff (trimmed_label p.meta label_tenant) tenant,
        ))

  pub project_errors_iff :
      trimmed_label a.meta label_project ≢ []
      → (project_errors client a tenant ≡ []) ↔ Found (fetch_project client a) (OwnsApp tenant)
  unfolding project_errors
  project_errors_iff labelled = elim (is_empty-cases (trimmed_label a.meta label_project)) [
    | inl (e, n) ↦ absurd (labelled n)
    | inr (e, _) ↦
        rw e
          (fetched_project_errors_iff (trimmed_label a.meta label_project) (fetch_project client a))
  ]

-- No load balancer and no external address.
abbrev pub IsUnprivileged : AppServiceProfile → Type 0
IsUnprivileged profile =
    (requested_type profile ≢ text "LoadBalancer") × (profile.external_ips ≡ [])

-- The type is the default or on the profile's list, and every external address is on its list.
abbrev pub IsExposable : AppServiceProfile → NetworkPolicyProfile → Type 0
IsExposable profile n =
    ((requested_type profile ≡ cluster_ip)
      ⊎ Any (λ t. t ≡ requested_type profile) (allowed_types n.service_policy))
    × All (λ ip. Any (λ x. x ≡ ip) (allowed_ips n.service_policy)) profile.external_ips

-- A project that names a network profile is judged by it; without one the service is no load
-- balancer and has no external address.
abbrev pub ServiceAllowed : Client → AppServiceProfile → Option Project → Type 0
ServiceAllowed client profile none = IsUnprivileged profile
ServiceAllowed client profile (some p) =
    ((trim_space p.spec.network_policy_profile_ref ≡ []) × IsUnprivileged profile)
    ⊎ ((trim_space p.spec.network_policy_profile_ref ≢ [])
        × Found (client.network_policy_profile p.spec.network_policy_profile_ref)
            (IsExposable profile))

-- An app without a service profile asks for nothing.
abbrev pub ExposureAllowed : Client → Option AppServiceProfile → Option Project → Type 0
ExposureAllowed client none project = Unit
ExposureAllowed client (some profile) project = ServiceAllowed client profile project

is_nil_iff : (xs : List Text) → (not (is_nil xs) ≡ false) ↔ (xs ≡ [])
is_nil_iff [] = ground arith
is_nil_iff (x ∷ xs) = ground arith

default_policy_errors_iff :
    (profile : AppServiceProfile) → (default_policy_errors profile ≡ []) ↔ IsUnprivileged profile
unfolding default_policy_errors
default_policy_errors_iff profile = ground (
  arith,
  same_iff (requested_type profile) (text "LoadBalancer"),
  is_nil_iff profile.external_ips,
)

has_iff : (items : List Text) (t : Text) → (has items t ≡ true) ↔ Any (λ x. x ≡ t) items
unfolding has
has_iff items t = any_iff (λ item. same item t) (λ x. x ≡ t) (λ x. same_iff x t) items

module _ (allowed : List Text) where
  one_ip_iff :
      (i : ℕ) (ip : Text)
      → (when
            (not (has allowed ip))
            (forbidden (at (at profile_path (child "externalIPs")) (index i)))
          ≡ [])
        ↔ Any (λ x. x ≡ ip) allowed
  one_ip_iff i ip = ground (arith, has_iff allowed ip)

  ip_errors_iff :
      (i : ℕ) (ips : List Text)
      → (ip_errors allowed i ips ≡ []) ↔ All (λ ip. Any (λ x. x ≡ ip) allowed) ips
  unfolding ip_errors
  ip_errors_iff i [] = (λ h. tt, λ h. refl)
  ip_errors_iff i (ip ∷ ips) = both_iff (one_ip_iff i ip) (λ _. ip_errors_iff (suc i) ips)

external_ip_errors_iff :
    (allowed ips : List Text)
    → (external_ip_errors allowed ips ≡ []) ↔ All (λ ip. Any (λ x. x ≡ ip) allowed) ips
unfolding external_ip_errors
external_ip_errors_iff allowed [] = (λ h. tt, λ h. refl)
external_ip_errors_iff [] (ip ∷ ips) = (λ h. cc, λ h. absurd h.0)
external_ip_errors_iff (a ∷ allowed) (ip ∷ ips) = ip_errors_iff (a ∷ allowed) 0 (ip ∷ ips)

module _ (profile : AppServiceProfile) where
  profile_errors-found :
      (name : Text) (n : NetworkPolicyProfile)
      → (profile_errors profile name (found n) ≡ []) ↔ IsExposable profile n
  unfolding profile_errors type_allowed
  profile_errors-found name n =
      both_iff
        (ground (
          arith,
          same_iff (requested_type profile) cluster_ip,
          has_iff (allowed_types n.service_policy) (requested_type profile),
        ))
        (λ _. external_ip_errors_iff (allowed_ips n.service_policy) profile.external_ips)

  profile_errors_iff :
      (name : Text) (f : Fetch NetworkPolicyProfile)
      → (profile_errors profile name f ≡ []) ↔ Found f (IsExposable profile)
  profile_errors_iff name =
      Found_iff (IsExposable profile) (profile_errors profile name)
        (unfold profile_errors in λ e. cc) (unfold profile_errors in λ e. cc)
        (profile_errors-found name)

  project_policy_errors_iff :
      (client : Client) (project : Option Project)
      → (project_policy_errors client profile project ≡ []) ↔ ServiceAllowed client profile project
  unfolding project_policy_errors
  project_policy_errors_iff client none = default_policy_errors_iff profile
  project_policy_errors_iff client (some p) =
      let ref = p.spec.network_policy_profile_ref in
      let (to, from) = default_policy_errors_iff profile in
      let (to', from') = profile_errors_iff ref (client.network_policy_profile ref) in
      elim (is_empty-cases (trim_space ref)) [
        | inl (e, n) ↦
            rw e (
              λ h. inl (n, to h),
              λ h. elim h [ inl (_, i) ↦ from i | inr (ne, _) ↦ absurd (ne n) ],
            )
        | inr (e, ne) ↦ rw e (
          λ h. inr (ne, to' h),
          λ h. elim h [ inl (n, _) ↦ absurd (ne n) | inr (_, f) ↦ from' f ],
        )
      ]

-- `validateServicePolicy` reports nothing exactly when the exposure that the app asks for is
-- allowed by the network profile of its project, or asks for no load balancer and no external
-- address where there is none.
pub validate_service_policy_iff :
    (client : Client) (a : App) (project : Option Project)
    → (validate_service_policy client a project ≡ [])
      ↔ ExposureAllowed client a.spec.service_profile project
unfolding validate_service_policy
validate_service_policy_iff client a project = from (a.spec.service_profile)
  where
    from :
        (o : Option AppServiceProfile)
        → (service_errors client o project ≡ []) ↔ ExposureAllowed client o project
    from none = (λ h. tt, λ h. refl)
    from (some profile) = project_policy_errors_iff profile client project
