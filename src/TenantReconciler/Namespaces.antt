-- ===== src/TenantReconciler/Namespaces.antt =====
-- The loop over the namespaces.
use kube_op.Prelude.{◌≡◌, refl, ap, sym, subst, ◌∙◌, List, [], ◌∷◌, Option, none, All}
use kube_op.Text.{Text}
use kube_op.KeyMap.{KeyMap}
use kube_op.TenantReconciler.{
  RoleBinding, Namespace, Faults, Failure, ensure_role_bindings, sync_namespaces,
}
use kube_op.TenantReconciler.Bindings.{
  IsOutside, IsOutsideAll, Goes, Goes-mono, then-Goes, AllBound, ensure_role_bindings-Goes,
  ensure_role_bindings-AllBound,
}

module _ (faults : Faults) (tenant : Text) where
  first_step :
      (ns : Namespace) (namespaces : List Namespace) (b : KeyMap RoleBinding)
      → Goes faults tenant
          (IsOutsideAll faults tenant (ns ∷ namespaces))
          b
          (ensure_role_bindings faults tenant ns.name b)
  first_step ns namespaces b =
      Goes-mono faults tenant (IsOutside faults tenant ns.name)
        (IsOutsideAll faults tenant (ns ∷ namespaces)) b
        (ensure_role_bindings faults tenant ns.name b) (λ key far. far.0)
        (ensure_role_bindings-Goes faults tenant ns.name b)

  later_steps :
      (ns : Namespace) (namespaces : List Namespace)
      → ((b : KeyMap RoleBinding)
          → Goes faults tenant
              (IsOutsideAll faults tenant namespaces)
              b
              (sync_namespaces faults tenant namespaces b))
      → (b : KeyMap RoleBinding)
      → Goes faults tenant
          (IsOutsideAll faults tenant (ns ∷ namespaces))
          b
          (sync_namespaces faults tenant namespaces b)
  later_steps ns namespaces goes b =
      Goes-mono faults tenant (IsOutsideAll faults tenant namespaces)
        (IsOutsideAll faults tenant (ns ∷ namespaces)) b
        (sync_namespaces faults tenant namespaces b) (λ key far. far.1) (goes b)

  pub sync_namespaces-Goes :
      (namespaces : List Namespace) (b : KeyMap RoleBinding)
      → Goes faults tenant
          (IsOutsideAll faults tenant namespaces)
          b
          (sync_namespaces faults tenant namespaces b)
  unfolding sync_namespaces
  sync_namespaces-Goes [] b h = (λ ns role bound. bound, λ key other. refl)
  sync_namespaces-Goes (ns ∷ namespaces) b h =
      (then-Goes faults tenant (IsOutsideAll faults tenant (ns ∷ namespaces)) b
        (ensure_role_bindings faults tenant ns.name b)
        (λ c. sync_namespaces faults tenant namespaces c) (first_step ns namespaces b)
        (later_steps ns namespaces (sync_namespaces-Goes namespaces)) h).3

  pub sync_namespaces-AllBound :
      (namespaces : List Namespace) (b : KeyMap RoleBinding)
      → (sync_namespaces faults tenant namespaces b).1 ≡ none
      → All
          (λ ns. AllBound faults tenant ns.name (sync_namespaces faults tenant namespaces b).0)
          namespaces
  unfolding sync_namespaces
  sync_namespaces-AllBound [] b h = tt
  sync_namespaces-AllBound (ns ∷ namespaces) b h =
      let first = ensure_role_bindings faults tenant ns.name b in
      let (went, rest_lem, kept, _) =
        then-Goes faults tenant (IsOutsideAll faults tenant (ns ∷ namespaces)) b first
          (λ c. sync_namespaces faults tenant namespaces c) (first_step ns namespaces b)
          (later_steps ns namespaces (sync_namespaces-Goes namespaces)) h in
      (
        λ role. kept ns.name role (ensure_role_bindings-AllBound faults tenant ns.name b went role),
        subst
            (λ (c : KeyMap RoleBinding × Option Failure).
              All (λ (n : Namespace). AllBound faults tenant n.name c.0) namespaces)
            (sym rest_lem)
            (sync_namespaces-AllBound namespaces first.0
              (ap (λ (c : KeyMap RoleBinding × Option Failure). c.1) (sym rest_lem) ∙ h)),
      )
