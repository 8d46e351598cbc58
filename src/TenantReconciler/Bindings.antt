-- ===== src/TenantReconciler/Bindings.antt =====
-- Steps over role bindings.
use kube_op.Prelude.{
  ◌≡◌, refl, ap, sym, subst, ◌∙◌, true, false, inl, inr, List, [], ◌∷◌, Option, none, some, arith,
  All, Bool-cases,
}
use kube_op.Text.{Text, text, same}
use kube_op.StringMap.{get, lookup-insert}
use kube_op.Cluster.{Key}
use kube_op.KeyMap.{KeyMap, same_key, same_key_refl, find, put, find-put}
use kube_op.TenantReconciler.{
  TenantRole, owner, developer, viewer, role_name, group_name, RoleBinding, Namespace, Faults,
  Failure, binding_key, write_binding, binding_or_new, ensure_role_binding, and_then,
  ensure_role_bindings,
}

-- The binding gives the role to the tenant's group for it, alone, and carries the two labels.
pub record IsBindingOf (tenant : Text) (role : TenantRole) (rb : RoleBinding) : Type 0 where
  pub role_ref : rb.role_ref ≡ role_name role
  pub subjects : rb.subjects ≡ group_name tenant role ∷ []
  pub tenant_label : get rb.labels "paas.kubeop.io/tenant" ≡ tenant
  pub managed_label : get rb.labels "rbac.kubeop.io/managed" ≡ text "true"

write_binding-IsBindingOf :
    (tenant : Text) (role : TenantRole) (rb : RoleBinding)
    → IsBindingOf tenant role (write_binding tenant role rb)
unfolding write_binding get
write_binding-IsBindingOf tenant role rb = record {
  role_ref = refl;
  subjects = refl;
  tenant_label = simp lookup-insert;
  managed_label = simp lookup-insert;
}

abbrev pub Bound : Text → KeyMap RoleBinding → Text → TenantRole → Type 0
Bound tenant bindings ns role =
    (rb : RoleBinding) × (find (binding_key ns role) bindings ≡ some rb)
    × IsBindingOf tenant role rb

-- Bindings by one key are for one role.
binding_key-injective :
    (a b : Text) (r q : TenantRole) → same_key (binding_key a r) (binding_key b q) ≡ true → r ≡ q
unfolding same_key same
binding_key-injective a b owner owner h = refl
binding_key-injective a b developer developer h = refl
binding_key-injective a b viewer viewer h = refl
binding_key-injective a b owner developer h = ground arith
binding_key-injective a b owner viewer h = ground arith
binding_key-injective a b developer owner h = ground arith
binding_key-injective a b developer viewer h = ground arith
binding_key-injective a b viewer owner h = ground arith
binding_key-injective a b viewer developer h = ground arith

module _ (faults : Faults) (tenant : Text) where
  -- What a step keeps: what was bound, and every key that is no binding of the tenant's namespaces.
  abbrev pub Keeps : KeyMap RoleBinding → KeyMap RoleBinding → Type 0
  Keeps before after =
      (ns : Text) (role : TenantRole) → Bound tenant before ns role → Bound tenant after ns role

  put-Bound :
      (ns : Text) (role : TenantRole) (rb : RoleBinding) (bindings : KeyMap RoleBinding)
      → Keeps bindings (put (binding_key ns role) (write_binding tenant role rb) bindings)
  put-Bound ns role rb bindings other q (old, f, h) =
      elim (Bool-cases (same_key (binding_key ns role) (binding_key other q))) [
        | inl e ↦ (
          write_binding tenant role rb,
          rw
              (
                find-put (binding_key ns role) (binding_key other q) (write_binding tenant role rb)
                    bindings,
                e,
              )
              refl,
          subst (λ r. IsBindingOf tenant r (write_binding tenant role rb))
              (binding_key-injective ns other role q e) (write_binding-IsBindingOf tenant role rb),
        )
        | inr e ↦ (
          old,
          rw
              (
                find-put (binding_key ns role) (binding_key other q) (write_binding tenant role rb)
                    bindings,
                e,
              )
              f,
          h,
        )
      ]

  -- The key is none of the three in the namespace, or in one of the namespaces.
  abbrev pub IsOutside : Text → Key → Type 0
  IsOutside ns key = (role : TenantRole) → same_key (binding_key ns role) key ≡ false

  abbrev pub IsOutsideAll : List Namespace → Key → Type 0
  IsOutsideAll namespaces key = All (λ ns. IsOutside ns.name key) namespaces

  -- Every binding outside is as it was.
  abbrev pub Spares : (Key → Type 0) → KeyMap RoleBinding → KeyMap RoleBinding → Type 0
  Spares Outside before after = (key : Key) → Outside key → find key after ≡ find key before

  abbrev pub Goes :
      (Key → Type 0) → KeyMap RoleBinding → KeyMap RoleBinding × Option Failure → Type 0
  Goes Outside before r = r.1 ≡ none → Keeps before r.0 × Spares Outside before r.0

  -- Fewer keys are outside of more.
  pub Goes-mono :
      (Outside Further : Key → Type 0) (before : KeyMap RoleBinding)
      (r : KeyMap RoleBinding × Option Failure)
      → ((key : Key) → Further key → Outside key)
      → Goes Outside before r
      → Goes Further before r
  Goes-mono Outside Further before r inside g h =
      let (keeps, spares) = g h in (keeps, λ key far. spares key (inside key far))

  -- A run in two steps.
  pub then-Goes :
      (Outside : Key → Type 0) (before : KeyMap RoleBinding)
      (r : KeyMap RoleBinding × Option Failure)
      (next : KeyMap RoleBinding → KeyMap RoleBinding × Option Failure)
      → Goes Outside before r
      → ((b : KeyMap RoleBinding) → Goes Outside b (next b))
      → (and_then r next).1 ≡ none
      → (r.1 ≡ none)
        × (and_then r next ≡ next r.0)
        × Keeps r.0 (and_then r next).0
        × (Keeps before (and_then r next).0 × Spares Outside before (and_then r next).0)
  then-Goes Outside before (b, none) next g k h =
      let (keeps, spares) = g refl in
      let (keeps_too, spares_too) = k b h in
      (
        refl,
        refl,
        keeps_too,
        (
          λ ns role bound. keeps_too ns role (keeps ns role bound),
          λ key other. spares_too key other ∙ spares key other,
        ),
      )
  then-Goes Outside before (b, some f) next g k h = cc

  ensure_role_binding-Goes :
      (ns : Text) (role : TenantRole) (b : KeyMap RoleBinding)
      → Goes (IsOutside ns) b (ensure_role_binding faults tenant ns role b)
  unfolding ensure_role_binding
  ensure_role_binding-Goes ns role b = elim (Bool-cases (faults.sync (binding_key ns role))) [
    | inl e ↦ rw e (λ h. cc)
    | inr e ↦ rw e (λ h. (
      put-Bound ns role (binding_or_new (find (binding_key ns role) b)) b,
      λ key other.
          find-put (binding_key ns role) key
            (write_binding tenant role (binding_or_new (find (binding_key ns role) b))) b
          ∙ rw (other role) refl,
    ))
  ]

  ensure_role_binding-Bound :
      (ns : Text) (role : TenantRole) (b : KeyMap RoleBinding)
      → (ensure_role_binding faults tenant ns role b).1 ≡ none
      → Bound tenant (ensure_role_binding faults tenant ns role b).0 ns role
  unfolding ensure_role_binding
  ensure_role_binding-Bound ns role b = elim (Bool-cases (faults.sync (binding_key ns role))) [
    | inl e ↦ rw e (λ h. cc)
    | inr e ↦ rw e (λ h.
        let rb = write_binding tenant role (binding_or_new (find (binding_key ns role) b)) in
        (
          rb,
          find-put (binding_key ns role) (binding_key ns role) rb b
              ∙ rw (same_key_refl (binding_key ns role)) refl,
          write_binding-IsBindingOf tenant role (binding_or_new (find (binding_key ns role) b)),
        ))
  ]

  pub ensure_role_bindings-Goes :
      (ns : Text) (b : KeyMap RoleBinding)
      → Goes (IsOutside ns) b (ensure_role_bindings faults tenant ns b)
  unfolding ensure_role_bindings
  ensure_role_bindings-Goes ns b h =
      (then-Goes (IsOutside ns) b
        (and_then (ensure_role_binding faults tenant ns owner b)
          (λ c. ensure_role_binding faults tenant ns developer c))
        (λ c. ensure_role_binding faults tenant ns viewer c)
        (λ k.
          (then-Goes (IsOutside ns) b (ensure_role_binding faults tenant ns owner b)
            (λ c. ensure_role_binding faults tenant ns developer c)
            (ensure_role_binding-Goes ns owner b) (ensure_role_binding-Goes ns developer) k).3)
        (ensure_role_binding-Goes ns viewer) h).3

  abbrev pub AllBound : Text → KeyMap RoleBinding → Type 0
  AllBound ns b = (role : TenantRole) → Bound tenant b ns role

  three_roles :
      (b : KeyMap RoleBinding) (ns : Text)
      → Bound tenant b ns owner
      → Bound tenant b ns developer
      → Bound tenant b ns viewer
      → AllBound ns b
  three_roles b ns o d v owner = o
  three_roles b ns o d v developer = d
  three_roles b ns o d v viewer = v

  -- The result of a step that succeeded.
  Bound-step :
      (ns : Text) (role : TenantRole) (b : KeyMap RoleBinding)
      (r : KeyMap RoleBinding × Option Failure)
      → r ≡ ensure_role_binding faults tenant ns role b
      → r.1 ≡ none
      → Bound tenant r.0 ns role
  Bound-step ns role b r e h =
      subst (λ (c : KeyMap RoleBinding × Option Failure). Bound tenant c.0 ns role) (sym e)
        (ensure_role_binding-Bound ns role b
          (ap (λ (c : KeyMap RoleBinding × Option Failure). c.1) (sym e) ∙ h))

  pub ensure_role_bindings-AllBound :
      (ns : Text) (b : KeyMap RoleBinding)
      → (ensure_role_bindings faults tenant ns b).1 ≡ none
      → AllBound ns (ensure_role_bindings faults tenant ns b).0
  unfolding ensure_role_bindings
  ensure_role_bindings-AllBound ns b h =
      let first = ensure_role_binding faults tenant ns owner b in
      let second = and_then first (λ c. ensure_role_binding faults tenant ns developer c) in
      let (ok2, last_lem, kept_by_viewer, _) =
        then-Goes (IsOutside ns) b second (λ c. ensure_role_binding faults tenant ns viewer c)
          (λ k.
            (then-Goes (IsOutside ns) b first
              (λ c. ensure_role_binding faults tenant ns developer c)
              (ensure_role_binding-Goes ns owner b) (ensure_role_binding-Goes ns developer) k).3)
          (ensure_role_binding-Goes ns viewer) h in
      let (ok1, second_lem, kept_by_developer, _) =
        then-Goes (IsOutside ns) b first (λ c. ensure_role_binding faults tenant ns developer c)
          (ensure_role_binding-Goes ns owner b) (ensure_role_binding-Goes ns developer) ok2 in
      three_roles (ensure_role_bindings faults tenant ns b).0 ns
        (kept_by_viewer ns owner
          (kept_by_developer ns owner (ensure_role_binding-Bound ns owner b ok1)))
        (kept_by_viewer ns developer (Bound-step ns developer first.0 second second_lem ok2))
        (Bound-step ns viewer second.0 (ensure_role_bindings faults tenant ns b) last_lem h)
