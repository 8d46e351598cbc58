-- ===== src/TenantReconciler/Synced.antt =====
-- The namespaces of a tenant and the server after a reconcile.
use kube_op.Prelude.{
  ◌≡◌, refl, sym, subst, Bool, true, false, inl, inr, ◌⊎◌, List, [], ◌∷◌, ◌++◌, Option, none, some,
  if◌then◌else◌, All, All-mono, Bool-cases,
}
use kube_op.Text.{Text, text, same}
use kube_op.Text.Equality.{same_iff}
use kube_op.StringMap.{get}
use kube_op.Cluster.{Key, found}
use kube_op.KeyMap.{KeyMap, same_key, same_key_iff, find}
use kube_op.TenantReconciler.{
  TenantRole, owner, developer, viewer, RoleBinding, Namespace, Server, Faults, Failure,
  list_failed, binding_key, sync_namespaces, namespaces_for_tenant, reconcile,
}
use kube_op.TenantReconciler.Bindings.{Bound, AllBound, IsOutside, IsOutsideAll}
use kube_op.TenantReconciler.Namespaces.{sync_namespaces-Goes, sync_namespaces-AllBound}

-- A namespace that carries the tenant's label.
abbrev pub IsOfTenant : Text → Namespace → Type 0
IsOfTenant tenant ns = get ns.labels "paas.kubeop.io/tenant" ≡ tenant

All-if :
    {A : Type 0} (P : A → Type 0) (b : Bool) (x : A) (xs : List A)
    → All P (if b then x ∷ xs else xs)
    → (b ≡ true → P x) × All P xs
All-if P true x xs h = (λ e. h.0, h.1)
All-if P false x xs h = (λ e. cc, h)

All-namespaces_for_tenant :
    (tenant : Text) (P : Namespace → Type 0) (namespaces : List Namespace)
    → All P (namespaces_for_tenant tenant namespaces)
    → All (λ ns. IsOfTenant tenant ns → P ns) namespaces
unfolding namespaces_for_tenant
All-namespaces_for_tenant tenant P [] h = tt
All-namespaces_for_tenant tenant P (ns ∷ namespaces) h =
    let label = get ns.labels "paas.kubeop.io/tenant" in
    let (own, rest) = All-if P (same label tenant) ns (namespaces_for_tenant tenant namespaces) h in
    (λ e. own ((same_iff label tenant).1 e), All-namespaces_for_tenant tenant P namespaces rest)

-- The rest of a list is the tenant's where the whole is.
All-listed :
    (tenant : Text) (P : Namespace → Type 0) (namespaces : List Namespace)
    → All (λ ns. IsOfTenant tenant ns → P ns) namespaces
    → All P (namespaces_for_tenant tenant namespaces)
unfolding namespaces_for_tenant
All-listed tenant P [] h = tt
All-listed tenant P (ns ∷ namespaces) h =
    let label = get ns.labels "paas.kubeop.io/tenant" in
    elim (Bool-cases (same label tenant)) [
      | inl e ↦ rw e (h.0 ((same_iff label tenant).0 e), All-listed tenant P namespaces h.1)
      | inr e ↦ rw e (All-listed tenant P namespaces h.1)
    ]

-- In the namespace there is a binding by the name, which gives the cluster role to the group and to
-- nobody else, with the two labels.
abbrev pub Grants : Text → KeyMap RoleBinding → Text → Text → Text → Text → Type 0
Grants tenant bindings ns name role group =
    (rb : RoleBinding) × (find (record { namespace = ns; name = name }) bindings ≡ some rb)
    × (rb.role_ref ≡ role)
    × (rb.subjects ≡ group ∷ [])
    × (get rb.labels "paas.kubeop.io/tenant" ≡ tenant)
    × (get rb.labels "rbac.kubeop.io/managed" ≡ text "true")

abbrev pub GrantsAll : Text → KeyMap RoleBinding → Text → Type 0
GrantsAll tenant bindings ns =
    Grants tenant bindings ns (text "kubeop:tenant-owner") (text "tenant-owner")
      (text "tenant:" ++ (tenant ++ text ":owners"))
    × Grants tenant bindings ns (text "kubeop:tenant-developer") (text "tenant-developer")
        (text "tenant:" ++ (tenant ++ text ":developers"))
    × Grants tenant bindings ns (text "kubeop:tenant-viewer") (text "tenant-viewer")
        (text "tenant:" ++ (tenant ++ text ":viewers"))

-- One of the three bindings in the namespace.
abbrev pub IsOwnBinding : Text → Key → Type 0
IsOwnBinding ns key =
    (key.namespace ≡ ns)
    × ((key.name ≡ text "kubeop:tenant-owner")
        ⊎ ((key.name ≡ text "kubeop:tenant-developer") ⊎ (key.name ≡ text "kubeop:tenant-viewer")))

-- What a run leaves of the server: the same namespaces, in each that carries the tenant's label the
-- three bindings, and every other binding as it was, whatever its name.
pub record IsSynced (tenant : Text) (before after : Server) : Type 0 where
  pub namespaces : after.namespaces ≡ before.namespaces
  pub bound :
      All (λ ns. IsOfTenant tenant ns → GrantsAll tenant after.bindings ns.name) before.namespaces
  pub spared :
      (key : Key)
      → All (λ ns. IsOfTenant tenant ns → ¬ IsOwnBinding ns.name key) before.namespaces
      → find key after.bindings ≡ find key before.bindings

Bound→Grants :
    (tenant : Text) (bindings : KeyMap RoleBinding) (ns : Text)
    → ((role : TenantRole) → Bound tenant bindings ns role)
    → GrantsAll tenant bindings ns
Bound→Grants tenant bindings ns bound =
    let (a, found_a, is_a) = bound owner in
    let (b, found_b, is_b) = bound developer in
    let (c, found_c, is_c) = bound viewer in
    (
      (a, found_a, is_a.role_ref, is_a.subjects, is_a.tenant_label, is_a.managed_label),
      (b, found_b, is_b.role_ref, is_b.subjects, is_b.tenant_label, is_b.managed_label),
      (c, found_c, is_c.role_ref, is_c.subjects, is_c.tenant_label, is_c.managed_label),
    )

own_binding :
    (ns : Text) (role : TenantRole) (key : Key)
    → same_key (binding_key ns role) key ≡ true
    → IsOwnBinding ns key
own_binding ns owner key h =
    let e = (same_key_iff (binding_key ns owner) key).0 h in rw (sym e) (refl, inl refl)
own_binding ns developer key h =
    let e = (same_key_iff (binding_key ns developer) key).0 h in rw (sym e) (refl, inr (inl refl))
own_binding ns viewer key h =
    let e = (same_key_iff (binding_key ns viewer) key).0 h in rw (sym e) (refl, inr (inr refl))

not_own→outside :
    (faults : Faults) (tenant : Text) (key : Key) (namespaces : List Namespace)
    → All (λ ns. IsOfTenant tenant ns → ¬ IsOwnBinding ns.name key) namespaces
    → IsOutsideAll faults tenant (namespaces_for_tenant tenant namespaces) key
not_own→outside faults tenant key namespaces h =
    All-mono (λ (ns : Namespace). ¬ IsOwnBinding ns.name key)
      (λ ns. IsOutside faults tenant ns.name key)
      (λ ns other role. elim (Bool-cases (same_key (binding_key ns.name role) key)) [
        | inl e ↦ absurd (other (own_binding ns.name role key e))
        | inr e ↦ e
      ])
      (namespaces_for_tenant tenant namespaces)
      (All-listed tenant (λ (ns : Namespace). ¬ IsOwnBinding ns.name key) namespaces h)

granted :
    (faults : Faults) (tenant : Text) (bindings : KeyMap RoleBinding) (namespaces : List Namespace)
    → All (λ ns. AllBound faults tenant ns.name bindings) (namespaces_for_tenant tenant namespaces)
    → All (λ ns. IsOfTenant tenant ns → GrantsAll tenant bindings ns.name) namespaces
granted faults tenant bindings namespaces h =
    All-namespaces_for_tenant tenant (λ ns. GrantsAll tenant bindings ns.name) namespaces
      (All-mono (λ (ns : Namespace). AllBound faults tenant ns.name bindings)
        (λ (ns : Namespace). GrantsAll tenant bindings ns.name)
        (λ ns bound. Bound→Grants tenant bindings ns.name bound)
        (namespaces_for_tenant tenant namespaces) h)

chosen_failure :
    {A : Type 0} (b : Bool) (f : Failure) (x y : A) (g : Option Failure)
    → (let r : A × Option Failure = if b then (x, some f) else (y, g) in r.1 ≡ none)
    → (b ≡ false) × (g ≡ none)
chosen_failure true f x y g h = cc
chosen_failure false f x y g h = (refl, h)

-- A reconcile of a tenant that returns no error leaves in every namespace with the tenant's label
-- three role bindings, which give the cluster roles of owner, developer and viewer each to the
-- tenant's group for it and to nobody else, with the two labels; no namespace changes and no other
-- role binding, not those of the same names in the namespaces without the tenant's label.
pub reconcile-IsSynced :
    (faults : Faults) (tenant : Text) (s : Server)
    → (reconcile faults (found tenant) s).1 ≡ none
    → IsSynced tenant s (reconcile faults (found tenant) s).0
unfolding reconcile
reconcile-IsSynced faults tenant s h =
    let own = namespaces_for_tenant tenant s.namespaces in
    let run = sync_namespaces faults tenant own s.bindings in
    let (listed, went) =
      chosen_failure faults.list list_failed s (record s { bindings = run.0 }) run.1 h in
    let after : IsSynced tenant s (record s { bindings = run.0 }) = record {
      namespaces = refl;
      bound =
          granted faults tenant run.0 s.namespaces
            (sync_namespaces-AllBound faults tenant own s.bindings went);
      spared = λ key other.
          (sync_namespaces-Goes faults tenant own s.bindings went).1 key
            (not_own→outside faults tenant key s.namespaces other);
    } in
    subst
      (λ b. IsSynced tenant s (
        let r : Server × Option Failure =
          if b then (s, some list_failed) else (record s { bindings = run.0 }, run.1) in
        r.0))
      (sym listed) after
