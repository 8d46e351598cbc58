-- ===== src/Webhooks/Bindings/Admission.antt =====
-- When the binding webhook admits.
use kube_op.Prelude.{
  ◌≡◌, ◌≢◌, refl, sym, ◌∙◌, Bool, true, false, ◌↔◌, ◌⊎◌, inl, inr, [], Option, none, some, ok,
  arith, both_iff, Bool-cases,
}
use kube_op.Text.{Text, text, is_empty, same, trim_space}
use kube_op.Text.Equality.{same_iff, differ}
use kube_op.Field.{FieldPath}
use kube_op.Api.{ObjectMeta, ServiceBinding}
use kube_op.Cluster.{Client, Fetch}
use kube_op.Cluster.Found.{Found, Found_iff}
use kube_op.Webhooks.{binding, label_tenant, label, trimmed_label}
use kube_op.Webhooks.Metadata.{
  validate_required_labels_iff, validate_tenant_immutability_iff, verdict_iff, is_empty-cases,
}
use kube_op.Webhooks.Bindings.{
  old_meta, target_errors, target_key, in_tenant, InTenant, consumer_path, provider_path,
  validate_consumer, validate_provider, tenant_errors, validate_binding, validate_create,
  validate_update, ConsumerAllowed, app, service_account, ProviderAllowed, database, cache, queue,
  IsAdmissible,
}

target_errors_iff {ℓ} :
    {A : Type ℓ} (path : FieldPath) (name : Text) (test : A → Bool) (P : A → Type 0)
    → ((a : A) → (test a ≡ true) ↔ P a)
    → (f : Fetch A) → (target_errors path name test f ≡ []) ↔ Found f P
unfolding target_errors
target_errors_iff path name test P h =
    Found_iff P (target_errors path name test) (λ e. cc) (λ e. cc) (λ a. ground (arith, h a))

-- A chain of tests on a type: the branch taken is told by an equation.
same-cases : (s t : Text) → ((same s t ≡ true) × (s ≡ t)) ⊎ ((same s t ≡ false) × (s ≢ t))
same-cases s t = elim (Bool-cases (same s t)) [
  | inl e ↦ inl (e, (same_iff s t).0 e)
  | inr e ↦ inr (e, λ k. cc ((same_iff s t).1 k))
]

-- The names of the types differ from one another.
types_differ :
    (t : Text)
    → ((t ≡ text "app") → t ≢ text "serviceAccount")
      × ((t ≡ text "database") → t ≢ text "cache")
      × ((t ≡ text "database") → t ≢ text "queue")
      × ((t ≡ text "cache") → t ≢ text "queue")
unfolding same
types_differ t = (
  λ e f. differ _ _ refl (sym e ∙ f),
  λ e f. differ _ _ refl (sym e ∙ f),
  λ e f. differ _ _ refl (sym e ∙ f),
  λ e f. differ _ _ refl (sym e ∙ f),
)

module _ (client : Client) (b : ServiceBinding) (tenant : Text) where
  in_tenant_iff : (m : ObjectMeta) → (in_tenant tenant m ≡ true) ↔ InTenant tenant m
  in_tenant_iff m = same_iff (label m label_tenant) tenant

  validate_consumer_iff : (validate_consumer client b tenant ≡ []) ↔ ConsumerAllowed client b tenant
  unfolding validate_consumer
  validate_consumer_iff =
      let t = b.consumer.target_type in
      let app_iff =
        target_errors_iff consumer_path b.consumer.name (λ a. in_tenant tenant a.meta)
          (λ a. InTenant tenant a.meta) (λ a. in_tenant_iff a.meta)
          (client.app (target_key b b.consumer)) in
      let account_iff =
        target_errors_iff consumer_path b.consumer.name (λ m. same m.namespace b.meta.namespace)
          (λ m. m.namespace ≡ b.meta.namespace) (λ m. same_iff m.namespace b.meta.namespace)
          (client.service_account (target_key b b.consumer)) in
      elim (same-cases t (text "app")) [
        | inl (e, is_app) ↦ rw e (
          λ h. ConsumerAllowed.app is_app (app_iff.0 h),
          λ c. elim c [
            | app _ f ↦ app_iff.1 f
            | service_account k _ ↦ absurd ((types_differ t).0 is_app k)
          ],
        )
        | inr (e, not_app) ↦ elim (same-cases t (text "serviceAccount")) [
          | inl (e', is_account) ↦
              rw (e, e')
                (
                  λ h. ConsumerAllowed.service_account is_account (account_iff.0 h),
                  λ c. elim c [
                    | app k _ ↦ absurd (not_app k)
                    | service_account _ f ↦ account_iff.1 f
                  ],
                )
          | inr (e', not_account) ↦
              rw (e, e')
                (
                  λ h. cc,
                  λ c. elim c [
                    | app k _ ↦ absurd (not_app k)
                    | service_account k _ ↦ absurd (not_account k)
                  ],
                )
        ]
      ]

  provider_found_iff :
      (f : Fetch ObjectMeta)
      → (target_errors provider_path b.provider.name (in_tenant tenant) f ≡ [])
        ↔ Found f (InTenant tenant)
  provider_found_iff =
      target_errors_iff provider_path b.provider.name (in_tenant tenant) (InTenant tenant)
        in_tenant_iff

  -- The three tests on a provider's type, once its name is not blank.
  provider_kind_iff :
      is_empty (trim_space b.provider.name) ≡ false
      → (validate_provider client b tenant ≡ []) ↔ ProviderAllowed client b tenant
  unfolding validate_provider
  provider_kind_iff named =
      let t = b.provider.target_type in
      let (_, not_dc, not_dq, not_cq) = types_differ t in
      elim (same-cases t (text "database")) [
        | inl (e, k) ↦
            rw (named, e)
              (
                λ h. ProviderAllowed.database k ((provider_found_iff _).0 h),
                λ c. elim c [
                  | database _ f ↦ (provider_found_iff _).1 f
                  | cache k' _ ↦ absurd (not_dc k k')
                  | queue k' _ ↦ absurd (not_dq k k')
                ],
              )
        | inr (e, not_database) ↦ elim (same-cases t (text "cache")) [
          | inl (e', k) ↦
              rw (named, e, e')
                (
                  λ h. ProviderAllowed.cache k ((provider_found_iff _).0 h),
                  λ c. elim c [
                    | database k' _ ↦ absurd (not_database k')
                    | cache _ f ↦ (provider_found_iff _).1 f
                    | queue k' _ ↦ absurd (not_cq k k')
                  ],
                )
          | inr (e', not_cache) ↦ elim (same-cases t (text "queue")) [
            | inl (e'', k) ↦
                rw (named, e, e', e'')
                  (
                    λ h. ProviderAllowed.queue k ((provider_found_iff _).0 h),
                    λ c. elim c [
                      | database k' _ ↦ absurd (not_database k')
                      | cache k' _ ↦ absurd (not_cache k')
                      | queue _ f ↦ (provider_found_iff _).1 f
                    ],
                  )
            | inr (e'', not_queue) ↦
                rw (named, e, e', e'')
                  (
                    λ h. cc,
                    λ c. elim c [
                      | database k' _ ↦ absurd (not_database k')
                      | cache k' _ ↦ absurd (not_cache k')
                      | queue k' _ ↦ absurd (not_queue k')
                    ],
                  )
          ]
        ]
      ]

  validate_provider_iff :
      (validate_provider client b tenant ≡ [])
      ↔ ((trim_space b.provider.name ≢ []) × ProviderAllowed client b tenant)
  validate_provider_iff = elim (is_empty-cases (trim_space b.provider.name)) [
    | inl (e, n) ↦ (unfold validate_provider in λ h. absurd (blank e h), λ (ne, _). absurd (ne n))
    | inr (e, ne) ↦ (λ h. (ne, (provider_kind_iff e).0 h), λ (_, p). (provider_kind_iff e).1 p)
  ]
    where
      blank : is_empty (trim_space b.provider.name) ≡ true → validate_provider client b tenant ≢ []
      blank e = unfold validate_provider in rw e (λ h. cc)

  tenant_errors_iff :
      tenant ≢ []
      → (tenant_errors client b tenant ≡ []) ↔ (
          ConsumerAllowed client b tenant
          × ((trim_space b.provider.name ≢ []) × ProviderAllowed client b tenant))
  unfolding tenant_errors
  tenant_errors_iff ne = elim (is_empty-cases tenant) [
    | inl (e, n) ↦ absurd (ne n)
    | inr (e, _) ↦ rw e (both_iff validate_consumer_iff (λ _. validate_provider_iff))
  ]

validate_binding_iff :
    (client : Client) (old : Option ServiceBinding) (b : ServiceBinding)
    → (validate_binding client old b ≡ []) ↔ IsAdmissible client old b
unfolding validate_binding
validate_binding_iff client old b =
    let (to, from) = both_iff (validate_required_labels_iff b.meta) (λ labelled.
      both_iff (validate_tenant_immutability_iff (old_meta old) b.meta)
        (λ _. tenant_errors_iff client b (trimmed_label b.meta label_tenant) (labelled.0))) in
    (
      λ h.
          let (labelled, (keeps, (consumer, (named, provider)))) = to h in
          record {
            labelled = labelled;
            keeps_tenant = keeps;
            consumer = consumer;
            provider_named = named;
            provider = provider;
          },
      λ a. from (a.labelled, (a.keeps_tenant, (a.consumer, (a.provider_named, a.provider)))),
    )

-- The binding webhook admits a binding exactly when it has the required labels, an update keeps
-- the tenant, its consumer is an app of the tenant or a service account of its namespace, and its
-- provider has a name and is a database, a cache or a queue of the tenant.
pub binding_admission_iff :
    (client : Client) (b : ServiceBinding)
    → ((validate_create client (binding b) ≡ ok []) ↔ IsAdmissible client none b)
      × ((old : ServiceBinding)
          → (validate_update client (binding old) (binding b) ≡ ok [])
            ↔ IsAdmissible client (some old) b)
unfolding validate_create validate_update
binding_admission_iff client b = (
  ground (
    arith,
    verdict_iff "ServiceBinding" b.meta.name [] [] (validate_binding client none b),
    validate_binding_iff client none b,
  ),
  λ old. ground (
    arith,
    verdict_iff "ServiceBinding" b.meta.name [] [] (validate_binding client (some old) b),
    validate_binding_iff client (some old) b,
  ),
)
