-- ===== src/EnvAttachments/Detaching.antt =====
-- Detaching what was attached.
use kube_op.Prelude.{
  ◌≡◌, refl, ap, ◌∙◌, true, false, inl, inr, List, [], ◌∷◌, ◌++◌, any, All, All-mono, arith,
  if◌then◌else◌, Bool-cases,
}
use kube_op.Text.{Text, same, trim_space}
use kube_op.Text.Equality.{same_refl}
use kube_op.EnvAttachments.{
  EnvFromSource, EnvVar, Container, SourceKind, config_map, secret, env_from_refers, env_refers,
  new_env_from, key_env, normalize_attachment_keys, set_env, attach_keys, attach_all,
  attach_normalized, attach_env, without_env_from, without_env, detach_env,
}

key_env-refers :
    (kind : SourceKind) (name env_name key : Text)
    → env_refers kind name (key_env kind name env_name key) ≡ true
unfolding env_refers
key_env-refers config_map name env_name key = same_refl name
key_env-refers secret name env_name key = same_refl name

new_env_from-refers :
    (kind : SourceKind) (name : Text) → env_from_refers kind name (new_env_from kind name) ≡ true
unfolding env_from_refers
new_env_from-refers config_map name = same_refl name
new_env_from-refers secret name = same_refl name

module _ (kind : SourceKind) (name : Text) where
  -- Every variable of that name refers to the source.
  abbrev pub Yields : Text → List EnvVar → Type 0
  Yields n env = All (λ v. same v.name n ≡ true → env_refers kind name v ≡ true) env

  set_env-Yields :
      (v : EnvVar) (n : Text) (env : List EnvVar)
      → env_refers kind name v ≡ true
      → Yields n env
      → Yields n (set_env v env)
  unfolding set_env
  set_env-Yields v n [] r h = ((λ e. r), tt)
  set_env-Yields v n (w ∷ env) r h = elim (Bool-cases (same w.name v.name)) [
    | inl e ↦ rw e ((λ i. r), h.1)
    | inr e ↦ rw e (h.0, set_env-Yields v n env r h.1)
  ]

  without_env-set_env :
      (v : EnvVar) (env : List EnvVar)
      → env_refers kind name v ≡ true
      → Yields v.name env
      → without_env kind name (set_env v env) ≡ without_env kind name env
  unfolding set_env without_env
  without_env-set_env v [] r h = rw r refl
  without_env-set_env v (w ∷ env) r h = elim (Bool-cases (same w.name v.name)) [
    | inl e ↦ rw (e, r, h.0 e) refl
    | inr e ↦ rw (e, without_env-set_env v env r h.1) refl
  ]

  without_env-attach_keys :
      (prefix : Text) (keys : List Text) (env : List EnvVar)
      → All (λ key. Yields (prefix ++ key) env) keys
      → without_env kind name (attach_keys kind name prefix keys env) ≡ without_env kind name env
  unfolding attach_keys
  without_env-attach_keys prefix [] env h = refl
  without_env-attach_keys prefix (key ∷ keys) env h =
      let v = key_env kind name (prefix ++ key) key in
      without_env-attach_keys prefix keys (set_env v env) (
        All-mono (λ k. Yields (prefix ++ k) env) (λ k. Yields (prefix ++ k) (set_env v env))
          (λ k y.
            set_env-Yields v (prefix ++ k) env (key_env-refers kind name (prefix ++ key) key) y)
          keys h.1)
      ∙ without_env-set_env v env (key_env-refers kind name (prefix ++ key) key) h.0

  -- A container with no reference to the source.
  pub record IsDetached (c : Container) : Type 0 where
    pub env_from : All (λ s. env_from_refers kind name s ≡ false) c.env_from
    pub env : All (λ v. env_refers kind name v ≡ false) c.env

  without_env_of_detached :
      (env : List EnvVar)
      → All (λ v. env_refers kind name v ≡ false) env
      → without_env kind name env ≡ env
  unfolding without_env
  without_env_of_detached [] h = refl
  without_env_of_detached (v ∷ env) h = rw (h.0, without_env_of_detached env h.1) refl

  without_env_from_of_detached :
      (sources : List EnvFromSource)
      → All (λ s. env_from_refers kind name s ≡ false) sources
      → without_env_from kind name sources ≡ sources
  unfolding without_env_from
  without_env_from_of_detached [] h = refl
  without_env_from_of_detached (s ∷ sources) h =
      rw (h.0, without_env_from_of_detached sources h.1) refl

  without_env_from-append :
      (sources : List EnvFromSource)
      → without_env_from kind name (sources ++ (new_env_from kind name ∷ []))
        ≡ without_env_from kind name sources
  unfolding without_env_from
  without_env_from-append [] = rw (new_env_from-refers kind name) refl
  without_env_from-append (s ∷ sources) =
      ap (λ rest. if env_from_refers kind name s then rest else s ∷ rest)
        (without_env_from-append sources)

  without_env_from-attach_all :
      (sources : List EnvFromSource)
      → without_env_from kind name (attach_all kind name sources)
        ≡ without_env_from kind name sources
  without_env_from-attach_all sources =
      elim (Bool-cases (any (λ s. env_from_refers kind name s) sources)) [
        | inl e ↦ rw e refl
        | inr e ↦ rw e (without_env_from-append sources)
      ]

  detach_of_IsDetached : (c : Container) → IsDetached c → detach_env kind name c ≡ c
  unfolding detach_env
  detach_of_IsDetached c h =
      rw (without_env_of_detached c.env h.env, without_env_from_of_detached c.env_from h.env_from)
        refl

  -- No variable has a name that attaching the keys would set.
  abbrev pub IsFree : Text → List Text → Container → Type 0
  IsFree prefix keys c =
      All (λ key. All (λ (v : EnvVar). same v.name (prefix ++ key) ≡ false) c.env) keys

  IsFree-Yields :
      (n : Text) (env : List EnvVar)
      → All (λ (v : EnvVar). same v.name n ≡ false) env
      → Yields n env
  IsFree-Yields n env =
      All-mono (λ (v : EnvVar). same v.name n ≡ false)
        (λ v. same v.name n ≡ true → env_refers kind name v ≡ true) (λ v f e. absurd (ground arith))
        env

  detach-attach_normalized :
      (prefix : Text) (keys : List Text) (c : Container)
      → IsFree prefix keys c
      → detach_env kind name (attach_normalized kind name prefix keys c) ≡ detach_env kind name c
  unfolding detach_env
  detach-attach_normalized prefix [] c f =
      ap (λ sources. record c { env_from = sources; env = without_env kind name c.env })
        (without_env_from-attach_all c.env_from)
  detach-attach_normalized prefix (key ∷ keys) c f =
      ap (λ env. record c { env_from = without_env_from kind name c.env_from; env = env })
        (without_env-attach_keys prefix (key ∷ keys) c.env (
          All-mono (λ k. All (λ (v : EnvVar). same v.name (prefix ++ k) ≡ false) c.env)
            (λ k. Yields (prefix ++ k) c.env) (λ k. IsFree-Yields (prefix ++ k) c.env) (key ∷ keys)
            f))

-- Attaching a ConfigMap or a Secret to a container that does not refer to it, under names that no
-- variable of the container has, and detaching it again gives the container back.
pub detach_env-attach_env :
    (kind : SourceKind) (name : Text) (keys : List Text) (prefix : Text) (c : Container)
    → IsDetached kind name c
    → IsFree kind name (trim_space prefix) (normalize_attachment_keys keys) c
    → detach_env kind name (attach_env kind name keys prefix c) ≡ c
unfolding attach_env
detach_env-attach_env kind name keys prefix c h f =
    detach-attach_normalized kind name (trim_space prefix) (normalize_attachment_keys keys) c f
    ∙ detach_of_IsDetached kind name c h
