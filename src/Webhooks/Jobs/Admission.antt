-- ===== src/Webhooks/Jobs/Admission.antt =====
-- When the job webhook admits.
use kube_op.Prelude.{
  ℕ, suc, String, ◌≡◌, ◌≢◌, refl, Bool, true, false, ◌||◌, ◌↔◌, ◌⊎◌, inl, inr, List, [], ◌∷◌,
  Option, none, some, ok, arith, both_iff, any, any_iff, All, Any, Points, Bool-cases,
}
use kube_op.Text.{Text, text, to_lower, equal_fold, is_some, trim_space}
use kube_op.Text.Equality.{same_iff}
use kube_op.StringMap.{get}
use kube_op.Api.{SecurityContext, PodSecurityContext, Volume, Container, PodSpec, Job}
use kube_op.Field.{at, child, index, forbidden}
use kube_op.Webhooks.{job, when}
use kube_op.Webhooks.Metadata.{
  HasRequiredLabels, KeepsTenant, validate_required_labels_iff, validate_tenant_immutability_iff,
  verdict_iff, is_empty-cases,
}
use kube_op.Webhooks.Jobs.{
  old_meta, pod_path, capabilities_path, justification_key, contains_sys_admin, is_false, is_zero,
  allows_root, allows_root_with_fallback, requires_root_justification, volume_errors,
  container_errors, host_errors, justification_errors, validate_job, validate_create,
  validate_update,
}

-- A capability of the list is SYS_ADMIN, in any case.
abbrev pub AddsSysAdmin : Container → Type 0
AddsSysAdmin c =
    Points (λ sc. Points (Any λ name. to_lower name ≡ text "sys_admin") sc.added_capabilities)
      c.security_context

-- A pod or a container asks for root: it says that it need not run as another user, or names user 0.
abbrev pub PodAsksRoot : PodSpec → Type 0
PodAsksRoot pod =
    Points (λ sc. (sc.run_as_non_root ≡ some false) ⊎ (sc.run_as_user ≡ some 0))
      pod.security_context

abbrev pub AsksRoot : Container → Type 0
AsksRoot c =
    Points (λ sc. (sc.run_as_non_root ≡ some false) ⊎ (sc.run_as_user ≡ some 0)) c.security_context

abbrev pub RunsAsRoot : PodSpec → Type 0
RunsAsRoot pod = PodAsksRoot pod ⊎ (Any AsksRoot pod.init_containers ⊎ Any AsksRoot pod.containers)

pub record IsAdmissible (old : Option Job) (j : Job) : Type 0 where
  pub labelled : HasRequiredLabels j.meta
  pub keeps_tenant : KeepsTenant (old_meta old) j.meta
  pub no_host_network : j.pod_spec.host_network ≡ false
  pub no_host_pid : j.pod_spec.host_pid ≡ false
  pub no_host_ipc : j.pod_spec.host_ipc ≡ false
  pub no_host_path : All (λ v. v.host_path ≡ none) j.pod_spec.volumes
  pub init_containers : All (λ c. ¬ AddsSysAdmin c) j.pod_spec.init_containers
  pub containers : All (λ c. ¬ AddsSysAdmin c) j.pod_spec.containers
  pub justified : RunsAsRoot j.pod_spec → trim_space (get j.meta.annotations justification_key) ≢ []

sys_admin_iff :
    (name : Text) → (equal_fold name (text "SYS_ADMIN") ≡ true) ↔ (to_lower name ≡ text "sys_admin")
unfolding equal_fold
sys_admin_iff name = same_iff (to_lower name) (text "sys_admin")

added_iff :
    (o : Option (List Text))
    → ((elim o [ none ↦ false | some added ↦ any (λ c. equal_fold c (text "SYS_ADMIN")) added ])
        ≡ true)
      ↔ Points (Any λ name. to_lower name ≡ text "sys_admin") o
added_iff none = (λ h. cc, λ h. absurd h)
added_iff (some added) =
    any_iff (λ c. equal_fold c (text "SYS_ADMIN")) (λ name. to_lower name ≡ text "sys_admin")
      sys_admin_iff added

contains_sys_admin_iff :
    (o : Option SecurityContext)
    → (contains_sys_admin o ≡ true)
      ↔ Points (λ sc. Points (Any λ name. to_lower name ≡ text "sys_admin") sc.added_capabilities) o
unfolding contains_sys_admin
contains_sys_admin_iff none = (λ h. cc, λ h. absurd h)
contains_sys_admin_iff (some sc) = added_iff sc.added_capabilities

root_test_iff :
    (non_root : Option Bool) (user : Option ℕ)
    → ((is_false non_root || is_zero user) ≡ true) ↔ ((non_root ≡ some false) ⊎ (user ≡ some 0))
root_test_iff none none = ground arith
root_test_iff none (some n) = ground arith
root_test_iff (some b) none = ground arith
root_test_iff (some b) (some n) = ground arith

allows_root_iff :
    (o : Option PodSecurityContext)
    → (allows_root o ≡ true)
      ↔ Points (λ sc. (sc.run_as_non_root ≡ some false) ⊎ (sc.run_as_user ≡ some 0)) o
unfolding allows_root
allows_root_iff none = (λ h. cc, λ h. absurd h)
allows_root_iff (some sc) = root_test_iff sc.run_as_non_root sc.run_as_user

module _ (pod : PodSpec) where
  fallback_iff :
      (o : Option SecurityContext)
      → (allows_root_with_fallback o pod.security_context ≡ true) ↔ (
          Points (λ sc. (sc.run_as_non_root ≡ some false) ⊎ (sc.run_as_user ≡ some 0)) o
          ⊎ PodAsksRoot pod)
  unfolding allows_root_with_fallback
  fallback_iff none =
      let (to, from) = allows_root_iff pod.security_context in
      (λ h. inr (to h), λ h. elim h [ inl n ↦ absurd n | inr p ↦ from p ])
  fallback_iff (some sc) =
      ground (
        arith,
        root_test_iff sc.run_as_non_root sc.run_as_user,
        allows_root_iff pod.security_context,
      )

  -- Some container asks for root, or inherits it from the pod.
  containers_iff :
      (cs : List Container)
      → (any (λ c. allows_root_with_fallback c.security_context pod.security_context) cs ≡ true)
        ↔ Any (λ c. AsksRoot c ⊎ PodAsksRoot pod) cs
  containers_iff cs =
      any_iff _ (λ c. AsksRoot c ⊎ PodAsksRoot pod) (λ c. fallback_iff c.security_context) cs

  Any-AsksRoot :
      (cs : List Container)
      → Any (λ c. AsksRoot c ⊎ PodAsksRoot pod) cs
      → Any AsksRoot cs ⊎ PodAsksRoot pod
  Any-AsksRoot [] h = absurd h
  Any-AsksRoot (c ∷ cs) (inl (inl a)) = inl (inl a)
  Any-AsksRoot (c ∷ cs) (inl (inr p)) = inr p
  Any-AsksRoot (c ∷ cs) (inr h) = elim (Any-AsksRoot cs h) [ inl a ↦ inl (inr a) | inr p ↦ inr p ]

  AsksRoot-Any :
      (cs : List Container) → Any AsksRoot cs → Any (λ c. AsksRoot c ⊎ PodAsksRoot pod) cs
  AsksRoot-Any [] h = absurd h
  AsksRoot-Any (c ∷ cs) (inl a) = inl (inl a)
  AsksRoot-Any (c ∷ cs) (inr h) = inr (AsksRoot-Any cs h)

  requires_root_justification_iff : (requires_root_justification pod ≡ true) ↔ RunsAsRoot pod
  unfolding requires_root_justification
  requires_root_justification_iff = ground (
    arith,
    allows_root_iff pod.security_context,
    containers_iff pod.init_containers,
    containers_iff pod.containers,
    Any-AsksRoot pod.init_containers,
    Any-AsksRoot pod.containers,
    AsksRoot-Any pod.init_containers,
    AsksRoot-Any pod.containers,
  )

one_volume :
    (i : ℕ) (path : Option Text)
    → (when (is_some path) (forbidden (at (at pod_path (child "volumes")) (index i))) ≡ [])
      ↔ (path ≡ none)
one_volume i none = ground arith
one_volume i (some path) = ground arith

volume_errors_iff :
    (i : ℕ) (vs : List Volume) → (volume_errors i vs ≡ []) ↔ All (λ v. v.host_path ≡ none) vs
unfolding volume_errors
volume_errors_iff i [] = (λ h. tt, λ h. refl)
volume_errors_iff i (v ∷ vs) =
    both_iff (one_volume i v.host_path) (λ _. volume_errors_iff (suc i) vs)

one_container :
    (list : String) (i : ℕ) (c : Container)
    → (when (contains_sys_admin c.security_context) (forbidden (capabilities_path list i)) ≡ [])
      ↔ (¬ AddsSysAdmin c)
one_container list i c =
    let (to, from) = contains_sys_admin_iff c.security_context in
    (
      λ h a. cc (h, from a),
      λ n. elim (Bool-cases (contains_sys_admin c.security_context)) [
        | inl e ↦ absurd (n (to e))
        | inr e ↦ rw e refl
      ],
    )

container_errors_iff :
    (list : String) (i : ℕ) (cs : List Container)
    → (container_errors list i cs ≡ []) ↔ All (λ c. ¬ AddsSysAdmin c) cs
unfolding container_errors
container_errors_iff list i [] = (λ h. tt, λ h. refl)
container_errors_iff list i (c ∷ cs) =
    both_iff (one_container list i c) (λ _. container_errors_iff list (suc i) cs)

host_errors_iff :
    (pod : PodSpec)
    → (host_errors pod ≡ [])
      ↔ ((pod.host_network ≡ false) × ((pod.host_pid ≡ false) × (pod.host_ipc ≡ false)))
unfolding host_errors
host_errors_iff pod = ground arith

justification_errors_iff :
    (j : Job)
    → (justification_errors j ≡ [])
      ↔ (RunsAsRoot j.pod_spec → trim_space (get j.meta.annotations justification_key) ≢ [])
unfolding justification_errors
justification_errors_iff j =
    let (to, from) = requires_root_justification_iff j.pod_spec in
    let blank = is_empty-cases (trim_space (get j.meta.annotations justification_key)) in
    elim (Bool-cases (requires_root_justification j.pod_spec)) [
      | inl e ↦ elim blank [
        | inl (f, n) ↦ rw (e, f) (λ h. cc, λ h. absurd (h (to e) n))
        | inr (f, ne) ↦ rw (e, f) (λ h _. ne, λ h. refl)
      ]
      | inr e ↦ rw e (λ h r. cc (e, from r), λ h. refl)
    ]

validate_job_iff : (old : Option Job) (j : Job) → (validate_job old j ≡ []) ↔ IsAdmissible old j
unfolding validate_job
validate_job_iff old j =
    let pod = j.pod_spec in
    let (to, from) = both_iff (validate_required_labels_iff j.meta) (λ _.
      both_iff (validate_tenant_immutability_iff (old_meta old) j.meta) (λ _.
        both_iff (host_errors_iff pod) (λ _. both_iff (volume_errors_iff 0 pod.volumes) (λ _.
          both_iff (container_errors_iff "initContainers" 0 pod.init_containers) (λ _.
            both_iff (container_errors_iff "containers" 0 pod.containers)
              (λ _. justification_errors_iff j)))))) in
    (
      λ h.
          let (labelled, (keeps, ((network, (pid, ipc)), (paths, (inits, (mains, justified)))))) =
            to h in
          record {
            labelled = labelled;
            keeps_tenant = keeps;
            no_host_network = network;
            no_host_pid = pid;
            no_host_ipc = ipc;
            no_host_path = paths;
            init_containers = inits;
            containers = mains;
            justified = justified;
          },
      λ a. from (
        a.labelled,
        (
          a.keeps_tenant,
          (
            (a.no_host_network, (a.no_host_pid, a.no_host_ipc)),
            (a.no_host_path, (a.init_containers, (a.containers, a.justified))),
          ),
        ),
      ),
    )

-- The job webhook admits a job exactly when it has the required labels, an update keeps the
-- tenant, the pod shares no host namespace and mounts no host path, no container adds SYS_ADMIN in
-- any case, and a pod that asks for root, itself or by a container, is annotated with a
-- justification.
pub job_admission_iff :
    (j : Job)
    → ((validate_create (job j) ≡ ok []) ↔ IsAdmissible none j)
      × ((old : Job)
          → (validate_update (some (job old)) (job j) ≡ ok []) ↔ IsAdmissible (some old) j)
unfolding validate_create validate_update
job_admission_iff j = (
  ground
      (arith, verdict_iff "Job" j.meta.name [] [] (validate_job none j), validate_job_iff none j),
  λ old. ground (
    arith,
    verdict_iff "Job" j.meta.name [] [] (validate_job (some old) j),
    validate_job_iff (some old) j,
  ),
)
