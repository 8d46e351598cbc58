-- ===== src/Webhooks/Jobs.antt =====
-- `JobWebhook`: the pod security restrictions of tenant jobs.
pub mod Admission
use kube_op.Prelude.{
  ℕ, suc, String, Bool, true, false, not, ◌&&◌, ◌||◌, ◌==◌, List, [], ◌∷◌, ◌++◌, Option, none, some,
  Result, ok, err, any, if◌then◌else◌,
}
use kube_op.Text.{Text, text, is_empty, equal_fold, is_some, trim_space}
use kube_op.StringMap.{get}
use kube_op.Field.{
  FieldPath, PathElement, child, key, index, at, FieldError, ErrorList, required, forbidden,
}
use kube_op.Api.{ObjectMeta, SecurityContext, PodSecurityContext, Volume, Container, PodSpec, Job}
use kube_op.Webhooks.{
  Object, job, Verdict, bad_request, on_create, on_update, verdict, when, default_metadata,
  validate_required_labels, validate_tenant_immutability,
}

abbrev pub as_job : Object → Option Job
as_job (job j) = some j
as_job _ = none

abbrev pub old_meta : Option Job → Option ObjectMeta
old_meta none = none
old_meta (some j) = some j.meta

abbrev pub justification_key : String
justification_key = "paas.kubeop.io/run-as-root-justification"

abbrev pub pod_path : FieldPath
pod_path = child "spec" ∷ child "template" ∷ child "spec" ∷ []

-- `containsSysAdmin`
unfoldable pub contains_sys_admin : Option SecurityContext → Bool
unfolding equal_fold
contains_sys_admin none = false
contains_sys_admin (some sc) = elim (sc.added_capabilities) [
  | none ↦ false
  | some added ↦ any (λ c. equal_fold c (text "SYS_ADMIN")) added
]

-- `x != nil && !*x`
abbrev pub is_false : Option Bool → Bool
is_false none = false
is_false (some b) = not b

-- `x != nil && *x == 0`
abbrev pub is_zero : Option ℕ → Bool
is_zero none = false
is_zero (some n) = n == 0

unfoldable pub allows_root : Option PodSecurityContext → Bool
allows_root none = false
allows_root (some sc) = is_false sc.run_as_non_root || is_zero sc.run_as_user

unfoldable pub allows_root_with_fallback : Option SecurityContext → Option PodSecurityContext → Bool
unfolding allows_root
allows_root_with_fallback none pod = allows_root pod
allows_root_with_fallback (some sc) pod =
    is_false sc.run_as_non_root || (is_zero sc.run_as_user || allows_root pod)

unfoldable pub requires_root_justification : PodSpec → Bool
unfolding allows_root allows_root_with_fallback
requires_root_justification pod =
    allows_root pod.security_context
    || (any (λ c. allows_root_with_fallback c.security_context pod.security_context)
          pod.init_containers
        || any (λ c. allows_root_with_fallback c.security_context pod.security_context)
            pod.containers)

unfoldable pub volume_errors : ℕ → List Volume → ErrorList
volume_errors i [] = []
volume_errors i (v ∷ vs) =
    when (is_some v.host_path) (forbidden (at (at pod_path (child "volumes")) (index i)))
    ++ volume_errors (suc i) vs

-- `containerCapabilitiesPath`
abbrev pub capabilities_path : String → ℕ → FieldPath
capabilities_path list i =
    at (at (at (at pod_path (child list)) (index i)) (child "securityContext"))
      (child "capabilities")

unfoldable pub container_errors : String → ℕ → List Container → ErrorList
unfolding contains_sys_admin
container_errors list i [] = []
container_errors list i (c ∷ cs) =
    when (contains_sys_admin c.security_context) (forbidden (capabilities_path list i))
    ++ container_errors list (suc i) cs

unfoldable pub host_errors : PodSpec → ErrorList
host_errors pod =
    when pod.host_network (forbidden (at pod_path (child "hostNetwork")))
    ++ (when pod.host_pid (forbidden (at pod_path (child "hostPID")))
        ++ when pod.host_ipc (forbidden (at pod_path (child "hostIPC"))))

unfoldable pub justification_errors : Job → ErrorList
unfolding requires_root_justification trim_space get
justification_errors j =
    when
      (requires_root_justification j.pod_spec
        && is_empty (trim_space (get j.meta.annotations justification_key)))
      (required (child "metadata" ∷ child "annotations" ∷ key justification_key ∷ []))

unfoldable pub validate_job : Option Job → Job → ErrorList
unfolding validate_required_labels validate_tenant_immutability host_errors volume_errors
    container_errors justification_errors
validate_job old j =
    validate_required_labels j.meta
    ++ (validate_tenant_immutability (old_meta old) j.meta
        ++ (host_errors j.pod_spec
            ++ (volume_errors 0 j.pod_spec.volumes
                ++ (container_errors "initContainers" 0 j.pod_spec.init_containers
                    ++ (container_errors "containers" 0 j.pod_spec.containers
                        ++ justification_errors j)))))

-- The job after `Default`, or an error for an object of another kind.
pub default : Object → Result (Unit {0}) Job
unfolding default_metadata
default obj = elim (as_job obj) [
  | none ↦ err tt
  | some j ↦ ok (record j { meta = default_metadata j.meta })
]

unfoldable pub validate_create : Object → Verdict
unfolding validate_job
validate_create obj = on_create (as_job obj) λ j. verdict "Job" j.meta.name [] (validate_job none j)

-- `ValidateUpdate` of jobs also takes a nil old object (`none`), which is no error.
abbrev pub update_old : Option Object → Job → Verdict
update_old none j = verdict "Job" j.meta.name [] (validate_job none j)
update_old (some old_obj) j =
    on_create (as_job old_obj) λ old. verdict "Job" j.meta.name [] (validate_job (some old) j)

unfoldable pub validate_update : Option Object → Object → Verdict
unfolding validate_job
validate_update old_obj new_obj = on_create (as_job new_obj) (update_old old_obj)

-- `ValidateDelete` admits every deletion.
pub validate_delete : Object → Verdict
validate_delete obj = ok []
