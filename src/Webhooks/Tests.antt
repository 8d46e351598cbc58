-- ===== src/Webhooks/Tests.antt =====
-- The webhooks on concrete objects of a tenant "acme".
use kube_op.Prelude.{◌≡◌, ◌≢◌, refl, true, false, [], ◌∷◌, Option, none, some, ok, err}
use kube_op.Text.{Text, text, same}
use kube_op.Text.Equality.{differ}
use kube_op.StringMap.{StringMap}
use kube_op.Field.{forbidden, at, key}
use kube_op.Api.{
  ObjectMeta, App, AppSpec, helm_oci, Project, AppRelease, ServiceBinding, Bucket, Job, Container,
  NetworkPolicyProfile,
}
use kube_op.Cluster.{Client, Parsers, found, not_found, failed}
use kube_op.Webhooks.{
  app, project, release, binding, bucket, job, other, requires_cosign, invalid_object, label_tenant,
  labels_path, meta_of,
}
use kube_op.Webhooks.Metadata.{HasRequiredLabels, KeepsTenant}
use kube_op.Webhooks.LabelGuard
use kube_op.Webhooks.Projects
use kube_op.Webhooks.Buckets
use kube_op.Webhooks.Releases
use kube_op.Webhooks.Releases.Admission as ReleaseAdmission
use kube_op.Webhooks.Bindings
use kube_op.Webhooks.Bindings.Admission as BindingAdmission
use kube_op.Webhooks.Jobs
use kube_op.Webhooks.Jobs.Admission as JobAdmission
use kube_op.Webhooks.Apps.Handlers as Apps
use kube_op.Webhooks.Apps.Admission as AppAdmission
use kube_op.Webhooks.History.{
  of_project, Updates, here, next, tenant, fixed, Updates-tenant, Updates-fixed,
}

abbrev labels_of : Text → Option StringMap
labels_of owner = some (
    ("paas.kubeop.io/tenant", owner)
    ∷ ("paas.kubeop.io/project", text "shop")
    ∷ ("paas.kubeop.io/app", text "web")
    ∷ [])

abbrev named : Text → Text → ObjectMeta
named owner name = record {
  name = name;
  namespace = text "ns";
  labels = labels_of owner;
  annotations = none;
}

abbrev shop : Project
shop = record {
  meta = named (text "acme") (text "shop");
  spec = record { tenant_ref = text "acme"; network_policy_profile_ref = text "edge" };
}

abbrev plain_spec : AppSpec
plain_spec = record {
  app_type = helm_oci;
  source = some (record { url = text "oci://ghcr.io/team/web"; chart = []; ref = [] });
  image = [];
  version = text "v1.2.3";
  version_range = [];
  values_refs = text "values" ∷ [];
  secrets_refs = [];
  ingress_refs = [];
  service_profile = some (record {
    service_type = text "LoadBalancer";
    ports = 80 ∷ [];
    is_internal = false;
    external_ips = [];
  });
}

abbrev web : App
web = record { meta = named (text "acme") (text "web"); spec = plain_spec }

abbrev edge : NetworkPolicyProfile
edge = record {
  meta = named (text "acme") (text "edge");
  service_policy =
      some (record { allowed_types = text "LoadBalancer" ∷ []; allowed_external_ips = [] });
}

-- A server on which everything of the tenant exists.
abbrev server : Client
server = record {
  config_map = λ _. found (
      ("allowedRegistries", text "ghcr.io")
      ∷ ("allowedRepositories", text "ghcr.io/team/*")
      ∷ ("requireCosign", text "true")
      ∷ []);
  config_ref = λ k. found (named (text "acme") k.name);
  secret_ref = λ k. found (named (text "other") k.name);
  ingress_route = λ k. not_found;
  bucket_policy = λ k. found (named (text "acme") k.name);
  database_instance = λ k. found (named (text "acme") k.name);
  cache_instance = λ k. failed;
  queue_instance = λ k. not_found;
  service_account = λ k. found (named (text "acme") k.name);
  app = λ k. found web;
  project = λ k. found shop;
  network_policy_profile = λ n. found edge;
}

abbrev parsers : Parsers
parsers = record {
  is_version = λ v. same v (text "1.2.3");
  is_constraint = λ v. false;
  parse_reference = λ v. none;
  parse_url = λ v. none;
}

web_admitted : Apps.validate_create server parsers (app web) ≡ ok (requires_cosign ∷ [])
unfolding Apps.validate_create
web_admitted = refl

-- A reference to a secret of another tenant is refused.
foreign_secret :
    Apps.validate_app server parsers none
      (record web { spec = record plain_spec { secrets_refs = text "key" ∷ [] } })
    ≢ []
unfolding Apps.validate_app
foreign_secret = λ e. cc

app_admission_iff_example : AppAdmission.IsAdmissible server parsers none web
app_admission_iff_example =
    ((AppAdmission.app_admission_iff server parsers web (requires_cosign ∷ [])).0.0 web_admitted).0

project_admitted : Projects.validate_create (project shop) ≡ ok []
unfolding Projects.validate_create
project_admitted = refl

project_admission_iff_example : Projects.IsAdmissible none shop
project_admission_iff_example = (Projects.project_admission_iff shop).0.0 project_admitted

abbrev store : Bucket
store = record { meta = named (text "acme") (text "store"); policy_refs = text "p" ∷ [] }

bucket_admitted : Buckets.validate_create server (bucket store) ≡ ok []
unfolding Buckets.validate_create
bucket_admitted = refl

bucket_admission_iff_example : Buckets.IsAdmissible server none store
bucket_admission_iff_example = (Buckets.bucket_admission_iff server store).0.0 bucket_admitted

abbrev first : AppRelease
first = record {
  meta = named (text "acme") (text "web-1");
  spec = record {
    app_ref = text "web";
    version = text "1.2.3";
    resolved_source = [];
    digest = text "sha256:0123456789abcdef0123456789abcdef";
    rendered_config_hash = text "0123456789ABCDEF0123456789abcdef";
  };
}

release_admitted : Releases.validate_create server parsers (release first) ≡ ok []
unfolding Releases.validate_create
release_admitted = refl

release_admission_iff_example : ReleaseAdmission.IsAdmissible server parsers none first
release_admission_iff_example =
    (ReleaseAdmission.release_admission_iff server parsers first).0.0 release_admitted

abbrev link : ServiceBinding
link = record {
  meta = named (text "acme") (text "link");
  consumer = record { target_type = text "app"; name = text "web" };
  provider = record { target_type = text "database"; name = text "db" };
}

binding_admitted : Bindings.validate_create server (binding link) ≡ ok []
unfolding Bindings.validate_create
binding_admitted = refl

binding_admission_iff_example : Bindings.IsAdmissible server none link
binding_admission_iff_example =
    (BindingAdmission.binding_admission_iff server link).0.0 binding_admitted

abbrev container : Container
container = record {
  name = text "main";
  security_context = some (record {
    added_capabilities = some (text "NET_BIND_SERVICE" ∷ []);
    run_as_non_root = some true;
    run_as_user = some 1000;
  });
}

abbrev nightly : Job
nightly = record {
  meta = named (text "acme") (text "nightly");
  pod_spec = record {
    host_network = false;
    host_pid = false;
    host_ipc = false;
    volumes = [];
    init_containers = [];
    containers = container ∷ [];
    security_context = none;
  };
}

job_admitted : Jobs.validate_create (job nightly) ≡ ok []
unfolding Jobs.validate_create
job_admitted = refl

job_admission_iff_example : JobAdmission.IsAdmissible none nightly
job_admission_iff_example = (JobAdmission.job_admission_iff nightly).0.0 job_admitted

-- A new tenant is refused, with the path of the label.
retenanted :
    LabelGuard.validate_update "ConfigRef"
      (other (named (text "acme") (text "c")))
      (other (named (text "rival") (text "c")))
    ≡ err
        (invalid_object "ConfigRef" (text "c") (forbidden (at labels_path (key label_tenant)) ∷ []))
unfolding LabelGuard.validate_update
retenanted = refl

guard_admitted :
    LabelGuard.validate_update "ConfigRef"
      (other (named (text "acme") (text "c")))
      (other (named (text " acme ") (text "c")))
    ≡ ok []
unfolding LabelGuard.validate_update
guard_admitted = refl

abbrev old_ref : ObjectMeta
old_ref = named (text "acme") (text "c")

abbrev new_ref : ObjectMeta
new_ref = named (text " acme ") (text "c")

label_guard_admission_iff_example :
    (old : ObjectMeta) × (m : ObjectMeta) × (meta_of (other old_ref) ≡ some old)
    × (meta_of (other new_ref) ≡ some m)
    × HasRequiredLabels m
    × KeepsTenant (some old) m
label_guard_admission_iff_example =
    (LabelGuard.label_guard_admission_iff "ConfigRef" (other old_ref) (other new_ref)).0
      guard_admitted

abbrev shop_again : Project
shop_again = record shop {
  spec = record { tenant_ref = text "acme"; network_policy_profile_ref = [] };
}

shop_updated : Projects.validate_update (project shop) (project shop_again) ≡ ok []
unfolding Projects.validate_update
shop_updated = refl

abbrev shop_history : Updates (project shop) (project shop_again)
shop_history = next here (of_project shop_updated)

shop_has_tenant : tenant (project shop) ≢ []
shop_has_tenant = unfold same kube_op.StringMap.get kube_op.Text.trim_space in differ _ _ refl

Updates-tenant_example :
    (tenant (project shop_again) ≡ tenant (project shop)) × (tenant (project shop_again) ≢ [])
Updates-tenant_example = Updates-tenant shop_history shop_has_tenant

Updates-fixed_example : fixed (project shop_again) ≡ fixed (project shop)
Updates-fixed_example = Updates-fixed shop_history
