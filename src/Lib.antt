-- ===== src/Lib.antt =====
-- kubeOP manages applications of many tenants on Kubernetes. This library models its operator
-- (kubeop-operator): the admission webhooks that guard the operator's resources, with the registry
-- policy that they consult, the controllers of apps and tenants, and the usage writer that meters
-- them; and of the control plane the operations on deployed apps, project events, maintenance mode,
-- the DNS providers, the checks of hosts and addresses (pkg/security) and the names of apps and
-- users.
--
-- How the parts interact: the API server calls a webhook before it stores an object. The webhook
-- reads other objects through the controller-runtime client, the App webhook also the registry
-- policy of the namespace's ConfigMap, and answers with warnings, and errors by field if it
-- refuses. Once an hour's samples are there, the usage writer adds them up by tenant, project and
-- app and writes statuses and BillingUsage objects to the same server. The App controller applies
-- one Deployment for each App, the Tenant controller role bindings in each namespace of a tenant.
-- The control plane changes an app through its App resource where there is one, else through the
-- Deployment in the app's cluster, and then appends an event to its database; maintenance mode stops
-- some of these operations before they begin. It keeps the DNS records of an app's host at a
-- provider, and fetches from the hosts that its allowlist names, through a dialer that refuses
-- private networks.
--
-- Which file models what:
--   Api                the fields of the resources in kubeop-operator/apis/paas/v1alpha1 that the
--                      webhooks read, with the Kubernetes types inside them
--   Cluster            the client and the parsers of other packages, as parameters: what `Get`
--                      answers for each kind (found, not found, failed), semver, image references
--                      and url.Parse; no law of them is assumed
--   Field              field paths and error lists of apimachinery
--   Policy             kubeop-operator/internal/policy/registry.go: ParseConfigMap is
--                      `parse_config_map`, AllowsRegistry and AllowsRepository are
--                      `allows_registry` and `allows_repository`
--   Webhooks           kubeop-operator/internal/webhooks/webhooks.go: the label checks that all
--                      webhooks share; one child for each webhook (Apps, Projects, Releases,
--                      Bindings, Buckets, Jobs, LabelGuard) with the source's Default,
--                      ValidateCreate, ValidateUpdate and ValidateDelete as `default`,
--                      `validate_create`, `validate_update` and `validate_delete`; History chains
--                      updates
--   UsageWriter        kubeop-operator/controllers/usagewriter_controller.go: Names for
--                      buildBillingUsageName and what it calls, Totals for the accumulators and the
--                      loop over the samples, Server for one write of each kind, Reconcile for the
--                      loops over the objects and the error path
--   AppReconciler      kubeop-operator/controllers/app_controller.go: buildDesiredResources is
--                      `build_desired_resources`, pruneWorkload `prune_workload`, reconcileWorkload
--                      `reconcile_workload`, updateStatus `update_status`
--   TenantReconciler   kubeop-operator/controllers/tenant_controller.go: ensureRoleBinding is
--                      `ensure_role_binding`, Reconcile `reconcile`
--   AppOperations      internal/service/apps.go: locate and `update_deployment` are the two halves of
--                      updateAppDeployment; Changes holds ScaleApp, UpdateAppImage and
--                      RolloutRestartApp, with what the first two share as `change_app`;
--                      Attachments holds AttachConfigMapToApp, AttachSecretToApp,
--                      DetachConfigMapFromApp and DetachSecretFromApp, by a `SourceKind`
--   EnvAttachments     internal/service/apps.go: what these do to a container
--   Events             internal/service/events.go: AppendProjectEvent is `append_project_event`,
--                      IngestProjectEvents `ingest_project_events`, redactMeta `redact_meta`;
--                      a meta map holds what a JSON object can
--   Maintenance        internal/service/maintenance.go
--   Dns                internal/dns/providers.go: Cloudflare and PowerDns hold the providers with
--                      EnsureRecords as `ensure_records` and DeleteRecords as `delete_records`,
--                      Providers NewProvider and the provider of a plain HTTP API
--   Security           pkg/security/net.go: AllowedHost is `allowed_host`, IsPublicAddr is
--                      `is_public_addr`, and the function that DenyPrivateNetworks returns is
--                      `dial_public` in Dial; Paths models pkg/security/path.go, with
--                      NormalizeRepoPath as `normalize_repo_path`
--   HealthScheduler    internal/service/healthscheduler.go: TickWithSummary is
--                      `tick_with_summary`
--   KubeNames          internal/util/slugify.go and internal/service/app_names.go: Slugify is
--                      `slugify`, resourceSuffix `resource_suffix`, deriveKubeName
--                      `derive_kube_name`, appKubeName `app_kube_name`
--   UserLabels         internal/service/labels.go: SanitizeUserLabel and ResolveUserLabel
--   Text, StringMap, TextMap, KeyMap, Prelude
--                      Go strings and maps, objects by namespace and name, steps that may fail, and
--                      the lemmas that the parts share
--
-- State and errors: a webhook keeps no state, so a call is a function of the client's answers, the
-- old object and the new one; a refusal is the list of its field errors. The usage writer's state
-- is `Server`, the lists of tenants, projects and apps and the map of BillingUsage objects; which
-- calls fail is a parameter (`Faults`), by the object that the call names, and a run returns the
-- server after it with the errors in the order of the source. The controllers and the operations on
-- apps are steps in the same way, from a state to the state after it and an error or none: `Server`
-- for a controller, `ControlPlane` for the database and the objects of every cluster. The records
-- `Faults` and `Calls` tell which calls fail; a call that is made twice answers the same twice. The
-- DNS providers run over any API, on a state of its own.
--
-- Bounds: a text is a list of ASCII bytes; `TrimSpace`, `ToLower` and `EqualFold` are those of
-- ASCII, and other Unicode texts are outside the model. All loops are structural recursion over
-- lists, so there is no fuel. Times are whole seconds since 1970 in UTC.
--
-- Parameters: resource quantities with their sum and text, SHA-1, the printed forms of a time, and
-- condition lists with SetStatusCondition and FindStatusCondition; for the dialer the parsers of
-- addresses and the dialer below; what a server makes of an apply or an update; the API of a DNS
-- provider, the printed form of an address, and the order in which Go visits a map. A theorem that
-- relies on a law of one has it as a hypothesis. The law of Cloudflare's API (`IsZoneApi`) is that a
-- list without a page number is the first page, so the theorems on it ask that a host's records fit
-- into one; that of the server of App resources (`GivesVersions`) gives a new version only to an
-- update that changes something.
--
-- Not modelled: log calls, tickers, the registration with the manager and the DeepCopy functions,
-- which decide nothing; the command line and CRD bootstrap of the operator; the rest of the control
-- plane under internal/ and cmd/ (HTTP API, deployment, credentials, templates and releases,
-- SQL store, delivery, configuration); the checks of URLs in pkg/security, and of its
-- checks of paths those that read the file system. Address zones, the time of a change and the
-- bodies of HTTP requests are left out.
pub mod Api
pub mod AppOperations
pub mod AppReconciler
pub mod Cluster
pub mod Dns
pub mod EnvAttachments
pub mod Events
pub mod Field
pub mod HealthScheduler
pub mod KeyMap
pub mod KubeNames
pub mod Maintenance
pub mod Policy
pub mod Prelude
pub mod Security
pub mod StringMap
pub mod TenantReconciler
pub mod Text
pub mod TextMap
pub mod UsageWriter
pub mod UserLabels
pub mod Webhooks
