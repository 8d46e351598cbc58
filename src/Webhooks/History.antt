-- ===== src/Webhooks/History.antt =====
-- Objects under admission control: what holds of an object through any number of admitted updates,
-- each judged against a state of the API server of its own.
use kube_op.Prelude.{
  String, ◌≡◌, ◌≢◌, refl, sym, ◌∙◌, ap, inl, inr, List, [], Option, none, some, ok,
}
use kube_op.Text.{Text}
use kube_op.Api.{ObjectMeta, App, Project, AppRelease, AppReleaseSpec, ServiceBinding, Bucket, Job}
use kube_op.Cluster.{Client, Parsers}
use kube_op.Webhooks.{
  Object, app, project, release, binding, bucket, job, other, Warning, meta_of, label_tenant,
  trimmed_label,
}
use kube_op.Webhooks.Metadata.{HasRequiredLabels, KeepsTenant}
use kube_op.Webhooks.LabelGuard
use kube_op.Webhooks.Projects
use kube_op.Webhooks.Buckets
use kube_op.Webhooks.Releases
use kube_op.Webhooks.Releases.Admission as ReleaseAdmission
use kube_op.Webhooks.Bindings
use kube_op.Webhooks.Bindings.Admission as BindingAdmission
use kube_op.Webhooks.Jobs
use kube_op.Webhooks.Jobs.Admission as JobAdmission
use kube_op.Webhooks.Apps.Handlers as Apps
use kube_op.Webhooks.Apps.Admission as AppAdmission

-- An update that the webhook of the object's kind admits.
pub data Update : Object → Object → Type 0 where
  of_app :
      (client : Client) (parsers : Parsers) (warnings : List Warning) {old a : App}
      → Apps.validate_update client parsers (app old) (app a) ≡ ok warnings
      → Update (app old) (app a)
  of_project :
      {old p : Project}
      → Projects.validate_update (project old) (project p) ≡ ok []
      → Update (project old) (project p)
  of_release :
      (client : Client) (parsers : Parsers) {old r : AppRelease}
      → Releases.validate_update client parsers (release old) (release r) ≡ ok []
      → Update (release old) (release r)
  of_binding :
      (client : Client) {old b : ServiceBinding}
      → Bindings.validate_update client (binding old) (binding b) ≡ ok []
      → Update (binding old) (binding b)
  of_bucket :
      (client : Client) {old b : Bucket}
      → Buckets.validate_update client (bucket old) (bucket b) ≡ ok []
      → Update (bucket old) (bucket b)
  of_job :
      {old j : Job}
      → Jobs.validate_update (some (job old)) (job j) ≡ ok []
      → Update (job old) (job j)
  of_other :
      (kind : String) {old m : ObjectMeta}
      → LabelGuard.validate_update kind (other old) (other m) ≡ ok []
      → Update (other old) (other m)

pub data Updates (s : Object) : Object → Type 0 where
  here : Updates s s
  next : {t u : Object} → Updates s t → Update t u → Updates s u

-- The tenant of an object, without white space at its ends.
abbrev pub tenant_of : Option ObjectMeta → Text
tenant_of none = []
tenant_of (some m) = trimmed_label m label_tenant

abbrev pub tenant : Object → Text
tenant obj = tenant_of (meta_of obj)

KeepsTenant→eq :
    (old m : ObjectMeta)
    → KeepsTenant (some old) m
    → trimmed_label old label_tenant ≢ []
    → trimmed_label m label_tenant ≡ trimmed_label old label_tenant
KeepsTenant→eq old m (inl n) ne = absurd (ne n)
KeepsTenant→eq old m (inr e) ne = e

-- What every admitted update gives: the labels of the new object, and its tenant.
record Sound (s t : Object) : Type 0 where
  old : ObjectMeta
  new : ObjectMeta
  before : meta_of s ≡ some old
  after : meta_of t ≡ some new
  labelled : HasRequiredLabels new
  keeps_tenant : KeepsTenant (some old) new

sound :
    {s t : Object} {old m : ObjectMeta}
    → meta_of s ≡ some old
    → meta_of t ≡ some m
    → HasRequiredLabels m
    → KeepsTenant (some old) m
    → Sound s t
sound {old} {m} before after labelled keeps = record {
  old = old;
  new = m;
  before = before;
  after = after;
  labelled = labelled;
  keeps_tenant = keeps;
}

Update-Sound : {s t : Object} → Update s t → Sound s t
Update-Sound (of_app client parsers warnings {old} {a} h) =
    let (admitted, _) = ((AppAdmission.app_admission_iff client parsers a warnings).1 old).0 h in
    sound refl refl admitted.labelled admitted.keeps_tenant
Update-Sound (of_project {old} {p} h) =
    let admitted = ((Projects.project_admission_iff p).1 old).0 h in
    sound refl refl admitted.labelled admitted.keeps_tenant
Update-Sound (of_release client parsers {old} {r} h) =
    let admitted = ((ReleaseAdmission.release_admission_iff client parsers r).1 old).0 h in
    sound refl refl admitted.labelled admitted.keeps_tenant
Update-Sound (of_binding client {old} {b} h) =
    let admitted = ((BindingAdmission.binding_admission_iff client b).1 old).0 h in
    sound refl refl admitted.labelled admitted.keeps_tenant
Update-Sound (of_bucket client {old} {b} h) =
    let admitted = ((Buckets.bucket_admission_iff client b).1 old).0 h in
    sound refl refl admitted.labelled admitted.keeps_tenant
Update-Sound (of_job {old} {j} h) =
    let admitted = ((JobAdmission.job_admission_iff j).1 old).0 h in
    sound refl refl admitted.labelled admitted.keeps_tenant
Update-Sound (of_other kind {old} {m} h) =
    let (o, n, before, after, labelled, keeps) =
      (LabelGuard.label_guard_admission_iff kind (other old) (other m)).0 h in
    sound before after labelled keeps

Sound-tenant : {s t : Object} → Sound s t → tenant s ≢ [] → (tenant t ≡ tenant s) × (tenant t ≢ [])
Sound-tenant {s} {t} u ne =
    let kept = KeepsTenant→eq u.old u.new u.keeps_tenant (λ e. ne (ap tenant_of u.before ∙ e)) in
    (
      ap tenant_of u.after ∙ kept ∙ sym (ap tenant_of u.before),
      λ e. u.labelled.0 (sym (ap tenant_of u.after) ∙ e),
    )

-- An object that has a tenant keeps it, as trimmed, through every sequence of admitted updates,
-- whatever its kind and whatever the API server holds at each of them.
pub Updates-tenant :
    {s t : Object} → Updates s t → tenant s ≢ [] → (tenant t ≡ tenant s) × (tenant t ≢ [])
Updates-tenant here ne = (refl, ne)
Updates-tenant (next us u) ne =
    let (same, still) = Updates-tenant us ne in
    let (step, now) = Sound-tenant (Update-Sound u) still in (step ∙ same, now)

-- What no admitted update may change: the spec of a release, and the tenant of a project's spec.
pub data Fixed : Type 0 where
  release_spec : AppReleaseSpec → Fixed
  tenant_ref : Text → Fixed
  free : Fixed

abbrev pub fixed : Object → Fixed
fixed (release r) = release_spec r.spec
fixed (project p) = tenant_ref p.spec.tenant_ref
fixed _ = free

Update-fixed : {s t : Object} → Update s t → fixed t ≡ fixed s
Update-fixed (of_app client parsers warnings h) = refl
Update-fixed (of_project {old} {p} h) =
    sym (ap tenant_ref (((Projects.project_admission_iff p).1 old).0 h).keeps_tenant_ref)
Update-fixed (of_release client parsers {old} {r} h) = sym (
    ap release_spec
      (((ReleaseAdmission.release_admission_iff client parsers r).1 old).0 h).keeps_spec)
Update-fixed (of_binding client h) = refl
Update-fixed (of_bucket client h) = refl
Update-fixed (of_job h) = refl
Update-fixed (of_other kind h) = refl

-- Through every sequence of admitted updates a release keeps its whole spec, and a project the
-- tenant of its spec.
pub Updates-fixed : {s t : Object} → Updates s t → fixed t ≡ fixed s
Updates-fixed here = refl
Updates-fixed (next us u) = Update-fixed u ∙ Updates-fixed us
