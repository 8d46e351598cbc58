-- ===== src/UsageWriter/Tests.antt =====
-- The usage writer on concrete samples: quantities are numbers, conditions a map by type.
use kube_op.Prelude.{
  ℕ, ◌+◌, ◌≤◌, ◌≡◌, refl, true, false, ◌↔◌, List, [], ◌∷◌, none, Result, ok, ◌==◌, ==_iff, arith,
  length,
}
use kube_op.Text.{Text, text, same, is_empty, trim_space}
use kube_op.TextMap.{TextMap, find, put, find-put}
use kube_op.UsageWriter.{
  Quantities, AddsZero, UsageSample, BillingSubjectType, Formats, truncate_hour,
}
use kube_op.UsageWriter.Names.{namespace_key, build_billing_usage_name, sanitize_name}
use kube_op.UsageWriter.Labels.{IsLabel}
use kube_op.UsageWriter.BillingNames.{
  IsWindowText, build_billing_usage_name-IsLabel, build_billing_usage_name-namespace_key,
}
use kube_op.UsageWriter.Totals.{totals_of, no_totals, aggregate, tenant_key, project_key, app_key}
use kube_op.UsageWriter.Sums.{cpu, total, counts, sum, aggregate-sum}
use kube_op.UsageWriter.Server.{
  Condition, Platform, SetsConditions, Metered, Faults, list_projects_failed,
}
use kube_op.UsageWriter.Reconcile.{Server, reconcile}
use kube_op.UsageWriter.Loops.{Succeeds, reconcile-failures_iff}
use kube_op.UsageWriter.Runs.{IsReported, reconcile-IsReported}

abbrev numbers : Quantities ℕ
numbers = record {
  zero_quantity = 0;
  add = λ x y. x + y;
  is_zero = λ x. x == 0;
  print = λ x. (b'0' + x) ∷ [];
}

numbers-AddsZero : AddsZero numbers
numbers-AddsZero x y h = omega (arith, (==_iff y 0).0 h)

abbrev twenty : Text → List ℕ
twenty s =
    1 ∷ 2 ∷ 3 ∷ 4 ∷ 5 ∷ 6 ∷ 7 ∷ 8 ∷ 9 ∷ 10 ∷ 11 ∷ 12 ∷ 13 ∷ 14 ∷ 15 ∷ 16 ∷ 17 ∷ 18 ∷ 19 ∷ 250 ∷ []

abbrev noon : Text
noon = text "2025-11-02T12"

abbrev fixed_formats : Formats
fixed_formats = record { sha1 = twenty; format_window = λ window. noon }

noon-IsWindowText : IsWindowText noon
noon-IsWindowText = record { nonempty = refl; bytes = ground arith; begins = refl; ends = refl }

abbrev platform : Platform ℕ (TextMap Condition)
platform = record {
  quantities = numbers;
  formats = fixed_formats;
  format_rfc3339 = λ window. text "2025-11-02T12:00:00Z";
  no_conditions = [];
  set_status_condition = λ cs c. put c.type c cs;
  find_status_condition = λ cs type. find type cs;
}

platform-SetsConditions : SetsConditions platform
platform-SetsConditions cs c type = find-put c.type type c cs

abbrev no_faults : Faults
no_faults = record {
  list_tenants = false;
  list_projects = false;
  list_apps = false;
  patch_tenant = λ name. false;
  patch_project = λ name. false;
  sync_usage = λ subject ref. false;
  patch_usage = λ subject ref. false;
}

abbrev sample : ℕ → UsageSample ℕ
sample n = record {
  tenant = text " acme ";
  project_namespace = text "ns";
  project = text "web";
  app_namespace = text "ns";
  app = text "shop";
  cpu = n;
  memory = 1;
  storage = 0;
  egress = 0;
  lb_hours = 2;
}

abbrev samples : List (UsageSample ℕ)
samples = sample 2 ∷ sample 3 ∷ record (sample 4) { app = text " " } ∷ []

abbrev metered_object : Text → Text → Metered ℕ (TextMap Condition)
metered_object ns name = record { namespace = ns; name = name; usage = none; conditions = [] }

abbrev cluster : Server ℕ (TextMap Condition)
cluster = record {
  tenants = metered_object [] (text "acme") ∷ [];
  projects = metered_object (text "ns") (text "web") ∷ [];
  apps = record { namespace = text "ns"; name = text "shop" } ∷ [];
  usages = [];
}

abbrev collected : Result Text (List (UsageSample ℕ))
collected = ok samples

names :
    (sanitize_name (text " Team_A//b. ") ≡ text "team-a-b")
    × (build_billing_usage_name fixed_formats BillingSubjectType.app (text "ns/shop") 0
        ≡ text "app-ns-shop-2025-11-02t12")
unfolding sanitize_name build_billing_usage_name
names = (refl, refl)

cpu_of_acme :
    (totals_of numbers (text "acme") (aggregate numbers no_totals samples).tenant_totals).cpu ≡ 5
unfolding totals_of aggregate same
cpu_of_acme = refl

clean_run : (reconcile platform no_faults 7300 collected cluster).failures ≡ []
unfolding reconcile
clean_run = refl

-- A failing list hides the errors before it.
hidden_error :
    (reconcile platform
      (record no_faults { list_projects = true; patch_tenant = λ name. true })
      7300
      collected
      cluster).failures
    ≡ list_projects_failed ∷ []
unfolding reconcile
hidden_error = refl

aggregate-sum_example :
    let t = aggregate numbers no_totals samples in
    (total cpu (totals_of numbers (text "acme") t.tenant_totals)
      ≡ sum numbers cpu (counts tenant_key (text "acme")) 0 samples)
    × (total cpu (totals_of numbers (text "acme") t.project_totals)
        ≡ sum numbers cpu (counts project_key (text "acme")) 0 samples)
    × (total cpu (totals_of numbers (text "acme") t.app_totals)
        ≡ sum numbers cpu (counts app_key (text "acme")) 0 samples)
aggregate-sum_example = aggregate-sum numbers numbers-AddsZero samples cpu (text "acme")

length-twenty : (s : Text) → length (twenty s) ≡ 20
length-twenty s = refl

build_billing_usage_name-IsLabel_example :
    IsLabel (build_billing_usage_name fixed_formats BillingSubjectType.app (text "ns/shop") 3600)
    × (length (build_billing_usage_name fixed_formats BillingSubjectType.app (text "ns/shop") 3600)
        ≤ 63)
build_billing_usage_name-IsLabel_example =
    build_billing_usage_name-IsLabel fixed_formats BillingSubjectType.app (text "ns/shop") 3600
      length-twenty noon-IsWindowText

not_blank : is_empty (trim_space (text "a")) ≡ false
unfolding trim_space
not_blank = refl

not_blank_too : is_empty (trim_space (text "a-b")) ≡ false
unfolding trim_space
not_blank_too = refl

build_billing_usage_name-namespace_key_example :
    build_billing_usage_name fixed_formats BillingSubjectType.project
      (namespace_key (text "a") (text "b-c"))
      3600
    ≡ build_billing_usage_name fixed_formats BillingSubjectType.project
        (namespace_key (text "a-b") (text "c"))
        3600
build_billing_usage_name-namespace_key_example =
    build_billing_usage_name-namespace_key fixed_formats BillingSubjectType.project 3600 (text "a")
      (text "b") (text "c") not_blank not_blank_too

reconcile-failures_iff_example :
    ((reconcile platform no_faults 7300 collected cluster).failures ≡ []) ↔ (
      ((given : List (UsageSample ℕ)) × (collected ≡ ok given))
      × Succeeds platform no_faults (truncate_hour 7300) cluster)
reconcile-failures_iff_example = reconcile-failures_iff platform no_faults 7300 collected cluster

reconcile-IsReported_example :
    (given : List (UsageSample ℕ)) × (collected ≡ ok given)
    × IsReported platform
        (truncate_hour 7300)
        (aggregate platform.quantities no_totals given)
        cluster
        (reconcile platform no_faults 7300 collected cluster).server
reconcile-IsReported_example =
    reconcile-IsReported platform no_faults 7300 cluster collected platform-SetsConditions clean_run
