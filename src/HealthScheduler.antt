-- ===== src/HealthScheduler.antt =====
-- One tick of the cluster health scheduler (internal/service/healthscheduler.go).
pub mod Tests
use kube_op.Prelude.{
  ℕ, ◌+◌, ◌≡◌, refl, ap, sym, ◌∙◌, Bool, true, false, List, [], ◌∷◌, ◌++◌, Option, none, some,
  length, if◌then◌else◌, Result, ok, err, arith,
}
use mathlib.Core.List.{append-nil, append_assoc}
use kube_op.Text.{Text, text}

-- What a tick reads of `store.Cluster`.
pub record Cluster : Type 0 where
  pub id : Text
  pub name : Text

-- `ClusterHealthFailure`
pub record ClusterHealthFailure : Type 0 where
  pub cluster_id : Text
  pub cluster_name : Text
  pub error : Text

-- `ClusterHealthSummary` without the time of the start and the duration.
pub record ClusterHealthSummary : Type 0 where
  pub clusters : ℕ
  pub healthy : ℕ
  pub unhealthy : ℕ
  pub failures : List ClusterHealthFailure

abbrev pub empty_summary : ClusterHealthSummary
empty_summary = record { clusters = 0; healthy = 0; unhealthy = 0; failures = [] }

-- What a check adds: an error, or whether the cluster is healthy.
abbrev pub add_check : Cluster → Result Text Bool → ClusterHealthSummary → ClusterHealthSummary
add_check c (err e) s = record s {
  unhealthy = s.unhealthy + 1;
  failures = s.failures ++ (record { cluster_id = c.id; cluster_name = c.name; error = e } ∷ []);
}
add_check c (ok true) s = record s { healthy = s.healthy + 1 }
add_check c (ok false) s = record s { unhealthy = s.unhealthy + 1 }

-- The loop over the clusters; `check` is `CheckCluster`, by the id.
unfoldable pub check_clusters :
    (Text → Result Text Bool) → List Cluster → ClusterHealthSummary → ClusterHealthSummary
check_clusters check [] s = s
check_clusters check (c ∷ clusters) s = check_clusters check clusters (add_check c (check c.id) s)

-- `TickWithSummary` of a scheduler with its dependencies; the list of clusters may fail.
unfoldable pub tick_with_summary :
    Result Text (List Cluster) → (Text → Result Text Bool) → ClusterHealthSummary × Option Text
unfolding check_clusters
tick_with_summary (err e) check = (empty_summary, some e)
tick_with_summary (ok clusters) check =
    (check_clusters check clusters (record empty_summary { clusters = length clusters }), none)

-- The failures that the clusters give, in their order.
abbrev pub failure_of : Cluster → Result Text Bool → List ClusterHealthFailure
failure_of c (err e) = record { cluster_id = c.id; cluster_name = c.name; error = e } ∷ []
failure_of c (ok healthy) = []

abbrev pub failures_of : (Text → Result Text Bool) → List Cluster → List ClusterHealthFailure
failures_of check [] = []
failures_of check (c ∷ clusters) = failure_of c (check c.id) ++ failures_of check clusters

abbrev is_ok : Result Text Bool → Bool
is_ok (ok healthy) = healthy
is_ok (err e) = false

abbrev pub healthy_of : (Text → Result Text Bool) → List Cluster → ℕ
healthy_of check [] = 0
healthy_of check (c ∷ clusters) = (if is_ok (check c.id) then 1 else 0) + healthy_of check clusters

add_check-counts :
    (c : Cluster) (r : Result Text Bool) (s : ClusterHealthSummary)
    → ((add_check c r s).clusters ≡ s.clusters)
      × ((add_check c r s).healthy ≡ s.healthy + (if is_ok r then 1 else 0))
      × ((add_check c r s).healthy + (add_check c r s).unhealthy ≡ s.healthy + s.unhealthy + 1)
      × ((add_check c r s).failures ≡ s.failures ++ failure_of c r)
add_check-counts c (err e) s = (refl, omega arith, omega arith, refl)
add_check-counts c (ok true) s = (refl, refl, omega arith, sym (append-nil s.failures))
add_check-counts c (ok false) s = (refl, omega arith, omega arith, sym (append-nil s.failures))

check_clusters-counts :
    (check : Text → Result Text Bool) (clusters : List Cluster) (s : ClusterHealthSummary)
    → let t = check_clusters check clusters s in
      (t.clusters ≡ s.clusters)
      × (t.healthy ≡ s.healthy + healthy_of check clusters)
      × (t.healthy + t.unhealthy ≡ s.healthy + s.unhealthy + length clusters)
      × (t.failures ≡ s.failures ++ failures_of check clusters)
unfolding check_clusters
check_clusters-counts check [] s = (refl, omega arith, omega arith, sym (append-nil s.failures))
check_clusters-counts check (c ∷ clusters) s =
    let (same, healthy, total, failures) = add_check-counts c (check c.id) s in
    let (same_rest, healthy_rest, total_rest, failures_rest) =
      check_clusters-counts check clusters (add_check c (check c.id) s) in
    (
      same_rest ∙ same,
      omega (arith, healthy, healthy_rest),
      omega (arith, total, total_rest),
      failures_rest
          ∙ ap (λ fs. fs ++ failures_of check clusters) failures
          ∙ append_assoc s.failures (failure_of c (check c.id)) (failures_of check clusters),
    )

-- A tick whose list of clusters succeeds counts every cluster, each as healthy or as unhealthy; the
-- healthy ones are those whose check says so, and the failures are those of the checks that return
-- an error, in the order of the list.
pub tick_with_summary-counts :
    (clusters : List Cluster) (check : Text → Result Text Bool)
    → let (summary, failure) = tick_with_summary (ok clusters) check in
      (failure ≡ none)
      × (summary.clusters ≡ length clusters)
      × (summary.healthy ≡ healthy_of check clusters)
      × (summary.healthy + summary.unhealthy ≡ length clusters)
      × (summary.failures ≡ failures_of check clusters)
unfolding tick_with_summary
tick_with_summary-counts clusters check =
    let (counted, healthy, total, failures) =
      check_clusters-counts check clusters (record empty_summary { clusters = length clusters }) in
    (refl, counted, omega (arith, healthy), omega (arith, total), failures)
