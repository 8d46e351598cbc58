-- ===== src/HealthScheduler/Tests.antt =====
-- Three clusters, one of which cannot be checked.
use kube_op.Prelude.{
  ◌+◌, ◌≡◌, refl, Bool, true, false, List, [], ◌∷◌, none, length, Result, ok, err, if◌then◌else◌,
  leb,
}
use kube_op.Text.{Text, text}
use kube_op.HealthScheduler.{
  Cluster, tick_with_summary, healthy_of, failures_of, tick_with_summary-counts,
}

abbrev clusters : List Cluster
clusters =
    record { id = text "a"; name = text "one" }
    ∷ record { id = text "b"; name = text "two" }
    ∷ record { id = text "c"; name = text "three" }
    ∷ []

abbrev check : Text → Result Text Bool
check [] = err (text "no id")
check (c ∷ id) =
    if leb c b'a' then ok true else if leb c b'b' then err (text "timeout") else ok false

ticked : (tick_with_summary (ok clusters) check).0 ≡ record {
  clusters = 3;
  healthy = 1;
  unhealthy = 2;
  failures =
      record { cluster_id = text "b"; cluster_name = text "two"; error = text "timeout" } ∷ [];
}
unfolding tick_with_summary
ticked = refl

tick_with_summary-counts_example :
    let (summary, failure) = tick_with_summary (ok clusters) check in
    (failure ≡ none)
    × (summary.clusters ≡ length clusters)
    × (summary.healthy ≡ healthy_of check clusters)
    × (summary.healthy + summary.unhealthy ≡ length clusters)
    × (summary.failures ≡ failures_of check clusters)
tick_with_summary-counts_example = tick_with_summary-counts clusters check
