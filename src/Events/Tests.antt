-- ===== src/Events/Tests.antt =====
-- A batch of two events and the meta of one.
use kube_op.Prelude.{
  ◌+◌, ◌≤◌, ◌≡◌, refl, true, false, List, [], ◌∷◌, none, length, take, if◌then◌else◌,
}
use kube_op.Text.{text}
use kube_op.Events.{
  string, nested, array, no_values, and_value, Meta, empty, entry, redact_meta, EventInput,
  EventFaults, ingest_project_events,
}
use kube_op.Events.Accepted.{accepted_of, events_onto}
use kube_op.Events.Batches.{ingest_project_events-counts}
use kube_op.Events.Redaction.{Shows, redact_meta_lem}

abbrev open_bridge : EventFaults
open_bridge = record { events_db_enabled = true; events_bridge_enabled = true; insert = λ e. false }

abbrev deployed : EventInput
deployed = record {
  project_id = text " p1 ";
  app_id = [];
  actor_user_id = [];
  kind = text "deployed";
  severity = text "warn";
  message = text "web";
  meta =
      entry (text "apiToken") (string (text "t0p"))
        (entry (text "more") (nested (entry (text "PASSWORD") (string (text "x")) empty)) empty);
}

abbrev batch : List EventInput
batch = deployed ∷ record deployed { message = text " " } ∷ []

stored_event :
    (ingest_project_events open_bridge (text "bridge") (text "c1") batch []).0.1
    ≡ record {
      project_id = text "p1";
      app_id = [];
      actor_user_id = text "bridge";
      kind = text "deployed";
      severity = text "WARN";
      message = text "web";
      meta = deployed.meta;
    }
      ∷ []
unfolding ingest_project_events
stored_event = refl

redacted :
    redact_meta deployed.meta
    ≡ entry (text "apiToken") (string (text "[redacted]")) (
        entry
          (text "more")
          (nested (entry (text "PASSWORD") (string (text "[redacted]")) empty))
          empty)
unfolding redact_meta
redacted = refl

ingest_project_events-counts_example :
    let ((summary, stored), failure) =
      ingest_project_events open_bridge (text "bridge") (text "c1") batch [] in
    let accepted = accepted_of open_bridge (text "bridge") (take 500 batch) in
    (failure ≡ none)
    × (summary.total ≡ length batch)
    × (summary.accepted ≡ length accepted)
    × (summary.accepted + summary.dropped ≡ length batch)
    × (summary.accepted ≤ 500)
    × (stored ≡ (if true then events_onto (text "bridge") accepted [] else []))
ingest_project_events-counts_example =
    ingest_project_events-counts open_bridge (text "bridge") (text "c1") batch [] refl

redact_meta_lem_example :
    Shows deployed.meta (redact_meta deployed.meta)
    × (redact_meta (redact_meta deployed.meta) ≡ redact_meta deployed.meta)
redact_meta_lem_example = redact_meta_lem deployed.meta

-- A password in a map that an array holds is shown.
abbrev in_array : Meta
in_array =
    entry (text "users")
      (array (and_value (nested (entry (text "password") (string (text "x")) empty)) no_values))
      empty

array_shown : redact_meta in_array ≡ in_array
unfolding redact_meta
array_shown = refl
