-- ===== src/Events/Batches.antt =====
-- The counts of `IngestProjectEvents`, and what it stores.
use kube_op.Prelude.{
  ℕ, ◌+◌, ◌≤◌, ◌≡◌, refl, ap, sym, ◌∙◌, Bool, true, false, inl, inr, List, [], ◌∷◌, none, length,
  take, arith, length-take, length-take-le, length-take_all, ltb, ltb→lt, if◌then◌else◌, Bool-cases,
}
use kube_op.Text.{Text, trim_space}
use kube_op.Events.{
  ProjectEvent, EventInput, EventFaults, EventIngestSummary, ingest_event, ingest_events,
  max_event_ingest_batch, limit_batch, ingest_project_events,
}
use kube_op.Events.Accepted.{
  is_accepted, accepted_of, events_onto, stored_after, ingest_event_cases,
}

module _ (faults : EventFaults) (actor : Text) where
  -- What a run from the summary `s` does for the inputs.
  pub record Counts (inputs : List EventInput) (s : EventIngestSummary) (events : List ProjectEvent)
      (r : EventIngestSummary × List ProjectEvent) : Type 0 where
    pub accepted : r.0.accepted ≡ s.accepted + length (accepted_of faults actor inputs)
    pub sum : r.0.accepted + r.0.dropped ≡ s.accepted + s.dropped + length inputs
    pub total : r.0.total ≡ s.total
    pub dropped : s.dropped ≤ r.0.dropped
    pub stored : r.1 ≡ stored_after faults actor (accepted_of faults actor inputs) events

  ingest_event-Counts :
      (index : ℕ) (input : EventInput) (s : EventIngestSummary) (events : List ProjectEvent)
      → Counts (input ∷ []) s events (ingest_event faults actor index input s events)
  ingest_event-Counts index input s events =
      elim (ingest_event_cases faults actor index input s events) [
        | inl (e, k) ↦ rw k (record {
          accepted = rw e refl;
          sum = omega arith;
          total = refl;
          dropped = omega arith;
          stored = rw e refl;
        })
        | inr (e, (_, k)) ↦ rw k (record {
          accepted = rw e (omega arith);
          sum = omega arith;
          total = refl;
          dropped = omega arith;
          stored = rw e (ground arith);
        })
      ]

  onto_first :
      (db b : Bool) (i : EventInput) (rest : List EventInput) (events : List ProjectEvent)
      → (if db then events_onto actor (if b then i ∷ rest else rest) events else events) ≡ (
          if db
          then events_onto actor rest
              (if db then events_onto actor (if b then i ∷ [] else []) events else events)
          else (if db then events_onto actor (if b then i ∷ [] else []) events else events))
  onto_first true true i rest events = refl
  onto_first true false i rest events = refl
  onto_first false b i rest events = refl

  -- The inputs after the first one.
  stored_after-cons :
      (i : EventInput) (inputs : List EventInput) (events : List ProjectEvent)
      → stored_after faults actor (accepted_of faults actor (i ∷ inputs)) events
        ≡ stored_after faults actor
            (accepted_of faults actor inputs)
            (stored_after faults actor (accepted_of faults actor (i ∷ [])) events)
  stored_after-cons i inputs events =
      onto_first faults.events_db_enabled (is_accepted faults actor i) i
        (accepted_of faults actor inputs) events

  length-accepted_of-cons :
      (i : EventInput) (inputs : List EventInput)
      → length (accepted_of faults actor (i ∷ inputs))
        ≡ length (accepted_of faults actor (i ∷ [])) + length (accepted_of faults actor inputs)
  length-accepted_of-cons i inputs = ground arith

  ingest_events-Counts :
      (index : ℕ) (inputs : List EventInput) (s : EventIngestSummary) (events : List ProjectEvent)
      → Counts inputs s events (ingest_events faults actor index inputs s events)
  unfolding ingest_events
  ingest_events-Counts index [] s events = record {
    accepted = omega arith;
    sum = omega arith;
    total = refl;
    dropped = omega arith;
    stored = ground arith;
  }
  ingest_events-Counts index (input ∷ inputs) s events =
      let (next, stored) = ingest_event faults actor index input s events in
      let first = ingest_event-Counts index input s events in
      let rest = ingest_events-Counts (index + 1) inputs next stored in
      record {
        accepted =
            omega (arith, first.accepted, rest.accepted, length-accepted_of-cons input inputs);
        sum = omega (arith, first.sum, rest.sum);
        total = omega (arith, first.total, rest.total);
        dropped = omega (arith, first.dropped, rest.dropped);
        stored =
            rest.stored
            ∙ ap (λ es. stored_after faults actor (accepted_of faults actor inputs) es) first.stored
            ∙ sym (stored_after-cons input inputs events);
      }

-- The summary before the loop, for a batch of at most the limit or more.
fresh_summary_counts :
    (inputs : List EventInput) (s : EventIngestSummary)
    → s.dropped ≡ 0
    → s.accepted ≡ 0
    → s.total ≡ length inputs
    → let r = limit_batch inputs s in
      (r.accepted ≡ 0)
      × (r.total ≡ length inputs)
      × (r.dropped + length (take max_event_ingest_batch inputs) ≡ length inputs)
unfolding limit_batch
fresh_summary_counts inputs s d a t = elim (Bool-cases (ltb 500 (length inputs))) [
  | inl e ↦ rw e (
    a,
    omega (arith, ltb→lt 500 (length inputs) e),
    omega (arith, ltb→lt 500 (length inputs) e, length-take {0} 500 inputs),
  )
  | inr e ↦
      let short : length inputs ≤ 500 = ground arith in
      rw e (a, t, omega (arith, length-take_all {0} 500 inputs short))
]

-- If the bridge is enabled, then of a batch exactly the first 500 inputs that have a project, a kind
-- and a message, and that can be inserted, are accepted, and the others are dropped; if the events
-- database is enabled then the events of the accepted inputs and no others are put in front of those
-- that are stored, in the order of the batch and with every field trimmed, and else nothing is stored.
pub ingest_project_events-counts :
    (faults : EventFaults) (actor cluster_id : Text) (inputs : List EventInput)
    (events : List ProjectEvent)
    → faults.events_bridge_enabled ≡ true
    → let ((summary, stored), failure) =
        ingest_project_events faults actor cluster_id inputs events in
      let accepted = accepted_of faults actor (take 500 inputs) in
      (failure ≡ none)
      × (summary.total ≡ length inputs)
      × (summary.accepted ≡ length accepted)
      × (summary.accepted + summary.dropped ≡ length inputs)
      × (summary.accepted ≤ 500)
      × (stored ≡ (if faults.events_db_enabled then events_onto actor accepted events else events))
unfolding ingest_project_events
ingest_project_events-counts faults actor cluster_id inputs events enabled =
    let start : EventIngestSummary = record {
      cluster_id = trim_space cluster_id;
      total = length inputs;
      accepted = 0;
      dropped = 0;
      status = [];
      errors = [];
    } in
    let (none_yet, total, cut) = fresh_summary_counts inputs start refl refl refl in
    let run =
      ingest_events-Counts faults actor 0 (take 500 inputs) (limit_batch inputs start) events in
    simp enabled (
      refl,
      omega (arith, run.total, total),
      omega (arith, run.accepted, none_yet),
      omega (arith, run.sum, none_yet, cut),
      omega (arith, run.sum, run.dropped, none_yet, length-take-le {0} 500 inputs),
      run.stored,
    )
