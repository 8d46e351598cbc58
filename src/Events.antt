-- ===== src/Events.antt =====
-- Project events of the control plane (internal/service/events.go): appending one, taking a batch
-- from a bridge, and redacting what is shown.
pub mod Accepted
pub mod Batches
pub mod Redaction
pub mod Tests
use kube_op.Prelude.{
  ℕ, suc, ◌+◌, ◌-◌, ◌≡◌, Bool, true, false, not, ◌&&◌, ◌||◌, List, [], ◌∷◌, ◌++◌, map, Option, none,
  some, length, take, leb, ltb, if◌then◌else◌,
}
use kube_op.Text.{Text, text, is_empty, trim_space, to_lower, contains}

-- `map[string]any`: what the program puts into it, and what an ingested JSON object can hold:
-- texts, numbers, nested maps, arrays of any values, and scalars (a boolean, null or another
-- number) as JSON writes them.
mutual
  pub data MetaValue : Type 0 where
    string : Text → MetaValue
    number : ℕ → MetaValue
    strings : List Text → MetaValue
    nested : Meta → MetaValue
    scalar : Text → MetaValue
    array : MetaValues → MetaValue

  pub data MetaValues : Type 0 where
    no_values : MetaValues
    and_value : MetaValue → MetaValues → MetaValues

  pub data Meta : Type 0 where
    empty : Meta
    entry : Text → MetaValue → Meta → Meta

-- `store.ProjectEvent`; its id and its time come from the package uuid and the database.
pub record ProjectEvent : Type 0 where
  pub project_id : Text
  pub app_id : Text
  pub actor_user_id : Text
  pub kind : Text
  pub severity : Text
  pub message : Text
  pub meta : Meta

-- `EventInput` has the same fields.
abbrev pub EventInput : Type 0
EventInput = ProjectEvent

-- `strings.ToUpper`
abbrev pub upper : ℕ → ℕ
upper c = if leb b'a' c && leb c b'z' then c - 32 else c

abbrev pub to_upper : Text → Text
to_upper s = map upper s

abbrev pub or_default : Text → Text → Text
or_default s default = if is_empty s then default else s

-- `shouldRedactKey`
unfoldable pub should_redact_key : Text → Bool
unfolding to_lower contains
should_redact_key key =
    contains (to_lower key) (text "secret")
    || contains (to_lower key) (text "token")
    || contains (to_lower key) (text "password")

-- `redactMeta`
unfoldable mutual
  unfolding should_redact_key

  pub redact_meta : Meta → Meta
  redact_meta empty = empty
  redact_meta (entry key value m) =
      entry key (if should_redact_key key then string (text "[redacted]") else redact_value value)
        (redact_meta m)

  pub redact_value : MetaValue → MetaValue
  redact_value (nested m) = nested (redact_meta m)
  redact_value (string s) = string s
  redact_value (number n) = number n
  redact_value (strings ss) = strings ss
  redact_value (scalar literal) = scalar literal
  redact_value (array items) = array items

-- The configuration and the calls that fail.
pub record EventFaults : Type 0 where
  pub events_db_enabled : Bool
  pub events_bridge_enabled : Bool
  pub insert : ProjectEvent → Bool

pub data EventFailure : Type 0 where
  project_id_required kind_required message_required insert_failed bridge_disabled : EventFailure

-- The event that `AppendProjectEvent` makes of its input; `actor` is that of the context.
unfoldable pub new_event : Text → EventInput → ProjectEvent
unfolding trim_space
new_event actor input = record {
  project_id = trim_space input.project_id;
  app_id = trim_space input.app_id;
  actor_user_id = or_default (trim_space input.actor_user_id) actor;
  kind = trim_space input.kind;
  severity = or_default (to_upper (trim_space input.severity)) (text "INFO");
  message = trim_space input.message;
  meta = input.meta;
}

-- `AppendProjectEvent` on the stored events, newest first. What it returns besides the error is
-- the new event with its meta redacted.
unfoldable pub append_project_event :
    EventFaults → Text → EventInput → List ProjectEvent → List ProjectEvent × Option EventFailure
unfolding new_event
append_project_event faults actor input events =
    let e = new_event actor input in
    if is_empty e.project_id
    then (events, some project_id_required)
    else if is_empty e.kind
    then (events, some kind_required)
    else if is_empty e.message
    then (events, some message_required)
    else if not faults.events_db_enabled
    then (events, none)
    else if faults.insert e
    then (events, some insert_failed)
    else (e ∷ events, none)

-- `EventIngestError`; the index -1 of the whole batch is `none`.
pub data IngestReason : Type 0 where
  exceeds_limit : ℕ → IngestReason
  missing_fields : IngestReason
  append_failed : EventFailure → IngestReason

pub record EventIngestError : Type 0 where
  pub index : Option ℕ
  pub reason : IngestReason

-- `EventIngestSummary`
pub record EventIngestSummary : Type 0 where
  pub cluster_id : Text
  pub total : ℕ
  pub accepted : ℕ
  pub dropped : ℕ
  pub status : Text
  pub errors : List EventIngestError

abbrev pub max_event_ingest_batch : ℕ
max_event_ingest_batch = 500

abbrev pub drop_one : ℕ → IngestReason → EventIngestSummary → EventIngestSummary
drop_one index reason summary = record summary {
  dropped = summary.dropped + 1;
  errors = summary.errors ++ (record { index = some index; reason = reason } ∷ []);
}

-- The fields of an event, trimmed.
unfoldable pub trim_event : EventInput → EventInput
unfolding trim_space
trim_event e = record e {
  project_id = trim_space e.project_id;
  app_id = trim_space e.app_id;
  actor_user_id = trim_space e.actor_user_id;
  kind = trim_space e.kind;
  severity = trim_space e.severity;
  message = trim_space e.message;
}

abbrev pub after_append :
    ℕ
    → EventIngestSummary
    → List ProjectEvent × Option EventFailure
    → EventIngestSummary × List ProjectEvent
after_append index summary (events, none) =
    (record summary { accepted = summary.accepted + 1 }, events)
after_append index summary (events, some f) = (drop_one index (append_failed f) summary, events)

-- One event of a batch.
unfoldable pub ingest_event :
    EventFaults
    → Text
    → ℕ
    → EventInput
    → EventIngestSummary
    → List ProjectEvent
    → EventIngestSummary × List ProjectEvent
unfolding trim_event append_project_event
ingest_event faults actor index input summary events =
    let e = trim_event input in
    if is_empty e.project_id || is_empty e.kind || is_empty e.message
    then (drop_one index missing_fields summary, events)
    else after_append index summary (append_project_event faults actor e events)

-- The loop.
unfoldable pub ingest_events :
    EventFaults
    → Text
    → ℕ
    → List EventInput
    → EventIngestSummary
    → List ProjectEvent
    → EventIngestSummary × List ProjectEvent
unfolding ingest_event
ingest_events faults actor index [] summary events = (summary, events)
ingest_events faults actor index (input ∷ inputs) summary events =
    let (next, stored) = ingest_event faults actor index input summary events in
    ingest_events faults actor (index + 1) inputs next stored

-- The cut of a batch that exceeds the limit.
unfoldable pub limit_batch : List EventInput → EventIngestSummary → EventIngestSummary
limit_batch inputs summary =
    let excess = length inputs - max_event_ingest_batch in
    if ltb max_event_ingest_batch (length inputs)
    then record summary {
      dropped = summary.dropped + excess;
      total = max_event_ingest_batch + (summary.dropped + excess);
      errors = summary.errors ++ (record { index = none; reason = exceeds_limit excess } ∷ []);
    }
    else summary

-- `IngestProjectEvents`
unfoldable pub ingest_project_events :
    EventFaults
    → Text
    → Text
    → List EventInput
    → List ProjectEvent
    → (EventIngestSummary × List ProjectEvent) × Option EventFailure
unfolding trim_space limit_batch ingest_events
ingest_project_events faults actor cluster_id inputs events =
    let summary : EventIngestSummary = record {
      cluster_id = trim_space cluster_id;
      total = length inputs;
      accepted = 0;
      dropped = 0;
      status = [];
      errors = [];
    } in
    if not faults.events_bridge_enabled
    then (
      (record summary { status = text "ignored"; dropped = length inputs }, events),
      some bridge_disabled,
    )
    else (
      ingest_events faults actor 0 (take max_event_ingest_batch inputs) (limit_batch inputs summary)
          events,
      none,
    )
