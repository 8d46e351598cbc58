-- ===== src/Events/Accepted.antt =====
-- Which inputs of a batch become events, and which events.
use kube_op.Prelude.{
  ℕ, ◌+◌, ◌≡◌, refl, ap, Bool, true, false, not, ◌&&◌, ◌||◌, ◌⊎◌, inl, inr, List, [], ◌∷◌, Option,
  none, some, if◌then◌else◌,
}
use kube_op.Text.{Text, text, is_empty, trim_space}
use kube_op.Text.Trim.{trim_space_idem}
use kube_op.Events.{
  ProjectEvent, EventInput, EventFaults, EventFailure, project_id_required, kind_required,
  message_required, insert_failed, missing_fields, EventIngestError, EventIngestSummary, to_upper,
  drop_one, new_event, append_project_event, trim_event, after_append, ingest_event,
}

-- The event that is stored for an input: every field trimmed, the caller where no actor is named,
-- the severity in upper case and INFO where it is missing, and the meta as it came.
abbrev pub event_of : Text → EventInput → ProjectEvent
event_of actor i = record {
  project_id = trim_space i.project_id;
  app_id = trim_space i.app_id;
  actor_user_id =
      if is_empty (trim_space i.actor_user_id) then actor else trim_space i.actor_user_id;
  kind = trim_space i.kind;
  severity =
      if is_empty (trim_space i.severity) then text "INFO" else to_upper (trim_space i.severity);
  message = trim_space i.message;
  meta = i.meta;
}

-- Project, kind and message are not blank, and the event can be inserted where it has to be.
abbrev pub is_accepted : EventFaults → Text → EventInput → Bool
is_accepted faults actor i =
    not (is_empty (trim_space i.project_id))
    && not (is_empty (trim_space i.kind))
    && not (is_empty (trim_space i.message))
    && not (faults.events_db_enabled && faults.insert (event_of actor i))

abbrev pub accepted_of : EventFaults → Text → List EventInput → List EventInput
accepted_of faults actor [] = []
accepted_of faults actor (i ∷ inputs) =
    let rest = accepted_of faults actor inputs in
    if is_accepted faults actor i then i ∷ rest else rest

-- The events of the inputs, each in front of those before it.
abbrev pub events_onto : Text → List EventInput → List ProjectEvent → List ProjectEvent
events_onto actor [] events = events
events_onto actor (i ∷ inputs) events = events_onto actor inputs (event_of actor i ∷ events)

abbrev pub stored_after :
    EventFaults → Text → List EventInput → List ProjectEvent → List ProjectEvent
stored_after faults actor accepted events =
    if faults.events_db_enabled then events_onto actor accepted events else events

upper_empty : (s : Text) → is_empty (to_upper s) ≡ is_empty s
upper_empty [] = refl
upper_empty (c ∷ s) = refl

chosen_severity :
    (s d : Text)
    → (if is_empty (to_upper s) then d else to_upper s) ≡ (if is_empty s then d else to_upper s)
chosen_severity s d = rw (upper_empty s) refl

new_event-trim_event :
    (actor : Text) (i : EventInput) → new_event actor (trim_event i) ≡ event_of actor i
unfolding new_event trim_event
new_event-trim_event actor i =
    rw
      (
        trim_space_idem i.project_id,
        trim_space_idem i.app_id,
        trim_space_idem i.actor_user_id,
        trim_space_idem i.kind,
        trim_space_idem i.severity,
        trim_space_idem i.message,
        chosen_severity (trim_space i.severity) (text "INFO"),
      )
      refl

module _ (faults : EventFaults) (actor : Text) where
  -- An event that is checked, and then inserted where the database is enabled.
  abbrev store_event : ProjectEvent → List ProjectEvent → List ProjectEvent × Option EventFailure
  store_event e events =
      if is_empty e.project_id
      then (events, some project_id_required)
      else if is_empty e.kind
      then (events, some kind_required)
      else if is_empty e.message
      then (events, some message_required)
      else if not faults.events_db_enabled
      then (events, none)
      else if faults.insert e
      then (events, some insert_failed)
      else (e ∷ events, none)

  -- What one event becomes, by the tests on it.
  abbrev by_tests :
      Bool
      → Bool
      → Bool
      → Bool
      → Bool
      → ProjectEvent
      → ℕ
      → EventIngestSummary
      → List ProjectEvent
      → EventIngestSummary × List ProjectEvent
  by_tests no_project no_kind no_message db fails e index s events =
      if no_project || no_kind || no_message
      then (drop_one index missing_fields s, events)
      else after_append index s (
          if no_project
          then (events, some project_id_required)
          else if no_kind
          then (events, some kind_required)
          else if no_message
          then (events, some message_required)
          else if not db
          then (events, none)
          else if fails
          then (events, some insert_failed)
          else (e ∷ events, none))

  abbrev pub IsOneOf :
      Bool
      → ProjectEvent
      → EventIngestSummary
      → List ProjectEvent
      → Bool
      → EventIngestSummary × List ProjectEvent
      → Type 0
  IsOneOf accepted e s events db r =
      ((accepted ≡ true)
        × (r ≡ (record s { accepted = s.accepted + 1 }, if db then e ∷ events else events)))
      ⊎ ((accepted ≡ false)
          × ((es : List EventIngestError) × (r
                ≡ (record s { dropped = s.dropped + 1; errors = es }, events))))

  by_tests_cases :
      (no_project no_kind no_message db fails : Bool) (e : ProjectEvent) (index : ℕ)
      (s : EventIngestSummary) (events : List ProjectEvent)
      → IsOneOf
          (not no_project && not no_kind && not no_message && not (db && fails))
          e
          s
          events
          db
          (by_tests no_project no_kind no_message db fails e index s events)
  by_tests_cases true k m db fails e index s events = inr (refl, (_, refl))
  by_tests_cases false true m db fails e index s events = inr (refl, (_, refl))
  by_tests_cases false false true db fails e index s events = inr (refl, (_, refl))
  by_tests_cases false false false false fails e index s events = inl (refl, refl)
  by_tests_cases false false false true true e index s events = inr (refl, (_, refl))
  by_tests_cases false false false true false e index s events = inl (refl, refl)

  ingest_event_lem :
      (index : ℕ) (i : EventInput) (s : EventIngestSummary) (events : List ProjectEvent)
      → ingest_event faults actor index i s events
        ≡ by_tests
            (is_empty (trim_space i.project_id))
            (is_empty (trim_space i.kind))
            (is_empty (trim_space i.message))
            faults.events_db_enabled
            (faults.insert (event_of actor i))
            (event_of actor i)
            index
            s
            events
  unfolding ingest_event trim_event append_project_event
  ingest_event_lem index i s events =
      ap
        (λ e.
          if is_empty (trim_space i.project_id)
            || is_empty (trim_space i.kind)
            || is_empty (trim_space i.message)
          then (drop_one index missing_fields s, events)
          else after_append index s (store_event e events))
        (new_event-trim_event actor i)

  pub ingest_event_cases :
      (index : ℕ) (i : EventInput) (s : EventIngestSummary) (events : List ProjectEvent)
      → IsOneOf
          (is_accepted faults actor i)
          (event_of actor i)
          s
          events
          faults.events_db_enabled
          (ingest_event faults actor index i s events)
  ingest_event_cases index i s events = rw (ingest_event_lem index i s events) (
      by_tests_cases (is_empty (trim_space i.project_id)) (is_empty (trim_space i.kind))
        (is_empty (trim_space i.message)) faults.events_db_enabled
        (faults.insert (event_of actor i)) (event_of actor i) index s events)
