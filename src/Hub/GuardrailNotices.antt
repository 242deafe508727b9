-- ===== src/Hub/GuardrailNotices.antt =====
-- The guardrail half of internal/hub/notify.go, internal/hub/reminders.go and
-- internal/hub/guardrails_hub.go, over internal/hub/store/guardrails.go. Journal rows stand newest first.
use serversmonitor.Prelude.{
  ℕ, suc, true, false, ◌&&◌, ◌||◌, not, Option, none, some, List, [], ◌∷◌, ◌++◌, String,
  if◌then◌else◌, ltb, text_eq, insert, lookup, String_discrete,
}
use serversmonitor.Time.{Time, dur_le, no_time}
use serversmonitor.Store.Rows.{Kind, fired, resolved, GuardrailKey, GuardrailEvent}
use serversmonitor.Store.Deliveries.{Deliveries, channels_about, is_about_guardrail, is_fired_kind}
use serversmonitor.Guardrails.Transitions.{GuardrailKey-discrete, LastEvents, event_key, is_firing}
use serversmonitor.Guardrails.Windows.{Window}
use serversmonitor.Guardrails.Schedule.{Zone}
use serversmonitor.Notify.Message.{Message}
use serversmonitor.Notify.Route.{route}
use serversmonitor.Notify.Dispatcher.{Job}
use serversmonitor.Hub.Notifying.{
  Config, add_rows, guardrail_spec, guardrail_message, hold_for, is_resolved,
}
use serversmonitor.Hub.Reminders.{due, remind_rows, as_reminder}

pub record GuardrailTable (F : Type 0) : Type 0 where
  pub rows : List (GuardrailEvent F)
  pub next_id : ℕ

abbrev pub schedule_failed : String → GuardrailKey
schedule_failed resource_id = record {
  subject = resource_id;
  rule = "schedule_failed";
  detail = "";
}

module _ {F : Type 0} where
  -- InsertGuardrailEvent
  unfoldable pub insert_guardrail_event :
      GuardrailTable F → GuardrailEvent F → GuardrailTable F × GuardrailEvent F
  insert_guardrail_event t e =
      let stored : GuardrailEvent F = record e { id = t.next_id } in
      (record t { rows = stored ∷ t.rows; next_id = suc t.next_id }, stored)

  -- LastGuardrailEventPerKey
  unfoldable pub last_guardrail_event_per_key : List (GuardrailEvent F) → LastEvents F
  last_guardrail_event_per_key [] = []
  last_guardrail_event_per_key (e ∷ es) =
      insert GuardrailKey-discrete (event_key e) e (last_guardrail_event_per_key es)

  -- The id of the last fired event of a rule instance before an event.
  unfoldable pub last_guardrail_fired : List (GuardrailEvent F) → GuardrailKey → ℕ → Option ℕ
  last_guardrail_fired [] k before_id = none
  last_guardrail_fired (e ∷ es) k before_id =
      let rest = last_guardrail_fired es k before_id in
      if (text_eq e.subject k.subject
        && text_eq e.rule k.rule
        && text_eq e.detail k.detail
        && is_fired_kind e.kind
        && ltb e.id before_id)
      then some e.id
      else rest

  -- GuardrailFiredChannels
  unfoldable pub guardrail_fired_channels :
      List (GuardrailEvent F) → Deliveries → GuardrailKey → ℕ → List String
  guardrail_fired_channels events t k before_id = elim (last_guardrail_fired events k before_id) [
    | none ↦ []
    | some id ↦ channels_about (is_about_guardrail id) t.rows
  ]

  -- The loop of journalGuardrails over the store.
  unfoldable pub journal_guardrails :
      GuardrailTable F → List (GuardrailEvent F) → GuardrailTable F × List (GuardrailEvent F)
  journal_guardrails t [] = (t, [])
  journal_guardrails t (e ∷ es) =
      let (t', stored) = insert_guardrail_event t e in
      let (t'', saved) = journal_guardrails t' es in (t'', stored ∷ saved)

  abbrev pub schedule_line : F → String → Kind → Time → GuardrailEvent F
  schedule_line zero_value resource_id kind now = record {
    id = 0;
    subject = resource_id;
    rule = "schedule_failed";
    detail = "";
    kind = kind;
    value = zero_value;
    at = now;
  }

  -- journalScheduleFailure
  unfoldable pub journal_schedule_failure :
      F → GuardrailTable F → String → Time → GuardrailTable F × List (GuardrailEvent F)
  journal_schedule_failure zero_value t resource_id now =
      if is_firing (last_guardrail_event_per_key t.rows) (schedule_failed resource_id)
      then (t, [])
      else journal_guardrails t (schedule_line zero_value resource_id fired now ∷ [])

  -- journalScheduleResolved
  unfoldable pub journal_schedule_resolved :
      F → GuardrailTable F → String → Time → GuardrailTable F × List (GuardrailEvent F)
  journal_schedule_resolved zero_value t resource_id now =
      if not (is_firing (last_guardrail_event_per_key t.rows) (schedule_failed resource_id))
      then (t, [])
      else journal_guardrails t (schedule_line zero_value resource_id resolved now ∷ [])

-- A name that the inventory has not is empty.
abbrev pub name_of : Option String → String
name_of none = ""
name_of (some n) = n

module _ {F : Type 0} (zero_value : F) (z : Zone) (decode : List ℕ → Option (List Window))
    (cfg : Config) (chans : List String) (names : List (String × String)) (now : Time) where
  abbrev pub named : GuardrailEvent F → Message F
  named e = guardrail_message zero_value cfg e (name_of (lookup String_discrete e.subject names))

  -- One round of notifyGuardrails.
  unfoldable pub notify_guardrail :
      List (GuardrailEvent F) → Deliveries → GuardrailEvent F → Deliveries × List (Job F)
  notify_guardrail events t e =
      add_rows (λ ch. hold_for z decode cfg ch false now) (guardrail_spec e.id false) (named e) now
        (route chans cfg.guardrail_route
          (if is_resolved e.kind then guardrail_fired_channels events t (event_key e) e.id else []))
        t

  -- notifyGuardrails, up to the dispatcher's Enqueue.
  unfoldable pub notify_guardrails :
      List (GuardrailEvent F) → Deliveries → List (GuardrailEvent F) → Deliveries × List (Job F)
  notify_guardrails events t [] = (t, [])
  notify_guardrails events t (e ∷ es) =
      let (t', jobs) = notify_guardrail events t e in
      let (t'', rest) = notify_guardrails events t' es in (t'', jobs ++ rest)

  -- One round of remindGuardrails.
  unfoldable pub remind_guardrail :
      List (GuardrailEvent F)
      → Deliveries
      → GuardrailKey
      → GuardrailEvent F
      → Deliveries × List (Job F)
  remind_guardrail events t k e =
      if not (is_fired_kind e.kind) || not (due t e.id true e.at cfg.guardrail_remind now)
      then (t, [])
      else remind_rows (λ ch. hold_for z decode cfg ch false now) (guardrail_spec e.id true)
          (as_reminder (named e) e.at now) now
          (route chans cfg.guardrail_route (guardrail_fired_channels events t k (suc e.id))) t

  unfoldable pub remind_guardrail_rows :
      List (GuardrailEvent F) → Deliveries → LastEvents F → Deliveries × List (Job F)
  remind_guardrail_rows events t [] = (t, [])
  remind_guardrail_rows events t ((k, e) ∷ rest) =
      let (t', jobs) = remind_guardrail events t k e in
      let (t'', more) = remind_guardrail_rows events t' rest in (t'', jobs ++ more)

  -- remindGuardrails
  unfoldable pub remind_guardrails :
      List (GuardrailEvent F) → Deliveries → Deliveries × List (Job F)
  remind_guardrails events t =
      if dur_le cfg.guardrail_remind no_time
      then (t, [])
      else remind_guardrail_rows events t (last_guardrail_event_per_key events)
