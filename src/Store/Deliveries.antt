-- ===== src/Store/Deliveries.antt =====
-- internal/hub/store/deliveries.go: the deliveries table. Rows are kept in the order of their ids, so
-- `ORDER BY id` is the order of the list. An update of no row answers none, for ErrNotFound.
use serversmonitor.Prelude.{
  ℕ, suc, Bool, true, false, ◌&&◌, Option, none, some, List, [], ◌∷◌, ◌++◌, String, if◌then◌else◌,
  ltb, ◌==◌, keep_if, not,
}
use serversmonitor.Time.{Time, before}
use serversmonitor.Store.Rows.{Kind, fired, AlertEvent}
use serversmonitor.Prelude.{text_eq}

pub data DeliveryState : Type 0 where
  pending sent failed held : DeliveryState

-- The event a delivery is about: an alert's or a guardrail's, never both.
pub data Subject : Type 0 where
  of_alert of_guardrail : ℕ → Subject

pub record Delivery : Type 0 where
  pub id : ℕ
  pub about : Subject
  pub channel : String
  pub state : DeliveryState
  pub is_repeat : Bool
  pub attempts : ℕ
  pub last_error : String
  pub created_at : Time
  pub updated_at : Time

pub record DeliverySpec : Type 0 where
  pub event_id : ℕ
  pub guardrail_event_id : ℕ
  pub to_channel : String
  pub repeats : Bool
  pub waits : Bool

pub record Deliveries : Type 0 where
  pub rows : List Delivery
  pub next_id : ℕ

abbrev pub is_pending : DeliveryState → Bool
is_pending pending = true
is_pending _ = false

abbrev pub is_held : DeliveryState → Bool
is_held held = true
is_held _ = false

abbrev pub is_settled : DeliveryState → Bool
is_settled sent = true
is_settled failed = true
is_settled _ = false

abbrev pub subject_of : DeliverySpec → Subject
subject_of sp =
    if not (sp.guardrail_event_id == 0)
    then of_guardrail sp.guardrail_event_id
    else of_alert sp.event_id

-- AddDelivery
unfoldable pub add_delivery : Deliveries → DeliverySpec → Time → Deliveries × Delivery
add_delivery t sp now =
    let d : Delivery = record {
      id = t.next_id;
      about = subject_of sp;
      channel = sp.to_channel;
      state = (if sp.waits then held else pending);
      is_repeat = sp.repeats;
      attempts = 0;
      last_error = "";
      created_at = now;
      updated_at = now;
    } in
    (record t { rows = t.rows ++ d ∷ []; next_id = suc t.next_id }, d)

-- HeldDeliveries
abbrev pub held_deliveries : Deliveries → List Delivery
held_deliveries t = keep_if (λ d. is_held d.state) t.rows

-- PendingDeliveries
abbrev pub pending_deliveries : Deliveries → List Delivery
pending_deliveries t = keep_if (λ d. is_pending d.state) t.rows

-- execOne: the update of the row that is asked for, none when there is no such row.
unfoldable pub update_row :
    (Delivery → Bool) → (Delivery → Delivery) → List Delivery → Option (List Delivery)
update_row wanted change [] = none
update_row wanted change (d ∷ ds) =
    let rest = update_row wanted change ds in
    if wanted d
    then some (change d ∷ ds)
    else (elim rest [ none ↦ none | some ds' ↦ some (d ∷ ds') ])

abbrev pub with_rows : Deliveries → Option (List Delivery) → Option Deliveries
with_rows t none = none
with_rows t (some ds) = some (record t { rows = ds })

-- ReleaseDelivery
unfoldable pub release_delivery : Deliveries → ℕ → Time → Option Deliveries
release_delivery t id now = with_rows t (
    update_row (λ d. (d.id == id) && is_held d.state)
      (λ d. record d { state = pending; updated_at = now }) t.rows)

-- MarkDeliverySent
unfoldable pub mark_delivery_sent : Deliveries → ℕ → Time → ℕ → Option Deliveries
mark_delivery_sent t id now attempts = with_rows t (
    update_row (λ d. d.id == id)
      (λ d. record d { state = sent; attempts = attempts; last_error = ""; updated_at = now })
      t.rows)

-- MarkDeliveryFailed
unfoldable pub mark_delivery_failed : Deliveries → ℕ → Time → ℕ → String → Option Deliveries
mark_delivery_failed t id now attempts reason = with_rows t (
    update_row (λ d. d.id == id)
      (λ d. record d { state = failed; attempts = attempts; last_error = reason; updated_at = now })
      t.rows)

-- PurgeDeliveries; `cutoff` is `now.Add(-keep)`.
unfoldable pub purge_deliveries : Deliveries → Time → Deliveries
purge_deliveries t cutoff = record t {
  rows = keep_if (λ d. not (is_settled d.state && before d.updated_at cutoff)) t.rows;
}

-- The names with no repetition, as SELECT DISTINCT gives them.
unfoldable pub channels_about : (Subject → Bool) → List Delivery → List String
channels_about is_about [] = []
channels_about is_about (d ∷ ds) =
    let rest = channels_about is_about ds in
    if is_about d.about then d.channel ∷ keep_if (λ c. not (text_eq c d.channel)) rest else rest

abbrev pub is_about_alert : ℕ → Subject → Bool
is_about_alert id (of_alert n) = n == id
is_about_alert id (of_guardrail n) = false

abbrev pub is_about_guardrail : ℕ → Subject → Bool
is_about_guardrail id (of_alert n) = false
is_about_guardrail id (of_guardrail n) = n == id

abbrev pub is_fired_kind : Kind → Bool
is_fired_kind fired = true
is_fired_kind _ = false

module _ {F : Type 0} where
  -- The id of the last fired event of (rule, host) before an event; the rows stand newest first.
  unfoldable pub last_fired : List (AlertEvent F) → ℕ → ℕ → ℕ → Option ℕ
  last_fired [] rule_id host_id before_id = none
  last_fired (e ∷ es) rule_id host_id before_id =
      let rest = last_fired es rule_id host_id before_id in
      if ((e.rule_id == rule_id)
        && (e.host_id == host_id)
        && is_fired_kind e.kind
        && ltb e.id before_id)
      then some e.id
      else rest

  -- FiredChannels
  unfoldable pub fired_channels : List (AlertEvent F) → Deliveries → ℕ → ℕ → ℕ → List String
  fired_channels events t rule_id host_id before_id =
      elim (last_fired events rule_id host_id before_id) [
        | none ↦ []
        | some id ↦ channels_about (is_about_alert id) t.rows
      ]

-- `max(created_at)` over the reminders of an event
unfoldable pub latest_reminder : (Subject → Bool) → List Delivery → Option Time
latest_reminder is_about [] = none
latest_reminder is_about (d ∷ ds) =
    let rest = latest_reminder is_about ds in
    if (is_about d.about && d.is_repeat)
    then (elim rest [
      | none ↦ some d.created_at
      | some at ↦ some (if ltb d.created_at at then at else d.created_at)
    ])
    else rest

-- LastReminder
abbrev pub last_reminder : Deliveries → ℕ → Bool → Option Time
last_reminder t event_id guardrail =
    latest_reminder (if guardrail then is_about_guardrail event_id else is_about_alert event_id)
      t.rows
