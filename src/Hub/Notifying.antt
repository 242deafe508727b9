-- ===== src/Hub/Notifying.antt =====
-- internal/hub/notify.go and the quiet hours of internal/hub/reminders.go: one delivery row for every
-- channel that an event is routed to, then the jobs of the dispatcher. A channel stands by its name, and
-- the statements of the store succeed.
use Prim.Native.String.{◌++◌ as str_append}
use serversmonitor.Prelude.{
  ℕ, Bool, true, false, ◌&&◌, not, Option, none, some, List, [], ◌∷◌, ◌++◌, String, if◌then◌else◌,
  ◌==◌, text_eq,
}
use serversmonitor.Prelude.Int.{pos}
use serversmonitor.Text.{itoa, trim_slash, last_segment}
use serversmonitor.Time.{Time, Duration, no_time}
use serversmonitor.Store.Rows.{Host, Rule, Kind, resolved, AlertEvent, GuardrailEvent}
use serversmonitor.Store.Deliveries.{Deliveries, DeliverySpec, add_delivery, fired_channels}
use serversmonitor.Alerts.Evaluate.{status_rule_id}
use serversmonitor.Guardrails.Windows.{Window, parsed, invalid, parse_windows}
use serversmonitor.Guardrails.Schedule.{Zone, is_off}
use serversmonitor.Notify.Message.{Message}
use serversmonitor.Notify.Route.{route}
use serversmonitor.Notify.Dispatcher.{Job}

-- The part of notify.Config that the hub reads itself; quiet hours are bytes, and none is empty.
pub record Config : Type 0 where
  pub public : String
  pub offline_route : Option (List String)
  pub guardrail_route : Option (List String)
  pub offline_remind : Duration
  pub guardrail_remind : Duration
  pub quiet : String → List ℕ

-- Link
unfoldable pub link : Config → ℕ → String
link c host_id =
    if text_eq c.public ""
    then ""
    else str_append (trim_slash c.public) (str_append "/hosts/" (itoa (pos host_id)))

-- Root
unfoldable pub root : Config → String
root c = if text_eq c.public "" then "" else trim_slash c.public

-- AzureLink
unfoldable pub azure_link : Config → String
unfolding root
azure_link c = if text_eq c.public "" then "" else str_append (root c) "/azure"

-- quietNow; the zone is that of the guardrail settings, and `decode` reads the JSON list.
unfoldable pub quiet_now : Zone → (List ℕ → Option (List Window)) → Config → String → Time → Bool
quiet_now z decode cfg channel now = elim (cfg.quiet channel) [
  | [] ↦ false
  | b ∷ bs ↦ elim (parse_windows decode (b ∷ bs)) [
    | invalid e ↦ false
    | parsed ws ↦ elim ws [ [] ↦ false | w ∷ rest ↦ is_off z (w ∷ rest) now ]
  ]
]

-- holdFor
unfoldable pub hold_for :
    Zone → (List ℕ → Option (List Window)) → Config → String → Bool → Time → Bool
hold_for z decode cfg channel offline now = not offline && quiet_now z decode cfg channel now

unfoldable pub host_by_id : List Host → ℕ → Option Host
host_by_id [] id = none
host_by_id (h ∷ hs) id = if h.id == id then some h else host_by_id hs id

abbrev pub is_resolved : Kind → Bool
is_resolved resolved = true
is_resolved _ = false

abbrev pub alert_spec : ℕ → Bool → String → Bool → DeliverySpec
alert_spec event_id repeats ch held = record {
  event_id = event_id;
  guardrail_event_id = 0;
  to_channel = ch;
  repeats = repeats;
  waits = held;
}

abbrev pub guardrail_spec : ℕ → Bool → String → Bool → DeliverySpec
guardrail_spec event_id repeats ch held = record {
  event_id = 0;
  guardrail_event_id = event_id;
  to_channel = ch;
  repeats = repeats;
  waits = held;
}

module _ {F : Type 0} where
  -- What the loops over the channels of one event need: the row of a channel, and its job.
  unfoldable pub add_rows :
      (String → Bool)
      → (String → Bool → DeliverySpec)
      → Message F
      → Time
      → List String
      → Deliveries
      → Deliveries × List (Job F)
  add_rows holds spec m now [] t = (t, [])
  add_rows holds spec m now (ch ∷ chans) t =
      let held = holds ch in
      let (t', d) = add_delivery t (spec ch held) now in
      let (t'', jobs) = add_rows holds spec m now chans t' in
      let job : Job F = record { delivery_id = d.id; channel = ch; message = m } in
      (t'', if held then jobs else job ∷ jobs)

  unfoldable pub rule_by_id : List (Rule F) → ℕ → Option (Rule F)
  rule_by_id [] id = none
  rule_by_id (r ∷ rs) id = if r.id == id then some r else rule_by_id rs id

  -- alertRoute
  unfoldable pub alert_route : Config → AlertEvent F → List (Rule F) → Option (List String)
  alert_route cfg e rules =
      if e.rule_id == status_rule_id
      then cfg.offline_route
      else (elim (rule_by_id rules e.rule_id) [ some r ↦ r.channels | none ↦ none ])

  -- message, over the zero float
  unfoldable pub message : F → Config → AlertEvent F → Host → List (Rule F) → Message F
  message zero_value cfg e host rules =
      let m : Message F = record {
        host_id = host.id;
        host_name = host.name;
        metric = e.metric;
        kind = e.kind;
        value = e.value;
        threshold = zero_value;
        duration = no_time;
        at = e.at;
        link = link cfg host.id;
        guardrail = false;
        since = 0;
      } in
      if e.rule_id == status_rule_id then m else (elim (rule_by_id rules e.rule_id) [
        | some r ↦ record m { threshold = r.threshold; duration = r.duration }
        | none ↦ m
      ])

  -- guardrailMessage
  unfoldable pub guardrail_message : F → Config → GuardrailEvent F → String → Message F
  guardrail_message zero_value cfg e name = record {
    host_id = 0;
    host_name =
        (if text_eq e.subject "budget"
          then "Budget"
          else if text_eq name ""
          then last_segment e.subject
          else name);
    metric =
        (if text_eq e.detail ""
          then e.rule
          else str_append e.rule (str_append " " (str_append e.detail "%")));
    kind = e.kind;
    value = e.value;
    threshold = zero_value;
    duration = no_time;
    at = e.at;
    link = azure_link cfg;
    guardrail = true;
    since = 0;
  }

module _ {F : Type 0} (zero_value : F) (z : Zone) (decode : List ℕ → Option (List Window))
    (cfg : Config) (chans : List String) (hosts : List Host) (rules : List (Rule F))
    (now : Time) where
  -- The names that the fired event of a resolved one went to.
  unfoldable pub also_of : List (AlertEvent F) → Deliveries → AlertEvent F → List String
  also_of events t e =
      if is_resolved e.kind then fired_channels events t e.rule_id e.host_id e.id else []

  -- One round of notify.
  unfoldable pub notify_one :
      List (AlertEvent F) → Deliveries → AlertEvent F → Deliveries × List (Job F)
  notify_one events t e = elim (host_by_id hosts e.host_id) [
    | none ↦ (t, [])
    | some host ↦
        add_rows (λ ch. hold_for z decode cfg ch (e.rule_id == status_rule_id) now)
          (alert_spec e.id false) (message zero_value cfg e host rules) now
          (route chans (alert_route cfg e rules) (also_of events t e)) t
  ]

  -- notify, up to the dispatcher's Enqueue of the jobs; `events` is the stored journal.
  unfoldable pub notify :
      List (AlertEvent F) → Deliveries → List (AlertEvent F) → Deliveries × List (Job F)
  notify events t [] = (t, [])
  notify events t (e ∷ es) =
      let (t', jobs) = notify_one events t e in
      let (t'', rest) = notify events t' es in (t'', jobs ++ rest)
