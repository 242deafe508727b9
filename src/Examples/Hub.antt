-- ===== src/Examples/Hub.antt =====
-- A hub that restarts, tells of a recovery and repeats an alert.
use mathlib.Core.Bool.{false≢true}
use serversmonitor.Notify.Dispatcher.{Job}
use serversmonitor.Prelude.{
  ap, ℕ, ◌*◌, ◌+◌, ◌≡◌, refl, Bool, true, false, Option, none, List, [], ◌∷◌, String_discrete,
}
use serversmonitor.Prelude.Int.{pos}
use serversmonitor.Time.{minute}
use serversmonitor.Store.Rows.{AlertEvent}
use serversmonitor.Store.Deliveries.{
  pending, held, Deliveries, Delivery, sent, of_alert, last_fired, latest_reminder,
}
use serversmonitor.Alerts.Machine.{state_of}
use serversmonitor.Alerts.Traces.{is_firing}
use serversmonitor.Guardrails.Windows.{Window}
use serversmonitor.Guardrails.Schedule.{Zone}
use serversmonitor.Notify.Route.{has_name, route}
use serversmonitor.Hub.Alerting.{Alerting, restored_machine, tick}
use serversmonitor.Hub.Restart.{Reach, started, here, next, ticks, restart_keeps_firing}
use serversmonitor.Hub.Notifying.{
  Config, notify, host_by_id, rule_by_id, hold_for, quiet_now, alert_route,
}
use serversmonitor.Hub.Heard.{has_delivery, notify_tells_heard}
use serversmonitor.Hub.Reminders.{remind_one, remind_rows, remind_every, due}
use serversmonitor.Hub.Cadence.{remind_one_waits}
use serversmonitor.Examples.Data.{
  cents, web, db, cpu_rule, web_cpu_rule, fleet, as_listed, web_cpu, one_event, cpu_fired,
  cpu_resolved,
}

abbrev accepts : AlertEvent ℕ → Bool
accepts e = true

abbrev begun : Alerting ℕ
begun = started cents as_listed one_event

abbrev ticked : Alerting ℕ
ticked = (tick cents as_listed accepts begun fleet).0

restarted : Reach cents as_listed begun ticked
restarted = next here (ticks accepts (λ e. refl) begun fleet)

restart_keeps_firing_example :
    is_firing (state_of (restored_machine ticked.table) web_cpu)
    ≡ is_firing (state_of ticked.machine web_cpu)
restart_keeps_firing_example = restart_keeps_firing cents as_listed one_event web_cpu restarted

-- Every day is the first of one month.
abbrev utc : Zone
utc = record {
  date = λ y m d h n. h * (60 * minute) + n * minute;
  year = λ t. 2026;
  month = λ t. 1;
  day = λ t. 1;
  hour_of = λ t. 0;
  minute_of = λ t. 0;
  weekday = λ t. 4;
  offset = λ t. pos 0;
}

abbrev reads_nothing : List ℕ → Option (List Window)
reads_nothing s = none

abbrev everywhere : Config
everywhere = record {
  public = "";
  offline_route = none;
  guardrail_route = none;
  offline_remind = pos 0;
  guardrail_remind = pos 0;
  quiet = λ ch. [];
}

abbrev told_by_teams : Delivery
told_by_teams = record {
  id = 1;
  about = of_alert 3;
  channel = "teams";
  state = sent;
  is_repeat = false;
  attempts = 1;
  last_error = "";
  created_at = 90 * minute;
  updated_at = 90 * minute;
}

abbrev told_once : Deliveries
told_once = record { rows = told_by_teams ∷ []; next_id = 2 }

notify_tells_heard_example :
    has_delivery 5 "teams"
      (notify 0 utc reads_nothing everywhere
        ("smtp" ∷ "teams" ∷ [])
        (web ∷ db ∷ [])
        (cpu_rule ∷ web_cpu_rule ∷ [])
        (101 * minute)
        (cpu_resolved ∷ cpu_fired ∷ [])
        told_once
        (cpu_resolved ∷ [])).0.rows
    ≡ true
unfolding host_by_id last_fired has_delivery has_name String_discrete
notify_tells_heard_example =
    notify_tells_heard 0 utc reads_nothing everywhere ("smtp" ∷ "teams" ∷ []) (web ∷ db ∷ [])
      (cpu_rule ∷ web_cpu_rule ∷ []) (101 * minute) (cpu_resolved ∷ cpu_fired ∷ []) told_once
      cpu_resolved [] web 3 "teams" refl refl refl refl refl

abbrev is_nil : List (Job ℕ) → Bool
is_nil [] = true
is_nil _ = false

remind_one_waits_example :
    let after =
      (remind_one 0 utc reads_nothing everywhere
        ("smtp" ∷ "teams" ∷ [])
        (web ∷ [])
        (web_cpu_rule ∷ [])
        (150 * minute)
        (cpu_fired ∷ [])
        told_once
        cpu_fired).0 in
    remind_one 0 utc reads_nothing everywhere
      ("smtp" ∷ "teams" ∷ [])
      (web ∷ [])
      (web_cpu_rule ∷ [])
      (151 * minute)
      (cpu_fired ∷ [])
      after
      cpu_fired
    ≡ (after, [])
unfolding remind_one remind_every rule_by_id host_by_id due latest_reminder remind_rows route
    has_name hold_for quiet_now String_discrete alert_route
remind_one_waits_example =
    remind_one_waits 0 utc reads_nothing everywhere ("smtp" ∷ "teams" ∷ []) (web ∷ [])
      (web_cpu_rule ∷ []) (150 * minute) (151 * minute) (cpu_fired ∷ []) told_once cpu_fired
      (pos (60 * minute)) refl (λ e. false≢true (ap is_nil e)) refl

abbrev backlog : Deliveries
backlog = record {
  rows =
      told_by_teams
      ∷ record told_by_teams { id = 2; state = held }
      ∷ record told_by_teams { id = 3; state = pending }
      ∷ [];
  next_id = 4;
}
