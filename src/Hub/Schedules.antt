-- ===== src/Hub/Schedules.antt =====
-- The stop schedules of internal/hub/guardrails_hub.go over internal/hub/store/azure_schedules.go. Time
-- zones, JSON decoding and Unicode's lower case are parameters.
use serversmonitor.Prelude.{
  ℕ, Bool, true, false, ◌&&◌, ◌||◌, not, Option, none, some, List, [], ◌∷◌, ◌++◌, String,
  if◌then◌else◌, text_eq,
}
use serversmonitor.Prelude.Int.{ltb_ℤ}
use serversmonitor.Time.{Time, Duration, time_sub, after, no_time}
use serversmonitor.Guardrails.Windows.{Window, parsed, invalid, parse_windows}
use serversmonitor.Guardrails.Schedule.{Zone, Boundary, last_boundary}
use serversmonitor.Store.AzureActions.{ActionTable}
use serversmonitor.Hub.Actions.{
  AzureResource, Answer, begun, azure_off, no_such_resource, not_actionable, in_flight_already,
  start_action_from,
}

pub record AzureSchedule : Type 0 where
  pub resource_id : String
  pub off_windows : List ℕ
  pub enabled : Bool
  pub timezone : String
  pub last_boundary_at : Option Time
  pub last_applied_at : Option Time
  pub created_at : Time
  pub updated_at : Time

-- UpsertAzureSchedule's change of a row that is there.
abbrev pub edited_row : AzureSchedule → AzureSchedule → Time → AzureSchedule
edited_row new old now = record old {
  off_windows = new.off_windows;
  enabled = new.enabled;
  timezone = new.timezone;
  updated_at = now;
}

-- UpsertAzureSchedule
unfoldable pub upsert_azure_schedule :
    List AzureSchedule → AzureSchedule → Time → List AzureSchedule
upsert_azure_schedule [] new now =
    record new {
      last_boundary_at = none;
      last_applied_at = none;
      created_at = now;
      updated_at = now;
    }
    ∷ []
upsert_azure_schedule (old ∷ rows) new now =
    let rest = upsert_azure_schedule rows new now in
    if text_eq old.resource_id new.resource_id then edited_row new old now ∷ rows else old ∷ rest

abbrev pub marked : AzureSchedule → Time → Time → AzureSchedule
marked sc boundary now = record sc { last_boundary_at = some boundary; last_applied_at = some now }

-- MarkScheduleBoundary
unfoldable pub mark_schedule_boundary :
    List AzureSchedule → String → Time → Time → List AzureSchedule
mark_schedule_boundary [] id boundary now = []
mark_schedule_boundary (sc ∷ rows) id boundary now =
    let rest = mark_schedule_boundary rows id boundary now in
    if text_eq sc.resource_id id then marked sc boundary now ∷ rest else sc ∷ rest

unfoldable pub schedule_by_id : List AzureSchedule → String → Option AzureSchedule
schedule_by_id [] id = none
schedule_by_id (sc ∷ rows) id =
    let rest = schedule_by_id rows id in if text_eq sc.resource_id id then some sc else rest

-- ScheduleLocation; `load` is time.LoadLocation.
unfoldable pub schedule_location : (String → Option Zone) → Zone → String → Zone
schedule_location load hub zone =
    if text_eq zone "" then hub else (elim (load zone) [ none ↦ hub | some z ↦ z ])

-- What runSchedules decides about one schedule: nothing, only to mark the boundary, or to act on it.
pub data Decision : Type 0 where
  leave : Decision
  mark_only : Time → Decision
  act : Time → Bool → Decision

-- `sc.LastBoundary != nil && !b.After(*sc.LastBoundary)`
abbrev pub is_old : Option Time → Time → Bool
is_old none b = false
is_old (some last) b = not (after b last)

unfoldable pub decide_boundary : Boundary → AzureSchedule → Time → Duration → Decision
decide_boundary b sc now max_age =
    if not b.ok || is_old sc.last_boundary_at b.best
    then leave
    else if ltb_ℤ no_time max_age && ltb_ℤ max_age (time_sub now b.best)
    then mark_only b.best
    else act b.best b.off

module _ (decode : List ℕ → Option (List Window)) (load : String → Option Zone) (hub : Zone) where
  -- The boundary of a schedule at an instant, none where its windows say nothing.
  unfoldable pub boundary_of : AzureSchedule → Time → Option Boundary
  boundary_of sc now = elim (parse_windows decode sc.off_windows) [
    | invalid e ↦ none
    | parsed ws ↦ elim ws [
      | [] ↦ none
      | w ∷ rest ↦ some (last_boundary (schedule_location load hub sc.timezone) (w ∷ rest) now)
    ]
  ]

  -- The guards of a round of runSchedules.
  unfoldable pub decide : AzureSchedule → Time → Duration → Decision
  decide sc now max_age =
      if not sc.enabled
      then leave
      else (elim (boundary_of sc now) [ none ↦ leave | some b ↦ decide_boundary b sc now max_age ])

-- What a round did: an action that began, one that is skipped for a manual action in flight, or a
-- failure that is journalled for the normalised id.
pub data Deed : Type 0 where
  began skipped : Deed
  failure : String → Deed

pub record Scheduling : Type 0 where
  pub schedules : List AzureSchedule
  pub actions : ActionTable

abbrev pub action_for : Bool → String
action_for off = if off then "stop" else "start"

module _ (decode : List ℕ → Option (List Window)) (load : String → Option Zone) (hub : Zone)
    (lower normal : String → String) (resources : List AzureResource) where
  abbrev pub after_answer :
      List AzureSchedule → ActionTable → String → Answer → Scheduling × List Deed
  after_answer scs t id (begun n r t') = (record { schedules = scs; actions = t' }, began ∷ [])
  after_answer scs t id in_flight_already = (record { schedules = scs; actions = t }, skipped ∷ [])
  after_answer scs t id azure_off = (record { schedules = scs; actions = t }, failure id ∷ [])
  after_answer scs t id no_such_resource =
      (record { schedules = scs; actions = t }, failure id ∷ [])
  after_answer scs t id not_actionable = (record { schedules = scs; actions = t }, failure id ∷ [])

  -- One round of runSchedules, with Azure configured. A refusal ends in a call of
  -- journalScheduleFailure, the deed `failure`: whether a line is written for it depends on those
  -- there, and is decided in journal_schedule_failure (Hub/GuardrailNotices).
  unfoldable pub run_one : Scheduling → AzureSchedule → Time → Duration → Scheduling × List Deed
  run_one s sc now max_age = elim (decide decode load hub sc now max_age) [
    | leave ↦ (s, [])
    | mark_only b ↦
        (record s { schedules = mark_schedule_boundary s.schedules sc.resource_id b now }, [])
    | act b off ↦
        after_answer (mark_schedule_boundary s.schedules sc.resource_id b now) s.actions
          (normal sc.resource_id)
          (start_action_from lower normal true resources s.actions (normal sc.resource_id)
            (action_for off) "schedule" now)
  ]

  unfoldable pub run_rows :
      Scheduling → List AzureSchedule → Time → Duration → Scheduling × List Deed
  run_rows s [] now max_age = (s, [])
  run_rows s (sc ∷ scs) now max_age =
      let (s', deeds) = run_one s sc now max_age in
      let (s'', rest) = run_rows s' scs now max_age in (s'', deeds ++ rest)

  -- runSchedules
  unfoldable pub run_schedules : Scheduling → Time → Duration → Scheduling × List Deed
  run_schedules s now max_age = run_rows s s.schedules now max_age

  -- applySchedules
  abbrev pub apply_schedules : Scheduling → Time → Scheduling × List Deed
  apply_schedules s now = run_schedules s now no_time
