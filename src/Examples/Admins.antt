-- ===== src/Examples/Admins.antt =====
-- Accounts that change, and a stop schedule that is applied.
use serversmonitor.Prelude.{
  ◌+◌, ◌*◌, ◌≤◌, ◌≡◌, refl, subst, true, Option, none, some, [], ◌∷◌, String, String_discrete,
  arith,
}
use serversmonitor.Time.{Time, hour, minute, no_time}
use serversmonitor.Store.Users.{
  admin, viewer, local, entra, User, Accounts, done, add_user, delete_user, has_email, fresh_id,
  user_by_id, other_local_admins, guard_last_local_admin,
}
use serversmonitor.Store.AdminCounts.{local_admins, UniqueIds, KeepsAdmin}
use serversmonitor.Store.LastAdmin.{Edit, adds}
use serversmonitor.Guardrails.Windows.{
  minutes, minutes_of_bytes, is_digit, parse_windows, trim_space, trim_left, check_windows,
  window_error, first_bad_day, sort_ints, insert_int,
}
use serversmonitor.Guardrails.Schedule.{
  Zone, Boundary, raw_intervals, intervals, merge, merge_into, sort_intervals, insert_interval,
  day_intervals, windows_intervals, window_interval, clock, earlier_occurrence, contains,
  last_boundary, boundary_loop, boundary_step,
}
use serversmonitor.Hub.Schedules.{
  AzureSchedule, Scheduling, marked, act, schedule_by_id, boundary_of, decide, decide_boundary,
  run_one, schedule_location,
}
use serversmonitor.Hub.BoundaryOnce.{boundary_once}
use serversmonitor.Examples.Schedules.{month_of_days, late, reads_nights, day_length}

abbrev as_is : String → String
as_is s = s

abbrev ann : User
ann = record {
  id = 1;
  email = "ann";
  password_hash = "x";
  role = admin;
  provider = local;
  created_at = 0;
}

abbrev bob : User
bob = record {
  id = 2;
  email = "bob";
  password_hash = "";
  role = viewer;
  provider = entra;
  created_at = 5;
}

abbrev only_ann : Accounts
only_ann = record {
  users = ann ∷ [];
  sessions = record { token = "t"; user_id = 2; expires_at = 99 } ∷ [];
}

abbrev both : Accounts
both = record only_ann { users = ann ∷ bob ∷ [] }

bob_comes : Edit as_is only_ann both
unfolding add_user has_email fresh_id String_discrete
bob_comes = adds only_ann both "bob" "" viewer entra 5 refl

bob_goes : delete_user both 2 ≡ done (record { users = ann ∷ []; sessions = [] })
unfolding delete_user guard_last_local_admin user_by_id other_local_admins
bob_goes = refl

ann-KeepsAdmin : KeepsAdmin only_ann
unfolding UniqueIds local_admins user_by_id
ann-KeepsAdmin = ((refl, tt), omega arith)

abbrev office : AzureSchedule
office = record {
  resource_id = "site";
  off_windows = 91 ∷ [];
  enabled = true;
  timezone = "";
  last_boundary_at = none;
  last_applied_at = none;
  created_at = 0;
  updated_at = 0;
}

abbrev evening : Time
evening = 9 * day_length + 19 * hour

abbrev scheduling : Scheduling
scheduling = record { schedules = office ∷ []; actions = record { rows = []; next_id = 1 } }

abbrev no_zone : String → Option Zone
no_zone s = none

abbrev IsBelow : Option Boundary → Type 0
IsBelow none = Unit
IsBelow (some x) = x.best ≤ evening

office_later : IsBelow (boundary_of reads_nights no_zone month_of_days office (late + minute))
unfolding boundary_of schedule_location String_discrete parse_windows trim_space trim_left
    check_windows window_error first_bad_day sort_ints insert_int last_boundary boundary_loop
    boundary_step intervals merge merge_into sort_intervals insert_interval raw_intervals
    day_intervals windows_intervals window_interval clock earlier_occurrence contains minutes
    minutes_of_bytes is_digit
office_later = omega arith

office_acts : decide reads_nights no_zone month_of_days office late no_time ≡ act evening true
unfolding decide decide_boundary boundary_of schedule_location String_discrete parse_windows
    trim_space trim_left check_windows window_error first_bad_day sort_ints insert_int last_boundary
    boundary_loop boundary_step intervals merge merge_into sort_intervals insert_interval
    raw_intervals day_intervals windows_intervals window_interval clock earlier_occurrence contains
    minutes minutes_of_bytes is_digit
office_acts = refl

boundary_once_example :
    let s' =
      (run_one reads_nights no_zone month_of_days as_is as_is [] scheduling office late
        no_time).0 in
    (schedule_by_id s'.schedules "site" ≡ some (marked office evening late))
    × (run_one reads_nights no_zone month_of_days as_is as_is [] s'
          (marked office evening late)
          (late + minute)
          no_time
        ≡ (s', []))
unfolding schedule_by_id String_discrete
boundary_once_example =
    boundary_once reads_nights no_zone month_of_days as_is as_is [] scheduling office late
      (late + minute) no_time no_time evening true refl office_acts
      (λ x e. subst IsBelow e office_later)
