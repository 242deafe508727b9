-- ===== src/Alerts/Evaluate.antt =====
-- internal/hub/alerts/evaluate.go: the rules against the latest samples. `visit` is the order in which
-- Go's range goes over the map that `applicable` builds, which the language leaves open.
use serversmonitor.Prelude.{
  ℕ, ◌+◌, ◌*◌, ◌++◌, Bool, true, false, not, ◌&&◌, Option, none, some, List, [], ◌∷◌, String, map,
  lookup, insert, ite, ℕ_discrete, String_discrete, if◌then◌else◌, ◌==◌,
}
use serversmonitor.Prelude.Int.{ℤ, pos, negsuc, ltb_ℤ}
use serversmonitor.Time.{Time, Duration, time_sub, no_time}
use serversmonitor.Float.{Float}
use serversmonitor.Store.Rows.{
  Host, HostStatus, never_seen, offline, Disk, Temp, SampleRow, Rule, Kind, fired, resolved,
  AlertEvent,
}
use serversmonitor.Alerts.Machine.{Machine, Transition, nothing, observe}

-- StatusRuleID
abbrev pub status_rule_id : ℕ
status_rule_id = 0

pub record Input (F : Type 0) : Type 0 where
  pub now : Time
  pub interval : Duration
  pub hosts : List Host
  pub latest : List (ℕ × SampleRow F)
  pub rules : List (Rule F)

abbrev pub is_zero : ℤ → Bool
is_zero (pos n) = n == 0
is_zero (negsuc n) = false

-- `2 * d` on durations
abbrev pub twice : Duration → Duration
twice (pos n) = pos (2 * n)
twice (negsuc n) = negsuc (2 * n + 1)

abbrev pub is_never_seen : HostStatus → Bool
is_never_seen never_seen = true
is_never_seen _ = false

abbrev pub is_offline : HostStatus → Bool
is_offline offline = true
is_offline _ = false

module _ (fl : Float) where
  open fl use {F, of_int, add, mul, div, gt}

  -- 100 * used / total
  abbrev pub percent : ℤ → ℤ → F
  percent used total = div (mul (of_int (pos 100)) (of_int used)) (of_int total)

  memory_value : Option ℤ → Option ℤ → Option F
  memory_value (some used) (some total) = if is_zero total then none else some (percent used total)
  memory_value (some used) none = none
  memory_value none total = none

  -- `!ok || v > worst`, with `none` for the pair (0, false)
  abbrev pub worse : F → Option F → Option F
  worse v none = some v
  worse v (some worst) = if gt v worst then some v else some worst

  unfoldable pub worst_disk : Option F → List (Disk F) → Option F
  worst_disk worst [] = worst
  worst_disk worst (d ∷ ds) =
      worst_disk (if is_zero d.total then worst else worse (percent d.used d.total) worst) ds

  unfoldable pub hottest : Option F → List (Temp F) → Option F
  hottest best [] = best
  hottest best (t ∷ ts) = hottest (worse t.celsius best) ts

  load_value : Option F → ℤ → Option F
  load_value none cores = none
  load_value (some load5) cores = if is_zero cores then none else some (div load5 (of_int cores))

  bandwidth_value : Option F → Option F → Option F
  bandwidth_value (some sent) (some recv) = some (div (add sent recv) (of_int (pos 1_000_000)))
  bandwidth_value (some sent) none = none
  bandwidth_value none recv = none

  -- MetricValue: `none` for ok = false
  unfoldable pub metric_value : String → SampleRow F → Host → Option F
  unfolding memory_value load_value bandwidth_value
  metric_value metric row host = ite (String_discrete metric "cpu") row.cpu (
      ite (String_discrete metric "memory") (memory_value row.mem_used row.mem_total) (
        ite (String_discrete metric "disk") (worst_disk none row.disks) (
          ite (String_discrete metric "temperature") (hottest none row.temps) (
            ite (String_discrete metric "load") (load_value row.load5 host.cores) (
              ite (String_discrete metric "bandwidth")
                (bandwidth_value row.net_sent_bps row.net_recv_bps) none)))))

  -- `r.HostID != nil && *r.HostID != hostID`
  abbrev pub for_other_host : Option ℕ → ℕ → Bool
  for_other_host none host_id = false
  for_other_host (some h) host_id = not (h == host_id)

  abbrev pub is_global : Rule F → Bool
  is_global r = elim (r.host_id) [ none ↦ true | some h ↦ false ]

  -- `!seen || (cur.HostID == nil && r.HostID != nil)`
  abbrev pub replaces : Option (Rule F) → Rule F → Bool
  replaces none r = true
  replaces (some cur) r = is_global cur && not (is_global r)

  unfoldable pub by_metric : List (String × Rule F) → List (Rule F) → ℕ → List (String × Rule F)
  by_metric acc [] host_id = acc
  by_metric acc (r ∷ rs) host_id =
      by_metric
        (if for_other_host r.host_id host_id
          then acc
          else if replaces (lookup String_discrete r.metric acc) r
          then insert String_discrete r.metric r acc
          else acc)
        rs host_id

  abbrev pub kind_of : Transition → Kind
  kind_of Transition.resolved = resolved
  kind_of _ = fired

  unfoldable pub event : ℕ → ℕ → String → Transition → F → Time → AlertEvent F
  event rule_id host_id metric tr v now = record {
    id = 0;
    rule_id = rule_id;
    host_id = host_id;
    metric = metric;
    kind = kind_of tr;
    value = v;
    at = now;
  }

  -- The events that a transition appends to `out`.
  unfoldable pub emit : ℕ → ℕ → String → Transition → F → Time → List (AlertEvent F)
  emit rule_id host_id metric nothing v now = []
  emit rule_id host_id metric tr v now = event rule_id host_id metric tr v now ∷ []

  abbrev pub bool_val : Bool → F
  bool_val true = of_int (pos 1)
  bool_val false = of_int (pos 0)

  -- One observation, and the event that it appends.
  unfoldable pub observe_rule :
      Machine → ℕ → ℕ → String → Bool → F → Time → Duration → Machine × List (AlertEvent F)
  observe_rule m rule_id host_id metric breached v now d =
      let (m', tr) = observe m (record { rule_id = rule_id; host_id = host_id }) breached now d in
      (m', emit rule_id host_id metric tr v now)

  unfoldable pub status_step : Machine → Input F → Host → Machine × List (AlertEvent F)
  status_step m inp h =
      if not (is_never_seen h.status) && not h.muted
      then (let breached = is_offline h.status in
          observe_rule m status_rule_id h.id "status" breached (bool_val breached) inp.now no_time)
      else (m, [])

  -- The loop over the applicable rules of one host.
  unfoldable pub rules_steps :
      Machine → Time → Host → SampleRow F → List (Rule F) → Machine × List (AlertEvent F)
  rules_steps m now h row [] = (m, [])
  rules_steps m now h row (r ∷ rs) = elim (metric_value r.metric row h) [
    | none ↦ rules_steps m now h row rs
    | some v ↦
        let (m', out) = observe_rule m r.id h.id r.metric (gt v r.threshold) v now r.duration in
        let (m'', rest) = rules_steps m' now h row rs in (m'', out ++ rest)
  ]

  -- The latest sample unless it is missing or older than two intervals: silence is not zero.
  unfoldable pub fresh_row : Input F → ℕ → Option (SampleRow F)
  fresh_row inp host_id = elim (lookup ℕ_discrete host_id inp.latest) [
    | none ↦ none
    | some row ↦ if ltb_ℤ (twice inp.interval) (time_sub inp.now row.at) then none else some row
  ]

  module _ (visit : List (Rule F) → List (Rule F)) where
    unfoldable pub applicable : List (Rule F) → ℕ → List (Rule F)
    applicable rules host_id = visit (map (λ e. e.1) (by_metric [] rules host_id))

    unfoldable pub host_step : Machine → Input F → Host → Machine × List (AlertEvent F)
    host_step m inp h =
        let (m1, out) = status_step m inp h in
        if h.muted then (m1, out) else (elim (fresh_row inp h.id) [
          | none ↦ (m1, out)
          | some row ↦
              let (m2, rest) = rules_steps m1 inp.now h row (applicable inp.rules h.id) in
              (m2, out ++ rest)
        ])

    unfoldable pub hosts_steps : Machine → Input F → List Host → Machine × List (AlertEvent F)
    hosts_steps m inp [] = (m, [])
    hosts_steps m inp (h ∷ hs) =
        let (m', out) = host_step m inp h in
        let (m'', rest) = hosts_steps m' inp hs in (m'', out ++ rest)

    unfoldable pub evaluate : Machine → Input F → Machine × List (AlertEvent F)
    evaluate m inp = hosts_steps m inp inp.hosts
