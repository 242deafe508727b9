-- ===== src/Alerts/Silence.antt =====
-- What an evaluation of internal/hub/alerts/evaluate.go touches, for a host that is silent or muted.
use serversmonitor.Prelude.{
  ℕ, ◌++◌, ◌≡◌, ◌≢◌, refl, ◌∙◌, ◌⊎◌, inl, inr, Bool, true, false, none, some, lookup, ℕ_discrete,
  List, [], ◌∷◌, String, arith, All, All-append, if◌then◌else◌, Option-cases, subst, not, ◌&&◌,
}
use serversmonitor.Prelude.Int.{ltb_ℤ}
use serversmonitor.Time.{Time, Duration, time_sub, no_time}
use serversmonitor.Float.{Float}
use serversmonitor.Store.Rows.{Host, SampleRow, Rule, AlertEvent}
use serversmonitor.Alerts.Machine.{Key, Transition, nothing, fired, resolved, Machine, cell_at}
use serversmonitor.Store.AlertEvents.{key_of}
use serversmonitor.Alerts.Traces.{Observation, observe_one, cell_at-observe_ne}
use serversmonitor.Alerts.Evaluate.{
  Input, status_rule_id, metric_value, emit, event, observe_rule, status_step, rules_steps,
  fresh_row, applicable, host_step, hosts_steps, evaluate, is_offline, is_never_seen, twice,
}

module _ (fl : Float) where
  open fl use {F}

  -- A step touches only the keys with property P, in the machine and in the events.
  record Touches (P : Key → Type 0) (m : Machine) (r : Machine × List (AlertEvent F)) : Type 0 where
    kept : (k : Key) → ¬ P k → cell_at r.0 k ≡ cell_at m k
    about : All (λ e. P (record { rule_id = e.rule_id; host_id = e.host_id })) r.1

  emit-about :
      (P : Key → Type 0) (rule_id host_id : ℕ) (metric : String) (tr : Transition) (v : F)
      (now : Time)
      → P (record { rule_id = rule_id; host_id = host_id })
      → All
          (λ e. P (record { rule_id = e.rule_id; host_id = e.host_id }))
          (emit fl rule_id host_id metric tr v now)
  unfolding emit event
  emit-about P r h metric nothing v now p = tt
  emit-about P r h metric fired v now p = (p, tt)
  emit-about P r h metric resolved v now p = (p, tt)

  observe_rule-Touches :
      (P : Key → Type 0) (m : Machine) (rule_id host_id : ℕ) (metric : String) (b : Bool) (v : F)
      (now : Time) (d : Duration)
      → P (record { rule_id = rule_id; host_id = host_id })
      → Touches P m (observe_rule fl m rule_id host_id metric b v now d)
  unfolding observe_rule
  observe_rule-Touches P m r h metric b v now d p =
      let key : Key = record { rule_id = r; host_id = h } in
      let o : Observation = record { key = key; breached = b; now = now; duration = d } in
      record {
        kept = λ k n. cell_at-observe_ne m o k (λ e. n (subst P e p));
        about = emit-about P r h metric (observe_one m o).1 v now p;
      }

  nothing-Touches : (P : Key → Type 0) (m : Machine) → Touches P m (m, [])
  nothing-Touches P m = record { kept = λ k n. refl; about = tt }

  Touches-if :
      (P : Key → Type 0) (m : Machine) (b : Bool) (x y : Machine × List (AlertEvent F))
      → (b ≡ true → Touches P m x)
      → (b ≡ false → Touches P m y)
      → Touches P m (if b then x else y)
  Touches-if P m true x y hx hy = hx refl
  Touches-if P m false x y hx hy = hy refl

  Touches-append :
      (P : Key → Type 0) (m m1 m2 : Machine) (xs ys : List (AlertEvent F))
      → Touches P m (m1, xs)
      → Touches P m1 (m2, ys)
      → Touches P m (m2, xs ++ ys)
  Touches-append P m m1 m2 xs ys s t = record {
    kept = λ k n. t.kept k n ∙ s.kept k n;
    about =
        All-append (λ e. P (record { rule_id = e.rule_id; host_id = e.host_id })) xs ys s.about
          t.about;
  }

  rules_steps-Touches :
      (P : Key → Type 0) (rs : List (Rule F)) (m : Machine) (now : Time) (h : Host)
      (row : SampleRow F)
      → ((rule_id : ℕ) → P (record { rule_id = rule_id; host_id = h.id }))
      → Touches P m (rules_steps fl m now h row rs)
  unfolding rules_steps
  rules_steps-Touches P [] m now h row p = nothing-Touches P m
  rules_steps-Touches P (r ∷ rs) m now h row p =
      elim (Option-cases (metric_value fl r.metric row h)) [
        | inl e ↦ rw (e, rules_steps) (rules_steps-Touches P rs m now h row p)
        | inr (v, e) ↦
            rw (e, rules_steps)
              (let one =
                  observe_rule fl m r.id h.id r.metric (fl.gt v r.threshold) v now r.duration in
                Touches-append P m one.0 _ one.1 _
                  (observe_rule-Touches P m r.id h.id r.metric _ v now r.duration (p r.id))
                  (rules_steps-Touches P rs one.0 now h row p))
      ]

  status_step-Touches :
      (P : Key → Type 0) (m : Machine) (inp : Input F) (h : Host)
      → (h.muted ≡ false → P (record { rule_id = status_rule_id; host_id = h.id }))
      → Touches P m (status_step fl m inp h)
  unfolding status_step
  status_step-Touches P m inp h p =
      Touches-if P m (not (is_never_seen h.status) && not h.muted) _ _
        (λ e.
          observe_rule-Touches P m status_rule_id h.id "status" (is_offline h.status) _ inp.now
            no_time (p (ground arith)))
        (λ e. nothing-Touches P m)

  -- Whatever sample of the host is the latest is older than two intervals.
  abbrev pub IsSilent : Input F → ℕ → Type 0
  IsSilent inp host_id =
      (row : SampleRow F)
      → lookup ℕ_discrete host_id inp.latest ≡ some row
      → ltb_ℤ (twice inp.interval) (time_sub inp.now row.at) ≡ true

  fresh_row-IsSilent :
      (inp : Input F) (host_id : ℕ) → IsSilent inp host_id → fresh_row fl inp host_id ≡ none
  unfolding fresh_row
  fresh_row-IsSilent inp host_id silent =
      elim (Option-cases (lookup ℕ_discrete host_id inp.latest)) [
        | inl e ↦ rw (e, fresh_row) refl
        | inr (row, e) ↦ ground (arith, e, silent row e)
      ]

  -- The host is muted, or it is silent and the key is not that of the offline rule.
  abbrev pub IsQuiet : Input F → Key → Host → Type 0
  IsQuiet inp k h = (h.muted ≡ true) ⊎ (IsSilent inp h.id × (k.rule_id ≢ status_rule_id))

  abbrev IsUnread : Input F → Key → Host → Type 0
  IsUnread inp k h =
      (h.muted ≡ true) ⊎ ((fresh_row fl inp h.id ≡ none) × (k.rule_id ≢ status_rule_id))

  IsQuiet-IsUnread : (inp : Input F) (k : Key) (h : Host) → IsQuiet inp k h → IsUnread inp k h
  IsQuiet-IsUnread inp k h (inl muted) = inl muted
  IsQuiet-IsUnread inp k h (inr (silent, other)) = inr (fresh_row-IsSilent inp h.id silent, other)

  module _ (visit : List (Rule F) → List (Rule F)) (inp : Input F) (k : Key) where
    abbrev Other : Key → Type 0
    Other j = j ≢ k

    host_step-Touches :
        (m : Machine) (h : Host)
        → (h.id ≡ k.host_id → IsUnread inp k h)
        → Touches Other m (host_step fl visit m inp h)
    unfolding host_step
    host_step-Touches m h quiet =
        let s = status_step fl m inp h in
        let first : Touches Other m s =
          status_step-Touches Other m inp h λ unmuted e. ground (arith, quiet) in
        elim (Option-cases (fresh_row fl inp h.id)) [
          | inl e ↦ rw (e, host_step) (Touches-if Other m h.muted _ _ (λ _. first) (λ _. first))
          | inr (row, e) ↦
              rw (e, host_step)
                (Touches-if Other m h.muted _ _ (λ _. first)
                  λ unmuted. Touches-append Other m s.0 _ s.1 _ first (
                    rules_steps-Touches Other (applicable fl visit inp.rules h.id) s.0 inp.now h row
                      λ rule_id same. ground (arith, quiet)))
        ]

    hosts_steps-Touches :
        (hs : List Host) (m : Machine)
        → All (λ h. h.id ≡ k.host_id → IsQuiet inp k h) hs
        → Touches Other m (hosts_steps fl visit m inp hs)
    unfolding hosts_steps
    hosts_steps-Touches [] m quiet = nothing-Touches Other m
    hosts_steps-Touches (h ∷ hs) m quiet =
        let one = host_step fl visit m inp h in
        Touches-append Other m one.0 _ one.1 _
          (host_step-Touches m h (λ same. IsQuiet-IsUnread inp k h (quiet.0 same)))
          (hosts_steps-Touches hs one.0 (quiet.1))

    -- Where the host of a key is muted, or has no sample that is at most two intervals old and the key
    -- is not that of the offline rule, an evaluation neither changes the cell of the key nor reports anything for it: silence
    -- never fires and never resolves a threshold alert.
    pub evaluate_quiet :
        (m : Machine)
        → All (λ h. h.id ≡ k.host_id → IsQuiet inp k h) inp.hosts
        → let (m', events) = evaluate fl visit m inp in
          (cell_at m' k ≡ cell_at m k) × All (λ e. key_of e ≢ k) events
    unfolding evaluate
    evaluate_quiet m quiet =
        let t = hosts_steps-Touches inp.hosts m quiet in (t.kept k (λ n. n refl), t.about)
