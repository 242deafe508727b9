-- ===== src/Hub/ScheduleAlerts.antt =====
-- The schedule_failed alert of internal/hub/guardrails_hub.go.
use serversmonitor.Prelude.{
  length, if◌then◌else◌, ◌≡◌, refl, sym, ap, ◌∙◌, Bool, true, false, List, String, arith, ite,
  lookup-insert_self, lookup-insert_ne, Bool-cases, inl, inr, if_pos, if_neg,
}
use serversmonitor.Time.{Time}
use serversmonitor.Store.Rows.{fired, resolved, GuardrailKey, GuardrailEvent}
use serversmonitor.Guardrails.Transitions.{
  GuardrailKey-discrete, is_firing, is_fired, event_key, kind_fired,
}
use serversmonitor.Hub.GuardrailNotices.{
  GuardrailTable, insert_guardrail_event, last_guardrail_event_per_key, journal_guardrails,
  schedule_failed, schedule_line, journal_schedule_failure, journal_schedule_resolved,
}

module _ {F : Type 0} where
  -- Whether the newest line of a rule instance is a fired one.
  abbrev pub fires_now : GuardrailTable F → GuardrailKey → Bool
  fires_now t k = is_firing (last_guardrail_event_per_key t.rows) k

  after_line :
      (t : GuardrailTable F) (e : GuardrailEvent F) (k : GuardrailKey)
      → fires_now (insert_guardrail_event t e).0 k
        ≡ ite (GuardrailKey-discrete (event_key e) k) (is_fired e) (fires_now t k)
  unfolding insert_guardrail_event last_guardrail_event_per_key is_firing
  after_line t e k = elim (GuardrailKey-discrete (event_key e) k) [
    | yes p ↦ rw (if_pos (GuardrailKey-discrete (event_key e) k) p) (
        ground (
          arith,
          p,
          lookup-insert_self GuardrailKey-discrete (event_key e) (record e { id = t.next_id })
              (last_guardrail_event_per_key t.rows),
        ))
    | no p ↦ rw (if_neg (GuardrailKey-discrete (event_key e) k) p) (
        ap kind_fired (
          lookup-insert_ne GuardrailKey-discrete (event_key e) k (record e { id = t.next_id })
            (last_guardrail_event_per_key t.rows) p))
  ]

  -- What finishAction and runSchedules report of a resource: that its schedule failed or succeeded.
  unfoldable pub report :
      F → GuardrailTable F → String → Bool → Time → GuardrailTable F × List (GuardrailEvent F)
  report zero_value t id true now = journal_schedule_failure zero_value t id now
  report zero_value t id false now = journal_schedule_resolved zero_value t id now

  unchanged :
      (t : GuardrailTable F) (id : String) (b : Bool) (k : GuardrailKey)
      → fires_now t (schedule_failed id) ≡ b
      → fires_now t k ≡ ite (GuardrailKey-discrete (schedule_failed id) k) b (fires_now t k)
  unchanged t id b k h = elim (GuardrailKey-discrete (schedule_failed id) k) [
    | yes p ↦
        rw (if_pos (GuardrailKey-discrete (schedule_failed id) k) p) (ap (fires_now t) (sym p) ∙ h)
    | no p ↦ rw (if_neg (GuardrailKey-discrete (schedule_failed id) k) p) refl
  ]

  -- After a report the schedule alert of the resource is firing exactly if the report was a failure, and
  -- every other guardrail alert is as it was; it writes one line if that changes the alert and else none.
  pub report_lem :
      (zero_value : F) (t : GuardrailTable F) (id : String) (failing : Bool) (now : Time)
      → let (t', lines) = report zero_value t id failing now in
        ((k : GuardrailKey)
          → fires_now t' k
            ≡ ite (GuardrailKey-discrete (schedule_failed id) k) failing (fires_now t k))
        × (length lines ≡ (
            if fires_now t (schedule_failed id)
            then (if failing then 0 else 1)
            else (if failing then 1 else 0)))
  unfolding report journal_schedule_failure journal_schedule_resolved journal_guardrails
  report_lem zero_value t id true now = elim (Bool-cases (fires_now t (schedule_failed id))) [
    | inl on ↦ rw on ((λ k. unchanged t id true k on), refl)
    | inr off ↦ rw off ((λ k. after_line t (schedule_line zero_value id fired now) k), refl)
  ]
  report_lem zero_value t id false now = elim (Bool-cases (fires_now t (schedule_failed id))) [
    | inl on ↦ rw on ((λ k. after_line t (schedule_line zero_value id resolved now) k), refl)
    | inr off ↦ rw off ((λ k. unchanged t id false k off), refl)
  ]
