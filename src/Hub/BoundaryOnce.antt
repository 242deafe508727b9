-- ===== src/Hub/BoundaryOnce.antt =====
-- The rounds of runSchedules of internal/hub/guardrails_hub.go on one boundary.
use serversmonitor.Prelude.{
  ℕ, ◌≤◌, ◌≡◌, refl, sym, ap, ◌∙◌, Bool, true, not, Option, none, some, List, [], ◌∷◌, String,
  text_eq, arith, Bool-cases, Option-cases, inl, inr,
}
use serversmonitor.Time.{Time, Duration}
use serversmonitor.Guardrails.Windows.{Window}
use serversmonitor.Guardrails.Schedule.{Zone, Boundary}
use serversmonitor.Store.AzureActions.{ActionTable}
use serversmonitor.Hub.Actions.{
  AzureResource, Answer, begun, azure_off, no_such_resource, not_actionable, in_flight_already,
}
use serversmonitor.Hub.Schedules.{
  AzureSchedule, leave, act, marked, mark_schedule_boundary, schedule_by_id, decide_boundary,
  decide, boundary_of, Scheduling, after_answer, run_one, is_old,
}

schedule_by_id-mark :
    (rows : List AzureSchedule) (id : String) (b now : Time) (sc : AzureSchedule)
    → schedule_by_id rows id ≡ some sc
    → schedule_by_id (mark_schedule_boundary rows id b now) id ≡ some (marked sc b now)
unfolding schedule_by_id mark_schedule_boundary
schedule_by_id-mark [] id b now sc h = absurd (cc h)
schedule_by_id-mark (x ∷ rows) id b now sc h = elim (Bool-cases (text_eq x.resource_id id)) [
  | inl same ↦
      rw same
        (rw same (ap (λ o. elim o [ none ↦ none | some y ↦ some (marked y b now) ]) (rw same at h)))
  | inr other ↦ rw other (rw other (schedule_by_id-mark rows id b now sc (rw other at h)))
]

decide_boundary-old :
    (x : Boundary) (sc : AzureSchedule) (b now later : Time) (age : Duration)
    → x.best ≤ b
    → decide_boundary x (marked sc b now) later age ≡ leave
unfolding decide_boundary
decide_boundary-old x sc b now later age h =
    rw (old h) (elim (Bool-cases (not x.ok)) [ inl e ↦ rw e refl | inr e ↦ rw e refl ])
  where
    old : x.best ≤ b → is_old (some b) x.best ≡ true
    old h = ground (arith, h)

module _ (decode : List ℕ → Option (List Window)) (load : String → Option Zone) (hub : Zone) where
  boundary_of-marked :
      (sc : AzureSchedule) (b now later : Time)
      → boundary_of decode load hub (marked sc b now) later ≡ boundary_of decode load hub sc later
  unfolding boundary_of
  boundary_of-marked sc b now later = refl

  decide-again :
      (sc : AzureSchedule) (b now later : Time) (age : Duration)
      → ((x : Boundary) → boundary_of decode load hub sc later ≡ some x → x.best ≤ b)
      → decide decode load hub (marked sc b now) later age ≡ leave
  unfolding decide
  decide-again sc b now later age older =
      elim (Option-cases (boundary_of decode load hub (marked sc b now) later)) [
        | inl e ↦ ground (arith, e)
        | inr (x, e) ↦ ground (
          arith,
          e,
          decide_boundary-old x sc b now later age
              (older x (sym (boundary_of-marked sc b now later) ∙ e)),
        )
      ]

module _ (decode : List ℕ → Option (List Window)) (load : String → Option Zone) (hub : Zone)
    (lower normal : String → String) (resources : List AzureResource) where
  after_answer-schedules :
      (scs : List AzureSchedule) (t : ActionTable) (id : String) (a : Answer)
      → (after_answer decode load hub lower normal resources scs t id a).0.schedules ≡ scs
  after_answer-schedules scs t id (begun n r t') = refl
  after_answer-schedules scs t id in_flight_already = refl
  after_answer-schedules scs t id azure_off = refl
  after_answer-schedules scs t id no_such_resource = refl
  after_answer-schedules scs t id not_actionable = refl

  run_one-leave :
      (s : Scheduling) (sc : AzureSchedule) (now : Time) (age : Duration)
      → decide decode load hub sc now age ≡ leave
      → run_one decode load hub lower normal resources s sc now age ≡ (s, [])
  unfolding run_one
  run_one-leave s sc now age h = rw (h, run_one) refl

  -- The hub never fights a person: once a round acted on a boundary of a schedule, whether the action
  -- began or not, the schedule carries that boundary, and a later round does nothing at all for it
  -- until its windows have a boundary after that one.
  pub boundary_once :
      (s : Scheduling) (sc : AzureSchedule) (now later : Time) (age age' : Duration) (b : Time)
      (off : Bool)
      → schedule_by_id s.schedules sc.resource_id ≡ some sc
      → decide decode load hub sc now age ≡ act b off
      → ((x : Boundary) → boundary_of decode load hub sc later ≡ some x → x.best ≤ b)
      → let s' = (run_one decode load hub lower normal resources s sc now age).0 in
        (schedule_by_id s'.schedules sc.resource_id ≡ some (marked sc b now))
        × (run_one decode load hub lower normal resources s' (marked sc b now) later age'
            ≡ (s', []))
  unfolding run_one
  boundary_once s sc now later age age' b off there decided older = (
    stored,
    run_one-leave _ (marked sc b now) later age'
        (decide-again decode load hub sc b now later age' older),
  )
    where
      stored :
          schedule_by_id
            (run_one decode load hub lower normal resources s sc now age).0.schedules
            sc.resource_id
          ≡ some (marked sc b now)
      stored =
          rw (decided, run_one)
            (rw
              (after_answer-schedules (mark_schedule_boundary s.schedules sc.resource_id b now)
                s.actions (normal sc.resource_id) _)
              (schedule_by_id-mark s.schedules sc.resource_id b now sc there))
