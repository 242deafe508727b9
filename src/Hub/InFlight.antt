-- ===== src/Hub/InFlight.antt =====
-- The actions in flight of internal/hub/azure_action.go over internal/hub/store/azure_actions.go.
use serversmonitor.Prelude.{
  ℕ, ◌≡◌, ◌≢◌, Bool, true, false, Option, List, String, arith, Bool-cases, Option-cases, inl, inr,
}
use serversmonitor.Time.{Time}
use serversmonitor.Store.AzureActions.{
  AzureAction, ActionTable, ActionStatus, Started, accepted, action_in_flight, is_open, in_flight,
  start_azure_action, mark_azure_action_running, finish_azure_action, interrupt_azure_actions,
}
use serversmonitor.Hub.Actions.{
  AzureResource, begun, start_action_from, actionable, answer_of, supports,
}
use serversmonitor.Store.OpenActions.{
  OneInFlight, mark-OneInFlight, finish-OneInFlight, start-OneInFlight, none_open_after,
}

-- One step of the hub on the table: an action is asked for, its goroutine marks it running or closes
-- it, or the hub restarts. The steps of several goroutines come in any order.
pub data Act (lower normal : String → String) : ActionTable → ActionTable → Type 0 where
  starts :
      (ready : Bool) (resources : List AzureResource) (t t' : ActionTable)
      (id action origin : String) (now : Time) (n : ℕ) (r : AzureResource)
      → start_action_from lower normal ready resources t id action origin now ≡ begun n r t'
      → Act lower normal t t'
  marks : (t : ActionTable) (id : ℕ) → Act lower normal t (mark_azure_action_running t id)
  ends :
      (t : ActionTable) (id : ℕ) (s : ActionStatus) (msg : String) (after : Option String)
      (now : Time)
      → is_open s ≡ false
      → Act lower normal t (finish_azure_action t id s msg after now)
  restarts : (t : ActionTable) (now : Time) → Act lower normal t (interrupt_azure_actions t now).0

pub data Acts (lower normal : String → String) (t : ActionTable) : ActionTable → Type 0 where
  here : Acts lower normal t t
  then_act :
      {u v : ActionTable} → Acts lower normal t u → Act lower normal u v → Acts lower normal t v

module _ (lower normal : String → String) where
  answer-begun :
      (r : AzureResource) (s : Started) (n : ℕ) (q : AzureResource) (t' : ActionTable)
      → answer_of lower normal r s ≡ begun n q t'
      → s ≡ accepted n t'
  answer-begun r (accepted m u) n q t' h = cc h
  answer-begun r action_in_flight n q t' h = absurd (cc h)

  starts-OneInFlight :
      (ready : Bool) (resources : List AzureResource) (t t' : ActionTable)
      (id action origin : String) (now : Time) (n : ℕ) (r : AzureResource)
      → start_action_from lower normal ready resources t id action origin now ≡ begun n r t'
      → OneInFlight t
      → OneInFlight t'
  unfolding start_action_from
  starts-OneInFlight false resources t t' id action origin now n r h one = absurd (cc h)
  starts-OneInFlight true resources t t' id action origin now n r h one =
      elim (Option-cases (actionable resources (normal id))) [
        | inl e ↦ absurd (cc (rw (e, start_action_from) at h))
        | inr (q, e) ↦ elim (Bool-cases (supports lower normal q.type_name action)) [
          | inr not_it ↦ absurd (cc (rw (e, not_it, start_action_from) at h))
          | inl it_does ↦
              start-OneInFlight t t' _ n one
                (answer-begun q _ n r t' (rw (e, it_does, start_action_from) at h))
        ]
      ]

  Act-OneInFlight : {t u : ActionTable} → Act lower normal t u → OneInFlight t → OneInFlight u
  unfolding interrupt_azure_actions
  Act-OneInFlight (starts ready resources t u id action origin now n r h) one =
      starts-OneInFlight ready resources t u id action origin now n r h one
  Act-OneInFlight (marks t id) one = mark-OneInFlight t id one
  Act-OneInFlight (ends t id s msg after now closed) one =
      finish-OneInFlight t id s msg after now closed one
  Act-OneInFlight (restarts t now) one = λ r. omega (arith, none_open_after t.rows r now)

  -- Whatever actions are asked for, marked running and closed, in whatever order, and however often the
  -- hub restarts meanwhile: if at first each resource has at most one action pending or running, it
  -- always has.
  pub Acts-OneInFlight : {t u : ActionTable} → Acts lower normal t u → OneInFlight t → OneInFlight u
  Acts-OneInFlight here one = one
  Acts-OneInFlight (then_act acts step) one = Act-OneInFlight step (Acts-OneInFlight acts one)

-- After a restart no action of any resource counts as pending or running, so the next one on any
-- resource is not refused as one in flight.
pub restart_accepts :
    (t : ActionTable) (now : Time) (a : AzureAction)
    → let after = (interrupt_azure_actions t now).0 in
      (in_flight a.resource_id after.rows ≡ 0) × (start_azure_action after a ≢ action_in_flight)
unfolding start_azure_action interrupt_azure_actions
restart_accepts t now a =
    let none_left = none_open_after t.rows a.resource_id now in
    (none_left, λ e. cc (rw none_left at e))
