-- ===== src/Store/AzureActions.antt =====
-- internal/hub/store/azure_actions.go: the azure_actions table, rows in the order of their ids. The
-- partial unique index of the table refuses a second pending or running row of one resource.
use serversmonitor.Prelude.{
  ℕ, suc, Bool, true, false, ◌&&◌, Option, none, some, List, [], ◌∷◌, ◌++◌, String, if◌then◌else◌,
  ◌==◌, text_eq, map,
}
use serversmonitor.Time.{Time}

pub data ActionStatus : Type 0 where
  pending running succeeded failed interrupted : ActionStatus

pub record AzureAction : Type 0 where
  pub id : ℕ
  pub resource_id : String
  pub resource_name : String
  pub action : String
  pub status : ActionStatus
  pub requested_at : Time
  pub finished_at : Option Time
  pub error : String
  pub state_before : Option String
  pub state_after : Option String
  pub origin : String

pub record ActionTable : Type 0 where
  pub rows : List AzureAction
  pub next_id : ℕ

pub data Started : Type 0 where
  accepted : ℕ → ActionTable → Started
  action_in_flight : Started

abbrev pub is_open : ActionStatus → Bool
is_open pending = true
is_open running = true
is_open _ = false

-- The number of rows of a resource that are pending or running.
unfoldable pub in_flight : String → List AzureAction → ℕ
in_flight r [] = 0
in_flight r (a ∷ rows) =
    let rest = in_flight r rows in
    if is_open a.status && text_eq a.resource_id r then suc rest else rest

-- StartAzureAction
unfoldable pub start_azure_action : ActionTable → AzureAction → Started
start_azure_action t a =
    let stored : AzureAction = record a {
      id = t.next_id;
      status = pending;
      finished_at = none;
      error = "";
      state_after = none;
      origin = if text_eq a.origin "" then "user" else a.origin;
    } in
    if in_flight a.resource_id t.rows == 0
    then accepted t.next_id (record { rows = t.rows ++ stored ∷ []; next_id = suc t.next_id })
    else action_in_flight

abbrev pub as_running : ActionStatus → ActionStatus
as_running pending = running
as_running s = s

-- MarkAzureActionRunning
unfoldable pub mark_azure_action_running : ActionTable → ℕ → ActionTable
mark_azure_action_running t id = record t {
  rows = map (λ a. if a.id == id then record a { status = as_running a.status } else a) t.rows;
}

-- FinishAzureAction
unfoldable pub finish_azure_action :
    ActionTable → ℕ → ActionStatus → String → Option String → Time → ActionTable
finish_azure_action t id status err_msg state_after now = record t {
  rows =
      map
        (λ a.
          if a.id == id
          then record a {
            status = status;
            error = err_msg;
            state_after = state_after;
            finished_at = some now;
          }
          else a)
        t.rows;
}

abbrev pub closed_at : Time → AzureAction → AzureAction
closed_at now a =
    if is_open a.status then record a { status = interrupted; finished_at = some now } else a

unfoldable pub open_rows : List AzureAction → ℕ
open_rows [] = 0
open_rows (a ∷ rows) = let rest = open_rows rows in if is_open a.status then suc rest else rest

-- InterruptAzureActions: the table, and the number of rows closed.
unfoldable pub interrupt_azure_actions : ActionTable → Time → ActionTable × ℕ
interrupt_azure_actions t now = (record t { rows = map (closed_at now) t.rows }, open_rows t.rows)
