-- ===== src/Hub/Actions.antt =====
-- internal/hub/azure_action.go with the table of internal/hub/azure/actions.go: who may act on a
-- resource, and how a run ends. Azure's answers are arguments.
use serversmonitor.Prelude.{
  ℕ, Bool, true, false, ◌&&◌, ◌||◌, not, Option, none, some, List, [], ◌∷◌, String, if◌then◌else◌,
  text_eq,
}
use serversmonitor.Time.{Time}
use serversmonitor.Store.AzureActions.{
  ActionTable, ActionStatus, pending, succeeded, failed, Started, accepted, action_in_flight,
  start_azure_action, mark_azure_action_running, finish_azure_action,
}

-- The part of store.AzureResource that an action reads.
pub record AzureResource : Type 0 where
  pub id : String
  pub arm_id : String
  pub name : String
  pub type_name : String
  pub state : Option String
  pub deleted_at : Option Time

abbrev pub is_live : Option Time → Bool
is_live none = true
is_live (some t) = false

-- ActionableAzureResource: none for ErrNoSuchResource.
unfoldable pub actionable : List AzureResource → String → Option AzureResource
actionable [] id = none
actionable (r ∷ rs) id =
    let rest = actionable rs id in if text_eq r.id id && is_live r.deleted_at then some r else rest

pub data Answer : Type 0 where
  begun : ℕ → AzureResource → ActionTable → Answer
  azure_off no_such_resource not_actionable in_flight_already : Answer

abbrev pub is_verb : String → Bool
is_verb a = text_eq a "start" || text_eq a "stop" || text_eq a "restart"

-- `lower` is strings.ToLower, over Unicode's tables; `normal` is that after strings.TrimSpace.
module _ (lower normal : String → String) where
  -- Supports: both entries of `providers` have all three actions.
  unfoldable pub supports : String → String → Bool
  supports type_name a =
      (text_eq (lower type_name) "microsoft.web/sites"
        || text_eq (lower type_name) "microsoft.compute/virtualmachines")
      && is_verb a

  abbrev pub answer_of : AzureResource → Started → Answer
  answer_of r (accepted id t) = begun id r t
  answer_of r action_in_flight = in_flight_already

  -- StartActionFrom, up to the goroutine that it starts.
  unfoldable pub start_action_from :
      Bool → List AzureResource → ActionTable → String → String → String → Time → Answer
  start_action_from ready resources t resource_id a origin now =
      if not ready then azure_off else (elim (actionable resources (normal resource_id)) [
        | none ↦ no_such_resource
        | some r ↦
            if not (supports r.type_name a)
            then not_actionable
            else answer_of r (
                start_azure_action t (record {
                  id = 0;
                  resource_id = normal resource_id;
                  resource_name = r.name;
                  action = a;
                  status = pending;
                  requested_at = now;
                  finished_at = none;
                  error = "";
                  state_before = r.state;
                  state_after = none;
                  origin = origin;
                }))
      ])

-- What ReadState answers: an error, or a state that Azure may leave out.
pub data StateRead : Type 0 where
  read_failed : StateRead
  read : Option String → StateRead

-- The guardrail line of a scheduled action, by finishAction.
pub data ScheduleLine : Type 0 where
  no_line resolved_line : ScheduleLine
  failed_line : String → ScheduleLine

pub record Ran : Type 0 where
  pub table : ActionTable
  pub status : ActionStatus
  pub stored_state : Option String
  pub schedule_line : ScheduleLine

-- The line of finishAction for a run that ended well.
abbrev pub line_on_success : String → ScheduleLine
line_on_success origin = if text_eq origin "schedule" then resolved_line else no_line

abbrev pub line_on_failure : String → String → ScheduleLine
line_on_failure origin msg = if text_eq origin "schedule" then failed_line msg else no_line

abbrev pub state_read : StateRead → Option String
state_read read_failed = none
state_read (read s) = s

-- runAction: what Do answered, none for success, and what was read back.
unfoldable pub run_action : ActionTable → ℕ → String → Option String → StateRead → Time → Ran
run_action t id origin done read_back now =
    let open_table = mark_azure_action_running t id in
    elim done [
      | some msg ↦ record {
        table = finish_azure_action open_table id failed msg none now;
        status = failed;
        stored_state = none;
        schedule_line = line_on_failure origin msg;
      }
      | none ↦ record {
        table = finish_azure_action open_table id succeeded "" (state_read read_back) now;
        status = succeeded;
        stored_state = state_read read_back;
        schedule_line = line_on_success origin;
      }
    ]
