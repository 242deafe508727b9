-- ===== src/Examples/Actions.antt =====
-- Two actions on one web site, and a restart between them.
use serversmonitor.Prelude.{refl, true, none, [], ◌∷◌, String, String_discrete, arith}
use serversmonitor.Store.AzureActions.{
  AzureAction, ActionTable, pending, succeeded, in_flight, start_azure_action, finish_azure_action,
  mark_azure_action_running,
}
use serversmonitor.Hub.Actions.{AzureResource, actionable, supports, start_action_from}
use serversmonitor.Store.OpenActions.{OneInFlight}
use serversmonitor.Hub.InFlight.{Act, starts, marks, ends, here, then_act, Acts-OneInFlight}

abbrev as_is : String → String
as_is s = s

abbrev site : AzureResource
site = record {
  id = "site";
  arm_id = "Site";
  name = "site";
  type_name = "microsoft.web/sites";
  state = none;
  deleted_at = none;
}

abbrev no_actions : ActionTable
no_actions = record { rows = []; next_id = 1 }

abbrev stop_site : AzureAction
stop_site = record {
  id = 1;
  resource_id = "site";
  resource_name = "site";
  action = "stop";
  status = pending;
  requested_at = 5;
  finished_at = none;
  error = "";
  state_before = none;
  state_after = none;
  origin = "user";
}

abbrev stopping : ActionTable
stopping = record { rows = stop_site ∷ []; next_id = 2 }

asked : Act as_is as_is no_actions stopping
unfolding start_action_from actionable supports start_azure_action in_flight String_discrete
asked = starts true (site ∷ []) no_actions stopping "site" "stop" "user" 5 1 site refl

abbrev stopped : ActionTable
stopped = finish_azure_action (mark_azure_action_running stopping 1) 1 succeeded "" none 9

none_yet : OneInFlight no_actions
unfolding in_flight
none_yet r = omega arith

Acts-OneInFlight_example : OneInFlight stopped
Acts-OneInFlight_example =
    Acts-OneInFlight as_is as_is
      (then_act (then_act (then_act here asked) (marks stopping 1))
        (ends (mark_azure_action_running stopping 1) 1 succeeded "" none 9 refl))
      none_yet
