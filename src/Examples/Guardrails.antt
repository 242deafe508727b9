-- ===== src/Examples/Guardrails.antt =====
-- The budget and orphan rules on a small account.
use serversmonitor.Prelude.{ℕ, ◌*◌, ◌≡◌, refl, true, false, List, [], ◌∷◌, lookup, String_discrete}
use serversmonitor.Prelude.Int.{pos}
use serversmonitor.Time.{hour}
use serversmonitor.Store.Rows.{fired, GuardrailEvent}
use serversmonitor.Guardrails.Transitions.{
  GuardrailKey-discrete, LastEvents, Want, is_firing, transitions, after_events,
}
use serversmonitor.Guardrails.Settled.{transitions_follow, or_now, wanted}
use serversmonitor.Guardrails.Budget.{Settings, BudgetInput, projection_key}
use serversmonitor.Guardrails.Orphans.{OrphanInput, orphan_key, orphans}
use serversmonitor.Guardrails.OrphanStates.{orphan_alert_follows, state_for}
use serversmonitor.Hub.GuardrailNotices.{GuardrailTable}
use serversmonitor.Examples.Data.{cents}

abbrev over_budget : GuardrailEvent ℕ
over_budget = record {
  id = 1;
  subject = "budget";
  rule = "budget_projection";
  detail = "";
  kind = fired;
  value = 100;
  at = 5;
}

abbrev lost_disk : GuardrailEvent ℕ
lost_disk = record over_budget { id = 2; subject = "disk"; rule = "orphan" }

abbrev journal : LastEvents ℕ
journal = (projection_key, over_budget) ∷ (orphan_key "disk", lost_disk) ∷ []

abbrev wants : List (Want ℕ)
wants =
    record { key = projection_key; on = false; value = 0 }
    ∷ record { key = orphan_key "nic"; on = true; value = 0 }
    ∷ []

transitions_follow_example :
    is_firing (after_events journal (transitions wants journal 9)) (orphan_key "nic")
    ≡ or_now (wanted (orphan_key "nic") wants) (is_firing journal (orphan_key "nic"))
unfolding GuardrailKey-discrete String_discrete
transitions_follow_example =
    transitions_follow wants journal 9 (orphan_key "nic") (refl, (refl, tt))

abbrev defaults : Settings
defaults = record {
  thresholds = pos 80 ∷ [];
  resource_share = pos 50;
  hub_vm_silent_days = pos 3;
  timezone = "UTC";
}

abbrev account : BudgetInput ℕ
account = record {
  now = 9 * 24 * hour;
  budget = 0;
  spent = 2500;
  currencies = 1;
  as_of = 8 * 24 * hour;
  rows = [];
  settings = defaults;
  last = journal;
}

-- Eight days were billed for 25, so the month comes to 96.87, within the band of 5 % about 100.
abbrev in_band : BudgetInput ℕ
in_band = record account { budget = 10000 }

abbrev sweep : OrphanInput ℕ
sweep = record {
  now = 9;
  reasons = ("nic", "unattached") ∷ ("disk", "") ∷ [];
  names = [];
  last = journal;
}

orphan_alert_follows_example :
    is_firing (after_events journal (orphans cents sweep)) (orphan_key "nic")
    ≡ state_for (lookup String_discrete "nic" sweep.reasons)
unfolding lookup GuardrailKey-discrete String_discrete
orphan_alert_follows_example =
    orphan_alert_follows cents sweep (refl, (refl, tt)) (refl, (refl, tt)) "nic"

abbrev failed_once : GuardrailTable ℕ
failed_once = record {
  rows = record lost_disk { subject = "site"; rule = "schedule_failed" } ∷ [];
  next_id = 3;
}
