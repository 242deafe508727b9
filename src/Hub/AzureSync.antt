-- ===== src/Hub/AzureSync.antt =====
-- internal/hub/azure_sync.go and the sweeps' part of internal/hub/guardrails_hub.go. What Azure answers
-- to a sweep is given; the writes to the database are taken to succeed. `parse_int` is strconv.ParseInt.
use serversmonitor.Prelude.{
  ℕ, suc, ◌-◌, ◌*◌, Bool, true, false, ◌&&◌, ◌||◌, not, Option, none, some, List, [], ◌∷◌, ◌++◌,
  String, if◌then◌else◌, ltb, text_eq, lookup, insert, map, length, String_discrete,
}
use serversmonitor.Prelude.Int.{ℤ, pos}
use serversmonitor.Time.{Time, hour, minute, after}
use serversmonitor.Float.{Float}
use serversmonitor.Store.Rows.{GuardrailEvent}
use serversmonitor.Store.Hosts.{HostRow, host_by_id}
use serversmonitor.Store.Inventory.{
  AzureResource, AzureCost, AzureSync, replace_azure_inventory, set_azure_orphans,
  upsert_azure_costs, set_azure_sync,
}
use serversmonitor.Azure.Inventory.{Resource, Swept, ok}
use serversmonitor.Guardrails.Budget.{Settings, BudgetInput, budget}
use serversmonitor.Guardrails.Orphans.{orphans, hub_vm_silent}
use serversmonitor.Hub.GuardrailNotices.{
  GuardrailTable, journal_guardrails, last_guardrail_event_per_key,
}

-- The part of azure.Config that decides about a sync.
pub record AzureConfig : Type 0 where
  pub enabled : Bool
  pub subscription_id : String
  pub resource_groups : List String
  pub inventory_every_min : ℕ
  pub cost_every_min : ℕ

unfoldable pub same_groups : List String → List String → Bool
same_groups [] [] = true
same_groups [] (h ∷ hs) = false
same_groups (g ∷ gs) [] = false
same_groups (g ∷ gs) (h ∷ hs) = text_eq g h && same_groups gs hs

-- scopeChanged
unfoldable pub scope_changed : AzureConfig → AzureConfig → Bool
scope_changed a b =
    not (text_eq a.subscription_id b.subscription_id)
    || not (same_groups a.resource_groups b.resource_groups)

-- azureInterval
unfoldable pub azure_interval : Option AzureConfig → String → ℕ
azure_interval none scope = hour
azure_interval (some c) scope =
    if not c.enabled
    then hour
    else if text_eq scope "cost"
    then c.cost_every_min * minute
    else c.inventory_every_min * minute

-- goSyncAzureInventory and goSyncAzureCosts: the flag, and the number of sweeps that run.
pub record Flight : Type 0 where
  pub busy : Bool
  pub sweeps : ℕ

-- The part of the hub's state that the sweeps change.
pub record AzureHub (F : Type 0) : Type 0 where
  pub resources : List AzureResource
  pub costs : List (AzureCost F)
  pub syncs : List AzureSync
  pub journal : GuardrailTable F
  -- the journal lines handed to the notifications
  pub notified : List (GuardrailEvent F)
  -- what was published of the sweeps: the scope and its success
  pub published : List (String × Bool)

module _ {F : Type 0} where
  -- PurgeAzure
  unfoldable pub purge_azure : AzureHub F → AzureHub F
  purge_azure h = record h { resources = []; costs = []; syncs = [] }

  -- The purge of ReloadAzure, from the configuration before and the new one.
  unfoldable pub reload_azure : AzureHub F → Option AzureConfig → AzureConfig → AzureHub F
  reload_azure h none c = h
  reload_azure h (some prev) c = if scope_changed prev c then purge_azure h else h

  -- recordAzureSync
  unfoldable pub record_azure_sync : AzureHub F → String → Bool → String → Time → Time → AzureHub F
  record_azure_sync h scope good msg started ended = record h {
    syncs =
        set_azure_sync
          (record {
            scope = scope;
            ok = good;
            message = msg;
            started_at = started;
            ended_at = ended;
          })
          h.syncs;
    published = h.published ++ (scope, good) ∷ [];
  }

  -- journalGuardrails, with what it hands on
  unfoldable pub journal_lines : AzureHub F → List (GuardrailEvent F) → AzureHub F
  journal_lines h [] = h
  journal_lines h (e ∷ es) =
      let done = journal_guardrails h.journal (e ∷ es) in
      record h {
        journal = done.0;
        notified = h.notified ++ done.1;
        published = h.published ++ ("guardrails", true) ∷ [];
      }

-- resourceNames
unfoldable pub resource_names : List AzureResource → List (String × String)
resource_names [] = []
resource_names (r ∷ rs) =
    let rest = resource_names rs in
    elim (lookup String_discrete r.id rest) [ none ↦ (r.id, r.name) ∷ rest | some n ↦ rest ]

abbrev pub name_or_empty : Option String → String
name_or_empty none = ""
name_or_empty (some n) = n

-- parseHostID
unfoldable pub parse_host_id : (String → Option ℕ) → Option String → Option ℕ
parse_host_id parse_int none = none
parse_host_id parse_int (some s) = elim (parse_int s) [
  | none ↦ none
  | some n ↦ if ltb 0 n then some n else none
]

-- Whether a resource is the hub's own VM whose agent is silent.
unfoldable pub is_silent_vm : (String → Option ℕ) → List HostRow → Time → ℤ → Resource → Bool
is_silent_vm parse_int hosts now silent_days r =
    if text_eq (name_or_empty (lookup String_discrete "createdBy" r.tags)) "ServersMonitor"
    then elim (parse_host_id parse_int (lookup String_discrete "smHostId" r.tags)) [
      | none ↦ false
      | some id ↦ elim (host_by_id hosts id) [
        | none ↦ false
        | some host ↦ hub_vm_silent host.status host.last_seen now silent_days
      ]
    ]
    else false

-- The loop of evaluateOrphans behind the reads.
unfoldable pub add_silent_vms :
    (String → Option ℕ)
    → List HostRow
    → Time
    → ℤ
    → List Resource
    → List (String × String)
    → List (String × String)
add_silent_vms parse_int hosts now silent_days [] reasons = reasons
add_silent_vms parse_int hosts now silent_days (r ∷ rs) reasons =
    add_silent_vms parse_int hosts now silent_days rs (
      if is_silent_vm parse_int hosts now silent_days r
      then insert String_discrete r.id "hub_vm_silent" reasons
      else reasons)

-- The readings of the clock in syncAzureInventory and journalOrphans, in their order.
pub record SweepClock : Type 0 where
  pub started : Time
  -- the inventory is read
  pub read_at : Time
  -- its outcome is recorded
  pub inventory_ended : Time
  pub orphans_started : Time
  -- the outcome of the orphan pass is recorded
  pub orphans_ended : Time
  pub journaled_at : Time

-- The row that syncAzureInventory makes of a resource.
unfoldable pub to_row : Time → Resource → AzureResource
to_row now r = record {
  id = r.id;
  arm_id = r.arm_id;
  name = r.name;
  type = r.type;
  resource_group = r.resource_group;
  location = r.location;
  kind = r.kind;
  sku = r.sku;
  state = r.state;
  provisioning_state = r.provisioning_state;
  host = r.host;
  tags = r.tags;
  first_seen = now;
  last_seen = now;
  deleted_at = none;
  orphan_reason = "";
  orphan_since = none;
}

unfoldable pub currencies_of : {F : Type 0} → List (AzureCost F) → List String → ℕ
currencies_of [] seen = length seen
currencies_of (c ∷ cs) seen =
    currencies_of cs (elim (lookup String_discrete c.currency (map (λ s. (s, s)) seen)) [
      | none ↦ c.currency ∷ seen
      | some s ↦ seen
    ])

-- The greatest date of a figure; `asof` starts at the zero time.
unfoldable pub latest_as_of : {F : Type 0} → List (AzureCost F) → Time → Time
latest_as_of [] as_of = as_of
latest_as_of (c ∷ cs) as_of = latest_as_of cs (if after c.as_of as_of then c.as_of else as_of)

-- ListAzureCosts, in some order
unfoldable pub of_period : {F : Type 0} → String → List (AzureCost F) → List (AzureCost F)
of_period period [] = []
of_period period (c ∷ cs) =
    let rest = of_period period cs in if text_eq c.period period then c ∷ rest else rest

module _ (fl : Float) where
  open fl use {F, add, of_int}

  -- journalOrphans
  unfoldable pub journal_orphans : AzureHub F → List (String × String) → Time → AzureHub F
  journal_orphans h reasons now =
      let h' = record h { resources = set_azure_orphans h.resources reasons now } in
      journal_lines h' (
        orphans fl (record {
          now = now;
          reasons = reasons;
          names = resource_names h'.resources;
          last = last_guardrail_event_per_key h.journal.rows;
        }))

  -- The part of syncAzureInventory behind the inventory.
  unfoldable pub orphan_pass :
      AzureHub F → Option (List (String × String)) → String → SweepClock → AzureHub F
  orphan_pass h none msg clock =
      record_azure_sync h "orphans" false msg clock.orphans_started clock.orphans_ended
  orphan_pass h (some reasons) msg clock =
      journal_orphans
        (record_azure_sync h "orphans" true "" clock.orphans_started clock.orphans_ended) reasons
        clock.journaled_at

  unfoldable pub store_inventory :
      (String → String) → AzureHub F → List String → List Resource → SweepClock → AzureHub F
  store_inventory fold h groups rs clock =
      record_azure_sync
        (record h {
          resources =
              replace_azure_inventory fold h.resources groups (map (to_row clock.read_at) rs)
                clock.read_at;
        })
        "inventory" true "" clock.started clock.inventory_ended

  -- syncAzureInventory of a hub that has a client: `reasons` is what evaluateOrphans answers to the
  -- resources read, none for an error; the messages are those of the errors.
  unfoldable pub sync_azure_inventory :
      (String → String)
      → AzureHub F
      → List String
      → Swept (List Resource)
      → (List Resource → Option (List (String × String)))
      → String
      → SweepClock
      → AzureHub F
  sync_azure_inventory fold h groups (ok rs) reasons msg clock =
      orphan_pass (store_inventory fold h groups rs clock) (reasons rs) msg clock
  sync_azure_inventory fold h groups _ reasons msg clock =
      record_azure_sync h "inventory" false msg clock.started clock.inventory_ended

  unfoldable pub spent_of : List (AzureCost F) → F → F
  spent_of [] spent = spent
  spent_of (c ∷ cs) spent = spent_of cs (add spent c.amount)

  -- evaluateBudget
  unfoldable pub evaluate_budget : AzureHub F → String → F → Settings → Time → AzureHub F
  evaluate_budget h period budget_monthly settings now =
      let costs = of_period period h.costs in
      let names = resource_names h.resources in
      let inp : BudgetInput F = record {
        now = now;
        budget = budget_monthly;
        spent = spent_of costs (of_int (pos 0));
        currencies = currencies_of costs [];
        as_of = latest_as_of costs 0;
        rows =
            map
              (λ c. record {
                resource_id = c.resource_id;
                name = name_or_empty (lookup String_discrete c.resource_id names);
                amount = c.amount;
              })
              costs;
        settings = settings;
        last = last_guardrail_event_per_key h.journal.rows;
      } in
      journal_lines h (budget fl inp)

  -- syncAzureCosts of a hub that has a client: the rows read, none for an error; the instants of its
  -- start, of the record of its outcome and of the evaluation of the budget.
  unfoldable pub sync_azure_costs :
      AzureHub F
      → Option (List (AzureCost F))
      → String
      → String
      → F
      → Settings
      → Time
      → Time
      → Time
      → AzureHub F
  sync_azure_costs h none msg period budget_monthly settings started ended evaluated =
      record_azure_sync h "cost" false msg started ended
  sync_azure_costs h (some cs) msg period budget_monthly settings started ended evaluated =
      evaluate_budget
        (record_azure_sync (record h { costs = upsert_azure_costs cs h.costs }) "cost" true ""
          started ended)
        period budget_monthly settings evaluated

-- A request to sweep, which does nothing when one is running.
unfoldable pub go_sync : Flight → Flight
go_sync f = if f.busy then f else record { busy = true; sweeps = suc f.sweeps }

-- The end of a running sweep.
unfoldable pub sync_done : Flight → Flight
sync_done f = record { busy = false; sweeps = f.sweeps - 1 }
