-- ===== src/Store/Inventory.antt =====
-- internal/hub/store/azure.go: the Azure resources, their costs and the outcome of each sweep. A table is
-- the list of its rows; each operation is one transaction. `fold` is lower-casing: SQLite's lower for
-- the group of a row, strings.ToLower for a group that was synced.
use serversmonitor.Prelude.{
  Bool, true, false, ◌&&◌, ◌||◌, not, Option, none, some, List, [], ◌∷◌, String, if◌then◌else◌,
  text_eq, map,
}
use serversmonitor.Time.{Time}
use serversmonitor.Store.Stamps.{stamp_lt}

pub record AzureResource : Type 0 where
  pub id : String
  pub arm_id : String
  pub name : String
  pub type : String
  pub resource_group : String
  pub location : String
  pub kind : String
  pub sku : String
  pub state : Option String
  pub provisioning_state : String
  pub host : String
  pub tags : List (String × String)
  pub first_seen : Time
  pub last_seen : Time
  pub deleted_at : Option Time
  pub orphan_reason : String
  pub orphan_since : Option Time

pub record AzureCost (F : Type 0) : Type 0 where
  pub resource_id : String
  pub period : String
  pub amount : F
  pub currency : String
  pub as_of : Time

pub record AzureSync : Type 0 where
  pub scope : String
  pub ok : Bool
  pub message : String
  pub started_at : Time
  pub ended_at : Time

unfoldable pub resource_by_id : List AzureResource → String → Option AzureResource
resource_by_id [] id = none
resource_by_id (r ∷ rows) id =
    let rest = resource_by_id rows id in if text_eq r.id id then some r else rest

-- The row that an upsert leaves, from what the sync saw and the row that was there: first_seen and the
-- orphan columns are the old row's.
unfoldable pub upserted : Time → AzureResource → Option AzureResource → AzureResource
upserted now r none = record r {
  first_seen = now;
  last_seen = now;
  deleted_at = none;
  orphan_reason = "";
  orphan_since = none;
}
upserted now r (some old) = record r {
  first_seen = old.first_seen;
  last_seen = now;
  deleted_at = none;
  orphan_reason = old.orphan_reason;
  orphan_since = old.orphan_since;
}

-- `INSERT INTO azure_resources ... ON CONFLICT(id) DO UPDATE`
unfoldable pub upsert_resource : Time → AzureResource → List AzureResource → List AzureResource
upsert_resource now r [] = upserted now r none ∷ []
upsert_resource now r (old ∷ rows) =
    let rest = upsert_resource now r rows in
    if text_eq old.id r.id then upserted now r (some old) ∷ rows else old ∷ rest

unfoldable pub upsert_resources :
    Time → List AzureResource → List AzureResource → List AzureResource
upsert_resources now [] rows = rows
upsert_resources now (r ∷ rs) rows = upsert_resources now rs (upsert_resource now r rows)

abbrev pub is_live : AzureResource → Bool
is_live r = elim r.deleted_at [ none ↦ true | some t ↦ false ]

unfoldable pub in_groups : (String → String) → List String → String → Bool
in_groups fold [] group = false
in_groups fold (g ∷ gs) group = text_eq (fold group) (fold g) || in_groups fold gs group

-- The sweep's effect on a row.
unfoldable pub swept : (String → String) → List String → Time → AzureResource → AzureResource
swept fold groups now r =
    if is_live r && (stamp_lt r.last_seen now && in_groups fold groups r.resource_group)
    then record r { deleted_at = some now }
    else r

-- ReplaceAzureInventory; with no group, in_groups holds of none, as the sweep is then left out.
unfoldable pub replace_azure_inventory :
    (String → String)
    → List AzureResource
    → List String
    → List AzureResource
    → Time
    → List AzureResource
replace_azure_inventory fold rows groups rs now =
    map (swept fold groups now) (upsert_resources now rs rows)

-- The first statement on the orphan columns: live rows are cleared.
unfoldable pub cleared : AzureResource → AzureResource
cleared r = if is_live r then record r { orphan_reason = ""; orphan_since = none } else r

-- orphan_since, from the row before anything was cleared.
unfoldable pub since_of : Time → Option AzureResource → String → Time
since_of now none reason = now
since_of now (some r) reason =
    if not (text_eq r.orphan_reason "") && text_eq r.orphan_reason reason
    then elim r.orphan_since [ none ↦ now | some t ↦ t ]
    else now

unfoldable pub with_orphan : String → Time → AzureResource → AzureResource
with_orphan reason since r = record r { orphan_reason = reason; orphan_since = some since }

unfoldable pub set_orphan : String → String → Time → List AzureResource → List AzureResource
set_orphan id reason since rows =
    map (λ r. if text_eq r.id id then with_orphan reason since r else r) rows

-- The loop over the reasons; `before` is the table as it was.
unfoldable pub set_orphans :
    List AzureResource → Time → List (String × String) → List AzureResource → List AzureResource
set_orphans before now [] rows = rows
set_orphans before now ((id, reason) ∷ reasons) rows =
    set_orphans before now reasons
      (set_orphan id reason (since_of now (resource_by_id before id) reason) rows)

-- SetAzureOrphans
unfoldable pub set_azure_orphans :
    List AzureResource → List (String × String) → Time → List AzureResource
set_azure_orphans rows reasons now = set_orphans rows now reasons (map cleared rows)

module _ {F : Type 0} where
  -- `INSERT INTO azure_costs ... ON CONFLICT(resource_id, period) DO UPDATE`
  unfoldable pub upsert_cost : AzureCost F → List (AzureCost F) → List (AzureCost F)
  upsert_cost c [] = c ∷ []
  upsert_cost c (d ∷ rows) =
      let rest = upsert_cost c rows in
      if text_eq d.resource_id c.resource_id && text_eq d.period c.period
      then c ∷ rows
      else d ∷ rest

  -- UpsertAzureCosts
  unfoldable pub upsert_azure_costs : List (AzureCost F) → List (AzureCost F) → List (AzureCost F)
  upsert_azure_costs [] rows = rows
  upsert_azure_costs (c ∷ cs) rows = upsert_azure_costs cs (upsert_cost c rows)

-- SetAzureSync
unfoldable pub set_azure_sync : AzureSync → List AzureSync → List AzureSync
set_azure_sync a [] = a ∷ []
set_azure_sync a (b ∷ rows) =
    let rest = set_azure_sync a rows in if text_eq b.scope a.scope then a ∷ rows else b ∷ rest
