-- ===== src/Store/Provisions.antt =====
-- internal/hub/store/azure_provisions.go: the runs that create machines and the resources that they left.
-- The partial unique index of the table refuses a second pending or running row of one name.
use serversmonitor.Prelude.{
  ℕ, suc, Bool, true, false, ◌&&◌, ◌||◌, not, ltb, take, Option, none, some, List, [], ◌∷◌, ◌++◌,
  String, if◌then◌else◌, ◌==◌, text_eq, map, keep_if,
}
use serversmonitor.Time.{Time}
use serversmonitor.Store.Stamps.{stamp_lt}

pub data ProvisionStatus : Type 0 where
  pending running succeeded failed interrupted : ProvisionStatus

pub record AzureProvision : Type 0 where
  pub id : ℕ
  pub name : String
  pub host_id : Option ℕ
  pub status : ProvisionStatus
  pub requested_at : Time
  pub finished_at : Option Time
  pub error : String
  pub delete_error : String
  pub outbound : String
  pub outbound_detail : String

-- A row of azure_provision_resources.
pub record ProvisionResource : Type 0 where
  pub id : ℕ
  pub provision_id : ℕ
  pub arm_id : String
  pub kind : String
  pub created_at : Time
  pub deleted_at : Option Time

pub record ProvisionTables : Type 0 where
  pub rows : List AzureProvision
  pub next_id : ℕ
  pub resources : List ProvisionResource
  pub next_resource_id : ℕ

pub data ProvisionStart : Type 0 where
  accepted : ℕ → ProvisionTables → ProvisionStart
  provision_in_flight : ProvisionStart

abbrev pub is_open : ProvisionStatus → Bool
is_open pending = true
is_open running = true
is_open _ = false

-- The number of pending or running rows of a name.
unfoldable pub in_flight : String → List AzureProvision → ℕ
in_flight name [] = 0
in_flight name (p ∷ rows) =
    let rest = in_flight name rows in
    if is_open p.status && text_eq p.name name then suc rest else rest

-- StartAzureProvision
unfoldable pub start_azure_provision : ProvisionTables → String → Option ℕ → Time → ProvisionStart
start_azure_provision t name host_id now =
    if in_flight name t.rows == 0
    then accepted t.next_id (record t {
      rows =
          t.rows
          ++ record {
            id = t.next_id;
            name = name;
            host_id = host_id;
            status = pending;
            requested_at = now;
            finished_at = none;
            error = "";
            delete_error = "";
            outbound = "";
            outbound_detail = "";
          }
            ∷ [];
      next_id = suc t.next_id;
    })
    else provision_in_flight

unfoldable pub update_provision :
    (AzureProvision → AzureProvision) → ProvisionTables → ℕ → ProvisionTables
update_provision f t id = record t { rows = map (λ p. if p.id == id then f p else p) t.rows }

abbrev pub as_running : ProvisionStatus → ProvisionStatus
as_running pending = running
as_running s = s

-- MarkAzureProvisionRunning
unfoldable pub mark_azure_provision_running : ProvisionTables → ℕ → ProvisionTables
mark_azure_provision_running t id =
    update_provision (λ p. record p { status = as_running p.status }) t id

-- RecordAzureProvisionResource
unfoldable pub record_azure_provision_resource :
    ProvisionTables → ℕ → String → String → Time → ProvisionTables
record_azure_provision_resource t provision_id arm_id kind now = record t {
  resources =
      t.resources
      ++ record {
        id = t.next_resource_id;
        provision_id = provision_id;
        arm_id = arm_id;
        kind = kind;
        created_at = now;
        deleted_at = none;
      }
        ∷ [];
  next_resource_id = suc t.next_resource_id;
}

-- SetAzureProvisionOutbound
unfoldable pub set_azure_provision_outbound :
    ProvisionTables → ℕ → String → String → ProvisionTables
set_azure_provision_outbound t id state detail =
    update_provision (λ p. record p { outbound = state; outbound_detail = detail }) t id

-- FinishAzureProvision
unfoldable pub finish_azure_provision :
    ProvisionTables → ℕ → ProvisionStatus → String → Time → ProvisionTables
finish_azure_provision t id status err_msg now =
    update_provision (λ p. record p { status = status; error = err_msg; finished_at = some now }) t
      id

unfoldable pub open_provisions : List AzureProvision → ℕ
open_provisions [] = 0
open_provisions (p ∷ rows) =
    let rest = open_provisions rows in if is_open p.status then suc rest else rest

abbrev pub interrupted_at : Time → AzureProvision → AzureProvision
interrupted_at now p =
    if is_open p.status then record p { status = interrupted; finished_at = some now } else p

-- InterruptAzureProvisions: the tables, and the number of rows closed.
unfoldable pub interrupt_azure_provisions : ProvisionTables → Time → ProvisionTables × ℕ
interrupt_azure_provisions t now =
    (record t { rows = map (interrupted_at now) t.rows }, open_provisions t.rows)

abbrev pub gone_at : Time → ProvisionResource → ProvisionResource
gone_at now r = elim r.deleted_at [ none ↦ record r { deleted_at = some now } | some t ↦ r ]

-- MarkAzureProvisionResourceDeleted
unfoldable pub mark_azure_provision_resource_deleted :
    ProvisionTables → String → Time → ProvisionTables
mark_azure_provision_resource_deleted t arm_id now = record t {
  resources = map (λ r. if text_eq r.arm_id arm_id then gone_at now r else r) t.resources;
}

-- SetAzureProvisionHost
unfoldable pub set_azure_provision_host : ProvisionTables → ℕ → ℕ → ProvisionTables
set_azure_provision_host t id host_id =
    update_provision (λ p. record p { host_id = some host_id }) t id

-- SetAzureProvisionDeleteError
unfoldable pub set_azure_provision_delete_error : ProvisionTables → ℕ → String → ProvisionTables
set_azure_provision_delete_error t id msg =
    update_provision (λ p. record p { delete_error = msg }) t id

-- `ORDER BY requested_at DESC, id DESC`, the instants as texts
unfoldable pub is_newer : AzureProvision → AzureProvision → Bool
is_newer p q =
    stamp_lt q.requested_at p.requested_at
    || (not (stamp_lt p.requested_at q.requested_at) && ltb q.id p.id)

unfoldable pub insert_newest : AzureProvision → List AzureProvision → List AzureProvision
insert_newest p [] = p ∷ []
insert_newest p (q ∷ rows) =
    let rest = insert_newest p rows in if is_newer q p then q ∷ rest else p ∷ q ∷ rows

unfoldable pub newest_first : List AzureProvision → List AzureProvision
newest_first [] = []
newest_first (p ∷ rows) = insert_newest p (newest_first rows)

-- The runs of ListAzureProvisions, for a limit that is positive.
unfoldable pub list_azure_provisions : List AzureProvision → ℕ → List AzureProvision
list_azure_provisions rows limit = take limit (newest_first rows)

unfoldable pub with_id : List AzureProvision → ℕ → Option AzureProvision
with_id [] id = none
with_id (p ∷ rows) id = let rest = with_id rows id in if p.id == id then some p else rest

-- AzureProvision
unfoldable pub provision_by_id : List AzureProvision → ℕ → Option AzureProvision
provision_by_id rows id = with_id (list_azure_provisions rows 1000) id

abbrev pub is_left : ℕ → ProvisionResource → Bool
is_left id r = (r.provision_id == id) && elim r.deleted_at [ none ↦ true | some t ↦ false ]

-- The resources of a run that are not marked deleted.
unfoldable pub left_of : ProvisionTables → ℕ → List ProvisionResource
left_of t id = keep_if (is_left id) t.resources
