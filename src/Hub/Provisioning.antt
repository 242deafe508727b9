-- ===== src/Hub/Provisioning.antt =====
-- internal/hub/azure_provision.go: the creation of a machine and the deletion of what it left, with the
-- tables. Azure's answers are given; the database's writes are taken to succeed.
use serversmonitor.Prelude.{
  ℕ, Bool, true, false, Option, none, some, List, [], ◌∷◌, ◌++◌, String, if◌then◌else◌, text_eq,
  map, ◌&&◌,
}
use serversmonitor.Time.{Time}
use serversmonitor.Store.Hosts.{HostRow, create_host}
use serversmonitor.Store.Rows.{Host}
use serversmonitor.Store.Provisions.{
  ProvisionTables, ProvisionStatus, ProvisionResource, accepted, provision_in_flight, succeeded,
  failed, start_azure_provision, mark_azure_provision_running, record_azure_provision_resource,
  set_azure_provision_outbound, finish_azure_provision, interrupt_azure_provisions,
  mark_azure_provision_resource_deleted, set_azure_provision_host, set_azure_provision_delete_error,
  provision_by_id, left_of,
}
use serversmonitor.Azure.Inventory.{Strings}
use serversmonitor.Azure.ProvisionConfig.{
  ProvisionConfig, SubnetParts, Missing, Outbound, ready, parse_subnet_id, validate_vm_name,
}
use serversmonitor.Azure.Provision.{Created, CreateRun, CreateError}
use serversmonitor.Azure.Delete.{Deletable, DeleteRun, DeleteError}
use serversmonitor.Hub.AzureSync.{AzureConfig}

-- The part of the hub's state that provisioning changes.
pub record ProvisionHub : Type 0 where
  pub hosts : List HostRow
  pub provisions : ProvisionTables
  -- the ids of the runs whose change was published
  pub published : List ℕ

pub data Refused : Type 0 where
  azure_off bad_name bad_subnet outside_scope in_flight name_taken no_such_provision wrong_name :
      Refused
  missing : List Missing → Refused

pub data StartOutcome : Type 0 where
  started : ℕ → Host → ProvisionHub → StartOutcome
  -- refused, with the state that it leaves
  start_refused : Refused → ProvisionHub → StartOutcome

unfoldable pub watches : (String → String → Bool) → List String → String → Bool
watches equal_fold [] group = false
watches equal_fold (g ∷ gs) group =
    let rest = watches equal_fold gs group in if equal_fold g group then true else rest

-- withinScope
unfoldable pub within_scope : (String → String → Bool) → AzureConfig → SubnetParts → Bool
within_scope equal_fold cfg parts =
    equal_fold parts.subscription cfg.subscription_id
    && watches equal_fold cfg.resource_groups parts.resource_group

-- finishProvision
unfoldable pub finish_provision : ProvisionHub → ℕ → ProvisionStatus → String → Time → ProvisionHub
finish_provision h id status msg now = record h {
  provisions = finish_azure_provision h.provisions id status msg now;
  published = h.published ++ id ∷ [];
}

-- StartProvision from the insertion of the run's row on; `taken_msg` is the error of CreateHost.
unfoldable pub open_run :
    (String → String) → ProvisionHub → String → String → String → Time → StartOutcome
open_run hash h name token taken_msg now = elim (start_azure_provision h.provisions name none now) [
  | provision_in_flight ↦ start_refused in_flight h
  | accepted id t ↦
      let h' = record h { provisions = t } in
      elim (create_host hash h.hosts name token now) [
        | none ↦ start_refused name_taken (finish_provision h' id failed taken_msg now)
        | some (rows, host) ↦
            started id host
              (record h' { hosts = rows; provisions = set_azure_provision_host t id host.id })
      ]
]

-- StartProvision, of a hub whose Azure client is there or not
unfoldable pub start_provision :
    Strings
    → (String → Bool)
    → (String → String)
    → ProvisionHub
    → Option AzureConfig
    → ProvisionConfig
    → String
    → String
    → String
    → Time
    → StartOutcome
start_provision text reachable hash h none p name token taken_msg now = start_refused azure_off h
start_provision text reachable hash h (some cfg) p name token taken_msg now =
    let name = text.trim_space name in
    if validate_vm_name name
    then elim (ready text reachable p) [
      | m ∷ ms ↦ start_refused (missing (m ∷ ms)) h
      | [] ↦ elim (parse_subnet_id text p.subnet_id) [
        | none ↦ start_refused bad_subnet h
        | some parts ↦
            if within_scope text.equal_fold cfg parts
            then open_run hash h name token taken_msg now
            else start_refused outside_scope h
      ]
    ]
    else start_refused bad_name h

unfoldable pub record_all : ProvisionTables → ℕ → List Created → Time → ProvisionTables
record_all t id [] now = t
record_all t id (c ∷ cs) now =
    record_all (record_azure_provision_resource t id c.arm_id c.kind now) id cs now

abbrev pub with_outbound :
    (Outbound → String × String) → ProvisionTables → ℕ → Option Outbound → ProvisionTables
with_outbound text t id none = t
with_outbound text t id (some o) = set_azure_provision_outbound t id (text o).0 (text o).1

-- runProvision, for a run of CreateVM; `outbound_text` is the state and the sentence of a subnet.
unfoldable pub run_provision :
    (Outbound → String × String)
    → (CreateError → String)
    → ProvisionHub
    → ℕ
    → CreateRun
    → Time
    → ProvisionHub
run_provision outbound_text message h id run now =
    let t =
      with_outbound outbound_text (mark_azure_provision_running h.provisions id) id run.outbound in
    let h' = record h { provisions = record_all t id run.recorded now } in
    elim run.error [
      | some e ↦ finish_provision h' id failed (message e) now
      | none ↦ finish_provision h' id succeeded "" now
    ]

-- interruptProvisions
unfoldable pub interrupt_provisions : ProvisionHub → Time → ProvisionHub
interrupt_provisions h now = record h {
  provisions = (interrupt_azure_provisions h.provisions now).0;
}

pub data DeleteStart : Type 0 where
  delete_refused : Refused → DeleteStart
  nothing_left : DeleteStart
  deleting : List Deletable → ProvisionHub → DeleteStart

unfoldable pub deletable_of : ProvisionResource → Deletable
deletable_of r = record { arm_id = r.arm_id; kind = r.kind }

-- DeleteProvision: the resources that the deletion is started for.
unfoldable pub delete_provision : (String → String) → ProvisionHub → Bool → ℕ → String → DeleteStart
delete_provision trim h azure_ready id confirm_name =
    if azure_ready
    then elim (provision_by_id h.provisions.rows id) [
      | none ↦ delete_refused no_such_provision
      | some p ↦
          if text_eq (trim confirm_name) p.name
          then elim (left_of h.provisions id) [
            | [] ↦ nothing_left
            | r ∷ rs ↦
                deleting (map deletable_of (r ∷ rs))
                  (record h { provisions = set_azure_provision_delete_error h.provisions id "" })
          ]
          else delete_refused wrong_name
    ]
    else delete_refused azure_off

unfoldable pub mark_all : ProvisionTables → List String → Time → ProvisionTables
mark_all t [] now = t
mark_all t (id ∷ ids) now = mark_all (mark_azure_provision_resource_deleted t id now) ids now

-- runDeleteProvision, for a run of DeleteCreated
unfoldable pub run_delete_provision :
    (DeleteError → String) → ProvisionHub → ℕ → DeleteRun → Time → ProvisionHub
run_delete_provision message h id run now =
    let t = mark_all h.provisions run.recorded now in
    record h {
      provisions = elim run.error [
        | none ↦ t
        | some e ↦ set_azure_provision_delete_error t id (message e)
      ];
      published = h.published ++ id ∷ [];
    }
