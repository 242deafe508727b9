-- ===== src/Examples/Sync.antt =====
-- Sweeps of Azure, and machines that the hub creates and deletes.
use serversmonitor.Prelude.{
  ℕ, ◌*◌, ◌≤◌, ◌<◌, ◌≡◌, ◌↔◌, refl, true, false, Option, none, some, List, [], ◌∷◌, String,
  String_discrete, if◌then◌else◌, length, All, map, lookup, text_eq, ◌==◌, arith, insert,
}
use serversmonitor.Store.Inventory.{AzureResource, resource_by_id}
use serversmonitor.Time.{second}
use serversmonitor.Store.Provisions.{
  AzureProvision, ProvisionTables, left_of, in_flight, start_azure_provision, succeeded, pending,
  failed,
}
use serversmonitor.Store.Hosts.{create_host, has_name_or_hash}
use serversmonitor.Azure.Client.{
  Attempt, answered, errored, do_response, retry_throttling_only, Fetched, page, get_all, listed,
  max_pages,
}
use serversmonitor.Azure.Retrying.{do_response_lem, do_response-throttled, Ends}
use serversmonitor.Azure.Paging.{Chain, get_all_lem}
use serversmonitor.Azure.Delete.{
  Deletable, Read, read_tag, Deleted, delete_accepted, delete_created, in_order, check_all,
  delete_all, ours, has_api_version, insert_ordered,
}
use serversmonitor.Azure.Inventory.{
  Strings, Resource, ArmResource, ok, inventory, normalize_id, sweep_groups, sweep_group,
  catalogue_entries, enrichment_passes, enrichment_entries, in_listed_order, catalogued,
  split_slashes, enriched,
}
use serversmonitor.Azure.Catalogue.{inventory-catalogue_ids, catalogue_ids}
use serversmonitor.Azure.GivenLists.{Given, group_lists}
use serversmonitor.Azure.OrphanReads.{Properties}
use serversmonitor.Azure.ProvisionConfig.{
  validate_vm_name, text_length, all_name_chars, ready, ProvisionConfig, SubnetParts, nat,
  parse_subnet_id, subnet_parts,
}
use serversmonitor.Azure.Provision.{put_done, create_vm, nic_of, vm_of}
use serversmonitor.Azure.CreateOrder.{Course, create_vm-Course}
use serversmonitor.Hub.AzureSync.{AzureConfig, AzureHub, SweepClock, to_row, sync_azure_inventory}
use serversmonitor.Hub.SweepRows.{after_sweep, sync_azure_inventory-after_sweep}
use serversmonitor.Hub.Provisioning.{
  ProvisionHub, start_provision, name_taken, open_run, finish_provision, within_scope, watches,
  deletable_of, run_delete_provision,
}
use serversmonitor.Hub.Provisioned.{start_provision-refused}
use serversmonitor.Hub.Removal.{run_delete_provision-none_left}
use serversmonitor.Examples.Data.{cents, web}

as_is : String → String
as_is s = s

abbrev pub plain_text : Strings
plain_text = record { trim_space = λ s. s; to_lower = λ s. s; equal_fold = text_eq }

abbrev disk : Resource
disk = record {
  id = "d";
  arm_id = "d";
  name = "disk";
  type = "microsoft.compute/disks";
  resource_group = "g";
  location = "west";
  kind = "";
  sku = "";
  state = none;
  provisioning_state = "";
  host = "";
  tags = [];
}

abbrev no_hub : AzureHub ℕ
no_hub = record {
  resources = [];
  costs = [];
  syncs = [];
  journal = record { rows = []; next_id = 1 };
  notified = [];
  published = [];
}

abbrev unattached : List Resource → Option (List (String × String))
unattached rs = some (("d", "disk_unattached") ∷ [])

-- The disk was there before, with the same verdict, and one that Azure lists no more.
abbrev old_disk : AzureResource
old_disk = record (to_row 1 disk) {
  first_seen = 1;
  orphan_reason = "disk_unattached";
  orphan_since = some 1;
}

abbrev old_hub : AzureHub ℕ
old_hub = record no_hub { resources = old_disk ∷ record old_disk { id = "e" } ∷ [] }

abbrev sweep_clock : SweepClock
sweep_clock = record {
  started = 70 * second;
  read_at = 71 * second;
  inventory_ended = 72 * second;
  orphans_started = 73 * second;
  orphans_ended = 74 * second;
  journaled_at = 75 * second;
}

sync_azure_inventory-after_sweep_example :
    resource_by_id
      (sync_azure_inventory cents
        (λ s. s)
        old_hub
        ("g" ∷ [])
        (ok (disk ∷ []))
        unattached
        ""
        sweep_clock).resources
      "d"
    ≡ after_sweep
        (λ s. s)
        ("g" ∷ [])
        sweep_clock
        "d"
        (ok (disk ∷ []))
        unattached
        (resource_by_id old_hub.resources "d")
unfolding lookup
sync_azure_inventory-after_sweep_example =
    sync_azure_inventory-after_sweep cents (λ s. s) old_hub ("g" ∷ []) (ok (disk ∷ [])) unattached
      "" sweep_clock "d" (λ rs. (refl, tt))

abbrev throttled : ℕ → Attempt ℕ
throttled n =
    if n == 1
    then errored (record { status = 429; retryable = true; code = ""; message = "" }) 0
    else answered 7

do_response-throttled_example :
    All (λ e. e.status ≡ 429) (do_response retry_throttling_only (λ w. true) throttled 4).retried
do_response-throttled_example = do_response-throttled (λ w. true) throttled 4 (omega arith)

do_response_lem_example :
    Ends retry_throttling_only
      (λ w. true)
      throttled
      1
      (do_response retry_throttling_only (λ w. true) throttled 4).retried
      (do_response retry_throttling_only (λ w. true) throttled 4).outcome
    × (length (do_response retry_throttling_only (λ w. true) throttled 4).retried < 4)
do_response_lem_example =
    do_response_lem retry_throttling_only (λ w. true) throttled 4 (omega arith)

abbrev two_pages : String → Fetched ℕ
two_pages link =
    if text_eq link "a"
    then page (record { value = 1 ∷ []; next_link = "b" })
    else page (record { value = 2 ∷ []; next_link = "" })

get_all_lem_example :
    (get_all two_pages "a" ≡ listed (1 ∷ 2 ∷ []))
    ↔ ((n : ℕ) × Chain two_pages "a" n (1 ∷ 2 ∷ []) × (n ≤ max_pages))
get_all_lem_example = get_all_lem two_pages "a" (1 ∷ 2 ∷ [])

abbrev tagged : String → Read
tagged id = read_tag (some "ServersMonitor")

abbrev goes : List String → String → Deleted
goes sent id = delete_accepted true

abbrev pair : List Deletable
pair = record { arm_id = "n"; kind = "nic" } ∷ record { arm_id = "v"; kind = "vm" } ∷ []

abbrev left_tables : ProvisionTables
left_tables = record {
  rows = [];
  next_id = 2;
  resources =
      record {
        id = 1;
        provision_id = 1;
        arm_id = "n";
        kind = "nic";
        created_at = 0;
        deleted_at = none;
      }
      ∷ [];
  next_resource_id = 2;
}

abbrev left_hub : ProvisionHub
left_hub = record { hosts = []; provisions = left_tables; published = [] }

run_delete_provision-none_left_example :
    left_of
      (run_delete_provision
        (λ e. "")
        left_hub
        1
        (delete_created
          (λ s. s)
          tagged
          goes
          (λ id. true)
          (map deletable_of (left_of left_tables 1)))
        5).provisions
      1
    ≡ []
unfolding left_of deletable_of delete_created check_all delete_all ours has_api_version in_order
    insert_ordered String_discrete
run_delete_provision-none_left_example =
    run_delete_provision-none_left (λ s. s) tagged goes (λ id. true) (λ e. "") left_hub 1 5 refl

abbrev bare : ProvisionConfig
bare = record {
  subnet_id =
      "/subscriptions/s/resourceGroups/g/providers/Microsoft.Network/virtualNetworks/v/subnets/n";
  hub_url = "https://hub";
  size = "B2";
  image = "p:o:s:v";
  admin_user = "a";
  ssh_key = "k";
}

abbrev scope_g : AzureConfig
scope_g = record {
  enabled = true;
  subscription_id = "s";
  resource_groups = "g" ∷ [];
  inventory_every_min = 15;
  cost_every_min = 60;
}

abbrev past_run : AzureProvision
past_run = record {
  id = 1;
  name = "web";
  host_id = none;
  status = succeeded;
  requested_at = 0;
  finished_at = some 1;
  error = "";
  delete_error = "";
  outbound = "";
  outbound_detail = "";
}

abbrev web_hub : ProvisionHub
web_hub = record {
  hosts = record { host = web; token_hash = "a" } ∷ [];
  provisions = record left_tables { rows = past_run ∷ [] };
  published = [];
}

-- The run that was opened is closed again.
abbrev web_hub_after : ProvisionHub
web_hub_after =
    finish_provision
      (record web_hub {
        provisions = record left_tables {
          rows =
              past_run
              ∷ record past_run { id = 2; status = pending; requested_at = 9; finished_at = none }
              ∷ [];
          next_id = 3;
        };
      })
      2 failed "taken" 9

-- The name is that of a host: the run is opened, CreateHost fails, and the run is closed.
start_provision-refused_example :
    (web_hub_after.hosts ≡ web_hub.hosts)
    × (in_flight "web" web_hub_after.provisions.rows ≡ in_flight "web" web_hub.provisions.rows)
unfolding start_provision open_run start_azure_provision in_flight create_host String_discrete
    validate_vm_name text_length all_name_chars ready parse_subnet_id subnet_parts split_slashes
    within_scope watches has_name_or_hash
start_provision-refused_example =
    start_provision-refused plain_text (λ s. true) (λ s. s) web_hub web_hub_after (some scope_g)
      bare "web" "t" "taken" 9 "web" name_taken (omega arith, tt) refl

abbrev parts : SubnetParts
parts = record {
  subscription = "s";
  resource_group = "g";
  vnet = "v";
  subnet = "n";
  vnet_id = "/subscriptions/s/resourceGroups/g/providers/Microsoft.Network/virtualNetworks/v";
}

create_vm-Course_example :
    Course
      (nic_of parts "vm")
      (vm_of parts "vm")
      (create_vm (λ c. put_done) (λ c. true) plain_text (λ s. true) bare "vm" true (λ p. some nat))
unfolding parse_subnet_id subnet_parts split_slashes String_discrete
create_vm-Course_example =
    create_vm-Course (λ c. put_done) (λ c. true) plain_text (λ s. true) bare "vm" true
      (λ p. some nat) parts refl

abbrev site : ArmResource
site = record {
  id = "x";
  name = "site";
  type = "t";
  location = "l";
  kind = "";
  tags = [];
  sku_name = "";
  state = "Running";
  status = "";
  provisioning_state = "";
  default_host_name = "";
}

inventory-catalogue_ids_example :
    (map (λ r. r.id) (enriched site (enriched site (catalogued plain_text "g" site)) ∷ [])
      ≡ catalogue_ids plain_text (λ g path. listed (some site ∷ [])) ("g" ∷ []))
    × All
        (λ (g : String).
          All (λ path. Given ((λ (g path : String). listed (some site ∷ [])) g path)) group_lists)
        ("g" ∷ [])
unfolding inventory sweep_groups sweep_group catalogue_entries enrichment_passes enrichment_entries
    in_listed_order lookup insert String_discrete normalize_id
inventory-catalogue_ids_example =
    inventory-catalogue_ids plain_text (λ g path. listed (some site ∷ [])) ("g" ∷ [])
      (enriched site (enriched site (catalogued plain_text "g" site)) ∷ []) refl

abbrev free_disk : Properties
free_disk = record {
  disk_state = "Unattached";
  has_ip_configuration = false;
  has_virtual_machine = false;
  number_of_sites = none;
}
