-- ===== src/Azure/Provision.antt =====
-- internal/hub/azure/provision.go, CreateVM: the calls that create a machine, in their order. What Azure
-- answers is given: the read of the network, and how each PUT ends; and so is whether a resource that
-- landed could be recorded. CloudInit and the bodies of the PUTs are not modelled.
use Prim.Native.String.{◌++◌ as str_append}
use serversmonitor.Prelude.{
  Bool, Option, none, some, List, [], ◌∷◌, ◌++◌, String, if◌then◌else◌, text_eq,
}
use serversmonitor.Azure.Inventory.{Strings}
use serversmonitor.Azure.ProvisionConfig.{
  ProvisionConfig, SubnetParts, Outbound, Missing, ready, parse_subnet_id, parse_image,
}

pub record Created : Type 0 where
  pub arm_id : String
  pub kind : String

pub data CreateError : Type 0 where
  not_ready : List Missing → CreateError
  no_name bad_subnet_id bad_image no_cloud_init network_unread put_failed : CreateError
  await_failed not_recorded : CreateError

-- How put ends: the PUT is refused; it is accepted, but its end is not read as a success, so that the
-- resource may be there; or it is done.
pub data Put : Type 0 where
  put_refused put_unfinished put_done : Put

-- What a run of CreateVM does: what it reports of the subnet, the PUTs that are done, one that was
-- accepted and not seen done, the resources recorded, and how it ends.
pub record CreateRun : Type 0 where
  pub outbound : Option Outbound
  pub landed : List Created
  pub unfinished : Option Created
  pub recorded : List Created
  pub error : Option CreateError

abbrev pub refused_run : CreateError → CreateRun
refused_run e = record {
  outbound = none;
  landed = [];
  unfinished = none;
  recorded = [];
  error = some e;
}

abbrev pub group_path : SubnetParts → String
group_path p =
    str_append "/subscriptions/"
      (str_append p.subscription (str_append "/resourceGroups/" p.resource_group))

unfoldable pub nic_of : SubnetParts → String → Created
nic_of p name = record {
  arm_id =
      str_append (group_path p)
        (str_append "/providers/Microsoft.Network/networkInterfaces/" (str_append name "-nic"));
  kind = "nic";
}

unfoldable pub vm_of : SubnetParts → String → Created
vm_of p name = record {
  arm_id =
      str_append (group_path p) (str_append "/providers/Microsoft.Compute/virtualMachines/" name);
  kind = "vm";
}

-- put sends one create and waits for its end; `can_record` is onCreated.
module _ (put : Created → Put) (can_record : Created → Bool) where
  -- The creation of resources in turn, with what landed and was recorded before.
  unfoldable pub create_all : Outbound → List Created → List Created → List Created → CreateRun
  create_all o [] landed recorded = record {
    outbound = some o;
    landed = landed;
    unfinished = none;
    recorded = recorded;
    error = none;
  }
  create_all o (c ∷ cs) landed recorded =
      let landed' = landed ++ c ∷ [] in
      let rest = create_all o cs landed' (recorded ++ c ∷ []) in
      elim (put c) [
        | put_refused ↦ record {
          outbound = some o;
          landed = landed;
          unfinished = none;
          recorded = recorded;
          error = some put_failed;
        }
        | put_unfinished ↦ record {
          outbound = some o;
          landed = landed;
          unfinished = some c;
          recorded = recorded;
          error = some await_failed;
        }
        | put_done ↦ if can_record c then rest else record {
          outbound = some o;
          landed = landed';
          unfinished = none;
          recorded = recorded;
          error = some not_recorded;
        }
      ]

  -- CreateVM; `network` is readVNet, none for an error, and `cloud_init` says whether CloudInit succeeds.
  unfoldable pub create_vm :
      Strings
      → (String → Bool)
      → ProvisionConfig
      → String
      → Bool
      → (SubnetParts → Option Outbound)
      → CreateRun
  create_vm text reachable p name cloud_init network = elim (ready text reachable p) [
    | m ∷ ms ↦ refused_run (not_ready (m ∷ ms))
    | [] ↦
        if text_eq (text.trim_space name) ""
        then refused_run no_name
        else elim (parse_subnet_id text p.subnet_id) [
          | none ↦ refused_run bad_subnet_id
          | some parts ↦ elim (parse_image text.trim_space p.image) [
            | none ↦ refused_run bad_image
            | some image ↦
                if cloud_init
                then elim (network parts) [
                  | none ↦ refused_run network_unread
                  | some o ↦ create_all o (nic_of parts name ∷ vm_of parts name ∷ []) [] []
                ]
                else refused_run no_cloud_init
          ]
        ]
  ]
