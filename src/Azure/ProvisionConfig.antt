-- ===== src/Azure/ProvisionConfig.antt =====
-- internal/hub/azure/provision_config.go, outbound.go and the checks of provision.go: what a VM's
-- creation needs. url.Parse, net.ParseIP and the case folding of strings are given; the reading of a
-- VNet's body is given as the fields that the code reads.
use Prim.Native.Char.{code}
use Prim.Native.String.{[], ◌∷◌, ◌++◌ as str_append}
use mathlib.Core.List.{List, [] as nil, ◌∷◌ as cons}
use serversmonitor.Prelude.{
  ℕ, suc, Bool, true, false, ◌&&◌, ◌||◌, not, Option, none, some, String, if◌then◌else◌, leb, ◌==◌,
  text_eq,
}
use serversmonitor.Text.{last_segment}
use serversmonitor.Azure.Inventory.{Strings, split_slashes}

pub record ProvisionConfig : Type 0 where
  pub subnet_id : String
  pub hub_url : String
  pub size : String
  pub image : String
  pub admin_user : String
  pub ssh_key : String

abbrev pub default_vm_size : String
default_vm_size = "Standard_B2ats_v2"

abbrev pub default_vm_image : String
default_vm_image = "Canonical:ubuntu-24_04-lts:server:latest"

abbrev pub default_admin_user : String
default_admin_user = "azureuser"

abbrev pub setting : (String → Option String) → String → String → String
setting get key def = elim (get key) [ none ↦ def | some v ↦ v ]

-- orDefault
abbrev pub or_default : (String → String) → String → String → String
or_default trim v def = if text_eq (trim v) "" then def else trim v

-- LoadProvisionConfig
unfoldable pub load_provision_config :
    (String → String) → (String → Option String) → ProvisionConfig
load_provision_config trim get = record {
  subnet_id = trim (setting get "azure_provision_subnet_id" "");
  hub_url = trim (setting get "azure_provision_hub_url" "");
  size = or_default trim (setting get "azure_provision_size" "") default_vm_size;
  image = or_default trim (setting get "azure_provision_image" "") default_vm_image;
  admin_user = or_default trim (setting get "azure_provision_admin_user" "") default_admin_user;
  ssh_key = trim (setting get "azure_provision_ssh_key" "");
}

pub record SubnetParts : Type 0 where
  pub subscription : String
  pub resource_group : String
  pub vnet : String
  pub subnet : String
  pub vnet_id : String

-- `strings.TrimPrefix(s, "/")`
abbrev pub trim_prefix_slash : String → String
trim_prefix_slash [] = ""
trim_prefix_slash (c ∷ s) = if text_eq (c ∷ "") "/" then s else c ∷ s

abbrev pub vnet_path :
    String → String → String → String → String → String → String → String → String
vnet_path p0 p1 p2 p3 p4 p5 p6 p7 = str_append "/" (
    str_append p0 (
      str_append "/" (
        str_append p1 (
          str_append "/" (
            str_append p2 (
              str_append "/" (
                str_append p3 (
                  str_append "/" (
                    str_append p4 (
                      str_append "/" (
                        str_append p5
                          (str_append "/" (str_append p6 (str_append "/" p7))))))))))))))

-- The parts of an id, when there are ten of them.
unfoldable pub subnet_parts : Strings → List String → Option SubnetParts
subnet_parts text
      (cons p0 (
        cons p1
          (cons p2 (cons p3 (cons p4 (cons p5 (cons p6 (cons p7 (cons p8 (cons p9 nil)))))))))) =
    if text.equal_fold p0 "subscriptions"
      && text.equal_fold p2 "resourceGroups"
      && text.equal_fold p4 "providers"
      && text.equal_fold p5 "Microsoft.Network"
      && text.equal_fold p6 "virtualNetworks"
      && text.equal_fold p8 "subnets"
      && not (text_eq p1 "" || text_eq p3 "" || text_eq p7 "" || text_eq p9 "")
    then some (record {
      subscription = p1;
      resource_group = p3;
      vnet = p7;
      subnet = p9;
      vnet_id = vnet_path p0 p1 p2 p3 p4 p5 p6 p7;
    })
    else none
subnet_parts text _ = none

-- ParseSubnetID
unfoldable pub parse_subnet_id : Strings → String → Option SubnetParts
parse_subnet_id text id =
    let parts = split_slashes (trim_prefix_slash (text.trim_space id)) in
    subnet_parts text (cons parts.0 parts.1)

-- What url.Parse and net.ParseIP say of a hub address.
pub record HubUrl : Type 0 where
  pub host : String
  pub scheme : String
  pub hostname : String

abbrev pub has_suffix : String → String → Bool
has_suffix s suffix = text_eq s suffix || ends_with s suffix
  where
    ends_with : String → String → Bool
    ends_with [] suffix = false
    ends_with (c ∷ s) suffix = text_eq s suffix || ends_with s suffix

-- checkHubURL: whether a VM could reach the address.
unfoldable pub check_hub_url :
    (String → Option HubUrl) → (String → Bool) → (String → String) → String → Bool
check_hub_url parse is_loopback to_lower raw = elim (parse raw) [
  | none ↦ false
  | some u ↦
      let host = to_lower u.hostname in
      not (text_eq u.host "")
      && (text_eq u.scheme "http" || text_eq u.scheme "https")
      && not (text_eq host "localhost" || has_suffix host ".localhost")
      && not (is_loopback host)
]

pub data Missing : Type 0 where
  no_subnet bad_subnet no_hub_url bad_hub_url no_size no_image no_admin_user no_ssh_key : Missing

abbrev pub missing_if : Bool → Missing → List Missing → List Missing
missing_if true m rest = cons m rest
missing_if false m rest = rest

abbrev pub is_none : {A : Type 0} → Option A → Bool
is_none none = true
is_none (some a) = false

-- Ready: everything that is missing, in the order in which it is named; nil when nothing is.
unfoldable pub ready : Strings → (String → Bool) → ProvisionConfig → List Missing
ready text reachable c =
    let no_id = text_eq c.subnet_id "" in
    let no_url = text_eq c.hub_url "" in
    missing_if no_id no_subnet (
      missing_if (not no_id && is_none (parse_subnet_id text c.subnet_id)) bad_subnet (
        missing_if no_url no_hub_url (
          missing_if (not no_url && not (reachable c.hub_url)) bad_hub_url (
            missing_if (text_eq c.size "") no_size (
              missing_if (text_eq c.image "") no_image (
                missing_if (text_eq c.admin_user "") no_admin_user
                  (missing_if (text_eq c.ssh_key "") no_ssh_key nil)))))))

abbrev pub is_name_char : ℕ → Bool
is_name_char r =
    (leb 97 r && leb r 122)
    || (leb 65 r && leb r 90)
    || (leb 48 r && leb r 57)
    || (r == 45)
    || (r == 95)
    || (r == 46)

unfoldable pub all_name_chars : String → Bool
all_name_chars [] = true
all_name_chars (c ∷ s) = is_name_char (code c) && all_name_chars s

-- len(name); a character outside ASCII counts once here, and is refused all the same.
unfoldable pub text_length : String → ℕ
text_length [] = 0
text_length (c ∷ s) = suc (text_length s)

-- ValidateVMName
unfoldable pub validate_vm_name : String → Bool
validate_vm_name name =
    not (text_eq name "")
    && leb (text_length name) 64
    && all_name_chars name
    && not (has_suffix name "-" || has_suffix name ".")

-- `strings.Split(s, ":")`, as its first part and the others
unfoldable pub split_colons : String → String × List String
split_colons [] = ("", nil)
split_colons (c ∷ s) =
    let rest = split_colons s in
    if text_eq (c ∷ "") ":" then ("", cons rest.0 rest.1) else (c ∷ rest.0, rest.1)

pub record Image : Type 0 where
  pub publisher : String
  pub offer : String
  pub sku : String
  pub version : String

unfoldable pub image_parts : List String → Option Image
image_parts (cons p (cons o (cons s (cons v nil)))) =
    if text_eq p "" || text_eq o "" || text_eq s "" || text_eq v ""
    then none
    else some (record { publisher = p; offer = o; sku = s; version = v })
image_parts _ = none

-- parseImage
unfoldable pub parse_image : (String → String) → String → Option Image
parse_image trim s = let parts = split_colons (trim s) in image_parts (cons parts.0 parts.1)

pub data Outbound : Type 0 where
  nat default_access legacy no_access unlisted unreadable : Outbound
  -- the name of the route table
  route_table : String → Outbound

-- Reaches
unfoldable pub reaches : Outbound → Bool
reaches nat = true
reaches default_access = true
reaches legacy = true
reaches _ = false

-- What the code reads of a subnet in its VNet: the ids of its gateway and its route table, empty when
-- there is none, and the flag of the default access.
pub record SubnetProperties : Type 0 where
  pub id : String
  pub nat_gateway : String
  pub route_table_id : String
  pub default_outbound_access : Option Bool

unfoldable pub subnet_access : SubnetProperties → Outbound
subnet_access p =
    if not (text_eq p.nat_gateway "")
    then nat
    else if not (text_eq p.route_table_id "")
    then route_table (last_segment p.route_table_id)
    else elim p.default_outbound_access [
      | none ↦ legacy
      | some b ↦ if b then default_access else no_access
    ]

unfoldable pub find_subnet : (String → String → Bool) → List SubnetProperties → String → Outbound
find_subnet equal_fold nil id = unlisted
find_subnet equal_fold (cons s ss) id =
    let rest = find_subnet equal_fold ss id in if equal_fold s.id id then subnet_access s else rest

-- SubnetOutbound, of a body that parses or not
unfoldable pub subnet_outbound :
    (String → String → Bool) → Option (List SubnetProperties) → String → Outbound
subnet_outbound equal_fold none id = unreadable
subnet_outbound equal_fold (some ss) id = find_subnet equal_fold ss id
