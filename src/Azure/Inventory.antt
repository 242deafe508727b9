-- ===== src/Azure/Inventory.antt =====
-- internal/hub/azure/inventory.go: the sweep over the configured groups. What each list answers is given,
-- an entry that does not parse as `none`; `text` is the part of package strings that the code uses.
use Prim.Native.String.{[], ◌∷◌}
use mathlib.Core.List.{List, [] as nil, ◌∷◌ as cons, ◌++◌}
use serversmonitor.Prelude.{
  Bool, Option, none, some, String, if◌then◌else◌, text_eq, lookup, insert, String_discrete,
}
use serversmonitor.Azure.Client.{Listed, listed, list_failed, list_unreadable, too_many_pages}

pub record Strings : Type 0 where
  -- strings.TrimSpace, strings.ToLower and strings.EqualFold
  pub trim_space : String → String
  pub to_lower : String → String
  pub equal_fold : String → String → Bool

pub record Resource : Type 0 where
  pub id : String
  pub arm_id : String
  pub name : String
  pub type : String
  pub resource_group : String
  pub location : String
  pub kind : String
  pub sku : String
  pub state : Option String
  pub provisioning_state : String
  pub host : String
  pub tags : List (String × String)

-- armResource; a missing tag map is empty.
pub record ArmResource : Type 0 where
  pub id : String
  pub name : String
  pub type : String
  pub location : String
  pub kind : String
  pub tags : List (String × String)
  pub sku_name : String
  pub state : String
  pub status : String
  pub provisioning_state : String
  pub default_host_name : String

-- NormalizeID
unfoldable pub normalize_id : Strings → String → String
normalize_id text id = text.to_lower (text.trim_space id)

abbrev pub is_slash : String → Bool
is_slash c = text_eq c "/"

-- `strings.Trim(s, "/")`
unfoldable pub trim_left_slashes : String → String
trim_left_slashes [] = ""
trim_left_slashes (c ∷ s) =
    let rest = trim_left_slashes s in if is_slash (c ∷ "") then rest else c ∷ s

unfoldable pub trim_right_slashes : String → String
trim_right_slashes [] = ""
trim_right_slashes (c ∷ s) =
    let rest = trim_right_slashes s in
    if text_eq rest "" then (if is_slash (c ∷ "") then "" else c ∷ "") else c ∷ rest

-- `strings.Split(s, "/")`, as its first part and the others
unfoldable pub split_slashes : String → String × List String
split_slashes [] = ("", nil)
split_slashes (c ∷ s) =
    let rest = split_slashes s in
    if is_slash (c ∷ "") then ("", cons rest.0 rest.1) else (c ∷ rest.0, rest.1)

-- The loop of resourceGroupOf.
unfoldable pub group_after : Strings → List String → String
group_after text nil = ""
group_after text (cons p nil) = ""
group_after text (cons p (cons q ps)) =
    let rest = group_after text (cons q ps) in
    if text.equal_fold p "resourceGroups" then q else rest

-- resourceGroupOf
unfoldable pub resource_group_of : Strings → String → String
resource_group_of text id =
    let parts = split_slashes (trim_right_slashes (trim_left_slashes id)) in
    group_after text (cons parts.0 parts.1)

abbrev pub or_text : String → String → String
or_text new old = if text_eq new "" then old else new

-- The row of a catalogue entry of a group.
unfoldable pub catalogued : Strings → String → ArmResource → Resource
catalogued text g a = record {
  id = normalize_id text a.id;
  arm_id = text.trim_space a.id;
  name = a.name;
  type = a.type;
  resource_group = or_text (resource_group_of text a.id) g;
  location = a.location;
  kind = a.kind;
  sku = a.sku_name;
  state = none;
  provisioning_state = "";
  host = "";
  tags = a.tags;
}

abbrev pub new_state : String → String → Option String → Option String
new_state state status old = let s = or_text state status in if text_eq s "" then old else some s

-- What an entry of a typed list adds to a row.
unfoldable pub enriched : ArmResource → Resource → Resource
enriched a r = record r {
  state = new_state a.state a.status r.state;
  provisioning_state = or_text a.provisioning_state r.provisioning_state;
  host = or_text a.default_host_name r.host;
  sku = or_text a.sku_name r.sku;
  kind = or_text a.kind r.kind;
}

-- byID and order.
pub record Found : Type 0 where
  pub by_id : List (String × Resource)
  pub order : List String

pub data Swept (A : Type 0) : Type 0 where
  ok : A → Swept A
  no_group list_error entry_unparsed : Swept A

unfoldable pub catalogue_entries :
    Strings → String → List (Option ArmResource) → Found → Swept Found
catalogue_entries text g nil f = ok f
catalogue_entries text g (cons none es) f = entry_unparsed
catalogue_entries text g (cons (some a) es) f =
    let id = normalize_id text a.id in
    catalogue_entries text g es (record {
      by_id = insert String_discrete id (catalogued text g a) f.by_id;
      order = f.order ++ cons id nil;
    })

abbrev pub enrich : Strings → ArmResource → Found → Found
enrich text a f =
    let id = normalize_id text a.id in
    elim (lookup String_discrete id f.by_id) [
      | none ↦ f
      | some r ↦ record f { by_id = insert String_discrete id (enriched a r) f.by_id }
    ]

unfoldable pub enrichment_entries : Strings → List (Option ArmResource) → Found → Swept Found
enrichment_entries text nil f = ok f
enrichment_entries text (cons none es) f = entry_unparsed
enrichment_entries text (cons (some a) es) f = enrichment_entries text es (enrich text a f)

abbrev pub and_then : {A B : Type 0} → Swept A → (A → Swept B) → Swept B
and_then (ok a) next = next a
and_then no_group next = no_group
and_then list_error next = list_error
and_then entry_unparsed next = entry_unparsed

abbrev pub entries_of :
    {A : Type 0} → Listed (Option ArmResource) → (List (Option ArmResource) → Swept A) → Swept A
entries_of (listed es) next = next es
entries_of list_failed next = list_error
entries_of list_unreadable next = list_error
entries_of too_many_pages next = list_error

abbrev pub enrichment_paths : List String
enrichment_paths =
    cons "/providers/Microsoft.Web/sites" (cons "/providers/Microsoft.Web/serverfarms" nil)

-- The rows in the order in which the catalogue listed them.
unfoldable pub in_listed_order : List (String × Resource) → List String → List Resource
in_listed_order by_id nil = nil
in_listed_order by_id (cons id ids) =
    let rest = in_listed_order by_id ids in
    elim (lookup String_discrete id by_id) [ none ↦ rest | some r ↦ cons r rest ]

module _ (text : Strings) (get_all : String → String → Listed (Option ArmResource)) where
  -- The enrichment passes of a group; `get_all` has the group and the path under it.
  unfoldable pub enrichment_passes : String → List String → Found → Swept Found
  enrichment_passes g nil f = ok f
  enrichment_passes g (cons path paths) f =
      and_then (entries_of (get_all g path) (λ es. enrichment_entries text es f))
        (enrichment_passes g paths)

  -- The body of the loop over the groups.
  unfoldable pub sweep_group : String → Found → Swept Found
  sweep_group g f =
      and_then (entries_of (get_all g "/resources") (λ es. catalogue_entries text g es f))
        (enrichment_passes g enrichment_paths)

  unfoldable pub sweep_groups : List String → Found → Swept Found
  sweep_groups nil f = ok f
  sweep_groups (cons g gs) f = and_then (sweep_group g f) (sweep_groups gs)

  -- Inventory
  unfoldable pub inventory : List String → Swept (List Resource)
  inventory nil = no_group
  inventory (cons g gs) =
      and_then (sweep_groups (cons g gs) (record { by_id = nil; order = nil }))
        (λ f. ok (in_listed_order f.by_id f.order))
