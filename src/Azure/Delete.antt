-- ===== src/Azure/Delete.antt =====
-- internal/hub/azure/delete.go: what the hub deletes in Azure, and in which order. What Azure answers
-- to a read, and to a DELETE after those sent before it, is given, and so is whether a deletion could be
-- recorded; `fold` is strings.ToLower.
use serversmonitor.Prelude.{
  ℕ, Bool, true, false, Option, none, some, List, [], ◌∷◌, ◌++◌, String, if◌then◌else◌, leb,
  text_eq, ◌||◌,
}

pub record Deletable : Type 0 where
  pub arm_id : String
  pub kind : String

pub data DeleteError : Type 0 where
  not_ours unreadable not_an_object unknown_kind undeletable_kind delete_failed await_failed
        record_failed :
      DeleteError

-- KindOf: the short kind, and whether the hub's roles can delete it.
unfoldable pub kind_of : (String → String) → String → String × Bool
kind_of fold type =
    let t = fold type in
    if text_eq t "microsoft.compute/virtualmachines"
    then ("vm", true)
    else if text_eq t "microsoft.network/networkinterfaces"
    then ("nic", true)
    else if text_eq t "microsoft.compute/disks"
    then ("disk", true)
    else if text_eq t "microsoft.web/serverfarms"
    then ("plan", true)
    else if text_eq t "microsoft.network/publicipaddresses"
    then ("ip", false)
    else ("", false)

-- apiVersionFor: whether a version is known for the kind.
unfoldable pub has_api_version : (String → String) → String → Bool
has_api_version fold kind =
    let k = fold kind in text_eq k "vm" || text_eq k "nic" || text_eq k "disk" || text_eq k "plan"

-- What a GET answers: 404, another error, a body that is no object, or the value of the tag `createdBy`.
pub data Read : Type 0 where
  read_missing read_failed read_unparsed : Read
  read_tag : Option String → Read

-- What a DELETE answers: 404, another error, or a response, and whether the wait for its end succeeds.
pub data Deleted : Type 0 where
  delete_missing delete_refused : Deleted
  delete_accepted : Bool → Deleted

abbrev pub created_by_value : String
created_by_value = "ServersMonitor"

abbrev pub tag_is_ours : Option String → Bool
tag_is_ours none = false
tag_is_ours (some v) = text_eq v created_by_value

-- ours, when the kind has a version: none when the deletion may go on.
abbrev pub ours_of : Read → Option DeleteError
ours_of read_missing = none
ours_of read_failed = some unreadable
ours_of read_unparsed = some not_an_object
ours_of (read_tag v) = if tag_is_ours v then none else some not_ours

-- deleteOrder: an unknown kind has the zero value.
abbrev pub delete_order : String → ℕ
delete_order kind = if text_eq kind "nic" then 1 else 0

-- sort.SliceStable: each goes behind those that are not greater.
unfoldable pub insert_ordered : Deletable → List Deletable → List Deletable
insert_ordered r [] = r ∷ []
insert_ordered r (s ∷ rs) =
    let rest = insert_ordered r rs in
    if leb (delete_order r.kind) (delete_order s.kind) then r ∷ s ∷ rs else s ∷ rest

unfoldable pub in_order : List Deletable → List Deletable
in_order [] = []
in_order (r ∷ rs) = insert_ordered r (in_order rs)

-- The DELETEs sent, the deletions recorded, both in order, and the error that ended the run, if any.
pub record DeleteRun : Type 0 where
  pub sent : List String
  pub recorded : List String
  pub error : Option DeleteError

abbrev pub stopped : List String → List String → DeleteError → DeleteRun
stopped sent recorded e = record { sent = sent; recorded = recorded; error = some e }

module _ (fold : String → String) (read : String → Read) (delete : List String → String → Deleted)
    (can_record : String → Bool) where
  unfoldable pub ours : Deletable → Option DeleteError
  ours r = if has_api_version fold r.kind then ours_of (read r.arm_id) else some unknown_kind

  -- The first loop of DeleteCreated.
  unfoldable pub check_all : List Deletable → Option DeleteError
  check_all [] = none
  check_all (r ∷ rs) = elim (ours r) [ some e ↦ some e | none ↦ check_all rs ]

  -- The second loop, after the DELETEs sent and the deletions recorded.
  unfoldable pub delete_all : List Deletable → List String → List String → DeleteRun
  delete_all [] sent recorded = record { sent = sent; recorded = recorded; error = none }
  delete_all (r ∷ rs) sent recorded =
      let sent' = sent ++ r.arm_id ∷ [] in
      let rest = delete_all rs sent' (recorded ++ r.arm_id ∷ []) in
      let record_it = if can_record r.arm_id then rest else stopped sent' recorded record_failed in
      if has_api_version fold r.kind
      then elim (delete sent r.arm_id) [
        | delete_missing ↦ record_it
        | delete_refused ↦ stopped sent' recorded delete_failed
        | delete_accepted true ↦ record_it
        | delete_accepted false ↦ stopped sent' recorded await_failed
      ]
      else stopped sent recorded unknown_kind

  -- DeleteCreated
  unfoldable pub delete_created : List Deletable → DeleteRun
  delete_created rs = elim (check_all (in_order rs)) [
    | some e ↦ stopped [] [] e
    | none ↦ delete_all (in_order rs) [] []
  ]

  -- DeleteAny: none when the resource is gone.
  unfoldable pub delete_any : String → String → Option DeleteError
  delete_any arm_id kind =
      if (text_eq kind "ip" || text_eq kind "")
      then some undeletable_kind
      else if has_api_version fold kind
      then elim (delete [] arm_id) [
        | delete_missing ↦ none
        | delete_refused ↦ some delete_failed
        | delete_accepted true ↦ none
        | delete_accepted false ↦ some await_failed
      ]
      else some unknown_kind
