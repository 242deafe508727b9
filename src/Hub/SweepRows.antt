-- ===== src/Hub/SweepRows.antt =====
-- internal/hub/azure_sync.go, syncAzureInventory: a whole sync, seen from one resource.
use mathlib.Core.Option
use serversmonitor.Prelude.{
  ◌≡◌, refl, ap, ◌∙◌, true, false, Option, none, some, List, [], ◌∷◌, String, map, lookup,
  UniqueKeys, String_discrete, if◌then◌else◌, arith,
}
use serversmonitor.Time.{Time}
use serversmonitor.Float.{Float}
use serversmonitor.Store.Rows.{GuardrailEvent}
use serversmonitor.Store.Inventory.{AzureResource, resource_by_id}
use serversmonitor.Store.Sweep.{
  last_with_id, after_sync, verdict, replace_azure_inventory-after_sync, set_azure_orphans-verdict,
}
use serversmonitor.Azure.Inventory.{Resource, Swept, ok, no_group, list_error, entry_unparsed}
use serversmonitor.Hub.AzureSync.{
  AzureHub, SweepClock, Flight, go_sync, sync_done, record_azure_sync, journal_lines,
  journal_orphans, orphan_pass, store_inventory, sync_azure_inventory, to_row,
}

-- What an orphan pass makes of a row: an aborted one nothing.
abbrev pub after_orphans :
    Time → String → Option (List (String × String)) → Option AzureResource → Option AzureResource
after_orphans now id none row = row
after_orphans now id (some reasons) row =
    Option.map (verdict now (lookup String_discrete id reasons)) row

-- A resource as a sync saw it.
abbrev pub seen_row : Time → Resource → AzureResource
seen_row at r = record {
  id = r.id;
  arm_id = r.arm_id;
  name = r.name;
  type = r.type;
  resource_group = r.resource_group;
  location = r.location;
  kind = r.kind;
  sku = r.sku;
  state = r.state;
  provisioning_state = r.provisioning_state;
  host = r.host;
  tags = r.tags;
  first_seen = at;
  last_seen = at;
  deleted_at = none;
  orphan_reason = "";
  orphan_since = none;
}

-- What a whole sync makes of the row of an id.
abbrev pub after_sweep :
    (String → String)
    → List String
    → SweepClock
    → String
    → Swept (List Resource)
    → (List Resource → Option (List (String × String)))
    → Option AzureResource
    → Option AzureResource
after_sweep fold groups clock id (ok rs) reasons row =
    after_orphans clock.journaled_at id (reasons rs)
      (after_sync fold groups clock.read_at (last_with_id (map (seen_row clock.read_at) rs) id) row)
after_sweep fold groups clock id _ reasons row = row

-- The verdicts of a pass, when it has any, name no resource twice.
abbrev pub UniqueVerdicts : Option (List (String × String)) → Type 0
UniqueVerdicts none = Unit
UniqueVerdicts (some reasons) = UniqueKeys String_discrete reasons

journal_lines-resources :
    {F : Type 0} (h : AzureHub F) (es : List (GuardrailEvent F))
    → (journal_lines h es).resources ≡ h.resources
unfolding journal_lines
journal_lines-resources h [] = refl
journal_lines-resources h (e ∷ es) = refl

module _ (fl : Float) where
  open fl use {F}

  orphan_pass-rows :
      (h : AzureHub F) (reasons : Option (List (String × String))) (msg : String)
      (clock : SweepClock) (id : String)
      → UniqueVerdicts reasons
      → resource_by_id (orphan_pass fl h reasons msg clock).resources id
        ≡ after_orphans clock.journaled_at id reasons (resource_by_id h.resources id)
  unfolding orphan_pass journal_orphans record_azure_sync
  orphan_pass-rows h none msg clock id u = refl
  orphan_pass-rows h (some reasons) msg clock id u =
      ap (λ rs. resource_by_id rs id) (journal_lines-resources _ _)
      ∙ set_azure_orphans-verdict h.resources reasons clock.journaled_at id u

  -- After a sync, whose orphan pass names no resource twice, each resource is as the specification of
  -- the two passes says of it alone: what the sync saw is alive as it was seen, with its first sight;
  -- what it covered and did not see is deleted; an orphan has its reason since it first had it, and no
  -- other resource that is alive has one. A sync whose inventory failed changes no resource; one whose
  -- orphan pass failed keeps the old verdicts.
  pub sync_azure_inventory-after_sweep :
      (fold : String → String) (h : AzureHub F) (groups : List String)
      (swept : Swept (List Resource)) (reasons : List Resource → Option (List (String × String)))
      (msg : String) (clock : SweepClock) (id : String)
      → ((rs : List Resource) → UniqueVerdicts (reasons rs))
      → resource_by_id (sync_azure_inventory fl fold h groups swept reasons msg clock).resources id
        ≡ after_sweep fold groups clock id swept reasons (resource_by_id h.resources id)
  unfolding sync_azure_inventory store_inventory record_azure_sync to_row
  sync_azure_inventory-after_sweep fold h groups (ok rs) reasons msg clock id u =
      orphan_pass-rows (store_inventory fl fold h groups rs clock) (reasons rs) msg clock id (u rs)
      ∙ ap (after_orphans clock.journaled_at id (reasons rs)) (
          replace_azure_inventory-after_sync fold h.resources groups
            (map (seen_row clock.read_at) rs) clock.read_at id)
  sync_azure_inventory-after_sweep fold h groups no_group reasons msg clock id u = refl
  sync_azure_inventory-after_sweep fold h groups list_error reasons msg clock id u = refl
  sync_azure_inventory-after_sweep fold h groups entry_unparsed reasons msg clock id u = refl

-- The flights that requests and ends lead to; only a running sweep ends.
pub data Flies : Flight → Type 0 where
  idle : Flies (record { busy = false; sweeps = 0 })
  asked : {f : Flight} → Flies f → Flies (go_sync f)
  landed : {f : Flight} → f.busy ≡ true → Flies f → Flies (sync_done f)

-- However often a sweep is asked for, no two of them run at once.
pub Flies-one_sweep : {f : Flight} → Flies f → f.sweeps ≡ (if f.busy then 1 else 0)
unfolding go_sync sync_done
Flies-one_sweep idle = refl
Flies-one_sweep (asked {f = f} h) = ground (arith, Flies-one_sweep h)
Flies-one_sweep (landed {f = f} b h) = ground (arith, b, Flies-one_sweep h)
