-- ===== src/Azure/GivenLists.antt =====
-- internal/hub/azure/inventory.go, Inventory: every list behind an inventory was given and parsed.
use serversmonitor.Prelude.{◌≡◌, refl, ap, Option, none, some, List, [], ◌∷◌, String, map, All}
use serversmonitor.Azure.Client.{Listed, listed, list_failed, list_unreadable, too_many_pages}
use serversmonitor.Azure.Inventory.{
  Strings, ArmResource, Found, Swept, ok, no_group, list_error, entry_unparsed, catalogue_entries,
  enrichment_entries, and_then, entries_of, enrichment_paths, enrichment_passes, sweep_group,
  sweep_groups,
}

-- The first of two steps succeeds when both do.
pub and_then-ok :
    {A B : Type 0} (first : Swept A) (next : A → Swept B) (b : B)
    → and_then first next ≡ ok b
    → (a : A) × (first ≡ ok a) × (next a ≡ ok b)
and_then-ok (ok a) next b e = (a, refl, e)
and_then-ok no_group next b e = absurd (cc e)
and_then-ok list_error next b e = absurd (cc e)
and_then-ok entry_unparsed next b e = absurd (cc e)

-- Every entry parses.
abbrev pub Parsed : List (Option ArmResource) → Type 0
Parsed es = (as_parsed : List ArmResource) × (es ≡ map some as_parsed)

-- The list was given to its end, and every entry of it parses.
abbrev pub Given : Listed (Option ArmResource) → Type 0
Given l = (as_parsed : List ArmResource) × (l ≡ listed (map some as_parsed))

one_more : (a : ArmResource) (es : List (Option ArmResource)) → Parsed es → Parsed (some a ∷ es)
one_more a es h = (a ∷ h.0, ap (λ xs. some a ∷ xs) h.1)

catalogue_entries-Parsed :
    (text : Strings) (g : String) (es : List (Option ArmResource)) (f f' : Found)
    → catalogue_entries text g es f ≡ ok f'
    → Parsed es
unfolding catalogue_entries
catalogue_entries-Parsed text g [] f f' e = ([], refl)
catalogue_entries-Parsed text g (none ∷ es) f f' e = absurd (cc e)
catalogue_entries-Parsed text g (some a ∷ es) f f' e =
    one_more a es (catalogue_entries-Parsed text g es _ f' e)

enrichment_entries-Parsed :
    (text : Strings) (es : List (Option ArmResource)) (f f' : Found)
    → enrichment_entries text es f ≡ ok f'
    → Parsed es
unfolding enrichment_entries
enrichment_entries-Parsed text [] f f' e = ([], refl)
enrichment_entries-Parsed text (none ∷ es) f f' e = absurd (cc e)
enrichment_entries-Parsed text (some a ∷ es) f f' e =
    one_more a es (enrichment_entries-Parsed text es _ f' e)

entries_of-Given :
    (l : Listed (Option ArmResource)) (next : List (Option ArmResource) → Swept Found) (f' : Found)
    → ((es : List (Option ArmResource)) → next es ≡ ok f' → Parsed es)
    → entries_of l next ≡ ok f'
    → Given l
entries_of-Given (listed es) next f' h e = let p = h es e in (p.0, ap listed p.1)
entries_of-Given list_failed next f' h e = absurd (cc e)
entries_of-Given list_unreadable next f' h e = absurd (cc e)
entries_of-Given too_many_pages next f' h e = absurd (cc e)

-- The lists that are read of a group.
abbrev pub group_lists : List String
group_lists =
    "/resources" ∷ "/providers/Microsoft.Web/sites" ∷ "/providers/Microsoft.Web/serverfarms" ∷ []

module _ (text : Strings) (get_all : String → String → Listed (Option ArmResource)) where
  enrichment_passes-Given :
      (g : String) (paths : List String) (f f' : Found)
      → enrichment_passes text get_all g paths f ≡ ok f'
      → All (λ path. Given (get_all g path)) paths
  unfolding enrichment_passes
  enrichment_passes-Given g [] f f' e = tt
  enrichment_passes-Given g (path ∷ paths) f f' e =
      let parts = and_then-ok _ (enrichment_passes text get_all g paths) f' e in
      (
        entries_of-Given (get_all g path) _ parts.0
            (λ es h. enrichment_entries-Parsed text es f parts.0 h) parts.1,
        enrichment_passes-Given g paths parts.0 f' parts.2,
      )

  sweep_group-Given :
      (g : String) (f f' : Found)
      → sweep_group text get_all g f ≡ ok f'
      → All (λ path. Given (get_all g path)) group_lists
  unfolding sweep_group
  sweep_group-Given g f f' e =
      let parts = and_then-ok _ (enrichment_passes text get_all g enrichment_paths) f' e in
      (
        entries_of-Given (get_all g "/resources") _ parts.0
            (λ es h. catalogue_entries-Parsed text g es f parts.0 h) parts.1,
        enrichment_passes-Given g enrichment_paths parts.0 f' parts.2,
      )

  -- The lists of every group of a sweep that succeeds were given.
  pub sweep_groups-Given :
      (gs : List String) (f f' : Found)
      → sweep_groups text get_all gs f ≡ ok f'
      → All (λ g. All (λ path. Given (get_all g path)) group_lists) gs
  unfolding sweep_groups
  sweep_groups-Given [] f f' e = tt
  sweep_groups-Given (g ∷ gs) f f' e =
      let parts = and_then-ok _ (sweep_groups text get_all gs) f' e in
      (sweep_group-Given g f parts.0 parts.1, sweep_groups-Given gs parts.0 f' parts.2)
