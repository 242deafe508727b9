-- ===== src/Azure/Catalogue.antt =====
-- internal/hub/azure/inventory.go, Inventory: an inventory that is given is the whole catalogue.
use mathlib.Core.List.{append_assoc, append-nil}
use serversmonitor.Prelude.{
  ◌≡◌, refl, sym, ap, ◌∙◌, subst, Option, none, some, List, [], ◌∷◌, ◌++◌, String, map, All,
  All-append, lookup, insert, lookup-insert_self, lookup-insert_ne, String_discrete, Option-cases,
  inl, inr,
}
use serversmonitor.Azure.Client.{Listed, listed, list_failed, list_unreadable, too_many_pages}
use serversmonitor.Azure.Inventory.{
  Strings, Resource, ArmResource, normalize_id, catalogued, enriched, Found, Swept, ok,
  catalogue_entries, enrich, enrichment_entries, and_then, entries_of, enrichment_paths,
  enrichment_passes, sweep_group, sweep_groups, in_listed_order, inventory,
}
use serversmonitor.Azure.GivenLists.{and_then-ok, Given, group_lists, sweep_groups-Given}

-- Each row stands under its own id.
abbrev Keyed : List (String × Resource) → Type 0
Keyed m = (k : String) (r : Resource) → lookup String_discrete k m ≡ some r → r.id ≡ k

abbrev Has : List (String × Resource) → String → Type 0
Has m k = (r : Resource) × (lookup String_discrete k m ≡ some r)

abbrev IsComplete : Found → Type 0
IsComplete f = Keyed f.by_id × All (Has f.by_id) f.order

insert-Keyed :
    (m : List (String × Resource)) (r : Resource) (k : String)
    → r.id ≡ k
    → Keyed m
    → Keyed (insert String_discrete k r m)
insert-Keyed m r k e h j q l = elim (String_discrete k j) [
  | yes p ↦ let self = lookup-insert_self String_discrete k r m in cc (p, self, l, e)
  | no ne ↦ h j q (sym (lookup-insert_ne String_discrete k j r m ne) ∙ l)
]

insert-Has :
    (m : List (String × Resource)) (r : Resource) (k j : String)
    → Has m j
    → Has (insert String_discrete k r m) j
insert-Has m r k j h = elim (String_discrete k j) [
  | yes p ↦ (
    r,
    ap (λ i. lookup String_discrete i (insert String_discrete k r m)) (sym p)
        ∙ lookup-insert_self String_discrete k r m,
  )
  | no ne ↦ (h.0, lookup-insert_ne String_discrete k j r m ne ∙ h.1)
]

All-Has :
    (m : List (String × Resource)) (r : Resource) (k : String) (ids : List String)
    → All (Has m) ids
    → All (Has (insert String_discrete k r m)) ids
All-Has m r k [] h = tt
All-Has m r k (j ∷ js) h = (insert-Has m r k j h.0, All-Has m r k js h.1)

in_listed_order-ids :
    (m : List (String × Resource)) (ids : List String)
    → Keyed m
    → All (Has m) ids
    → map (λ r. r.id) (in_listed_order m ids) ≡ ids
unfolding in_listed_order
in_listed_order-ids m [] k h = refl
in_listed_order-ids m (j ∷ js) k h =
    let own = k j h.0.0 h.0.1 in
    let rest = in_listed_order-ids m js k h.1 in rw (in_listed_order, h.0.1) (cc (own, rest))

-- The ids of the entries that parse.
unfoldable pub entry_ids : Strings → List (Option ArmResource) → List String
entry_ids text [] = []
entry_ids text (none ∷ es) = entry_ids text es
entry_ids text (some a ∷ es) = normalize_id text a.id ∷ entry_ids text es

-- What a step that succeeds makes of complete rows, with the ids that it lists.
abbrev Lists : List String → Found → Swept Found → Type 0
Lists ids f out = (f' : Found) → out ≡ ok f' → IsComplete f' × (f'.order ≡ f.order ++ ids)

unchanged :
    (f f' : Found) → ok f ≡ ok f' → IsComplete f → IsComplete f' × (f'.order ≡ f.order ++ [])
unchanged f f' e c =
    subst (λ (g : Found). IsComplete g × (g.order ≡ f.order ++ [])) (cc e)
      (c, sym (append-nil f.order))

catalogue_entries-Lists :
    (text : Strings) (g : String) (es : List (Option ArmResource)) (f : Found)
    → IsComplete f
    → Lists (entry_ids text es) f (catalogue_entries text g es f)
unfolding catalogue_entries entry_ids catalogued
catalogue_entries-Lists text g [] f c f' e = unchanged f f' e c
catalogue_entries-Lists text g (none ∷ es) f c f' e = absurd (cc e)
catalogue_entries-Lists text g (some a ∷ es) f c f' e =
    let id = normalize_id text a.id in
    let row = catalogued text g a in
    let known =
      All-append (Has (insert String_discrete id row f.by_id)) f.order (id ∷ [])
        (All-Has f.by_id row id f.order c.1)
        ((row, lookup-insert_self String_discrete id row f.by_id), tt) in
    let rest =
      catalogue_entries-Lists text g es _ (insert-Keyed f.by_id row id refl c.0, known) f' e in
    (rest.0, rest.1 ∙ append_assoc f.order (id ∷ []) (entry_ids text es))

enrich-IsComplete :
    (text : Strings) (a : ArmResource) (f : Found)
    → IsComplete f
    → IsComplete (enrich text a f) × ((enrich text a f).order ≡ f.order)
unfolding enriched
enrich-IsComplete text a f c =
    let id = normalize_id text a.id in
    elim (Option-cases (lookup String_discrete id f.by_id)) [
      | inl n ↦ rw (enrich, n) (c, refl)
      | inr (r, n) ↦
          rw (enrich, n)
            (
              (
                insert-Keyed f.by_id (enriched a r) id (c.0 id r n) c.0,
                All-Has f.by_id (enriched a r) id f.order c.1,
              ),
              refl,
            )
    ]

enrichment_entries-Lists :
    (text : Strings) (es : List (Option ArmResource)) (f : Found)
    → IsComplete f
    → Lists [] f (enrichment_entries text es f)
unfolding enrichment_entries
enrichment_entries-Lists text [] f c f' e = unchanged f f' e c
enrichment_entries-Lists text (none ∷ es) f c f' e = absurd (cc e)
enrichment_entries-Lists text (some a ∷ es) f c f' e =
    let one = enrich-IsComplete text a f c in
    let rest = enrichment_entries-Lists text es (enrich text a f) one.0 f' e in
    (rest.0, rest.1 ∙ ap (λ l. l ++ []) one.1)

and_then-Lists :
    (xs ys : List String) (f : Found) (first : Swept Found) (next : Found → Swept Found)
    → IsComplete f
    → Lists xs f first
    → ((g : Found) → IsComplete g → Lists ys g (next g))
    → Lists (xs ++ ys) f (and_then first next)
and_then-Lists xs ys f first next c h k f' e =
    let parts = and_then-ok first next f' e in
    let one = h parts.0 parts.1 in
    let two = k parts.0 one.0 f' parts.2 in
    (two.0, two.1 ∙ ap (λ l. l ++ ys) one.1 ∙ append_assoc f.order xs ys)

-- The ids of a list that is given.
abbrev pub ids_listed : Strings → Listed (Option ArmResource) → List String
ids_listed text (listed es) = entry_ids text es
ids_listed text _ = []

entries_of-Lists :
    (l : Listed (Option ArmResource)) (f : Found) (next : List (Option ArmResource) → Swept Found)
    (ids : List String)
    → ((es : List (Option ArmResource)) → l ≡ listed es → Lists ids f (next es))
    → Lists ids f (entries_of l next)
entries_of-Lists (listed es) f next ids h f' e = h es refl f' e
entries_of-Lists list_failed f next ids h f' e = absurd (cc e)
entries_of-Lists list_unreadable f next ids h f' e = absurd (cc e)
entries_of-Lists too_many_pages f next ids h f' e = absurd (cc e)

module _ (text : Strings) (get_all : String → String → Listed (Option ArmResource)) where
  -- The ids that the catalogue lists, group by group.
  unfoldable pub catalogue_ids : List String → List String
  catalogue_ids [] = []
  catalogue_ids (g ∷ gs) = ids_listed text (get_all g "/resources") ++ catalogue_ids gs

  enrichment_passes-Lists :
      (g : String) (paths : List String) (f : Found)
      → IsComplete f
      → Lists [] f (enrichment_passes text get_all g paths f)
  unfolding enrichment_passes
  enrichment_passes-Lists g [] f c f' e = unchanged f f' e c
  enrichment_passes-Lists g (path ∷ paths) f c f' e =
      and_then-Lists [] [] f _ (enrichment_passes text get_all g paths) c
        (entries_of-Lists (get_all g path) f (λ es. enrichment_entries text es f) []
          (λ es l. enrichment_entries-Lists text es f c))
        (λ h d. enrichment_passes-Lists g paths h d) f' e

  sweep_group-Lists :
      (g : String) (f : Found)
      → IsComplete f
      → Lists (ids_listed text (get_all g "/resources")) f (sweep_group text get_all g f)
  unfolding sweep_group
  sweep_group-Lists g f c =
      let l = get_all g "/resources" in
      subst (λ xs. Lists xs f (sweep_group text get_all g f)) (append-nil (ids_listed text l))
        (and_then-Lists (ids_listed text l) [] f _
          (enrichment_passes text get_all g enrichment_paths) c
          (entries_of-Lists l f (λ es. catalogue_entries text g es f) (ids_listed text l)
            (λ es e.
              subst (λ k. Lists (ids_listed text k) f (catalogue_entries text g es f)) (sym e)
                (catalogue_entries-Lists text g es f c)))
          (λ h d. enrichment_passes-Lists g enrichment_paths h d))

  sweep_groups-Lists :
      (gs : List String) (f : Found)
      → IsComplete f
      → Lists (catalogue_ids gs) f (sweep_groups text get_all gs f)
  unfolding sweep_groups catalogue_ids
  sweep_groups-Lists [] f c f' e = unchanged f f' e c
  sweep_groups-Lists (g ∷ gs) f c f' e =
      and_then-Lists (ids_listed text (get_all g "/resources")) (catalogue_ids gs) f _
        (sweep_groups text get_all gs) c (sweep_group-Lists g f c)
        (λ h d. sweep_groups-Lists gs h d) f' e

  -- An inventory that is given has exactly the resources that the catalogue lists, group by group and in
  -- its order: the typed passes only fill in what stands there. And every list of every group, of the
  -- catalogue and of the two typed passes, was then given to its end with no entry that does not parse:
  -- a failed list makes no inventory, in place of a short one.
  pub inventory-catalogue_ids :
      (gs : List String) (rs : List Resource)
      → inventory text get_all gs ≡ ok rs
      → (map (λ r. r.id) rs ≡ catalogue_ids gs)
        × All (λ g. All (λ path. Given (get_all g path)) group_lists) gs
  unfolding inventory lookup
  inventory-catalogue_ids [] rs e = absurd (cc e)
  inventory-catalogue_ids (g ∷ gs) rs e =
      let start : Found = record { by_id = []; order = [] } in
      let parts =
        and_then-ok (sweep_groups text get_all (g ∷ gs) start)
          (λ f. ok (in_listed_order f.by_id f.order)) rs e in
      let f = parts.0 in
      let done = sweep_groups-Lists (g ∷ gs) start (empty-Keyed, tt) f parts.1 in
      (
        ap (map (λ r. r.id)) (sym (listed-rs (in_listed_order f.by_id f.order) parts.2))
            ∙ in_listed_order-ids f.by_id f.order done.0.0 done.0.1
            ∙ done.1,
        sweep_groups-Given text get_all (g ∷ gs) start f parts.1,
      )
    where
      empty-Keyed : Keyed []
      empty-Keyed k r l = absurd (cc l)

      listed-rs : (qs : List Resource) → ok qs ≡ ok rs → qs ≡ rs
      listed-rs qs h = cc h
