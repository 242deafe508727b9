-- ===== src/Store/Sweep.antt =====
-- internal/hub/store/azure.go: what a sync and an orphan pass make of each resource.
use serversmonitor.Prelude.{
  ℕ, ◌≡◌, refl, ap, ◌∙◌, false, Option, none, some, List, [], ◌∷◌, String, if◌then◌else◌, text_eq,
  map, arith, String_discrete, Bool-cases, inl, inr, lookup, UniqueKeys,
}
use serversmonitor.Prelude.{◌&&◌, text_eq_yes, text_eq_no, if_pos, if_neg, subst}
use mathlib.Core.Option
use serversmonitor.Time.{Time}
use serversmonitor.Store.Stamps.{stamp_lt, bytes_lt, fraction_text}
use serversmonitor.Store.Inventory.{
  AzureResource, resource_by_id, upserted, upsert_resource, upsert_resources, swept,
  replace_azure_inventory, cleared, since_of, with_orphan, set_orphan, set_orphans,
  set_azure_orphans, in_groups,
}

-- The last of what a sync saw with an id.
unfoldable pub last_with_id : List AzureResource → String → Option AzureResource
last_with_id [] id = none
last_with_id (r ∷ rs) id = elim (last_with_id rs id) [
  | some q ↦ some q
  | none ↦ if text_eq r.id id then some r else none
]

abbrev merge : Time → Option AzureResource → Option AzureResource → Option AzureResource
merge now none old = old
merge now (some r) old = some (upserted now r old)

upsert_resource-by_id :
    (now : Time) (r : AzureResource) (rows : List AzureResource) (id : String)
    → resource_by_id (upsert_resource now r rows) id ≡ (
        if text_eq r.id id
        then some (upserted now r (resource_by_id rows id))
        else resource_by_id rows id)
unfolding resource_by_id upsert_resource upserted String_discrete
upsert_resource-by_id now r [] id = ground arith
upsert_resource-by_id now r (old ∷ rows) id = ground (arith, upsert_resource-by_id now r rows id)

upsert_resources-by_id :
    (now : Time) (rs rows : List AzureResource) (id : String)
    → resource_by_id (upsert_resources now rs rows) id
      ≡ merge now (last_with_id rs id) (resource_by_id rows id)
unfolding upsert_resources last_with_id upserted String_discrete
upsert_resources-by_id now [] rows id = refl
upsert_resources-by_id now (r ∷ rs) rows id = ground (
  arith,
  upsert_resources-by_id now rs (upsert_resource now r rows) id,
  upsert_resource-by_id now r rows id,
)

bytes_lt_irrefl : (xs : List ℕ) → bytes_lt xs xs ≡ false
unfolding bytes_lt
bytes_lt_irrefl [] = refl
bytes_lt_irrefl (x ∷ xs) = ground (arith, bytes_lt_irrefl xs)

stamp_lt_irrefl : (t : Time) → stamp_lt t t ≡ false
unfolding stamp_lt
stamp_lt_irrefl t = ground (arith, bytes_lt_irrefl (fraction_text t))

-- What a map over the rows that keeps their ids makes of one row.
map-by_id :
    (f : AzureResource → AzureResource) (rows : List AzureResource) (id : String)
    → ((r : AzureResource) → (f r).id ≡ r.id)
    → resource_by_id (map f rows) id ≡ Option.map f (resource_by_id rows id)
unfolding resource_by_id
map-by_id f [] id keeps = refl
map-by_id f (r ∷ rows) id keeps = elim (Bool-cases (text_eq r.id id)) [
  | inl e ↦ rw (ap (λ s. text_eq s id) (keeps r) ∙ e, e) refl
  | inr e ↦ rw (ap (λ s. text_eq s id) (keeps r) ∙ e, e) (map-by_id f rows id keeps)
]

swept-id :
    (fold : String → String) (groups : List String) (now : Time) (r : AzureResource)
    → (swept fold groups now r).id ≡ r.id
unfolding swept
swept-id fold groups now r = ground arith

swept-upserted :
    (fold : String → String) (groups : List String) (now : Time) (r : AzureResource)
    (old : Option AzureResource)
    → swept fold groups now (upserted now r old) ≡ upserted now r old
unfolding swept upserted
swept-upserted fold groups now r none = ground (arith, stamp_lt_irrefl now)
swept-upserted fold groups now r (some o) = ground (arith, stamp_lt_irrefl now)

-- When a resource counts as deleted after a sync that did not see it: since then, if it was before, and
-- since now, if it was alive, last seen earlier and in a group that the sync read.
abbrev pub gone_at : (String → String) → List String → Time → AzureResource → Option Time
gone_at fold groups now r = elim r.deleted_at [
  | some t ↦ some t
  | none ↦
      if stamp_lt r.last_seen now && in_groups fold groups r.resource_group then some now else none
]

-- What is kept of the row that a seen resource had before.
abbrev pub first_sight : Time → Option AzureResource → Time
first_sight now none = now
first_sight now (some o) = o.first_seen

abbrev pub old_verdict : Option AzureResource → String × Option Time
old_verdict none = ("", none)
old_verdict (some o) = (o.orphan_reason, o.orphan_since)

-- What a successful sync makes of the row of an id: of a resource that it saw, the new row, alive, with
-- the old first sight and orphan verdict; of any other, the old row, deleted as gone_at says.
abbrev pub after_sync :
    (String → String)
    → List String
    → Time
    → Option AzureResource
    → Option AzureResource
    → Option AzureResource
after_sync fold groups now (some r) old = some (record r {
  first_seen = first_sight now old;
  last_seen = now;
  deleted_at = none;
  orphan_reason = (old_verdict old).0;
  orphan_since = (old_verdict old).1;
})
after_sync fold groups now none none = none
after_sync fold groups now none (some r) =
    some (record r { deleted_at = gone_at fold groups now r })

swept-gone_at :
    (fold : String → String) (groups : List String) (now : Time) (r : AzureResource)
    → swept fold groups now r ≡ record r { deleted_at = gone_at fold groups now r }
unfolding swept
swept-gone_at fold groups now r = ground arith

upserted-after_sync :
    (fold : String → String) (groups : List String) (now : Time) (r : AzureResource)
    (old : Option AzureResource)
    → some (upserted now r old) ≡ after_sync fold groups now (some r) old
unfolding upserted
upserted-after_sync fold groups now r none = refl
upserted-after_sync fold groups now r (some o) = refl

-- A sync leaves each resource as after_sync says: what it saw is alive, and only what it covered and
-- did not see is marked deleted.
pub replace_azure_inventory-after_sync :
    (fold : String → String) (rows : List AzureResource) (groups : List String)
    (rs : List AzureResource) (now : Time) (id : String)
    → resource_by_id (replace_azure_inventory fold rows groups rs now) id
      ≡ after_sync fold groups now (last_with_id rs id) (resource_by_id rows id)
unfolding replace_azure_inventory
replace_azure_inventory-after_sync fold rows groups rs now id =
    map-by_id (swept fold groups now) (upsert_resources now rs rows) id (swept-id fold groups now)
    ∙ ap (Option.map (swept fold groups now)) (upsert_resources-by_id now rs rows id)
    ∙ merged (last_with_id rs id) (resource_by_id rows id)
  where
    merged :
        (seen old : Option AzureResource)
        → Option.map (swept fold groups now) (merge now seen old)
          ≡ after_sync fold groups now seen old
    merged none none = refl
    merged none (some o) = ap some (swept-gone_at fold groups now o)
    merged (some r) old =
        ap some (swept-upserted fold groups now r old) ∙ upserted-after_sync fold groups now r old

set_orphan-by_id :
    (id : String) (reason : String) (since : Time) (rows : List AzureResource) (j : String)
    → resource_by_id (set_orphan id reason since rows) j ≡ (
        if text_eq id j
        then Option.map (with_orphan reason since) (resource_by_id rows j)
        else resource_by_id rows j)
unfolding resource_by_id set_orphan with_orphan String_discrete
set_orphan-by_id id reason since [] j = ground arith
set_orphan-by_id id reason since (r ∷ rows) j =
    ground (arith, set_orphan-by_id id reason since rows j)

-- The row of an id after the reasons of a sweep are applied to it.
abbrev judged :
    Time → Option AzureResource → Option String → Option AzureResource → Option AzureResource
judged now before none row = row
judged now before (some reason) row =
    Option.map (with_orphan reason (since_of now before reason)) row

set_orphans-by_id :
    (before rows : List AzureResource) (now : Time) (reasons : List (String × String)) (j : String)
    → UniqueKeys String_discrete reasons
    → resource_by_id (set_orphans before now reasons rows) j
      ≡ judged now
          (resource_by_id before j)
          (lookup String_discrete j reasons)
          (resource_by_id rows j)
unfolding set_orphans lookup
set_orphans-by_id before rows now [] j u = refl
set_orphans-by_id before rows now ((id, reason) ∷ reasons) j u =
    let since = since_of now (resource_by_id before id) reason in
    let step = set_orphan-by_id id reason since rows j in
    let rest = set_orphans-by_id before (set_orphan id reason since rows) now reasons j u.1 in
    elim (String_discrete id j) [
      | yes e ↦ rw (if_pos (String_discrete id j) e) (
          rest
          ∙ rw (subst (λ k. lookup String_discrete k reasons ≡ none) e u.0)
              (step ∙ rw (text_eq_yes id j e) (rw e refl)))
      | no ne ↦
          rw (if_neg (String_discrete id j) ne) (rest ∙ rw step (rw (text_eq_no id j ne) refl))
    ]

cleared-id : (r : AzureResource) → (cleared r).id ≡ r.id
unfolding cleared
cleared-id r = ground arith

-- An orphan pass gives each resource that it names its reason, since the moment that reason first stood
-- there without a break, clears every other live resource, and leaves the deleted ones.
set_azure_orphans-judged :
    (rows : List AzureResource) (reasons : List (String × String)) (now : Time) (id : String)
    → UniqueKeys String_discrete reasons
    → resource_by_id (set_azure_orphans rows reasons now) id
      ≡ judged now
          (resource_by_id rows id)
          (lookup String_discrete id reasons)
          (Option.map cleared (resource_by_id rows id))
unfolding set_azure_orphans
set_azure_orphans-judged rows reasons now id u =
    set_orphans-by_id rows (map cleared rows) now reasons id u
    ∙ ap (judged now (resource_by_id rows id) (lookup String_discrete id reasons))
        (map-by_id cleared rows id cleared-id)

-- Since when a verdict on a resource stands: without a break since it was given first, if the resource
-- had it already, and since now otherwise.
abbrev pub verdict_since : Time → String → AzureResource → Time
verdict_since now reason r = elim r.orphan_since [
  | none ↦ now
  | some t ↦
      if text_eq r.orphan_reason "" then now else if text_eq r.orphan_reason reason then t else now
]

-- What an orphan pass makes of a resource, by the reason that it found, if any: an orphan has the reason
-- and its instant; another one that is alive has none; a deleted one keeps what it had.
abbrev pub verdict : Time → Option String → AzureResource → AzureResource
verdict now (some reason) r = record r {
  orphan_reason = reason;
  orphan_since = some (verdict_since now reason r);
}
verdict now none r = elim r.deleted_at [
  | some t ↦ r
  | none ↦ record r { orphan_reason = ""; orphan_since = none }
]

judged-verdict :
    (now : Time) (row : Option AzureResource) (reason : Option String)
    → judged now row reason (Option.map cleared row) ≡ Option.map (verdict now reason) row
unfolding cleared since_of with_orphan
judged-verdict now none none = refl
judged-verdict now none (some reason) = refl
judged-verdict now (some r) none = ground arith
judged-verdict now (some r) (some reason) = ground arith

-- After an orphan pass each resource has the verdict that its reason gives.
pub set_azure_orphans-verdict :
    (rows : List AzureResource) (reasons : List (String × String)) (now : Time) (id : String)
    → UniqueKeys String_discrete reasons
    → resource_by_id (set_azure_orphans rows reasons now) id
      ≡ Option.map (verdict now (lookup String_discrete id reasons)) (resource_by_id rows id)
set_azure_orphans-verdict rows reasons now id u =
    set_azure_orphans-judged rows reasons now id u
    ∙ judged-verdict now (resource_by_id rows id) (lookup String_discrete id reasons)
