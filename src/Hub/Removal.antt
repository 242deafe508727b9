-- ===== src/Hub/Removal.antt =====
-- internal/hub/azure_provision.go with internal/hub/azure/delete.go: the deletion of what a run left, from
-- the request to the record.
use serversmonitor.Prelude.{
  ℕ, ◌≡◌, refl, sym, ap, ◌∙◌, inl, inr, Bool, true, false, not, none, List, [], ◌∷◌, String,
  text_eq, text_eq_yes, String_discrete, if◌then◌else◌, map, keep_if, All, arith,
}
use serversmonitor.Time.{Time}
use serversmonitor.Store.Provisions.{
  ProvisionTables, ProvisionResource, left_of, is_left, gone_at,
  mark_azure_provision_resource_deleted, set_azure_provision_delete_error, update_provision,
}
use serversmonitor.Azure.Delete.{
  Deletable, DeleteError, Read, Deleted, in_order, insert_ordered, delete_created,
}
use serversmonitor.Azure.OnlyOurs.{ids_of, delete_created-recorded}
use serversmonitor.Hub.Provisioning.{ProvisionHub, deletable_of, mark_all, run_delete_provision}

-- Whether an id is in a list.
unfoldable pub names_id : List String → String → Bool
names_id [] id = false
names_id (j ∷ js) id = let rest = names_id js id in if text_eq id j then true else rest

abbrev mark_rows : Time → String → List ProvisionResource → List ProvisionResource
mark_rows now id rs = map (λ r. if text_eq r.arm_id id then gone_at now r else r) rs

left_in : ℕ → List ProvisionResource → List ProvisionResource
left_in run rs = keep_if (is_left run) rs

mark_rows-left :
    (now : Time) (id : String) (run : ℕ) (rs : List ProvisionResource)
    → left_in run (mark_rows now id rs) ≡ keep_if (λ r. not (text_eq r.arm_id id)) (left_in run rs)
unfolding left_in String_discrete
mark_rows-left now id run [] = refl
mark_rows-left now id run (r ∷ rs) = ground (arith, mark_rows-left now id run rs)

keep_if-keep_if :
    (id : String) (ids : List String) (rs : List ProvisionResource)
    → keep_if (λ r. not (names_id ids r.arm_id)) (keep_if (λ r. not (text_eq r.arm_id id)) rs)
      ≡ keep_if (λ r. not (names_id (id ∷ ids) r.arm_id)) rs
unfolding names_id
keep_if-keep_if id ids [] = refl
keep_if-keep_if id ids (r ∷ rs) = ground (arith, keep_if-keep_if id ids rs)

keep_all : (rs : List ProvisionResource) → keep_if (λ r. not (names_id [] r.arm_id)) rs ≡ rs
unfolding names_id
keep_all [] = refl
keep_all (r ∷ rs) = ap (λ l. r ∷ l) (keep_all rs)

mark_all-left :
    (t : ProvisionTables) (ids : List String) (now : Time) (run : ℕ)
    → left_of (mark_all t ids now) run ≡ keep_if (λ r. not (names_id ids r.arm_id)) (left_of t run)
unfolding mark_all left_of mark_azure_provision_resource_deleted left_in
mark_all-left t [] now run = sym (keep_all (left_of t run))
mark_all-left t (id ∷ ids) now run =
    mark_all-left (mark_azure_provision_resource_deleted t id now) ids now run
    ∙ ap (keep_if (λ r. not (names_id ids r.arm_id))) (mark_rows-left now id run t.resources)
    ∙ keep_if-keep_if id ids (left_of t run)

insert_ordered-names :
    (d : Deletable) (ds : List Deletable) (id : String)
    → names_id (ids_of (insert_ordered d ds)) id ≡ names_id (d.arm_id ∷ ids_of ds) id
unfolding insert_ordered names_id
insert_ordered-names d [] id = refl
insert_ordered-names d (e ∷ ds) id = ground (arith, insert_ordered-names d ds id)

in_order-names :
    (ds : List Deletable) (id : String)
    → names_id (ids_of (in_order ds)) id ≡ names_id (ids_of ds) id
unfolding in_order names_id
in_order-names [] id = refl
in_order-names (d ∷ ds) id =
    ground (arith, in_order-names ds id, insert_ordered-names d (in_order ds) id)

each_named :
    (rs qs : List ProvisionResource)
    → All (λ r. names_id (ids_of (map deletable_of qs)) r.arm_id ≡ true) rs
    → keep_if (λ r. not (names_id (ids_of (map deletable_of qs)) r.arm_id)) rs ≡ []
each_named [] qs h = refl
each_named (r ∷ rs) qs h = rw (h.0) (each_named rs qs h.1)

names_self :
    (rs : List ProvisionResource)
    → All (λ r. names_id (ids_of (map deletable_of rs)) r.arm_id ≡ true) rs
unfolding names_id deletable_of
names_self rs = within rs (λ r h. h)
  where
    within :
        (ps : List ProvisionResource)
        → ((id : String)
            → names_id (ids_of (map deletable_of ps)) id ≡ true
            → names_id (ids_of (map deletable_of rs)) id ≡ true)
        → All (λ r. names_id (ids_of (map deletable_of rs)) r.arm_id ≡ true) ps
    within [] h = tt
    within (p ∷ ps) h = (
      h p.arm_id (rw (text_eq_yes p.arm_id p.arm_id refl) refl),
      within ps (λ id e. h id (later id p.arm_id (names_id (ids_of (map deletable_of ps)) id) e)),
    )
      where
        later : (id j : String) (b : Bool) → b ≡ true → (if text_eq id j then true else b) ≡ true
        later id j b e = ground (arith, e)

keep_if-same :
    (ids js : List String) (rs : List ProvisionResource)
    → ((id : String) → names_id ids id ≡ names_id js id)
    → keep_if (λ r. not (names_id ids r.arm_id)) rs ≡ keep_if (λ r. not (names_id js r.arm_id)) rs
keep_if-same ids js [] h = refl
keep_if-same ids js (r ∷ rs) h = rw (h r.arm_id) (rw (keep_if-same ids js rs h) refl)

set_delete_error-left :
    (t : ProvisionTables) (id : ℕ) (msg : String) (run : ℕ)
    → left_of (set_azure_provision_delete_error t id msg) run ≡ left_of t run
unfolding left_of set_azure_provision_delete_error update_provision
set_delete_error-left t id msg run = refl

-- When the deletion of what a run left ends without an error, the record has nothing left of that run:
-- asking again finds nothing to delete.
pub run_delete_provision-none_left :
    (fold : String → String) (read : String → Read) (delete : List String → String → Deleted)
    (can_record : String → Bool) (message : DeleteError → String) (h : ProvisionHub) (id : ℕ)
    (now : Time)
    → (delete_created fold read delete can_record
        (map deletable_of (left_of h.provisions id))).error
      ≡ none
    → left_of
        (run_delete_provision message h id
          (delete_created fold read delete can_record (map deletable_of (left_of h.provisions id)))
          now).provisions
        id
      ≡ []
unfolding run_delete_provision
run_delete_provision-none_left fold read delete can_record message h id now e =
    let rs = left_of h.provisions id in
    let ds = map deletable_of rs in
    let run = delete_created fold read delete can_record ds in
    elim ((delete_created-recorded fold read delete can_record ds).3) [
      | inl (err, f) ↦ absurd (cc (sym f ∙ e))
      | inr all ↦
          rw (run_delete_provision, e)
            (mark_all-left h.provisions run.recorded now id
              ∙ ap (λ ids. keep_if (λ r. not (names_id ids r.arm_id)) rs) all
              ∙ keep_if-same (ids_of (in_order ds)) (ids_of ds) rs (in_order-names ds)
              ∙ each_named rs rs (names_self rs))
    ]
