-- ===== src/Azure/OnlyOurs.antt =====
-- internal/hub/azure/delete.go, DeleteCreated: what it deletes is the hub's own, VMs first, and recorded.
use serversmonitor.Prelude.{
  ℕ, ◌≤◌, ◌≡◌, ◌⊎◌, refl, sym, ap, subst, ◌∙◌, Bool, true, false, none, some, List, [], ◌∷◌, ◌++◌,
  String, if◌then◌else◌, leb, map, All, arith, Option-cases, Bool-cases, inl, inr,
}
use mathlib.Core.List.{append_assoc, append-nil, Perm}
use mathlib.Core.List.Perm
use serversmonitor.Azure.Delete.{
  Deletable, DeleteError, unknown_kind, record_failed, delete_failed, await_failed, Read,
  read_missing, read_tag, Deleted, delete_missing, delete_refused, delete_accepted, tag_is_ours,
  delete_order, insert_ordered, in_order, DeleteRun, stopped, check_all, delete_all, delete_created,
  has_api_version,
}

-- What the hub may delete: what it tagged as its own, and what is not there any more.
abbrev pub is_deletable : Read → Bool
is_deletable read_missing = true
is_deletable (read_tag v) = tag_is_ours v
is_deletable _ = false

-- No NIC stands before a resource of another kind.
abbrev pub Ordered : List Deletable → Type 0
Ordered [] = Unit
Ordered (r ∷ rs) = All (λ s. delete_order r.kind ≤ delete_order s.kind) rs × Ordered rs

insert_ordered-All :
    (P : Deletable → Type 0) (r : Deletable) (rs : List Deletable)
    → P r
    → All P rs
    → All P (insert_ordered r rs)
unfolding insert_ordered
insert_ordered-All P r [] p h = (p, tt)
insert_ordered-All P r (s ∷ rs) p h =
    elim (Bool-cases (leb (delete_order r.kind) (delete_order s.kind))) [
      | inl e ↦ rw e (p, h)
      | inr e ↦ rw e (h.0, insert_ordered-All P r rs p h.1)
    ]

All-le :
    (n m : ℕ) (rs : List Deletable)
    → n ≤ m
    → All (λ s. m ≤ delete_order s.kind) rs
    → All (λ s. n ≤ delete_order s.kind) rs
All-le n m [] h a = tt
All-le n m (s ∷ rs) h a = (omega (arith, h, a.0), All-le n m rs h a.1)

insert_ordered-Ordered :
    (r : Deletable) (rs : List Deletable) → Ordered rs → Ordered (insert_ordered r rs)
unfolding insert_ordered
insert_ordered-Ordered r [] h = (tt, tt)
insert_ordered-Ordered r (s ∷ rs) h =
    elim (Bool-cases (leb (delete_order r.kind) (delete_order s.kind))) [
      | inl e ↦ rw e ((le_of e, All-le _ _ rs (le_of e) h.0), h)
      | inr e ↦ rw e (insert_ordered-All _ r rs (ge_of e) h.0, insert_ordered-Ordered r rs h.1)
    ]
  where
    le_of :
        leb (delete_order r.kind) (delete_order s.kind) ≡ true
        → delete_order r.kind ≤ delete_order s.kind
    le_of e = ground (arith, e)

    ge_of :
        leb (delete_order r.kind) (delete_order s.kind) ≡ false
        → delete_order s.kind ≤ delete_order r.kind
    ge_of e = ground (arith, e)

insert_ordered-Perm : (r : Deletable) (rs : List Deletable) → Perm (r ∷ rs) (insert_ordered r rs)
unfolding insert_ordered
insert_ordered-Perm r [] = Perm.refl (r ∷ [])
insert_ordered-Perm r (s ∷ rs) =
    elim (Bool-cases (leb (delete_order r.kind) (delete_order s.kind))) [
      | inl e ↦ rw e (Perm.refl (r ∷ s ∷ rs))
      | inr e ↦ rw e (Perm.trans (Perm.swap s r rs) (Perm.cons s (insert_ordered-Perm r rs)))
    ]

in_order-Perm : (rs : List Deletable) → Perm rs (in_order rs)
unfolding in_order
in_order-Perm [] = Perm.refl []
in_order-Perm (r ∷ rs) =
    Perm.trans (Perm.cons r (in_order-Perm rs)) (insert_ordered-Perm r (in_order rs))

in_order-Ordered : (rs : List Deletable) → Ordered (in_order rs)
unfolding in_order
in_order-Ordered [] = tt
in_order-Ordered (r ∷ rs) = insert_ordered-Ordered r (in_order rs) (in_order-Ordered rs)

abbrev pub ids_of : List Deletable → List String
ids_of rs = map (λ r. r.arm_id) rs

-- Everything recorded was sent, and all that was sent was recorded but for the last at most.
abbrev pub UpToDate : DeleteRun → Type 0
UpToDate run = (run.sent ≡ run.recorded) ⊎ ((id : String) × (run.sent ≡ run.recorded ++ id ∷ []))

module _ (fold : String → String) (read : String → Read) (delete : List String → String → Deleted)
    (can_record : String → Bool) where
  abbrev run_all : List Deletable → List String → DeleteRun
  run_all rs s = delete_all fold read delete can_record rs s s

  -- One turn of the loop stops before its DELETE, stops after it, or goes on.
  abbrev Turn : Deletable → List Deletable → List String → DeleteRun → Type 0
  Turn r rs s run =
      (run ≡ stopped s s unknown_kind)
      ⊎ (((e : DeleteError) × (run ≡ stopped (s ++ r.arm_id ∷ []) s e))
          ⊎ (run ≡ run_all rs (s ++ r.arm_id ∷ [])))

  delete_all-Turn :
      (r : Deletable) (rs : List Deletable) (s : List String) → Turn r rs s (run_all (r ∷ rs) s)
  unfolding delete_all
  delete_all-Turn r rs s = elim (Bool-cases (has_api_version fold r.kind)) [
    | inr v ↦ inl (rw v refl)
    | inl v ↦ answer (delete s r.arm_id) refl v
  ]
    where
      recording :
          (b : Bool)
          → can_record r.arm_id ≡ b
          → Turn r rs s (
              if can_record r.arm_id
              then run_all rs (s ++ r.arm_id ∷ [])
              else stopped (s ++ r.arm_id ∷ []) s record_failed)
      recording true c = inr (inr (rw c refl))
      recording false c = inr (inl (record_failed, rw c refl))

      answer :
          (d : Deleted)
          → delete s r.arm_id ≡ d
          → has_api_version fold r.kind ≡ true
          → Turn r rs s (run_all (r ∷ rs) s)
      answer delete_missing d v = rw (delete_all, v, d) (recording (can_record r.arm_id) refl)
      answer delete_refused d v = inr (inl (delete_failed, rw (delete_all, v, d) refl))
      answer (delete_accepted true) d v =
          rw (delete_all, v, d) (recording (can_record r.arm_id) refl)
      answer (delete_accepted false) d v = inr (inl (await_failed, rw (delete_all, v, d) refl))

  abbrev pub DeletableId : String → Type 0
  DeletableId id = is_deletable (read id) ≡ true

  -- A resource that may be deleted: its kind is one the hub knows, and it is tagged or gone.
  abbrev pub MayGo : Deletable → Type 0
  MayGo r = (has_api_version fold r.kind ≡ true) × DeletableId r.arm_id

  delete_all-UpToDate : (rs : List Deletable) (s : List String) → UpToDate (run_all rs s)
  unfolding delete_all
  delete_all-UpToDate [] s = inl refl
  delete_all-UpToDate (r ∷ rs) s = elim (delete_all-Turn r rs s) [
    | inl e ↦ subst UpToDate (sym e) (inl refl)
    | inr (inl (err, e)) ↦ subst UpToDate (sym e) (inr (r.arm_id, refl))
    | inr (inr e) ↦ subst UpToDate (sym e) (delete_all-UpToDate rs (s ++ r.arm_id ∷ []))
  ]

  delete_all_complete :
      (rs : List Deletable) (s : List String)
      → (run_all rs s).error ≡ none
      → (run_all rs s).recorded ≡ s ++ ids_of rs
  unfolding delete_all
  delete_all_complete [] s h = sym (append-nil s)
  delete_all_complete (r ∷ rs) s h = elim (delete_all-Turn r rs s) [
    | inl e ↦ absurd (cc (sym (ap (λ run. run.error) e) ∙ h))
    | inr (inl (err, e)) ↦ absurd (cc (sym (ap (λ run. run.error) e) ∙ h))
    | inr (inr e) ↦
        ap (λ run. run.recorded) e
        ∙ delete_all_complete rs (s ++ r.arm_id ∷ []) (sym (ap (λ run. run.error) e) ∙ h)
        ∙ append_assoc s (r.arm_id ∷ []) (ids_of rs)
  ]

  abbrev deletion : List Deletable → DeleteRun
  deletion rs = delete_created fold read delete can_record rs

  -- However a deletion ends, what it sent is recorded as deleted but for the one it stopped at; one
  -- that succeeds has deleted and recorded the whole set, no NIC before a resource of another kind.
  pub delete_created-recorded :
      (rs : List Deletable)
      → UpToDate (deletion rs)
        × Perm rs (in_order rs)
        × Ordered (in_order rs)
        × (((e : DeleteError) × ((deletion rs).error ≡ some e))
            ⊎ ((deletion rs).recorded ≡ ids_of (in_order rs)))
  unfolding delete_created
  delete_created-recorded rs = (
    elim (Option-cases (check_all fold read delete can_record (in_order rs))) [
      | inr (e, c) ↦ rw (delete_created, c) (inl refl)
      | inl c ↦ rw (delete_created, c) (delete_all-UpToDate (in_order rs) [])
    ],
    in_order-Perm rs,
    in_order-Ordered rs,
    elim (Option-cases (check_all fold read delete can_record (in_order rs))) [
      | inr (e, c) ↦ rw (delete_created, c) (inl (e, refl))
      | inl c ↦
          rw (delete_created, c)
            (elim (Option-cases (run_all (in_order rs) []).error) [
              | inr (e, h) ↦ inl (e, h)
              | inl h ↦ inr (delete_all_complete (in_order rs) [] h)
            ])
    ],
  )
