-- ===== src/Alerts/Metrics.antt =====
-- What internal/hub/alerts/evaluate.go reads as the value of a metric, and which rule it applies.
use serversmonitor.Prelude.{
  ℕ, ◌≡◌, ◌≢◌, ◌⊎◌, inl, inr, Bool, false, Option, none, some, List, [], ◌∷◌, String, ite, if_pos,
  if_neg, lookup, insert, lookup-insert_self, lookup-insert_ne, String_discrete, if◌then◌else◌,
  ◌==◌, arith, All, subst, ap, ◌∙◌, Bool-cases,
}
use serversmonitor.Float.{Float, FloatOrder}
use serversmonitor.Store.Rows.{Host, Disk, SampleRow, Rule}
use serversmonitor.Alerts.Evaluate.{
  is_zero, percent, worse, worst_disk, metric_value, for_other_host, is_global, replaces, by_metric,
}

-- Some element has the property.
abbrev pub Some {ℓ} : {A : Type ℓ} → (A → Type 0) → List A → Type 0
Some P [] = ⊥
Some P (x ∷ xs) = P x ⊎ Some P xs

module _ (fl : Float) (ord : FloatOrder fl) where
  open fl use {F, gt}

  abbrev pub NotAbove : F → Disk F → Type 0
  NotAbove w d = is_zero d.total ≡ false → gt (percent fl d.used d.total) w ≡ false

  abbrev Bounds : F → Option F → Type 0
  Bounds w none = Unit
  Bounds w (some a) = gt a w ≡ false

  worse-Bounds : (v w : F) (o : Option F) → Bounds w (worse fl v o) → Bounds w o × (gt v w ≡ false)
  worse-Bounds v w none h = (tt, h)
  worse-Bounds v w (some a) h = elim (Bool-cases (gt v a)) [
    | inl e ↦
        let above = subst (λ b. Bounds w (if b then some v else some a)) e h in
        (ord.gt_cotrans a v w (ord.gt_asym v a e) above, above)
    | inr e ↦
        let kept = subst (λ b. Bounds w (if b then some v else some a)) e h in
        (kept, ord.gt_cotrans v a w e kept)
  ]

  worst_disk-NotAbove :
      (ds : List (Disk F)) (o : Option F) (w : F)
      → worst_disk fl o ds ≡ some w
      → Bounds w o × All (NotAbove w) ds
  unfolding worst_disk
  worst_disk-NotAbove [] none w e = (tt, tt)
  worst_disk-NotAbove [] (some a) w e = (ground (arith, ord.gt_irrefl w), tt)
  worst_disk-NotAbove (d ∷ ds) o w e = elim (Bool-cases (is_zero d.total)) [
    | inl z ↦
        let ih = worst_disk-NotAbove ds o w (rw (z, worst_disk) at e) in (ih.0, (λ h. cc, ih.1))
    | inr z ↦
        let ih = worst_disk-NotAbove ds _ w (rw (z, worst_disk) at e) in
        let b = worse-Bounds (percent fl d.used d.total) w o (ih.0) in (b.0, (λ h. b.1, ih.1))
  ]

  abbrev pub IsValueOf : F → Disk F → Type 0
  IsValueOf w d = (is_zero d.total ≡ false) × (percent fl d.used d.total ≡ w)

  worse-cases : (v w : F) (o : Option F) → worse fl v o ≡ some w → (v ≡ w) ⊎ (o ≡ some w)
  worse-cases v w none e = inl (ground arith)
  worse-cases v w (some a) e = ground arith

  worst_disk-IsValueOf :
      (ds : List (Disk F)) (o : Option F) (w : F)
      → worst_disk fl o ds ≡ some w
      → (o ≡ some w) ⊎ Some (IsValueOf w) ds
  unfolding worst_disk
  worst_disk-IsValueOf [] o w e = inl e
  worst_disk-IsValueOf (d ∷ ds) o w e = elim (Bool-cases (is_zero d.total)) [
    | inl z ↦ elim (worst_disk-IsValueOf ds o w (rw (z, worst_disk) at e)) [
      | inl h ↦ inl h
      | inr h ↦ inr (inr h)
    ]
    | inr z ↦ elim (worst_disk-IsValueOf ds _ w (rw (z, worst_disk) at e)) [
      | inl h ↦ elim (worse-cases (percent fl d.used d.total) w o h) [
        | inl v ↦ inr (inl (z, v))
        | inr k ↦ inl k
      ]
      | inr h ↦ inr (inr h)
    ]
  ]

  -- Where the comparison of floats is an order, a value of the disk metric is the usage of one of
  -- the disks whose size is not zero, and no other such disk is fuller.
  pub disk_value_worst :
      (row : SampleRow F) (host : Host) (w : F)
      → metric_value fl "disk" row host ≡ some w
      → Some (IsValueOf w) row.disks × All (NotAbove w) row.disks
  unfolding metric_value String_discrete
  disk_value_worst row host w e = (
    elim (worst_disk-IsValueOf row.disks none w e) [ inl h ↦ cc | inr h ↦ h ],
    (worst_disk-NotAbove row.disks none w e).1,
  )

-- The rules of `applicable`: for each metric the first rule of the host itself, else the first global
-- one.
module _ {F : Type 0} where
  abbrev pub is_own : Rule F → ℕ → Bool
  is_own r host_id = elim (r.host_id) [ none ↦ false | some h ↦ h == host_id ]

  pub first_rule : (Rule F → Bool) → String → List (Rule F) → Option (Rule F)
  first_rule p metric [] = none
  first_rule p metric (r ∷ rs) =
      let rest = first_rule p metric rs in
      ite (String_discrete r.metric metric) (if p r then some r else rest) rest

  abbrev pub or_else : Option (Rule F) → Option (Rule F) → Option (Rule F)
  or_else none o = o
  or_else (some r) o = some r

module _ (fl : Float) where
  open fl use {F}

  -- The rule that the map holds for a metric after the remaining rules, from the one it holds now.
  abbrev improved : Option (Rule F) → Option (Rule F) → Option (Rule F) → Option (Rule F)
  improved none own glob = or_else own glob
  improved (some cur) own glob = if is_global fl cur then or_else own (some cur) else some cur

  -- What one rule makes of the map.
  abbrev considered : List (String × Rule F) → Rule F → ℕ → List (String × Rule F)
  considered acc r host_id =
      if for_other_host fl r.host_id host_id
      then acc
      else if replaces fl (lookup String_discrete r.metric acc) r
      then insert String_discrete r.metric r acc
      else acc

  lookup-considered_self :
      (acc : List (String × Rule F)) (r : Rule F) (host_id : ℕ)
      → lookup String_discrete r.metric (considered acc r host_id) ≡ (
          if for_other_host fl r.host_id host_id
          then lookup String_discrete r.metric acc
          else if replaces fl (lookup String_discrete r.metric acc) r
          then some r
          else lookup String_discrete r.metric acc)
  lookup-considered_self acc r host_id =
      ground (arith, lookup-insert_self String_discrete r.metric r acc)

  lookup-considered_ne :
      (acc : List (String × Rule F)) (r : Rule F) (host_id : ℕ) (metric : String)
      → r.metric ≢ metric
      → lookup String_discrete metric (considered acc r host_id) ≡ lookup String_discrete metric acc
  lookup-considered_ne acc r host_id metric h =
      ground (arith, lookup-insert_ne String_discrete r.metric metric r acc h)

  improved-considered :
      (cur own glob : Option (Rule F)) (r : Rule F) (host_id : ℕ)
      → improved
          (if for_other_host fl r.host_id host_id
            then cur
            else if replaces fl cur r
            then some r
            else cur)
          own
          glob
        ≡ improved cur
            (if is_own r host_id then some r else own)
            (if is_global fl r then some r else glob)
  improved-considered none own glob r host_id = ground arith
  improved-considered (some cur) own glob r host_id = ground arith

  by_metric-improved :
      (rs : List (Rule F)) (acc : List (String × Rule F)) (host_id : ℕ) (metric : String)
      → lookup String_discrete metric (by_metric fl acc rs host_id)
        ≡ improved
            (lookup String_discrete metric acc)
            (first_rule (λ r. is_own r host_id) metric rs)
            (first_rule (is_global fl) metric rs)
  unfolding by_metric first_rule
  by_metric-improved [] acc host_id metric = ground arith
  by_metric-improved (r ∷ rs) acc host_id metric =
      let own = first_rule (λ r'. is_own r' host_id) metric rs in
      let glob = first_rule (is_global fl) metric rs in
      let ih = by_metric-improved rs (considered acc r host_id) host_id metric in
      elim (String_discrete r.metric metric) [
        | yes p ↦
            rw
              (
                if_pos (String_discrete r.metric metric) p,
                if_pos (String_discrete r.metric metric) p,
              )
              (ih
                ∙ ap (λ c. improved c own glob)
                    (subst
                      (λ j. lookup String_discrete j (considered acc r host_id) ≡ (
                        if for_other_host fl r.host_id host_id
                        then lookup String_discrete j acc
                        else if replaces fl (lookup String_discrete j acc) r
                        then some r
                        else lookup String_discrete j acc))
                      p (lookup-considered_self acc r host_id))
                ∙ improved-considered (lookup String_discrete metric acc) own glob r host_id)
        | no p ↦
            rw
              (
                if_neg (String_discrete r.metric metric) p,
                if_neg (String_discrete r.metric metric) p,
              )
              (ih ∙ ap (λ c. improved c own glob) (lookup-considered_ne acc r host_id metric p))
      ]

  -- The map that `applicable` builds holds for each metric the first rule of this host on it, or the
  -- first global rule where the host has none, and no rule at all where there is neither.
  pub by_metric_own_first :
      (rules : List (Rule F)) (host_id : ℕ) (metric : String)
      → lookup String_discrete metric (by_metric fl [] rules host_id)
        ≡ or_else
            (first_rule (λ r. is_own r host_id) metric rules)
            (first_rule (is_global fl) metric rules)
  unfolding lookup
  by_metric_own_first rules host_id metric = by_metric-improved rules [] host_id metric
