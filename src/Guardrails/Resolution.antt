-- ===== src/Guardrails/Resolution.antt =====
-- The budget of 0 and the band of the projection in internal/hub/guardrails/budget.go.
use serversmonitor.Prelude.{
  ◌≡◌, refl, ap, ◌∙◌, subst, Bool, true, false, Option, none, some, [], ◌∷◌, lookup, arith, ◌&&◌,
  if◌then◌else◌, UniqueKeys,
}
use serversmonitor.Prelude.Int.{pos}
use serversmonitor.Float.{Float}
use serversmonitor.Store.Rows.{GuardrailKey}
use serversmonitor.Guardrails.Transitions.{
  GuardrailKey-discrete, LastEvents, is_firing, transitions, after_events, want_lines,
}
use serversmonitor.Guardrails.Settled.{wanted, Distinct, transitions_follow}
use serversmonitor.Guardrails.Budget.{
  BudgetInput, is_budget_rule, projection, projection_key, projection_wants, resolve_wants,
  budget_wants, budget,
}

abbrev pub some_if : Bool → Bool → Option Bool
some_if true on = some on
some_if false on = none

module _ (fl : Float) where
  open fl use {F, of_int, constant, mul, gt, ge}

  unnamed :
      (test : GuardrailKey → Bool) (last : LastEvents F) (k : GuardrailKey)
      → lookup GuardrailKey-discrete k last ≡ none
      → wanted k (resolve_wants fl test last) ≡ none
  unfolding resolve_wants lookup
  unnamed test [] k h = refl
  unnamed test ((j, e) ∷ last) k h = elim (GuardrailKey-discrete j k) [
    | yes p ↦ ground (arith, h)
    | no p ↦ ground (arith, h, unnamed test last k)
  ]

  pub wanted-resolve_wants :
      (test : GuardrailKey → Bool) (last : LastEvents F) (k : GuardrailKey)
      → UniqueKeys GuardrailKey-discrete last
      → wanted k (resolve_wants fl test last) ≡ some_if (is_firing last k && test k) false
  unfolding resolve_wants lookup is_firing
  wanted-resolve_wants test [] k u = refl
  wanted-resolve_wants test ((j, e) ∷ last) k u = elim (GuardrailKey-discrete j k) [
    | yes p ↦ ground (
      arith,
      unnamed test last k (subst (λ i. lookup GuardrailKey-discrete i last ≡ none) p (u.0)),
      ap test p,
    )
    | no p ↦ ground (arith, wanted-resolve_wants test last k (u.1))
  ]

  pub resolve_wants-Distinct :
      (test : GuardrailKey → Bool) (last : LastEvents F)
      → UniqueKeys GuardrailKey-discrete last
      → Distinct (resolve_wants fl test last)
  unfolding resolve_wants
  resolve_wants-Distinct test [] u = tt
  resolve_wants-Distinct test ((j, e) ∷ last) u =
      ground (arith, unnamed test last j (u.0), resolve_wants-Distinct test last (u.1))

  -- Where the map of the last lines has each key once, a budget that is not positive ends every
  -- firing budget alert (threshold, projection and resource share) and leaves the alerts of every
  -- other rule as they were.
  pub budget_off_resolves :
      (inp : BudgetInput F) (k : GuardrailKey)
      → UniqueKeys GuardrailKey-discrete inp.last
      → gt inp.budget (of_int (pos 0)) ≡ false
      → is_firing (after_events inp.last (budget fl inp)) k
        ≡ (if is_budget_rule k.rule then false else is_firing inp.last k)
  unfolding budget budget_wants
  budget_off_resolves inp k u off =
      let test = λ (j : GuardrailKey). is_budget_rule j.rule in
      let ws = resolve_wants fl test inp.last in
      rw off (
        transitions_follow ws inp.last inp.now k (resolve_wants-Distinct test inp.last u)
        ∙ ground (arith, wanted-resolve_wants test inp.last k u))

  projection_wants-band :
      (inp : BudgetInput F) (p : F)
      → projection fl inp.now inp.as_of inp.spent ≡ some p
      → ge p (mul inp.budget (constant 95 100)) ≡ true
      → gt p (mul inp.budget (constant 105 100)) ≡ false
      → projection_wants fl inp
        ≡ record { key = projection_key; on = is_firing inp.last projection_key; value = p } ∷ []
  unfolding projection_wants
  projection_wants-band inp p e low high = rw (e, projection_wants) (ground arith)

  -- While the projection stays inside the band of 5 % on both sides of the budget, its rule adds no
  -- line to the journal, whether it was firing or not: a projection that wavers says nothing.
  pub projection_band_silent :
      (inp : BudgetInput F) (p : F)
      → projection fl inp.now inp.as_of inp.spent ≡ some p
      → ge p (mul inp.budget (constant 95 100)) ≡ true
      → gt p (mul inp.budget (constant 105 100)) ≡ false
      → transitions (projection_wants fl inp) inp.last inp.now ≡ []
  unfolding transitions want_lines
  projection_band_silent inp p e low high =
      rw (projection_wants-band inp p e low high) (ground arith)
