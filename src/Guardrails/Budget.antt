-- ===== src/Guardrails/Budget.antt =====
-- internal/hub/guardrails/budget.go: the wanted states of the budget rules. The entries of a map are
-- visited in the order of its list, which stands for any order.
use serversmonitor.Prelude.{
  text_eq, ℕ, ◌-◌, Bool, false, Option, none, some, List, [], ◌∷◌, ◌++◌, String, map, not, ◌&&◌,
  ◌||◌, if◌then◌else◌, ltb, ◌==◌,
}
use serversmonitor.Prelude.Int.{ℤ, pos}
use serversmonitor.Text.{itoa}
use serversmonitor.Time.{Time}
use serversmonitor.Calendar.{civil, last_day}
use serversmonitor.Float.{Float}
use serversmonitor.Store.Rows.{GuardrailKey, GuardrailEvent}
use serversmonitor.Guardrails.Transitions.{LastEvents, Want, is_fired, is_firing, transitions}

-- settings.go
pub record Settings : Type 0 where
  pub thresholds : List ℤ
  pub resource_share : ℤ
  pub hub_vm_silent_days : ℤ
  pub timezone : String

pub record CostRow (F : Type 0) : Type 0 where
  pub resource_id : String
  pub name : String
  pub amount : F

pub record BudgetInput (F : Type 0) : Type 0 where
  pub now : Time
  pub budget : F
  pub spent : F
  pub currencies : ℕ
  pub as_of : Time
  pub rows : List (CostRow F)
  pub settings : Settings
  pub last : LastEvents F

-- The map budgetRules.
unfoldable pub is_budget_rule : String → Bool
is_budget_rule rule =
    text_eq rule "budget_threshold"
    || text_eq rule "budget_projection"
    || text_eq rule "resource_share"

-- The days of the current month that are billed at the date of the figure.
unfoldable pub days_billed : Time → Time → ℕ
days_billed now as_of =
    let n = civil now in
    let a = civil as_of in
    if not (a.year == n.year) || not (a.month == n.month) then 0 else a.day - 1

unfoldable pub days_in_month : Time → ℕ
days_in_month t = let c = civil t in last_day c.year c.month

abbrev pub threshold_key : ℤ → GuardrailKey
threshold_key pct = record { subject = "budget"; rule = "budget_threshold"; detail = itoa pct }

abbrev pub projection_key : GuardrailKey
projection_key = record { subject = "budget"; rule = "budget_projection"; detail = "" }

abbrev pub share_key : String → GuardrailKey
share_key resource_id = record { subject = resource_id; rule = "resource_share"; detail = "" }

module _ (fl : Float) where
  open fl use {F, of_int, constant, add, mul, div, gt, ge}

  -- Projection: refuses to guess on fewer than four billed days.
  unfoldable pub projection : Time → Time → F → Option F
  projection now as_of spent =
      let d = days_billed now as_of in
      if ltb d 4
      then none
      else some (div (mul spent (of_int (pos (days_in_month now)))) (of_int (pos d)))

  unfoldable pub threshold_want : BudgetInput F → ℤ → Want F
  threshold_want inp pct =
      let line = div (mul inp.budget (of_int pct)) (of_int (pos 100)) in
      record { key = threshold_key pct; on = ge inp.spent line; value = inp.spent }

  -- The band of 5 % on both sides of the budget: inside it a projection keeps its state.
  unfoldable pub projection_on : BudgetInput F → F → Bool
  projection_on inp p =
      if is_firing inp.last projection_key
      then ge p (mul inp.budget (constant 95 100))
      else gt p (mul inp.budget (constant 105 100))

  unfoldable pub projection_wants : BudgetInput F → List (Want F)
  unfolding projection_on
  projection_wants inp = elim (projection inp.now inp.as_of inp.spent) [
    | some p ↦ record { key = projection_key; on = projection_on inp p; value = p } ∷ []
    | none ↦
        if is_firing inp.last projection_key
        then record { key = projection_key; on = false; value = of_int (pos 0) } ∷ []
        else []
  ]

  unfoldable pub share_want : BudgetInput F → CostRow F → Want F
  share_want inp r =
      let line = div (mul inp.budget (of_int inp.settings.resource_share)) (of_int (pos 100)) in
      record {
        key = share_key r.resource_id;
        on = gt r.amount line;
        value = mul (div r.amount inp.budget) (of_int (pos 100));
      }

  -- The wants that resolve what is firing in `last` and meets the test.
  unfoldable pub resolve_wants : (GuardrailKey → Bool) → LastEvents F → List (Want F)
  resolve_wants test [] = []
  resolve_wants test ((k, e) ∷ rest) =
      if is_fired e && test k
      then record { key = k; on = false; value = of_int (pos 0) } ∷ resolve_wants test rest
      else resolve_wants test rest

  -- The map `seen` of the resources that have a row.
  unfoldable pub has_row : String → List (CostRow F) → Bool
  has_row id [] = false
  has_row id (r ∷ rs) = text_eq r.resource_id id || has_row id rs

  abbrev pub lost_share : BudgetInput F → GuardrailKey → Bool
  lost_share inp k = text_eq k.rule "resource_share" && not (has_row k.subject inp.rows)

  unfoldable pub budget_wants : BudgetInput F → List (Want F)
  budget_wants inp =
      if gt inp.budget (of_int (pos 0))
      then map (threshold_want inp) inp.settings.thresholds
        ++ (projection_wants inp
            ++ (map (share_want inp) inp.rows ++ resolve_wants (lost_share inp) inp.last))
      else resolve_wants (λ k. is_budget_rule k.rule) inp.last

  -- Budget
  unfoldable pub budget : BudgetInput F → List (GuardrailEvent F)
  budget inp = transitions (budget_wants inp) inp.last inp.now
