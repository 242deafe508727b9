-- ===== src/Guardrails/Transitions.antt =====
-- internal/hub/guardrails/budget.go, the end of it: how wanted states become journal lines. `last`
-- is the map of the newest journal line of each rule instance.
use serversmonitor.Prelude.{
  Bool, true, false, Option, none, some, List, [], ◌∷◌, ◌++◌, lookup, insert, String_discrete, not,
  ◌&&◌, if◌then◌else◌,
}
use serversmonitor.Time.{Time}
use serversmonitor.Store.Rows.{Kind, fired, resolved, GuardrailKey, GuardrailEvent}

unfoldable pub GuardrailKey-discrete : Discrete GuardrailKey
unfolding String_discrete
GuardrailKey-discrete = hlevel String_discrete

abbrev pub LastEvents : Type 0 → Type 0
LastEvents F = List (GuardrailKey × GuardrailEvent F)

-- The wanted state of one rule instance.
pub record Want (F : Type 0) : Type 0 where
  pub key : GuardrailKey
  pub on : Bool
  pub value : F

module _ {F : Type 0} where
  abbrev pub is_fired : GuardrailEvent F → Bool
  is_fired e = elim (e.kind) [ fired ↦ true | _ ↦ false ]

  abbrev pub kind_fired : Option (GuardrailEvent F) → Bool
  kind_fired none = false
  kind_fired (some e) = is_fired e

  -- `last[k].Kind == "fired"`: a missing key reads as the zero event, whose kind is empty.
  unfoldable pub is_firing : LastEvents F → GuardrailKey → Bool
  is_firing last k = kind_fired (lookup GuardrailKey-discrete k last)

  unfoldable pub line : Want F → Kind → Time → GuardrailEvent F
  line w kind now = record {
    id = 0;
    subject = w.key.subject;
    rule = w.key.rule;
    detail = w.key.detail;
    kind = kind;
    value = w.value;
    at = now;
  }

  -- One round of the loop: the line that a want appends, if any.
  unfoldable pub want_lines : Want F → LastEvents F → Time → List (GuardrailEvent F)
  unfolding line
  want_lines w last now =
      if w.on && not (is_firing last w.key)
      then line w fired now ∷ []
      else if not w.on && is_firing last w.key
      then line w resolved now ∷ []
      else []

  unfoldable pub transitions : List (Want F) → LastEvents F → Time → List (GuardrailEvent F)
  transitions [] last now = []
  transitions (w ∷ ws) last now = want_lines w last now ++ transitions ws last now

  abbrev pub event_key : GuardrailEvent F → GuardrailKey
  event_key e = record { subject = e.subject; rule = e.rule; detail = e.detail }

  -- The newest lines once the events are in the journal, the first event first.
  unfoldable pub after_events : LastEvents F → List (GuardrailEvent F) → LastEvents F
  after_events last [] = last
  after_events last (e ∷ es) = after_events (insert GuardrailKey-discrete (event_key e) e last) es
