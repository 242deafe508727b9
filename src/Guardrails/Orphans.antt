-- ===== src/Guardrails/Orphans.antt =====
-- internal/hub/guardrails/orphans.go.
use serversmonitor.Prelude.{
  ◌+◌, ◌-◌, ◌*◌, Bool, true, false, Option, none, some, List, [], ◌∷◌, ◌++◌, String, not, ◌&&◌,
  ◌||◌,
}
use serversmonitor.Prelude.Int.{ℤ, pos, negsuc, ltb_ℤ}
use serversmonitor.Time.{Time, Duration, time_sub, hour}
use serversmonitor.Float.{Float}
use serversmonitor.Store.Rows.{
  HostStatus, never_seen, online, offline, GuardrailKey, GuardrailEvent,
}
use serversmonitor.Guardrails.Transitions.{LastEvents, Want, transitions}
use serversmonitor.Prelude.{text_eq}
use serversmonitor.Guardrails.Budget.{resolve_wants}

-- The map Reasons has one entry for each resource of the sweep.
pub record OrphanInput (F : Type 0) : Type 0 where
  pub now : Time
  pub reasons : List (String × String)
  pub names : List (String × String)
  pub last : LastEvents F

abbrev pub orphan_key : String → GuardrailKey
orphan_key id = record { subject = id; rule = "orphan"; detail = "" }

-- "Not verified" is not "orphan".
unfoldable pub is_orphan_reason : String → Bool
is_orphan_reason reason = not (text_eq reason "") && not (text_eq reason "unverified")

-- The map `seen`.
unfoldable pub seen : String → List (String × String) → Bool
seen id [] = false
seen id ((j, reason) ∷ rest) = text_eq j id || seen id rest

module _ (fl : Float) where
  open fl use {F, of_int}

  unfoldable pub reason_wants : List (String × String) → List (Want F)
  reason_wants [] = []
  reason_wants ((id, reason) ∷ rest) =
      record { key = orphan_key id; on = is_orphan_reason reason; value = of_int (pos 0) }
      ∷ reason_wants rest

  abbrev pub gone : List (String × String) → GuardrailKey → Bool
  gone reasons k = text_eq k.rule "orphan" && not (seen k.subject reasons)

  unfoldable pub orphan_wants : OrphanInput F → List (Want F)
  orphan_wants inp = reason_wants inp.reasons ++ resolve_wants fl (gone inp.reasons) inp.last

  -- Orphans
  unfoldable pub orphans : OrphanInput F → List (GuardrailEvent F)
  orphans inp = transitions (orphan_wants inp) inp.last inp.now

-- `time.Duration(n) * 24 * time.Hour`
abbrev pub days : ℤ → Duration
days (pos n) = pos (n * (24 * hour))
days (negsuc n) = negsuc (n * (24 * hour) + (24 * hour - 1))

-- HubVMSilent
unfoldable pub hub_vm_silent : HostStatus → Option Time → Time → ℤ → Bool
hub_vm_silent never_seen last_seen now silent_days = true
hub_vm_silent offline none now silent_days = true
hub_vm_silent offline (some seen_at) now silent_days =
    ltb_ℤ (days silent_days) (time_sub now seen_at)
hub_vm_silent online last_seen now silent_days = false
