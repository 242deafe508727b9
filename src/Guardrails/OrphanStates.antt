-- ===== src/Guardrails/OrphanStates.antt =====
-- What a sweep of internal/hub/guardrails/orphans.go makes of the orphan alerts.
use serversmonitor.Prelude.{
  ◌⊎◌, ◌≡◌, ◌≢◌, refl, sym, ap, ◌∙◌, Bool, false, Option, none, some, List, [], ◌∷◌, String, if_pos,
  if_neg, lookup, arith, ◌&&◌, UniqueKeys, Bool-cases, inl, inr, String_discrete,
}
use serversmonitor.Float.{Float}
use serversmonitor.Store.Rows.{GuardrailKey}
use serversmonitor.Guardrails.Transitions.{GuardrailKey-discrete, Want, is_firing, after_events}
use serversmonitor.Guardrails.Settled.{
  wanted, Distinct, or_now, transitions_follow, wanted-append, append-Distinct, first_of_two,
}
use serversmonitor.Guardrails.Budget.{resolve_wants}
use serversmonitor.Guardrails.Resolution.{some_if, wanted-resolve_wants, resolve_wants-Distinct}
use serversmonitor.Guardrails.Orphans.{
  OrphanInput, orphan_key, is_orphan_reason, seen, reason_wants, gone, orphan_wants, orphans,
}

abbrev pub state_for : Option String → Bool
state_for none = false
state_for (some reason) = is_orphan_reason reason

abbrev wish_for : Option String → Option Bool
wish_for none = none
wish_for (some reason) = some (is_orphan_reason reason)

orphan_key-subject : (i j : String) → orphan_key i ≡ orphan_key j → i ≡ j
orphan_key-subject i j e = ap (λ k. GuardrailKey.subject k) e

module _ (fl : Float) where
  open fl use {F}

  wanted-reason_wants :
      (reasons : List (String × String)) (id : String)
      → wanted (orphan_key id) (reason_wants fl reasons)
        ≡ wish_for (lookup String_discrete id reasons)
  unfolding reason_wants lookup
  wanted-reason_wants [] id = refl
  wanted-reason_wants ((j, r) ∷ rest) id = elim (String_discrete j id) [
    | yes p ↦
        rw (if_pos (String_discrete j id) p)
          (if_pos (GuardrailKey-discrete (orphan_key j) (orphan_key id)) (ap orphan_key p) _ _)
    | no p ↦ rw (if_neg (String_discrete j id) p) (
        if_neg (GuardrailKey-discrete (orphan_key j) (orphan_key id))
          (λ e. p (orphan_key-subject j id e)) _ _
        ∙ wanted-reason_wants rest id)
  ]

  unnamed_reason :
      (reasons : List (String × String)) (k : GuardrailKey)
      → (k.rule ≢ "orphan") ⊎ (seen k.subject reasons ≡ false)
      → wanted k (reason_wants fl reasons) ≡ none
  unfolding reason_wants seen
  unnamed_reason [] k h = refl
  unnamed_reason ((j, r) ∷ rest) k h = elim (GuardrailKey-discrete (orphan_key j) k) [
    | yes p ↦ absurd (elim h [
      | inl n ↦ n (sym (ap (λ i. GuardrailKey.rule i) p))
      | inr e ↦ ground (arith, e, ap (λ i. GuardrailKey.subject i) p)
    ])
    | no p ↦
        if_neg (GuardrailKey-discrete (orphan_key j) k) p _ _
        ∙ unnamed_reason rest k (elim h [ inl n ↦ inl n | inr e ↦ inr (ground (arith, e)) ])
  ]

  reason_wants-Distinct :
      (reasons : List (String × String))
      → UniqueKeys String_discrete reasons
      → Distinct (reason_wants fl reasons)
  unfolding reason_wants
  reason_wants-Distinct [] u = tt
  reason_wants-Distinct ((j, r) ∷ rest) u =
      (wanted-reason_wants rest j ∙ ap wish_for (u.0), reason_wants-Distinct rest (u.1))

  module _ (inp : OrphanInput F) (one_reason : UniqueKeys String_discrete inp.reasons)
      (one_line : UniqueKeys GuardrailKey-discrete inp.last) where
    resolving : List (Want F)
    resolving = resolve_wants fl (gone fl inp.reasons) inp.last

    wanted-resolving :
        (k : GuardrailKey)
        → wanted k resolving ≡ some_if (is_firing inp.last k && gone fl inp.reasons k) false
    unfolding resolving
    wanted-resolving k = wanted-resolve_wants fl (gone fl inp.reasons) inp.last k one_line

    orphan_wants-Distinct : Distinct (orphan_wants fl inp)
    unfolding orphan_wants resolving
    orphan_wants-Distinct =
        append-Distinct (reason_wants fl inp.reasons) resolving
          (reason_wants-Distinct inp.reasons one_reason)
          (resolve_wants-Distinct fl (gone fl inp.reasons) inp.last one_line)
          λ k named. elim (Bool-cases (seen k.subject inp.reasons)) [
            | inl e ↦ ground (arith, wanted-resolving k, e)
            | inr e ↦ absurd (named (unnamed_reason inp.reasons k (inr e)))
          ]

    after_sweep :
        (k : GuardrailKey)
        → is_firing (after_events inp.last (orphans fl inp)) k
          ≡ or_now
              (first_of_two (wanted k (reason_wants fl inp.reasons)) (wanted k resolving))
              (is_firing inp.last k)
    unfolding orphans orphan_wants resolving
    after_sweep k =
        transitions_follow (orphan_wants fl inp) inp.last inp.now k orphan_wants-Distinct
        ∙ ap (λ o. or_now o (is_firing inp.last k))
            (wanted-append k (reason_wants fl inp.reasons) resolving)

    seen-lookup :
        (reasons : List (String × String)) (id : String)
        → lookup String_discrete id reasons ≡ none
        → seen id reasons ≡ false
    unfolding seen lookup
    seen-lookup [] id h = refl
    seen-lookup ((j, r) ∷ rest) id h = ground (arith, h, seen-lookup rest id)

    -- Where the maps have each key once, after a sweep the orphan alert of a resource is firing
    -- exactly if the sweep gave it a reason that is neither empty nor "unverified": a resource that
    -- the sweep did not see, and one that it could not verify, are no longer reported.
    pub orphan_alert_follows :
        (id : String)
        → is_firing (after_events inp.last (orphans fl inp)) (orphan_key id)
          ≡ state_for (lookup String_discrete id inp.reasons)
    orphan_alert_follows id =
        after_sweep (orphan_key id) ∙ by_reason (lookup String_discrete id inp.reasons) refl
      where
        by_reason :
            (o : Option String)
            → lookup String_discrete id inp.reasons ≡ o
            → or_now
                (first_of_two
                  (wanted (orphan_key id) (reason_wants fl inp.reasons))
                  (wanted (orphan_key id) resolving))
                (is_firing inp.last (orphan_key id))
              ≡ state_for o
        by_reason none e = ground (
          arith,
          wanted-reason_wants inp.reasons id,
          e,
          wanted-resolving (orphan_key id),
          seen-lookup inp.reasons id e,
        )
        by_reason (some r) e = ground (arith, wanted-reason_wants inp.reasons id, e)

    -- Where the maps have each key once, a sweep leaves the alert of every rule other than the
    -- orphan rule as it was.
    pub orphans_leave_others :
        (k : GuardrailKey)
        → k.rule ≢ "orphan"
        → is_firing (after_events inp.last (orphans fl inp)) k ≡ is_firing inp.last k
    orphans_leave_others k other =
        after_sweep k
        ∙ ground (arith, unnamed_reason inp.reasons k (inl other), wanted-resolving k, other)
