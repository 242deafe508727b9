-- ===== src/Examples/Alerts.antt =====
-- The alert machine at work.
use serversmonitor.Prelude.{
  Option, none, some, ℕ_discrete, subst, sym, ◌∙◌, ℕ, ◌*◌, ◌≡◌, ◌≢◌, refl, Bool, true, List, [],
  ◌∷◌, All, lookup, insert, inr,
}
use serversmonitor.Prelude.Int.{ltb_ℤ, pos, ◌≤ℤ◌}
use serversmonitor.Time.{Time, minute, time_sub}
use serversmonitor.Store.AlertEvents.{key_of}
use serversmonitor.Store.Rows.{SampleRow}
use serversmonitor.Alerts.Machine.{
  Key-discrete, restore, new_machine, cell_at, observe, observe_cell,
}
use serversmonitor.Alerts.Traces.{Observation, after_all, BreachedSince}
use serversmonitor.Alerts.Sustained.{fired_sustained}
use serversmonitor.Alerts.Evaluate.{twice, Input, evaluate}
use serversmonitor.Alerts.Silence.{IsQuiet, IsSilent, evaluate_quiet}
use serversmonitor.Examples.Data.{cents, web_sample, fleet, as_listed, web_cpu}

abbrev at_minute : ℕ → Bool → Observation
at_minute n b = record {
  key = web_cpu;
  breached = b;
  now = n * minute;
  duration = pos (5 * minute);
}

abbrev breach : List Observation
breach = at_minute 3 true ∷ at_minute 1 true ∷ []

fired_sustained_example :
    (t0 : Time) × BreachedSince web_cpu t0 (at_minute 6 true ∷ breach)
    × (pos (5 * minute) ≤ℤ time_sub (6 * minute) t0)
unfolding observe cell_at observe_cell restore new_machine after_all lookup insert Key-discrete
fired_sustained_example = fired_sustained [] breach (at_minute 6 true) refl

-- The sample of web is 100 minutes old.
abbrev stale : Input ℕ
stale = record fleet { now = 200 * minute }

abbrev IsOld : Option (SampleRow ℕ) → Type 0
IsOld none = Unit
IsOld (some row) = ltb_ℤ (twice stale.interval) (time_sub stale.now row.at) ≡ true

latest_web : lookup ℕ_discrete 1 stale.latest ≡ some web_sample
unfolding lookup ℕ_discrete
latest_web = refl

web-IsSilent : IsSilent cents stale 1
web-IsSilent row e = subst IsOld (sym latest_web ∙ e) refl

stale-IsQuiet : All (λ h. h.id ≡ 1 → IsQuiet cents stale web_cpu h) stale.hosts
stale-IsQuiet = ((λ e. inr (web-IsSilent, λ f. cc f)), ((λ e. absurd (cc e)), tt))

evaluate_quiet_example :
    let (m', events) = evaluate cents as_listed (restore (web_cpu ∷ []) new_machine) stale in
    (cell_at m' web_cpu ≡ cell_at (restore (web_cpu ∷ []) new_machine) web_cpu)
    × All (λ e. key_of e ≢ web_cpu) events
evaluate_quiet_example =
    evaluate_quiet cents as_listed stale web_cpu (restore (web_cpu ∷ []) new_machine) stale-IsQuiet
