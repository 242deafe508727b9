-- ===== src/Hub/Restart.antt =====
-- The journal of alert events and the machine through ticks and restarts of internal/hub/hub.go.
use serversmonitor.Prelude.{
  UniqueKeys, insert-UniqueKeys, ◌≡◌, refl, sym, ◌∙◌, ap, subst, Bool, true, false, Option, none,
  some, List, [], ◌∷◌, if_pos, if_neg, arith, insert, lookup, lookup-insert_self, lookup-insert_ne,
}
use serversmonitor.Float.{Float}
use serversmonitor.Store.Rows.{Rule, AlertEvent}
use serversmonitor.Store.AlertEvents.{EventTable, key_of, last_event_per_key}
use serversmonitor.Alerts.Machine.{Key, Key-discrete, new_machine, state_of}
use serversmonitor.Alerts.Sustained.{new_machine-state}
use serversmonitor.Alerts.Traces.{is_firing}
use serversmonitor.Alerts.Evaluate.{Input}
use serversmonitor.Hub.Alerting.{is_fired, firing_keys, restored_machine, Alerting, tick}
use serversmonitor.Hub.Agreement.{tick-Agrees, fires, Agrees, in_keys, restore-is_firing}

module _ {F : Type 0} where
  abbrev fired_at : Option (AlertEvent F) → Bool
  fired_at none = false
  fired_at (some e) = is_fired e.kind

  in_keys-firing_keys :
      (k : Key) (d : List (Key × AlertEvent F))
      → UniqueKeys Key-discrete d
      → in_keys k (firing_keys d) ≡ fired_at (lookup Key-discrete k d)
  unfolding firing_keys lookup
  in_keys-firing_keys k [] u = refl
  in_keys-firing_keys k ((j, e) ∷ d) u = elim (Key-discrete j k) [
    | yes p ↦
        ground (
          arith,
          in_keys-firing_keys k d (u.1),
          subst (λ i. lookup Key-discrete i d ≡ none) p (u.0),
        )
    | no p ↦ ground (arith, in_keys-firing_keys k d (u.1))
  ]

  last_event_per_key-UniqueKeys :
      (rows : List (AlertEvent F)) → UniqueKeys Key-discrete (last_event_per_key rows)
  unfolding last_event_per_key
  last_event_per_key-UniqueKeys [] = tt
  last_event_per_key-UniqueKeys (e ∷ rows) =
      insert-UniqueKeys Key-discrete (key_of e) e (last_event_per_key rows)
        (last_event_per_key-UniqueKeys rows)

  fired_at-last_event_per_key :
      (rows : List (AlertEvent F)) (k : Key)
      → fired_at (lookup Key-discrete k (last_event_per_key rows)) ≡ fires k rows
  unfolding last_event_per_key fires lookup
  fired_at-last_event_per_key [] k = refl
  fired_at-last_event_per_key (e ∷ rows) k = elim (Key-discrete (key_of e) k) [
    | yes p ↦ rw (if_pos (Key-discrete (key_of e) k) p) (
        ap fired_at (
          subst
            (λ i.
              lookup Key-discrete i (insert Key-discrete (key_of e) e (last_event_per_key rows))
              ≡ some e)
            p (lookup-insert_self Key-discrete (key_of e) e (last_event_per_key rows))))
    | no p ↦ rw (if_neg (Key-discrete (key_of e) k) p) (
        ap fired_at (lookup-insert_ne Key-discrete (key_of e) k e (last_event_per_key rows) p)
        ∙ fired_at-last_event_per_key rows k)
  ]

  -- The machine that New rebuilds is firing exactly where the newest journalled event is a fired one.
  pub restored_machine-Agrees : (t : EventTable F) → Agrees (restored_machine t) t.rows
  unfolding restored_machine
  restored_machine-Agrees t k =
      restore-is_firing (firing_keys (last_event_per_key t.rows)) new_machine k
      ∙ ground (
        arith,
        in_keys-firing_keys k (last_event_per_key t.rows) (last_event_per_key-UniqueKeys t.rows),
        fired_at-last_event_per_key t.rows k,
        new_machine-state k,
      )

-- What can happen to the alerting of a hub: a tick, or a stop followed by New.
pub data Step (fl : Float) (visit : List (Rule fl.F) → List (Rule fl.F))
    : Alerting fl.F → Alerting fl.F → Type 0 where
  ticks :
      (stores : AlertEvent fl.F → Bool) (up : (e : AlertEvent fl.F) → stores e ≡ true)
      (a : Alerting fl.F) (inp : Input fl.F)
      → Step fl visit a (tick fl visit stores a inp).0
  restarts :
      (a : Alerting fl.F)
      → Step fl visit a (record { machine = restored_machine a.table; table = a.table })

pub data Reach (fl : Float) (visit : List (Rule fl.F) → List (Rule fl.F)) (a : Alerting fl.F)
    : Alerting fl.F → Type 0 where
  here : Reach fl visit a a
  next : {b c : Alerting fl.F} → Reach fl visit a b → Step fl visit b c → Reach fl visit a c

module _ (fl : Float) (visit : List (Rule fl.F) → List (Rule fl.F)) (t : EventTable fl.F) where
  -- The hub as New leaves it, over any journal.
  abbrev pub started : Alerting fl.F
  started = record { machine = restored_machine t; table = t }

  -- After any ticks, whose events the store accepted, and restarts, a key is firing exactly where the
  -- newest journalled event of the key is a fired one.
  pub Reach-Agrees : {b : Alerting fl.F} → Reach fl visit started b → Agrees b.machine b.table.rows
  Reach-Agrees here = restored_machine-Agrees t
  Reach-Agrees (next r (ticks stores up a inp)) =
      tick-Agrees fl stores up visit a inp (Reach-Agrees r)
  Reach-Agrees (next r (restarts a)) = restored_machine-Agrees a.table

  -- Whatever ticks, whose events the store accepted, and restarts the hub went through, a further
  -- restart changes no alert: each key is firing after it exactly if it was firing before it.
  pub restart_keeps_firing :
      {b : Alerting fl.F} (k : Key)
      → Reach fl visit started b
      → is_firing (state_of (restored_machine b.table) k) ≡ is_firing (state_of b.machine k)
  restart_keeps_firing {b} k r = restored_machine-Agrees b.table k ∙ sym (Reach-Agrees r k)
