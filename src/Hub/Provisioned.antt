-- ===== src/Hub/Provisioned.antt =====
-- internal/hub/azure_provision.go: what a refused start and a finished deletion leave.
use serversmonitor.Prelude.{
  ◌<◌, ◌≡◌, refl, ◌∙◌, subst, inl, inr, Bool, false, Option, none, some, List, [], ◌∷◌, ◌++◌,
  String, if◌then◌else◌, ◌==◌, map, All, Bool-cases, Option-cases, arith,
}
use serversmonitor.Time.{Time}
use serversmonitor.Store.Hosts.{create_host}
use serversmonitor.Store.Provisions.{
  AzureProvision, ProvisionTables, is_open, start_azure_provision, finish_azure_provision,
  update_provision, in_flight,
}
use serversmonitor.Azure.Inventory.{Strings}
use serversmonitor.Azure.ProvisionConfig.{
  ProvisionConfig, Missing, ready, parse_subnet_id, validate_vm_name,
}
use serversmonitor.Hub.AzureSync.{AzureConfig}
use serversmonitor.Hub.Provisioning.{
  ProvisionHub, StartOutcome, Refused, missing, bad_subnet, outside_scope, within_scope,
  start_provision, started, start_refused, open_run, finish_provision,
}

-- Ids are given in their order, so that none stands before it is given.
abbrev pub FreshIds : ProvisionTables → Type 0
FreshIds t = All (λ p. p.id < t.next_id) t.rows

-- The last row alone is changed by an update of the newest id.
in_flight-finished :
    (n : String) (rows : List AzureProvision) (p : AzureProvision)
    (f : AzureProvision → AzureProvision)
    → All (λ q. q.id < p.id) rows
    → in_flight n (map (λ q. if q.id == p.id then f q else q) (rows ++ p ∷ []))
      ≡ in_flight n (rows ++ f p ∷ [])
unfolding in_flight
in_flight-finished n [] p f h = ground arith
in_flight-finished n (q ∷ rows) p f h = ground (arith, h.0, in_flight-finished n rows p f h.1)

in_flight-closed :
    (n : String) (rows : List AzureProvision) (p : AzureProvision)
    → is_open p.status ≡ false
    → in_flight n (rows ++ p ∷ []) ≡ in_flight n rows
unfolding in_flight
in_flight-closed n [] p h = ground (arith, h)
in_flight-closed n (q ∷ rows) p h = ground (arith, in_flight-closed n rows p h)

-- What a refused start leaves: no host more, and no run of the name n more.
abbrev Unstarted : ProvisionHub → String → StartOutcome → Type 0
Unstarted h n (started id host h') = Unit
Unstarted h n (start_refused r h') =
    (h'.hosts ≡ h.hosts) × (in_flight n h'.provisions.rows ≡ in_flight n h.provisions.rows)

open_run-Unstarted :
    (hash : String → String) (h : ProvisionHub) (name token msg : String) (now : Time) (n : String)
    → FreshIds h.provisions
    → Unstarted h n (open_run hash h name token msg now)
unfolding open_run start_azure_provision finish_provision finish_azure_provision update_provision
open_run-Unstarted hash h name token msg now n fresh =
    elim (Bool-cases (in_flight name h.provisions.rows == 0)) [
      | inr b ↦ rw (open_run, b) (refl, refl)
      | inl b ↦ elim (Option-cases (create_host hash h.hosts name token now)) [
        | inr ((rows, host), c) ↦ rw (open_run, b, c) tt
        | inl c ↦
            rw (open_run, b, c)
              (
                refl,
                in_flight-finished n h.provisions.rows _ _ fresh
                    ∙ in_flight-closed n h.provisions.rows _ refl,
              )
      ]
    ]

-- A start behind the check of the name.
configured-Unstarted :
    (text : Strings) (equal_fold : String → String → Bool) (h : ProvisionHub) (cfg : AzureConfig)
    (p : ProvisionConfig) (n : String) (ms : List Missing) (run : StartOutcome)
    → Unstarted h n run
    → Unstarted h n (elim ms as (λ _. StartOutcome) [
      | m ∷ ms' ↦ start_refused (missing (m ∷ ms')) h
      | [] ↦ elim (parse_subnet_id text p.subnet_id) as (λ _. StartOutcome) [
        | none ↦ start_refused bad_subnet h
        | some parts ↦
            if within_scope equal_fold cfg parts then run else start_refused outside_scope h
      ]
    ])
configured-Unstarted text equal_fold h cfg p n (m ∷ ms) run u = (refl, refl)
configured-Unstarted text equal_fold h cfg p n [] run u =
    elim (Option-cases (parse_subnet_id text p.subnet_id)) [
      | inl e ↦ rw e (refl, refl)
      | inr (parts, e) ↦ elim (Bool-cases (within_scope equal_fold cfg parts)) [
        | inl w ↦ rw (e, w) u
        | inr w ↦ rw (e, w) (refl, refl)
      ]
    ]

start_provision-Unstarted :
    (text : Strings) (reachable : String → Bool) (hash : String → String) (h : ProvisionHub)
    (cfg : Option AzureConfig) (p : ProvisionConfig) (name token msg : String) (now : Time)
    (n : String)
    → FreshIds h.provisions
    → Unstarted h n (start_provision text reachable hash h cfg p name token msg now)
unfolding start_provision
start_provision-Unstarted text reachable hash h none p name token msg now n fresh = (refl, refl)
start_provision-Unstarted text reachable hash h (some cfg) p name token msg now n fresh =
    let trimmed = text.trim_space name in
    elim (Bool-cases (validate_vm_name trimmed)) [
      | inr v ↦ rw (start_provision, v) (refl, refl)
      | inl v ↦
          rw (start_provision, v)
            (configured-Unstarted text text.equal_fold h cfg p n (ready text reachable p)
              (open_run hash h trimmed token msg now)
              (open_run-Unstarted hash h trimmed token msg now n fresh))
    ]

-- Where the next id of the table of runs is above the ids of all its runs, a start that is
-- refused, whatever the reason, leaves no host behind and keeps no name locked: the hosts are those of
-- before, and so are the open runs of every name.
pub start_provision-refused :
    (text : Strings) (reachable : String → Bool) (hash : String → String) (h h' : ProvisionHub)
    (cfg : Option AzureConfig) (p : ProvisionConfig) (name token msg : String) (now : Time)
    (n : String) (r : Refused)
    → FreshIds h.provisions
    → start_provision text reachable hash h cfg p name token msg now ≡ start_refused r h'
    → (h'.hosts ≡ h.hosts) × (in_flight n h'.provisions.rows ≡ in_flight n h.provisions.rows)
start_provision-refused text reachable hash h h' cfg p name token msg now n r fresh e =
    subst (Unstarted h n) e
      (start_provision-Unstarted text reachable hash h cfg p name token msg now n fresh)
