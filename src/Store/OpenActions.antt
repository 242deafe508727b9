-- ===== src/Store/OpenActions.antt =====
-- How the statements of internal/hub/store/azure_actions.go change the number of open rows of a resource.
use serversmonitor.Prelude.{
  ℕ, ◌+◌, ◌≤◌, ◌≡◌, refl, subst, true, false, Option, none, some, List, [], ◌∷◌, ◌++◌, String, ◌⊎◌,
  if◌then◌else◌, ◌==◌, text_eq, map, arith, String_discrete, Bool-cases, inl, inr,
}
use serversmonitor.Time.{Time}
use serversmonitor.Store.AzureActions.{
  AzureAction, ActionTable, ActionStatus, pending, running, succeeded, failed, interrupted,
  accepted, is_open, in_flight, start_azure_action, mark_azure_action_running, finish_azure_action,
  closed_at, as_running,
}

-- At most one row of each resource is pending or running.
abbrev pub OneInFlight : ActionTable → Type 0
OneInFlight t = (r : String) → in_flight r t.rows ≤ 1

pub in_flight-append :
    (r : String) (xs ys : List AzureAction)
    → in_flight r (xs ++ ys) ≡ in_flight r xs + in_flight r ys
unfolding in_flight
in_flight-append r [] ys = omega arith
in_flight-append r (x ∷ xs) ys = ground (arith, in_flight-append r xs ys)

-- A change of rows that opens none and moves none to another resource.
pub in_flight-map_le :
    (change : AzureAction → AzureAction) (r : String) (rows : List AzureAction)
    → ((a : AzureAction) → is_open (change a).status ≡ true → is_open a.status ≡ true)
    → ((a : AzureAction) → (change a).resource_id ≡ a.resource_id)
    → in_flight r (map change rows) ≤ in_flight r rows
unfolding in_flight
in_flight-map_le change r [] opens same = omega arith
in_flight-map_le change r (a ∷ rows) opens same =
    let rest = in_flight-map_le change r rows opens same in
    elim (Bool-cases (is_open (change a).status)) [
      | inl o ↦ rw (o, same a, opens a o) (ground (arith, rest))
      | inr c ↦ rw c (ground (arith, rest))
    ]

pub as_running-opens : (s : ActionStatus) → is_open (as_running s) ≡ true → is_open s ≡ true
as_running-opens pending h = refl
as_running-opens running h = refl
as_running-opens succeeded h = h
as_running-opens failed h = h
as_running-opens interrupted h = h

pub mark-OneInFlight :
    (t : ActionTable) (id : ℕ) → OneInFlight t → OneInFlight (mark_azure_action_running t id)
unfolding mark_azure_action_running
mark-OneInFlight t id one r = omega (
  arith,
  one r,
  in_flight-map_le (λ a. if a.id == id then record a { status = as_running a.status } else a) r
      t.rows (λ a o. opened a (Bool-cases (a.id == id)) o) (λ a. kept a),
)
  where
    opened :
        (a : AzureAction)
        → (((a.id == id) ≡ true) ⊎ ((a.id == id) ≡ false))
        → is_open (if a.id == id then record a { status = as_running a.status } else a).status
          ≡ true
        → is_open a.status ≡ true
    opened a (inl e) o = as_running-opens a.status (rw e at o)
    opened a (inr e) o = rw e at o

    kept :
        (a : AzureAction)
        → (if a.id == id then record a { status = as_running a.status } else a).resource_id
          ≡ a.resource_id
    kept a = ground arith

pub finish-OneInFlight :
    (t : ActionTable) (id : ℕ) (s : ActionStatus) (msg : String) (after : Option String)
    (now : Time)
    → is_open s ≡ false
    → OneInFlight t
    → OneInFlight (finish_azure_action t id s msg after now)
unfolding finish_azure_action
finish-OneInFlight t id s msg after now closed one r = omega (
  arith,
  one r,
  in_flight-map_le ended r t.rows (λ a o. opened a (Bool-cases (a.id == id)) o) (λ a. kept a),
)
  where
    ended : AzureAction → AzureAction
    ended a =
        if a.id == id
        then record a { status = s; error = msg; state_after = after; finished_at = some now }
        else a

    opened :
        (a : AzureAction)
        → (((a.id == id) ≡ true) ⊎ ((a.id == id) ≡ false))
        → is_open (ended a).status ≡ true
        → is_open a.status ≡ true
    opened a (inl e) o = ground (arith, rw e at o, closed)
    opened a (inr e) o = rw e at o

    kept : (a : AzureAction) → (ended a).resource_id ≡ a.resource_id
    kept a = ground arith

pub start-OneInFlight :
    (t t' : ActionTable) (a : AzureAction) (id : ℕ)
    → OneInFlight t
    → start_azure_action t a ≡ accepted id t'
    → OneInFlight t'
unfolding start_azure_action in_flight
start-OneInFlight t t' a id one h r = elim (Bool-cases (in_flight a.resource_id t.rows == 0)) [
  | inr busy ↦ absurd (cc (rw busy at h))
  | inl free ↦
      subst (λ rows. in_flight r rows ≤ 1) (rows_of free)
        (rw (in_flight-append r t.rows (stored ∷ [])) (elim (String_discrete a.resource_id r) [
          | yes e ↦ ground (arith, subst (λ k. in_flight k t.rows ≡ 0) e (none_yet free))
          | no d ↦ ground (arith, one r, d)
        ]))
]
  where
    stored : AzureAction
    stored = record a {
      id = t.next_id;
      status = pending;
      finished_at = none;
      error = "";
      state_after = none;
      origin = if text_eq a.origin "" then "user" else a.origin;
    }

    none_yet : (in_flight a.resource_id t.rows == 0) ≡ true → in_flight a.resource_id t.rows ≡ 0
    none_yet free = ground (arith, free)

    rows_of : (in_flight a.resource_id t.rows == 0) ≡ true → t.rows ++ stored ∷ [] ≡ t'.rows
    rows_of free = cc (rw free at h)

pub none_open_after :
    (rows : List AzureAction) (r : String) (now : Time) → in_flight r (map (closed_at now) rows) ≡ 0
unfolding in_flight
none_open_after [] r now = refl
none_open_after (a ∷ rows) r now = elim (Bool-cases (is_open a.status)) [
  | inl o ↦ rw o (none_open_after rows r now)
  | inr c ↦ rw c (rw c (none_open_after rows r now))
]
