-- ===== src/Alerts/Machine.antt =====
-- internal/hub/alerts/machine.go: one cell per (rule, host) key. Each method runs under the mutex, so
-- it is one step on the map of cells.
use serversmonitor.Prelude.{
  ℕ, Bool, true, false, Option, none, some, List, [], ◌∷◌, lookup, insert, delete, ℕ_discrete,
  if◌then◌else◌,
}
use serversmonitor.Time.{Time, Duration, time_sub, dur_le, no_time}

pub data State : Type 0 where
  ok pending firing : State

pub record Key : Type 0 where
  pub rule_id : ℕ
  pub host_id : ℕ

unfoldable pub Key-discrete : Discrete Key
unfolding ℕ_discrete
Key-discrete = hlevel ℕ_discrete

pub data Transition : Type 0 where
  nothing fired resolved : Transition

-- `since` is the first breach of the current pending run; a new cell has the zero Time there.
pub record Cell : Type 0 where
  pub state : State
  pub since : Time

abbrev pub new_cell : Cell
new_cell = record { state = ok; since = 0 }

pub record Machine : Type 0 where
  pub cells : List (Key × Cell)

unfoldable pub new_machine : Machine
new_machine = record { cells = [] }

unfoldable pub restore : List Key → Machine → Machine
restore [] m = m
restore (k ∷ ks) m =
    restore ks
      (record m { cells = insert Key-discrete k (record { state = firing; since = 0 }) m.cells })

-- The cell that a key reads: `&cell{}` where the map has none.
abbrev pub found_or_new : Option Cell → Cell
found_or_new none = new_cell
found_or_new (some c) = c

unfoldable pub cell_at : Machine → Key → Cell
cell_at m k = found_or_new (lookup Key-discrete k m.cells)

unfoldable pub state_of : Machine → Key → State
unfolding cell_at
state_of m k = (cell_at m k).state

unfoldable pub forget : Machine → Key → Machine
forget m k = record m { cells = delete Key-discrete k m.cells }

-- The switch of Observe on the state of the cell.
unfoldable pub observe_cell : State → Cell → Bool → Time → Duration → Cell × Transition
observe_cell ok c false now d = (c, nothing)
observe_cell ok c true now d =
    if dur_le d no_time
    then (record { state = firing; since = now }, fired)
    else (record { state = pending; since = now }, nothing)
observe_cell pending c false now d = (record c { state = ok }, nothing)
observe_cell pending c true now d =
    if dur_le d (time_sub now c.since) then (record c { state = firing }, fired) else (c, nothing)
observe_cell firing c true now d = (c, nothing)
observe_cell firing c false now d = (record c { state = ok }, resolved)

unfoldable pub observe : Machine → Key → Bool → Time → Duration → Machine × Transition
observe m k breached now d =
    let c = cell_at m k in
    let (c', t) = observe_cell c.state c breached now d in
    (record m { cells = insert Key-discrete k c' m.cells }, t)
