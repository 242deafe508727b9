-- ===== src/Ingest/Registry.antt =====
-- internal/hub/ingest/handler.go: which connection each host has. A connection is a number; the lock of
-- the handler makes each operation one step. Reconfigure writes to every connection of the map.
use serversmonitor.Prelude.{
  ℕ, ℕ_discrete, Bool, Option, none, some, List, [], ◌∷◌, ◌++◌, map, if◌then◌else◌, ◌==◌, lookup,
  insert, delete,
}
use serversmonitor.Prelude.Int.{ℤ}

pub record Registry : Type 0 where
  pub conns : List (ℕ × ℕ)
  -- the connections that the hub closed because a newer one replaced them
  pub closed : List ℕ
  pub interval_sec : ℤ
  -- the connections that were told of a new interval, with it
  pub told : List (ℕ × ℤ)

unfoldable pub new_registry : ℤ → Registry
new_registry interval_sec = record {
  conns = [];
  closed = [];
  interval_sec = interval_sec;
  told = [];
}

abbrev pub close_old : Option ℕ → List ℕ → List ℕ
close_old none closed = closed
close_old (some c) closed = c ∷ closed

unfoldable pub register : Registry → ℕ → ℕ → Registry
register r id c = record r {
  conns = insert ℕ_discrete id c r.conns;
  closed = close_old (lookup ℕ_discrete id r.conns) r.closed;
}

abbrev pub holds : Option ℕ → ℕ → Bool
holds none c = Bool.false
holds (some d) c = d == c

unfoldable pub unregister : Registry → ℕ → ℕ → Registry
unregister r id c =
    if holds (lookup ℕ_discrete id r.conns) c
    then record r { conns = delete ℕ_discrete id r.conns }
    else r

-- Connected, in some order
unfoldable pub connected : Registry → List ℕ
connected r = map (λ e. e.0) r.conns

-- Reconfigure
unfoldable pub reconfigure : Registry → ℤ → Registry
reconfigure r n = record r { interval_sec = n; told = r.told ++ map (λ e. (e.1, n)) r.conns }
