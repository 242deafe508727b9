-- ===== src/Ingest/OneSocket.antt =====
-- internal/hub/ingest/handler.go: the connections over any course of comings and goings.
use serversmonitor.Prelude.{
  ℕ, ◌≡◌, ℕ_discrete, Bool, true, false, ◌&&◌, not, some, List, [], ◌∷◌, if◌then◌else◌, ◌==◌,
  lookup, lookup-insert_self, lookup-insert_ne, lookup-delete_ne, arith,
}
use serversmonitor.Prelude.Int.{ℤ}
use serversmonitor.Ingest.Registry.{Registry, new_registry, register, unregister, reconfigure}

unfoldable pub is_in : ℕ → List ℕ → Bool
is_in c [] = false
is_in c (d ∷ ds) = let rest = is_in c ds in if d == c then true else rest

unfoldable pub was_opened : List (ℕ × ℕ) → ℕ → ℕ → Bool
was_opened [] id c = false
was_opened ((i, d) ∷ os) id c =
    let rest = was_opened os id c in if (i == id) && (d == c) then true else rest

-- The registries that a course of events can lead to, with the connections that were opened, each
-- with its host, and those whose handler has ended.
pub data Reach : Registry → List (ℕ × ℕ) → List ℕ → Type 0 where
  start : (n : ℤ) → Reach (new_registry n) [] []
  opens :
      {r : Registry} {opened : List (ℕ × ℕ)} {gone : List ℕ} (id c : ℕ)
      → Reach r opened gone
      → Reach (register r id c) ((id, c) ∷ opened) gone
  ends :
      {r : Registry} {opened : List (ℕ × ℕ)} {gone : List ℕ} (id c : ℕ)
      → Reach r opened gone
      → Reach (unregister r id c) opened (c ∷ gone)
  reconfigures :
      {r : Registry} {opened : List (ℕ × ℕ)} {gone : List ℕ} (n : ℤ)
      → Reach r opened gone
      → Reach (reconfigure r n) opened gone

-- A connection that was opened and that neither the hub closed nor its handler left.
unfoldable pub is_live : Registry → List (ℕ × ℕ) → List ℕ → ℕ → ℕ → Bool
is_live r opened gone id c = was_opened opened id c && not (is_in c r.closed) && not (is_in c gone)

-- Every live connection is the one that the map holds for its host.
live_held :
    {r : Registry} {opened : List (ℕ × ℕ)} {gone : List ℕ} (id c : ℕ)
    → Reach r opened gone
    → is_live r opened gone id c ≡ true
    → lookup ℕ_discrete id r.conns ≡ some c
unfolding is_live was_opened is_in register unregister reconfigure new_registry
live_held id c (start n) l = absurd (cc l)
live_held id c (reconfigures n h) l = live_held id c h l
live_held id c (opens {r = r} {opened = opened} {gone = gone} i d h) l = ground (
  arith,
  l,
  live_held id c h,
  lookup-insert_self ℕ_discrete i d r.conns,
  lookup-insert_ne ℕ_discrete i id d r.conns,
)
live_held id c (ends {r = r} {opened = opened} {gone = gone} i d h) l =
    ground (arith, l, live_held id c h, lookup-delete_ne ℕ_discrete i id r.conns)

-- Whatever agents connect, drop and reconnect, in any order, no host has two live connections: a newer
-- one has closed the older, and the end of the older takes nothing from the newer.
pub Reach-one_live :
    {r : Registry} {opened : List (ℕ × ℕ)} {gone : List ℕ} (id c d : ℕ)
    → Reach r opened gone
    → is_live r opened gone id c ≡ true
    → is_live r opened gone id d ≡ true
    → c ≡ d
Reach-one_live id c d h lc ld = ground (arith, live_held id c h lc, live_held id d h ld)
