-- ===== src/Store/Stale.antt =====
-- internal/hub/store/hosts.go, MarkStale: the online hosts that have not been seen for a while.
use serversmonitor.Prelude.{
  ℕ, ◌≡◌, refl, Bool, true, false, Option, none, some, List, [], ◌∷◌, if◌then◌else◌, ◌==◌, keep_if,
  map, arith, ◌-◌, Option-cases, Bool-cases, inl, inr,
}
use serversmonitor.Time.{Time}
use serversmonitor.Store.Rows.{Host, HostStatus, online, offline}
use serversmonitor.Store.Hosts.{
  HostRow, host_by_id, exec_one, update_rows, with_host, seen_as, set_host_status,
}
use serversmonitor.Store.Stamps.{stamp_lt}

abbrev pub is_online : HostStatus → Bool
is_online online = true
is_online _ = false

-- `last_seen < ?`, which a missing last_seen never meets.
abbrev pub seen_before : Option Time → Time → Bool
seen_before none cutoff = false
seen_before (some t) cutoff = stamp_lt t cutoff

-- `status = 'online' AND last_seen < ?`
unfoldable pub is_stale : Time → Host → Bool
is_stale cutoff h = if is_online h.status then seen_before h.last_seen cutoff else false

abbrev pub turned_off : Host → Host
turned_off h = record h { status = offline }

unfoldable pub stale_hosts : Time → List HostRow → List Host
stale_hosts cutoff [] = []
stale_hosts cutoff (r ∷ rows) =
    let rest = stale_hosts cutoff rows in if is_stale cutoff r.host then r.host ∷ rest else rest

-- The second loop of MarkStale: none when an update finds no row.
unfoldable pub turn_off_all : List HostRow → List Host → Option (List HostRow)
turn_off_all rows [] = some rows
turn_off_all rows (h ∷ hs) = elim (set_host_status rows h.id offline none) [
  | none ↦ none
  | some rows' ↦ turn_off_all rows' hs
]

-- MarkStale, with the oldest instant that is not stale; the hosts it returns are marked offline.
unfoldable pub mark_stale : List HostRow → Time → ℕ → Option (List HostRow × List Host)
mark_stale rows now max_age =
    let stale = stale_hosts (now - max_age) rows in
    elim (turn_off_all rows stale) [ none ↦ none | some rows' ↦ some (rows', map turned_off stale) ]

-- The effect that the statements have together: every stale host offline, every other as it was.
abbrev pub turn_off_stale : Time → HostRow → HostRow
turn_off_stale cutoff r =
    if is_stale cutoff r.host then record r { host = turned_off r.host } else r

-- No id stands twice, as the primary key has it.
abbrev pub UniqueIds : List HostRow → Type 0
UniqueIds [] = Unit
UniqueIds (r ∷ rows) = (host_by_id rows r.host.id ≡ none) × UniqueIds rows

has_id : List Host → ℕ → Bool
has_id [] id = false
has_id (h ∷ hs) id = let rest = has_id hs id in if h.id == id then true else rest

update_rows-absent :
    (f : HostRow → HostRow) (rows : List HostRow) (id : ℕ)
    → host_by_id rows id ≡ none
    → update_rows f rows id ≡ rows
unfolding update_rows host_by_id
update_rows-absent f [] id h = refl
update_rows-absent f (r ∷ rows) id h = ground (arith, update_rows-absent f rows id)

stale_hosts-absent :
    (cutoff : Time) (rows : List HostRow) (id : ℕ)
    → host_by_id rows id ≡ none
    → has_id (stale_hosts cutoff rows) id ≡ false
unfolding stale_hosts host_by_id has_id
stale_hosts-absent cutoff [] id h = refl
stale_hosts-absent cutoff (r ∷ rows) id h = ground (arith, stale_hosts-absent cutoff rows id)

abbrev off_row : HostRow → HostRow
off_row = with_host (seen_as offline none)

set_host_status-head :
    (r : HostRow) (rows : List HostRow)
    → host_by_id rows r.host.id ≡ none
    → set_host_status (r ∷ rows) r.host.id offline none ≡ some (off_row r ∷ rows)
unfolding set_host_status exec_one host_by_id update_rows
set_host_status-head r rows h = ground (arith, update_rows-absent off_row rows r.host.id h)

set_host_status-skips :
    (r : HostRow) (rows rows' : List HostRow) (id : ℕ)
    → (r.host.id == id) ≡ false
    → set_host_status rows id offline none ≡ some rows'
    → set_host_status (r ∷ rows) id offline none ≡ some (r ∷ rows')
unfolding set_host_status exec_one host_by_id update_rows
set_host_status-skips r rows rows' id ne e = elim (Option-cases (host_by_id rows id)) [
  | inl n ↦ absurd (cc (rw (n, set_host_status, exec_one) at e))
  | inr (x, n) ↦ rw (set_host_status, exec_one, ne, n) (cc (rw (n, set_host_status, exec_one) at e))
]

has_id-cons :
    (h : Host) (hs : List Host) (id : ℕ)
    → has_id (h ∷ hs) id ≡ false
    → ((id == h.id) ≡ false) × (has_id hs id ≡ false)
unfolding has_id
has_id-cons h hs id e = ground arith

-- A row whose id is not asked for is passed over.
turn_off_all-skips :
    (r : HostRow) (rows : List HostRow) (hs : List Host) (rows' : List HostRow)
    → has_id hs r.host.id ≡ false
    → turn_off_all rows hs ≡ some rows'
    → turn_off_all (r ∷ rows) hs ≡ some (r ∷ rows')
unfolding turn_off_all
turn_off_all-skips r rows [] rows' a e = cc e
turn_off_all-skips r rows (h ∷ hs) rows' a e =
    let apart = has_id-cons h hs r.host.id a in
    elim (Option-cases (set_host_status rows h.id offline none)) [
      | inl n ↦ absurd (cc (rw (n, turn_off_all) at e))
      | inr (rows'', n) ↦
          rw (turn_off_all, set_host_status-skips r rows rows'' h.id apart.0 n)
            (turn_off_all-skips r rows'' hs rows' apart.1 (rw (n, turn_off_all) at e))
    ]

turn_off_all-stale :
    (cutoff : Time) (rows : List HostRow)
    → UniqueIds rows
    → turn_off_all rows (stale_hosts cutoff rows) ≡ some (map (turn_off_stale cutoff) rows)
unfolding turn_off_all stale_hosts seen_as with_host
turn_off_all-stale cutoff [] u = refl
turn_off_all-stale cutoff (r ∷ rows) u =
    let absent = stale_hosts-absent cutoff rows r.host.id u.0 in
    let rest = turn_off_all-stale cutoff rows u.1 in
    elim (Bool-cases (is_stale cutoff r.host)) [
      | inl e ↦
          rw (e, turn_off_all, set_host_status-head r rows u.0)
            (turn_off_all-skips (off_row r) rows (stale_hosts cutoff rows) _ absent rest)
      | inr e ↦ rw e (turn_off_all-skips r rows (stale_hosts cutoff rows) _ absent rest)
    ]

-- The hosts that the table holds, in its order.
abbrev pub hosts_of : List HostRow → List Host
hosts_of rows = map (λ r. r.host) rows

stale_hosts-keep_if :
    (cutoff : Time) (rows : List HostRow)
    → stale_hosts cutoff rows ≡ keep_if (is_stale cutoff) (hosts_of rows)
unfolding stale_hosts
stale_hosts-keep_if cutoff [] = refl
stale_hosts-keep_if cutoff (r ∷ rows) = rw (stale_hosts-keep_if cutoff rows) refl

-- In a table without a repeated id, the marking of the stale hosts always succeeds: it turns exactly
-- the stale ones off, changes no other row, and returns those it turned off, in order, as they now are.
pub mark_stale_lem :
    (rows : List HostRow) (now : Time) (max_age : ℕ)
    → UniqueIds rows
    → mark_stale rows now max_age
      ≡ some (
        map (turn_off_stale (now - max_age)) rows,
        map turned_off (keep_if (is_stale (now - max_age)) (hosts_of rows)),
      )
unfolding mark_stale
mark_stale_lem rows now max_age u =
    rw
      (
        mark_stale,
        turn_off_all-stale (now - max_age) rows u,
        stale_hosts-keep_if (now - max_age) rows,
      )
      refl
