-- ===== src/Store/Hosts.antt =====
-- internal/hub/store/hosts.go: the hosts table. A token reaches the table only as its hash; the token
-- itself comes from the system's random numbers, and `hash` is SHA-256 in hexadecimal. A statement that
-- breaks a constraint of the table leaves it as it is.
use serversmonitor.Prelude.{
  ℕ, suc, Bool, false, ◌||◌, Option, none, some, List, [], ◌∷◌, ◌++◌, String, if◌then◌else◌, ltb,
  ◌==◌, text_eq, keep_if, not,
}
use serversmonitor.Prelude.Int.{ℤ, pos}
use serversmonitor.Time.{Time}
use serversmonitor.Store.Rows.{Host, HostStatus, never_seen}

pub record HostRow : Type 0 where
  pub host : Host
  pub token_hash : String

pub record HostInfo : Type 0 where
  pub os : String
  pub arch : String
  pub hostname : String
  pub agent_version : String
  pub cores : ℤ
  pub mem_total : ℤ

unfoldable pub host_by_id : List HostRow → ℕ → Option Host
host_by_id [] id = none
host_by_id (r ∷ rows) id =
    let rest = host_by_id rows id in if r.host.id == id then some r.host else rest

-- HostByToken
unfoldable pub host_by_token : (String → String) → List HostRow → String → Option Host
host_by_token hash [] token = none
host_by_token hash (r ∷ rows) token =
    let rest = host_by_token hash rows token in
    if text_eq r.token_hash (hash token) then some r.host else rest

-- The unique columns of the table.
unfoldable pub has_name_or_hash : List HostRow → String → String → Bool
has_name_or_hash [] name h = false
has_name_or_hash (r ∷ rows) name h =
    text_eq r.host.name name || text_eq r.token_hash h || has_name_or_hash rows name h

unfoldable pub fresh_host_id : List HostRow → ℕ
fresh_host_id [] = 1
fresh_host_id (r ∷ rows) =
    let n = fresh_host_id rows in if ltb r.host.id n then n else suc r.host.id

-- CreateHost: none when the name is taken.
unfoldable pub create_host :
    (String → String) → List HostRow → String → String → Time → Option (List HostRow × Host)
create_host hash rows name token now =
    let h : Host = record {
      id = fresh_host_id rows;
      name = name;
      status = never_seen;
      last_seen = none;
      os = "";
      arch = "";
      hostname = "";
      agent_version = "";
      cores = pos 0;
      mem_total = pos 0;
      muted = false;
      created_at = now;
    } in
    if has_name_or_hash rows name (hash token)
    then none
    else some (rows ++ record { host = h; token_hash = hash token } ∷ [], h)

unfoldable pub update_rows : (HostRow → HostRow) → List HostRow → ℕ → List HostRow
update_rows f [] id = []
update_rows f (r ∷ rows) id =
    let rest = update_rows f rows id in if r.host.id == id then f r ∷ rest else r ∷ rest

-- execOne of an UPDATE: none is ErrNotFound.
unfoldable pub exec_one : (HostRow → HostRow) → List HostRow → ℕ → Option (List HostRow)
exec_one f rows id = elim (host_by_id rows id) [
  | none ↦ none
  | some h ↦ some (update_rows f rows id)
]

-- RegenerateToken, the new token given
unfoldable pub regenerate_token :
    (String → String) → List HostRow → ℕ → String → Option (List HostRow)
regenerate_token hash rows id token = exec_one (λ r. record r { token_hash = hash token }) rows id

unfoldable pub with_host : (Host → Host) → HostRow → HostRow
with_host f r = record r { host = f r.host }

unfoldable pub name_taken : List HostRow → ℕ → String → Bool
name_taken [] id name = false
name_taken (r ∷ rows) id name =
    let rest = name_taken rows id name in
    if r.host.id == id then rest else text_eq r.host.name name || rest

-- RenameHost: none when there is no such host or the name is another's.
unfoldable pub rename_host : List HostRow → ℕ → String → Option (List HostRow)
rename_host rows id name =
    if name_taken rows id name
    then none
    else exec_one (with_host (λ h. record h { name = name })) rows id

-- DeleteHost
unfoldable pub delete_host : List HostRow → ℕ → Option (List HostRow)
delete_host rows id = elim (host_by_id rows id) [
  | none ↦ none
  | some h ↦ some (keep_if (λ r. not (r.host.id == id)) rows)
]

-- SetMuted
unfoldable pub set_muted : List HostRow → ℕ → Bool → Option (List HostRow)
set_muted rows id muted = exec_one (with_host (λ h. record h { muted = muted })) rows id

-- UpdateHostInfo
unfoldable pub update_host_info : List HostRow → ℕ → HostInfo → Option (List HostRow)
update_host_info rows id info =
    exec_one
      (with_host (λ h. record h {
        os = info.os;
        arch = info.arch;
        hostname = info.hostname;
        agent_version = info.agent_version;
        cores = info.cores;
        mem_total = info.mem_total;
      }))
      rows id

unfoldable pub seen_as : HostStatus → Option Time → Host → Host
seen_as status none h = record h { status = status }
seen_as status (some t) h = record h { status = status; last_seen = some t }

-- SetHostStatus
unfoldable pub set_host_status : List HostRow → ℕ → HostStatus → Option Time → Option (List HostRow)
set_host_status rows id status seen = exec_one (with_host (seen_as status seen)) rows id
