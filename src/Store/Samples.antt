-- ===== src/Store/Samples.antt =====
-- internal/hub/store/samples.go: the samples, and the containers that they carry. A table is the list of
-- its rows; an insertion that fails leaves every table as it is, since it is one transaction.
use serversmonitor.Prelude.{
  ℕ, Bool, true, false, ◌&&◌, ◌||◌, not, Option, none, some, List, [], ◌∷◌, ◌++◌, String,
  if◌then◌else◌, ◌==◌, text_eq, keep_if, ◌*◌,
}
use serversmonitor.Prelude.Int.{ℤ}
use serversmonitor.Time.{Time, after, hour}
use serversmonitor.Store.Rows.{SampleRow}
use serversmonitor.Store.Stamps.{stamp_lt}
use serversmonitor.Proto.Messages.{Sample, Container, Net}

pub record ContainerRow (F : Type 0) : Type 0 where
  pub host_id : ℕ
  pub name : String
  pub image : String
  pub status : String
  pub cpu : Option F
  pub mem_used : Option ℤ
  pub net_sent_bps : Option F
  pub net_recv_bps : Option F
  pub updated_at : Time

pub record ContainerSample (F : Type 0) : Type 0 where
  pub host_id : ℕ
  pub name : String
  pub at : Time
  pub cpu : F
  pub mem_used : ℤ
  pub net_sent_bps : F
  pub net_recv_bps : F

pub record SampleTables (F : Type 0) : Type 0 where
  pub samples : List (SampleRow F)
  pub containers : List (ContainerRow F)
  pub container_samples : List (ContainerSample F)

pub data Inserted (F : Type 0) : Type 0 where
  stored : SampleTables F → Inserted F
  stale key_taken : Inserted F

-- The later of two stored instants, as SQLite's max orders their texts.
abbrev pub later_stamp : Time → Option Time → Option Time
later_stamp t none = some t
later_stamp t (some u) = if stamp_lt t u then some u else some t

abbrev pub is_late : Option Time → Time → Bool
is_late none at = false
is_late (some last) at = not (after at last)

module _ {F : Type 0} where
  -- LastSampleAt
  unfoldable pub last_sample_at : List (SampleRow F) → ℕ → Option Time
  last_sample_at [] host_id = none
  last_sample_at (r ∷ rows) host_id =
      let rest = last_sample_at rows host_id in
      if r.host_id == host_id then later_stamp r.at rest else rest

  abbrev pub sent_of : Option (Net F) → Option F
  sent_of none = none
  sent_of (some n) = some n.sent_bps

  abbrev pub recv_of : Option (Net F) → Option F
  recv_of none = none
  recv_of (some n) = some n.recv_bps

  unfoldable pub sample_row : ℕ → Sample F → SampleRow F
  sample_row host_id sm = record {
    host_id = host_id;
    at = sm.at;
    cpu = sm.cpu;
    mem_used = sm.mem_used;
    mem_total = sm.mem_total;
    swap_used = sm.swap_used;
    swap_total = sm.swap_total;
    load1 = sm.load1;
    load5 = sm.load5;
    load15 = sm.load15;
    uptime = sm.uptime;
    net_sent_bps = sent_of sm.net;
    net_recv_bps = recv_of sm.net;
    disks = sm.disks;
    temps = sm.temps;
  }

  -- The primary key of samples.
  unfoldable pub has_sample : List (SampleRow F) → ℕ → Time → Bool
  has_sample [] host_id at = false
  has_sample (r ∷ rows) host_id at =
      ((r.host_id == host_id) && (r.at == at)) || has_sample rows host_id at

  unfoldable pub container_row : ℕ → Time → Container F → ContainerRow F
  container_row host_id at c = record {
    host_id = host_id;
    name = c.name;
    image = c.image;
    status = c.status;
    cpu = some c.cpu;
    mem_used = some c.mem_used;
    net_sent_bps = some c.net_sent_bps;
    net_recv_bps = some c.net_recv_bps;
    updated_at = at;
  }

  -- The primary key of containers.
  unfoldable pub is_container : ℕ → String → ContainerRow F → Bool
  is_container host_id name r = (r.host_id == host_id) && text_eq r.name name

  -- `INSERT ... ON CONFLICT(host_id, name) DO UPDATE`, which sets every other column
  unfoldable pub upsert_container : ContainerRow F → List (ContainerRow F) → List (ContainerRow F)
  upsert_container c [] = c ∷ []
  upsert_container c (r ∷ rows) =
      let rest = upsert_container c rows in
      if is_container c.host_id c.name r then c ∷ rows else r ∷ rest

  unfoldable pub upsert_containers :
      ℕ → Time → List (Container F) → List (ContainerRow F) → List (ContainerRow F)
  upsert_containers host_id at [] rows = rows
  upsert_containers host_id at (c ∷ cs) rows =
      upsert_containers host_id at cs (upsert_container (container_row host_id at c) rows)

  unfoldable pub has_container_sample : List (ContainerSample F) → ℕ → String → Time → Bool
  has_container_sample [] host_id name at = false
  has_container_sample (r ∷ rows) host_id name at =
      ((r.host_id == host_id) && text_eq r.name name && (r.at == at))
      || has_container_sample rows host_id name at

  -- `INSERT OR IGNORE INTO container_samples`
  unfoldable pub add_container_samples :
      ℕ → Time → List (Container F) → List (ContainerSample F) → List (ContainerSample F)
  add_container_samples host_id at [] rows = rows
  add_container_samples host_id at (c ∷ cs) rows =
      let row : ContainerSample F = record {
        host_id = host_id;
        name = c.name;
        at = at;
        cpu = c.cpu;
        mem_used = c.mem_used;
        net_sent_bps = c.net_sent_bps;
        net_recv_bps = c.net_recv_bps;
      } in
      add_container_samples host_id at cs
        (if has_container_sample rows host_id c.name at then rows else rows ++ row ∷ [])

  unfoldable pub has_container : List (Container F) → String → Bool
  has_container [] name = false
  has_container (c ∷ cs) name =
      let rest = has_container cs name in if text_eq c.name name then true else rest

  -- `DELETE FROM containers WHERE host_id = ? AND name NOT IN (...)`
  unfoldable pub drop_missing :
      ℕ → List (Container F) → List (ContainerRow F) → List (ContainerRow F)
  drop_missing host_id cs rows =
      keep_if (λ r. not ((r.host_id == host_id) && not (has_container cs r.name))) rows

  -- The part of InsertSample that is for a sample with Docker.
  unfoldable pub insert_containers : ℕ → Sample F → SampleTables F → SampleTables F
  insert_containers host_id sm t = record t {
    containers =
        drop_missing host_id sm.containers
          (upsert_containers host_id sm.at sm.containers t.containers);
    container_samples = add_container_samples host_id sm.at sm.containers t.container_samples;
  }

  -- InsertSample
  unfoldable pub insert_sample : SampleTables F → ℕ → Sample F → Inserted F
  insert_sample t host_id sm =
      let t' = record t { samples = t.samples ++ sample_row host_id sm ∷ [] } in
      if is_late (last_sample_at t.samples host_id) sm.at
      then stale
      else if has_sample t.samples host_id sm.at
      then key_taken
      else stored (if sm.docker_available then insert_containers host_id sm t' else t')

-- TableForPeriod: the table, and the span in nanoseconds; none for an unknown period.
unfoldable pub table_for_period : String → Option (String × Time)
table_for_period period =
    if text_eq period "1h"
    then some ("samples", hour)
    else if text_eq period "24h"
    then some ("samples", 24 * hour)
    else if text_eq period "7d"
    then some ("samples_10m", 7 * 24 * hour)
    else if text_eq period "30d"
    then some ("samples_1h", 30 * 24 * hour)
    else if text_eq period "1y"
    then some ("samples_1d", 365 * 24 * hour)
    else none
