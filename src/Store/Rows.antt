-- ===== src/Store/Rows.antt =====
-- The row types of internal/hub/store. A nil pointer is `none`; an enumeration kept as text is a data
-- type.
use serversmonitor.Prelude.{ℕ, Bool, Option, List, String}
use serversmonitor.Prelude.Int.{ℤ}
use serversmonitor.Time.{Time, Duration}

pub data HostStatus : Type 0 where
  never_seen online offline : HostStatus

-- store/hosts.go
pub record Host : Type 0 where
  pub id : ℕ
  pub name : String
  pub status : HostStatus
  pub last_seen : Option Time
  pub os : String
  pub arch : String
  pub hostname : String
  pub agent_version : String
  pub cores : ℤ
  pub mem_total : ℤ
  pub muted : Bool
  pub created_at : Time

-- proto/messages.go
pub record Disk (F : Type 0) : Type 0 where
  pub mount : String
  pub used : ℤ
  pub total : ℤ
  pub read_bps : F
  pub write_bps : F

pub record Temp (F : Type 0) : Type 0 where
  pub sensor : String
  pub celsius : F

-- store/samples.go: a nil field was not collected, which is never the same as zero.
pub record SampleRow (F : Type 0) : Type 0 where
  pub host_id : ℕ
  pub at : Time
  pub cpu : Option F
  pub mem_used : Option ℤ
  pub mem_total : Option ℤ
  pub swap_used : Option ℤ
  pub swap_total : Option ℤ
  pub load1 : Option F
  pub load5 : Option F
  pub load15 : Option F
  pub uptime : Option ℤ
  pub net_sent_bps : Option F
  pub net_recv_bps : Option F
  pub disks : List (Disk F)
  pub temps : List (Temp F)

-- store/alerts.go: `host_id` is none for a rule on every host, `channels` none for every channel.
pub record Rule (F : Type 0) : Type 0 where
  pub id : ℕ
  pub host_id : Option ℕ
  pub metric : String
  pub threshold : F
  pub duration : Duration
  pub channels : Option (List String)
  pub remind : Duration
  pub created_at : Time

pub data Kind : Type 0 where
  fired resolved reminder : Kind

-- One alert transition; only fired and resolved are ever stored.
pub record AlertEvent (F : Type 0) : Type 0 where
  pub id : ℕ
  pub rule_id : ℕ
  pub host_id : ℕ
  pub metric : String
  pub kind : Kind
  pub value : F
  pub at : Time

-- store/guardrails.go
pub record GuardrailKey : Type 0 where
  pub subject : String
  pub rule : String
  pub detail : String

pub record GuardrailEvent (F : Type 0) : Type 0 where
  pub id : ℕ
  pub subject : String
  pub rule : String
  pub detail : String
  pub kind : Kind
  pub value : F
  pub at : Time
