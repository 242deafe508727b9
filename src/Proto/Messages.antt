-- ===== src/Proto/Messages.antt =====
-- internal/proto/messages.go: the messages. A nil pointer is `none`, which says that the value was not
-- collected; a nil slice is the empty list. F is the floating-point numbers.
use serversmonitor.Prelude.{ℕ, Bool, Option, List, String}
use serversmonitor.Prelude.Int.{ℤ}
use serversmonitor.Time.{Time}
use serversmonitor.Store.Rows.{Disk, Temp}

abbrev pub version : ℕ
version = 1

abbrev pub type_hello : String
type_hello = "hello"

abbrev pub type_welcome : String
type_welcome = "welcome"

abbrev pub type_sample : String
type_sample = "sample"

abbrev pub type_reconfigure : String
type_reconfigure = "reconfigure"

pub record Hello : Type 0 where
  pub v : ℕ
  pub type : String
  pub agent_version : String
  pub os : String
  pub arch : String
  pub hostname : String
  pub cores : ℤ
  pub mem_total : ℤ
  pub capabilities : List String

pub record Welcome : Type 0 where
  pub v : ℕ
  pub type : String
  pub interval_sec : ℤ
  pub ignore_mounts : List String

pub record Reconfigure : Type 0 where
  pub v : ℕ
  pub type : String
  pub interval_sec : ℤ

pub record Net (F : Type 0) : Type 0 where
  pub sent_bps : F
  pub recv_bps : F
  pub sent_total : ℤ
  pub recv_total : ℤ

pub record Container (F : Type 0) : Type 0 where
  pub name : String
  pub image : String
  pub status : String
  pub cpu : F
  pub mem_used : ℤ
  pub net_sent_bps : F
  pub net_recv_bps : F

pub record Sample (F : Type 0) : Type 0 where
  pub v : ℕ
  pub type : String
  pub at : Time
  pub cpu : Option F
  pub mem_used : Option ℤ
  pub mem_total : Option ℤ
  pub swap_used : Option ℤ
  pub swap_total : Option ℤ
  pub load1 : Option F
  pub load5 : Option F
  pub load15 : Option F
  pub uptime : Option ℤ
  pub disks : List (Disk F)
  pub net : Option (Net F)
  pub temps : List (Temp F)
  pub docker_available : Bool
  pub containers : List (Container F)

pub data Message (F : Type 0) : Type 0 where
  hello : Hello → Message F
  welcome : Welcome → Message F
  sample : Sample F → Message F
  reconfigure : Reconfigure → Message F
