-- ===== src/Notify/Message.antt =====
-- internal/hub/notify/message.go: what a channel is given to render, and its kind.
use serversmonitor.Prelude.{ℕ, Bool, true, false, ◌||◌, String}
use serversmonitor.Time.{Time, Duration}
use serversmonitor.Store.Rows.{Kind, fired, reminder}

pub record Message (F : Type 0) : Type 0 where
  pub host_id : ℕ
  pub host_name : String
  pub metric : String
  pub kind : Kind
  pub value : F
  pub threshold : F
  pub duration : Duration
  pub at : Time
  pub link : String
  pub guardrail : Bool
  pub since : Time

-- Fired
abbrev pub is_fired : Kind → Bool
is_fired fired = true
is_fired _ = false

-- Reminder
abbrev pub is_reminder : Kind → Bool
is_reminder reminder = true
is_reminder _ = false

-- Alarming
abbrev pub is_alarming : Kind → Bool
is_alarming k = is_fired k || is_reminder k
