-- ===== src/Auth/Limiter.antt =====
-- internal/hub/auth/limiter.go. Each method runs under the mutex, so it is one step.
use serversmonitor.Prelude.{
  ℕ, ◌+◌, Bool, true, false, Option, none, some, List, [], String, lookup, insert, delete,
  String_discrete, if◌then◌else◌, ltb, leb,
}
use serversmonitor.Time.{Time, Duration, time_sub, dur_le}

pub record Entry : Type 0 where
  pub failures : ℕ
  pub locked_at : Time

pub record Limiter : Type 0 where
  pub max_failures : ℕ
  pub lockout : Duration
  pub entries : List (String × Entry)

unfoldable pub new_limiter : ℕ → Duration → Limiter
new_limiter max_failures lockout = record {
  max_failures = max_failures;
  lockout = lockout;
  entries = [];
}

-- Allowed with the entry of the key.
unfoldable pub allowed_entry : Limiter → String → Time → Option Entry → Limiter × Bool
allowed_entry l key now none = (l, true)
allowed_entry l key now (some e) =
    if ltb e.failures l.max_failures
    then (l, true)
    else if dur_le l.lockout (time_sub now e.locked_at)
    then (record l { entries = delete String_discrete key l.entries }, true)
    else (l, false)

unfoldable pub allowed : Limiter → String → Time → Limiter × Bool
unfolding allowed_entry
allowed l key now = allowed_entry l key now (lookup String_discrete key l.entries)

abbrev pub entry_or_new : Option Entry → Entry
entry_or_new none = record { failures = 0; locked_at = 0 }
entry_or_new (some e) = e

unfoldable pub fail : Limiter → String → Time → Limiter
fail l key now =
    let e = entry_or_new (lookup String_discrete key l.entries) in
    let failures = e.failures + 1 in
    let locked_at = if leb l.max_failures failures then now else e.locked_at in
    record l {
      entries =
          insert String_discrete key (record { failures = failures; locked_at = locked_at })
            l.entries;
    }

unfoldable pub reset : Limiter → String → Limiter
reset l key = record l { entries = delete String_discrete key l.entries }
