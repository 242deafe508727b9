-- ===== src/Store/Settings.antt =====
-- internal/hub/store/store.go: the table of settings, without the errors of the database.
use serversmonitor.Prelude.{Option, none, some, List, String, lookup, insert, String_discrete}
use serversmonitor.Prelude.Int.{ℤ}

abbrev pub SettingsTable : Type 0
SettingsTable = List (String × String)

-- GetSetting
abbrev pub get_setting : SettingsTable → String → Option String
get_setting t key = lookup String_discrete key t

-- SetSetting
abbrev pub set_setting : SettingsTable → String → String → SettingsTable
set_setting t key value = insert String_discrete key value t

-- SettingInt, over strconv.Atoi
unfoldable pub setting_int : (String → Option ℤ) → SettingsTable → String → ℤ → ℤ
setting_int atoi t key def = elim (get_setting t key) [
  | none ↦ def
  | some v ↦ elim (atoi v) [ none ↦ def | some n ↦ n ]
]
