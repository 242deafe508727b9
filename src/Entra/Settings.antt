-- ===== src/Entra/Settings.antt =====
-- internal/hub/entra/entra.go: the app registration and its checks. `to_lower` is strings.ToLower.
use Prim.Native.Char.{Char, code}
use Prim.Native.String.{[], ◌∷◌}
use mathlib.Core.List.{List, [] as nil, ◌∷◌ as cons}
use serversmonitor.Prelude.{
  ℕ, zero, suc, Bool, false, ◌&&◌, ◌||◌, not, Option, none, some, String, leb, ◌==◌, text_eq,
  if◌then◌else◌,
}
use serversmonitor.Store.Settings.{SettingsTable, get_setting, set_setting}

-- Config
pub record EntraConfig : Type 0 where
  pub tenant : String
  pub client_id : String
  pub client_secret : String

abbrev is_set : String → Bool
is_set s = not (text_eq s "")

-- Enabled
unfoldable pub enabled : EntraConfig → Bool
enabled c = is_set c.tenant && (is_set c.client_id && is_set c.client_secret)

-- get
abbrev pub or_empty : Option String → String
or_empty none = ""
or_empty (some v) = v

-- Load
unfoldable pub load : SettingsTable → EntraConfig
load t = record {
  tenant = or_empty (get_setting t "entra_tenant");
  client_id = or_empty (get_setting t "entra_client_id");
  client_secret = or_empty (get_setting t "entra_client_secret");
}

-- Save; the keys differ, so the order of Go's range over them does not matter.
unfoldable pub save : SettingsTable → EntraConfig → SettingsTable
save t c =
    set_setting (set_setting (set_setting t "entra_tenant" c.tenant) "entra_client_id" c.client_id)
      "entra_client_secret" c.client_secret

abbrev in_range : ℕ → ℕ → ℕ → Bool
in_range lo hi n = leb lo n && leb n hi

-- [0-9a-fA-F]
unfoldable pub is_hex : Char → Bool
is_hex c = in_range 48 57 (code c) || (in_range 97 102 (code c) || in_range 65 70 (code c))

-- What is left after n hex digits.
unfoldable pub hex_run : ℕ → String → Option String
hex_run zero s = some s
hex_run (suc n) [] = none
hex_run (suc n) (c ∷ s) = let rest = hex_run n s in if is_hex c then rest else none

-- What is left after a dash.
unfoldable pub after_dash : String → Option String
after_dash [] = none
after_dash (c ∷ s) = if code c == 45 then some s else none

pub data Piece : Type 0 where
  digits : ℕ → Piece
  dash : Piece

unfoldable pub piece_rest : Piece → String → Option String
piece_rest (digits n) s = hex_run n s
piece_rest dash s = after_dash s

unfoldable pub is_match : List Piece → String → Bool
is_match nil s = text_eq s ""
is_match (cons p ps) s = elim (piece_rest p s) [ none ↦ false | some t ↦ is_match ps t ]

abbrev pub guid_pieces : List Piece
guid_pieces = cons (digits 8) (
    cons dash (
      cons (digits 4) (
        cons dash
          (cons (digits 4) (cons dash (cons (digits 4) (cons dash (cons (digits 12) nil))))))))

-- The regular expression `guid`.
unfoldable pub is_guid : String → Bool
is_guid s = is_match guid_pieces s

pub data ConfigError : Type 0 where
  shared_tenant half_set not_a_guid : ConfigError

abbrev pub is_shared : String → Bool
is_shared t = text_eq t "common" || (text_eq t "organizations" || text_eq t "consumers")

-- Validate: none when the configuration may be saved.
unfoldable pub validate : (String → String) → EntraConfig → Option ConfigError
validate to_lower c =
    if text_eq c.tenant "" && text_eq c.client_id ""
    then none
    else if is_shared (to_lower c.tenant)
    then some shared_tenant
    else if text_eq c.tenant "" || text_eq c.client_id ""
    then some half_set
    else if is_guid c.tenant
    then none
    else some not_a_guid
