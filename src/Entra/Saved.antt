-- ===== src/Entra/Saved.antt =====
-- internal/hub/entra/entra.go: what is saved is loaded again, and what may be saved.
use serversmonitor.Prelude.{
  ◌≡◌, ◌⊎◌, refl, ap, ◌∙◌, true, false, none, String, text_eq, String_discrete, arith, inl, inr,
  lookup-insert_self, lookup-insert_ne, Bool-cases,
}
use serversmonitor.Store.Settings.{SettingsTable, get_setting, set_setting}
use serversmonitor.Entra.Settings.{EntraConfig, load, save, or_empty, is_guid, validate}

get-set_self : (t : SettingsTable) (k v : String) → or_empty (get_setting (set_setting t k v) k) ≡ v
get-set_self t k v = ap or_empty (lookup-insert_self String_discrete k v t)

get-set_ne :
    (t : SettingsTable) (k j v : String)
    → text_eq k j ≡ false
    → or_empty (get_setting (set_setting t k v) j) ≡ or_empty (get_setting t j)
unfolding String_discrete
get-set_ne t k j v ne =
    ap or_empty (lookup-insert_ne String_discrete k j v t (λ e. ground (arith, e, ne)))

abbrev config : String → String → String → EntraConfig
config a b c = record { tenant = a; client_id = b; client_secret = c }

three_texts : (a a' b b' c c' : String) → a ≡ a' → b ≡ b' → c ≡ c' → config a b c ≡ config a' b' c'
three_texts a a' b b' c c' p q r = cc (p, q, r)

-- The configuration that was saved is the one that is loaded.
pub load-save : (t : SettingsTable) (c : EntraConfig) → load (save t c) ≡ c
unfolding load save String_discrete
load-save t c =
    let t1 = set_setting t "entra_tenant" c.tenant in
    let t2 = set_setting t1 "entra_client_id" c.client_id in
    three_texts _ c.tenant _ c.client_id _ c.client_secret
      (get-set_ne t2 "entra_client_secret" "entra_tenant" c.client_secret refl
        ∙ get-set_ne t1 "entra_client_id" "entra_tenant" c.client_id refl
        ∙ get-set_self t "entra_tenant" c.tenant)
      (get-set_ne t2 "entra_client_secret" "entra_client_id" c.client_secret refl
        ∙ get-set_self t1 "entra_client_id" c.client_id)
      (get-set_self t2 "entra_client_secret" c.client_secret)

-- The tenant is a directory's id, or there is none.
abbrev pub OneTenant : EntraConfig → Type 0
OneTenant c = (c.tenant ≡ "") ⊎ (is_guid c.tenant ≡ true)

text_is : (s t : String) → text_eq s t ≡ true → s ≡ t
unfolding String_discrete
text_is s t h = ground (arith, h)

pub validate-OneTenant :
    (to_lower : String → String) (c : EntraConfig) → validate to_lower c ≡ none → OneTenant c
unfolding validate
validate-OneTenant to_lower c h = elim (Bool-cases (text_eq c.tenant "")) [
  | inl e ↦ inl (text_is c.tenant "" e)
  | inr e ↦ inr (ground (arith, h, e))
]
