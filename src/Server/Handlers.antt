-- ===== src/Server/Handlers.antt =====
-- internal/hub/server/server.go, api_auth.go and api_users.go: the session guard and the routes of
-- accounts and of the sign-in, over the tables, the limiter and the pending sign-ins.
use Prim.Native.String.{[], ◌∷◌, ◌++◌ as str_append}
use mathlib.Core.List.{List, map}
use serversmonitor.Prelude.{
  ℕ, ◌+◌, Bool, true, false, ◌&&◌, ◌||◌, not, Option, none, some, String, ltb, ◌==◌, text_eq,
  if◌then◌else◌, length,
}
use serversmonitor.Time.{Time}
use serversmonitor.Text.{trim_slash}
use serversmonitor.Store.Users.{
  Role, Provider as AccountProvider, admin, viewer, local, entra, User, Accounts, UserError,
  last_local_admin, not_found, user_exists, Changed, done, refused as unchanged, is_local, fresh_id,
  add_user, set_user_role, delete_user, create_session, session_user, delete_session, user_by_email,
  update_password,
}
use serversmonitor.Store.Settings.{SettingsTable, get_setting}
use serversmonitor.Auth.Limiter.{allowed, fail, reset}
use serversmonitor.Entra.Settings.{EntraConfig, enabled, load, save, validate, or_empty}
use serversmonitor.Entra.Tokens.{has_at}
use serversmonitor.Server.Requests.{
  Credentials, PasswordChange, NewUser, EntraInput, Route, logout, Request, Reply, status, Web, Env,
}

-- validRole, with the role
abbrev pub valid_role : String → Option Role
valid_role s =
    if text_eq s "admin" then some admin else if text_eq s "viewer" then some viewer else none

-- userErr
abbrev pub user_err : UserError → Reply
user_err last_local_admin = status 409
user_err not_found = status 404
user_err user_exists = status 500

-- `strings.ContainsAny(s, " \t")`
unfoldable pub has_blank : String → Bool
has_blank [] = false
has_blank (c ∷ s) = text_eq (c ∷ "") " " || (text_eq (c ∷ "") "\t" || has_blank s)

-- readOnlyAllowed: of the guarded routes here, only logout is open to a viewer.
abbrev pub read_only_allowed : Route → Bool
read_only_allowed logout = true
read_only_allowed _ = false

-- redirectURI
unfoldable pub redirect_uri : SettingsTable → String
redirect_uri t =
    let root = trim_slash (or_empty (get_setting t "notify_public_url")) in
    if text_eq root "" then "" else str_append root "/api/v1/auth/entra/callback"

pub record UserView : Type 0 where
  pub id : ℕ
  pub email : String
  pub role : Role
  pub provider : AccountProvider
  pub self : Bool

-- What handleListUsers shows.
unfoldable pub list_users : ℕ → List User → List UserView
list_users me us =
    map
      (λ u. record {
        id = u.id;
        email = u.email;
        role = u.role;
        provider = u.provider;
        self = u.id == me;
      })
      us

-- The reply to handleMe: the account, or whether setup and the Microsoft button are offered.
pub data Me : Type 0 where
  signed_in : User → Me
  signed_out : Bool → Bool → Me

module _ (env : Env) where
  open env use {K, text}

  abbrev pub fold : String → String
  fold s = text.to_lower (text.trim_space s)

  -- setSession, with the reply that follows and the one for a failure
  unfoldable pub set_session : Web K → Option String → ℕ → Time → Reply → Reply → Web K × Reply
  set_session w none id now good bad = (w, bad)
  set_session w (some token) id now good bad =
      (record w { accounts = create_session w.accounts token id (now + env.session_ttl) }, good)

  -- currentUser
  unfoldable pub current_user : Web K → Request → Option User
  current_user w r = elim r.cookie [ none ↦ none | some token ↦ session_user w.accounts token r.at ]

  -- handleMe
  unfoldable pub handle_me : Web K → Request → Me
  handle_me w r = elim (current_user w r) [
    | some u ↦ signed_in u
    | none ↦ signed_out (length w.accounts.users == 0) (enabled (load w.settings))
  ]

  -- handleSetup from the account's row on
  unfoldable pub set_up : Web K → Option String → Time → Changed → Web K × Reply
  set_up w token now (unchanged e) = (w, status 500)
  set_up w token now (done a) =
      set_session (record w { accounts = a }) token (fresh_id w.accounts.users) now (status 201)
        (status 500)

  -- handleSetup
  unfoldable pub handle_setup : Web K → Option Credentials → Option String → Time → Web K × Reply
  handle_setup w body token now =
      if length w.accounts.users == 0
      then elim body [
        | none ↦ (w, status 400)
        | some c ↦
            if has_at c.email && not (ltb (env.byte_length c.password) 8)
            then elim (env.hash_password c.password) [
              | none ↦ (w, status 500)
              | some h ↦ set_up w token now (add_user fold w.accounts c.email h admin local now)
            ]
            else (w, status 400)
      ]
      else (w, status 403)

  -- The hash that a login is checked against: a dummy when there is none of the account's own.
  abbrev pub login_hash : User → String
  login_hash u =
      if text_eq u.password_hash "" || not (is_local u.provider)
      then or_empty (env.hash_password "placeholder")
      else u.password_hash

  abbrev pub may_log_in : Option User → String → Bool
  may_log_in none pw = false
  may_log_in (some u) pw = is_local u.provider && env.verify_password (login_hash u) pw

  -- handleLogin behind the limiter
  unfoldable pub log_in : Web K → String → Option Credentials → Option String → Time → Web K × Reply
  log_in w client none token now = (w, status 400)
  log_in w client (some c) token now =
      let user = user_by_email fold w.accounts.users c.email in
      if may_log_in user c.password
      then elim user [
        | none ↦ (w, status 401)
        | some u ↦
            set_session (record w { limiter = reset w.limiter client }) token u.id now (status 204)
              (status 500)
      ]
      else (record w { limiter = fail w.limiter client now }, status 401)

  -- handleLogin
  unfoldable pub handle_login :
      Web K → String → Option Credentials → Option String → Time → Web K × Reply
  handle_login w client body token now =
      let asked = allowed w.limiter client now in
      let w' : Web K = record w { limiter = asked.0 } in
      if asked.1 then log_in w' client body token now else (w', status 429)

  -- handleLogout
  unfoldable pub handle_logout : Web K → Option String → Web K × Reply
  handle_logout w none = (w, status 204)
  handle_logout w (some token) =
      (record w { accounts = delete_session w.accounts token }, status 204)

  -- A handler's end, when it writes the accounts.
  unfoldable pub write_accounts : Web K → Reply → Changed → Web K × Reply
  write_accounts w good (done a) = (record w { accounts = a }, good)
  write_accounts w good (unchanged e) = (w, user_err e)

  -- handlePassword
  unfoldable pub handle_password : Web K → User → Option PasswordChange → Web K × Reply
  handle_password w u none = (w, status 400)
  handle_password w u (some body) =
      if ltb (env.byte_length body.new) 8
      then (w, status 400)
      else if not (is_local u.provider)
      then (w, status 400)
      else if not (env.verify_password u.password_hash body.current)
      then (w, status 403)
      else elim (env.hash_password body.new) [
        | none ↦ (w, status 500)
        | some h ↦ elim (update_password w.accounts u.id h) [
          | unchanged e ↦ (w, status 500)
          | done a ↦ (record w { accounts = a }, status 204)
        ]
      ]

  abbrev added_reply : Changed → Reply
  added_reply (done a) = status 201
  added_reply (unchanged user_exists) = status 409
  added_reply (unchanged e) = status 500

  abbrev pub accounts_or : Accounts → Changed → Accounts
  accounts_or old (done a) = a
  accounts_or old (unchanged e) = old

  -- handleAddUser
  unfoldable pub handle_add_user : Web K → Option NewUser → Time → Web K × Reply
  handle_add_user w none now = (w, status 400)
  handle_add_user w (some body) now =
      let email = fold body.email in
      if not (has_at email) || has_blank email
      then (w, status 400)
      else elim (valid_role body.role) [
        | none ↦ (w, status 400)
        | some role ↦
            let changed = add_user fold w.accounts email "" role entra now in
            (record w { accounts = accounts_or w.accounts changed }, added_reply changed)
      ]

  -- handleSetUserRole
  unfoldable pub handle_set_user_role : Web K → Option ℕ → Option String → Web K × Reply
  handle_set_user_role w none body = (w, status 400)
  handle_set_user_role w (some id) none = (w, status 400)
  handle_set_user_role w (some id) (some role) = elim (valid_role role) [
    | none ↦ (w, status 400)
    | some r ↦ write_accounts w (status 204) (set_user_role w.accounts id r)
  ]

  -- handleDeleteUser
  unfoldable pub handle_delete_user : Web K → Option ℕ → Web K × Reply
  handle_delete_user w none = (w, status 400)
  handle_delete_user w (some id) = write_accounts w (status 204) (delete_user w.accounts id)

  abbrev pub new_secret : Option String → String → String
  new_secret none old = old
  new_secret (some s) old = s

  -- handlePutEntraSettings
  unfoldable pub handle_put_entra_settings : Web K → Option EntraInput → Web K × Reply
  handle_put_entra_settings w none = (w, status 400)
  handle_put_entra_settings w (some body) =
      let c : EntraConfig = record {
        tenant = text.trim_space body.tenant;
        client_id = text.trim_space body.client_id;
        client_secret = new_secret body.client_secret (load w.settings).client_secret;
      } in
      elim (validate text.to_lower c) [
        | some e ↦ (w, status 400)
        | none ↦ (record w { settings = save w.settings c }, status 204)
      ]
