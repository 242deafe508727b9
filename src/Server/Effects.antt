-- ===== src/Server/Effects.antt =====
-- What a request of internal/hub/server/api_auth.go and api_users.go may do to the accounts and the
-- settings, and that each does no more.
use serversmonitor.Prelude.{◌+◌, ◌≡◌, true, false, Option, none, some, String, length}
use serversmonitor.Store.Users.{
  admin, local, User, Accounts, done, is_admin, is_local, fresh_id, add_user, create_session,
  delete_session, user_by_email, update_password,
}
use serversmonitor.Store.Settings.{SettingsTable}
use serversmonitor.Store.LastAdmin.{Edit}
use serversmonitor.Auth.Limiter.{allowed}
use serversmonitor.Entra.Settings.{EntraConfig, load, save, validate}
use serversmonitor.Entra.Tokens.{accepted, Identity}
use serversmonitor.Entra.Flow.{finish}
use serversmonitor.Server.Requests.{
  Credentials, Callback, login, entra_callback, Request, Reply, Web, Env,
}
use serversmonitor.Server.Handlers.{current_user, login_hash, fold}
use serversmonitor.Server.Routes.{same_browser}

module _ (env : Env) (w : Web env.K) (r : Request) where
  -- The two ways to sign in as an account: by the password of a local one, or by a verified sign-in at
  -- Microsoft, begun in the same browser, for the address of an Entra one.
  pub data SignsIn (u : User) : Type 0 where
    by_password :
        (c : Credentials) (token : Option String)
        → r.route ≡ login (some c) token
        → (allowed w.limiter r.client r.at).1 ≡ true
        → user_by_email (fold env) w.accounts.users c.email ≡ some u
        → is_local u.provider ≡ true
        → env.verify_password (login_hash env u) c.password ≡ true
        → SignsIn u
    by_entra :
        (q : Callback) (token : Option String) (id : Identity)
        → r.route ≡ entra_callback q token
        → same_browser env q.state_cookie q.state ≡ true
        → (finish env.float env.text env.jose
            (load w.settings)
            q.exchange
            w.provider
            q.state
            r.at).1
          ≡ accepted id
        → user_by_email (fold env) w.accounts.users id.email ≡ some u
        → is_local u.provider ≡ false
        → SignsIn u

  -- The request comes with the session of an admin.
  abbrev pub FromAdmin : User → Type 0
  FromAdmin u = (current_user env w r ≡ some u) × (is_admin u.role ≡ true)

  -- What a request may make of the accounts and the settings.
  pub data Effect : Accounts → SettingsTable → Type 0 where
    nothing : Effect w.accounts w.settings
    -- the first account, made when there is none
    first_account :
        (email hash : String) (a : Accounts)
        → length w.accounts.users ≡ 0
        → add_user (fold env) w.accounts email hash admin local r.at ≡ done a
        → Effect a w.settings
    first_signed_in :
        (email hash token : String) (a : Accounts)
        → length w.accounts.users ≡ 0
        → add_user (fold env) w.accounts email hash admin local r.at ≡ done a
        → Effect
            (create_session a token (fresh_id w.accounts.users) (r.at + env.session_ttl))
            w.settings
    signs_in :
        (u : User) (token : String)
        → SignsIn u
        → Effect (create_session w.accounts token u.id (r.at + env.session_ttl)) w.settings
    signs_out :
        (u : User) (token : String)
        → current_user env w r ≡ some u
        → r.cookie ≡ some token
        → Effect (delete_session w.accounts token) w.settings
    new_password :
        (u : User) (current hash : String) (a : Accounts)
        → FromAdmin u
        → is_local u.provider ≡ true
        → env.verify_password u.password_hash current ≡ true
        → update_password w.accounts u.id hash ≡ done a
        → Effect a w.settings
    edit :
        (u : User) (a : Accounts) → FromAdmin u → Edit (fold env) w.accounts a → Effect a w.settings
    registers :
        (u : User) (c : EntraConfig)
        → FromAdmin u
        → validate env.text.to_lower c ≡ none
        → Effect w.accounts (save w.settings c)

  abbrev pub Fine : Web env.K × Reply → Type 0
  Fine o = Effect o.0.accounts o.0.settings
