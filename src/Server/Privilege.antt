-- ===== src/Server/Privilege.antt =====
-- What a request to internal/hub/server changes that does not come from an admin.
use serversmonitor.Prelude.{◌≤◌, ◌≡◌, refl, false, some, length, arith}
use serversmonitor.Store.Users.{User, Accounts, is_admin, create_session, delete_session}
use serversmonitor.Store.Settings.{SettingsTable}
use serversmonitor.Server.Requests.{Request, Web, Env}
use serversmonitor.Server.Handlers.{current_user}
use serversmonitor.Server.Routes.{serve}
use serversmonitor.Server.Effects.{
  Effect, nothing, first_account, first_signed_in, signs_in, signs_out, new_password, edit,
  registers,
}
use serversmonitor.Server.Served.{serve-Effect}

module _ (env : Env) (w : Web env.K) (r : Request) where
  -- No session of an admin comes with the request.
  abbrev pub Unprivileged : Type 0
  Unprivileged = (u : User) → current_user env w r ≡ some u → is_admin u.role ≡ false

  Effect-unprivileged :
      {a : Accounts} {t : SettingsTable}
      → Effect env w r a t
      → Unprivileged
      → 1 ≤ length w.accounts.users
      → (a.users ≡ w.accounts.users) × (t ≡ w.settings)
  unfolding create_session delete_session
  Effect-unprivileged nothing low some_user = (refl, refl)
  Effect-unprivileged (first_account email hash a empty h) low some_user =
      absurd (omega (arith, empty, some_user))
  Effect-unprivileged (first_signed_in email hash token a empty h) low some_user =
      absurd (omega (arith, empty, some_user))
  Effect-unprivileged (signs_in u token s) low some_user = (refl, refl)
  Effect-unprivileged (signs_out u token c e) low some_user = (refl, refl)
  Effect-unprivileged (new_password u cur hash a boss home right h) low some_user =
      absurd (cc (low u boss.0, boss.1))
  Effect-unprivileged (edit u a boss h) low some_user = absurd (cc (low u boss.0, boss.1))
  Effect-unprivileged (registers u c boss h) low some_user = absurd (cc (low u boss.0, boss.1))

  -- Once there is an account, a request that does not come with an admin's session changes no account
  -- and no setting, whatever its route and body.
  pub serve-unprivileged :
      Unprivileged
      → 1 ≤ length w.accounts.users
      → ((serve env w r).0.accounts.users ≡ w.accounts.users)
        × ((serve env w r).0.settings ≡ w.settings)
  serve-unprivileged low some_user = Effect-unprivileged (serve-Effect env w r) low some_user
