-- ===== src/Server/Runs.antt =====
-- Requests to internal/hub/server in a row.
use serversmonitor.Prelude.{◌≤◌, ◌≡◌, Option, List, [], ◌∷◌, String, length, arith}
use serversmonitor.Store.Users.{User, Accounts, create_session, delete_session}
use serversmonitor.Store.Settings.{SettingsTable}
use serversmonitor.Store.AdminCounts.{local_admins, KeepsAdmin}
use serversmonitor.Store.LastAdmin.{unedited, edited, Edits-KeepsAdmin}
use serversmonitor.Store.PasswordChange.{update_password-KeepsAdmin}
use serversmonitor.Server.Requests.{Credentials, setup, Request, status, Web, Env}
use serversmonitor.Server.Handlers.{fold, handle_setup}
use serversmonitor.Server.Routes.{serve_route, serve}
use serversmonitor.Server.Effects.{
  Effect, nothing, first_account, first_signed_in, signs_in, signs_out, new_password, edit,
  registers,
}
use serversmonitor.Server.Served.{serve-Effect}

some_user : (us : List User) → 1 ≤ local_admins us → 1 ≤ length us
unfolding local_admins
some_user [] h = h
some_user (u ∷ us) h = omega arith

module _ (env : Env) where
  Effect-KeepsAdmin :
      (w : Web env.K) (r : Request) {a : Accounts} {t : SettingsTable}
      → Effect env w r a t
      → KeepsAdmin w.accounts
      → KeepsAdmin a
  unfolding create_session delete_session
  Effect-KeepsAdmin w r nothing k = k
  Effect-KeepsAdmin w r (first_account email hash a empty h) k =
      absurd (omega (arith, empty, some_user w.accounts.users k.1))
  Effect-KeepsAdmin w r (first_signed_in email hash token a empty h) k =
      absurd (omega (arith, empty, some_user w.accounts.users k.1))
  Effect-KeepsAdmin w r (signs_in u token s) k = k
  Effect-KeepsAdmin w r (signs_out u token c e) k = k
  Effect-KeepsAdmin w r (new_password u cur hash a boss home right h) k =
      update_password-KeepsAdmin w.accounts a u.id hash h k
  Effect-KeepsAdmin w r (edit u a boss h) k = Edits-KeepsAdmin (fold env) (edited unedited h) k
  Effect-KeepsAdmin w r (registers u c boss h) k = k

  -- The server after requests.
  unfoldable pub run : Web env.K → List Request → Web env.K
  run w [] = w
  run w (r ∷ rs) = run (serve env w r).0 rs

  run-KeepsAdmin :
      (w : Web env.K) (rs : List Request) → KeepsAdmin w.accounts → KeepsAdmin (run w rs).accounts
  unfolding run
  run-KeepsAdmin w [] k = k
  run-KeepsAdmin w (r ∷ rs) k =
      run-KeepsAdmin (serve env w r).0 rs (Effect-KeepsAdmin w r (serve-Effect env w r) k)

  setup_again :
      (w : Web env.K) (r : Request) (body : Option Credentials) (token : Option String)
      → r.route ≡ setup body token
      → 1 ≤ length w.accounts.users
      → serve env w r ≡ (w, status 403)
  unfolding serve serve_route handle_setup
  setup_again w r body token e h = rw e (ground (arith, h))

  -- Once some account is a local admin (and ids are unique), there always is one, whatever requests
  -- come, and the setup, which would give anyone an admin's account, is refused for ever and changes
  -- nothing.
  pub run-setup_refused :
      (w : Web env.K) (rs : List Request) (r : Request) (body : Option Credentials)
      (token : Option String)
      → KeepsAdmin w.accounts
      → r.route ≡ setup body token
      → KeepsAdmin (run w rs).accounts × (serve env (run w rs) r ≡ (run w rs, status 403))
  run-setup_refused w rs r body token k e =
      let after = run-KeepsAdmin w rs k in
      (after, setup_again (run w rs) r body token e (some_user (run w rs).accounts.users after.1))
