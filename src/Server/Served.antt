-- ===== src/Server/Served.antt =====
-- What requests to internal/hub/server do to the accounts, one by one and in a row.
use serversmonitor.Prelude.{◌≡◌, refl}
use serversmonitor.Server.Requests.{
  Route, setup, login, logout, password, add_account, set_role, delete_account, put_entra,
  entra_start, entra_callback, Request, Web, Env,
}
use serversmonitor.Server.Handlers.{current_user}
use serversmonitor.Server.Routes.{guarded, serve_route, serve}
use serversmonitor.Server.Effects.{Fine}
use serversmonitor.Server.PublicRoutes.{setup-Effect, login-Effect, start-Effect, callback-Effect}
use serversmonitor.Server.GuardedRoutes.{guarded-Effect}

module _ (env : Env) (w : Web env.K) (r : Request) where
  -- Every request does at most what Effect allows: it makes the first account, signs its sender in or
  -- out, or, from an admin alone, changes the admin's own password, the accounts or the registration.
  pub serve-Effect : Fine env w r (serve env w r)
  unfolding serve serve_route
  serve-Effect = go r.route refl
    where
      caller : Fine env w r (guarded env w r (current_user env w r))
      caller = guarded-Effect env w r (current_user env w r) refl

      go : (route : Route) → r.route ≡ route → Fine env w r (serve_route env w r route)
      go (setup body token) e = setup-Effect env w r body token
      go (login body token) e = login-Effect env w r body token e
      go (entra_start randoms) e = start-Effect env w r randoms
      go (entra_callback q token) e = callback-Effect env w r q token e
      go logout e = caller
      go (password b) e = caller
      go (add_account b) e = caller
      go (set_role id role) e = caller
      go (delete_account id) e = caller
      go (put_entra b) e = caller
