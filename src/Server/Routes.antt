-- ===== src/Server/Routes.antt =====
-- internal/hub/server/server.go and api_users.go: the routes of the Microsoft sign-in, the session guard
-- and the way of a request to its handler.
use serversmonitor.Prelude.{
  Bool, false, ◌&&◌, ◌||◌, not, Option, none, some, String, text_eq, if◌then◌else◌,
}
use serversmonitor.Time.{Time}
use serversmonitor.Store.Users.{User, is_admin, is_local, user_by_email}
use serversmonitor.Entra.Settings.{enabled, load}
use serversmonitor.Entra.Tokens.{Provider, Verdict, accepted, refused, Identity}
use serversmonitor.Entra.Flow.{Randoms, start, finish}
use serversmonitor.Server.Requests.{
  Callback, Route, setup, login, logout, password, add_account, set_role, delete_account, put_entra,
  entra_start, entra_callback, Request, not_configured, no_randoms, stopped_by_entra, other_browser,
  not_allowed, no_session, sign_in_refused, Reply, status, redirected, signed_in_page, login_error,
  Web, Env,
}
use serversmonitor.Server.Handlers.{
  current_user, fold, handle_add_user, handle_delete_user, handle_login, handle_logout,
  handle_password, handle_put_entra_settings, handle_set_user_role, handle_setup, read_only_allowed,
  redirect_uri, set_session,
}

module _ (env : Env) where
  open env use {K, text}

  -- handleEntraStart
  unfoldable pub handle_entra_start : Web K → Option Randoms → Time → Web K × Reply
  handle_entra_start w randoms now =
      if not (enabled (load w.settings)) || text_eq (redirect_uri w.settings) ""
      then (w, login_error not_configured)
      else elim randoms [
        | none ↦ (w, login_error no_randoms)
        | some r ↦ (record w { provider = start w.provider r now }, redirected r.state)
      ]

  abbrev pub same_browser : Option String → String → Bool
  same_browser none state = false
  same_browser (some cookie) state = not (text_eq state "") && text_eq cookie state

  abbrev pub allowed_in : Option User → Option User
  allowed_in none = none
  allowed_in (some u) = if is_local u.provider then none else some u

  -- handleEntraCallback from what Finish returns on
  unfoldable pub admit :
      Web K → Option String → Time → Provider K × Verdict Identity → Web K × Reply
  admit w token now (p, refused e) = (record w { provider = p }, login_error (sign_in_refused e))
  admit w token now (p, accepted id) =
      let w' : Web K = record w { provider = p } in
      elim (allowed_in (user_by_email (fold env) w.accounts.users id.email)) [
        | none ↦ (w', login_error not_allowed)
        | some u ↦ set_session env w' token u.id now signed_in_page (login_error no_session)
      ]

  -- handleEntraCallback
  unfoldable pub handle_entra_callback : Web K → Callback → Option String → Time → Web K × Reply
  handle_entra_callback w q token now =
      if not (text_eq q.error "")
      then (w, login_error stopped_by_entra)
      else if same_browser q.state_cookie q.state
      then admit w token now
          (finish env.float text env.jose (load w.settings) q.exchange w.provider q.state now)
      else (w, login_error other_browser)

  -- The guarded handlers, for the user of the session.
  unfoldable pub handle : Web K → Request → User → Route → Web K × Reply
  handle w r u logout = handle_logout env w r.cookie
  handle w r u (password body) = handle_password env w u body
  handle w r u (add_account body) = handle_add_user env w body r.at
  handle w r u (set_role id role) = handle_set_user_role env w id role
  handle w r u (delete_account id) = handle_delete_user env w id
  handle w r u (put_entra body) = handle_put_entra_settings env w body
  handle w r u _ = (w, status 404)

  -- auth
  unfoldable pub guarded : Web K → Request → Option User → Web K × Reply
  guarded w r none = (w, status 401)
  guarded w r (some u) =
      if is_admin u.role || read_only_allowed r.route then handle w r u r.route else (w, status 403)

  unfoldable pub serve_route : Web K → Request → Route → Web K × Reply
  serve_route w r (setup body token) = handle_setup env w body token r.at
  serve_route w r (login body token) = handle_login env w r.client body token r.at
  serve_route w r (entra_start randoms) = handle_entra_start w randoms r.at
  serve_route w r (entra_callback q token) = handle_entra_callback w q token r.at
  serve_route w r _ = guarded w r (current_user env w r)

  -- One request through those routes of New that api_auth.go and api_users.go answer and that change
  -- state.
  unfoldable pub serve : Web K → Request → Web K × Reply
  serve w r = serve_route w r r.route
