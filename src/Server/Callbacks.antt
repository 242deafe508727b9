-- ===== src/Server/Callbacks.antt =====
-- The callback of a Microsoft sign-in in internal/hub/server/api_users.go, down to internal/hub/entra.
use serversmonitor.Prelude.{
  ◌≡◌, refl, ap, true, false, Option, none, some, List, [], ◌∷◌, String, text_eq, inl, inr,
  Bool-cases, Option-cases, subst, sym,
}
use serversmonitor.Store.Users.{User, Accounts, is_local, user_by_email}
use serversmonitor.Store.Settings.{SettingsTable, get_setting}
use serversmonitor.Entra.Settings.{load, or_empty}
use serversmonitor.Entra.Tokens.{Provider, Verdict, accepted, refused, Identity}
use serversmonitor.Entra.Flow.{finish}
use serversmonitor.Entra.OneUse.{Begun, finish-Begun}
use serversmonitor.Entra.Saved.{OneTenant, load-save, validate-OneTenant}
use serversmonitor.Server.Requests.{Callback, entra_callback, Request, signed_in_page, Web, Env}
use serversmonitor.Server.Handlers.{fold}
use serversmonitor.Server.Routes.{same_browser, admit, handle_entra_callback, serve_route, serve}
use serversmonitor.Server.Effects.{
  Effect, nothing, first_account, first_signed_in, signs_in, signs_out, new_password, edit,
  registers,
}
use serversmonitor.Server.Served.{serve-Effect}
use serversmonitor.Server.Runs.{run}

module _ (env : Env) where
  -- Whom a callback signs in, and by what.
  pub data LetsIn (w : Web env.K) (r : Request) (q : Callback) : Type 0 where
    lets_in :
        (id : Identity) (u : User)
        → same_browser env q.state_cookie q.state ≡ true
        → Begun env.float env.text env.jose (load w.settings) q.exchange w.provider q.state r.at id
        → user_by_email (fold env) w.accounts.users id.email ≡ some u
        → is_local u.provider ≡ false
        → LetsIn w r q

  admit-accepted :
      (w : Web env.K) (r : Request) (token : Option String) (o : Provider env.K × Verdict Identity)
      → (admit env w token r.at o).1 ≡ signed_in_page
      → (id : Identity) × (u : User) × (o.1 ≡ accepted id)
        × (user_by_email (fold env) w.accounts.users id.email ≡ some u)
        × (is_local u.provider ≡ false)
  unfolding admit
  admit-accepted w r token (p, refused e) h = absurd (cc h)
  admit-accepted w r token (p, accepted id) h =
      elim (Option-cases (user_by_email (fold env) w.accounts.users id.email)) [
        | inl unknown ↦ absurd (cc (rw (admit, unknown) at h))
        | inr (u, found) ↦ elim (Bool-cases (is_local u.provider)) [
          | inl home ↦ absurd (cc (rw (admit, found, home) at h))
          | inr other ↦ (id, u, refl, found, other)
        ]
      ]

  -- A callback that ends on the page of a sign-in came with the cookie of its state, while that state
  -- was pending and in time, with a genuine token for it, and for the address of an Entra account.
  pub serve-LetsIn :
      (w : Web env.K) (r : Request) (q : Callback) (token : Option String)
      → r.route ≡ entra_callback q token
      → (serve env w r).1 ≡ signed_in_page
      → LetsIn w r q
  unfolding serve serve_route handle_entra_callback
  serve-LetsIn w r q token e h = page (rw (serve, e, serve_route) at h)
    where
      page : (handle_entra_callback env w q token r.at).1 ≡ signed_in_page → LetsIn w r q
      page h = elim (Bool-cases (text_eq q.error "")) [
        | inr stopped ↦ absurd (cc (rw (handle_entra_callback, stopped) at h))
        | inl fine ↦ elim (Bool-cases (same_browser env q.state_cookie q.state)) [
          | inr other ↦ absurd (cc (rw (handle_entra_callback, fine, other) at h))
          | inl here ↦
              let (id, u, ok, found, other) =
                admit-accepted w r token
                  (finish env.float env.text env.jose (load w.settings) q.exchange w.provider
                    q.state r.at)
                  (rw (handle_entra_callback, fine, here) at h) in
              lets_in id u here
                (finish-Begun env.float env.text env.jose (load w.settings) q.exchange w.provider
                  q.state r.at id ok)
                found other
        ]
      ]

  Effect-OneTenant :
      (w : Web env.K) (r : Request) {a : Accounts} {t : SettingsTable}
      → Effect env w r a t
      → OneTenant (load w.settings)
      → OneTenant (load t)
  Effect-OneTenant w r nothing k = k
  Effect-OneTenant w r (first_account email hash a empty h) k = k
  Effect-OneTenant w r (first_signed_in email hash token a empty h) k = k
  Effect-OneTenant w r (signs_in u token s) k = k
  Effect-OneTenant w r (signs_out u token c e) k = k
  Effect-OneTenant w r (new_password u cur hash a boss home right h) k = k
  Effect-OneTenant w r (edit u a boss h) k = k
  Effect-OneTenant w r (registers u c boss h) k =
      subst OneTenant (sym (load-save w.settings c)) (validate-OneTenant env.text.to_lower c h)

  run_keeps-OneTenant :
      (w : Web env.K) (rs : List Request)
      → OneTenant (load w.settings)
      → OneTenant (load (run env w rs).settings)
  unfolding run
  run_keeps-OneTenant w [] k = k
  run_keeps-OneTenant w (r ∷ rs) k =
      run_keeps-OneTenant (serve env w r).0 rs (Effect-OneTenant w r (serve-Effect env w r) k)

  -- On a hub that starts with no tenant set, whatever is then requested, the tenant whose people are let
  -- in is none or one directory, by its id, never an alias for all of them.
  pub run-OneTenant :
      (w : Web env.K) (rs : List Request)
      → get_setting w.settings "entra_tenant" ≡ none
      → OneTenant (load (run env w rs).settings)
  unfolding load
  run-OneTenant w rs fresh = run_keeps-OneTenant w rs (inl (ap or_empty fresh))
