-- ===== src/Server/PublicRoutes.antt =====
-- The effects of the routes of internal/hub/server/api_auth.go and api_users.go that need no session.
use serversmonitor.Prelude.{
  ◌≡◌, refl, false, ◌&&◌, ◌||◌, not, Option, none, some, String, ltb, ◌==◌, text_eq, length, arith,
  Bool-cases, Option-cases, inl, inr,
}
use serversmonitor.Store.Users.{
  admin, local, User, Changed, done, refused as unchanged, is_local, add_user, user_by_email,
}
use serversmonitor.Auth.Limiter.{Limiter, allowed}
use serversmonitor.Entra.Settings.{enabled, load}
use serversmonitor.Entra.Tokens.{Provider, Verdict, accepted, refused, Identity, has_at}
use serversmonitor.Entra.Flow.{Randoms}
use serversmonitor.Server.Requests.{
  Credentials, Callback, login, entra_callback, Request, Reply, Web, Env,
}
use serversmonitor.Server.Handlers.{
  redirect_uri, set_session, set_up, handle_setup, may_log_in, log_in, handle_login, fold,
}
use serversmonitor.Server.Routes.{handle_entra_start, same_browser, admit, handle_entra_callback}
use serversmonitor.Server.Effects.{
  SignsIn, by_password, by_entra, nothing, first_account, first_signed_in, signs_in, Fine,
}

module _ (env : Env) (w : Web env.K) (r : Request) where
  set_up-Effect :
      (token : Option String) (email hash : String) (changed : Changed)
      → length w.accounts.users ≡ 0
      → add_user (fold env) w.accounts email hash admin local r.at ≡ changed
      → Fine env w r (set_up env w token r.at changed)
  unfolding set_up set_session
  set_up-Effect token email hash (unchanged e) empty h = nothing
  set_up-Effect none email hash (done a) empty h = first_account email hash a empty h
  set_up-Effect (some token) email hash (done a) empty h =
      first_signed_in email hash token a empty h

  pub setup-Effect :
      (body : Option Credentials) (token : Option String)
      → Fine env w r (handle_setup env w body token r.at)
  unfolding handle_setup
  setup-Effect none token = elim (Bool-cases (length w.accounts.users == 0)) [
    | inl e ↦ rw (handle_setup, e) nothing
    | inr e ↦ rw (handle_setup, e) nothing
  ]
  setup-Effect (some c) token = elim (Bool-cases (length w.accounts.users == 0)) [
    | inr e ↦ rw (handle_setup, e) nothing
    | inl e ↦ elim (Bool-cases (has_at c.email && not (ltb (env.byte_length c.password) 8))) [
      | inr bad ↦ rw (handle_setup, e, bad) nothing
      | inl good ↦ elim (Option-cases (env.hash_password c.password)) [
        | inl no_salt ↦ rw (handle_setup, e, good, no_salt) nothing
        | inr (h, hashed) ↦
            rw (handle_setup, e, good, hashed)
              (set_up-Effect token c.email h _ (ground (arith, e)) refl)
      ]
    ]
  ]

  session-Effect :
      (l : Limiter) (p : Provider env.K) (u : User) (token : Option String) (good bad : Reply)
      → SignsIn env w r u
      → Fine env w r
          (set_session env (record w { limiter = l; provider = p }) token u.id r.at good bad)
  unfolding set_session
  session-Effect l p u none good bad s = nothing
  session-Effect l p u (some token) good bad s = signs_in u token s

  pub login-Effect :
      (body : Option Credentials) (token : Option String)
      → r.route ≡ login body token
      → Fine env w r (handle_login env w r.client body token r.at)
  unfolding handle_login log_in
  login-Effect none token at_route = elim (Bool-cases (allowed w.limiter r.client r.at).1) [
    | inr e ↦ rw (handle_login, e) nothing
    | inl e ↦ rw (handle_login, e) nothing
  ]
  login-Effect (some c) token at_route = elim (Bool-cases (allowed w.limiter r.client r.at).1) [
    | inr e ↦ rw (handle_login, e) nothing
    | inl e ↦ elim (Option-cases (user_by_email (fold env) w.accounts.users c.email)) [
      | inl unknown ↦ rw (handle_login, e, log_in, unknown) nothing
      | inr (u, found) ↦ elim (Bool-cases (may_log_in env (some u) c.password)) [
        | inr no_entry ↦ rw (handle_login, e, log_in, found, no_entry) nothing
        | inl entry ↦
            rw (handle_login, e, log_in, found, entry)
              (session-Effect _ _ u token _ _ (
                by_password c token at_route e found (ground (arith, entry))
                  (ground (arith, entry))))
      ]
    ]
  ]

  pub start-Effect :
      (randoms : Option Randoms) → Fine env w r (handle_entra_start env w randoms r.at)
  unfolding handle_entra_start
  start-Effect none =
      elim (Bool-cases (not (enabled (load w.settings)) || text_eq (redirect_uri w.settings) "")) [
        | inl e ↦ rw (handle_entra_start, e) nothing
        | inr e ↦ rw (handle_entra_start, e) nothing
      ]
  start-Effect (some q) =
      elim (Bool-cases (not (enabled (load w.settings)) || text_eq (redirect_uri w.settings) "")) [
        | inl e ↦ rw (handle_entra_start, e) nothing
        | inr e ↦ rw (handle_entra_start, e) nothing
      ]

  admit-Effect :
      (token : Option String) (o : Provider env.K × Verdict Identity)
      → ((u : User) (id : Identity)
          → o.1 ≡ accepted id
          → user_by_email (fold env) w.accounts.users id.email ≡ some u
          → is_local u.provider ≡ false
          → SignsIn env w r u)
      → Fine env w r (admit env w token r.at o)
  unfolding admit
  admit-Effect token (p, refused e) f = nothing
  admit-Effect token (p, accepted id) f =
      elim (Option-cases (user_by_email (fold env) w.accounts.users id.email)) [
        | inl unknown ↦ rw (admit, unknown) nothing
        | inr (u, found) ↦ elim (Bool-cases (is_local u.provider)) [
          | inl home ↦ rw (admit, found, home) nothing
          | inr other ↦
              rw (admit, found, other)
                (session-Effect w.limiter p u token _ _ (f u id refl found other))
        ]
      ]

  pub callback-Effect :
      (q : Callback) (token : Option String)
      → r.route ≡ entra_callback q token
      → Fine env w r (handle_entra_callback env w q token r.at)
  unfolding handle_entra_callback
  callback-Effect q token at_route = elim (Bool-cases (text_eq q.error "")) [
    | inr stopped ↦ rw (handle_entra_callback, stopped) nothing
    | inl fine ↦ elim (Bool-cases (same_browser env q.state_cookie q.state)) [
      | inr other ↦ rw (handle_entra_callback, fine, other) nothing
      | inl here ↦
          rw (handle_entra_callback, fine, here)
            (admit-Effect token _
              (λ u id ok found other. by_entra q token id at_route here ok found other))
    ]
  ]
