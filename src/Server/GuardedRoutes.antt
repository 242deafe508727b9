-- ===== src/Server/GuardedRoutes.antt =====
-- The effects of the routes of internal/hub/server/api_auth.go and api_users.go behind the session guard.
use serversmonitor.Prelude.{
  ℕ, ◌≡◌, refl, true, ◌||◌, not, Option, none, some, String, ltb, if◌then◌else◌, Bool-cases,
  Option-cases, inl, inr,
}
use serversmonitor.Store.Users.{
  entra, User, Accounts, Changed, done, refused as unchanged, is_admin, is_local, add_user,
  update_password,
}
use serversmonitor.Store.LastAdmin.{adds, sets, deletes}
use serversmonitor.Entra.Settings.{EntraConfig, load, validate}
use serversmonitor.Entra.Tokens.{has_at}
use serversmonitor.Server.Requests.{
  PasswordChange, NewUser, EntraInput, Route, setup, login, logout, password, add_account, set_role,
  delete_account, put_entra, entra_start, entra_callback, Request, Reply, status, Web, Env,
}
use serversmonitor.Server.Handlers.{
  valid_role, has_blank, accounts_or, new_secret, current_user, handle_logout, write_accounts,
  handle_password, handle_add_user, handle_set_user_role, handle_delete_user,
  handle_put_entra_settings, read_only_allowed, fold,
}
use serversmonitor.Server.Routes.{handle, guarded}
use serversmonitor.Server.Effects.{
  FromAdmin, Effect, nothing, signs_out, new_password, edit, registers, Fine,
}

module _ (env : Env) (w : Web env.K) (r : Request) where
  logout-Effect :
      (u : User) → current_user env w r ≡ some u → Fine env w r (handle_logout env w r.cookie)
  unfolding handle_logout
  logout-Effect u caller = go r.cookie refl
    where
      go : (o : Option String) → r.cookie ≡ o → Fine env w r (handle_logout env w o)
      go none e = nothing
      go (some token) e = signs_out u token caller e

  password-Effect :
      (u : User) (body : Option PasswordChange)
      → FromAdmin env w r u
      → Fine env w r (handle_password env w u body)
  unfolding handle_password
  password-Effect u none caller = nothing
  password-Effect u (some b) caller = elim (Bool-cases (ltb (env.byte_length b.new) 8)) [
    | inl short ↦ rw (handle_password, short) nothing
    | inr long ↦ elim (Bool-cases (is_local u.provider)) [
      | inr other ↦ rw (handle_password, long, other) nothing
      | inl home ↦ elim (Bool-cases (env.verify_password u.password_hash b.current)) [
        | inr wrong ↦ rw (handle_password, long, home, wrong) nothing
        | inl right ↦ elim (Option-cases (env.hash_password b.new)) [
          | inl no_salt ↦ rw (handle_password, long, home, right, no_salt) nothing
          | inr (h, hashed) ↦
              rw (handle_password, long, home, right, hashed)
                (written (update_password w.accounts u.id h)
                  (λ a. new_password u b.current h a caller home right))
        ]
      ]
    ]
  ]
    where
      written :
          (changed : Changed)
          → ((a : Accounts) → changed ≡ done a → Effect env w r a w.settings)
          → Fine env w r (elim changed [
            | unchanged e ↦ (w, status 500)
            | done a ↦ (record w { accounts = a }, status 204)
          ])
      written (done a) f = f a refl
      written (unchanged e) f = nothing

  add-Effect :
      (u : User) (body : Option NewUser)
      → FromAdmin env w r u
      → Fine env w r (handle_add_user env w body r.at)
  unfolding handle_add_user
  add-Effect u none caller = nothing
  add-Effect u (some b) caller =
      elim (Bool-cases (not (has_at (fold env b.email)) || has_blank (fold env b.email))) [
        | inl bad ↦ rw (handle_add_user, bad) nothing
        | inr good ↦ elim (Option-cases (valid_role b.role)) [
          | inl no_role ↦ rw (handle_add_user, good, no_role) nothing
          | inr (role, is_role) ↦
              rw (handle_add_user, good, is_role)
                (written (add_user (fold env) w.accounts (fold env b.email) "" role entra r.at)
                  (λ a h.
                    edit u a caller (adds w.accounts a (fold env b.email) "" role entra r.at h)))
        ]
      ]
    where
      written :
          (changed : Changed)
          → ((a : Accounts) → changed ≡ done a → Effect env w r a w.settings)
          → Effect env w r (accounts_or env w.accounts changed) w.settings
      written (done a) f = f a refl
      written (unchanged e) f = nothing

  write-Effect :
      (good : Reply) (changed : Changed)
      → ((a : Accounts) → changed ≡ done a → Effect env w r a w.settings)
      → Fine env w r (write_accounts env w good changed)
  unfolding write_accounts
  write-Effect good (done a) f = f a refl
  write-Effect good (unchanged e) f = nothing

  role-Effect :
      (u : User) (id : Option ℕ) (role : Option String)
      → FromAdmin env w r u
      → Fine env w r (handle_set_user_role env w id role)
  unfolding handle_set_user_role
  role-Effect u none role caller = nothing
  role-Effect u (some id) none caller = nothing
  role-Effect u (some id) (some role) caller = elim (Option-cases (valid_role role)) [
    | inl no_role ↦ rw (handle_set_user_role, no_role) nothing
    | inr (q, is_role) ↦
        rw (handle_set_user_role, is_role)
          (write-Effect _ _ (λ a h. edit u a caller (sets w.accounts a id q h)))
  ]

  delete-Effect :
      (u : User) (id : Option ℕ) → FromAdmin env w r u → Fine env w r (handle_delete_user env w id)
  unfolding handle_delete_user
  delete-Effect u none caller = nothing
  delete-Effect u (some id) caller =
      write-Effect _ _ (λ a h. edit u a caller (deletes w.accounts a id h))

  put_entra-Effect :
      (u : User) (body : Option EntraInput)
      → FromAdmin env w r u
      → Fine env w r (handle_put_entra_settings env w body)
  unfolding handle_put_entra_settings
  put_entra-Effect u none caller = nothing
  put_entra-Effect u (some b) caller =
      let c : EntraConfig = record {
        tenant = env.text.trim_space b.tenant;
        client_id = env.text.trim_space b.client_id;
        client_secret = new_secret env b.client_secret (load w.settings).client_secret;
      } in
      elim (Option-cases (validate env.text.to_lower c)) [
        | inr (e, bad) ↦ rw (handle_put_entra_settings, bad) nothing
        | inl good ↦ rw (handle_put_entra_settings, good) (registers u c caller good)
      ]

  pub guarded-Effect :
      (o : Option User) → current_user env w r ≡ o → Fine env w r (guarded env w r o)
  unfolding guarded handle
  guarded-Effect none caller = nothing
  guarded-Effect (some u) caller = elim (Bool-cases (is_admin u.role)) [
    | inl boss ↦ rw (guarded, boss) (ruled boss r.route)
    | inr reader ↦ rw (guarded, reader) (read r.route)
  ]
    where
      ruled : is_admin u.role ≡ true → (route : Route) → Fine env w r (handle env w r u route)
      ruled boss logout = logout-Effect u caller
      ruled boss (password b) = password-Effect u b (caller, boss)
      ruled boss (add_account b) = add-Effect u b (caller, boss)
      ruled boss (set_role id role) = role-Effect u id role (caller, boss)
      ruled boss (delete_account id) = delete-Effect u id (caller, boss)
      ruled boss (put_entra b) = put_entra-Effect u b (caller, boss)
      ruled boss (setup b t) = nothing
      ruled boss (login b t) = nothing
      ruled boss (entra_start b) = nothing
      ruled boss (entra_callback q t) = nothing

      read :
          (route : Route)
          → Fine env w r
              (if read_only_allowed route then handle env w r u route else (w, status 403))
      read logout = logout-Effect u caller
      read (password b) = nothing
      read (add_account b) = nothing
      read (set_role id role) = nothing
      read (delete_account id) = nothing
      read (put_entra b) = nothing
      read (setup b t) = nothing
      read (login b t) = nothing
      read (entra_start b) = nothing
      read (entra_callback q t) = nothing
