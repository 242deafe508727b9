-- ===== src/Server/Sessions.antt =====
-- Where the sessions of internal/hub/store/users.go come from, through the requests of
-- internal/hub/server.
use mathlib.Core.List.{Memᴰ}
use mathlib.Core.List.Memᴰ.{head, tail}
use serversmonitor.Prelude.{
  ℕ, ◌+◌, ◌≡◌, refl, not, none, List, [], ◌∷◌, String, ◌==◌, if◌then◌else◌, length, All, All-append,
  keep_if, Bool, Bool-cases, Option-cases, inl, inr, subst,
}
use serversmonitor.Time.{Time}
use serversmonitor.Store.Users.{
  Role, Provider, User, Session, Accounts, done, has_email, user_by_id, is_admin,
  guard_last_local_admin, add_user, set_user_role, delete_user, create_session, delete_session,
  update_password,
}
use serversmonitor.Store.Settings.{SettingsTable}
use serversmonitor.Store.LastAdmin.{Edit, adds, sets, deletes}
use serversmonitor.Server.Requests.{Request, Web, Env}
use serversmonitor.Server.Routes.{serve}
use serversmonitor.Server.Effects.{
  SignsIn, Effect, nothing, first_account, first_signed_in, signs_in, signs_out, new_password, edit,
  registers,
}
use serversmonitor.Server.Served.{serve-Effect}

module _ {A : Type 0} where
  All-each : (P : A → Type 0) (xs : List A) → ((x : A) → Memᴰ x xs → P x) → All P xs
  All-each P [] f = tt
  All-each P (x ∷ xs) f = (f x (head refl), All-each P xs (λ y m. f y (tail m)))

  All-keep_if :
      (P : A → Type 0) (keep : A → Bool) (xs : List A) → All P xs → All P (keep_if keep xs)
  All-keep_if P keep [] h = tt
  All-keep_if P keep (x ∷ xs) h = elim (Bool-cases (keep x)) [
    | inl e ↦ rw e (h.0, All-keep_if P keep xs h.1)
    | inr e ↦ rw e (All-keep_if P keep xs h.1)
  ]

add_user-sessions :
    (fold : String → String) (a b : Accounts) (email hash : String) (role : Role) (p : Provider)
    (now : Time)
    → add_user fold a email hash role p now ≡ done b
    → a.sessions ≡ b.sessions
unfolding add_user
add_user-sessions fold a b email hash role p now h =
    elim (Bool-cases (has_email a.users (fold email))) [
      | inl taken ↦ absurd (cc (rw taken at h))
      | inr free ↦ cc (rw free at h)
    ]

update_password-sessions :
    (a b : Accounts) (id : ℕ) (hash : String)
    → update_password a id hash ≡ done b
    → a.sessions ≡ b.sessions
unfolding update_password
update_password-sessions a b id hash h = elim (Option-cases (user_by_id a.users id)) [
  | inl e ↦ absurd (cc (rw (update_password, e) at h))
  | inr (u, e) ↦ cc (rw (update_password, e) at h)
]

set_user_role-sessions :
    (a b : Accounts) (id : ℕ) (role : Role)
    → set_user_role a id role ≡ done b
    → a.sessions ≡ b.sessions
unfolding set_user_role
set_user_role-sessions a b id role h =
    elim (Option-cases (if is_admin role then none else guard_last_local_admin a.users id)) [
      | inr (e, no_good) ↦ absurd (cc (rw (no_good, set_user_role) at h))
      | inl fine ↦ elim (Option-cases (user_by_id a.users id)) [
        | inl missing ↦ absurd (cc (rw (fine, missing, set_user_role) at h))
        | inr (q, there) ↦ cc (rw (fine, there, set_user_role) at h)
      ]
    ]

delete_user-sessions :
    (a b : Accounts) (id : ℕ)
    → delete_user a id ≡ done b
    → keep_if (λ s. not (s.user_id == id)) a.sessions ≡ b.sessions
unfolding delete_user
delete_user-sessions a b id h = elim (Option-cases (guard_last_local_admin a.users id)) [
  | inr (e, no_good) ↦ absurd (cc (rw (no_good, delete_user) at h))
  | inl fine ↦ cc (rw (fine, delete_user) at h)
]

Edit-sessions :
    {fold : String → String} {a b : Accounts} (P : Session → Type 0)
    → Edit fold a b
    → All P a.sessions
    → All P b.sessions
Edit-sessions {fold = fold} P (adds a b email hash role p now h) k =
    subst (All P) (add_user-sessions fold a b email hash role p now h) k
Edit-sessions P (sets a b id role h) k = subst (All P) (set_user_role-sessions a b id role h) k
Edit-sessions P (deletes a b id h) k =
    subst (All P) (delete_user-sessions a b id h) (All-keep_if P _ a.sessions k)

module _ (env : Env) (w : Web env.K) (r : Request) where
  -- Where a session of the table after a request comes from.
  pub data Origin (s : Session) : Type 0 where
    was_there : Memᴰ s w.accounts.sessions → Origin s
    began :
        (u : User)
        → SignsIn env w r u
        → s.user_id ≡ u.id
        → s.expires_at ≡ r.at + env.session_ttl
        → Origin s
    set_it_up : length w.accounts.users ≡ 0 → Origin s

  Effect-sessions :
      {a : Accounts} {t : SettingsTable}
      → Effect env w r a t
      → All Origin w.accounts.sessions
      → All Origin a.sessions
  unfolding create_session delete_session
  Effect-sessions nothing k = k
  Effect-sessions (first_account email hash a empty h) k =
      subst (All Origin) (add_user-sessions _ w.accounts a email hash _ _ r.at h) k
  Effect-sessions (first_signed_in email hash token a empty h) k =
      All-append Origin a.sessions _
        (subst (All Origin) (add_user-sessions _ w.accounts a email hash _ _ r.at h) k)
        (set_it_up empty, tt)
  Effect-sessions (signs_in u token s) k =
      All-append Origin w.accounts.sessions _ k (began u s refl refl, tt)
  Effect-sessions (signs_out u token c e) k = All-keep_if Origin _ w.accounts.sessions k
  Effect-sessions (new_password u cur hash a boss home right h) k =
      subst (All Origin) (update_password-sessions w.accounts a u.id hash h) k
  Effect-sessions (edit u a boss h) k = Edit-sessions Origin h k
  Effect-sessions (registers u c boss h) k = k

  -- Every session of the table after a request was there before, or belongs to the account that the
  -- request signed in, by its password or through Microsoft, and ends after the time that a session has;
  -- or there was no account yet.
  pub serve-Origin : All Origin (serve env w r).0.accounts.sessions
  serve-Origin =
      Effect-sessions (serve-Effect env w r) (All-each Origin w.accounts.sessions (λ s. was_there))
