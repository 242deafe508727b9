-- ===== src/Store/Users.antt =====
-- internal/hub/store/users.go: the accounts and their sessions. A statement that is refused leaves the
-- tables as they are. `fold` is the trimming and lower-casing of an e-mail, over Unicode's tables.
use serversmonitor.Prelude.{
  ℕ, suc, Bool, true, false, ◌&&◌, ◌||◌, not, Option, none, some, List, [], ◌∷◌, ◌++◌, String,
  if◌then◌else◌, ltb, ◌==◌, text_eq, keep_if,
}
use serversmonitor.Time.{Time}
use serversmonitor.Store.Stamps.{stamp_lt}

pub data Role : Type 0 where
  admin viewer : Role

pub data Provider : Type 0 where
  local entra : Provider

pub record User : Type 0 where
  pub id : ℕ
  pub email : String
  pub password_hash : String
  pub role : Role
  pub provider : Provider
  pub created_at : Time

pub record Session : Type 0 where
  pub token : String
  pub user_id : ℕ
  pub expires_at : Time

pub record Accounts : Type 0 where
  pub users : List User
  pub sessions : List Session

pub data UserError : Type 0 where
  user_exists not_found last_local_admin : UserError

pub data Changed : Type 0 where
  done : Accounts → Changed
  refused : UserError → Changed

abbrev pub is_admin : Role → Bool
is_admin admin = true
is_admin viewer = false

abbrev pub is_local : Provider → Bool
is_local local = true
is_local entra = false

abbrev pub is_local_admin : User → Bool
is_local_admin u = is_admin u.role && is_local u.provider

unfoldable pub user_by_id : List User → ℕ → Option User
user_by_id [] id = none
user_by_id (u ∷ us) id = let rest = user_by_id us id in if u.id == id then some u else rest

unfoldable pub has_email : List User → String → Bool
has_email [] email = false
has_email (u ∷ us) email = text_eq u.email email || has_email us email

-- The id that SQLite gives a new row: one more than the greatest.
unfoldable pub fresh_id : List User → ℕ
fresh_id [] = 1
fresh_id (u ∷ us) = let n = fresh_id us in if ltb u.id n then n else suc u.id

-- AddUser
unfoldable pub add_user :
    (String → String) → Accounts → String → String → Role → Provider → Time → Changed
add_user fold a email hash role provider now =
    if has_email a.users (fold email)
    then refused user_exists
    else done (record a {
      users =
          a.users
          ++ record {
            id = fresh_id a.users;
            email = fold email;
            password_hash = hash;
            role = role;
            provider = provider;
            created_at = now;
          }
            ∷ [];
    })

-- `count(*) ... WHERE role = 'admin' AND provider = 'local' AND id != ?`
unfoldable pub other_local_admins : List User → ℕ → ℕ
other_local_admins [] id = 0
other_local_admins (u ∷ us) id =
    let rest = other_local_admins us id in
    if is_local_admin u && not (u.id == id) then suc rest else rest

-- guardLastLocalAdmin: none when the change may go on.
unfoldable pub guard_last_local_admin : List User → ℕ → Option UserError
guard_last_local_admin us id = elim (user_by_id us id) [
  | none ↦ some not_found
  | some u ↦
      if is_local_admin u && (other_local_admins us id == 0) then some last_local_admin else none
]

unfoldable pub with_role : List User → ℕ → Role → List User
with_role [] id role = []
with_role (u ∷ us) id role =
    let rest = with_role us id role in
    if u.id == id then record u { role = role } ∷ rest else u ∷ rest

-- SetUserRole
unfoldable pub set_user_role : Accounts → ℕ → Role → Changed
set_user_role a id role = elim (if is_admin role then none else guard_last_local_admin a.users id) [
  | some e ↦ refused e
  | none ↦ elim (user_by_id a.users id) [
    | none ↦ refused not_found
    | some u ↦ done (record a { users = with_role a.users id role })
  ]
]

-- DeleteUser
unfoldable pub delete_user : Accounts → ℕ → Changed
delete_user a id = elim (guard_last_local_admin a.users id) [
  | some e ↦ refused e
  | none ↦ done (record {
    users = keep_if (λ u. not (u.id == id)) a.users;
    sessions = keep_if (λ s. not (s.user_id == id)) a.sessions;
  })
]

-- CreateSession; the token comes from the system's random numbers.
unfoldable pub create_session : Accounts → String → ℕ → Time → Accounts
create_session a token user_id expires = record a {
  sessions = a.sessions ++ record { token = token; user_id = user_id; expires_at = expires } ∷ [];
}

-- The session of a token, while `expires_at > ?` holds of the texts.
unfoldable pub live_session : List Session → String → Time → Option ℕ
live_session [] token now = none
live_session (s ∷ ss) token now =
    let rest = live_session ss token now in
    if text_eq s.token token && stamp_lt now s.expires_at then some s.user_id else rest

-- SessionUser
unfoldable pub session_user : Accounts → String → Time → Option User
session_user a token now = elim (live_session a.sessions token now) [
  | none ↦ none
  | some id ↦ user_by_id a.users id
]

-- DeleteSession
unfoldable pub delete_session : Accounts → String → Accounts
delete_session a token = record a {
  sessions = keep_if (λ s. not (text_eq s.token token)) a.sessions;
}

-- PurgeSessions
unfoldable pub purge_sessions : Accounts → Time → Accounts
purge_sessions a now = record a { sessions = keep_if (λ s. stamp_lt now s.expires_at) a.sessions }

-- UserByEmail
unfoldable pub user_by_email : (String → String) → List User → String → Option User
user_by_email fold [] email = none
user_by_email fold (u ∷ us) email =
    let rest = user_by_email fold us email in if text_eq u.email (fold email) then some u else rest

unfoldable pub with_password : List User → ℕ → String → List User
with_password [] id hash = []
with_password (u ∷ us) id hash =
    let rest = with_password us id hash in
    if u.id == id then record u { password_hash = hash } ∷ rest else u ∷ rest

-- UpdatePassword
unfoldable pub update_password : Accounts → ℕ → String → Changed
update_password a id hash = elim (user_by_id a.users id) [
  | none ↦ refused not_found
  | some u ↦ done (record a { users = with_password a.users id hash })
]
