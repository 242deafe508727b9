-- ===== src/Store/LastAdmin.antt =====
-- The local admins of internal/hub/store/users.go through the edits of an admin.
use serversmonitor.Prelude.{
  ℕ, ◌≤◌, ◌≡◌, ◌≢◌, false, ◌&&◌, not, none, some, List, [], ◌∷◌, ◌++◌, String, if◌then◌else◌, ◌==◌,
  text_eq, arith, keep_if, Bool-cases, Option-cases, inl, inr, subst,
}
use serversmonitor.Time.{Time}
use serversmonitor.Store.Stamps.{stamp_lt}
use serversmonitor.Store.Users.{
  Role, admin, viewer, Provider, User, Accounts, done, is_admin, user_by_id, fresh_id, add_user,
  guard_last_local_admin, with_role, set_user_role, delete_user, has_email, Session, live_session,
}
use serversmonitor.Store.AdminCounts.{
  local_admins, UniqueIds, KeepsAdmin, guard-leaves, admins_kept, keep_if-UniqueIds,
  admins-with_role, admins-with_role_admin, with_role-UniqueIds, append-UniqueIds, append-admins,
}

add-KeepsAdmin :
    (fold : String → String) (a b : Accounts) (email hash : String) (role : Role) (p : Provider)
    (now : Time)
    → add_user fold a email hash role p now ≡ done b
    → KeepsAdmin a
    → KeepsAdmin b
unfolding add_user
add-KeepsAdmin fold a b email hash role p now h k =
    elim (Bool-cases (has_email a.users (fold email))) [
      | inl taken ↦ absurd (cc (rw taken at h))
      | inr free ↦
          subst (λ us. UniqueIds us × (1 ≤ local_admins us)) (users_of free)
            (
              append-UniqueIds a.users added (omega arith) k.0,
              omega (arith, k.1, append-admins a.users added),
            )
    ]
  where
    added : User
    added = record {
      id = fresh_id a.users;
      email = fold email;
      password_hash = hash;
      role = role;
      provider = p;
      created_at = now;
    }

    users_of : has_email a.users (fold email) ≡ false → a.users ++ added ∷ [] ≡ b.users
    users_of free = cc (rw free at h)

delete-KeepsAdmin :
    (a b : Accounts) (id : ℕ) → delete_user a id ≡ done b → KeepsAdmin a → KeepsAdmin b
unfolding delete_user
delete-KeepsAdmin a b id h k = elim (Option-cases (guard_last_local_admin a.users id)) [
  | inr (e, no_good) ↦ absurd (cc (rw (no_good, delete_user) at h))
  | inl fine ↦
      subst (λ us. UniqueIds us × (1 ≤ local_admins us)) (users_of fine)
        (
          keep_if-UniqueIds a.users id k.0,
          omega (arith, admins_kept a.users id, guard-leaves a.users id k.0 k.1 fine),
        )
]
  where
    users_of :
        guard_last_local_admin a.users id ≡ none → keep_if (λ u. not (u.id == id)) a.users ≡ b.users
    users_of fine = cc (rw (fine, delete_user) at h)

role_leaves_admin :
    (us : List User) (id : ℕ) (role : Role)
    → UniqueIds us
    → 1 ≤ local_admins us
    → (if is_admin role then none else guard_last_local_admin us id) ≡ none
    → 1 ≤ local_admins (with_role us id role)
role_leaves_admin us id admin u k h = omega (arith, k, admins-with_role_admin us id)
role_leaves_admin us id viewer u k h =
    omega (arith, guard-leaves us id u k h, admins-with_role us id viewer)

set_role-KeepsAdmin :
    (a b : Accounts) (id : ℕ) (role : Role)
    → set_user_role a id role ≡ done b
    → KeepsAdmin a
    → KeepsAdmin b
unfolding set_user_role
set_role-KeepsAdmin a b id role h k =
    elim (Option-cases (if is_admin role then none else guard_last_local_admin a.users id)) [
      | inr (e, no_good) ↦ absurd (cc (rw (no_good, set_user_role) at h))
      | inl fine ↦ elim (Option-cases (user_by_id a.users id)) [
        | inl missing ↦ absurd (cc (rw (fine, missing, set_user_role) at h))
        | inr (q, there) ↦
            subst (λ us. UniqueIds us × (1 ≤ local_admins us)) (users_of fine q there)
              (
                with_role-UniqueIds a.users id role k.0,
                role_leaves_admin a.users id role k.0 k.1 fine,
              )
      ]
    ]
  where
    users_of :
        (if is_admin role then none else guard_last_local_admin a.users id) ≡ none
        → (q : User) → user_by_id a.users id ≡ some q
        → with_role a.users id role ≡ b.users
    users_of fine q there = cc (rw (fine, there, set_user_role) at h)

-- What an admin can do on the page: add an account, change a role, delete an account.
pub data Edit (fold : String → String) : Accounts → Accounts → Type 0 where
  adds :
      (a b : Accounts) (email hash : String) (role : Role) (p : Provider) (now : Time)
      → add_user fold a email hash role p now ≡ done b
      → Edit fold a b
  sets : (a b : Accounts) (id : ℕ) (role : Role) → set_user_role a id role ≡ done b → Edit fold a b
  deletes : (a b : Accounts) (id : ℕ) → delete_user a id ≡ done b → Edit fold a b

pub data Edits (fold : String → String) (a : Accounts) : Accounts → Type 0 where
  unedited : Edits fold a a
  edited : {b c : Accounts} → Edits fold a b → Edit fold b c → Edits fold a c

module _ (fold : String → String) where
  Edit-KeepsAdmin : {a b : Accounts} → Edit fold a b → KeepsAdmin a → KeepsAdmin b
  Edit-KeepsAdmin (adds a b email hash role p now h) k =
      add-KeepsAdmin fold a b email hash role p now h k
  Edit-KeepsAdmin (sets a b id role h) k = set_role-KeepsAdmin a b id role h k
  Edit-KeepsAdmin (deletes a b id h) k = delete-KeepsAdmin a b id h k

  -- However accounts are added, deleted and given other roles, once some account is a local admin (and
  -- ids are unique) there always is one: the way back in survives every edit.
  pub Edits-KeepsAdmin : {a b : Accounts} → Edits fold a b → KeepsAdmin a → KeepsAdmin b
  Edits-KeepsAdmin unedited k = k
  Edits-KeepsAdmin (edited es e) k = Edit-KeepsAdmin e (Edits-KeepsAdmin es k)

no_session_left :
    (ss : List Session) (id : ℕ) (token : String) (now : Time)
    → live_session (keep_if (λ s. not (s.user_id == id)) ss) token now ≢ some id
unfolding live_session
no_session_left [] id token now h = cc h
no_session_left (s ∷ ss) id token now h = elim (Bool-cases (s.user_id == id)) [
  | inl same ↦ no_session_left ss id token now (rw same at h)
  | inr other ↦ elim (Bool-cases (text_eq s.token token && stamp_lt now s.expires_at)) [
    | inl live ↦ absurd (ground (arith, rw (other, live) at h, other))
    | inr dead ↦ no_session_left ss id token now (rw (other, dead) at h)
  ]
]

-- A deleted person is signed out at once: no token that was given out names the account any more, so
-- not even an account that is added later under the same id is signed in by an old one.
pub deleted_signed_out :
    (a b : Accounts) (id : ℕ) (token : String) (now : Time)
    → delete_user a id ≡ done b
    → live_session b.sessions token now ≢ some id
unfolding delete_user
deleted_signed_out a b id token now h = elim (Option-cases (guard_last_local_admin a.users id)) [
  | inr (e, no_good) ↦ absurd (cc (rw (no_good, delete_user) at h))
  | inl fine ↦
      subst (λ ss. live_session ss token now ≢ some id) (sessions_of fine)
        (no_session_left a.sessions id token now)
]
  where
    sessions_of :
        guard_last_local_admin a.users id ≡ none
        → keep_if (λ s. not (s.user_id == id)) a.sessions ≡ b.sessions
    sessions_of fine = cc (rw (fine, delete_user) at h)
