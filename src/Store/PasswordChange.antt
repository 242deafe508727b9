-- ===== src/Store/PasswordChange.antt =====
-- internal/hub/store/users.go: a changed password leaves who is an admin as it was.
use serversmonitor.Prelude.{
  ℕ, ◌≡◌, refl, none, some, List, [], ◌∷◌, String, ◌==◌, arith, Bool-cases, Option-cases, inl, inr,
  subst, ◌≤◌,
}
use serversmonitor.Store.Users.{User, Accounts, done, user_by_id, with_password, update_password}
use serversmonitor.Store.AdminCounts.{local_admins, UniqueIds, KeepsAdmin}

admins-with_password :
    (us : List User) (id : ℕ) (hash : String)
    → local_admins (with_password us id hash) ≡ local_admins us
unfolding local_admins with_password
admins-with_password [] id hash = refl
admins-with_password (u ∷ us) id hash = ground (arith, admins-with_password us id hash)

with_password_absent :
    (us : List User) (id k : ℕ) (hash : String)
    → user_by_id us k ≡ none
    → user_by_id (with_password us id hash) k ≡ none
unfolding user_by_id with_password
with_password_absent [] id k hash h = h
with_password_absent (u ∷ us) id k hash h = ground (arith, with_password_absent us id k hash, h)

with_password-UniqueIds :
    (us : List User) (id : ℕ) (hash : String) → UniqueIds us → UniqueIds (with_password us id hash)
unfolding with_password UniqueIds
with_password-UniqueIds [] id hash h = tt
with_password-UniqueIds (u ∷ us) id hash h = elim (Bool-cases (u.id == id)) [
  | inl e ↦ rw e (with_password_absent us id u.id hash h.0, with_password-UniqueIds us id hash h.1)
  | inr e ↦ rw e (with_password_absent us id u.id hash h.0, with_password-UniqueIds us id hash h.1)
]

pub update_password-KeepsAdmin :
    (a b : Accounts) (id : ℕ) (hash : String)
    → update_password a id hash ≡ done b
    → KeepsAdmin a
    → KeepsAdmin b
unfolding update_password
update_password-KeepsAdmin a b id hash h k = elim (Option-cases (user_by_id a.users id)) [
  | inl e ↦ absurd (cc (rw (update_password, e) at h))
  | inr (u, e) ↦
      subst (λ us. UniqueIds us × (1 ≤ local_admins us)) (users_of u e)
        (with_password-UniqueIds a.users id hash k.0, rw (admins-with_password a.users id hash) k.1)
]
  where
    users_of : (u : User) → user_by_id a.users id ≡ some u → with_password a.users id hash ≡ b.users
    users_of u e = cc (rw (update_password, e) at h)
