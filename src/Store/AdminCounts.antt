-- ===== src/Store/AdminCounts.antt =====
-- Counting the local admins of internal/hub/store/users.go through the changes of its rows.
use serversmonitor.Prelude.{
  ℕ, suc, ◌≤◌, ◌≡◌, ◌≢◌, refl, true, false, not, none, some, List, [], ◌∷◌, ◌++◌, if◌then◌else◌,
  ◌==◌, arith, keep_if, Bool-cases, Option-cases, inl, inr, subst,
}
use serversmonitor.Store.Users.{
  Role, admin, User, Accounts, is_local_admin, user_by_id, fresh_id, other_local_admins,
  guard_last_local_admin, with_role,
}

unfoldable pub local_admins : List User → ℕ
local_admins [] = 0
local_admins (u ∷ us) = let rest = local_admins us in if is_local_admin u then suc rest else rest

-- The primary key.
unfoldable pub UniqueIds : List User → Type 0
UniqueIds [] = Unit
UniqueIds (u ∷ us) = (user_by_id us u.id ≡ none) × UniqueIds us

-- No id stands twice, and some account is a local admin.
abbrev pub KeepsAdmin : Accounts → Type 0
KeepsAdmin a = UniqueIds a.users × (1 ≤ local_admins a.users)

pub others_absent :
    (us : List User) (id : ℕ) → user_by_id us id ≡ none → other_local_admins us id ≡ local_admins us
unfolding user_by_id other_local_admins local_admins
others_absent [] id h = refl
others_absent (u ∷ us) id h = ground (arith, others_absent us id, h)

pub others_found :
    (us : List User) (id : ℕ) (q : User)
    → UniqueIds us
    → user_by_id us id ≡ some q
    → is_local_admin q ≡ false
    → other_local_admins us id ≡ local_admins us
unfolding user_by_id other_local_admins local_admins UniqueIds
others_found [] id q u h n = refl
others_found (x ∷ us) id q u h n = elim (Bool-cases (x.id == id)) [
  | inr other ↦ ground (arith, others_found us id q u.1, h, n, other)
  | inl same ↦ ground (
    arith,
    others_absent us id (subst (λ k. user_by_id us k ≡ none) (eq_of same) u.0),
    h,
    n,
    same,
  )
]
  where
    eq_of : (x.id == id) ≡ true → x.id ≡ id
    eq_of same = ground (arith, same)

pub guard-leaves :
    (us : List User) (id : ℕ)
    → UniqueIds us
    → 1 ≤ local_admins us
    → guard_last_local_admin us id ≡ none
    → 1 ≤ other_local_admins us id
unfolding guard_last_local_admin
guard-leaves us id u some_admin h = elim (Option-cases (user_by_id us id)) [
  | inl e ↦ absurd (cc (rw (e, guard_last_local_admin) at h))
  | inr (q, e) ↦ elim (Bool-cases (is_local_admin q)) [
    | inl l ↦ ground (arith, e, l, h)
    | inr l ↦ omega (arith, some_admin, others_found us id q u e l)
  ]
]

pub admins_kept :
    (us : List User) (id : ℕ)
    → local_admins (keep_if (λ u. not (u.id == id)) us) ≡ other_local_admins us id
unfolding local_admins other_local_admins
admins_kept [] id = refl
admins_kept (u ∷ us) id = ground (arith, admins_kept us id)

pub kept_absent :
    (us : List User) (id k : ℕ)
    → user_by_id us k ≡ none
    → user_by_id (keep_if (λ u. not (u.id == id)) us) k ≡ none
unfolding user_by_id
kept_absent [] id k h = h
kept_absent (u ∷ us) id k h = ground (arith, kept_absent us id k, h)

pub keep_if-UniqueIds :
    (us : List User) (id : ℕ) → UniqueIds us → UniqueIds (keep_if (λ u. not (u.id == id)) us)
unfolding UniqueIds
keep_if-UniqueIds [] id h = h
keep_if-UniqueIds (u ∷ us) id h = elim (Bool-cases (u.id == id)) [
  | inl same ↦ rw same (keep_if-UniqueIds us id h.1)
  | inr other ↦ rw other (kept_absent us id u.id h.0, keep_if-UniqueIds us id h.1)
]

pub admins-with_role :
    (us : List User) (id : ℕ) (role : Role)
    → other_local_admins us id ≤ local_admins (with_role us id role)
unfolding local_admins other_local_admins with_role
admins-with_role [] id role = omega arith
admins-with_role (u ∷ us) id role = ground (arith, admins-with_role us id role)

pub admins-with_role_admin :
    (us : List User) (id : ℕ) → local_admins us ≤ local_admins (with_role us id admin)
unfolding local_admins with_role
admins-with_role_admin [] id = omega arith
admins-with_role_admin (u ∷ us) id = ground (arith, admins-with_role_admin us id)

pub with_role_absent :
    (us : List User) (id k : ℕ) (role : Role)
    → user_by_id us k ≡ none
    → user_by_id (with_role us id role) k ≡ none
unfolding user_by_id with_role
with_role_absent [] id k role h = h
with_role_absent (u ∷ us) id k role h = ground (arith, with_role_absent us id k role, h)

pub with_role-UniqueIds :
    (us : List User) (id : ℕ) (role : Role) → UniqueIds us → UniqueIds (with_role us id role)
unfolding UniqueIds with_role
with_role-UniqueIds [] id role h = h
with_role-UniqueIds (u ∷ us) id role h = elim (Bool-cases (u.id == id)) [
  | inl same ↦ rw same (with_role_absent us id u.id role h.0, with_role-UniqueIds us id role h.1)
  | inr other ↦ rw other (with_role_absent us id u.id role h.0, with_role-UniqueIds us id role h.1)
]

pub absent_from : (us : List User) (k : ℕ) → fresh_id us ≤ k → user_by_id us k ≡ none
unfolding user_by_id fresh_id
absent_from [] k h = refl
absent_from (u ∷ us) k h = ground (arith, absent_from us k, h)

pub append_absent :
    (us : List User) (q : User) (k : ℕ)
    → user_by_id us k ≡ none
    → q.id ≢ k
    → user_by_id (us ++ q ∷ []) k ≡ none
unfolding user_by_id
append_absent [] q k h d = ground (arith, d)
append_absent (u ∷ us) q k h d = ground (arith, append_absent us q k, h, d)

pub append-UniqueIds :
    (us : List User) (q : User) → fresh_id us ≤ q.id → UniqueIds us → UniqueIds (us ++ q ∷ [])
unfolding UniqueIds fresh_id user_by_id
append-UniqueIds [] q f h = (refl, tt)
append-UniqueIds (u ∷ us) q f h =
    (append_absent us q u.id h.0 (ground (arith, f)), append-UniqueIds us q (ground (arith, f)) h.1)

pub append-admins : (us : List User) (q : User) → local_admins us ≤ local_admins (us ++ q ∷ [])
unfolding local_admins
append-admins [] q = omega arith
append-admins (u ∷ us) q = ground (arith, append-admins us q)
