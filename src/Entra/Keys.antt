-- ===== src/Entra/Keys.antt =====
-- internal/hub/entra/entra.go: whose keys the cache of signing keys gives.
use mathlib.Core.List.{Memᴰ}
use mathlib.Core.List.Memᴰ.{head, tail}
use serversmonitor.Prelude.{
  ◌≡◌, ◌≢◌, ◌⊎◌, refl, sym, ◌∙◌, subst, false, some, List, [], ◌∷◌, String, lookup, insert,
  String_discrete, Bool-cases, Option-cases, inl, inr, lookup-insert_self, lookup-insert_ne,
}
use serversmonitor.Prelude.Int.{pos}
use serversmonitor.Time.{Time, hour, time_sub, dur_le}
use serversmonitor.Entra.Tokens.{
  Jose, Jwk, KeyAnswer, keys_failed, keys_answered, Provider, accepted,
}
use serversmonitor.Entra.Verify.{usable_key, published, known, fetch_key, key}

module _ {F K : Type 0} (jose : Jose F K) where
  -- The key is that of an entry of a tenant's list with the id.
  abbrev pub Listed : List Jwk → String → K → Type 0
  Listed jks kid k = (jk : Jwk) × Memᴰ jk jks × (jk.kid ≡ kid) × (usable_key jose jk ≡ some k)

  later :
      (jk : Jwk) (jks : List Jwk) (kid : String) (k : K)
      → Listed jks kid k
      → Listed (jk ∷ jks) kid k
  later jk jks kid k (j, m, e, u) = (j, tail m, e, u)

  lookup-published :
      (jks : List Jwk) (keys : List (String × K)) (kid : String) (k : K)
      → lookup String_discrete kid (published jose jks keys) ≡ some k
      → (lookup String_discrete kid keys ≡ some k) ⊎ Listed jks kid k
  unfolding published
  lookup-published [] keys kid k h = inl h
  lookup-published (jk ∷ jks) keys kid k h = elim (Option-cases (usable_key jose jk)) [
    | inl e ↦ elim (lookup-published jks keys kid k (rw (published, e) at h)) [
      | inl old ↦ inl old
      | inr new ↦ inr (later jk jks kid k new)
    ]
    | inr (q, e) ↦
        elim (lookup-published jks (insert String_discrete jk.kid q keys) kid k
          (rw (published, e) at h)) [
            | inr new ↦ inr (later jk jks kid k new)
            | inl old ↦ elim (String_discrete jk.kid kid) [
              | no other ↦
                  inl (sym (lookup-insert_ne String_discrete jk.kid kid q keys other) ∙ old)
              | yes here ↦ inr (jk, head refl, here, e ∙ stored q here old)
            ]
          ]
  ]
    where
      stored :
          (q : K)
          → jk.kid ≡ kid
          → lookup String_discrete kid (insert String_discrete jk.kid q keys) ≡ some k
          → some q ≡ some k
      stored q here old =
          sym (
            subst (λ i. lookup String_discrete i (insert String_discrete jk.kid q keys) ≡ some q)
              here (lookup-insert_self String_discrete jk.kid q keys))
          ∙ old

  -- A key that `key` gives is in the cache, read within the hour, or in the list just read.
  abbrev pub OfTenant : Provider K → KeyAnswer → String → Time → K → Type 0
  OfTenant p answer kid now k =
      ((lookup String_discrete kid p.keys ≡ some k)
        × (dur_le (pos hour) (time_sub now p.keys_at) ≡ false))
      ⊎ ((jks : List Jwk) × (answer ≡ keys_answered jks) × Listed jks kid k)

  fetch_key-OfTenant :
      (p : Provider K) (answer : KeyAnswer) (kid : String) (now : Time) (k : K)
      → (fetch_key jose p answer kid now).1 ≡ accepted k
      → OfTenant p answer kid now k
  unfolding fetch_key lookup
  fetch_key-OfTenant p keys_failed kid now k h = absurd (cc h)
  fetch_key-OfTenant p (keys_answered jks) kid now k h =
      elim (Option-cases (lookup String_discrete kid (published jose jks []))) [
        | inl e ↦ absurd (cc (rw e at h))
        | inr (q, e) ↦ elim (lookup-published jks [] kid q e) [
          | inl old ↦ absurd (nothing_kept kid q old)
          | inr new ↦ inr (jks, refl, subst (Listed jks kid) (given q (rw e at h)) new)
        ]
      ]
    where
      nothing_kept : (kid : String) (q : K) → lookup String_discrete kid [] ≢ some q
      nothing_kept kid q e = cc e

      given : (q : K) → known jose (some q) ≡ accepted k → q ≡ k
      given q e = cc e

  pub key-OfTenant :
      (p : Provider K) (answer : KeyAnswer) (kid : String) (now : Time) (k : K)
      → (key jose p answer kid now).1 ≡ accepted k
      → OfTenant p answer kid now k
  unfolding key
  key-OfTenant p answer kid now k h = elim (Option-cases (lookup String_discrete kid p.keys)) [
    | inl e ↦ fetch_key-OfTenant p answer kid now k (rw (key, e) at h)
    | inr (q, e) ↦ elim (Bool-cases (dur_le (pos hour) (time_sub now p.keys_at))) [
      | inl old ↦ fetch_key-OfTenant p answer kid now k (rw (key, e, old) at h)
      | inr fresh ↦ inl (e ∙ given q (rw (key, e, fresh) at h), fresh)
    ]
  ]
    where
      given : (q : K) → accepted q ≡ accepted k → some q ≡ some k
      given q e = cc e

  fetch_key-keeps :
      (p : Provider K) (answer : KeyAnswer) (kid : String) (now : Time)
      → ((fetch_key jose p answer kid now).0.authority ≡ p.authority)
        × ((fetch_key jose p answer kid now).0.pending ≡ p.pending)
  unfolding fetch_key
  fetch_key-keeps p keys_failed kid now = (refl, refl)
  fetch_key-keeps p (keys_answered jks) kid now = (refl, refl)

  pub key-keeps :
      (p : Provider K) (answer : KeyAnswer) (kid : String) (now : Time)
      → ((key jose p answer kid now).0.authority ≡ p.authority)
        × ((key jose p answer kid now).0.pending ≡ p.pending)
  unfolding key
  key-keeps p answer kid now = elim (Option-cases (lookup String_discrete kid p.keys)) [
    | inl e ↦ rw (key, e) (fetch_key-keeps p answer kid now)
    | inr (q, e) ↦ elim (Bool-cases (dur_le (pos hour) (time_sub now p.keys_at))) [
      | inl old ↦ rw (key, e, old) (fetch_key-keeps p answer kid now)
      | inr fresh ↦ rw (key, e, fresh) (refl, refl)
    ]
  ]
