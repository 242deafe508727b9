-- ===== src/Store/Purge.antt =====
-- What PurgeDeliveries of internal/hub/store/deliveries.go leaves.
use serversmonitor.Prelude.{
  ◌≡◌, refl, Bool, true, false, ◌&&◌, not, List, [], ◌∷◌, keep_if, arith, Bool-cases, inl, inr, All,
  ap,
}
use serversmonitor.Time.{Time, before}
use serversmonitor.Store.Deliveries.{
  DeliveryState, pending, sent, failed, held, Delivery, Deliveries, is_pending, is_held, is_settled,
  purge_deliveries, pending_deliveries, held_deliveries,
}

keep_if-keep_if :
    {A : Type 0} (p q : A → Bool) (xs : List A)
    → ((x : A) → p x ≡ true → q x ≡ true)
    → keep_if p (keep_if q xs) ≡ keep_if p xs
keep_if-keep_if p q [] h = refl
keep_if-keep_if p q (x ∷ xs) h = elim (Bool-cases (q x)) [
  | inl e ↦ rw e (elim (Bool-cases (p x)) [
    | inl f ↦ rw f (ap (λ ys. x ∷ ys) (keep_if-keep_if p q xs h))
    | inr f ↦ rw f (keep_if-keep_if p q xs h)
  ])
  | inr e ↦ elim (Bool-cases (p x)) [
    | inl f ↦ absurd (ground (arith, h x f, e))
    | inr f ↦ rw (e, f) (keep_if-keep_if p q xs h)
  ]
]

unsettled_pending :
    (s : DeliveryState) (b : Bool) → is_pending s ≡ true → not (is_settled s && b) ≡ true
unsettled_pending pending b h = refl
unsettled_pending sent b h = absurd (cc h)
unsettled_pending failed b h = absurd (cc h)
unsettled_pending held b h = absurd (cc h)

unsettled_held : (s : DeliveryState) (b : Bool) → is_held s ≡ true → not (is_settled s && b) ≡ true
unsettled_held pending b h = absurd (cc h)
unsettled_held sent b h = absurd (cc h)
unsettled_held failed b h = absurd (cc h)
unsettled_held held b h = refl

-- The row is settled and older than the cutoff.
abbrev pub is_outdated : Time → Delivery → Bool
is_outdated cutoff d = is_settled d.state && before d.updated_at cutoff

none_outdated :
    (cutoff : Time) (ds : List Delivery)
    → All (λ d. is_outdated cutoff d ≡ false) (keep_if (λ d. not (is_outdated cutoff d)) ds)
none_outdated cutoff [] = tt
none_outdated cutoff (d ∷ ds) = elim (Bool-cases (is_outdated cutoff d)) [
  | inl e ↦ rw e (none_outdated cutoff ds)
  | inr e ↦ rw e (e, none_outdated cutoff ds)
]

-- A purge drops no work that is not done yet, however old: the pending and the held deliveries are the
-- same before and after it, in the same order; and no settled delivery from before the cutoff is left.
pub purge_deliveries_lem :
    (t : Deliveries) (cutoff : Time)
    → (pending_deliveries (purge_deliveries t cutoff) ≡ pending_deliveries t)
      × (held_deliveries (purge_deliveries t cutoff) ≡ held_deliveries t)
      × All (λ d. is_outdated cutoff d ≡ false) (purge_deliveries t cutoff).rows
unfolding purge_deliveries
purge_deliveries_lem t cutoff = (
  keep_if-keep_if (λ d. is_pending d.state) (λ d. not (is_outdated cutoff d)) t.rows
      (λ d h. unsettled_pending d.state (before d.updated_at cutoff) h),
  keep_if-keep_if (λ d. is_held d.state) (λ d. not (is_outdated cutoff d)) t.rows
      (λ d h. unsettled_held d.state (before d.updated_at cutoff) h),
  none_outdated cutoff t.rows,
)
