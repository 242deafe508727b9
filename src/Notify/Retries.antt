-- ===== src/Notify/Retries.antt =====
-- What the worker of internal/hub/notify/dispatcher.go records of a delivery, read back from the
-- attempts that were made.
use serversmonitor.Prelude.{
  ℕ, zero, suc, ◌+◌, ◌-◌, ◌≤◌, ◌<◌, ◌≡◌, subst, Bool, true, false, Option, none, some, ◌⊎◌, inl,
  inr, arith, Bool-cases, Option-cases, ℕ_discrete,
}
use serversmonitor.Notify.Dispatcher.{Options}
use serversmonitor.Notify.Deliver.{
  SendError, Outcome, sent, failed, left_pending, deliver_loop, deliver,
}

module _ (send : ℕ → Option SendError) (sleep : ℕ → Bool) where
  -- The attempt failed in a way worth repeating, and the wait after it ran to its end.
  abbrev pub IsRetried : ℕ → Type 0
  IsRetried m = (err : SendError) × send m ≡ some err × err.retryable ≡ true × sleep m ≡ true

  -- What an outcome says of the attempts from `first` to `last`.
  unfoldable pub Tells : ℕ → ℕ → Outcome → Type 0
  Tells first last (sent n) =
      first ≤ n × n ≤ last × send n ≡ none × ((m : ℕ) → first ≤ m → m < n → IsRetried m)
  Tells first last (failed n err) =
      first ≤ n
      × n ≤ last
      × send n ≡ some err
      × (err.retryable ≡ false ⊎ n ≡ last)
      × ((m : ℕ) → first ≤ m → m < n → IsRetried m)
  Tells first last (left_pending n) =
      first ≤ n
      × n < last
      × ((err : SendError) × send n ≡ some err × err.retryable ≡ true)
      × sleep n ≡ false
      × ((m : ℕ) → first ≤ m → m < n → IsRetried m)

  extended :
      (first n : ℕ)
      → IsRetried first
      → ((m : ℕ) → suc first ≤ m → m < n → IsRetried m)
      → (m : ℕ) → first ≤ m
      → m < n
      → IsRetried m
  extended first n r rest m lo hi = elim (ℕ_discrete first m) [
    | yes e ↦ subst IsRetried e r
    | no d ↦ rest m (omega (arith, d, lo)) hi
  ]

  Tells-earlier :
      (first last : ℕ) (o : Outcome)
      → IsRetried first
      → Tells (suc first) last o
      → Tells first last o
  unfolding Tells
  Tells-earlier first last (sent n) r (lo, hi, s, rest) =
      (omega (arith, lo), hi, s, extended first n r rest)
  Tells-earlier first last (failed n err) r (lo, hi, s, why, rest) =
      (omega (arith, lo), hi, s, why, extended first n r rest)
  Tells-earlier first last (left_pending n) r (lo, hi, s, w, rest) =
      (omega (arith, lo), hi, s, w, extended first n r rest)

  deliver_loop-Tells :
      (left first : ℕ) → Tells first (first + left) (deliver_loop send sleep left first)
  unfolding deliver_loop Tells
  deliver_loop-Tells zero first = elim (Option-cases (send first)) [
    | inl n ↦
        rw (n, deliver_loop, Tells)
          (omega arith, omega arith, n, λ m lo hi. absurd (omega (arith, lo, hi)))
    | inr (err, e) ↦
        rw (e, deliver_loop, Tells)
          (
            omega arith,
            omega arith,
            e,
            inr (omega arith),
            λ m lo hi. absurd (omega (arith, lo, hi)),
          )
  ]
  deliver_loop-Tells (suc left) first = elim (Option-cases (send first)) [
    | inl n ↦
        rw (n, deliver_loop, Tells)
          (omega arith, omega arith, n, λ m lo hi. absurd (omega (arith, lo, hi)))
    | inr (err, e) ↦ elim (Bool-cases err.retryable) [
      | inr no_more ↦
          rw (e, no_more, deliver_loop, Tells)
            (omega arith, omega arith, e, inl no_more, λ m lo hi. absurd (omega (arith, lo, hi)))
      | inl again ↦ elim (Bool-cases (sleep first)) [
        | inr cut ↦
            rw (e, again, cut, deliver_loop, Tells)
              (
                omega arith,
                omega arith,
                (err, e, again),
                cut,
                λ m lo hi. absurd (omega (arith, lo, hi)),
              )
        | inl slept ↦
            rw (e, again, slept, deliver_loop)
              (Tells-earlier first (first + suc left) (deliver_loop send sleep left (suc first))
                (err, e, again, slept)
                (subst (λ k. Tells (suc first) k (deliver_loop send sleep left (suc first)))
                  (moved first left) (deliver_loop-Tells left (suc first))))
      ]
    ]
  ]
    where
      moved : (a b : ℕ) → suc a + b ≡ a + suc b
      moved a b = omega arith

  -- A delivery with at least one attempt allowed is recorded as sent after n attempts only when the
  -- n-th was accepted, as failed only when the n-th failed for good or was the last one allowed, and
  -- stays pending only when a wait was cut short; every attempt before the n-th failed in a way worth
  -- repeating and was waited for.
  pub deliver-Tells : (o : Options) → 1 ≤ o.attempts → Tells 1 o.attempts (deliver o send sleep)
  unfolding deliver
  deliver-Tells o h =
      subst (λ k. Tells 1 k (deliver_loop send sleep (o.attempts - 1) 1)) (omega (arith, h))
        (deliver_loop-Tells (o.attempts - 1) 1)
