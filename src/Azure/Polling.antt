-- ===== src/Azure/Polling.antt =====
-- How internal/hub/azure/async.go paces its polls, and when it takes an operation as done.
use native.Mathlib.Nat.{pow-zero, pow-succ', mul_assoc}
use serversmonitor.Prelude.{
  List, ℕ, zero, suc, ◌+◌, ◌*◌, ◌-◌, ◌^◌, ◌≤◌, ◌<◌, ◌≡◌, ◌≢◌, refl, sym, ap, ◌∙◌, String_discrete,
  Bool, false, Option, none, some, String, ◌⊎◌, inl, inr, if◌then◌else◌, ltb, ◌==◌, arith, subst,
  Bool-cases, Option-cases, ℕ_discrete,
}
use serversmonitor.Azure.Async.{
  retry_after, max_polls, poll_floor, poll_ceiling, Response, Body, Verdict, running, finished,
  refused, wait_loop, poll_wait, poll_loop, poll, await, operation_status, Failure,
}

-- The smaller of two numbers.
unfoldable pub at_most : ℕ → ℕ → ℕ
at_most cap n = if ltb cap n then cap else n

at_most-over : (n : ℕ) → poll_ceiling ≤ n → at_most poll_ceiling n ≡ poll_ceiling
unfolding at_most
at_most-over n h = ground (arith, h)

grown : (n w : ℕ) → w ≤ w * 2 ^ n
grown zero w = rw pow-zero (omega arith)
grown (suc n) w = rw (pow-succ' 2 n) (omega (arith, grown n w, mul_assoc w 2 (2 ^ n)))

capped_loop : (n w : ℕ) → at_most poll_ceiling (wait_loop n w) ≡ at_most poll_ceiling (w * 2 ^ n)
unfolding wait_loop
capped_loop zero w = rw pow-zero (ap (at_most poll_ceiling) (omega arith))
capped_loop (suc n) w = elim (Bool-cases (ltb w poll_ceiling)) [
  | inl small ↦ rw small (
      capped_loop n (w * 2)
      ∙ ap (at_most poll_ceiling) (mul_assoc w 2 (2 ^ n) ∙ ap (λ k. w * k) (sym (pow-succ' 2 n))))
  | inr big ↦ rw big (
      at_most-over w (ceiling_le big)
      ∙ sym (at_most-over (w * 2 ^ suc n) (omega (arith, ceiling_le big, grown (suc n) w))))
]
  where
    ceiling_le : ltb w poll_ceiling ≡ false → poll_ceiling ≤ w
    ceiling_le big = ground (arith, big)

-- Without a Retry-After the wait before poll n + 1 is one second doubled n times, and half a minute once
-- that is longer.
pub poll_wait_lem :
    (hdr : List ℕ) (n : ℕ)
    → retry_after hdr ≡ 0
    → poll_wait hdr (suc n) ≡ at_most poll_ceiling (poll_floor * 2 ^ n)
unfolding poll_wait at_most
poll_wait_lem hdr n h = rw (h, one_less n) (capped_loop n poll_floor)
  where
    one_less : (n : ℕ) → suc n - 1 ≡ n
    one_less n = omega arith

Verdict-cases : (v : Verdict) → (v ≡ running) ⊎ ((v ≡ finished) ⊎ ((e : Failure) × v ≡ refused e))
Verdict-cases running = inl refl
Verdict-cases finished = inr (inl refl)
Verdict-cases (refused e) = inr (inr (e, refl))

operation_status-finished :
    (unmarshal : String → Option Body) (r : Response)
    → operation_status unmarshal r ≡ finished
    → (b : Body) × (unmarshal r.body ≡ some b × b.state ≡ "Succeeded")
unfolding operation_status
operation_status-finished unmarshal r h = elim (Option-cases (unmarshal r.body)) [
  | inl n ↦ absurd (cc (rw (n, operation_status) at h))
  | inr (b, e) ↦ elim (String_discrete b.state "Succeeded") [
    | yes p ↦ (b, (e, p))
    | no d ↦ absurd (ground (arith, e, d, h))
  ]
]

module _ (get : ℕ → Option Response) where
  -- The n-th poll was answered, and the answer meets the verdict.
  abbrev pub Answered : (Response → Verdict) → Verdict → ℕ → Type 0
  Answered done v n = (resp : Response) × get n ≡ some resp × done resp ≡ v

  -- Some poll from `from` on and before `until` ended the wait, and every one before it said that the
  -- operation runs.
  abbrev pub EndsWithin : (Response → Verdict) → ℕ → ℕ → Type 0
  EndsWithin done from until =
      (k : ℕ) × from ≤ k
      × k < until
      × Answered done finished k
      × ((m : ℕ) → from ≤ m → m < k → Answered done running m)

  EndsWithin-earlier :
      (done : Response → Verdict) (from until : ℕ)
      → Answered done running from
      → EndsWithin done (suc from) until
      → EndsWithin done from until
  EndsWithin-earlier done from until r (k, lo, hi, e, rest) = (k, omega (arith, lo), hi, e, before)
    where
      before : (m : ℕ) → from ≤ m → m < k → Answered done running m
      before m lo hi = elim (ℕ_discrete from m) [
        | yes e ↦ subst (Answered done running) e r
        | no d ↦ rest m (omega (arith, d, lo)) hi
      ]

  -- The operation that a poll reads has Azure's own "Succeeded".
  abbrev pub SaidSucceeded : (String → Option Body) → ℕ → Type 0
  SaidSucceeded unmarshal k =
      (resp : Response) × (b : Body) × (get k ≡ some resp
        × unmarshal resp.body ≡ some b
        × b.state ≡ "Succeeded")

module _ (sleep : ℕ → ℕ → Bool) (get : ℕ → Option Response) where
  poll_loop-EndsWithin :
      (done : Response → Verdict) (left n wait : ℕ)
      → poll_loop sleep get done left n wait ≡ none
      → EndsWithin get done n (n + left)
  unfolding poll_loop
  poll_loop-EndsWithin done zero n wait h = cc h
  poll_loop-EndsWithin done (suc left) n wait h = elim (Bool-cases (sleep n wait)) [
    | inr cut ↦ absurd (cc (rw (cut, poll_loop) at h))
    | inl slept ↦ elim (Option-cases (get n)) [
      | inl lost ↦ absurd (cc (rw (slept, lost, poll_loop) at h))
      | inr (resp, got) ↦ elim (Verdict-cases (done resp)) [
        | inl more ↦
            EndsWithin-earlier get done n (n + suc left) (resp, got, more)
              (subst (EndsWithin get done (suc n)) (moved n left) (
                poll_loop-EndsWithin done left (suc n) (poll_wait resp.retry_after (suc n))
                  (rw (slept, got, more, poll_loop) at h)))
        | inr (inl over) ↦ (
          n,
          omega arith,
          omega arith,
          (resp, got, over),
          λ m lo hi. absurd (omega (arith, lo, hi)),
        )
        | inr (inr (e, no_good)) ↦ absurd (cc (rw (slept, got, no_good, poll_loop) at h))
      ]
    ]
  ]
    where
      moved : (a b : ℕ) → suc a + b ≡ a + suc b
      moved a b = omega arith

  polled :
      (unmarshal : String → Option Body) (first_wait : List ℕ)
      → poll sleep get first_wait (operation_status unmarshal) ≡ none
      → (k : ℕ) × (1 ≤ k
          × k ≤ max_polls
          × SaidSucceeded get unmarshal k
          × ((m : ℕ) → 1 ≤ m → m < k → Answered get (operation_status unmarshal) running m))
  unfolding poll
  polled unmarshal first_wait h =
      let (k, lo, hi, (resp, got, fin), rest) =
        poll_loop-EndsWithin (operation_status unmarshal) max_polls 1 (poll_wait first_wait 1) h in
      let (b, (e, s)) = operation_status-finished unmarshal resp fin in
      (k, (lo, omega (arith, hi), (resp, b, (got, e, s)), rest))

  -- An answer that names an operation, a 202 or any other 2xx, is taken as done only when one of at most
  -- 600 polls read "Succeeded" from Azure and every poll before it read that the operation still runs.
  pub await_succeeded :
      (unmarshal : String → Option Body) (r : Response)
      → r.async_operation ≢ ""
      → 200 ≤ r.status
      → r.status < 300
      → await sleep get unmarshal r ≡ none
      → (k : ℕ) × (1 ≤ k
          × k ≤ max_polls
          × SaidSucceeded get unmarshal k
          × ((m : ℕ) → 1 ≤ m → m < k → Answered get (operation_status unmarshal) running m))
  unfolding await
  await_succeeded unmarshal r named lo hi h =
      polled unmarshal r.retry_after (elim (Bool-cases (r.status == 202)) [
        | inl t ↦ ground (arith, t, named, h)
        | inr f ↦ ground (arith, f, named, lo, hi, h)
      ])
