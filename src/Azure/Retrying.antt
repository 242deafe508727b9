-- ===== src/Azure/Retrying.antt =====
-- internal/hub/azure/client.go: how often a request is sent, and after which answers.
use serversmonitor.Prelude.{
  ℕ, zero, suc, ◌-◌, ◌≤◌, ◌<◌, ◌≡◌, refl, Bool, true, List, [], ◌∷◌, if◌then◌else◌, ◌==◌, length,
  All, arith, Bool-cases, inl, inr,
}
use serversmonitor.Azure.Client.{
  ClientError, Attempt, answered, errored, Outcome, response, gave_up, Run, attempts_from,
  do_response, retry_throttling_only, backoff,
}

module _ {R : Type 0} (retry : ClientError → Bool) (sleep : ℕ → Bool) (nth : ℕ → Attempt R) where
  -- How the attempt that was the last one ended.
  abbrev pub LastWas : ℕ → Outcome R → Type 0
  LastWas n (response r) = nth n ≡ answered r
  LastWas n (gave_up e) = (asked : ℕ) × (nth n ≡ errored e asked)

  -- The attempts from the n-th on are the errors of the list, each of which is retried, and then the
  -- one that decides.
  abbrev pub Ends : ℕ → List ClientError → Outcome R → Type 0
  Ends n [] o = LastWas n o
  Ends n (e ∷ es) o =
      (retry e ≡ true) × ((asked : ℕ) × (nth n ≡ errored e asked)) × Ends (suc n) es o

  abbrev Sound : ℕ → ℕ → Run R → Type 0
  Sound left n r = Ends n r.retried r.outcome × (length r.retried ≤ left)

  retried-Sound :
      (left n : ℕ) (err : ClientError) (asked : ℕ)
      → nth n ≡ errored err asked
      → Sound left (suc n) (attempts_from retry sleep nth left (suc n))
      → Sound (suc left) n (attempts_from retry sleep nth (suc left) n)
  unfolding attempts_from
  retried-Sound left n err asked e rest = elim (Bool-cases (retry err)) [
    | inr r ↦ rw (attempts_from, e, r) ((asked, e), omega arith)
    | inl r ↦ elim (Bool-cases (sleep (if asked == 0 then backoff n else asked))) [
      | inr s ↦ rw (attempts_from, e, r, s) ((asked, e), omega arith)
      | inl s ↦ rw (attempts_from, e, r, s) ((r, (asked, e), rest.0), omega (arith, rest.1))
    ]
  ]

  attempts_from-Sound : (left n : ℕ) → Sound left n (attempts_from retry sleep nth left n)
  unfolding attempts_from
  attempts_from-Sound zero n = last_one (nth n) refl
    where
      last_one : (a : Attempt R) → nth n ≡ a → Sound 0 n (attempts_from retry sleep nth 0 n)
      last_one (answered r) e = rw (attempts_from, e) (e, omega arith)
      last_one (errored err asked) e = rw (attempts_from, e) ((asked, e), omega arith)
  attempts_from-Sound (suc left) n = first_one (nth n) refl (attempts_from-Sound left (suc n))
    where
      first_one :
          (a : Attempt R)
          → nth n ≡ a
          → Sound left (suc n) (attempts_from retry sleep nth left (suc n))
          → Sound (suc left) n (attempts_from retry sleep nth (suc left) n)
      first_one (answered r) e rest = rw (attempts_from, e) (e, omega arith)
      first_one (errored err asked) e rest = retried-Sound left n err asked e rest

  -- A request is sent at most as often as the attempts allow; every error before the last attempt is
  -- one that the policy retries, and the outcome is that of the last attempt.
  pub do_response_lem :
      (attempts : ℕ)
      → 0 < attempts
      → Ends 1
          (do_response retry sleep nth attempts).retried
          (do_response retry sleep nth attempts).outcome
        × (length (do_response retry sleep nth attempts).retried < attempts)
  unfolding do_response
  do_response_lem attempts h =
      let s = attempts_from-Sound (attempts - 1) 1 in (s.0, omega (arith, s.1, h))

module _ {R : Type 0} (sleep : ℕ → Bool) (nth : ℕ → Attempt R) where
  Ends-throttled :
      (n : ℕ) (es : List ClientError) (o : Outcome R)
      → Ends retry_throttling_only sleep nth n es o
      → All (λ e. e.status ≡ 429) es
  Ends-throttled n [] o h = tt
  Ends-throttled n (e ∷ es) o h = (ground (arith, h.0), Ends-throttled (suc n) es o h.2)

  -- An action is sent again only after Azure answered 429: no other error, a 5xx or a lost connection
  -- among them, is followed by a second sending.
  pub do_response-throttled :
      (attempts : ℕ)
      → 0 < attempts
      → All (λ e. e.status ≡ 429) (do_response retry_throttling_only sleep nth attempts).retried
  do_response-throttled attempts h =
      Ends-throttled 1 _ _ (do_response_lem retry_throttling_only sleep nth attempts h).0
