-- ===== src/Notify/Deliver.antt =====
-- internal/hub/notify/dispatcher.go: the delivery of one job by the worker. What each attempt's Send
-- answers, and whether the wait after it ran to its end, are given by the number of the attempt.
use serversmonitor.Prelude.{ℕ, zero, suc, ◌-◌, Bool, true, false, Option, none, some, String}
use serversmonitor.Notify.Dispatcher.{Options}

-- An error of Send, and what Retryable says of it.
pub record SendError : Type 0 where
  pub text : String
  pub retryable : Bool

-- What is recorded of a delivery: MarkDeliverySent with the attempts used, MarkDeliveryFailed with the
-- attempts used and the last error, or nothing when the hub shuts down during a wait.
pub data Outcome : Type 0 where
  sent : ℕ → Outcome
  failed : ℕ → SendError → Outcome
  left_pending : ℕ → Outcome

-- The rounds of the loop from `attempt` on, `left` of them after this one.
unfoldable pub deliver_loop : (ℕ → Option SendError) → (ℕ → Bool) → ℕ → ℕ → Outcome
deliver_loop send sleep zero attempt = elim (send attempt) [
  | none ↦ sent attempt
  | some err ↦ failed attempt err
]
deliver_loop send sleep (suc left) attempt = elim (send attempt) [
  | none ↦ sent attempt
  | some err ↦ elim err.retryable [
    | false ↦ failed attempt err
    | true ↦ elim (sleep attempt) [
      | true ↦ deliver_loop send sleep left (suc attempt)
      | false ↦ left_pending attempt
    ]
  ]
]

-- deliver; the options are those with the defaults, so there is a first attempt.
unfoldable pub deliver : Options → (ℕ → Option SendError) → (ℕ → Bool) → Outcome
deliver o send sleep = deliver_loop send sleep (o.attempts - 1) 1
