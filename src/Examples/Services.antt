-- ===== src/Examples/Services.antt =====
-- The login limiter, the agent's buffer and the following of an Azure operation.
use serversmonitor.Prelude.{
  ℕ, ◌≤◌, ◌<◌, refl, Bool, true, Option, some, [], ◌∷◌, String, if◌then◌else◌, arith, ◌==◌,
  String_discrete,
}
use serversmonitor.Agent.Buffer.{Buffer}
use serversmonitor.Azure.Async.{
  Response, Body, running, max_polls, poll_loop, poll, await, operation_status,
}
use serversmonitor.Azure.Polling.{Answered, SaidSucceeded, await_succeeded}

abbrev two_places : Buffer ℕ
two_places = record { n = 2; items = 1 ∷ 2 ∷ [] }

abbrev answer : String → Response
answer body = record {
  status = 200;
  async_operation = "";
  location = "";
  retry_after = [];
  body = body;
}

abbrev created : Response
created = record (answer "") { status = 201; async_operation = "https://operation" }

-- The body is the status.
abbrev read_body : String → Option Body
read_body s = some (record { state = s; code = ""; message = "" })

abbrev full_wait : ℕ → ℕ → Bool
full_wait n w = true

abbrev second_poll : ℕ → Option Response
second_poll n = if n == 1 then some (answer "InProgress") else some (answer "Succeeded")

await_succeeded_example :
    (k : ℕ) × (1 ≤ k
      × k ≤ max_polls
      × SaidSucceeded second_poll read_body k
      × ((m : ℕ) → 1 ≤ m → m < k → Answered second_poll (operation_status read_body) running m))
unfolding await poll poll_loop operation_status String_discrete
await_succeeded_example =
    await_succeeded full_wait second_poll read_body created (λ e. cc e) (omega arith) (omega arith)
      refl
