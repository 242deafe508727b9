-- ===== src/Azure/Client.antt =====
-- internal/hub/azure/client.go: the requests to Azure Resource Manager, with their retries, and the
-- reading of a list page by page. The answer to the n-th attempt, from 1, is given; so is the classing
-- of errors of token.go and actions.go.
use serversmonitor.Prelude.{
  ℕ, zero, suc, ◌-◌, ◌*◌, Bool, true, false, ◌&&◌, ◌||◌, List, [], ◌∷◌, ◌++◌, String, if◌then◌else◌,
  ltb, leb, ◌==◌, text_eq, not,
}
use serversmonitor.Time.{second}
use serversmonitor.Azure.Async.{retry_after}

abbrev pub max_pages : ℕ
max_pages = 200

abbrev pub default_attempts : ℕ
default_attempts = 4

-- An error: the status of the answer, 0 when there was none, and whether it is marked retryable.
pub record ClientError : Type 0 where
  pub status : ℕ
  pub retryable : Bool
  pub code : String
  pub message : String

-- What one attempt gives: a response, or an error and the wait that the server asked for.
pub data Attempt (R : Type 0) : Type 0 where
  answered : R → Attempt R
  errored : ClientError → ℕ → Attempt R

-- What http.Client.Do gives: no answer, and whether the context is over, or the status, the
-- Retry-After header and the rest of the response.
pub data Exchange (R : Type 0) : Type 0 where
  no_token : Exchange R
  no_answer : Bool → Exchange R
  status_answer : ℕ → List ℕ → R → Exchange R

abbrev pub plain_error : ℕ → Bool → ClientError
plain_error status retryable = record {
  status = status;
  retryable = retryable;
  code = "";
  message = "";
}

-- attempt; `arm_error` reads Azure's code and message from the body of a refusal.
unfoldable pub attempt : {R : Type 0} → (ℕ → R → String × String) → Exchange R → Attempt R
attempt arm_error no_token = errored (plain_error 0 false) 0
attempt arm_error (no_answer over) = errored (plain_error 0 (not over)) 0
attempt arm_error (status_answer status header r) =
    let told = arm_error status r in
    let e : Bool → ClientError =
      λ again. record { status = status; retryable = again; code = told.0; message = told.1 } in
    if leb 200 status && ltb status 300
    then answered r
    else if (status == 429) || leb 500 status
    then errored (e true) (retry_after header)
    else errored (e false) 0

-- Retryable, which is also retryIdempotent
abbrev pub is_retryable : ClientError → Bool
is_retryable e = e.retryable

-- retryThrottlingOnly of actions.go
abbrev pub retry_throttling_only : ClientError → Bool
retry_throttling_only e = e.retryable && (e.status == 429)

-- The rounds of the loop of backoff.
unfoldable pub grow_wait : ℕ → ℕ → ℕ
grow_wait zero w = w
grow_wait (suc n) w = grow_wait n (w * 5)

-- backoff
unfoldable pub backoff : ℕ → ℕ
backoff n = grow_wait (n - 1) second

pub data Outcome (R : Type 0) : Type 0 where
  response : R → Outcome R
  gave_up : ClientError → Outcome R

-- What was done: the errors met before the last attempt, the waits between the attempts, the outcome.
pub record Run (R : Type 0) : Type 0 where
  pub retried : List ClientError
  pub waits : List ℕ
  pub outcome : Outcome R

abbrev pub after_retry : {R : Type 0} → ClientError → ℕ → Run R → Run R
after_retry e wait r = record r { retried = e ∷ r.retried; waits = wait ∷ r.waits }

abbrev pub ended : {R : Type 0} → Outcome R → Run R
ended o = record { retried = []; waits = []; outcome = o }

module _ {R : Type 0} (retry : ClientError → Bool) (sleep : ℕ → Bool) (nth : ℕ → Attempt R) where
  -- The attempts of doResponse from the n-th on, `left` of them after it. A sleep that is cut short
  -- ends them.
  unfoldable pub attempts_from : ℕ → ℕ → Run R
  attempts_from zero n = elim (nth n) [
    | answered r ↦ ended (response r)
    | errored e asked ↦ ended (gave_up e)
  ]
  attempts_from (suc left) n =
      let rest = attempts_from left (suc n) in
      elim (nth n) [
        | answered r ↦ ended (response r)
        | errored e asked ↦
            let wait = if asked == 0 then backoff n else asked in
            if retry e
            then (if sleep wait
                then after_retry e wait rest
                else record { retried = []; waits = wait ∷ []; outcome = gave_up e })
            else ended (gave_up e)
      ]

  -- doResponse, for at least one attempt
  unfoldable pub do_response : ℕ → Run R
  do_response attempts = attempts_from (attempts - 1) 1

pub record Page (V : Type 0) : Type 0 where
  pub value : List V
  -- empty on the last page
  pub next_link : String

pub data Fetched (V : Type 0) : Type 0 where
  page : Page V → Fetched V
  fetch_failed not_a_page : Fetched V

pub data Listed (V : Type 0) : Type 0 where
  listed : List V → Listed V
  list_failed list_unreadable too_many_pages : Listed V

abbrev pub behind : {V : Type 0} → List V → Listed V → Listed V
behind vs (listed ws) = listed (vs ++ ws)
behind vs failure = failure

module _ {V : Type 0} (fetch : String → Fetched V) where
  -- The loop of GetAll with `left` pages still allowed.
  unfoldable pub pages_from : ℕ → String → Listed V
  pages_from zero next = if text_eq next "" then listed [] else too_many_pages
  pages_from (suc left) next = if text_eq next "" then listed [] else elim (fetch next) [
    | fetch_failed ↦ list_failed
    | not_a_page ↦ list_unreadable
    | page p ↦ behind p.value (pages_from left p.next_link)
  ]

  -- GetAll
  unfoldable pub get_all : String → Listed V
  get_all url = pages_from max_pages url
