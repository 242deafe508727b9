-- ===== src/Azure/Async.antt =====
-- internal/hub/azure/async.go: following an accepted request to its end. The wait between two polls is
-- in nanoseconds; the n-th wait's end and the n-th answer are given by n, from 1.
use serversmonitor.Time.{second}
use serversmonitor.Guardrails.Windows.{is_digit, trim_space}
use serversmonitor.Prelude.{
  ◌+◌, List, [], ◌∷◌, ℕ, zero, suc, ◌*◌, ◌-◌, Bool, true, false, ◌&&◌, ◌||◌, Option, none, some,
  String, if◌then◌else◌, ltb, leb, ◌==◌, not,
}
use serversmonitor.Prelude.{text_eq}

abbrev pub max_polls : ℕ
max_polls = 600

abbrev pub poll_floor : ℕ
poll_floor = 1_000_000_000

abbrev pub poll_ceiling : ℕ
poll_ceiling = 30_000_000_000

-- What the code reads of an answer; a header that is missing is empty. Retry-After is its bytes.
pub record Response : Type 0 where
  pub status : ℕ
  pub async_operation : String
  pub location : String
  pub retry_after : List ℕ
  pub body : String

-- The body of an operation's status.
pub record Body : Type 0 where
  pub state : String
  pub code : String
  pub message : String

pub record OperationError : Type 0 where
  pub op_status : String
  pub op_code : String
  pub op_message : String

pub data Failure : Type 0 where
  operation_error : OperationError → Failure
  context_error request_error not_an_object no_status no_header still_running : Failure

-- What `terminal` answers: whether the wait is over, or an error.
pub data Verdict : Type 0 where
  running finished : Verdict
  refused : Failure → Verdict

-- locationStatus
unfoldable pub location_status : Response → Verdict
location_status r = if r.status == 202 then running else finished

-- The loop of pollWait, the rounds from i on.
unfoldable pub wait_loop : ℕ → ℕ → ℕ
wait_loop zero w = w
wait_loop (suc n) w = let w' = wait_loop n (w * 2) in if ltb w poll_ceiling then w' else w

-- operationStatus, over json.Unmarshal of the body.
unfoldable pub operation_status : (String → Option Body) → Response → Verdict
operation_status unmarshal r = elim (unmarshal r.body) [
  | none ↦ refused not_an_object
  | some b ↦
      if text_eq b.state "Succeeded"
      then finished
      else if (text_eq b.state "Failed" || text_eq b.state "Canceled")
      then refused (
          operation_error
            (record { op_status = b.state; op_code = b.code; op_message = b.message }))
      else if text_eq b.state ""
      then refused no_status
      else running
]

-- The value of a list of digits behind what was read so far, none where another byte stands.
unfoldable pub digits : ℕ → List ℕ → Option ℕ
digits acc [] = some acc
digits acc (b ∷ bs) =
    let rest = digits (acc * 10 + (b - b'0')) bs in if is_digit b then rest else none

-- strconv.Atoi, with `none` also for what stands behind a minus, which is not above zero.
abbrev pub digits_some : List ℕ → Option ℕ
digits_some [] = none
digits_some (b ∷ bs) = digits 0 (b ∷ bs)

unfoldable pub unsigned : List ℕ → Option ℕ
unsigned [] = none
unsigned (b ∷ bs) = if b == b'+' then digits_some bs else digits 0 (b ∷ bs)

-- retryAfter of client.go, in nanoseconds, for numbers within int64.
unfoldable pub retry_after : List ℕ → ℕ
retry_after h = elim (unsigned (trim_space h)) [ none ↦ 0 | some secs ↦ secs * second ]

-- pollWait
unfoldable pub poll_wait : List ℕ → ℕ → ℕ
poll_wait hdr n =
    let d = retry_after hdr in
    let w = wait_loop (n - 1) poll_floor in
    if ltb 0 d then d else if ltb poll_ceiling w then poll_ceiling else w

-- The time a wait takes and the answer of a poll: Sleep's answer for the n-th wait of that length, and
-- GetResponse's for the n-th poll, none for an error.
module _ (sleep : ℕ → ℕ → Bool) (get : ℕ → Option Response) where
  -- The rounds of the loop of poll from n on, `left` of them.
  unfoldable pub poll_loop : (Response → Verdict) → ℕ → ℕ → ℕ → Option Failure
  poll_loop done zero n wait = some still_running
  poll_loop done (suc left) n wait = elim (sleep n wait) [
    | false ↦ some context_error
    | true ↦ elim (get n) [
      | none ↦ some request_error
      | some resp ↦ elim (done resp) [
        | finished ↦ none
        | refused e ↦ some e
        | running ↦ poll_loop done left (suc n) (poll_wait resp.retry_after (suc n))
      ]
    ]
  ]

  -- poll
  unfoldable pub poll : List ℕ → (Response → Verdict) → Option Failure
  poll first_wait done = poll_loop done max_polls 1 (poll_wait first_wait 1)

  -- Await: none for success. The address followed is the header's, which `get` stands for.
  unfoldable pub await : (String → Option Body) → Response → Option Failure
  await unmarshal r =
      if r.status == 202
      then (if not (text_eq r.async_operation "")
          then poll r.retry_after (operation_status unmarshal)
          else if not (text_eq r.location "")
          then poll r.retry_after location_status
          else some no_header)
      else if (not (text_eq r.async_operation "") && (leb 200 r.status && ltb r.status 300))
      then poll r.retry_after (operation_status unmarshal)
      else none
