-- ===== src/Agent/Link.antt =====
-- internal/agent/link/link.go: the connection to the hub. What the world does is given: whether the
-- dial and each write succeed, what the hub answers, and what happens in a session, in order. A session
-- whose events are over is still running.
use serversmonitor.Prelude.{
  ℕ, suc, ◌+◌, ◌-◌, ◌*◌, ◌/◌, ◌^◌, Bool, true, false, ◌||◌, Option, none, some, List, [], ◌∷◌, ◌++◌,
  String, if◌then◌else◌, ltb, text_eq,
}
use serversmonitor.Prelude.Int.{ℤ, pos, ltb_ℤ}
use serversmonitor.Time.{second}
use serversmonitor.Agent.Buffer.{Buffer, new_buffer, push, drain}

abbrev pub buffer_size : ℕ
buffer_size = 60

-- What url.Parse says of a URL.
pub record Url : Type 0 where
  pub scheme : String
  pub hostname : String

pub data UrlCheck : Type 0 where
  accepted unparsed plain_refused unknown_scheme : UrlCheck

-- ValidateURL
unfoldable pub validate_url : (String → Option Url) → String → Bool → UrlCheck
validate_url parse raw insecure = elim (parse raw) [
  | none ↦ unparsed
  | some u ↦
      if text_eq u.scheme "wss"
      then accepted
      else if text_eq u.scheme "ws"
      then if insecure
          || text_eq u.hostname "localhost"
          || text_eq u.hostname "127.0.0.1"
          || text_eq u.hostname "::1"
        then accepted
        else plain_refused
      else unknown_scheme
]

-- The wait before its jitter.
unfoldable pub base_wait : ℕ → ℕ
base_wait attempt =
    let a = if ltb 6 attempt then 6 else attempt in
    let d = second * 2 ^ a in if ltb (60 * second) d then 60 * second else d

-- defaultBackoff; the jitter is a random number below a fifth of the wait.
unfoldable pub default_backoff : ℕ → ℕ → ℕ
default_backoff attempt jitter = base_wait attempt - jitter / 2 + jitter

pub data Answer : Type 0 where
  no_answer unreadable other_message : Answer
  welcomed : ℤ → Answer

pub data Event (A : Type 0) : Type 0 where
  -- a sample was taken, and whether it could be sent
  ticked : A → Bool → Event A
  reconfigured : ℤ → Event A
  other_received read_failed cancelled : Event A

pub record Script (A : Type 0) : Type 0 where
  pub dialled : Bool
  pub hello_written : Bool
  pub answer : Answer
  pub replay_writes : List Bool
  pub events : List (Event A)

pub data Ending : Type 0 where
  failed after_welcome stopped still_running : Ending

pub record Outcome (A : Type 0) : Type 0 where
  pub buffer : Buffer A
  -- the samples that were written, in order
  pub sent : List A
  pub interval : ℕ
  pub ending : Ending

-- `max(welcome.IntervalSec, 1)` seconds
abbrev pub welcome_interval : ℤ → ℕ
welcome_interval n = if ltb_ℤ n (pos 1) then second else interval_of n
  where
    interval_of : ℤ → ℕ
    interval_of (pos k) = k * second
    interval_of _ = second

-- A new interval in seconds, when it is positive.
abbrev pub reconfigured_interval : ℕ → ℤ → ℕ
reconfigured_interval old (pos (suc n)) = suc n * second
reconfigured_interval old _ = old

pub record RunState (A : Type 0) : Type 0 where
  pub buffer : Buffer A
  pub attempt : ℕ
  -- everything written so far, in order, and the waits between sessions
  pub sent : List A
  pub waits : List ℕ

-- A session that was welcomed starts the attempts over.
abbrev pub next_attempt : Ending → ℕ → ℕ
next_attempt after_welcome attempt = 0
next_attempt _ attempt = attempt

-- Whether Run tries again.
abbrev pub is_lost : Ending → Bool
is_lost failed = true
is_lost after_welcome = true
is_lost _ = false

module _ {A : Type 0} where
  -- The samples written before one could not be, and that one.
  unfoldable pub replay : List A → List Bool → List A × Option A
  replay [] writes = ([], none)
  replay (s ∷ ss) (true ∷ writes) = let rest = replay ss writes in (s ∷ rest.0, rest.1)
  replay (s ∷ ss) _ = ([], some s)

  abbrev pub sent_first : A → Outcome A → Outcome A
  sent_first s o = record o { sent = s ∷ o.sent }

  -- The select loop of session.
  unfoldable pub stream : Buffer A → ℕ → List (Event A) → Outcome A
  stream b interval [] = record {
    buffer = b;
    sent = [];
    interval = interval;
    ending = still_running;
  }
  stream b interval (ticked s true ∷ es) = sent_first s (stream b interval es)
  stream b interval (ticked s false ∷ es) = record {
    buffer = push b s;
    sent = [];
    interval = interval;
    ending = after_welcome;
  }
  stream b interval (reconfigured n ∷ es) = stream b (reconfigured_interval interval n) es
  stream b interval (other_received ∷ es) = stream b interval es
  stream b interval (read_failed ∷ es) = record {
    buffer = b;
    sent = [];
    interval = interval;
    ending = after_welcome;
  }
  stream b interval (cancelled ∷ es) = record {
    buffer = b;
    sent = [];
    interval = interval;
    ending = stopped;
  }

  abbrev pub sent_before : List A → Outcome A → Outcome A
  sent_before xs o = record o { sent = xs ++ o.sent }

  -- What follows the welcome.
  unfoldable pub welcomed_session : Buffer A → ℕ → List Bool → List (Event A) → Outcome A
  welcomed_session b interval writes events =
      let drained = drain b in
      let replayed = replay drained.1 writes in
      elim replayed.1 [
        | none ↦ sent_before replayed.0 (stream drained.0 interval events)
        | some s ↦ record {
          buffer = push drained.0 s;
          sent = replayed.0;
          interval = interval;
          ending = after_welcome;
        }
      ]

  abbrev pub not_welcomed : Buffer A → Outcome A
  not_welcomed b = record { buffer = b; sent = []; interval = 0; ending = failed }

  unfoldable pub answered : Buffer A → Script A → Answer → Outcome A
  answered b sc (welcomed n) = welcomed_session b (welcome_interval n) sc.replay_writes sc.events
  answered b sc _ = not_welcomed b

  -- session
  unfoldable pub session : Buffer A → Script A → Outcome A
  session b sc =
      if sc.dialled
      then if sc.hello_written then answered b sc sc.answer else not_welcomed b
      else not_welcomed b

  unfoldable pub after_session : RunState A → Outcome A → RunState A
  after_session st o = record st { buffer = o.buffer; sent = st.sent ++ o.sent }

  -- The wait before the next session, for which `backoff` decides.
  unfoldable pub after_wait : (ℕ → ℕ) → RunState A → Ending → RunState A
  after_wait backoff st ending =
      let attempt = next_attempt ending st.attempt in
      record st { attempt = suc attempt; waits = st.waits ++ backoff attempt ∷ [] }

  -- Run's loop over the sessions given
  unfoldable pub run_from : (ℕ → ℕ) → RunState A → List (Script A) → RunState A
  run_from backoff st [] = st
  run_from backoff st (sc ∷ scs) =
      let o = session st.buffer sc in
      let st' = after_session st o in
      let rest = run_from backoff (after_wait backoff st' o.ending) scs in
      if is_lost o.ending then rest else st'

  -- Run
  unfoldable pub run : (ℕ → ℕ) → List (Script A) → RunState A
  run backoff scs =
      run_from backoff
        (record { buffer = new_buffer buffer_size; attempt = 0; sent = []; waits = [] }) scs
