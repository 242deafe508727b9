-- ===== src/Notify/Dispatcher.antt =====
-- internal/hub/notify/dispatcher.go: the queue. Enqueue and pop run under the mutex, so each is one
-- step; the wake channel only makes the worker look again.
use serversmonitor.Prelude.{
  ℕ, zero, suc, ◌*◌, ◌++◌, Bool, Option, none, some, List, [], ◌∷◌, if◌then◌else◌, leb, length,
  String, take, drop,
}
use serversmonitor.Time.{Time}
use serversmonitor.Store.Rows.{Kind}
use serversmonitor.Store.Deliveries.{Deliveries, mark_delivery_failed}
use serversmonitor.Notify.Message.{Message, is_fired, is_reminder}

-- A channel stands by its name.
pub record Job (F : Type 0) : Type 0 where
  pub delivery_id : ℕ
  pub channel : String
  pub message : Message F

pub record Options : Type 0 where
  pub queue : ℕ
  pub attempts : ℕ
  pub base : ℕ
  pub factor : ℕ

abbrev pub or_default : ℕ → ℕ → ℕ
or_default zero d = d
or_default (suc n) d = suc n

-- The defaults of NewDispatcher; a count that is not positive reads as 0. The base is in nanoseconds.
unfoldable pub with_defaults : Options → Options
with_defaults o = record {
  queue = or_default o.queue 256;
  attempts = or_default o.attempts 4;
  base = or_default o.base 1_000_000_000;
  factor = or_default o.factor 5;
}

module _ {F : Type 0} where
  abbrev pub kind_of : Job F → Kind
  kind_of j = j.message.kind

  -- The first index whose kind meets the test.
  unfoldable pub find_kind : (Kind → Bool) → List (Job F) → Option ℕ
  find_kind test [] = none
  find_kind test (j ∷ js) =
      if test (kind_of j)
      then some 0
      else (elim (find_kind test js) [ none ↦ none | some i ↦ some (suc i) ])

  -- victim
  unfoldable pub victim : List (Job F) → ℕ
  victim jobs = elim (find_kind is_reminder jobs) [
    | some i ↦ i
    | none ↦ elim (find_kind is_fired jobs) [ some i ↦ i | none ↦ 0 ]
  ]

  -- One round of the loop of Enqueue: the queue, and the job dropped to make room.
  unfoldable pub enqueue_one : ℕ → List (Job F) → Job F → List (Job F) × List (Job F)
  enqueue_one queue jobs j =
      if leb queue (length jobs)
      then (let idx = victim jobs in
          (take idx jobs ++ (drop (suc idx) jobs ++ j ∷ []), take 1 (drop idx jobs)))
      else (jobs ++ j ∷ [], [])

  -- The loop of Enqueue, under the mutex: the queue, and the dropped jobs in order.
  unfoldable pub enqueue_jobs : ℕ → List (Job F) → List (Job F) → List (Job F) × List (Job F)
  enqueue_jobs queue jobs [] = (jobs, [])
  enqueue_jobs queue jobs (j ∷ js) =
      let (jobs', out) = enqueue_one queue jobs j in
      let (jobs'', rest) = enqueue_jobs queue jobs' js in (jobs'', out ++ rest)

  -- MarkDeliveryFailed of a dropped job; a delivery that is not there is logged.
  unfoldable pub mark_dropped : Deliveries → Job F → Time → Deliveries
  mark_dropped t j now = elim (mark_delivery_failed t j.delivery_id now 0 "queue full") [
    | none ↦ t
    | some t' ↦ t'
  ]

  -- The loop over the dropped jobs; `clock n` is the n-th reading of the clock.
  unfoldable pub mark_all_dropped : Deliveries → (ℕ → Time) → ℕ → List (Job F) → Deliveries
  mark_all_dropped t clock n [] = t
  mark_all_dropped t clock n (j ∷ js) =
      mark_all_dropped (mark_dropped t j (clock n)) clock (suc n) js

  -- Enqueue: the queue and the deliveries.
  unfoldable pub enqueue :
      ℕ → (ℕ → Time) → Deliveries → List (Job F) → List (Job F) → List (Job F) × Deliveries
  enqueue queue clock t jobs js =
      let (kept, dropped) = enqueue_jobs queue jobs js in (kept, mark_all_dropped t clock 0 dropped)

  -- pop
  unfoldable pub pop : List (Job F) → List (Job F) × Option (Job F)
  pop [] = ([], none)
  pop (j ∷ js) = (js, some j)

-- The loop of Backoff: the rounds from i = 1 up to attempt - 1.
unfoldable pub backoff_loop : ℕ → ℕ → ℕ → ℕ
backoff_loop zero factor w = w
backoff_loop (suc n) factor w = backoff_loop n factor (w * factor)

-- Backoff, the wait before attempt + 1.
unfoldable pub backoff : Options → ℕ → ℕ
unfolding backoff_loop
backoff o zero = o.base
backoff o (suc n) = backoff_loop n o.factor o.base
