-- ===== src/Examples/Notify.antt =====
-- The queue, the routes and the retries of the notifications.
use mathlib.Core.List.{Perm}
use serversmonitor.Prelude.{
  ℕ, ◌+◌, Bool, true, false, Option, none, some, List, [], ◌∷◌, ◌++◌, String, arith, All, ◌==◌,
  if◌then◌else◌,
}
use serversmonitor.Prelude.Int.{pos}
use serversmonitor.Store.Rows.{Kind, fired, resolved, reminder}
use serversmonitor.Notify.Message.{Message}
use serversmonitor.Notify.Dispatcher.{Job, Options, enqueue, enqueue_one}
use serversmonitor.Notify.Queue.{enqueue_one_drops-IsCheapest, IsCheapest}
use serversmonitor.Notify.Dropped.{enqueue-AfterDrops, AfterDrops, row_by_id}
use serversmonitor.Store.Deliveries.{Delivery, Deliveries, of_alert, pending}
use serversmonitor.Notify.Deliver.{SendError, deliver}
use serversmonitor.Notify.Retries.{Tells, deliver-Tells}

abbrev told : Kind → Message ℕ
told k = record {
  host_id = 1;
  host_name = "web";
  metric = "cpu";
  kind = k;
  value = 97;
  threshold = 90;
  duration = pos 0;
  at = 5;
  link = "";
  guardrail = false;
  since = 0;
}

abbrev job : ℕ → Kind → Job ℕ
job n k = record { delivery_id = n; channel = "smtp"; message = told k }

abbrev waiting : List (Job ℕ)
waiting = job 1 resolved ∷ job 2 fired ∷ job 3 reminder ∷ []

abbrev more : List (Job ℕ)
more = job 4 fired ∷ job 5 resolved ∷ []

abbrev queued : ℕ → Delivery
queued n = record {
  id = n;
  about = of_alert n;
  channel = "smtp";
  state = pending;
  is_repeat = false;
  attempts = 0;
  last_error = "";
  created_at = 5;
  updated_at = 5;
}

abbrev of_queue : Deliveries
of_queue = record { rows = queued 1 ∷ queued 2 ∷ queued 3 ∷ queued 4 ∷ queued 5 ∷ []; next_id = 6 }

-- The queue is full: the reminder and then a fired alert make room.
enqueue-AfterDrops_example :
    let (kept, t') = enqueue 3 (λ n. 7 + n) of_queue waiting more in
    (dropped : List (Job ℕ)) × Perm (kept ++ dropped) (waiting ++ more)
    × ((id : ℕ) → AfterDrops dropped id (row_by_id of_queue.rows id) (row_by_id t'.rows id))
enqueue-AfterDrops_example = enqueue-AfterDrops 3 (λ n. 7 + n) of_queue waiting more

enqueue_one_drops-IsCheapest_example :
    All (IsCheapest waiting) (enqueue_one 3 waiting (job 4 fired)).1
enqueue_one_drops-IsCheapest_example = enqueue_one_drops-IsCheapest 3 waiting (job 4 fired)

abbrev usual : Options
usual = record { queue = 256; attempts = 4; base = 1_000_000_000; factor = 5 }

abbrev third_time : ℕ → Option SendError
third_time n = if n == 3 then none else some (record { text = "503"; retryable = true })

abbrev full_sleep : ℕ → Bool
full_sleep n = true

deliver-Tells_example : Tells third_time full_sleep 1 4 (deliver usual third_time full_sleep)
deliver-Tells_example = deliver-Tells third_time full_sleep usual (omega arith)

abbrev twice_named : List String
twice_named = "teams" ∷ "smtp" ∷ "teams" ∷ []
