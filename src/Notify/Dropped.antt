-- ===== src/Notify/Dropped.antt =====
-- internal/hub/notify/dispatcher.go, Enqueue: the jobs that it drops, in the deliveries.
use mathlib.Core.Option
use mathlib.Core.List.{Perm}
use serversmonitor.Prelude.{
  ℕ, suc, ◌≡◌, refl, sym, ap, ◌∙◌, Bool, true, false, ◌||◌, Option, none, some, List, [], ◌∷◌, ◌++◌,
  if◌then◌else◌, ◌==◌, arith, Bool-cases, Option-cases, inl, inr,
}
use serversmonitor.Time.{Time}
use serversmonitor.Store.Deliveries.{Delivery, Deliveries, failed, update_row, mark_delivery_failed}
use serversmonitor.Notify.Dispatcher.{Job, enqueue_jobs, mark_dropped, mark_all_dropped, enqueue}
use serversmonitor.Notify.Queue.{enqueue_jobs-Perm}

unfoldable pub row_by_id : List Delivery → ℕ → Option Delivery
row_by_id [] id = none
row_by_id (d ∷ ds) id = let rest = row_by_id ds id in if d.id == id then some d else rest

-- A delivery that failed before any attempt, because the queue was full.
abbrev pub failed_full : Time → Delivery → Delivery
failed_full at d = record {
  id = d.id;
  about = d.about;
  channel = d.channel;
  state = failed;
  is_repeat = d.is_repeat;
  attempts = 0;
  last_error = "queue full";
  created_at = d.created_at;
  updated_at = at;
}

abbrev rows_or : List Delivery → Option (List Delivery) → List Delivery
rows_or ds none = ds
rows_or ds (some ds') = ds'

-- What the update of the delivery with an id makes of that with an id j.
abbrev change_one : Time → ℕ → ℕ → Option Delivery → Option Delivery
change_one at id j old = if id == j then Option.map (failed_full at) old else old

update_row-by_id :
    (ds : List Delivery) (at : Time) (id j : ℕ)
    → row_by_id (rows_or ds (update_row (λ d. d.id == id) (failed_full at) ds)) j
      ≡ change_one at id j (row_by_id ds j)
unfolding update_row row_by_id
update_row-by_id [] at id j = ground arith
update_row-by_id (d ∷ ds) at id j = elim (Bool-cases (d.id == id)) [
  | inl e ↦ ground (arith, e)
  | inr e ↦ elim (Option-cases (update_row (λ d. d.id == id) (failed_full at) ds)) [
    | inl n ↦ ground (arith, e, n, update_row-by_id ds at id j)
    | inr (ds', n) ↦ ground (arith, e, n, update_row-by_id ds at id j)
  ]
]

failed_again :
    (at at' : Time) (id j : ℕ) (old : Option Delivery)
    → Option.map (failed_full at) (change_one at' id j old) ≡ Option.map (failed_full at) old
failed_again at at' id j none = ground arith
failed_again at at' id j (some d) = ground arith

module _ {F : Type 0} where
  mark_dropped-by_id :
      (t : Deliveries) (job : Job F) (at : Time) (j : ℕ)
      → row_by_id (mark_dropped t job at).rows j
        ≡ change_one at job.delivery_id j (row_by_id t.rows j)
  unfolding mark_dropped mark_delivery_failed
  mark_dropped-by_id t job at j =
      elim (Option-cases (update_row (λ d. d.id == job.delivery_id) (failed_full at) t.rows)) [
        | inl n ↦
            rw (mark_dropped, mark_delivery_failed, n)
              (rw n at (update_row-by_id t.rows at job.delivery_id j))
        | inr (ds', n) ↦
            rw (mark_dropped, mark_delivery_failed, n)
              (rw n at (update_row-by_id t.rows at job.delivery_id j))
      ]

  abbrev pub is_dropped : List (Job F) → ℕ → Bool
  is_dropped [] id = false
  is_dropped (j ∷ js) id = (j.delivery_id == id) || is_dropped js id

  -- What a delivery is after jobs were dropped: failed at some instant, when one of them was its, and
  -- otherwise what it was.
  abbrev pub AfterDrops : List (Job F) → ℕ → Option Delivery → Option Delivery → Type 0
  AfterDrops dropped id old new =
      (at : Time) × (new ≡ (if is_dropped dropped id then Option.map (failed_full at) old else old))

  mark_all_dropped-AfterDrops :
      (t : Deliveries) (clock : ℕ → Time) (n : ℕ) (js : List (Job F)) (id : ℕ)
      → AfterDrops js id (row_by_id t.rows id) (row_by_id (mark_all_dropped t clock n js).rows id)
  unfolding mark_all_dropped
  mark_all_dropped-AfterDrops t clock n [] id = (0, refl)
  mark_all_dropped-AfterDrops t clock n (j ∷ js) id =
      let one = mark_dropped-by_id t j (clock n) id in
      let (at, rest) =
        mark_all_dropped-AfterDrops (mark_dropped t j (clock n)) clock (suc n) js id in
      elim (Bool-cases (is_dropped js id)) [
        | inl e ↦ (
          at,
          rw e at rest
              ∙ ap (Option.map (failed_full at)) one
              ∙ failed_again at (clock n) j.delivery_id id (row_by_id t.rows id)
              ∙ sym (either_way _ _ (j.delivery_id == id) e),
        )
        | inr e ↦ (
          clock n,
          rw e at rest
              ∙ one
              ∙ sym (
                  ap
                    (λ b.
                      if b
                      then Option.map (failed_full (clock n)) (row_by_id t.rows id)
                      else row_by_id t.rows id)
                    (only_first e)),
        )
      ]
    where
      either_way :
          (x y : Option Delivery) (b : Bool)
          → is_dropped js id ≡ true
          → (if b || is_dropped js id then x else y) ≡ x
      either_way x y true e = refl
      either_way x y false e = rw e refl

      only_first :
          is_dropped js id ≡ false
          → ((j.delivery_id == id) || is_dropped js id) ≡ (j.delivery_id == id)
      only_first e = ground (arith, e)

  -- Enqueue loses no job: every job that was queued or is enqueued is queued afterwards or was dropped,
  -- and none twice; the delivery of each dropped job then stands in the table as failed, without an
  -- attempt, because the queue was full, and every other delivery is as it was.
  pub enqueue-AfterDrops :
      (queue : ℕ) (clock : ℕ → Time) (t : Deliveries) (jobs js : List (Job F))
      → let (kept, t') = enqueue queue clock t jobs js in
        (dropped : List (Job F)) × Perm (kept ++ dropped) (jobs ++ js)
        × ((id : ℕ) → AfterDrops dropped id (row_by_id t.rows id) (row_by_id t'.rows id))
  unfolding enqueue
  enqueue-AfterDrops queue clock t jobs js =
      let all = enqueue_jobs queue jobs js in
      (all.1, enqueue_jobs-Perm queue jobs js, λ id. mark_all_dropped-AfterDrops t clock 0 all.1 id)
