-- ===== src/Notify/Queue.antt =====
-- The queue of internal/hub/notify/dispatcher.go: its bound, its jobs and what it drops.
use mathlib.Core.List.{append_assoc, append-nil}
use mathlib.Core.List.{Perm, perm_middle, perm_append_comm}
use mathlib.Core.List.Perm
use native.Mathlib.Nat.{pow-zero, pow-succ', mul_assoc}
use serversmonitor.Prelude.{
  ℕ, zero, suc, ◌≤◌, ◌<◌, ◌≡◌, refl, sym, ap, ◌∙◌, subst, Bool, true, false, none, some, List, [],
  ◌∷◌, ◌++◌, leb, arith, length, take, drop, length-append, length-drop, Bool-cases, Option-cases,
  inl, inr, All, ◌^◌, ◌*◌,
}
use serversmonitor.Store.Rows.{Kind}
use serversmonitor.Notify.Message.{is_fired, is_reminder}
use serversmonitor.Notify.Dispatcher.{
  Job, kind_of, find_kind, victim, enqueue_one, enqueue_jobs, Options, backoff, backoff_loop,
}

backoff_loop_lem : (n factor w : ℕ) → backoff_loop n factor w ≡ w * factor ^ n
unfolding backoff_loop
backoff_loop_lem zero factor w = rw pow-zero (omega arith)
backoff_loop_lem (suc n) factor w =
    backoff_loop_lem n factor (w * factor)
    ∙ mul_assoc w factor (factor ^ n)
    ∙ ap (λ k. w * k) (sym (pow-succ' factor n))

-- The wait after attempt n + 1 is the base times the n-th power of the factor; by default 1 s, 5 s,
-- 25 s.
pub backoff_lem : (o : Options) (n : ℕ) → backoff o (suc n) ≡ o.base * o.factor ^ n
unfolding backoff
backoff_lem o n = backoff_loop_lem n o.factor o.base

module _ {F : Type 0} where
  find_kind-bound :
      (test : Kind → Bool) (jobs : List (Job F)) (i : ℕ)
      → find_kind test jobs ≡ some i
      → i < length jobs
  unfolding find_kind
  find_kind-bound test [] i e = cc
  find_kind-bound test (j ∷ js) i e = elim (Option-cases (find_kind test js)) [
    | inl n ↦ ground (arith, n, e)
    | inr (k, n) ↦ ground (arith, n, e, find_kind-bound test js k n)
  ]

  find_kind-none :
      (test : Kind → Bool) (jobs : List (Job F))
      → find_kind test jobs ≡ none
      → All (λ j. test (kind_of j) ≡ false) jobs
  unfolding find_kind
  find_kind-none test [] e = tt
  find_kind-none test (j ∷ js) e = ground (arith, find_kind-none test js)

  -- The job at the index that was found meets the test.
  find_kind-hit :
      (test : Kind → Bool) (jobs : List (Job F)) (i : ℕ)
      → find_kind test jobs ≡ some i
      → All (λ j. test (kind_of j) ≡ true) (take 1 (drop i jobs))
  unfolding find_kind
  find_kind-hit test [] i e = cc
  find_kind-hit test (j ∷ js) i e = elim (Bool-cases (test (kind_of j))) [
    | inl h ↦
        subst (λ k. All (λ j. test (kind_of j) ≡ true) (take 1 (drop k (j ∷ js)))) (found_first h)
          (h, tt)
    | inr h ↦ elim (Option-cases (find_kind test js)) [
      | inl n ↦ ground (arith, n, e, h)
      | inr (k, n) ↦
          subst (λ l. All (λ j. test (kind_of j) ≡ true) (take 1 (drop l (j ∷ js))))
            (found_later h k n) (find_kind-hit test js k n)
    ]
  ]
    where
      found_first : test (kind_of j) ≡ true → 0 ≡ i
      found_first h = ground (arith, h, e)

      found_later : test (kind_of j) ≡ false → (k : ℕ) → find_kind test js ≡ some k → suc k ≡ i
      found_later h k n = ground (arith, h, n, e)

  victim-bound : (jobs : List (Job F)) → 0 < length jobs → victim jobs < length jobs
  unfolding victim
  victim-bound jobs h = elim (Option-cases (find_kind is_reminder jobs)) [
    | inr (i, e) ↦ ground (arith, e, find_kind-bound is_reminder jobs i e)
    | inl e ↦ elim (Option-cases (find_kind is_fired jobs)) [
      | inr (i, f) ↦ ground (arith, e, f, find_kind-bound is_fired jobs i f)
      | inl f ↦ ground (arith, e, f, h)
    ]
  ]

  length-take_le : (i : ℕ) (jobs : List (Job F)) → i ≤ length jobs → length (take i jobs) ≡ i
  length-take_le zero jobs h = refl
  length-take_le (suc i) [] h = absurd (omega arith)
  length-take_le (suc i) (j ∷ js) h = ap suc (length-take_le i js (omega arith))

  -- One round keeps the queue within its bound.
  length-enqueue_one :
      (queue : ℕ) (jobs : List (Job F)) (j : Job F)
      → 0 < queue
      → length jobs ≤ queue
      → length (enqueue_one queue jobs j).0 ≤ queue
  unfolding enqueue_one
  length-enqueue_one queue jobs j pos fits = elim (Bool-cases (leb queue (length jobs))) [
    | inl full ↦
        let i = victim jobs in
        rw full (
          omega (
            arith,
            length-append (take i jobs) (drop (suc i) jobs ++ j ∷ []),
            length-append (drop (suc i) jobs) (j ∷ []),
            length-drop (suc i) jobs,
            length-take_le i jobs (le_of_lt_bound jobs (leb_pos full)),
            victim-bound jobs (leb_pos full),
          ))
    | inr free ↦ rw free (omega (arith, length-append jobs (j ∷ []), below free))
  ]
    where
      leb_pos : leb queue (length jobs) ≡ true → 0 < length jobs
      leb_pos full = ground (arith, full)

      below : leb queue (length jobs) ≡ false → length jobs < queue
      below free = ground (arith, free)

      le_of_lt_bound : (js : List (Job F)) → 0 < length js → victim js ≤ length js
      le_of_lt_bound js h = omega (arith, victim-bound js h)

  taken_out :
      (i : ℕ) (jobs : List (Job F)) (j : Job F)
      → Perm
          ((take i jobs ++ (drop (suc i) jobs ++ j ∷ [])) ++ take 1 (drop i jobs))
          (jobs ++ j ∷ [])
  taken_out zero [] j = Perm.refl (j ∷ [])
  taken_out zero (x ∷ xs) j =
      Perm.trans (perm_middle (xs ++ j ∷ []) [])
        (Perm.cons x (rw append-nil (Perm.refl (xs ++ j ∷ []))))
  taken_out (suc i) [] j = Perm.refl (j ∷ [])
  taken_out (suc i) (x ∷ xs) j = Perm.cons x (taken_out i xs j)

  enqueue_one-Perm :
      (queue : ℕ) (jobs : List (Job F)) (j : Job F)
      → let (kept, out) = enqueue_one queue jobs j in Perm (kept ++ out) (jobs ++ j ∷ [])
  unfolding enqueue_one
  enqueue_one-Perm queue jobs j = elim (Bool-cases (leb queue (length jobs))) [
    | inl full ↦ rw full (taken_out (victim jobs) jobs j)
    | inr free ↦ rw free (rw append-nil (Perm.refl (jobs ++ j ∷ [])))
  ]

  -- The loop loses no job: every job that was queued or is enqueued is queued afterwards or is among the
  -- dropped ones, and none twice.
  pub enqueue_jobs-Perm :
      (queue : ℕ) (jobs js : List (Job F))
      → let (kept, dropped) = enqueue_jobs queue jobs js in Perm (kept ++ dropped) (jobs ++ js)
  unfolding enqueue_jobs
  enqueue_jobs-Perm queue jobs [] = Perm.refl (jobs ++ [])
  enqueue_jobs-Perm queue jobs (j ∷ js) =
      let one = enqueue_one queue jobs j in
      let all = enqueue_jobs queue one.0 js in
      Perm.trans (regroup all.0 one.1 all.1) (
        Perm.trans (Perm.append_left one.1 (enqueue_jobs-Perm queue one.0 js)) (
          Perm.trans (regroup_back one.1 one.0 js) (
            rw (append_assoc jobs (j ∷ []) js) at
              (Perm.append_right js (enqueue_one-Perm queue jobs j)))))
    where
      regroup : (a b c : List (Job F)) → Perm (a ++ (b ++ c)) (b ++ (a ++ c))
      regroup a b c =
          rw (← append_assoc a b c, ← append_assoc b a c)
            (Perm.append_right c (perm_append_comm a b))

      regroup_back : (a b c : List (Job F)) → Perm (a ++ (b ++ c)) ((b ++ a) ++ c)
      regroup_back a b c = rw (← append_assoc a b c) (Perm.append_right c (perm_append_comm a b))

  -- The loop keeps a queue that is within its positive bound within that bound.
  pub length-enqueue_jobs :
      (queue : ℕ) (jobs js : List (Job F))
      → 0 < queue
      → length jobs ≤ queue
      → length (enqueue_jobs queue jobs js).0 ≤ queue
  unfolding enqueue_jobs
  length-enqueue_jobs queue jobs [] pos fits = fits
  length-enqueue_jobs queue jobs (j ∷ js) pos fits =
      length-enqueue_jobs queue (enqueue_one queue jobs j).0 js pos
        (length-enqueue_one queue jobs j pos fits)

  -- A job that is no reminder is dropped only if no reminder is queued, and one that is neither
  -- reminder nor fired only if no fired one is queued either.
  abbrev pub IsCheapest : List (Job F) → Job F → Type 0
  IsCheapest jobs x =
      (is_reminder (kind_of x) ≡ false → All (λ j. is_reminder (kind_of j) ≡ false) jobs)
      × (is_reminder (kind_of x) ≡ false
          → is_fired (kind_of x) ≡ false
          → All (λ j. is_fired (kind_of j) ≡ false) jobs)

  All-map :
      (P Q : Job F → Type 0) (xs : List (Job F)) → ((x : Job F) → P x → Q x) → All P xs → All Q xs
  All-map P Q [] f h = tt
  All-map P Q (x ∷ xs) f h = (f x (h.0), All-map P Q xs f (h.1))

  All-always : (P : Job F → Type 0) (xs : List (Job F)) → ((x : Job F) → P x) → All P xs
  All-always P [] f = tt
  All-always P (x ∷ xs) f = (f x, All-always P xs f)

  victim-IsCheapest :
      (jobs : List (Job F)) → All (IsCheapest jobs) (take 1 (drop (victim jobs) jobs))
  unfolding victim
  victim-IsCheapest jobs = elim (Option-cases (find_kind is_reminder jobs)) [
    | inr (i, e) ↦
        rw (e, victim)
          (All-map _ (IsCheapest jobs) (take 1 (drop i jobs))
            (λ x h. ((λ n. cc (h, n)), (λ n. cc (h, n)))) (find_kind-hit is_reminder jobs i e))
    | inl e ↦ elim (Option-cases (find_kind is_fired jobs)) [
      | inr (i, f) ↦
          rw (e, f, victim)
            (All-map _ (IsCheapest jobs) (take 1 (drop i jobs))
              (λ x h. ((λ _. find_kind-none is_reminder jobs e), (λ _ n. cc (h, n))))
              (find_kind-hit is_fired jobs i f))
      | inl f ↦
          rw (e, f, victim)
            (All-always (IsCheapest jobs) (take 1 (drop 0 jobs)) λ x.
              ((λ _. find_kind-none is_reminder jobs e), (λ _ _. find_kind-none is_fired jobs f)))
    ]
  ]

  -- What one round of Enqueue drops is the cheapest that is queued: a reminder goes before a fired
  -- alert, and a fired alert before a recovery.
  pub enqueue_one_drops-IsCheapest :
      (queue : ℕ) (jobs : List (Job F)) (j : Job F)
      → All (IsCheapest jobs) (enqueue_one queue jobs j).1
  unfolding enqueue_one
  enqueue_one_drops-IsCheapest queue jobs j = elim (Bool-cases (leb queue (length jobs))) [
    | inl full ↦ rw full (victim-IsCheapest jobs)
    | inr free ↦ rw free tt
  ]
