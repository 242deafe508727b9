-- ===== src/Agent/Replay.antt =====
-- internal/agent/link/link.go: what the sessions of one run do to the samples.
use serversmonitor.Prelude.{
  ℕ, zero, suc, ◌≤◌, ◌<◌, ◌-◌, ◌*◌, ◌/◌, ◌^◌, ◌≡◌, refl, sym, ap, subst, Bool, true, false, Option,
  none, some, List, [], ◌∷◌, ◌++◌, if◌then◌else◌, length, drop, arith, Bool-cases, Option-cases,
  inl, inr, ltb,
}
use mathlib.Core.List.{append_assoc, append-nil}
use serversmonitor.Time.{second}
use serversmonitor.Agent.Buffer.{Buffer, new_buffer, push, drain}
use serversmonitor.Agent.Link.{
  Script, Event, ticked, reconfigured, other_received, read_failed, cancelled, Outcome, Answer,
  no_answer, unreadable, other_message, welcomed, RunState, replay, stream, welcomed_session,
  answered, not_welcomed, session, after_session, after_wait, run_from, run, base_wait,
  default_backoff, welcome_interval, reconfigured_interval, is_lost,
}

-- The first list keeps some of the second's elements, in their order.
pub data Sublist {A : Type 0} : List A → List A → Type 0 where
  nothing : Sublist [] []
  dropped : {xs ys : List A} {y : A} → Sublist xs ys → Sublist xs (y ∷ ys)
  kept : {xs ys : List A} {y : A} → Sublist xs ys → Sublist (y ∷ xs) (y ∷ ys)

-- The samples that the events of a session take.
unfoldable pub taken : {A : Type 0} → List (Event A) → List A
taken [] = []
taken (ticked s ok ∷ es) = s ∷ taken es
taken (reconfigured n ∷ es) = taken es
taken (other_received ∷ es) = taken es
taken (read_failed ∷ es) = taken es
taken (cancelled ∷ es) = taken es

unfoldable pub taken_all : {A : Type 0} → List (Script A) → List A
taken_all [] = []
taken_all (sc ∷ scs) = taken sc.events ++ taken_all scs

module _ {A : Type 0} where
  none_of : (ys : List A) → Sublist [] ys
  none_of [] = nothing
  none_of (y ∷ ys) = dropped (none_of ys)

  all_of : (ys : List A) → Sublist ys ys
  all_of [] = nothing
  all_of (y ∷ ys) = kept (all_of ys)

  Sublist-append :
      {xs xs' ys ys' : List A} → Sublist xs ys → Sublist xs' ys' → Sublist (xs ++ xs') (ys ++ ys')
  Sublist-append nothing h = h
  Sublist-append (dropped g) h = dropped (Sublist-append g h)
  Sublist-append (kept g) h = kept (Sublist-append g h)

  start_of : (xs ys : List A) → Sublist xs (xs ++ ys)
  start_of [] ys = none_of ys
  start_of (x ∷ xs) ys = kept (start_of xs ys)

  -- What is left after a replay, oldest first.
  abbrev left_over : Option A → List A
  left_over none = []
  left_over (some s) = s ∷ []

  abbrev kept_by : Outcome A → List A
  kept_by o = o.sent ++ o.buffer.items

  replay-Sublist :
      (ss : List A) (writes : List Bool)
      → Sublist ((replay ss writes).0 ++ left_over (replay ss writes).1) ss
  unfolding replay
  replay-Sublist [] writes = nothing
  replay-Sublist (s ∷ ss) [] = kept (none_of ss)
  replay-Sublist (s ∷ ss) (true ∷ writes) = kept (replay-Sublist ss writes)
  replay-Sublist (s ∷ ss) (false ∷ writes) = kept (none_of ss)

  push-empty : (b : Buffer A) (s : A) → b.items ≡ [] → 0 < b.n → (push b s).items ≡ s ∷ []
  unfolding push
  push-empty b s e h =
      rw e (ap (λ t. if t then drop {A = A} (1 - b.n) (s ∷ []) else s ∷ []) (fits b.n h))
    where
      fits : (n : ℕ) → 0 < n → ltb n 1 ≡ false
      fits n h = ground arith

  trans : {xs ys zs : List A} → Sublist xs ys → Sublist ys zs → Sublist xs zs
  trans g nothing = g
  trans g (dropped h) = dropped (trans g h)
  trans (dropped g) (kept h) = dropped (trans g h)
  trans (kept {xs = xs} {y = y} g) (kept {xs = xs'} {ys = ys} h) =
      kept (trans {xs = xs} {ys = xs'} {zs = ys} g h)

  -- What a session makes of a buffer of n places and the samples xs that it is given.
  abbrev pub Passes : ℕ → List A → Outcome A → Type 0
  Passes n xs o = (o.buffer.n ≡ n) × Sublist (kept_by o) xs × (length o.buffer.items ≤ 1)

  stream-Passes :
      (b : Buffer A) (interval : ℕ) (es : List (Event A))
      → b.items ≡ []
      → 0 < b.n
      → Passes b.n (taken es) (stream b interval es)
  unfolding stream taken push
  stream-Passes b interval [] e h = (refl, rw e nothing, rw e (omega arith))
  stream-Passes b interval (ticked s true ∷ es) e h =
      let rest = stream-Passes b interval es e h in (rest.0, kept rest.1, rest.2)
  stream-Passes b interval (ticked s false ∷ es) e h = (
    refl,
    rw (push-empty b s e h) (kept (none_of (taken es))),
    rw (push-empty b s e h) (omega arith),
  )
  stream-Passes b interval (reconfigured n ∷ es) e h =
      stream-Passes b (reconfigured_interval interval n) es e h
  stream-Passes b interval (other_received ∷ es) e h = stream-Passes b interval es e h
  stream-Passes b interval (read_failed ∷ es) e h =
      (refl, rw e (none_of (taken es)), rw e (omega arith))
  stream-Passes b interval (cancelled ∷ es) e h =
      (refl, rw e (none_of (taken es)), rw e (omega arith))

  not_welcomed-Passes :
      (b : Buffer A) (xs : List A)
      → length b.items ≤ 1
      → Passes b.n (b.items ++ xs) (not_welcomed b)
  not_welcomed-Passes b xs h = (refl, start_of b.items xs, h)

  welcomed_session-Passes :
      (b : Buffer A) (interval : ℕ) (writes : List Bool) (es : List (Event A))
      → 0 < b.n
      → Passes b.n (b.items ++ taken es) (welcomed_session b interval writes es)
  unfolding welcomed_session drain push
  welcomed_session-Passes b interval writes es h =
      let replayed = replay b.items writes in
      let b' = (drain b).0 in
      let ordered = replay-Sublist b.items writes in
      elim (Option-cases replayed.1) [
        | inl e ↦
            let rest = stream-Passes b' interval es refl h in
            rw (welcomed_session, e)
              (
                rest.0,
                subst (λ xs. Sublist xs (b.items ++ taken es))
                    (sym (
                      append_assoc replayed.0 (stream b' interval es).sent
                        (stream b' interval es).buffer.items))
                    (Sublist-append
                      (subst (λ xs. Sublist xs b.items) (append-nil replayed.0) (rw e at ordered))
                      rest.1),
                rest.2,
              )
        | inr (s, e) ↦
            rw (welcomed_session, e, push-empty b' s refl h)
              (refl, trans (rw e at ordered) (start_of b.items (taken es)), omega arith)
      ]

  session-Passes :
      (b : Buffer A) (sc : Script A)
      → length b.items ≤ 1
      → 0 < b.n
      → Passes b.n (b.items ++ taken sc.events) (session b sc)
  unfolding session answered
  session-Passes b sc one h = elim (Bool-cases sc.dialled) [
    | inl d ↦ elim (Bool-cases sc.hello_written) [
      | inl w ↦ rw (d, w) (by_answer sc.answer)
      | inr w ↦ rw (d, w) (not_welcomed-Passes b (taken sc.events) one)
    ]
    | inr d ↦ rw d (not_welcomed-Passes b (taken sc.events) one)
  ]
    where
      by_answer : (a : Answer) → Passes b.n (b.items ++ taken sc.events) (answered b sc a)
      by_answer (welcomed n) =
          welcomed_session-Passes b (welcome_interval n) sc.replay_writes sc.events h
      by_answer no_answer = not_welcomed-Passes b (taken sc.events) one
      by_answer unreadable = not_welcomed-Passes b (taken sc.events) one
      by_answer other_message = not_welcomed-Passes b (taken sc.events) one

  -- What a run has taken so far and how its state stands to it.
  abbrev RunPasses : List A → RunState A → Type 0
  RunPasses xs st =
      (0 < st.buffer.n) × Sublist (st.sent ++ st.buffer.items) xs × (length st.buffer.items ≤ 1)

  after_session-RunPasses :
      (st : RunState A) (sc : Script A) (xs : List A)
      → RunPasses xs st
      → RunPasses (xs ++ taken sc.events) (after_session st (session st.buffer sc))
  unfolding after_session
  after_session-RunPasses st sc xs h =
      let o = session st.buffer sc in
      let step = session-Passes st.buffer sc h.2 h.0 in
      (
        rw step.0 h.0,
        subst (λ l. Sublist l (xs ++ taken sc.events))
            (sym (append_assoc st.sent o.sent o.buffer.items))
            (trans (Sublist-append (all_of st.sent) step.1) (
              subst (λ l. Sublist l (xs ++ taken sc.events))
                (append_assoc st.sent st.buffer.items (taken sc.events))
                (Sublist-append h.1 (all_of (taken sc.events))))),
        step.2,
      )

  run_from-RunPasses :
      (backoff : ℕ → ℕ) (scs : List (Script A)) (st : RunState A) (xs : List A)
      → RunPasses xs st
      → RunPasses (xs ++ taken_all scs) (run_from backoff st scs)
  unfolding run_from taken_all after_wait
  run_from-RunPasses backoff [] st xs h = subst (λ l. RunPasses l st) (sym (append-nil xs)) h
  run_from-RunPasses backoff (sc ∷ scs) st xs h =
      let o = session st.buffer sc in
      let st' = after_session st o in
      let now = after_session-RunPasses st sc xs h in
      let rest =
        run_from-RunPasses backoff scs (after_wait backoff st' o.ending) (xs ++ taken sc.events)
          now in
      let assoc = append_assoc xs (taken sc.events) (taken_all scs) in
      elim (Bool-cases (is_lost o.ending)) [
        | inl e ↦ rw e (
            subst (λ l. RunPasses l (run_from backoff (after_wait backoff st' o.ending) scs)) assoc
              rest)
        | inr e ↦ rw e (
          now.0,
          subst (Sublist (st'.sent ++ st'.buffer.items)) assoc
              (trans now.1 (start_of (xs ++ taken sc.events) (taken_all scs))),
          now.2,
        )
      ]

  -- Over any sessions, lost and regained, the agent writes samples in the order in which it took them
  -- and none twice, and what it still holds it took after those that it wrote.
  pub run-Sublist :
      (backoff : ℕ → ℕ) (scs : List (Script A))
      → Sublist ((run backoff scs).sent ++ (run backoff scs).buffer.items) (taken_all scs)
  unfolding run new_buffer
  run-Sublist backoff scs =
      (run_from-RunPasses backoff scs _ [] (omega arith, nothing, omega arith)).1

  -- Whatever the sessions were, the agent never holds more than one sample for the next of them,
  -- though its buffer has room for sixty.
  pub run-holds_one :
      (backoff : ℕ → ℕ) (scs : List (Script A)) → length (run backoff scs).buffer.items ≤ 1
  unfolding run new_buffer
  run-holds_one backoff scs =
      (run_from-RunPasses backoff scs _ [] (omega arith, nothing, omega arith)).2

pow_pos : (n : ℕ) → 1 ≤ 2 ^ n
pow_pos zero = omega arith
pow_pos (suc n) = omega (arith, pow_pos n)

base_wait-bounds : (attempt : ℕ) → (second ≤ base_wait attempt) × (base_wait attempt ≤ 60 * second)
unfolding base_wait
base_wait-bounds attempt = ground (arith, pow_pos (if ltb 6 attempt then 6 else attempt))

-- The wait between two sessions is at least a second and at most 66 seconds, whatever the attempt
-- and the jitter below a fifth of the wait.
pub default_backoff-bounds :
    (attempt jitter : ℕ)
    → jitter < base_wait attempt / 5
    → (second ≤ default_backoff attempt jitter) × (default_backoff attempt jitter ≤ 66 * second)
unfolding default_backoff
default_backoff-bounds attempt jitter h =
    let b = base_wait-bounds attempt in (omega (arith, b, h), omega (arith, b, h))
