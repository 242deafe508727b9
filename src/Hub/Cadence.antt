-- ===== src/Hub/Cadence.antt =====
-- How often internal/hub/reminders.go repeats a fired alert.
use serversmonitor.Prelude.{
  ℕ, ◌≤◌, ◌≡◌, refl, Bool, true, false, Option, none, some, List, [], ◌∷◌, ◌++◌, String,
  if◌then◌else◌, ◌==◌, arith, subst, ◌≢◌, Bool-cases, Option-cases, inl, inr,
}
use serversmonitor.Prelude.Int.{ℤ, leb_ℤ, sub_ℕ}
use serversmonitor.Time.{Time, Duration, time_sub, dur_le}
use serversmonitor.Store.Rows.{Host, Rule, AlertEvent}
use serversmonitor.Store.Deliveries.{
  Deliveries, Delivery, Subject, add_delivery, latest_reminder, last_reminder, is_about_alert,
}
use serversmonitor.Guardrails.Windows.{Window}
use serversmonitor.Guardrails.Schedule.{Zone}
use serversmonitor.Notify.Message.{Message}
use serversmonitor.Notify.Dispatcher.{Job}
use serversmonitor.Hub.Notifying.{Config, alert_spec, host_by_id}
use serversmonitor.Hub.Reminders.{due, remind_every, remind_rows, remind_one}

-- The time is there and not before the given one.
abbrev IsSince : Time → Option Time → Type 0
IsSince now none = ⊥
IsSince now (some at) = now ≤ at

module _ (is_about : Subject → Bool) where
  latest_reminder-append :
      (now : Time) (xs ys : List Delivery)
      → IsSince now (latest_reminder is_about xs)
      → IsSince now (latest_reminder is_about (xs ++ ys))
  unfolding latest_reminder
  latest_reminder-append now [] ys h = absurd h
  latest_reminder-append now (x ∷ xs) ys h = ground (arith, latest_reminder-append now xs ys, h)

  latest_reminder-new :
      (xs : List Delivery) (d : Delivery)
      → is_about d.about ≡ true
      → d.is_repeat ≡ true
      → IsSince d.created_at (latest_reminder is_about (xs ++ d ∷ []))
  unfolding latest_reminder
  latest_reminder-new [] d a r = ground (arith, a, r)
  latest_reminder-new (x ∷ xs) d a r = ground (arith, latest_reminder-new xs d a r)

sub_ℕ_mono :
    (every : ℤ) (later now at : ℕ)
    → now ≤ at
    → leb_ℤ every (sub_ℕ later now) ≡ false
    → leb_ℤ every (sub_ℕ later at) ≡ false
sub_ℕ_mono every later now at h k = ground (arith, h, k)

-- After a reminder of the event at `now` it is not due before the interval has passed again.
due-after :
    (t : Deliveries) (id : ℕ) (at : Time) (every : Duration) (now later : Time)
    → IsSince now (last_reminder t id false)
    → dur_le every (time_sub later now) ≡ false
    → due t id false at every later ≡ false
unfolding due
due-after t id at every now later since early = elim (Option-cases (last_reminder t id false)) [
  | inl n ↦ absurd (subst (IsSince now) n since)
  | inr (last, e) ↦
      rw (e, due) (sub_ℕ_mono every later now last (subst (IsSince now) e since) early)
]

module _ {F : Type 0} (holds : String → Bool) (m : Message F) (id : ℕ) (now : Time) where
  remind_rows-keeps :
      (chans : List String) (t : Deliveries)
      → IsSince now (last_reminder t id false)
      → IsSince now
          (last_reminder (remind_rows holds (alert_spec id true) m now chans t).0 id false)
  unfolding remind_rows add_delivery
  remind_rows-keeps [] t h = h
  remind_rows-keeps (ch ∷ chans) t h = elim (Bool-cases (holds ch)) [
    | inl quiet ↦ rw quiet (remind_rows-keeps chans t h)
    | inr open_now ↦ rw open_now (
        remind_rows-keeps chans (add_delivery t (alert_spec id true ch false) now).0
          (latest_reminder-append (is_about_alert id) now t.rows _ h))
  ]

  remind_rows-IsSince :
      (chans : List String) (t : Deliveries)
      → (remind_rows holds (alert_spec id true) m now chans t).1 ≢ []
      → IsSince now
          (last_reminder (remind_rows holds (alert_spec id true) m now chans t).0 id false)
  unfolding remind_rows add_delivery
  remind_rows-IsSince [] t some_job = absurd (some_job refl)
  remind_rows-IsSince (ch ∷ chans) t some_job = elim (Bool-cases (holds ch)) [
    | inl quiet ↦ rw quiet (remind_rows-IsSince chans t (rw quiet at some_job))
    | inr open_now ↦ rw open_now (
        remind_rows-keeps chans (add_delivery t (alert_spec id true ch false) now).0 (
          latest_reminder-new (is_about_alert id) t.rows
            (add_delivery t (alert_spec id true ch false) now).1 (about_itself id) refl))
  ]
    where
      about_itself : (n : ℕ) → (n == n) ≡ true
      about_itself n = ground arith

module _ {F : Type 0} (now : Time) (id : ℕ) where
  -- What a step that queued a job left.
  unfoldable Leaves : Deliveries × List (Job F) → Type 0
  Leaves p = p.1 ≢ [] → IsSince now (last_reminder p.0 id false)

  Leaves-nothing : (t : Deliveries) (jobs : List (Job F)) → jobs ≡ [] → Leaves (t, jobs)
  unfolding Leaves
  Leaves-nothing t jobs e some_job = absurd (some_job e)

  Leaves-if :
      (b : Bool) (p q : Deliveries × List (Job F))
      → Leaves p
      → Leaves q
      → Leaves (if b then p else q)
  Leaves-if true p q hp hq = hp
  Leaves-if false p q hp hq = hq

  Leaves-option :
      {A : Type 0} (o : Option A) (p : Deliveries × List (Job F))
      (f : A → Deliveries × List (Job F))
      → Leaves p
      → ((a : A) → Leaves (f a))
      → Leaves (elim o [ none ↦ p | some a ↦ f a ])
  Leaves-option none p f hp hf = hp
  Leaves-option (some a) p f hp hf = hf a

remind_rows-Leaves :
    {F : Type 0} (holds : String → Bool) (m : Message F) (id : ℕ) (now : Time) (chans : List String)
    (t : Deliveries)
    → Leaves now id (remind_rows holds (alert_spec id true) m now chans t)
unfolding Leaves
remind_rows-Leaves holds m id now chans t = remind_rows-IsSince holds m id now chans t

Leaves-IsSince :
    {F : Type 0} (now : Time) (id : ℕ) (p : Deliveries × List (Job F))
    → Leaves now id p
    → p.1 ≢ []
    → IsSince now (last_reminder p.0 id false)
unfolding Leaves
Leaves-IsSince now id p h = h

module _ {F : Type 0} (zero_value : F) (z : Zone) (decode : List ℕ → Option (List Window))
    (cfg : Config) (chans : List String) (hosts : List Host) (rules : List (Rule F)) where
  remind_one-early :
      (later : Time) (events : List (AlertEvent F)) (t : Deliveries) (e : AlertEvent F)
      (every : Duration)
      → remind_every cfg rules e ≡ some every
      → due t e.id false e.at every later ≡ false
      → remind_one zero_value z decode cfg chans hosts rules later events t e ≡ (t, [])
  unfolding remind_one
  remind_one-early later events t e every r d = elim (Option-cases (host_by_id hosts e.host_id)) [
    | inl n ↦ ground (arith, r, n)
    | inr (host, h) ↦ ground (arith, r, h, d)
  ]

  -- A round that queued a reminder left it among the deliveries.
  remind_one-Leaves :
      (now : Time) (events : List (AlertEvent F)) (t : Deliveries) (e : AlertEvent F)
      → Leaves now e.id (remind_one zero_value z decode cfg chans hosts rules now events t e)
  unfolding remind_one
  remind_one-Leaves now events t e = Leaves-if now e.id _ _ _ (Leaves-nothing now e.id t [] refl) (
      Leaves-option now e.id (remind_every cfg rules e) _ _ (Leaves-nothing now e.id t [] refl)
        λ every. Leaves-if now e.id _ _ _ (Leaves-nothing now e.id t [] refl) (
          Leaves-option now e.id (host_by_id hosts e.host_id) _ _
            (Leaves-nothing now e.id t [] refl)
            λ host. Leaves-if now e.id _ _ _ (Leaves-nothing now e.id t [] refl) (
              Leaves-if now e.id _ _ _ (Leaves-nothing now e.id t [] refl)
                (remind_rows-Leaves _ _ e.id now _ t))))

  -- An alert that has a reminder interval and that a round repeated on some channel is not repeated
  -- by a round that comes before the interval has passed again: that round adds no delivery and no
  -- job.
  pub remind_one_waits :
      (now later : Time) (events : List (AlertEvent F)) (t : Deliveries) (e : AlertEvent F)
      (every : Duration)
      → remind_every cfg rules e ≡ some every
      → (remind_one zero_value z decode cfg chans hosts rules now events t e).1 ≢ []
      → dur_le every (time_sub later now) ≡ false
      → let after = (remind_one zero_value z decode cfg chans hosts rules now events t e).0 in
        remind_one zero_value z decode cfg chans hosts rules later events after e ≡ (after, [])
  remind_one_waits now later events t e every r some_job early =
      let after = (remind_one zero_value z decode cfg chans hosts rules now events t e).0 in
      remind_one-early later events after e every r (
        due-after after e.id e.at every now later
          (Leaves-IsSince now e.id _ (remind_one-Leaves now events t e) some_job) early)
