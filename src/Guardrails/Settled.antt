-- ===== src/Guardrails/Settled.antt =====
-- The journal of the guardrails and the wanted states of internal/hub/guardrails/budget.go.
use serversmonitor.Prelude.{
  ◌≡◌, ◌≢◌, refl, sym, ap, ◌∙◌, subst, Bool, false, Option, none, some, List, [], ◌∷◌, ◌++◌, ite,
  if_pos, if_neg, lookup, insert, lookup-insert_self, lookup-insert_ne, arith, All,
}
use serversmonitor.Time.{Time}
use serversmonitor.Store.Rows.{fired, resolved, GuardrailKey, GuardrailEvent}
use serversmonitor.Guardrails.Transitions.{
  GuardrailKey-discrete, LastEvents, Want, is_fired, kind_fired, is_firing, line, want_lines,
  transitions, event_key, after_events,
}

abbrev pub first_of_two : Option Bool → Option Bool → Option Bool
first_of_two none o = o
first_of_two (some b) o = some b

abbrev pub or_now : Option Bool → Bool → Bool
or_now none b = b
or_now (some on) b = on

or_now-named : (o : Option Bool) (b : Bool) → o ≢ none → or_now o b ≡ or_now o false
or_now-named none b h = absurd (h refl)
or_now-named (some on) b h = refl

module _ {F : Type 0} where
  -- The wanted state of a key, where a want names it.
  abbrev pub wanted : GuardrailKey → List (Want F) → Option Bool
  wanted k [] = none
  wanted k (w ∷ ws) = ite (GuardrailKey-discrete w.key k) (some w.on) (wanted k ws)

  -- No two wants name the same rule instance.
  abbrev pub Distinct : List (Want F) → Type 0
  Distinct [] = Unit
  Distinct (w ∷ ws) = (wanted w.key ws ≡ none) × Distinct ws

  is_firing-insert :
      (last : LastEvents F) (k j : GuardrailKey) (e : GuardrailEvent F)
      → is_firing (insert GuardrailKey-discrete k e last) j
        ≡ ite (GuardrailKey-discrete k j) (is_fired e) (is_firing last j)
  unfolding is_firing
  is_firing-insert last k j e = elim (GuardrailKey-discrete k j) [
    | yes p ↦ rw (if_pos (GuardrailKey-discrete k j) p) (
        ap kind_fired (
          subst
            (λ i. lookup GuardrailKey-discrete i (insert GuardrailKey-discrete k e last) ≡ some e) p
            (lookup-insert_self GuardrailKey-discrete k e last)))
    | no p ↦
        rw (if_neg (GuardrailKey-discrete k j) p)
          (ap kind_fired (lookup-insert_ne GuardrailKey-discrete k j e last p))
  ]

  after_events-append :
      (last : LastEvents F) (xs ys : List (GuardrailEvent F))
      → after_events last (xs ++ ys) ≡ after_events (after_events last xs) ys
  unfolding after_events
  after_events-append last [] ys = refl
  after_events-append last (x ∷ xs) ys =
      after_events-append (insert GuardrailKey-discrete (event_key x) x last) xs ys

  -- `last` is the map that the tests read, `cur` the one that the lines already written lead to.
  is_firing-want_lines :
      (w : Want F) (last cur : LastEvents F) (now : Time) (k : GuardrailKey)
      → is_firing cur w.key ≡ is_firing last w.key
      → is_firing (after_events cur (want_lines w last now)) k
        ≡ ite (GuardrailKey-discrete w.key k) w.on (is_firing cur k)
  unfolding want_lines after_events
  is_firing-want_lines w last cur now k same = ground (
    arith,
    is_firing-insert cur w.key k (line w fired now),
    is_firing-insert cur w.key k (line w resolved now),
    same,
  )

  wanted_self : (w : Want F) (ws : List (Want F)) → wanted w.key (w ∷ ws) ≡ some w.on
  wanted_self w ws = rw (if_pos (GuardrailKey-discrete w.key w.key) refl)

  wanted-ne :
      (w : Want F) (ws : List (Want F)) (k : GuardrailKey)
      → w.key ≢ k
      → wanted k (w ∷ ws) ≡ wanted k ws
  wanted-ne w ws k h = rw (if_neg (GuardrailKey-discrete w.key k) h)

  abbrev SameOn : List (Want F) → LastEvents F → LastEvents F → Type 0
  SameOn ws last cur = (j : GuardrailKey) → wanted j ws ≢ none → is_firing cur j ≡ is_firing last j

  module _ (w : Want F) (ws : List (Want F)) (last cur : LastEvents F) (now : Time)
      (fresh : wanted w.key ws ≡ none) (same : SameOn (w ∷ ws) last cur) where
    abbrev next : LastEvents F
    next = after_events cur (want_lines w last now)

    is_firing-next :
        (k : GuardrailKey)
        → is_firing next k ≡ ite (GuardrailKey-discrete w.key k) w.on (is_firing cur k)
    is_firing-next k =
        is_firing-want_lines w last cur now k (same w.key (λ e. cc (e, wanted_self w ws)))

    SameOn-next : SameOn ws last next
    SameOn-next j h = elim (GuardrailKey-discrete w.key j) [
      | yes p ↦ absurd (h (subst (λ i. wanted i ws ≡ none) p fresh))
      | no p ↦
          is_firing-next j
          ∙ if_neg (GuardrailKey-discrete w.key j) p _ _
          ∙ same j (λ e. h (sym (wanted-ne w ws j p) ∙ e))
    ]

  is_firing-transitions :
      (ws : List (Want F)) (last cur : LastEvents F) (now : Time) (k : GuardrailKey)
      → Distinct ws
      → SameOn ws last cur
      → is_firing (after_events cur (transitions ws last now)) k
        ≡ or_now (wanted k ws) (is_firing cur k)
  unfolding transitions after_events
  is_firing-transitions [] last cur now k distinct same = refl
  is_firing-transitions (w ∷ ws) last cur now k distinct same =
      let lines = want_lines w last now in
      let ih =
        is_firing-transitions ws last (after_events cur lines) now k (distinct.1)
          (SameOn-next w ws last cur now (distinct.0) same) in
      let here = is_firing-next w ws last cur now (distinct.0) same k in
      ap (λ l. is_firing l k) (after_events-append cur lines (transitions ws last now))
      ∙ ih
      ∙ elim (GuardrailKey-discrete w.key k) [
        | yes p ↦ ground (
          arith,
          here,
          subst (λ i. wanted i (w ∷ ws) ≡ some w.on) p (wanted_self w ws),
          subst (λ i. wanted i ws ≡ none) p (distinct.0),
        )
        | no p ↦ ground (arith, here, wanted-ne w ws k p)
      ]

  -- If no two wants name the same rule instance, then once the lines of `transitions` are in the
  -- journal, an instance that a want names is firing exactly if it was wanted on, and every other
  -- instance is as it was.
  pub transitions_follow :
      (ws : List (Want F)) (last : LastEvents F) (now : Time) (k : GuardrailKey)
      → Distinct ws
      → is_firing (after_events last (transitions ws last now)) k
        ≡ or_now (wanted k ws) (is_firing last k)
  transitions_follow ws last now k distinct =
      is_firing-transitions ws last last now k distinct (λ j h. refl)

  abbrev Settled : LastEvents F → Want F → Type 0
  Settled last w = is_firing last w.key ≡ w.on

  transitions-Settled :
      (ws : List (Want F)) (last : LastEvents F) (now : Time)
      → All (Settled last) ws
      → transitions ws last now ≡ []
  unfolding transitions want_lines
  transitions-Settled [] last now h = refl
  transitions-Settled (w ∷ ws) last now h =
      ground (arith, transitions-Settled ws last now (h.1), h.0)

  All-Settled :
      (ws : List (Want F)) (b : LastEvents F)
      → Distinct ws
      → ((k : GuardrailKey) → wanted k ws ≢ none → is_firing b k ≡ or_now (wanted k ws) false)
      → All (Settled b) ws
  All-Settled [] b distinct h = tt
  All-Settled (w ∷ ws) b distinct h = (
    ground (arith, h w.key (λ e. cc (e, wanted_self w ws)), wanted_self w ws),
    All-Settled ws b (distinct.1) λ k named. elim (GuardrailKey-discrete w.key k) [
      | yes p ↦ absurd (named (subst (λ i. wanted i ws ≡ none) p (distinct.0)))
      | no p ↦ ground (arith, h k (λ e. named (sym (wanted-ne w ws k p) ∙ e)), wanted-ne w ws k p)
    ],
  )

  -- If no two wants name the same rule instance, `transitions`, asked again for the same states with
  -- the lines it wrote in the journal, writes nothing: each change is said once.
  pub transitions_once :
      (ws : List (Want F)) (last : LastEvents F) (now later : Time)
      → Distinct ws
      → transitions ws (after_events last (transitions ws last now)) later ≡ []
  transitions_once ws last now later distinct =
      transitions-Settled ws (after_events last (transitions ws last now)) later (
        All-Settled ws (after_events last (transitions ws last now)) distinct λ k named.
          transitions_follow ws last now k distinct
          ∙ or_now-named (wanted k ws) (is_firing last k) named)

  pub wanted-append :
      (k : GuardrailKey) (xs ys : List (Want F))
      → wanted k (xs ++ ys) ≡ first_of_two (wanted k xs) (wanted k ys)
  wanted-append k [] ys = refl
  wanted-append k (x ∷ xs) ys = ground (arith, wanted-append k xs ys)

  pub append-Distinct :
      (xs ys : List (Want F))
      → Distinct xs
      → Distinct ys
      → ((k : GuardrailKey) → wanted k xs ≢ none → wanted k ys ≡ none)
      → Distinct (xs ++ ys)
  append-Distinct [] ys dx dy apart = dy
  append-Distinct (x ∷ xs) ys dx dy apart = (
    ground (arith, wanted-append x.key xs ys, dx.0, apart x.key (λ e. cc (e, wanted_self x xs))),
    append-Distinct xs ys (dx.1) dy λ k named. apart k λ e. elim (GuardrailKey-discrete x.key k) [
      | yes p ↦ named (subst (λ i. wanted i xs ≡ none) p (dx.0))
      | no p ↦ named (sym (wanted-ne x xs k p) ∙ e)
    ],
  )
