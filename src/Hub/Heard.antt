-- ===== src/Hub/Heard.antt =====
-- Who hears of the end of an alert: internal/hub/notify.go with the FiredChannels of
-- internal/hub/store/deliveries.go and the Route of internal/hub/notify/channel.go.
use serversmonitor.Prelude.{
  ℕ, ◌≡◌, ◌≢◌, refl, Bool, true, false, ◌&&◌, ◌||◌, not, Option, none, some, List, [], ◌∷◌, ◌++◌,
  String, ◌==◌, text_eq, arith, keep_if, Bool-cases, Option-cases, inl, inr, ◌∙◌,
}
use serversmonitor.Time.{Time}
use serversmonitor.Store.Rows.{Host, Rule, resolved, AlertEvent}
use serversmonitor.Store.Deliveries.{
  Deliveries, Delivery, DeliverySpec, add_delivery, fired_channels, last_fired, channels_about,
  is_about_alert,
}
use serversmonitor.Guardrails.Windows.{Window}
use serversmonitor.Guardrails.Schedule.{Zone}
use serversmonitor.Notify.Message.{Message}
use serversmonitor.Notify.Route.{route, has_name}
use serversmonitor.Hub.Notifying.{
  Config, add_rows, alert_spec, alert_route, host_by_id, also_of, notify_one, notify,
}

-- A delivery of the alert event to the channel is among the rows, whatever became of it.
unfoldable pub has_delivery : ℕ → String → List Delivery → Bool
has_delivery id ch [] = false
has_delivery id ch (d ∷ ds) =
    (is_about_alert id d.about && text_eq d.channel ch) || has_delivery id ch ds

has_delivery-append :
    (id : ℕ) (ch : String) (xs ys : List Delivery)
    → has_delivery id ch (xs ++ ys) ≡ has_delivery id ch xs || has_delivery id ch ys
unfolding has_delivery
has_delivery-append id ch [] ys = refl
has_delivery-append id ch (x ∷ xs) ys = ground (arith, has_delivery-append id ch xs ys)

has_name-keep_if :
    (ns : List String) (c ch : String)
    → c ≢ ch
    → has_name ns ch ≡ true
    → has_name (keep_if (λ n. not (text_eq n c)) ns) ch ≡ true
unfolding has_name
has_name-keep_if [] c ch d h = h
has_name-keep_if (n ∷ ns) c ch d h = ground (arith, has_name-keep_if ns c ch d, d, h)

channels_about-has_delivery :
    (id : ℕ) (ch : String) (ds : List Delivery)
    → has_delivery id ch ds ≡ true
    → has_name (channels_about (is_about_alert id) ds) ch ≡ true
unfolding has_delivery channels_about has_name
channels_about-has_delivery id ch [] h = h
channels_about-has_delivery id ch (d ∷ ds) h = ground (
  arith,
  channels_about-has_delivery id ch ds,
  has_name-keep_if (channels_about (is_about_alert id) ds) d.channel ch,
  h,
)

route-has_name :
    (chans also : List String) (r : Option (List String)) (ch : String)
    → has_name chans ch ≡ true
    → has_name also ch ≡ true
    → has_name (route chans r also) ch ≡ true
unfolding has_name route
route-has_name [] also r ch h k = h
route-has_name (c ∷ chans) also none ch h k =
    ground (arith, route-has_name chans also none ch, h, k)
route-has_name (c ∷ chans) also (some names) ch h k =
    ground (arith, route-has_name chans also (some names) ch, h, k)

module _ {F : Type 0} (holds : String → Bool) (m : Message F) (now : Time) where
  add_rows-keeps :
      (spec : String → Bool → DeliverySpec) (id : ℕ) (ch : String) (cs : List String)
      (t : Deliveries)
      → has_delivery id ch t.rows ≡ true
      → has_delivery id ch (add_rows holds spec m now cs t).0.rows ≡ true
  unfolding add_rows add_delivery
  add_rows-keeps spec id ch [] t h = h
  add_rows-keeps spec id ch (c ∷ cs) t h =
      add_rows-keeps spec id ch cs (add_delivery t (spec c (holds c)) now).0 (
        has_delivery-append id ch t.rows ((add_delivery t (spec c (holds c)) now).1 ∷ [])
        ∙ ground (arith, h))

  add_rows-adds :
      (id : ℕ) (repeats : Bool) (ch : String) (cs : List String) (t : Deliveries)
      → has_name cs ch ≡ true
      → has_delivery id ch (add_rows holds (alert_spec id repeats) m now cs t).0.rows ≡ true
  unfolding add_rows add_delivery has_name has_delivery
  add_rows-adds id repeats ch [] t h = cc h
  add_rows-adds id repeats ch (c ∷ cs) t h = elim (Bool-cases (text_eq c ch)) [
    | inl same ↦
        add_rows-keeps (alert_spec id repeats) id ch cs
          (add_delivery t (alert_spec id repeats c (holds c)) now).0
          (has_delivery-append id ch t.rows
              ((add_delivery t (alert_spec id repeats c (holds c)) now).1 ∷ [])
            ∙ added same)
    | inr other ↦
        add_rows-adds id repeats ch cs (add_delivery t (alert_spec id repeats c (holds c)) now).0
          (ground (arith, other, h))
  ]
    where
      added :
          text_eq c ch ≡ true
          → (has_delivery id ch t.rows || ((id == id) && text_eq c ch || false)) ≡ true
      added same = ground (arith, same)

module _ {F : Type 0} (zero_value : F) (z : Zone) (decode : List ℕ → Option (List Window))
    (cfg : Config) (chans : List String) (hosts : List Host) (rules : List (Rule F))
    (now : Time) where
  notify_one-keeps :
      (events : List (AlertEvent F)) (t : Deliveries) (e : AlertEvent F) (id : ℕ) (ch : String)
      → has_delivery id ch t.rows ≡ true
      → has_delivery id ch
          (notify_one zero_value z decode cfg chans hosts rules now events t e).0.rows
        ≡ true
  unfolding notify_one
  notify_one-keeps events t e id ch h = elim (Option-cases (host_by_id hosts e.host_id)) [
    | inl none_there ↦ rw (none_there, notify_one) h
    | inr (host, there) ↦
        rw (there, notify_one) (add_rows-keeps _ _ now (alert_spec e.id false) id ch _ t h)
  ]

  notify-keeps :
      (events : List (AlertEvent F)) (es : List (AlertEvent F)) (t : Deliveries) (id : ℕ)
      (ch : String)
      → has_delivery id ch t.rows ≡ true
      → has_delivery id ch (notify zero_value z decode cfg chans hosts rules now events t es).0.rows
        ≡ true
  unfolding notify
  notify-keeps events [] t id ch h = h
  notify-keeps events (e ∷ es) t id ch h =
      notify-keeps events es _ id ch (notify_one-keeps events t e id ch h)

  -- A recovery is told to whoever was told of the alert: if a known host's event is resolved and
  -- notified as the first of a batch, a channel that is enabled and has a delivery of the last fired
  -- event of the same rule and host gets a delivery of the resolved event too, whatever the route
  -- became meanwhile.
  pub notify_tells_heard :
      (events : List (AlertEvent F)) (t : Deliveries) (e : AlertEvent F) (es : List (AlertEvent F))
      (host : Host) (start : ℕ) (ch : String)
      → e.kind ≡ resolved
      → host_by_id hosts e.host_id ≡ some host
      → last_fired events e.rule_id e.host_id e.id ≡ some start
      → has_delivery start ch t.rows ≡ true
      → has_name chans ch ≡ true
      → has_delivery e.id ch
          (notify zero_value z decode cfg chans hosts rules now events t (e ∷ es)).0.rows
        ≡ true
  unfolding notify notify_one also_of fired_channels
  notify_tells_heard events t e es host start ch k there last heard enabled =
      notify-keeps events es _ e.id ch (
        rw (there, notify_one)
          (add_rows-adds _ _ now e.id false ch _ t (
            route-has_name chans _ (alert_route cfg e rules) ch enabled (
              rw (k, last, also_of, fired_channels)
                (channels_about-has_delivery start ch t.rows heard)))))
