-- ===== src/Notify/Routing.antt =====
-- What internal/hub/notify/channel.go makes of a route.
use serversmonitor.Prelude.{
  ◌⊎◌, ◌≡◌, refl, ap, ◌∙◌, true, false, Option, none, some, List, [], ◌∷◌, String, ◌||◌, ◌&&◌,
  arith, Bool-cases, inl, inr, String_discrete, All, subst,
}
use serversmonitor.Prelude.{text_eq}
use serversmonitor.Notify.Route.{
  channel_names, has_name, route_of, first_unknown, keep_names, normalize_route, is_routed, route,
}

has_name-keep_names :
    (ns want : List String) (n : String)
    → has_name (keep_names ns want) n ≡ (has_name ns n && has_name want n)
unfolding has_name keep_names
has_name-keep_names [] want n = refl
has_name-keep_names (m ∷ ms) want n = elim (String_discrete m n) [
  | yes p ↦ ground (arith, has_name-keep_names ms want n, ap (has_name want) p)
  | no p ↦ ground (arith, has_name-keep_names ms want n)
]

has_name-nil : (n : String) → has_name [] n ≡ false
unfolding has_name
has_name-nil n = refl

has_name-cons :
    (m : String) (ms : List String) (n : String)
    → has_name (m ∷ ms) n ≡ (text_eq m n || has_name ms n)
unfolding has_name
has_name-cons m ms n = refl

first_unknown-cons :
    (m : String) (ms : List String)
    → first_unknown (m ∷ ms) ≡ none
    → (has_name channel_names m ≡ true) × (first_unknown ms ≡ none)
unfolding first_unknown
first_unknown-cons m ms e = ground arith

known_names :
    (names : List String) (n : String)
    → first_unknown names ≡ none
    → has_name names n ≡ true
    → has_name channel_names n ≡ true
known_names [] n e h = cc (h, has_name-nil n)
known_names (m ∷ ms) n e h =
    let (known, rest) = first_unknown-cons m ms e in
    elim (String_discrete m n) [
      | yes p ↦ subst (λ i. has_name channel_names i ≡ true) p known
      | no p ↦ known_names ms n rest (ground (arith, has_name-cons m ms n, h))
    ]

keep_names-same :
    (ns v w : List String)
    → All (λ n. has_name v n ≡ has_name w n) ns
    → keep_names ns v ≡ keep_names ns w
unfolding keep_names
keep_names-same [] v w h = refl
keep_names-same (n ∷ ns) v w h = ground (arith, h.0, keep_names-same ns v w (h.1))

first_unknown-keep_names :
    (ns want : List String)
    → All (λ n. has_name channel_names n ≡ true) ns
    → first_unknown (keep_names ns want) ≡ none
unfolding keep_names first_unknown
first_unknown-keep_names [] want h = refl
first_unknown-keep_names (n ∷ ns) want h =
    ground (arith, h.0, first_unknown-keep_names ns want (h.1))

channel_names_known : All (λ n. has_name channel_names n ≡ true) channel_names
unfolding has_name String_discrete
channel_names_known = (refl, (refl, (refl, tt)))

normalize_route-some :
    (names : List String) (r : Option (List String))
    → normalize_route (some names) ≡ route_of r
    → (first_unknown names ≡ none) × (r ≡ some (keep_names channel_names names))
unfolding normalize_route
normalize_route-some names r e = ground arith

keep_names-twice :
    (names : List String)
    → keep_names channel_names (keep_names channel_names names) ≡ keep_names channel_names names
keep_names-twice names = keep_names-same channel_names (keep_names channel_names names) names (
  same "smtp" (channel_names_known.0),
  (same "webhook" (channel_names_known.1.0), (same "teams" (channel_names_known.1.1.0), tt)),
)
  where
    same :
        (n : String)
        → has_name channel_names n ≡ true
        → has_name (keep_names channel_names names) n ≡ has_name names n
    same n h = ground (arith, has_name-keep_names channel_names names n, h)

normalize_kept :
    (names : List String)
    → normalize_route (some (keep_names channel_names names))
      ≡ route_of (some (keep_names channel_names names))
unfolding normalize_route
normalize_kept names =
    rw (first_unknown-keep_names channel_names names channel_names_known, normalize_route)
      (ap (λ l. route_of (some l)) (keep_names-twice names))

-- What NormalizeRoute answers for a route that it accepts is its own normal form.
pub normalize_route_idem :
    (names : Option (List String)) (r : Option (List String))
    → normalize_route names ≡ route_of r
    → normalize_route r ≡ route_of r
unfolding normalize_route
normalize_route_idem none r e = ground arith
normalize_route_idem (some names) r e =
    let (known, shape) = normalize_route-some names r e in rw shape (normalize_kept names)

is_routed-normalized :
    (names also : List String) (r : Option (List String)) (ch : String)
    → normalize_route (some names) ≡ route_of r
    → is_routed r also ch ≡ is_routed (some names) also ch
is_routed-normalized names also r ch e =
    let (known, shape) = normalize_route-some names r e in
    ap (λ q. is_routed q also ch) shape
    ∙ ap (λ b. b || has_name also ch)
        (has_name-keep_names channel_names names ch
          ∙ in_names (Bool-cases (has_name names ch)) known)
  where
    in_names :
        (has_name names ch ≡ true) ⊎ (has_name names ch ≡ false)
        → first_unknown names ≡ none
        → (has_name channel_names ch && has_name names ch) ≡ has_name names ch
    in_names (inl h) known = ground (arith, h, known_names names ch known h)
    in_names (inr h) known = ground (arith, h)

-- A route that NormalizeRoute accepts and its normal form lead to the same channels.
pub route-normalize_route :
    (chans names also : List String) (r : Option (List String))
    → normalize_route (some names) ≡ route_of r
    → route chans r also ≡ route chans (some names) also
unfolding route
route-normalize_route [] names also r e = refl
route-normalize_route (ch ∷ chans) names also r e =
    ground
      (arith, is_routed-normalized names also r ch e, route-normalize_route chans names also r e)
