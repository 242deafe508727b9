-- ===== src/Notify/Route.antt =====
-- internal/hub/notify/channel.go: the channels and the routes. A nil slice is `none`, which is not the
-- empty one.
use serversmonitor.Prelude.{
  Bool, true, false, Option, none, some, List, [], ◌∷◌, String, ◌||◌, if◌then◌else◌,
}
use serversmonitor.Prelude.{text_eq}

-- ChannelNames
abbrev pub channel_names : List String
channel_names = "smtp" ∷ "webhook" ∷ "teams" ∷ []

-- slices.Contains
unfoldable pub has_name : List String → String → Bool
has_name [] n = false
has_name (m ∷ ms) n = text_eq m n || has_name ms n

pub data Normalized : Type 0 where
  route_of : Option (List String) → Normalized
  unknown_channel : String → Normalized

unfoldable pub first_unknown : List String → Option String
first_unknown [] = none
first_unknown (n ∷ ns) = if has_name channel_names n then first_unknown ns else some n

-- The names of the first list that are wanted.
unfoldable pub keep_names : List String → List String → List String
keep_names [] want = []
keep_names (n ∷ ns) want =
    let rest = keep_names ns want in if has_name want n then n ∷ rest else rest

-- NormalizeRoute
unfoldable pub normalize_route : Option (List String) → Normalized
normalize_route none = route_of none
normalize_route (some names) = elim (first_unknown names) [
  | some n ↦ unknown_channel n
  | none ↦ route_of (some (keep_names channel_names names))
]

-- `route == nil || slices.Contains(route, name) || slices.Contains(also, name)`
abbrev pub is_routed : Option (List String) → List String → String → Bool
is_routed none also name = true
is_routed (some names) also name = has_name names name || has_name also name

-- Route, over channels given by their names.
unfoldable pub route : List String → Option (List String) → List String → List String
route [] names also = []
route (ch ∷ chans) names also =
    let rest = route chans names also in if is_routed names also ch then ch ∷ rest else rest
