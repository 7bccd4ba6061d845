-- ===== src/Routing.antt =====
-- pkg/routing/routing.go: the routing engine, a list of routes. The time of a call is an argument.
-- An operation returns `inl` with the error or `inr` with the result.
pub mod Choice
pub mod Ranking
pub mod Expiry
pub mod Examples
use spectral_cloud.Prelude.{
  ℕ, suc, ◌+◌, ◌-◌, String, Bool, true, false, not, Option, none, some, List, [], ◌∷◌, ◌++◌, ◌⊎◌,
  inl, inr, ◌==◌, ◌&&◌, ◌||◌, if◌then◌else◌, map, select, length,
}
use spectral_cloud.Prelude.Int.{ℤ, pos, negsuc, ltb_ℤ, eqb_ℤ}
use spectral_cloud.Prelude.Clock.{Time, Duration, add_time}
use spectral_cloud.Prelude.Dict.{Dict, lookup, insert, keys}
use Choice.{
  RouteMetric, Route, RouteOptions, UpdateRouteOptions, BestRouteFilter, no_filter,
  satellite_penalty_ms, clone_tags, match_tags, is_expired, select_best_route,
}

pub data RouteError : Type 0 where
  empty_destination : RouteError
  negative_metric : RouteError
  negative_ttl : RouteError
  route_expired : RouteError
  route_not_found : RouteError

pub record Engine : Type 0 where
  pub routes : List Route

unfoldable pub prune_expired : Engine → Time → Engine
prune_expired re now = record { routes = select (λ r. not (is_expired now r)) re.routes }

unfoldable pub new_routing_engine : Engine
new_routing_engine = record { routes = [] }

unfoldable pub new_routing_engine_from_routes : List Route → Time → Engine
unfolding prune_expired
new_routing_engine_from_routes rs now = prune_expired (record { routes = rs }) now

abbrev pub expiry : Duration → Time → Option Time
expiry ttl now = if ltb_ℤ (pos 0) ttl then some (add_time now ttl) else none

abbrev pub is_negative : RouteMetric → Bool
is_negative m = ltb_ℤ m.latency (pos 0) || ltb_ℤ m.throughput (pos 0)

unfoldable pub add_route_with_options :
    Engine → String → RouteMetric → RouteOptions → Time → Engine × Option RouteError
unfolding clone_tags add_time
add_route_with_options re destination metric opts now =
    if destination == ""
    then (re, some empty_destination)
    else if is_negative metric
    then (re, some negative_metric)
    else (
      record {
        routes =
            re.routes
            ++ (record {
              destination = destination;
              metric = metric;
              added_at = now;
              expires_at = expiry opts.ttl now;
              satellite = opts.satellite;
              tags = clone_tags opts.tags;
            }
                ∷ []);
      },
      none,
    )

unfoldable pub add_route_with_ttl :
    Engine → String → RouteMetric → Duration → Time → Engine × Option RouteError
unfolding add_time
add_route_with_ttl re destination metric ttl now =
    if destination == ""
    then (re, some empty_destination)
    else if is_negative metric
    then (re, some negative_metric)
    else (
      record {
        routes =
            re.routes
            ++ (record {
              destination = destination;
              metric = metric;
              added_at = now;
              expires_at = expiry ttl now;
              satellite = false;
              tags = [];
            }
                ∷ []);
      },
      none,
    )

unfoldable pub add_route : Engine → String → RouteMetric → Time → Engine × Option RouteError
unfolding add_route_with_ttl
add_route re destination metric now = add_route_with_ttl re destination metric (pos 0) now

unfoldable pub find_route : String → Time → List Route → RouteError ⊎ Route
find_route destination now [] = inl route_not_found
find_route destination now (r ∷ rs) =
    let later = find_route destination now rs in
    if r.destination == destination
    then (if is_expired now r then inl route_expired else inr r)
    else later

unfoldable pub get_route : Engine → String → Time → RouteError ⊎ Route
unfolding find_route
get_route re destination now = find_route destination now re.routes

unfoldable pub get_link_quality : Engine → String → Time → RouteError ⊎ RouteMetric
unfolding find_route
get_link_quality re destination now = elim (find_route destination now re.routes) [
  | inl e ↦ inl e
  | inr r ↦ inr r.metric
]

-- The first route to the destination is changed in place.
unfoldable pub update_first :
    {R : Type 0} → String → (Route → Route × R) → R → List Route → List Route × R
update_first destination change missing [] = ([], missing)
update_first destination change missing (r ∷ rs) =
    let rest = update_first destination change missing rs in
    if r.destination == destination
    then (let (s, reply) = change r in (s ∷ rs, reply))
    else (r ∷ rest.0, rest.1)

unfoldable pub update_link_quality : Engine → String → RouteMetric → Engine × Option RouteError
unfolding update_first
update_link_quality re destination metric =
    let (rs, e) =
      update_first destination (λ r. (record r { metric = metric }, none)) (some route_not_found)
        re.routes in
    (record { routes = rs }, e)

-- The parts of `UpdateRoute`, in their order: each returns the route as it stands when the call
-- returns, whether it fails or not.
unfoldable pub change_labels : UpdateRouteOptions → Route → Route
unfolding clone_tags
change_labels opts r =
    let s : Route = elim opts.satellite [ none ↦ r | some b ↦ record r { satellite = b } ] in
    elim opts.tags [ none ↦ s | some t ↦ record s { tags = clone_tags t } ]

unfoldable pub change_ttl : UpdateRouteOptions → Time → Route → Route × (RouteError ⊎ Route)
unfolding change_labels add_time
change_ttl opts now r = elim opts.ttl [
  | none ↦ let s = change_labels opts r in (s, inr s)
  | some ttl ↦
      if ltb_ℤ ttl (pos 0)
      then (r, inl negative_ttl)
      else if eqb_ℤ ttl (pos 0)
      then (let s = change_labels opts (record r { expires_at = none }) in (s, inr s))
      else (let s = change_labels opts (record r { expires_at = some (add_time now ttl) }) in
          (s, inr s))
]

unfoldable pub change_route : UpdateRouteOptions → Time → Route → Route × (RouteError ⊎ Route)
unfolding change_ttl
change_route opts now r = elim opts.metric [
  | none ↦ change_ttl opts now r
  | some m ↦
      if is_negative m
      then (r, inl negative_metric)
      else change_ttl opts now (record r { metric = m })
]

unfoldable pub update_route :
    Engine → String → UpdateRouteOptions → Time → Engine × (RouteError ⊎ Route)
unfolding update_first change_route
update_route re destination opts now =
    let (rs, reply) =
      update_first destination (change_route opts now) (inl route_not_found) re.routes in
    (record { routes = rs }, reply)

unfoldable pub route_count : Engine → Time → Engine × ℕ
unfolding prune_expired
route_count re now = let e = prune_expired re now in (e, length e.routes)

unfoldable pub list_routes : Engine → Time → Engine × List Route
unfolding prune_expired
list_routes re now = let e = prune_expired re now in (e, e.routes)

unfoldable pub load : Engine → List Route → Engine
load re rs = record { routes = rs }

unfoldable pub select_best_next_hop_filtered : Engine → BestRouteFilter → ℤ → Time → Option Route
unfolding select_best_route
select_best_next_hop_filtered re f penalty now = select_best_route re.routes f penalty now

unfoldable pub select_best_next_hop_opts : Engine → ℤ → Time → Option Route
unfolding select_best_next_hop_filtered
select_best_next_hop_opts re penalty now = select_best_next_hop_filtered re no_filter penalty now

unfoldable pub select_best_next_hop : Engine → Time → Option Route
unfolding select_best_next_hop_opts
select_best_next_hop re now = select_best_next_hop_opts re satellite_penalty_ms now

unfoldable pub filter_by_tags : Engine → Dict String → Time → Engine × List Route
unfolding prune_expired match_tags
filter_by_tags re filter now =
    let e = prune_expired re now in (e, select (λ r. match_tags r.tags filter) e.routes)

unfoldable pub delete_first : String → List Route → List Route × Bool
delete_first destination [] = ([], false)
delete_first destination (r ∷ rs) =
    let rest = delete_first destination rs in
    if r.destination == destination then (rs, true) else (r ∷ rest.0, rest.1)

unfoldable pub delete_route : Engine → String → Engine × Option RouteError
unfolding delete_first
delete_route re destination =
    let (rs, found) = delete_first destination re.routes in
    (record { routes = rs }, if found then none else some route_not_found)

unfoldable pub delete_all : Engine → Engine
delete_all re = record { routes = [] }

unfoldable pub remove_expired_routes : Engine → Time → Engine
unfolding prune_expired
remove_expired_routes re now = prune_expired re now
