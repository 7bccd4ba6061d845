-- ===== src/Routing/Examples.antt =====
-- Tests of the routing engine, and its theorems at concrete inputs.
use spectral_cloud.Prelude.{
  ℕ, String, ◌≡◌, refl, Bool, true, false, Option, none, some, List, [], ◌∷◌, arith, inl, get_elem?,
  map,
}
use spectral_cloud.Prelude.Int.{pos, negsuc}
use spectral_cloud.Prelude.Clock.{Time, after}
use spectral_cloud.Prelude.Dict.{lookup}
use spectral_cloud.Routing.Choice.{
  RouteMetric, Route, UpdateRouteOptions, BestRouteFilter, satellite_penalty_ms, select_best_route,
  filter_routes, ranked_routes,
}
use spectral_cloud.Routing.{
  negative_ttl, Engine, prune_expired, update_route, select_best_next_hop_filtered,
}
use mathlib.Core.List.{Perm}
use spectral_cloud.Routing.Ranking.{Ascending, ranked_routes-select_best_route}
use spectral_cloud.Routing.Expiry.{select_best_route-prune, negative_ttl_keeps_metric}

abbrev plain_route : String → ℕ → ℕ → Bool → Option Time → Route
plain_route d latency throughput satellite expires_at = record {
  destination = d;
  metric = record { latency = pos latency; throughput = pos throughput };
  added_at = 5;
  expires_at = expires_at;
  satellite = satellite;
  tags = ("region", "eu") ∷ [];
}

abbrev routes : List Route
routes =
    plain_route "sat" 20 10 true none
    ∷ plain_route "old" 1 100 false (some 50)
    ∷ plain_route "land" 90 20 false none
    ∷ []

abbrev engine : Engine
engine = record { routes = routes }

abbrev in_eu : BestRouteFilter
in_eu = record {
  max_latency = pos 0;
  min_throughput = pos 0;
  satellite = none;
  tags = ("region", "eu") ∷ [];
}

-- The satellite link loses by its penalty, and the expired route is no candidate.
land_is_best :
    map (λ r. r.destination) (ranked_routes routes in_eu satellite_penalty_ms 60)
    ≡ "land" ∷ "sat" ∷ []
unfolding ranked_routes lookup
land_is_best = refl

ranked_routes-select_best_route_example :
    let ranked = ranked_routes routes in_eu satellite_penalty_ms 60 in
    Perm ranked (filter_routes routes in_eu 60)
    × Ascending in_eu satellite_penalty_ms 60 ranked
    × (select_best_route routes in_eu satellite_penalty_ms 60 ≡ get_elem? ranked 0)
ranked_routes-select_best_route_example =
    ranked_routes-select_best_route routes in_eu satellite_penalty_ms 60

select_best_route-prune_example :
    select_best_next_hop_filtered (prune_expired engine 60) in_eu satellite_penalty_ms 70
    ≡ select_best_next_hop_filtered engine in_eu satellite_penalty_ms 70
select_best_route-prune_example =
    select_best_route-prune engine in_eu satellite_penalty_ms 60 70 (omega arith)

abbrev worse : RouteMetric
worse = record { latency = pos 500; throughput = pos 1 }

abbrev half_done : UpdateRouteOptions
half_done = record { metric = some worse; ttl = some (negsuc 0); satellite = none; tags = none }

negative_ttl_keeps_metric_example :
    let (after, reply) = update_route engine "land" half_done 60 in
    (reply ≡ inl negative_ttl)
    × (after.routes
        ≡ plain_route "sat" 20 10 true none
          ∷ plain_route "old" 1 100 false (some 50)
          ∷ record (plain_route "land" 90 20 false none) { metric = worse }
          ∷ [])
negative_ttl_keeps_metric_example =
    negative_ttl_keeps_metric engine "land"
      (plain_route "sat" 20 10 true none ∷ plain_route "old" 1 100 false (some 50) ∷ [])
      (plain_route "land" 90 20 false none) [] worse half_done 0 60 refl (refl, (refl, tt)) refl
      refl refl refl
