-- ===== src/Routing/Choice.antt =====
-- pkg/routing/routing.go: a route, the filter and the score by which routes are chosen. The source
-- computes a score with `float64`, which is exact on whole numbers up to 2^53: a score is an
-- integer here.
use spectral_cloud.Prelude.{
  String, Bool, true, false, not, Option, none, some, List, [], ◌∷◌, ◌==◌, ◌&&◌, if◌then◌else◌, map,
  select,
}
use spectral_cloud.Prelude.Int.{ℤ, pos, ltb_ℤ, ◌-ℤ◌, ◌+ℤ◌}
use spectral_cloud.Prelude.Clock.{Time, Duration, passed}
use spectral_cloud.Prelude.Dict.{Dict, lookup, insert, keys}
use spectral_cloud.Prelude.Sort.{sort_by}

pub record RouteMetric : Type 0 where
  pub latency : ℤ
  pub throughput : ℤ

pub record Route : Type 0 where
  pub destination : String
  pub metric : RouteMetric
  pub added_at : Time
  pub expires_at : Option Time
  pub satellite : Bool
  pub tags : Dict String

pub record RouteOptions : Type 0 where
  pub ttl : Duration
  pub satellite : Bool
  pub tags : Dict String

pub record UpdateRouteOptions : Type 0 where
  pub metric : Option RouteMetric
  pub ttl : Option Duration
  pub satellite : Option Bool
  pub tags : Option (Dict String)

pub record BestRouteFilter : Type 0 where
  pub max_latency : ℤ
  pub min_throughput : ℤ
  pub satellite : Option Bool
  pub tags : Dict String

abbrev pub no_filter : BestRouteFilter
no_filter = record { max_latency = pos 0; min_throughput = pos 0; satellite = none; tags = [] }

abbrev pub satellite_penalty_ms : ℤ
satellite_penalty_ms = pos 300

-- m[k] with the zero value of a missing key
unfoldable pub tag_of : Dict String → String → String
tag_of m k = elim (lookup k m) [ none ↦ "" | some v ↦ v ]

unfoldable pub copy_tags : Dict String → List String → Dict String → Dict String
unfolding tag_of
copy_tags tags [] out = out
copy_tags tags (k ∷ ks) out = copy_tags tags ks (insert k (tag_of tags k) out)

unfoldable pub clone_tags : Dict String → Dict String
unfolding copy_tags
clone_tags tags = copy_tags tags (keys tags) []

unfoldable pub tags_agree : Dict String → Dict String → List String → Bool
unfolding tag_of
tags_agree tags filter [] = true
tags_agree tags filter (k ∷ ks) =
    if tag_of tags k == tag_of filter k then tags_agree tags filter ks else false

unfoldable pub match_tags : Dict String → Dict String → Bool
unfolding tags_agree
match_tags tags filter = tags_agree tags filter (keys filter)

abbrev pub is_expired : Time → Route → Bool
is_expired now r = passed r.expires_at now

abbrev pub same_bool : Bool → Bool → Bool
same_bool true b = b
same_bool false b = not b

unfoldable pub route_matches_filter : Route → BestRouteFilter → Time → Bool
unfolding match_tags
route_matches_filter r f now =
    if is_expired now r
    then false
    else if ltb_ℤ (pos 0) f.max_latency && ltb_ℤ f.max_latency r.metric.latency
    then false
    else if ltb_ℤ (pos 0) f.min_throughput && ltb_ℤ r.metric.throughput f.min_throughput
    then false
    else if elim f.satellite [ none ↦ false | some s ↦ not (same_bool r.satellite s) ]
    then false
    else match_tags r.tags f.tags

unfoldable pub route_score : Route → ℤ → ℤ
route_score r penalty =
    let latency = if ltb_ℤ r.metric.latency (pos 0) then pos 0 else r.metric.latency in
    let raised = if r.satellite && ltb_ℤ (pos 0) penalty then latency +ℤ penalty else latency in
    if ltb_ℤ (pos 0) r.metric.throughput then raised -ℤ r.metric.throughput else raised

-- The loop of `selectBestRoute`; `none` at the end is the error "no routes available".
unfoldable pub best_from : BestRouteFilter → ℤ → Time → Option Route → List Route → Option Route
unfolding route_matches_filter route_score
best_from f penalty now best [] = best
best_from f penalty now best (r ∷ rs) =
    best_from f penalty now
      (if route_matches_filter r f now
        then elim best [
          | none ↦ some r
          | some b ↦
              if ltb_ℤ (route_score r penalty) (route_score b penalty) then some r else some b
        ]
        else best)
      rs

unfoldable pub select_best_route : List Route → BestRouteFilter → ℤ → Time → Option Route
unfolding best_from
select_best_route rs f penalty now = best_from f penalty now none rs

unfoldable pub filter_routes : List Route → BestRouteFilter → Time → List Route
unfolding route_matches_filter
filter_routes rs f now = select (λ r. route_matches_filter r f now) rs

abbrev pub scored_less : Route × ℤ → Route × ℤ → Bool
scored_less a b = ltb_ℤ a.1 b.1

unfoldable pub ranked_routes : List Route → BestRouteFilter → ℤ → Time → List Route
unfolding route_matches_filter route_score sort_by
ranked_routes rs f penalty now =
    map (λ e. e.0)
      (sort_by scored_less
        (map (λ r. (r, route_score r penalty)) (select (λ r. route_matches_filter r f now) rs)))
