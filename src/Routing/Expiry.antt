-- ===== src/Routing/Expiry.antt =====
-- pkg/routing/routing.go: expired routes and rejected updates.
use spectral_cloud.Prelude.{
  ℕ, ◌≤◌, String, ◌≡◌, refl, true, false, Option, none, some, List, [], ◌∷◌, arith, eq_refl,
  Bool-cases, inl, inr, keep_if, ap, ◌∙◌, All, ◌++◌, ◌==◌, not, select,
}
use spectral_cloud.Prelude.Int.{ℤ, pos, negsuc, ltb_ℤ}
use spectral_cloud.Prelude.Clock.{Time, passed, after}
use spectral_cloud.Routing.Choice.{
  RouteMetric, Route, UpdateRouteOptions, BestRouteFilter, is_expired, route_matches_filter,
  best_from, select_best_route,
}
use spectral_cloud.Routing.{
  negative_ttl, route_not_found, Engine, prune_expired, is_negative, update_first, change_ttl,
  change_route, update_route, select_best_next_hop_filtered,
}

expired_later :
    (o : Option Time) (now later : Time) → now ≤ later → passed o now ≡ true → passed o later ≡ true
expired_later none now later h e = absurd (ground arith)
expired_later (some t) now later h e = ground arith

expired_unmatched :
    (r : Route) (f : BestRouteFilter) (now later : Time)
    → now ≤ later
    → is_expired now r ≡ true
    → route_matches_filter r f later ≡ false
unfolding route_matches_filter
expired_unmatched r f now later h e =
    let gone = expired_later r.expires_at now later h e in rw (gone, route_matches_filter) refl

best_from-prune :
    (rs : List Route) (b : Option Route) (f : BestRouteFilter) (penalty : ℤ) (now later : Time)
    → now ≤ later
    → best_from f penalty later b (select (λ r. not (is_expired now r)) rs)
      ≡ best_from f penalty later b rs
unfolding best_from
best_from-prune [] b f penalty now later h = refl
best_from-prune (r ∷ rs) b f penalty now later h = elim (Bool-cases (is_expired now r)) [
  | inl e ↦
      let unmatched = expired_unmatched r f now later h e in
      rw (e, keep_if) (rw (unmatched, best_from) (best_from-prune rs b f penalty now later h))
  | inr e ↦ rw (e, keep_if) (best_from-prune rs _ f penalty now later h)
]

-- Pruning at one time does not change the choice of a route at that time or later: it removes
-- only routes that no choice takes.
pub select_best_route-prune :
    (re : Engine) (f : BestRouteFilter) (penalty : ℤ) (now later : Time)
    → now ≤ later
    → select_best_next_hop_filtered (prune_expired re now) f penalty later
      ≡ select_best_next_hop_filtered re f penalty later
unfolding select_best_next_hop_filtered prune_expired select_best_route
select_best_route-prune re f penalty now later h =
    best_from-prune re.routes none f penalty now later h

-- The routes before the first one to the destination stay.
update_first-append :
    {R : Type 0} (destination : String) (change : Route → Route × R) (missing : R)
    (others : List Route) (r : Route) (rest : List Route)
    → All (λ o. (o.destination == destination) ≡ false) others
    → (r.destination == destination) ≡ true
    → update_first destination change missing (others ++ (r ∷ rest))
      ≡ (others ++ ((change r).0 ∷ rest), (change r).1)
unfolding update_first
update_first-append destination change missing [] r rest h same = rw (same, update_first) refl
update_first-append destination change missing (o ∷ others) r rest h same =
    let later = update_first-append destination change missing others r rest h.1 same in
    let apart : o.destination == destination ≡ false = h.0 in
    rw (apart, update_first) (ap (λ p. (o ∷ p.0, p.1)) later)

-- `UpdateRoute` with metrics that are not negative and a negative TTL returns an error, and yet the
-- first route to the destination, wherever it stands, has the new metrics afterwards. All else is
-- as it was.
pub negative_ttl_keeps_metric :
    (re : Engine) (destination : String) (others : List Route) (r : Route) (rest : List Route)
    (m : RouteMetric) (opts : UpdateRouteOptions) (n : ℕ) (now : Time)
    → re.routes ≡ others ++ (r ∷ rest)
    → All (λ o. (o.destination == destination) ≡ false) others
    → r.destination ≡ destination
    → opts.metric ≡ some m
    → is_negative m ≡ false
    → opts.ttl ≡ some (negsuc n)
    → let (after, reply) = update_route re destination opts now in
      (reply ≡ inl negative_ttl) × (after.routes ≡ others ++ (record r { metric = m } ∷ rest))
unfolding update_route change_route change_ttl
negative_ttl_keeps_metric re destination others r rest m opts n now here apart own e ok t =
    let same : r.destination == destination ≡ true =
      ap (λ x. x == destination) own ∙ eq_refl destination in
    let below : ltb_ℤ (negsuc n) (pos 0) ≡ true = ground arith in
    let changed : change_route opts now r ≡ (record r { metric = m }, inl negative_ttl) =
      rw (e, change_route)
        (rw (ok, change_route) (rw (t, change_ttl) (rw (below, change_ttl) refl))) in
    let whole =
      ap (update_first destination (change_route opts now) (inl route_not_found)) here
      ∙ update_first-append destination (change_route opts now) (inl route_not_found) others r rest
          apart same in
    (
      ap (λ p. p.1) whole ∙ ap (λ p. p.1) changed,
      ap (λ p. p.0) whole ∙ ap (λ p. others ++ (p.0 ∷ rest)) changed,
    )
