-- ===== src/Routing/Ranking.antt =====
-- pkg/routing/routing.go: the best route and the ranked routes, chosen by the same score.
use mathlib.Core.List.{Perm}
use mathlib.Core.List.Perm
use spectral_cloud.Prelude.{
  ◌≡◌, refl, Bool, true, false, Option, none, some, List, [], ◌∷◌, arith, if◌then◌else◌, Bool-cases,
  inl, inr, get_elem?, keep_if, ap, ◌∙◌, sym, select, All, map,
}
use spectral_cloud.Prelude.Int.{ℤ, ltb_ℤ}
use spectral_cloud.Prelude.Clock.{Time}
use spectral_cloud.Prelude.Sort.{insert_by, sort_by}
use spectral_cloud.Routing.Choice.{
  Route, BestRouteFilter, route_matches_filter, route_score, best_from, select_best_route,
  filter_routes, scored_less, ranked_routes,
}

module _ (f : BestRouteFilter) (penalty : ℤ) (now : Time) where
  abbrev scored : Route → Route × ℤ
  scored r = (r, route_score r penalty)

  abbrev matches : Route → Bool
  matches r = route_matches_filter r f now

  -- The first of two in the order of the ranking, where the earlier one wins a tie.
  abbrev front : Option Route → Option Route → Option Route
  front none o = o
  front (some b) none = some b
  front (some b) (some r) =
      if ltb_ℤ (route_score r penalty) (route_score b penalty) then some r else some b

  front_assoc : (a b c : Option Route) → front (front a b) c ≡ front a (front b c)
  front_assoc none b c = refl
  front_assoc (some a) none c = refl
  front_assoc (some a) (some b) none = ground arith
  front_assoc (some a) (some b) (some c) = ground arith

  -- The best matching route, by recursion from the end.
  best_of : List Route → Option Route
  best_of [] = none
  best_of (r ∷ rs) = front (if matches r then some r else none) (best_of rs)

  joins :
      (c : Bool) (b : Option Route) (r : Route)
      → (if c
          then elim b [
            | none ↦ some r
            | some x ↦
                if ltb_ℤ (route_score r penalty) (route_score x penalty) then some r else some x
          ]
          else b)
        ≡ front b (if c then some r else none)
  joins true none r = refl
  joins true (some b) r = refl
  joins false none r = refl
  joins false (some b) r = refl

  best_from-front :
      (rs : List Route) (b : Option Route) → best_from f penalty now b rs ≡ front b (best_of rs)
  unfolding best_from best_of
  best_from-front [] none = refl
  best_from-front [] (some b) = refl
  best_from-front (r ∷ rs) b =
      best_from-front rs _
      ∙ (ap (λ o. front o (best_of rs)) (joins (matches r) b r)
          ∙ front_assoc b (if matches r then some r else none) (best_of rs))

  abbrev less : Route → Route → Bool
  less a b = ltb_ℤ (route_score a penalty) (route_score b penalty)

  insert_by-scored :
      (r : Route) (rs : List Route)
      → insert_by scored_less (scored r) (map scored rs) ≡ map scored (insert_by less r rs)
  unfolding insert_by
  insert_by-scored r [] = refl
  insert_by-scored r (y ∷ ys) = ground (arith, insert_by-scored r ys)

  sort_by-scored :
      (rs : List Route) → sort_by scored_less (map scored rs) ≡ map scored (sort_by less rs)
  unfolding sort_by
  sort_by-scored [] = refl
  sort_by-scored (r ∷ rs) =
      ap (insert_by scored_less (scored r)) (sort_by-scored rs)
      ∙ insert_by-scored r (sort_by less rs)

  unscored : (rs : List Route) → map (λ e. e.0) (map scored rs) ≡ rs
  unscored [] = refl
  unscored (r ∷ rs) = ap (◌∷◌ r) (unscored rs)

  ranked-sorts :
      (rs : List Route) → ranked_routes rs f penalty now ≡ sort_by less (select matches rs)
  unfolding ranked_routes
  ranked-sorts rs =
      ap (map (λ e. e.0)) (sort_by-scored (select matches rs))
      ∙ unscored (sort_by less (select matches rs))

  -- The first entry of a list.
  abbrev top : List Route → Option Route
  top [] = none
  top (r ∷ rs) = some r

  top-insert_by :
      (r : Route) (rs : List Route) → top (insert_by less r rs) ≡ front (some r) (top rs)
  unfolding insert_by
  top-insert_by r [] = refl
  top-insert_by r (y ∷ ys) = ground arith

  top-sort_by : (rs : List Route) → top (sort_by less (select matches rs)) ≡ best_of rs
  unfolding sort_by best_of
  top-sort_by [] = refl
  top-sort_by (r ∷ rs) = elim (Bool-cases (matches r)) [
    | inl e ↦
        rw (e, keep_if)
          (top-insert_by r (sort_by less (select matches rs))
            ∙ ap (front (some r)) (top-sort_by rs))
    | inr e ↦ rw (e, keep_if) (top-sort_by rs)
  ]

  not_less_trans : (r y x : Route) → less y r ≡ false → less x y ≡ false → less x r ≡ false
  not_less_trans r y x e h = ground arith

  less_asym : (y r : Route) → less y r ≡ true → less r y ≡ false
  less_asym y r e = ground arith

  top_first : (rs : List Route) → top rs ≡ get_elem? rs 0
  top_first [] = refl
  top_first (r ∷ rs) = refl

  -- Each before all that follow: none of them has a lower score.
  abbrev pub Ascending : List Route → Type 0
  Ascending [] = Unit
  Ascending (r ∷ rs) = All (λ y. less y r ≡ false) rs × Ascending rs

  above-insert_by :
      (z r : Route) (rs : List Route)
      → less r z ≡ false
      → All (λ y. less y z ≡ false) rs
      → All (λ y. less y z ≡ false) (insert_by less r rs)
  unfolding insert_by
  above-insert_by z r [] e a = (e, tt)
  above-insert_by z r (y ∷ ys) e a = elim (Bool-cases (less y r)) [
    | inl t ↦ rw (t, insert_by) (a.0, above-insert_by z r ys e a.1)
    | inr t ↦ rw (t, insert_by) (e, a)
  ]

  above_trans :
      (r y : Route) (rs : List Route)
      → less y r ≡ false
      → All (λ x. less x y ≡ false) rs
      → All (λ x. less x r ≡ false) rs
  above_trans r y [] e a = tt
  above_trans r y (x ∷ xs) e a = (not_less_trans r y x e a.0, above_trans r y xs e a.1)

  insert_by-Ascending :
      (r : Route) (rs : List Route) → Ascending rs → Ascending (insert_by less r rs)
  unfolding insert_by
  insert_by-Ascending r [] a = (tt, tt)
  insert_by-Ascending r (y ∷ ys) a = elim (Bool-cases (less y r)) [
    | inl t ↦
        rw (t, insert_by)
          (above-insert_by y r ys (less_asym y r t) a.0, insert_by-Ascending r ys a.1)
    | inr t ↦ rw (t, insert_by) ((t, above_trans r y ys t a.0), a)
  ]

  sort_by-Ascending : (rs : List Route) → Ascending (sort_by less rs)
  unfolding sort_by
  sort_by-Ascending [] = tt
  sort_by-Ascending (r ∷ rs) = insert_by-Ascending r (sort_by less rs) (sort_by-Ascending rs)

  insert_by-Perm : (r : Route) (rs : List Route) → Perm (insert_by less r rs) (r ∷ rs)
  unfolding insert_by
  insert_by-Perm r [] = Perm.refl (r ∷ [])
  insert_by-Perm r (y ∷ ys) = elim (Bool-cases (less y r)) [
    | inl t ↦ rw (t, insert_by) (Perm.trans (Perm.cons y (insert_by-Perm r ys)) (Perm.swap r y ys))
    | inr t ↦ rw (t, insert_by) (Perm.refl (r ∷ y ∷ ys))
  ]

  sort_by-Perm : (rs : List Route) → Perm (sort_by less rs) rs
  unfolding sort_by
  sort_by-Perm [] = Perm.refl []
  sort_by-Perm (r ∷ rs) =
      Perm.trans (insert_by-Perm r (sort_by less rs)) (Perm.cons r (sort_by-Perm rs))

-- With the scores as exact integers, the ranked routes are the filtered ones in another order, each
-- with a score not above that of any later one, and the route that the best-route selection
-- returns is the first of them: the selection fails exactly when no route matches.
pub ranked_routes-select_best_route :
    (rs : List Route) (f : BestRouteFilter) (penalty : ℤ) (now : Time)
    → let ranked = ranked_routes rs f penalty now in
      Perm ranked (filter_routes rs f now)
      × Ascending f penalty now ranked
      × (select_best_route rs f penalty now ≡ get_elem? ranked 0)
unfolding filter_routes select_best_route
ranked_routes-select_best_route rs f penalty now =
    let sorted = sort_by-Ascending f penalty now (select (λ r. route_matches_filter r f now) rs) in
    let first = best_from-front f penalty now rs none ∙ sym (top-sort_by f penalty now rs) in
    rw (ranked-sorts f penalty now rs) (
      sort_by-Perm f penalty now (select (λ r. route_matches_filter r f now) rs),
      sorted,
      first ∙ top_first f penalty now _,
    )
