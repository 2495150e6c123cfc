-- ===== src/Routing/Ranking.antt =====
-- `rankRoutes` and `selectRoute` of packages/core/src/math/routing.ts: what they return.
use mathlib.Core.List.{filter}
use mathlib.Core.Bool.{Bool-discrete}
use mathlib.Core.Logic.{if_pos, if_neg}
use stellar_agentic.Base.{
  ◌≡◌, refl, sym, ap, ◌∙◌, true, List, [], ◌∷◌, map, Perm, All, ok, >>=-eq_ok, ok_injective,
  eq_false_of_ne_true, ◌↔◌,
}
use stellar_agentic.Base.Sorting.{sort, IsSorted, sort-perm, sort-IsSorted}
use stellar_agentic.Routing.{
  RouteQuote, RoutingPolicy, ScoredRoute, validate_policy, validate_route, is_route_eligible,
  scored, score_route, filter_routes, score_routes, rank_routes, at_most,
}
use stellar_agentic.Routing.Order.{at_most-IsTotal}

abbrev pub IsValidPolicy : RoutingPolicy → Type 0
IsValidPolicy p = validate_policy p ≡ ok tt

abbrev pub IsValidRoute : RouteQuote → Type 0
IsValidRoute r = validate_route r ≡ ok tt

abbrev pub is_eligible? : (p : RoutingPolicy) (r : RouteQuote) → Dec (is_route_eligible r p ≡ true)
is_eligible? p r = Bool-discrete _ _

-- The admissible routes, in the order of the input.
abbrev pub eligible : RoutingPolicy → List RouteQuote → List RouteQuote
eligible p = filter (is_eligible? p)

module _ (p : RoutingPolicy) where
  filter_routes_lem :
      (rs : List RouteQuote) → All IsValidRoute rs → filter_routes p rs ≡ ok (eligible p rs)
  unfolding filter_routes
  filter_routes_lem [] h = refl
  filter_routes_lem (r ∷ rs) h = elim (is_eligible? p r) [
    | yes e ↦ rw (h.0, filter_routes_lem rs h.1, if_pos _ e, e) refl
    | no e ↦ rw (h.0, filter_routes_lem rs h.1, if_neg _ e, eq_false_of_ne_true e) refl
  ]

  -- The filter's callback has validated every route, admissible or not.
  filter_routes-IsValidRoute :
      (rs out : List RouteQuote) → filter_routes p rs ≡ ok out → All IsValidRoute rs
  unfolding filter_routes
  filter_routes-IsValidRoute [] out e = tt
  filter_routes-IsValidRoute (r ∷ rs) out e =
      let (_, valid, e') = >>=-eq_ok (validate_route r) _ e in
      let (rest, rest_ok, _) = >>=-eq_ok (filter_routes p rs) _ e' in
      (valid, filter_routes-IsValidRoute rs rest rest_ok)

  -- A route that the filter let through is scored: the second validation never throws.
  score_routes_lem :
      IsValidPolicy p
      → (rs : List RouteQuote) → All IsValidRoute rs
      → score_routes p (eligible p rs) ≡ ok (map (λ r. scored r p) (eligible p rs))
  unfolding score_routes score_route
  score_routes_lem vp [] h = refl
  score_routes_lem vp (r ∷ rs) h = elim (is_eligible? p r) [
    | yes e ↦ rw (if_pos _ e, vp, h.0, e, score_routes_lem vp rs h.1) refl
    | no e ↦ rw (if_neg _ e) (score_routes_lem vp rs h.1)
  ]

  -- The ranking of the routes, once everything has been validated.
  abbrev pub ranked : List RouteQuote → List ScoredRoute
  ranked rs = sort at_most (map (λ r. scored r p) (eligible p rs))

  rank_routes_lem :
      (rs : List RouteQuote)
      → IsValidPolicy p
      → All IsValidRoute rs
      → rank_routes rs p ≡ ok (ranked rs)
  unfolding rank_routes
  rank_routes_lem rs vp vr = rw (vp, filter_routes_lem rs vr, score_routes_lem vp rs vr) refl

  rank_routes_inv :
      (rs : List RouteQuote) (out : List ScoredRoute)
      → rank_routes rs p ≡ ok out
      → IsValidPolicy p × All IsValidRoute rs × (out ≡ ranked rs)
  unfolding rank_routes
  rank_routes_inv rs out e =
      let (_, vp, e') = >>=-eq_ok (validate_policy p) _ e in
      let (kept, kept_ok, _) = >>=-eq_ok (filter_routes p rs) _ e' in
      let vr = filter_routes-IsValidRoute rs kept kept_ok in
      (vp, vr, ok_injective (sym e ∙ rank_routes_lem rs vp vr))

  -- `rankRoutes` returns exactly when the policy and every route, admissible or not, are valid.
  -- The result is then the admissible routes, each with its score, in the comparator's order.
  pub rank_routes_correct :
      (rs : List RouteQuote) (out : List ScoredRoute)
      → (rank_routes rs p ≡ ok out) ↔ (IsValidPolicy p × All IsValidRoute rs × (out ≡ ranked rs))
  rank_routes_correct rs out =
      (rank_routes_inv rs out, λ h. rank_routes_lem rs h.0 h.1 ∙ ap ok (sym h.2))

  -- The ranking is sorted by the comparator, and is a permutation of the scored admissible routes.
  pub ranked-IsSorted_perm :
      (rs : List RouteQuote) (out : List ScoredRoute)
      → rank_routes rs p ≡ ok out
      → IsSorted at_most out × Perm out (map (λ r. scored r p) (eligible p rs))
  ranked-IsSorted_perm rs out e =
      let (_, _, o) = rank_routes_inv rs out e in
      rw o (sort-IsSorted at_most at_most-IsTotal _, sort-perm at_most _)
