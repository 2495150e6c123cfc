-- ===== src/Routing/Selection.antt =====
-- `rankRoutes` and `selectRoute` of packages/core/src/math/routing.ts: independence of the input's
-- order, and the winner.
use mathlib.Core.List.{mem-filter, mem-map, Mem, mem-map_of_mem, mem-cons_self, not-mem-nil}
use mathlib.Core.Option.{some-injective}
use mathlib.Core.List.Perm
use mathlib.Core.Logic.{∥∥₁_map, ∥∥₁_elim}
use stellar_agentic.Base.{
  first, ◌≡◌, refl, sym, ap, ◌∙◌, true, List, [], ◌∷◌, map, Perm, All, Option, none, some, Result,
  ok, >>=-eq_ok, ok_injective, All-mem, All-perm, arith, eq_false_of_ne_true, false, subst,
}
use stellar_agentic.Base.Sorting.{IsSorted, sort-eq_of_perm, Separates}
use stellar_agentic.Routing.{
  RouteQuote, RoutingPolicy, ScoredRoute, RoutingError, is_route_eligible, scored, rank_routes,
  select_route, at_most,
}
use stellar_agentic.Routing.Order.{Before, at_most_iff, at_most-IsTotal, id-eq_of_at_most}
use stellar_agentic.Routing.Ranking.{
  IsValidRoute, is_eligible?, eligible, rank_routes_correct, ranked-IsSorted_perm,
}

-- The routes of the list are told apart by their ids.
abbrev pub HasDistinctIds : List RouteQuote → Type 0
HasDistinctIds rs = (r s : RouteQuote) → Mem r rs → Mem s rs → r.id ≡ s.id → r ≡ s

ScoredRoute-set : IsSet ScoredRoute
ScoredRoute-set = hlevel

ranking-set : IsSet (Result RoutingError (List ScoredRoute))
ranking-set = hlevel

at_most_self : (x : ScoredRoute) → at_most x x ≡ true
at_most_self x = ground (arith, at_most-IsTotal.total x x)

first-eq_none : (out : List ScoredRoute) → first out ≡ none → out ≡ []
first-eq_none [] e = refl
first-eq_none (x ∷ xs) e = cc

module _ (p : RoutingPolicy) where
  scored_of_mem :
      (rs : List RouteQuote) {x : ScoredRoute}
      → Mem x (map (λ r. scored r p) (eligible p rs))
      → ∥ ((r : RouteQuote) × Mem r rs × (scored r p ≡ x)) ∥₁
  scored_of_mem rs m =
      ∥∥₁_map (mem-map.0 m) λ (r, mr, e). (r, ((mem-filter (is_eligible? p)).0 mr).0, e)

  -- With distinct ids the comparator tells all scored routes apart.
  scored-Separates :
      (rs : List RouteQuote)
      → HasDistinctIds rs
      → Separates at_most at_most-IsTotal (map (λ r. scored r p) (eligible p rs))
  unfolding scored
  scored-Separates rs distinct x y mx my below above =
      ∥∥₁_elim (scored_of_mem rs mx) (ScoredRoute-set x y) λ (r, mr, er).
        ∥∥₁_elim (scored_of_mem rs my) (ScoredRoute-set x y) λ (s, ms, es).
          let ids = id-eq_of_at_most x y below above in
          let same = ap (λ z. z.id) er ∙ ids ∙ sym (ap (λ z. z.id) es) in
          sym er ∙ ap (λ z. scored z p) (distinct r s mr ms same) ∙ es

  -- `rankRoutes` returns the same list, in the same order, for every order of the input, if the ids
  -- of the routes are distinct.
  pub rank_routes-perm :
      (rs rs' : List RouteQuote) (out : List ScoredRoute)
      → Perm rs rs'
      → HasDistinctIds rs
      → rank_routes rs p ≡ ok out
      → rank_routes rs' p ≡ ok out
  rank_routes-perm rs rs' out q distinct e =
      let (vp, vr, o) = (rank_routes_correct p rs out).0 e in
      let same =
        sort-eq_of_perm at_most at_most-IsTotal ScoredRoute-set
          (Perm.map (λ r. scored r p) (Perm.filter (is_eligible? p) q))
          (scored-Separates rs distinct) in
      ∥∥₁_elim q (ranking-set _ _)
        λ d. (rank_routes_correct p rs' out).1 (vp, All-perm IsValidRoute d vr, o ∙ same)

  select_route_inv :
      (rs : List RouteQuote) (r : Option ScoredRoute)
      → select_route rs p ≡ ok r
      → (out : List ScoredRoute) × (rank_routes rs p ≡ ok out) × (first out ≡ r)
  unfolding select_route
  select_route_inv rs r e =
      let (out, ranked_ok, e') = >>=-eq_ok (rank_routes rs p) _ e in
      (out, ranked_ok, ok_injective e')

  scored_mem :
      (rs : List RouteQuote) (r : RouteQuote)
      → Mem r rs
      → is_route_eligible r p ≡ true
      → Mem (scored r p) (map (λ s. scored s p) (eligible p rs))
  scored_mem rs r m h = mem-map_of_mem (λ s. scored s p) ((mem-filter (is_eligible? p)).1 (m, h))

  first_best :
      (out : List ScoredRoute) (w : ScoredRoute)
      → IsSorted at_most out
      → first out ≡ some w
      → Mem w out × All (λ x. at_most w x ≡ true) out
  first_best [] w s e = cc
  first_best (x ∷ xs) w s e =
      subst (λ v. Mem v (x ∷ xs) × All (λ y. at_most v y ≡ true) (x ∷ xs)) (some-injective _ _ e)
        (mem-cons_self, (at_most_self x, s.0))

  -- What `selectRoute` returns is an admissible route with its score, and no admissible route goes
  -- before it: by score, then higher output, then slippage, then hops, then id.
  pub select_route_best :
      (rs : List RouteQuote) (w : ScoredRoute)
      → select_route rs p ≡ ok (some w)
      → Mem w (map (λ r. scored r p) (eligible p rs))
        × ((r : RouteQuote) → Mem r rs → is_route_eligible r p ≡ true → Before w (scored r p))
  select_route_best rs w e =
      let (out, ranked_ok, e') = select_route_inv rs (some w) e in
      let (sorted, q) = ranked-IsSorted_perm p rs out ranked_ok in
      let (m, least) = first_best out w sorted e' in
      (
        (Perm.mem_iff q).0 m,
        λ r mr h.
            (at_most_iff w (scored r p)).0
              (All-mem (at_most w) out least ((Perm.mem_iff q).1 (scored_mem rs r mr h))),
      )

  -- `selectRoute` returns null only where no route is admissible.
  pub select_route-none :
      (rs : List RouteQuote) (r : RouteQuote)
      → select_route rs p ≡ ok none
      → Mem r rs
      → is_route_eligible r p ≡ false
  select_route-none rs r e m =
      let (out, ranked_ok, e') = select_route_inv rs none e in
      let (_, q) = ranked-IsSorted_perm p rs out ranked_ok in
      eq_false_of_ne_true λ h.
        not-mem-nil (
          subst (Mem (scored r p)) (first-eq_none out e')
            ((Perm.mem_iff q).1 (scored_mem rs r m h)))
