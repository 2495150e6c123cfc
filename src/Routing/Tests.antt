-- ===== src/Routing/Tests.antt =====
-- Runs of packages/core/src/math/routing.ts, and its theorems at inputs.
use mathlib.Core.List.{Mem, mem-cons, not-mem-nil}
use mathlib.Core.List.Perm
use mathlib.Core.Logic.Or
use mathlib.Core.Logic.{◌∨₁◌}
use stellar_agentic.Base.{◌≡◌, refl, ◌↔◌, none, some, true, [], ◌∷◌, map, Perm, All, ok, err}
use stellar_agentic.Base.Int.{pos}
use stellar_agentic.Base.Numbers.{whole}
use stellar_agentic.Base.Sorting.{IsSorted, sort}
use stellar_agentic.Routing.{
  RouteQuote, default_routing_policy, validate_policy, validate_route, is_route_eligible, weighted,
  scored, score_route, at_most, filter_routes, score_routes, rank_routes, select_route,
  hop_count_not_positive,
}
use stellar_agentic.Routing.Order.{Before}
use stellar_agentic.Routing.Ranking.{
  IsValidPolicy, IsValidRoute, eligible, ranked, rank_routes_correct, ranked-IsSorted_perm,
}
use stellar_agentic.Routing.Selection.{HasDistinctIds, rank_routes-perm, select_route_best}
use stellar_agentic.Routing.Samples.{
  sample_quote, direct_quote, long_quote, quotes, best, second, rank-quotes,
}

best_score : best.score ≡ 227
unfolding scored weighted
best_score = refl

no_hops :
    rank_routes (sample_quote (b'a' ∷ []) 30 0 ∷ []) default_routing_policy
    ≡ err hop_count_not_positive
unfolding rank_routes validate_policy filter_routes validate_route
no_hops = refl

rank_routes_correct_example :
    (rank_routes quotes default_routing_policy ≡ ok (best ∷ second ∷ [])) ↔ (
      IsValidPolicy default_routing_policy
      × All IsValidRoute quotes
      × (best ∷ second ∷ [] ≡ ranked default_routing_policy quotes))
rank_routes_correct_example = rank_routes_correct default_routing_policy quotes (best ∷ second ∷ [])

ranked-IsSorted_perm_example :
    IsSorted at_most (best ∷ second ∷ [])
    × Perm
        (best ∷ second ∷ [])
        (map (λ r. scored r default_routing_policy) (eligible default_routing_policy quotes))
ranked-IsSorted_perm_example =
    ranked-IsSorted_perm default_routing_policy quotes (best ∷ second ∷ []) rank-quotes

mem-quotes : (r : RouteQuote) → Mem r quotes → (r ≡ long_quote) ∨₁ (r ≡ direct_quote)
mem-quotes r m =
    Or.elim squash₁ (mem-cons.0 m) Or.inl
      λ rest. Or.elim squash₁ (mem-cons.0 rest) Or.inr (λ n. absurd (not-mem-nil n))

RouteQuote-set : IsSet RouteQuote
RouteQuote-set = hlevel

quotes-HasDistinctIds : HasDistinctIds quotes
quotes-HasDistinctIds r s mr ms e =
    Or.elim (RouteQuote-set r s) (mem-quotes r mr)
      (λ p. Or.elim (RouteQuote-set r s) (mem-quotes s ms) (λ q. cc) (λ q. cc))
      (λ p. Or.elim (RouteQuote-set r s) (mem-quotes s ms) (λ q. cc) (λ q. cc))

rank_routes-perm_example :
    rank_routes (direct_quote ∷ long_quote ∷ []) default_routing_policy ≡ ok (best ∷ second ∷ [])
rank_routes-perm_example =
    rank_routes-perm default_routing_policy quotes (direct_quote ∷ long_quote ∷ [])
      (best ∷ second ∷ []) (Perm.swap direct_quote long_quote []) quotes-HasDistinctIds rank-quotes

select-quotes : select_route quotes default_routing_policy ≡ ok (some best)
unfolding select_route
select-quotes = rw rank-quotes refl

select_route_best_example :
    Mem best (map (λ r. scored r default_routing_policy) (eligible default_routing_policy quotes))
    × ((r : RouteQuote)
        → Mem r quotes
        → is_route_eligible r default_routing_policy ≡ true
        → Before best (scored r default_routing_policy))
select_route_best_example = select_route_best default_routing_policy quotes best select-quotes

-- Too unreliable for the default policy.
abbrev weak_quote : RouteQuote
weak_quote = record direct_quote { reliability_bps = whole (pos 4000) }

select_weak : select_route (weak_quote ∷ []) default_routing_policy ≡ ok none
unfolding select_route rank_routes validate_policy filter_routes validate_route is_route_eligible
    score_routes sort
select_weak = refl

score-direct : score_route direct_quote default_routing_policy ≡ ok best
unfolding score_route validate_policy validate_route is_route_eligible
score-direct = refl

score-long : score_route long_quote default_routing_policy ≡ ok second
unfolding score_route validate_policy validate_route is_route_eligible
score-long = refl
