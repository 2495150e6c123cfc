-- ===== src/Routing/Samples.antt =====
-- Route quotes for the tests of packages/core/src/math/routing.ts and of its clients.
use stellar_agentic.Base.{ℕ, ◌≡◌, refl, none, List, [], ◌∷◌, ok}
use stellar_agentic.Base.Int.{pos}
use stellar_agentic.Base.Numbers.{whole, Bytes, bigint}
use stellar_agentic.Base.Sorting.{sort}
use stellar_agentic.Routing.{
  RouteQuote, ScoredRoute, default_routing_policy, validate_policy, validate_route,
  is_route_eligible, weighted, scored, score_route, binary_compare, compare_scored_routes,
  filter_routes, score_routes, rank_routes,
}

abbrev pub sample_quote : Bytes → ℕ → ℕ → RouteQuote
sample_quote name fee hops = record {
  id = name;
  source_asset = b'X' ∷ [];
  destination_asset = b'U' ∷ [];
  source_amount = b'1' ∷ b'0' ∷ [];
  expected_destination_amount = b'9' ∷ [];
  total_fee_bps = whole (pos fee);
  expected_slippage_bps = whole (pos 40);
  reliability_bps = whole (pos 9000);
  hop_count = whole (pos hops);
  hops = [];
  expires_at_ledger = none;
}

abbrev pub direct_quote : RouteQuote
direct_quote = sample_quote (1 ∷ []) 30 1

abbrev pub long_quote : RouteQuote
long_quote = sample_quote (2 ∷ []) 30 2

abbrev pub quotes : List RouteQuote
quotes = long_quote ∷ direct_quote ∷ []

abbrev pub best : ScoredRoute
best = scored direct_quote default_routing_policy

abbrev pub second : ScoredRoute
second = scored long_quote default_routing_policy

pub rank-quotes : rank_routes quotes default_routing_policy ≡ ok (best ∷ second ∷ [])
unfolding rank_routes validate_policy filter_routes score_routes score_route validate_route
    is_route_eligible sort compare_scored_routes binary_compare scored weighted bigint
rank-quotes = refl

pub rank-nothing : rank_routes [] default_routing_policy ≡ ok []
unfolding rank_routes validate_policy filter_routes score_routes sort
rank-nothing = refl

pub score-direct_quote : score_route direct_quote default_routing_policy ≡ ok best
unfolding score_route validate_policy validate_route is_route_eligible scored weighted
score-direct_quote = refl
