-- ===== src/Planner/Tests.antt =====
-- Quotes of packages/core/src/routing/planner.ts, and its theorems at inputs.
use stellar_agentic.Base.{◌≡◌, refl, true, false, some, none, [], ◌∷◌, ok}
use stellar_agentic.Base.Int.{pos}
use stellar_agentic.Routing.Validation.{RouteOk}
use stellar_agentic.Base.Numbers.{integer, whole, bigint}
use stellar_agentic.Routing.{
  ScoredRoute, default_routing_policy, scored, select_route, is_route_eligible,
}
use stellar_agentic.Routing.Samples.{
  direct_quote, quotes, best, rank-quotes, rank-nothing, score-direct_quote,
}
use stellar_agentic.Planner.{
  RoutePlanner, RouteRequest, PaymentQuote, create, positive_integer, basis_points, or_no_route,
  finish_quote, quote, quote_override, assert_fresh, is_expired,
}
use stellar_agentic.Planner.Quotes.{IsQuoteOf, quote-IsQuoteOf, quote_override_safe}

abbrev planner : RoutePlanner
planner = record {
  policy = default_routing_policy;
  quote_validity_ledgers = 20;
  default_slippage_tolerance_bps = 100;
}

create-planner : create default_routing_policy (whole (pos 20)) (whole (pos 100)) ≡ ok planner
unfolding create positive_integer basis_points
create-planner = rw rank-nothing refl

abbrev request : RouteRequest
request = record {
  source_asset = b'X' ∷ [];
  destination_asset = b'U' ∷ [];
  source_amount = b'1' ∷ b'0' ∷ [];
  current_ledger = some 1000;
  slippage_tolerance_bps = none;
}

-- 99 hundredths of 9, rounded down.
abbrev payment_quote : PaymentQuote
payment_quote = record {
  route = record best {
    route = record direct_quote { expires_at_ledger = some (integer (pos 1020)) };
  };
  minimum_destination_amount = 8;
  quoted_at_ledger = 1000;
  valid_until_ledger = integer (pos 1020);
}

quote-quotes : quote planner request quotes ≡ ok payment_quote
unfolding quote basis_points or_no_route finish_quote scored bigint
quote-quotes = rw rank-quotes refl

override-direct_quote : quote_override planner request direct_quote ≡ ok payment_quote
unfolding quote_override basis_points finish_quote scored bigint
override-direct_quote = rw score-direct_quote refl

quote-IsQuoteOf_example :
    (s : ScoredRoute) × (select_route quotes default_routing_policy ≡ ok (some s))
    × IsQuoteOf planner request s payment_quote
quote-IsQuoteOf_example = quote-IsQuoteOf planner request quotes payment_quote quote-quotes

quote_override_safe_example :
    (direct_quote.source_asset ≡ request.source_asset)
    × (direct_quote.destination_asset ≡ request.destination_asset)
    × (direct_quote.source_amount ≡ request.source_amount)
    × RouteOk direct_quote
    × (is_expired direct_quote.expires_at_ledger 1000 ≡ false)
    × (is_route_eligible direct_quote default_routing_policy ≡ true)
    × IsQuoteOf planner request (scored direct_quote default_routing_policy) payment_quote
quote_override_safe_example =
    quote_override_safe planner request direct_quote payment_quote override-direct_quote

still_fresh : assert_fresh payment_quote (whole (pos 1010)) ≡ ok tt
unfolding assert_fresh
still_fresh = refl
