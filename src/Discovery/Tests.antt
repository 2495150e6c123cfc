-- ===== src/Discovery/Tests.antt =====
-- A route of packages/core/src/routing/discovery.ts, and its theorem at an input.
use stellar_agentic.Base.{ℕ, ◌≤◌, ◌≡◌, refl, Bool, true, false, none, List, [], ◌∷◌, ok}
use stellar_agentic.Base.Int.{pos}
use stellar_agentic.Base.Numbers.{whole, Bytes, bigint}
use stellar_agentic.Routing.{RouteHop, RouteQuote, amm}
use stellar_agentic.Discovery.{
  DiscoveryRequest, normalize_route, walk, walk_hop, validate_hop, visit, parse_positive_integer,
  parse_non_negative_integer, parse_optional, assert_bps, economic_depth, is_disallowed,
}
use stellar_agentic.Discovery.Chains.{IsChain, normalize_route-IsChain}

abbrev is_empty : Bytes → Bool
is_empty [] = true
is_empty (c ∷ cs) = false

-- The decimal text of a digit.
abbrev digit : ℕ → Bytes
digit n = n ∷ []

abbrev constant_id : List RouteHop → Bytes
constant_id hs = b'r' ∷ []

abbrev hop : Bytes → Bytes → Bytes → Bytes → RouteHop
hop source target amount output = record {
  venue = amm;
  venue_id = b'v' ∷ [];
  source_asset = source;
  destination_asset = target;
  source_amount = amount;
  expected_output = output;
  fee_amount = b'0' ∷ [];
  fee_bps = whole (pos 30);
  slippage_bps = whole (pos 10);
  reliability_bps = whole (pos 9000);
  path = none;
  min_output = none;
}

abbrev two_hops : List RouteHop
two_hops =
    hop (b'X' ∷ []) (b'Y' ∷ []) (b'9' ∷ []) (b'8' ∷ [])
    ∷ hop (b'Y' ∷ []) (b'U' ∷ []) (b'8' ∷ []) (b'7' ∷ [])
    ∷ []

abbrev discovery_request : DiscoveryRequest
discovery_request = record {
  source_asset = b'X' ∷ [];
  destination_asset = b'U' ∷ [];
  source_amount = b'9' ∷ [];
  allowed_intermediates = none;
}

abbrev two_hop_quote : RouteQuote
two_hop_quote = record {
  id = b'r' ∷ [];
  source_asset = b'X' ∷ [];
  destination_asset = b'U' ∷ [];
  source_amount = b'9' ∷ [];
  expected_destination_amount = 7 ∷ [];
  total_fee_bps = whole (pos 60);
  expected_slippage_bps = whole (pos 20);
  reliability_bps = whole (pos 9000);
  hop_count = whole (pos 2);
  hops = two_hops;
  expires_at_ledger = none;
}

normalize-two_hops :
    normalize_route is_empty digit constant_id discovery_request two_hops 3 ≡ ok two_hop_quote
unfolding normalize_route walk walk_hop validate_hop visit parse_positive_integer
    parse_non_negative_integer parse_optional assert_bps economic_depth is_disallowed bigint
normalize-two_hops = refl

normalize_route-IsChain_example :
    (output : ℕ) × IsChain (b'X' ∷ []) (bigint (b'9' ∷ [])) two_hops (b'U' ∷ []) output
    × ((7 ∷ []) ≡ digit output)
    × (1 ≤ 2)
    × (2 ≤ 3)
    × (60 ≤ 10000)
    × (20 ≤ 10000)
    × (9000 ≤ 10000)
normalize_route-IsChain_example =
    normalize_route-IsChain is_empty digit constant_id discovery_request two_hops 3 two_hop_quote
      normalize-two_hops
