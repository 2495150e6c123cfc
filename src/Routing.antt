-- ===== src/Routing.antt =====
-- packages/core/src/math/routing.ts over the types of packages/core/src/routing/types.ts:
-- admission, scoring, ranking and selection of routes. A number that the validators let through is
-- a natural, and is read as such behind them; a score is the integer whose decimal text the source
-- keeps.
pub mod Lexicographic
pub mod Order
pub mod Ranking
pub mod Selection
pub mod Validation
pub mod Scores
pub mod Samples
mod Tests
use stellar_agentic.Base.{
  ℕ, ◌+◌, ◌-◌, ◌*◌, ◌/◌, Bool, true, false, not, ◌&&◌, ◌||◌, Option, none, some, List, [], ◌∷◌,
  Ordering, ltb, ◌==◌, if◌then◌else◌, Result, ok, ◌>>=◌, ◌>>◌, throw_if, first,
}
use stellar_agentic.Base.Int.{pos}
use stellar_agentic.Base.Numbers.{
  Real, Number, whole, is_integer, is_safe_integer, leb_number, ltb_number, natural, Bytes,
  is_positive_canonical, bigint,
}
use stellar_agentic.Base.Sorting.{sort}
use stellar_agentic.Base.Texts.{same_bytes}

pub data RouteVenue : Type 0 where
  direct amm path_payment : RouteVenue

pub record RouteHop : Type 0 where
  pub venue : RouteVenue
  pub venue_id : Bytes
  pub source_asset : Bytes
  pub destination_asset : Bytes
  pub source_amount : Bytes
  pub expected_output : Bytes
  pub fee_amount : Bytes
  pub fee_bps : Number
  pub slippage_bps : Number
  pub reliability_bps : Number
  pub path : Option (List Bytes)
  pub min_output : Option Bytes

pub record RouteQuote : Type 0 where
  pub id : Bytes
  pub source_asset : Bytes
  pub destination_asset : Bytes
  pub source_amount : Bytes
  pub expected_destination_amount : Bytes
  pub total_fee_bps : Number
  pub expected_slippage_bps : Number
  pub reliability_bps : Number
  pub hop_count : Number
  pub hops : List RouteHop
  pub expires_at_ledger : Option Real

pub record RoutingPolicy : Type 0 where
  pub cost_weight : Number
  pub slippage_weight : Number
  pub reliability_weight : Number
  pub hop_penalty : Number
  pub max_slippage_bps : Number
  pub min_reliability_bps : Number

pub record RouteScoreBreakdown : Type 0 where
  pub weighted_cost : ℕ
  pub weighted_slippage : ℕ
  pub weighted_reliability : ℕ
  pub hop_penalty : ℕ

-- `interface ScoredRoute extends RouteQuote`
pub record ScoredRoute : Type 0 where
  pub route : RouteQuote
  pub open route use *
  pub score : ℕ
  pub breakdown : RouteScoreBreakdown

-- What the module throws, all of them `RangeError`s.
pub data RoutingError : Type 0 where
  not_a_safe_integer weights_sum bounds_too_large : RoutingError
  id_required amounts_not_canonical bps_out_of_range hop_count_not_positive : RoutingError
  outside_policy : RoutingError

abbrev pub routing_weight_scale : ℕ
routing_weight_scale = 10000

abbrev pub default_routing_policy : RoutingPolicy
default_routing_policy = record {
  cost_weight = whole (pos 5000);
  slippage_weight = whole (pos 3000);
  reliability_weight = whole (pos 2000);
  hop_penalty = whole (pos 5);
  max_slippage_bps = whole (pos 1000);
  min_reliability_bps = whole (pos 5000);
}

-- The loop over `Object.entries(policy)`.
all_safe : List Number → Result RoutingError (Unit {0})
all_safe [] = ok tt
all_safe (v ∷ vs) = do
  throw_if (not (is_safe_integer v) || ltb_number v (whole (pos 0))) not_a_safe_integer
  all_safe vs

pub validate_policy : RoutingPolicy → Result RoutingError (Unit {0})
unfolding all_safe
validate_policy p = do
  all_safe (
      cost_weight ∷ slippage_weight ∷ reliability_weight ∷ hop_penalty ∷ max_slippage_bps
      ∷ min_reliability_bps ∷ [])
  let weight_sum = natural cost_weight + natural slippage_weight + natural reliability_weight
  throw_if (not (weight_sum == routing_weight_scale)) weights_sum
  throw_if (exceeds max_slippage_bps || exceeds min_reliability_bps) bounds_too_large
  where
    open p use {
      cost_weight, slippage_weight, reliability_weight, hop_penalty, max_slippage_bps,
      min_reliability_bps,
    }

    exceeds : Number → Bool
    exceeds v = ltb_number (whole (pos routing_weight_scale)) v

abbrev bps_in_range : Number → Bool
bps_in_range v =
    is_integer v
    && not (ltb_number v (whole (pos 0)))
    && not (ltb_number (whole (pos routing_weight_scale)) v)

all_bps : List Number → Result RoutingError (Unit {0})
all_bps [] = ok tt
all_bps (v ∷ vs) = do throw_if (not (bps_in_range v)) bps_out_of_range; all_bps vs

abbrev is_empty : Bytes → Bool
is_empty [] = true
is_empty (c ∷ cs) = false

pub validate_route : RouteQuote → Result RoutingError (Unit {0})
unfolding all_bps
validate_route r = do
  throw_if (is_empty r.id) id_required
  throw_if
      (not (is_positive_canonical r.source_amount)
        || not (is_positive_canonical r.expected_destination_amount))
      amounts_not_canonical
  all_bps (r.total_fee_bps ∷ r.expected_slippage_bps ∷ r.reliability_bps ∷ [])
  throw_if (not (is_integer r.hop_count) || ltb_number r.hop_count (whole (pos 1)))
      hop_count_not_positive

-- Structural validity is left to `validate_route`.
pub is_route_eligible : RouteQuote → RoutingPolicy → Bool
is_route_eligible r p =
    leb_number r.expected_slippage_bps p.max_slippage_bps
    && leb_number p.min_reliability_bps r.reliability_bps

pub weighted : ℕ → ℕ → ℕ
weighted value weight = (value * weight) / routing_weight_scale

-- The object that `scoreRoute` returns.
unfoldable pub scored : RouteQuote → RoutingPolicy → ScoredRoute
scored r p = record {
  route = r;
  score = cost + slippage + reliability + penalty;
  breakdown = record {
    weighted_cost = cost;
    weighted_slippage = slippage;
    weighted_reliability = reliability;
    hop_penalty = penalty;
  };
}
  where
    cost : ℕ
    cost = weighted (natural r.total_fee_bps) (natural p.cost_weight)

    slippage : ℕ
    slippage = weighted (natural r.expected_slippage_bps) (natural p.slippage_weight)

    reliability : ℕ
    reliability =
        weighted (routing_weight_scale - natural r.reliability_bps) (natural p.reliability_weight)

    penalty : ℕ
    penalty = (natural r.hop_count - 1) * natural p.hop_penalty

unfoldable pub score_route : RouteQuote → RoutingPolicy → Result RoutingError ScoredRoute
score_route r p = do
  validate_policy p
  validate_route r
  throw_if (not (is_route_eligible r p)) outside_policy
  ok (scored r p)

-- The loop of `binaryCompare` over two encoded texts, and its comparison of lengths.
compare_bytes : Bytes → Bytes → Ordering
compare_bytes [] [] = Ordering.gt
compare_bytes [] (y ∷ ys) = Ordering.lt
compare_bytes (x ∷ xs) [] = Ordering.gt
compare_bytes (x ∷ xs) (y ∷ ys) =
    if x == y then compare_bytes xs ys else if ltb x y then Ordering.lt else Ordering.gt

pub binary_compare : Bytes → Bytes → Ordering
unfolding compare_bytes
binary_compare a b = if same_bytes a b then Ordering.eq else compare_bytes a b

-- The sign of the number that the comparator returns.
pub compare_scored_routes : ScoredRoute → ScoredRoute → Ordering
compare_scored_routes a b =
    if not (a.score == b.score)
    then if ltb a.score b.score then Ordering.lt else Ordering.gt
    else if not (out_a == out_b)
    then if ltb out_b out_a then Ordering.lt else Ordering.gt
    else if not (slip_a == slip_b)
    then difference slip_a slip_b
    else if not (hops_a == hops_b)
    then difference hops_a hops_b
    else binary_compare a.id b.id
  where
    out_a : ℕ
    out_a = bigint a.expected_destination_amount

    out_b : ℕ
    out_b = bigint b.expected_destination_amount

    slip_a : ℕ
    slip_a = natural a.expected_slippage_bps

    slip_b : ℕ
    slip_b = natural b.expected_slippage_bps

    hops_a : ℕ
    hops_a = natural a.hop_count

    hops_b : ℕ
    hops_b = natural b.hop_count

    difference : ℕ → ℕ → Ordering
    difference x y = if ltb x y then Ordering.lt else if x == y then Ordering.eq else Ordering.gt

-- A comparator's result is not positive.
abbrev pub not_positive : Ordering → Bool
not_positive Ordering.gt = false
not_positive _ = true

abbrev pub at_most : ScoredRoute → ScoredRoute → Bool
at_most a b = not_positive (compare_scored_routes a b)

-- `routes.filter(…)`, whose callback throws on a malformed route.
pub filter_routes : RoutingPolicy → List RouteQuote → Result RoutingError (List RouteQuote)
filter_routes p [] = ok []
filter_routes p (r ∷ rs) = do
  validate_route r
  rest ← filter_routes p rs
  ok (if is_route_eligible r p then r ∷ rest else rest)

-- `.map(…)`, whose callback may throw.
pub score_routes : RoutingPolicy → List RouteQuote → Result RoutingError (List ScoredRoute)
score_routes p [] = ok []
score_routes p (r ∷ rs) = do s ← score_route r p; rest ← score_routes p rs; ok (s ∷ rest)

pub rank_routes : List RouteQuote → RoutingPolicy → Result RoutingError (List ScoredRoute)
rank_routes routes p = do
  validate_policy p
  eligible ← filter_routes p routes
  all_scored ← score_routes p eligible
  ok (sort at_most all_scored)

unfoldable pub select_route :
    List RouteQuote → RoutingPolicy → Result RoutingError (Option ScoredRoute)
unfolding rank_routes
select_route routes p = do ranked ← rank_routes routes p; ok (first ranked)
