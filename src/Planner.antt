-- ===== src/Planner.antt =====
-- packages/core/src/routing/planner.ts, `class RoutePlanner`. What `discoverRoutes` answers is an
-- argument. The ledger of a request is a natural number; an expiry is any number. The minimum is the integer whose decimal text the source keeps. The text and
-- the cause of an error are left out.
pub mod Quotes
mod Tests
use stellar_agentic.Base.{
  ℕ, ◌+◌, ◌-◌, ◌*◌, ◌/◌, Bool, true, false, not, ◌&&◌, ◌||◌, Option, none, some, List, [], ◌∷◌, ltb,
  if◌then◌else◌, first, Result, ok, err, ◌>>=◌, ◌>>◌, throw_if,
}
use stellar_agentic.Base.Int.{ℤ, pos, negsuc, leb_ℤ}
use stellar_agentic.Base.Numbers.{
  Real, finite, infinite, not_a_number, integer, below, Number, whole, nan, is_integer, ltb_number,
  Bytes, bigint,
}
use stellar_agentic.Base.Texts.{same_bytes}
use stellar_agentic.Routing.{
  RouteQuote, RoutingPolicy, ScoredRoute, RoutingError, rank_routes, score_route,
}

pub data PlannerError : Type 0 where
  no_route invalid_argument invalid_route_override quote_expired : PlannerError
  routing_failed : RoutingError → PlannerError

-- What the constructor keeps, besides the options of the discovery.
pub record RoutePlanner : Type 0 where
  pub policy : RoutingPolicy
  pub quote_validity_ledgers : ℕ
  pub default_slippage_tolerance_bps : ℕ

pub record RouteRequest : Type 0 where
  pub source_asset : Bytes
  pub destination_asset : Bytes
  pub source_amount : Bytes
  pub current_ledger : Option ℕ
  pub slippage_tolerance_bps : Option Number

pub record PaymentQuote : Type 0 where
  pub route : ScoredRoute
  pub minimum_destination_amount : ℕ
  pub quoted_at_ledger : ℕ
  pub valid_until_ledger : Real

pub positive_integer : Number → Result PlannerError ℕ
positive_integer (whole (pos n)) = do throw_if (ltb n 1) invalid_argument; ok n
positive_integer (whole (negsuc n)) = err invalid_argument
positive_integer nan = err invalid_argument

pub basis_points : Number → Result PlannerError ℕ
basis_points (whole (pos n)) = do throw_if (ltb 500 n) invalid_argument; ok n
basis_points (whole (negsuc n)) = err invalid_argument
basis_points nan = err invalid_argument

-- An error of the router leaves as it is, or becomes another one.
abbrev pub mapped {ℓ} :
    {A : Type ℓ} → (RoutingError → PlannerError) → Result RoutingError A → Result PlannerError A
mapped f (ok a) = ok a
mapped f (err e) = err (f e)

-- The constructor, at the options `policy`, `quoteValidityLedgers` and
-- `defaultSlippageToleranceBps` with their defaults put in.
pub create : RoutingPolicy → Number → Number → Result PlannerError RoutePlanner
unfolding positive_integer basis_points
create policy validity tolerance = do
  ledgers ← positive_integer validity
  bps ← basis_points tolerance
  ranked ← mapped routing_failed (rank_routes [] policy)
  ok (record {
    policy = policy;
    quote_validity_ledgers = ledgers;
    default_slippage_tolerance_bps = bps;
  })

-- `Math.min(x, n)`
abbrev pub min_number : Real → ℤ → Real
min_number (finite z b) n = if below (finite z b) n then finite z b else integer n
min_number (infinite b) n = if below (infinite b) n then infinite b else integer n
min_number not_a_number n = not_a_number

abbrev pub or_ledger : Option Real → ℕ → Real
or_ledger none n = integer (pos n)
or_ledger (some e) n = e

pub finish_quote : RoutePlanner → ScoredRoute → ℕ → ℕ → Result PlannerError PaymentQuote
finish_quote p s quoted_at tolerance = do
  throw_if (ltb 4294967295 default_expiry) invalid_argument
  ok (record {
    route = record s { route = record s.route { expires_at_ledger = some valid_until } };
    minimum_destination_amount = bigint s.expected_destination_amount * (10000 - tolerance) / 10000;
    quoted_at_ledger = quoted_at;
    valid_until_ledger = valid_until;
  })
  where
    default_expiry : ℕ
    default_expiry = quoted_at + p.quote_validity_ledgers

    valid_until : Real
    valid_until = min_number (or_ledger s.expires_at_ledger default_expiry) (pos default_expiry)

abbrev pub ledger_of : RouteRequest → ℕ
ledger_of r = elim r.current_ledger [ none ↦ 0 | some n ↦ n ]

abbrev pub tolerance_of : RoutePlanner → RouteRequest → Number
tolerance_of p r = elim r.slippage_tolerance_bps [
  | none ↦ whole (pos p.default_slippage_tolerance_bps)
  | some t ↦ t
]

or_no_route : Option ScoredRoute → Result PlannerError ScoredRoute
or_no_route none = err no_route
or_no_route (some s) = ok s

-- `quote`, at the routes that the discovery found.
pub quote : RoutePlanner → RouteRequest → List RouteQuote → Result PlannerError PaymentQuote
unfolding basis_points or_no_route finish_quote
quote p r discovered = do
  tolerance ← basis_points (tolerance_of p r)
  ranked ← mapped routing_failed (rank_routes discovered p.policy)
  best ← or_no_route (first ranked)
  finish_quote p best (ledger_of r) tolerance

abbrev pub matches : RouteRequest → RouteQuote → Bool
matches r o =
    same_bytes o.source_asset r.source_asset
    && same_bytes o.destination_asset r.destination_asset
    && same_bytes o.source_amount r.source_amount

abbrev pub is_expired : Option Real → ℕ → Bool
is_expired none now = false
is_expired (some e) now = below e (pos now)

pub quote_override : RoutePlanner → RouteRequest → RouteQuote → Result PlannerError PaymentQuote
unfolding basis_points finish_quote
quote_override p r o = do
  throw_if (not (matches r o)) invalid_route_override
  throw_if (is_expired o.expires_at_ledger (ledger_of r)) quote_expired
  tolerance ← basis_points (tolerance_of p r)
  scored_route ← mapped (λ e. invalid_route_override) (score_route o p.policy)
  finish_quote p scored_route (ledger_of r) tolerance

-- `now > x`
abbrev pub is_before : Real → Number → Bool
is_before x (whole z) = below x z
is_before x nan = false

pub assert_fresh : PaymentQuote → Number → Result PlannerError (Unit {0})
assert_fresh q now = do
  throw_if (not (is_integer now) || ltb_number now (whole (pos 0))) invalid_argument
  throw_if (is_before q.valid_until_ledger now) quote_expired
