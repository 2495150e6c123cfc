-- ===== src/Discovery.antt =====
-- packages/core/src/routing/discovery.ts: `normalizeRoute` with the checks of its hops. `is_blank`,
-- whether `trim()` leaves nothing of a text, `print`, the `toString` of a bigint, and `route_id`, the
-- function `canonicalRouteId` over the language's `encodeURIComponent`, are arguments. The text of an
-- error is left out.
pub mod Chains
mod Tests
use stellar_agentic.Base.{
  ℕ, ◌+◌, ◌-◌, ◌*◌, ◌/◌, min, max, Bool, true, false, not, ◌&&◌, ◌||◌, Option, none, some, List, [],
  ◌∷◌, ◌++◌, length, ltb, ◌==◌, if◌then◌else◌, drop, Result, ok, err, ◌>>=◌, ◌>>◌, throw_if,
}
use stellar_agentic.Base.Int.{ℤ, pos, negsuc}
use stellar_agentic.Base.Numbers.{Number, whole, nan, Bytes, is_positive_canonical, bigint}
use stellar_agentic.Base.Texts.{same_bytes}
use stellar_agentic.Routing.{RouteVenue, direct, amm, path_payment, RouteHop, RouteQuote}

pub data RouteUnavailable : Type 0 where
  invalid_quote : RouteUnavailable

pub record DiscoveryRequest : Type 0 where
  pub source_asset : Bytes
  pub destination_asset : Bytes
  pub source_amount : Bytes
  pub allowed_intermediates : Option (List Bytes)

-- `/^(0|[1-9][0-9]*)$/`
abbrev pub is_canonical : Bytes → Bool
is_canonical s = same_bytes s (b'0' ∷ []) || is_positive_canonical s

pub parse_non_negative_integer : Bytes → Result RouteUnavailable ℕ
parse_non_negative_integer s = do throw_if (not (is_canonical s)) invalid_quote; ok (bigint s)

pub parse_positive_integer : Bytes → Result RouteUnavailable ℕ
unfolding parse_non_negative_integer
parse_positive_integer s = do
  parsed ← parse_non_negative_integer s
  throw_if (parsed == 0) invalid_quote
  ok parsed

pub assert_bps : Number → Result RouteUnavailable ℕ
assert_bps (whole (pos n)) = do throw_if (ltb 10000 n) invalid_quote; ok n
assert_bps (whole (negsuc n)) = err invalid_quote
assert_bps nan = err invalid_quote

abbrev is_direct : RouteVenue → Bool
is_direct direct = true
is_direct amm = false
is_direct path_payment = false

abbrev pub includes : Bytes → List Bytes → Bool
includes a [] = false
includes a (b ∷ bs) = same_bytes b a || includes a bs

abbrev pub path_of : RouteHop → List Bytes
path_of h = elim h.path [ none ↦ [] | some p ↦ p ]

parse_optional : Option Bytes → Result RouteUnavailable ℕ
unfolding parse_non_negative_integer
parse_optional none = ok 0
parse_optional (some b) = parse_non_negative_integer b

-- The three numbers that `validateHop` has checked.
pub record HopBps : Type 0 where
  pub fee : ℕ
  pub slippage : ℕ
  pub reliability : ℕ

-- The variables of the loop.
pub record Walk : Type 0 where
  pub assets : List Bytes
  pub expected_source : ℕ
  pub total_fee_bps : ℕ
  pub total_slippage_bps : ℕ
  pub reliability_bps : ℕ
  pub previous_asset : Bytes

-- The loop over the assets that a hop traverses.
pub visit : Bool → List Bytes → List Bytes → Result RouteUnavailable (List Bytes)
visit identity_direct [] assets = ok assets
visit identity_direct (a ∷ as') assets = do
  throw_if (includes a assets && not identity_direct) invalid_quote
  visit identity_direct as' (if identity_direct then assets else assets ++ a ∷ [])

economic_depth : List RouteHop → ℕ
economic_depth [] = 0
economic_depth (h ∷ hs) = 1 + length (path_of h) + economic_depth hs

all_allowed : List Bytes → List Bytes → Bool
all_allowed allowed [] = true
all_allowed allowed (a ∷ as') = includes a allowed && all_allowed allowed as'

-- `slice(0, -1)`
but_last : List Bytes → List Bytes
but_last [] = []
but_last (a ∷ []) = []
but_last (a ∷ b ∷ bs) = a ∷ but_last (b ∷ bs)

is_disallowed : Option (List Bytes) → List Bytes → Bool
unfolding all_allowed but_last
is_disallowed none assets = false
is_disallowed (some allowed) assets = not (all_allowed allowed (but_last (drop 1 assets)))

module _ (is_blank : Bytes → Bool) (print : ℕ → Bytes) (route_id : List RouteHop → Bytes) where
  pub validate_hop : RouteHop → Result RouteUnavailable HopBps
  unfolding parse_non_negative_integer assert_bps parse_optional
  validate_hop h = do
    throw_if (is_blank h.venue_id || is_blank h.source_asset || is_blank h.destination_asset)
        invalid_quote
    throw_if (same_bytes h.source_asset h.destination_asset && not (is_direct h.venue))
        invalid_quote
    fee_amount ← parse_non_negative_integer h.fee_amount
    fee ← assert_bps h.fee_bps
    slippage ← assert_bps h.slippage_bps
    reliability ← assert_bps h.reliability_bps
    min_output ← parse_optional h.min_output
    ok (record { fee = fee; slippage = slippage; reliability = reliability })

  -- One round of the loop over the hops. `single` says that the route has one hop.
  pub walk_hop : Bool → Walk → RouteHop → Result RouteUnavailable Walk
  unfolding validate_hop parse_positive_integer visit
  walk_hop single w h = do
    bps ← validate_hop h
    throw_if (not (same_bytes h.source_asset w.previous_asset)) invalid_quote
    source ← parse_positive_integer h.source_amount
    throw_if (not (source == w.expected_source)) invalid_quote
    assets ←
        visit (single && is_direct h.venue && same_bytes h.source_asset h.destination_asset)
          (path_of h ++ h.destination_asset ∷ []) w.assets
    output ← parse_positive_integer h.expected_output
    ok (record {
      assets = assets;
      expected_source = output;
      total_fee_bps = min 10000 (w.total_fee_bps + bps.fee);
      total_slippage_bps = min 10000 (w.total_slippage_bps + bps.slippage);
      reliability_bps = min w.reliability_bps bps.reliability;
      previous_asset = h.destination_asset;
    })

  pub walk : Bool → List RouteHop → Walk → Result RouteUnavailable Walk
  unfolding walk_hop
  walk single [] w = ok w
  walk single (h ∷ hs) w = do next ← walk_hop single w h; walk single hs next

  pub normalize_route : DiscoveryRequest → List RouteHop → ℕ → Result RouteUnavailable RouteQuote
  unfolding walk economic_depth is_disallowed parse_positive_integer
  normalize_route r hops max_hops = do
    throw_if (length hops == 0) invalid_quote
    throw_if (ltb max_hops (economic_depth hops)) invalid_quote
    source ← parse_positive_integer r.source_amount
    w ← walk (length hops == 1) hops (record {
      assets = r.source_asset ∷ [];
      expected_source = source;
      total_fee_bps = 0;
      total_slippage_bps = 0;
      reliability_bps = 10000;
      previous_asset = r.source_asset;
    })
    throw_if (not (same_bytes w.previous_asset r.destination_asset)) invalid_quote
    throw_if (is_disallowed r.allowed_intermediates w.assets) invalid_quote
    ok (record {
      id = route_id hops;
      source_asset = r.source_asset;
      destination_asset = r.destination_asset;
      source_amount = r.source_amount;
      expected_destination_amount = print w.expected_source;
      total_fee_bps = whole (pos w.total_fee_bps);
      expected_slippage_bps = whole (pos w.total_slippage_bps);
      reliability_bps = whole (pos w.reliability_bps);
      hop_count = whole (pos (economic_depth hops));
      hops = hops;
      expires_at_ledger = none;
    })
