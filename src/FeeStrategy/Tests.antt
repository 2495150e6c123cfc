-- ===== src/FeeStrategy/Tests.antt =====
-- The fee strategies of packages/core/src/fleet/feeStrategy.ts at inputs.
use stellar_agentic.Base.{ℕ, ◌+◌, ◌≤◌, ◌≡◌, refl, true, Option, some, none, List, [], ◌∷◌, ok}
use stellar_agentic.Base.Int.{ℤ, pos}
use stellar_agentic.Base.Numbers.{Bytes, whole}
use stellar_agentic.FeeStrategy.{
  FeeStats, FeeContext, text, number, scaled, p90, RecentFeeStrategyOptions, RecentFeeStrategy,
  multiply_ceil, positive_fee, parsed, positive, read_maximum, create, sampled, recent_fee, bid_of,
  clamped,
}
use stellar_agentic.FeeStrategy.Bounds.{AtMostMaximum, recent_fee_bounded}
use stellar_agentic.FeeStrategy.Cache.{
  new_cache, asks, loads, load_fails, clears, CacheEvent, cache_run, single_flight,
}

-- A text of one byte is the integer of that byte.
abbrev parse_byte : Bytes → Option ℤ
parse_byte [] = none
parse_byte (c ∷ cs) = some (pos c)

abbrev print_byte : ℕ → Bytes
print_byte n = n ∷ []

abbrev base_fee : Bytes
base_fee = 100 ∷ []

abbrev options : RecentFeeStrategyOptions
options = record {
  percentile = p90;
  multiplier = scaled 1100000;
  minimum_fee = none;
  maximum_fee = some (number (whole (pos 500)));
  fallback_fee = some (text (200 ∷ []));
  cache_ms = pos 5000;
}

abbrev strategy : RecentFeeStrategy
strategy = record {
  percentile = p90;
  multiplier = scaled 1100000;
  minimum = 100;
  maximum = some 500;
  fallback = 200;
  cache_ms = 5000;
}

options-strategy : create parse_byte print_byte base_fee options ≡ ok strategy
unfolding create positive_fee parsed positive read_maximum
options-strategy = refl

abbrev context : FeeContext
context = record { minimum_fee = none; soroban = true }

context_minimum : positive_fee parse_byte print_byte base_fee (text base_fee) ≡ ok 100
unfolding positive_fee parsed positive
context_minimum = refl

abbrev congested : FeeStats
congested = record { inclusion_fee = λ p. 150 ∷ []; soroban_inclusion_fee = λ p. 301 ∷ [] }

congested_fee : recent_fee parse_byte print_byte base_fee strategy context (some congested) ≡ ok 332
unfolding recent_fee sampled bid_of clamped positive_fee parsed positive multiply_ceil
congested_fee = refl

recent_fee_bounded_example :
    (fee : ℕ) × (recent_fee parse_byte print_byte base_fee strategy context (some congested)
      ≡ ok fee)
    × (100 ≤ fee)
    × (100 ≤ fee)
    × AtMostMaximum (some 500) 100 fee
recent_fee_bounded_example =
    recent_fee_bounded parse_byte print_byte base_fee options strategy 1100000 context
      (some congested) 100 options-strategy refl context_minimum

nothing_sampled : sampled parse_byte print_byte base_fee strategy context none ≡ none
unfolding sampled
nothing_sampled = refl

ceiled : multiply_ceil 301 (scaled 1100000) ≡ ok 332
unfolding multiply_ceil
ceiled = refl

-- Two payments ask during one load, which fails; a third asks afterwards.
abbrev asked : List CacheEvent
asked = asks 1 ∷ asks 2 ∷ load_fails ∷ asks 3 ∷ clears ∷ asks 4 ∷ loads congested 5 ∷ []

single_flight_example :
    (cache_run (new_cache 5000) asked).begun ≤ (cache_run (new_cache 5000) asked).ended + 1
single_flight_example = single_flight 5000 asked
