-- ===== src/FeeStrategy.antt =====
-- packages/core/src/fleet/feeStrategy.ts. A fee is a natural number of stroops once it is read.
-- `parse` and `print` are the language's `BigInt` of a text, which throws where there is none, and
-- `toString` of a bigint; `base_fee` is the constant of the Stellar SDK. A multiplier is a
-- floating-point number, known by `Math.ceil(multiplier * 1000000)`. The text of an error is left
-- out. Times and spans of milliseconds are whole numbers.
pub mod Bounds
pub mod Cache
mod Tests
use stellar_agentic.Base.{
  ℕ, zero, suc, ◌+◌, ◌-◌, ◌*◌, ◌/◌, Bool, true, false, not, ◌&&◌, Option, none, some, ltb, leb,
  if◌then◌else◌, Result, ok, err, ◌>>=◌, ◌>>◌, throw_if,
}
use stellar_agentic.Base.Int.{ℤ, pos, negsuc}
use stellar_agentic.Base.Numbers.{Bytes, Number, whole, nan, is_safe_integer}

pub data FeePercentile : Type 0 where
  lowest mode p10 p20 p30 p40 p50 p60 p70 p80 p90 p95 p99 highest : FeePercentile

-- The fourteen texts of a `FeeDistribution`, by the name of the field.
abbrev pub FeeDistribution : Type 0
FeeDistribution = FeePercentile → Bytes

pub record FeeStats : Type 0 where
  pub inclusion_fee : FeeDistribution
  pub soroban_inclusion_fee : FeeDistribution

-- `string | number | bigint`
pub data FeeValue : Type 0 where
  text : Bytes → FeeValue
  number : Number → FeeValue
  bigint : ℤ → FeeValue

-- The fields of a context that are read. `soroban` is false where the context has `false`.
pub record FeeContext : Type 0 where
  pub minimum_fee : Option Bytes
  pub soroban : Bool

pub data FeeError : Type 0 where
  bad_fee bad_multiplier bad_bounds bad_cache : FeeError

-- `infinite` is a finite multiplier whose product with the scale is not.
pub data Multiplier : Type 0 where
  invalid infinite : Multiplier
  scaled : ℕ → Multiplier

abbrev pub scale : ℕ
scale = 1000000

pub multiply_ceil : ℕ → Multiplier → Result FeeError ℕ
multiply_ceil value invalid = err bad_multiplier
multiply_ceil value infinite = err bad_multiplier
multiply_ceil value (scaled n) = ok ((value * n + scale - 1) / scale)

abbrev pub is_invalid : Multiplier → Bool
is_invalid invalid = true
is_invalid _ = false

pub record RecentFeeStrategyOptions : Type 0 where
  pub percentile : FeePercentile
  pub multiplier : Multiplier
  pub minimum_fee : Option FeeValue
  pub maximum_fee : Option FeeValue
  pub fallback_fee : Option FeeValue
  pub cache_ms : ℤ

pub record RecentFeeStrategy : Type 0 where
  pub percentile : FeePercentile
  pub multiplier : Multiplier
  pub minimum : ℕ
  pub maximum : Option ℕ
  pub fallback : ℕ
  pub cache_ms : ℕ

abbrev pub is_negative : ℤ → Bool
is_negative (pos n) = false
is_negative (negsuc n) = true

abbrev pub natural_of : ℤ → ℕ
natural_of (pos n) = n
natural_of (negsuc n) = 0

abbrev pub or_else : Option Bytes → Bytes → Bytes
or_else none d = d
or_else (some b) d = b

abbrev or_value : Option FeeValue → FeeValue → FeeValue
or_value none d = d
or_value (some v) d = v

-- `maximumFee !== undefined && maximumFee < minimumFee`
abbrev below_minimum : Option ℕ → ℕ → Bool
below_minimum none m = false
below_minimum (some n) m = ltb n m

abbrev pub at_least : ℕ → ℕ → ℕ
at_least m fee = if ltb fee m then m else fee

abbrev pub at_most_maximum : Option ℕ → ℕ → ℕ
at_most_maximum none fee = fee
at_most_maximum (some m) fee = if ltb m fee then m else fee

module _ (parse : Bytes → Option ℤ) (print : ℕ → Bytes) (base_fee : Bytes) where
  parsed : FeeValue → Option ℤ
  parsed (text b) = parse b
  parsed (number (whole z)) = if is_safe_integer (whole z) then some z else none
  parsed (number nan) = none
  parsed (bigint z) = some z

  positive : Option ℤ → Result FeeError ℕ
  positive (some (pos (suc n))) = ok (suc n)
  positive (some (pos zero)) = err bad_fee
  positive (some (negsuc n)) = err bad_fee
  positive none = err bad_fee

  pub positive_fee : FeeValue → Result FeeError ℕ
  unfolding parsed positive
  positive_fee v = positive (parsed v)

  -- The fee that `clampToContext` prints.
  pub clamped : ℕ → FeeContext → Result FeeError ℕ
  unfolding positive_fee
  clamped value c = do
    protocol_minimum ← positive_fee (text (or_else c.minimum_fee base_fee))
    ok (at_least protocol_minimum value)

  pub clamp_to_context : ℕ → FeeContext → Result FeeError Bytes
  unfolding clamped
  clamp_to_context value c = do fee ← clamped value c; ok (print fee)

  -- `FixedFeeStrategy`, whose constructor reads the fee.
  pub fixed_get_fee : FeeValue → FeeContext → Result FeeError Bytes
  unfolding positive_fee clamp_to_context
  fixed_get_fee v c = do fee ← positive_fee v; clamp_to_context fee c

  -- `MultiplierFeeStrategy`, at what the base strategy answers.
  pub multiplier_get_fee : Multiplier → Result FeeError Bytes → FeeContext → Result FeeError Bytes
  unfolding positive_fee multiply_ceil clamp_to_context
  multiplier_get_fee m answer c = do
    throw_if (is_invalid m) bad_multiplier
    base ← answer
    fee ← positive_fee (text base)
    bid ← multiply_ceil fee m
    clamp_to_context bid c

  -- `CallbackFeeStrategy`, at what the callback answers.
  pub callback_get_fee : Result FeeError FeeValue → FeeContext → Result FeeError Bytes
  unfolding positive_fee clamp_to_context
  callback_get_fee answer c = do value ← answer; fee ← positive_fee value; clamp_to_context fee c

  read_maximum : Option FeeValue → Result FeeError (Option ℕ)
  unfolding positive_fee
  read_maximum none = ok none
  read_maximum (some v) = do m ← positive_fee v; ok (some m)

  -- The constructor of `RecentFeeStrategy`.
  pub create : RecentFeeStrategyOptions → Result FeeError RecentFeeStrategy
  unfolding positive_fee read_maximum
  create o = do
    throw_if (is_invalid o.multiplier) bad_multiplier
    minimum ← positive_fee (or_value o.minimum_fee (text base_fee))
    maximum ← read_maximum o.maximum_fee
    throw_if (below_minimum maximum minimum) bad_bounds
    fallback ← positive_fee (or_value o.fallback_fee (text base_fee))
    throw_if (is_negative o.cache_ms) bad_cache
    ok (record {
      percentile = o.percentile;
      multiplier = o.multiplier;
      minimum = minimum;
      maximum = maximum;
      fallback = fallback;
      cache_ms = natural_of o.cache_ms;
    })

  -- The `try` statement: the fee of the statistics that the context gave, if it gave any and they
  -- can be read.
  pub sampled : RecentFeeStrategy → FeeContext → Option FeeStats → Option ℕ
  unfolding positive_fee
  sampled s c none = none
  sampled s c (some stats) =
      elim (positive_fee (
        text (
          if c.soroban
          then stats.soroban_inclusion_fee s.percentile
          else stats.inclusion_fee s.percentile))) [ ok n ↦ some n | err e ↦ none ]

  bid_of : RecentFeeStrategy → Option ℕ → Result FeeError ℕ
  unfolding multiply_ceil
  bid_of s none = ok s.fallback
  bid_of s (some n) = multiply_ceil n s.multiplier

  -- The fee that `getFee` of `RecentFeeStrategy` prints.
  pub recent_fee : RecentFeeStrategy → FeeContext → Option FeeStats → Result FeeError ℕ
  unfolding sampled bid_of clamped
  recent_fee s c stats = do
    fee ← bid_of s (sampled s c stats)
    clamped (at_most_maximum s.maximum (at_least s.minimum fee)) c

  pub get_fee : RecentFeeStrategy → FeeContext → Option FeeStats → Result FeeError Bytes
  unfolding recent_fee
  get_fee s c stats = do fee ← recent_fee s c stats; ok (print fee)
