-- ===== src/FeeStrategy/Bounds.antt =====
-- The fees that the strategies of packages/core/src/fleet/feeStrategy.ts bid.
use stellar_agentic.Base.{
  ℕ, ◌*◌, ◌≤◌, ◌≡◌, refl, subst, false, Option, none, some, ok, >>=-eq_ok, ok_injective, throw_if,
  throw_if-ok, arith,
}
use stellar_agentic.Base.Int.{ℤ}
use stellar_agentic.Base.Numbers.{Bytes}
use stellar_agentic.FeeStrategy.{
  text, FeeContext, FeeStats, bad_multiplier, bad_bounds, bad_cache, is_negative, scaled, scale,
  multiply_ceil, is_invalid, RecentFeeStrategyOptions, RecentFeeStrategy, or_else, or_value,
  below_minimum, at_least, at_most_maximum, positive_fee, clamped, read_maximum, create, sampled,
  bid_of, recent_fee,
}

-- `multiplyCeil` rounds up: its result is the least number of stroops that is no less than the
-- product of the value and the multiplier.
pub multiply_ceil_least :
    (value n fee : ℕ)
    → multiply_ceil value (scaled n) ≡ ok fee
    → (value * n ≤ fee * scale) × ((k : ℕ) → value * n ≤ k * scale → fee ≤ k)
unfolding multiply_ceil
multiply_ceil_least value n fee e =
    let same = ok_injective e in
    (
      subst (λ f. value * n ≤ f * scale) same (omega arith),
      λ k h. subst (λ f. f ≤ k) same (omega arith),
    )

-- What the constructor has checked of the bounds.
abbrev pub HasRoom : RecentFeeStrategy → Type 0
HasRoom s = below_minimum s.maximum s.minimum ≡ false

-- The fee is at most the maximum, if there is one and the protocol lets it be.
abbrev pub AtMostMaximum : Option ℕ → ℕ → ℕ → Type 0
AtMostMaximum none protocol_minimum fee = Unit
AtMostMaximum (some m) protocol_minimum fee = protocol_minimum ≤ m → fee ≤ m

bounded :
    (maximum : Option ℕ) (minimum protocol_minimum bid : ℕ)
    → below_minimum maximum minimum ≡ false
    → let fee = at_least protocol_minimum (at_most_maximum maximum (at_least minimum bid)) in
      (protocol_minimum ≤ fee) × (minimum ≤ fee) × AtMostMaximum maximum protocol_minimum fee
bounded none minimum protocol_minimum bid h = (ground arith, ground arith, tt)
bounded (some m) minimum protocol_minimum bid h = (ground arith, ground arith, λ p. ground arith)

module _ (parse : Bytes → Option ℤ) (print : ℕ → Bytes) (base_fee : Bytes) where
  create-HasRoom :
      (o : RecentFeeStrategyOptions) (s : RecentFeeStrategy)
      → create parse print base_fee o ≡ ok s
      → HasRoom s
  unfolding create
  create-HasRoom o s e =
      let (u, valid, e1) = >>=-eq_ok (throw_if (is_invalid o.multiplier) bad_multiplier) _ e in
      let (minimum, em, e2) =
        >>=-eq_ok (positive_fee parse print base_fee (or_value o.minimum_fee (text base_fee))) _
          e1 in
      let (maximum, ex, e3) = >>=-eq_ok (read_maximum parse print base_fee o.maximum_fee) _ e2 in
      let (u, room, e4) = >>=-eq_ok (throw_if (below_minimum maximum minimum) bad_bounds) _ e3 in
      let (fallback, ef, e5) =
        >>=-eq_ok (positive_fee parse print base_fee (or_value o.fallback_fee (text base_fee))) _
          e4 in
      let (u, cache, e6) = >>=-eq_ok (throw_if (is_negative o.cache_ms) bad_cache) _ e5 in
      subst HasRoom (ok_injective e6) (throw_if-ok (below_minimum maximum minimum) bad_bounds room)

  bid_of-ok :
      (s : RecentFeeStrategy) (n : ℕ) (sample : Option ℕ)
      → s.multiplier ≡ scaled n
      → (bid : ℕ) × (bid_of parse print base_fee s sample ≡ ok bid)
  unfolding bid_of multiply_ceil
  bid_of-ok s n none m = (_, refl)
  bid_of-ok s n (some v) m = rw m (_, refl)

  -- A recent-fee strategy that the constructor has made always bids, whether the statistics could
  -- be loaded and read or not, where the context's minimum (or the base fee) is a fee and the
  -- multiplier is not so large that its product with the scale is infinite. Its fee is at least that
  -- minimum and at least its own minimum, and at most its maximum wherever the context's minimum is.
  pub recent_fee_bounded :
      (o : RecentFeeStrategyOptions) (s : RecentFeeStrategy) (n : ℕ) (c : FeeContext)
      (stats : Option FeeStats) (protocol_minimum : ℕ)
      → create parse print base_fee o ≡ ok s
      → s.multiplier ≡ scaled n
      → positive_fee parse print base_fee (text (or_else c.minimum_fee base_fee))
        ≡ ok protocol_minimum
      → (fee : ℕ) × (recent_fee parse print base_fee s c stats ≡ ok fee)
        × (protocol_minimum ≤ fee)
        × (s.minimum ≤ fee)
        × AtMostMaximum s.maximum protocol_minimum fee
  unfolding recent_fee clamped
  recent_fee_bounded o s n c stats protocol_minimum e m p =
      let (bid, be) = bid_of-ok s n (sampled parse print base_fee s c stats) m in
      let b = bounded s.maximum s.minimum protocol_minimum bid (create-HasRoom o s e) in
      rw (be, p) (_, refl, b.0, b.1, b.2)

  -- Without a statistic that can be read, a recent-fee strategy bids its fallback exactly, where
  -- that lies within its bounds and is no less than the context's minimum: the multiplier is not
  -- applied.
  pub recent_fee_fallback :
      (s : RecentFeeStrategy) (c : FeeContext) (stats : Option FeeStats) (protocol_minimum : ℕ)
      → positive_fee parse print base_fee (text (or_else c.minimum_fee base_fee))
        ≡ ok protocol_minimum
      → sampled parse print base_fee s c stats ≡ none
      → s.minimum ≤ s.fallback
      → at_most_maximum s.maximum s.fallback ≡ s.fallback
      → protocol_minimum ≤ s.fallback
      → recent_fee parse print base_fee s c stats ≡ ok s.fallback
  unfolding recent_fee clamped bid_of
  recent_fee_fallback s c stats protocol_minimum p n low high above =
      let first_step : at_least s.minimum s.fallback ≡ s.fallback = ground arith in
      let last_step : at_least protocol_minimum s.fallback ≡ s.fallback = ground arith in
      rw (n, p, first_step, high, last_step) refl
