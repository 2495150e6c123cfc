-- ===== src/Prediction/Limits.antt =====
-- The checks of the rate limit in `predictPaymentOutcome` of packages/core/src/math/predict.ts,
-- against the limits in integers.
use stellar_agentic.Base.{
  ℕ, ◌≤◌, ◌<◌, ◌≡◌, ◌↔◌, refl, Bool, true, false, List, [], ◌++◌, length, leb, ok, arith,
}
use stellar_agentic.Base.Int.{ℤ, pos, ◌+ℤ◌, ◌≤ℤ◌, ltb_ℤ}
use stellar_agentic.Prediction.{
  BigNumber, BlockReason, rate_limit_per_tx, rate_limit_hourly, rate_limit_daily,
  rate_limit_tx_count, reason_if, RateLimitSpendState, rate_limit_reasons,
}
use stellar_agentic.Prediction.Windows.{live, sum, sum_live_tx_buckets-live}
use stellar_agentic.Prediction.Amounts.{
  IsExact, IsAmount, AreAmounts, bn-ok, add-ok, sum_ℤ, sum_live_buckets-live,
}

-- The integers that the texts of a rate limit stand for.
pub record LimitAmounts : Type 0 where
  pub max_per_tx : ℤ
  pub max_per_hour : ℤ
  pub max_per_day : ℤ
  pub hourly : List ℤ
  pub daily : List ℤ

-- The limits: the amount, and what is spent with it in the trailing hour and day,
-- are at most the limits, and the transactions of the hour are below theirs.
pub record WithinLimits (s : RateLimitSpendState) (v : LimitAmounts) (amt : ℤ) (now : ℕ)
    : Type 0 where
  pub per_tx : amt ≤ℤ v.max_per_tx
  pub per_hour :
      (sum_ℤ (pos 0) (live v.hourly s.hour_window_start_ledger 720 now) +ℤ amt) ≤ℤ v.max_per_hour
  pub per_day :
      (sum_ℤ (pos 0) (live v.daily s.day_window_start_ledger 17280 now) +ℤ amt) ≤ℤ v.max_per_day
  pub count : sum (live s.hourly_tx_buckets s.hour_window_start_ledger 720 now) < s.max_txs_per_hour

-- No reason is given just where no test has fired.
all_passed :
    (a b c d : Bool)
    → (reason_if a rate_limit_per_tx
          ++ reason_if b rate_limit_hourly
          ++ reason_if c rate_limit_daily
          ++ reason_if d rate_limit_tx_count
        ≡ [])
      ↔ ((a ≡ false) × (b ≡ false) × (c ≡ false) × (d ≡ false))
all_passed false false false false = (λ h. (refl, refl, refl, refl), λ h. refl)
all_passed false false false true = (λ h. absurd cc, λ h. absurd (let e = h.3 in cc))
all_passed false false true d = (λ h. absurd cc, λ h. absurd (let e = h.2 in cc))
all_passed false true c d = (λ h. absurd cc, λ h. absurd (let e = h.1 in cc))
all_passed true b c d = (λ h. absurd cc, λ h. absurd (let e = h.0 in cc))

not_below : (a b : ℤ) → (ltb_ℤ a b ≡ false) ↔ (b ≤ℤ a)
not_below a b = (λ h. ground arith, λ h. ground arith)

below : (n m : ℕ) → leb m n ≡ false → n < m
below n m h = ground arith

not_reached : (n m : ℕ) → n < m → leb m n ≡ false
not_reached n m h = ground arith

WithinLimits-iff :
    (s : RateLimitSpendState) (v : LimitAmounts) (amt : ℤ) (now : ℕ)
    → let hour = sum_ℤ (pos 0) (live v.hourly s.hour_window_start_ledger 720 now) in
      let day = sum_ℤ (pos 0) (live v.daily s.day_window_start_ledger 17280 now) in
      let txs = sum (live s.hourly_tx_buckets s.hour_window_start_ledger 720 now) in
      (reason_if (ltb_ℤ v.max_per_tx amt) rate_limit_per_tx
          ++ reason_if (ltb_ℤ v.max_per_hour (hour +ℤ amt)) rate_limit_hourly
          ++ reason_if (ltb_ℤ v.max_per_day (day +ℤ amt)) rate_limit_daily
          ++ reason_if (leb s.max_txs_per_hour txs) rate_limit_tx_count
        ≡ [])
      ↔ WithinLimits s v amt now
WithinLimits-iff s v amt now =
    let hour = sum_ℤ (pos 0) (live v.hourly s.hour_window_start_ledger 720 now) in
    let day = sum_ℤ (pos 0) (live v.daily s.day_window_start_ledger 17280 now) in
    let txs = sum (live s.hourly_tx_buckets s.hour_window_start_ledger 720 now) in
    let all =
      all_passed (ltb_ℤ v.max_per_tx amt) (ltb_ℤ v.max_per_hour (hour +ℤ amt))
        (ltb_ℤ v.max_per_day (day +ℤ amt)) (leb s.max_txs_per_hour txs) in
    (
      λ h.
          let passed = all.0 h in
          let count = passed.3 in
          record {
            per_tx = (not_below v.max_per_tx amt).0 passed.0;
            per_hour = (not_below v.max_per_hour (hour +ℤ amt)).0 passed.1;
            per_day = (not_below v.max_per_day (day +ℤ amt)).0 passed.2;
            count = below txs s.max_txs_per_hour count;
          },
      λ w. all.1 (
        (not_below v.max_per_tx amt).1 w.per_tx,
        (not_below v.max_per_hour (hour +ℤ amt)).1 w.per_hour,
        (not_below v.max_per_day (day +ℤ amt)).1 w.per_day,
        not_reached txs s.max_txs_per_hour w.count,
      ),
    )

module _ (lib : BigNumber) (exact : IsExact lib) where
  pub record ReadsLimit (s : RateLimitSpendState) (v : LimitAmounts) : Type 0 where
    pub per_tx : IsAmount lib exact s.max_per_tx v.max_per_tx
    pub per_hour : IsAmount lib exact s.max_per_hour v.max_per_hour
    pub per_day : IsAmount lib exact s.max_per_day v.max_per_day
    pub hourly : AreAmounts lib exact s.hourly_buckets v.hourly
    pub daily : AreAmounts lib exact s.daily_buckets v.daily
    pub hours : (0 < length v.hourly) × (length v.hourly ≤ 720)
    pub days : (0 < length v.daily) × (length v.daily ≤ 17280)
    pub counts : (0 < length s.hourly_tx_buckets) × (length s.hourly_tx_buckets ≤ 720)

  pub rate_limit_reasons-ok :
      (s : RateLimitSpendState) (v : LimitAmounts) (x : lib.Decimal) (amt : ℤ) (now : ℕ)
      → ReadsLimit s v
      → exact.Denotes x amt
      → (rs : List BlockReason) × (rate_limit_reasons lib s x now ≡ ok rs)
        × ((rs ≡ []) ↔ WithinLimits s v amt now)
  unfolding rate_limit_reasons
  rate_limit_reasons-ok s v x amt now r d =
      let (ht, he, hd) =
        sum_live_buckets-live lib exact s.hourly_buckets v.hourly s.hour_window_start_ledger 720 now
          r.hourly r.hours.0 r.hours.1 in
      let (dt, de, dd) =
        sum_live_buckets-live lib exact s.daily_buckets v.daily s.day_window_start_ledger 17280 now
          r.daily r.days.0 r.days.1 in
      let hour = sum_ℤ (pos 0) (live v.hourly s.hour_window_start_ledger 720 now) in
      let day = sum_ℤ (pos 0) (live v.daily s.day_window_start_ledger 17280 now) in
      let txs =
        sum_live_tx_buckets-live s.hourly_tx_buckets s.hour_window_start_ledger 720 now r.counts.0
          r.counts.1 in
      rw
        (
          bn-ok lib exact s.max_per_tx v.max_per_tx r.per_tx,
          he,
          bn-ok lib exact ht hour hd,
          de,
          bn-ok lib exact dt day dd,
          add-ok lib exact (lib.new ht) x hour amt hd d,
          bn-ok lib exact s.max_per_hour v.max_per_hour r.per_hour,
          add-ok lib exact (lib.new dt) x day amt dd d,
          bn-ok lib exact s.max_per_day v.max_per_day r.per_day,
          exact.greater x (lib.new s.max_per_tx) amt v.max_per_tx d r.per_tx,
          exact.greater (lib.plus (lib.new ht) x) (lib.new s.max_per_hour) (hour +ℤ amt)
              v.max_per_hour (exact.sums (lib.new ht) x hour amt hd d) r.per_hour,
          exact.greater (lib.plus (lib.new dt) x) (lib.new s.max_per_day) (day +ℤ amt) v.max_per_day
              (exact.sums (lib.new dt) x day amt dd d) r.per_day,
          txs,
        )
        (_, refl, WithinLimits-iff s v amt now)
