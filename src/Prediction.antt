-- ===== src/Prediction.antt =====
-- packages/core/src/math/predict.ts, with `bn` and `add` of packages/core/src/math/fixed-point.ts
-- and `isWithinSpendLimit` of packages/core/src/math/bid.ts. Ledger numbers, counts and window
-- lengths are natural numbers. `bignumber.js` is the parameter `lib`.
pub mod Windows
pub mod Amounts
pub mod Limits
pub mod Channel
pub mod Outcome
mod Tests
use stellar_agentic.Base.{
  ℕ, zero, suc, ◌+◌, ◌-◌, ◌*◌, ◌/◌, Bool, true, false, not, ◌&&◌, Option, none, some, List, [], ◌∷◌,
  ◌++◌, length, leb, if◌then◌else◌, Result, ok, err, ◌>>=◌, ◌>>◌, throw_if,
}
use stellar_agentic.Base.Numbers.{Bytes}

-- What the code calls of a `BigNumber`.
pub record BigNumber : Type 1 where
  pub Decimal : Type 0
  pub new : Bytes → Decimal
  pub is_finite : Decimal → Bool
  pub plus : Decimal → Decimal → Decimal
  pub is_greater_than : Decimal → Decimal → Bool
  pub is_less_than_or_equal_to : Decimal → Decimal → Bool
  pub to_string : Decimal → Bytes

-- `'0'`
abbrev pub zero_text : Bytes
zero_text = b'0' ∷ []

pub data DecimalError : Type 0 where
  not_finite : DecimalError

pub data SpendPeriod : Type 0 where
  per_ledger hourly daily : SpendPeriod

abbrev pub ledgers_per_channel_period : SpendPeriod → ℕ
ledgers_per_channel_period per_ledger = 1
ledgers_per_channel_period hourly = 720
ledgers_per_channel_period daily = 17280

abbrev pub rate_limit_ledgers_per_hour : ℕ
rate_limit_ledgers_per_hour = 720

abbrev pub rate_limit_ledgers_per_day : ℕ
rate_limit_ledgers_per_day = 17280

pub record ChannelSpendState : Type 0 where
  pub active : Bool
  pub limit_per_period : Bytes
  pub spent_this_period : Bytes
  pub period_start_ledger : ℕ
  pub period : SpendPeriod

pub record RateLimitSpendState : Type 0 where
  pub configured : Bool
  pub active : Bool
  pub max_per_tx : Bytes
  pub max_per_hour : Bytes
  pub max_per_day : Bytes
  pub max_txs_per_hour : ℕ
  pub hourly_buckets : List Bytes
  pub daily_buckets : List Bytes
  pub hourly_tx_buckets : List ℕ
  pub hour_window_start_ledger : ℕ
  pub day_window_start_ledger : ℕ

pub record PredictPaymentOutcomeParams : Type 0 where
  pub channel_state : Option ChannelSpendState
  pub rate_limit_state : Option RateLimitSpendState
  pub amount : Bytes
  pub current_ledger : ℕ

pub data BlockReason : Type 0 where
  invalid_amount channel_inactive channel_spend_limit : BlockReason
  rate_limit_per_tx rate_limit_hourly rate_limit_daily rate_limit_tx_count : BlockReason

pub record PaymentPrediction : Type 0 where
  pub would_block : Bool
  pub reasons : List BlockReason

pub is_window_expired : ℕ → ℕ → ℕ → Bool
is_window_expired window_start ledgers_per_window current_ledger =
    leb (window_start + ledgers_per_window) current_ledger

-- `Math.max(0, …)` of a difference.
pub ledgers_remaining_in_window : ℕ → ℕ → ℕ → ℕ
ledgers_remaining_in_window window_start ledgers_per_window current_ledger =
    window_start + ledgers_per_window - current_ledger

-- The loop of `sumLiveTxBuckets` from index `i` on.
pub sum_tx_loop :
    List ℕ → (i bucket_size window_start ledgers_per_window current_ledger : ℕ) → ℕ → ℕ
unfolding is_window_expired
sum_tx_loop [] i size start window now total = total
sum_tx_loop (b ∷ bs) i size start window now total =
    sum_tx_loop bs (suc i) size start window now
      (if is_window_expired (start + i * size) window now then total else total + b)

pub sum_live_tx_buckets : List ℕ → ℕ → ℕ → ℕ → ℕ
unfolding sum_tx_loop
sum_live_tx_buckets bs start window now = sum_tx_loop bs 0 (window / length bs) start window now 0

-- `if (test) reasons.push(reason)`
abbrev pub reason_if : Bool → BlockReason → List BlockReason
reason_if true r = r ∷ []
reason_if false r = []

module _ (lib : BigNumber) where
  -- `bn` of a text.
  pub bn : Bytes → Result DecimalError lib.Decimal
  bn value = do throw_if (not (lib.is_finite (lib.new value))) not_finite; ok (lib.new value)

  -- `bn` of a `BigNumber`, which the constructor copies.
  pub bn_again : lib.Decimal → Result DecimalError lib.Decimal
  bn_again x = do throw_if (not (lib.is_finite x)) not_finite; ok x

  pub add : lib.Decimal → lib.Decimal → Result DecimalError lib.Decimal
  unfolding bn_again
  add a b = do x ← bn_again a; y ← bn_again b; ok (lib.plus x y)

  pub is_within_spend_limit : Bytes → Bytes → Bytes → Result DecimalError Bool
  unfolding bn
  is_within_spend_limit spent limit proposed = do
    x ← bn spent
    y ← bn proposed
    l ← bn limit
    ok (lib.is_less_than_or_equal_to (lib.plus x y) l)

  add_live : Bool → lib.Decimal → Bytes → Result DecimalError lib.Decimal
  unfolding bn add
  add_live true total b = do x ← bn b; add total x
  add_live false total b = ok total

  -- The loop of `sumLiveBuckets` from index `i` on.
  pub sum_loop :
      List Bytes
      → (i bucket_size window_start ledgers_per_window current_ledger : ℕ) → lib.Decimal
      → Result DecimalError lib.Decimal
  unfolding add_live is_window_expired
  sum_loop [] i size start window now total = ok total
  sum_loop (b ∷ bs) i size start window now total = do
    t ← add_live (not (is_window_expired (start + i * size) window now)) total b
    sum_loop bs (suc i) size start window now t

  pub sum_live_buckets : List Bytes → ℕ → ℕ → ℕ → Result DecimalError Bytes
  unfolding bn sum_loop
  sum_live_buckets bs start window now = do
    nothing ← bn zero_text
    total ← sum_loop bs 0 (window / length bs) start window now nothing
    ok (lib.to_string total)

  -- The reasons of the channel, where it is given.
  pub channel_reasons : ChannelSpendState → Bytes → ℕ → Result DecimalError (List BlockReason)
  unfolding is_within_spend_limit is_window_expired
  channel_reasons s amount now = if not s.active then ok (channel_inactive ∷ []) else do
    within ← is_within_spend_limit effective_spent s.limit_per_period amount
    ok (reason_if (not within) channel_spend_limit)
    where
      effective_spent : Bytes
      effective_spent =
          if is_window_expired s.period_start_ledger (ledgers_per_channel_period s.period) now
          then zero_text
          else s.spent_this_period

  -- The reasons of a configured rate limit.
  pub rate_limit_reasons :
      RateLimitSpendState → lib.Decimal → ℕ → Result DecimalError (List BlockReason)
  unfolding bn add sum_live_buckets sum_live_tx_buckets
  rate_limit_reasons s amt now = do
    max_per_tx ← bn s.max_per_tx
    hour_text ←
        sum_live_buckets s.hourly_buckets s.hour_window_start_ledger rate_limit_ledgers_per_hour now
    hourly_spend ← bn hour_text
    day_text ←
        sum_live_buckets s.daily_buckets s.day_window_start_ledger rate_limit_ledgers_per_day now
    daily_spend ← bn day_text
    hour_total ← add hourly_spend amt
    max_per_hour ← bn s.max_per_hour
    day_total ← add daily_spend amt
    max_per_day ← bn s.max_per_day
    ok (
        reason_if (lib.is_greater_than amt max_per_tx) rate_limit_per_tx
        ++ reason_if (lib.is_greater_than hour_total max_per_hour) rate_limit_hourly
        ++ reason_if (lib.is_greater_than day_total max_per_day) rate_limit_daily
        ++ reason_if
            (leb s.max_txs_per_hour (
              sum_live_tx_buckets s.hourly_tx_buckets s.hour_window_start_ledger
                rate_limit_ledgers_per_hour now))
            rate_limit_tx_count)

  of_channel : Option ChannelSpendState → Bytes → ℕ → Result DecimalError (List BlockReason)
  unfolding channel_reasons
  of_channel none amount now = ok []
  of_channel (some s) amount now = channel_reasons s amount now

  of_rate_limit :
      Option RateLimitSpendState → lib.Decimal → ℕ → Result DecimalError (List BlockReason)
  unfolding rate_limit_reasons
  of_rate_limit none amt now = ok []
  of_rate_limit (some s) amt now = if s.configured then rate_limit_reasons s amt now else ok []

  pub predict_payment_outcome : PredictPaymentOutcomeParams → Result DecimalError PaymentPrediction
  unfolding bn of_channel of_rate_limit
  predict_payment_outcome p = do
    amt ← bn p.amount
    channel ← of_channel p.channel_state p.amount p.current_ledger
    limits ← of_rate_limit p.rate_limit_state amt p.current_ledger
    let reasons =
        reason_if (not (lib.is_greater_than amt (lib.new zero_text))) invalid_amount
        ++ channel
        ++ limits
    ok (record { would_block = leb 1 (length reasons); reasons = reasons })
