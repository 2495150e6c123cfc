-- ===== src/Prediction/Tests.antt =====
-- The prediction of packages/core/src/math/predict.ts at inputs.
use stellar_agentic.Base.{
  ℕ, ◌+◌, ◌-◌, ◌≡◌, ◌↔◌, refl, ap, sym, true, false, some, List, [], ◌∷◌, ltb, leb, ok, arith,
}
use stellar_agentic.Base.Int.{ℤ, pos, ◌+ℤ◌}
use stellar_agentic.Base.Numbers.{Bytes}
use stellar_agentic.Prediction.{
  BigNumber, hourly, ChannelSpendState, RateLimitSpendState, PredictPaymentOutcomeParams,
  PaymentPrediction, sum_live_buckets, sum_live_tx_buckets, predict_payment_outcome, sum_tx_loop,
  is_window_expired,
}
use stellar_agentic.Prediction.Windows.{sum, live, sum_live_tx_buckets-live}
use stellar_agentic.Prediction.Amounts.{IsExact, IsAmount, sum_ℤ, sum_live_buckets-live}
use stellar_agentic.Prediction.Outcome.{
  Amounts, IsAllowed, ReadsParams, predict_payment_outcome_iff,
}

-- Decimals of one digit, whose digits go on behind 9.
abbrev digit_value : Bytes → ℕ
digit_value [] = 0
digit_value (c ∷ cs) = c - 48

abbrev digits : BigNumber
digits = record {
  Decimal = ℕ;
  new = digit_value;
  is_finite = λ x. true;
  plus = λ x y. x + y;
  is_greater_than = λ x y. ltb y x;
  is_less_than_or_equal_to = λ x y. leb x y;
  to_string = λ x. (x + 48) ∷ [];
}

sum_pos : (x y : ℕ) → pos x +ℤ pos y ≡ pos (x + y)
unfolding ◌+ℤ◌
sum_pos x y = ground arith

ltb_plus_zero : (x y : ℕ) → ltb x y ≡ ltb (x + 0) (y + 0)
ltb_plus_zero x y = ground arith

leb_plus_zero : (x y : ℕ) → leb x y ≡ leb (x + 0) (y + 0)
leb_plus_zero x y = ground arith

abbrev digits-IsExact : IsExact digits
digits-IsExact = record {
  Denotes = λ x i. i ≡ pos x;
  finite = λ x i d. refl;
  nothing = refl;
  sums = λ x y i j d e. rw (d, e) (sum_pos x y);
  greater = λ x y i j d e. rw (d, e) (ltb_plus_zero y x);
  at_most = λ x y i j d e. rw (d, e) (leb_plus_zero x y);
  printed = λ x i d. rw d (let same : x + 48 - 48 ≡ x = omega arith in ap pos (sym same));
}

-- 5 of 9 spent in the hour from ledger 100 on.
abbrev channel : ChannelSpendState
channel = record {
  active = true;
  limit_per_period = 57 ∷ [];
  spent_this_period = 53 ∷ [];
  period_start_ledger = 100;
  period = hourly;
}

abbrev three_buckets : List Bytes
three_buckets = (51 ∷ []) ∷ (50 ∷ []) ∷ (49 ∷ []) ∷ []

abbrev three_amounts : List ℤ
three_amounts = pos 3 ∷ pos 2 ∷ pos 1 ∷ []

abbrev rate_limit : RateLimitSpendState
rate_limit = record {
  configured = true;
  active = true;
  max_per_tx = 52 ∷ [];
  max_per_hour = 57 ∷ [];
  max_per_day = 57 ∷ [];
  max_txs_per_hour = 4;
  hourly_buckets = three_buckets;
  daily_buckets = three_buckets;
  hourly_tx_buckets = 2 ∷ 1 ∷ 1 ∷ [];
  hour_window_start_ledger = 100;
  day_window_start_ledger = 100;
}

abbrev payment : PredictPaymentOutcomeParams
payment = record {
  channel_state = some channel;
  rate_limit_state = some rate_limit;
  amount = 52 ∷ [];
  current_ledger = 820;
}

abbrev amounts : Amounts
amounts = record {
  amount = pos 4;
  spent = pos 5;
  limit = pos 9;
  limits = record {
    max_per_tx = pos 4;
    max_per_hour = pos 9;
    max_per_day = pos 9;
    hourly = three_amounts;
    daily = three_amounts;
  };
}

payment-ReadsParams : ReadsParams digits digits-IsExact payment amounts
payment-ReadsParams = record {
  amount = refl;
  channel = (refl, refl);
  rate_limit = λ c. record {
    per_tx = refl;
    per_hour = refl;
    per_day = refl;
    hourly = (refl, (refl, (refl, tt)));
    daily = (refl, (refl, (refl, tt)));
    hours = (omega arith, omega arith);
    days = (omega arith, omega arith);
    counts = (omega arith, omega arith);
  };
}

predict_payment_outcome_iff_example :
    (r : PaymentPrediction) × (predict_payment_outcome digits payment ≡ ok r)
    × ((r.would_block ≡ false) ↔ IsAllowed payment amounts)
predict_payment_outcome_iff_example =
    predict_payment_outcome_iff digits digits-IsExact payment amounts payment-ReadsParams
      (λ c. refl)

sum_live_buckets-live_example :
    (t : Bytes) × (sum_live_buckets digits three_buckets 100 720 820 ≡ ok t)
    × IsAmount digits digits-IsExact t (sum_ℤ (pos 0) (live three_amounts 100 720 820))
sum_live_buckets-live_example =
    sum_live_buckets-live digits digits-IsExact three_buckets three_amounts 100 720 820
      (refl, (refl, (refl, tt))) (omega arith) (omega arith)

sum_live_tx_buckets-live_example :
    sum_live_tx_buckets (2 ∷ 1 ∷ 1 ∷ []) 100 720 820 ≡ sum (live (2 ∷ 1 ∷ 1 ∷ []) 100 720 820)
sum_live_tx_buckets-live_example =
    sum_live_tx_buckets-live (2 ∷ 1 ∷ 1 ∷ []) 100 720 820 (omega arith) (omega arith)

-- The first bucket has left the window at ledger 820.
two_live : sum_live_tx_buckets (2 ∷ 1 ∷ 1 ∷ []) 100 720 820 ≡ 2
unfolding sum_live_tx_buckets sum_tx_loop is_window_expired
two_live = refl
