-- ===== src/Prediction/Outcome.antt =====
-- `predictPaymentOutcome` of packages/core/src/math/predict.ts as a whole.
use stellar_agentic.Base.{
  ℕ, ◌≡◌, ◌↔◌, refl, Bool, true, false, not, Option, none, some, List, [], ◌∷◌, ◌++◌, length, leb,
  Bool-cases, inl, inr, ok, arith,
}
use stellar_agentic.Base.Int.{ℤ, pos, ◌≤ℤ◌, ltb_ℤ}
use stellar_agentic.Base.Numbers.{Bytes}
use stellar_agentic.Prediction.{
  BigNumber, zero_text, BlockReason, invalid_amount, reason_if, RateLimitSpendState,
  ChannelSpendState, PredictPaymentOutcomeParams, PaymentPrediction, of_channel, of_rate_limit,
  predict_payment_outcome,
}
use stellar_agentic.Prediction.Amounts.{IsExact, IsAmount, bn-ok}
use stellar_agentic.Prediction.Limits.{
  LimitAmounts, WithinLimits, ReadsLimit, rate_limit_reasons-ok,
}
use stellar_agentic.Prediction.Channel.{WithinPeriod, channel_reasons-ok}

-- The integers that the texts of the parameters stand for.
pub record Amounts : Type 0 where
  pub amount : ℤ
  pub spent : ℤ
  pub limit : ℤ
  pub limits : LimitAmounts

abbrev pub ChannelAllows : Option ChannelSpendState → Amounts → ℕ → Type 0
ChannelAllows none v now = Unit
ChannelAllows (some s) v now = WithinPeriod s v.spent v.limit v.amount now

-- `check` of contracts/rate_limiter: a rate limit that is not configured allows all, one that is not
-- active nothing.
abbrev pub RateLimitAllows : Option RateLimitSpendState → Amounts → ℕ → Type 0
RateLimitAllows none v now = Unit
RateLimitAllows (some s) v now =
    s.configured ≡ true → (s.active ≡ true) × WithinLimits s v.limits v.amount now

-- The agent was not killed: its rate limit, if it has one, is active.
abbrev pub IsLive : Option RateLimitSpendState → Type 0
IsLive none = Unit
IsLive (some s) = s.configured ≡ true → s.active ≡ true

-- A payment within the limits.
pub record IsAllowed (p : PredictPaymentOutcomeParams) (v : Amounts) : Type 0 where
  pub positive : pos 1 ≤ℤ v.amount
  pub channel : ChannelAllows p.channel_state v p.current_ledger
  pub rate_limit : RateLimitAllows p.rate_limit_state v p.current_ledger

-- No reason is given just where no part gives one.
nothing_blocks :
    (b : Bool) (cs rs : List BlockReason)
    → (leb 1 (length (reason_if b invalid_amount ++ cs ++ rs)) ≡ false)
      ↔ ((b ≡ false) × (cs ≡ []) × (rs ≡ []))
nothing_blocks true cs rs = (λ h. absurd (ground arith), λ h. absurd (let e = h.0 in cc))
nothing_blocks false [] [] = (λ h. (refl, refl, refl), λ h. refl)
nothing_blocks false [] (r ∷ rs) = (λ h. absurd (ground arith), λ h. absurd (let e = h.2 in cc))
nothing_blocks false (c ∷ cs) rs = (λ h. absurd (ground arith), λ h. absurd (let e = h.1 in cc))

positive_of : (i : ℤ) → not (ltb_ℤ (pos 0) i) ≡ false → pos 1 ≤ℤ i
positive_of i h = ground arith

is_positive : (i : ℤ) → pos 1 ≤ℤ i → not (ltb_ℤ (pos 0) i) ≡ false
is_positive i h = ground arith

module _ (lib : BigNumber) (exact : IsExact lib) where
  abbrev pub ReadsChannel : Option ChannelSpendState → Amounts → Type 0
  ReadsChannel none v = Unit
  ReadsChannel (some s) v =
      IsAmount lib exact s.spent_this_period v.spent × IsAmount lib exact s.limit_per_period v.limit

  abbrev pub ReadsRateLimit : Option RateLimitSpendState → Amounts → Type 0
  ReadsRateLimit none v = Unit
  ReadsRateLimit (some s) v = s.configured ≡ true → ReadsLimit lib exact s v.limits

  -- The texts of the parameters are those of the integers.
  pub record ReadsParams (p : PredictPaymentOutcomeParams) (v : Amounts) : Type 0 where
    pub amount : IsAmount lib exact p.amount v.amount
    pub channel : ReadsChannel p.channel_state v
    pub rate_limit : ReadsRateLimit p.rate_limit_state v

  of_channel-ok :
      (c : Option ChannelSpendState) (v : Amounts) (a : Bytes) (now : ℕ)
      → IsAmount lib exact a v.amount
      → ReadsChannel c v
      → (rs : List BlockReason) × (of_channel lib c a now ≡ ok rs)
        × ((rs ≡ []) ↔ ChannelAllows c v now)
  unfolding of_channel
  of_channel-ok none v a now d r = ([], refl, (λ h. tt, λ h. refl))
  of_channel-ok (some s) v a now d r =
      channel_reasons-ok lib exact s v.spent v.limit a v.amount now r.0 r.1 d

  of_rate_limit-ok :
      (c : Option RateLimitSpendState) (v : Amounts) (x : lib.Decimal) (now : ℕ)
      → exact.Denotes x v.amount
      → ReadsRateLimit c v
      → IsLive c
      → (rs : List BlockReason) × (of_rate_limit lib c x now ≡ ok rs)
        × ((rs ≡ []) ↔ RateLimitAllows c v now)
  unfolding of_rate_limit
  of_rate_limit-ok none v x now d r live = ([], refl, (λ h. tt, λ h. refl))
  of_rate_limit-ok (some s) v x now d r live = elim (Bool-cases s.configured) [
    | inl on ↦
        let (rs, e, iff) = rate_limit_reasons-ok lib exact s v.limits x v.amount now (r on) d in
        (rs, rw on e, (λ h c. (live c, iff.0 h), λ h. iff.1 (h on).1))
    | inr off ↦ ([], rw off refl, (λ h c. absurd (let o = off in cc), λ h. refl))
  ]

  -- The prediction for an agent that was not killed (its rate limit, if one is configured, is active)
  -- does not fail, and it lets a payment pass just where the limits do: the amount is positive; the
  -- channel, if there is one, is active, and the amount with what was spent in a period that is not
  -- over is at most its limit; and with a configured rate limit, that is active, the amount is at
  -- most the bound of a transaction, the amount with the live spend of the trailing hour and day at
  -- most their bounds, and the live transactions of the hour fewer than theirs. It is assumed that
  -- the texts are those of integers, that `bignumber.js` is exact on these, and that each window has
  -- a bucket and no more buckets than ledgers.
  pub predict_payment_outcome_iff :
      (p : PredictPaymentOutcomeParams) (v : Amounts)
      → ReadsParams p v
      → IsLive p.rate_limit_state
      → (r : PaymentPrediction) × (predict_payment_outcome lib p ≡ ok r)
        × ((r.would_block ≡ false) ↔ IsAllowed p v)
  unfolding predict_payment_outcome
  predict_payment_outcome_iff p v r live =
      let x = lib.new p.amount in
      let (cs, ce, ciff) =
        of_channel-ok p.channel_state v p.amount p.current_ledger r.amount r.channel in
      let (rs, re, riff) =
        of_rate_limit-ok p.rate_limit_state v x p.current_ledger r.amount r.rate_limit live in
      let none_iff = nothing_blocks (not (ltb_ℤ (pos 0) v.amount)) cs rs in
      rw
        (
          bn-ok lib exact p.amount v.amount r.amount,
          ce,
          re,
          exact.greater x (lib.new zero_text) v.amount (pos 0) r.amount exact.nothing,
        )
        (
          _,
          refl,
          (
            λ h.
                let clear = none_iff.0 h in
                record {
                  positive = positive_of v.amount clear.0;
                  channel = ciff.0 clear.1;
                  rate_limit = riff.0 clear.2;
                },
            λ a.
                none_iff.1 (is_positive v.amount a.positive, ciff.1 a.channel, riff.1 a.rate_limit),
          ),
        )
