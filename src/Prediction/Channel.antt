-- ===== src/Prediction/Channel.antt =====
-- The check of the channel's spend limit in `predictPaymentOutcome` of
-- packages/core/src/math/predict.ts, and `isWithinSpendLimit` of packages/core/src/math/bid.ts.
use stellar_agentic.Base.{
  ℕ, ◌+◌, ◌≡◌, ◌↔◌, refl, true, not, List, [], leb, if◌then◌else◌, Bool-cases, inl, inr, ok, arith,
}
use stellar_agentic.Base.Int.{ℤ, pos, ◌+ℤ◌, ◌≤ℤ◌, leb_ℤ}
use stellar_agentic.Base.Numbers.{Bytes}
use stellar_agentic.Prediction.{
  BigNumber, zero_text, BlockReason, channel_spend_limit, reason_if, ChannelSpendState,
  is_window_expired, ledgers_per_channel_period, is_within_spend_limit, channel_reasons,
}
use stellar_agentic.Prediction.Amounts.{IsExact, IsAmount, bn-ok}

period_iff :
    (total limit : ℤ)
    → (reason_if (not (leb_ℤ total limit)) channel_spend_limit ≡ [])
      ↔ ((true ≡ true) × (total ≤ℤ limit))
period_iff total limit = elim (Bool-cases (leb_ℤ total limit)) [
  | inl e ↦ rw e (λ h. (refl, ground arith), λ h. refl)
  | inr e ↦ rw e (λ h. absurd cc, λ h. absurd (let w = h.1 in ground arith))
]

-- What the channel contract demands of an active channel: the amount and what was spent in the
-- period, which is nothing once the period is over, are at most the limit.
abbrev pub WithinPeriod : ChannelSpendState → ℤ → ℤ → ℤ → ℕ → Type 0
WithinPeriod s spent limit amt now =
    (s.active ≡ true)
    × (((if leb (s.period_start_ledger + ledgers_per_channel_period s.period) now
            then pos 0
            else spent)
          +ℤ amt)
        ≤ℤ limit)

module _ (lib : BigNumber) (exact : IsExact lib) where
  pub is_within_spend_limit-ok :
      (t u a : Bytes) (i limit amt : ℤ)
      → IsAmount lib exact t i
      → IsAmount lib exact u limit
      → IsAmount lib exact a amt
      → is_within_spend_limit lib t u a ≡ ok (leb_ℤ (i +ℤ amt) limit)
  unfolding is_within_spend_limit
  is_within_spend_limit-ok t u a i limit amt dt du da =
      rw
        (
          bn-ok lib exact t i dt,
          bn-ok lib exact a amt da,
          bn-ok lib exact u limit du,
          exact.at_most (lib.plus (lib.new t) (lib.new a)) (lib.new u) (i +ℤ amt) limit
              (exact.sums (lib.new t) (lib.new a) i amt dt da) du,
        )
        refl

  pub channel_reasons-ok :
      (s : ChannelSpendState) (spent limit : ℤ) (a : Bytes) (amt : ℤ) (now : ℕ)
      → IsAmount lib exact s.spent_this_period spent
      → IsAmount lib exact s.limit_per_period limit
      → IsAmount lib exact a amt
      → (rs : List BlockReason) × (channel_reasons lib s a now ≡ ok rs)
        × ((rs ≡ []) ↔ WithinPeriod s spent limit amt now)
  unfolding channel_reasons is_window_expired
  channel_reasons-ok s spent limit a amt now ds dl da = elim (Bool-cases s.active) [
    | inr closed ↦ rw closed (_, refl, (λ h. absurd cc, λ h. absurd (let e = h.0 in cc)))
    | inl up ↦
        elim (Bool-cases (leb (s.period_start_ledger + ledgers_per_channel_period s.period) now)) [
          | inl over ↦
              rw
                (
                  up,
                  over,
                  is_within_spend_limit-ok zero_text s.limit_per_period a (pos 0) limit amt
                      exact.nothing dl da,
                )
                (_, refl, period_iff (pos 0 +ℤ amt) limit)
          | inr still ↦
              rw
                (
                  up,
                  still,
                  is_within_spend_limit-ok s.spent_this_period s.limit_per_period a spent limit amt
                      ds dl da,
                )
                (_, refl, period_iff (spent +ℤ amt) limit)
        ]
  ]
