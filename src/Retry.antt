-- ===== src/Retry.antt =====
-- packages/core/src/retry.ts: the policy and the loop of `retryAsync`. What an attempt does is an
-- argument, by the number of the attempt. Delays are whole milliseconds; the jitter, which is
-- floating-point arithmetic on a random number, is an argument.
pub mod Loop
mod Tests
use stellar_agentic.Base.{
  ℕ, zero, suc, ◌+◌, ◌-◌, ◌*◌, ◌^◌, min, Bool, true, false, not, ◌||◌, Option, none, some, List, [],
  ◌∷◌, ◌==◌, ltb, if◌then◌else◌, Result, ok, err,
}

pub record RetryPolicy : Type 0 where
  pub attempts : ℕ
  pub base_delay_ms : ℕ
  pub max_delay_ms : ℕ
  pub has_jitter : Bool

-- `RetryExhaustedError`
pub record RetryExhausted {ℓ} (E : Type ℓ) : Type ℓ where
  pub attempts : ℕ
  pub last_error : Option E

-- What a call did: the attempts that it made, the delays that it slept, and how it ended.
pub record RetryRun {ℓ} (E T : Type ℓ) : Type ℓ where
  pub calls : ℕ
  pub delays : List ℕ
  pub result : Result (RetryExhausted E) T

pub compute_retry_delay_ms : RetryPolicy → (jittered : ℕ → ℕ) → ℕ → ℕ
compute_retry_delay_ms p jittered zero = 0
compute_retry_delay_ms p jittered (suc n) =
    let capped = min (p.base_delay_ms * 2 ^ n) p.max_delay_ms in
    if p.has_jitter then jittered capped else capped

module _ {ℓ} {E T : Type ℓ} (attempt : ℕ → Result E T) (is_retryable : E → Bool) (p : RetryPolicy)
    (jittered : ℕ → ℕ) where
  exhausted : Option E → Result (RetryExhausted E) T
  exhausted last = err (record { attempts = p.attempts - 1 + 1; last_error = last })

  -- The loop, with the attempts that are left, the index of the next one and the last error.
  pub retry_loop : ℕ → ℕ → Option E → RetryRun E T
  unfolding exhausted compute_retry_delay_ms
  retry_loop zero i last = record { calls = 0; delays = []; result = exhausted last }
  retry_loop (suc left) i last = elim (attempt (i + 1)) [
    | ok v ↦ record { calls = 1; delays = []; result = ok v }
    | err e ↦
        let rest = retry_loop left (i + 1) (some e) in
        if (left == 0) || not (is_retryable e)
        then record { calls = 1; delays = []; result = exhausted (some e) }
        else record rest {
          calls = rest.calls + 1;
          delays = compute_retry_delay_ms p jittered (i + 1) ∷ rest.delays;
        }
  ]

  pub retry_async : RetryRun E T
  unfolding retry_loop
  retry_async = retry_loop p.attempts 0 none
