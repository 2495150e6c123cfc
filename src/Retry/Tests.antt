-- ===== src/Retry/Tests.antt =====
-- The loop of packages/core/src/retry.ts at inputs.
use stellar_agentic.Base.{
  ℕ, ◌≡◌, ◌↔◌, refl, Bool, false, [], ◌∷◌, ◌==◌, leb, if◌then◌else◌, Result, ok, err,
}
use stellar_agentic.Retry.{RetryPolicy, retry_async, retry_loop, compute_retry_delay_ms}
use stellar_agentic.Retry.Loop.{Succeeds, retry_async_iff}

abbrev policy : RetryPolicy
policy = record { attempts = 3; base_delay_ms = 250; max_delay_ms = 300; has_jitter = false }

abbrev same_delay : ℕ → ℕ
same_delay d = d

-- The third attempt succeeds; errors below 5 are worth a retry.
abbrev flaky : ℕ → Result ℕ ℕ
flaky n = if n == 3 then ok 42 else err n

abbrev broken : ℕ → Result ℕ ℕ
broken n = err 9

abbrev transient : ℕ → Bool
transient e = leb e 4

third_attempt : (retry_async flaky transient policy same_delay).delays ≡ 250 ∷ 300 ∷ []
unfolding retry_async retry_loop compute_retry_delay_ms
third_attempt = refl

retry_async_iff_example :
    ((retry_async flaky transient policy same_delay).result ≡ ok 42)
    ↔ Succeeds flaky transient policy same_delay 3 0 42
retry_async_iff_example = retry_async_iff flaky transient policy same_delay 42
