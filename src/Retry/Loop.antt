-- ===== src/Retry/Loop.antt =====
-- How the loop of `retryAsync` in packages/core/src/retry.ts ends.
use stellar_agentic.Base.{
  ℕ, zero, suc, ◌+◌, ◌-◌, ◌≤◌, ◌<◌, ◌≡◌, ◌↔◌, refl, subst, ap, sym, ◌∙◌, Bool, true, false, not,
  ◌||◌, Option, none, some, ◌==◌, Bool-cases, ok_injective, [], inl, inr, ◌⊎◌, Result, ok, err,
  arith,
}
use stellar_agentic.Retry.{RetryPolicy, RetryRun, exhausted, retry_loop, retry_async}

module _ {ℓ} {E T : Type ℓ} where
  Result-cases : (r : Result E T) → ((v : T) × (r ≡ ok v)) ⊎ ((e : E) × (r ≡ err e))
  Result-cases (ok v) = inl (v, refl)
  Result-cases (err e) = inr (e, refl)

module _ {ℓ} {E T : Type ℓ} (attempt : ℕ → Result E T) (is_retryable : E → Bool) (p : RetryPolicy)
    (jittered : ℕ → ℕ) where
  -- An attempt fails with an error that is worth a retry.
  abbrev pub FailsRetryably : ℕ → Type ℓ
  FailsRetryably n = (e : E) × (attempt n ≡ err e) × (is_retryable e ≡ true)

  -- One of the attempts behind an index returns the value, and those before it fail retryably.
  abbrev pub Succeeds : ℕ → ℕ → T → Type ℓ
  Succeeds left i v =
      (k : ℕ) × (k < left)
      × (attempt (i + k + 1) ≡ ok v)
      × ((j : ℕ) → j < k → FailsRetryably (i + j + 1))

  abbrev at : ℕ → ℕ → Option E → RetryRun E T
  at left i last = retry_loop attempt is_retryable p jittered left i last

  loop-ok :
      (left i : ℕ) (last : Option E) (v : T)
      → attempt (i + 1) ≡ ok v
      → at (suc left) i last ≡ record { calls = 1; delays = []; result = ok v }
  unfolding retry_loop
  loop-ok left i last v e = rw (e, retry_loop) refl

  -- The loop ends at an error: it was the last attempt, or the error is not worth a retry.
  loop-stop :
      (left i : ℕ) (last : Option E) (x : E)
      → attempt (i + 1) ≡ err x
      → (left == 0) || not (is_retryable x) ≡ true
      → at (suc left) i last ≡ record {
        calls = 1;
        delays = [];
        result = err (record { attempts = p.attempts - 1 + 1; last_error = some x });
      }
  unfolding retry_loop exhausted
  loop-stop left i last x e s = rw (e, retry_loop, s) refl

  -- The loop goes on behind an error.
  loop-go :
      (left i : ℕ) (last : Option E) (x : E)
      → attempt (i + 1) ≡ err x
      → (left == 0) || not (is_retryable x) ≡ false
      → ((at (suc left) i last).result ≡ (at left (i + 1) (some x)).result)
        × ((at (suc left) i last).calls ≡ (at left (i + 1) (some x)).calls + 1)
  unfolding retry_loop
  loop-go left i last x e g = (rw (e, retry_loop, g) refl, rw (e, retry_loop, g) refl)

  earlier :
      (i k : ℕ)
      → FailsRetryably (i + 1)
      → ((j : ℕ) → j < k → FailsRetryably (i + 1 + j + 1))
      → (j : ℕ) → j < suc k
      → FailsRetryably (i + j + 1)
  earlier i k here before zero h = subst FailsRetryably (omega arith) here
  earlier i k here before (suc j) h = subst FailsRetryably (omega arith) (before j (omega arith))

  later :
      (left i : ℕ) (v : T)
      → FailsRetryably (i + 1)
      → Succeeds left (i + 1) v
      → Succeeds (suc left) i v
  later left i v here (k, h, ok_there, before) = (
    suc k,
    omega arith,
    subst (λ n. attempt n ≡ ok v) (omega arith) ok_there,
    earlier i k here before,
  )

  retry_loop-succeeds :
      (left i : ℕ) (last : Option E) (v : T) → (at left i last).result ≡ ok v → Succeeds left i v
  unfolding retry_loop exhausted
  retry_loop-succeeds zero i last v h = absurd cc
  retry_loop-succeeds (suc left) i last v h = elim (Result-cases (attempt (i + 1))) [
    | inl (w, e) ↦
        let same = loop-ok left i last w e in
        let w_v : w ≡ v = ok_injective (sym (ap (λ r. r.result) same) ∙ h) in
        (
          0,
          omega arith,
          subst (λ n. attempt n ≡ ok v) (omega arith) (e ∙ ap ok w_v),
          λ j b. absurd (omega arith),
        )
    | inr (x, e) ↦ elim (Bool-cases ((left == 0) || not (is_retryable x))) [
      | inl s ↦ absurd (let same = ap (λ r. r.result) (loop-stop left i last x e s) in cc)
      | inr g ↦
          later left i v (x, e, ground arith)
            (retry_loop-succeeds left (i + 1) (some x) v (sym (loop-go left i last x e g).0 ∙ h))
    ]
  ]

  retry_loop_returns :
      (left i : ℕ) (last : Option E) (v : T) → Succeeds left i v → (at left i last).result ≡ ok v
  retry_loop_returns zero i last v (k, h, o, before) = absurd (omega arith)
  retry_loop_returns (suc left) i last v (zero, h, o, before) =
      ap (λ r. r.result) (loop-ok left i last v (subst (λ n. attempt n ≡ ok v) (omega arith) o))
  retry_loop_returns (suc left) i last v (suc k, h, o, before) =
      let (x, fails, again) = before 0 (omega arith) in
      let e : attempt (i + 1) ≡ err x = subst (λ n. attempt n ≡ err x) (omega arith) fails in
      (loop-go left i last x e (ground arith)).0
      ∙ retry_loop_returns left (i + 1) (some x) v (
        k,
        omega arith,
        subst (λ n. attempt n ≡ ok v) (omega arith) o,
        λ j b. subst FailsRetryably (omega arith) (before (suc j) (omega arith)),
      )

  calls-le : (left i : ℕ) (last : Option E) → (at left i last).calls ≤ left
  unfolding retry_loop
  calls-le zero i last = omega arith
  calls-le (suc left) i last = elim (Result-cases (attempt (i + 1))) [
    | inl (w, e) ↦ rw (e, retry_loop) (omega arith)
    | inr (x, e) ↦ elim (Bool-cases ((left == 0) || not (is_retryable x))) [
      | inl s ↦ rw (e, retry_loop, s) (omega arith)
      | inr g ↦ let rest = calls-le left (i + 1) (some x) in rw (e, retry_loop, g) (omega arith)
    ]
  ]

  -- `retryAsync` returns a value just where one of its attempts, which are at most the policy's,
  -- returns it and each attempt before that one fails with an error that is worth a retry.
  pub retry_async_iff :
      (v : T)
      → ((retry_async attempt is_retryable p jittered).result ≡ ok v) ↔ Succeeds p.attempts 0 v
  unfolding retry_async
  retry_async_iff v =
      (retry_loop-succeeds p.attempts 0 none v, retry_loop_returns p.attempts 0 none v)

  -- `retryAsync` makes at most as many attempts as the policy allows.
  pub retry_async_bounded : (retry_async attempt is_retryable p jittered).calls ≤ p.attempts
  unfolding retry_async
  retry_async_bounded = calls-le p.attempts 0 none

  -- If the first attempt fails with an error that is not worth a retry, `retryAsync` makes that one
  -- attempt only, and the error that it throws reports as many attempts as the policy allows.
  pub retry_async_overcounts :
      (x : E)
      → 1 ≤ p.attempts
      → attempt 1 ≡ err x
      → is_retryable x ≡ false
      → ((retry_async attempt is_retryable p jittered).calls ≡ 1)
        × ((retry_async attempt is_retryable p jittered).result
            ≡ err (record { attempts = p.attempts; last_error = some x }))
  unfolding retry_async
  retry_async_overcounts x h e n =
      let left = p.attempts - 1 in
      let some_attempt : suc left ≡ p.attempts = omega arith in
      let all : p.attempts - 1 + 1 ≡ p.attempts = omega arith in
      let first_fails : attempt (0 + 1) ≡ err x = subst (λ k. attempt k ≡ err x) (omega arith) e in
      let stop = loop-stop left 0 none x first_fails (ground arith) in
      let same = subst (λ k. at k 0 none ≡ at (suc left) 0 none) some_attempt refl ∙ stop in
      (
        ap (λ r. r.calls) same,
        ap (λ r. r.result) same ∙ ap (λ k. err (record { attempts = k; last_error = some x })) all,
      )
