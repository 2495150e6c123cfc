-- ===== src/Delivery/Bounds.antt =====
-- The bounds that `ScheduledReportService` of packages/indexer/src/delivery.ts keeps to.
use native.Mathlib.Nat.{two-pow-succ}
use stellar_agentic.Base.{
  ℕ, zero, suc, ◌+◌, ◌-◌, ◌*◌, ◌^◌, ◌≤◌, ◌≡◌, refl, ap, subst, min, max, Option, none, some, Result,
  ok, err, ok_injective, arith,
}
use stellar_agentic.Base.Int.{ℤ}
use stellar_agentic.Base.Numbers.{Bytes}
use stellar_agentic.Delivery.Claims.{claim_due, mark_delivered, mark_failed}
use stellar_agentic.Delivery.Service.{
  ServiceOptions, Awaited, message_of, then_do, call, call_with, retry_delay, DeliveryCounts,
  no_counts, count_failure, on_failure, after_attempt, attempt, deliver_loop, deliver_at, retry_at,
  deliver_due,
}
use stellar_agentic.Delivery.{
  Platform, ReportSchedule, GeneratedReportArtifact, DeliveryStatus, pending, delivering, retry,
  delivered, dead_letter, ClaimedDelivery, DeliveryError, DeliveryStore,
}
use stellar_agentic.Statement.{StatementPeriod}

-- How many deliveries are counted.
abbrev pub total_of : DeliveryCounts → ℕ
total_of c = c.delivered + c.retried + c.dead_lettered

-- The predicate holds of what is returned, if nothing is thrown.
record Returns {A : Type 0} (P : A → Type 0) (o : Awaited A) : Type 0 where
  value : (a : A) → o.1 ≡ ok a → P a

returned : {A : Type 0} (P : A → Type 0) (t : DeliveryStore) (a : A) → P a → Returns P (t, ok a)
returned P t a h = record { value = λ b e. subst P (ok_injective e) h }

thrown :
    {A : Type 0} (P : A → Type 0) (t : DeliveryStore) (e : DeliveryError) → Returns P (t, err e)
thrown P t e = record { value = λ b k. absurd (cc k) }

bind-Returns :
    {A B : Type 0} (P : A → Type 0) (Q : B → Type 0) (o : Awaited A)
    (f : DeliveryStore → A → Awaited B)
    → Returns P o
    → ((t : DeliveryStore) (a : A) → P a → Returns Q (f t a))
    → Returns Q (then_do o f)
bind-Returns P Q (t, ok a) f r h = h t a (r.value a refl)
bind-Returns P Q (t, err e) f r h = thrown Q t e

any-Returns : {A : Type 0} (o : Awaited A) → Returns (λ _. Unit {0}) o
any-Returns o = record { value = λ _ _. tt }

total-failure :
    (s : DeliveryStatus) (c : DeliveryCounts) → total_of (count_failure s c) ≡ total_of c + 1
total-failure pending c = omega arith
total-failure delivering c = omega arith
total-failure retry c = omega arith
total-failure delivered c = omega arith
total-failure dead_letter c = omega arith

module _ (p : Platform) (o : ServiceOptions)
    (build : ReportSchedule → StatementPeriod → DeliveryStore → Awaited GeneratedReportArtifact)
    (deliver : ClaimedDelivery → DeliveryStore → Awaited (Unit {0})) where
  retry_at-counts :
      (claim : ClaimedDelivery) (e : DeliveryError) (now_iso : Bytes) (c : DeliveryCounts)
      (t : DeliveryStore) (r : Result DeliveryError Bytes)
      → Returns
          (λ d. total_of d ≡ total_of c + 1)
          (retry_at p o build deliver claim e now_iso c t r)
  unfolding retry_at
  retry_at-counts claim e now_iso c t (err f) = thrown _ t f
  retry_at-counts claim e now_iso c t (ok next) =
      bind-Returns (λ _. Unit {0}) (λ d. total_of d ≡ total_of c + 1)
        (call_with t
          (mark_failed p claim.delivery.delivery_id (message_of p e) next o.max_attempts now_iso t))
        _ (any-Returns _) λ t' s _. returned _ t' (count_failure s c) (total-failure s c)

  after_attempt-counts :
      (claim : ClaimedDelivery) (now : ℤ) (now_iso : Bytes) (c : DeliveryCounts)
      (r : Awaited (Unit {0}))
      → Returns
          (λ d. total_of d ≡ total_of c + 1)
          (after_attempt p o build deliver claim now now_iso c r)
  unfolding after_attempt on_failure
  after_attempt-counts claim now now_iso c (t, ok u) = returned _ t _ (omega arith)
  after_attempt-counts claim now now_iso c (t, err e) = retry_at-counts claim e now_iso c t _

  attempt-counts :
      (claim : ClaimedDelivery) (now : ℤ) (now_iso : Bytes) (c : DeliveryCounts) (t : DeliveryStore)
      → Returns (λ d. total_of d ≡ total_of c + 1) (attempt p o build deliver claim now now_iso c t)
  unfolding attempt
  attempt-counts claim now now_iso c t = after_attempt-counts claim now now_iso c (
      then_do (deliver claim t)
        λ t' _. call t' (mark_delivered p claim.delivery.delivery_id now_iso t'))

  deliver_loop-counts :
      (left : ℕ) (now : ℤ) (now_iso : Bytes) (c : DeliveryCounts) (t : DeliveryStore)
      → Returns
          (λ d. total_of d ≤ total_of c + left)
          (deliver_loop p o build deliver left now now_iso c t)
  unfolding deliver_loop
  deliver_loop-counts zero now now_iso c t = returned _ t c (omega arith)
  deliver_loop-counts (suc left) now now_iso c t =
      bind-Returns (λ _. Unit {0}) (λ d. total_of d ≤ total_of c + suc left)
        (call_with t (claim_due p now_iso o.lease_ms t)) _ (any-Returns _)
        λ t' claim _.
          elim claim
            as (λ found.
              Returns (λ d. total_of d ≤ total_of c + suc left)
                (elim found [
                  | none ↦ (t', ok c)
                  | some k ↦
                      then_do (attempt p o build deliver k now now_iso c t')
                        λ t'' c'. deliver_loop p o build deliver left now now_iso c' t''
                ])) [
                  | none ↦ returned _ t' c (omega arith)
                  | some k ↦
                      bind-Returns (λ d. total_of d ≡ total_of c + 1)
                        (λ d. total_of d ≤ total_of c + suc left)
                        (attempt p o build deliver k now now_iso c t') _
                        (attempt-counts k now now_iso c t')
                        λ t'' c' e. record {
                          value = λ d h.
                              let rest = (deliver_loop-counts left now now_iso c' t'').value d h in
                              omega (arith, rest, e);
                        }
                ]

  deliver_at-counts :
      (now : ℤ) (limit : ℕ) (t : DeliveryStore) (printed : Option Bytes)
      → Returns (λ d. total_of d ≤ limit) (deliver_at p o build deliver now limit t printed)
  unfolding deliver_at
  deliver_at-counts now limit t none = thrown _ t _
  deliver_at-counts now limit t (some now_iso) = record {
    value = λ d h.
        let counted = (deliver_loop-counts limit now now_iso no_counts t).value d h in
        omega (arith, counted);
  }

  -- A round of deliveries counts at most as many of them as its limit says, the ones that were
  -- delivered, that will be tried again and that are dead together, however the transports end and
  -- whatever other workers do to the tables in the meantime.
  pub deliver_due_bounded :
      (now : ℤ) (limit : ℕ) (t : DeliveryStore) (c : DeliveryCounts)
      → (deliver_due p o build deliver now limit t).1 ≡ ok c
      → total_of c ≤ limit
  unfolding deliver_due
  deliver_due_bounded now zero t c h = omega (arith, ap total_of (ok_injective h))
  deliver_due_bounded now (suc limit) t c h =
      (deliver_at-counts now (suc limit) t (p.to_iso now)).value c h

min-doubled : (m x : ℕ) → min m (2 * x) ≡ min m (2 * min m x)
min-doubled m x = omega arith

twice : (b x : ℕ) → b * (x + x) ≡ 2 * (b * x)
twice b x = grind arith

after_two : (n : ℕ) → max 0 (n + 2 - 1) ≡ suc n
after_two n = omega arith

after_one : (n : ℕ) → max 0 (n + 1 - 1) ≡ n
after_one n = omega arith

-- The delay before the next attempt is at most the maximum, and below it doubles with each attempt.
pub retry_delay_doubles :
    (o : ServiceOptions) (n : ℕ)
    → (retry_delay o n ≤ o.max_retry_ms)
      × (retry_delay o (n + 2) ≡ min o.max_retry_ms (2 * retry_delay o (n + 1)))
unfolding retry_delay
retry_delay_doubles o n = (
  omega arith,
  rw (after_two n, after_one n, two-pow-succ n, twice o.base_retry_ms (2 ^ n))
      (min-doubled o.max_retry_ms (o.base_retry_ms * 2 ^ n)),
)
