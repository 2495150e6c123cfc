-- ===== src/Delivery/Service.antt =====
-- The periods of the runs and `ScheduledReportService` in packages/indexer/src/delivery.ts. What an
-- awaited call does is an argument, which may also change the tables: other workers share them.
use stellar_agentic.Base.{
  ℕ, zero, suc, ◌+◌, ◌-◌, ◌*◌, ◌^◌, min, max, Bool, true, false, Option, none, some, List, [], ◌∷◌,
  ◌++◌, if◌then◌else◌, Result, ok, err, ◌>>=◌, ◌>>◌, throw_if,
}
use stellar_agentic.Base.Int.{ℤ, pos, negsuc, ◌+ℤ◌, leb_ℤ}
use stellar_agentic.Base.Numbers.{Real, below, Bytes, Number}
use stellar_agentic.Base.Texts.{codes}
use stellar_agentic.Delivery.Claims.{claim_due, mark_delivered, mark_failed, shifted}
use stellar_agentic.Delivery.Tables.{due_schedules, enqueue_artifact, advance_schedule}
use stellar_agentic.Delivery.{
  Platform, ReportCadence, daily, weekly, monthly, quarterly, ReportSchedule,
  GeneratedReportArtifact, DeliveryStatus, dead_letter, ClaimedDelivery, DeliveryError, message,
  platform, DeliveryStore, iso,
}
use stellar_agentic.Statement.{StatementPeriod}

-- The sign of an amount of cadences: one on, or one back.
abbrev signed_amount : Bool → ℕ → ℤ
signed_amount true zero = pos 0
signed_amount true (suc n) = negsuc n
signed_amount false n = pos n

abbrev min_ℤ : ℤ → ℤ → ℤ
min_ℤ a b = if leb_ℤ a b then a else b

module _ (p : Platform) where
  -- The same day some months on, or the last day of that month.
  month_shifted : ℤ → ℤ → ℤ
  month_shifted t months =
      let first_day = p.with_day t (pos 1) in
      let moved = p.with_month first_day (p.month first_day +ℤ months) in
      let last_day = p.day (p.utc_date (p.year moved) (p.month moved +ℤ pos 1) (pos 0)) in
      p.with_day moved (min_ℤ (p.day t) last_day)

  cadence_shifted : ReportCadence → Bool → ℤ → ℤ
  unfolding month_shifted
  cadence_shifted daily back t = p.with_day t (p.day t +ℤ signed_amount back 1)
  cadence_shifted weekly back t = p.with_day t (p.day t +ℤ signed_amount back 7)
  cadence_shifted monthly back t = month_shifted t (signed_amount back 1)
  cadence_shifted quarterly back t = month_shifted t (signed_amount back 3)

  iso_of : Option ℤ → Result DeliveryError Bytes
  iso_of none = err platform
  iso_of (some t) = elim (p.to_iso t) [ none ↦ err platform | some s ↦ ok s ]

  unfoldable pub add_cadence : Bytes → ReportCadence → Bool → Result DeliveryError Bytes
  unfolding iso iso_of cadence_shifted
  add_cadence value cadence back = do
    text ← iso p value (codes "schedule boundary")
    iso_of (elim (p.parse text) [ none ↦ none | some t ↦ some (cadence_shifted cadence back t) ])

  unfoldable pub period_for_run : Bytes → ReportCadence → Result DeliveryError StatementPeriod
  unfolding iso shifted add_cadence
  period_for_run run_at cadence = do
    text ← iso p run_at (codes "runAt")
    through ← shifted p text (negsuc 0)
    from ← add_cadence run_at cadence true
    ok (record {
      from_ledger = none;
      through_ledger = none;
      from_timestamp = some from;
      through_timestamp = some through;
    })

-- The options, with their defaults filled in; delays are natural numbers of milliseconds.
pub record ServiceOptions : Type 0 where
  pub max_attempts : Real
  pub base_retry_ms : ℕ
  pub max_retry_ms : ℕ
  pub lease_ms : Number
  pub max_catch_up_runs : ℕ

-- The check of the constructor.
unfoldable pub create_service : ServiceOptions → Result DeliveryError ServiceOptions
create_service o =
    throw_if (below o.max_attempts (pos 1)) (message (codes "maxAttempts must be positive")) >> ok o

-- `error.message`
abbrev pub message_of : Platform → DeliveryError → Bytes
message_of p (message m) = m
message_of p platform = p.error_text

-- What an awaited call makes of the tables and how it ends.
abbrev pub Awaited : Type 0 → Type 0
Awaited A = DeliveryStore × Result DeliveryError A

abbrev pub then_do : {A B : Type 0} → Awaited A → (DeliveryStore → A → Awaited B) → Awaited B
then_do (t, ok a) f = f t a
then_do (t, err e) f = (t, err e)

-- A call of the store: an error leaves the tables as they were.
abbrev pub call : DeliveryStore → Result DeliveryError DeliveryStore → Awaited (Unit {0})
call t (ok t') = (t', ok tt)
call t (err e) = (t, err e)

abbrev pub call_with :
    {A : Type 0} → DeliveryStore → Result DeliveryError (DeliveryStore × A) → Awaited A
call_with t (ok (t', a)) = (t', ok a)
call_with t (err e) = (t, err e)

abbrev pub is_past : Option ℤ → ℤ → Bool
is_past none now = false
is_past (some t) now = leb_ℤ t now

-- The bound on the delay before the next attempt.
unfoldable pub retry_delay : ServiceOptions → ℕ → ℕ
retry_delay o attempt_count = min o.max_retry_ms (o.base_retry_ms * 2 ^ max 0 (attempt_count - 1))

pub record DeliveryCounts : Type 0 where
  pub delivered : ℕ
  pub retried : ℕ
  pub dead_lettered : ℕ

abbrev pub no_counts : DeliveryCounts
no_counts = record { delivered = 0; retried = 0; dead_lettered = 0 }

abbrev pub count_failure : DeliveryStatus → DeliveryCounts → DeliveryCounts
count_failure dead_letter c = record c { dead_lettered = c.dead_lettered + 1 }
count_failure _ c = record c { retried = c.retried + 1 }

module _ (p : Platform) (o : ServiceOptions)
    (build : ReportSchedule → StatementPeriod → DeliveryStore → Awaited GeneratedReportArtifact)
    (deliver : ClaimedDelivery → DeliveryStore → Awaited (Unit {0})) where
  abbrev run_key_of : ReportSchedule → Bytes
  run_key_of s = s.schedule_id ++ codes ":" ++ s.next_run_at

  -- One run of a schedule: the time of the next one, if the schedule was advanced to it.
  unfoldable pub generate_run : ReportSchedule → Bytes → DeliveryStore → Awaited (Option Bytes)
  unfolding period_for_run add_cadence enqueue_artifact advance_schedule
  generate_run s now t = elim (period_for_run p s.next_run_at s.cadence) [
    | err e ↦ (t, err e)
    | ok period ↦ then_do (build s period t) λ t1 artifact.
        then_do (call t1 (enqueue_artifact p s (run_key_of s) period artifact now t1)) λ t2 _.
          elim (add_cadence p s.next_run_at s.cadence false) [
            | err e ↦ (t2, err e)
            | ok next ↦
                then_do (call_with t2 (advance_schedule p s.schedule_id s.next_run_at next now t2))
                  λ t3 advanced. (t3, ok (if advanced then some next else none))
          ]
  ]

  -- The runs of a schedule that are past, as many as it may catch up with.
  unfoldable pub catch_up : ℕ → ReportSchedule → ℤ → Bytes → ℕ → DeliveryStore → Awaited ℕ
  unfolding generate_run
  catch_up zero s now now_iso generated t = (t, ok generated)
  catch_up (suc left) s now now_iso generated t = elim (is_past (p.parse s.next_run_at) now) [
    | false ↦ (t, ok generated)
    | true ↦ then_do (generate_run s now_iso t) λ t' next. elim next [
      | none ↦ (t', ok generated)
      | some n ↦ catch_up left (record s { next_run_at = n }) now now_iso (generated + 1) t'
    ]
  ]

  generate_all : List ReportSchedule → ℤ → Bytes → ℕ → DeliveryStore → Awaited ℕ
  unfolding catch_up
  generate_all [] now now_iso generated t = (t, ok generated)
  generate_all (s ∷ ss) now now_iso generated t =
      then_do (catch_up o.max_catch_up_runs s now now_iso generated t)
        λ t' n. generate_all ss now now_iso n t'

  unfoldable pub generate_due : ℤ → DeliveryStore → Awaited ℕ
  unfolding due_schedules generate_all
  generate_due now t = elim (p.to_iso now) [
    | none ↦ (t, err platform)
    | some now_iso ↦ elim (due_schedules p now_iso t) [
      | err e ↦ (t, err e)
      | ok due ↦ generate_all due now now_iso 0 t
    ]
  ]

  -- `new Date(now.getTime() + delay).toISOString()`
  delayed : ℤ → ℕ → Result DeliveryError Bytes
  delayed now delay = elim (p.to_iso (now +ℤ pos delay)) [ none ↦ err platform | some s ↦ ok s ]

  -- The failure of a delivery, once the time of its next attempt is known.
  unfoldable pub retry_at :
      ClaimedDelivery
      → DeliveryError
      → Bytes
      → DeliveryCounts
      → DeliveryStore
      → Result DeliveryError Bytes
      → Awaited DeliveryCounts
  unfolding mark_failed
  retry_at claim e now_iso c t (err f) = (t, err f)
  retry_at claim e now_iso c t (ok next) =
      then_do
        (call_with t
          (mark_failed p claim.delivery.delivery_id (message_of p e) next o.max_attempts now_iso t))
        λ t' status. (t', ok (count_failure status c))

  -- The `catch` of a delivery.
  unfoldable pub on_failure :
      ClaimedDelivery
      → DeliveryError
      → ℤ
      → Bytes
      → DeliveryCounts
      → DeliveryStore
      → Awaited DeliveryCounts
  unfolding retry_delay delayed retry_at
  on_failure claim e now now_iso c t =
      retry_at claim e now_iso c t (delayed now (retry_delay o claim.delivery.attempt_count))

  -- What is counted once the `try` of a delivery is over.
  unfoldable pub after_attempt :
      ClaimedDelivery → ℤ → Bytes → DeliveryCounts → Awaited (Unit {0}) → Awaited DeliveryCounts
  unfolding on_failure
  after_attempt claim now now_iso c (t, ok _) = (t, ok (record c { delivered = c.delivered + 1 }))
  after_attempt claim now now_iso c (t, err e) = on_failure claim e now now_iso c t

  unfoldable pub attempt :
      ClaimedDelivery → ℤ → Bytes → DeliveryCounts → DeliveryStore → Awaited DeliveryCounts
  unfolding mark_delivered after_attempt
  attempt claim now now_iso c t = after_attempt claim now now_iso c (
      then_do (deliver claim t)
        λ t' _. call t' (mark_delivered p claim.delivery.delivery_id now_iso t'))

  -- The loop, as many times as the limit says.
  unfoldable pub deliver_loop :
      ℕ → ℤ → Bytes → DeliveryCounts → DeliveryStore → Awaited DeliveryCounts
  unfolding claim_due attempt
  deliver_loop zero now now_iso c t = (t, ok c)
  deliver_loop (suc left) now now_iso c t =
      then_do (call_with t (claim_due p now_iso o.lease_ms t)) λ t' claim. elim claim [
        | none ↦ (t', ok c)
        | some k ↦
            then_do (attempt k now now_iso c t') λ t'' c'. deliver_loop left now now_iso c' t''
      ]

  -- The loop at a time that the platform can print.
  unfoldable pub deliver_at : ℤ → ℕ → DeliveryStore → Option Bytes → Awaited DeliveryCounts
  unfolding deliver_loop
  deliver_at now limit t none = (t, err platform)
  deliver_at now limit t (some now_iso) = deliver_loop limit now now_iso no_counts t

  unfoldable pub deliver_due : ℤ → ℕ → DeliveryStore → Awaited DeliveryCounts
  unfolding deliver_at
  deliver_due now zero t = (t, ok no_counts)
  deliver_due now (suc limit) t = deliver_at now (suc limit) t (p.to_iso now)

  unfoldable pub tick : ℤ → DeliveryStore → Awaited (ℕ × DeliveryCounts)
  unfolding generate_due deliver_due
  tick now t =
      then_do (generate_due now t)
        λ t' n. then_do (deliver_due now 100 t') λ t'' c. (t'', ok (n, c))
