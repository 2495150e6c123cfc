-- ===== src/Delivery/Tests.antt =====
-- Runs of the deliveries of packages/indexer/src/delivery.ts on a small platform.
use mathlib.Core.List.{Mem, mem-cons_self}
use stellar_agentic.Base.{
  All, ◌≤◌, ◌≡◌, refl, min, ◌*◌, true, Option, none, some, List, [], ◌∷◌, map, err,
}
use stellar_agentic.Base.Int.{ℤ, pos, pos_part, ◌+ℤ◌}
use stellar_agentic.Base.Numbers.{Bytes, integer, whole}
use stellar_agentic.Base.Sorting.{sort, insert}
use stellar_agentic.Base.Texts.{codes}
use stellar_agentic.Delivery.Bounds.{total_of, deliver_due_bounded, retry_delay_doubles}
use stellar_agentic.Delivery.Claims.{
  claim_due, claim_row, read_claim, due_deliveries, mark_failed, fail_row, shifted, mark_delivered,
}
use stellar_agentic.Delivery.Operations.{
  Operation, save, enqueue, claim, finish, fail, operate, operate_all, empty_tables,
}
use stellar_agentic.Delivery.Final.{delivered_final}
use stellar_agentic.Delivery.History.{OnePerRun, operate_all-Inv}
use stellar_agentic.Delivery.Invariant.{Inv}
use stellar_agentic.Delivery.Rows.{Distinct}
use stellar_agentic.Delivery.States.{HasKey}
use stellar_agentic.Delivery.Service.{
  ServiceOptions, Awaited, DeliveryCounts, retry_delay, deliver_due, deliver_at, deliver_loop,
  attempt, after_attempt, on_failure, retry_at,
}
use stellar_agentic.Delivery.Tables.{
  save_schedule, upsert_schedule, enqueue_artifact, insert_artifact, schedule_of, artifact_for_run,
  queue_existing, queue_deliveries, queued, insert_delivery, new_artifact,
}
use stellar_agentic.Delivery.{
  Platform, daily, webhook, delivered, ReportDestination, ReportScheduleInput, ReportSchedule,
  GeneratedReportArtifact, retry, ReportDelivery, ClaimedDelivery, platform, DeliveryStore, iso,
  validate_schedule, check_destinations, validate_destination,
}
use stellar_agentic.Export.{csv}
use stellar_agentic.Statement.{StatementPeriod, agent_subject}

-- A time is printed as one byte.
first_byte : Bytes → Option ℤ
first_byte [] = none
first_byte (b ∷ _) = some (pos b)

unfoldable small_platform : Platform
unfolding first_byte
small_platform = record {
  parse = first_byte;
  to_iso = λ t. some (pos_part t ∷ []);
  year = λ t. pos 0;
  month = λ t. pos 0;
  day = λ t. t;
  with_day = λ t d. d;
  with_month = λ t m. t;
  utc_date = λ y m d. d;
  protocol = λ u. some (codes "https:");
  sha256 = λ s. s;
  error_text = codes "error";
}

abbrev destination : ReportDestination
destination = webhook (codes "d") (codes "https://example.org") []

abbrev input : ReportScheduleInput
input = record {
  schedule_id = codes "s";
  subject = record { kind = agent_subject; id = codes "A" };
  cadence = daily;
  format = csv;
  destinations = destination ∷ [];
  next_run_at = 5 ∷ [];
  enabled = none;
}

abbrev saved : ReportSchedule
saved = record {
  schedule_id = codes "s";
  subject = record { kind = agent_subject; id = codes "A" };
  cadence = daily;
  format = csv;
  destinations = destination ∷ [];
  next_run_at = 5 ∷ [];
  enabled = true;
  created_at = 1 ∷ [];
  updated_at = 1 ∷ [];
}

abbrev period : StatementPeriod
period = record {
  from_ledger = none;
  through_ledger = none;
  from_timestamp = some (4 ∷ []);
  through_timestamp = some (4 ∷ []);
}

abbrev report : GeneratedReportArtifact
report = record {
  statement_id = codes "x";
  format = csv;
  content_type = codes "text/csv";
  filename = codes "x.csv";
  content = codes "1";
}

-- A schedule whose report is enqueued twice, claimed and not delivered.
abbrev operations : List Operation
operations =
    save input (1 ∷ [])
    ∷ enqueue saved (codes "s:5") period report (6 ∷ [])
    ∷ enqueue saved (codes "s:5") period report (7 ∷ [])
    ∷ claim (8 ∷ []) (whole (pos 2))
    ∷ fail (codes "delivery_s:s:5:d") (codes "no answer") (9 ∷ []) (integer (pos 3)) (8 ∷ [])
    ∷ []

statuses :
    map ReportDelivery.status (operate_all small_platform operations empty_tables).deliveries
    ≡ retry ∷ []
unfolding operate_all operate small_platform save_schedule upsert_schedule enqueue_artifact
    insert_artifact schedule_of artifact_for_run queue_existing queue_deliveries queued
    insert_delivery new_artifact claim_due claim_row read_claim due_deliveries mark_failed fail_row
    shifted iso validate_schedule check_destinations validate_destination sort insert first_byte
    ◌+ℤ◌
statuses = refl

empty-Inv : Inv empty_tables.deliveries
unfolding Distinct
empty-Inv = record { sound = tt; distinct = tt }

operate_all-Inv_example :
    Inv (operate_all small_platform operations empty_tables).deliveries
    × All HasKey (operate_all small_platform operations empty_tables).deliveries
    × OnePerRun (operate_all small_platform operations empty_tables).deliveries
operate_all-Inv_example = operate_all-Inv small_platform operations empty_tables empty-Inv tt

abbrev delivered_row : ReportDelivery
delivered_row = record {
  delivery_id = codes "delivery_s:s:5:d";
  artifact_id = codes "artifact_s:5";
  schedule_id = codes "s";
  run_key = codes "s:5";
  destination = destination;
  idempotency_key = codes "s:s:5:d";
  status = delivered;
  attempt_count = 1;
  next_attempt_at = 6 ∷ [];
  lease_until = none;
  last_error = none;
  delivered_at = some (9 ∷ []);
  created_at = 6 ∷ [];
  updated_at = 9 ∷ [];
}

abbrev ended : List Operation
ended =
    save input (1 ∷ [])
    ∷ enqueue saved (codes "s:5") period report (6 ∷ [])
    ∷ claim (8 ∷ []) (whole (pos 2))
    ∷ finish (codes "delivery_s:s:5:d") (9 ∷ [])
    ∷ []

ended_rows : (operate_all small_platform ended empty_tables).deliveries ≡ delivered_row ∷ []
unfolding operate_all operate small_platform save_schedule upsert_schedule enqueue_artifact
    insert_artifact schedule_of artifact_for_run queue_existing queue_deliveries queued
    insert_delivery new_artifact claim_due claim_row read_claim due_deliveries mark_delivered
    shifted iso validate_schedule check_destinations validate_destination sort insert first_byte
    ◌+ℤ◌
ended_rows = refl

-- The delivered row outlasts a failure that is reported too late.
delivered_final_example :
    Mem delivered_row
      (operate_all small_platform operations
        (operate_all small_platform ended empty_tables)).deliveries
delivered_final_example =
    delivered_final small_platform operations (operate_all small_platform ended empty_tables)
      delivered_row (operate_all-Inv small_platform ended empty_tables empty-Inv tt).0 refl
      (rw ended_rows mem-cons_self)

abbrev options : ServiceOptions
options = record {
  max_attempts = integer (pos 3);
  base_retry_ms = 30000;
  max_retry_ms = 1800000;
  lease_ms = whole (pos 2);
  max_catch_up_runs = 100;
}

abbrev nothing_built :
    ReportSchedule → StatementPeriod → DeliveryStore → Awaited GeneratedReportArtifact
nothing_built s q t = (t, err platform)

abbrev unanswered : ClaimedDelivery → DeliveryStore → Awaited (Unit {0})
unanswered c t = (t, err platform)

-- The tables with the delivery that is pending.
abbrev queue : DeliveryStore
queue =
    operate_all small_platform
      (save input (1 ∷ []) ∷ enqueue saved (codes "s:5") period report (6 ∷ []) ∷ []) empty_tables

abbrev one_retried : DeliveryCounts
one_retried = record { delivered = 0; retried = 1; dead_lettered = 0 }

deliver_due_bounded_example : total_of one_retried ≤ 2
unfolding operate_all operate small_platform save_schedule upsert_schedule enqueue_artifact
    insert_artifact schedule_of artifact_for_run queue_existing queue_deliveries queued
    insert_delivery new_artifact claim_due claim_row read_claim due_deliveries mark_failed fail_row
    shifted iso validate_schedule check_destinations validate_destination sort insert first_byte
    deliver_due deliver_at deliver_loop attempt after_attempt on_failure retry_at retry_delay
    mark_delivered ◌+ℤ◌
deliver_due_bounded_example =
    deliver_due_bounded small_platform options nothing_built unanswered (pos 8) 2 queue one_retried
      refl

retry_delay_doubles_example :
    (retry_delay options 1 ≤ 1800000)
    × (retry_delay options 3 ≡ min 1800000 (2 * retry_delay options 2))
retry_delay_doubles_example = retry_delay_doubles options 1
