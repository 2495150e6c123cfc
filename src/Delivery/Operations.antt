-- ===== src/Delivery/Operations.antt =====
-- The calls of `ReportDeliveryStore` in packages/indexer/src/delivery.ts that change its tables, as
-- operations that its workers make in any order.
use stellar_agentic.Base.{List, [], ◌∷◌}
use stellar_agentic.Base.Numbers.{Bytes, Real, Number}
use stellar_agentic.Delivery.Claims.{claim_due, mark_delivered, mark_failed, replay_dead_letter}
use stellar_agentic.Delivery.Service.{call, call_with}
use stellar_agentic.Delivery.Tables.{save_schedule, advance_schedule, enqueue_artifact}
use stellar_agentic.Delivery.{
  Platform, ReportScheduleInput, ReportSchedule, GeneratedReportArtifact, DeliveryStore,
}
use stellar_agentic.Statement.{StatementPeriod}

-- A call of the store that changes it, by any of its workers.
pub data Operation : Type 0 where
  save : (input : ReportScheduleInput) (now : Bytes) → Operation
  advance : (id expected next now : Bytes) → Operation
  enqueue :
      (s : ReportSchedule) (run_key : Bytes) (period : StatementPeriod)
      (generated : GeneratedReportArtifact) (now : Bytes)
      → Operation
  claim : (now : Bytes) (lease_ms : Number) → Operation
  finish : (id now : Bytes) → Operation
  fail : (id error next : Bytes) (max_attempts : Real) (now : Bytes) → Operation
  replay : (id now : Bytes) → Operation

abbrev pub empty_tables : DeliveryStore
empty_tables = record { schedules = []; artifacts = []; deliveries = [] }

module _ (p : Platform) where
  unfoldable pub operate : Operation → DeliveryStore → DeliveryStore
  operate (save i now) t = (call t (save_schedule p i now t)).0
  operate (advance id expected next now) t =
      (call_with t (advance_schedule p id expected next now t)).0
  operate (enqueue s run_key period generated now) t =
      (call t (enqueue_artifact p s run_key period generated now t)).0
  operate (claim now lease_ms) t = (call_with t (claim_due p now lease_ms t)).0
  operate (finish id now) t = (call t (mark_delivered p id now t)).0
  operate (fail id error next max_attempts now) t =
      (call_with t (mark_failed p id error next max_attempts now t)).0
  operate (replay id now) t = (call t (replay_dead_letter p id now t)).0

  unfoldable pub operate_all : List Operation → DeliveryStore → DeliveryStore
  unfolding operate
  operate_all [] t = t
  operate_all (o ∷ os) t = operate_all os (operate o t)
