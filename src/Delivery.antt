-- ===== src/Delivery.antt =====
-- packages/indexer/src/delivery.ts: schedules, artifacts and deliveries of reports, and the checks on
-- them. A table of the database is the list of its rows in the order of insertion; what is stored as
-- JSON is kept as the data. Time stamps are texts, which SQL compares byte by byte.
pub mod Tables
pub mod Claims
pub mod Service
pub mod States
pub mod Rows
pub mod Operations
pub mod Calls
pub mod Invariant
pub mod History
pub mod Final
pub mod Bounds
mod Tests
use stellar_agentic.Base.{
  ℕ, Bool, true, false, not, ◌||◌, Option, none, some, List, [], ◌∷◌, ◌++◌, ◌==◌, is_nil, Result,
  ok, err, ◌>>=◌, ◌>>◌, throw_if,
}
use stellar_agentic.Base.Int.{ℤ}
use stellar_agentic.Base.Numbers.{Bytes}
use stellar_agentic.Base.Texts.{same_bytes, codes, member, lexicographic}
use stellar_agentic.Export.{StatementExportFormat}
use stellar_agentic.Ledger.Snapshots.{is_le}
use stellar_agentic.Statement.{StatementPeriod, StatementSubject}

-- What the language and its platform give: `Date.parse` (`none` for what is no date), `toISOString`
-- (`none` where it throws), the fields of a UTC date and their setters, `Date.UTC` of a year, a month
-- and a day, the protocol of `new URL` (`none` where it throws), SHA-256 in hexadecimal, and the text
-- of an error that the platform throws.
pub record Platform : Type 0 where
  pub parse : Bytes → Option ℤ
  pub to_iso : ℤ → Option Bytes
  pub year : ℤ → ℤ
  pub month : ℤ → ℤ
  pub day : ℤ → ℤ
  pub with_day : ℤ → ℤ → ℤ
  pub with_month : ℤ → ℤ → ℤ
  pub utc_date : ℤ → ℤ → ℤ → ℤ
  pub protocol : Bytes → Option Bytes
  pub sha256 : Bytes → Bytes
  pub error_text : Bytes

pub data ReportCadence : Type 0 where
  daily weekly monthly quarterly : ReportCadence

pub data ReportDestination : Type 0 where
  webhook : (id url : Bytes) (headers : List (Bytes × Bytes)) → ReportDestination
  email : (id : Bytes) (to : List Bytes) (sender subject : Option Bytes) → ReportDestination

pub record ReportScheduleInput : Type 0 where
  pub schedule_id : Bytes
  pub subject : StatementSubject
  pub cadence : ReportCadence
  pub format : StatementExportFormat
  pub destinations : List ReportDestination
  pub next_run_at : Bytes
  pub enabled : Option Bool

pub record ReportSchedule : Type 0 where
  pub schedule_id : Bytes
  pub subject : StatementSubject
  pub cadence : ReportCadence
  pub format : StatementExportFormat
  pub destinations : List ReportDestination
  pub next_run_at : Bytes
  pub enabled : Bool
  pub created_at : Bytes
  pub updated_at : Bytes

pub record GeneratedReportArtifact : Type 0 where
  pub statement_id : Bytes
  pub format : StatementExportFormat
  pub content_type : Bytes
  pub filename : Bytes
  pub content : Bytes

pub record StoredReportArtifact : Type 0 where
  pub artifact_id : Bytes
  pub schedule_id : Bytes
  pub run_key : Bytes
  pub generated : GeneratedReportArtifact
  pub period : StatementPeriod
  pub sha256 : Bytes
  pub created_at : Bytes

pub data DeliveryStatus : Type 0 where
  pending delivering retry delivered dead_letter : DeliveryStatus

pub record ReportDelivery : Type 0 where
  pub delivery_id : Bytes
  pub artifact_id : Bytes
  pub schedule_id : Bytes
  pub run_key : Bytes
  pub destination : ReportDestination
  pub idempotency_key : Bytes
  pub status : DeliveryStatus
  pub attempt_count : ℕ
  pub next_attempt_at : Bytes
  pub lease_until : Option Bytes
  pub last_error : Option Bytes
  pub delivered_at : Option Bytes
  pub created_at : Bytes
  pub updated_at : Bytes

pub record ClaimedDelivery : Type 0 where
  pub delivery : ReportDelivery
  pub artifact : StoredReportArtifact

-- What is thrown: an error of the code, by its message, or one of the platform or the database.
pub data DeliveryError : Type 0 where
  message : Bytes → DeliveryError
  platform : DeliveryError

-- The tables.
pub record DeliveryStore : Type 0 where
  pub schedules : List ReportSchedule
  pub artifacts : List StoredReportArtifact
  pub deliveries : List ReportDelivery

-- The order of texts in SQL.
abbrev pub text_le : Bytes → Bytes → Bool
text_le a b = is_le (lexicographic a b)

abbrev pub destination_id : ReportDestination → Bytes
destination_id (webhook id _ _) = id
destination_id (email id _ _ _) = id

abbrev or_platform : Option Bytes → Result DeliveryError Bytes
or_platform none = err platform
or_platform (some s) = ok s

-- `/^https?:$/`
abbrev is_http : Bytes → Bool
is_http protocol = same_bytes protocol (codes "http:") || same_bytes protocol (codes "https:")

contains : ℕ → Bytes → Bool
contains c [] = false
contains c (b ∷ bs) = (c == b) || contains c bs

-- Some address has no `@`.
some_invalid : List Bytes → Bool
unfolding contains
some_invalid [] = false
some_invalid (a ∷ rest) = not (contains 64 a) || some_invalid rest

check_protocol : Option Bytes → Result DeliveryError (Unit {0})
check_protocol none = err platform
check_protocol (some q) =
    throw_if (not (is_http q)) (message (codes "webhook URL must use HTTP or HTTPS"))

module _ (p : Platform) where
  unfoldable pub iso : Bytes → Bytes → Result DeliveryError Bytes
  iso value label = elim (p.parse value) [
    | none ↦ err (message (label ++ codes " must be an ISO-8601 timestamp"))
    | some t ↦ or_platform (p.to_iso t)
  ]

  check_address : ReportDestination → Result DeliveryError (Unit {0})
  unfolding check_protocol some_invalid
  check_address (webhook _ url _) = check_protocol (p.protocol url)
  check_address (email _ to _ _) =
      throw_if (is_nil to || some_invalid to)
        (message (codes "email destination requires at least one valid recipient"))

  unfoldable pub validate_destination : ReportDestination → Result DeliveryError (Unit {0})
  unfolding check_address
  validate_destination d =
      throw_if (is_nil (destination_id d)) (message (codes "destination id is required"))
      >> check_address d

  -- The loop over the destinations, with the ids that it has seen.
  unfoldable pub check_destinations :
      List ReportDestination → List Bytes → Result DeliveryError (Unit {0})
  unfolding validate_destination
  check_destinations [] seen = ok tt
  check_destinations (d ∷ ds) seen =
      validate_destination d
      >> throw_if (member (destination_id d) seen)
          (message (codes "duplicate destination " ++ destination_id d))
      >> check_destinations ds (destination_id d ∷ seen)

  unfoldable pub validate_schedule : ReportScheduleInput → Result DeliveryError (Unit {0})
  unfolding iso check_destinations
  validate_schedule i = do
    _ ← throw_if (is_nil i.schedule_id) (message (codes "schedule id is required"))
    _ ← throw_if (is_nil i.subject.id) (message (codes "schedule subject id is required"))
    _ ← throw_if (is_nil i.destinations) (message (codes "schedule requires a destination"))
    _ ← check_destinations i.destinations []
    _ ← iso i.next_run_at (codes "nextRunAt")
    ok tt
