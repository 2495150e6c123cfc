-- ===== src/Export.antt =====
-- packages/indexer/src/export.ts: statements as CSV, as lines of JSON and as IIF. The amounts of a
-- statement are integers here, so a cell prints them. `JSON.stringify` and the fields of a UTC date
-- are arguments; a stream is the list of its chunks.
pub mod Cells
pub mod Csv
pub mod Iif
mod Tests
use stellar_agentic.Base.{
  ℕ, ◌+◌, Bool, true, false, Option, none, some, List, [], ◌∷◌, ◌++◌, map, if◌then◌else◌,
}
use stellar_agentic.Base.Int.{ℤ, pos}
use stellar_agentic.Base.Numbers.{Bytes}
use stellar_agentic.Base.Texts.{codes}
use stellar_agentic.Ledger.{
  Runtime, neg, LedgerEntryKind, ReferenceType, channel_reference, job_reference,
  transaction_reference,
}
use stellar_agentic.Statement.Groups.{kind_text}
use stellar_agentic.Statement.{
  SubjectKind, agent_subject, owner_subject, StatementCategory, funding, payment, conversion,
  refund, escrow, fee, StatementDirection, credit, debit, neutral, StatementLine, Statement,
}
use Cells.{csv_cell, join, iif_cell, safe_name}

pub data StatementExportFormat : Type 0 where
  csv json iif : StatementExportFormat

pub record StatementExportOptions : Type 0 where
  pub format : StatementExportFormat
  pub newline : Option Bytes
  pub include_header : Option Bool
  pub include_bom : Bool

pub record StatementExportDescriptor : Type 0 where
  pub format : StatementExportFormat
  pub content_type : Bytes
  pub extension : Bytes
  pub filename : Bytes

pub record VerifiableExportRow : Type 0 where
  pub schema_version : Bytes
  pub statement_id : Bytes
  pub subject_type : SubjectKind
  pub subject_id : Bytes
  pub line_id : Bytes
  pub entry_id : Bytes
  pub event_id : Option Bytes
  pub transaction_hash : Bytes
  pub ledger : ℕ
  pub ledger_closed_at : Bytes
  pub payment_type : LedgerEntryKind
  pub category : StatementCategory
  pub direction : StatementDirection
  pub counterparty : Option Bytes
  pub memo : Option Bytes
  pub reference_type : ReferenceType
  pub reference_id : Bytes
  pub asset : Bytes
  pub amount : ℤ
  pub signed_amount : ℤ
  pub destination_asset : Option Bytes
  pub destination_amount : Option ℤ
  pub running_balance : ℤ

unfoldable pub csv_columns : List Bytes
csv_columns =
    codes "schemaVersion"
    ∷ codes "statementId"
    ∷ codes "subjectType"
    ∷ codes "subjectId"
    ∷ codes "lineId"
    ∷ codes "entryId"
    ∷ codes "eventId"
    ∷ codes "transactionHash"
    ∷ codes "ledger"
    ∷ codes "ledgerClosedAt"
    ∷ codes "paymentType"
    ∷ codes "category"
    ∷ codes "direction"
    ∷ codes "counterparty"
    ∷ codes "memo"
    ∷ codes "referenceType"
    ∷ codes "referenceId"
    ∷ codes "asset"
    ∷ codes "amount"
    ∷ codes "signedAmount"
    ∷ codes "destinationAsset"
    ∷ codes "destinationAmount"
    ∷ codes "runningBalance"
    ∷ []

-- The texts that the source's unions are made of.
subject_text : SubjectKind → Bytes
subject_text agent_subject = codes "agent"
subject_text owner_subject = codes "owner"

category_text : StatementCategory → Bytes
category_text funding = codes "funding"
category_text payment = codes "payment"
category_text conversion = codes "conversion"
category_text refund = codes "refund"
category_text escrow = codes "escrow"
category_text fee = codes "fee"

direction_text : StatementDirection → Bytes
direction_text credit = codes "credit"
direction_text debit = codes "debit"
direction_text neutral = codes "neutral"

reference_text : ReferenceType → Bytes
reference_text channel_reference = codes "channel"
reference_text job_reference = codes "job"
reference_text transaction_reference = codes "transaction"

unfoldable pub row : Statement → StatementLine → VerifiableExportRow
row s l = record {
  schema_version = codes "stellaragent.audit.v1";
  statement_id = s.statement_id;
  subject_type = s.subject.kind;
  subject_id = s.subject.id;
  line_id = l.line_id;
  entry_id = l.entry_id;
  event_id = l.event_id;
  transaction_hash = l.tx_hash;
  ledger = l.ledger;
  ledger_closed_at = l.ledger_closed_at;
  payment_type = l.kind;
  category = l.category;
  direction = l.direction;
  counterparty = l.counterparty;
  memo = l.memo;
  reference_type = l.reference_type;
  reference_id = l.reference_id;
  asset = l.asset;
  amount = l.amount;
  signed_amount = l.signed_amount;
  destination_asset = l.destination_asset;
  destination_amount = l.destination_amount;
  running_balance = l.running_balance;
}

-- The year, the month from one and the day of a date in UTC.
pub record UtcDate : Type 0 where
  pub year : ℕ
  pub month : ℕ
  pub day : ℕ

abbrev print_amount : (ℤ → Bytes) → Option ℤ → Option Bytes
print_amount print none = none
print_amount print (some z) = some (print z)

module _ (rt : Runtime) where
  -- `value[column]` for each of the columns, and whether the column is textual.
  unfoldable pub csv_values : VerifiableExportRow → List (Option Bytes × Bool)
  unfolding subject_text category_text direction_text reference_text kind_text
  csv_values v =
      (some v.schema_version, true)
      ∷ (some v.statement_id, true)
      ∷ (some (subject_text v.subject_type), true)
      ∷ (some v.subject_id, true)
      ∷ (some v.line_id, true)
      ∷ (some v.entry_id, true)
      ∷ (v.event_id, true)
      ∷ (some v.transaction_hash, true)
      ∷ (some (rt.print (pos v.ledger)), false)
      ∷ (some v.ledger_closed_at, true)
      ∷ (some (kind_text v.payment_type), true)
      ∷ (some (category_text v.category), true)
      ∷ (some (direction_text v.direction), true)
      ∷ (v.counterparty, true)
      ∷ (v.memo, true)
      ∷ (some (reference_text v.reference_type), true)
      ∷ (some v.reference_id, true)
      ∷ (some v.asset, true)
      ∷ (some (rt.print v.amount), false)
      ∷ (some (rt.print v.signed_amount), false)
      ∷ (v.destination_asset, true)
      ∷ (print_amount rt.print v.destination_amount, false)
      ∷ (some (rt.print v.running_balance), false)
      ∷ []

  unfoldable pub csv_row : VerifiableExportRow → Bytes
  unfolding csv_values csv_cell join
  csv_row v = join b',' (map (λ c. csv_cell c.0 c.1) (csv_values v))

  unfoldable pub iif_date : Option UtcDate → Bytes
  iif_date none = codes "NaN/NaN/NaN"
  iif_date (some d) =
      rt.print (pos d.month)
      ++ codes "/"
      ++ rt.print (pos d.day)
      ++ codes "/"
      ++ rt.print (pos d.year)

iif_account : Statement → StatementLine → Bytes
unfolding subject_text
iif_account s l = subject_text s.subject.kind ++ codes ":" ++ s.subject.id ++ codes ":" ++ l.asset

text_or : Bytes → Option Bytes → Bytes
text_or missing none = missing
text_or missing (some s) = s

iif_offset : StatementLine → Bytes
unfolding category_text text_or
iif_offset l =
    codes "StellarAgent:"
    ++ category_text l.category
    ++ codes ":"
    ++ text_or (codes "uncategorized") l.counterparty
    ++ codes ":"
    ++ l.asset

pub data IifRow : Type 0 where
  trns spl endtrns : IifRow

module _ (rt : Runtime) (utc : Bytes → Option UtcDate) where
  iif_memo : StatementLine → Bytes
  unfolding text_or kind_text
  iif_memo l = text_or (kind_text l.kind ++ codes " " ++ l.entry_id) l.memo

  -- The values of a data row.
  unfoldable pub iif_values : IifRow → Statement → StatementLine → List (Option Bytes)
  unfolding iif_date iif_account iif_offset iif_memo
  iif_values endtrns s l =
      some (codes "ENDTRNS")
      ∷ some (codes "GENERAL")
      ∷ some (iif_date rt (utc l.ledger_closed_at))
      ∷ some []
      ∷ some (codes "0")
      ∷ some l.reference_id
      ∷ some (codes "end transaction")
      ∷ some l.tx_hash
      ∷ some (rt.print (pos l.ledger))
      ∷ some l.line_id
      ∷ []
  iif_values trns s l =
      some (codes "TRNS")
      ∷ some (codes "GENERAL")
      ∷ some (iif_date rt (utc l.ledger_closed_at))
      ∷ some (iif_account s l)
      ∷ some (rt.print l.signed_amount)
      ∷ some l.reference_id
      ∷ some (iif_memo l)
      ∷ some l.tx_hash
      ∷ some (rt.print (pos l.ledger))
      ∷ some l.line_id
      ∷ []
  iif_values spl s l =
      some (codes "SPL")
      ∷ some (codes "GENERAL")
      ∷ some (iif_date rt (utc l.ledger_closed_at))
      ∷ some (iif_offset l)
      ∷ some (rt.print (neg l.signed_amount))
      ∷ some l.reference_id
      ∷ some (iif_memo l)
      ∷ some l.tx_hash
      ∷ some (rt.print (pos l.ledger))
      ∷ some l.line_id
      ∷ []

  unfoldable pub iif_data_row : IifRow → Statement → StatementLine → Bytes
  unfolding iif_values iif_cell join
  iif_data_row t s l = join b'\t' (map iif_cell (iif_values t s l))

iif_columns : List Bytes
iif_columns =
    codes "ROWTYPE"
    ∷ codes "TRNSTYPE"
    ∷ codes "DATE"
    ∷ codes "ACCNT"
    ∷ codes "AMOUNT"
    ∷ codes "DOCNUM"
    ∷ codes "MEMO"
    ∷ codes "TXHASH"
    ∷ codes "LEDGER"
    ∷ codes "LINEID"
    ∷ []

unfoldable pub describe_statement_export :
    Statement → StatementExportFormat → StatementExportDescriptor
unfolding safe_name
describe_statement_export s csv = record {
  format = csv;
  content_type = codes "text/csv; charset=utf-8";
  extension = codes "csv";
  filename = safe_name s.statement_id ++ codes ".csv";
}
describe_statement_export s json = record {
  format = json;
  content_type = codes "application/x-ndjson; charset=utf-8";
  extension = codes "jsonl";
  filename = safe_name s.statement_id ++ codes ".jsonl";
}
describe_statement_export s iif = record {
  format = iif;
  content_type = codes "text/tab-separated-values; charset=utf-8";
  extension = codes "iif";
  filename = safe_name s.statement_id ++ codes ".iif";
}

abbrev newline_of : StatementExportOptions → Bytes
newline_of o = elim o.newline [ none ↦ codes "\n" | some n ↦ n ]

abbrev has_header : StatementExportOptions → Bool
has_header o = elim o.include_header [ none ↦ true | some b ↦ b ]

module _ (rt : Runtime) (utc : Bytes → Option UtcDate) (stringify : VerifiableExportRow → Bytes)
    (s : Statement) where
  csv_chunks : StatementExportOptions → List Bytes
  unfolding csv_row csv_columns csv_cell join row
  csv_chunks o =
      (if o.include_bom then (65279 ∷ []) ∷ [] else [])
      ++ (if has_header o
          then (join b',' (map (λ c. csv_cell (some c) true) csv_columns) ++ newline_of o) ∷ []
          else [])
      ++ map (λ l. csv_row rt (row s l) ++ newline_of o) s.lines

  json_chunks : StatementExportOptions → List Bytes
  unfolding row
  json_chunks o = map (λ l. stringify (row s l) ++ newline_of o) s.lines

  iif_lines : Bytes → List StatementLine → List Bytes
  unfolding iif_data_row
  iif_lines newline [] = []
  iif_lines newline (l ∷ ls) =
      (iif_data_row rt utc trns s l ++ newline)
      ∷ (iif_data_row rt utc spl s l ++ newline)
      ∷ (iif_data_row rt utc endtrns s l ++ newline)
      ∷ iif_lines newline ls

  iif_chunks : StatementExportOptions → List Bytes
  unfolding iif_lines iif_columns join
  iif_chunks o =
      (join b'\t' (map (λ c. codes "!" ++ c) iif_columns) ++ newline_of o)
      ∷ iif_lines (newline_of o) s.lines

  unfoldable pub stream_statement_export : StatementExportOptions → List Bytes
  unfolding csv_chunks json_chunks iif_chunks
  stream_statement_export o = elim o.format [
    | csv ↦ csv_chunks o
    | json ↦ json_chunks o
    | iif ↦ iif_chunks o
  ]

concat_bytes : List Bytes → Bytes
concat_bytes [] = []
concat_bytes (c ∷ cs) = c ++ concat_bytes cs

module _ (rt : Runtime) (utc : Bytes → Option UtcDate)
    (stringify : VerifiableExportRow → Bytes) where
  unfoldable pub collect_statement_export : Statement → StatementExportOptions → Bytes
  unfolding concat_bytes stream_statement_export
  collect_statement_export s o = concat_bytes (stream_statement_export rt utc stringify s o)
