-- ===== src/Statement.antt =====
-- packages/indexer/src/reporting.ts: the data of statements, what an entry of the ledger does to a
-- position, and the guards on a period. As in the ledger, an amount is the integer whose decimal text
-- the source keeps. `Date.parse` is an argument; a text that it does not read is `none`.
pub mod Groups
pub mod Build
pub mod Sums
pub mod Positions
pub mod Continuity
mod Tests
use stellar_agentic.Base.{
  ℕ, Bool, true, false, not, ◌||◌, Option, none, some, List, if◌then◌else◌, Result, ok, err, ◌>>=◌,
  ◌>>◌, throw_if,
}
use stellar_agentic.Base.Int.{ℤ, pos, ltb_ℤ}
use stellar_agentic.Base.Numbers.{Bytes, Number, whole, is_safe_integer, ltb_number}
use stellar_agentic.Base.Texts.{same_bytes}
use stellar_agentic.Ledger.{
  neg, LedgerEntryKind, channel_funding, channel_top_up, channel_payment, channel_conversion,
  channel_refund, escrow_lock, escrow_release, escrow_refund, network_fee, ReferenceType,
  LedgerEntry, ReconciliationResult,
}

pub data SubjectKind : Type 0 where
  agent_subject owner_subject : SubjectKind

pub record StatementSubject : Type 0 where
  pub kind : SubjectKind
  pub id : Bytes

pub record StatementPeriod : Type 0 where
  pub from_ledger : Option Number
  pub through_ledger : Option Number
  pub from_timestamp : Option Bytes
  pub through_timestamp : Option Bytes

pub record StatementOpeningPosition : Type 0 where
  pub asset : Bytes
  pub amount : Bytes

pub record StatementRequest : Type 0 where
  pub subject : StatementSubject
  pub period : StatementPeriod
  pub opening_positions : Option (List StatementOpeningPosition)
  pub reconciliation : Option ReconciliationResult

pub data StatementCategory : Type 0 where
  funding payment conversion refund escrow fee : StatementCategory

pub data StatementDirection : Type 0 where
  credit debit neutral : StatementDirection

pub record StatementLine : Type 0 where
  pub line_id : Bytes
  pub entry_id : Bytes
  pub event_id : Option Bytes
  pub tx_hash : Bytes
  pub ledger : ℕ
  pub ledger_closed_at : Bytes
  pub kind : LedgerEntryKind
  pub category : StatementCategory
  pub direction : StatementDirection
  pub counterparty : Option Bytes
  pub memo : Option Bytes
  pub reference_type : ReferenceType
  pub reference_id : Bytes
  pub asset : Bytes
  pub amount : ℤ
  pub signed_amount : ℤ
  pub destination_asset : Option Bytes
  pub destination_amount : Option ℤ
  pub running_balance : ℤ

pub record StatementPosition : Type 0 where
  pub asset : Bytes
  pub opening_amount : ℤ
  pub credits : ℤ
  pub debits : ℤ
  pub closing_amount : ℤ

pub data StatementCategoryDimension : Type 0 where
  by_counterparty by_asset by_payment_type : StatementCategoryDimension

pub record StatementCategoryTotal : Type 0 where
  pub dimension : StatementCategoryDimension
  pub key : Bytes
  pub asset : Bytes
  pub count : ℕ
  pub credits : ℤ
  pub debits : ℤ
  pub net : ℤ

pub record StatementEvidence : Type 0 where
  pub entry_count : ℕ
  pub transaction_count : ℕ
  pub transaction_hashes : List Bytes
  pub first_ledger : Option ℕ
  pub last_ledger : Option ℕ

pub record Statement : Type 0 where
  pub statement_id : Bytes
  pub subject : StatementSubject
  pub period : StatementPeriod
  pub lines : List StatementLine
  pub positions : List StatementPosition
  pub categories : List StatementCategoryTotal
  pub evidence : StatementEvidence
  pub reconciliation : Option ReconciliationResult

pub record Totals : Type 0 where
  pub credits : ℤ
  pub debits : ℤ

pub data StatementError : Type 0 where
  no_subject bad_from_ledger bad_through_ledger ledgers_reversed : StatementError
  bad_from_timestamp bad_through_timestamp timestamps_reversed : StatementError
  duplicate_opening : (asset : Bytes) → StatementError
  bad_opening : (asset : Bytes) → StatementError

-- The bounds in time that `validatePeriod` reads.
pub record Times : Type 0 where
  pub from_time : Option ℤ
  pub through_time : Option ℤ

-- A ledger of the period that is given and is no non-negative safe integer.
abbrev pub is_bad_ledger : Option Number → Bool
is_bad_ledger none = false
is_bad_ledger (some n) = not (is_safe_integer n) || ltb_number n (whole (pos 0))

abbrev pub number_after : Option Number → Option Number → Bool
number_after (some a) (some b) = ltb_number b a
number_after _ _ = false

abbrev pub time_after : Option ℤ → Option ℤ → Bool
time_after (some a) (some b) = ltb_ℤ b a
time_after _ _ = false

module _ (date : Bytes → Option ℤ) where
  unfoldable pub timestamp : Option Bytes → StatementError → Result StatementError (Option ℤ)
  timestamp none e = ok none
  timestamp (some value) e = elim (date value) [ none ↦ err e | some z ↦ ok (some z) ]

  unfoldable pub validate_period : StatementPeriod → Result StatementError Times
  unfolding timestamp
  validate_period p = do
    throw_if (is_bad_ledger p.from_ledger) bad_from_ledger
    throw_if (is_bad_ledger p.through_ledger) bad_through_ledger
    throw_if (number_after p.from_ledger p.through_ledger) ledgers_reversed
    from_time ← timestamp p.from_timestamp bad_from_timestamp
    through_time ← timestamp p.through_timestamp bad_through_timestamp
    throw_if (time_after from_time through_time) timestamps_reversed
    ok (record { from_time = from_time; through_time = through_time })

abbrev same_option : Option Bytes → Bytes → Bool
same_option none s = false
same_option (some t) s = same_bytes t s

abbrev pub attributed : StatementSubject → LedgerEntry → Bool
attributed s e = elim s.kind [
  | agent_subject ↦ same_option e.agent s.id
  | owner_subject ↦ same_option e.owner s.id
]

-- `bound !== undefined && ledger < bound`, and the same with `>`.
abbrev pub ledger_before : ℕ → Option Number → Bool
ledger_before l none = false
ledger_before l (some n) = ltb_number (whole (pos l)) n

abbrev pub ledger_behind : ℕ → Option Number → Bool
ledger_behind l none = false
ledger_behind l (some n) = ltb_number n (whole (pos l))

module _ (date : Bytes → Option ℤ) where
  -- `closedAt` is not a number where `date` reads nothing: every comparison with it is false.
  unfoldable pub in_period : StatementPeriod → Times → LedgerEntry → Bool
  in_period p t e =
      let closed_at = date e.ledger_closed_at in
      not (
        ledger_before e.ledger p.from_ledger
        || ledger_behind e.ledger p.through_ledger
        || time_after t.from_time closed_at
        || time_after closed_at t.through_time)

  unfoldable pub before_period : StatementPeriod → Times → LedgerEntry → Bool
  before_period p t e =
      let closed_at = date e.ledger_closed_at in
      ledger_before e.ledger p.from_ledger || time_after t.from_time closed_at

-- By the kind of the entry and its amount.
abbrev signed : LedgerEntryKind → ℤ → ℤ
signed channel_funding z = z
signed channel_top_up z = z
signed escrow_refund z = z
signed channel_payment z = neg z
signed channel_conversion z = neg z
signed channel_refund z = neg z
signed escrow_lock z = neg z
signed network_fee z = neg z
signed escrow_release z = pos 0

unfoldable pub impact : LedgerEntry → ℤ
impact e = signed e.kind e.source_amount

unfoldable pub category : LedgerEntryKind → StatementCategory
category channel_funding = funding
category channel_top_up = funding
category channel_payment = payment
category channel_conversion = conversion
category channel_refund = refund
category escrow_refund = refund
category escrow_lock = escrow
category escrow_release = escrow
category network_fee = fee

unfoldable pub direction : ℤ → StatementDirection
direction z = if ltb_ℤ (pos 0) z then credit else if ltb_ℤ z (pos 0) then debit else neutral
