-- ===== src/Ledger.antt =====
-- packages/indexer/src/ledger.ts over the types of packages/indexer/src/types.ts: the data that the
-- indexer's ledger is made of. An amount of a posting is the integer whose decimal text the source
-- keeps, and so are the amounts of a reconciliation; the amounts of events, fees and positions are
-- the texts that come in. The ledger number of an event is a natural.
pub mod Json
pub mod Snapshots
pub mod Entries
pub mod Channels
pub mod Escrows
pub mod Normalize
pub mod Balance
pub mod Accounting
pub mod Records
pub mod Reconcile
pub mod Reconciliation
pub mod Samples
mod Tests
use stellar_agentic.Base.{ℕ, Bool, Option, List, Ordering}
use stellar_agentic.Base.Int.{ℤ, pos, ◌-ℤ◌}
use stellar_agentic.Base.Numbers.{Bytes, Number}
use Json.{JsonValue}

-- What the language gives: `BigInt` of a text, which throws where there is none, `toString` of a
-- bigint, and `localeCompare`.
pub record Runtime : Type 0 where
  pub parse : Bytes → Option ℤ
  pub print : ℤ → Bytes
  pub locale : Bytes → Bytes → Ordering

-- `-value`
abbrev pub neg : ℤ → ℤ
neg z = pos 0 -ℤ z

pub data ContractKind : Type 0 where
  payment_channel escrow_contract rate_limiter agent_wallet_factory : ContractKind

pub data ChannelAction : Type 0 where
  opened : (agent owner deposit : Bytes) → ChannelAction
  paid : (agent recipient amount memo : Bytes) → ChannelAction
  convpaid : (agent recipient amount destination_token received memo : Bytes) → ChannelAction
  topup : (owner amount : Bytes) → ChannelAction
  closed : (owner refund : Bytes) → ChannelAction

pub data EscrowAction : Type 0 where
  created : (requester amount : Bytes) → EscrowAction
  accepted : (worker : Bytes) → EscrowAction
  result : (worker : Bytes) → EscrowAction
  released : (worker amount : Bytes) → EscrowAction
  refunded : (requester amount : Bytes) → EscrowAction
  disputed : (requester : Bytes) → EscrowAction
  resolved : (arbiter : Bytes) (favor_worker : Bool) → EscrowAction

-- The payload of an event, by its namespace and its action.
pub data DecodedEvent : Type 0 where
  channel_event : (channel_id : Bytes) → ChannelAction → DecodedEvent
  escrow_event : (job_id : Bytes) → EscrowAction → DecodedEvent
  rl_recorded : (agent amount : Bytes) → DecodedEvent
  rl_killed : (agent : Bytes) → DecodedEvent
  factory_created : (agent_id agent owner : Bytes) → DecodedEvent
  factory_deactivated : (agent_id owner : Bytes) → DecodedEvent
  factory_reactivated : (agent_id owner : Bytes) → DecodedEvent
  state_channel : (channel_id : Bytes) (state : JsonValue) → DecodedEvent
  state_job : (job_id : Bytes) (state : JsonValue) → DecodedEvent
  state_limit : (agent : Bytes) (state : JsonValue) → DecodedEvent
  state_agent : (agent_id : Bytes) (state : JsonValue) → DecodedEvent

pub data EntityType : Type 0 where
  channel_entity job_entity agent_entity : EntityType

pub record StoredEvent : Type 0 where
  pub event_id : Bytes
  pub contract_kind : ContractKind
  pub contract_address : Bytes
  pub ledger : ℕ
  pub ledger_closed_at : Bytes
  pub tx_hash : Bytes
  pub paging_token : Bytes
  pub namespace : Bytes
  pub action : Bytes
  pub entity_type : Option EntityType
  pub entity_id : Option Bytes
  pub payload : DecodedEvent

pub data LedgerEntryKind : Type 0 where
  channel_funding channel_top_up channel_payment channel_conversion : LedgerEntryKind
  channel_refund escrow_lock escrow_release escrow_refund network_fee : LedgerEntryKind

pub data LedgerAccountRole : Type 0 where
  owner_role agent_role recipient_role requester_role worker_role : LedgerAccountRole
  contract_role conversion_role fee_payer_role network_role : LedgerAccountRole

pub record LedgerPosting : Type 0 where
  pub posting_id : Bytes
  pub account : Bytes
  pub role : LedgerAccountRole
  pub asset : Bytes
  pub amount : ℤ

pub data ReferenceType : Type 0 where
  channel_reference job_reference transaction_reference : ReferenceType

pub record LedgerEntry : Type 0 where
  pub entry_id : Bytes
  pub event_id : Option Bytes
  pub tx_hash : Bytes
  pub ledger : ℕ
  pub ledger_closed_at : Bytes
  pub kind : LedgerEntryKind
  pub reference_type : ReferenceType
  pub reference_id : Bytes
  pub agent : Option Bytes
  pub owner : Option Bytes
  pub counterparty : Option Bytes
  pub memo : Option Bytes
  pub source_asset : Bytes
  pub source_amount : ℤ
  pub destination_asset : Option Bytes
  pub destination_amount : Option ℤ
  pub postings : List LedgerPosting
  pub metadata : JsonValue

pub record TransactionFee : Type 0 where
  pub tx_hash : Bytes
  pub ledger : ℕ
  pub ledger_closed_at : Bytes
  pub payer : Bytes
  pub charged : Bytes
  pub asset : Option Bytes
  pub agent : Option Bytes
  pub owner : Option Bytes

pub data IssueCode : Type 0 where
  missing_channel_state missing_job_state invalid_amount unbalanced_entry : IssueCode

pub record LedgerIssue : Type 0 where
  pub issue_id : Bytes
  pub event_id : Bytes
  pub tx_hash : Bytes
  pub ledger : ℕ
  pub code : IssueCode
  pub message : Bytes

pub record NormalizedLedger : Type 0 where
  pub entries : List LedgerEntry
  pub issues : List LedgerIssue

pub record BalancePosition : Type 0 where
  pub account : Bytes
  pub asset : Bytes
  pub amount : Bytes

pub record ReconciliationRequest : Type 0 where
  pub from_ledger : Option Number
  pub as_of_ledger : Number
  pub opening_positions : Option (List BalancePosition)
  pub on_chain_positions : List BalancePosition
  pub accounts : Option (List Bytes)

pub data ReconciliationStatus : Type 0 where
  matched discrepancy missing_on_chain : ReconciliationStatus

pub record ReconciliationLine : Type 0 where
  pub account : Bytes
  pub asset : Bytes
  pub opening_amount : ℤ
  pub activity_amount : ℤ
  pub expected_amount : ℤ
  pub on_chain_amount : Option ℤ
  pub difference : Option ℤ
  pub status : ReconciliationStatus

pub record ReconciliationResult : Type 0 where
  pub from_ledger : Number
  pub as_of_ledger : Number
  pub reconciled : Bool
  pub checked_entries : ℕ
  pub lines : List ReconciliationLine
