-- ===== src/Ledger/Normalize.antt =====
-- `normalizeLedger` of packages/indexer/src/ledger.ts: the loops over the events and the fees.
use stellar_agentic.Base.{Bool, Option, none, some, List, [], ◌∷◌, ◌++◌, Result, ok, err, ◌>>=◌}
use stellar_agentic.Base.Numbers.{Bytes}
use stellar_agentic.Base.Int.{ℤ}
use stellar_agentic.Base.Sorting.{sort}
use stellar_agentic.Base.Texts.{codes, Dict, get}
use stellar_agentic.Ledger.Entries.{LedgerError, amount, name_postings, caught, validated}
use stellar_agentic.Ledger.Json.{object, end}
use stellar_agentic.Ledger.Snapshots.{
  Snapshot, channel, job, compare_position, is_le, snapshots, state_for,
}
use stellar_agentic.Ledger.{
  Runtime, StoredEvent, DecodedEvent, channel_event, escrow_event, network_fee, fee_payer_role,
  network_role, transaction_reference, LedgerEntry, TransactionFee, LedgerIssue, NormalizedLedger,
}
use stellar_agentic.Ledger.Channels.{
  Outcome, nothing, posted, reported, transfer, native_asset, network_account, handle_channel,
}
use stellar_agentic.Ledger.Escrows.{handle_escrow}

unfoldable pub add_outcome : Outcome → NormalizedLedger → NormalizedLedger
add_outcome nothing n = n
add_outcome (posted e) n = record n { entries = e ∷ n.entries }
add_outcome (reported i) n = record n { issues = i ∷ n.issues }

unfoldable pub fee_asset : Option Bytes → Bytes
fee_asset none = native_asset
fee_asset (some a) = a

unfoldable pub fee_id : TransactionFee → Bytes
fee_id fee = codes "fee:" ++ fee.tx_hash

-- The record that the loop over the fees builds.
unfoldable pub draft_fee_entry : TransactionFee → ℤ → LedgerEntry
unfolding fee_asset fee_id name_postings
draft_fee_entry fee value =
    let asset = fee_asset fee.asset in
    record {
      entry_id = fee_id fee;
      event_id = none;
      tx_hash = fee.tx_hash;
      ledger = fee.ledger;
      ledger_closed_at = fee.ledger_closed_at;
      kind = network_fee;
      reference_type = transaction_reference;
      reference_id = fee.tx_hash;
      agent = fee.agent;
      owner = fee.owner;
      counterparty = some network_account;
      memo = none;
      source_asset = asset;
      source_amount = value;
      destination_asset = none;
      destination_amount = none;
      postings =
          name_postings (fee_id fee) 0
            (transfer fee.payer fee_payer_role network_account network_role asset value);
      metadata = object end;
    }

-- An entry that throws is left out.
unfoldable pub add_fee : Result LedgerError LedgerEntry → List LedgerEntry → List LedgerEntry
add_fee (ok e) es = e ∷ es
add_fee (err _) es = es

module _ (rt : Runtime) where
  unfoldable pub handle_payload :
      Dict (List Snapshot)
      → Dict (List Snapshot)
      → StoredEvent
      → DecodedEvent
      → Result LedgerError Outcome
  handle_payload channels jobs event (channel_event id action) =
      handle_channel rt event id (state_for rt event (get id channels)) action
  handle_payload channels jobs event (escrow_event id action) =
      handle_escrow rt event id (state_for rt event (get id jobs)) action
  handle_payload channels jobs event _ = ok nothing

  -- The body of the loop, inside its `try`.
  unfoldable pub handle :
      Dict (List Snapshot) → Dict (List Snapshot) → StoredEvent → Result LedgerError Outcome
  unfolding handle_payload
  handle channels jobs event = handle_payload channels jobs event event.payload

  unfoldable pub outcome_of : StoredEvent → Result LedgerError Outcome → Outcome
  unfolding caught
  outcome_of event (ok o) = o
  outcome_of event (err e) = reported (caught rt event e)

  -- The loop: what the events add, in their order.
  unfoldable pub handle_events :
      Dict (List Snapshot) → Dict (List Snapshot) → List StoredEvent → NormalizedLedger
  unfolding handle outcome_of add_outcome
  handle_events channels jobs [] = record { entries = []; issues = [] }
  handle_events channels jobs (e ∷ es) =
      add_outcome (outcome_of e (handle channels jobs e)) (handle_events channels jobs es)

  unfoldable pub fee_entry : TransactionFee → Result LedgerError LedgerEntry
  unfolding fee_id
  fee_entry fee = do
    value ← amount rt fee.charged (fee_id fee)
    validated (draft_fee_entry fee value)

  -- The loop over the fees.
  unfoldable pub fee_entries : List TransactionFee → List LedgerEntry
  unfolding fee_entry add_fee
  fee_entries [] = []
  fee_entries (f ∷ fs) = add_fee (fee_entry f) (fee_entries fs)

  abbrev pub event_le : StoredEvent → StoredEvent → Bool
  event_le a b = is_le (compare_position rt a.ledger a.paging_token b.ledger b.paging_token)

  abbrev pub entry_le : LedgerEntry → LedgerEntry → Bool
  entry_le a b = is_le (compare_position rt a.ledger a.entry_id b.ledger b.entry_id)

  abbrev pub issue_le : LedgerIssue → LedgerIssue → Bool
  issue_le a b = is_le (compare_position rt a.ledger a.issue_id b.ledger b.issue_id)

  unfoldable pub normalize_ledger : List StoredEvent → List TransactionFee → NormalizedLedger
  unfolding handle_events fee_entries snapshots
  normalize_ledger events fees =
      let n =
        handle_events (snapshots rt events channel) (snapshots rt events job)
          (sort event_le events) in
      record {
        entries = sort entry_le (n.entries ++ fee_entries fees);
        issues = sort issue_le n.issues;
      }
