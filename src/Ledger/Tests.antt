-- ===== src/Ledger/Tests.antt =====
-- Runs of the ledger of packages/indexer/src/ledger.ts on a few events.
use stellar_agentic.Base.{ℕ, ◌≤◌, ◌≡◌, refl, true, none, some, List, [], ◌∷◌, ok, All, keep, map}
use stellar_agentic.Base.Int.{ℤ, pos, ◌+ℤ◌, ◌-ℤ◌}
use stellar_agentic.Base.Numbers.{Bytes, whole, bigint}
use stellar_agentic.Base.Sorting.{sort}
use stellar_agentic.Base.Texts.{codes, put, Dict}
use stellar_agentic.Base.Sorting.{insert}
use stellar_agentic.Ledger.Accounting.{HandlingSound, handle-HandlingSound}
use stellar_agentic.Ledger.Balance.{IsBalanced, total}
use stellar_agentic.Ledger.Channels.{
  simple_context, transfer, channel_entry, channel_outcome, channel_parties, handle_channel,
}
use stellar_agentic.Ledger.Entries.{
  amount, caught, entry, draft_entry, validate_entry, read_amount, entry_totals, check_totals,
  validated, name_postings, issue, error_message,
}
use stellar_agentic.Ledger.Json.{text, optional_text}
use stellar_agentic.Ledger.Normalize.{
  normalize_ledger, handle, handle_events, handle_payload, outcome_of, add_outcome, fee_entries,
  fee_entry, add_fee, draft_fee_entry, fee_id, fee_asset,
}
use stellar_agentic.Ledger.Reconcile.{
  position_key, split_key, passes, or_none, positions, from_of, in_range, reconcile_ledger,
  collect_positions, add_postings, activity_of, distinct, status_of, difference_of, line_of,
  check_request, line_keys, lines_of,
}
use stellar_agentic.Ledger.Reconciliation.{split_key-position_key, moved_by, reconcile_ledger_sound}
use stellar_agentic.Ledger.Records.{records, normalize_ledger-IsBalanced, normalize_ledger-records}
use stellar_agentic.Ledger.Samples.{runtime, parse_digits, event, events, fees, request}
use stellar_agentic.Ledger.Snapshots.{snapshots, snapshot_of, state_for}
use stellar_agentic.Ledger.{
  LedgerEntry, LedgerIssue, invalid_amount, channel_funding, channel_payment, channel_reference,
  owner_role, contract_role, recipient_role, matched, ReconciliationLine, ReconciliationResult,
}

-- The funding, its fee and the payment become entries, the conversion an issue.
ledgers : map LedgerEntry.ledger (normalize_ledger runtime events fees).entries ≡ 1 ∷ 1 ∷ 2 ∷ []
unfolding normalize_ledger handle_events handle outcome_of add_outcome fee_entries fee_entry add_fee
    draft_fee_entry fee_id fee_asset snapshots snapshot_of state_for text channel_entry
    channel_outcome channel_parties handle_payload handle_channel entry draft_entry validated
    validate_entry entry_totals check_totals name_postings amount read_amount caught issue
    error_message optional_text runtime parse_digits sort insert put ◌+ℤ◌ ◌-ℤ◌ bigint
ledgers = refl

codes_of_issues :
    map LedgerIssue.code (normalize_ledger runtime events fees).issues ≡ invalid_amount ∷ []
unfolding normalize_ledger handle_events handle outcome_of add_outcome fee_entries fee_entry add_fee
    draft_fee_entry fee_id fee_asset snapshots snapshot_of state_for text channel_entry
    channel_outcome channel_parties handle_payload handle_channel entry draft_entry validated
    validate_entry entry_totals check_totals name_postings amount read_amount caught issue
    error_message optional_text runtime parse_digits sort insert put ◌+ℤ◌ ◌-ℤ◌ bigint
codes_of_issues = refl

handle-HandlingSound_example : HandlingSound event (handle runtime [] [] event)
handle-HandlingSound_example = handle-HandlingSound event runtime [] []

normalize_ledger-IsBalanced_example : All IsBalanced (normalize_ledger runtime events fees).entries
normalize_ledger-IsBalanced_example = normalize_ledger-IsBalanced runtime events fees

normalize_ledger-records_example :
    (1 ≤ records (codes "3") (normalize_ledger runtime events fees))
    × (records (codes "3") (normalize_ledger runtime events fees) ≤ 1)
normalize_ledger-records_example = normalize_ledger-records runtime events fees (codes "3")

split_key-position_key_example :
    split_key (position_key (codes "CA") (codes "USD")) ≡ (codes "CA", codes "USD")
split_key-position_key_example =
    split_key-position_key (codes "CA") (codes "USD") (refl, (refl, tt))

abbrev matched_line : Bytes → ℕ → ReconciliationLine
matched_line account value = record {
  account = account;
  asset = codes "USD";
  opening_amount = pos 0;
  activity_amount = pos value;
  expected_amount = pos value;
  on_chain_amount = some (pos value);
  difference = some (pos 0);
  status = matched;
}

abbrev answer : ReconciliationResult
answer = record {
  from_ledger = whole (pos 0);
  as_of_ledger = whole (pos 3);
  reconciled = true;
  checked_entries = 2;
  lines = matched_line (codes "C") 3 ∷ matched_line (codes "R") 7 ∷ [];
}

abbrev observed : Dict ℤ
observed = (67 ∷ 0 ∷ codes "USD", pos 3) ∷ (82 ∷ 0 ∷ codes "USD", pos 7) ∷ []

-- What the funding and the payment posted.
abbrev entries : List LedgerEntry
entries =
    draft_entry event channel_funding channel_reference (codes "c") (
      simple_context (codes "A") (codes "O") (codes "C") none (codes "USD") (pos 10)
        (transfer (codes "O") owner_role (codes "C") contract_role (codes "USD") (pos 10)))
    ∷ draft_entry event channel_payment channel_reference (codes "c") (
        simple_context (codes "A") (codes "O") (codes "R") none (codes "USD") (pos 7)
          (transfer (codes "C") contract_role (codes "R") recipient_role (codes "USD") (pos 7)))
    ∷ []

answered : reconcile_ledger runtime entries request ≡ ok answer
unfolding reconcile_ledger check_request positions collect_positions activity_of add_postings
    position_key lines_of line_keys line_of distinct split_key status_of difference_of draft_entry
    name_postings runtime parse_digits sort insert put ◌+ℤ◌ ◌-ℤ◌ bigint
answered = refl

positions_read : positions runtime request.on_chain_positions ≡ ok observed
unfolding positions collect_positions position_key runtime parse_digits put bigint
positions_read = refl

abbrev in_request : List LedgerEntry
in_request = keep (in_range (from_of request) request.as_of_ledger) entries

passes_filter : passes request.accounts (split_key (67 ∷ 0 ∷ codes "USD")).0 ≡ true
unfolding split_key
passes_filter = refl

no_opening : positions runtime (or_none request.opening_positions) ≡ ok []
unfolding positions collect_positions
no_opening = refl

reconcile_ledger_sound_example :
    total (67 ∷ 0 ∷ codes "USD") observed
    ≡ total (67 ∷ 0 ∷ codes "USD") [] +ℤ moved_by request.accounts (67 ∷ 0 ∷ codes "USD") in_request
reconcile_ledger_sound_example =
    reconcile_ledger_sound runtime entries request answer [] observed answered no_opening
      positions_read refl (67 ∷ 0 ∷ codes "USD") passes_filter
