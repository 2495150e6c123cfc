-- ===== src/Export/Tests.antt =====
-- Runs of the exports of packages/indexer/src/export.ts.
use stellar_agentic.Base.{◌≡◌, refl, true, none, some, [], ◌∷◌, map, length, All}
use stellar_agentic.Base.Texts.{codes}
use stellar_agentic.Base.Int.{pos}
use stellar_agentic.Export.Cells.{csv_cell, iif_cell, is_safe}
use stellar_agentic.Export.Csv.{before, read_record, shown_of, csv_row-read}
use stellar_agentic.Export.Iif.{split_tabs, iif_data_row-split, filename-safe}
use stellar_agentic.Export.{
  csv, describe_statement_export, row, csv_values, csv_row, trns, iif_values, iif_data_row,
}
use stellar_agentic.Ledger.Samples.{runtime}
use stellar_agentic.Ledger.{channel_payment, channel_reference}
use stellar_agentic.Statement.Continuity.{ledgers}
use stellar_agentic.Statement.{agent_subject, payment, debit, StatementLine, Statement}

abbrev line : StatementLine
line = record {
  line_id = codes "1";
  entry_id = codes "e";
  event_id = none;
  tx_hash = codes "t";
  ledger = 2;
  ledger_closed_at = [];
  kind = channel_payment;
  category = payment;
  direction = debit;
  counterparty = some (codes "=R");
  memo = some (codes "a,\"b\"\t\n");
  reference_type = channel_reference;
  reference_id = codes "c";
  asset = codes "USD";
  amount = pos 7;
  signed_amount = pos 7;
  destination_asset = none;
  destination_amount = none;
  running_balance = pos 3;
}

abbrev statement : Statement
statement = record {
  statement_id = codes "a/b";
  subject = record { kind = agent_subject; id = codes "A" };
  period = ledgers 0 none;
  lines = line ∷ [];
  positions = [];
  categories = [];
  evidence = record {
    entry_count = 1;
    transaction_count = 1;
    transaction_hashes = codes "t" ∷ [];
    first_ledger = some 2;
    last_ledger = some 2;
  };
  reconciliation = none;
}

quoted : csv_cell (some (codes "=a\"b")) true ≡ codes "\"'=a\"\"b\""
unfolding csv_cell
quoted = refl

blank : iif_cell (some (codes "a\t\nb")) ≡ codes "a b"
unfolding iif_cell
blank = refl

csv_row-read_example :
    read_record before (csv_row runtime (row statement line))
    ≡ some (shown_of (csv_values runtime (row statement line)))
csv_row-read_example = csv_row-read runtime (row statement line)

iif_data_row-split_example :
    (split_tabs (iif_data_row runtime (λ _. none) trns statement line)
      ≡ map iif_cell (iif_values runtime (λ _. none) trns statement line))
    × (length (iif_values runtime (λ _. none) trns statement line) ≡ 10)
iif_data_row-split_example = iif_data_row-split runtime (λ _. none) trns statement line

filename-safe_example :
    All (λ c. is_safe c ≡ true) (describe_statement_export statement csv).filename
filename-safe_example = filename-safe statement csv
