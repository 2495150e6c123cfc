-- ===== src/Statement/Tests.antt =====
-- Runs of `buildStatement` of packages/indexer/src/reporting.ts on an entry.
use mathlib.Core.List.{Mem, mem-cons_self}
use stellar_agentic.Base.{
  ℕ, ◌+◌, ◌≡◌, refl, Option, none, List, [], ◌∷◌, Result, ok, err, All, arith,
}
use stellar_agentic.Base.Int.{ℤ, pos, ◌+ℤ◌, ◌-ℤ◌}
use stellar_agentic.Base.Numbers.{Bytes}
use stellar_agentic.Base.Sorting.{sort, insert}
use stellar_agentic.Base.Texts.{codes, put}
use stellar_agentic.Ledger.Channels.{simple_context, transfer}
use stellar_agentic.Ledger.Entries.{draft_entry}
use stellar_agentic.Ledger.Reconcile.{distinct}
use stellar_agentic.Ledger.Samples.{runtime, event}
use stellar_agentic.Ledger.{
  LedgerEntry, channel_funding, channel_reference, owner_role, contract_role,
}
use stellar_agentic.Statement.Build.{
  build_statement, add_entries, add_entry, add_totals, statement_of, position_at, positions_of,
}
use stellar_agentic.Statement.Continuity.{
  ledgers, request_through, request_after, build_statement-continues,
}
use stellar_agentic.Statement.Groups.{
  opening_positions, openings_from, add_impacts, add_position, credit_part, debit_part,
}
use stellar_agentic.Statement.Positions.{build_statement-closing}
use stellar_agentic.Statement.{
  agent_subject, StatementSubject, StatementPosition, Statement, StatementError, validate_period,
  timestamp, in_period, before_period, impact,
}

-- A funding of ten at the second ledger.
abbrev entries : List LedgerEntry
entries =
    draft_entry event channel_funding channel_reference (codes "c") (
      simple_context (codes "A") (codes "O") (codes "C") none (codes "USD") (pos 10)
        (transfer (codes "O") owner_role (codes "C") contract_role (codes "USD") (pos 10)))
    ∷ []

abbrev subject : StatementSubject
subject = record { kind = agent_subject; id = codes "A" }

abbrev undated : Bytes → Option ℤ
undated s = none

abbrev first_answer : Result StatementError Statement
first_answer = build_statement runtime undated entries (request_through subject 1 2)

abbrev next_answer : Result StatementError Statement
next_answer = build_statement runtime undated entries (request_after subject 2 none)

abbrev empty_statement : Statement
empty_statement = record {
  statement_id = [];
  subject = subject;
  period = ledgers 0 none;
  lines = [];
  positions = [];
  categories = [];
  evidence = record {
    entry_count = 0;
    transaction_count = 0;
    transaction_hashes = [];
    first_ledger = none;
    last_ledger = none;
  };
  reconciliation = none;
}

abbrev value_of : Result StatementError Statement → Statement
value_of (ok s) = s
value_of (err _) = empty_statement

abbrev position : ℕ → ℕ → StatementPosition
position opening credits = record {
  asset = codes "USD";
  opening_amount = pos opening;
  credits = pos credits;
  debits = pos 0;
  closing_amount = pos (opening + credits);
}

first_built : first_answer ≡ ok (value_of first_answer)
unfolding build_statement validate_period timestamp opening_positions openings_from statement_of
first_built = refl

next_built : next_answer ≡ ok (value_of next_answer)
unfolding build_statement validate_period timestamp opening_positions openings_from statement_of
next_built = refl

first_positions : (value_of first_answer).positions ≡ position 0 10 ∷ []
unfolding build_statement validate_period timestamp opening_positions openings_from statement_of
    positions_of position_at distinct add_entries add_entry add_totals add_position credit_part
    debit_part add_impacts in_period before_period impact draft_entry runtime sort insert put ◌+ℤ◌
    ◌-ℤ◌
first_positions = refl

next_positions : (value_of next_answer).positions ≡ position 10 0 ∷ []
unfolding build_statement validate_period timestamp opening_positions openings_from statement_of
    positions_of position_at distinct add_entries add_entry add_totals add_position credit_part
    debit_part add_impacts in_period before_period impact draft_entry runtime sort insert put ◌+ℤ◌
    ◌-ℤ◌
next_positions = refl

first_member : Mem (position 0 10) (value_of first_answer).positions
first_member = rw first_positions mem-cons_self

next_member : Mem (position 10 0) (value_of next_answer).positions
next_member = rw next_positions mem-cons_self

build_statement-continues_example : ◌≡◌ {A = ℤ} (pos 10) (pos 10)
build_statement-continues_example =
    build_statement-continues undated subject 1 2 none (omega arith) runtime entries
      (value_of first_answer) (value_of next_answer) (position 0 10) (position 10 0) first_built
      next_built first_member next_member refl

build_statement-closing_example :
    All
      (λ p. StatementPosition.closing_amount p ≡ p.opening_amount +ℤ (p.credits -ℤ p.debits))
      (value_of first_answer).positions
build_statement-closing_example =
    build_statement-closing runtime undated entries (request_through subject 1 2)
      (value_of first_answer) first_built
