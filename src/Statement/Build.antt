-- ===== src/Statement/Build.antt =====
-- `buildStatement` of packages/indexer/src/reporting.ts and the helpers that keep its maps.
use stellar_agentic.Base.{
  ℕ, suc, ◌+◌, Bool, true, false, ◌&&◌, Option, none, some, List, [], ◌∷◌, ◌++◌, map, keep, first,
  length, Ordering, if◌then◌else◌, Result, ok, ◌>>=◌, ◌>>◌, throw_if, ltb,
}
use stellar_agentic.Base.Int.{ℤ, pos, ◌+ℤ◌}
use stellar_agentic.Base.Numbers.{Bytes, Number, whole, nan}
use stellar_agentic.Base.Sorting.{sort}
use stellar_agentic.Base.Texts.{codes, Dict, get, put, keys, lexicographic}
use stellar_agentic.Ledger.Entries.{default}
use stellar_agentic.Ledger.Normalize.{entry_le}
use stellar_agentic.Ledger.Reconcile.{distinct}
use stellar_agentic.Ledger.Snapshots.{is_le}
use stellar_agentic.Ledger.{Runtime, LedgerEntry}
use stellar_agentic.Statement.{
  SubjectKind, agent_subject, owner_subject, StatementRequest, StatementLine, StatementPosition,
  by_counterparty, by_asset, by_payment_type, StatementCategoryTotal, Statement, Totals,
  StatementError, no_subject, Times, validate_period, attributed, in_period, impact, category,
  direction,
}
use stellar_agentic.Statement.Groups.{
  add_position, opening_positions, dimension_text, kind_text, credit_part, debit_part, add_category,
}

number_text : (ℤ → Bytes) → Bytes → Option Number → Bytes
number_text print missing none = missing
number_text print missing (some (whole z)) = print z
number_text print missing (some nan) = codes "NaN"

text_or : Bytes → Option Bytes → Bytes
text_or missing none = missing
text_or missing (some s) = s

subject_text : SubjectKind → Bytes
subject_text agent_subject = codes "agent"
subject_text owner_subject = codes "owner"

module _ (rt : Runtime) where
  unfoldable pub statement_id : StatementRequest → Bytes
  unfolding number_text text_or subject_text
  statement_id r =
      codes "statement:"
      ++ subject_text r.subject.kind
      ++ codes ":"
      ++ r.subject.id
      ++ codes ":"
      ++ number_text rt.print (codes "start") r.period.from_ledger
      ++ codes ":"
      ++ number_text rt.print (codes "end") r.period.through_ledger
      ++ codes ":"
      ++ text_or (codes "start-time") r.period.from_timestamp
      ++ codes ":"
      ++ text_or (codes "end-time") r.period.through_timestamp

-- `padStart(8, "0")`: with fuel for the zeros that may be missing.
pad_start : ℕ → Bytes → Bytes
pad_start ℕ.zero s = s
pad_start (suc n) s = pad_start n (if ltb (length s) 8 then b'0' ∷ s else s)

-- The maps and the lines that the loop over the selected entries builds.
pub record Builder : Type 0 where
  pub running : Dict ℤ
  pub totals : Dict Totals
  pub groups : Dict StatementCategoryTotal
  pub lines : List StatementLine

abbrev no_totals : Totals
no_totals = record { credits = pos 0; debits = pos 0 }

abbrev pub totals_or : Option Totals → Totals
totals_or none = no_totals
totals_or (some t) = t

abbrev pub totals_at : Bytes → Dict Totals → Totals
totals_at a d = totals_or (get a d)

unfoldable pub add_totals : Totals → ℤ → Totals
unfolding credit_part debit_part
add_totals t delta = record {
  credits = t.credits +ℤ credit_part delta;
  debits = t.debits +ℤ debit_part delta;
}

module _ (rt : Runtime) (r : StatementRequest) where
  unfoldable pub line_at : ℕ → LedgerEntry → Dict ℤ → StatementLine
  unfolding statement_id pad_start
  line_at index e running = record {
    line_id = statement_id rt r ++ codes ":" ++ pad_start 8 (rt.print (pos (index + 1)));
    entry_id = e.entry_id;
    event_id = e.event_id;
    tx_hash = e.tx_hash;
    ledger = e.ledger;
    ledger_closed_at = e.ledger_closed_at;
    kind = e.kind;
    category = category e.kind;
    direction = direction (impact e);
    counterparty = e.counterparty;
    memo = e.memo;
    reference_type = e.reference_type;
    reference_id = e.reference_id;
    asset = e.source_asset;
    amount = e.source_amount;
    signed_amount = impact e;
    destination_asset = e.destination_asset;
    destination_amount = e.destination_amount;
    running_balance = default (get e.source_asset running);
  }

  -- One turn of the loop.
  unfoldable pub add_entry : LedgerEntry → Builder → Builder
  unfolding add_position add_totals add_category line_at text_or kind_text
  add_entry e b =
      let delta = impact e in
      let asset = e.source_asset in
      let running' = add_position b.running asset delta in
      let groups' =
        add_category b.groups by_counterparty (text_or (codes "uncategorized") e.counterparty) asset
          delta in
      record {
        running = running';
        totals = put asset (add_totals (totals_at asset b.totals) delta) b.totals;
        groups =
            add_category (add_category groups' by_asset asset asset delta) by_payment_type
              (kind_text e.kind) asset delta;
        lines = b.lines ++ line_at (length b.lines) e running' ∷ [];
      }

  unfoldable pub add_entries : List LedgerEntry → Builder → Builder
  unfolding add_entry
  add_entries [] b = b
  add_entries (e ∷ es) b = add_entries es (add_entry e b)

-- `running.get(asset) ?? opening.get(asset) ?? 0n`
abbrev pub closing_or : Option ℤ → Option ℤ → ℤ
closing_or (some z) o = z
closing_or none o = default o

-- The opening, the totals and the closing of an asset.
unfoldable pub position_at : Dict ℤ → Builder → Bytes → StatementPosition
position_at opening b asset = record {
  asset = asset;
  opening_amount = default (get asset opening);
  credits = (totals_at asset b.totals).credits;
  debits = (totals_at asset b.totals).debits;
  closing_amount = closing_or (get asset b.running) (get asset opening);
}

abbrev bytes_le : Bytes → Bytes → Bool
bytes_le a b = is_le (lexicographic a b)

abbrev totals_keys : Dict Totals → List Bytes
totals_keys d = keys d

unfoldable pub positions_of : Dict ℤ → Builder → List StatementPosition
unfolding position_at distinct
positions_of opening b =
    map (position_at opening b)
      (sort bytes_le (distinct [] (keys opening ++ keys b.running ++ totals_keys b.totals)))

values : Dict StatementCategoryTotal → List StatementCategoryTotal
values [] = []
values ((_, g) ∷ d) = g ∷ values d

abbrev last_entry : List LedgerEntry → Option LedgerEntry
last_entry [] = none
last_entry (e ∷ []) = some e
last_entry (_ ∷ e ∷ es) = last_entry (e ∷ es)

abbrev ledger_of : Option LedgerEntry → Option ℕ
ledger_of none = none
ledger_of (some e) = some e.ledger

module _ (rt : Runtime) where
  group_le : StatementCategoryTotal → StatementCategoryTotal → Bool
  unfolding dimension_text
  group_le a b = elim (rt.locale (dimension_text a.dimension) (dimension_text b.dimension)) [
    | Ordering.lt ↦ true
    | Ordering.gt ↦ false
    | Ordering.eq ↦ elim (rt.locale a.key b.key) [
      | Ordering.lt ↦ true
      | Ordering.gt ↦ false
      | Ordering.eq ↦ is_le (rt.locale a.asset b.asset)
    ]
  ]

  -- What the function returns, from the selected entries, the opening and the maps.
  unfoldable pub statement_of : StatementRequest → List LedgerEntry → Dict ℤ → Builder → Statement
  unfolding statement_id positions_of values group_le distinct
  statement_of r selected opening b =
      let hashes = distinct [] (map LedgerEntry.tx_hash selected) in
      record {
        statement_id = statement_id rt r;
        subject = r.subject;
        period = r.period;
        lines = b.lines;
        positions = positions_of opening b;
        categories = sort group_le (values b.groups);
        evidence = record {
          entry_count = length selected;
          transaction_count = length hashes;
          transaction_hashes = hashes;
          first_ledger = ledger_of (first selected);
          last_ledger = ledger_of (last_entry selected);
        };
        reconciliation = r.reconciliation;
      }

abbrev pub is_empty_text : Bytes → Bool
is_empty_text [] = true
is_empty_text _ = false

abbrev pub start : Dict ℤ → Builder
start opening = record { running = opening; totals = []; groups = []; lines = [] }

abbrev pub is_selected : (Bytes → Option ℤ) → StatementRequest → Times → LedgerEntry → Bool
is_selected date r t e = attributed r.subject e && in_period date r.period t e

module _ (rt : Runtime) (date : Bytes → Option ℤ) where
  unfoldable pub build_statement :
      List LedgerEntry → StatementRequest → Result StatementError Statement
  unfolding opening_positions add_entries statement_of
  build_statement entries r = do
    throw_if (is_empty_text r.subject.id) no_subject
    times ← validate_period date r.period
    let ordered = sort (entry_le rt) entries
    let selected = keep (is_selected date r times) ordered
    opening ← opening_positions rt date ordered r times
    ok (statement_of rt r selected opening (add_entries rt r selected (start opening)))
