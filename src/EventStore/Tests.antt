-- ===== src/EventStore/Tests.antt =====
-- Runs of `InMemoryEventStore` of packages/indexer/src/store.ts on a small store.
use stellar_agentic.Base.{
  ℕ, ◌≡◌, refl, none, List, [], ◌∷◌, keep, ok, arith, some, ◌+◌, if◌then◌else◌,
}
use stellar_agentic.Base.Int.{pos}
use stellar_agentic.Base.Numbers.{Bytes, whole}
use stellar_agentic.Base.Sorting.{sort, insert}
use stellar_agentic.Base.Texts.{codes, get, put, same_bytes}
use stellar_agentic.EventStore.Batches.{iterate_ledger_entries_complete}
use stellar_agentic.EventStore.Queries.{
  any_query, matches_query, iterate_ledger_entries, reconcile, lift_inner,
}
use stellar_agentic.EventStore.Events.{job_lifecycle, in_progress, status_after, next_status}
use stellar_agentic.EventStore.Fees.{AfterFees, record_transaction_fees-AfterFees}
use stellar_agentic.EventStore.Ranges.{replaced_by, latest, surviving, replace_range_correct}
use stellar_agentic.EventStore.Refresh.{Accounts, replace_range-Accounts}
use stellar_agentic.EventStore.Reports.{reconcile-reconcile_ledger}
use stellar_agentic.EventStore.{
  Store, IncomingEvent, IncomingFee, empty_store, replace_range, rebuild_ledger, checkpoint,
  record_transaction_fees, replace_events, insert_events, delete_range, stored, entity,
  set_checkpoint,
}
use stellar_agentic.Ledger.Channels.{simple_context, transfer}
use stellar_agentic.Ledger.Entries.{draft_entry}
use stellar_agentic.Ledger.Reconcile.{reconcile_ledger}
use stellar_agentic.Ledger.Samples.{runtime, event, request}
use stellar_agentic.Ledger.{
  StoredEvent, TransactionFee, DecodedEvent, escrow_event, disputed, accepted, created,
  escrow_contract, channel_funding, channel_reference, owner_role, contract_role,
}

abbrev event_of : Bytes → ℕ → Bytes → DecodedEvent → IncomingEvent
event_of id ledger action payload = record {
  event_id = id;
  contract_kind = escrow_contract;
  contract_address = codes "C";
  ledger = ledger;
  ledger_closed_at = [];
  tx_hash = codes "t";
  paging_token = id;
  namespace = codes "escrow";
  action = action;
  payload = payload;
}

-- A job that is created, accepted and disputed, the last event out of the range of the others.
abbrev job_events : List IncomingEvent
job_events =
    event_of (codes "3") 9 (codes "disputed") (escrow_event (codes "j") (disputed (codes "Q")))
    ∷ event_of (codes "2") 2 (codes "accepted") (escrow_event (codes "j") (accepted (codes "W")))
    ∷ event_of (codes "1") 1 (codes "created")
        (escrow_event (codes "j") (created (codes "Q") (codes "8")))
    ∷ []

abbrev stream : Bytes
stream = codes "stellaragent"

-- A store with two entries in its cache.
abbrev funded : Store
funded = record empty_store {
  cached_entries =
      draft_entry event channel_funding channel_reference (codes "c") (
        simple_context (codes "A") (codes "O") (codes "C") none (codes "USD") (pos 10)
          (transfer (codes "O") owner_role (codes "C") contract_role (codes "USD") (pos 10)))
      ∷ draft_entry event channel_funding channel_reference (codes "d") (
          simple_context (codes "A") (codes "O") (codes "C") none (codes "USD") (pos 4)
            (transfer (codes "O") owner_role (codes "C") contract_role (codes "USD") (pos 4)))
      ∷ [];
}

abbrev good_fee : IncomingFee
good_fee = record {
  tx_hash = codes "t";
  ledger = whole (pos 1);
  ledger_closed_at = [];
  payer = codes "A";
  charged = codes "5";
  asset = none;
  agent = none;
  owner = none;
}

-- The second fee is refused, since its amount is no number.
abbrev incoming_fees : List IncomingFee
incoming_fees = good_fee ∷ record good_fee { tx_hash = codes "u"; charged = codes "x" } ∷ []

lifecycle :
    (job_lifecycle runtime (replace_events 1 5 job_events empty_store) (codes "j")).status
    ≡ in_progress
unfolding job_lifecycle status_after next_status replace_events insert_events delete_range stored
    entity empty_store runtime sort insert put
lifecycle = refl

replace_range_correct_example :
    let t = replace_range runtime empty_store 1 5 job_events stream in
    let k = codes "2" in
    (get k t.events
      ≡ replaced_by
          (latest 1 5 k job_events)
          (surviving StoredEvent.ledger 1 5 (get k empty_store.events)))
    × (get k t.fees ≡ surviving TransactionFee.ledger 1 5 (get k empty_store.fees))
    × (checkpoint t stream
        ≡ (if same_bytes stream stream then some (5 + 1) else checkpoint empty_store stream))
    × (get k (replace_range runtime t 1 5 job_events stream).events ≡ get k t.events)
unfolding empty_store
replace_range_correct_example =
    replace_range_correct runtime empty_store 1 5 job_events stream (codes "2") stream tt tt
      (omega arith)

replace_range-Accounts_example :
    Accounts (replace_range runtime empty_store 1 5 job_events stream) (codes "1")
unfolding empty_store replace_range rebuild_ledger set_checkpoint replace_events insert_events
    delete_range stored put
replace_range-Accounts_example =
    replace_range-Accounts runtime empty_store 1 5 job_events stream (codes "1") (omega arith)
      (omega arith)

record_transaction_fees-AfterFees_example :
    AfterFees runtime incoming_fees funded (record_transaction_fees runtime funded incoming_fees)
record_transaction_fees-AfterFees_example =
    record_transaction_fees-AfterFees runtime funded incoming_fees

iterate_ledger_entries_complete_example :
    iterate_ledger_entries funded any_query (whole (pos 1))
    ≡ ok (keep (matches_query any_query) funded.cached_entries)
unfolding matches_query
iterate_ledger_entries_complete_example =
    iterate_ledger_entries_complete funded any_query 1 (omega arith) (omega arith) (omega arith)

reconcile-reconcile_ledger_example :
    reconcile runtime funded request
    ≡ lift_inner (reconcile_ledger runtime funded.cached_entries request)
reconcile-reconcile_ledger_example = reconcile-reconcile_ledger runtime funded (omega arith) request
