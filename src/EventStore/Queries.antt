-- ===== src/EventStore/Queries.antt =====
-- The operations of `InMemoryEventStore` in packages/indexer/src/store.ts that read its ledger.
use stellar_agentic.Base.{
  ℕ, zero, suc, ◌+◌, Bool, true, false, not, ◌||◌, Option, none, some, List, [], ◌∷◌, ◌++◌, keep,
  length, ltb, if◌then◌else◌, Result, ok, err, ◌>>=◌, ◌>>◌, throw_if,
}
use stellar_agentic.Base.Int.{ℤ, pos}
use stellar_agentic.Base.Numbers.{Bytes, Number, whole, natural, is_safe_integer, ltb_number}
use stellar_agentic.Base.Texts.{same_bytes}
use stellar_agentic.EventStore.{Store, StoreError, bad_limit, bad_offset, bad_batch_size, slice}
use stellar_agentic.Ledger.Reconcile.{ReconcileError, reconcile_ledger}
use stellar_agentic.Ledger.{
  Runtime, LedgerEntryKind, LedgerPosting, LedgerEntry, ReconciliationRequest, ReconciliationResult,
}
use stellar_agentic.Statement.Build.{build_statement}
use stellar_agentic.Statement.Groups.{kind_text}
use stellar_agentic.Statement.{
  StatementRequest, Statement, StatementError, ledger_before, ledger_behind,
}

pub record LedgerQuery : Type 0 where
  pub from_ledger : Option Number
  pub through_ledger : Option Number
  pub agent : Option Bytes
  pub owner : Option Bytes
  pub account : Option Bytes
  pub asset : Option Bytes
  pub kinds : Option (List LedgerEntryKind)
  pub limit : Option Number
  pub offset : Option Number

abbrev pub any_query : LedgerQuery
any_query = record {
  from_ledger = none;
  through_ledger = none;
  agent = none;
  owner = none;
  account = none;
  asset = none;
  kinds = none;
  limit = none;
  offset = none;
}

-- A filter that is given and that the value of the entry is not.
abbrev differs : Option Bytes → Option Bytes → Bool
differs none v = false
differs (some q) none = true
differs (some q) (some v) = not (same_bytes v q)

some_posting : (LedgerPosting → Bool) → List LedgerPosting → Bool
some_posting f [] = false
some_posting f (p ∷ ps) = f p || some_posting f ps

lacks_account : Option Bytes → List LedgerPosting → Bool
unfolding some_posting
lacks_account none ps = false
lacks_account (some a) ps = not (some_posting (λ p. same_bytes p.account a) ps)

lacks_asset : Option Bytes → List LedgerPosting → Bool
unfolding some_posting
lacks_asset none ps = false
lacks_asset (some a) ps = not (some_posting (λ p. same_bytes p.asset a) ps)

has_kind : LedgerEntryKind → List LedgerEntryKind → Bool
unfolding kind_text
has_kind k [] = false
has_kind k (j ∷ js) = same_bytes (kind_text j) (kind_text k) || has_kind k js

-- An empty list of kinds is no filter.
other_kind : Option (List LedgerEntryKind) → LedgerEntryKind → Bool
unfolding has_kind
other_kind (some (j ∷ js)) k = not (has_kind k (j ∷ js))
other_kind _ k = false

unfoldable pub matches_query : LedgerQuery → LedgerEntry → Bool
unfolding lacks_account lacks_asset other_kind
matches_query q e = not (
    ledger_before e.ledger q.from_ledger
    || ledger_behind e.ledger q.through_ledger
    || differs q.agent e.agent
    || differs q.owner e.owner
    || lacks_account q.account e.postings
    || lacks_asset q.asset e.postings
    || other_kind q.kinds e.kind)

abbrev pub number_or : ℕ → Option Number → Number
number_or n none = whole (pos n)
number_or n (some v) = v

unfoldable pub ledger_entries : Store → LedgerQuery → Result StoreError (List LedgerEntry)
unfolding matches_query
ledger_entries s q =
    let limit = number_or 10000 q.limit in
    let offset = number_or 0 q.offset in
    throw_if
      (not (is_safe_integer limit)
        || ltb_number limit (whole (pos 0))
        || ltb_number (whole (pos 100000)) limit)
      bad_limit
    >> throw_if (not (is_safe_integer offset) || ltb_number offset (whole (pos 0))) bad_offset
    >> ok (slice (natural offset) (natural limit) (keep (matches_query q) s.cached_entries))

-- The query for the batch at an offset.
abbrev pub batch_query : LedgerQuery → ℕ → ℕ → LedgerQuery
batch_query q size offset = record q {
  limit = some (whole (pos size));
  offset = some (whole (pos offset));
}

-- The loop over the batches, on fuel: a batch that is not full is the last one.
unfoldable pub iterate_loop : Store → LedgerQuery → ℕ → ℕ → ℕ → Result StoreError (List LedgerEntry)
unfolding ledger_entries
iterate_loop s q size zero offset = ok []
iterate_loop s q size (suc fuel) offset = ledger_entries s (batch_query q size offset) >>= λ batch.
    let rest = iterate_loop s q size fuel (offset + length batch) in
    if ltb (length batch) size then ok batch else (rest >>= λ es. ok (batch ++ es))

unfoldable pub iterate_ledger_entries :
    Store → LedgerQuery → Number → Result StoreError (List LedgerEntry)
unfolding iterate_loop
iterate_ledger_entries s q size =
    throw_if
      (not (is_safe_integer size)
        || ltb_number size (whole (pos 1))
        || ltb_number (whole (pos 100000)) size)
      bad_batch_size
    >> iterate_loop s q (natural size) (suc (length s.cached_entries)) 0

-- What an operation of the store throws: its own error or one of the ledger or the statements.
pub data OperationError (E : Type 0) : Type 0 where
  of_store : StoreError → OperationError E
  of_inner : E → OperationError E

abbrev pub lift_store : {E A : Type 0} → Result StoreError A → Result (OperationError E) A
lift_store (ok a) = ok a
lift_store (err e) = err (of_store e)

abbrev pub lift_inner : {E A : Type 0} → Result E A → Result (OperationError E) A
lift_inner (ok a) = ok a
lift_inner (err e) = err (of_inner e)

abbrev pub range_query : ReconciliationRequest → LedgerQuery
range_query r = record any_query {
  from_ledger = r.from_ledger;
  through_ledger = some r.as_of_ledger;
}

module _ (rt : Runtime) where
  unfoldable pub reconcile :
      Store → ReconciliationRequest → Result (OperationError ReconcileError) ReconciliationResult
  unfolding iterate_ledger_entries reconcile_ledger
  reconcile s r = do
    entries ← lift_store (iterate_ledger_entries s (range_query r) (whole (pos 10000)))
    lift_inner (reconcile_ledger rt entries r)

  unfoldable pub statement :
      (Bytes → Option ℤ)
      → Store
      → StatementRequest
      → Result (OperationError StatementError) Statement
  unfolding iterate_ledger_entries build_statement
  statement date s r = do
    entries ← lift_store (iterate_ledger_entries s any_query (whole (pos 10000)))
    lift_inner (build_statement rt date entries r)
