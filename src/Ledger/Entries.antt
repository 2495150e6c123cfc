-- ===== src/Ledger/Entries.antt =====
-- `amount`, `posting`, `validateEntry`, `entry` and `issue` of packages/indexer/src/ledger.ts.
use stellar_agentic.Base.{
  ℕ, zero, suc, ◌+◌, Bool, true, false, ◌&&◌, ◌||◌, ◌==◌, Option, none, some, List, [], ◌∷◌, ◌++◌,
  if◌then◌else◌, Result, ok, err, ◌>>=◌,
}
use stellar_agentic.Base.Int.{ℤ, pos, ◌+ℤ◌}
use stellar_agentic.Base.Numbers.{Bytes}
use stellar_agentic.Base.Texts.{codes, Dict, get, put}
use stellar_agentic.Ledger.Json.{JsonValue, object, end}
use stellar_agentic.Ledger.{
  Runtime, StoredEvent, LedgerEntryKind, LedgerAccountRole, LedgerPosting, ReferenceType,
  LedgerEntry, IssueCode, invalid_amount, unbalanced_entry, LedgerIssue,
}

-- What the normalization of an event throws.
pub data LedgerError : Type 0 where
  bad_amount : (event_id value : Bytes) → LedgerError
  unbalanced : (entry_id asset : Bytes) (total : ℤ) → LedgerError

abbrev pub default : Option ℤ → ℤ
default none = pos 0
default (some z) = z

unfoldable pub read_amount : Bytes → Bytes → Option ℤ → Result LedgerError ℤ
read_amount value event_id none = err (bad_amount event_id value)
read_amount value event_id (some z) = ok z

module _ (rt : Runtime) where
  -- `error.message`
  unfoldable pub error_message : LedgerError → Bytes
  error_message (bad_amount i v) = codes "event " ++ i ++ codes " has invalid integer amount " ++ v
  error_message (unbalanced i a t) =
      codes "entry " ++ i ++ codes " is unbalanced for " ++ a ++ codes ": " ++ rt.print t

  unfoldable pub amount : Bytes → Bytes → Result LedgerError ℤ
  unfolding read_amount
  amount value event_id = read_amount value event_id (rt.parse value)

-- `Omit<LedgerPosting, "postingId">`
pub record Posting : Type 0 where
  pub account : Bytes
  pub role : LedgerAccountRole
  pub asset : Bytes
  pub amount : ℤ

abbrev pub posting : Bytes → LedgerAccountRole → Bytes → ℤ → Posting
posting account role asset value = record {
  account = account;
  role = role;
  asset = asset;
  amount = value;
}

-- The totals that `validateEntry` collects.
unfoldable pub entry_totals : List LedgerPosting → Dict ℤ → Dict ℤ
entry_totals [] totals = totals
entry_totals (p ∷ ps) totals =
    entry_totals ps (put p.asset (default (get p.asset totals) +ℤ p.amount) totals)

abbrev pub is_zero : ℤ → Bool
is_zero (pos zero) = true
is_zero _ = false

-- Its second loop: the first total that is not zero is thrown.
unfoldable pub check_totals : Bytes → Dict ℤ → Result LedgerError (Unit {0})
check_totals i [] = ok tt
check_totals i ((asset, total) ∷ rest) =
    let checked = check_totals i rest in
    if is_zero total then checked else err (unbalanced i asset total)

unfoldable pub validate_entry : LedgerEntry → Result LedgerError (Unit {0})
unfolding entry_totals check_totals
validate_entry e = check_totals e.entry_id (entry_totals e.postings [])

pub record EconomicContext : Type 0 where
  pub agent : Option Bytes
  pub owner : Option Bytes
  pub counterparty : Option Bytes
  pub source_asset : Bytes
  pub source_amount : ℤ
  pub destination_asset : Option Bytes
  pub destination_amount : Option ℤ
  pub memo : Option Bytes
  pub postings : List Posting
  pub metadata : Option JsonValue

-- The decimal text of an index below ten, which the number of the postings of an entry is.
abbrev index_text : ℕ → Bytes
index_text i = (b'0' + i) ∷ []

-- `postingId` for each posting, by its index.
unfoldable pub name_postings : Bytes → ℕ → List Posting → List LedgerPosting
name_postings id i [] = []
name_postings id i (p ∷ ps) =
    record {
      posting_id = id ++ codes ":" ++ index_text i;
      account = p.account;
      role = p.role;
      asset = p.asset;
      amount = p.amount;
    }
    ∷ name_postings id (suc i) ps

abbrev or_empty_object : Option JsonValue → JsonValue
or_empty_object none = object end
or_empty_object (some v) = v

-- The record that `entry` builds, before it is validated.
unfoldable pub draft_entry :
    StoredEvent → LedgerEntryKind → ReferenceType → Bytes → EconomicContext → LedgerEntry
unfolding name_postings
draft_entry event kind reference_type reference_id c = record {
  entry_id = codes "event:" ++ event.event_id;
  event_id = some event.event_id;
  tx_hash = event.tx_hash;
  ledger = event.ledger;
  ledger_closed_at = event.ledger_closed_at;
  kind = kind;
  reference_type = reference_type;
  reference_id = reference_id;
  agent = c.agent;
  owner = c.owner;
  counterparty = c.counterparty;
  memo = c.memo;
  source_asset = c.source_asset;
  source_amount = c.source_amount;
  destination_asset = c.destination_asset;
  destination_amount = c.destination_amount;
  postings = name_postings (codes "event:" ++ event.event_id) 0 c.postings;
  metadata = or_empty_object c.metadata;
}

-- `validateEntry(result); return result;`
unfoldable pub validated : LedgerEntry → Result LedgerError LedgerEntry
unfolding validate_entry
validated e = do _ ← validate_entry e; ok e

unfoldable pub entry :
    StoredEvent
    → LedgerEntryKind
    → ReferenceType
    → Bytes
    → EconomicContext
    → Result LedgerError LedgerEntry
unfolding draft_entry validated
entry event kind reference_type reference_id c =
    validated (draft_entry event kind reference_type reference_id c)

code_text : IssueCode → Bytes
code_text IssueCode.missing_channel_state = codes "MISSING_CHANNEL_STATE"
code_text IssueCode.missing_job_state = codes "MISSING_JOB_STATE"
code_text IssueCode.invalid_amount = codes "INVALID_AMOUNT"
code_text IssueCode.unbalanced_entry = codes "UNBALANCED_ENTRY"

unfoldable pub issue : StoredEvent → IssueCode → Bytes → LedgerIssue
unfolding code_text
issue event code message = record {
  issue_id = event.event_id ++ codes ":" ++ code_text code;
  event_id = event.event_id;
  tx_hash = event.tx_hash;
  ledger = event.ledger;
  code = code;
  message = message;
}

abbrev starts_with : Bytes → Bytes → Bool
starts_with [] s = true
starts_with (x ∷ xs) [] = false
starts_with (x ∷ xs) (y ∷ ys) = x == y && starts_with xs ys

-- `String.prototype.includes`
abbrev pub includes_text : Bytes → Bytes → Bool
includes_text part [] = starts_with part []
includes_text part (c ∷ cs) = starts_with part (c ∷ cs) || includes_text part cs

-- The code of the issue that a caught error becomes.
abbrev pub caught_code : Bytes → IssueCode
caught_code message =
    if includes_text (codes "unbalanced") message then unbalanced_entry else invalid_amount

module _ (rt : Runtime) where
  -- The `catch` of the loop over the events.
  unfoldable pub caught : StoredEvent → LedgerError → LedgerIssue
  unfolding error_message issue
  caught event e = let message = error_message rt e in issue event (caught_code message) message
