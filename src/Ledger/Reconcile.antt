-- ===== src/Ledger/Reconcile.antt =====
-- `reconcileLedger` of packages/indexer/src/ledger.ts.
use stellar_agentic.Base.{
  Bool, true, false, not, ◌&&◌, ◌||◌, Option, none, some, List, [], ◌∷◌, ◌++◌, map, keep, length,
  Ordering, ◌==◌, if◌then◌else◌, Result, ok, err, ◌>>=◌, ◌>>◌, throw_if,
}
use stellar_agentic.Base.Int.{ℤ, pos, ◌+ℤ◌, ◌-ℤ◌}
use stellar_agentic.Base.Numbers.{Bytes, Number, whole, is_safe_integer, leb_number, ltb_number}
use stellar_agentic.Base.Sorting.{sort}
use stellar_agentic.Base.Texts.{member, Dict, get, put, keys}
use stellar_agentic.Ledger.Entries.{default, is_zero}
use stellar_agentic.Ledger.Snapshots.{is_le}
use stellar_agentic.Ledger.{
  Runtime, LedgerPosting, LedgerEntry, BalancePosition, ReconciliationRequest, ReconciliationStatus,
  matched, discrepancy, missing_on_chain, ReconciliationLine, ReconciliationResult,
}

pub data ReconcileError : Type 0 where
  bad_as_of bad_from from_after_as_of no_positions no_accounts : ReconcileError
  duplicate_position : (account asset : Bytes) → ReconcileError
  bad_position : ReconcileError

-- `${account}\\0${asset}`
unfoldable pub position_key : Bytes → Bytes → Bytes
position_key account asset = account ++ 0 ∷ asset

-- The parts of a key before and behind its first separator.
unfoldable pub split_key : Bytes → Bytes × Bytes
split_key [] = ([], [])
split_key (c ∷ cs) = let rest = split_key cs in if c == 0 then ([], cs) else (c ∷ rest.0, rest.1)

abbrev has_key : Bytes → Dict ℤ → Bool
has_key k d = elim (get k d) [ none ↦ false | some _ ↦ true ]

abbrev to_result : Option ℤ → Result ReconcileError ℤ
to_result none = err bad_position
to_result (some z) = ok z

-- `accountFilter`: no filter lets every account through.
abbrev pub passes : Option (List Bytes) → Bytes → Bool
passes none account = true
passes (some accounts) account = member account accounts

abbrev pub or_none : Option (List BalancePosition) → List BalancePosition
or_none none = []
or_none (some ps) = ps

module _ (rt : Runtime) where
  -- The loop of `positions`.
  unfoldable pub collect_positions : List BalancePosition → Dict ℤ → Result ReconcileError (Dict ℤ)
  unfolding position_key
  collect_positions [] d = ok d
  collect_positions (p ∷ ps) d = do
    throw_if (has_key (position_key p.account p.asset) d) (duplicate_position p.account p.asset)
    z ← to_result (rt.parse p.amount)
    collect_positions ps (put (position_key p.account p.asset) z d)

  unfoldable pub positions : List BalancePosition → Result ReconcileError (Dict ℤ)
  unfolding collect_positions
  positions values = collect_positions values []

-- The inner loop over the postings of an entry.
unfoldable pub add_postings : Option (List Bytes) → List LedgerPosting → Dict ℤ → Dict ℤ
unfolding position_key
add_postings accounts [] d = d
add_postings accounts (p ∷ ps) d =
    let key = position_key p.account p.asset in
    add_postings accounts ps
      (if not (passes accounts p.account) then d else put key (default (get key d) +ℤ p.amount) d)

unfoldable pub activity_of : Option (List Bytes) → List LedgerEntry → Dict ℤ → Dict ℤ
unfolding add_postings
activity_of accounts [] d = d
activity_of accounts (e ∷ es) d = activity_of accounts es (add_postings accounts e.postings d)

-- The elements that stand nowhere before them: what a `Set` of the list iterates over.
unfoldable pub distinct : List Bytes → List Bytes → List Bytes
distinct seen [] = []
distinct seen (k ∷ ks) =
    let rest = distinct (k ∷ seen) ks in
    let rest' = distinct seen ks in if member k seen then rest' else k ∷ rest

unfoldable pub status_of : Option ℤ → ReconciliationStatus
status_of none = missing_on_chain
status_of (some d) = if is_zero d then matched else discrepancy

unfoldable pub difference_of : Option ℤ → ℤ → Option ℤ
difference_of none expected = none
difference_of (some observed) expected = some (observed -ℤ expected)

unfoldable pub line_of : Dict ℤ → Dict ℤ → Dict ℤ → Bytes → ReconciliationLine
unfolding split_key status_of difference_of
line_of opening observed activity key =
    let opening_amount = default (get key opening) in
    let activity_amount = default (get key activity) in
    let expected = opening_amount +ℤ activity_amount in
    let difference = difference_of (get key observed) expected in
    record {
      account = (split_key key).0;
      asset = (split_key key).1;
      opening_amount = opening_amount;
      activity_amount = activity_amount;
      expected_amount = expected;
      on_chain_amount = get key observed;
      difference = difference;
      status = status_of difference;
    }

abbrev pub is_matched_status : ReconciliationStatus → Bool
is_matched_status matched = true
is_matched_status _ = false

abbrev pub is_matched : ReconciliationLine → Bool
is_matched l = is_matched_status l.status

-- `lines.every(...)`
abbrev pub every_matched : List ReconciliationLine → Bool
every_matched [] = true
every_matched (l ∷ ls) = is_matched l && every_matched ls

abbrev pub from_or_zero : Option Number → Number
from_or_zero none = whole (pos 0)
from_or_zero (some n) = n

-- `request.fromLedger ?? 0`
abbrev pub from_of : ReconciliationRequest → Number
from_of r = from_or_zero r.from_ledger

abbrev pub in_range : Number → Number → LedgerEntry → Bool
in_range lo hi e = leb_number lo (whole (pos e.ledger)) && leb_number (whole (pos e.ledger)) hi

abbrev is_empty {ℓ} : {A : Type ℓ} → List A → Bool
is_empty [] = true
is_empty _ = false

abbrev no_accounts_given : Option (List Bytes) → Bool
no_accounts_given none = false
no_accounts_given (some accounts) = is_empty accounts

-- The guards at the head of the function.
unfoldable pub check_request : ReconciliationRequest → Result ReconcileError (Unit {0})
check_request r = do
  throw_if (not (is_safe_integer r.as_of_ledger) || ltb_number r.as_of_ledger (whole (pos 0)))
      bad_as_of
  throw_if (not (is_safe_integer (from_of r)) || ltb_number (from_of r) (whole (pos 0))) bad_from
  throw_if (ltb_number r.as_of_ledger (from_of r)) from_after_as_of
  throw_if (is_empty r.on_chain_positions) no_positions
  throw_if (no_accounts_given r.accounts) no_accounts

module _ (rt : Runtime) where
  abbrev pub line_le : ReconciliationLine → ReconciliationLine → Bool
  line_le a b = elim (rt.locale a.account b.account) [
    | Ordering.eq ↦ is_le (rt.locale a.asset b.asset)
    | Ordering.lt ↦ true
    | Ordering.gt ↦ false
  ]

  -- The keys that lines are made of: those of the three maps whose account passes the filter.
  unfoldable pub line_keys : Option (List Bytes) → Dict ℤ → Dict ℤ → Dict ℤ → List Bytes
  unfolding distinct split_key
  line_keys accounts opening observed activity =
      keep (λ k. passes accounts (split_key k).0)
        (distinct [] (keys opening ++ keys observed ++ keys activity))

  unfoldable pub lines_of : Option (List Bytes) → Dict ℤ → Dict ℤ → Dict ℤ → List ReconciliationLine
  unfolding line_of line_keys
  lines_of accounts opening observed activity =
      sort line_le
        (map (line_of opening observed activity) (line_keys accounts opening observed activity))

  unfoldable pub reconcile_ledger :
      List LedgerEntry → ReconciliationRequest → Result ReconcileError ReconciliationResult
  unfolding check_request positions activity_of lines_of
  reconcile_ledger entries r = do
    check_request r
    opening ← positions rt (or_none r.opening_positions)
    observed ← positions rt r.on_chain_positions
    let relevant = keep (in_range (from_of r) r.as_of_ledger) entries
    let lines = lines_of r.accounts opening observed (activity_of r.accounts relevant [])
    ok (record {
      from_ledger = from_of r;
      as_of_ledger = r.as_of_ledger;
      reconciled = every_matched lines;
      checked_entries = length relevant;
      lines = lines;
    })
