-- ===== src/Statement/Groups.antt =====
-- The maps of positions and of categories in packages/indexer/src/reporting.ts.
use stellar_agentic.Base.{
  ◌+◌, Bool, true, false, ◌&&◌, Option, none, some, List, [], ◌∷◌, ◌++◌, if◌then◌else◌, Result, ok,
  err, ◌>>=◌, ◌>>◌, throw_if,
}
use stellar_agentic.Base.Int.{ℤ, pos, ◌+ℤ◌, ◌-ℤ◌, ltb_ℤ}
use stellar_agentic.Base.Numbers.{Bytes}
use stellar_agentic.Base.Texts.{codes, Dict, get, put}
use stellar_agentic.Ledger.Entries.{default}
use stellar_agentic.Ledger.{
  Runtime, neg, LedgerEntryKind, channel_funding, channel_top_up, channel_payment,
  channel_conversion, channel_refund, escrow_lock, escrow_release, escrow_refund, network_fee,
  LedgerEntry,
}
use stellar_agentic.Statement.{
  StatementOpeningPosition, StatementRequest, StatementCategoryDimension, by_counterparty, by_asset,
  by_payment_type, StatementCategoryTotal, StatementError, duplicate_opening, bad_opening, Times,
  attributed, before_period, impact,
}

unfoldable pub add_position : Dict ℤ → Bytes → ℤ → Dict ℤ
add_position d asset delta = put asset (default (get asset d) +ℤ delta) d

abbrev has_asset : Bytes → Dict ℤ → Bool
has_asset a d = elim (get a d) [ none ↦ false | some _ ↦ true ]

abbrev read_opening : Bytes → Option ℤ → Result StatementError ℤ
read_opening asset none = err (bad_opening asset)
read_opening asset (some z) = ok z

module _ (rt : Runtime) where
  -- The loop over the opening positions that are given.
  unfoldable pub given_openings :
      List StatementOpeningPosition → Dict ℤ → Result StatementError (Dict ℤ)
  given_openings [] d = ok d
  given_openings (p ∷ ps) d = do
    throw_if (has_asset p.asset d) (duplicate_opening p.asset)
    z ← read_opening p.asset (rt.parse p.amount)
    given_openings ps (put p.asset z d)

-- The loop over the entries that pass a test.
unfoldable pub add_impacts : (LedgerEntry → Bool) → List LedgerEntry → Dict ℤ → Dict ℤ
unfolding add_position
add_impacts f [] d = d
add_impacts f (e ∷ es) d =
    add_impacts f es (if f e then add_position d e.source_asset (impact e) else d)

abbrev pub is_earlier : (Bytes → Option ℤ) → StatementRequest → Times → LedgerEntry → Bool
is_earlier date r t e = attributed r.subject e && before_period date r.period t e

module _ (rt : Runtime) (date : Bytes → Option ℤ) where
  -- By the opening positions of the request.
  unfoldable pub openings_from :
      List LedgerEntry
      → StatementRequest
      → Times
      → Option (List StatementOpeningPosition)
      → Result StatementError (Dict ℤ)
  unfolding given_openings add_impacts
  openings_from entries r t (some ps) = given_openings rt ps []
  openings_from entries r t none = ok (add_impacts (is_earlier date r t) entries [])

  unfoldable pub opening_positions :
      List LedgerEntry → StatementRequest → Times → Result StatementError (Dict ℤ)
  unfolding openings_from
  opening_positions entries r t = openings_from entries r t r.opening_positions

unfoldable pub dimension_text : StatementCategoryDimension → Bytes
dimension_text by_counterparty = codes "counterparty"
dimension_text by_asset = codes "asset"
dimension_text by_payment_type = codes "payment_type"

unfoldable pub kind_text : LedgerEntryKind → Bytes
kind_text channel_funding = codes "channel_funding"
kind_text channel_top_up = codes "channel_top_up"
kind_text channel_payment = codes "channel_payment"
kind_text channel_conversion = codes "channel_conversion"
kind_text channel_refund = codes "channel_refund"
kind_text escrow_lock = codes "escrow_lock"
kind_text escrow_release = codes "escrow_release"
kind_text escrow_refund = codes "escrow_refund"
kind_text network_fee = codes "network_fee"

-- `value > 0n ? value : 0n` and `value < 0n ? -value : 0n`.
unfoldable pub credit_part : ℤ → ℤ
credit_part z = if ltb_ℤ (pos 0) z then z else pos 0

unfoldable pub debit_part : ℤ → ℤ
debit_part z = if ltb_ℤ z (pos 0) then neg z else pos 0

current_group :
    Option StatementCategoryTotal
    → StatementCategoryDimension
    → Bytes
    → Bytes
    → StatementCategoryTotal
current_group (some g) dimension key asset = g
current_group none dimension key asset = record {
  dimension = dimension;
  key = key;
  asset = asset;
  count = 0;
  credits = pos 0;
  debits = pos 0;
  net = pos 0;
}

-- What the value does to a group.
unfoldable pub add_to_group : StatementCategoryTotal → ℤ → StatementCategoryTotal
unfolding credit_part debit_part
add_to_group g value =
    let credits' = g.credits +ℤ credit_part value in
    let debits' = g.debits +ℤ debit_part value in
    record g {
      count = g.count + 1;
      credits = credits';
      debits = debits';
      net = credits' -ℤ debits';
    }

unfoldable pub add_category :
    Dict StatementCategoryTotal
    → StatementCategoryDimension
    → Bytes
    → Bytes
    → ℤ
    → Dict StatementCategoryTotal
unfolding dimension_text current_group add_to_group
add_category groups dimension key asset value =
    let id = dimension_text dimension ++ 0 ∷ key ++ 0 ∷ asset in
    put id (add_to_group (current_group (get id groups) dimension key asset) value) groups
