-- ===== src/EventStore/Reports.antt =====
-- Reconciliations and statements of a store of packages/indexer/src/store.ts: those of its cache.
use stellar_agentic.Base.{
  ℕ, ◌≤◌, ◌≡◌, refl, ap, ◌∙◌, Bool, true, false, ◌&&◌, Option, none, some, List, [], ◌∷◌, keep,
  length, Bool-cases, inl, inr, ok, arith,
}
use stellar_agentic.Base.Int.{ℤ, pos}
use stellar_agentic.Base.Numbers.{Bytes, Number, whole, leb_number, ltb_number}
use stellar_agentic.EventStore.Batches.{length-keep, iterate_ledger_entries_complete}
use stellar_agentic.EventStore.Queries.{
  LedgerQuery, any_query, range_query, matches_query, lift_inner, reconcile, statement,
}
use stellar_agentic.EventStore.{Store}
use stellar_agentic.Ledger.Reconcile.{from_or_zero, from_of, in_range, reconcile_ledger}
use stellar_agentic.Ledger.{Runtime, LedgerEntry, ReconciliationRequest}
use stellar_agentic.Statement.Build.{build_statement}
use stellar_agentic.Statement.{StatementRequest, ledger_before}

keep-keep :
    (f g : LedgerEntry → Bool) (xs : List LedgerEntry)
    → ((e : LedgerEntry) → f e ≡ true → g e ≡ true)
    → keep f (keep g xs) ≡ keep f xs
keep-keep f g [] h = refl
keep-keep f g (x ∷ xs) h = elim (Bool-cases (f x)) [
  | inl e ↦ rw (h x e, e) (ap (◌∷◌ x) (keep-keep f g xs h))
  | inr e ↦ elim (Bool-cases (g x)) [
    | inl t ↦ rw (t, e) (keep-keep f g xs h)
    | inr t ↦ rw (t, e) (keep-keep f g xs h)
  ]
]

not_before :
    (l : ℕ) (n : Number)
    → leb_number n (whole (pos l)) ≡ true
    → ltb_number (whole (pos l)) n ≡ false
not_before l n h = ground arith

not_behind :
    (l : ℕ) (n : Number)
    → leb_number (whole (pos l)) n ≡ true
    → ltb_number n (whole (pos l)) ≡ false
not_behind l n h = ground arith

from_matches :
    (l : ℕ) (f : Option Number)
    → leb_number (from_or_zero f) (whole (pos l)) ≡ true
    → ledger_before l f ≡ false
from_matches l none h = refl
from_matches l (some n) h = not_before l n h

both : (a b : Bool) → a && b ≡ true → (a ≡ true) × (b ≡ true)
both a b h = ground arith

in_range-matches :
    (r : ReconciliationRequest) (e : LedgerEntry)
    → in_range (from_of r) r.as_of_ledger e ≡ true
    → matches_query (range_query r) e ≡ true
unfolding matches_query
in_range-matches r e h =
    let hs =
      both (leb_number (from_of r) (whole (pos e.ledger)))
        (leb_number (whole (pos e.ledger)) r.as_of_ledger) h in
    rw (from_matches e.ledger r.from_ledger hs.0, not_behind e.ledger r.as_of_ledger hs.1) refl

-- `reconcileLedger` reads the entries in its range only.
reconcile_ledger-keep :
    (rt : Runtime) (r : ReconciliationRequest) (es : List LedgerEntry)
    → reconcile_ledger rt (keep (matches_query (range_query r)) es) r ≡ reconcile_ledger rt es r
unfolding reconcile_ledger
reconcile_ledger-keep rt r es =
    rw
      (keep-keep (in_range (from_of r) r.as_of_ledger) (matches_query (range_query r)) es
        (in_range-matches r))
      refl

module _ (rt : Runtime) (s : Store) (safe : length s.cached_entries ≤ 9007199254740991) where
  found_safe :
      (q : LedgerQuery) → length (keep (matches_query q) s.cached_entries) ≤ 9007199254740991
  found_safe q = omega (arith, safe, length-keep (matches_query q) s.cached_entries)

  -- A reconciliation through the store, which fetches the entries of its range in batches, is the
  -- reconciliation of the whole cached ledger, its errors included.
  pub reconcile-reconcile_ledger :
      (r : ReconciliationRequest)
      → reconcile rt s r ≡ lift_inner (reconcile_ledger rt s.cached_entries r)
  unfolding reconcile
  reconcile-reconcile_ledger r =
      rw
        (iterate_ledger_entries_complete s (range_query r) 10000 (omega arith) (omega arith)
          (found_safe (range_query r)))
        (ap lift_inner (reconcile_ledger-keep rt r s.cached_entries))

keep_every :
    (f : LedgerEntry → Bool) (es : List LedgerEntry)
    → ((e : LedgerEntry) → f e ≡ true)
    → keep f es ≡ es
keep_every f [] h = refl
keep_every f (e ∷ es) h = rw (h e) (ap (◌∷◌ e) (keep_every f es h))

any_matches : (e : LedgerEntry) → matches_query any_query e ≡ true
unfolding matches_query
any_matches e = refl

-- A statement through the store is the statement of the whole cached ledger, its errors included.
pub statement-build_statement :
    (rt : Runtime) (date : Bytes → Option ℤ) (s : Store) (r : StatementRequest)
    → length s.cached_entries ≤ 9007199254740991
    → statement rt date s r ≡ lift_inner (build_statement rt date s.cached_entries r)
unfolding statement
statement-build_statement rt date s r safe =
    rw
      (iterate_ledger_entries_complete s any_query 10000 (omega arith) (omega arith)
          (found_safe rt s safe any_query)
        ∙ ap ok (keep_every (matches_query any_query) s.cached_entries any_matches))
      refl
