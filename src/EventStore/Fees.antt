-- ===== src/EventStore/Fees.antt =====
-- `recordTransactionFees` of packages/indexer/src/store.ts: which fees are stored, and what a refused one
-- leaves.
use stellar_agentic.Base.{
  ℕ, ◌≡◌, refl, sym, ap, ◌∙◌, Bool, true, false, not, ◌||◌, Option, none, some, List, [], ◌∷◌, ◌++◌,
  if◌then◌else◌, All, arith,
}
use stellar_agentic.Base.Int.{ℤ, pos, negsuc, ltb_ℤ}
use stellar_agentic.Base.Numbers.{Bytes, whole, is_safe_integer, ltb_number, max_safe_integer}
use stellar_agentic.Base.Texts.{Dict, put}
use stellar_agentic.EventStore.Refresh.{IsFresh, rebuild_ledger-IsFresh}
use stellar_agentic.EventStore.{
  Store, StoreError, bad_charge, negative_fee, invalid_ledger, IncomingFee, stored_fee, check_fee,
  insert_fees, after_fees, record_transaction_fees,
}
use stellar_agentic.Ledger.{Runtime, TransactionFee}
use stellar_agentic.Routing.Validation.{IsNatural, safe_iff}

-- A fee that is taken: its charge is a number that is not negative, its ledger a natural number.
abbrev pub IsGoodFee : Runtime → IncomingFee → Type 0
IsGoodFee rt f =
    ((n : ℕ) × (rt.parse f.charged ≡ some (pos n))) × IsNatural max_safe_integer f.ledger

-- The fees, each stored under its transaction.
unfoldable pub store_all : List IncomingFee → Dict TransactionFee → Dict TransactionFee
store_all [] d = d
store_all (f ∷ fs) d = store_all fs (put f.tx_hash (stored_fee f) d)

-- The transaction that an error is about.
abbrev pub refused : StoreError → Option Bytes
refused (bad_charge h) = some h
refused (negative_fee h) = some h
refused (invalid_ledger h) = some h
refused _ = none

-- The two guards of a fee.
guards-none :
    (a b : Bool) (x y : StoreError)
    → (if a then some x else if b then some y else none) ≡ none
    → (a ≡ false) × (b ≡ false)
guards-none true b x y h = absurd (cc h)
guards-none false true x y h = absurd (cc h)
guards-none false false x y h = (refl, refl)

guards-some :
    (a b : Bool) (x y e : StoreError) (h : Bytes)
    → refused x ≡ some h
    → refused y ≡ some h
    → (if a then some x else if b then some y else none) ≡ some e
    → refused e ≡ some h
guards-some true b x y e h p q k = let same : x ≡ e = cc k in ap refused (sym same) ∙ p
guards-some false true x y e h p q k = let same : y ≡ e = cc k in ap refused (sym same) ∙ q
guards-some false false x y e h p q k = absurd (cc k)

natural_charge : (z : ℤ) → ltb_ℤ z (pos 0) ≡ false → (n : ℕ) × (z ≡ pos n)
natural_charge (pos n) h = (n, refl)
natural_charge (negsuc n) h = absurd (ground (arith, h))

module _ (rt : Runtime) where
  accepted-IsGoodFee :
      (f : IncomingFee) (o : Option ℤ)
      → rt.parse f.charged ≡ o
      → check_fee rt f o ≡ none
      → IsGoodFee rt f
  unfolding check_fee
  accepted-IsGoodFee f none p h = absurd (cc h)
  accepted-IsGoodFee f (some z) p h =
      let g =
        guards-none (ltb_ℤ z (pos 0))
          (not (is_safe_integer f.ledger) || ltb_number f.ledger (whole (pos 0)))
          (negative_fee f.tx_hash) (invalid_ledger f.tx_hash) h in
      let (n, e) = natural_charge z g.0 in ((n, p ∙ ap some e), (safe_iff f.ledger).0 g.1)

  good-accepted : (f : IncomingFee) → IsGoodFee rt f → check_fee rt f (rt.parse f.charged) ≡ none
  unfolding check_fee
  good-accepted f ((n, p), l) =
      let fits = (safe_iff f.ledger).1 l in
      let up : ltb_ℤ (pos n) (pos 0) ≡ false = ground arith in rw (p, up, fits) refl

  refused-fee :
      (f : IncomingFee) (o : Option ℤ) (e : StoreError)
      → check_fee rt f o ≡ some e
      → refused e ≡ some f.tx_hash
  unfolding check_fee
  refused-fee f none e h = let same : bad_charge f.tx_hash ≡ e = cc h in ap refused (sym same)
  refused-fee f (some z) e h =
      guards-some (ltb_ℤ z (pos 0))
        (not (is_safe_integer f.ledger) || ltb_number f.ledger (whole (pos 0)))
        (negative_fee f.tx_hash) (invalid_ledger f.tx_hash) e f.tx_hash refl refl h

-- A fee is refused: the first that is not good. Those before it are stored.
pub record Refusal (rt : Runtime) (fs : List IncomingFee) (d t : Dict TransactionFee)
    (e : StoreError) : Type 0 where
  pub before : List IncomingFee
  pub fee : IncomingFee
  pub behind : List IncomingFee
  pub split : fs ≡ before ++ fee ∷ behind
  pub good : All (IsGoodFee rt) before
  pub bad : ¬ IsGoodFee rt fee
  pub named : refused e ≡ some fee.tx_hash
  pub stored : t ≡ store_all before d

abbrev Inserted :
    Runtime
    → List IncomingFee
    → Dict TransactionFee
    → Dict TransactionFee × Option StoreError
    → Type 0
Inserted rt fs d (t, none) = All (IsGoodFee rt) fs × (t ≡ store_all fs d)
Inserted rt fs d (t, some e) = Refusal rt fs d t e

extended :
    (rt : Runtime) (f : IncomingFee) (fs : List IncomingFee) (d : Dict TransactionFee)
    (r : Dict TransactionFee × Option StoreError)
    → IsGoodFee rt f
    → Inserted rt fs (put f.tx_hash (stored_fee f) d) r
    → Inserted rt (f ∷ fs) d r
unfolding store_all
extended rt f fs d (t, none) g h = ((g, h.0), h.1)
extended rt f fs d (t, some e) g h = record {
  before = f ∷ h.before;
  fee = h.fee;
  behind = h.behind;
  split = ap (◌∷◌ f) h.split;
  good = (g, h.good);
  bad = h.bad;
  named = h.named;
  stored = h.stored;
}

insert_fees_step :
    (rt : Runtime) (f : IncomingFee) (fs : List IncomingFee) (d : Dict TransactionFee)
    (o : Option StoreError)
    → check_fee rt f (rt.parse f.charged) ≡ o
    → Inserted rt fs
        (put f.tx_hash (stored_fee f) d)
        (insert_fees rt fs (put f.tx_hash (stored_fee f) d))
    → Inserted rt (f ∷ fs) d (elim o [
      | some e ↦ (d, some e)
      | none ↦ insert_fees rt fs (put f.tx_hash (stored_fee f) d)
    ])
unfolding store_all
insert_fees_step rt f fs d none h r =
    extended rt f fs d _ (accepted-IsGoodFee rt f (rt.parse f.charged) refl h) r
insert_fees_step rt f fs d (some e) h r = record {
  before = [];
  fee = f;
  behind = fs;
  split = refl;
  good = tt;
  bad = λ g. let k = good-accepted rt f g in let l = h in absurd (cc (k, l));
  named = refused-fee rt f (rt.parse f.charged) e h;
  stored = refl;
}

insert_fees-Inserted :
    (rt : Runtime) (fs : List IncomingFee) (d : Dict TransactionFee)
    → Inserted rt fs d (insert_fees rt fs d)
unfolding insert_fees store_all
insert_fees-Inserted rt [] d = (tt, refl)
insert_fees-Inserted rt (f ∷ fs) d =
    insert_fees_step rt f fs d (check_fee rt f (rt.parse f.charged)) refl
      (insert_fees-Inserted rt fs (put f.tx_hash (stored_fee f) d))

-- What is left of a store after the fees, by the error that they end with.
abbrev pub AfterFees : Runtime → List IncomingFee → Store → Store × Option StoreError → Type 0
AfterFees rt fs s (t, none) =
    All (IsGoodFee rt) fs × (t.fees ≡ store_all fs s.fees) × (t.events ≡ s.events) × IsFresh rt t
AfterFees rt fs s (t, some e) =
    Refusal rt fs s.fees t.fees e
    × (t.events ≡ s.events)
    × (t.cached_entries ≡ s.cached_entries)
    × (t.cached_issues ≡ s.cached_issues)

after_fees-AfterFees :
    (rt : Runtime) (fs : List IncomingFee) (s : Store) (r : Dict TransactionFee × Option StoreError)
    → Inserted rt fs s.fees r
    → AfterFees rt fs s (after_fees rt s r)
unfolding after_fees
after_fees-AfterFees rt fs s (d, none) h =
    (h.0, h.1, refl, rebuild_ledger-IsFresh rt (record s { fees = d }))
after_fees-AfterFees rt fs s (d, some e) h = (h, refl, refl, refl)

-- Recording fees succeeds only where every fee is good: its charge is a number that is not negative,
-- and its ledger a natural number that a double represents. All are stored then, each in the place
-- of an earlier one of its transaction, the events stay, and the caches are the ledger of the result.
-- Otherwise the error names the transaction of the first fee that is not good; those before it are
-- stored all the same and none behind it is, while the events and the caches stay as they were.
pub record_transaction_fees-AfterFees :
    (rt : Runtime) (s : Store) (fs : List IncomingFee)
    → AfterFees rt fs s (record_transaction_fees rt s fs)
unfolding record_transaction_fees
record_transaction_fees-AfterFees rt s fs =
    after_fees-AfterFees rt fs s (insert_fees rt fs s.fees) (insert_fees-Inserted rt fs s.fees)
