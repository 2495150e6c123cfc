-- ===== src/Statement/Sums.antt =====
-- The maps that `buildStatement` of packages/indexer/src/reporting.ts keeps, by what the entries add
-- to them.
use stellar_agentic.Base.{
  ◌≡◌, refl, sym, ap, ◌∙◌, Bool, true, false, ◌&&◌, none, List, [], ◌∷◌, keep, if◌then◌else◌,
  Bool-cases, inl, inr, arith,
}
use stellar_agentic.Base.Int.{ℤ, pos, ◌+ℤ◌, ◌-ℤ◌, int_laws}
use stellar_agentic.Base.Numbers.{Bytes}
use stellar_agentic.Base.Texts.{
  same_bytes, same_bytes-eq, same_bytes_refl, Dict, get, put, get-put_self, get-put_ne, put-absent,
}
use stellar_agentic.Ledger.Balance.{total, total-put, add_assoc, zero_add}
use stellar_agentic.Ledger.{Runtime, LedgerEntry}
use stellar_agentic.Statement.Build.{Builder, totals_at, add_totals, add_entry, add_entries}
use stellar_agentic.Statement.Groups.{add_position, add_impacts, credit_part, debit_part}
use stellar_agentic.Statement.{StatementRequest, Totals, impact}

-- What the entries that pass a test add to an asset.
abbrev pub impact_on : Bytes → (LedgerEntry → Bool) → List LedgerEntry → ℤ
impact_on a f [] = pos 0
impact_on a f (e ∷ es) =
    (if f e && same_bytes e.source_asset a then impact e else pos 0) +ℤ impact_on a f es

abbrev pub every : LedgerEntry → Bool
every e = true

pub impact_on-keep :
    (a : Bytes) (f : LedgerEntry → Bool) (es : List LedgerEntry)
    → impact_on a every (keep f es) ≡ impact_on a f es
impact_on-keep a f [] = refl
impact_on-keep a f (e ∷ es) = elim (Bool-cases (f e)) [
  | inl t ↦
      rw t (
        ap (◌+ℤ◌ (if same_bytes e.source_asset a then impact e else pos 0)) (impact_on-keep a f es))
  | inr t ↦ rw t (impact_on-keep a f es ∙ sym (zero_add (impact_on a f es)))
]

step_impact :
    (a k : Bytes) (b : Bool) (z : ℤ) (d : Dict ℤ)
    → total a (if b then add_position d k z else d)
      ≡ total a d +ℤ (if b && same_bytes k a then z else pos 0)
unfolding add_position
step_impact a k true z d = total-put a k z d
step_impact a k false z d = omega int_laws

pub total-add_impacts :
    (a : Bytes) (f : LedgerEntry → Bool) (es : List LedgerEntry) (d : Dict ℤ)
    → total a (add_impacts f es d) ≡ total a d +ℤ impact_on a f es
unfolding add_impacts
total-add_impacts a f [] d = omega int_laws
total-add_impacts a f (e ∷ es) d =
    total-add_impacts a f es (if f e then add_position d e.source_asset (impact e) else d)
    ∙ ap (λ t. t +ℤ impact_on a f es) (step_impact a e.source_asset (f e) (impact e) d)
    ∙ add_assoc (total a d) (if f e && same_bytes e.source_asset a then impact e else pos 0)
        (impact_on a f es)

-- The credit and the debit of a value make it up.
parts : (z : ℤ) → credit_part z -ℤ debit_part z ≡ z
unfolding credit_part debit_part ◌-ℤ◌
parts z = ground arith

-- Credits less debits of an asset.
abbrev pub balance_at : Bytes → Dict Totals → ℤ
balance_at a d = (totals_at a d).credits -ℤ (totals_at a d).debits

add_parts : (c d p q : ℤ) → (c +ℤ p) -ℤ (d +ℤ q) ≡ (c -ℤ d) +ℤ (p -ℤ q)
add_parts c d p q = omega int_laws

balance-add_totals :
    (t : Totals) (z : ℤ)
    → (add_totals t z).credits -ℤ (add_totals t z).debits ≡ (t.credits -ℤ t.debits) +ℤ z
unfolding add_totals
balance-add_totals t z =
    add_parts t.credits t.debits (credit_part z) (debit_part z)
    ∙ ap (◌+ℤ◌ (t.credits -ℤ t.debits)) (parts z)

balance-put :
    (a k : Bytes) (z : ℤ) (d : Dict Totals)
    → balance_at a (put k (add_totals (totals_at k d) z) d)
      ≡ balance_at a d +ℤ (if same_bytes k a then z else pos 0)
balance-put a k z d = elim (Bool-cases (same_bytes k a)) [
  | inl e ↦
      rw
        (
          sym (same_bytes-eq k a e),
          get-put_self k (add_totals (totals_at k d) z) d,
          same_bytes_refl k,
        )
        (balance-add_totals (totals_at k d) z)
  | inr e ↦ rw (get-put_ne a k (add_totals (totals_at k d) z) d e, e) (omega int_laws)
]

module _ (rt : Runtime) (r : StatementRequest) (a : Bytes) where
  pub running-add_entries :
      (es : List LedgerEntry) (b : Builder)
      → total a (add_entries rt r es b).running ≡ total a b.running +ℤ impact_on a every es
  unfolding add_entries add_entry add_position
  running-add_entries [] b = omega int_laws
  running-add_entries (e ∷ es) b =
      running-add_entries es (add_entry rt r e b)
      ∙ ap (λ t. t +ℤ impact_on a every es) (total-put a e.source_asset (impact e) b.running)
      ∙ add_assoc (total a b.running) (if same_bytes e.source_asset a then impact e else pos 0)
          (impact_on a every es)

  pub balance-add_entries :
      (es : List LedgerEntry) (b : Builder)
      → balance_at a (add_entries rt r es b).totals ≡ balance_at a b.totals +ℤ impact_on a every es
  unfolding add_entries add_entry
  balance-add_entries [] b = omega int_laws
  balance-add_entries (e ∷ es) b =
      balance-add_entries es (add_entry rt r e b)
      ∙ ap (λ t. t +ℤ impact_on a every es) (balance-put a e.source_asset (impact e) b.totals)
      ∙ add_assoc (balance_at a b.totals) (if same_bytes e.source_asset a then impact e else pos 0)
          (impact_on a every es)

  -- An asset that the running balances leave out was left out at the start.
  pub running_absent :
      (es : List LedgerEntry) (b : Builder)
      → get a (add_entries rt r es b).running ≡ none
      → get a b.running ≡ none
  unfolding add_entries add_entry add_position
  running_absent [] b h = h
  running_absent (e ∷ es) b h =
      put-absent a e.source_asset _ b.running (running_absent es (add_entry rt r e b) h)
