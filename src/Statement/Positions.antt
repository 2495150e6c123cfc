-- ===== src/Statement/Positions.antt =====
-- The positions of a statement of packages/indexer/src/reporting.ts: they close at what they opened
-- with and what the selected entries add.
use mathlib.Core.List.{Mem}
use stellar_agentic.Base.{
  ◌≡◌, refl, subst, ◌∙◌, Option, none, List, [], ◌∷◌, map, keep, ok, >>=-eq_ok, ok_injective,
  throw_if, Option-cases, inl, inr, All, All-imp, All-Mem,
}
use stellar_agentic.Base.Int.{ℤ, ℤ-IsSet, ◌+ℤ◌, ◌-ℤ◌}
use stellar_agentic.Base.Numbers.{Bytes}
use stellar_agentic.Base.Sorting.{sort}
use stellar_agentic.Base.Texts.{Dict, get}
use stellar_agentic.Ledger.Balance.{total, zero_add}
use stellar_agentic.Ledger.Normalize.{entry_le}
use stellar_agentic.Ledger.{Runtime, LedgerEntry}
use stellar_agentic.Statement.Build.{
  Builder, start, closing_or, add_entries, position_at, positions_of, is_selected, is_empty_text,
  statement_of, build_statement,
}
use stellar_agentic.Statement.Groups.{opening_positions}
use stellar_agentic.Statement.Sums.{
  impact_on, every, running-add_entries, balance-add_entries, running_absent,
}
use stellar_agentic.Statement.{
  StatementRequest, StatementPosition, Statement, no_subject, Times, validate_period,
}

-- What the positions hold, from the opening balances and the selected entries.
pub record PositionSums (opening : Dict ℤ) (es : List LedgerEntry) (p : StatementPosition)
    : Type 0 where
  pub opens : p.opening_amount ≡ total p.asset opening
  pub moves : p.credits -ℤ p.debits ≡ impact_on p.asset every es
  pub closes : p.closing_amount ≡ total p.asset opening +ℤ impact_on p.asset every es

closing_total :
    (a : Bytes) (running opening : Dict ℤ)
    → (get a running ≡ none → get a opening ≡ none)
    → closing_or (get a running) (get a opening) ≡ total a running
closing_total a running opening h = elim (Option-cases (get a running)) [
  | inl e ↦ rw (e, h e) refl
  | inr (z, e) ↦ rw e refl
]

module _ (rt : Runtime) (r : StatementRequest) (opening : Dict ℤ) (es : List LedgerEntry) where
  abbrev built : Builder
  built = add_entries rt r es (start opening)

  position_at-sums : (a : Bytes) → PositionSums opening es (position_at opening built a)
  unfolding position_at ◌+ℤ◌ ◌-ℤ◌
  position_at-sums a = record {
    opens = refl;
    moves = balance-add_entries rt r a es (start opening) ∙ zero_add (impact_on a every es);
    closes =
        closing_total a built.running opening (running_absent rt r a es (start opening))
        ∙ running-add_entries rt r a es (start opening);
  }

  All-positions :
      (assets : List Bytes) → All (PositionSums opening es) (map (position_at opening built) assets)
  All-positions [] = tt
  All-positions (a ∷ as') = (position_at-sums a, All-positions as')

  pub positions_of-sums : All (PositionSums opening es) (positions_of opening built)
  unfolding positions_of
  positions_of-sums = All-positions _

-- A member of the list closes, and opens, at what its sums say.
module _ (opening : Dict ℤ) (es : List LedgerEntry) (ps : List StatementPosition)
    (sums : All (PositionSums opening es) ps) (p : StatementPosition) (m : Mem p ps) where
  pub closing-member : p.closing_amount ≡ total p.asset opening +ℤ impact_on p.asset every es
  closing-member =
      All-Mem
        (λ x.
          StatementPosition.closing_amount x ≡ total x.asset opening +ℤ impact_on x.asset every es)
        (λ x. ℤ-IsSet _ _) ps (All-imp ps (λ x t. t.closes) sums) m

  pub opening-member : p.opening_amount ≡ total p.asset opening
  opening-member =
      All-Mem (λ x. StatementPosition.opening_amount x ≡ total x.asset opening) (λ x. ℤ-IsSet _ _)
        ps (All-imp ps (λ x t. t.opens) sums) m

-- What a successful run has read: the bounds in time and the opening balances.
pub record Run (rt : Runtime) (date : Bytes → Option ℤ) (entries : List LedgerEntry)
    (r : StatementRequest) (s : Statement) : Type 0 where
  pub times : Times
  pub opening : Dict ℤ
  pub valid : validate_period date r.period ≡ ok times
  pub read : opening_positions rt date (sort (entry_le rt) entries) r times ≡ ok opening
  pub sums :
      All
        (PositionSums opening (keep (is_selected date r times) (sort (entry_le rt) entries)))
        s.positions

pub build_statement-run :
    (rt : Runtime) (date : Bytes → Option ℤ) (entries : List LedgerEntry) (r : StatementRequest)
    (s : Statement)
    → build_statement rt date entries r ≡ ok s
    → Run rt date entries r s
unfolding build_statement statement_of
build_statement-run rt date entries r s h =
    let a = >>=-eq_ok (throw_if (is_empty_text r.subject.id) no_subject) _ h in
    let b = >>=-eq_ok (validate_period date r.period) _ a.2 in
    let ordered = sort (entry_le rt) entries in
    let c = >>=-eq_ok (opening_positions rt date ordered r b.0) _ b.2 in
    let selected = keep (is_selected date r b.0) ordered in
    record {
      times = b.0;
      opening = c.0;
      valid = b.1;
      read = c.1;
      sums =
          subst (λ t. All (PositionSums c.0 selected) (Statement.positions t)) (ok_injective c.2)
            (positions_of-sums rt r c.0 selected);
    }

-- Every position of a statement closes at its opening amount and its credits less its debits.
pub build_statement-closing :
    (rt : Runtime) (date : Bytes → Option ℤ) (entries : List LedgerEntry) (r : StatementRequest)
    (s : Statement)
    → build_statement rt date entries r ≡ ok s
    → All
        (λ p. StatementPosition.closing_amount p ≡ p.opening_amount +ℤ (p.credits -ℤ p.debits))
        s.positions
build_statement-closing rt date entries r s h =
    let run = build_statement-run rt date entries r s h in
    All-imp s.positions (λ p t. rw (t.opens, t.moves) t.closes) run.sums
