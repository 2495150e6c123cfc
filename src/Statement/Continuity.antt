-- ===== src/Statement/Continuity.antt =====
-- Statements of packages/indexer/src/reporting.ts for periods that follow each other.
use mathlib.Core.List.{Mem}
use stellar_agentic.Base.{
  ℕ, ◌+◌, ◌≤◌, ◌≡◌, refl, sym, ap, ap₂, ◌∙◌, Bool, true, false, not, ◌&&◌, ◌||◌, Option, none, some,
  List, [], ◌∷◌, keep, if◌then◌else◌, ok, throw_if, ok_injective, >>=-eq_ok, arith,
}
use stellar_agentic.Base.Int.{ℤ, pos, ◌+ℤ◌, int_laws}
use stellar_agentic.Base.Numbers.{Bytes, Number, whole}
use stellar_agentic.Base.Sorting.{sort}
use stellar_agentic.Base.Texts.{same_bytes, Dict}
use stellar_agentic.Ledger.Balance.{total, zero_add, add_zero}
use stellar_agentic.Ledger.Normalize.{entry_le}
use stellar_agentic.Ledger.{Runtime, LedgerEntry}
use stellar_agentic.Statement.Build.{is_selected, build_statement}
use stellar_agentic.Statement.Groups.{is_earlier, openings_from, opening_positions, add_impacts}
use stellar_agentic.Statement.Positions.{closing-member, opening-member, build_statement-run}
use stellar_agentic.Statement.Sums.{impact_on, every, impact_on-keep, total-add_impacts}
use stellar_agentic.Statement.{
  StatementSubject, StatementPeriod, StatementRequest, StatementPosition, Statement, Times,
  attributed, ledger_before, ledger_behind, time_after, is_bad_ledger, bad_from_ledger,
  bad_through_ledger, ledgers_reversed, number_after, in_period, before_period, timestamp,
  validate_period, impact,
}

-- A period between two ledgers, without bounds in time.
abbrev pub ledgers : ℕ → Option Number → StatementPeriod
ledgers f through = record {
  from_ledger = some (whole (pos f));
  through_ledger = through;
  from_timestamp = none;
  through_timestamp = none;
}

-- A request that leaves the opening to the earlier entries.
abbrev pub derived : StatementSubject → StatementPeriod → StatementRequest
derived subject period = record {
  subject = subject;
  period = period;
  opening_positions = none;
  reconciliation = none;
}

abbrev no_times : Times
no_times = record { from_time = none; through_time = none }

ledgers-times :
    (date : Bytes → Option ℤ) (f : ℕ) (through : Option Number) (t : Times)
    → validate_period date (ledgers f through) ≡ ok t
    → t ≡ no_times
unfolding validate_period timestamp
ledgers-times date f through t h =
    let a = >>=-eq_ok (throw_if (is_bad_ledger (some (whole (pos f)))) bad_from_ledger) _ h in
    let b = >>=-eq_ok (throw_if (is_bad_ledger through) bad_through_ledger) _ a.2 in
    let c =
      >>=-eq_ok (throw_if (number_after (some (whole (pos f))) through) ledgers_reversed) _ b.2 in
    sym (ok_injective c.2)

not_after_none : (o : Option ℤ) → time_after o none ≡ false
not_after_none none = refl
not_after_none (some z) = refl

-- An attributed entry is before the first period or in it, not both, if it is before the second.
split :
    (a c p q s : Bool) (z : ℤ)
    → s ≡ not q
    → (p ≡ true → s ≡ true)
    → (if a && p && c then z else pos 0) +ℤ (if a && not (p || q) && c then z else pos 0)
      ≡ (if a && s && c then z else pos 0)
split a c p q s z h k = ground (arith, zero_add z, add_zero z, zero_add (pos 0))

or_false : (b : Bool) → b || false ≡ b
or_false true = refl
or_false false = refl

-- The requests for the period from the ledger f to l, and for one from l + 1 on.
abbrev pub request_through : StatementSubject → ℕ → ℕ → StatementRequest
request_through subject f l = derived subject (ledgers f (some (whole (pos l))))

abbrev pub request_after : StatementSubject → ℕ → Option Number → StatementRequest
request_after subject l through = derived subject (ledgers (l + 1) through)

module _ (date : Bytes → Option ℤ) (subject : StatementSubject) (f l : ℕ) (through : Option Number)
    (le : f ≤ l) where
  earlier :
      (e : LedgerEntry) (g : ℕ) (o : Option Number)
      → is_earlier date (derived subject (ledgers g o)) no_times e
        ≡ (attributed subject e && ledger_before e.ledger (some (whole (pos g))))
  unfolding before_period
  earlier e g o = ap (◌&&◌ (attributed subject e)) (or_false _)

  selected :
      (e : LedgerEntry)
      → is_selected date (request_through subject f l) no_times e ≡ (
          attributed subject e
          && not (
              ledger_before e.ledger (some (whole (pos f)))
              || ledger_behind e.ledger (some (whole (pos l)))))
  unfolding in_period
  selected e =
      ap (λ b. attributed subject e && not b)
        (ap
            (λ b.
              (ledger_before e.ledger (some (whole (pos f)))
                || ledger_behind e.ledger (some (whole (pos l)))
                || false)
              || b)
            (not_after_none (date e.ledger_closed_at))
          ∙ or_false _
          ∙ or_false _)

  before_next :
      (n : ℕ)
      → ledger_before n (some (whole (pos (l + 1)))) ≡ not (ledger_behind n (some (whole (pos l))))
  before_next n = ground arith

  before_first :
      (n : ℕ)
      → ledger_before n (some (whole (pos f))) ≡ true
      → ledger_before n (some (whole (pos (l + 1)))) ≡ true
  before_first n h = ground arith

  pick :
      (e : LedgerEntry) (c : Bool) (z : ℤ)
      → (if is_earlier date (request_through subject f l) no_times e && c then z else pos 0)
          +ℤ (if is_selected date (request_through subject f l) no_times e && c then z else pos 0)
        ≡ (if is_earlier date (request_after subject l through) no_times e && c then z else pos 0)
  pick e c z =
      rw (earlier e f (some (whole (pos l))), selected e, earlier e (l + 1) through)
        (split (attributed subject e) c (ledger_before e.ledger (some (whole (pos f))))
          (ledger_behind e.ledger (some (whole (pos l)))) _ z (before_next e.ledger)
          (before_first e.ledger))

  exchange : (x y u v : ℤ) → (x +ℤ u) +ℤ (y +ℤ v) ≡ (x +ℤ y) +ℤ (u +ℤ v)
  exchange x y u v = omega int_laws

  impact_on-split :
      (a : Bytes) (es : List LedgerEntry)
      → impact_on a (is_earlier date (request_through subject f l) no_times) es
          +ℤ impact_on a (is_selected date (request_through subject f l) no_times) es
        ≡ impact_on a (is_earlier date (request_after subject l through) no_times) es
  impact_on-split a [] = zero_add (pos 0)
  impact_on-split a (e ∷ es) =
      exchange _ _ (impact_on a (is_earlier date (request_through subject f l) no_times) es)
        (impact_on a (is_selected date (request_through subject f l) no_times) es)
      ∙ ap₂ ◌+ℤ◌ (pick e (same_bytes e.source_asset a) (impact e)) (impact_on-split a es)

  -- The opening balances of a derived request.
  derived-opening :
      (rt : Runtime) (r : StatementRequest) (entries : List LedgerEntry) (t : Times)
      (opening : Dict ℤ) (a : Bytes)
      → r.opening_positions ≡ none
      → t ≡ no_times
      → opening_positions rt date entries r t ≡ ok opening
      → total a opening ≡ impact_on a (is_earlier date r no_times) entries
  unfolding opening_positions openings_from
  derived-opening rt r entries t opening a none_given untimed h =
      ap (total a) (sym (ok_injective (sym read ∙ h)))
      ∙ total-add_impacts a (is_earlier date r no_times) entries []
      ∙ zero_add (impact_on a (is_earlier date r no_times) entries)
    where
      read :
          opening_positions rt date entries r t
          ≡ ok (add_impacts (is_earlier date r no_times) entries [])
      read = rw (none_given, untimed) refl

  closing_is :
      (a : Bytes) (es : List LedgerEntry) (x y : ℤ)
      → x ≡ impact_on a (is_earlier date (request_through subject f l) no_times) es
      → y ≡ impact_on a every (keep (is_selected date (request_through subject f l) no_times) es)
      → x +ℤ y ≡ impact_on a (is_earlier date (request_after subject l through) no_times) es
  closing_is a es x y hx hy =
      ap₂ ◌+ℤ◌ hx
        (hy ∙ impact_on-keep a (is_selected date (request_through subject f l) no_times) es)
      ∙ impact_on-split a es

  -- Where a request leaves its opening to the earlier entries, a position of the statement for the
  -- period up to the ledger l closes at the amount at which the position of the same asset opens in
  -- the statement for a period from l + 1 on.
  pub build_statement-continues :
      (rt : Runtime) (entries : List LedgerEntry) (s s' : Statement) (p q : StatementPosition)
      → build_statement rt date entries (request_through subject f l) ≡ ok s
      → build_statement rt date entries (request_after subject l through) ≡ ok s'
      → Mem p s.positions
      → Mem q s'.positions
      → p.asset ≡ q.asset
      → p.closing_amount ≡ q.opening_amount
  build_statement-continues rt entries s s' p q h k mp mq same =
      let run = build_statement-run rt date entries (request_through subject f l) s h in
      let run' = build_statement-run rt date entries (request_after subject l through) s' k in
      let ordered = sort (entry_le rt) entries in
      let t = ledgers-times date f (some (whole (pos l))) run.times run.valid in
      let t' = ledgers-times date (l + 1) through run'.times run'.valid in
      let o =
        derived-opening rt (request_through subject f l) ordered run.times run.opening p.asset refl
          t run.read in
      let o' =
        derived-opening rt (request_after subject l through) ordered run'.times run'.opening q.asset
          refl t' run'.read in
      let used = keep (is_selected date (request_through subject f l) run.times) ordered in
      let used' = keep (is_selected date (request_after subject l through) run'.times) ordered in
      closing-member run.opening used s.positions run.sums p mp
      ∙ closing_is p.asset ordered _ _ o (
          ap
            (λ u.
              impact_on p.asset every
                (keep (is_selected date (request_through subject f l) u) ordered))
            t)
      ∙ ap (λ a. impact_on a (is_earlier date (request_after subject l through) no_times) ordered)
          same
      ∙ sym o'
      ∙ sym (opening-member run'.opening used' s'.positions run'.sums q mq)
