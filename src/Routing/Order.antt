-- ===== src/Routing/Order.antt =====
-- `compareScoredRoutes` of packages/core/src/math/routing.ts: the order that it decides.
use stellar_agentic.Base.{ℕ, ◌≡◌, ◌⊎◌, ◌↔◌, true, arith}
use mathlib.Core.Logic.{⊎_map}
use stellar_agentic.Base.Numbers.{natural, bigint}
use stellar_agentic.Base.Sorting.{IsTotal}
use stellar_agentic.Routing.{ScoredRoute, compare_scored_routes, at_most}
use stellar_agentic.Routing.Lexicographic.{
  Lex, Lex-trans, Lex-trans_down, Lex-total, Lex-total_down, Lex-antisym, LexBytes, LexBytes-trans,
  LexBytes-total, LexBytes-antisym, binary_compare_lem,
}

abbrev output : ScoredRoute → ℕ
output a = bigint a.expected_destination_amount

-- Lower score, then higher output, then lower slippage, then fewer hops, then the smaller id.
abbrev pub Before : ScoredRoute → ScoredRoute → Type 0
Before a b = Lex a.score b.score (
    Lex (output b) (output a) (
      Lex (natural a.expected_slippage_bps) (natural b.expected_slippage_bps)
        (Lex (natural a.hop_count) (natural b.hop_count) (LexBytes a.id b.id))))

-- The comparator's result is not positive exactly when the first route is at most the second in
-- the lexicographic order of score, output (higher first), slippage, hop count and id (by bytes).
pub at_most_iff : (a b : ScoredRoute) → (at_most a b ≡ true) ↔ Before a b
unfolding compare_scored_routes
at_most_iff a b = (
  ground (arith, (binary_compare_lem a.id b.id).0),
  ground (arith, (binary_compare_lem a.id b.id).1),
)

Before-trans : (a b c : ScoredRoute) → Before a b → Before b c → Before a c
Before-trans a b c =
    Lex-trans (Lex-trans_down (Lex-trans (Lex-trans (LexBytes-trans a.id b.id c.id))))

Before-total : (a b : ScoredRoute) → Before a b ⊎ Before b a
Before-total a b =
    Lex-total _ _ (Lex-total_down _ _ (Lex-total _ _ (Lex-total _ _ (LexBytes-total a.id b.id))))

-- The comparator is total and transitive, as a sort wants.
pub at_most-IsTotal : IsTotal at_most
at_most-IsTotal = record {
  total = λ a b. ⊎_map (at_most_iff a b).1 (at_most_iff b a).1 (Before-total a b);
  trans = λ a b c p q.
      (at_most_iff a c).1 (Before-trans a b c ((at_most_iff a b).0 p) ((at_most_iff b c).0 q));
}

Before-antisym : (a b : ScoredRoute) → Before a b → Before b a → a.id ≡ b.id
Before-antisym a b p q =
    let (_, outs, outs') = Lex-antisym p q in
    let (_, slips', slips) = Lex-antisym outs' outs in
    let (_, hops, hops') = Lex-antisym slips slips' in
    let (_, ids, ids') = Lex-antisym hops hops' in LexBytes-antisym a.id b.id ids ids'

-- The comparator returns 0 exactly on routes of the same id with the same keys: each of two routes
-- is at most the other only if their ids are the same.
pub id-eq_of_at_most : (a b : ScoredRoute) → at_most a b ≡ true → at_most b a ≡ true → a.id ≡ b.id
id-eq_of_at_most a b p q = Before-antisym a b ((at_most_iff a b).0 p) ((at_most_iff b a).0 q)
