-- ===== src/Planner/Quotes.antt =====
-- What a quote of packages/core/src/routing/planner.ts promises.
use native.Mathlib.Nat.{mul-le-mul_left}
use stellar_agentic.Base.{
  ℕ, ◌+◌, ◌-◌, ◌*◌, ◌/◌, ◌≤◌, ◌<◌, ◌≡◌, refl, sym, ap, subst, Bool, true, false, not, ◌&&◌, ◌||◌,
  Option, none, some, List, ltb, first, Result, ok, err, >>=-eq_ok, ok_injective, throw_if,
  throw_if-ok, arith,
}
use stellar_agentic.Base.Int.{pos, negsuc}
use stellar_agentic.Base.Numbers.{
  Real, finite, infinite, not_a_number, below, Number, whole, nan, is_integer, ltb_number, bigint,
}
use stellar_agentic.Base.Texts.{same_bytes-eq}
use stellar_agentic.Routing.Validation.{RouteOk, validate_route_iff}
use stellar_agentic.Routing.{
  RouteQuote, ScoredRoute, RoutingError, outside_policy, rank_routes, select_route, score_route,
  validate_policy, validate_route, is_route_eligible, scored,
}
use stellar_agentic.Planner.{
  is_before, PlannerError, invalid_argument, invalid_route_override, quote_expired, routing_failed,
  RoutePlanner, RouteRequest, PaymentQuote, basis_points, mapped, min_number, or_ledger,
  finish_quote, ledger_of, tolerance_of, or_no_route, quote, matches, is_expired, quote_override,
  assert_fresh,
}

-- The expiry of the route, where it has one, is a number.
abbrev pub is_number : Option Real → Bool
is_number (some not_a_number) = false
is_number _ = true

-- What a quote says of a scored route, at the ledger at which it was made and with a tolerance.
pub record Finished (p : RoutePlanner) (s : ScoredRoute) (quoted_at tolerance : ℕ)
    (q : PaymentQuote) : Type 0 where
  pub of_route :
      q.route
      ≡ record s { route = record s.route { expires_at_ledger = some q.valid_until_ledger } }
  pub made_at : q.quoted_at_ledger ≡ quoted_at
  pub in_range : quoted_at + p.quote_validity_ledgers ≤ 4294967295
  pub minimum :
      q.minimum_destination_amount
      ≡ bigint s.expected_destination_amount * (10000 - tolerance) / 10000
  pub until :
      (now : ℕ)
      → is_before q.valid_until_ledger (whole (pos now)) ≡ (
          is_number s.expires_at_ledger
          && (is_expired s.expires_at_ledger now || ltb (quoted_at + p.quote_validity_ledgers) now))

min_number-below :
    (x : Option Real) (bound now : ℕ)
    → below (min_number (or_ledger x bound) (pos bound)) (pos now)
      ≡ (is_number x && (is_expired x now || ltb bound now))
min_number-below none bound now = ground arith
min_number-below (some (finite (pos z) b)) bound now = ground arith
min_number-below (some (finite (negsuc z) b)) bound now = ground arith
min_number-below (some (infinite true)) bound now = ground arith
min_number-below (some (infinite false)) bound now = ground arith
min_number-below (some not_a_number) bound now = refl

finish_quote-Finished :
    (p : RoutePlanner) (s : ScoredRoute) (quoted_at tolerance : ℕ) (q : PaymentQuote)
    → finish_quote p s quoted_at tolerance ≡ ok q
    → Finished p s quoted_at tolerance q
unfolding finish_quote
finish_quote-Finished p s quoted_at tolerance q e =
    let (u, fits, e1) =
      >>=-eq_ok (throw_if (ltb 4294967295 (quoted_at + p.quote_validity_ledgers)) invalid_argument)
        _ e in
    let range =
      throw_if-ok (ltb 4294967295 (quoted_at + p.quote_validity_ledgers)) invalid_argument fits in
    subst (Finished p s quoted_at tolerance) (ok_injective e1) (record {
      of_route = refl;
      made_at = refl;
      in_range = ground arith;
      minimum = refl;
      until = min_number-below s.expires_at_ledger (quoted_at + p.quote_validity_ledgers);
    })

basis_points-le : (t : Number) (n : ℕ) → basis_points t ≡ ok n → n ≤ 500
unfolding basis_points
basis_points-le (whole (pos m)) n e =
    let (u, fits, e1) = >>=-eq_ok (throw_if (ltb 500 m) invalid_argument) _ e in
    let small = throw_if-ok (ltb 500 m) invalid_argument fits in
    let same = ok_injective e1 in ground arith
basis_points-le (whole (negsuc m)) n e = absurd cc
basis_points-le nan n e = absurd cc

not-eq_false : (b : Bool) → not b ≡ false → b ≡ true
not-eq_false true h = refl
not-eq_false false h = absurd cc

mapped-ok :
    {A : Type 0} (f : RoutingError → PlannerError) (m : Result RoutingError A) (a : A)
    → mapped f m ≡ ok a
    → m ≡ ok a
mapped-ok f (ok b) a e = ap ok (ok_injective e)
mapped-ok f (err x) a e = absurd cc

or_no_route-ok : (o : Option ScoredRoute) (s : ScoredRoute) → or_no_route o ≡ ok s → o ≡ some s
unfolding or_no_route
or_no_route-ok none s e = absurd cc
or_no_route-ok (some t) s e = ap some (ok_injective e)

basis_points-whole : (t : Number) (n : ℕ) → basis_points t ≡ ok n → t ≡ whole (pos n)
unfolding basis_points
basis_points-whole (whole (pos m)) n e =
    let (u, fits, e1) = >>=-eq_ok (throw_if (ltb 500 m) invalid_argument) _ e in
    ap (λ k. whole (pos k)) (ok_injective e1)
basis_points-whole (whole (negsuc m)) n e = absurd cc
basis_points-whole nan n e = absurd cc

-- A quote of a scored route for a request: with the tolerance that the request asks for, or the
-- planner's where it asks for none.
pub record IsQuoteOf (p : RoutePlanner) (r : RouteRequest) (s : ScoredRoute) (q : PaymentQuote)
    : Type 0 where
  pub tolerance : ℕ
  pub asked : tolerance_of p r ≡ whole (pos tolerance)
  pub small : tolerance ≤ 500
  pub finished : Finished p s (ledger_of r) tolerance q

-- A quote has the route that `selectRoute` picks among the discovered ones, as it is but for its expiry,
-- which is the quote's. Its minimum is what the tolerance leaves of the expected output, rounded
-- down; the tolerance is the request's, or the planner's where the request has none, and at most five
-- per cent. The quote is past at a ledger just where the route has expired there or the planner's
-- number of ledgers has gone by since the quote was made; the ledger of that is in the range of 32
-- bits. Where the expiry of the route is not a number, the quote is never past.
pub quote-IsQuoteOf :
    (p : RoutePlanner) (r : RouteRequest) (discovered : List RouteQuote) (q : PaymentQuote)
    → quote p r discovered ≡ ok q
    → (s : ScoredRoute) × (select_route discovered p.policy ≡ ok (some s)) × IsQuoteOf p r s q
unfolding quote select_route
quote-IsQuoteOf p r discovered q e =
    let (tolerance, t, e1) = >>=-eq_ok (basis_points (tolerance_of p r)) _ e in
    let (ranked, k, e2) =
      >>=-eq_ok (mapped routing_failed (rank_routes discovered p.policy)) _ e1 in
    let (best, b, e3) = >>=-eq_ok (or_no_route (first ranked)) _ e2 in
    (
      best,
      rw (mapped-ok routing_failed (rank_routes discovered p.policy) ranked k)
          (ap ok (or_no_route-ok (first ranked) best b)),
      record {
        tolerance = tolerance;
        asked = basis_points-whole (tolerance_of p r) tolerance t;
        small = basis_points-le (tolerance_of p r) tolerance t;
        finished = finish_quote-Finished p best (ledger_of r) tolerance q e3;
      },
    )

-- The minimum of a quote is at most the expected output of its route, and no less than 95 hundredths
-- of it, rounded down.
pub minimum_bounded :
    (p : RoutePlanner) (r : RouteRequest) (s : ScoredRoute) (q : PaymentQuote)
    → IsQuoteOf p r s q
    → (q.minimum_destination_amount ≤ bigint s.expected_destination_amount)
      × (bigint s.expected_destination_amount * 95 < (q.minimum_destination_amount + 1) * 100)
minimum_bounded p r s q i =
    let expected = bigint s.expected_destination_amount in
    let part = 10000 - i.tolerance in
    let small = i.small in
    let m = i.finished.minimum in
    let low : expected * 9500 ≤ expected * part = mul-le-mul_left expected (omega arith) in
    let high : expected * part ≤ expected * 10000 = mul-le-mul_left expected (omega arith) in
    rw m (omega arith, omega arith)

-- A quote that is fresh at a ledger was made at most the planner's number of ledgers before it, and
-- its route has not expired there, where the expiry of the route is missing or a number.
pub assert_fresh_bounded :
    (p : RoutePlanner) (r : RouteRequest) (s : ScoredRoute) (now : ℕ) (q : PaymentQuote)
    → IsQuoteOf p r s q
    → assert_fresh q (whole (pos now)) ≡ ok tt
    → is_number s.expires_at_ledger ≡ true
    → (now ≤ ledger_of r + p.quote_validity_ledgers) × (is_expired s.expires_at_ledger now ≡ false)
unfolding assert_fresh
assert_fresh_bounded p r s now q i e w =
    let (u, valid, e1) =
      >>=-eq_ok
        (throw_if
          (not (is_integer (whole (pos now))) || ltb_number (whole (pos now)) (whole (pos 0)))
          invalid_argument)
        _ e in
    let fresh = throw_if-ok (is_before q.valid_until_ledger (whole (pos now))) quote_expired e1 in
    let past = i.finished.until now in
    (ground (arith, past, fresh, w), ground (arith, past, fresh, w))

matches-eq :
    (r : RouteRequest) (o : RouteQuote)
    → matches r o ≡ true
    → (o.source_asset ≡ r.source_asset)
      × (o.destination_asset ≡ r.destination_asset)
      × (o.source_amount ≡ r.source_amount)
matches-eq r o h = (
  same_bytes-eq o.source_asset r.source_asset (ground (arith, h)),
  same_bytes-eq o.destination_asset r.destination_asset (ground (arith, h)),
  same_bytes-eq o.source_amount r.source_amount (ground (arith, h)),
)

-- A route that the caller selected is quoted only where it is of the request's assets and amount, has
-- a name, canonical positive amounts, rates from 0 to 10000 and at least one hop, has not expired
-- at the request's ledger, and is admissible under the planner's policy; the quote is then of that
-- route with its score, for the request.
pub quote_override_safe :
    (p : RoutePlanner) (r : RouteRequest) (o : RouteQuote) (q : PaymentQuote)
    → quote_override p r o ≡ ok q
    → (o.source_asset ≡ r.source_asset)
      × (o.destination_asset ≡ r.destination_asset)
      × (o.source_amount ≡ r.source_amount)
      × RouteOk o
      × (is_expired o.expires_at_ledger (ledger_of r) ≡ false)
      × (is_route_eligible o p.policy ≡ true)
      × IsQuoteOf p r (scored o p.policy) q
unfolding quote_override score_route
quote_override_safe p r o q e =
    let (u, m, e1) = >>=-eq_ok (throw_if (not (matches r o)) invalid_route_override) _ e in
    let (u, x, e2) =
      >>=-eq_ok (throw_if (is_expired o.expires_at_ledger (ledger_of r)) quote_expired) _ e1 in
    let (tolerance, t, e3) = >>=-eq_ok (basis_points (tolerance_of p r)) _ e2 in
    let (s, k, e4) =
      >>=-eq_ok (mapped (λ z. invalid_route_override) (score_route o p.policy)) _ e3 in
    let scores = mapped-ok (λ z. invalid_route_override) (score_route o p.policy) s k in
    let (v, vp, f1) = >>=-eq_ok (validate_policy p.policy) _ scores in
    let (v, vr, f2) = >>=-eq_ok (validate_route o) _ f1 in
    let (v, ve, f3) =
      >>=-eq_ok (throw_if (not (is_route_eligible o p.policy)) outside_policy) _ f2 in
    let matched = throw_if-ok (not (matches r o)) invalid_route_override m in
    let same = matches-eq r o (not-eq_false (matches r o) matched) in
    let admitted = throw_if-ok (not (is_route_eligible o p.policy)) outside_policy ve in
    (
      same.0,
      same.1,
      same.2,
      (validate_route_iff o).0 vr,
      throw_if-ok (is_expired o.expires_at_ledger (ledger_of r)) quote_expired x,
      not-eq_false (is_route_eligible o p.policy) admitted,
      record {
        tolerance = tolerance;
        asked = basis_points-whole (tolerance_of p r) tolerance t;
        small = basis_points-le (tolerance_of p r) tolerance t;
        finished =
            subst (λ z. Finished p z (ledger_of r) tolerance q) (sym (ok_injective f3))
              (finish_quote-Finished p s (ledger_of r) tolerance q e4);
      },
    )
