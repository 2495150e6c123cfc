-- ===== src/Routing/Scores.antt =====
-- `scoreRoute` of packages/core/src/math/routing.ts: the range of a score and what moves it.
use stellar_agentic.Base.{ℕ, ◌+◌, ◌-◌, ◌*◌, ◌≤◌, arith, ◌≡◌, ok, >>=-eq_ok}
use stellar_agentic.Base.Numbers.{Number, whole, nan, natural}
use stellar_agentic.Base.Int.{pos, negsuc}
use stellar_agentic.Routing.{
  RouteQuote, RoutingPolicy, ScoredRoute, validate_policy, validate_route, weighted, scored,
  score_route, routing_weight_scale,
}
use stellar_agentic.Routing.Ranking.{IsValidPolicy, IsValidRoute}
use stellar_agentic.Routing.Validation.{IsNatural, validate_policy_iff, validate_route_iff}

IsNatural-le : (bound : ℕ) (v : Number) → IsNatural bound v → natural v ≤ bound
IsNatural-le bound (whole (pos n)) h = h
IsNatural-le bound (whole (negsuc n)) h = absurd h
IsNatural-le bound nan h = absurd h

mul_mono_left : (a b c : ℕ) → a ≤ b → a * c ≤ b * c
mul_mono_left a b c h = grind arith

weighted-le : (v w : ℕ) → v ≤ routing_weight_scale → weighted v w ≤ w
unfolding weighted
weighted-le v w h = let product : v * w ≤ 10000 * w = grind arith in omega arith

weighted_mono : (v v' w : ℕ) → v ≤ v' → weighted v w ≤ weighted v' w
unfolding weighted
weighted_mono v v' w h = let product : v * w ≤ v' * w = grind arith in omega arith

score_route_inv :
    (r : RouteQuote) (p : RoutingPolicy) (s : ScoredRoute)
    → score_route r p ≡ ok s
    → IsValidPolicy p × IsValidRoute r × (s ≡ scored r p)
unfolding score_route
score_route_inv r p s e =
    let (_, vp, e') = >>=-eq_ok (validate_policy p) _ e in
    let (_, vr, e'') = >>=-eq_ok (validate_route r) _ e' in (vp, vr, ground arith)

-- A route that `scoreRoute` scores gets at most 10000, and the hop penalty on top for each hop
-- after the first.
pub score_bounded :
    (r : RouteQuote) (p : RoutingPolicy) (s : ScoredRoute)
    → score_route r p ≡ ok s
    → s.score ≤ routing_weight_scale + (natural r.hop_count - 1) * natural p.hop_penalty
unfolding scored
score_bounded r p s e =
    let (vp, vr, same) = score_route_inv r p s e in
    let policy = (validate_policy_iff p).0 vp in
    let route = (validate_route_iff r).0 vr in
    rw same (
      omega (
        arith,
        policy.sum,
        weighted-le (natural r.total_fee_bps) (natural p.cost_weight)
            (IsNatural-le _ r.total_fee_bps route.fee),
        weighted-le (natural r.expected_slippage_bps) (natural p.slippage_weight)
            (IsNatural-le _ r.expected_slippage_bps route.slippage),
        weighted-le (routing_weight_scale - natural r.reliability_bps)
            (natural p.reliability_weight) (omega arith),
      ))

scored_mono :
    (r s : RouteQuote) (p : RoutingPolicy)
    → natural r.total_fee_bps ≤ natural s.total_fee_bps
    → natural r.expected_slippage_bps ≤ natural s.expected_slippage_bps
    → natural s.reliability_bps ≤ natural r.reliability_bps
    → natural r.hop_count ≤ natural s.hop_count
    → (scored r p).score ≤ (scored s p).score
unfolding scored
scored_mono r s p fee slippage reliability hops = omega (
  arith,
  weighted_mono _ _ (natural p.cost_weight) fee,
  weighted_mono _ _ (natural p.slippage_weight) slippage,
  weighted_mono (routing_weight_scale - natural r.reliability_bps)
      (routing_weight_scale - natural s.reliability_bps) (natural p.reliability_weight)
      (omega arith),
  mul_mono_left (natural r.hop_count - 1) (natural s.hop_count - 1) (natural p.hop_penalty)
      (omega arith),
)

-- A route that is nowhere worse than another one does not score worse: of two routes that
-- `scoreRoute` scores under one policy, one with no higher fee and slippage, no lower reliability
-- and no more hops has no higher score.
pub score_mono :
    (r s : RouteQuote) (p : RoutingPolicy) (r' s' : ScoredRoute)
    → score_route r p ≡ ok r'
    → score_route s p ≡ ok s'
    → natural r.total_fee_bps ≤ natural s.total_fee_bps
    → natural r.expected_slippage_bps ≤ natural s.expected_slippage_bps
    → natural s.reliability_bps ≤ natural r.reliability_bps
    → natural r.hop_count ≤ natural s.hop_count
    → r'.score ≤ s'.score
score_mono r s p r' s' e f fee slippage reliability hops =
    rw ((score_route_inv r p r' e).2, (score_route_inv s p s' f).2)
      (scored_mono r s p fee slippage reliability hops)
