-- ===== src/Routing/Validation.antt =====
-- `validatePolicy` and `validateRoute` of packages/core/src/math/routing.ts: what they accept.
use stellar_agentic.Base.{
  ℕ, ◌+◌, ◌≤◌, ◌≡◌, refl, ◌≢◌, ◌↔◌, Bool, true, false, not, ◌||◌, [], ◌∷◌, List, All, zero, suc,
  arith, ok, >>=-eq_ok, throw_if, throw_if-ok, or-eq_false, ==_iff, ◌==◌,
}
use stellar_agentic.Base.Int.{pos, negsuc}
use stellar_agentic.Base.Numbers.{
  Number, whole, nan, natural, is_integer, is_safe_integer, ltb_number, max_safe_integer,
  is_positive_canonical,
}
use stellar_agentic.Routing.{
  RouteQuote, RoutingPolicy, validate_policy, validate_route, all_safe, all_bps, bps_in_range,
  is_empty, weights_sum, bounds_too_large, id_required, amounts_not_canonical,
  hop_count_not_positive, routing_weight_scale,
}
use stellar_agentic.Routing.Ranking.{IsValidPolicy, IsValidRoute}

-- The number is an integer from 0 to the bound.
abbrev pub IsNatural : ℕ → Number → Type 0
IsNatural bound (whole (pos n)) = n ≤ bound
IsNatural bound _ = ⊥

pub safe_iff :
    (v : Number)
    → (not (is_safe_integer v) || ltb_number v (whole (pos 0)) ≡ false)
      ↔ IsNatural max_safe_integer v
safe_iff (whole (pos n)) = (λ e. ground arith, λ h. ground arith)
safe_iff (whole (negsuc n)) = (λ e. ground arith, λ h. absurd h)
safe_iff nan = (λ e. cc, λ h. absurd h)

bps_iff : (v : Number) → (bps_in_range v ≡ true) ↔ IsNatural routing_weight_scale v
bps_iff (whole (pos n)) = (λ e. ground arith, λ h. ground arith)
bps_iff (whole (negsuc n)) = (λ e. ground arith, λ h. absurd h)
bps_iff nan = (λ e. cc, λ h. absurd h)

all_safe_iff : (vs : List Number) → (all_safe vs ≡ ok tt) ↔ All (IsNatural max_safe_integer) vs
unfolding all_safe
all_safe_iff [] = (λ _. tt, λ _. refl)
all_safe_iff (v ∷ vs) = (
  ground (arith, (safe_iff v).0, (all_safe_iff vs).0),
  ground (arith, (safe_iff v).1, (all_safe_iff vs).1),
)

all_bps_iff : (vs : List Number) → (all_bps vs ≡ ok tt) ↔ All (IsNatural routing_weight_scale) vs
unfolding all_bps
all_bps_iff [] = (λ _. tt, λ _. refl)
all_bps_iff (v ∷ vs) = (
  ground (arith, (bps_iff v).0, (all_bps_iff vs).0),
  ground (arith, (bps_iff v).1, (all_bps_iff vs).1),
)

-- What an acceptable policy is.
pub record PolicyOk (p : RoutingPolicy) : Type 0 where
  pub cost : IsNatural max_safe_integer p.cost_weight
  pub slippage : IsNatural max_safe_integer p.slippage_weight
  pub reliability : IsNatural max_safe_integer p.reliability_weight
  pub penalty : IsNatural max_safe_integer p.hop_penalty
  pub bounds_slippage : IsNatural routing_weight_scale p.max_slippage_bps
  pub bounds_reliability : IsNatural routing_weight_scale p.min_reliability_bps
  pub sum :
      natural p.cost_weight + natural p.slippage_weight + natural p.reliability_weight
      ≡ routing_weight_scale

-- What an acceptable route is.
pub record RouteOk (r : RouteQuote) : Type 0 where
  pub named : r.id ≢ []
  pub source : is_positive_canonical r.source_amount ≡ true
  pub destination : is_positive_canonical r.expected_destination_amount ≡ true
  pub fee : IsNatural routing_weight_scale r.total_fee_bps
  pub slippage : IsNatural routing_weight_scale r.expected_slippage_bps
  pub reliability : IsNatural routing_weight_scale r.reliability_bps
  pub hops : (n : ℕ) × (r.hop_count ≡ whole (pos (suc n)))

abbrev entries : RoutingPolicy → List Number
entries p =
    p.cost_weight ∷ p.slippage_weight ∷ p.reliability_weight ∷ p.hop_penalty ∷ p.max_slippage_bps
    ∷ p.min_reliability_bps ∷ []

abbrev rates : RouteQuote → List Number
rates r = r.total_fee_bps ∷ r.expected_slippage_bps ∷ r.reliability_bps ∷ []

abbrev wrong_sum : RoutingPolicy → Bool
wrong_sum p = not (
    natural p.cost_weight + natural p.slippage_weight + natural p.reliability_weight
    == routing_weight_scale)

abbrev wrong_bounds : RoutingPolicy → Bool
wrong_bounds p =
    ltb_number (whole (pos routing_weight_scale)) p.max_slippage_bps
    || ltb_number (whole (pos routing_weight_scale)) p.min_reliability_bps

abbrev wrong_amounts : RouteQuote → Bool
wrong_amounts r =
    not (is_positive_canonical r.source_amount)
    || not (is_positive_canonical r.expected_destination_amount)

within_scale :
    (v : Number)
    → IsNatural max_safe_integer v
    → ltb_number (whole (pos routing_weight_scale)) v ≡ false
    → IsNatural routing_weight_scale v
within_scale (whole (pos n)) s h = ground arith
within_scale (whole (negsuc n)) s h = s
within_scale nan s h = s

not_above_scale :
    (v : Number)
    → IsNatural routing_weight_scale v
    → (ltb_number (whole (pos routing_weight_scale)) v ≡ false) × IsNatural max_safe_integer v
not_above_scale (whole (pos n)) s = (ground arith, ground arith)
not_above_scale (whole (negsuc n)) s = absurd s
not_above_scale nan s = absurd s

validate_policy-PolicyOk : (p : RoutingPolicy) → IsValidPolicy p → PolicyOk p
unfolding validate_policy
validate_policy-PolicyOk p e =
    let (_, safe, e') = >>=-eq_ok (all_safe (entries p)) _ e in
    let (_, weights, limits) = >>=-eq_ok (throw_if (wrong_sum p) weights_sum) _ e' in
    let s = (all_safe_iff (entries p)).0 safe in
    let (slip, rel) = or-eq_false _ _ (throw_if-ok (wrong_bounds p) bounds_too_large limits) in
    record {
      cost = s.0;
      slippage = s.1.0;
      reliability = s.1.1.0;
      penalty = s.1.1.1.0;
      bounds_slippage = within_scale _ s.1.1.1.1.0 slip;
      bounds_reliability = within_scale _ s.1.1.1.1.1.0 rel;
      sum = ground (arith, throw_if-ok (wrong_sum p) weights_sum weights);
    }

PolicyOk-validate_policy : (p : RoutingPolicy) → PolicyOk p → IsValidPolicy p
unfolding validate_policy
PolicyOk-validate_policy p h =
    let (slip, slip_safe) = not_above_scale _ h.bounds_slippage in
    let (rel, rel_safe) = not_above_scale _ h.bounds_reliability in
    let safe : All (IsNatural max_safe_integer) (entries p) =
      (h.cost, (h.slippage, (h.reliability, (h.penalty, (slip_safe, (rel_safe, tt)))))) in
    let safe_ok = (all_safe_iff (entries p)).1 safe in
    let total = (==_iff _ _).1 h.sum in rw safe_ok (ground arith)

-- `validatePolicy` accepts a policy exactly when its six entries are safe non-negative integers,
-- the three weights sum to 10000 and the two bounds are at most 10000.
pub validate_policy_iff : (p : RoutingPolicy) → IsValidPolicy p ↔ PolicyOk p
validate_policy_iff p = (validate_policy-PolicyOk p, PolicyOk-validate_policy p)

hops_iff :
    (v : Number)
    → (not (is_integer v) || ltb_number v (whole (pos 1)) ≡ false)
      ↔ ((n : ℕ) × (v ≡ whole (pos (suc n))))
hops_iff (whole (pos zero)) = (λ e. ground arith, λ h. ground arith)
hops_iff (whole (pos (suc n))) = (λ e. (n, refl), λ h. ground arith)
hops_iff (whole (negsuc n)) = (λ e. ground arith, λ h. ground arith)
hops_iff nan = (λ e. cc, λ h. ground arith)

validate_route-RouteOk : (r : RouteQuote) → IsValidRoute r → RouteOk r
unfolding validate_route
validate_route-RouteOk r e =
    let (_, named, e') = >>=-eq_ok (throw_if (is_empty r.id) id_required) _ e in
    let (_, amounts, e'') = >>=-eq_ok (throw_if (wrong_amounts r) amounts_not_canonical) _ e' in
    let (_, bps, hops) = >>=-eq_ok (all_bps (rates r)) _ e'' in
    let s = (all_bps_iff (rates r)).0 bps in
    record {
      named = λ h. ground arith;
      source = ground arith;
      destination = ground arith;
      fee = s.0;
      slippage = s.1.0;
      reliability = s.1.1.0;
      hops = (hops_iff r.hop_count).0 (throw_if-ok _ hop_count_not_positive hops);
    }

RouteOk-validate_route : (r : RouteQuote) → RouteOk r → IsValidRoute r
unfolding validate_route
RouteOk-validate_route r h =
    let rates_ok : All (IsNatural routing_weight_scale) (rates r) =
      (h.fee, (h.slippage, (h.reliability, tt))) in
    let bps_ok = (all_bps_iff (rates r)).1 rates_ok in
    let hops_ok = (hops_iff r.hop_count).1 h.hops in rw (bps_ok, hops_ok) (ground arith)

-- `validateRoute` accepts a route exactly when it has an id, canonical positive amounts, basis
-- points from 0 to 10000 and at least one hop.
pub validate_route_iff : (r : RouteQuote) → IsValidRoute r ↔ RouteOk r
validate_route_iff r = (validate_route-RouteOk r, RouteOk-validate_route r)
