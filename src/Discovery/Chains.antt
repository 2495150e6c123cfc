-- ===== src/Discovery/Chains.antt =====
-- The routes that `normalizeRoute` of packages/core/src/routing/discovery.ts lets pass.
use stellar_agentic.Base.{
  ℕ, ◌≤◌, ◌≡◌, refl, sym, ap, subst, ◌∙◌, Bool, true, false, not, ◌&&◌, List, [], ◌∷◌, ◌++◌, length,
  ltb, ◌==◌, ok, >>=-eq_ok, ok_injective, throw_if, throw_if-ok, arith,
}
use stellar_agentic.Base.Numbers.{Bytes, natural, bigint}
use stellar_agentic.Base.Texts.{same_bytes}
use stellar_agentic.Routing.{RouteHop, RouteQuote}
use stellar_agentic.Discovery.{
  invalid_quote, DiscoveryRequest, parse_non_negative_integer, parse_positive_integer, is_canonical,
  path_of, is_direct, Walk, visit, validate_hop, walk_hop, walk, economic_depth, is_disallowed,
  normalize_route,
}

-- From an asset and an amount to an asset and an amount: each hop starts with the asset and the
-- amount that the one before it ends with.
pub IsChain : Bytes → ℕ → List RouteHop → Bytes → ℕ → Type 0
IsChain source amount [] target output = (same_bytes source target ≡ true) × (amount ≡ output)
IsChain source amount (h ∷ hs) target output =
    (same_bytes h.source_asset source ≡ true)
    × (bigint h.source_amount ≡ amount)
    × IsChain h.destination_asset (bigint h.expected_output) hs target output

parse_positive_integer-ok : (s : Bytes) (n : ℕ) → parse_positive_integer s ≡ ok n → n ≡ bigint s
unfolding parse_positive_integer parse_non_negative_integer
parse_positive_integer-ok s n e =
    let (m, a, e1) = >>=-eq_ok (parse_non_negative_integer s) _ e in
    let (u, b, e2) = >>=-eq_ok (throw_if (m == 0) invalid_quote) _ e1 in
    let (v, c, e3) = >>=-eq_ok (throw_if (not (is_canonical s)) invalid_quote) _ a in
    sym (ok_injective e2) ∙ sym (ok_injective e3)

-- The sums of a route are in range.
pub record InRange (w : Walk) : Type 0 where
  pub fee : w.total_fee_bps ≤ 10000
  pub slippage : w.total_slippage_bps ≤ 10000
  pub reliability : w.reliability_bps ≤ 10000

not-eq_false : (b : Bool) → not b ≡ false → b ≡ true
not-eq_false true h = refl
not-eq_false false h = absurd cc

module _ (is_blank : Bytes → Bool) (print : ℕ → Bytes) (route_id : List RouteHop → Bytes) where
  record Hopped (w : Walk) (h : RouteHop) (next : Walk) : Type 0 where
    pub source : same_bytes h.source_asset w.previous_asset ≡ true
    pub amount : bigint h.source_amount ≡ w.expected_source
    pub target : next.previous_asset ≡ h.destination_asset
    pub output : next.expected_source ≡ bigint h.expected_output
    pub in_range : InRange w → InRange next

  walk_hop-Hopped :
      (single : Bool) (w : Walk) (h : RouteHop) (next : Walk)
      → walk_hop is_blank print route_id single w h ≡ ok next
      → Hopped w h next
  unfolding walk_hop
  walk_hop-Hopped single w h next e =
      let (bps, a, e1) = >>=-eq_ok (validate_hop is_blank print route_id h) _ e in
      let (u, joined, e2) =
        >>=-eq_ok (throw_if (not (same_bytes h.source_asset w.previous_asset)) invalid_quote) _
          e1 in
      let (source, sa, e3) = >>=-eq_ok (parse_positive_integer h.source_amount) _ e2 in
      let (u, level, e4) =
        >>=-eq_ok (throw_if (not (source == w.expected_source)) invalid_quote) _ e3 in
      let (assets, va, e5) =
        >>=-eq_ok
          (visit (single && is_direct h.venue && same_bytes h.source_asset h.destination_asset)
            (path_of h ++ h.destination_asset ∷ []) w.assets)
          _ e4 in
      let (output, oa, e6) = >>=-eq_ok (parse_positive_integer h.expected_output) _ e5 in
      let same = throw_if-ok (not (source == w.expected_source)) invalid_quote level in
      let equal : source ≡ w.expected_source = ground arith in
      subst (Hopped w h) (ok_injective e6) (record {
        source =
            not-eq_false _
              (throw_if-ok (not (same_bytes h.source_asset w.previous_asset)) invalid_quote joined);
        amount = sym (parse_positive_integer-ok h.source_amount source sa) ∙ equal;
        target = refl;
        output = parse_positive_integer-ok h.expected_output output oa;
        in_range = λ r. record {
          fee = omega arith;
          slippage = omega arith;
          reliability = omega (arith, r.reliability);
        };
      })

  walk-IsChain :
      (single : Bool) (hs : List RouteHop) (w last : Walk) (target : Bytes)
      → walk is_blank print route_id single hs w ≡ ok last
      → same_bytes last.previous_asset target ≡ true
      → InRange w
      → IsChain w.previous_asset w.expected_source hs target last.expected_source × InRange last
  unfolding walk IsChain
  walk-IsChain single [] w last target e t r =
      let same : w ≡ last = ok_injective e in
      (
        (
          subst (λ v. same_bytes v.previous_asset target ≡ true) (sym same) t,
          ap (λ v. v.expected_source) same,
        ),
        subst InRange same r,
      )
  walk-IsChain single (h ∷ hs) w last target e t r =
      let (next, a, e1) = >>=-eq_ok (walk_hop is_blank print route_id single w h) _ e in
      let hopped = walk_hop-Hopped single w h next a in
      let (chain, range) = walk-IsChain single hs next last target e1 t (hopped.in_range r) in
      (
        (
          hopped.source,
          hopped.amount,
          subst (λ x. IsChain x (bigint h.expected_output) hs target last.expected_source)
              hopped.target
              (subst (λ y. IsChain next.previous_asset y hs target last.expected_source)
                hopped.output chain),
        ),
        range,
      )

  -- A route that `normalizeRoute` lets pass has at least one hop and no more steps than allowed. It
  -- is a chain from the request's asset and amount to the asset that the request wants, each hop
  -- starting with the asset and the amount that the one before it ends with; the route promises what
  -- its last hop does, and its fee, slippage and reliability are at most 10000 basis points.
  pub normalize_route-IsChain :
      (r : DiscoveryRequest) (hops : List RouteHop) (max_hops : ℕ) (q : RouteQuote)
      → normalize_route is_blank print route_id r hops max_hops ≡ ok q
      → (output : ℕ) × IsChain r.source_asset
          (bigint r.source_amount)
          hops
          r.destination_asset
          output
        × (q.expected_destination_amount ≡ print output)
        × (1 ≤ length hops)
        × (natural q.hop_count ≤ max_hops)
        × (natural q.total_fee_bps ≤ 10000)
        × (natural q.expected_slippage_bps ≤ 10000)
        × (natural q.reliability_bps ≤ 10000)
  unfolding normalize_route
  normalize_route-IsChain r hops max_hops q e =
      let (u, some_hop, e1) = >>=-eq_ok (throw_if (length hops == 0) invalid_quote) _ e in
      let (u, shallow, e2) =
        >>=-eq_ok (throw_if (ltb max_hops (economic_depth hops)) invalid_quote) _ e1 in
      let (source, sa, e3) = >>=-eq_ok (parse_positive_integer r.source_amount) _ e2 in
      let (w, walked, e4) =
        >>=-eq_ok (walk is_blank print route_id (length hops == 1) hops (start source)) _ e3 in
      let (u, reached, e5) =
        >>=-eq_ok (throw_if (not (same_bytes w.previous_asset r.destination_asset)) invalid_quote) _
          e4 in
      let (u, allowed, e6) =
        >>=-eq_ok (throw_if (is_disallowed r.allowed_intermediates w.assets) invalid_quote) _ e5 in
      let depth = throw_if-ok (ltb max_hops (economic_depth hops)) invalid_quote shallow in
      let not_empty = throw_if-ok (length hops == 0) invalid_quote some_hop in
      let at_least_one : 1 ≤ length hops = ground arith in
      let (chain, range) =
        walk-IsChain (length hops == 1) hops (start source) w r.destination_asset walked
          (not-eq_false _ (
            throw_if-ok (not (same_bytes w.previous_asset r.destination_asset)) invalid_quote
              reached))
          (record { fee = omega arith; slippage = omega arith; reliability = omega arith }) in
      let from = parse_positive_integer-ok r.source_amount source sa in
      let same = ok_injective e6 in
      (
        w.expected_source,
        subst (λ n. IsChain r.source_asset n hops r.destination_asset w.expected_source) from chain,
        ap (λ z. z.expected_destination_amount) (sym same),
        at_least_one,
        subst (λ z. natural z.hop_count ≤ max_hops) same (ground arith),
        subst (λ z. natural z.total_fee_bps ≤ 10000) same range.fee,
        subst (λ z. natural z.expected_slippage_bps ≤ 10000) same range.slippage,
        subst (λ z. natural z.reliability_bps ≤ 10000) same range.reliability,
      )
    where
      start : ℕ → Walk
      start source = record {
        assets = r.source_asset ∷ [];
        expected_source = source;
        total_fee_bps = 0;
        total_slippage_bps = 0;
        reliability_bps = 10000;
        previous_asset = r.source_asset;
      }
