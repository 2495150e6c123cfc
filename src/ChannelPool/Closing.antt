-- ===== src/ChannelPool/Closing.antt =====
-- A pool of packages/core/src/fleet/channelPool.ts behind `close`.
use stellar_agentic.Base.{
  ℕ, ◌+◌, ◌≤◌, ◌≡◌, suc, zero, Result, throw_if, ◌>>=◌, refl, sym, ◌∙◌, Bool, ap, subst, ◌-◌, true,
  false, not, ◌&&◌, ◌||◌, some, List, [], ◌∷◌, length, Option-cases, Bool-cases, if◌then◌else◌, inl,
  inr, ltb, leb, arith,
}
use stellar_agentic.ChannelPool.{
  Pool, ResizeError, resize_closed, PoolErrorCode, serve, grow, dispatch, lease, give_up,
  remove_waiter, find_lease, remove_lease, release, on_returned, end_create, fail_create,
  reject_first, on_created, on_create_failed, on_surplus, resize, find_resize, continue_resize,
  Resize, ordered, shrinking, on_resize, close, Event, leases_out, gives_up, releases,
  account_returned, account_created, create_failed, surplus_returned, resizes_to, resize_goes_on,
  closes, after, step, run, Lease, ChannelLeaseOutcome, committed, rolled_back, give_back,
  is_unwanted, shrink_entry, is_leased,
}
use stellar_agentic.ChannelPool.Leases.{lease_count, lease_count-remove_lease, find_lease-call}
use stellar_agentic.ChannelPool.Calls.{remove_nobody}
use stellar_agentic.ChannelPool.Dispatch.{Inv}

serve_nobody : (ws : List ℕ) (p : Pool) → ws ≡ p.waiters → p.waiters ≡ [] → serve ws p ≡ p
unfolding serve
serve_nobody [] p e n = ap (λ ws. record p { waiters = ws }) (sym n)
serve_nobody (w ∷ ws) p e n = absurd (let h = e ∙ n in cc)

grow_nobody : (p : Pool) → p.waiters ≡ [] → grow p ≡ p
unfolding grow
grow_nobody p n =
    let idle : ltb p.creating (length p.waiters) ≡ false = rw n (ground arith) in rw idle refl

-- With no waiter `#dispatch` does nothing.
dispatch_nobody : (p : Pool) → p.waiters ≡ [] → dispatch p ≡ p
unfolding dispatch
dispatch_nobody p n = ap grow (serve_nobody p.waiters p refl n) ∙ grow_nobody p n

-- The creations that ended: a creation ends with a failure, or when its account, which a closed pool
-- does not take, has been given back.
abbrev pub tally : Event → Pool → ℕ → ℕ
tally create_failed q n = if ltb q.surplus q.creating then suc n else n
tally (surplus_returned _) q n = if ltb 0 q.surplus && ltb 0 q.creating then suc n else n
tally _ q n = n

unfoldable pub ended : List Event → Pool → ℕ → ℕ
ended [] q n = n
ended (e ∷ es) q n = ended es (step q e) (tally e q n)

-- What a closed pool becomes: it stays closed with no waiter, its leases only leave, and the creations
-- under way are those there were without the ones that ended.
pub record Wound (p : Pool) (n : ℕ) (q : Pool) : Type 0 where
  pub closed : q.closed ≡ true
  pub nobody : q.waiters ≡ []
  pub fewer : (a : ℕ) → lease_count a q.leases ≤ lease_count a p.leases
  pub ordered : q.creating + n ≡ p.creating

module _ (p : Pool) (n : ℕ) where
  Wound-same :
      (q : Pool) (r : Pool)
      → Wound p n q
      → r.closed ≡ q.closed
      → r.waiters ≡ q.waiters
      → r.leases ≡ q.leases
      → r.creating ≡ q.creating
      → Wound p n r
  Wound-same q r w c m l o = record {
    closed = c ∙ w.closed;
    nobody = m ∙ w.nobody;
    fewer = rw l w.fewer;
    ordered = ap (λ c. c + n) o ∙ w.ordered;
  }

  Wound-if :
      (b : Bool) {q r : Pool}
      → (b ≡ true → Wound p n q)
      → (b ≡ false → Wound p n r)
      → Wound p n (if b then q else r)
  Wound-if true l r = l refl
  Wound-if false l r = r refl

  Wound-dispatch : (q : Pool) → Wound p n q → Wound p n (dispatch q)
  Wound-dispatch q w = subst (Wound p n) (sym (dispatch_nobody q w.nobody)) w

  Wound-lease :
      (q : Pool) (call : ℕ) (aborted : Bool) → Wound p n q → Wound p n (lease q call aborted)
  unfolding lease
  Wound-lease q call aborted w =
      Wound-if q.closed (λ c. Wound-same q _ w refl refl refl refl)
        (λ up. absurd (let c = w.closed in cc))

  Wound-give_up :
      (q : Pool) (call : ℕ) (code : PoolErrorCode) → Wound p n q → Wound p n (give_up q call code)
  unfolding give_up
  Wound-give_up q call code w = elim (Option-cases (remove_waiter call q.waiters)) [
    | inl e ↦ rw (e, give_up) w
    | inr (rest, e) ↦ absurd (remove_nobody call q.waiters rest e w.nobody)
  ]

  removed :
      (q : Pool) (l : Lease)
      → Wound p n q
      → find_lease l.call q.leases ≡ some l
      → (a : ℕ) → lease_count a (remove_lease l.call q.leases) ≤ lease_count a p.leases
  removed q l w f a = omega (arith, w.fewer a, lease_count-remove_lease a l.call q.leases l f)

  Wound-give_back :
      (q : Pool) (l : Lease) (outcome : ChannelLeaseOutcome) (now : ℕ)
      → Wound p n q
      → find_lease l.call q.leases ≡ some l
      → Wound p n (give_back q l outcome now)
  unfolding give_back
  Wound-give_back q l committed now w f = record {
    closed = w.closed;
    nobody = w.nobody;
    fewer = removed q l w f;
    ordered = w.ordered;
  }
  Wound-give_back q l rolled_back now w f = record {
    closed = w.closed;
    nobody = w.nobody;
    fewer = removed q l w f;
    ordered = w.ordered;
  }

  Wound-release :
      (q : Pool) (call : ℕ) (outcome : ChannelLeaseOutcome) (now : ℕ)
      → Wound p n q
      → Wound p n (release q call outcome now)
  unfolding release
  Wound-release q call outcome now w = elim (Option-cases (find_lease call q.leases)) [
    | inl e ↦ rw (e, release) w
    | inr (l, e) ↦
        let same = find_lease-call call q.leases l e in
        let out =
          Wound-give_back q l outcome now w
            (subst (λ c. find_lease c q.leases ≡ some l) (sym same) e) in
        rw (e, release)
          (Wound-if (is_unwanted (give_back q l outcome now) l.address)
            (λ u. Wound-same (give_back q l outcome now) _ out refl refl refl refl)
            (λ u. Wound-dispatch (give_back q l outcome now) out))
  ]

  Wound-continue_resize :
      (q : Pool) (call : ℕ) (r : Resize) → Wound p n q → Wound p n (continue_resize q call r)
  unfolding continue_resize shrink_entry
  Wound-continue_resize q call (ordered size) w = Wound-same q _ w refl refl refl refl
  Wound-continue_resize q call (shrinking zero as') w = w
  Wound-continue_resize q call (shrinking (suc excess) []) w = w
  Wound-continue_resize q call (shrinking (suc excess) (a ∷ as')) w =
      Wound-if (is_leased a q.entries) (λ b. Wound-same q _ w refl refl refl refl)
        (λ b. Wound-same q _ w refl refl refl refl)

  Wound-throw :
      (q : Pool) (b : Bool) (e : ResizeError) (k : Unit {0} → Result ResizeError Pool)
      → Wound p n q
      → b ≡ true
      → Wound p n (after q (throw_if b e >>= k))
  Wound-throw q true e k w t = w
  Wound-throw q false e k w t = absurd cc

reject_nobody : (ws : List ℕ) (q : Pool) → ws ≡ [] → reject_first ws q ≡ q
reject_nobody [] q n = refl
reject_nobody (w ∷ ws) q n = absurd cc

module _ (p : Pool) where
  -- The end of a creation.
  Wound-end_create :
      (n : ℕ) (q : Pool) → 1 ≤ q.creating → Wound p n q → Wound p (suc n) (end_create q)
  unfolding end_create
  Wound-end_create n q some_left w =
      let o = w.ordered in
      Wound-dispatch p (suc n) _ (record {
        closed = w.closed;
        nobody = w.nobody;
        fewer = w.fewer;
        ordered = omega (arith, o, some_left);
      })

  Wound-fail_create :
      (n : ℕ) (q : Pool) → 1 ≤ q.creating → Wound p n q → Wound p (suc n) (fail_create q)
  unfolding fail_create
  Wound-fail_create n q some_left w =
      rw (reject_nobody q.waiters q w.nobody) (Wound-end_create n q some_left w)

  Wound-failed :
      (n : ℕ) (q : Pool) (b : Bool)
      → (b ≡ true → 1 ≤ q.creating)
      → Wound p n q
      → Wound p (if b then suc n else n) (if b then fail_create q else q)
  Wound-failed n q true h w = Wound-fail_create n q (h refl) w
  Wound-failed n q false h w = w

  Wound-returned :
      (n : ℕ) (q : Pool) (b failed : Bool)
      → (b ≡ true → 1 ≤ q.creating)
      → Wound p n q
      → Wound p (if b then suc n else n) (
          if not b
          then q
          else if failed
          then fail_create (record q { surplus = q.surplus - 1 })
          else end_create (record q { surplus = q.surplus - 1 }))
  Wound-returned n q false failed h w = w
  Wound-returned n q true failed h w =
      let v : Wound p n (record q { surplus = q.surplus - 1 }) =
        Wound-same p n q _ w refl refl refl refl in
      Wound-if p (suc n) failed (λ f. Wound-fail_create n _ (h refl) v)
        (λ f. Wound-end_create n _ (h refl) v)

  Wound-step : (n : ℕ) (q : Pool) (e : Event) → Wound p n q → Wound p (tally e q n) (step q e)
  unfolding step on_returned on_created on_create_failed on_surplus resize on_resize close
  Wound-step n q (leases_out call aborted) w = Wound-lease p n q call aborted w
  Wound-step n q (gives_up call code) w = Wound-give_up p n q call code w
  Wound-step n q (releases call outcome now) w = Wound-release p n q call outcome now w
  Wound-step n q account_returned w =
      Wound-if p n (ltb 0 q.returning)
        (λ b. Wound-dispatch p n _ (Wound-same p n q _ w refl refl refl refl)) (λ b. w)
  Wound-step n q (account_created a now) w =
      Wound-if p n (not (ltb q.surplus q.creating)) (λ b. w)
        λ b.
          Wound-if p n (q.closed || leb q.target_size (length q.entries))
            (λ u. Wound-same p n q _ w refl refl refl refl)
            (λ u. absurd (let c = w.closed in ground arith))
  Wound-step n q create_failed w = Wound-failed n q (ltb q.surplus q.creating) (λ b. ground arith) w
  Wound-step n q (surplus_returned failed) w =
      Wound-returned n q (ltb 0 q.surplus && ltb 0 q.creating) failed (λ b. ground arith) w
  Wound-step n q (resizes_to call size) w = Wound-throw p n q q.closed resize_closed _ w w.closed
  Wound-step n q (resize_goes_on call) w = elim (Option-cases (find_resize call q.resizes)) [
    | inl e ↦ rw (e, on_resize) w
    | inr (r, e) ↦ rw (e, on_resize) (Wound-continue_resize p n q call r w)
  ]
  Wound-step n q closes w = Wound-if p n q.closed (λ c. w) (λ up. absurd (let c = w.closed in cc))

  Wound-run : (es : List Event) (n : ℕ) (q : Pool) → Wound p n q → Wound p (ended es q n) (run q es)
  unfolding run ended
  Wound-run [] n q w = w
  Wound-run (e ∷ es) n q w = Wound-run es (tally e q n) (step q e) (Wound-step n q e w)

close-Wound : (p : Pool) → Inv p → Wound p 0 (close p)
unfolding close
close-Wound p i = elim (Bool-cases p.closed) [
  | inl c ↦
      Wound-if p 0 p.closed
        (λ e. record {
          closed = c;
          nobody = i.shut c;
          fewer = λ a. omega arith;
          ordered = omega arith;
        })
        (λ up. absurd cc)
  | inr up ↦
      Wound-if p 0 p.closed (λ e. absurd cc)
        (λ e. record {
          closed = refl;
          nobody = refl;
          fewer = λ a. omega arith;
          ordered = omega arith;
        })
]

-- Once a pool whose invariant holds is closed, and whatever happens then, it stays closed, no call
-- waits in it, no lease is granted (of no address are more leases out than before), and no account
-- is ordered from the factory: the creations under way and those that ended since are together those
-- that were under way.
pub closed_run-Wound :
    (p : Pool) (es : List Event) → Inv p → Wound p (ended es (close p) 0) (run (close p) es)
closed_run-Wound p es i = Wound-run p es 0 (close p) (close-Wound p i)
