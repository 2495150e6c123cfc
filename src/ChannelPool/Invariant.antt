-- ===== src/ChannelPool/Invariant.antt =====
-- What holds of a pool of packages/core/src/fleet/channelPool.ts after any sequence of events.
use stellar_agentic.Base.{
  ℕ, ◌+◌, ◌≤◌, ◌≡◌, refl, sym, ◌∙◌, Bool, not, ◌&&◌, ◌||◌, List, [], ◌∷◌, ◌++◌, length, Bool-cases,
  inl, inr, subst, ltb, throw_if, >>=-eq_ok, ok_injective, throw_if-ok, ok, arith,
}
use stellar_agentic.ChannelPool.{
  Entry, Pool, new_entry, has_entry, Event, leases_out, gives_up, releases, account_returned,
  account_created, create_failed, surplus_returned, resizes_to, resize_goes_on, closes, step, run,
  create, add_accounts, bad_max_size, too_many_accounts, factory_needed,
}
use stellar_agentic.ChannelPool.Entries.{leased_count, AreDistinct}
use stellar_agentic.ChannelPool.Leases.{length-join, leased_count-join}
use stellar_agentic.ChannelPool.Dispatch.{Inv}
use stellar_agentic.ChannelPool.Calls.{lease-Inv, give_up-Inv}
use stellar_agentic.ChannelPool.Creations.{
  absent-join, on_created-Inv, on_create_failed-Inv, on_surplus-Inv,
}
use stellar_agentic.ChannelPool.Sizes.{resize-Inv, on_resize-Inv, close-Inv}
use stellar_agentic.ChannelPool.Entries.{leased-le}
use stellar_agentic.ChannelPool.Leases.{lease_count}
use stellar_agentic.ChannelPool.Releases.{release-Inv, on_returned-Inv}

-- What `#add` makes of the initial accounts.
record Added (before : List Entry) (accounts : List ℕ) (after : List Entry) : Type 0 where
  pub size : length after ≡ length before + length accounts
  pub distinct : AreDistinct after
  pub idle : (a : ℕ) → leased_count a after ≡ leased_count a before

add_accounts-Added :
    (as' : List ℕ) (now : ℕ) (es fs : List Entry)
    → AreDistinct es
    → add_accounts as' now es ≡ ok fs
    → Added es as' fs
unfolding add_accounts
add_accounts-Added [] now es fs d e =
    subst (Added es []) (ok_injective e)
      (record { size = omega arith; distinct = d; idle = λ a. refl })
add_accounts-Added (a ∷ as') now es fs d e = elim (Bool-cases (has_entry a es)) [
  | inl twice ↦ absurd (let rest = add_accounts as' now (es ++ new_entry a now ∷ []) in cc)
  | inr absent ↦
      let rest =
        add_accounts-Added as' now (es ++ new_entry a now ∷ []) fs (absent-join a now es d absent)
          (let go = add_accounts as' now (es ++ new_entry a now ∷ []) in cc) in
      record {
        size = omega (arith, rest.size, length-join a now es);
        distinct = rest.distinct;
        idle = λ b. rest.idle b ∙ leased_count-join b a now es;
      }
]

create-Inv :
    (accounts : List ℕ) (has_factory : Bool) (min_size max_size now : ℕ) (p : Pool)
    → create accounts has_factory min_size max_size now ≡ ok p
    → Inv p
unfolding create
create-Inv accounts has_factory min_size max_size now p e =
    let (u, sized, e1) =
      >>=-eq_ok (throw_if (ltb max_size 1 || ltb max_size min_size) bad_max_size) _ e in
    let (u, few, e2) =
      >>=-eq_ok (throw_if (ltb max_size (length accounts)) too_many_accounts) _ e1 in
    let (u, made, e3) =
      >>=-eq_ok (throw_if (ltb (length accounts) min_size && not has_factory) factory_needed) _
        e2 in
    let (entries, added, e4) = >>=-eq_ok (add_accounts accounts now []) _ e3 in
    let bounds = throw_if-ok (ltb max_size 1 || ltb max_size min_size) bad_max_size sized in
    let fits = throw_if-ok (ltb max_size (length accounts)) too_many_accounts few in
    let a = add_accounts-Added accounts now [] entries (λ b. omega arith) added in
    let size = a.size in
    subst Inv (ok_injective e4) (record {
      core = record {
        room = ground arith;
        target = ground arith;
        distinct = a.distinct;
        linked = λ b. sym (a.idle b);
      };
      served = inl refl;
      shut = λ s. refl;
    })

step-Inv : (p : Pool) (e : Event) → Inv p → Inv (step p e)
unfolding step
step-Inv p (leases_out call aborted) i = lease-Inv p call aborted i
step-Inv p (gives_up call code) i = give_up-Inv p call code i
step-Inv p (releases call outcome now) i = release-Inv p call outcome now i
step-Inv p account_returned i = on_returned-Inv p i
step-Inv p (account_created a now) i = on_created-Inv p a now i
step-Inv p create_failed i = on_create_failed-Inv p i
step-Inv p (surplus_returned failed) i = on_surplus-Inv p failed i
step-Inv p (resizes_to call size) i = resize-Inv p call size i
step-Inv p (resize_goes_on call) i = on_resize-Inv p call i
step-Inv p closes i = close-Inv p i

run-Inv : (es : List Event) (p : Pool) → Inv p → Inv (run p es)
unfolding run
run-Inv [] p i = i
run-Inv (e ∷ es) p i = run-Inv es (step p e) (step-Inv p e i)

-- A pool that the constructor makes keeps its invariant through any sequence of calls, timers,
-- aborts and answers of the account factory: the accounts that it holds and those it is creating
-- are `max_size` at most together, as is the target size; no address stands twice in its map; the
-- leases that are out are those of its leased entries; no call waits while an account is free; and
-- none waits once the pool is closed.
pub created_run-Inv :
    (accounts : List ℕ) (has_factory : Bool) (min_size max_size now : ℕ) (p : Pool)
    (es : List Event)
    → create accounts has_factory min_size max_size now ≡ ok p
    → Inv (run p es)
created_run-Inv accounts has_factory min_size max_size now p es e =
    run-Inv es p (create-Inv accounts has_factory min_size max_size now p e)

-- Whatever happens to a pool that the constructor makes, an account is never out on two leases at
-- once.
pub lease_exclusive :
    (accounts : List ℕ) (has_factory : Bool) (min_size max_size now : ℕ) (p : Pool)
    (es : List Event) (a : ℕ)
    → create accounts has_factory min_size max_size now ≡ ok p
    → lease_count a (run p es).leases ≤ 1
lease_exclusive accounts has_factory min_size max_size now p es a e =
    let i = created_run-Inv accounts has_factory min_size max_size now p es e in
    let link = i.core.linked a in
    let once = i.core.distinct a in let few = leased-le a (run p es).entries in omega arith
