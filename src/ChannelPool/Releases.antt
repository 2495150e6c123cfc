-- ===== src/ChannelPool/Releases.antt =====
-- `release` of packages/core/src/fleet/channelPool.ts.
use stellar_agentic.Base.{
  ℕ, ◌+◌, ◌≡◌, refl, sym, ◌∙◌, true, false, some, List, [], if◌then◌else◌, Option-cases, inl, inr,
  ◌⊎◌, subst, ltb, arith,
}
use stellar_agentic.ChannelPool.{
  Entry, Lease, Pool, ChannelLeaseOutcome, committed, rolled_back, dispatch, find_lease,
  remove_lease, update_entry, delete_entry, is_leased, give_back, is_unwanted, release, on_returned,
}
use stellar_agentic.ChannelPool.Entries.{
  NoneFree, leased-le, length-delete_entry, length-update_entry, entry_count-update_entry,
  entry_count-delete_entry, leased_count-delete_entry, leased_count-free, leased_pos, not_leased,
}
use stellar_agentic.ChannelPool.Leases.{
  find_lease-call, lease_count-remove_lease, NoneFree-delete_entry, delete_entry-update_entry,
}
use stellar_agentic.ChannelPool.Dispatch.{Core, Inv, IsShut, dispatch-Inv}
use stellar_agentic.ChannelPool.Calls.{Core-same, Inv-if}

-- An idle entry leaves the map.
pub reclaim-Core :
    (p : Pool) (q : Pool) (a : ℕ)
    → Core p
    → is_leased a p.entries ≡ false
    → q.entries ≡ delete_entry a p.entries
    → q.leases ≡ p.leases
    → q.max_size ≡ p.max_size
    → q.target_size ≡ p.target_size
    → q.creating ≡ p.creating
    → Core q
reclaim-Core p q a c idle e l m t n = record {
  room = rw (e, m, n) (omega (arith, c.room, length-delete_entry a p.entries));
  target = rw (m, t) c.target;
  distinct = λ b. rw e (omega (arith, c.distinct b, entry_count-delete_entry b a p.entries));
  linked = λ b. rw (e, l) (c.linked b ∙ sym (leased_count-delete_entry b a p.entries idle));
}

abbrev freed : ℕ → ℕ → List Entry → List Entry
freed a now es = update_entry a (λ e. record e { leased = false; last_used_at = now }) es

-- A lease that is out is that of a leased entry.
lease-is_leased :
    (p : Pool) (call : ℕ) (l : Lease)
    → Core p
    → find_lease call p.leases ≡ some l
    → is_leased l.address p.entries ≡ true
lease-is_leased p call l c f =
    let out = lease_count-remove_lease l.address call p.leases l f in
    let link = c.linked l.address in
    leased_pos l.address p.entries (c.distinct l.address) (ground arith)

freed_idle :
    (p : Pool) (call : ℕ) (l : Lease) (now : ℕ)
    → Core p
    → find_lease call p.leases ≡ some l
    → is_leased l.address (freed l.address now p.entries) ≡ false
freed_idle p call l now c f =
    let free = leased_count-free l.address l.address now p.entries (lease-is_leased p call l c f) in
    let few = leased-le l.address p.entries in
    let once = c.distinct l.address in
    not_leased l.address (freed l.address now p.entries) (ground arith)

freed-Core :
    (p : Pool) (q : Pool) (call : ℕ) (l : Lease) (now : ℕ)
    → Core p
    → find_lease call p.leases ≡ some l
    → q.entries ≡ freed l.address now p.entries
    → q.leases ≡ remove_lease call p.leases
    → q.max_size ≡ p.max_size
    → q.target_size ≡ p.target_size
    → q.creating ≡ p.creating
    → Core q
freed-Core p q call l now c f e o m t n = record {
  room =
      rw
        (
          e,
          m,
          n,
          length-update_entry (λ e. record e { leased = false; last_used_at = now }) (λ e. refl)
              l.address p.entries,
        )
        c.room;
  target = rw (m, t) c.target;
  distinct = λ a.
      rw
        (
          e,
          entry_count-update_entry (λ e. record e { leased = false; last_used_at = now })
              (λ e. refl) a l.address p.entries,
        )
        (c.distinct a);
  linked = λ a.
      let free = leased_count-free a l.address now p.entries (lease-is_leased p call l c f) in
      let out = lease_count-remove_lease a call p.leases l f in
      let link = c.linked a in rw (e, o) (omega arith);
}

give_back-Core :
    (p : Pool) (l : Lease) (outcome : ChannelLeaseOutcome) (now : ℕ)
    → Core p
    → find_lease l.call p.leases ≡ some l
    → Core (give_back p l outcome now)
unfolding give_back
give_back-Core p l committed now c f = freed-Core p _ l.call l now c f refl refl refl refl refl
give_back-Core p l rolled_back now c f = freed-Core p _ l.call l now c f refl refl refl refl refl

-- What `release` leaves alone before its first await.
given_back :
    (p : Pool) (l : Lease) (outcome : ChannelLeaseOutcome) (now : ℕ)
    → let q = give_back p l outcome now in
      (q.entries ≡ freed l.address now p.entries) × (q.closed ≡ p.closed) × (q.waiters ≡ p.waiters)
unfolding give_back
given_back p l committed now = (refl, refl, refl)
given_back p l rolled_back now = (refl, refl, refl)

given_away-served :
    (p : Pool) (l : Lease) (outcome : ChannelLeaseOutcome) (now : ℕ) (es : List Entry)
    → Inv p
    → es ≡ delete_entry l.address (give_back p l outcome now).entries
    → ((give_back p l outcome now).waiters ≡ []) ⊎ NoneFree es
given_away-served p l outcome now es i e =
    let g = given_back p l outcome now in
    elim i.served [
      | inl nobody ↦ inl (g.2 ∙ nobody)
      | inr busy ↦ inr (
          rw
            (
              e,
              g.0,
              delete_entry-update_entry (λ e. record e { leased = false; last_used_at = now })
                  (λ e. refl) l.address p.entries,
            )
            (NoneFree-delete_entry l.address p.entries busy))
    ]

release_found-Inv :
    (p : Pool) (l : Lease) (outcome : ChannelLeaseOutcome) (now : ℕ)
    → Inv p
    → find_lease l.call p.leases ≡ some l
    → let q = give_back p l outcome now in
      Inv (
        if is_unwanted q l.address
        then record q { entries = delete_entry l.address q.entries; returning = q.returning + 1 }
        else dispatch q)
release_found-Inv p l outcome now i f =
    let q = give_back p l outcome now in
    let g = given_back p l outcome now in
    let c = give_back-Core p l outcome now i.core f in
    let shut : IsShut q = λ s. g.2 ∙ i.shut (sym g.1 ∙ s) in
    Inv-if (is_unwanted q l.address)
      (λ u. record {
        core =
            reclaim-Core q _ l.address c
              (subst (λ es. is_leased l.address es ≡ false) (sym g.0)
                (freed_idle p l.call l now i.core f))
              refl refl refl refl refl;
        served = given_away-served p l outcome now _ i refl;
        shut = shut;
      })
      (λ w. dispatch-Inv q c shut)

pub release-Inv :
    (p : Pool) (call : ℕ) (outcome : ChannelLeaseOutcome) (now : ℕ)
    → Inv p
    → Inv (release p call outcome now)
unfolding release
release-Inv p call outcome now i = elim (Option-cases (find_lease call p.leases)) [
  | inl e ↦ rw (e, release) i
  | inr (l, e) ↦
      rw (e, release)
        (release_found-Inv p l outcome now i
          (subst (λ c. find_lease c p.leases ≡ some l) (sym (find_lease-call call p.leases l e)) e))
]

pub on_returned-Inv : (p : Pool) → Inv p → Inv (on_returned p)
unfolding on_returned
on_returned-Inv p i =
    Inv-if (ltb 0 p.returning)
      (λ s. dispatch-Inv _ (Core-same p _ i.core refl refl refl refl (omega arith)) i.shut) (λ s. i)
