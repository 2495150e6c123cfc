-- ===== src/ChannelPool/Calls.antt =====
-- `lease` of packages/core/src/fleet/channelPool.ts, and the waiters that give up.
use stellar_agentic.Base.{
  ℕ, ◌≤◌, Bool, ◌≡◌, ◌≢◌, refl, true, false, not, ◌&&◌, none, some, List, [], ◌∷◌, ◌++◌, length,
  ◌==◌, if◌then◌else◌, Option-cases, inl, inr, arith,
}
use stellar_agentic.ChannelPool.{
  Entry, Pool, PoolErrorCode, pool_closed, lease_aborted, factory_failed, available_entry,
  make_lease, dispatch, lease, give_up, remove_waiter,
}
use stellar_agentic.ChannelPool.Leases.{available_entry-NoneFree}
use stellar_agentic.ChannelPool.Dispatch.{Core, Inv, make_lease-Core, dispatch-Inv}

-- A write to the pool that leaves what the invariant reads.
pub Core-same :
    (p : Pool) (q : Pool)
    → Core p
    → q.entries ≡ p.entries
    → q.leases ≡ p.leases
    → q.max_size ≡ p.max_size
    → q.target_size ≡ p.target_size
    → q.creating ≤ p.creating
    → Core q
Core-same p q c e l m t n = record {
  room = rw (e, m) (omega (arith, c.room, n));
  target = rw (m, t) c.target;
  distinct = rw e c.distinct;
  linked = rw (e, l) c.linked;
}

-- The same of the invariant.
pub Inv-same :
    (p : Pool) (q : Pool)
    → Inv p
    → q.entries ≡ p.entries
    → q.leases ≡ p.leases
    → q.max_size ≡ p.max_size
    → q.target_size ≡ p.target_size
    → q.creating ≤ p.creating
    → q.waiters ≡ p.waiters
    → q.closed ≡ p.closed
    → Inv q
Inv-same p q i e l m t n w d = record {
  core = Core-same p q i.core e l m t n;
  served = rw (w, e) i.served;
  shut = rw (w, d) i.shut;
}

make_lease-Inv :
    (p : Pool) (e : Entry) (call : ℕ)
    → Inv p
    → available_entry p.entries ≡ some e
    → Inv (make_lease p e call)
unfolding make_lease
make_lease-Inv p e call i f = record {
  core = make_lease-Core p e call i.core f;
  served = elim i.served [
    | inl nobody ↦ inl nobody
    | inr busy ↦ absurd (let n = available_entry-NoneFree p.entries busy in cc)
  ];
  shut = i.shut;
}

lease_open-Inv :
    (p : Pool) (call : ℕ) (up : p.closed ≡ false)
    → Inv p
    → available_entry p.entries ≡ none
    → Inv (dispatch (record p { waiters = p.waiters ++ call ∷ [] }))
lease_open-Inv p call up i f =
    let q = record p { waiters = p.waiters ++ call ∷ [] } in
    dispatch-Inv q (Core-same p q i.core refl refl refl refl (omega arith)) (λ c. absurd cc)

-- An `if` whose branches both have the invariant.
pub Inv-if :
    (b : Bool) {p q : Pool} → (b ≡ true → Inv p) → (b ≡ false → Inv q) → Inv (if b then p else q)
Inv-if true l r = l refl
Inv-if false l r = r refl

pub lease-Inv : (p : Pool) (call : ℕ) (aborted : Bool) → Inv p → Inv (lease p call aborted)
unfolding lease
lease-Inv p call aborted i =
    Inv-if p.closed (λ s. rejected pool_closed)
      λ up.
        Inv-if aborted (λ s. rejected lease_aborted)
          λ here. elim (Option-cases (available_entry p.entries)) [
            | inr (e, f) ↦ rw f (make_lease-Inv p e call i f)
            | inl f ↦ rw f (
                Inv-if ((length p.entries == 0) && (p.creating == 0) && not p.has_factory)
                  (λ s. rejected factory_failed) (λ s. lease_open-Inv p call up i f))
          ]
  where
    rejected : (code : PoolErrorCode) → Inv (record p { rejections = (call, code) ∷ p.rejections })
    rejected code = Inv-same p _ i refl refl refl refl (omega arith) refl refl

pub remove_nobody : (w : ℕ) (ws rest : List ℕ) → remove_waiter w ws ≡ some rest → ws ≢ []
remove_nobody w [] rest e n = cc
remove_nobody w (v ∷ ws) rest e n = cc

pub give_up-Inv : (p : Pool) (call : ℕ) (code : PoolErrorCode) → Inv p → Inv (give_up p call code)
unfolding give_up
give_up-Inv p call code i = elim (Option-cases (remove_waiter call p.waiters)) [
  | inl e ↦ rw (e, give_up) i
  | inr (rest, e) ↦
      rw (e, give_up)
        (record {
          core = Core-same p _ i.core refl refl refl refl (omega arith);
          served = elim i.served [
            | inl nobody ↦ absurd (remove_nobody call p.waiters rest e nobody)
            | inr busy ↦ inr busy
          ];
          shut = λ c. absurd (remove_nobody call p.waiters rest e (i.shut c));
        })
]
