-- ===== src/ChannelPool/Dispatch.antt =====
-- `#dispatch` and `#makeLease` of packages/core/src/fleet/channelPool.ts.
use stellar_agentic.Base.{
  ℕ, ◌+◌, ◌≤◌, ◌≡◌, refl, sym, ◌∙◌, ◌⊎◌, inl, inr, true, some, List, [], ◌∷◌, length, Option-cases,
  arith,
}
use stellar_agentic.ChannelPool.{Entry, Pool, available_entry, make_lease, serve, grow, dispatch}
use stellar_agentic.ChannelPool.Entries.{
  leased_count, AreDistinct, NoneFree, entry_count-update_entry, length-update_entry,
  leased_count-lease, not_leased, available_entry-CanLease, available_entry-none,
}
use stellar_agentic.ChannelPool.Leases.{lease_count}

-- The size and the target are within the bound, no address stands twice in the map, and the leases
-- that are out are those of the leased entries.
pub record Core (p : Pool) : Type 0 where
  pub room : length p.entries + p.creating ≤ p.max_size
  pub target : p.target_size ≤ p.max_size
  pub distinct : AreDistinct p.entries
  pub linked : (a : ℕ) → lease_count a p.leases ≡ leased_count a p.entries

-- No call waits while an account is free.
abbrev pub IsServed : Pool → Type 0
IsServed p = (p.waiters ≡ []) ⊎ NoneFree p.entries

abbrev lend : Entry → Entry
lend e = record e { leased = true }

pub make_lease-Core :
    (p : Pool) (e : Entry) (call : ℕ)
    → Core p
    → available_entry p.entries ≡ some e
    → Core (make_lease p e call)
unfolding make_lease
make_lease-Core p e call c f =
    let can = available_entry-CanLease p.entries e c.distinct f in
    record {
      room = rw (length-update_entry lend (λ x. refl) e.address p.entries) c.room;
      target = c.target;
      distinct =
          λ a. rw (entry_count-update_entry lend (λ x. refl) a e.address p.entries) (c.distinct a);
      linked = λ a.
          rw
            (
              leased_count-lease a e.address p.entries can.0 (not_leased e.address p.entries can.1),
              c.linked a,
            )
            refl;
    }

serve-Core : (ws : List ℕ) (p : Pool) → Core p → Core (serve ws p)
unfolding serve
serve-Core [] p c = record {
  room = c.room;
  target = c.target;
  distinct = c.distinct;
  linked = c.linked;
}
serve-Core (w ∷ ws) p c = elim (Option-cases (available_entry p.entries)) [
  | inl e ↦
      rw (e, serve)
        (record { room = c.room; target = c.target; distinct = c.distinct; linked = c.linked })
  | inr (x, e) ↦ rw (e, serve) (serve-Core ws (make_lease p x w) (make_lease-Core p x w c e))
]

serve-IsServed : (ws : List ℕ) (p : Pool) → IsServed (serve ws p)
unfolding serve
serve-IsServed [] p = inl refl
serve-IsServed (w ∷ ws) p = elim (Option-cases (available_entry p.entries)) [
  | inl e ↦ rw (e, serve) (inr (available_entry-none p.entries e))
  | inr (x, e) ↦ rw (e, serve) (serve-IsServed ws (make_lease p x w))
]

grow-room :
    (p : Pool)
    → length p.entries + p.creating ≤ p.max_size
    → length (grow p).entries + (grow p).creating ≤ (grow p).max_size
unfolding grow
grow-room p r = ground arith

grow-target :
    (p : Pool)
    → length p.entries + p.creating ≤ p.max_size
    → p.target_size ≤ p.max_size
    → (grow p).target_size ≤ (grow p).max_size
unfolding grow
grow-target p r t = ground arith

grow-Core : (p : Pool) → Core p → Core (grow p)
unfolding grow
grow-Core p c = record {
  room = grow-room p c.room;
  target = grow-target p c.room c.target;
  distinct = λ a. ground (arith, c.distinct a);
  linked = λ a. ground (arith, c.linked a);
}

grow-IsServed : (p : Pool) → IsServed p → IsServed (grow p)
unfolding grow
grow-IsServed p s = ground arith

-- Behind `#dispatch` no call waits while an account is free, whatever came before.
pub dispatch-IsServed : (p : Pool) → IsServed (dispatch p)
unfolding dispatch
dispatch-IsServed p = grow-IsServed (serve p.waiters p) (serve-IsServed p.waiters p)

pub dispatch-Core : (p : Pool) → Core p → Core (dispatch p)
unfolding dispatch
dispatch-Core p c = grow-Core (serve p.waiters p) (serve-Core p.waiters p c)

make_lease-closed : (p : Pool) (e : Entry) (call : ℕ) → (make_lease p e call).closed ≡ p.closed
unfolding make_lease
make_lease-closed p e call = refl

serve-closed : (ws : List ℕ) (p : Pool) → (serve ws p).closed ≡ p.closed
unfolding serve
serve-closed [] p = refl
serve-closed (w ∷ ws) p = elim (Option-cases (available_entry p.entries)) [
  | inl e ↦ rw (e, serve) refl
  | inr (x, e) ↦ rw (e, serve) (serve-closed ws (make_lease p x w) ∙ make_lease-closed p x w)
]

grow-closed : (p : Pool) → (grow p).closed ≡ p.closed
unfolding grow
grow-closed p = ground arith

pub dispatch-closed : (p : Pool) → (dispatch p).closed ≡ p.closed
unfolding dispatch
dispatch-closed p = grow-closed (serve p.waiters p) ∙ serve-closed p.waiters p

serve_nobody : (ws : List ℕ) (p : Pool) → ws ≡ [] → (serve ws p).waiters ≡ []
unfolding serve
serve_nobody [] p h = refl
serve_nobody (w ∷ ws) p h = cc

grow-waiters : (p : Pool) → (grow p).waiters ≡ p.waiters
unfolding grow
grow-waiters p = ground arith

-- A closed pool has no waiters.
abbrev pub IsShut : Pool → Type 0
IsShut p = p.closed ≡ true → p.waiters ≡ []

pub dispatch-IsShut : (p : Pool) → IsShut p → IsShut (dispatch p)
unfolding dispatch
dispatch-IsShut p s c =
    grow-waiters (serve p.waiters p) ∙ serve_nobody p.waiters p (s (sym (dispatch-closed p) ∙ c))

-- What holds of a pool whenever no code of it is running.
pub record Inv (p : Pool) : Type 0 where
  pub core : Core p
  pub served : IsServed p
  pub shut : IsShut p

pub dispatch-Inv : (p : Pool) → Core p → IsShut p → Inv (dispatch p)
dispatch-Inv p c s = record {
  core = dispatch-Core p c;
  served = dispatch-IsServed p;
  shut = dispatch-IsShut p s;
}
