-- ===== src/ChannelPool/Leases.antt =====
-- The leases that are out of packages/core/src/fleet/channelPool.ts, counted by their address, and
-- the entries that `release`, `resize` and `close` leave behind.
use stellar_agentic.Base.{
  ℕ, ◌+◌, ◌≤◌, ◌≡◌, refl, ap, true, none, some, List, [], ◌∷◌, ◌++◌, length, keep, ◌==◌, Bool-cases,
  inl, inr, arith,
}
use stellar_agentic.Base.Sorting.{sort}
use stellar_agentic.ChannelPool.{
  Entry, Lease, new_entry, is_available, available_entry, update_entry, delete_entry, find_lease,
  remove_lease, retired,
}
use stellar_agentic.ChannelPool.Entries.{one, entry_count, leased_count, NoneFree}

-- How many leases of the address are out.
abbrev pub lease_count : ℕ → List Lease → ℕ
lease_count a [] = 0
lease_count a (l ∷ ls) = one l.address a + lease_count a ls

-- A lease that is found is one of them, and leaves when it is removed.
pub lease_count-remove_lease :
    (a call : ℕ) (ls : List Lease) (l : Lease)
    → find_lease call ls ≡ some l
    → lease_count a ls ≡ one l.address a + lease_count a (remove_lease call ls)
lease_count-remove_lease a call [] l f = cc
lease_count-remove_lease a call (x ∷ ls) l f = elim (Bool-cases (x.call == call)) [
  | inl hit ↦
      let same : x ≡ l = ground arith in rw hit (ap (λ y. one y.address a + lease_count a ls) same)
  | inr miss ↦
      let rest = lease_count-remove_lease a call ls l (ground arith) in
      rw miss (omega (arith, rest))
]

pub find_lease-call :
    (call : ℕ) (ls : List Lease) (l : Lease) → find_lease call ls ≡ some l → l.call ≡ call
find_lease-call call [] l f = cc
find_lease-call call (x ∷ ls) l f = ground (arith, find_lease-call call ls l)

keep_all_busy : (es : List Entry) → NoneFree es → keep is_available es ≡ []
keep_all_busy [] h = refl
keep_all_busy (e ∷ es) h = rw h.0 (keep_all_busy es h.1)

-- Where no entry is free, none is picked.
pub available_entry-NoneFree : (es : List Entry) → NoneFree es → available_entry es ≡ none
unfolding available_entry sort
available_entry-NoneFree es h = rw (keep_all_busy es h) refl

pub NoneFree-delete_entry : (a : ℕ) (es : List Entry) → NoneFree es → NoneFree (delete_entry a es)
NoneFree-delete_entry a [] h = tt
NoneFree-delete_entry a (e ∷ es) h = elim (Bool-cases (e.address == a)) [
  | inl hit ↦ rw hit h.1
  | inr miss ↦ rw miss (h.0, NoneFree-delete_entry a es h.1)
]

pub NoneFree-retire :
    (a : ℕ) (es : List Entry)
    → NoneFree es
    → NoneFree (update_entry a (λ e. record e { retire = true }) es)
NoneFree-retire a [] h = tt
NoneFree-retire a (e ∷ es) h = elim (Bool-cases (e.address == a)) [
  | inl hit ↦ rw hit (ground arith, h.1)
  | inr miss ↦ rw miss (h.0, NoneFree-retire a es h.1)
]

-- An entry that was written and then deleted is only deleted.
pub delete_entry-update_entry :
    (f : Entry → Entry)
    → ((e : Entry) → (f e).address ≡ e.address)
    → (a : ℕ) (es : List Entry) → delete_entry a (update_entry a f es) ≡ delete_entry a es
delete_entry-update_entry f same a [] = refl
delete_entry-update_entry f same a (e ∷ es) = elim (Bool-cases (e.address == a)) [
  | inl hit ↦ rw (hit, same e, hit) refl
  | inr miss ↦ rw (miss, miss) (ap (◌∷◌ e) (delete_entry-update_entry f same a es))
]

-- An account joins the map at its end.
pub length-join :
    (a now : ℕ) (es : List Entry) → length (es ++ new_entry a now ∷ []) ≡ length es + 1
length-join a now [] = refl
length-join a now (e ∷ es) = ground (arith, length-join a now es)

pub entry_count-join :
    (b a now : ℕ) (es : List Entry)
    → entry_count b (es ++ new_entry a now ∷ []) ≡ entry_count b es + one a b
entry_count-join b a now [] = omega arith
entry_count-join b a now (e ∷ es) = omega (arith, entry_count-join b a now es)

pub leased_count-join :
    (b a now : ℕ) (es : List Entry)
    → leased_count b (es ++ new_entry a now ∷ []) ≡ leased_count b es
leased_count-join b a now [] = refl
leased_count-join b a now (e ∷ es) = omega (arith, leased_count-join b a now es)

-- What `close` keeps of the map: the leased entries.
abbrev pub busy_entries : List Entry → List Entry
busy_entries es = retired (keep (λ e. e.leased) es)

pub length-busy_entries : (es : List Entry) → length (busy_entries es) ≤ length es
length-busy_entries [] = omega arith
length-busy_entries (e ∷ es) = ground (arith, length-busy_entries es)

pub entry_count-busy_entries :
    (a : ℕ) (es : List Entry) → entry_count a (busy_entries es) ≤ entry_count a es
entry_count-busy_entries a [] = omega arith
entry_count-busy_entries a (e ∷ es) = ground (arith, entry_count-busy_entries a es)

pub leased_count-busy_entries :
    (a : ℕ) (es : List Entry) → leased_count a (busy_entries es) ≡ leased_count a es
leased_count-busy_entries a [] = refl
leased_count-busy_entries a (e ∷ es) = ground (arith, leased_count-busy_entries a es)
