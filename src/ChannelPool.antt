-- ===== src/ChannelPool.antt =====
-- packages/core/src/fleet/channelPool.ts, `class ChannelAccountPool`. The code between two awaits
-- runs at once, so each such stretch is one function of the state, and an event says which comes
-- next: a call, a timer, an abort, or the settling of a promise of the account factory, which is
-- the caller's code and is taken to answer later, not within the call. An account is known by its
-- address, an entry of the map by its account's address: the factory is taken to make no address
-- twice. Timers and listeners that a waiter drops when it leaves the queue are events that then
-- find nothing. An event that finds nothing to go on with leaves the pool as it is.
pub mod Entries
pub mod Leases
pub mod Dispatch
pub mod Calls
pub mod Releases
pub mod Creations
pub mod Sizes
pub mod Invariant
pub mod Picks
pub mod Closing
mod Tests
use stellar_agentic.Base.{
  ℕ, zero, suc, ◌+◌, ◌-◌, min, max, Bool, true, false, not, ◌&&◌, ◌||◌, Option, none, some, List,
  [], ◌∷◌, ◌++◌, map, length, keep, first, ltb, leb, ◌==◌, if◌then◌else◌, Result, ok, err, ◌>>=◌,
  ◌>>◌, throw_if,
}
use stellar_agentic.Base.Sorting.{sort}

pub record Entry : Type 0 where
  pub address : ℕ
  pub leased : Bool
  pub retire : Bool
  pub last_used_at : ℕ

pub data ChannelLeaseOutcome : Type 0 where
  committed rolled_back : ChannelLeaseOutcome

pub data PoolErrorCode : Type 0 where
  pool_closed lease_timeout lease_aborted factory_failed : PoolErrorCode

-- A lease that is not released, with the number of the `lease` call that it answers.
pub record Lease : Type 0 where
  pub call : ℕ
  pub address : ℕ

-- Where a call of `resize` waits: for the accounts that it has ordered, or in its loop, with the
-- excess that is left and the addresses still to visit.
pub data Resize : Type 0 where
  ordered : ℕ → Resize
  shrinking : ℕ → List ℕ → Resize

-- The private fields, with the leases out, the calls of `lease` that were rejected, newest first,
-- the calls of `resize` under way, and two counts of code that waits for an account to go back to
-- the factory: in `release`, and in `#startCreate`.
pub record Pool : Type 0 where
  pub entries : List Entry
  pub has_factory : Bool
  pub max_size : ℕ
  pub waiters : List ℕ
  pub target_size : ℕ
  pub creating : ℕ
  pub closed : Bool
  pub committed_count : ℕ
  pub rolled_back_count : ℕ
  pub leases : List Lease
  pub rejections : List (ℕ × PoolErrorCode)
  pub resizes : List (ℕ × Resize)
  pub returning : ℕ
  pub surplus : ℕ

pub data OptionsError : Type 0 where
  bad_max_size too_many_accounts factory_needed duplicate_account : OptionsError

-- `#entries.has(address)`
abbrev pub has_entry : ℕ → List Entry → Bool
has_entry a [] = false
has_entry a (e ∷ es) = (e.address == a) || has_entry a es

abbrev pub new_entry : ℕ → ℕ → Entry
new_entry a now = record { address = a; leased = false; retire = false; last_used_at = now }

-- The loop over the initial accounts, with `#add`.
add_accounts : List ℕ → ℕ → List Entry → Result OptionsError (List Entry)
add_accounts [] now es = ok es
add_accounts (a ∷ as') now es =
    let rest = add_accounts as' now (es ++ new_entry a now ∷ []) in
    if has_entry a es then err duplicate_account else rest

-- The constructor, at options that are integers.
pub create : List ℕ → Bool → ℕ → ℕ → ℕ → Result OptionsError Pool
unfolding add_accounts
create accounts has_factory min_size max_size now = do
  throw_if (ltb max_size 1 || ltb max_size min_size) bad_max_size
  throw_if (ltb max_size (length accounts)) too_many_accounts
  throw_if (ltb (length accounts) min_size && not has_factory) factory_needed
  entries ← add_accounts accounts now []
  ok (record {
    entries = entries;
    has_factory = has_factory;
    max_size = max_size;
    waiters = [];
    target_size = max min_size (length accounts);
    creating = 0;
    closed = false;
    committed_count = 0;
    rolled_back_count = 0;
    leases = [];
    rejections = [];
    resizes = [];
    returning = 0;
    surplus = 0;
  })

abbrev pub is_available : Entry → Bool
is_available e = not e.leased && not e.retire

abbrev pub used_before : Entry → Entry → Bool
used_before a b = leb a.last_used_at b.last_used_at

-- `#availableEntry`: of the entries that are neither leased nor retired, the one used longest ago.
pub available_entry : List Entry → Option Entry
available_entry es = first (sort used_before (keep is_available es))

-- A write to the entry object of an address.
abbrev pub update_entry : ℕ → (Entry → Entry) → List Entry → List Entry
update_entry a f [] = []
update_entry a f (e ∷ es) = if e.address == a then f e ∷ es else e ∷ update_entry a f es

-- `#entries.delete(address)`
abbrev pub delete_entry : ℕ → List Entry → List Entry
delete_entry a [] = []
delete_entry a (e ∷ es) = if e.address == a then es else e ∷ delete_entry a es

abbrev set_leased : Bool → Entry → Entry
set_leased b e = record e { leased = b }

-- `#makeLease`
pub make_lease : Pool → Entry → ℕ → Pool
make_lease p e call = record p {
  entries = update_entry e.address (set_leased true) p.entries;
  leases = record { call = call; address = e.address } ∷ p.leases;
}

-- The loop of `#dispatch`, by recursion on the waiters.
pub serve : List ℕ → Pool → Pool
serve [] p = record p { waiters = [] }
serve (w ∷ ws) p = elim (available_entry p.entries) [
  | none ↦ record p { waiters = w ∷ ws }
  | some e ↦ serve ws (make_lease p e w)
]

-- The growth at the end of `#dispatch`: each `#startCreate` begins with `#creating += 1`.
pub grow : Pool → Pool
grow p =
    if ltb p.creating demand && ltb 0 room && p.has_factory
    then record p {
      target_size = max p.target_size (length p.entries + p.creating + growth);
      creating = p.creating + growth;
    }
    else p
  where
    demand : ℕ
    demand = length p.waiters

    room : ℕ
    room = p.max_size - length p.entries - p.creating

    growth : ℕ
    growth = min (demand - p.creating) room

pub dispatch : Pool → Pool
unfolding grow serve
dispatch p = grow (serve p.waiters p)

abbrev reject : Pool → ℕ → PoolErrorCode → Pool
reject p call code = record p { rejections = (call, code) ∷ p.rejections }

-- `lease`
pub lease : Pool → ℕ → Bool → Pool
unfolding dispatch
lease p call aborted =
    if p.closed
    then reject p call pool_closed
    else if aborted
    then reject p call lease_aborted
    else elim (available_entry p.entries) [
      | some e ↦ make_lease p e call
      | none ↦
          if (length p.entries == 0) && (p.creating == 0) && not p.has_factory
          then reject p call factory_failed
          else dispatch (record p { waiters = p.waiters ++ call ∷ [] })
    ]

abbrev remove_waiter : ℕ → List ℕ → Option (List ℕ)
remove_waiter w [] = none
remove_waiter w (v ∷ vs) =
    if v == w
    then some vs
    else elim (remove_waiter w vs) [ none ↦ none | some rest ↦ some (v ∷ rest) ]

-- The timer and the abort listener of a waiter, which reject it with their own code.
pub give_up : Pool → ℕ → PoolErrorCode → Pool
give_up p call code = elim (remove_waiter call p.waiters) [
  | none ↦ p
  | some rest ↦ reject (record p { waiters = rest }) call code
]

abbrev pub find_lease : ℕ → List Lease → Option Lease
find_lease c [] = none
find_lease c (l ∷ ls) = if l.call == c then some l else find_lease c ls

abbrev pub remove_lease : ℕ → List Lease → List Lease
remove_lease c [] = []
remove_lease c (l ∷ ls) = if l.call == c then ls else l ∷ remove_lease c ls

abbrev pub is_retired : ℕ → List Entry → Bool
is_retired a [] = false
is_retired a (e ∷ es) = if e.address == a then e.retire else is_retired a es

abbrev count_outcome : Pool → ChannelLeaseOutcome → Pool
count_outcome p committed = record p { committed_count = p.committed_count + 1 }
count_outcome p rolled_back = record p { rolled_back_count = p.rolled_back_count + 1 }

-- `release`, up to its first await: what it does to the counters, the lease and the entry.
pub give_back : Pool → Lease → ChannelLeaseOutcome → ℕ → Pool
give_back p l outcome now = record (count_outcome p outcome) {
  leases = remove_lease l.call p.leases;
  entries = update_entry l.address (λ e. record e { leased = false; last_used_at = now }) p.entries;
}

-- Whether `release` sends the account back to the factory.
pub is_unwanted : Pool → ℕ → Bool
is_unwanted p a = is_retired a p.entries || p.closed || ltb p.target_size (length p.entries)

-- `release` of the lease that answered a call. A lease that is not out any more is released
-- already, and nothing happens.
pub release : Pool → ℕ → ChannelLeaseOutcome → ℕ → Pool
unfolding give_back is_unwanted dispatch
release p call outcome now = elim (find_lease call p.leases) [
  | none ↦ p
  | some l ↦
      let q = give_back p l outcome now in
      if is_unwanted q l.address
      then record q { entries = delete_entry l.address q.entries; returning = q.returning + 1 }
      else dispatch q
]

-- `release` behind the await of `#reclaim`.
pub on_returned : Pool → Pool
unfolding dispatch
on_returned p = if ltb 0 p.returning then dispatch (record p { returning = p.returning - 1 }) else p

-- The `finally` handler of `#startCreate`.
pub end_create : Pool → Pool
unfolding dispatch
end_create p = dispatch (record p { creating = p.creating - 1 })

abbrev reject_first : List ℕ → Pool → Pool
reject_first [] p = p
reject_first (w ∷ ws) p = reject (record p { waiters = ws }) w factory_failed

-- The `catch` handler of `#startCreate`, and the `finally` handler.
pub fail_create : Pool → Pool
unfolding end_create
fail_create p = end_create (reject_first p.waiters p)

-- `#startCreate` behind `await this.#factory.create()`. A creation that is not wanted any more
-- waits for the factory to take the account back.
pub on_created : Pool → ℕ → ℕ → Pool
unfolding end_create fail_create
on_created p a now =
    if not (ltb p.surplus p.creating)
    then p
    else if p.closed || leb p.target_size (length p.entries)
    then record p { surplus = p.surplus + 1 }
    else if has_entry a p.entries
    then fail_create p
    else end_create (record p { entries = p.entries ++ new_entry a now ∷ [] })

-- The factory could not create an account.
pub on_create_failed : Pool → Pool
unfolding fail_create
on_create_failed p = if ltb p.surplus p.creating then fail_create p else p

-- The factory has taken a surplus account back, or has failed to.
pub on_surplus : Pool → Bool → Pool
unfolding end_create fail_create
on_surplus p failed =
    if not (ltb 0 p.surplus && ltb 0 p.creating)
    then p
    else if failed
    then fail_create (record p { surplus = p.surplus - 1 })
    else end_create (record p { surplus = p.surplus - 1 })

pub data ResizeError : Type 0 where
  resize_closed bad_size no_factory : ResizeError

-- `resize`, up to its first await.
pub resize : Pool → ℕ → ℕ → Result ResizeError Pool
resize p call size = do
  throw_if p.closed resize_closed
  throw_if (ltb p.max_size size) bad_size
  throw_if (ltb (length p.entries + p.creating) size && not p.has_factory) no_factory
  ok (record p {
    target_size = size;
    creating = p.creating + (size - (length p.entries + p.creating));
    resizes = (call, ordered size) ∷ p.resizes;
  })

abbrev find_resize : ℕ → List (ℕ × Resize) → Option Resize
find_resize c [] = none
find_resize c ((d, r) ∷ rs) = if d == c then some r else find_resize c rs

abbrev set_resize : ℕ → Resize → List (ℕ × Resize) → List (ℕ × Resize)
set_resize c r [] = []
set_resize c r ((d, s) ∷ rs) = if d == c then (c, r) ∷ rs else (d, s) ∷ set_resize c r rs

abbrev pub is_leased : ℕ → List Entry → Bool
is_leased a [] = false
is_leased a (e ∷ es) = if e.address == a then e.leased else is_leased a es

-- One round of the loop of `resize`: a busy account is marked, an idle one is reclaimed.
pub shrink_entry : Pool → ℕ → Pool
shrink_entry p a =
    if is_leased a p.entries
    then record p { entries = update_entry a (λ e. record e { retire = true }) p.entries }
    else record p { entries = delete_entry a p.entries }

-- `resize` goes on: it computes the excess, or makes one round of its loop.
pub continue_resize : Pool → ℕ → Resize → Pool
unfolding shrink_entry
continue_resize p call (ordered size) = record p {
  resizes =
      set_resize call
        (shrinking (length p.entries - size) (map (λ e. e.address) (sort used_before p.entries)))
        p.resizes;
}
continue_resize p call (shrinking zero as') = p
continue_resize p call (shrinking (suc excess) []) = p
continue_resize p call (shrinking (suc excess) (a ∷ as')) =
    shrink_entry (record p { resizes = set_resize call (shrinking excess as') p.resizes }) a

pub on_resize : Pool → ℕ → Pool
unfolding continue_resize
on_resize p call = elim (find_resize call p.resizes) [
  | none ↦ p
  | some r ↦ continue_resize p call r
]

abbrev reject_all : List ℕ → List (ℕ × PoolErrorCode) → List (ℕ × PoolErrorCode)
reject_all [] rs = rs
reject_all (w ∷ ws) rs = reject_all ws ((w, pool_closed) ∷ rs)

abbrev pub retired : List Entry → List Entry
retired [] = []
retired (e ∷ es) = record e { retire = true } ∷ retired es

-- `close`: the waiters are rejected, the busy entries are marked and the idle ones reclaimed.
pub close : Pool → Pool
close p = if p.closed then p else record p {
  closed = true;
  target_size = 0;
  waiters = [];
  rejections = reject_all p.waiters p.rejections;
  entries = retired (keep (λ e. e.leased) p.entries);
}

pub data Event : Type 0 where
  leases_out : ℕ → Bool → Event
  gives_up : ℕ → PoolErrorCode → Event
  releases : ℕ → ChannelLeaseOutcome → ℕ → Event
  account_returned : Event
  account_created : ℕ → ℕ → Event
  create_failed : Event
  surplus_returned : Bool → Event
  resizes_to : ℕ → ℕ → Event
  resize_goes_on : ℕ → Event
  closes : Event

abbrev pub after : Pool → Result ResizeError Pool → Pool
after p (ok q) = q
after p (err e) = p

pub step : Pool → Event → Pool
step p (leases_out call aborted) = lease p call aborted
step p (gives_up call code) = give_up p call code
step p (releases call outcome now) = release p call outcome now
step p account_returned = on_returned p
step p (account_created a now) = on_created p a now
step p create_failed = on_create_failed p
step p (surplus_returned failed) = on_surplus p failed
step p (resizes_to call size) = after p (resize p call size)
step p (resize_goes_on call) = on_resize p call
step p closes = close p

pub run : Pool → List Event → Pool
run p [] = p
run p (e ∷ es) = run (step p e) es
