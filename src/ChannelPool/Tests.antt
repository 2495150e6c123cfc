-- ===== src/ChannelPool/Tests.antt =====
-- Runs of the pool of packages/core/src/fleet/channelPool.ts, and its theorems at inputs.
use mathlib.Core.List.{Mem}
use stellar_agentic.Base.{◌≤◌, ◌≡◌, refl, true, false, some, List, [], ◌∷◌, All, ok}
use stellar_agentic.ChannelPool.{
  Entry, Pool, committed, rolled_back, Event, leases_out, create_failed, gives_up, releases,
  account_created, lease_timeout, create, available_entry, run, close, add_accounts, step, lease,
  make_lease, dispatch, serve, grow, on_created, end_create, release, give_back, is_unwanted,
  give_up,
}
use stellar_agentic.Base.Sorting.{sort, insert}
use stellar_agentic.ChannelPool.Leases.{lease_count}
use stellar_agentic.ChannelPool.Dispatch.{Inv}
use stellar_agentic.ChannelPool.Invariant.{created_run-Inv, lease_exclusive}
use stellar_agentic.ChannelPool.Picks.{IsFree, IsOlder, available_entry-oldest}
use stellar_agentic.ChannelPool.Closing.{Wound, closed_run-Wound, ended}

-- Two accounts, three at most, and a factory.
abbrev fresh : Pool
fresh = record {
  entries =
      record { address = 11; leased = false; retire = false; last_used_at = 5 }
      ∷ record { address = 12; leased = false; retire = false; last_used_at = 5 }
      ∷ [];
  has_factory = true;
  max_size = 3;
  waiters = [];
  target_size = 2;
  creating = 0;
  closed = false;
  committed_count = 0;
  rolled_back_count = 0;
  leases = [];
  rejections = [];
  resizes = [];
  returning = 0;
  surplus = 0;
}

create-fresh : create (11 ∷ 12 ∷ []) true 1 3 5 ≡ ok fresh
unfolding create add_accounts
create-fresh = refl

-- Three calls, of which the third waits and orders an account; a fourth gives up.
abbrev calls : List Event
calls =
    leases_out 1 false
    ∷ leases_out 2 false
    ∷ leases_out 3 false
    ∷ leases_out 4 false
    ∷ gives_up 4 lease_timeout
    ∷ account_created 13 8
    ∷ releases 1 committed 9
    ∷ releases 1 rolled_back 9
    ∷ []

after_calls :
    (run fresh calls).leases
    ≡ record { call = 3; address = 13 } ∷ record { call = 2; address = 12 } ∷ []
unfolding run step lease available_entry sort insert make_lease dispatch serve grow on_created
    end_create release give_back is_unwanted give_up
after_calls = refl

created_run-Inv_example : Inv (run fresh calls)
created_run-Inv_example = created_run-Inv (11 ∷ 12 ∷ []) true 1 3 5 fresh calls create-fresh

lease_exclusive_example : lease_count 12 (run fresh calls).leases ≤ 1
lease_exclusive_example = lease_exclusive (11 ∷ 12 ∷ []) true 1 3 5 fresh calls 12 create-fresh

abbrev used : List Entry
used =
    record { address = 1; leased = true; retire = false; last_used_at = 2 }
    ∷ record { address = 2; leased = false; retire = false; last_used_at = 9 }
    ∷ record { address = 3; leased = false; retire = false; last_used_at = 4 }
    ∷ []

abbrev oldest : Entry
oldest = record { address = 3; leased = false; retire = false; last_used_at = 4 }

picks_oldest : available_entry used ≡ some oldest
unfolding available_entry sort insert
picks_oldest = refl

available_entry-oldest_example : Mem oldest used × IsFree oldest × All (IsOlder oldest) used
available_entry-oldest_example = available_entry-oldest used oldest picks_oldest

-- A release, a call that is refused, and a creation that fails.
abbrev closing : List Event
closing = releases 2 committed 10 ∷ leases_out 5 false ∷ create_failed ∷ []

closed_run-Wound_example :
    Wound
      (run fresh calls)
      (ended closing (close (run fresh calls)) 0)
      (run (close (run fresh calls)) closing)
closed_run-Wound_example = closed_run-Wound (run fresh calls) closing created_run-Inv_example
