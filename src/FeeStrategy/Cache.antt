-- ===== src/FeeStrategy/Cache.antt =====
-- `#stats` of `RecentFeeStrategy` in packages/core/src/fleet/feeStrategy.ts, as a step function:
-- a call of `getFee` asks, the promise of the load settles, and `finally` clears it. The function
-- that loads is the caller's and is taken to answer later, not within the call.
use stellar_agentic.Base.{
  ℕ, ◌+◌, ◌≤◌, ◌≡◌, refl, Bool, false, Option, none, some, List, [], ◌∷◌, ltb, if◌then◌else◌,
  Bool-cases, inl, inr, arith,
}
use stellar_agentic.FeeStrategy.{FeeStats}

-- `#pending` is there while the promise loads, and until `finally` has run.
pub data Pending : Type 0 where
  idle loading settled : Pending

-- `#cached` and `#pending`, with the numbers of loads begun and ended.
pub record StatsCache : Type 0 where
  pub cache_ms : ℕ
  pub cached : Option (FeeStats × ℕ)
  pub pending : Pending
  pub begun : ℕ
  pub ended : ℕ

abbrev pub new_cache : ℕ → StatsCache
new_cache ms = record { cache_ms = ms; cached = none; pending = idle; begun = 0; ended = 0 }

-- `this.#cached && this.#cached.expiresAt > now`
abbrev pub is_fresh : Option (FeeStats × ℕ) → ℕ → Bool
is_fresh none now = false
is_fresh (some (stats, expires_at)) now = ltb now expires_at

pub data CacheEvent : Type 0 where
  asks : ℕ → CacheEvent
  loads : FeeStats → ℕ → CacheEvent
  load_fails : CacheEvent
  clears : CacheEvent

begin_load : Pending → StatsCache → StatsCache
begin_load idle c = record c { pending = loading; begun = c.begun + 1 }
begin_load loading c = c
begin_load settled c = c

settle : Pending → Option (FeeStats × ℕ) → StatsCache → StatsCache
settle idle stats c = c
settle loading stats c = record c { cached = stats; pending = settled; ended = c.ended + 1 }
settle settled stats c = c

clear : Pending → StatsCache → StatsCache
clear idle c = c
clear loading c = c
clear settled c = record c { pending = idle }

pub cache_step : StatsCache → CacheEvent → StatsCache
unfolding begin_load settle clear
cache_step c (asks now) = if is_fresh c.cached now then c else begin_load c.pending c
cache_step c (loads stats now) = settle c.pending (some (stats, now + c.cache_ms)) c
cache_step c load_fails = settle c.pending c.cached c
cache_step c clears = clear c.pending c

pub cache_run : StatsCache → List CacheEvent → StatsCache
cache_run c [] = c
cache_run c (e ∷ es) = cache_run (cache_step c e) es

abbrev in_flight : Pending → ℕ
in_flight loading = 1
in_flight _ = 0

IsCounted : StatsCache → Type 0
IsCounted c = c.begun ≡ c.ended + in_flight c.pending

begin_load-IsCounted :
    (q : Pending) (c : StatsCache) → c.pending ≡ q → IsCounted c → IsCounted (begin_load q c)
unfolding IsCounted begin_load
begin_load-IsCounted idle c e i = let n : in_flight c.pending ≡ 0 = rw e refl in omega arith
begin_load-IsCounted loading c e i = i
begin_load-IsCounted settled c e i = i

settle-IsCounted :
    (q : Pending) (s : Option (FeeStats × ℕ)) (c : StatsCache)
    → c.pending ≡ q
    → IsCounted c
    → IsCounted (settle q s c)
unfolding IsCounted settle
settle-IsCounted idle s c e i = i
settle-IsCounted loading s c e i = let n : in_flight c.pending ≡ 1 = rw e refl in omega arith
settle-IsCounted settled s c e i = i

clear-IsCounted :
    (q : Pending) (c : StatsCache) → c.pending ≡ q → IsCounted c → IsCounted (clear q c)
unfolding IsCounted clear
clear-IsCounted idle c e i = i
clear-IsCounted loading c e i = i
clear-IsCounted settled c e i = let n : in_flight c.pending ≡ 0 = rw e refl in omega arith

cache_step-IsCounted : (c : StatsCache) (e : CacheEvent) → IsCounted c → IsCounted (cache_step c e)
unfolding cache_step
cache_step-IsCounted c (asks now) i = elim (Bool-cases (is_fresh c.cached now)) [
  | inl fresh ↦ rw (fresh, cache_step) i
  | inr stale ↦ rw (stale, cache_step) (begin_load-IsCounted c.pending c refl i)
]
cache_step-IsCounted c (loads stats now) i = settle-IsCounted c.pending _ c refl i
cache_step-IsCounted c load_fails i = settle-IsCounted c.pending c.cached c refl i
cache_step-IsCounted c clears i = clear-IsCounted c.pending c refl i

cache_run-IsCounted :
    (es : List CacheEvent) (c : StatsCache) → IsCounted c → IsCounted (cache_run c es)
unfolding cache_run
cache_run-IsCounted [] c i = i
cache_run-IsCounted (e ∷ es) c i =
    cache_run-IsCounted es (cache_step c e) (cache_step-IsCounted c e i)

in_flight-le : (q : Pending) → in_flight q ≤ 1
in_flight-le idle = omega arith
in_flight-le loading = omega arith
in_flight-le settled = omega arith

-- However many payments ask for fees, and however the loads end, at most one load of the fee
-- statistics is under way: all that have begun have ended, but for one at most.
pub single_flight :
    (ms : ℕ) (es : List CacheEvent)
    → (cache_run (new_cache ms) es).begun ≤ (cache_run (new_cache ms) es).ended + 1
unfolding IsCounted
single_flight ms es =
    let c = cache_run (new_cache ms) es in
    let i = cache_run-IsCounted es (new_cache ms) refl in
    let one = in_flight-le c.pending in omega arith
