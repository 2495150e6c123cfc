-- ===== src/SubmissionQueue/Schedule.antt =====
-- `#schedule` of packages/core/src/fleet/submissionQueue.ts: what the loop keeps, and how it ends.
use stellar_agentic.Base.{
  ℕ, zero, suc, ◌+◌, ◌≤◌, ◌<◌, ◌≡◌, refl, ◌⊎◌, inl, inr, true, false, Option, none, some, List, [],
  ◌∷◌, All, length, ltb, Bool-cases, ltb→lt, lt→ltb, subst, arith,
}
use stellar_agentic.SubmissionQueue.{
  OrderingKey, QueueItem, Run, Phase, attempting, backing_off, returned, Queue, has, is_free,
  take_free, start, schedule_loop, schedule,
}

abbrev pub cons_key : OrderingKey → List ℕ → List ℕ
cons_key none ks = ks
cons_key (some k) ks = k ∷ ks

-- The keys of the runs in flight.
abbrev pub run_keys : List Run → List ℕ
run_keys [] = []
run_keys (r ∷ rs) = cons_key r.item.ordering_key (run_keys rs)

abbrev pub Distinct : List ℕ → Type 0
Distinct [] = Unit
Distinct (k ∷ ks) = (has k ks ≡ false) × Distinct ks

-- A run is in one of its attempts, from 1 to the bound.
abbrev pub PhaseOk : ℕ → Phase → Type 0
PhaseOk bound (attempting n) = (1 ≤ n) × (n ≤ bound)
PhaseOk bound (backing_off n) = (1 ≤ n) × (n < bound)
PhaseOk bound returned = Unit

-- The counter, the set of active keys and the runs in flight agree, and no two runs share a key.
pub record Core (q : Queue) : Type 0 where
  pub counted : q.running ≡ length q.runs
  pub within : q.running ≤ q.concurrency
  pub keys : q.active_keys ≡ run_keys q.runs
  pub distinct : Distinct q.active_keys
  pub attempts : All (λ r. PhaseOk q.max_attempts r.phase) q.runs
  pub allowed : 1 ≤ q.max_attempts

-- All workers are busy, or the key of every waiting item is active: no item waits that may start.
abbrev pub IsBusy : Queue → Type 0
IsBusy q =
    (q.running ≡ q.concurrency) ⊎ All (λ i. is_free i.ordering_key q.active_keys ≡ false) q.pending

abbrev pub Takes : List ℕ → List QueueItem → Option (QueueItem × List QueueItem) → Type 0
Takes ks is none = All (λ i. is_free i.ordering_key ks ≡ false) is
Takes ks is (some (i, rest)) = (is_free i.ordering_key ks ≡ true) × (length is ≡ suc (length rest))

pub take_free-Takes : (ks : List ℕ) (is : List QueueItem) → Takes ks is (take_free ks is)
unfolding take_free
take_free-Takes ks [] = tt
take_free-Takes ks (i ∷ is) = ground (arith, take_free-Takes ks is)

pub start-Core :
    (q : Queue) (i : QueueItem) (rest : List QueueItem)
    → Core q
    → q.running < q.concurrency
    → is_free i.ordering_key q.active_keys ≡ true
    → Core (start q i rest)
unfolding start
start-Core q i rest c h f = ground arith

-- What the loop does to the rest of the state.
pub record Scheduled (q q' : Queue) : Type 0 where
  pub core : Core q'
  pub busy : IsBusy q'
  pub same_config : q'.config ≡ q.config
  pub same_waiters : q'.drain_waiters ≡ q.drain_waiters
  pub total : length q'.pending + q'.running ≡ length q.pending + q.running
  pub shrinks : length q'.pending ≤ length q.pending

-- The loop ends where it stands.
stop : (q : Queue) → Core q → IsBusy q → Scheduled q q
stop q c b = record {
  core = c;
  busy = b;
  same_config = refl;
  same_waiters = refl;
  total = refl;
  shrinks = omega arith;
}

-- The loop goes on after a start.
go_on :
    (q q' : Queue) (i : QueueItem) (rest : List QueueItem)
    → length q.pending ≡ suc (length rest)
    → Scheduled (start q i rest) q'
    → Scheduled q q'
unfolding start
go_on q q' i rest e s = record {
  core = s.core;
  busy = s.busy;
  same_config = s.same_config;
  same_waiters = s.same_waiters;
  total = omega (arith, s.total);
  shrinks = omega (arith, s.shrinks);
}

none_waiting : (q : Queue) → length q.pending ≤ 0 → IsBusy q
none_waiting q h = inr (go q.pending h)
  where
    go :
        (is : List QueueItem)
        → length is ≤ 0
        → All (λ i. is_free i.ordering_key q.active_keys ≡ false) is
    go [] h = tt
    go (i ∷ is) h = absurd (omega arith)

-- One round, given what the loop does behind a start.
round :
    (q : Queue) (next : Queue → Queue)
    → Core q
    → (t : Option (QueueItem × List QueueItem)) → Takes q.active_keys q.pending t
    → ((i : QueueItem) (rest : List QueueItem)
        → Core (start q i rest)
        → length q.pending ≡ suc (length rest)
        → Scheduled (start q i rest) (next (start q i rest)))
    → q.running < q.concurrency
    → Scheduled q (elim t [ none ↦ q | some (i, rest) ↦ next (start q i rest) ])
round q next c none all f h = stop q c (inr all)
round q next c (some (i, rest)) (free, len) f h =
    go_on q _ i rest len (f i rest (start-Core q i rest c h free) len)

schedule_loop-Scheduled :
    (fuel : ℕ) (q : Queue) → Core q → length q.pending ≤ fuel → Scheduled q (schedule_loop fuel q)
unfolding schedule_loop start
schedule_loop-Scheduled zero q c h = stop q c (none_waiting q h)
schedule_loop-Scheduled (suc fuel) q c h = elim (Bool-cases (ltb q.running q.concurrency)) [
  | inl room ↦ rw room (
      round q (schedule_loop fuel) c (take_free q.active_keys q.pending)
        (take_free-Takes q.active_keys q.pending)
        (λ i rest c' len. schedule_loop-Scheduled fuel (start q i rest) c' (omega arith))
        (ltb→lt _ _ room))
  | inr full ↦ rw full (stop q c (inl (let w = c.within in ground arith)))
]

-- `#schedule` ends with no item left waiting that may start, and only moves items from the queue
-- to the workers.
pub schedule-Scheduled : (q : Queue) → Core q → Scheduled q (schedule q)
unfolding schedule
schedule-Scheduled q c = schedule_loop-Scheduled (length q.pending) q c (omega arith)

loop_step :
    (fuel : ℕ) (q : Queue) (i : QueueItem) (rest : List QueueItem)
    → q.running < q.concurrency
    → take_free q.active_keys q.pending ≡ some (i, rest)
    → schedule_loop (suc fuel) q ≡ schedule_loop fuel (start q i rest)
unfolding schedule_loop
loop_step fuel q i rest h e = rw (lt→ltb _ _ h, e, schedule_loop) refl

taken :
    (q : Queue) (i : QueueItem) (rest : List QueueItem)
    → take_free q.active_keys q.pending ≡ some (i, rest)
    → (is_free i.ordering_key q.active_keys ≡ true) × (length q.pending ≡ suc (length rest))
taken q i rest e = subst (Takes q.active_keys q.pending) e (take_free-Takes q.active_keys q.pending)

-- If an item may start, one leaves the queue.
pub schedule_progress :
    (q : Queue) (i : QueueItem) (rest : List QueueItem)
    → Core q
    → q.running < q.concurrency
    → take_free q.active_keys q.pending ≡ some (i, rest)
    → length (schedule q).pending < length q.pending
unfolding schedule start
schedule_progress q i rest c h e =
    let (free, len) = taken q i rest e in
    let next =
      schedule_loop-Scheduled (length rest) (start q i rest) (start-Core q i rest c h free)
        (omega arith) in
    rw (len, loop_step (length rest) q i rest h e) (omega (arith, next.shrinks))
