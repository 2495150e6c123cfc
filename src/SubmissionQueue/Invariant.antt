-- ===== src/SubmissionQueue/Invariant.antt =====
-- The invariant of the queue of packages/core/src/fleet/submissionQueue.ts.
use stellar_agentic.Base.{
  ◌+◌, ◌≤◌, ◌<◌, ◌≡◌, refl, ◌⊎◌, inl, inr, ◌||◌, [], length, ltb, Bool-cases, ok, arith,
}
use stellar_agentic.SubmissionQueue.{Config, Queue, create, resolve_drain}
use stellar_agentic.SubmissionQueue.Schedule.{Core, IsBusy}

-- Whoever waits for the queue to drain waits for something.
abbrev pub WaitsForWork : Queue → Type 0
WaitsForWork q = (q.drain_waiters ≡ []) ⊎ (0 < length q.pending + q.running)

pub record Inv (q : Queue) : Type 0 where
  pub core : Core q
  pub busy : IsBusy q
  pub depth : length q.pending ≤ q.max_queue_size
  pub waits : WaitsForWork q
  pub workers : 1 ≤ q.concurrency

-- A new queue is well formed.
pub create-Inv : (c : Config) (q : Queue) → create c ≡ ok q → Inv q
unfolding create
create-Inv c q e = ground arith

-- What the invariant of the workers reads.
pub Core-frame :
    (q q' : Queue)
    → q'.config ≡ q.config
    → q'.running ≡ q.running
    → q'.active_keys ≡ q.active_keys
    → q'.runs ≡ q.runs
    → Core q
    → Core q'
Core-frame q q' config running keys runs c = record {
  counted = rw (running, runs) c.counted;
  within = rw (running, config) c.within;
  keys = rw (keys, runs) c.keys;
  distinct = rw keys c.distinct;
  attempts = rw (runs, config) c.attempts;
  allowed = rw config c.allowed;
}

-- The invariant but for the waiters, which `#resolveDrain` sees to.
pub record Ready (q : Queue) : Type 0 where
  pub core : Core q
  pub busy : IsBusy q
  pub depth : length q.pending ≤ q.max_queue_size
  pub workers : 1 ≤ q.concurrency

pub resolve_drain-Inv : (q : Queue) → Ready q → Inv (resolve_drain q)
unfolding resolve_drain
resolve_drain-Inv q r = elim (Bool-cases (ltb 0 (length q.pending) || ltb 0 q.running)) [
  | inl work ↦ rw work (record {
    core = r.core;
    busy = r.busy;
    depth = r.depth;
    waits = inr (ground arith);
    workers = r.workers;
  })
  | inr idle ↦ rw idle (record {
    core = Core-frame q _ refl refl refl refl r.core;
    busy = r.busy;
    depth = r.depth;
    waits = inl refl;
    workers = r.workers;
  })
]
