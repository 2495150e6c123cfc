-- ===== src/SubmissionQueue/Tests.antt =====
-- Runs of the queue of packages/core/src/fleet/submissionQueue.ts, and its theorems at inputs.
use stellar_agentic.Base.{
  ℕ, ◌+◌, ◌≡◌, refl, ◌≢◌, some, List, [], ◌∷◌, All, ok, true, false, sym, ◌∙◌, ◌<◌, arith,
}
use stellar_agentic.SubmissionQueue.{
  QueueItem, Config, Queue, create, has, retryable, permanent, resolved, rejected, fulfilled, threw,
  Event, submits, attempt_ends, wakes, run_ends, drains, run, submit, can_start, schedule_loop,
  start, find_run, schedule, take_free, on_attempt, on_wake, on_finally, step, drain,
}
use stellar_agentic.SubmissionQueue.Schedule.{run_keys}
use stellar_agentic.SubmissionQueue.Invariant.{Inv}
use stellar_agentic.SubmissionQueue.Settlements.{waiting, in_flight, settlements}
use stellar_agentic.SubmissionQueue.History.{
  accepted, history-Inv, promise_accounted, waits_for_own_key, never_stuck,
}

abbrev options : Config
options = record { concurrency = 2; max_queue_size = 2; max_attempts = 2; retry_delay_ms = 100 }

abbrev fresh : Queue
fresh = record {
  config = options;
  pending = [];
  active_keys = [];
  drain_waiters = [];
  running = 0;
  completed = 0;
  failed = 0;
  expired_count = 0;
  retries = 0;
  closed = false;
  runs = [];
  settled = [];
  drained = [];
}

abbrev item : ℕ → ℕ → QueueItem
item p k = record { promise = p; ordering_key = some k }

create-options : create options ≡ ok fresh
unfolding create
create-options = refl

-- Two items of one key and one of another: the second of the first key waits.
abbrev three : List Event
three =
    submits (item 1 7) false ∷ submits (item 2 7) false ∷ submits (item 3 8) false ∷ drains 9 ∷ []

-- One retry, then success; the second item starts when the first is through, and fails.
abbrev history : List Event
history =
    submits (item 1 7) false
    ∷ submits (item 2 7) false
    ∷ attempt_ends 1 (threw retryable)
    ∷ wakes 1
    ∷ attempt_ends 1 fulfilled
    ∷ drains 9
    ∷ run_ends 1
    ∷ attempt_ends 2 (threw permanent)
    ∷ run_ends 2
    ∷ []

run-history :
    let q = run fresh history in
    (q.settled ≡ (2, rejected) ∷ (1, resolved) ∷ [])
    × (q.drained ≡ 9 ∷ [])
    × (q.active_keys ≡ [])
    × (q.retries ≡ 1)
unfolding run step submit can_start schedule schedule_loop start take_free find_run on_attempt
    on_wake on_finally drain
run-history = (refl, refl, refl, refl)

history-Inv_example : Inv (run fresh three)
history-Inv_example = history-Inv options fresh create-options three

promise_accounted_example :
    let q = run fresh three in
    waiting 2 q.pending + in_flight 2 q.runs + settlements 2 q.settled ≡ accepted 2 fresh three
promise_accounted_example = promise_accounted options fresh create-options three 2

abbrev two : List Event
two = submits (item 1 7) false ∷ submits (item 2 7) false ∷ []

run-two :
    let q = run fresh two in (q.pending ≡ item 2 7 ∷ []) × (q.running ≡ 1) × (q.concurrency ≡ 2)
unfolding run step submit can_start schedule schedule_loop start take_free
run-two = (refl, refl, refl)

two_waits : (run fresh two).pending ≢ []
two_waits e = cc (sym run-two.0 ∙ e)

two_has_room : (run fresh two).running < (run fresh two).concurrency
two_has_room = omega (arith, run-two.1, run-two.2)

waits_for_own_key_example :
    All
      (λ i. (k : ℕ) × (i.ordering_key ≡ some k) × (has k (run_keys (run fresh two).runs) ≡ true))
      (run fresh two).pending
waits_for_own_key_example = waits_for_own_key options fresh create-options two two_has_room

never_stuck_example : (run fresh two).runs ≢ []
never_stuck_example = never_stuck options fresh create-options two two_waits
