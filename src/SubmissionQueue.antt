-- ===== src/SubmissionQueue.antt =====
-- packages/core/src/fleet/submissionQueue.ts, `class SubmissionQueue`. The event loop runs the code
-- between two awaits at once, so each such stretch is one function of the state: `submit`, the
-- abort listener, the end of an attempt, the end of a backoff, the `finally` handler, `drain` and
-- `close`. What the promises of the source do in between is the order of the events. Metrics and
-- the clock that they read leave the state alone, and are not modelled.
pub mod Schedule
pub mod Runs
pub mod Invariant
pub mod Submission
pub mod Attempts
pub mod Events
pub mod Settlements
pub mod History
mod Tests
use stellar_agentic.Base.{
  ℕ, zero, suc, ◌+◌, ◌-◌, ◌*◌, ◌^◌, Bool, true, false, not, ◌&&◌, ◌||◌, Option, none, some, List,
  [], ◌∷◌, ◌++◌, length, ltb, leb, ◌==◌, if◌then◌else◌, Result, ok, err, ◌>>=◌, ◌>>◌, throw_if,
}

-- `orderingKey`: `none` for a key that is undefined or the empty text, which the source takes alike.
abbrev pub OrderingKey : Type 0
OrderingKey = Option ℕ

-- `QueueItem`: the promise that it settles is known by a number.
pub record QueueItem : Type 0 where
  pub promise : ℕ
  pub ordering_key : OrderingKey

-- Where `#run` stands with an item: in an attempt, asleep before the next one, or behind its last
-- statement, with the `finally` handler still to come.
pub data Phase : Type 0 where
  attempting : ℕ → Phase
  backing_off : ℕ → Phase
  returned : Phase

pub record Run : Type 0 where
  pub item : QueueItem
  pub phase : Phase

pub data QueueErrorCode : Type 0 where
  queue_full queue_closed aborted : QueueErrorCode

pub data RetryClassification : Type 0 where
  retryable expired permanent : RetryClassification

-- How a promise was settled: by the task's result, by its last error, or by the abort listener.
pub data Settlement : Type 0 where
  resolved rejected rejected_aborted : Settlement

pub record Config : Type 0 where
  pub concurrency : ℕ
  pub max_queue_size : ℕ
  pub max_attempts : ℕ
  pub retry_delay_ms : ℕ

-- The private fields, the calls of `#run` in flight, newest first, and the promises settled so far,
-- newest first.
pub record Queue : Type 0 where
  pub config : Config
  pub open config use *
  pub pending : List QueueItem
  pub active_keys : List ℕ
  pub drain_waiters : List ℕ
  pub running : ℕ
  pub completed : ℕ
  pub failed : ℕ
  pub expired_count : ℕ
  pub retries : ℕ
  pub closed : Bool
  pub runs : List Run
  pub settled : List (ℕ × Settlement)
  pub drained : List ℕ

pub data OptionError : Type 0 where
  bad_concurrency bad_max_queue_size bad_max_attempts : OptionError

-- The constructor, at options that are integers.
pub create : Config → Result OptionError Queue
create c = do
  throw_if (ltb c.concurrency 1) bad_concurrency
  throw_if (ltb c.max_attempts 1) bad_max_attempts
  ok (record {
    config = c;
    pending = [];
    active_keys = [];
    drain_waiters = [];
    running = 0;
    completed = 0;
    failed = 0;
    expired_count = 0;
    retries = 0;
    closed = false;
    runs = [];
    settled = [];
    drained = [];
  })

-- `#activeKeys.has(key)`
abbrev pub has : ℕ → List ℕ → Bool
has k [] = false
has k (j ∷ js) = (j == k) || has k js

-- `#activeKeys.add(key)`
abbrev pub add_key : OrderingKey → List ℕ → List ℕ
add_key none ks = ks
add_key (some k) ks = if has k ks then ks else k ∷ ks

-- `#activeKeys.delete(key)`
abbrev pub delete : ℕ → List ℕ → List ℕ
delete k [] = []
delete k (j ∷ js) = if j == k then delete k js else j ∷ delete k js

abbrev pub delete_key : OrderingKey → List ℕ → List ℕ
delete_key none ks = ks
delete_key (some k) ks = delete k ks

-- `!orderingKey || !#activeKeys.has(orderingKey)`
abbrev pub is_free : OrderingKey → List ℕ → Bool
is_free none ks = true
is_free (some k) ks = not (has k ks)

abbrev pub add_front :
    QueueItem → Option (QueueItem × List QueueItem) → Option (QueueItem × List QueueItem)
add_front i none = none
add_front i (some (found, rest)) = some (found, i ∷ rest)

-- `findIndex` of the first item that may start, and `splice` at that index.
pub take_free : List ℕ → List QueueItem → Option (QueueItem × List QueueItem)
take_free ks [] = none
take_free ks (i ∷ is) =
    if is_free i.ordering_key ks then some (i, is) else add_front i (take_free ks is)

-- One round of the loop of `#schedule`: the item leaves the queue and its `#run` begins.
pub start : Queue → QueueItem → List QueueItem → Queue
start q i rest = record q {
  pending = rest;
  active_keys = add_key i.ordering_key q.active_keys;
  running = q.running + 1;
  runs = record { item = i; phase = attempting 1 } ∷ q.runs;
}

-- `#schedule`, on fuel: each round takes one item.
pub schedule_loop : ℕ → Queue → Queue
schedule_loop zero q = q
schedule_loop (suc fuel) q =
    if ltb q.running q.concurrency
    then elim (take_free q.active_keys q.pending) [
      | none ↦ q
      | some (i, rest) ↦ schedule_loop fuel (start q i rest)
    ]
    else q

pub schedule : Queue → Queue
schedule q = schedule_loop (length q.pending) q

-- `#resolveDrain`
pub resolve_drain : Queue → Queue
resolve_drain q =
    if ltb 0 (length q.pending) || ltb 0 q.running
    then q
    else record q { drain_waiters = []; drained = q.drain_waiters ++ q.drained }

pub can_start : Queue → OrderingKey → Bool
can_start q key = ltb q.running q.concurrency && is_free key q.active_keys

-- `submit`: the promise is rejected at once, or the item enters the queue.
pub submit : Queue → QueueItem → Bool → Result QueueErrorCode Queue
submit q i signal_aborted = do
  throw_if q.closed queue_closed
  throw_if signal_aborted aborted
  throw_if (not (can_start q i.ordering_key) && leb q.max_queue_size (length q.pending)) queue_full
  ok (schedule (record q { pending = q.pending ++ i ∷ [] }))

-- `indexOf` and `splice` of the item in the queue.
pub remove_pending : ℕ → List QueueItem → Option (List QueueItem)
remove_pending p [] = none
remove_pending p (i ∷ is) =
    if i.promise == p
    then some is
    else elim (remove_pending p is) [ none ↦ none | some rest ↦ some (i ∷ rest) ]

-- The `abort` listener of an item. It was taken off when the item started, and then finds nothing.
pub on_abort : Queue → ℕ → Queue
unfolding resolve_drain
on_abort q p = elim (remove_pending p q.pending) [
  | none ↦ q
  | some rest ↦
      resolve_drain (record q { pending = rest; settled = (p, rejected_aborted) ∷ q.settled })
]

-- The run of a promise, with the runs before and behind it.
pub find_run : ℕ → List Run → Option Run
find_run p [] = none
find_run p (r ∷ rs) = if r.item.promise == p then some r else find_run p rs

pub set_phase : ℕ → Phase → List Run → List Run
set_phase p f [] = []
set_phase p f (r ∷ rs) =
    if r.item.promise == p then record r { phase = f } ∷ rs else r ∷ set_phase p f rs

pub remove_run : ℕ → List Run → List Run
remove_run p [] = []
remove_run p (r ∷ rs) = if r.item.promise == p then rs else r ∷ remove_run p rs

-- Behind the loop of `#run`: `#failed += 1; item.reject(lastError)`.
pub fail_run : Queue → ℕ → Queue
unfolding set_phase
fail_run q p = record q {
  failed = q.failed + 1;
  settled = (p, rejected) ∷ q.settled;
  runs = set_phase p returned q.runs;
}

pub succeed_run : Queue → ℕ → Queue
unfolding set_phase
succeed_run q p = record q {
  completed = q.completed + 1;
  settled = (p, resolved) ∷ q.settled;
  runs = set_phase p returned q.runs;
}

pub data AttemptResult : Type 0 where
  fulfilled : AttemptResult
  threw : RetryClassification → AttemptResult

-- The body of the loop of `#run` behind `await item.task(attempt)`, up to the sleep.
pub end_attempt : Queue → ℕ → ℕ → AttemptResult → Queue
unfolding fail_run succeed_run set_phase
end_attempt q p attempt fulfilled = succeed_run q p
end_attempt q p attempt (threw expired) =
    fail_run (record q { expired_count = q.expired_count + 1 }) p
end_attempt q p attempt (threw permanent) = fail_run q p
end_attempt q p attempt (threw retryable) =
    if leb q.max_attempts attempt
    then fail_run q p
    else record q { retries = q.retries + 1; runs = set_phase p (backing_off attempt) q.runs }

-- The task of a promise settles.
pub on_attempt : Queue → ℕ → AttemptResult → Queue
unfolding end_attempt
on_attempt q p result = elim (find_run p q.runs) [
  | none ↦ q
  | some r ↦ elim r.phase [ attempting attempt ↦ end_attempt q p attempt result | _ ↦ q ]
]

-- The end of the sleep, `attempt += 1` and the test of the loop.
pub on_wake : Queue → ℕ → Queue
unfolding fail_run set_phase
on_wake q p = elim (find_run p q.runs) [
  | none ↦ q
  | some r ↦ elim r.phase [
    | backing_off attempt ↦
        if leb (attempt + 1) q.max_attempts
        then record q { runs = set_phase p (attempting (attempt + 1)) q.runs }
        else fail_run q p
    | _ ↦ q
  ]
]

-- The delay of the sleep behind an attempt.
pub backoff_ms : Queue → ℕ → ℕ
backoff_ms q attempt = q.retry_delay_ms * 2 ^ (attempt - 1)

-- The state before `#schedule` in the `finally` handler.
pub release : Queue → Run → Queue
unfolding remove_run
release q r = record q {
  running = q.running - 1;
  active_keys = delete_key r.item.ordering_key q.active_keys;
  runs = remove_run r.item.promise q.runs;
}

-- The `finally` handler of a call of `#run`.
pub on_finally : Queue → ℕ → Queue
unfolding release resolve_drain
on_finally q p = elim (find_run p q.runs) [
  | none ↦ q
  | some r ↦ elim r.phase [ returned ↦ resolve_drain (schedule (release q r)) | _ ↦ q ]
]

-- `drain`, for a caller known by a number.
pub drain : Queue → ℕ → Queue
drain q w =
    if (length q.pending == 0) && (q.running == 0)
    then record q { drained = w ∷ q.drained }
    else record q { drain_waiters = q.drain_waiters ++ w ∷ [] }

pub close : Queue → ℕ → Queue
unfolding drain
close q w = drain (record q { closed = true }) w

-- What the environment does.
pub data Event : Type 0 where
  submits : QueueItem → Bool → Event
  aborts : ℕ → Event
  attempt_ends : ℕ → AttemptResult → Event
  wakes : ℕ → Event
  run_ends : ℕ → Event
  drains : ℕ → Event
  closes : ℕ → Event

-- A refused submission leaves the queue as it was.
abbrev pub after : Queue → Result QueueErrorCode Queue → Queue
after q (ok q') = q'
after q (err e) = q

pub step : Queue → Event → Queue
step q (submits i signal_aborted) = after q (submit q i signal_aborted)
step q (aborts p) = on_abort q p
step q (attempt_ends p result) = on_attempt q p result
step q (wakes p) = on_wake q p
step q (run_ends p) = on_finally q p
step q (drains w) = drain q w
step q (closes w) = close q w

pub run : Queue → List Event → Queue
run q [] = q
run q (e ∷ es) = run (step q e) es
