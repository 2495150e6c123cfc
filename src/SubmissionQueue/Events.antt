-- ===== src/SubmissionQueue/Events.antt =====
-- The events of the queue of packages/core/src/fleet/submissionQueue.ts, and what a history keeps.
use stellar_agentic.Base.{
  ℕ, ◌≡◌, refl, inl, inr, Bool, true, ◌&&◌, ◌==◌, List, [], ◌∷◌, length, Bool-cases, ok, err,
  Result, arith,
}
use stellar_agentic.SubmissionQueue.{
  QueueItem, Queue, submit, drain, close, Event, submits, aborts, attempt_ends, wakes, run_ends,
  drains, closes, step, run, after, QueueErrorCode,
}
use stellar_agentic.SubmissionQueue.Invariant.{Inv, Core-frame}
use stellar_agentic.SubmissionQueue.Submission.{submit-Inv, on_abort-Inv}
use stellar_agentic.SubmissionQueue.Attempts.{on_attempt-Inv, on_wake-Inv, on_finally-Inv}

drain-Inv : (q : Queue) (w : ℕ) → Inv q → Inv (drain q w)
unfolding drain
drain-Inv q w v = elim (Bool-cases ((length q.pending == 0) && (q.running == 0))) [
  | inl idle ↦ rw idle (record {
    core = Core-frame q _ refl refl refl refl v.core;
    busy = v.busy;
    depth = v.depth;
    waits = v.waits;
    workers = v.workers;
  })
  | inr work ↦ rw work (record {
    core = Core-frame q _ refl refl refl refl v.core;
    busy = v.busy;
    depth = v.depth;
    waits = inr (ground arith);
    workers = v.workers;
  })
]

close-Inv : (q : Queue) (w : ℕ) → Inv q → Inv (close q w)
unfolding close
close-Inv q w v =
    drain-Inv (record q { closed = true }) w
      (record {
        core = Core-frame q _ refl refl refl refl v.core;
        busy = v.busy;
        depth = v.depth;
        waits = v.waits;
        workers = v.workers;
      })

after-submit-Inv :
    (q : Queue) (i : QueueItem) (a : Bool) (r : Result QueueErrorCode Queue)
    → submit q i a ≡ r
    → Inv q
    → Inv (after q r)
after-submit-Inv q i a (ok q') e v = submit-Inv q v i a q' e
after-submit-Inv q i a (err c) e v = v

-- Every event keeps the invariant.
pub step-Inv : (q : Queue) (e : Event) → Inv q → Inv (step q e)
unfolding step
step-Inv q (submits i a) v = after-submit-Inv q i a (submit q i a) refl v
step-Inv q (aborts p) v = on_abort-Inv q v p
step-Inv q (attempt_ends p result) v = on_attempt-Inv q v p result
step-Inv q (wakes p) v = on_wake-Inv q v p
step-Inv q (run_ends p) v = on_finally-Inv q v p
step-Inv q (drains w) v = drain-Inv q w v
step-Inv q (closes w) v = close-Inv q w v

pub run-Inv : (q : Queue) (es : List Event) → Inv q → Inv (run q es)
unfolding run
run-Inv q [] v = v
run-Inv q (e ∷ es) v = run-Inv (step q e) es (step-Inv q e v)
