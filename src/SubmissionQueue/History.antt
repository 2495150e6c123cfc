-- ===== src/SubmissionQueue/History.antt =====
-- What holds after any history of the queue of packages/core/src/fleet/submissionQueue.ts.
use stellar_agentic.Base.{
  ℕ, ◌+◌, ◌<◌, ◌≡◌, refl, ◌≢◌, ◌∙◌, ap, true, false, some, none, List, [], ◌∷◌, All, All-imp,
  length, ok, inl, inr, subst, arith,
}
use stellar_agentic.SubmissionQueue.{
  QueueItem, OrderingKey, Config, Queue, create, is_free, has, submit, Event, submits, aborts,
  attempt_ends, wakes, run_ends, drains, closes, step, run, close,
}
use stellar_agentic.SubmissionQueue.Schedule.{run_keys}
use stellar_agentic.SubmissionQueue.Invariant.{Inv, create-Inv}
use stellar_agentic.SubmissionQueue.Events.{run-Inv}
use stellar_agentic.SubmissionQueue.Settlements.{
  waiting, in_flight, settlements, total, total-on_abort, total-on_attempt, total-on_wake,
  total-on_finally, total-drain, entry, total-submit,
}

-- How often the event hands out the promise.
abbrev pub entries : ℕ → Queue → Event → ℕ
entries a q (submits i signal_aborted) = entry a q i (submit q i signal_aborted)
entries a q _ = 0

abbrev pub accepted : ℕ → Queue → List Event → ℕ
accepted a q [] = 0
accepted a q (e ∷ es) = entries a q e + accepted a (step q e) es

total-close : (a : ℕ) (q : Queue) (w : ℕ) → total a (close q w) ≡ total a q
unfolding close
total-close a q w = total-drain a (record q { closed = true }) w

total-step : (a : ℕ) (q : Queue) (e : Event) → total a (step q e) ≡ total a q + entries a q e
unfolding step
total-step a q (submits i s) = total-submit a q i s
total-step a q (aborts p) = omega (arith, total-on_abort a p q)
total-step a q (attempt_ends p result) = omega (arith, total-on_attempt a q p result)
total-step a q (wakes p) = omega (arith, total-on_wake a q p)
total-step a q (run_ends p) = omega (arith, total-on_finally a q p)
total-step a q (drains w) = omega (arith, total-drain a q w)
total-step a q (closes w) = omega (arith, total-close a q w)

total-run : (a : ℕ) (q : Queue) (es : List Event) → total a (run q es) ≡ total a q + accepted a q es
unfolding run
total-run a q [] = omega arith
total-run a q (e ∷ es) = omega (arith, total-run a (step q e) es, total-step a q e)

total-create : (a : ℕ) (c : Config) (q : Queue) → create c ≡ ok q → total a q ≡ 0
unfolding create
total-create a c q e = ground arith

own_key :
    (key : OrderingKey) (ks ks' : List ℕ)
    → ks ≡ ks'
    → is_free key ks ≡ false
    → (k : ℕ) × (key ≡ some k) × (has k ks' ≡ true)
own_key none ks ks' e h = absurd (ground arith)
own_key (some k) ks ks' e h = (k, refl, rw (← e) (ground arith))

no_key_no_wait : (is : List QueueItem) → All (λ i. is_free i.ordering_key [] ≡ false) is → is ≡ []
no_key_no_wait [] h = refl
no_key_no_wait (i ∷ is) h = absurd (ground arith)

-- With nothing in flight, nothing waits.
idle-empty : (q : Queue) → Inv q → q.runs ≡ [] → q.pending ≡ []
idle-empty q v e = elim v.busy [
  | inl full ↦ absurd (omega (arith, v.workers, v.core.counted, ap length e))
  | inr blocked ↦
      let no_keys : q.active_keys ≡ [] = v.core.keys ∙ ap run_keys e in
      no_key_no_wait q.pending
        (subst (λ ks. All (λ i. is_free i.ordering_key ks ≡ false) q.pending) no_keys blocked)
]

module _ (c : Config) (q : Queue) (made : create c ≡ ok q) (es : List Event) where
  reached : Inv (run q es)
  reached = run-Inv q es (create-Inv c q made)

  -- After any history of a new queue: no more runs than the concurrency, no two of them with one
  -- ordering key, no more items waiting than the bound, each run in an attempt from 1 to the
  -- bound, no item waiting that may start, and no caller of `drain` waiting on an idle queue.
  pub history-Inv : Inv (run q es)
  history-Inv = reached

  -- Every promise that `submit` accepted is in one place: in the queue, with an unsettled run, or
  -- settled; it is never lost, and never settled more often than it was handed out.
  pub promise_accounted :
      (a : ℕ)
      → let q' = run q es in
        waiting a q'.pending + in_flight a q'.runs + settlements a q'.settled ≡ accepted a q es
  promise_accounted a = omega (arith, total-run a q es, total-create a c q made)

  -- An item that waits while a worker is free waits for a run with its own ordering key.
  pub waits_for_own_key :
      (run q es).running < (run q es).concurrency
      → All
          (λ i. (k : ℕ) × (i.ordering_key ≡ some k) × (has k (run_keys (run q es).runs) ≡ true))
          (run q es).pending
  waits_for_own_key room = elim reached.busy [
    | inl full ↦ absurd (omega arith)
    | inr blocked ↦
        All-imp (run q es).pending
          (λ i. own_key i.ordering_key (run q es).active_keys _ reached.core.keys) blocked
  ]

  -- A queue with a waiting item has a run in flight, whose end makes it look again.
  pub never_stuck : (run q es).pending ≢ [] → (run q es).runs ≢ []
  never_stuck waiting_items e = waiting_items (idle-empty (run q es) reached e)
