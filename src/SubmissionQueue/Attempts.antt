-- ===== src/SubmissionQueue/Attempts.antt =====
-- `#run` and its `finally` handler, of packages/core/src/fleet/submissionQueue.ts.
use stellar_agentic.Base.{
  ℕ, ◌+◌, ◌≡◌, refl, ◌∙◌, ap, subst, inl, inr, if◌then◌else◌, some, leb, Bool-cases, Option-cases,
  arith,
}
use stellar_agentic.SubmissionQueue.{
  Run, Phase, attempting, backing_off, returned, Queue, schedule, resolve_drain, find_run,
  set_phase, fail_run, AttemptResult, fulfilled, threw, retryable, expired, permanent, end_attempt,
  on_attempt, on_wake, release, on_finally, delete_key,
}
use stellar_agentic.SubmissionQueue.Schedule.{Core, PhaseOk, Distinct, schedule-Scheduled}
use stellar_agentic.SubmissionQueue.Runs.{
  length-set_phase, run_keys-set_phase, set_phase-PhaseOk, find_run-PhaseOk, length-remove_run,
  remove_run-PhaseOk, find_run-promise, delete_key-Distinct, delete_key-run_keys,
}
use stellar_agentic.SubmissionQueue.Invariant.{Inv, Core-frame, resolve_drain-Inv}

module _ (q : Queue) (v : Inv q) where
  set_phase-Core :
      (p : ℕ) (f : Phase)
      → PhaseOk q.max_attempts f
      → Core (record q { runs = set_phase p f q.runs })
  set_phase-Core p f h =
      let c = v.core in
      record {
        counted = rw length-set_phase c.counted;
        within = c.within;
        keys = rw run_keys-set_phase c.keys;
        distinct = c.distinct;
        attempts = set_phase-PhaseOk p q.max_attempts f q.runs h c.attempts;
        allowed = c.allowed;
      }

  -- An event that moves one run on, and leaves the queue of items alone.
  moved-Inv :
      (q' : Queue) (p : ℕ) (f : Phase)
      → PhaseOk q.max_attempts f
      → q'.config ≡ q.config
      → q'.running ≡ q.running
      → q'.active_keys ≡ q.active_keys
      → q'.pending ≡ q.pending
      → q'.drain_waiters ≡ q.drain_waiters
      → q'.runs ≡ set_phase p f q.runs
      → Inv q'
  moved-Inv q' p f h config running keys pending waiters runs = record {
    core =
        Core-frame (record q { runs = set_phase p f q.runs }) q' config running keys runs
          (set_phase-Core p f h);
    busy = rw (running, config, keys, pending) v.busy;
    depth = rw (pending, config) v.depth;
    waits = rw (waiters, pending, running) v.waits;
    workers = rw config v.workers;
  }

  end_attempt-Inv :
      (p attempt : ℕ) (result : AttemptResult)
      → PhaseOk q.max_attempts (attempting attempt)
      → Inv (end_attempt q p attempt result)
  unfolding end_attempt
  end_attempt-Inv p attempt fulfilled h = moved-Inv _ p returned tt refl refl refl refl refl refl
  end_attempt-Inv p attempt (threw expired) h =
      moved-Inv _ p returned tt refl refl refl refl refl refl
  end_attempt-Inv p attempt (threw permanent) h =
      moved-Inv _ p returned tt refl refl refl refl refl refl
  end_attempt-Inv p attempt (threw retryable) h = elim (Bool-cases (leb q.max_attempts attempt)) [
    | inl last ↦ rw last (moved-Inv _ p returned tt refl refl refl refl refl refl)
    | inr more ↦
        rw more
          (moved-Inv _ p (backing_off attempt) (h.0, ground arith) refl refl refl refl refl refl)
  ]

  attempt_of_phase-Inv :
      (p : ℕ) (result : AttemptResult) (f : Phase)
      → PhaseOk q.max_attempts f
      → Inv (elim f [ attempting attempt ↦ end_attempt q p attempt result | _ ↦ q ])
  attempt_of_phase-Inv p result (attempting n) h = end_attempt-Inv p n result h
  attempt_of_phase-Inv p result (backing_off n) h = v
  attempt_of_phase-Inv p result returned h = v

  phase_of_run : (p : ℕ) (r : Run) → find_run p q.runs ≡ some r → PhaseOk q.max_attempts r.phase
  phase_of_run p r e = find_run-PhaseOk p q.max_attempts q.runs r e v.core.attempts

  pub on_attempt-Inv : (p : ℕ) (result : AttemptResult) → Inv (on_attempt q p result)
  unfolding on_attempt
  on_attempt-Inv p result = elim (Option-cases (find_run p q.runs)) [
    | inl e ↦ rw (e, on_attempt) v
    | inr (r, e) ↦ rw (e, on_attempt) (attempt_of_phase-Inv p result r.phase (phase_of_run p r e))
  ]

  wake_of_phase-Inv :
      (p : ℕ) (f : Phase)
      → PhaseOk q.max_attempts f
      → Inv (elim f [
        | backing_off attempt ↦
            if leb (attempt + 1) q.max_attempts
            then record q { runs = set_phase p (attempting (attempt + 1)) q.runs }
            else fail_run q p
        | _ ↦ q
      ])
  unfolding fail_run
  wake_of_phase-Inv p (attempting n) h = v
  wake_of_phase-Inv p (backing_off n) h = elim (Bool-cases (leb (n + 1) q.max_attempts)) [
    | inl again ↦ rw again (
        moved-Inv _ p (attempting (n + 1)) (omega arith, ground arith) refl refl refl refl refl
          refl)
    | inr over ↦ rw over (moved-Inv _ p returned tt refl refl refl refl refl refl)
  ]
  wake_of_phase-Inv p returned h = v

  pub on_wake-Inv : (p : ℕ) → Inv (on_wake q p)
  unfolding on_wake
  on_wake-Inv p = elim (Option-cases (find_run p q.runs)) [
    | inl e ↦ rw (e, on_wake) v
    | inr (r, e) ↦ rw (e, on_wake) (wake_of_phase-Inv p r.phase (phase_of_run p r e))
  ]

  release-Core : (p : ℕ) (r : Run) → find_run p q.runs ≡ some r → Core (release q r)
  unfolding release
  release-Core p r e =
      let c = v.core in
      let count = length-remove_run p q.runs r e in
      rw (find_run-promise p q.runs r e) (record {
        counted = omega (arith, c.counted);
        within = omega (arith, c.within);
        keys =
            ap (delete_key r.item.ordering_key) c.keys
            ∙ delete_key-run_keys p q.runs r e (subst Distinct c.keys c.distinct);
        distinct = delete_key-Distinct r.item.ordering_key q.active_keys c.distinct;
        attempts = remove_run-PhaseOk p q.max_attempts q.runs c.attempts;
        allowed = c.allowed;
      })

  finally-Inv :
      (p : ℕ) (r : Run) → find_run p q.runs ≡ some r → Inv (resolve_drain (schedule (release q r)))
  unfolding release
  finally-Inv p r e =
      let s = schedule-Scheduled (release q r) (release-Core p r e) in
      let d = v.depth in
      resolve_drain-Inv (schedule (release q r)) (record {
        core = s.core;
        busy = s.busy;
        depth = rw s.same_config (omega (arith, s.shrinks));
        workers = rw s.same_config v.workers;
      })

  finally_of_phase-Inv :
      (p : ℕ) (r : Run) (f : Phase)
      → find_run p q.runs ≡ some r
      → Inv (elim f [ returned ↦ resolve_drain (schedule (release q r)) | _ ↦ q ])
  finally_of_phase-Inv p r (attempting n) e = v
  finally_of_phase-Inv p r (backing_off n) e = v
  finally_of_phase-Inv p r returned e = finally-Inv p r e

  pub on_finally-Inv : (p : ℕ) → Inv (on_finally q p)
  unfolding on_finally
  on_finally-Inv p = elim (Option-cases (find_run p q.runs)) [
    | inl e ↦ rw (e, on_finally) v
    | inr (r, e) ↦ rw (e, on_finally) (finally_of_phase-Inv p r r.phase e)
  ]
