-- ===== src/SubmissionQueue/Settlements.antt =====
-- What becomes of the promises that `submit` of packages/core/src/fleet/submissionQueue.ts hands
-- out: each is in the queue, with a run, or settled, and never in two of these places.
use stellar_agentic.Base.{
  ℕ, zero, suc, ◌+◌, ◌≡◌, refl, ◌∙◌, Option, none, some, List, [], ◌∷◌, ◌++◌, length, ltb, leb,
  ◌==◌, if◌then◌else◌, Bool, Bool-cases, Option-cases, inl, inr, Result, ok, err, arith,
}
use stellar_agentic.SubmissionQueue.Runs.{find_run-promise}
use stellar_agentic.SubmissionQueue.{
  QueueItem, Run, Phase, attempting, backing_off, returned, Settlement, rejected_aborted, Queue,
  take_free, start, schedule_loop, schedule, resolve_drain, submit, remove_pending, on_abort,
  find_run, set_phase, remove_run, fail_run, AttemptResult, fulfilled, threw, retryable, expired,
  permanent, end_attempt, on_attempt, on_wake, release, on_finally, drain, after, QueueErrorCode,
}

-- 1 for the promise that is meant, and 0 for the others.
abbrev pub one : ℕ → ℕ → ℕ
one p a = if p == a then 1 else 0

abbrev pub waiting : ℕ → List QueueItem → ℕ
waiting a [] = 0
waiting a (i ∷ is) = one i.promise a + waiting a is

abbrev unsettled : ℕ → ℕ → Phase → ℕ
unsettled a p returned = 0
unsettled a p _ = one p a

-- How many runs have yet to settle the promise.
abbrev pub in_flight : ℕ → List Run → ℕ
in_flight a [] = 0
in_flight a (r ∷ rs) = unsettled a r.item.promise r.phase + in_flight a rs

-- How often the promise was settled.
abbrev pub settlements : ℕ → List (ℕ × Settlement) → ℕ
settlements a [] = 0
settlements a ((p, s) ∷ ss) = one p a + settlements a ss

abbrev pub total : ℕ → Queue → ℕ
total a q = waiting a q.pending + in_flight a q.runs + settlements a q.settled

waiting-append :
    (a : ℕ) (is js : List QueueItem) → waiting a (is ++ js) ≡ waiting a is + waiting a js
waiting-append a [] js = omega arith
waiting-append a (i ∷ is) js = omega (arith, waiting-append a is js)

abbrev Splits : ℕ → List QueueItem → Option (QueueItem × List QueueItem) → Type 0
Splits a is none = Unit
Splits a is (some (i, rest)) = waiting a is ≡ one i.promise a + waiting a rest

take_free-Splits : (a : ℕ) (ks : List ℕ) (is : List QueueItem) → Splits a is (take_free ks is)
unfolding take_free
take_free-Splits a ks [] = tt
take_free-Splits a ks (i ∷ is) = ground (arith, take_free-Splits a ks is)

total-start :
    (a : ℕ) (q : Queue) (i : QueueItem) (rest : List QueueItem)
    → waiting a q.pending ≡ one i.promise a + waiting a rest
    → total a (start q i rest) ≡ total a q
unfolding start
total-start a q i rest e = omega arith

total-round :
    (a : ℕ) (q : Queue) (next : Queue → Queue) (t : Option (QueueItem × List QueueItem))
    → Splits a q.pending t
    → ((q' : Queue) → total a (next q') ≡ total a q')
    → total a (elim t [ none ↦ q | some (i, rest) ↦ next (start q i rest) ]) ≡ total a q
total-round a q next none s h = refl
total-round a q next (some (i, rest)) s h = h (start q i rest) ∙ total-start a q i rest s

total-schedule_loop : (a fuel : ℕ) (q : Queue) → total a (schedule_loop fuel q) ≡ total a q
unfolding schedule_loop
total-schedule_loop a zero q = refl
total-schedule_loop a (suc fuel) q = elim (Bool-cases (ltb q.running q.concurrency)) [
  | inl room ↦ rw room (
      total-round a q (schedule_loop fuel) (take_free q.active_keys q.pending)
        (take_free-Splits a q.active_keys q.pending) (total-schedule_loop a fuel))
  | inr full ↦ rw full refl
]

total-schedule : (a : ℕ) (q : Queue) → total a (schedule q) ≡ total a q
unfolding schedule
total-schedule a q = total-schedule_loop a (length q.pending) q

total-resolve_drain : (a : ℕ) (q : Queue) → total a (resolve_drain q) ≡ total a q
unfolding resolve_drain
total-resolve_drain a q = ground arith

waiting-remove_pending :
    (a p : ℕ) (is rest : List QueueItem)
    → remove_pending p is ≡ some rest
    → waiting a is ≡ one p a + waiting a rest
unfolding remove_pending
waiting-remove_pending a p [] rest e = cc
waiting-remove_pending a p (i ∷ is) rest e = elim (Option-cases (remove_pending p is)) [
  | inl absent ↦ ground arith
  | inr (kept, found) ↦ ground (arith, waiting-remove_pending a p is kept found)
]

pub total-on_abort : (a p : ℕ) (q : Queue) → total a (on_abort q p) ≡ total a q
unfolding on_abort
total-on_abort a p q = elim (Option-cases (remove_pending p q.pending)) [
  | inl e ↦ rw (e, on_abort) refl
  | inr (rest, e) ↦
      let left = record q { pending = rest; settled = (p, rejected_aborted) ∷ q.settled } in
      rw (e, on_abort)
        (omega (arith, total-resolve_drain a left, waiting-remove_pending a p q.pending rest e))
]

-- A run moves from one phase to another.
in_flight-set_phase :
    (a p : ℕ) (f : Phase) (rs : List Run) (r : Run)
    → find_run p rs ≡ some r
    → in_flight a rs + unsettled a p f ≡ unsettled a p r.phase + in_flight a (set_phase p f rs)
unfolding find_run set_phase
in_flight-set_phase a p f [] r e = cc
in_flight-set_phase a p f (x ∷ xs) r e = elim (Bool-cases (x.item.promise == p)) [
  | inl hit ↦
      let same : x ≡ r = ground arith in
      let named : x.item.promise ≡ p = ground arith in rw (hit, ← same, named) (omega arith)
  | inr miss ↦ rw miss (
      omega (
        arith,
        in_flight-set_phase a p f xs r (let found : find_run p xs ≡ some r = ground arith in found),
      ))
]

in_flight-remove_run :
    (a p : ℕ) (rs : List Run) (r : Run)
    → find_run p rs ≡ some r
    → in_flight a rs ≡ unsettled a p r.phase + in_flight a (remove_run p rs)
unfolding find_run remove_run
in_flight-remove_run a p [] r e = cc
in_flight-remove_run a p (x ∷ xs) r e = elim (Bool-cases (x.item.promise == p)) [
  | inl hit ↦
      let same : x ≡ r = ground arith in
      let named : x.item.promise ≡ p = ground arith in rw (hit, ← same, named) (omega arith)
  | inr miss ↦ rw miss (
      omega (
        arith,
        in_flight-remove_run a p xs r (let found : find_run p xs ≡ some r = ground arith in found),
      ))
]

module _ (a : ℕ) (q : Queue) (p : ℕ) (r : Run) (e : find_run p q.runs ≡ some r) where
  -- The run of an unsettled promise returns.
  in_flight-return :
      unsettled a p r.phase ≡ one p a
      → in_flight a q.runs ≡ one p a + in_flight a (set_phase p returned q.runs)
  in_flight-return live = omega (arith, live, in_flight-set_phase a p returned q.runs r e)

  -- It goes on, unsettled.
  in_flight-continue :
      (f : Phase)
      → unsettled a p r.phase ≡ one p a
      → unsettled a p f ≡ one p a
      → in_flight a (set_phase p f q.runs) ≡ in_flight a q.runs
  in_flight-continue f live live' = omega (arith, live, live', in_flight-set_phase a p f q.runs r e)

  total-end_attempt :
      (attempt : ℕ) (result : AttemptResult)
      → unsettled a p r.phase ≡ one p a
      → total a (end_attempt q p attempt result) ≡ total a q
  unfolding end_attempt
  total-end_attempt attempt fulfilled live = omega (arith, in_flight-return live)
  total-end_attempt attempt (threw expired) live = omega (arith, in_flight-return live)
  total-end_attempt attempt (threw permanent) live = omega (arith, in_flight-return live)
  total-end_attempt attempt (threw retryable) live =
      elim (Bool-cases (leb q.max_attempts attempt)) [
        | inl last ↦ rw last (omega (arith, in_flight-return live))
        | inr more ↦ rw more (omega (arith, in_flight-continue (backing_off attempt) live refl))
      ]

  total-wake :
      (attempt : ℕ)
      → unsettled a p r.phase ≡ one p a
      → total a (
          if leb (attempt + 1) q.max_attempts
          then record q { runs = set_phase p (attempting (attempt + 1)) q.runs }
          else fail_run q p)
        ≡ total a q
  unfolding fail_run
  total-wake attempt live = elim (Bool-cases (leb (attempt + 1) q.max_attempts)) [
    | inl again ↦ rw again (omega (arith, in_flight-continue (attempting (attempt + 1)) live refl))
    | inr over ↦ rw over (omega (arith, in_flight-return live))
  ]

  attempt_of_phase :
      (result : AttemptResult) (f : Phase)
      → r.phase ≡ f
      → total a (elim f [ attempting n ↦ end_attempt q p n result | _ ↦ q ]) ≡ total a q
  attempt_of_phase result (attempting n) h = total-end_attempt n result (rw h refl)
  attempt_of_phase result (backing_off n) h = refl
  attempt_of_phase result returned h = refl

  wake_of_phase :
      (f : Phase)
      → r.phase ≡ f
      → total a (elim f [
        | backing_off attempt ↦
            if leb (attempt + 1) q.max_attempts
            then record q { runs = set_phase p (attempting (attempt + 1)) q.runs }
            else fail_run q p
        | _ ↦ q
      ])
        ≡ total a q
  wake_of_phase (attempting n) h = refl
  wake_of_phase (backing_off n) h = total-wake n (rw h refl)
  wake_of_phase returned h = refl

  total-release : r.phase ≡ returned → total a (release q r) ≡ total a q
  unfolding release
  total-release h =
      let removed = in_flight-remove_run a p q.runs r e in
      let done : unsettled a p r.phase ≡ 0 = rw h refl in
      rw (find_run-promise p q.runs r e) (omega (arith, done, removed))

  finally_of_phase :
      (f : Phase)
      → r.phase ≡ f
      → total a (elim f [ returned ↦ resolve_drain (schedule (release q r)) | _ ↦ q ]) ≡ total a q
  finally_of_phase (attempting n) h = refl
  finally_of_phase (backing_off n) h = refl
  finally_of_phase returned h =
      total-resolve_drain a (schedule (release q r))
      ∙ total-schedule a (release q r)
      ∙ total-release h

module _ (a : ℕ) (q : Queue) where
  pub total-on_attempt :
      (p : ℕ) (result : AttemptResult) → total a (on_attempt q p result) ≡ total a q
  unfolding on_attempt
  total-on_attempt p result = elim (Option-cases (find_run p q.runs)) [
    | inl e ↦ rw (e, on_attempt) refl
    | inr (r, e) ↦ rw (e, on_attempt) (attempt_of_phase a q p r e result r.phase refl)
  ]

  pub total-on_wake : (p : ℕ) → total a (on_wake q p) ≡ total a q
  unfolding on_wake
  total-on_wake p = elim (Option-cases (find_run p q.runs)) [
    | inl e ↦ rw (e, on_wake) refl
    | inr (r, e) ↦ rw (e, on_wake) (wake_of_phase a q p r e r.phase refl)
  ]

  pub total-on_finally : (p : ℕ) → total a (on_finally q p) ≡ total a q
  unfolding on_finally
  total-on_finally p = elim (Option-cases (find_run p q.runs)) [
    | inl e ↦ rw (e, on_finally) refl
    | inr (r, e) ↦ rw (e, on_finally) (finally_of_phase a q p r e r.phase refl)
  ]

  pub total-drain : (w : ℕ) → total a (drain q w) ≡ total a q
  unfolding drain
  total-drain w = ground arith

  -- 1 if the submission of the promise was accepted.
  abbrev pub entry : QueueItem → Result QueueErrorCode Queue → ℕ
  entry i (ok _) = one i.promise a
  entry i (err _) = 0

  pub total-submit :
      (i : QueueItem) (signal_aborted : Bool)
      → total a (after q (submit q i signal_aborted))
        ≡ total a q + entry i (submit q i signal_aborted)
  unfolding submit
  total-submit i signal_aborted = ground (
    arith,
    total-schedule a (record q { pending = q.pending ++ i ∷ [] }),
    waiting-append a q.pending (i ∷ []),
  )
