-- ===== src/SubmissionQueue/Submission.antt =====
-- `submit` and the abort listener of packages/core/src/fleet/submissionQueue.ts.
use stellar_agentic.Base.{
  ℕ, ◌≤◌, ◌<◌, ◌≡◌, refl, subst, ◌⊎◌, inl, inr, Bool, true, false, ◌==◌, some, List, [], ◌∷◌, ◌++◌,
  All, length, length-append, leb, Bool-cases, Option-cases, ok, arith,
}
use stellar_agentic.SubmissionQueue.{
  QueueItem, Queue, is_free, take_free, schedule, can_start, submit, remove_pending, on_abort,
}
use stellar_agentic.SubmissionQueue.Schedule.{Core, schedule-Scheduled, schedule_progress}
use stellar_agentic.SubmissionQueue.Invariant.{Inv, Core-frame, resolve_drain-Inv}

take_free_last :
    (ks : List ℕ) (is : List QueueItem) (i : QueueItem)
    → All (λ x. is_free x.ordering_key ks ≡ false) is
    → is_free i.ordering_key ks ≡ true
    → take_free ks (is ++ i ∷ []) ≡ some (i, is)
unfolding take_free
take_free_last ks [] i h f = rw f refl
take_free_last ks (x ∷ xs) i h f = rw (h.0, take_free_last ks xs i h.1 f) refl

-- A queue that another item has entered.
abbrev entered : Queue → QueueItem → Queue
entered q i = record q { pending = q.pending ++ i ∷ [] }

remove_pending-All :
    (P : QueueItem → Type 0) (p : ℕ) (is rest : List QueueItem)
    → remove_pending p is ≡ some rest
    → All P is
    → All P rest
unfolding remove_pending
remove_pending-All P p [] rest e h = cc
remove_pending-All P p (i ∷ is) rest e h = elim (Bool-cases (i.promise == p)) [
  | inl hit ↦ subst (All P) (let same : is ≡ rest = ground arith in same) h.1
  | inr miss ↦ elim (Option-cases (remove_pending p is)) [
    | inl absent ↦ absurd (ground arith)
    | inr (kept, found) ↦
        subst (All P) (let same : i ∷ kept ≡ rest = ground arith in same)
          (h.0, remove_pending-All P p is kept found h.1)
  ]
]

length-remove_pending :
    (p : ℕ) (is rest : List QueueItem) → remove_pending p is ≡ some rest → length rest ≤ length is
unfolding remove_pending
length-remove_pending p [] rest e = cc
length-remove_pending p (i ∷ is) rest e = elim (Option-cases (remove_pending p is)) [
  | inl absent ↦ ground arith
  | inr (kept, found) ↦ ground (arith, length-remove_pending p is kept found)
]

module _ (q : Queue) (v : Inv q) where
  entered-Core : (i : QueueItem) → Core (entered q i)
  entered-Core i = Core-frame q (entered q i) refl refl refl refl v.core

  -- An item that may start at once does not stay in the queue.
  depth_of_start :
      (i : QueueItem)
      → can_start q i.ordering_key ≡ true
      → length (schedule (entered q i)).pending ≤ q.max_queue_size
  unfolding can_start
  depth_of_start i h = elim v.busy [
    | inl full ↦ absurd (ground arith)
    | inr blocked ↦
        let room : q.running < q.concurrency = ground arith in
        let free : is_free i.ordering_key q.active_keys ≡ true = ground arith in
        let p =
          schedule_progress (entered q i) i q.pending (entered-Core i) room
            (take_free_last q.active_keys q.pending i blocked free) in
        let d = v.depth in omega (arith, length-append q.pending (i ∷ []), p, d)
  ]

  depth_of_room :
      (i : QueueItem)
      → leb q.max_queue_size (length q.pending) ≡ false
      → length (schedule (entered q i)).pending ≤ q.max_queue_size
  depth_of_room i h =
      let s = schedule-Scheduled (entered q i) (entered-Core i) in
      let n = length-append q.pending (i ∷ []) in let bound = s.shrinks in ground arith

  schedule-entered-Inv :
      (i : QueueItem)
      → length (schedule (entered q i)).pending ≤ q.max_queue_size
      → Inv (schedule (entered q i))
  schedule-entered-Inv i h =
      let s = schedule-Scheduled (entered q i) (entered-Core i) in
      record {
        core = s.core;
        busy = s.busy;
        depth = rw s.same_config h;
        waits = inr (omega (arith, s.total, length-append q.pending (i ∷ [])));
        workers = rw s.same_config v.workers;
      }

  submit-ok :
      (i : QueueItem) (a : Bool) (q' : Queue)
      → submit q i a ≡ ok q'
      → (q' ≡ schedule (entered q i))
        × ((can_start q i.ordering_key ≡ true) ⊎ (leb q.max_queue_size (length q.pending) ≡ false))
  unfolding submit
  submit-ok i a q' e = (ground arith, ground arith)

  pub submit-Inv : (i : QueueItem) (a : Bool) (q' : Queue) → submit q i a ≡ ok q' → Inv q'
  submit-Inv i a q' e =
      let (same, why) = submit-ok i a q' e in
      rw same (
        schedule-entered-Inv i
          (elim why [ inl start ↦ depth_of_start i start | inr room ↦ depth_of_room i room ]))

  pub on_abort-Inv : (p : ℕ) → Inv (on_abort q p)
  unfolding on_abort
  on_abort-Inv p = elim (Option-cases (remove_pending p q.pending)) [
    | inl e ↦ rw (e, on_abort) v
    | inr (rest, e) ↦
        rw (e, on_abort)
          (resolve_drain-Inv _ (record {
            core = Core-frame q _ refl refl refl refl v.core;
            busy = elim v.busy [
              | inl full ↦ inl full
              | inr blocked ↦ inr (remove_pending-All _ p q.pending rest e blocked)
            ];
            depth = let d = v.depth in omega (arith, length-remove_pending p q.pending rest e);
            workers = v.workers;
          }))
  ]
